-- ===== src/Analysis/Response.antt =====
-- app/analysis/prompt.py: the answer of the LLM, parsed and validated.
pub mod Valid
use mind_wall.Prelude.{
  ℕ, suc, ◌+◌, ◌-◌, String, Bool, true, false, not, ◌&&◌, Option, none, some, List, [], ◌∷◌, map,
  ◌==◌, take, drop, length, if◌then◌else◌, Result, ok, err, ◌>>=◌, ◌>>◌,
}
use mind_wall.Wire.{Text, codes, text_eq, is_empty}
use mind_wall.Wire.Numerals.{ℤ}
use mind_wall.Models.Numbers.{Float, FloatOps, min_float, max_float}
use mind_wall.Models.Verdicts.{ManipulationDimension, all_dimensions, dimension_value}

-- What `json.loads` returns.
mutual
  pub data Json : Type 0 where
    null : Json
    boolean : Bool → Json
    integer : ℤ → Json
    number : Float → Json
    text : Text → Json
    array : Elements → Json
    object : Fields → Json

  pub data Elements : Type 0 where
    no_element : Elements
    element : Json → Elements → Elements

  pub data Fields : Type 0 where
    no_field : Fields
    field : Text → Json → Fields → Fields

-- Why the parser has no response: it returns `None`, or an exception that it does not catch leaves it.
pub data NoResponse : Type 0 where
  none_returned raised : NoResponse

-- What the parser calls of Python and its library.
pub record ResponseLibrary : Type 0 where
  -- t.strip()
  pub strip : Text → Text
  -- re.sub(pattern, "", t, flags=re.MULTILINE)
  pub remove : String → Text → Text
  -- json.loads(t); `none_returned` for a JSONDecodeError, which the parser catches
  pub loads : Text → Result NoResponse Json
  -- str(x), of what is not a text
  pub str : Json → Text
  -- float(n), `none` where it raises OverflowError
  pub float_of_int : ℤ → Option Float
  -- float(t), `none` where it raises ValueError
  pub float_of_text : Text → Option Float

pub record LlmAnalysisResponse : Type 0 where
  pub overall_risk : Float
  pub dimension_scores : List (ManipulationDimension × Float)
  pub summary : Text
  pub evidence : List Text
  pub recommended_action : Text
  pub confidence : Float

-- `t.find(c)` and `t.rfind(c)`, `none` for -1.
abbrev pub index_first : ℕ → Text → Option ℕ
index_first c [] = none
index_first c (x ∷ xs) =
    let rest = index_first c xs in
    if x == c then some 0 else elim rest [ none ↦ none | some i ↦ some (suc i) ]

abbrev pub index_last : ℕ → Text → Option ℕ
index_last c [] = none
index_last c (x ∷ xs) = elim (index_last c xs) [
  | some i ↦ some (suc i)
  | none ↦ if x == c then some 0 else none
]

-- `fields.get(key)`, of the last field with the key.
unfoldable pub get_field : Text → Fields → Option Json
get_field key no_field = none
get_field key (field k x rest) = elim (get_field key rest) [
  | some y ↦ some y
  | none ↦ if text_eq k key then some x else none
]

abbrev pub field_or : Json → Option Json → Json
field_or default none = default
field_or default (some x) = x

abbrev pub or_stop {ℓ} : {A : Type ℓ} → NoResponse → Option A → Result NoResponse A
or_stop e none = err e
or_stop e (some a) = ok a

-- `isinstance(data, dict)`, and the call of a dict's method.
abbrev pub as_dict : Json → Result NoResponse Fields
as_dict (object fields) = ok fields
as_dict _ = err none_returned

-- A value that is neither missing nor `None`.
abbrev pub given_value : Option Json → Result NoResponse Json
given_value none = err none_returned
given_value (some null) = err none_returned
given_value (some x) = ok x

-- Where iteration stops at a text or a key, which is a text itself.
abbrev pub letters : Text → List Text
letters [] = []
letters (c ∷ t) = (c ∷ []) ∷ letters t

abbrev pub text_elements : Elements → List Text
text_elements no_element = []
text_elements (element (text t) xs) = t ∷ text_elements xs
text_elements (element _ xs) = text_elements xs

abbrev pub keys : Fields → List Text
keys no_field = []
keys (field k x rest) = k ∷ keys rest

-- The texts among what a loop over the value runs through.
unfoldable pub iterated_texts : Json → Result NoResponse (List Text)
iterated_texts (array xs) = ok (text_elements xs)
iterated_texts (text t) = ok (letters t)
iterated_texts (object fields) = ok (keys fields)
iterated_texts _ = err none_returned

module _ (lib : ResponseLibrary) (ops : FloatOps) where
  open ops use {decimal, le}

  -- `float(x)`.
  unfoldable pub to_float : Json → Result NoResponse Float
  to_float (boolean true) = ok (decimal 1 0)
  to_float (boolean false) = ok (decimal 0 0)
  to_float (integer n) = or_stop raised (lib.float_of_int n)
  to_float (number x) = ok x
  to_float (text t) = or_stop none_returned (lib.float_of_text t)
  to_float _ = err none_returned

  abbrev pub to_text : Json → Text
  to_text (text t) = t
  to_text x = lib.str x

  -- `_clamp`.
  unfoldable pub clamp : Float → Float
  unfolding max_float min_float
  clamp x = max_float ops (decimal 0 1) (min_float ops (decimal 10 1) x)

  -- The score of a dimension, which must be there.
  unfoldable pub required_score : Fields → ManipulationDimension → Result NoResponse Float
  unfolding get_field to_float clamp
  required_score dim_data d = do
    raw_score ← given_value (get_field (codes (dimension_value d)) dim_data)
    x ← to_float raw_score
    ok (clamp x)

  -- The loop over the dimensions.
  unfoldable pub required_scores :
      Fields → List ManipulationDimension → Result NoResponse (List (ManipulationDimension × Float))
  unfolding required_score
  required_scores dim_data [] = ok []
  required_scores dim_data (d ∷ ds) = do
    score ← required_score dim_data d
    rest ← required_scores dim_data ds
    ok ((d, score) ∷ rest)

  -- `data.get(key, default)`.
  abbrev pub get_or : Fields → String → Json → Json
  get_or parsed key default = field_or default (get_field (codes key) parsed)

  abbrev pub risk_of : Fields → Result NoResponse Float
  risk_of parsed = to_float (get_or parsed "overall_risk" (number (decimal 0 1)))

  abbrev pub confidence_of : Fields → Result NoResponse Float
  confidence_of parsed = to_float (get_or parsed "confidence" (number (decimal 5 1)))

  abbrev pub evidence_of : Fields → Result NoResponse (List Text)
  evidence_of parsed = iterated_texts (get_or parsed "evidence" (array no_element))

  -- `data.get("manipulation_dimensions", data)`, whose method `get` is called.
  abbrev pub dimensions_of : Fields → Result NoResponse Fields
  dimensions_of parsed = as_dict (get_or parsed "manipulation_dimensions" (object parsed))

  -- The response that is made of what has been read.
  abbrev pub response_of :
      Fields
      → Float
      → Float
      → List Text
      → List (ManipulationDimension × Float)
      → LlmAnalysisResponse
  response_of parsed risk certainty texts scores = record {
    overall_risk = clamp risk;
    dimension_scores = scores;
    summary = take 500 (to_text (get_or parsed "summary" (text [])));
    evidence = take 10 (map (take 200) texts);
    recommended_action =
        take 30 (to_text (get_or parsed "recommended_action" (text (codes "allow"))));
    confidence = clamp certainty;
  }

  -- The body of the `try`.
  unfoldable pub read_response : Fields → Result NoResponse LlmAnalysisResponse
  unfolding required_scores iterated_texts
  read_response parsed = do
    risk ← risk_of parsed
    certainty ← confidence_of parsed
    texts ← evidence_of parsed
    dim_data ← dimensions_of parsed
    scores ← required_scores dim_data all_dimensions
    ok (response_of parsed risk certainty texts scores)

  abbrev pub in_unit : Float → Bool
  in_unit x = le (decimal 0 1) x && le x (decimal 10 1)

  abbrev pub all_in_unit : List (ManipulationDimension × Float) → Bool
  all_in_unit [] = true
  all_in_unit ((d, s) ∷ rest) = in_unit s && all_in_unit rest

  -- `is_valid`; every key is a dimension.
  unfoldable pub is_valid : LlmAnalysisResponse → Bool
  is_valid r =
      in_unit r.overall_risk
      && (in_unit r.confidence
          && (length r.dimension_scores == length all_dimensions && all_in_unit r.dimension_scores))

  -- The text without the code fences.
  unfoldable pub without_fences : Text → Text
  without_fences raw_text =
      lib.strip (lib.remove "\\s*```$" (lib.remove "^```(?:json)?\\s*" (lib.strip raw_text)))

  -- The text from the first brace to the last one.
  unfoldable pub json_block : Text → Option Text
  json_block t = elim (index_first b'{' t) [
    | none ↦ none
    | some start ↦ elim (index_last b'}' t) [
      | none ↦ none
      | some end ↦ some (take (end + 1 - start) (drop start t))
    ]
  ]

  -- `parse_llm_response`.
  unfoldable pub parse_llm_response : Text → Result NoResponse LlmAnalysisResponse
  unfolding without_fences json_block read_response is_valid
  parse_llm_response raw_text = if is_empty raw_text then err none_returned else (do
    block ← or_stop none_returned (json_block (without_fences raw_text))
    value ← lib.loads block
    parsed ← as_dict value
    result ← read_response parsed
    if is_valid result then ok result else err none_returned)
