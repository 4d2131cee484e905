-- ===== src/Policies/Settings/Casts.antt =====
-- app/policies/service.py, `_validate_value` and the casts of `_get`.
use text.Mathlib.Text.{◌==◌ as str_eq}
use mind_wall.Prelude.{
  String, some, ◌≡◌, refl, subst, inl, inr, Bool, true, false, List, [], ◌∷◌, All, Bool-cases,
  Option-cases, ok,
}
use mind_wall.Models.Numbers.{Float, FloatOps, FloatLaws}
use mind_wall.Wire.Numerals.{ℤ, lt_int}
use mind_wall.Policies.Settings.{
  TextOps, SettingMeta, SettingType, bool_type, str_type, float_type, int_type, Value, bool_value,
  float_value, int_value, str_value, get_meta, editable_settings, type_of, check_type, cast,
}

module _ (text : TextOps) (ops : FloatOps) where
  -- A value of the type. A number is within the bounds; of a float, the check lets a NaN through too.
  pub data Fits : SettingType → Value → Type 0 where
    a_bool : {b : Bool} → Fits bool_type (bool_value b)
    a_float :
        {min max x : Float}
        → ops.le min x ≡ true
        → ops.le x max ≡ true
        → Fits (float_type min max) (float_value x)
    not_a_number :
        {min max x : Float} → ops.le x x ≡ false → Fits (float_type min max) (float_value x)
    an_int :
        {min max n : ℤ}
        → lt_int n min ≡ false
        → lt_int max n ≡ false
        → Fits (int_type min max) (int_value n)
    a_str : {t : String} → Fits str_type (str_value t)

  -- Bounds that are numbers.
  abbrev pub IsBounded : SettingType → Type 0
  IsBounded bool_type = Unit
  IsBounded str_type = Unit
  IsBounded (int_type min max) = Unit
  IsBounded (float_type min max) = (ops.le min min ≡ true) × (ops.le max max ≡ true)

  get_meta-IsBounded :
      (key : String) (metas : List (String × SettingMeta)) {meta : SettingMeta}
      → All (λ (m : String × SettingMeta). IsBounded m.1.type) metas
      → get_meta key metas ≡ some meta
      → IsBounded meta.type
  unfolding get_meta
  get_meta-IsBounded key [] h e = cc
  get_meta-IsBounded key ((k, m) ∷ metas) {meta} h e = elim (Bool-cases (str_eq k key)) [
    | inl t ↦
        (let e' = rw t at e in
          let same : m ≡ meta = cc in subst (λ (x : SettingMeta). IsBounded x.type) same h.0)
    | inr f ↦ get_meta-IsBounded key metas h.1 (rw f at e)
  ]

  editable_settings-IsBounded :
      FloatLaws ops → All (λ (m : String × SettingMeta). IsBounded m.1.type) (editable_settings ops)
  unfolding editable_settings
  editable_settings-IsBounded laws =
      let unit : IsBounded (float_type (ops.decimal 0 1) (ops.decimal 10 1)) =
        (laws.le_refl_decimal 0 1, laws.le_refl_decimal 10 1) in
      (tt, (tt, (tt, (unit, (unit, (unit, (unit, (tt, tt))))))))

  pub type_of-IsBounded : FloatLaws ops → (key : String) → IsBounded (type_of text ops key)
  unfolding type_of
  type_of-IsBounded laws key = elim (Option-cases (get_meta key (editable_settings ops))) [
    | inl missing ↦ rw (missing, type_of) tt
    | inr (meta, found) ↦
        rw (found, type_of)
          (get_meta-IsBounded key (editable_settings ops) (editable_settings-IsBounded laws) found)
  ]

  -- A float that passes both tests.
  within-Fits :
      FloatLaws ops
      → (min max x : Float) → IsBounded (float_type min max)
      → ops.lt x min ≡ false
      → ops.lt max x ≡ false
      → Fits (float_type min max) (float_value x)
  within-Fits laws min max x (m, n) f g = elim (Bool-cases (ops.le x x)) [
    | inl number ↦ a_float (laws.le_of_not_lt x min number m f) (laws.le_of_not_lt max x n number g)
    | inr nan ↦ not_a_number nan
  ]

  cast_float :
      FloatLaws ops
      → (min max : Float) (v : String) → IsBounded (float_type min max)
      → check_type text ops (float_type min max) v ≡ ok tt
      → (x : Value) × (cast text ops (float_type min max) v ≡ ok x) × Fits (float_type min max) x
  unfolding check_type cast
  cast_float laws min max v bounded valid = elim (Option-cases (ops.parse v)) [
    | inl missing ↦ (let e = rw missing at valid in cc)
    | inr (x, found) ↦
        (let e = rw found at valid in
          elim (Bool-cases (ops.lt x min)) [
            | inl low ↦ (let e' = rw low at e in cc)
            | inr f ↦ elim (Bool-cases (ops.lt max x)) [
              | inl high ↦ (let e' = rw (f, high) at e in cc)
              | inr g ↦
                  (float_value x, rw (found, cast) refl, within-Fits laws min max x bounded f g)
            ]
          ])
  ]

  cast_int :
      (min max : ℤ) (v : String)
      → check_type text ops (int_type min max) v ≡ ok tt
      → (x : Value) × (cast text ops (int_type min max) v ≡ ok x) × Fits (int_type min max) x
  unfolding check_type cast
  cast_int min max v valid = elim (Option-cases (text.int v)) [
    | inl missing ↦ (let e = rw missing at valid in cc)
    | inr (n, found) ↦
        (let e = rw found at valid in
          elim (Bool-cases (lt_int n min)) [
            | inl low ↦ (let e' = rw low at e in cc)
            | inr f ↦ elim (Bool-cases (lt_int max n)) [
              | inl high ↦ (let e' = rw (f, high) at e in cc)
              | inr g ↦ (int_value n, rw (found, cast) refl, an_int f g)
            ]
          ])
  ]

  -- A text that passes the check has a cast, which fits.
  pub cast-Fits :
      FloatLaws ops
      → (t : SettingType) (v : String) → IsBounded t
      → check_type text ops t v ≡ ok tt
      → (x : Value) × (cast text ops t v ≡ ok x) × Fits t x
  unfolding cast
  cast-Fits laws bool_type v b valid = (_, refl, a_bool)
  cast-Fits laws str_type v b valid = (_, refl, a_str)
  cast-Fits laws (float_type min max) v b valid = cast_float laws min max v b valid
  cast-Fits laws (int_type min max) v b valid = cast_int min max v valid
