-- ===== src/Analysis/Service/Recorded.antt =====
-- app/analysis/service.py, `run_analysis`: what a run leaves in the tables.
use mathlib.Core.List.{map-map}
use mind_wall.Prelude.{
  ℕ, ◌≡◌, refl, ◌∙◌, ap, sym, subst, ◌⊎◌, inl, inr, Bool, true, false, Option, none, some, List, [],
  ◌∷◌, ◌++◌, map, All, Bool-cases, Option-cases, append-nil, append_assoc, find,
}
use mind_wall.Models.Numbers.{Float, FloatOps}
use mind_wall.Models.Verdicts.{ManipulationDimension, all_dimensions}
use mind_wall.Models.Reviews.{QuarantineItem}
use mind_wall.Models.Analysing.{StoredMessage, AnalysisRun, DimensionScore}
use mind_wall.Models.Session.{Session, NewId, commit}
use mind_wall.Audit.{record_event}
use mind_wall.Quarantine.{
  QuarantineCause, should_quarantine, created_item, updated_item, of_message, items_of,
  get_or_create_quarantine_item, get_quarantine_item_for_message,
}
use mind_wall.Quarantine.Repeats.{report_found}
use mind_wall.Analysis.Response.{LlmAnalysisResponse}
use mind_wall.Analysis.Scores.{run_deterministic_checks}
use mind_wall.Analysis.Llm.{combine_scores}
use mind_wall.Analysis.Runs.{
  AnalysisLibrary, AnalysisRequest, Assessment, build_parsed_message, assess, assess_with,
}
use mind_wall.Analysis.Service.{
  final_score, dimension_row, add_scores, run_of, save_run, quarantine_cause, auto_quarantine,
  run_analysis,
}

-- What a row says.
abbrev pub entry : DimensionScore → ManipulationDimension × Float
entry x = (x.dimension, x.score)

-- What it is to say of a merged score.
abbrev pub scored :
    FloatOps → Assessment → ManipulationDimension × Float → ManipulationDimension × Float
scored ops a (dim, score) = (dim, final_score ops a dim score)

-- The loop adds one row for each dimension in order.
add_scores-rows :
    (ops : FloatOps) (new_id : NewId) (run_id : ℕ) (a : Assessment)
    (scores : List (ManipulationDimension × Float)) (rows : List DimensionScore)
    → (new : List DimensionScore) × (add_scores ops new_id run_id a scores rows ≡ rows ++ new)
      × (map entry new ≡ map (scored ops a) scores)
      × All (λ (x : DimensionScore). x.analysis_run_id ≡ run_id) new
unfolding add_scores dimension_row
add_scores-rows ops new_id run_id a [] rows = ([], sym (append-nil _), refl, tt)
add_scores-rows ops new_id run_id a ((dim, score) ∷ rest) rows =
    let row =
      dimension_row ops (new_id (map (λ (d : DimensionScore). d.id) rows)) run_id a dim score in
    let (new, added, entries, of_run) =
      add_scores-rows ops new_id run_id a rest (rows ++ row ∷ []) in
    (
      row ∷ new,
      added ∙ append_assoc rows (row ∷ []) new,
      ap (λ es. (dim, final_score ops a dim score) ∷ es) entries,
      (refl, of_run),
    )

-- The merged scores are those of the twelve dimensions.
combine_scores-dimensions :
    (ops : FloatOps) (det_risk : Float) (result : Option LlmAnalysisResponse) (is_degraded : Bool)
    → map
        (λ (s : ManipulationDimension × Float). s.0)
        (combine_scores ops det_risk result is_degraded).merged_dims
      ≡ all_dimensions
unfolding combine_scores
combine_scores-dimensions ops det_risk none is_degraded = refl
combine_scores-dimensions ops det_risk (some result) true = refl
combine_scores-dimensions ops det_risk (some result) false = refl

assess-dimensions :
    (lib : AnalysisLibrary) (r : AnalysisRequest) (msg : StoredMessage) {a : Assessment}
    → assess lib r msg ≡ some a
    → map (λ (s : ManipulationDimension × Float). s.0) a.scores.merged_dims ≡ all_dimensions
unfolding assess assess_with
assess-dimensions lib r msg {a} e = elim (Option-cases (build_parsed_message lib msg)) [
  | inl missing ↦ (let e' = rw (missing, assess) at e in cc)
  | inr (parsed, found) ↦
      (let e1 = rw (found, assess) at e in
        elim (Option-cases (run_deterministic_checks lib.texts lib.ops parsed)) [
          | inl missing ↦ (let e' = rw missing at e1 in cc)
          | inr (det, found') ↦
              (let e2 = rw found' at e1 in
                let q : assess_with lib r parsed det ≡ a = cc in
                subst
                  (λ x.
                    map (λ (s : ManipulationDimension × Float). s.0) x.scores.merged_dims
                    ≡ all_dimensions)
                  q (combine_scores-dimensions lib.ops det.risk_score _ _))
        ])
]

module _ (ops : FloatOps) (new_id : NewId) (now : ℕ) (c : QuarantineCause) (s : Session) where
  -- A report writes no analysis.
  report_keeps :
      let t = (get_or_create_quarantine_item ops new_id now c s).1 in
      (t.work.analysis_runs ≡ s.work.analysis_runs)
      × (t.work.dimension_scores ≡ s.work.dimension_scores)
  unfolding get_or_create_quarantine_item record_event
  report_keeps = elim (Option-cases (find (of_message c.message_id) (items_of s))) [
    | inl missing ↦ rw (missing, get_or_create_quarantine_item) (refl, refl)
    | inr (item, found) ↦ rw (found, get_or_create_quarantine_item) (refl, refl)
  ]

  -- The item that it returns is of the cause.
  report_item :
      let item = (get_or_create_quarantine_item ops new_id now c s).0.0 in
      (item.trigger_verdict ≡ c.trigger_verdict) × (item.analysis_run_id ≡ some c.analysis_run_id)
  unfolding get_or_create_quarantine_item created_item updated_item
  report_item = elim (Option-cases (find (of_message c.message_id) (items_of s))) [
    | inl missing ↦ rw (missing, get_or_create_quarantine_item) (refl, refl)
    | inr (item, found) ↦ rw (found, get_or_create_quarantine_item) (refl, refl)
  ]

-- What a run leaves that returns a row.
pub record IsRecorded (lib : AnalysisLibrary) (r : AnalysisRequest) (msg : StoredMessage)
    (a : Assessment) (run : AnalysisRun) (s t : Session) : Type 0 where
  -- its row behind the others,
  pub one_run : t.work.analysis_runs ≡ s.work.analysis_runs ++ run ∷ []
  -- a score of each of the twelve dimensions,
  pub new_scores : List DimensionScore
  pub added : t.work.dimension_scores ≡ s.work.dimension_scores ++ new_scores
  pub dimensions : map (λ (x : DimensionScore). x.dimension) new_scores ≡ all_dimensions
  pub entries : map entry new_scores ≡ map (scored lib.ops a) a.scores.merged_dims
  pub of_run : All (λ (x : DimensionScore). x.analysis_run_id ≡ run.id) new_scores
  -- nothing that is not committed,
  pub committed : t.durable ≡ t.work
  -- and the message in quarantine if its verdict says so, the quarantine as it was if not.
  pub quarantined :
      ((should_quarantine a.verdict r.quarantine_soft_hold ≡ true)
        × ((item : QuarantineItem) × (get_quarantine_item_for_message msg.id t ≡ some item)
            × (item.trigger_verdict ≡ a.verdict)
            × (item.analysis_run_id ≡ some run.id)))
      ⊎ ((should_quarantine a.verdict r.quarantine_soft_hold ≡ false)
          × (t.work.quarantine_items ≡ s.work.quarantine_items))

map-dimension :
    (a : Assessment) (ops : FloatOps) (new : List DimensionScore)
    (scores : List (ManipulationDimension × Float))
    → map entry new ≡ map (scored ops a) scores
    → map (λ (x : DimensionScore). x.dimension) new
      ≡ map (λ (s : ManipulationDimension × Float). s.0) scores
map-dimension a ops new scores e =
    sym (map-map (λ (s : ManipulationDimension × Float). s.0) entry new)
    ∙ ap (map (λ (s : ManipulationDimension × Float). s.0)) e
    ∙ map-map (λ (s : ManipulationDimension × Float). s.0) (scored ops a) scores

module _ (lib : AnalysisLibrary) (new_id : NewId) (now : ℕ) (r : AnalysisRequest)
    (msg : StoredMessage) (s : Session) where
  recorded :
      (a : Assessment)
      → assess lib r msg ≡ some a
      → let (run, t) = save_run lib new_id now r msg a s in
        IsRecorded lib r msg a run s (auto_quarantine lib new_id now r msg a run.id t)
  unfolding save_run auto_quarantine commit quarantine_cause get_quarantine_item_for_message
  recorded a e =
      let (run, t) = save_run lib new_id now r msg a s in
      let (new, added, entries, of_run) =
        add_scores-rows lib.ops new_id run.id a a.scores.merged_dims s.work.dimension_scores in
      let dims =
        map-dimension a lib.ops new a.scores.merged_dims entries ∙ assess-dimensions lib r msg e in
      elim (Bool-cases (should_quarantine a.verdict r.quarantine_soft_hold)) [
        | inr f ↦ rw f record {
          one_run = refl;
          new_scores = new;
          added = added;
          dimensions = dims;
          entries = entries;
          of_run = of_run;
          committed = refl;
          quarantined = inr (f, refl);
        }
        | inl q ↦
            (let c = quarantine_cause lib new_id r msg a run.id in
              let (runs, scores) = report_keeps lib.ops new_id now c t in
              let (verdict, of_this) = report_item lib.ops new_id now c t in
              rw q record {
                one_run = runs;
                new_scores = new;
                added = scores ∙ added;
                dimensions = dims;
                entries = entries;
                of_run = of_run;
                committed = refl;
                quarantined = inl (
                  q,
                  (
                    (get_or_create_quarantine_item lib.ops new_id now c t).0.0,
                    report_found lib.ops new_id now c t,
                    verdict,
                    of_this,
                  ),
                );
              })
      ]

  -- A run that returns has assessed the message; it leaves one row, which is the one it returns, and
  -- one score for each of the twelve dimensions; all is committed; and the message has an item in
  -- quarantine with the verdict and the run if the verdict is one to quarantine, and the quarantine is
  -- as it was if not. A run that an exception leaves has written nothing.
  pub run_analysis_exact :
      let (result, t) = run_analysis lib new_id now r msg s in
      ((a : Assessment) × (assess lib r msg ≡ some a)
        × (result ≡ some (run_of lib new_id now r msg a s))
        × IsRecorded lib r msg a (run_of lib new_id now r msg a s) s t)
      ⊎ ((assess lib r msg ≡ none) × (result ≡ none) × (t ≡ s))
  unfolding run_analysis save_run
  run_analysis_exact = elim (Option-cases (assess lib r msg)) [
    | inl missing ↦ inr (rw (missing, run_analysis) (refl, refl, refl))
    | inr (a, found) ↦
        inl (a, found, rw (found, run_analysis) refl, rw (found, run_analysis) (recorded a found))
  ]
