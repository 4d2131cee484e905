-- ===== src/Analysis/Service.antt =====
-- app/analysis/service.py: the writes of a run, the automatic quarantine, and the query.
pub mod Recorded
pub mod Latest
use mind_wall.Prelude.{
  ℕ, Bool, true, false, not, ◌&&◌, ◌||◌, Option, none, some, List, [], ◌∷◌, ◌++◌, map, ◌==◌, ltb,
  leb, select, if◌then◌else◌, is_some,
}
use mind_wall.Prelude.Sorting.{sort}
use mind_wall.Models.Numbers.{Float, FloatOps, max_float}
use mind_wall.Models.Verdicts.{ManipulationDimension}
use mind_wall.Models.Analysing.{
  StoredMessage, ScoreSource, by_llm, by_checks, AnalysisRun, DimensionScore,
}
use mind_wall.Models.Session.{Session, NewId, commit}
use mind_wall.Quarantine.{QuarantineCause, should_quarantine, get_or_create_quarantine_item}
use mind_wall.Analysis.Runs.{AnalysisLibrary, AnalysisRequest, Assessment, assess, analysis_run}

abbrev or_zero : FloatOps → Option Float → Float
or_zero ops none = ops.decimal 0 1
or_zero ops (some x) = x

-- The score that is stored for a dimension: the greater one of the two.
unfoldable pub final_score : FloatOps → Assessment → ManipulationDimension → Float → Float
unfolding max_float
final_score ops a dim score =
    ops.round 4 (max_float ops score (or_zero ops (a.det_result.dimension_scores dim)))

unfoldable pub score_source : Assessment → ScoreSource
score_source a =
    if is_some a.outcome.llm_result && not a.outcome.is_degraded then by_llm else by_checks

unfoldable pub dimension_row :
    FloatOps → ℕ → ℕ → Assessment → ManipulationDimension → Float → DimensionScore
unfolding final_score score_source
dimension_row ops id run_id a dim score = record {
  id = id;
  analysis_run_id = run_id;
  dimension = dim;
  score = final_score ops a dim score;
  source = score_source a;
}

-- The loop that adds the rows of the scores.
unfoldable pub add_scores :
    FloatOps
    → NewId
    → ℕ
    → Assessment
    → List (ManipulationDimension × Float)
    → List DimensionScore
    → List DimensionScore
unfolding dimension_row
add_scores ops new_id run_id a [] rows = rows
add_scores ops new_id run_id a ((dim, score) ∷ rest) rows =
    let id = new_id (map (λ (d : DimensionScore). d.id) rows) in
    add_scores ops new_id run_id a rest (rows ++ dimension_row ops id run_id a dim score ∷ [])

abbrev pub run_ids : Session → List ℕ
run_ids s = map (λ (x : AnalysisRun). x.id) s.work.analysis_runs

module _ (lib : AnalysisLibrary) (new_id : NewId) where
  open lib use {ops}

  -- The run of an assessment in a session: the row that is about to be added.
  abbrev pub run_of : ℕ → AnalysisRequest → StoredMessage → Assessment → Session → AnalysisRun
  run_of now r msg a s = analysis_run lib (new_id (run_ids s)) now r msg a

  -- The rows of the run, and the commit.
  unfoldable pub save_run :
      ℕ → AnalysisRequest → StoredMessage → Assessment → Session → AnalysisRun × Session
  unfolding add_scores
  save_run now r msg a s =
      let run = run_of now r msg a s in
      (
        run,
        commit (record s {
          work = record s.work {
            analysis_runs = s.work.analysis_runs ++ run ∷ [];
            dimension_scores =
                add_scores ops new_id run.id a a.scores.merged_dims s.work.dimension_scores;
          };
        }),
      )

  unfoldable pub quarantine_cause :
      AnalysisRequest → StoredMessage → Assessment → ℕ → QuarantineCause
  quarantine_cause r msg a run_id = record {
    message_id = msg.id;
    analysis_run_id = run_id;
    trigger_verdict = a.verdict;
    risk_score_snapshot = some (ops.round 4 a.scores.overall_risk);
    actor_user_id = r.actor_user_id;
  }

  -- The automatic quarantine and its commit.
  unfoldable pub auto_quarantine :
      ℕ → AnalysisRequest → StoredMessage → Assessment → ℕ → Session → Session
  unfolding quarantine_cause
  auto_quarantine now r msg a run_id s =
      if should_quarantine a.verdict r.quarantine_soft_hold
      then commit
          (get_or_create_quarantine_item ops new_id now (quarantine_cause r msg a run_id) s).1
      else s

  -- `run_analysis`: no run where an exception leaves it, and then nothing has been written.
  unfoldable pub run_analysis :
      ℕ → AnalysisRequest → StoredMessage → Session → Option AnalysisRun × Session
  unfolding save_run auto_quarantine
  run_analysis now r msg s = elim (assess lib r msg) [
    | none ↦ (none, s)
    | some a ↦
        (let (run, t) = save_run now r msg a s in (some run, auto_quarantine now r msg a run.id t))
  ]

-- ORDER BY created_at DESC, id DESC.
abbrev pub latest_first : AnalysisRun → AnalysisRun → Bool
latest_first a b = ltb b.created_at a.created_at || a.created_at == b.created_at && leb b.id a.id

abbrev pub first : List AnalysisRun → Option AnalysisRun
first [] = none
first (x ∷ xs) = some x

-- `get_latest_analysis`.
unfoldable pub get_latest_analysis : ℕ → Session → Option AnalysisRun
get_latest_analysis message_id s = first (
    sort latest_first
      (select (λ (x : AnalysisRun). x.message_id == message_id) s.work.analysis_runs))
