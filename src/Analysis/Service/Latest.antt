-- ===== src/Analysis/Service/Latest.antt =====
-- app/analysis/service.py, `get_latest_analysis` after a run.
use mind_wall.Prelude.{
  ℕ, ◌≡◌, ◌<◌, refl, ◌∙◌, ap, sym, inl, inr, Bool, true, false, List, [], ◌∷◌, ◌++◌, All, select,
  select-append, ◌==◌, Bool-cases, is_some, ==_refl, arith,
}
use mind_wall.Prelude.Sorting.{sort, insert}
use mind_wall.Models.Analysing.{StoredMessage, AnalysisRun}
use mind_wall.Models.Session.{Session, NewId}
use mind_wall.Analysis.Runs.{AnalysisLibrary, AnalysisRequest, analysis_run}
use mind_wall.Analysis.Service.{run_of, run_analysis, latest_first, first, get_latest_analysis}
use mind_wall.Analysis.Service.Recorded.{run_analysis_exact}

-- A run that is later than all others comes first.
first-sort :
    (run : AnalysisRun) (xs : List AnalysisRun)
    → All (λ (x : AnalysisRun). x.created_at < run.created_at) xs
    → (rest : List AnalysisRun) × (sort latest_first (xs ++ run ∷ []) ≡ run ∷ rest)
unfolding sort insert
first-sort run [] h = ([], refl)
first-sort run (x ∷ xs) h =
    let (rest, e) = first-sort run xs h.1 in
    let later : latest_first x run ≡ false = ground (arith, h.0) in
    (insert latest_first x rest, ap (insert latest_first x) e ∙ rw (later, insert) refl)

All-select {ℓ κ} :
    {A : Type ℓ} (P : A → Type κ) (p : A → Bool) (xs : List A) → All P xs → All P (select p xs)
All-select P p [] h = tt
All-select P p (x ∷ xs) h = elim (Bool-cases (p x)) [
  | inl t ↦ rw t (h.0, All-select P p xs h.1)
  | inr f ↦ rw f (All-select P p xs h.1)
]

module _ (lib : AnalysisLibrary) (new_id : NewId) (now : ℕ) (r : AnalysisRequest)
    (msg : StoredMessage) (s : Session) where
  -- The row of a run that returns, later than every run before it, is the message's latest analysis.
  pub run_analysis_latest :
      All (λ (x : AnalysisRun). x.created_at < now) s.work.analysis_runs
      → is_some (run_analysis lib new_id now r msg s).0 ≡ true
      → get_latest_analysis msg.id (run_analysis lib new_id now r msg s).1
        ≡ (run_analysis lib new_id now r msg s).0
  unfolding get_latest_analysis analysis_run
  run_analysis_latest h e = elim (run_analysis_exact lib new_id now r msg s) [
    | inr (_, nothing, _) ↦ (let e' = rw nothing at e in cc)
    | inl (a, _, result, recorded) ↦
        (let mine = λ (x : AnalysisRun). x.message_id == msg.id in
          let new = run_of lib new_id now r msg a s in
          let (rest, sorted) =
            first-sort new (select mine s.work.analysis_runs)
              (All-select _ mine s.work.analysis_runs h) in
          ap (λ xs. first (sort latest_first (select mine xs))) recorded.one_run
          ∙ ap (λ xs. first (sort latest_first xs))
              (select-append mine s.work.analysis_runs (new ∷ [])
                ∙ ap (λ xs. select mine s.work.analysis_runs ++ xs) (rw (==_refl msg.id) refl))
          ∙ ap first sorted
          ∙ sym result)
  ]
