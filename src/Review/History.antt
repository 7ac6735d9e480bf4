-- ===== src/Review/History.antt =====
-- Sequences of operations on the repository: agent/persistence/inmemory_repository.py. What holds
-- of every review record whatever was saved and decided before.
use cfr_compliance_mcp.Prelude.{
  String, ◌≡◌, refl, ◌⊎◌, Option, some, List, [], ◌∷◌, ◌∙◌, sym, if◌then◌else◌, inl, inr,
}
use cfr_compliance_mcp.Prelude.Dict.{
  lookup, lookup-insert, lookup-All, insert-All, string_eq, pair_eq,
}
use cfr_compliance_mcp.Reporting.{ClauseReport, ReportRecord}
use cfr_compliance_mcp.Review.Lifecycle.{IsEdge, validate_transition_iff}
use cfr_compliance_mcp.Review.Records.{
  PersistenceError, Result, ok, err, ReviewRecord, ReviewDetail, Decision,
}
use cfr_compliance_mcp.Review.Repository.{
  Repository, save_report, detail, admit, decided, transition_review,
}
use cfr_compliance_mcp.Review.Trail.{
  IsSound, AllSound, open_reviews-AllSound, start_state, start_version, admit_facts,
  decided-IsSound,
}

pub data Op : Type 0 where
  save : ReportRecord → Op
  decide : String → String → Decision → Op

unfoldable pub step : Op → Repository → Repository
step (save report) repo = (save_report report repo).1
step (decide a c d) repo = (transition_review a c d repo).1

unfoldable pub run : List Op → Repository → Repository
unfolding step
run [] repo = repo
run (op ∷ ops) repo = run ops (step op repo)

pub Result-cases {ℓ} :
    {A : Type ℓ} (r : Result A) → ((e : PersistenceError) × (r ≡ err e)) ⊎ ((a : A) × (r ≡ ok a))
Result-cases (ok a) = inr (a, refl)
Result-cases (err e) = inl (e, refl)

-- The fields that a decision sets, and what it leaves alone.
pub record Accepted (a c : String) (d : Decision) (repo : Repository)
    (outcome : Result ReviewDetail × Repository) : Type 0 where
  pub cr : ClauseReport
  pub rec : Option ReviewRecord
  pub before : lookup (a, c) repo.reviews ≡ rec
  pub expected : d.expected_version ≡ start_version rec
  pub edge : IsEdge (start_state rec) d.target_state
  pub reply : outcome.0 ≡ ok (detail a cr (some (decided cr rec (start_version rec) d)))
  pub stored :
      (k : String × String)
      → lookup k outcome.1.reviews ≡ (
          if pair_eq.key_eq (a, c) k
          then some (decided cr rec (start_version rec) d)
          else lookup k repo.reviews)
  pub analyses : outcome.1.analyses ≡ repo.analyses

-- A decision is either refused with an exception and the repository is as before, or it is
-- accepted: then it names the version it started from and follows an edge of the lifecycle, the
-- record it returns is stored, and no other review and no analysis changes.
pub transition_review_cases :
    (a c : String) (d : Decision) (repo : Repository)
    → ((e : PersistenceError) × (transition_review a c d repo ≡ (err e, repo)))
      ⊎ Accepted a c d repo (transition_review a c d repo)
unfolding transition_review
transition_review_cases a c d repo = elim (Result-cases (admit a c d repo)) [
  | inl (e, refused) ↦ inl (e, rw refused)
  | inr ((cr, rec, v), passed) ↦
      let (here, version, expected, valid) = admit_facts a c d repo cr rec v passed in
      inr (record {
        cr = cr;
        rec = rec;
        before = sym here;
        expected = expected ∙ version;
        edge = (validate_transition_iff (start_state rec) d.target_state).0 valid;
        reply = rw (passed, version);
        stored = λ k.
            rw (passed, version)
              (lookup-insert (a, c) k (decided cr rec (start_version rec) d) repo.reviews);
        analyses = rw passed;
      })
]

transition_review-AllSound :
    (a c : String) (d : Decision) (repo : Repository)
    → AllSound repo.reviews
    → AllSound (transition_review a c d repo).1.reviews
unfolding transition_review
transition_review-AllSound a c d repo h = elim (Result-cases (admit a c d repo)) [
  | inl (e, refused) ↦ rw refused h
  | inr ((cr, rec, v), passed) ↦
      let (here, version, expected, valid) = admit_facts a c d repo cr rec v passed in
      rw (passed, version)
        (insert-All IsSound (a, c) (decided cr rec (start_version rec) d) repo.reviews
          (decided-IsSound cr rec d (λ r e. lookup-All IsSound (a, c) repo.reviews h (sym here ∙ e))
            valid)
          h)
]

step-AllSound :
    (op : Op) (repo : Repository) → AllSound repo.reviews → AllSound (step op repo).reviews
unfolding step save_report
step-AllSound (save report) repo h =
    open_reviews-AllSound report.analysis_id report.clauses repo.reviews h
step-AllSound (decide a c d) repo h = transition_review-AllSound a c d repo h

-- From a repository whose reviews are sound, any saves and decisions leave every review sound: its
-- events lead from needs_review to its state by allowed transitions, and its version is at least
-- 1 and is the number of its events or one more.
pub run-AllSound :
    (ops : List Op) (repo : Repository) → AllSound repo.reviews → AllSound (run ops repo).reviews
unfolding run
run-AllSound [] repo h = h
run-AllSound (op ∷ ops) repo h = run-AllSound ops (step op repo) (step-AllSound op repo h)
