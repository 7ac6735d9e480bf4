-- ===== src/Review/Concurrency.antt =====
-- Optimistic concurrency over any sequence of operations on the repository of
-- agent/persistence/inmemory_repository.py.
use cfr_compliance_mcp.Prelude.{
  suc, ◌+◌, ◌≤◌, ◌≡◌, refl, String, Option, none, some, List, [], ◌∷◌, ◌++◌, arith, length,
  length-append, subst, sym, ◌∙◌, Bool-cases, inl, inr, ap,
}
use mathlib.Core.List.{append-nil, append_assoc}
use cfr_compliance_mcp.Prelude.Dict.{Dict, lookup, lookup-insert, string_eq, pair_eq}
use cfr_compliance_mcp.Reporting.{ClauseReport}
use cfr_compliance_mcp.Review.Records.{
  PersistenceError, ok, err, ReviewEvent, ReviewRecord, ReviewDetail, Decision,
}
use cfr_compliance_mcp.Review.Repository.{
  Repository, new_review, open_review, open_reviews, save_report, decided, transition_review,
}
use cfr_compliance_mcp.Review.Trail.{start_version}
use cfr_compliance_mcp.Review.History.{Op, save, decide, step, run, transition_review_cases}

-- A later state of a review record: the same automated status, and an audit trail that only grew,
-- by one version for each event.
pub record Extends (old new : ReviewRecord) : Type 0 where
  pub status : new.original_status ≡ old.original_status
  pub more : List ReviewEvent
  pub events : new.events ≡ old.events ++ more
  pub version : new.version ≡ old.version + length more

abbrev pub Kept : Option ReviewRecord → Option ReviewRecord → Type 0
Kept none new = Unit
Kept (some old) none = ⊥
Kept (some old) (some new) = Extends old new

Kept-refl : (o : Option ReviewRecord) → Kept o o
Kept-refl none = tt
Kept-refl (some r) = record {
  status = refl;
  more = [];
  events = sym (append-nil r.events);
  version = omega arith;
}

Kept-trans : (a b c : Option ReviewRecord) → Kept a b → Kept b c → Kept a c
Kept-trans none b c h k = tt
Kept-trans (some a) none c h k = absurd h
Kept-trans (some a) (some b) none h k = absurd k
Kept-trans (some a) (some b) (some c) h k = record {
  status = k.status ∙ h.status;
  more = h.more ++ k.more;
  events = k.events ∙ ap (λ x. x ++ k.more) h.events ∙ append_assoc a.events h.more k.more;
  version = omega (arith, h.version, k.version, length-append h.more k.more);
}

Kept-decided :
    (cr : ClauseReport) (o : Option ReviewRecord) (d : Decision)
    → Kept o (some (decided cr o (start_version o) d))
unfolding decided
Kept-decided cr none d = tt
Kept-decided cr (some r) d = record { status = refl; more = _; events = refl; version = refl }

open_review-some :
    (k : String × String) (r : ReviewRecord) (a : String) (cr : ClauseReport)
    (reviews : Dict (String × String) ReviewRecord)
    → lookup k reviews ≡ some r
    → lookup k (open_review a cr reviews) ≡ some r
unfolding open_review
open_review-some k r a cr reviews h = ground (
  arith,
  lookup-insert (a, cr.clause_id) k (new_review cr) reviews,
  pair_eq.key_eq_iff (a, cr.clause_id) k,
)

open_reviews-some :
    (k : String × String) (r : ReviewRecord) (a : String) (crs : List ClauseReport)
    (reviews : Dict (String × String) ReviewRecord)
    → lookup k reviews ≡ some r
    → lookup k (open_reviews a crs reviews) ≡ some r
unfolding open_reviews
open_reviews-some k r a [] reviews h = h
open_reviews-some k r a (cr ∷ crs) reviews h =
    open_reviews-some k r a crs (open_review a cr reviews) (open_review-some k r a cr reviews h)

Kept-same : (o n : Option ReviewRecord) → ((r : ReviewRecord) → o ≡ some r → n ≡ some r) → Kept o n
Kept-same none n h = tt
Kept-same (some r) n h = rw (h r refl) (Kept-refl (some r))

transition-Kept :
    (k : String × String) (a c : String) (d : Decision) (repo : Repository)
    → Kept (lookup k repo.reviews) (lookup k (transition_review a c d repo).1.reviews)
transition-Kept k a c d repo = elim (transition_review_cases a c d repo) [
  | inl (e, refused) ↦ rw refused (Kept-refl (lookup k repo.reviews))
  | inr x ↦ elim (Bool-cases (pair_eq.key_eq (a, c) k)) [
    | inl same ↦
        let here : lookup k repo.reviews ≡ x.rec =
          subst (λ j. lookup j repo.reviews ≡ x.rec) ((pair_eq.key_eq_iff (a, c) k).0 same)
            x.before in
        rw (x.stored k, same, here) (Kept-decided x.cr x.rec d)
    | inr other ↦ rw (x.stored k, other) (Kept-refl (lookup k repo.reviews))
  ]
]

step-Kept :
    (k : String × String) (op : Op) (repo : Repository)
    → Kept (lookup k repo.reviews) (lookup k (step op repo).reviews)
unfolding step save_report
step-Kept k (save report) repo =
    Kept-same (lookup k repo.reviews)
      (lookup k (open_reviews report.analysis_id report.clauses repo.reviews))
      (λ r h. open_reviews-some k r report.analysis_id report.clauses repo.reviews h)
step-Kept k (decide a c d) repo = transition-Kept k a c d repo

-- Whatever is saved and decided, a review record once present stays: its automated status never
-- changes, its events so far stay in place with the later ones behind them, and its version grows
-- by one with each new event.
pub run-Kept :
    (ops : List Op) (repo : Repository) (k : String × String)
    → Kept (lookup k repo.reviews) (lookup k (run ops repo).reviews)
unfolding run
run-Kept [] repo k = Kept-refl (lookup k repo.reviews)
run-Kept (op ∷ ops) repo k =
    Kept-trans (lookup k repo.reviews) (lookup k (step op repo).reviews)
      (lookup k (run ops (step op repo)).reviews) (step-Kept k op repo)
      (run-Kept ops (step op repo) k)

version_grows :
    (r : ReviewRecord) (n : Option ReviewRecord)
    → Kept (some r) n
    → (r' : ReviewRecord) × (n ≡ some r') × (r.version ≤ r'.version)
version_grows r none h = absurd h
version_grows r (some r') h = (r', refl, omega (arith, h.version))

abbrev pub Refused : String → String → Decision → Repository → Type 0
Refused a c d repo = (e : PersistenceError) × (transition_review a c d repo ≡ (err e, repo))

stale-Refused :
    (a c : String) (d : Decision) (repo : Repository) (r : ReviewRecord)
    → lookup (a, c) repo.reviews ≡ some r
    → suc d.expected_version ≤ r.version
    → Refused a c d repo
stale-Refused a c d repo r here old = elim (transition_review_cases a c d repo) [
  | inl refused ↦ refused
  | inr x ↦
      let now : some r ≡ x.rec = sym here ∙ x.before in
      let v : start_version (some r) ≡ start_version x.rec = ap start_version now in
      absurd (omega (arith, x.expected, v))
]

accepted_version :
    (a c : String) (d : Decision) (repo : Repository) (result : ReviewDetail)
    → (transition_review a c d repo).0 ≡ ok result
    → (r : ReviewRecord) × (lookup (a, c) (transition_review a c d repo).1.reviews ≡ some r)
      × (r.version ≡ d.expected_version + 1)
unfolding decided
accepted_version a c d repo result h = elim (transition_review_cases a c d repo) [
  | inl (e, refused) ↦ absurd (ground arith)
  | inr x ↦ (
    decided x.cr x.rec (start_version x.rec) d,
    x.stored (a, c) ∙ rw ((pair_eq.key_eq_iff (a, c) (a, c)).1 refl),
    omega (arith, x.expected),
  )
]

-- Two reviewers cannot both decide from the same version: once a decision is accepted, a decision
-- on the same clause that expects that version or an earlier one is refused and changes nothing,
-- whatever is saved and decided in between.
pub no_lost_update :
    (a c : String) (d d' : Decision) (repo : Repository) (result : ReviewDetail) (ops : List Op)
    → (transition_review a c d repo).0 ≡ ok result
    → d'.expected_version ≤ d.expected_version
    → Refused a c d' (run ops (transition_review a c d repo).1)
no_lost_update a c d d' repo result ops accepted old =
    let after = (transition_review a c d repo).1 in
    let (r, here, version) = accepted_version a c d repo result accepted in
    let kept =
      subst (λ o. Kept o (lookup (a, c) (run ops after).reviews)) here
        (run-Kept ops after (a, c)) in
    let (r', there, grown) = version_grows r (lookup (a, c) (run ops after).reviews) kept in
    stale-Refused a c d' (run ops after) r' there (omega (arith, version, grown))
