-- ===== src/Review/Trail.antt =====
-- The invariant of the stored reviews: what the audit trail of a review record looks like.
use cfr_compliance_mcp.Prelude.{
  ℕ, ◌+◌, ◌≤◌, String, ◌≡◌, refl, true, Option, none, some, List, [], ◌∷◌, ◌++◌, arith, All, length,
  length-append, Bool-cases, inl, inr, Option-cases,
}
use cfr_compliance_mcp.Prelude.Dict.{Dict, lookup, insert-All, string_eq, pair_eq}
use cfr_compliance_mcp.Reporting.{ClauseReport}
use cfr_compliance_mcp.Review.Lifecycle.{validate_transition}
use cfr_compliance_mcp.Review.Records.{ok, ReviewEvent, ReviewRecord, Decision}
use cfr_compliance_mcp.Review.Repository.{
  Repository, requires_review, review_event, new_review, open_review, open_reviews, current_review,
  admit, decided,
}

-- The events lead from one state to another by allowed transitions.
abbrev pub Trail : String → List ReviewEvent → String → Type 0
Trail s [] t = s ≡ t
Trail s (e ∷ es) t = (validate_transition s e.state ≡ true) × Trail e.state es t

pub Trail-append :
    (s t : String) (es : List ReviewEvent) (e : ReviewEvent)
    → Trail s es t
    → validate_transition t e.state ≡ true
    → Trail s (es ++ e ∷ []) e.state
Trail-append s t [] e h v = (rw h v, refl)
Trail-append s t (d ∷ es) e h v = (h.0, Trail-append d.state t es e h.1 v)

-- A record whose trail explains its state, and whose version counts the events: a record that
-- `save_report` opened starts at version 1, one that a decision opened starts at version 0.
pub record IsSound (r : ReviewRecord) : Type 0 where
  pub trail : Trail "needs_review" r.events r.state
  pub at_least : length r.events ≤ r.version
  pub at_most : r.version ≤ length r.events + 1
  pub positive : 1 ≤ r.version

-- Every stored review is sound.
abbrev pub AllSound : Dict (String × String) ReviewRecord → Type 0
AllSound reviews = All (λ e. IsSound e.1) reviews

new_review-IsSound : (cr : ClauseReport) → IsSound (new_review cr)
unfolding new_review
new_review-IsSound cr = record {
  trail = refl;
  at_least = omega arith;
  at_most = omega arith;
  positive = omega arith;
}

open_review-AllSound :
    (a : String) (cr : ClauseReport) (reviews : Dict (String × String) ReviewRecord)
    → AllSound reviews
    → AllSound (open_review a cr reviews)
unfolding open_review
open_review-AllSound a cr reviews h = elim (Bool-cases (requires_review cr)) [
  | inl y ↦ elim (Option-cases (lookup (a, cr.clause_id) reviews)) [
    | inl absent ↦
        rw (y, absent)
          (insert-All IsSound (a, cr.clause_id) (new_review cr) reviews (new_review-IsSound cr) h)
    | inr (r, present) ↦ rw (y, present) h
  ]
  | inr n ↦ rw n h
]

pub open_reviews-AllSound :
    (a : String) (crs : List ClauseReport) (reviews : Dict (String × String) ReviewRecord)
    → AllSound reviews
    → AllSound (open_reviews a crs reviews)
unfolding open_reviews
open_reviews-AllSound a [] reviews h = h
open_reviews-AllSound a (cr ∷ crs) reviews h =
    open_reviews-AllSound a crs (open_review a cr reviews) (open_review-AllSound a cr reviews h)

-- The state and the version that a decision starts from.
abbrev pub start_state : Option ReviewRecord → String
start_state none = "needs_review"
start_state (some r) = r.state

abbrev pub start_version : Option ReviewRecord → ℕ
start_version none = 0
start_version (some r) = r.version

-- What the checks of a decision establish.
pub admit_facts :
    (a c : String) (d : Decision) (repo : Repository) (cr : ClauseReport)
    (rec : Option ReviewRecord) (v : ℕ)
    → admit a c d repo ≡ ok (cr, rec, v)
    → (rec ≡ lookup (a, c) repo.reviews)
      × (v ≡ start_version rec)
      × (d.expected_version ≡ v)
      × (validate_transition (start_state rec) d.target_state ≡ true)
unfolding admit current_review
admit_facts a c d repo cr rec v h = ground arith

pub decided-IsSound :
    (cr : ClauseReport) (rec : Option ReviewRecord) (d : Decision)
    → ((r : ReviewRecord) → rec ≡ some r → IsSound r)
    → validate_transition (start_state rec) d.target_state ≡ true
    → IsSound (decided cr rec (start_version rec) d)
unfolding decided
decided-IsSound cr none d sound v = record {
  trail = (v, refl);
  at_least = omega arith;
  at_most = omega arith;
  positive = omega arith;
}
decided-IsSound cr (some r) d sound v =
    let s = sound r refl in
    record {
      trail = Trail-append "needs_review" r.state r.events (review_event d) s.trail v;
      at_least = omega (arith, length-append r.events (review_event d ∷ []), s.at_least);
      at_most = omega (arith, length-append r.events (review_event d ∷ []), s.at_most);
      positive = omega arith;
    }
