-- ===== src/Review/Bounds.antt =====
-- How long a review of agent/persistence/inmemory_repository.py can go on.
use cfr_compliance_mcp.Prelude.{
  ℕ, ◌+◌, ◌≤◌, ◌≡◌, refl, String, true, some, List, [], ◌∷◌, arith, length, sym, ◌∙◌, inl, inr,
  if◌then◌else◌, ◌==◌, ap,
}
use cfr_compliance_mcp.Prelude.Dict.{lookup, lookup-All, string_eq, pair_eq}
use cfr_compliance_mcp.Review.Lifecycle.{
  ReviewState, Edge, start, approve, reject, escalate, state_text, validate_transition,
  validate_transition_iff,
}
use cfr_compliance_mcp.Review.Records.{ReviewEvent, ReviewRecord, Decision}
use cfr_compliance_mcp.Review.Repository.{Repository, empty}
use cfr_compliance_mcp.Review.Trail.{Trail, IsSound, start_state}
use cfr_compliance_mcp.Review.History.{Op, run, run-AllSound, transition_review_cases}
use cfr_compliance_mcp.Review.Concurrency.{Refused}

-- How far along the lifecycle a state is.
abbrev stage : String → ℕ
stage s = if s == "needs_review" then 0 else if s == "under_review" then 1 else 2

Edge-stage : {s t : ReviewState} → Edge s t → stage (state_text t) ≡ stage (state_text s) + 1
Edge-stage start = refl
Edge-stage approve = refl
Edge-stage reject = refl
Edge-stage escalate = refl

stage-validate : (s t : String) → validate_transition s t ≡ true → stage t ≡ stage s + 1
stage-validate s t h =
    let (x, y, sx, ty, edge) = (validate_transition_iff s t).0 h in rw (sx, ty) (Edge-stage edge)

stage_bound : (s : String) → stage s ≤ 2
stage_bound s = ground arith

length-Trail : (s t : String) (es : List ReviewEvent) → Trail s es t → stage s + length es ≤ 2
length-Trail s t [] h = omega (arith, stage_bound s)
length-Trail s t (e ∷ es) h =
    omega (arith, stage-validate s e.state h.0, length-Trail e.state t es h.1)

-- In a repository that starts empty, no review record ever has more than two events, or a version
-- above three.
pub run-bounded :
    (ops : List Op) (k : String × String) (r : ReviewRecord)
    → lookup k (run ops empty).reviews ≡ some r
    → (length r.events ≤ 2) × (r.version ≤ 3)
run-bounded ops k r found =
    let s = lookup-All IsSound k (run ops empty).reviews (run-AllSound ops empty tt) found in
    (
      omega (arith, length-Trail "needs_review" r.state r.events s.trail),
      omega (arith, length-Trail "needs_review" r.state r.events s.trail, s.at_most),
    )

-- A review whose state is the end of an edge out of under_review is closed: every decision on it is
-- refused and changes nothing.
pub closed_review :
    (a c : String) (d : Decision) (repo : Repository) (r : ReviewRecord) (s : ReviewState)
    → lookup (a, c) repo.reviews ≡ some r
    → Edge ReviewState.under_review s
    → r.state ≡ state_text s
    → Refused a c d repo
closed_review a c d repo r s here edge closed = elim (transition_review_cases a c d repo) [
  | inl refused ↦ refused
  | inr x ↦
      let now : some r ≡ x.rec = sym here ∙ x.before in
      let from : r.state ≡ start_state x.rec = ap start_state now in
      let (u, v, ru, dv, next) = x.edge in
      let far : stage r.state ≡ 2 = rw closed (Edge-stage edge) in
      absurd (
        omega (
          arith,
          stage_bound d.target_state,
          far,
          ap stage from,
          ap stage ru,
          ap stage dv,
          Edge-stage next,
        ))
]
