-- ===== src/Api/Workflow.antt =====
-- The review endpoints of api.py as a reviewer meets them: reading, deciding, and reading again.
use cfr_compliance_mcp.Prelude.{
  ◌+◌, String, ◌≡◌, refl, sym, ap, ◌∙◌, inl, inr, true, Option, none, some, arith, Option-cases,
  nat_eq,
}
use cfr_compliance_mcp.Prelude.Dict.{lookup, insert, string_eq, pair_eq, lookup-insert_self}
use cfr_compliance_mcp.Reporting.{ClauseReport, ReportRecord}
use cfr_compliance_mcp.Review.Lifecycle.{
  IsEdge, is_valid_state, validate_transition, validate_transition_iff,
}
use cfr_compliance_mcp.Review.Records.{Result, ok, err, ReviewRecord, ReviewDetail, Decision}
use cfr_compliance_mcp.Review.Repository as Memory
use cfr_compliance_mcp.Review.Repository.{
  Repository, find_clause, detail, current_review, admit, decided, write_decision,
}
use cfr_compliance_mcp.Review.Queries as Queries
use cfr_compliance_mcp.Api.Reviews.{
  ok_response, respond, lift, in_memory, valid_decision, get_review, decide_review,
}

-- What a review that can be read stands on.
record Visible (a c : String) (repo : Repository) (v : ReviewDetail) : Type 0 where
  report : ReportRecord
  cr : ClauseReport
  stored : lookup a repo.analyses ≡ some report
  found : find_clause report c ≡ some cr
  shown : v ≡ detail a cr (lookup (a, c) repo.reviews)

ok_inj : {A : Type 0} {x y : A} → Result.ok x ≡ Result.ok y → x ≡ y
ok_inj h = ground arith

get_review-Visible :
    (a c : String) (repo : Repository) (v : ReviewDetail)
    → Queries.get_review a c repo ≡ ok v
    → Visible a c repo v
unfolding Queries.get_review
get_review-Visible a c repo v h = elim (Option-cases (lookup a repo.analyses)) [
  | inl missing ↦ absurd (ground arith)
  | inr (report, stored) ↦ elim (Option-cases (find_clause report c)) [
    | inl missing ↦ absurd (ground arith)
    | inr (cr, found) ↦ record {
      report = report;
      cr = cr;
      stored = stored;
      found = found;
      shown = ground arith;
    }
  ]
]

pub Visible-get_review :
    (a c : String) (repo : Repository) (report : ReportRecord) (cr : ClauseReport)
    → lookup a repo.analyses ≡ some report
    → find_clause report c ≡ some cr
    → Queries.get_review a c repo ≡ ok (detail a cr (lookup (a, c) repo.reviews))
unfolding Queries.get_review
Visible-get_review a c repo report cr stored found = rw (stored, found) refl

transition-Accepts :
    (a c : String) (d : Decision) (repo : Repository) (report : ReportRecord) (cr : ClauseReport)
    (r : ReviewRecord)
    → lookup a repo.analyses ≡ some report
    → find_clause report c ≡ some cr
    → lookup (a, c) repo.reviews ≡ some r
    → is_valid_state d.target_state ≡ true
    → validate_transition r.state d.target_state ≡ true
    → d.expected_version ≡ r.version
    → Memory.transition_review a c d repo ≡ write_decision a c d repo (ok (cr, some r, r.version))
unfolding Memory.transition_review admit current_review
transition-Accepts a c d repo report cr r stored found here valid edge expected =
    let version : nat_eq d.expected_version r.version ≡ true = ground arith in
    let same : admit a c d repo ≡ ok (cr, some r, r.version) =
      rw (valid, stored, found, here, edge, version) refl in
    ap (write_decision a c d repo) same

-- The state and version that a review shows are those of its record.
shown-record :
    (a : String) (cr : ClauseReport) (rec : Option ReviewRecord) (v : ReviewDetail) (s : String)
    → v ≡ detail a cr rec
    → v.review_state ≡ some s
    → (r : ReviewRecord) × (rec ≡ some r) × (r.state ≡ s) × (v.version ≡ r.version)
unfolding detail
shown-record a cr none v s shown state = absurd (ground arith)
shown-record a cr (some r) v s shown state = (r, refl, ground arith, ap (λ x. x.version) shown)

respond-success : {A : Type 0} (r : Result A) (a : A) → respond (lift r) ≡ ok_response a → r ≡ ok a
unfolding respond lift
respond-success (ok x) a h = ground arith
respond-success (err e) a h = absurd (ground arith)

-- What an accepted decision leaves.
abbrev after_decision :
    String
    → String
    → Decision
    → Repository
    → ClauseReport
    → ReviewRecord
    → ReviewRecord × Repository
after_decision a c d repo cr r =
    let rec' = decided cr (some r) r.version d in
    (rec', record repo { reviews = insert (a, c) rec' repo.reviews })

decide-Accepts :
    (a c : String) (d : Decision) (repo : Repository) (cr : ClauseReport) (r : ReviewRecord)
    → valid_decision d ≡ true
    → Memory.transition_review a c d repo ≡ write_decision a c d repo (ok (cr, some r, r.version))
    → let (rec', repo') = after_decision a c d repo cr r in
      decide_review in_memory a c d repo ≡ (ok_response (detail a cr (some rec')), repo')
unfolding decide_review respond lift write_decision
decide-Accepts a c d repo cr r valid accepted = rw (valid, accepted) refl

-- When a review is shown, and then a valid request decides on a transition that the lifecycle has
-- from the state that was shown, naming the version that was shown, with nothing in between, the
-- request succeeds: the answer shows the new state and the next version, and reading the review
-- again gives the same.
pub get_review-decide_review :
    (a c : String) (d : Decision) (repo : Repository) (v : ReviewDetail) (s : String)
    → get_review in_memory a c repo ≡ ok_response v
    → v.review_state ≡ some s
    → IsEdge s d.target_state
    → d.expected_version ≡ v.version
    → valid_decision d ≡ true
    → let out = decide_review in_memory a c d repo in
      (v' : ReviewDetail) × (out.0 ≡ ok_response v')
      × (get_review in_memory a c out.1 ≡ ok_response v')
      × (v'.review_state ≡ some d.target_state)
      × (v'.version ≡ v.version + 1)
unfolding get_review valid_decision detail decided respond lift
get_review-decide_review a c d repo v s read state edge expected valid =
    let visible =
      get_review-Visible a c repo v (respond-success (Queries.get_review a c repo) v read) in
    let cr = visible.cr in
    let (r, here, same_state, version) =
      shown-record a cr (lookup (a, c) repo.reviews) v s visible.shown state in
    let allowed : validate_transition r.state d.target_state ≡ true =
      rw same_state ((validate_transition_iff s d.target_state).1 edge) in
    let known : is_valid_state d.target_state ≡ true = ground arith in
    let (rec', repo') = after_decision a c d repo cr r in
    let done = decide-Accepts a c d repo cr r valid (
      transition-Accepts a c d repo visible.report cr r visible.stored visible.found here known
        allowed (expected ∙ version)) in
    let again : Queries.get_review a c repo' ≡ ok (detail a cr (some rec')) =
      Visible-get_review a c repo' visible.report cr visible.stored visible.found
      ∙ ap (λ x. ok (detail a cr x)) (lookup-insert_self (a, c) rec' repo.reviews) in
    (
      detail a cr (some rec'),
      ap (λ x. x.0) done,
      ap (λ x. get_review in_memory a c x.1) done ∙ ap (λ x. respond (lift x)) again,
      refl,
      ap (λ n. n + 1) (sym version),
    )
