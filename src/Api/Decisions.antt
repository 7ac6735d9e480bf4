-- ===== src/Api/Decisions.antt =====
-- Every answer of `decide_review` of api.py, over `InMemoryRepository`.
use cfr_compliance_mcp.Prelude.{
  ℕ, ◌+◌, String, ◌≡◌, ◌≢◌, refl, sym, ap, subst, ◌∙◌, ◌⊎◌, inl, inr, true, false, Option, none,
  some, arith, Option-cases, Bool-cases, nat_eq, if◌then◌else◌,
}
use cfr_compliance_mcp.Prelude.Dict.{
  lookup, insert, string_eq, pair_eq, both_beq, lookup-insert, lookup-insert_self,
}
use cfr_compliance_mcp.Reporting.{ClauseReport, ReportRecord}
use cfr_compliance_mcp.Review.Lifecycle.{is_valid_state, validate_transition}
use cfr_compliance_mcp.Review.Records.{
  PersistenceError, analysis_not_found, review_not_found, review_state, concurrency, ok, err,
  ReviewRecord, ReviewDetail, Decision,
}
use cfr_compliance_mcp.Review.Repository as Memory
use cfr_compliance_mcp.Review.Repository.{
  Repository, requires_review, find_clause, detail, current_review, admit, decided, write_decision,
}
use cfr_compliance_mcp.Review.Queries as Queries
use cfr_compliance_mcp.Api.Reviews.{
  persistence, handle, ApiError, Response, error_response, ok_response, respond, lift, in_memory,
  valid_decision, get_review, decide_review,
}
use cfr_compliance_mcp.Api.Workflow.{Visible-get_review}

-- The state and the version of a clause that can be decided on: those of its review, or the first
-- ones where a review is required and not yet there.
abbrev pub standing_of : ClauseReport → Option ReviewRecord → Option (String × ℕ)
standing_of cr (some r) = some (r.state, r.version)
standing_of cr none = if requires_review cr then some ("needs_review", 0) else none

unfoldable pub standing : String → String → Repository → Option (String × ℕ)
standing a c repo = elim (lookup a repo.analyses) [
  | none ↦ none
  | some report ↦ elim (find_clause report c) [
    | none ↦ none
    | some cr ↦ standing_of cr (lookup (a, c) repo.reviews)
  ]
]

-- Answered with an error, and nothing changed.
abbrev pub Refused : Repository → ℕ → Response ReviewDetail × Repository → Type 0
Refused repo code out = ((e : ApiError) × (out.0 ≡ error_response code e)) × (out.1 ≡ repo)

-- Answered with the review after the decision, which a reading gives from then on; every other
-- review and every report is as it was.
pub record Written (a c : String) (d : Decision) (repo : Repository)
    (out : Response ReviewDetail × Repository) : Type 0 where
  pub view : ReviewDetail
  pub reply : out.0 ≡ ok_response view
  pub state : view.review_state ≡ some d.target_state
  pub version : view.version ≡ d.expected_version + 1
  pub read : get_review in_memory a c out.1 ≡ ok_response view
  pub others :
      (k : String × String)
      → lookup k out.1.reviews
        ≡ (if both_beq (a, c) k then lookup (a, c) out.1.reviews else lookup k repo.reviews)
  pub reports : out.1.analyses ≡ repo.analyses

module _ (a c : String) (d : Decision) (repo : Repository) where
  -- What the checks find in a clause that stands in a report.
  current_cases :
      (cr : ClauseReport) (rec : Option ReviewRecord)
      → ((standing_of cr rec ≡ none) × (current_review cr rec ≡ err review_not_found))
        ⊎ ((s : String) × (v : ℕ) × (standing_of cr rec ≡ some (s, v))
            × (current_review cr rec ≡ ok (s, v)))
  unfolding current_review
  current_cases cr (some r) = inr (r.state, r.version, refl, refl)
  current_cases cr none = elim (Bool-cases (requires_review cr)) [
    | inl needed ↦ inr ("needs_review", 0, rw needed refl, rw needed refl)
    | inr closed ↦ inl (rw closed refl, rw closed refl)
  ]

  refused :
      (e : PersistenceError) (code : ℕ)
      → valid_decision d ≡ true
      → admit a c d repo ≡ err e
      → (handle (persistence e)).0 ≡ code
      → Refused repo code (decide_review in_memory a c d repo)
  unfolding decide_review Memory.transition_review write_decision respond lift
  refused e code valid raises same =
      (((handle (persistence e)).1, rw (valid, raises, sym same) refl), rw (valid, raises) refl)

  written :
      (report : ReportRecord) (cr : ClauseReport) (v : ℕ)
      → valid_decision d ≡ true
      → lookup a repo.analyses ≡ some report
      → find_clause report c ≡ some cr
      → d.expected_version ≡ v
      → admit a c d repo ≡ ok (cr, lookup (a, c) repo.reviews, v)
      → Written a c d repo (decide_review in_memory a c d repo)
  unfolding decide_review Memory.transition_review write_decision respond lift detail decided
      get_review
  written report cr v valid stored found same admitted =
      let rec = lookup (a, c) repo.reviews in
      let rec' = decided cr rec v d in
      let repo' : Repository = record repo { reviews = insert (a, c) rec' repo.reviews } in
      let view = detail a cr (some rec') in
      let done : decide_review in_memory a c d repo ≡ (ok_response view, repo') =
        rw (valid, admitted) refl in
      let self = lookup-insert_self (a, c) rec' repo.reviews in
      let again : Queries.get_review a c repo' ≡ ok view =
        Visible-get_review a c repo' report cr stored found ∙ ap (λ x. ok (detail a cr x)) self in
      subst (Written a c d repo) (sym done) (record {
        view = view;
        reply = refl;
        state = refl;
        version = ap (λ n. n + 1) (sym same);
        read = ap (λ x. respond (lift x)) again;
        others = λ k. rw self (lookup-insert (a, c) k rec' repo.reviews);
        reports = refl;
      })

  known_state : valid_decision d ≡ true → is_valid_state d.target_state ≡ true
  unfolding valid_decision
  known_state valid = ground arith

  -- From the standing of a clause that was found: the transition and the version decide.
  found-decided :
      (report : ReportRecord) (cr : ClauseReport) (s : String) (v : ℕ)
      → valid_decision d ≡ true
      → lookup a repo.analyses ≡ some report
      → find_clause report c ≡ some cr
      → current_review cr (lookup (a, c) repo.reviews) ≡ ok (s, v)
      → let out = decide_review in_memory a c d repo in
        (((validate_transition s d.target_state ≡ false) ⊎ (d.expected_version ≢ v))
          × Refused repo 409 out)
        ⊎ ((validate_transition s d.target_state ≡ true)
            × (d.expected_version ≡ v)
            × Written a c d repo out)
  unfolding admit handle
  found-decided report cr s v valid stored found current =
      let known = known_state valid in
      elim (Bool-cases (validate_transition s d.target_state)) [
        | inr barred ↦ inl (
          inl barred,
          refused review_state 409 valid (rw (known, stored, found, current, barred) refl) refl,
        )
        | inl allowed ↦ elim (Bool-cases (nat_eq d.expected_version v)) [
          | inr stale ↦ inl (
            inr (λ same. ground arith),
            refused concurrency 409 valid (rw (known, stored, found, current, allowed, stale) refl)
                refl,
          )
          | inl same ↦
              let expected : d.expected_version ≡ v = ground arith in
              inr (
                allowed,
                expected,
                written report cr v valid stored found expected
                    (rw (known, stored, found, current, allowed, same) refl),
              )
        ]
      ]

  -- The status code of a decision and what it did, from the request and the repository before it.
  -- 422: the request is not valid. 404: the analysis, the clause or its review does not exist.
  -- 409: the lifecycle has no such transition from the state of the review, or the request names
  -- another version than the review has. These leave the repository as it was. In all other cases
  -- the decision is answered with the state that it asked for and the next version, a reading gives
  -- the same from then on, and every other review and every report stays.
  pub decide_review_cases :
      let out = decide_review in_memory a c d repo in
      ((valid_decision d ≡ false) × Refused repo 422 out)
      ⊎ ((valid_decision d ≡ true) × (standing a c repo ≡ none) × Refused repo 404 out)
      ⊎ ((valid_decision d ≡ true)
          × ((s : String) × (v : ℕ) × (standing a c repo ≡ some (s, v))
              × ((((validate_transition s d.target_state ≡ false) ⊎ (d.expected_version ≢ v))
                    × Refused repo 409 out)
                  ⊎ ((validate_transition s d.target_state ≡ true)
                      × (d.expected_version ≡ v)
                      × Written a c d repo out))))
  unfolding decide_review standing admit handle
  decide_review_cases = elim (Bool-cases (valid_decision d)) [
    | inr invalid ↦
        inl (invalid, ((record { error = "validation_error" }, rw invalid refl), rw invalid refl))
    | inl valid ↦
        let known = known_state valid in
        elim (Option-cases (lookup a repo.analyses)) [
          | inl missing ↦ inr (
              inl (
                valid,
                rw (missing, standing) refl,
                refused analysis_not_found 404 valid (rw (known, missing) refl) refl,
              ))
          | inr (report, stored) ↦ elim (Option-cases (find_clause report c)) [
            | inl missing ↦ inr (
                inl (
                  valid,
                  rw (stored, missing, standing) refl,
                  refused analysis_not_found 404 valid (rw (known, stored, missing) refl) refl,
                ))
            | inr (cr, found) ↦ elim (current_cases cr (lookup (a, c) repo.reviews)) [
              | inl (nothing, raises) ↦ inr (
                  inl (
                    valid,
                    rw (stored, found, standing) nothing,
                    refused review_not_found 404 valid (rw (known, stored, found, raises) refl)
                        refl,
                  ))
              | inr (s, v, here, current) ↦ inr (
                  inr (
                    valid,
                    (
                      s,
                      v,
                      rw (stored, found, standing) here,
                      found-decided report cr s v valid stored found current,
                    ),
                  ))
            ]
          ]
        ]
  ]
