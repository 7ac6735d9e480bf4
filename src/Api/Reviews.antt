-- ===== src/Api/Reviews.antt =====
-- The review endpoints of api.py and its exception handlers, on a backend of
-- agent/persistence: `InMemoryRepository`, or the review methods of `FileRepository`. A backend's
-- exceptions pass through the endpoints to the handlers.
use cfr_compliance_mcp.Prelude.{
  ℕ, String, Bool, ◌&&◌, Option, none, some, List, leb, truthy, if◌then◌else◌,
}
use Prim.Native.String.{count}
use cfr_compliance_mcp.Review.Lifecycle.{is_valid_state}
use cfr_compliance_mcp.Review.Records.{
  PersistenceError, analysis_not_found, review_not_found, review_state, concurrency, Result, ok,
  err, ReviewItem, ReviewDetail, Decision,
}
use cfr_compliance_mcp.Review.Repository as Memory
use cfr_compliance_mcp.Review.Repository.{Repository}
use cfr_compliance_mcp.Review.Queries as Queries

-- The exceptions of the backends: those of the review workflow, and `ReviewNotSupportedError`.
pub data Failure : Type 0 where
  persistence : PersistenceError → Failure
  not_supported : Failure

pub data Outcome {ℓ} (A : Type ℓ) : Type ℓ where
  failed : Failure → Outcome A
  success : A → Outcome A

-- The body of an error response, without its message.
pub record ApiError : Type 0 where
  pub error : String

-- The handlers' status code and error code for an exception.
unfoldable pub handle : Failure → ℕ × ApiError
handle (persistence analysis_not_found) = (404, record { error = "analysis_not_found" })
handle (persistence review_not_found) = (404, record { error = "review_not_found" })
handle (persistence review_state) = (409, record { error = "invalid_transition" })
handle (persistence concurrency) = (409, record { error = "concurrency_conflict" })
handle not_supported = (501, record { error = "review_not_supported" })

pub data Response {ℓ} (A : Type ℓ) : Type ℓ where
  error_response : ℕ → ApiError → Response A
  ok_response : A → Response A

unfoldable pub respond {ℓ} : {A : Type ℓ} → Outcome A → Response A
respond (success a) = ok_response a
respond (failed e) = error_response (handle e).0 (handle e).1

-- The review methods of a backend whose state is an `R`.
pub record ReviewBackend (R : Type 0) : Type 0 where
  pub list_review_queue : Option String → ℕ → ℕ → R → Outcome (List ReviewItem)
  pub count_review_queue : Option String → R → Outcome ℕ
  pub get_review : String → String → R → Outcome ReviewDetail
  pub transition_review : String → String → Decision → R → Outcome ReviewDetail × R

unfoldable pub lift {ℓ} : {A : Type ℓ} → Result A → Outcome A
lift (ok a) = success a
lift (err e) = failed (persistence e)

-- `InMemoryRepository`.
abbrev pub in_memory : ReviewBackend Repository
in_memory = record {
  list_review_queue =
      λ state limit offset repo. success (Queries.list_review_queue state limit offset repo);
  count_review_queue = λ state repo. success (Queries.count_review_queue state repo);
  get_review = λ a c repo. lift (Queries.get_review a c repo);
  transition_review =
      λ a c d repo. let out = Memory.transition_review a c d repo in (lift out.0, out.1);
}

-- The review methods of `FileRepository`, whatever its files are.
abbrev pub unsupported : {R : Type 0} → ReviewBackend R
unsupported = record {
  list_review_queue = λ state limit offset repo. failed not_supported;
  count_review_queue = λ state repo. failed not_supported;
  get_review = λ a c repo. failed not_supported;
  transition_review = λ a c d repo. (failed not_supported, repo);
}

pub record ReviewListResponse : Type 0 where
  pub items : List ReviewItem
  pub total : ℕ
  pub limit : ℕ
  pub offset : ℕ

-- `ReviewDecisionRequest`, and the validation that answers 422.
unfoldable pub valid_decision : Decision → Bool
valid_decision d =
    is_valid_state d.target_state
    && leb (count d.reason) 2000
    && leb (count d.reviewer_identity) 200

-- The bounds of the paging parameters.
unfoldable pub valid_page : ℕ → Bool
valid_page limit = leb 1 limit && leb limit 200

abbrev validation_error : {A : Type 0} → Response A
validation_error = error_response 422 (record { error = "validation_error" })

module _ {R : Type 0} (b : ReviewBackend R) where
  list_total : ℕ → ℕ → List ReviewItem → Outcome ℕ → Outcome ReviewListResponse
  list_total limit offset items (failed e) = failed e
  list_total limit offset items (success n) =
      success (record { items = items; total = n; limit = limit; offset = offset })

  list_items : String → ℕ → ℕ → Outcome (List ReviewItem) → R → Outcome ReviewListResponse
  unfolding list_total
  list_items state limit offset (failed e) repo = failed e
  list_items state limit offset (success items) repo =
      list_total limit offset items (b.count_review_queue (some state) repo)

  -- `(state.value if state else None) or "needs_review"`.
  abbrev pub queue_state : Option String → String
  queue_state none = "needs_review"
  queue_state (some state) = if truthy state then state else "needs_review"

  -- `list_reviews`.
  unfoldable pub list_reviews : Option String → ℕ → ℕ → R → Response ReviewListResponse
  unfolding list_items
  list_reviews state limit offset repo =
      if valid_page limit
      then respond (
          list_items (queue_state state) limit offset
            (b.list_review_queue (some (queue_state state)) limit offset repo) repo)
      else validation_error

  -- `get_review`.
  unfoldable pub get_review : String → String → R → Response ReviewDetail
  get_review a c repo = respond (b.get_review a c repo)

  -- `decide_review`.
  unfoldable pub decide_review : String → String → Decision → R → Response ReviewDetail × R
  decide_review a c d repo =
      if valid_decision d
      then (let out = b.transition_review a c d repo in (respond out.0, out.1))
      else (validation_error, repo)
