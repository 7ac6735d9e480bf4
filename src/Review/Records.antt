-- ===== src/Review/Records.antt =====
-- The data of the review workflow: agent/persistence/models.py, the exceptions of
-- agent/persistence/base.py, and the review record that the in-memory repository keeps as a
-- dictionary. A message carried by an exception is left out.
use cfr_compliance_mcp.Prelude.{ℕ, String, Bool, Option, List, true, false}
use cfr_compliance_mcp.Models.{EvidencePassage, ReviewAudit}

pub data PersistenceError : Type 0 where
  analysis_not_found review_not_found review_state concurrency : PersistenceError

-- What a method gives: an exception, or the value that it returns.
pub data Result {ℓ} (A : Type ℓ) : Type ℓ where
  err : PersistenceError → Result A
  ok : A → Result A

-- The next statement runs unless an exception was raised.
infixl 5 ◌>>◌
abbrev pub ◌>>◌ {ℓ} : {A : Type ℓ} → Result (Unit {0}) → Result A → Result A
err e >> next = err e
ok _ >> next = next

infixl 5 ◌>>=◌
abbrev pub ◌>>=◌ {ℓ κ} : {A : Type ℓ} {B : Type κ} → Result A → (A → Result B) → Result B
err e >>= next = err e
ok value >>= next = next value

-- `if not b: raise e`.
abbrev pub require : Bool → PersistenceError → Result (Unit {0})
require true e = ok tt
require false e = err e

abbrev pub or_raise {ℓ} : {A : Type ℓ} → Option A → PersistenceError → Result A
or_raise (Option.some a) e = ok a
or_raise Option.none e = err e

pub record ReviewEvent : Type 0 where
  pub state : String
  pub reason : String
  pub reviewer_identity : String
  pub created_at : String

pub record ReviewRecord : Type 0 where
  pub state : String
  pub version : ℕ
  pub original_status : String
  pub reviewer_identity : String
  pub decision_reason : String
  pub decided_at : String
  pub events : List ReviewEvent

pub record AnalysisSummary : Type 0 where
  pub analysis_id : String
  pub generated_at : String
  pub contract_id : Option String
  pub total_clauses : ℕ
  pub compliant : ℕ
  pub non_compliant : ℕ
  pub needs_review : ℕ

pub record MetricsSummary : Type 0 where
  pub total_analyses : ℕ
  pub total_clauses : ℕ
  pub compliant : ℕ
  pub non_compliant : ℕ
  pub needs_review : ℕ
  pub review_pending : ℕ

pub record ReviewItem : Type 0 where
  pub analysis_id : String
  pub clause_id : String
  pub clause_title : String
  pub original_status : String
  pub verification_status : String
  pub review_state : String
  pub version : ℕ
  pub reviewer_identity : String
  pub decided_at : String

pub record ReviewDetail : Type 0 where
  pub analysis_id : String
  pub clause_id : String
  pub clause_title : String
  pub original_status : String
  pub verification_status : String
  pub reason : String
  pub confidence : ℕ
  pub memory_participated : Bool
  pub evidence : List EvidencePassage
  pub review_audit : Option ReviewAudit
  pub review_state : Option String
  pub version : ℕ
  pub reviewer_identity : String
  pub decision_reason : String
  pub decided_at : String
  pub events : List ReviewEvent

-- The body of a decision, `ReviewDecisionRequest`, with the time at which it is taken.
pub record Decision : Type 0 where
  pub target_state : String
  pub reason : String
  pub reviewer_identity : String
  pub expected_version : ℕ
  pub now : String
