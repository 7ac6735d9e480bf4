-- ===== src/Server/Retrying.antt =====
-- Which failures of a request an agent is told to try again: clients/http_client.py,
-- clients/ecfr_client.py and tools/_common.py of src/cfr_compliance_mcp.
use cfr_compliance_mcp.Prelude.{
  ℕ, ◌≤◌, ◌<◌, String, ◌≡◌, refl, ◌↔◌, ◌⊎◌, true, Option, none, some, arith,
}
use cfr_compliance_mcp.Server.Errors.{
  HttpError, client_error, not_found, rate_limited, server_error, timeout, connection,
  raise_for_status, Sent, response, timed_out, connect_failed, transport_failed, raises, checked,
  attempt, is_retryable, translate, class_name, is_ecfr, build_error_response,
}

-- A failure that may pass: no answer, too many requests, or an error of the upstream server.
abbrev pub Transient : Sent → Type 0
Transient (response status text) = (status ≡ 429) ⊎ ((500 ≤ status) × (status < 600))
Transient timed_out = Unit
Transient connect_failed = Unit
Transient transport_failed = Unit

-- The same verdict at both ends.
told_iff : (e : HttpError) → (build_error_response (translate e)).retryable ≡ is_retryable e
unfolding build_error_response translate is_retryable class_name is_ecfr
told_iff client_error = refl
told_iff not_found = refl
told_iff rate_limited = refl
told_iff server_error = refl
told_iff timeout = refl
told_iff connection = refl

raised_response :
    (status : ℕ) (e : HttpError)
    → raise_for_status status ≡ some e
    → (is_retryable e ≡ true) ↔ ((status ≡ 429) ⊎ ((500 ≤ status) × (status < 600)))
unfolding is_retryable raise_for_status
raised_response status client_error h = (λ x. absurd (ground arith), λ x. ground arith)
raised_response status not_found h = (λ x. absurd (ground arith), λ x. ground arith)
raised_response status rate_limited h = (λ x. ground arith, λ x. refl)
raised_response status server_error h = (λ x. ground arith, λ x. refl)
raised_response status timeout h = absurd (ground arith)
raised_response status connection h = absurd (ground arith)

checked-raises :
    (text : String) (o : Option HttpError) (e : HttpError) → checked text o ≡ raises e → o ≡ some e
unfolding checked
checked-raises text none e h = absurd (ground arith)
checked-raises text (some x) e h = ground arith

raised_Transient :
    (sent : Sent) (e : HttpError)
    → attempt sent ≡ raises e
    → (is_retryable e ≡ true) ↔ Transient sent
unfolding attempt is_retryable
raised_Transient (response status text) e h =
    raised_response status e (checked-raises text (raise_for_status status) e h)
raised_Transient timed_out e h = (λ x. tt, λ x. ground arith)
raised_Transient connect_failed e h = (λ x. tt, λ x. ground arith)
raised_Transient transport_failed e h = (λ x. tt, λ x. ground arith)

-- When an attempt fails, the failure is one that the HTTP client tries again exactly when it is
-- transient, and exactly then the agent is told that it may try again.
pub attempt-retryable_iff :
    (sent : Sent) (e : HttpError)
    → attempt sent ≡ raises e
    → ((is_retryable e ≡ true) ↔ Transient sent)
      × (((build_error_response (translate e)).retryable ≡ true) ↔ Transient sent)
attempt-retryable_iff sent e h =
    let here = raised_Transient sent e h in (here, rw (told_iff e) here)
