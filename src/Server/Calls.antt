-- ===== src/Server/Calls.antt =====
-- The state of `EcfrClient` (src/cfr_compliance_mcp/clients/ecfr_client.py) and what its methods are
-- made of: a call changes the client and returns or raises. The upstream, behind the HTTP client and
-- its retries, answers a request by what was asked before; the requests are kept in order. Methods
-- run one at a time.
use cfr_compliance_mcp.Prelude.{
  ℕ, String, Bool, true, ◌≡◌, ◌↔◌, ◌&&◌, List, [], ◌∷◌, ◌++◌, nat_eq, arith, eq_iff, ◌==◌,
}
use cfr_compliance_mcp.Prelude.Dict.{Dict, Key}
use cfr_compliance_mcp.Server.Errors.{HttpResult, raises, returns, ToolError, translate}

pub record Request : Type 0 where
  pub path : String
  pub params : List (String × String)

pub nat_eq_iff : (a b : ℕ) → (nat_eq a b ≡ true) ↔ (a ≡ b)
nat_eq_iff a b = (λ h. ground arith, λ h. ground arith)

instance abbrev pub title_key : Key ℕ
title_key = record { key_eq = nat_eq; key_eq_iff = nat_eq_iff }

abbrev pub dated_eq : ℕ × String → ℕ × String → Bool
dated_eq (a, b) (c, d) = nat_eq a c && b == d

pub dated_eq_iff : (p q : ℕ × String) → (dated_eq p q ≡ true) ↔ (p ≡ q)
dated_eq_iff (a, b) (c, d) = (λ h. ground (arith, eq_iff b d), λ h. ground (arith, eq_iff b d))

instance abbrev pub dated_key : Key (ℕ × String)
dated_key = record { key_eq = dated_eq; key_eq_iff = dated_eq_iff }

pub record Client : Type 0 where
  pub latest_date_cache : Dict ℕ String
  pub full_title_xml_cache : Dict (ℕ × String) String
  pub sent : List Request

abbrev pub new_client : Client
new_client = record { latest_date_cache = []; full_title_xml_cache = []; sent = [] }

pub data Returned {ℓ} (A : Type ℓ) : Type ℓ where
  error : ToolError → Returned A
  value : A → Returned A

abbrev pub Call {ℓ} : Type ℓ → Type ℓ
Call A = Client → Returned A × Client

abbrev pub pure {ℓ} : {A : Type ℓ} → A → Call A
pure a c = (value a, c)

abbrev pub fail {ℓ} : {A : Type ℓ} → ToolError → Call A
fail e c = (error e, c)

-- The next call runs unless an exception was raised.
abbrev pub continue {ℓ κ} :
    {A : Type ℓ} {B : Type κ} → Returned A × Client → (A → Call B) → Returned B × Client
continue (error e, c) k = (error e, c)
continue (value a, c) k = k a c

infixl 5 ◌>>=◌
abbrev pub ◌>>=◌ {ℓ κ} : {A : Type ℓ} {B : Type κ} → Call A → (A → Call B) → Call B
(m >>= k) c = continue (m c) k

-- `self`, and an assignment to it.
abbrev pub self : Call Client
self c = (value c, c)

abbrev pub update : (Client → Client) → Call (Unit {0})
update f c = (value tt, f c)

unfoldable pub answer : HttpResult String → Client → Returned String × Client
answer (raises e) c = (error (translate e), c)
answer (returns text) c = (value text, c)

-- `EcfrClient._request`, to the text of the response.
unfoldable pub request : (List Request → Request → HttpResult String) → Request → Call String
unfolding answer
request upstream q c = answer (upstream c.sent q) (record c { sent = c.sent ++ q ∷ [] })
