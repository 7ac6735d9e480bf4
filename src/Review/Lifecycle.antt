-- ===== src/Review/Lifecycle.antt =====
-- The review lifecycle: agent/persistence/review_lifecycle.py, and `ReviewState` of
-- agent/persistence/models.py. States travel as texts, as in the source.
use cfr_compliance_mcp.Prelude.{
  String, Bool, true, false, Option, none, some, List, [], ◌∷◌, ◌≡◌, refl, ◌↔◌, ◌==◌, eq_iff, arith,
  subst, sym, inl, inr, mem_text, Bool-cases,
}
use mathlib.Core.Path.{subst₂}
use cfr_compliance_mcp.Prelude.Dict.{Dict, lookup, string_eq}

pub data ReviewState : Type 0 where
  needs_review under_review approved rejected escalated : ReviewState

abbrev pub state_text : ReviewState → String
state_text needs_review = "needs_review"
state_text under_review = "under_review"
state_text approved = "approved"
state_text rejected = "rejected"
state_text escalated = "escalated"

abbrev pub review_states : List String
review_states = "needs_review" ∷ "under_review" ∷ "approved" ∷ "rejected" ∷ "escalated" ∷ []

abbrev pub allowed_transitions : Dict String (List String)
allowed_transitions =
    ("needs_review", "under_review" ∷ [])
    ∷ ("under_review", "approved" ∷ "rejected" ∷ "escalated" ∷ [])
    ∷ []

unfoldable pub is_valid_state : String → Bool
is_valid_state state = mem_text state review_states

targets_allow : Option (List String) → String → Bool
targets_allow none target = false
targets_allow (some targets) target = mem_text target targets

unfoldable pub validate_transition : String → String → Bool
unfolding targets_allow lookup
validate_transition current target = targets_allow (lookup current allowed_transitions) target

-- The transition graph that the module's documentation draws.
pub data Edge : ReviewState → ReviewState → Type 0 where
  start : Edge needs_review under_review
  approve : Edge under_review approved
  reject : Edge under_review rejected
  escalate : Edge under_review escalated

abbrev pub IsEdge : String → String → Type 0
IsEdge current target =
    (s t : ReviewState) × (current ≡ state_text s) × (target ≡ state_text t) × Edge s t

IsEdge-from_start : (t : String) → mem_text t ("under_review" ∷ []) ≡ true → IsEdge "needs_review" t
IsEdge-from_start t h =
    (needs_review, under_review, refl, ground (arith, eq_iff t "under_review"), start)

IsEdge-from_review :
    (t : String)
    → mem_text t ("approved" ∷ "rejected" ∷ "escalated" ∷ []) ≡ true
    → IsEdge "under_review" t
IsEdge-from_review t h = elim (Bool-cases (t == "approved")) [
  | inl a ↦ (under_review, approved, refl, (eq_iff t "approved").0 a, approve)
  | inr a ↦ elim (Bool-cases (t == "rejected")) [
    | inl r ↦ (under_review, rejected, refl, (eq_iff t "rejected").0 r, reject)
    | inr r ↦ (under_review, escalated, refl, ground (arith, eq_iff t "escalated"), escalate)
  ]
]

validate-IsEdge : (c t : String) → validate_transition c t ≡ true → IsEdge c t
unfolding validate_transition
validate-IsEdge c t h = elim (Bool-cases ("needs_review" == c)) [
  | inl n ↦
      subst (λ x. IsEdge x t) ((eq_iff "needs_review" c).0 n) (IsEdge-from_start t (rw n at h))
  | inr n ↦ elim (Bool-cases ("under_review" == c)) [
    | inl u ↦
        subst (λ x. IsEdge x t) ((eq_iff "under_review" c).0 u)
          (IsEdge-from_review t (rw u at (rw n at h)))
    | inr u ↦ ground arith
  ]
]

Edge-validate :
    {s t : ReviewState} → Edge s t → validate_transition (state_text s) (state_text t) ≡ true
unfolding validate_transition
Edge-validate start = refl
Edge-validate approve = refl
Edge-validate reject = refl
Edge-validate escalate = refl

-- For any two texts, a transition is allowed exactly when they spell the ends of one of the four
-- edges: needs_review to under_review, and under_review to approved, rejected or escalated.
pub validate_transition_iff : (c t : String) → (validate_transition c t ≡ true) ↔ IsEdge c t
validate_transition_iff c t = (
  validate-IsEdge c t,
  λ e.
      let (s, u, cs, tu, edge) = e in
      subst₂ (λ x y. validate_transition x y ≡ true) (sym cs) (sym tu) (Edge-validate edge),
)
