-- ===== src/Retrieval/Prediction.antt =====
-- Which domain `optimize_clause` of agent/cfr_query_optimizer.py predicts.
use Prim.Native.String.{◌++◌ as joined}
use cfr_compliance_mcp.Prelude.{
  ℕ, ◌≤◌, ◌<◌, String, ◌≡◌, ◌⊎◌, Option, none, some, List, ◌∷◌, ◌++◌, All, length,
}
use cfr_compliance_mcp.Retrieval.Domains.{Scored, score_of, OptimizedQueryResult}

abbrev pub Below : ℕ → List Scored → Type 0
Below n ss = All (λ s. length s.1 < n) ss

abbrev pub AtMost : ℕ → List Scored → Type 0
AtMost n ss = All (λ s. length s.1 ≤ n) ss

-- The first domain with the most matches: earlier ones have fewer, later ones no more.
abbrev pub Leads : List Scored → Scored → Type 0
Leads ss s =
    (before rest : List Scored) × (ss ≡ before ++ s ∷ rest)
    × Below (length s.1) before
    × AtMost (length s.1) rest

-- The loop keeps a winner that nothing exceeds, or ends with the first domain that exceeds the
-- winner and leads.
abbrev Ends : List Scored → Option Scored → Option Scored → Type 0
Ends ss w none = (w ≡ none) × AtMost 0 ss
Ends ss w (some s) =
    ((w ≡ some s) × AtMost (length s.1) ss) ⊎ ((score_of w < length s.1) × Leads ss s)

-- A result that predicts nothing, where no domain has a match: the base query is kept.
abbrev pub Unpredicted : List Scored → String → OptimizedQueryResult → Type 0
Unpredicted scored base r =
    AtMost 0 scored × (r.title ≡ none) × (r.search_query ≡ base) × (r.score ≡ 0)

-- A result that predicts the title of the domain that leads.
abbrev pub Predicted : List Scored → OptimizedQueryResult → Type 0
Predicted scored r =
    (s : Scored) × Leads scored s
    × (0 < length s.1)
    × (r.title ≡ some s.0.title)
    × (r.matches ≡ s.1)
    × (r.score ≡ length s.1)
