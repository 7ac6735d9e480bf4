-- ===== src/Retrieval/Selection.antt =====
-- Which candidate `_select_best_candidate` of agent/mcp_search.py takes.
use cfr_compliance_mcp.Prelude.{
  String, ◌≡◌, ◌⊎◌, false, Option, none, some, List, [], ◌∷◌, ◌++◌, All, ◌==◌,
}
use cfr_compliance_mcp.Retrieval.Candidates.{Candidate}

-- The first place of a candidate in a list: what stands before it, and behind it.
abbrev pub Untitled : String → List Candidate → Type 0
Untitled title cs = All (λ c. (c.0 == title) ≡ false) cs

-- The candidate is the first one of the predicted title; or no candidate has that title, or none is
-- predicted, and it is the first of all.
abbrev pub Best : List Candidate → Option String → Candidate → Type 0
Best cs none c = (rest : List Candidate) × (cs ≡ c ∷ rest)
Best cs (some title) c =
    ((before rest : List Candidate) × (cs ≡ before ++ c ∷ rest)
      × (c.0 ≡ title)
      × Untitled title before)
    ⊎ ((rest : List Candidate) × (cs ≡ c ∷ rest) × Untitled title cs)

-- Nothing is selected and nothing can be used, or the best of what can be used is selected.
abbrev pub Selected : List Candidate → Option String → Option Candidate → Type 0
Selected cs predicted none = cs ≡ []
Selected cs predicted (some c) = Best cs predicted c

abbrev Searched : String → List Candidate → Option Candidate → Type 0
Searched title cs none = Untitled title cs
Searched title cs (some c) =
    (before rest : List Candidate) × (cs ≡ before ++ c ∷ rest)
    × (c.0 ≡ title)
    × Untitled title before
