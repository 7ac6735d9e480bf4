-- ===== src/Retrieval/Domains.antt =====
-- `optimize_clause` of agent/cfr_query_optimizer.py, without the text of its reason.
use Prim.Native.String.{◌++◌}
use mathlib.Core.List.{flat_map}
use cfr_compliance_mcp.Prelude.{
  ℕ, String, not, ◌&&◌, Option, none, some, List, [], ◌∷◌, ltb, nat_eq, is_some, keep, any, map,
  length, join, contains_text, if◌then◌else◌, ◌==◌, ◌≡◌, refl,
}
use cfr_compliance_mcp.Prelude.Dict.{Dict}
use cfr_compliance_mcp.Regex.{re_search, whole, text}

pub record DomainRule : Type 0 where
  pub name : String
  pub keywords : List String
  pub title : String

-- `_DOMAIN_RULES`; the order breaks ties.
abbrev pub domain_rules : List DomainRule
domain_rules =
    record {
      name = "environmental";
      keywords = "hazardous waste" ∷ "waste" ∷ "disposal" ∷ "epa" ∷ "chemical" ∷ "pollution" ∷ [];
      title = "40";
    }
    ∷ record {
      name = "employment";
      keywords =
          "discrimination" ∷ "equal opportunity" ∷ "affirmative action" ∷ "race" ∷ "gender"
          ∷ "employment" ∷ [];
      title = "41";
    }
    ∷ record {
      name = "safety";
      keywords =
          "workplace safety" ∷ "construction safety" ∷ "fall protection" ∷ "scaffold"
          ∷ "hazard communication" ∷ "osha" ∷ [];
      title = "29";
    }
    ∷ record {
      name = "labor";
      keywords = "wage" ∷ "payroll" ∷ "laborer" ∷ "mechanic" ∷ "certified payroll" ∷ [];
      title = "29";
    }
    ∷ record {
      name = "procurement";
      keywords = "government contract" ∷ "federal contract" ∷ "subcontractor" ∷ [];
      title = "48";
    }
    ∷ []

-- `_matched_keywords`; the keywords are lower case, and `whole` ignores the case of the text.
unfoldable pub matched_keywords : DomainRule → String → List String
matched_keywords rule haystack = keep (λ kw. is_some (re_search (whole kw) haystack)) rule.keywords

abbrev pub Scored : Type 0
Scored = DomainRule × List String

unfoldable pub score_all : List DomainRule → String → List Scored
score_all [] haystack = []
score_all (rule ∷ rules) haystack =
    (rule, matched_keywords rule haystack) ∷ score_all rules haystack

abbrev pub score_of : Option Scored → ℕ
score_of none = 0
score_of (some s) = length s.1

-- The loop over the scored domains, from the winner so far.
unfoldable pub pick_winner : List Scored → Option Scored → Option Scored
pick_winner [] winner = winner
pick_winner (s ∷ rest) winner =
    pick_winner rest (if ltb (score_of winner) (length s.1) then some s else winner)

unfoldable pub confidence_for_score : ℕ → String
confidence_for_score score =
    if nat_eq score 0
    then "none"
    else if nat_eq score 1
    then "low"
    else if nat_eq score 2
    then "medium"
    else "high"

-- `_dedupe_contained`.
unfoldable pub dedupe_contained : List String → List String
dedupe_contained keywords =
    keep (λ kw. not (any (λ other. not (kw == other) && contains_text other kw) keywords)) keywords

pub record OptimizedQueryResult : Type 0 where
  pub search_query : String
  pub title : Option String
  pub matches : List String
  pub domain : Option String
  pub score : ℕ
  pub confidence : String
  pub all_scores : Dict String ℕ

unfoldable pub optimized : String → List Scored → Option Scored → OptimizedQueryResult
optimized base_query scored none = record {
  search_query = base_query;
  title = none;
  matches = [];
  domain = none;
  score = 0;
  confidence = "none";
  all_scores = map (λ s. (s.0.name, length s.1)) scored;
}
optimized base_query scored (some (rule, matches)) = record {
  search_query = join " " (dedupe_contained matches);
  title = some rule.title;
  matches = matches;
  domain = some rule.name;
  score = length matches;
  confidence = confidence_for_score (length matches);
  all_scores = map (λ s. (s.0.name, length s.1)) scored;
}

unfoldable pub optimize_clause : String → String → String → OptimizedQueryResult
optimize_clause clause_title clause_text base_query =
    let scored = score_all domain_rules (clause_title ++ " " ++ clause_text) in
    optimized base_query scored (pick_winner scored none)

predicts : (optimize_clause "Waste" "Hazardous waste and payroll." "q").title ≡ some "40"
unfolding optimize_clause optimized pick_winner score_all matched_keywords re_search text flat_map
predicts = refl
