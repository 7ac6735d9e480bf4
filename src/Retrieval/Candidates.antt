-- ===== src/Retrieval/Candidates.antt =====
-- `_extract_hierarchy_ref`, `_is_appendix_only`, `_select_best_candidate` and `_format_citation` of
-- agent/mcp_search.py. The values of a hierarchy are those that `str` gives.
use Prim.Native.Char.{code}
use Prim.Native.String.{◌++◌}
use cfr_compliance_mcp.Prelude.{
  String, Bool, true, false, not, ◌&&◌, ◌||◌, Option, none, some, List, [], ◌∷◌, nat_eq, is_some,
  truthy, if◌then◌else◌, ◌==◌, ◌≡◌, refl,
}

-- The `hierarchy` of a search result.
pub record Hierarchy : Type 0 where
  pub title : Option String
  pub part : Option String
  pub section : Option String
  pub appendix : Option String

-- A search result: an object, with a hierarchy if that is an object too.
pub data SearchHit : Type 0 where
  no_object : SearchHit
  hit : Option Hierarchy → SearchHit

-- Title, part and section of a candidate.
abbrev pub Candidate : Type 0
Candidate = String × String × Option String

-- `str(x) if x not in (None, "") else None`.
unfoldable pub present : Option String → Option String
present none = none
present (some s) = if truthy s then some s else none

unfoldable pub is_appendix_only : Hierarchy → Bool
unfolding present
is_appendix_only h = is_some (present h.appendix) && not (is_some (present h.part))

-- The candidate of a hierarchy, if it can be used.
unfoldable pub candidate_of : Hierarchy → Option Candidate
unfolding is_appendix_only
candidate_of h = if is_appendix_only h then none else elim (present h.title) [
  | none ↦ none
  | some title ↦ elim (present h.part) [
    | none ↦ none
    | some part ↦ some (title, part, present h.section)
  ]
]

unfoldable pub usable_candidates : List SearchHit → List Candidate
usable_candidates [] = []
usable_candidates (no_object ∷ rest) = usable_candidates rest
usable_candidates (hit none ∷ rest) = usable_candidates rest
usable_candidates (hit (some h) ∷ rest) = elim (candidate_of h) [
  | none ↦ usable_candidates rest
  | some c ↦ c ∷ usable_candidates rest
]

unfoldable pub first_titled : String → List Candidate → Option Candidate
first_titled title [] = none
first_titled title (c ∷ rest) = if c.0 == title then some c else first_titled title rest

unfoldable pub select_from : List Candidate → Option String → Option Candidate
select_from [] predicted = none
select_from (c ∷ rest) none = some c
select_from (c ∷ rest) (some title) = elim (first_titled title (c ∷ rest)) [
  | none ↦ some c
  | some found ↦ some found
]

unfoldable pub select_best_candidate : List SearchHit → Option String → Option Candidate
select_best_candidate results predicted = select_from (usable_candidates results) predicted

-- `s.startswith(prefix)`.
unfoldable pub starts_with : String → String → Bool
starts_with String.[] s = true
starts_with (String.◌∷◌ c p) String.[] = false
starts_with (String.◌∷◌ c p) (String.◌∷◌ d s) = nat_eq (code c) (code d) && starts_with p s

-- Part and section, where one of them may be empty.
join_reference : String → String → String → String
join_reference title part section =
    if not (truthy part) && not (truthy section)
    then title ++ " CFR"
    else if not (truthy part)
    then title ++ " CFR " ++ section
    else if not (truthy section)
    then title ++ " CFR " ++ part
    else if section == part || starts_with (part ++ ".") section
    then title ++ " CFR " ++ section
    else title ++ " CFR " ++ part ++ "." ++ section

empty_if_none : Option String → String
empty_if_none none = ""
empty_if_none (some s) = s

unfoldable pub format_citation : String → Option String → Option String → String
unfolding join_reference empty_if_none starts_with
format_citation title part section =
    join_reference title (empty_if_none part) (empty_if_none section)

qualified : format_citation "29" (some "1910") (some "1910.1450") ≡ "29 CFR 1910.1450"
unfolding format_citation
qualified = refl

unqualified : format_citation "48" (some "52") (some "212-4") ≡ "48 CFR 52.212-4"
unfolding format_citation
unqualified = refl
