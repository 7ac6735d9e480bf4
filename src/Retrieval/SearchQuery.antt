-- ===== src/Retrieval/SearchQuery.antt =====
-- `build_search_query` of agent/mcp_search.py.
use Prim.Native.Char.{Char, code}
use Prim.Native.String.{count, ◌++◌}
use mathlib.Core.List.{head?, flat_map}
use mathlib.Core.List as Lists
use cfr_compliance_mcp.Prelude.{
  ℕ, ◌+◌, String, Bool, true, false, ◌||◌, Option, none, some, List, [], ◌∷◌, ltb, nat_eq, lower,
  join, mem_text, ◌≡◌, refl,
}
use cfr_compliance_mcp.Regex.{
  Pattern, Position, ends, one, many, text, maybe, all_of, is_space, is_digit,
}
use cfr_compliance_mcp.Models.{Clause}
use cfr_compliance_mcp.Rules.Keywords as Keywords

abbrev is_blank : Char → Bool
is_blank c = nat_eq (code c) 32 || nat_eq (code c) 9

-- `_HEADING_PREFIX_PATTERN`, behind its `^`.
abbrev heading_prefix : Pattern
heading_prefix = all_of (
    many is_blank
    ∷ text "section"
    ∷ one is_space
    ∷ many is_space
    ∷ one is_digit
    ∷ many is_digit
    ∷ maybe (text ".")
    ∷ many is_space
    ∷ [])

behind : String → Option Position → String
behind s none = s
behind s (some (before, rest)) = rest

-- `_HEADING_PREFIX_PATTERN.sub("", s)`: the prefix is matched at the start only.
unfoldable pub strip_heading : String → String
unfolding behind ends text maybe all_of flat_map
strip_heading s = behind s (head? (ends heading_prefix (none, s)))

abbrev pub query_stop_words : List String
query_stop_words =
    "contractor" ∷ "owner" ∷ "agreement" ∷ "work" ∷ "shall" ∷ "comply" ∷ "perform" ∷ "performed"
    ∷ "performing" ∷ "services" ∷ "party" ∷ "parties" ∷ "section" ∷ "clause" ∷ "contract" ∷ "hereby"
    ∷ "herein" ∷ "hereof" ∷ "hereunder" ∷ "thereof" ∷ "pursuant" ∷ "applicable" ∷ "obligation"
    ∷ "obligations" ∷ "requirement" ∷ "requirements" ∷ "provision" ∷ "provisions" ∷ "term" ∷ "terms"
    ∷ "condition" ∷ "conditions" ∷ "including" ∷ "include" ∷ "includes" ∷ "provide" ∷ "provided"
    ∷ "provides" ∷ "ensure" ∷ "ensures" ∷ "course" ∷ "date" ∷ "time" ∷ "days" ∷ "written" ∷ "notice"
    ∷ "respect" ∷ "regard" ∷ "a" ∷ "an" ∷ "the" ∷ "of" ∷ "to" ∷ "in" ∷ "on" ∷ "at" ∷ "by" ∷ "for"
    ∷ "with" ∷ "and" ∷ "or" ∷ "but" ∷ "if" ∷ "as" ∷ "is" ∷ "are" ∷ "was" ∷ "were" ∷ "be" ∷ "been"
    ∷ "being" ∷ "this" ∷ "that" ∷ "these" ∷ "those" ∷ "all" ∷ "any" ∷ "each" ∷ "such" ∷ "from"
    ∷ "into" ∷ "during" ∷ "prior" ∷ "under" ∷ "upon" ∷ "not" ∷ "no" ∷ "so" ∷ "than" ∷ "then"
    ∷ "which" ∷ "who" ∷ "whom" ∷ "whose" ∷ "it" ∷ "its" ∷ "their" ∷ "his" ∷ "her" ∷ "they" ∷ "them"
    ∷ "he" ∷ "she" ∷ "we" ∷ "you" ∷ "your" ∷ "our" ∷ "i" ∷ "will" ∷ "would" ∷ "may" ∷ "must" ∷ "can"
    ∷ "could" ∷ []

abbrev pub max_query_chars : ℕ
max_query_chars = 250

-- The words that the loop passes over, given those it has kept.
abbrev pub is_skipped : String → List String → Bool
is_skipped word keywords =
    mem_text word query_stop_words || ltb (count word) 3 || mem_text word keywords

-- The length that a word adds: 1 more for the joining space, behind other words.
abbrev pub added_length : String → List String → ℕ
added_length word [] = count word
added_length word (k ∷ ks) = count word + 1

-- The loop, on the keywords and the length so far; a word that does not fit ends it.
unfoldable pub collect : List String → List String → ℕ → List String
collect [] keywords length = keywords
collect (word ∷ words) keywords length = elim (is_skipped (lower word) keywords) [
  | true ↦ collect words keywords length
  | false ↦ elim (ltb max_query_chars (length + added_length (lower word) keywords)) [
    | true ↦ keywords
    | false ↦
        collect words (Lists.◌++◌ keywords (lower word ∷ []))
          (length + added_length (lower word) keywords)
  ]
]

unfoldable pub query_words : Clause → List String
query_words clause =
    Keywords.tokens (strip_heading clause.title ++ " " ++ strip_heading clause.text)

unfoldable pub build_search_query : Clause → String
build_search_query clause = join " " (collect (query_words clause) [] 0)

heading_runs : strip_heading "  Section 12. Hazardous Waste" ≡ "Hazardous Waste"
unfolding strip_heading
heading_runs = refl
