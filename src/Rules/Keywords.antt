-- ===== src/Rules/Keywords.antt =====
-- Keywords and markers: `_extract_keywords`, `_has_mandatory_language`, `_has_prohibited_language`,
-- `_topic_overlap` and `_build_citation` of agent/deterministic_rules.py.
use Prim.Native.Char.{Char, code}
use Prim.Native.Nat.{◌/◌, ◌%◌}
use Prim.Native.String.{count, slice, ◌++◌}
use cfr_compliance_mcp.Prelude.{
  ℕ, zero, suc, ◌+◌, String, Bool, true, false, not, ◌&&◌, ◌||◌, Option, none, some, List, [], ◌∷◌,
  leb, ltb, nat_eq, keep, any, mem_text, lower, truthy, if◌then◌else◌, ◌≡◌, refl,
}
use cfr_compliance_mcp.Regex.{is_letter}

abbrev pub is_token_char : Char → Bool
is_token_char c = is_letter c || nat_eq (code c) b'-'

unfoldable pub take_token : String → String
take_token String.[] = String.[]
take_token (String.◌∷◌ c s) = if is_token_char c then String.◌∷◌ c (take_token s) else String.[]

unfoldable pub tokens_from : Bool → String → List String
unfolding take_token
tokens_from inside String.[] = []
tokens_from inside (String.◌∷◌ c s) =
    let rest = tokens_from (if inside then is_token_char c else is_letter c) s in
    if not inside && is_letter c then String.◌∷◌ c (take_token s) ∷ rest else rest

-- `re.findall(r"[A-Za-z][A-Za-z\-]*", s)`.
unfoldable pub tokens : String → List String
unfolding tokens_from
tokens s = tokens_from false s

abbrev pub stop_words : List String
stop_words =
    "the" ∷ "and" ∷ "or" ∷ "but" ∷ "if" ∷ "as" ∷ "is" ∷ "are" ∷ "was" ∷ "were" ∷ "be" ∷ "been"
    ∷ "being" ∷ "to" ∷ "of" ∷ "in" ∷ "on" ∷ "at" ∷ "by" ∷ "for" ∷ "with" ∷ "about" ∷ "against"
    ∷ "between" ∷ "into" ∷ "through" ∷ "during" ∷ "before" ∷ "after" ∷ "above" ∷ "below" ∷ "from"
    ∷ "up" ∷ "down" ∷ "out" ∷ "over" ∷ "under" ∷ "again" ∷ "further" ∷ "then" ∷ "once" ∷ "here"
    ∷ "there" ∷ "when" ∷ "where" ∷ "why" ∷ "how" ∷ "all" ∷ "any" ∷ "both" ∷ "each" ∷ "few" ∷ "more"
    ∷ "most" ∷ "other" ∷ "some" ∷ "such" ∷ "no" ∷ "nor" ∷ "not" ∷ "only" ∷ "own" ∷ "same" ∷ "so"
    ∷ "than" ∷ "too" ∷ "very" ∷ "s" ∷ "t" ∷ "can" ∷ "will" ∷ "just" ∷ "don" ∷ "should" ∷ "now"
    ∷ "contractor" ∷ "owner" ∷ "agreement" ∷ "work" ∷ "shall" ∷ "comply" ∷ "perform" ∷ "performed"
    ∷ "performing" ∷ "services" ∷ "party" ∷ "parties" ∷ "section" ∷ "clause" ∷ "contract" ∷ "hereby"
    ∷ "herein" ∷ "hereof" ∷ "hereunder" ∷ "thereof" ∷ "pursuant" ∷ "applicable" ∷ "obligation"
    ∷ "obligations" ∷ "requirement" ∷ "requirements" ∷ "provision" ∷ "provisions" ∷ "term" ∷ "terms"
    ∷ "condition" ∷ "conditions" ∷ "including" ∷ "include" ∷ "includes" ∷ "provide" ∷ "provided"
    ∷ "provides" ∷ "ensure" ∷ "ensures" ∷ "course" ∷ "date" ∷ "time" ∷ "days" ∷ "written" ∷ "notice"
    ∷ "respect" ∷ "regard" ∷ []

unfoldable pub is_keyword : String → Bool
is_keyword w = leb 3 (count w) && not (mem_text w stop_words)

unfoldable pub extract_keywords : String → List String
unfolding tokens is_keyword lower
extract_keywords text = keep is_keyword (tokens (lower text))

-- `any(m in kw for m in markers)`.
unfoldable pub has_marker : List String → List String → Bool
has_marker markers keywords = any (λ m. mem_text m keywords) markers

unfoldable pub has_mandatory_language : String → Bool
unfolding has_marker extract_keywords
has_mandatory_language text = has_marker ("shall" ∷ "must" ∷ "will be" ∷ []) (extract_keywords text)

unfoldable pub has_prohibited_language : String → Bool
unfolding has_marker extract_keywords
has_prohibited_language text =
    has_marker ("prohibited" ∷ "forbidden" ∷ "without exception" ∷ "may not" ∷ [])
      (extract_keywords text)

-- The intersection of the two keyword sets, in the order of the first list.
unfoldable pub topic_overlap : List String → List String → List String
topic_overlap clause_keywords cfr_keywords = keep (λ w. mem_text w cfr_keywords) clause_keywords

decimal_from : ℕ → ℕ → String
decimal_from zero n = ""
decimal_from (suc fuel) n = elim (ltb n 10) [
  | true ↦ slice "0123456789" n (n + 1)
  | false ↦ decimal_from fuel (n / 10) ++ slice "0123456789" (n % 10) (n % 10 + 1)
]

-- `str(n)`; one round for each digit is fewer than `n + 1` rounds.
unfoldable pub decimal : ℕ → String
unfolding decimal_from
decimal n = decimal_from (suc n) n

prefixed : String → Option String → String
prefixed before none = ""
prefixed before (some part) = if truthy part then before ++ part else ""

unfoldable pub build_citation : ℕ → Option String → Option String → String
unfolding decimal prefixed
build_citation title part section =
    decimal title ++ " CFR" ++ prefixed " " part ++ prefixed "." section

keywords_run :
    extract_keywords "The Owner must re-test all waste." ≡ "must" ∷ "re-test" ∷ "waste" ∷ []
unfolding extract_keywords
keywords_run = refl

citation_runs : build_citation 40 (some "257") (some "3") ≡ "40 CFR 257.3"
unfolding build_citation
citation_runs = refl
