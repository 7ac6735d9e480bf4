-- ===== src/Regex.antt =====
-- The regular expressions that the program writes, and `re.search` on them: single characters,
-- sequences, alternatives, `\b`, and a greedy repetition of one class of characters. A pattern is
-- data, and a search answers with the end that Python's backtracking reaches first. Classes are
-- ASCII, as is the case table of `lower`.
use Prim.Native.Char.{Char, code}
use Prim.Native.String.{slice, len}
use mathlib.Core.List.{head?, flat_map}
use cfr_compliance_mcp.Prelude.{
  ℕ, ◌-◌, String, Bool, true, false, not, ◌&&◌, ◌||◌, Option, none, some, List, [], ◌∷◌, ◌++◌, ◌≡◌,
  refl, leb, nat_eq, if◌then◌else◌,
}

pub data Pattern : Type 0 where
  nothing : Pattern
  one : (Char → Bool) → Pattern
  many : (Char → Bool) → Pattern
  boundary : Pattern
  seq : Pattern → Pattern → Pattern
  either : Pattern → Pattern → Pattern

abbrev pub is_letter : Char → Bool
is_letter c = (leb b'A' (code c) && leb (code c) b'Z') || (leb b'a' (code c) && leb (code c) b'z')

abbrev pub is_digit : Char → Bool
is_digit c = leb b'0' (code c) && leb (code c) b'9'

-- `\w`, `\s`.
abbrev pub is_word : Char → Bool
is_word c = is_letter c || is_digit c || nat_eq (code c) b'_'

abbrev pub is_space : Char → Bool
is_space c = (leb 9 (code c) && leb (code c) 13) || (leb 28 (code c) && leb (code c) 32)

abbrev pub is_code : ℕ → Char → Bool
is_code n c = nat_eq (code c) n

-- A position: the character before it, and the text behind it.
abbrev pub Position : Type 0
Position = Option Char × String

many_ends : (Char → Bool) → Option Char → String → List Position
many_ends p before String.[] = (before, String.[]) ∷ []
many_ends p before (String.◌∷◌ c s) =
    let rest = many_ends p (some c) s in
    let here : Position = (before, String.◌∷◌ c s) in if p c then rest ++ here ∷ [] else here ∷ []

one_end : (Char → Bool) → String → List Position
one_end p String.[] = []
one_end p (String.◌∷◌ c s) = if p c then (some c, s) ∷ [] else []

word_before : Option Char → Bool
word_before none = false
word_before (some c) = is_word c

word_after : String → Bool
word_after String.[] = false
word_after (String.◌∷◌ c s) = is_word c

at_boundary : Bool → Bool → Bool
at_boundary true b = not b
at_boundary false b = b

-- Every end of a match that begins at the position, the preferred one first.
unfoldable pub ends : Pattern → Position → List Position
unfolding many_ends one_end word_before word_after at_boundary
ends nothing at = at ∷ []
ends (one p) (before, s) = one_end p s
ends (many p) (before, s) = many_ends p before s
ends boundary (before, s) =
    if at_boundary (word_before before) (word_after s) then (before, s) ∷ [] else []
ends (seq p q) at = flat_map (ends q) (ends p at)
ends (either p q) at = ends p at ++ ends q at

matched_text : String → Option Position → Option String
matched_text s none = none
matched_text s (some (before, rest)) = some (slice s 0 (len s - len rest))

search_from : Pattern → Option Char → String → Option String
search_from p before String.[] = matched_text String.[] (head? (ends p (before, String.[])))
search_from p before (String.◌∷◌ c s) =
    let later = search_from p (some c) s in
    elim (matched_text (String.◌∷◌ c s) (head? (ends p (before, String.◌∷◌ c s)))) [
      | none ↦ later
      | some found ↦ some found
    ]

-- `re.search(p, s)`: the text of the leftmost match.
unfoldable pub re_search : Pattern → String → Option String
unfolding ends matched_text search_from
re_search p s = search_from p none s

-- Patterns for a text, under `re.IGNORECASE` if it is written in lower case.
ignoring_case : Char → Char → Bool
ignoring_case l c =
    nat_eq (code c) (code l)
    || (leb b'a' (code l) && leb (code l) b'z' && nat_eq (code c) (code l - 32))

unfoldable pub text : String → Pattern
unfolding ignoring_case
text String.[] = nothing
text (String.◌∷◌ c s) = seq (one (ignoring_case c)) (text s)

-- A text that is matched as it is written.
unfoldable pub exact : String → Pattern
exact String.[] = nothing
exact (String.◌∷◌ c s) = seq (one (is_code (code c))) (exact s)

unfoldable pub any_of : List Pattern → Pattern
any_of [] = nothing
any_of (p ∷ []) = p
any_of (p ∷ q ∷ ps) = either p (any_of (q ∷ ps))

unfoldable pub maybe : Pattern → Pattern
maybe p = either p nothing

unfoldable pub all_of : List Pattern → Pattern
all_of [] = nothing
all_of (p ∷ ps) = seq p (all_of ps)

abbrev pub whole : String → Pattern
whole w = seq boundary (seq (text w) boundary)

re_search_runs : re_search (whole "must") "Trustees Must act" ≡ some "Must"
unfolding re_search text flat_map
re_search_runs = refl
