-- ===== src/Memory/Similarity.antt =====
-- Text similarity and citation normalization: `_tokens`, `_jaccard` and `_normalize_citation` of
-- agent/memory.py.
use Prim.Native.Char.{Char, code}
use Prim.Native.String.{count}
use cfr_compliance_mcp.Prelude.{
  ◌+◌, ◌-◌, ◌*◌, String, Bool, true, false, not, ◌&&◌, ◌||◌, List, [], ◌∷◌, leb, keep, length,
  mem_text, lower, join, distinct, if◌then◌else◌, ◌≡◌, refl,
}
use cfr_compliance_mcp.Regex.{is_digit, is_space}

-- The longest prefix of characters that pass, and the runs of such characters in a text.
unfoldable pub take_run : (Char → Bool) → String → String
take_run p String.[] = String.[]
take_run p (String.◌∷◌ c s) = if p c then String.◌∷◌ c (take_run p s) else String.[]

runs_from : (Char → Bool) → Bool → String → List String
runs_from p inside String.[] = []
runs_from p inside (String.◌∷◌ c s) =
    let rest = runs_from p (p c) s in
    if not inside && p c then String.◌∷◌ c (take_run p s) ∷ rest else rest

unfoldable pub runs : (Char → Bool) → String → List String
unfolding take_run runs_from
runs p s = runs_from p false s

abbrev is_token_char : Char → Bool
is_token_char c = (leb b'a' (code c) && leb (code c) b'z') || is_digit c

abbrev stopwords : List String
stopwords =
    "the" ∷ "a" ∷ "an" ∷ "and" ∷ "or" ∷ "of" ∷ "to" ∷ "in" ∷ "for" ∷ "on" ∷ "with" ∷ "shall"
    ∷ "must" ∷ "may" ∷ "not" ∷ "any" ∷ "all" ∷ "its" ∷ "their" ∷ "this" ∷ "that" ∷ "from" ∷ "by"
    ∷ "as" ∷ "at" ∷ "be" ∷ "is" ∷ "are" ∷ "will" ∷ "has" ∷ "have" ∷ "been" ∷ "being" ∷ "than"
    ∷ "such" ∷ "each" ∷ "per" ∷ []

-- `_tokens`: a set, as a list without repetitions.
unfoldable pub tokens : String → List String
unfolding runs lower distinct
tokens text =
    keep (λ t. not (mem_text t stopwords) && leb 3 (count t))
      (distinct (runs is_token_char (lower text)))

unfoldable pub intersection : List String → List String → List String
intersection a b = keep (λ t. mem_text t b) a

-- `_jaccard(a, b) >= NEAR_MATCH_THRESHOLD`, for a threshold of 0.4: the quotient of the numbers of
-- common and of all tokens, compared crosswise. Two empty sets count as equal, one as unlike.
unfoldable pub near_enough : List String → List String → Bool
unfolding intersection
near_enough [] [] = true
near_enough [] (y ∷ b) = false
near_enough (x ∷ a) [] = false
near_enough (x ∷ a) (y ∷ b) =
    let common = length (intersection (x ∷ a) (y ∷ b)) in
    leb (2 * (length (x ∷ a) + length (y ∷ b) - common)) (5 * common)

-- `" ".join(citation.strip().lower().split())`; splitting drops the outer blanks too.
unfoldable pub normalize_citation : String → String
unfolding runs lower join
normalize_citation citation = join " " (runs (λ c. not (is_space c)) (lower citation))

normalize_runs : normalize_citation "  40  CFR 257.3 " ≡ "40 cfr 257.3"
unfolding normalize_citation
normalize_runs = refl
