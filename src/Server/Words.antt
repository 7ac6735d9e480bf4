-- ===== src/Server/Words.antt =====
-- Texts with a word in them stay texts with a word: the two checks of a search query, in
-- src/cfr_compliance_mcp/models/requests.py and clients/ecfr_client.py.
use Prim.Native.Char.{Char}
use Prim.Native.String as String
use cfr_compliance_mcp.Prelude.{
  String, ◌≡◌, refl, ap, ◌∙◌, inl, inr, true, false, Bool-cases, List, [], ◌∷◌, arith, join, truthy,
}
use text.Mathlib.TextLemmas.{cons-append}
use cfr_compliance_mcp.Regex.{is_space}
use cfr_compliance_mcp.Agent.{strip_left, strip_right, strip}
use cfr_compliance_mcp.Server.Requests.{clean_keywords, some_words}

-- The text begins with a character that is no white space.
abbrev pub Begins : String → Type 0
Begins s = (c : Char) × (t : String) × (s ≡ String.◌∷◌ c t) × (is_space c ≡ false)

left-black :
    (c : Char) (t : String) → is_space c ≡ false → strip_left (String.◌∷◌ c t) ≡ String.◌∷◌ c t
unfolding strip_left
left-black c t black = rw black refl

right-black :
    (c : Char) (t : String)
    → is_space c ≡ false
    → strip_right (String.◌∷◌ c t) ≡ String.◌∷◌ c (strip_right t)
unfolding strip_right
right-black c t black = rw black refl

Begins-strip_right : (s : String) → Begins s → Begins (strip_right s)
Begins-strip_right s (c, t, is, black) =
    (c, strip_right t, ap strip_right is ∙ right-black c t black, black)

strip-Begins : (s : String) → Begins s → Begins (strip s)
unfolding strip
strip-Begins s (c, t, is, black) =
    Begins-strip_right (strip_left s) (c, t, ap strip_left is ∙ left-black c t black, black)

Begins-strip_left : (s : String) → truthy (strip_left s) ≡ true → Begins (strip_left s)
unfolding strip_left
Begins-strip_left String.[] h = absurd (ground arith)
Begins-strip_left (String.◌∷◌ c s) h = elim (Bool-cases (is_space c)) [
  | inl white ↦ rw white (Begins-strip_left s (rw white at h))
  | inr black ↦ rw black (c, s, refl, black)
]

left-truthy : (s : String) → truthy (strip_right s) ≡ true → truthy s ≡ true
unfolding strip_right
left-truthy String.[] h = h
left-truthy (String.◌∷◌ c s) h = ground arith

-- A text that is more than white space begins with a character, once it is stripped.
pub strip-word : (s : String) → truthy (strip s) ≡ true → Begins (strip s)
unfolding strip
strip-word s h =
    Begins-strip_right (strip_left s) (Begins-strip_left s (left-truthy (strip_left s) h))

pub Begins-truthy : (s : String) → Begins s → truthy (strip s) ≡ true
Begins-truthy s begins = let (c, t, is, black) = strip-Begins s begins in rw is (ground arith)

pub Begins-append : (s t : String) → Begins s → Begins (String.◌++◌ s t)
Begins-append s t (c, u, is, black) =
    (c, String.◌++◌ u t, ap (λ x. String.◌++◌ x t) is ∙ cons-append c u t, black)

join-cons : (w : String) (ws : List String) → Begins w → Begins (join " " (w ∷ ws))
unfolding join
join-cons w [] begins = begins
join-cons w (v ∷ ws) begins = Begins-append w (String.◌++◌ " " (join " " (v ∷ ws))) begins

-- The query of keywords that are left is more than white space.
pub join-words :
    (ks : List String)
    → some_words (clean_keywords ks) ≡ true
    → Begins (join " " (clean_keywords ks))
unfolding clean_keywords some_words
join-words [] h = absurd (ground arith)
join-words (k ∷ ks) h = elim (Bool-cases (truthy (strip k))) [
  | inl word ↦ rw word (join-cons (strip k) (clean_keywords ks) (strip-word k word))
  | inr blank ↦ rw blank (join-words ks (rw blank at h))
]
