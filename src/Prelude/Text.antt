-- ===== src/Prelude/Text.antt =====
-- Python's `str` as the native `String`: truth value, membership and the ASCII case table.
use Prim.Native.Nat.{ℕ, zero, suc, ◌-◌}
use Prim.Native.Char.{Char, code}
use Prim.Native.String
use Prim.Native.String.{String, len, find, char_at, compare}
use mathlib.Core.Bool.{Bool, true, false, ◌&&◌, ◌||◌}
use mathlib.Core.List.{List, [], ◌∷◌}
use mathlib.Core.Path.{◌≡◌, refl}
use text.Mathlib.Text.{◌==◌, is_le}
use cfr_compliance_mcp.Prelude.Tests.{leb, if◌then◌else◌}

-- `bool(s)`: a text is true when it is not empty.
abbrev pub truthy : String → Bool
truthy String.[] = false
truthy (String.◌∷◌ c s) = true

-- `s or t`.
abbrev pub text_or : String → String → String
text_or s t = if truthy s then s else t

-- `needle in s`, for two texts.
abbrev pub contains_text : String → String → Bool
contains_text s needle = leb (find s needle) (len s)

-- `t in xs`, for a list or a set of texts.
abbrev pub mem_text : String → List String → Bool
mem_text t [] = false
mem_text t (x ∷ xs) = t == x || mem_text t xs

lower_char : Char → Char
lower_char c =
    if leb b'A' (code c) && leb (code c) b'Z'
    then char_at "abcdefghijklmnopqrstuvwxyz" (code c - b'A')
    else c

-- `s.lower()` on ASCII letters; every other character is kept.
unfoldable pub lower : String → String
unfolding lower_char
lower String.[] = String.[]
lower (String.◌∷◌ c s) = String.◌∷◌ (lower_char c) (lower s)

-- Python's order of texts, by code points.
abbrev pub text_le : String → String → Bool
text_le s t = is_le (compare s t)

-- `set(xs)`, each element at its last place.
unfoldable pub distinct : List String → List String
distinct [] = []
distinct (x ∷ xs) = if mem_text x xs then distinct xs else x ∷ distinct xs

-- `sep.join(xs)`.
unfoldable pub join : String → List String → String
join sep [] = ""
join sep (x ∷ []) = x
join sep (x ∷ y ∷ xs) = String.◌++◌ x (String.◌++◌ sep (join sep (y ∷ xs)))

-- `s[:n]`, in characters.
unfoldable pub take_chars : ℕ → String → String
take_chars zero s = String.[]
take_chars (suc n) String.[] = String.[]
take_chars (suc n) (String.◌∷◌ c s) = String.◌∷◌ c (take_chars n s)

lower_runs : lower "Needs REVIEW" ≡ "needs review"
unfolding lower
lower_runs = refl
