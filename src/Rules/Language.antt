-- ===== src/Rules/Language.antt =====
-- What the keyword filter can see of the regulation's language: agent/deterministic_rules.py.
use Prim.Native.Char.{Char}
use cfr_compliance_mcp.Prelude.{
  String, Bool, true, false, not, ◌&&◌, ◌||◌, ◌≡◌, refl, List, [], ◌∷◌, arith, keep, mem_text,
  lower, Bool-cases, inl, inr, if◌then◌else◌, eq_iff, ◌==◌, ap,
}
use cfr_compliance_mcp.Rules.Keywords.{
  is_token_char, take_token, tokens_from, tokens, is_keyword, extract_keywords,
  has_mandatory_language, has_prohibited_language,
}
use cfr_compliance_mcp.Regex.{is_letter}

abbrev all_chars : (Char → Bool) → String → Bool
all_chars p String.[] = true
all_chars p (String.◌∷◌ c s) = p c && all_chars p s

all_chars-take_token : (s : String) → all_chars is_token_char (take_token s) ≡ true
unfolding take_token
all_chars-take_token String.[] = refl
all_chars-take_token (String.◌∷◌ c s) = elim (Bool-cases (is_token_char c)) [
  | inl here ↦ rw (here, here) (all_chars-take_token s)
  | inr past ↦ rw past
]

mem-keep :
    (p : String → Bool) (w : String) (ws : List String)
    → mem_text w (keep p ws) ≡ true
    → (p w ≡ true) × (mem_text w ws ≡ true)
mem-keep p w [] h = absurd (ground arith)
mem-keep p w (x ∷ ws) h = ground (arith, mem-keep p w ws, eq_iff w x, λ (e : w ≡ x). ap p e)

token_chars :
    (w : String) (inside : Bool) (s : String)
    → mem_text w (tokens_from inside s) ≡ true
    → all_chars is_token_char w ≡ true
unfolding tokens_from
token_chars w inside String.[] h = absurd (ground arith)
token_chars w inside (String.◌∷◌ c s) h =
    let next = if inside then is_token_char c else is_letter c in
    elim (Bool-cases (not inside && is_letter c)) [
      | inl starts ↦
          let h' : (w == String.◌∷◌ c (take_token s) || mem_text w (tokens_from next s)) ≡ true =
            rw starts at h in
          elim (Bool-cases (w == String.◌∷◌ c (take_token s))) [
            | inl same ↦
                rw ((eq_iff w (String.◌∷◌ c (take_token s))).0 same)
                  (ground (arith, all_chars-take_token s))
            | inr other ↦ token_chars w next s (rw other at h')
          ]
      | inr no_start ↦ token_chars w next s (rw no_start at h)
    ]

-- What the filter drops, or the tokenizer cannot produce, is never a keyword.
unseen :
    (w text : String)
    → (is_keyword w && all_chars is_token_char w) ≡ false
    → mem_text w (extract_keywords text) ≡ false
unfolding extract_keywords tokens
unseen w text h = elim (Bool-cases (mem_text w (extract_keywords text))) [
  | inr absent ↦ absent
  | inl found ↦
      let (kept, token) = mem-keep is_keyword w (tokens (lower text)) found in
      absurd (ground (arith, kept, token_chars w false (lower text) token))
]

-- The regulation's mandatory language is found exactly by the keyword `must`: of the other two
-- markers that are looked for, `shall` is a stop word, and `will be` is two words.
pub has_mandatory_language-must :
    (text : String) → has_mandatory_language text ≡ mem_text "must" (extract_keywords text)
unfolding has_mandatory_language
has_mandatory_language-must text =
    let shall = unseen "shall" text (unfold is_keyword in refl) in
    let will_be = unseen "will be" text (unfold is_keyword in refl) in
    ground (arith, shall, will_be)

-- The regulation's prohibitions are found exactly by the keywords `prohibited` and `forbidden`: the
-- other two markers that are looked for, `without exception` and `may not`, are two words each.
pub has_prohibited_language-words :
    (text : String)
    → has_prohibited_language text ≡ (
        mem_text "prohibited" (extract_keywords text)
        || mem_text "forbidden" (extract_keywords text))
unfolding has_prohibited_language
has_prohibited_language-words text =
    let exception = unseen "without exception" text (unfold is_keyword in refl) in
    let may_not = unseen "may not" text (unfold is_keyword in refl) in
    ground (arith, exception, may_not)
