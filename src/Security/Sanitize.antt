-- ===== src/Security/Sanitize.antt =====
-- `sanitize_clause_text` and `sanitize_cfr_text` of agent/security.py. The warnings on truncation
-- are logged only, and left out.
use Prim.Native.Char.{Char, code}
use Prim.Native.String.{count, ◌++◌}
use cfr_compliance_mcp.Prelude.{
  ℕ, String, Bool, ◌&&◌, ◌||◌, ◌≡◌, refl, leb, ltb, nat_eq, truthy, take_chars, if◌then◌else◌,
}
use cfr_compliance_mcp.Agent.{strip}
use cfr_compliance_mcp.Security.Gate.{max_clause_text_chars, max_cfr_text_chars}

-- `if len(text) > limit: text = text[:limit]`.
unfoldable pub truncate : ℕ → String → String
truncate limit text = if ltb limit (count text) then take_chars limit text else text

-- The characters of `text` that satisfy `p`, in order.
unfoldable pub keep_chars : (Char → Bool) → String → String
keep_chars p String.[] = String.[]
keep_chars p (String.◌∷◌ c s) = let rest = keep_chars p s in if p c then String.◌∷◌ c rest else rest

-- `text.replace("\x00", "")` keeps this.
abbrev pub not_null : Char → Bool
not_null c = ltb 0 (code c)

-- The two branches of the loop that append the character. The second takes every code from 127, also
-- the control characters 127 to 159.
abbrev pub is_printable : Char → Bool
is_printable c = (leb 32 (code c) && leb (code c) 126) || ltb 126 (code c)

abbrev pub is_newline : Char → Bool
is_newline c = nat_eq (code c) 10

abbrev pub is_blank : Char → Bool
is_blank c = nat_eq (code c) 32 || nat_eq (code c) 9

-- A whole run of the class that `re.sub(r"[...]{3,}", by, text)` looks at.
unfoldable pub squash_run : String → String → String
squash_run by run = if leb 3 (count run) then by else run

-- `re.sub(r"[...]{3,}", by, text)`, where `run` is the run that ends here.
unfoldable pub squash : (Char → Bool) → String → String → String → String
unfolding squash_run
squash p by run String.[] = squash_run by run
squash p by run (String.◌∷◌ c s) =
    let longer = squash p by (run ++ String.◌∷◌ c String.[]) s in
    let other = squash_run by run ++ String.◌∷◌ c (squash p by String.[] s) in
    if p c then longer else other

unfoldable pub normalize_whitespace : String → String
normalize_whitespace text = squash is_blank " " String.[] (squash is_newline "\n\n" String.[] text)

unfoldable pub clean_chars : String → String
clean_chars text = keep_chars is_printable (keep_chars not_null text)

unfoldable pub sanitize_clause_text : String → String
unfolding truncate clean_chars normalize_whitespace
sanitize_clause_text text =
    if truthy text
    then strip (normalize_whitespace (clean_chars (truncate max_clause_text_chars text)))
    else text

unfoldable pub sanitize_cfr_text : String → String
unfolding truncate normalize_whitespace
sanitize_cfr_text text =
    if truthy text
    then strip (normalize_whitespace (keep_chars not_null (truncate max_cfr_text_chars text)))
    else text

glues_words : sanitize_clause_text "a  b   c\nd " ≡ "a  b cd"
unfolding sanitize_clause_text squash keep_chars strip
glues_words = refl

keeps_lines : sanitize_cfr_text "a\n\n\n\nb\t\t\tc" ≡ "a\n\nb c"
unfolding sanitize_cfr_text squash keep_chars strip
keeps_lines = refl
