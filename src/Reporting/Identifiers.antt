-- ===== src/Reporting/Identifiers.antt =====
-- `sanitize_identifier` of agent/reporting.py: a file name for any identifier.
use Prim.Native.Char.{Char, code}
use Prim.Native.String.{char_at}
use cfr_compliance_mcp.Prelude.{
  String, Bool, true, false, not, ◌&&◌, ◌||◌, Option, none, some, ◌≡◌, refl, nat_eq, truthy,
  text_or, if◌then◌else◌,
}
use cfr_compliance_mcp.Regex.{is_letter, is_digit}
use cfr_compliance_mcp.Agent.{strip}

-- The characters that `_SAFE_IDENTIFIER` leaves.
abbrev pub is_mark : Char → Bool
is_mark c = nat_eq (code c) b'.' || nat_eq (code c) b'_' || nat_eq (code c) b'-'

abbrev pub is_safe : Char → Bool
is_safe c = is_letter c || is_digit c || is_mark c

abbrev pub underscore : Char
underscore = char_at "_" 0

unfoldable pub underscored : Bool → String → String
underscored true s = s
underscored false s = String.◌∷◌ underscore s

-- `_SAFE_IDENTIFIER.sub("_", s)`; the Boolean says whether a run of unsafe characters goes on.
unfoldable pub replace_unsafe : Bool → String → String
unfolding underscored
replace_unsafe in_run String.[] = String.[]
replace_unsafe in_run (String.◌∷◌ c s) =
    let kept = String.◌∷◌ c (replace_unsafe false s) in
    let dropped = underscored in_run (replace_unsafe true s) in if is_safe c then kept else dropped

abbrev pub is_dot : Char → Bool
is_dot c = nat_eq (code c) b'.'

-- `s.replace("..", "_")`.
unfoldable pub replace_dots : String → String
replace_dots String.[] = String.[]
replace_dots (String.◌∷◌ c String.[]) = String.◌∷◌ c String.[]
replace_dots (String.◌∷◌ c (String.◌∷◌ d s)) =
    let both = String.◌∷◌ underscore (replace_dots s) in
    let one = String.◌∷◌ c (replace_dots (String.◌∷◌ d s)) in
    if is_dot c && is_dot d then both else one

unfoldable pub strip_marks_left : String → String
strip_marks_left String.[] = String.[]
strip_marks_left (String.◌∷◌ c s) = if is_mark c then strip_marks_left s else String.◌∷◌ c s

unfoldable pub strip_marks_right : String → String
strip_marks_right String.[] = String.[]
strip_marks_right (String.◌∷◌ c s) =
    let rest = strip_marks_right s in
    if is_mark c && not (truthy rest) then String.[] else String.◌∷◌ c rest

-- `s.strip("._-")`.
unfoldable pub strip_marks : String → String
unfolding strip_marks_left strip_marks_right
strip_marks s = strip_marks_right (strip_marks_left s)

unfoldable pub cleaned : String → String
unfolding replace_unsafe replace_dots strip_marks
cleaned s = strip_marks (replace_dots (replace_unsafe false (strip s)))

unfoldable pub sanitize_identifier : Option String → String
unfolding cleaned
sanitize_identifier none = "analysis"
sanitize_identifier (some s) = if truthy s then text_or (cleaned s) "analysis" else "analysis"

escapes : sanitize_identifier (some "../../etc/pass wd") ≡ "etc_pass_wd"
unfolding sanitize_identifier strip
escapes = refl

-- Two identifiers may share a file.
shared : sanitize_identifier (some "a/b") ≡ sanitize_identifier (some "a b")
unfolding sanitize_identifier strip
shared = refl
