-- ===== src/Reporting/Safe.antt =====
-- The file names that `sanitize_identifier` of agent/reporting.py gives.
use Prim.Native.Char.{Char}
use mathlib.Core.Bool.{false≢true}
use cfr_compliance_mcp.Prelude.{
  String, ◌≡◌, refl, sym, ap, ◌∙◌, inl, inr, Bool, true, false, not, ◌&&◌, Option, none, some,
  arith, truthy, Bool-cases,
}
use cfr_compliance_mcp.Regex.{is_space}
use cfr_compliance_mcp.Agent.{strip_left, strip_right, strip}
use cfr_compliance_mcp.Security.Runs.{every}
use cfr_compliance_mcp.Reporting.Identifiers.{
  is_mark, is_safe, is_dot, replace_unsafe, replace_dots, strip_marks_left, strip_marks_right,
  strip_marks, cleaned, sanitize_identifier,
}
use cfr_compliance_mcp.Reporting.Names.{
  single_dots, begins_plain, ends_plain, and_parts, and_intro, every-replace_unsafe,
  replace_unsafe-safe, every-replace_dots, undotted, single_dots-replace_dots, replace_dots-single,
  left_every, left_single, left_begins,
}

right_every : (s : String) → every is_safe s ≡ true → every is_safe (strip_marks_right s) ≡ true
unfolding strip_marks_right
right_every String.[] h = h
right_every (String.◌∷◌ c s) h =
    let (safe, rest) = and_parts (is_safe c) (every is_safe s) h in
    elim (Bool-cases (is_mark c && not (truthy (strip_marks_right s)))) [
      | inl ends ↦ rw ends refl
      | inr goes ↦ rw goes (and_intro (is_safe c) _ safe (right_every s rest))
    ]

right_single :
    (b : Bool) (s : String) → single_dots b s ≡ true → single_dots b (strip_marks_right s) ≡ true
unfolding strip_marks_right
right_single b String.[] h = h
right_single b (String.◌∷◌ c s) h =
    let (here, rest) = and_parts (not (b && is_dot c)) (single_dots (is_dot c) s) h in
    elim (Bool-cases (is_mark c && not (truthy (strip_marks_right s)))) [
      | inl ends ↦ rw ends refl
      | inr goes ↦ rw goes (and_intro (not (b && is_dot c)) _ here (right_single (is_dot c) s rest))
    ]

right_begins : (s : String) → begins_plain s ≡ true → begins_plain (strip_marks_right s) ≡ true
unfolding strip_marks_right
right_begins String.[] h = h
right_begins (String.◌∷◌ c s) h =
    elim (Bool-cases (is_mark c && not (truthy (strip_marks_right s)))) [
      | inl ends ↦ rw ends refl
      | inr goes ↦ rw goes h
    ]

ends_plain-cons :
    (c : Char) (s : String)
    → (is_mark c && not (truthy s)) ≡ false
    → ends_plain s ≡ true
    → ends_plain (String.◌∷◌ c s) ≡ true
ends_plain-cons c String.[] goes h = elim (Bool-cases (is_mark c)) [
  | inl mark ↦ absurd (false≢true (sym goes ∙ ap (λ b. b && true) mark))
  | inr plain ↦ ap not plain
]
ends_plain-cons c (String.◌∷◌ d s) goes h = h

right_ends : (s : String) → ends_plain (strip_marks_right s) ≡ true
unfolding strip_marks_right
right_ends String.[] = refl
right_ends (String.◌∷◌ c s) = elim (Bool-cases (is_mark c && not (truthy (strip_marks_right s)))) [
  | inl ends ↦ rw ends refl
  | inr goes ↦ rw goes (ends_plain-cons c (strip_marks_right s) goes (right_ends s))
]

-- A text that a mark neither begins nor ends is kept.
plain_left : (s : String) → begins_plain s ≡ true → strip_marks_left s ≡ s
unfolding strip_marks_left
plain_left String.[] h = refl
plain_left (String.◌∷◌ c s) h = elim (Bool-cases (is_mark c)) [
  | inl mark ↦ absurd (false≢true (rw mark at h))
  | inr plain ↦ rw plain refl
]

ends_plain-tail : (c : Char) (s : String) → ends_plain (String.◌∷◌ c s) ≡ true → ends_plain s ≡ true
ends_plain-tail c String.[] h = refl
ends_plain-tail c (String.◌∷◌ d s) h = h

last_plain :
    (c : Char) (s : String)
    → ends_plain (String.◌∷◌ c s) ≡ true
    → (is_mark c && not (truthy s)) ≡ false
last_plain c String.[] h = elim (Bool-cases (is_mark c)) [
  | inl mark ↦ absurd (false≢true (rw mark at h))
  | inr plain ↦ ap (λ b. b && true) plain
]
last_plain c (String.◌∷◌ d s) h = and_false (is_mark c)
  where
    and_false : (b : Bool) → (b && false) ≡ false
    and_false true = refl
    and_false false = refl

plain_right : (s : String) → ends_plain s ≡ true → strip_marks_right s ≡ s
unfolding strip_marks_right
plain_right String.[] h = refl
plain_right (String.◌∷◌ c s) h =
    let rest = plain_right s (ends_plain-tail c s h) in rw (rest, last_plain c s h) refl

safe_spaceless : (c : Char) → is_safe c ≡ true → is_space c ≡ false
safe_spaceless c h = ground arith

strip-safe : (s : String) → every is_safe s ≡ true → strip s ≡ s
unfolding strip strip_left strip_right
strip-safe s h = ap strip_right (left s h) ∙ right s h
  where
    left : (s : String) → every is_safe s ≡ true → strip_left s ≡ s
    left String.[] h = refl
    left (String.◌∷◌ c s) h =
        rw (safe_spaceless c (and_parts (is_safe c) (every is_safe s) h).0) refl

    right : (s : String) → every is_safe s ≡ true → strip_right s ≡ s
    right String.[] h = refl
    right (String.◌∷◌ c s) h =
        let (safe, rest) = and_parts (is_safe c) (every is_safe s) h in
        rw (safe_spaceless c safe, right s rest) refl

-- Letters, digits, dots, underscores and dashes only, without two dots in succession, neither begun
-- nor ended by a mark, and not empty: no path separator, and no way up.
pub record FileName (s : String) : Type 0 where
  pub safe : every is_safe s ≡ true
  pub dots : single_dots false s ≡ true
  pub begins : begins_plain s ≡ true
  pub ends : ends_plain s ≡ true
  pub present : truthy s ≡ true

undotted_start : (s : String) → undotted false s ≡ true
unfolding undotted
undotted_start String.[] = refl
undotted_start (String.◌∷◌ c s) = refl

cleaned-FileName : (s : String) → truthy (cleaned s) ≡ true → FileName (cleaned s)
unfolding cleaned strip_marks
cleaned-FileName s present =
    let kept = replace_unsafe false (strip s) in
    let safe = every-replace_dots kept (every-replace_unsafe false (strip s)) in
    let dots = single_dots-replace_dots false kept (undotted_start kept) in
    let left = strip_marks_left (replace_dots kept) in
    record {
      safe = right_every left (left_every (replace_dots kept) safe);
      dots = right_single false left (left_single false (replace_dots kept) dots);
      begins = right_begins left (left_begins (replace_dots kept));
      ends = right_ends left;
      present = present;
    }

analysis-FileName : FileName "analysis"
analysis-FileName = record { safe = refl; dots = refl; begins = refl; ends = refl; present = refl }

cleaned-fixed : (s : String) → FileName s → cleaned s ≡ s
unfolding cleaned strip_marks
cleaned-fixed s name =
    rw
      (
        strip-safe s name.safe,
        replace_unsafe-safe s name.safe,
        replace_dots-single s name.dots,
        plain_left s name.begins,
      )
      (plain_right s name.ends)

name_fixed : (s : String) → FileName s → sanitize_identifier (some s) ≡ s
unfolding sanitize_identifier
name_fixed s name = rw (name.present, cleaned-fixed s name, name.present) refl

identifier-FileName : (identifier : Option String) → FileName (sanitize_identifier identifier)
unfolding sanitize_identifier
identifier-FileName none = analysis-FileName
identifier-FileName (some s) = elim (Bool-cases (truthy s)) [
  | inr empty ↦ rw empty analysis-FileName
  | inl given ↦ elim (Bool-cases (truthy (cleaned s))) [
    | inr nothing ↦ rw (given, nothing) analysis-FileName
    | inl present ↦ rw (given, present) (cleaned-FileName s present)
  ]
]

-- Any identifier, also a hostile one or none, gives the name of a file inside the directory of the
-- reports: one or more letters, digits, dots, underscores and dashes, without two dots in
-- succession and with no mark at its ends. Sanitizing such a name again changes nothing.
pub sanitize_identifier-FileName :
    (identifier : Option String)
    → let name = sanitize_identifier identifier in
      FileName name × (sanitize_identifier (some name) ≡ name)
sanitize_identifier-FileName identifier =
    let name = identifier-FileName identifier in
    (name, name_fixed (sanitize_identifier identifier) name)
