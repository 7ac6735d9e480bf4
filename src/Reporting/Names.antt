-- ===== src/Reporting/Names.antt =====
-- What a sanitized identifier is like: agent/reporting.py.
use mathlib.Core.Bool.{false≢true}
use cfr_compliance_mcp.Prelude.{
  String, ◌≡◌, refl, ap, inl, inr, Bool, true, false, not, ◌&&◌, Bool-cases,
}
use cfr_compliance_mcp.Security.Runs.{every}
use cfr_compliance_mcp.Reporting.Identifiers.{
  is_mark, is_safe, is_dot, underscored, replace_unsafe, replace_dots, strip_marks_left,
}

-- No two dots in succession; the Boolean says whether a dot stands before.
abbrev pub single_dots : Bool → String → Bool
single_dots after String.[] = true
single_dots after (String.◌∷◌ c s) = not (after && is_dot c) && single_dots (is_dot c) s

-- The text begins with no mark.
abbrev pub begins_plain : String → Bool
begins_plain String.[] = true
begins_plain (String.◌∷◌ c s) = not (is_mark c)

-- The text ends with no mark.
abbrev pub ends_plain : String → Bool
ends_plain String.[] = true
ends_plain (String.◌∷◌ c String.[]) = not (is_mark c)
ends_plain (String.◌∷◌ c (String.◌∷◌ d s)) = ends_plain (String.◌∷◌ d s)

pub and_parts : (a b : Bool) → (a && b) ≡ true → (a ≡ true) × (b ≡ true)
and_parts true b h = (refl, h)
and_parts false b h = absurd (false≢true h)

pub and_intro : (a b : Bool) → a ≡ true → b ≡ true → (a && b) ≡ true
and_intro a b h k = rw (h, k) refl

pub every-replace_unsafe : (b : Bool) (s : String) → every is_safe (replace_unsafe b s) ≡ true
unfolding replace_unsafe underscored
every-replace_unsafe b String.[] = refl
every-replace_unsafe true (String.◌∷◌ c s) = elim (Bool-cases (is_safe c)) [
  | inl safe ↦ rw (safe, safe, every-replace_unsafe false s) refl
  | inr other ↦ rw other (every-replace_unsafe true s)
]
every-replace_unsafe false (String.◌∷◌ c s) = elim (Bool-cases (is_safe c)) [
  | inl safe ↦ rw (safe, safe, every-replace_unsafe false s) refl
  | inr other ↦ rw other (every-replace_unsafe true s)
]

pub replace_unsafe-safe : (s : String) → every is_safe s ≡ true → replace_unsafe false s ≡ s
unfolding replace_unsafe
replace_unsafe-safe String.[] h = refl
replace_unsafe-safe (String.◌∷◌ c s) h = elim (Bool-cases (is_safe c)) [
  | inl safe ↦ rw safe (ap (String.◌∷◌ c) (replace_unsafe-safe s (rw safe at h)))
  | inr other ↦ absurd (false≢true (rw other at h))
]

pub every-replace_dots :
    (s : String) → every is_safe s ≡ true → every is_safe (replace_dots s) ≡ true
unfolding replace_dots
every-replace_dots String.[] h = h
every-replace_dots (String.◌∷◌ c String.[]) h = h
every-replace_dots (String.◌∷◌ c (String.◌∷◌ d s)) h =
    let (safe, rest) = and_parts (is_safe c) (every is_safe (String.◌∷◌ d s)) h in
    let (safe', rest') = and_parts (is_safe d) (every is_safe s) rest in
    elim (Bool-cases (is_dot c && is_dot d)) [
      | inl both ↦ rw both (every-replace_dots s rest')
      | inr one ↦ rw one (and_intro (is_safe c) _ safe (every-replace_dots (String.◌∷◌ d s) rest))
    ]

-- No dot follows the one before.
unfoldable pub undotted : Bool → String → Bool
undotted after String.[] = true
undotted after (String.◌∷◌ c s) = not (after && is_dot c)

not_after_plain : (after : Bool) → not (after && false) ≡ true
not_after_plain true = refl
not_after_plain false = refl

pub single_dots-replace_dots :
    (after : Bool) (s : String)
    → undotted after s ≡ true
    → single_dots after (replace_dots s) ≡ true
unfolding replace_dots undotted
single_dots-replace_dots after String.[] h = refl
single_dots-replace_dots after (String.◌∷◌ c String.[]) h =
    and_intro (not (after && is_dot c)) true h refl
single_dots-replace_dots after (String.◌∷◌ c (String.◌∷◌ d s)) h =
    elim (Bool-cases (is_dot c && is_dot d)) [
      | inl both ↦
          let rest = single_dots-replace_dots false s (undotted_start s) in
          rw both (and_intro (not (after && false)) _ (not_after_plain after) rest)
      | inr one ↦
          let rest = single_dots-replace_dots (is_dot c) (String.◌∷◌ d s) (ap not one) in
          rw one (and_intro (not (after && is_dot c)) _ h rest)
    ]
  where
    undotted_start : (s : String) → undotted false s ≡ true
    undotted_start String.[] = refl
    undotted_start (String.◌∷◌ c s) = refl

pub replace_dots-single : (s : String) → single_dots false s ≡ true → replace_dots s ≡ s
unfolding replace_dots
replace_dots-single String.[] h = refl
replace_dots-single (String.◌∷◌ c String.[]) h = refl
replace_dots-single (String.◌∷◌ c (String.◌∷◌ d s)) h =
    let (here, rest) = and_parts (not (is_dot c && is_dot d)) (single_dots (is_dot d) s) h in
    elim (Bool-cases (is_dot c && is_dot d)) [
      | inl both ↦ absurd (false≢true (rw both at here))
      | inr one ↦ rw one (
          ap (String.◌∷◌ c) (
            replace_dots-single (String.◌∷◌ d s)
              (and_intro true (single_dots (is_dot d) s) refl rest)))
    ]

single_dots_weaken : (b : Bool) (s : String) → single_dots b s ≡ true → single_dots false s ≡ true
single_dots_weaken b String.[] h = refl
single_dots_weaken b (String.◌∷◌ c s) h =
    (and_parts (not (b && is_dot c)) (single_dots (is_dot c) s) h).1

-- What a property of texts must have to outlast the stripping of marks.
pub left_every : (s : String) → every is_safe s ≡ true → every is_safe (strip_marks_left s) ≡ true
unfolding strip_marks_left
left_every String.[] h = h
left_every (String.◌∷◌ c s) h = elim (Bool-cases (is_mark c)) [
  | inl mark ↦ rw mark (left_every s (and_parts (is_safe c) (every is_safe s) h).1)
  | inr plain ↦ rw plain h
]

pub left_single :
    (b : Bool) (s : String) → single_dots b s ≡ true → single_dots false (strip_marks_left s) ≡ true
unfolding strip_marks_left
left_single b String.[] h = h
left_single b (String.◌∷◌ c s) h = elim (Bool-cases (is_mark c)) [
  | inl mark ↦
      let rest = (and_parts (not (b && is_dot c)) (single_dots (is_dot c) s) h).1 in
      rw mark (left_single (is_dot c) s rest)
  | inr plain ↦ rw plain (single_dots_weaken b (String.◌∷◌ c s) h)
]

pub left_begins : (s : String) → begins_plain (strip_marks_left s) ≡ true
unfolding strip_marks_left
left_begins String.[] = refl
left_begins (String.◌∷◌ c s) = elim (Bool-cases (is_mark c)) [
  | inl mark ↦ rw mark (left_begins s)
  | inr plain ↦ rw plain (ap not plain)
]
