-- ===== src/Server/Spacing.antt =====
-- How far apart the calls are that the rate limiter of
-- src/cfr_compliance_mcp/clients/http_client.py lets through.
use mathlib.Core.List.{reverse, reverse-cons, reverse-append, append_assoc}
use cfr_compliance_mcp.Prelude.{
  ℕ, zero, suc, ◌+◌, ◌-◌, ◌≤◌, ◌<◌, ◌≡◌, refl, sym, ap, ◌∙◌, subst, ◌⊎◌, inl, inr, List, [], ◌∷◌,
  ◌++◌, length, length-append, drop, All, All-append, leb, ltb, arith, Bool-cases,
}
use cfr_compliance_mcp.Server.Limiter.{window, Readings, evict_expired, sleep_for, acquire}

-- What the clock and the sleep do in one call: readings never go back, and a call that finds the
-- window full sleeps for at least as long as it asked.
abbrev pub Timely : ℕ → ℕ → List ℕ → Readings → Type 0
Timely max clock timestamps r =
    let kept = evict_expired r.first timestamps in
    (clock ≤ r.first)
    × (r.first ≤ r.second)
    × (r.second ≤ r.third)
    × (r.third ≤ r.last)
    × ((length kept < max) ⊎ (r.second + sleep_for r.second kept ≤ r.third))

abbrev pub Timed : ℕ → ℕ → List ℕ → List Readings → Type 0
Timed max clock timestamps [] = Unit
Timed max clock timestamps (r ∷ rs) =
    Timely max clock timestamps r × Timed max r.last (acquire max r timestamps) rs

-- The clock shows exactly a window after the oldest timestamp.
abbrev pub AtBoundary : ℕ → List ℕ → Type 0
AtBoundary now [] = ⊥
AtBoundary now (t ∷ ts) = now ≡ t + window

-- One of the calls found the window full, and behind its sleep the clock showed exactly a window
-- after the oldest call that was kept.
abbrev pub OnBoundary : ℕ → List ℕ → List Readings → Type 0
OnBoundary max timestamps [] = ⊥
OnBoundary max timestamps (r ∷ rs) =
    ((max ≤ length (evict_expired r.first timestamps))
      × AtBoundary r.third (evict_expired r.first timestamps))
    ⊎ OnBoundary max (acquire max r timestamps) rs

-- The times at which the calls proceed, the latest first.
unfoldable pub admitted : ℕ → List ℕ → List ℕ → List Readings → List ℕ
admitted max timestamps log [] = log
admitted max timestamps log (r ∷ rs) = admitted max (acquire max r timestamps) (r.last ∷ log) rs

abbrev pub Later : ℕ → List ℕ → Type 0
Later t [] = Unit
Later t (s ∷ log) = s + window < t

-- A call and the one `max` calls before it are more than a window apart.
abbrev pub Spaced : ℕ → List ℕ → Type 0
Spaced max [] = Unit
Spaced max (t ∷ log) = Later t (drop (max - 1) log) × Spaced max log

abbrev Expired : ℕ → ℕ → Type 0
Expired now t = t + window < now

All-reverse : (P : ℕ → Type 0) (xs : List ℕ) → All P xs → All P (reverse xs)
All-reverse P [] h = tt
All-reverse P (x ∷ xs) h =
    subst (All P) (sym (reverse-cons x xs))
      (All-append P (reverse xs) (x ∷ []) (All-reverse P xs h.1) (h.0, tt))

All-Expired : (a b : ℕ) (xs : List ℕ) → a ≤ b → All (Expired a) xs → All (Expired b) xs
All-Expired a b [] le h = tt
All-Expired a b (x ∷ xs) le h = (omega (arith, le, h.0), All-Expired a b xs le h.1)

length-reverse : (xs : List ℕ) → length (reverse xs) ≡ length xs
length-reverse [] = refl
length-reverse (x ∷ xs) =
    let snoc = ap length (reverse-cons x xs) in
    omega (arith, snoc, length-append (reverse xs) (x ∷ []), length-reverse xs)

-- An eviction splits off a front of expired timestamps.
record Split (now : ℕ) (ts : List ℕ) : Type 0 where
  dropped : List ℕ
  whole : ts ≡ dropped ++ evict_expired now ts
  expired : All (Expired now) dropped
  shorter : length (evict_expired now ts) ≤ length ts

evict-Split : (now : ℕ) (ts : List ℕ) → Split now ts
unfolding evict_expired
evict-Split now [] = record { dropped = []; whole = refl; expired = tt; shorter = omega arith }
evict-Split now (t ∷ ts) = elim (Bool-cases (ltb (t + window) now)) [
  | inl gone ↦
      let s = evict-Split now ts in
      record {
        dropped = t ∷ s.dropped;
        whole = rw gone (ap (◌∷◌ t) s.whole);
        expired = (ground arith, s.expired);
        shorter = rw gone (omega (arith, s.shorter));
      }
  | inr stays ↦ record {
    dropped = [];
    whole = rw stays refl;
    expired = tt;
    shorter = rw stays (omega arith);
  }
]

drop-Later :
    (t n : ℕ) (xs ys : List ℕ) → length xs ≤ n → All (Expired t) ys → Later t (drop n (xs ++ ys))
drop-Later t zero [] [] le h = tt
drop-Later t zero [] (y ∷ ys) le h = h.0
drop-Later t zero (x ∷ xs) ys le h = absurd (omega (arith, le))
drop-Later t (suc n) [] [] le h = tt
drop-Later t (suc n) [] (y ∷ ys) le h = drop-Later t n [] ys (omega arith) h.1
drop-Later t (suc n) (x ∷ xs) ys le h = drop-Later t n xs ys (omega (arith, le)) h

-- The deque holds the latest calls, and the calls before them have left the window.
record Recorded (max clock : ℕ) (ts log : List ℕ) : Type 0 where
  old : List ℕ
  shape : log ≡ reverse ts ++ old
  expired : All (Expired clock) old
  room : length ts ≤ max
  spaced : Spaced max log

extend :
    (max t : ℕ) (kept old log : List ℕ)
    → log ≡ reverse kept ++ old
    → All (Expired t) old
    → length kept + 1 ≤ max
    → Spaced max log
    → Recorded max t (kept ++ t ∷ []) (t ∷ log)
extend max t kept old log shape expired room spaced = record {
  old = old;
  shape = rw (reverse-append kept (t ∷ [])) (ap (◌∷◌ t) shape);
  expired = expired;
  room = omega (arith, length-append kept (t ∷ []), room);
  spaced = (
    rw shape (
        drop-Later t (max - 1) (reverse kept) old (omega (arith, length-reverse kept, room))
          expired),
    spaced,
  );
}

-- One eviction moves expired timestamps behind.
evicted :
    (now : ℕ) (ts old log : List ℕ)
    → log ≡ reverse ts ++ old
    → All (Expired now) old
    → (old' : List ℕ) × (log ≡ reverse (evict_expired now ts) ++ old') × All (Expired now) old'
evicted now ts old log shape expired =
    let s = evict-Split now ts in
    let kept = evict_expired now ts in
    (
      reverse s.dropped ++ old,
      shape
          ∙ ap (λ x. reverse x ++ old) s.whole
          ∙ ap (λ x. x ++ old) (reverse-append s.dropped kept)
          ∙ append_assoc (reverse kept) (reverse s.dropped) old,
      All-append (Expired now) (reverse s.dropped) old
          (All-reverse (Expired now) s.dropped s.expired) expired,
    )

-- Behind the sleep the oldest timestamp has expired, or the clock shows the end of its window.
woken :
    (second third : ℕ) (ts : List ℕ)
    → 1 ≤ length ts
    → second ≤ third
    → second + sleep_for second ts ≤ third
    → (length (evict_expired third ts) + 1 ≤ length ts) ⊎ AtBoundary third ts
unfolding evict_expired sleep_for
woken second third [] some_ts later slept = absurd (omega (arith, some_ts))
woken second third (t ∷ ts) some_ts later slept = elim (Bool-cases (ltb (t + window) third)) [
  | inl gone ↦ let s = evict-Split third ts in inl (rw gone (omega (arith, s.shorter)))
  | inr stays ↦ inr (ground arith)
]

acquire-Recorded :
    (max clock : ℕ) (ts log : List ℕ) (r : Readings)
    → 1 ≤ max
    → Timely max clock ts r
    → Recorded max clock ts log
    → Recorded max r.last (acquire max r ts) (r.last ∷ log)
      ⊎ ((max ≤ length (evict_expired r.first ts)) × AtBoundary r.third (evict_expired r.first ts))
unfolding acquire
acquire-Recorded max clock ts log r positive (a, b, c, d, turn) inv =
    let s = evict-Split r.first ts in
    let kept = evict_expired r.first ts in
    let (old, shape, expired) =
      evicted r.first ts inv.old log inv.shape (All-Expired clock r.first inv.old a inv.expired) in
    elim (Bool-cases (leb max (length kept))) [
      | inr free ↦ inl (
          rw free (
            extend max r.last kept old log shape
              (All-Expired r.first r.last old (omega (arith, b, c, d)) expired) (ground arith)
              inv.spaced))
      | inl full ↦
          let over : max ≤ length kept = ground arith in
          let slept : r.second + sleep_for r.second kept ≤ r.third = elim turn [
            | inl free ↦ absurd (omega (arith, over, free))
            | inr slept ↦ slept
          ] in
          elim (woken r.second r.third kept (omega (arith, over, positive)) c slept) [
            | inr boundary ↦ inr (over, boundary)
            | inl fewer ↦
                let (old', shape', expired') =
                  evicted r.third kept old log shape
                    (All-Expired r.first r.third old (omega (arith, b, c)) expired) in
                inl (
                  rw full (
                    extend max r.last (evict_expired r.third kept) old' log shape'
                      (All-Expired r.third r.last old' d expired')
                      (omega (arith, fewer, s.shorter, inv.room)) inv.spaced))
          ]
    ]

admitted-Spaced :
    (max clock : ℕ) (ts log : List ℕ) (rs : List Readings)
    → 1 ≤ max
    → Recorded max clock ts log
    → Timed max clock ts rs
    → Spaced max (admitted max ts log rs) ⊎ OnBoundary max ts rs
unfolding admitted
admitted-Spaced max clock ts log [] positive inv timed = inl inv.spaced
admitted-Spaced max clock ts log (r ∷ rs) positive inv timed =
    elim (acquire-Recorded max clock ts log r positive timed.0 inv) [
      | inr boundary ↦ inr (inl boundary)
      | inl inv' ↦
          elim (admitted-Spaced max r.last (acquire max r ts) (r.last ∷ log) rs positive inv'
            timed.1) [ inl spaced ↦ inl spaced | inr boundary ↦ inr (inr boundary) ]
    ]

-- A limiter that starts empty, with a limit `max` of at least one, lets every call through more than
-- a minute after the call `max` places before it, however many calls come and at whatever times, if
-- the clock never goes back and every sleep lasts at least as long as asked; or one of the calls
-- found the window full and read the clock, behind its sleep, at exactly a minute after the oldest
-- call that was kept.
pub acquire-Spaced :
    (max clock : ℕ) (rs : List Readings)
    → 1 ≤ max
    → Timed max clock [] rs
    → Spaced max (admitted max [] [] rs) ⊎ OnBoundary max [] rs
acquire-Spaced max clock rs positive timed =
    admitted-Spaced max clock [] [] rs positive
      (record { old = []; shape = refl; expired = tt; room = omega arith; spaced = tt }) timed
