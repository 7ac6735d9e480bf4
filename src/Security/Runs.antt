-- ===== src/Security/Runs.antt =====
-- The steps of the sanitizing in agent/security.py, one by one: runs, kept characters, `strip`.
use Prim.Native.Char.{Char}
use Prim.Native.String.{count, ◌++◌}
use text.Mathlib.TextLemmas.{
  nil-append, cons-append, length-nil, length-cons, length-append, append_assoc, append-nil,
}
use cfr_compliance_mcp.Prelude.{
  ℕ, suc, ◌+◌, ◌≤◌, String, ◌≡◌, refl, ap, ◌∙◌, Bool, true, false, not, ◌&&◌, arith, inl, inr, leb,
  truthy, if◌then◌else◌, Bool-cases,
}
use cfr_compliance_mcp.Regex.{is_space}
use cfr_compliance_mcp.Agent.{strip_left, strip_right}
use cfr_compliance_mcp.Security.Sanitize.{keep_chars, squash_run, squash}

-- Every character satisfies `p`.
abbrev pub every : (Char → Bool) → String → Bool
every p String.[] = true
every p (String.◌∷◌ c s) = p c && every p s

-- No three characters of the class in succession, behind `k` of them.
abbrev pub calm : (Char → Bool) → ℕ → String → Bool
calm p k String.[] = leb k 2
calm p k (String.◌∷◌ c s) = if p c then calm p (suc k) s else leb k 2 && calm p 0 s

module _ (p : Char → Bool) where
  pub every-keep_chars : (s : String) → every p (keep_chars p s) ≡ true
  unfolding keep_chars
  every-keep_chars String.[] = refl
  every-keep_chars (String.◌∷◌ c s) = ground (arith, every-keep_chars s)

  pub keep_chars-every : (s : String) → every p s ≡ true → keep_chars p s ≡ s
  unfolding keep_chars
  keep_chars-every String.[] h = refl
  keep_chars-every (String.◌∷◌ c s) h =
      let here : p c ≡ true = ground arith in
      rw here (ap (String.◌∷◌ c) (keep_chars-every s (ground arith)))

  pub count-keep_chars : (s : String) → count (keep_chars p s) ≤ count s
  unfolding keep_chars
  count-keep_chars String.[] = omega arith
  count-keep_chars (String.◌∷◌ c s) =
      ground (arith, count-keep_chars s, length-cons c s, length-cons c (keep_chars p s))

  pub every-append : (s t : String) → every p s ≡ true → every p t ≡ true → every p (s ++ t) ≡ true
  every-append String.[] t h k = rw (nil-append t) k
  every-append (String.◌∷◌ c s) t h k =
      rw (cons-append c s t) (ground (arith, every-append s t (ground arith) k))

  pub every-strip_left : (s : String) → every p s ≡ true → every p (strip_left s) ≡ true
  unfolding strip_left
  every-strip_left String.[] h = h
  every-strip_left (String.◌∷◌ c s) h = ground (arith, every-strip_left s)

  pub every-strip_right : (s : String) → every p s ≡ true → every p (strip_right s) ≡ true
  unfolding strip_right
  every-strip_right String.[] h = h
  every-strip_right (String.◌∷◌ c s) h = ground (arith, every-strip_right s)

  pub calm_room : (k : ℕ) (s : String) → calm p k s ≡ true → k ≤ 2
  calm_room k String.[] h = ground arith
  calm_room k (String.◌∷◌ c s) h = ground (arith, calm_room (suc k) s)

  pub calm_weaken : (j k : ℕ) (s : String) → j ≤ k → calm p k s ≡ true → calm p j s ≡ true
  calm_weaken j k String.[] le h = ground arith
  calm_weaken j k (String.◌∷◌ c s) le h = ground (arith, calm_weaken (suc j) (suc k) s)

  pub calm-strip_left : (s : String) → calm p 0 s ≡ true → calm p 0 (strip_left s) ≡ true
  unfolding strip_left
  calm-strip_left String.[] h = h
  calm-strip_left (String.◌∷◌ c s) h = ground (arith, calm-strip_left s, calm_weaken 0 1 s)

  pub calm-strip_right : (k : ℕ) (s : String) → calm p k s ≡ true → calm p k (strip_right s) ≡ true
  unfolding strip_right
  calm-strip_right k String.[] h = h
  calm-strip_right k (String.◌∷◌ c s) h =
      elim (Bool-cases (is_space c && not (truthy (strip_right s)))) [
        | inl ends ↦ rw ends (ground (arith, calm_room k (String.◌∷◌ c s) h))
        | inr goes ↦ rw goes (ground (arith, calm-strip_right (suc k) s, calm-strip_right 0 s))
      ]

  snoc-append :
      (run s : String) (c : Char) → (run ++ String.◌∷◌ c String.[]) ++ s ≡ run ++ String.◌∷◌ c s
  snoc-append run s c =
      append_assoc run (String.◌∷◌ c String.[]) s
      ∙ ap (◌++◌ run) (cons-append c String.[] s ∙ ap (String.◌∷◌ c) (nil-append s))

  count-snoc : (run : String) (c : Char) → count (run ++ String.◌∷◌ c String.[]) ≡ suc (count run)
  count-snoc run c =
      let one = length-cons c String.[] in
      omega (arith, length-append run (String.◌∷◌ c String.[]), one, length-nil)

  -- A calm text is one that `squash` keeps.
  pub squash-calm : (by run s : String) → calm p (count run) s ≡ true → squash p by run s ≡ run ++ s
  unfolding squash squash_run
  squash-calm by run String.[] h = rw (append-nil run) (ground arith)
  squash-calm by run (String.◌∷◌ c s) h = elim (Bool-cases (p c)) [
    | inl in_run ↦ rw in_run (
        squash-calm by (run ++ String.◌∷◌ c String.[]) s (rw (count-snoc run c) (ground arith))
        ∙ snoc-append run s c)
    | inr behind ↦
        let short : count run ≤ 2 = ground arith in
        let kept : squash_run by run ≡ run = ground arith in
        let later : squash p by String.[] s ≡ s =
          squash-calm by String.[] s (rw length-nil (ground arith)) ∙ nil-append s in
        rw (behind, kept, later) refl
  ]

  -- A run within the bound, and what stands behind it.
  calm-append :
      (k : ℕ) (run : String) (c : Char) (s : String)
      → every p run ≡ true
      → k + count run ≤ 2
      → p c ≡ false
      → calm p 0 s ≡ true
      → calm p k (run ++ String.◌∷◌ c s) ≡ true
  calm-append k String.[] c s h room out rest =
      rw (nil-append (String.◌∷◌ c s)) (ground (arith, length-nil))
  calm-append k (String.◌∷◌ d run) c s h room out rest =
      let longer = length-cons d run in
      let tail = calm-append (suc k) run c s (ground arith) (ground arith) out rest in
      rw (cons-append d run (String.◌∷◌ c s)) (ground (arith))

  calm-run : (k : ℕ) (run : String) → every p run ≡ true → k + count run ≤ 2 → calm p k run ≡ true
  calm-run k String.[] h room = ground (arith, length-nil)
  calm-run k (String.◌∷◌ d run) h room =
      let longer = length-cons d run in
      let tail = calm-run (suc k) run (ground arith) (ground arith) in ground arith

  every-snoc :
      (run : String) (c : Char)
      → every p run ≡ true
      → p c ≡ true
      → every p (run ++ String.◌∷◌ c String.[]) ≡ true
  every-snoc run c h one = every-append run (String.◌∷◌ c String.[]) h (ground arith)

  -- After `squash`, runs are calm.
  pub calm-squash :
      (by run s : String)
      → every p by ≡ true
      → count by ≤ 2
      → every p run ≡ true
      → calm p 0 (squash p by run s) ≡ true
  unfolding squash squash_run
  calm-squash by run String.[] all_by small h = elim (Bool-cases (leb 3 (count run))) [
    | inl long ↦ rw long (calm-run 0 by all_by (omega (arith, small)))
    | inr short ↦ rw short (calm-run 0 run h (ground arith))
  ]
  calm-squash by run (String.◌∷◌ c s) all_by small h = elim (Bool-cases (p c)) [
    | inl in_run ↦
        rw in_run (
          calm-squash by (run ++ String.◌∷◌ c String.[]) s all_by small (every-snoc run c h in_run))
    | inr behind ↦
        let rest = calm-squash by String.[] s all_by small refl in
        elim (Bool-cases (leb 3 (count run))) [
          | inl long ↦
              rw (behind, long) (calm-append 0 by c _ all_by (omega (arith, small)) behind rest)
          | inr short ↦ rw (behind, short) (calm-append 0 run c _ h (ground arith) behind rest)
        ]
  ]

  pub count-squash :
      (by run s : String) → count by ≤ 3 → count (squash p by run s) ≤ count run + count s
  unfolding squash squash_run
  count-squash by run String.[] b = ground (arith, length-nil)
  count-squash by run (String.◌∷◌ c s) b = elim (Bool-cases (p c)) [
    | inl in_run ↦
        let later = count-squash by (run ++ String.◌∷◌ c String.[]) s b in
        let longer = count-snoc run c in
        let size = length-cons c s in rw in_run (omega (arith, later, longer, size))
    | inr behind ↦
        let rest = count-squash by String.[] s b in
        let front : count (squash_run by run) ≤ count run = ground arith in
        let parts = length-append (squash_run by run) (String.◌∷◌ c (squash p by String.[] s)) in
        let one = length-cons c (squash p by String.[] s) in
        rw behind (omega (arith, rest, front, parts, one, length-cons c s, length-nil))
  ]

pub every-squash :
    (p q : Char → Bool) (by run s : String)
    → every q by ≡ true
    → every q run ≡ true
    → every q s ≡ true
    → every q (squash p by run s) ≡ true
unfolding squash squash_run
every-squash p q by run String.[] b r h = ground arith
every-squash p q by run (String.◌∷◌ c s) b r h = elim (Bool-cases (p c)) [
  | inl in_run ↦ rw in_run (
      every-squash p q by (run ++ String.◌∷◌ c String.[]) s b (every-snoc q run c r (ground arith))
        (ground arith))
  | inr behind ↦
      let rest = every-squash p q by String.[] s b refl (ground arith) in
      let front : every q (squash_run by run) ≡ true = ground arith in
      rw behind (every-append q (squash_run by run) _ front (ground (arith, rest)))
]
