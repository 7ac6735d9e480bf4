-- ===== src/Prelude/Dict.antt =====
-- Python's `dict` as an association list in insertion order: an assignment to a present key keeps
-- the key's place, and a new key goes to the end.
use mathlib.Core.Path.{◌≡◌, refl, sym, subst}
use mathlib.Core.Logic.{◌↔◌, inl, inr}
use mathlib.Core.Bool.{Bool, true, ◌&&◌}
use mathlib.Core.Option.{Option, none, some}
use mathlib.Core.List.{List, [], ◌∷◌}
use Prim.Native.String.{String}
use native.Mathlib.Omega.{arith}
use text.Mathlib.Text.{◌==◌}
use text.Mathlib.TextEquality.{eq_iff}
use cfr_compliance_mcp.Prelude.Tests.{if◌then◌else◌, Bool-cases}
use cfr_compliance_mcp.Prelude.Lists.{All}

-- What a type of keys needs.
pub record Key {ℓ} (K : Type ℓ) : Type ℓ where
  pub key_eq : K → K → Bool
  pub key_eq_iff : (j k : K) → (key_eq j k ≡ true) ↔ (j ≡ k)

instance abbrev pub string_eq : Key String
string_eq = record { key_eq = ◌==◌; key_eq_iff = eq_iff }

abbrev pub both_beq : String × String → String × String → Bool
both_beq (a, b) (c, d) = a == c && b == d

pub both_beq_iff : (p q : String × String) → (both_beq p q ≡ true) ↔ (p ≡ q)
both_beq_iff (a, b) (c, d) =
    (λ h. ground (arith, eq_iff a c, eq_iff b d), λ h. ground (arith, eq_iff a c, eq_iff b d))

instance abbrev pub pair_eq : Key (String × String)
pair_eq = record { key_eq = both_beq; key_eq_iff = both_beq_iff }

abbrev pub Dict {ℓ κ} : Type ℓ → Type κ → Type (ℓ ⊔ κ)
Dict K V = List (K × V)

module _ {ℓ κ} {K : Type ℓ} {V : Type κ} ⦃e : Key K⦄ where
  -- `d.get(k)`.
  unfoldable pub lookup : K → Dict K V → Option V
  lookup k [] = none
  lookup k ((j, v) ∷ d) = if e.key_eq j k then some v else lookup k d

  -- `d[k] = v`.
  unfoldable pub insert : K → V → Dict K V → Dict K V
  insert k v [] = (k, v) ∷ []
  insert k v ((j, w) ∷ d) = if e.key_eq j k then (j, v) ∷ d else (j, w) ∷ insert k v d

  -- `d.pop(k, None)`.
  unfoldable pub remove : K → Dict K V → Dict K V
  remove k [] = []
  remove k ((j, w) ∷ d) = let rest = remove k d in if e.key_eq j k then rest else (j, w) ∷ rest

  pub lookup-insert :
      (k j : K) (v : V) (d : Dict K V)
      → lookup j (insert k v d) ≡ (if e.key_eq k j then some v else lookup j d)
  unfolding lookup insert
  lookup-insert k j v [] = refl
  lookup-insert k j v ((i, w) ∷ d) =
      ground (arith, e.key_eq_iff k j, e.key_eq_iff i k, e.key_eq_iff i j, lookup-insert k j v d)

  pub lookup-remove :
      (k j : K) (d : Dict K V) → lookup j (remove k d) ≡ (if e.key_eq k j then none else lookup j d)
  unfolding lookup remove
  lookup-remove k j [] = ground arith
  lookup-remove k j ((i, w) ∷ d) =
      ground (arith, e.key_eq_iff k j, e.key_eq_iff i k, e.key_eq_iff i j, lookup-remove k j d)

  pub lookup-insert_self : (k : K) (v : V) (d : Dict K V) → lookup k (insert k v d) ≡ some v
  lookup-insert_self k v d = ground (arith, lookup-insert k k v d, e.key_eq_iff k k)

  pub lookup-All {μ} :
      (P : V → Type μ) (k : K) (d : Dict K V) {v : V}
      → All (λ x. P x.1) d
      → lookup k d ≡ some v
      → P v
  unfolding lookup
  lookup-All P k [] {v} h found = absurd (ground arith)
  lookup-All P k ((j, w) ∷ d) {v} h found = elim (Bool-cases (e.key_eq j k)) [
    | inl same ↦ let we : w ≡ v = ground arith in subst P we h.0
    | inr other ↦ lookup-All P k d h.1 (ground arith)
  ]

  pub insert-All {μ} :
      (P : V → Type μ) (k : K) (v : V) (d : Dict K V)
      → P v
      → All (λ x. P x.1) d
      → All (λ x. P x.1) (insert k v d)
  unfolding insert
  insert-All P k v [] p h = (p, tt)
  insert-All P k v ((j, w) ∷ d) p h = elim (Bool-cases (e.key_eq j k)) [
    | inl same ↦ rw same (p, h.1)
    | inr other ↦ rw other (h.0, insert-All P k v d p h.1)
  ]

  pub insert-All_pairs {μ} :
      (P : K × V → Type μ) (k : K) (v : V) (d : Dict K V)
      → P (k, v)
      → All P d
      → All P (insert k v d)
  unfolding insert
  insert-All_pairs P k v [] p h = (p, tt)
  insert-All_pairs P k v ((j, w) ∷ d) p h = elim (Bool-cases (e.key_eq j k)) [
    | inl same ↦ rw same (subst (λ x. P (x, v)) (sym ((e.key_eq_iff j k).0 same)) p, h.1)
    | inr other ↦ rw other (h.0, insert-All_pairs P k v d p h.1)
  ]

  -- No key stands twice, as in every dictionary that starts empty.
  abbrev pub Distinct : Dict K V → Type κ
  Distinct [] = Unit
  Distinct ((k, v) ∷ d) = (lookup k d ≡ none) × Distinct d

  pub insert-Distinct : (k : K) (v : V) (d : Dict K V) → Distinct d → Distinct (insert k v d)
  unfolding insert lookup
  insert-Distinct k v [] h = (refl, tt)
  insert-Distinct k v ((j, w) ∷ d) h = elim (Bool-cases (e.key_eq j k)) [
    | inl same ↦ rw same h
    | inr other ↦ rw other (
      ground (arith, lookup-insert k j v d, e.key_eq_iff k j, e.key_eq_iff j k, h.0),
      insert-Distinct k v d h.1,
    )
  ]

  pub remove-Distinct : (k : K) (d : Dict K V) → Distinct d → Distinct (remove k d)
  unfolding remove
  remove-Distinct k [] h = tt
  remove-Distinct k ((j, w) ∷ d) h = elim (Bool-cases (e.key_eq j k)) [
    | inl same ↦ rw same (remove-Distinct k d h.1)
    | inr other ↦ rw other (ground (arith, lookup-remove k j d, h.0), remove-Distinct k d h.1)
  ]
