-- ===== src/Base/Table.antt =====
-- An association list, for `std::unordered_map` and for nodes found by their address: at most one
-- entry for each key.
use Prim.Native.Nat.{suc}
use mathlib.Core.Path.{◌≡◌, refl, sym, ◌∙◌, subst}
use mathlib.Core.Logic.{◌↔◌, inl, inr}
use mathlib.Core.Bool.{Bool, true, false}
use mathlib.Core.List.{List, [], ◌∷◌}
use mathlib.Core.Option.{Option, none, some}
use Prim.Native.Nat.{◌≤◌}
use native.Mathlib.Omega.{arith}
use nethex.Base.Lists.{length, All}
use nethex.Base.Tests.{if◌then◌else◌, Bool-cases}

module _ {K V : Type 0} (eq : K → K → Bool) where
  abbrev pub lookup : K → List (K × V) → Option V
  lookup k [] = none
  lookup k ((j, v) ∷ t) = if eq j k then some v else lookup k t

  -- A write to the entry that is there.
  abbrev pub replace : K → V → List (K × V) → List (K × V)
  replace k v [] = []
  replace k v ((j, w) ∷ t) = if eq j k then (j, v) ∷ t else (j, w) ∷ replace k v t

  abbrev pub erase : K → List (K × V) → List (K × V)
  erase k [] = []
  erase k ((j, w) ∷ t) = if eq j k then t else (j, w) ∷ erase k t

  -- No key has two entries.
  abbrev pub Distinct : List (K × V) → Type 0
  Distinct [] = Unit
  Distinct ((k, v) ∷ t) = (lookup k t ≡ none) × Distinct t

module _ {K V : Type 0} (eq : K → K → Bool) where
  pub length-replace : (k : K) (v : V) (t : List (K × V)) → length (replace eq k v t) ≡ length t
  length-replace k v [] = refl
  length-replace k v ((j, w) ∷ t) = ground (arith, length-replace k v t)

  pub length-erase :
      (k : K) (v : V) (t : List (K × V))
      → lookup eq k t ≡ some v
      → length t ≡ suc (length (erase eq k t))
  length-erase k v [] e = cc
  length-erase k v ((j, w) ∷ t) e = ground (arith, length-erase k v t)

module _ {K V : Type 0} (eq : K → K → Bool) (eq_iff : (a b : K) → (eq a b ≡ true) ↔ (a ≡ b)) where
  pub lookup-replace :
      (k j : K) (v w : V) (t : List (K × V))
      → lookup eq k t ≡ some w
      → lookup eq j (replace eq k v t) ≡ (if eq k j then some v else lookup eq j t)
  lookup-replace k j v w [] e = cc
  lookup-replace k j v w ((i, u) ∷ t) e =
      ground (arith, eq_iff k j, eq_iff i k, eq_iff i j, lookup-replace k j v w t)

  -- Erasing a key leaves no entry of it, if none was there twice, and every other.
  pub lookup-erase :
      (k j : K) (t : List (K × V))
      → Distinct eq t
      → lookup eq j (erase eq k t) ≡ (if eq k j then none else lookup eq j t)
  lookup-erase k j [] d = ground arith
  lookup-erase k j ((i, u) ∷ t) d =
      ground (arith, eq_iff k j, eq_iff i k, eq_iff i j, lookup-erase k j t d.1, d.0)

  pub erase-Distinct : (k : K) (t : List (K × V)) → Distinct eq t → Distinct eq (erase eq k t)
  erase-Distinct k [] d = tt
  erase-Distinct k ((i, u) ∷ t) d =
      ground (arith, erase-Distinct k t d.1, lookup-erase k i t d.1, d.0, eq_iff k i, eq_iff i k)

  replace-absent :
      (j k : K) (v : V) (t : List (K × V))
      → lookup eq j t ≡ none
      → lookup eq j (replace eq k v t) ≡ none
  replace-absent j k v [] e = refl
  replace-absent j k v ((i, u) ∷ t) e = ground (arith, replace-absent j k v t)

  pub replace-Distinct :
      (k : K) (v : V) (t : List (K × V)) → Distinct eq t → Distinct eq (replace eq k v t)
  replace-Distinct k v [] d = tt
  replace-Distinct k v ((i, u) ∷ t) d =
      ground (arith, replace-Distinct k v t d.1, replace-absent i k v t d.0, d.0)

module _ {K V : Type 0} (eq : K → K → Bool) where
  -- What is left of a table without a key's entry does not depend on that entry.
  pub erase-replace :
      (k : K) (v : V) (t : List (K × V)) → erase eq k (replace eq k v t) ≡ erase eq k t
  erase-replace k v [] = refl
  erase-replace k v ((j, w) ∷ t) = ground (arith, erase-replace k v t)

  pub erase_absent : (k : K) (t : List (K × V)) → lookup eq k t ≡ none → erase eq k t ≡ t
  erase_absent k [] e = refl
  erase_absent k ((j, w) ∷ t) e = ground (arith, e, erase_absent k t)

-- A property of each entry.
module _ {K V : Type 0} (eq : K → K → Bool) (P : V → Type 0) where
  abbrev pub Entries : List (K × V) → Type 0
  Entries t = All (λ (e : K × V). P e.1) t

  pub lookup-Entries : (k : K) (v : V) (t : List (K × V)) → Entries t → lookup eq k t ≡ some v → P v
  lookup-Entries k v [] h e = cc
  lookup-Entries k v ((j, w) ∷ t) h e = elim (Bool-cases (eq j k)) [
    | inl same ↦ subst P (w-eq-v same) h.0
    | inr other ↦ lookup-Entries k v t h.1 (sym (behind other) ∙ e)
  ]
    where
      at_head : eq j k ≡ true → lookup eq k ((j, w) ∷ t) ≡ some w
      at_head same = rw same refl

      w-eq-v : eq j k ≡ true → w ≡ v
      w-eq-v same = let both = sym (at_head same) ∙ e in cc

      behind : eq j k ≡ false → lookup eq k ((j, w) ∷ t) ≡ lookup eq k t
      behind other = rw other refl

  pub replace-Entries :
      (k : K) (v : V) (t : List (K × V)) → P v → Entries t → Entries (replace eq k v t)
  replace-Entries k v [] p h = tt
  replace-Entries k v ((j, w) ∷ t) p h = elim (Bool-cases (eq j k)) [
    | inl same ↦ rw (same, Entries) (p, h.1)
    | inr other ↦ rw (other, Entries) (h.0, replace-Entries k v t p h.1)
  ]

  pub erase-Entries : (k : K) (t : List (K × V)) → Entries t → Entries (erase eq k t)
  erase-Entries k [] h = tt
  erase-Entries k ((j, w) ∷ t) h = elim (Bool-cases (eq j k)) [
    | inl same ↦ rw (same, Entries) h.1
    | inr other ↦ rw (other, Entries) (h.0, erase-Entries k t h.1)
  ]

  pub length-erase_le : (k : K) (t : List (K × V)) → length (erase eq k t) ≤ length t
  length-erase_le k [] = omega arith
  length-erase_le k ((j, w) ∷ t) = ground (arith, length-erase_le k t)
