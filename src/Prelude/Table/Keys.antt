-- ===== src/Prelude/Table/Keys.antt =====
-- Tables whose keys are unique, as a PRIMARY KEY makes them.
use mathlib.Core.Path.{◌≡◌, refl}
use mathlib.Core.Bool.{Bool, false, ◌&&◌}
use mathlib.Core.Logic.{inl, inr}
use mathlib.Core.Option.{Option, none, some}
use mathlib.Core.List.{[], ◌∷◌}
use native.Mathlib.Omega.{arith}
use langhuan.Prelude.Tests.{if◌then◌else◌, Bool-cases}
use langhuan.Prelude.Equality.{Eq, same, same_iff}
use langhuan.Prelude.Table.{
  Table, lookup, upsert, update, erase, lookup-upsert, lookup-update, count,
}

module _ {κ} {V : Type κ} where
  abbrev pub kept : (V → Bool) → Option V → Option V
  kept p none = none
  kept p (some v) = if p v then none else some v

  abbrev pub found : (V → Bool) → Option V → Bool
  found q none = false
  found q (some v) = q v

module _ {ℓ κ} {K : Type ℓ} {V : Type κ} ⦃e : Eq K⦄ where
  abbrev pub IsUnique : Table K V → Type (ℓ ⊔ κ)
  IsUnique [] = Unit
  IsUnique ((k, v) ∷ t) = (lookup k t ≡ none) × IsUnique t

  pub lookup-erase-none :
      (p : K → V → Bool) (k : K) (t : Table K V) → lookup k t ≡ none → lookup k (erase p t) ≡ none
  unfolding lookup erase
  lookup-erase-none p k [] h = refl
  lookup-erase-none p k ((j, v) ∷ t) h = ground (arith, lookup-erase-none p k t)

  pub lookup-erase :
      (p : K → V → Bool) (k : K) (t : Table K V)
      → IsUnique t
      → lookup k (erase p t) ≡ kept (p k) (lookup k t)
  unfolding lookup erase
  lookup-erase p k [] u = refl
  lookup-erase p k ((j, v) ∷ t) (n, u) =
      ground (arith, same_iff j k, lookup-erase p k t u, lookup-erase-none p j t n)

  pub IsUnique-erase : (p : K → V → Bool) (t : Table K V) → IsUnique t → IsUnique (erase p t)
  unfolding erase
  IsUnique-erase p [] u = tt
  IsUnique-erase p ((j, v) ∷ t) (n, u) = elim (Bool-cases (p j v)) [
    | inl gone ↦ rw gone (IsUnique-erase p t u)
    | inr stays ↦ rw stays (lookup-erase-none p j t n, IsUnique-erase p t u)
  ]

  pub IsUnique-update : (f : K → V → V) (t : Table K V) → IsUnique t → IsUnique (update f t)
  unfolding update
  IsUnique-update f [] u = tt
  IsUnique-update f ((j, v) ∷ t) (n, u) =
      (ground (arith, lookup-update f j t), IsUnique-update f t u)

  pub IsUnique-upsert :
      (k : K) (fresh : V) (onto : V → V) (t : Table K V)
      → IsUnique t
      → IsUnique (upsert k fresh onto t)
  unfolding upsert lookup
  IsUnique-upsert k fresh onto [] u = (refl, tt)
  IsUnique-upsert k fresh onto ((j, v) ∷ t) (n, u) = elim (Bool-cases (same j k)) [
    | inl hit ↦ rw hit (n, u)
    | inr miss ↦ rw miss (
      ground (arith, lookup-upsert k j fresh onto t, same_iff k j, same_iff j k),
      IsUnique-upsert k fresh onto t u,
    )
  ]

  count-eq_zero :
      (q : K → V → Bool) (k : K) (t : Table K V)
      → lookup k t ≡ none
      → count (λ j v. same j k && q j v) t ≡ 0
  unfolding lookup count
  count-eq_zero q k [] h = refl
  count-eq_zero q k ((j, v) ∷ t) h = ground (arith, count-eq_zero q k t)

  pub count-key :
      (q : K → V → Bool) (k : K) (t : Table K V)
      → IsUnique t
      → count (λ j v. same j k && q j v) t ≡ (if found (q k) (lookup k t) then 1 else 0)
  unfolding lookup count
  count-key q k [] u = refl
  count-key q k ((j, v) ∷ t) (n, u) =
      ground (arith, same_iff j k, count-key q k t u, count-eq_zero q j t n)
