-- ===== src/Prelude/Table/Child.antt =====
-- Foreign keys: a table each of whose keys has a parent.
use mathlib.Core.Path.{◌≡◌}
use mathlib.Core.Logic.{inl, inr}
use mathlib.Core.Bool.{Bool, true, ◌||◌}
use native.Mathlib.Omega.{arith}
use langhuan.Prelude.Tests.{Option-cases}
use langhuan.Prelude.Equality.{Eq, same, same_iff}
use langhuan.Prelude.Table.{Table, lookup, has, upsert, update, erase, lookup-upsert, lookup-update}
use langhuan.Prelude.Table.Keys.{lookup-erase-none}

module _ {ℓ κ} {K : Type ℓ} {V : Type κ} ⦃e : Eq K⦄ where
  abbrev pub IsChild : (K → Bool) → Table K V → Type ℓ
  IsChild parent t = (k : K) → has k t ≡ true → parent k ≡ true

  pub has-upsert :
      (k j : K) (fresh : V) (onto : V → V) (t : Table K V)
      → has j (upsert k fresh onto t) ≡ (same k j || has j t)
  has-upsert k j fresh onto t = ground (arith, lookup-upsert k j fresh onto t)

  pub has-update : (f : K → V → V) (k : K) (t : Table K V) → has k (update f t) ≡ has k t
  has-update f k t = ground (arith, lookup-update f k t)

  pub has_of_erase :
      (p : K → V → Bool) (k : K) (t : Table K V) → has k (erase p t) ≡ true → has k t ≡ true
  has_of_erase p k t h = elim (Option-cases (lookup k t)) [
    | inl gone ↦ absurd (ground (arith, lookup-erase-none p k t gone))
    | inr (v, here) ↦ ground arith
  ]

  pub IsChild-upsert :
      (parent : K → Bool) (k : K) (fresh : V) (onto : V → V) (t : Table K V)
      → (has k t || parent k) ≡ true
      → IsChild parent t
      → IsChild parent (upsert k fresh onto t)
  IsChild-upsert parent k fresh onto t h c j i =
      ground (arith, has-upsert k j fresh onto t, same_iff k j, c j)

  pub IsChild-update :
      (parent : K → Bool) (f : K → V → V) (t : Table K V)
      → IsChild parent t
      → IsChild parent (update f t)
  IsChild-update parent f t c k i = ground (arith, has-update f k t, c k)

  pub IsChild-erase :
      (parent : K → Bool) (p : K → V → Bool) (t : Table K V)
      → IsChild parent t
      → IsChild parent (erase p t)
  IsChild-erase parent p t c k i = c k (has_of_erase p k t i)

  pub IsChild-parent :
      (parent parent' : K → Bool) (t : Table K V)
      → ((k : K) → parent k ≡ true → parent' k ≡ true)
      → IsChild parent t
      → IsChild parent' t
  IsChild-parent parent parent' t f c k i = f k (c k i)
