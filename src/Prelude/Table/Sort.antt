-- ===== src/Prelude/Table/Sort.antt =====
-- `ORDER BY`: the rows of a table in the order of a test.
use mathlib.Core.Path.{◌≡◌, refl, ◌∙◌}
use mathlib.Core.Bool.{Bool}
use mathlib.Core.Logic.{inl, inr}
use mathlib.Core.Option.{none, some}
use mathlib.Core.List.{[], ◌∷◌}
use native.Mathlib.Omega.{arith}
use langhuan.Prelude.Tests.{if◌then◌else◌, Bool-cases}
use langhuan.Prelude.Equality.{Eq, same, same_iff}
use langhuan.Prelude.Table.{Table, lookup}
use langhuan.Prelude.Table.Keys.{IsUnique}

module _ {ℓ κ} {K : Type ℓ} {V : Type κ} (before : K → V → K → V → Bool) where
  unfoldable pub insert_sorted : K → V → Table K V → Table K V
  insert_sorted k v [] = (k, v) ∷ []
  insert_sorted k v ((j, w) ∷ t) =
      let rest = insert_sorted k v t in
      if before j w k v then (j, w) ∷ rest else (k, v) ∷ (j, w) ∷ t

  unfoldable pub sort_by : Table K V → Table K V
  unfolding insert_sorted
  sort_by [] = []
  sort_by ((k, v) ∷ t) = insert_sorted k v (sort_by t)

  module _ ⦃e : Eq K⦄ where
    lookup-insert_sorted :
        (k j : K) (v : V) (t : Table K V)
        → lookup k t ≡ none
        → lookup j (insert_sorted k v t) ≡ (if same k j then some v else lookup j t)
    unfolding insert_sorted lookup
    lookup-insert_sorted k j v [] fresh = refl
    lookup-insert_sorted k j v ((i, w) ∷ t) fresh =
        ground (arith, same_iff i k, same_iff i j, same_iff k j, lookup-insert_sorted k j v t)

    pub lookup-sort_by : (j : K) (t : Table K V) → IsUnique t → lookup j (sort_by t) ≡ lookup j t
    unfolding sort_by lookup
    lookup-sort_by j [] u = refl
    lookup-sort_by j ((k, v) ∷ t) (n, u) =
        lookup-insert_sorted k j v (sort_by t) (lookup-sort_by k t u ∙ n)
        ∙ rw (lookup-sort_by j t u) refl

    IsUnique-insert_sorted :
        (k : K) (v : V) (t : Table K V)
        → lookup k t ≡ none
        → IsUnique t
        → IsUnique (insert_sorted k v t)
    unfolding insert_sorted lookup
    IsUnique-insert_sorted k v [] fresh u = (refl, tt)
    IsUnique-insert_sorted k v ((i, w) ∷ t) fresh (n, u) = elim (Bool-cases (before i w k v)) [
      | inl first ↦ rw first (
        ground (
          arith,
          same_iff i k,
          same_iff k i,
          lookup-insert_sorted k i v t (ground (arith, same_iff i k)),
        ),
        IsUnique-insert_sorted k v t (ground (arith, same_iff i k)) u,
      )
      | inr behind ↦ rw behind (fresh, (n, u))
    ]

    pub IsUnique-sort_by : (t : Table K V) → IsUnique t → IsUnique (sort_by t)
    unfolding sort_by
    IsUnique-sort_by [] u = tt
    IsUnique-sort_by ((k, v) ∷ t) (n, u) =
        IsUnique-insert_sorted k v (sort_by t) (lookup-sort_by k t u ∙ n) (IsUnique-sort_by t u)
