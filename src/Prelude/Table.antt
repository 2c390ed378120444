-- ===== src/Prelude/Table.antt =====
-- A table with a primary key, as the rows in some order. The statements that the program runs on a
-- table are `lookup` (SELECT by key), `upsert` (INSERT … ON CONFLICT), `update` (UPDATE), `erase`
-- (DELETE) and the counts of the rows that they change.
pub mod Keys
pub mod Child
pub mod Least
pub mod Sort
use Prim.Native.Nat.{ℕ, zero, suc, ◌+◌, ◌≤◌}
use mathlib.Core.Path.{◌≡◌, refl, ap, ◌∙◌}
use mathlib.Core.Logic.{inl, inr}
use mathlib.Core.Bool.{Bool, true, false, not, ◌&&◌}
use mathlib.Core.Option.{Option, none, some}
use mathlib.Core.List.{List, [], ◌∷◌, ◌++◌}
use native.Mathlib.Omega.{arith}
use langhuan.Prelude.Tests.{if◌then◌else◌, Bool-cases}
use langhuan.Prelude.Lists.{length}
use langhuan.Prelude.Equality.{Eq, same, same_iff, same_refl}

abbrev pub Table {ℓ κ} : Type ℓ → Type κ → Type (ℓ ⊔ κ)
Table K V = List (K × V)

module _ {κ} {V : Type κ} where
  -- The row that a conflict updates, or the row that is inserted.
  abbrev pub merged : (V → V) → V → Option V → V
  merged onto fresh none = fresh
  merged onto fresh (some old) = onto old

  merged-same : (v : V) (o : Option V) → merged (λ _. v) v o ≡ v
  merged-same v none = refl
  merged-same v (some _) = refl

  abbrev pub mapped : (V → V) → Option V → Option V
  mapped f none = none
  mapped f (some v) = some (f v)

module _ {ℓ κ} {K : Type ℓ} {V : Type κ} where
  -- `UPDATE … SET … WHERE`, with `f` the identity on the rows that do not match.
  unfoldable pub update : (K → V → V) → Table K V → Table K V
  update f [] = []
  update f ((j, v) ∷ t) = (j, f j v) ∷ update f t

  -- `DELETE FROM … WHERE p`.
  unfoldable pub erase : (K → V → Bool) → Table K V → Table K V
  erase p [] = []
  erase p ((j, v) ∷ t) = let rest = erase p t in if p j v then rest else (j, v) ∷ rest

  -- The number of rows that satisfy `p`.
  unfoldable pub count : (K → V → Bool) → Table K V → ℕ
  count p [] = 0
  count p ((j, v) ∷ t) = let rest = count p t in if p j v then suc rest else rest

  pub count-erase : (p : K → V → Bool) (t : Table K V) → length (erase p t) + count p t ≡ length t
  unfolding erase count
  count-erase p [] = omega arith
  count-erase p ((j, v) ∷ t) = ground (arith, count-erase p t)

  -- An update of no row changes nothing.
  pub update_none :
      (p : K → V → Bool) (f : V → V) (t : Table K V)
      → count p t ≡ 0
      → update (λ j v. if p j v then f v else v) t ≡ t
  unfolding update count
  update_none p f [] h = refl
  update_none p f ((j, v) ∷ t) h = elim (Bool-cases (p j v)) [
    | inl hit ↦ absurd (ground arith)
    | inr miss ↦ rw miss (ap (λ rest. (j, v) ∷ rest) (update_none p f t (ground arith)))
  ]

  pub erase_none : (p : K → V → Bool) (t : Table K V) → count p t ≡ 0 → erase p t ≡ t
  unfolding erase count
  erase_none p [] h = refl
  erase_none p ((j, v) ∷ t) h = elim (Bool-cases (p j v)) [
    | inl hit ↦ absurd (ground arith)
    | inr miss ↦ rw miss (ap (λ r. (j, v) ∷ r) (erase_none p t (ground arith)))
  ]

  pub erase_never :
      (p : K → V → Bool) (t : Table K V) → ((k : K) (v : V) → p k v ≡ false) → erase p t ≡ t
  unfolding erase
  erase_never p [] h = refl
  erase_never p ((j, v) ∷ t) h = rw (h j v) (ap (λ r. (j, v) ∷ r) (erase_never p t h))

module _ {ℓ κ} {K : Type ℓ} {V : Type κ} ⦃e : Eq K⦄ where
  unfoldable pub lookup : K → Table K V → Option V
  lookup k [] = none
  lookup k ((j, v) ∷ t) = if same j k then some v else lookup k t

  abbrev pub has : K → Table K V → Bool
  has k t = elim (lookup k t) [ none ↦ false | some _ ↦ true ]

  -- `INSERT … VALUES fresh ON CONFLICT DO UPDATE SET …`, with `onto` for the update.
  unfoldable pub upsert : K → V → (V → V) → Table K V → Table K V
  upsert k fresh onto [] = (k, fresh) ∷ []
  upsert k fresh onto ((j, v) ∷ t) =
      if same j k then (j, onto v) ∷ t else (j, v) ∷ upsert k fresh onto t

  pub lookup-upsert :
      (k j : K) (fresh : V) (onto : V → V) (t : Table K V)
      → lookup j (upsert k fresh onto t)
        ≡ (if same k j then some (merged onto fresh (lookup k t)) else lookup j t)
  unfolding lookup upsert
  lookup-upsert k j fresh onto [] = refl
  lookup-upsert k j fresh onto ((i, v) ∷ t) =
      ground (arith, same_iff k j, same_iff i k, same_iff i j, lookup-upsert k j fresh onto t)

  -- What a deletion leaves does not satisfy its condition.
  pub survivor :
      (p : K → V → Bool) (k : K) (v : V) (t : Table K V)
      → lookup k (erase p t) ≡ some v
      → p k v ≡ false
  unfolding lookup erase
  survivor p k v [] h = absurd (cc)
  survivor p k v ((j, w) ∷ t) h = elim (Bool-cases (p j w)) [
    | inl gone ↦ survivor p k v t (ground arith)
    | inr stays ↦ elim (Bool-cases (same j k)) [
      | inl hit ↦ ground (arith, same_iff j k)
      | inr miss ↦ survivor p k v t (ground arith)
    ]
  ]

  -- A row that replaces the one that is there.
  pub lookup-put : (k : K) (v : V) (t : Table K V) → lookup k (upsert k v (λ _. v) t) ≡ some v
  lookup-put k v t =
      lookup-upsert k k v (λ _. v) t ∙ rw (same_refl k) (ap some (merged-same v (lookup k t)))

  pub lookup-put_any :
      (k j : K) (v : V) (t : Table K V)
      → lookup j (upsert k v (λ _. v) t) ≡ (if same k j then some v else lookup j t)
  lookup-put_any k j v t = lookup-upsert k j v (λ _. v) t ∙ rw (merged-same v (lookup k t)) refl

  pub lookup-update :
      (f : K → V → V) (k : K) (t : Table K V) → lookup k (update f t) ≡ mapped (f k) (lookup k t)
  unfolding lookup update
  lookup-update f k [] = refl
  lookup-update f k ((i, v) ∷ t) = ground (arith, same_iff i k, lookup-update f k t)

  -- A deletion by key alone.
  pub lookup-erase_key :
      (p : K → Bool) (k : K) (t : Table K V)
      → lookup k (erase (λ j _. p j) t) ≡ (if p k then none else lookup k t)
  unfolding lookup erase
  lookup-erase_key p k [] = ground arith
  lookup-erase_key p k ((i, v) ∷ t) = ground (arith, same_iff i k, lookup-erase_key p k t)

  pub lookup-eq_none_of_count :
      (p : K → V → Bool) (k : K) (v : V) (t : Table K V)
      → count p t ≡ 0
      → lookup k t ≡ some v
      → p k v ≡ false
  unfolding lookup count
  lookup-eq_none_of_count p k v [] n h = absurd (cc)
  lookup-eq_none_of_count p k v ((j, w) ∷ t) n h =
      ground (arith, same_iff j k, lookup-eq_none_of_count p k v t)
