-- ===== src/Prelude/Table/Least.antt =====
-- The least row of a table among those that satisfy a condition.
use Prim.Native.Nat.{◌≤◌, ◌<◌}
use mathlib.Core.Path.{◌≡◌, refl}
use mathlib.Core.Bool.{Bool, true, false, ◌&&◌}
use mathlib.Core.Logic.{◌⊎◌, inl, inr}
use mathlib.Core.List.{[], ◌∷◌}
use native.Mathlib.Omega.{arith}
use langhuan.Prelude.Tests.{Bool-cases}
use langhuan.Prelude.Table.{Table, count}

module _ {ℓ κ} {K : Type ℓ} {V : Type κ} where
  pub count_mono :
      (p q : K → V → Bool) (t : Table K V)
      → ((k : K) (v : V) → p k v ≡ true → q k v ≡ true)
      → count p t ≤ count q t
  unfolding count
  count_mono p q [] h = omega arith
  count_mono p q ((j, w) ∷ t) h = ground (arith, count_mono p q t h, h j w)

  -- A row that satisfies `q`, with none before it that does.
  abbrev pub Least : (K → V → Bool) → (K → V → K → V → Bool) → Table K V → Type (ℓ ⊔ κ)
  Least q older t =
      (k : K) × (v : V) × (q k v ≡ true)
      × (count (λ i w. q i w && older i w k v) t ≡ 0)
      × ((p : K → V → Bool) → p k v ≡ true → 0 < count p t)

  module _ (q : K → V → Bool) (older : K → V → K → V → Bool)
      (irrefl : (k : K) (v : V) → older k v k v ≡ false)
      (trans : (i : K) (u : V) (j : K) (v : V) (k : K) (w : V)
        → older i u j v ≡ true
        → older j v k w ≡ true
        → older i u k w ≡ true) where
    pub least : (t : Table K V) → (count q t ≡ 0) ⊎ Least q older t
    unfolding count
    least [] = inl refl
    least ((j, w) ∷ t) = elim (Bool-cases (q j w)) [
      | inr other ↦ elim (least t) [
        | inl none_there ↦ inl (ground arith)
        | inr (k, v, good, first, counted) ↦
            inr (k, v, good, ground arith, λ p e. ground (arith, counted p e))
      ]
      | inl here ↦ elim (least t) [
        | inl none_there ↦ inr (
          j,
          w,
          here,
          ground (
            arith,
            irrefl j w,
            count_mono (λ i x. q i x && older i x j w) q t (λ i x e. ground arith),
          ),
          λ p e. ground arith,
        )
        | inr (k, v, good, first, counted) ↦ elim (Bool-cases (older j w k v)) [
          | inl before ↦ inr (
            j,
            w,
            here,
            ground (
              arith,
              irrefl j w,
              count_mono (λ i x. q i x && older i x j w) (λ i x. q i x && older i x k v) t
                  (λ i x e. ground (arith, trans i x j w k v)),
            ),
            λ p e. ground arith,
          )
          | inr behind ↦ inr (k, v, good, ground arith, λ p e. ground (arith, counted p e))
        ]
      ]
    ]
