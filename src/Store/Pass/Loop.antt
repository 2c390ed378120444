-- ===== src/Store/Pass/Loop.antt =====
-- native/langhuan/src/db/maintenance.rs: the loop of evictions of a maintenance pass.
use langhuan.Prelude.{
  ℕ, zero, suc, ◌+◌, ◌<◌, ◌≤◌, ◌≡◌, ◌⊎◌, refl, true, text_eq, arith, ap, length, inl, inr, leb,
  Bool-cases,
}
use langhuan.Prelude.Table.{has}
use langhuan.Prelude.Table.Keys.{IsUnique, IsUnique-erase}
use langhuan.Error.{Result, ok}
use langhuan.Store.Rows.{BookKey, book_key_eq, Database}
use langhuan.Store.Repo.{call}
use langhuan.Store.Cascade.Kept.{KeepsBook, KeepsBook-trans}
use langhuan.Store.Maintenance.{cache_total_bytes, evict_oldest_unprotected, is_victim}
use langhuan.Store.Cascade.{delete_books}
use langhuan.Store.Maintenance.Evict.{unshelved_count, evict_progress, evict_keeps, evict_nothing}
use langhuan.Store.Pass.{max_cache_bytes, evict_chunk, evict_all}

-- The cache is within its cap, or no book is left that could be evicted.
abbrev pub IsTrimmed : Database → Type 0
IsTrimmed db = (cache_total_bytes db ≤ max_cache_bytes) ⊎ (unshelved_count db ≡ 0)

module _ (fuel : ℕ) (db : Database) where
  abbrev step : Result ℕ × Database
  step = evict_oldest_unprotected max_cache_bytes evict_chunk db

  evict_all-zero : step.0 ≡ ok 0 → evict_all (suc fuel) db ≡ (ok 0, db)
  unfolding evict_all call
  evict_all-zero e = rw e (ap (λ d. (ok 0, d)) (evict_nothing max_cache_bytes evict_chunk db e))

  evict_all-suc :
      (n more : ℕ) (after : Database)
      → step.0 ≡ ok (suc n)
      → evict_all fuel step.1 ≡ (ok more, after)
      → evict_all (suc fuel) db ≡ (ok (suc n + more), after)
  unfolding evict_all call
  evict_all-suc n more after e f = rw (e, f) refl

  IsUnique-step : IsUnique db.books → IsUnique step.1.books
  unfolding evict_oldest_unprotected delete_books
  IsUnique-step u = elim (Bool-cases (leb (cache_total_bytes db) max_cache_bytes)) [
    | inl fits ↦ rw fits u
    | inr over ↦ rw over (IsUnique-erase (is_victim evict_chunk db) db.books u)
  ]

-- The loop ends in a trimmed database that keeps the books on the shelf.
abbrev pub Ends : ℕ → Database → Type 0
Ends fuel db =
    (evicted : ℕ) × (after : Database) × (evict_all fuel db ≡ (ok evicted, after))
    × IsTrimmed after
    × ((k : BookKey) → has k db.bookshelf ≡ true → KeepsBook k db after)

step-Ends :
    (fuel : ℕ) (db : Database) (n : ℕ)
    → ((d : Database) → length d.books < fuel → IsUnique d.books → Ends fuel d)
    → length db.books < suc fuel
    → IsUnique db.books
    → (step fuel db).0 ≡ ok n
    → length (step fuel db).1.books + n ≡ length db.books
    → (0 < n) ⊎ (◌≡◌ {A = ℕ} evict_chunk 0 ⊎ IsTrimmed db)
    → Ends (suc fuel) db
step-Ends fuel db zero rest h u e fewer (inl many) = absurd (omega (arith, many))
step-Ends fuel db zero rest h u e fewer (inr (inl no_chunk)) = absurd (omega (arith, no_chunk))
step-Ends fuel db zero rest h u e fewer (inr (inr trimmed)) =
    (0, db, evict_all-zero fuel db e, trimmed, λ k s. assumption)
step-Ends fuel db (suc n) rest h u e fewer why =
    let (more, after, f, trimmed, keeps) =
      rest (step fuel db).1 (omega (arith, h, fewer)) (IsUnique-step fuel db u) in
    (
      suc n + more,
      after,
      evict_all-suc fuel db n more after e f,
      trimmed,
      λ k s.
          let kept = evict_keeps max_cache_bytes evict_chunk db k u s in
          KeepsBook-trans kept (keeps k (ground (arith, kept.shelf))),
    )

pub evict_all-Ends :
    (fuel : ℕ) (db : Database) → length db.books < fuel → IsUnique db.books → Ends fuel db
evict_all-Ends zero db h u = absurd (omega (arith, h))
evict_all-Ends (suc fuel) db h u =
    let (n, e, fewer, why) = evict_progress max_cache_bytes evict_chunk db in
    step-Ends fuel db n (evict_all-Ends fuel) h u e fewer why
