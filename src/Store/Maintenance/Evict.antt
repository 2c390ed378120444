-- ===== src/Store/Maintenance/Evict.antt =====
-- native/langhuan/src/db/repo/maintenance.rs: the progress of `evict_oldest_unprotected`.
use langhuan.Prelude.{
  ℕ, ◌+◌, ◌<◌, ◌≤◌, ◌≡◌, ◌⊎◌, refl, true, false, ◌&&◌, none, some, text_eq, same_iff, arith,
  Bool-cases, inl, inr, ltb, leb, length,
}
use langhuan.Prelude.Order.{text_ltb_irrefl, text_ltb_trans}
use langhuan.Prelude.Table.{lookup, has, count, count-erase}
use langhuan.Prelude.Table.Least.{least, count_mono}
use langhuan.Prelude.Table.Keys.{IsUnique, lookup-erase}
use langhuan.Error.{ok}
use langhuan.Store.Rows.{BookKey, book_key_eq, BookRow, Database}
use langhuan.Store.Cascade.{goes, delete_books}
use langhuan.Store.Cascade.Kept.{KeepsBook, KeepsBook-delete_books, delete_books-none}
use langhuan.Store.Maintenance.{
  cache_total_bytes, is_unshelved, is_older, books_before, is_victim, evict_oldest_unprotected,
}

is_older_irrefl : (k : BookKey) (row : BookRow) → is_older k row k row ≡ false
unfolding is_older
is_older_irrefl k row = ground (arith, text_ltb_irrefl k.feed_id, text_ltb_irrefl k.book_id)

is_older_trans :
    (i : BookKey) (u : BookRow) (j : BookKey) (v : BookRow) (k : BookKey) (w : BookRow)
    → is_older i u j v ≡ true
    → is_older j v k w ≡ true
    → is_older i u k w ≡ true
unfolding is_older
is_older_trans i u j v k w f g = ground (
  arith,
  text_ltb_trans i.feed_id j.feed_id k.feed_id,
  text_ltb_trans i.book_id j.book_id k.book_id,
  same_iff i.feed_id j.feed_id,
  same_iff j.feed_id k.feed_id,
  same_iff i.feed_id k.feed_id,
)

-- How many books are on no shelf.
abbrev pub unshelved_count : Database → ℕ
unshelved_count db = count (λ k _. is_unshelved db k) db.books

module _ (cap_bytes chunk : ℕ) (db : Database) where
  -- The number that an eviction answers is the number of the books that are gone after it, and it
  -- is 0 only if none was allowed, the cache is within the cap, or every book is on the shelf.
  pub evict_progress :
      (evicted : ℕ) × ((evict_oldest_unprotected cap_bytes chunk db).0 ≡ ok evicted)
      × (length (evict_oldest_unprotected cap_bytes chunk db).1.books + evicted ≡ length db.books)
      × ((0 < evicted)
          ⊎ ((chunk ≡ 0) ⊎ ((cache_total_bytes db ≤ cap_bytes) ⊎ (unshelved_count db ≡ 0))))
  unfolding evict_oldest_unprotected delete_books is_victim
  evict_progress = elim (Bool-cases (leb (cache_total_bytes db) cap_bytes)) [
    | inl fits ↦ rw fits (0, refl, ground arith, inr (inr (inl (ground arith))))
    | inr over ↦ rw over (
      count (is_victim chunk db) db.books,
      refl,
      count-erase (is_victim chunk db) db.books,
      elim (least (λ k _. is_unshelved db k) is_older is_older_irrefl is_older_trans db.books) [
        | inl shelved ↦ inr (inr (inr shelved))
        | inr (k, row, free, first, counted) ↦ elim (Bool-cases (ltb 0 chunk)) [
          | inl some_allowed ↦ inl (counted (is_victim chunk db) (ground arith))
          | inr none_allowed ↦ inr (inl (ground arith))
        ]
      ],
    )
  ]

  pub evict_nothing :
      (evict_oldest_unprotected cap_bytes chunk db).0 ≡ ok 0
      → (evict_oldest_unprotected cap_bytes chunk db).1 ≡ db
  unfolding evict_oldest_unprotected
  evict_nothing h = elim (Bool-cases (leb (cache_total_bytes db) cap_bytes)) [
    | inl fits ↦ rw fits refl
    | inr over ↦ rw over (delete_books-none (is_victim chunk db) db (ground arith))
  ]

  pub evict_keeps :
      (k : BookKey)
      → IsUnique db.books
      → has k db.bookshelf ≡ true
      → KeepsBook k db (evict_oldest_unprotected cap_bytes chunk db).1
  unfolding evict_oldest_unprotected goes is_victim
  evict_keeps k h s = elim (Bool-cases (leb (cache_total_bytes db) cap_bytes)) [
    | inl fits ↦ rw fits (assumption)
    | inr over ↦ rw over (KeepsBook-delete_books (is_victim chunk db) k db h (ground arith))
  ]

  -- Where each book has one row, of two books that are not on the shelf, the one that an eviction
  -- keeps does not come before the one that it takes, in the order of last use and then of the
  -- keys.
  pub evict_oldest_first :
      (gone stays : BookKey) (row row' : BookRow)
      → IsUnique db.books
      → has stays db.bookshelf ≡ false
      → lookup gone db.books ≡ some row
      → lookup stays db.books ≡ some row'
      → lookup gone (evict_oldest_unprotected cap_bytes chunk db).1.books ≡ none
      → lookup stays (evict_oldest_unprotected cap_bytes chunk db).1.books ≡ some row'
      → is_older stays row' gone row ≡ false
  unfolding evict_oldest_unprotected delete_books is_victim
  evict_oldest_first gone stays row row' h free e e' g g' =
      elim (Bool-cases (leb (cache_total_bytes db) cap_bytes)) [
        | inl fits ↦ absurd (ground arith)
        | inr over ↦ elim (Bool-cases (is_older stays row' gone row)) [
          | inr behind ↦ behind
          | inl before ↦
              let rank : books_before db stays row' ≤ books_before db gone row =
                count_mono (λ i u. is_unshelved db i && is_older i u stays row')
                  (λ i u. is_unshelved db i && is_older i u gone row) db.books
                  (λ i u p. ground (arith, is_older_trans i u stays row' gone row)) in
              absurd (
                ground (
                  arith,
                  lookup-erase (is_victim chunk db) gone db.books h,
                  lookup-erase (is_victim chunk db) stays db.books h,
                ))
        ]
      ]
