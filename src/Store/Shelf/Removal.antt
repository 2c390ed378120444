-- ===== src/Store/Shelf/Removal.antt =====
-- native/langhuan/src/db/repo/bookshelf.rs: what `remove_book` takes away, and what it leaves.
use langhuan.Prelude.{
  ◌≡◌, ◌≢◌, refl, true, false, none, some, Text, text_eq, same, same_iff, same_refl, same-eq_false,
  arith, ◌∙◌, Bool-cases, inl, inr,
}
use langhuan.Prelude.Table.{lookup, has, erase, lookup-erase_key, survivor}
use langhuan.Prelude.Table.Keys.{lookup-erase}
use langhuan.Error.{ok}
use langhuan.Store.Rows.{BookKey, book_key_eq, BookmarkRow, Database}
use langhuan.Store.Cascade.{goes, delete_books}
use langhuan.Store.Cascade.Kept.{
  KeepsBook, KeepsBook-trans, KeepsBook-delete_books, HasNoCacheOf, HasNoCacheOf-delete_books,
}
use langhuan.Store.Shelf.{purge_book, remove_book}
use langhuan.Store.Consistency.{IsConsistent}

abbrev unshelved : BookKey → Database → Database
unshelved k db = record db { bookshelf = erase (λ j _. same j k) db.bookshelf }

module _ (k : BookKey) (db : Database) (h : IsConsistent db) where
  goes-shelved : has k db.bookshelf ≡ true → goes (λ j _. same j k) (unshelved k db) k ≡ true
  unfolding goes
  goes-shelved s = ground (arith, h.shelf_book k s, same_refl k)

  -- In a consistent database, removing a shelved book leaves nothing of it: no row of it in `books`
  -- or below, no progress, and no bookmark.
  pub remove_book_purges :
      has k db.bookshelf ≡ true
      → ((remove_book k db).0 ≡ ok true)
        × HasNoCacheOf k (remove_book k db).1
        × (lookup k (remove_book k db).1.reading_progress ≡ none)
        × ((id : Text) (row : BookmarkRow)
            → lookup id (remove_book k db).1.bookmarks ≡ some row
            → row.book ≢ k)
  unfolding remove_book purge_book delete_books
  remove_book_purges s =
      let gone =
        HasNoCacheOf-delete_books (λ j _. same j k) k (unshelved k db) h.books_keys
          (goes-shelved s) in
      let progress : lookup k (erase (λ j _. same j k) db.reading_progress) ≡ none =
        lookup-erase_key (λ j. same j k) k db.reading_progress ∙ rw (same_refl k) refl in
      rw s (
        refl,
        assumption gone,
        progress,
        λ id row e same_book. absurd (
            ground
              (arith, survivor (λ _ r. same r.book k) id row db.bookmarks e, same_iff row.book k)),
      )

  goes-other : (j : BookKey) → j ≢ k → goes (λ i _. same i k) (unshelved k db) j ≡ false
  unfolding goes
  goes-other j far = ground (arith, same-eq_false j k far)

  KeepsBook-unshelved : (j : BookKey) → j ≢ k → KeepsBook j db (unshelved k db)
  KeepsBook-unshelved j far = record {
    book = refl;
    cover = refl;
    shelf = lookup-erase_key (λ i. same i k) j db.bookshelf ∙ rw (same-eq_false j k far) refl;
    progress = refl;
    list = refl;
    chapter = λ id. refl;
    bookmark = λ id row e f. f;
  }

  KeepsBook-purge_book :
      (j : BookKey) → j ≢ k → KeepsBook j (unshelved k db) (purge_book k (unshelved k db))
  unfolding purge_book delete_books
  KeepsBook-purge_book j far =
      let cache =
        KeepsBook-delete_books (λ i _. same i k) j (unshelved k db) h.books_keys
          (goes-other j far) in
      record {
        book = cache.book;
        cover = cache.cover;
        shelf = cache.shelf;
        progress =
            lookup-erase_key (λ i. same i k) j db.reading_progress
            ∙ rw (same-eq_false j k far) refl;
        list = cache.list;
        chapter = cache.chapter;
        bookmark = λ id row of_j e. ground (
          arith,
          lookup-erase (λ _ r. same r.book k) id db.bookmarks h.bookmarks_keys,
          same_iff row.book k,
          far,
        );
      }

  -- In a consistent database, removing a book leaves all that there is of another book.
  pub remove_book_keeps : (j : BookKey) → j ≢ k → KeepsBook j db (remove_book k db).1
  unfolding remove_book
  remove_book_keeps j far = elim (Bool-cases (has k db.bookshelf)) [
    | inl s ↦ rw s (KeepsBook-trans (KeepsBook-unshelved j far) (KeepsBook-purge_book j far))
    | inr s ↦ rw s (KeepsBook-unshelved j far)
  ]
