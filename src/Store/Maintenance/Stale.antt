-- ===== src/Store/Maintenance/Stale.antt =====
-- native/langhuan/src/db/repo/maintenance.rs: what `stale_cleanup` keeps and what it removes.
use langhuan.Prelude.{ℕ, ◌<◌, ◌≡◌, refl, true, false, some, text_eq, arith, subst, sym, lt→ltb}
use langhuan.Prelude.Table.{lookup, has}
use langhuan.Prelude.Table.Keys.{lookup-erase}
use langhuan.Store.Rows.{BookKey, book_key_eq, chapter_key_eq, BookRow, Database}
use langhuan.Store.Cascade.{goes, delete_books}
use langhuan.Store.Cascade.Kept.{
  chapter_of, KeepsBook, KeepsBook-trans, KeepsBook-delete_books, HasNoCacheOf,
  HasNoCacheOf-delete_books,
}
use langhuan.Store.UserData.{is_stale_progress}
use langhuan.Store.Maintenance.{
  is_stale_chapter, is_stale_list, is_stale_cover_row, is_stale_book, is_stale_bookmark,
  drop_stale_caches, drop_stale_books, drop_stale_user_data, stale_cleanup,
}
use langhuan.Store.Consistency.{IsConsistent}

module _ (cutoff_ms : ℕ) (k : BookKey) (db : Database) (h : IsConsistent db) where
  abbrev swept : Database
  swept = (drop_stale_caches cutoff_ms db).1

  KeepsBook-drop_stale_caches : has k db.bookshelf ≡ true → KeepsBook k db swept
  unfolding drop_stale_caches
  KeepsBook-drop_stale_caches s = record {
    book = refl;
    cover =
        ground (arith, lookup-erase (is_stale_cover_row cutoff_ms db) k db.covers h.covers_keys);
    shelf = refl;
    progress = refl;
    list =
        ground (arith, lookup-erase (is_stale_list cutoff_ms db) k db.chapter_lists h.lists_keys);
    chapter = λ id. ground (
      arith,
      lookup-erase (is_stale_chapter cutoff_ms db) (chapter_of k id) db.chapters h.chapters_keys,
    );
    bookmark = λ id row e f. f;
  }

  abbrev weeded : Database
  weeded = (drop_stale_books cutoff_ms swept).1

  KeepsBook-drop_stale_books : has k db.bookshelf ≡ true → KeepsBook k swept weeded
  unfolding drop_stale_books drop_stale_caches goes
  KeepsBook-drop_stale_books s =
      KeepsBook-delete_books (is_stale_book cutoff_ms swept) k swept h.books_keys (ground arith)

  KeepsBook-drop_stale_user_data :
      has k db.bookshelf ≡ true → KeepsBook k weeded (drop_stale_user_data cutoff_ms weeded).1
  unfolding drop_stale_user_data drop_stale_books drop_stale_caches delete_books goes
  KeepsBook-drop_stale_user_data s =
      let shelf : lookup k weeded.bookshelf ≡ lookup k db.bookshelf =
        (KeepsBook-drop_stale_books s).shelf in
      record {
        book = refl;
        cover = refl;
        shelf = refl;
        progress = ground (
          arith,
          lookup-erase (is_stale_progress cutoff_ms weeded) k db.reading_progress h.progress_keys,
        );
        list = refl;
        chapter = λ id. refl;
        bookmark = λ id row e f.
            let on_shelf : has row.book weeded.bookshelf ≡ true =
              subst (λ j. has j weeded.bookshelf ≡ true) (sym e) (ground (arith, shelf)) in
            ground (
              arith,
              lookup-erase (is_stale_bookmark cutoff_ms weeded) id db.bookmarks h.bookmarks_keys,
            );
      }

  -- A stale cleanup of a consistent database keeps all that there is of a book on the shelf,
  -- however old it is.
  pub stale_cleanup_keeps :
      has k db.bookshelf ≡ true → KeepsBook k db (stale_cleanup cutoff_ms db).1
  unfolding stale_cleanup
  stale_cleanup_keeps s =
      KeepsBook-trans (KeepsBook-drop_stale_caches s)
        (KeepsBook-trans (KeepsBook-drop_stale_books s) (KeepsBook-drop_stale_user_data s))

  -- A stale cleanup of a consistent database leaves no row of a book that is not on the shelf and
  -- was last used before the cutoff, nor of its cover, its chapter list and its chapters.
  pub stale_cleanup_drops :
      (row : BookRow)
      → has k db.bookshelf ≡ false
      → lookup k db.books ≡ some row
      → row.last_used_at_ms < cutoff_ms
      → HasNoCacheOf k (stale_cleanup cutoff_ms db).1
  unfolding stale_cleanup drop_stale_books drop_stale_user_data drop_stale_caches goes
  stale_cleanup_drops row s e old =
      let gone =
        HasNoCacheOf-delete_books (is_stale_book cutoff_ms swept) k swept h.books_keys
          (ground (arith, lt→ltb row.last_used_at_ms cutoff_ms old)) in
      assumption gone
