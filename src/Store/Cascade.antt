-- ===== src/Store/Cascade.antt =====
-- native/langhuan/src/db/schema.rs: ON DELETE CASCADE, from `books` and from `feeds`.
pub mod Kept
use langhuan.Prelude.{Bool, false, none, some, Text, text_eq, same}
use langhuan.Prelude.Table.{lookup, erase}
use langhuan.Store.Rows.{BookKey, book_key_eq, BookRow, Database}

-- Whether the row of `books` at a key is deleted by a condition.
unfoldable pub goes : (BookKey → BookRow → Bool) → Database → BookKey → Bool
goes p db k = elim (lookup k db.books) [ none ↦ false | some row ↦ p k row ]

-- `DELETE FROM books WHERE p`, which takes the shelf entries, covers, chapter lists and chapters of
-- the deleted books along.
unfoldable pub delete_books : (BookKey → BookRow → Bool) → Database → Database
delete_books p db = record db {
  books = erase p db.books;
  covers = erase (λ k _. goes p db k) db.covers;
  bookshelf = erase (λ k _. goes p db k) db.bookshelf;
  chapter_lists = erase (λ k _. goes p db k) db.chapter_lists;
  chapters = erase (λ k _. goes p db k.book) db.chapters;
}

-- `DELETE FROM feeds WHERE id = ?1`, which takes every row of the feed along.
unfoldable pub delete_feed_rows : Text → Database → Database
unfolding delete_books
delete_feed_rows feed_id db =
    let db' = delete_books (λ k _. same k.feed_id feed_id) db in
    record db' {
      feeds = erase (λ id _. same id feed_id) db.feeds;
      feed_scripts = erase (λ k _. same k.feed_id feed_id) db.feed_scripts;
      reading_progress = erase (λ k _. same k.feed_id feed_id) db.reading_progress;
      bookmarks = erase (λ _ row. same row.book.feed_id feed_id) db.bookmarks;
      auth = erase (λ id _. same id feed_id) db.auth;
      feed_storage = erase (λ k _. same k.feed_id feed_id) db.feed_storage;
    }
