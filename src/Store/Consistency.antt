-- ===== src/Store/Consistency.antt =====
-- native/langhuan/src/db/schema.rs: what the constraints of the schema promise of a database.
pub mod Deletes
pub mod Operations
pub mod Reachable
use langhuan.Prelude.{
  ◌≡◌, refl, Bool, true, false, Option, none, some, [], ◌∷◌, Text, text_eq, arith,
}
use langhuan.Prelude.Table.{Table, lookup, has}
use langhuan.Prelude.Table.Keys.{IsUnique}
use langhuan.Prelude.Table.Child.{IsChild}
use langhuan.Store.Rows.{
  BookKey, book_key_eq, ChapterKey, chapter_key_eq, FeedKey, feed_key_eq, FeedRow, ScriptRow,
  BookRow, CoverRow, ShelfRow, ProgressRow, BookmarkRow, AuthRow, PayloadRow, Database, fresh,
}

abbrev pub has_feed : Database → Text → Bool
has_feed db id = has id db.feeds

abbrev pub has_book : Database → BookKey → Bool
has_book db k = has k db.books

-- A bookmark is keyed by its own id, so its feed stands in its row.
abbrev pub BookmarksHaveFeeds : Table Text FeedRow → Table Text BookmarkRow → Type 0
BookmarksHaveFeeds feeds bookmarks =
    (id : Text) (row : BookmarkRow)
    → lookup id bookmarks ≡ some row
    → has row.book.feed_id feeds ≡ true

-- The PRIMARY KEYs and the FOREIGN KEYs hold.
pub record IsConsistent (db : Database) : Type 0 where
  pub feeds_keys : IsUnique db.feeds
  pub scripts_keys : IsUnique db.feed_scripts
  pub books_keys : IsUnique db.books
  pub covers_keys : IsUnique db.covers
  pub shelf_keys : IsUnique db.bookshelf
  pub progress_keys : IsUnique db.reading_progress
  pub bookmarks_keys : IsUnique db.bookmarks
  pub auth_keys : IsUnique db.auth
  pub lists_keys : IsUnique db.chapter_lists
  pub chapters_keys : IsUnique db.chapters
  pub storage_keys : IsUnique db.feed_storage
  pub meta_keys : IsUnique db.meta
  pub scripts_feed : IsChild (λ k. has_feed db k.feed_id) db.feed_scripts
  pub books_feed : IsChild (λ k. has_feed db k.feed_id) db.books
  pub progress_feed : IsChild (λ k. has_feed db k.feed_id) db.reading_progress
  pub bookmarks_feed : BookmarksHaveFeeds db.feeds db.bookmarks
  pub auth_feed : IsChild (has_feed db) db.auth
  pub storage_feed : IsChild (λ k. has_feed db k.feed_id) db.feed_storage
  pub covers_book : IsChild (has_book db) db.covers
  pub shelf_book : IsChild (has_book db) db.bookshelf
  pub lists_book : IsChild (has_book db) db.chapter_lists
  pub chapters_book : IsChild (λ k. has_book db k.book) db.chapters

module _ {db : Database} (h : IsConsistent db) where
  pub put_scripts :
      (t : Table FeedKey ScriptRow)
      → IsUnique t
      → IsChild (λ k. has_feed db k.feed_id) t
      → IsConsistent (record db { feed_scripts = t })
  put_scripts t u c = assumption h

  pub put_covers :
      (t : Table BookKey CoverRow)
      → IsUnique t
      → IsChild (has_book db) t
      → IsConsistent (record db { covers = t })
  put_covers t u c = assumption h

  pub put_shelf :
      (t : Table BookKey ShelfRow)
      → IsUnique t
      → IsChild (has_book db) t
      → IsConsistent (record db { bookshelf = t })
  put_shelf t u c = assumption h

  pub put_progress :
      (t : Table BookKey ProgressRow)
      → IsUnique t
      → IsChild (λ k. has_feed db k.feed_id) t
      → IsConsistent (record db { reading_progress = t })
  put_progress t u c = assumption h

  pub put_auth :
      (t : Table Text AuthRow)
      → IsUnique t
      → IsChild (has_feed db) t
      → IsConsistent (record db { auth = t })
  put_auth t u c = assumption h

  pub put_lists :
      (t : Table BookKey PayloadRow)
      → IsUnique t
      → IsChild (has_book db) t
      → IsConsistent (record db { chapter_lists = t })
  put_lists t u c = assumption h

  pub put_chapters :
      (t : Table ChapterKey PayloadRow)
      → IsUnique t
      → IsChild (λ k. has_book db k.book) t
      → IsConsistent (record db { chapters = t })
  put_chapters t u c = assumption h

  pub put_storage :
      (t : Table FeedKey Text)
      → IsUnique t
      → IsChild (λ k. has_feed db k.feed_id) t
      → IsConsistent (record db { feed_storage = t })
  put_storage t u c = assumption h

  pub put_bookmarks :
      (t : Table Text BookmarkRow)
      → IsUnique t
      → BookmarksHaveFeeds db.feeds t
      → IsConsistent (record db { bookmarks = t })
  put_bookmarks t u c = assumption h

  pub put_meta : (t : Table Text Text) → IsUnique t → IsConsistent (record db { meta = t })
  put_meta t u = assumption h

  -- A new `books` table that still has every book.
  pub put_books :
      (t : Table BookKey BookRow)
      → IsUnique t
      → IsChild (λ k. has_feed db k.feed_id) t
      → ((k : BookKey) → has_book db k ≡ true → has k t ≡ true)
      → IsConsistent (record db { books = t })
  put_books t u c grows =
      let db' : Database = record db { books = t } in
      let covers' : IsChild (has_book db') db.covers = λ k i. grows k (h.covers_book k i) in
      let shelf' : IsChild (has_book db') db.bookshelf = λ k i. grows k (h.shelf_book k i) in
      let lists' : IsChild (has_book db') db.chapter_lists = λ k i. grows k (h.lists_book k i) in
      let chapters' : IsChild (λ k. has_book db' k.book) db.chapters =
        λ k i. grows k.book (h.chapters_book k i) in
      assumption (h, covers', shelf', lists', chapters')

  -- A new `feeds` table that still has every feed.
  pub put_feeds :
      (t : Table Text FeedRow)
      → IsUnique t
      → ((id : Text) → has_feed db id ≡ true → has id t ≡ true)
      → IsConsistent (record db { feeds = t })
  put_feeds t u grows =
      let db' : Database = record db { feeds = t } in
      let scripts' : IsChild (λ k. has_feed db' k.feed_id) db.feed_scripts =
        λ k i. grows k.feed_id (h.scripts_feed k i) in
      let books' : IsChild (λ k. has_feed db' k.feed_id) db.books =
        λ k i. grows k.feed_id (h.books_feed k i) in
      let progress' : IsChild (λ k. has_feed db' k.feed_id) db.reading_progress =
        λ k i. grows k.feed_id (h.progress_feed k i) in
      let bookmarks' : BookmarksHaveFeeds db'.feeds db.bookmarks =
        λ id row i. grows row.book.feed_id (h.bookmarks_feed id row i) in
      let auth' : IsChild (has_feed db') db.auth = λ k i. grows k (h.auth_feed k i) in
      let storage' : IsChild (λ k. has_feed db' k.feed_id) db.feed_storage =
        λ k i. grows k.feed_id (h.storage_feed k i) in
      assumption (h, scripts', books', progress', bookmarks', auth', storage')

pub fresh-IsConsistent : IsConsistent fresh
unfolding lookup
fresh-IsConsistent = record {
  feeds_keys = tt;
  scripts_keys = tt;
  books_keys = tt;
  covers_keys = tt;
  shelf_keys = tt;
  progress_keys = tt;
  bookmarks_keys = tt;
  auth_keys = tt;
  lists_keys = tt;
  chapters_keys = tt;
  storage_keys = tt;
  meta_keys = tt;
  scripts_feed = λ k i. absurd (cc);
  books_feed = λ k i. absurd (cc);
  progress_feed = λ k i. absurd (cc);
  bookmarks_feed = λ id row i. absurd (cc);
  auth_feed = λ k i. absurd (cc);
  storage_feed = λ k i. absurd (cc);
  covers_book = λ k i. absurd (cc);
  shelf_book = λ k i. absurd (cc);
  lists_book = λ k i. absurd (cc);
  chapters_book = λ k i. absurd (cc);
}
