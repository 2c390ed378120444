-- ===== src/Store/Consistency/Deletes.antt =====
-- native/langhuan/src/db/schema.rs: deletions with their cascades keep the constraints.
use langhuan.Prelude.{Eq, ◌≡◌, Bool, true, false, Text, text_eq, same, arith}
use langhuan.Prelude.Table.{Table, has, erase, lookup-erase_key}
use langhuan.Prelude.Table.Keys.{IsUnique-erase, lookup-erase}
use langhuan.Prelude.Table.Child.{IsChild, IsChild-erase}
use langhuan.Store.Rows.{
  BookKey, book_key_eq, chapter_key_eq, feed_key_eq, BookRow, BookmarkRow, Database,
}
use langhuan.Store.Cascade.{goes, delete_books, delete_feed_rows}
use langhuan.Store.Consistency.{IsConsistent, BookmarksHaveFeeds}

has_of_erase_key :
    {K V : Type 0} ⦃e : Eq K⦄ (q : K → Bool) (k : K) (t : Table K V)
    → has k (erase (λ j _. q j) t) ≡ true
    → (q k ≡ false) × (has k t ≡ true)
has_of_erase_key q k t i = ground (arith, lookup-erase_key q k t)

-- A deletion of bookmarks keeps the others with their feeds.
pub BookmarksHaveFeeds-erase :
    (q : Text → BookmarkRow → Bool) (db : Database)
    → IsConsistent db
    → BookmarksHaveFeeds db.feeds (erase q db.bookmarks)
BookmarksHaveFeeds-erase q db h id row i =
    h.bookmarks_feed id row (ground (arith, lookup-erase q id db.bookmarks h.bookmarks_keys))

module _ (p : BookKey → BookRow → Bool) (db : Database) (h : IsConsistent db) where
  -- A book that does not go is still there.
  stays :
      (k : BookKey) → has k db.books ≡ true → goes p db k ≡ false → has k (erase p db.books) ≡ true
  unfolding goes
  stays k i n = ground (arith, lookup-erase p k db.books h.books_keys)

  -- The rows that a cascade leaves have a book.
  left :
      {K V : Type 0} ⦃e : Eq K⦄ (book : K → BookKey) (t : Table K V)
      → IsChild (λ k. has (book k) db.books) t
      → IsChild (λ k. has (book k) (erase p db.books)) (erase (λ k _. goes p db (book k)) t)
  left book t c k i =
      let (n, here) = has_of_erase_key (λ j. goes p db (book j)) k t i in
      stays (book k) (c k here) n

  pub delete_books-IsConsistent : IsConsistent (delete_books p db)
  unfolding delete_books
  delete_books-IsConsistent =
      let books = IsUnique-erase p db.books h.books_keys in
      let covers = IsUnique-erase (λ k _. goes p db k) db.covers h.covers_keys in
      let shelf = IsUnique-erase (λ k _. goes p db k) db.bookshelf h.shelf_keys in
      let lists = IsUnique-erase (λ k _. goes p db k) db.chapter_lists h.lists_keys in
      let chapters = IsUnique-erase (λ k _. goes p db k.book) db.chapters h.chapters_keys in
      let feed = IsChild-erase (λ k. has k.feed_id db.feeds) p db.books h.books_feed in
      let covers' = left (λ k. k) db.covers h.covers_book in
      let shelf' = left (λ k. k) db.bookshelf h.shelf_book in
      let lists' = left (λ k. k) db.chapter_lists h.lists_book in
      let chapters' = left (λ k. k.book) db.chapters h.chapters_book in
      assumption
        (h, books, covers, shelf, lists, chapters, feed, covers', shelf', lists', chapters')

module _ (feed_id : Text) (db : Database) (h : IsConsistent db) where
  -- The rows of the other feeds keep their feed.
  others :
      {K V : Type 0} ⦃e : Eq K⦄ (feed : K → Text) (t : Table K V)
      → IsChild (λ k. has (feed k) db.feeds) t
      → IsChild
          (λ k. has (feed k) (erase (λ id _. same id feed_id) db.feeds))
          (erase (λ k _. same (feed k) feed_id) t)
  others feed t c k i =
      let (n, here) = has_of_erase_key (λ j. same (feed j) feed_id) k t i in
      ground (arith, c k here, lookup-erase_key (λ id. same id feed_id) (feed k) db.feeds)

  other_bookmarks :
      BookmarksHaveFeeds
        (erase (λ id _. same id feed_id) db.feeds)
        (erase (λ _ row. same row.book.feed_id feed_id) db.bookmarks)
  other_bookmarks id row i =
      let e = lookup-erase (λ _ r. same r.book.feed_id feed_id) id db.bookmarks h.bookmarks_keys in
      ground (
        arith,
        e,
        h.bookmarks_feed id row,
        lookup-erase_key (λ f. same f feed_id) row.book.feed_id db.feeds,
      )

  pub delete_feed_rows-IsConsistent : IsConsistent (delete_feed_rows feed_id db)
  unfolding delete_feed_rows
  delete_feed_rows-IsConsistent =
      let d = delete_books-IsConsistent (λ k _. same k.feed_id feed_id) db h in
      let feeds = IsUnique-erase (λ id _. same id feed_id) db.feeds h.feeds_keys in
      let scripts = IsUnique-erase (λ k _. same k.feed_id feed_id) db.feed_scripts h.scripts_keys in
      let progress =
        IsUnique-erase (λ k _. same k.feed_id feed_id) db.reading_progress h.progress_keys in
      let bookmarks =
        IsUnique-erase (λ _ row. same row.book.feed_id feed_id) db.bookmarks h.bookmarks_keys in
      let auth = IsUnique-erase (λ id _. same id feed_id) db.auth h.auth_keys in
      let storage = IsUnique-erase (λ k _. same k.feed_id feed_id) db.feed_storage h.storage_keys in
      let scripts' = others (λ k. k.feed_id) db.feed_scripts h.scripts_feed in
      let books' = others (λ k. k.feed_id) db.books h.books_feed in
      let progress' = others (λ k. k.feed_id) db.reading_progress h.progress_feed in
      let auth' = others (λ id. id) db.auth h.auth_feed in
      let storage' = others (λ k. k.feed_id) db.feed_storage h.storage_feed in
      assumption (
        h, d, feeds, scripts, progress, bookmarks, auth, storage, scripts', books', progress',
        auth', storage', other_bookmarks,
      )
