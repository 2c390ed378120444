-- ===== src/Store/Feeds/Removal.antt =====
-- native/langhuan/src/db/repo/feeds.rs: what `delete_feed` takes away, and what it leaves.
use langhuan.Prelude.{
  ◌≡◌, ◌≢◌, refl, sym, Bool, false, none, some, Eq, Text, text_eq, same, same_refl, same-eq_false,
  arith, ◌∙◌, Option-cases, inl, inr,
}
use langhuan.Prelude.Table.{Table, lookup, has, lookup-erase_key}
use langhuan.Prelude.Table.Keys.{lookup-erase}
use langhuan.Prelude.Table.Child.{IsChild}
use langhuan.Error.{ok}
use langhuan.Store.Rows.{
  BookKey, book_key_eq, FeedKey, feed_key_eq, ChapterKey, chapter_key_eq, BookmarkRow, Database,
}
use langhuan.Store.Cascade.{goes, delete_books, delete_feed_rows}
use langhuan.Store.Cascade.Kept.{KeepsBook, KeepsBook-delete_books}
use langhuan.Store.Feeds.{delete_feed}
use langhuan.Store.Consistency.{IsConsistent}
use langhuan.Store.Consistency.Deletes.{delete_feed_rows-IsConsistent}

-- A database without a row of a feed, or of one of its books.
pub record HasNothingOf (feed_id : Text) (db : Database) : Type 0 where
  pub no_feed : lookup feed_id db.feeds ≡ none
  pub no_auth : lookup feed_id db.auth ≡ none
  pub no_script : (k : FeedKey) → k.feed_id ≡ feed_id → lookup k db.feed_scripts ≡ none
  pub no_storage : (k : FeedKey) → k.feed_id ≡ feed_id → lookup k db.feed_storage ≡ none
  pub no_book : (k : BookKey) → k.feed_id ≡ feed_id → lookup k db.books ≡ none
  pub no_progress : (k : BookKey) → k.feed_id ≡ feed_id → lookup k db.reading_progress ≡ none
  pub no_cover : (k : BookKey) → k.feed_id ≡ feed_id → lookup k db.covers ≡ none
  pub no_shelf : (k : BookKey) → k.feed_id ≡ feed_id → lookup k db.bookshelf ≡ none
  pub no_list : (k : BookKey) → k.feed_id ≡ feed_id → lookup k db.chapter_lists ≡ none
  pub no_chapter : (k : ChapterKey) → k.book.feed_id ≡ feed_id → lookup k db.chapters ≡ none
  pub no_bookmark :
      (id : Text) (row : BookmarkRow)
      → lookup id db.bookmarks ≡ some row
      → row.book.feed_id ≢ feed_id

has-absent {ℓ κ} :
    {K : Type ℓ} {V : Type κ} ⦃e : Eq K⦄ (k : K) (t : Table K V)
    → lookup k t ≡ none
    → has k t ≡ false
has-absent k t gone = ground (arith, gone)

-- A child without its parent is not there.
orphan {ℓ κ} :
    {K : Type ℓ} {V : Type κ} ⦃e : Eq K⦄ (parent : K → Bool) (k : K) (t : Table K V)
    → IsChild parent t
    → parent k ≡ false
    → lookup k t ≡ none
orphan parent k t c gone = elim (Option-cases (lookup k t)) [
  | inl e ↦ e
  | inr (v, here) ↦ absurd (ground (arith, c k))
]

-- In a consistent database a feed that is not there has left nothing.
HasNothingOf-no_feed :
    (feed_id : Text) (db : Database)
    → IsConsistent db
    → lookup feed_id db.feeds ≡ none
    → HasNothingOf feed_id db
HasNothingOf-no_feed feed_id db h gone =
    let missing = has-absent feed_id db.feeds gone in
    let book : (k : BookKey) → k.feed_id ≡ feed_id → lookup k db.books ≡ none =
      λ k e. orphan _ k db.books h.books_feed (rw e missing) in
    record {
      no_feed = gone;
      no_auth = orphan _ feed_id db.auth h.auth_feed missing;
      no_script = λ k e. orphan _ k db.feed_scripts h.scripts_feed (rw e missing);
      no_storage = λ k e. orphan _ k db.feed_storage h.storage_feed (rw e missing);
      no_book = book;
      no_progress = λ k e. orphan _ k db.reading_progress h.progress_feed (rw e missing);
      no_cover = λ k e. orphan _ k db.covers h.covers_book (has-absent k db.books (book k e));
      no_shelf = λ k e. orphan _ k db.bookshelf h.shelf_book (has-absent k db.books (book k e));
      no_list = λ k e. orphan _ k db.chapter_lists h.lists_book (has-absent k db.books (book k e));
      no_chapter = λ k e.
          orphan _ k db.chapters h.chapters_book (has-absent k.book db.books (book k.book e));
      no_bookmark =
          λ id row there e. absurd (ground (arith, h.bookmarks_feed id row there, gone, e));
    }

-- The second database has of a feed and of its books all that the first one has.
pub record KeepsFeed (feed_id : Text) (db db' : Database) : Type 0 where
  pub feed : lookup feed_id db'.feeds ≡ lookup feed_id db.feeds
  pub auth : lookup feed_id db'.auth ≡ lookup feed_id db.auth
  pub script :
      (k : FeedKey) → k.feed_id ≡ feed_id → lookup k db'.feed_scripts ≡ lookup k db.feed_scripts
  pub storage :
      (k : FeedKey) → k.feed_id ≡ feed_id → lookup k db'.feed_storage ≡ lookup k db.feed_storage
  pub books : (k : BookKey) → k.feed_id ≡ feed_id → KeepsBook k db db'

module _ (feed_id : Text) (db : Database) (h : IsConsistent db) where
  goes-other_feed :
      (k : BookKey) → k.feed_id ≢ feed_id → goes (λ j _. same j.feed_id feed_id) db k ≡ false
  unfolding goes
  goes-other_feed k far = ground (arith, same-eq_false k.feed_id feed_id far)

  KeepsBook-delete_feed_rows :
      (k : BookKey) → k.feed_id ≢ feed_id → KeepsBook k db (delete_feed_rows feed_id db)
  unfolding delete_feed_rows delete_books
  KeepsBook-delete_feed_rows k far =
      let cache =
        KeepsBook-delete_books (λ j _. same j.feed_id feed_id) k db h.books_keys
          (goes-other_feed k far) in
      record {
        book = cache.book;
        cover = cache.cover;
        shelf = cache.shelf;
        progress =
            lookup-erase_key (λ j. same j.feed_id feed_id) k db.reading_progress
            ∙ rw (same-eq_false k.feed_id feed_id far) refl;
        list = cache.list;
        chapter = cache.chapter;
        bookmark = λ id row of_k e. ground (
          arith,
          lookup-erase (λ _ r. same r.book.feed_id feed_id) id db.bookmarks h.bookmarks_keys,
          same-eq_false k.feed_id feed_id far,
        );
      }

  KeepsFeed-delete_feed_rows :
      (other : Text) → other ≢ feed_id → KeepsFeed other db (delete_feed_rows feed_id db)
  unfolding delete_feed_rows
  KeepsFeed-delete_feed_rows other far =
      let stays : same other feed_id ≡ false = same-eq_false other feed_id far in
      record {
        feed = lookup-erase_key (λ j. same j feed_id) other db.feeds ∙ rw stays refl;
        auth = lookup-erase_key (λ j. same j feed_id) other db.auth ∙ rw stays refl;
        script = λ k e.
            lookup-erase_key (λ j. same j.feed_id feed_id) k db.feed_scripts ∙ rw (e, stays) refl;
        storage = λ k e.
            lookup-erase_key (λ j. same j.feed_id feed_id) k db.feed_storage ∙ rw (e, stays) refl;
        books = λ k e. KeepsBook-delete_feed_rows k (λ same_feed. absurd (far (sym e ∙ same_feed)));
      }

  feed-erased : lookup feed_id (delete_feed_rows feed_id db).feeds ≡ none
  unfolding delete_feed_rows
  feed-erased =
      lookup-erase_key (λ j. same j feed_id) feed_id db.feeds ∙ rw (same_refl feed_id) refl

  -- In a consistent database, deleting a feed tells whether it was there, leaves no row of it or of
  -- one of its books, and leaves all that there is of another feed and of its books.
  pub delete_feed_exact :
      ((delete_feed feed_id db).0 ≡ ok (has feed_id db.feeds))
      × HasNothingOf feed_id (delete_feed feed_id db).1
      × ((other : Text) → other ≢ feed_id → KeepsFeed other db (delete_feed feed_id db).1)
  unfolding delete_feed
  delete_feed_exact = (
    refl,
    HasNothingOf-no_feed feed_id _ (delete_feed_rows-IsConsistent feed_id db h) feed-erased,
    KeepsFeed-delete_feed_rows,
  )
