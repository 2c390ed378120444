-- ===== src/Store/Consistency/Operations/UserData.antt =====
-- native/langhuan/src/db/repo: shelf.rs, progress.rs, bookmarks.rs, auth.rs and the rest of the
-- data of a user keep the constraints.
use langhuan.Prelude.{
  ℕ, Bool, not, Option, none, some, Text, text_eq, same, arith, inl, inr, Bool-cases,
}
use langhuan.Prelude.Table.{lookup, has, erase, lookup-upsert}
use langhuan.Prelude.Table.Keys.{IsUnique-upsert, IsUnique-update, IsUnique-erase}
use langhuan.Prelude.Table.Child.{IsChild-upsert, IsChild-update, IsChild-erase}
use langhuan.Error.{err, database}
use langhuan.Store.Rows.{
  BookKey, book_key_eq, FeedKey, feed_key_eq, chapter_key_eq, ProgressRow, BookmarkRow, AuthRow,
  Database,
}
use langhuan.Store.Repo.{gets, Codec, encode_json}
use langhuan.Store.Books.{Snapshot}
use langhuan.Store.Shelf
use langhuan.Store.UserData
use langhuan.Store.Consistency.{
  IsConsistent, put_shelf, put_bookmarks, put_progress, put_auth, put_storage, put_meta,
}
use langhuan.Store.Consistency.Deletes.{delete_books-IsConsistent, BookmarksHaveFeeds-erase}
use langhuan.Store.Consistency.Operations.Rules.{
  Keeps, Keeps-pure, Keeps-lift, Keeps-gets, Keeps-modify, Keeps-constrained, Keeps-bind,
}
use langhuan.Store.Consistency.Operations.Books.{Keeps-upsert_snapshot}

erase_shelf-IsConsistent :
    (k : BookKey) (db : Database)
    → IsConsistent db
    → IsConsistent (record db { bookshelf = erase (λ j _. same j k) db.bookshelf })
erase_shelf-IsConsistent k db h =
    put_shelf h _ (IsUnique-erase _ db.bookshelf h.shelf_keys)
      (IsChild-erase _ _ db.bookshelf h.shelf_book)

pub erase_progress-IsConsistent :
    (p : BookKey → ProgressRow → Bool) (db : Database)
    → IsConsistent db
    → IsConsistent (record db { reading_progress = erase p db.reading_progress })
erase_progress-IsConsistent p db h =
    put_progress h _ (IsUnique-erase p db.reading_progress h.progress_keys)
      (IsChild-erase _ p db.reading_progress h.progress_feed)

pub erase_bookmarks-IsConsistent :
    (p : Text → BookmarkRow → Bool) (db : Database)
    → IsConsistent db
    → IsConsistent (record db { bookmarks = erase p db.bookmarks })
erase_bookmarks-IsConsistent p db h =
    put_bookmarks h _ (IsUnique-erase p db.bookmarks h.bookmarks_keys)
      (BookmarksHaveFeeds-erase p db h)

Keeps-shelve : (k : BookKey) (now_ms : ℕ) → Keeps (Shelf.shelve k now_ms)
unfolding Shelf.shelve
Keeps-shelve k now_ms = Keeps-constrained _ _ (λ db h allowed.
    put_shelf h _ (IsUnique-upsert k _ _ db.bookshelf h.shelf_keys)
      (IsChild-upsert _ k _ _ db.bookshelf allowed h.shelf_book))

pub Keeps-add_book : (k : BookKey) (s : Snapshot) (now_ms : ℕ) → Keeps (Shelf.add_book k s now_ms)
unfolding Shelf.add_book
Keeps-add_book k s now_ms = Keeps-bind _ _ (Keeps-upsert_snapshot k s now_ms) λ _.
    Keeps-bind (gets λ db. has k db.bookshelf) _ (Keeps-gets _)
      λ shelved. Keeps-bind _ _ (Keeps-shelve k now_ms) (λ _. Keeps-pure (not shelved))

purge_book-IsConsistent :
    (k : BookKey) (db : Database) → IsConsistent db → IsConsistent (Shelf.purge_book k db)
unfolding Shelf.purge_book
purge_book-IsConsistent k db h =
    erase_bookmarks-IsConsistent _ _
      (erase_progress-IsConsistent _ _ (delete_books-IsConsistent (λ j _. same j k) db h))

pub Keeps-remove_book : (k : BookKey) → Keeps (Shelf.remove_book k)
unfolding Shelf.remove_book
Keeps-remove_book k = record {
  at = λ db h. elim (Bool-cases (has k db.bookshelf)) [
    | inl here ↦ rw here (purge_book-IsConsistent k _ (erase_shelf-IsConsistent k db h))
    | inr gone ↦ rw gone (erase_shelf-IsConsistent k db h)
  ];
}

pub Keeps-set_last_seen_chapters :
    (k : BookKey) (count : ℕ) → Keeps (Shelf.set_last_seen_chapters k count)
unfolding Shelf.set_last_seen_chapters
Keeps-set_last_seen_chapters k count = Keeps-modify _ (λ db h.
    put_shelf h _ (IsUnique-update _ db.bookshelf h.shelf_keys)
      (IsChild-update _ _ db.bookshelf h.shelf_book))

pub Keeps-set_progress : (k : BookKey) (row : ProgressRow) → Keeps (UserData.set_progress k row)
unfolding UserData.set_progress
Keeps-set_progress k row = Keeps-constrained _ _ (λ db h allowed.
    put_progress h _ (IsUnique-upsert k _ _ db.reading_progress h.progress_keys)
      (IsChild-upsert _ k _ _ db.reading_progress allowed h.progress_feed))

pub Keeps-remove_stale_progress : (cutoff_ms : ℕ) → Keeps (UserData.remove_stale_progress cutoff_ms)
unfolding UserData.remove_stale_progress
Keeps-remove_stale_progress cutoff_ms = record { at = λ db h. erase_progress-IsConsistent _ db h }

pub Keeps-add_bookmark : (id : Text) (row : BookmarkRow) → Keeps (UserData.add_bookmark id row)
unfolding UserData.add_bookmark
Keeps-add_bookmark id row = Keeps-constrained _ _ (λ db h allowed.
    put_bookmarks h _ (IsUnique-upsert id _ _ db.bookmarks h.bookmarks_keys) (λ j r i.
      ground (arith, lookup-upsert id j row (λ _. row) db.bookmarks, h.bookmarks_feed j r)))

pub Keeps-remove_bookmark : (id : Text) → Keeps (UserData.remove_bookmark id)
unfolding UserData.remove_bookmark
Keeps-remove_bookmark id = record { at = λ db h. erase_bookmarks-IsConsistent _ db h }

pub Keeps-clear_auth : (feed_id : Text) → Keeps (UserData.clear_auth feed_id)
unfolding UserData.clear_auth
Keeps-clear_auth feed_id = Keeps-modify _ (λ db h.
    put_auth h _ (IsUnique-erase _ db.auth h.auth_keys) (IsChild-erase _ _ db.auth h.auth_feed))

module _ {Value : Type 0} (codec : Codec Value) where
  Keeps-decoded_auth :
      (feed_id : Text) (o : Option Value) → Keeps (UserData.decoded_auth codec feed_id o)
  Keeps-decoded_auth feed_id none =
      Keeps-bind _ _ (Keeps-clear_auth feed_id) (λ _. Keeps-lift (err database))
  Keeps-decoded_auth feed_id (some v) = Keeps-pure (some v)

  Keeps-served_auth :
      (feed_id : Text) (o : Option AuthRow) → Keeps (UserData.served_auth codec feed_id o)
  Keeps-served_auth feed_id none = Keeps-pure none
  Keeps-served_auth feed_id (some row) = Keeps-decoded_auth feed_id (codec.decode row.cookies_json)

  pub Keeps-get_auth : (feed_id : Text) → Keeps (UserData.get_auth codec feed_id)
  unfolding UserData.get_auth
  Keeps-get_auth feed_id =
      Keeps-bind (gets λ db. lookup feed_id db.auth) (UserData.served_auth codec feed_id)
        (Keeps-gets _) (Keeps-served_auth feed_id)

  pub Keeps-set_auth :
      (feed_id : Text) (value : Value) (now_ms : ℕ)
      → Keeps (UserData.set_auth codec feed_id value now_ms)
  unfolding UserData.set_auth
  Keeps-set_auth feed_id value now_ms =
      Keeps-bind _ _ (Keeps-lift (encode_json codec value)) λ json.
        Keeps-constrained _ _ (λ db h allowed.
          put_auth h _ (IsUnique-upsert feed_id _ _ db.auth h.auth_keys)
            (IsChild-upsert _ feed_id _ _ db.auth allowed h.auth_feed))

  pub Keeps-set_feed_storage :
      (k : FeedKey) (value : Value) → Keeps (UserData.set_feed_storage codec k value)
  unfolding UserData.set_feed_storage
  Keeps-set_feed_storage k value = Keeps-bind _ _ (Keeps-lift (encode_json codec value)) λ json.
      Keeps-constrained _ _ (λ db h allowed.
        put_storage h _ (IsUnique-upsert k _ _ db.feed_storage h.storage_keys)
          (IsChild-upsert _ k _ _ db.feed_storage allowed h.storage_feed))

pub Keeps-delete_feed_storage : (k : FeedKey) → Keeps (UserData.delete_feed_storage k)
unfolding UserData.delete_feed_storage
Keeps-delete_feed_storage k = Keeps-modify _ (λ db h.
    put_storage h _ (IsUnique-erase _ db.feed_storage h.storage_keys)
      (IsChild-erase _ _ db.feed_storage h.storage_feed))

pub Keeps-set_meta : (key value : Text) → Keeps (UserData.set_meta key value)
unfolding UserData.set_meta
Keeps-set_meta key value =
    Keeps-modify _ (λ db h. put_meta h _ (IsUnique-upsert key _ _ db.meta h.meta_keys))
