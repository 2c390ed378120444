-- ===== src/Store/UserData.antt =====
-- native/langhuan/src/db/repo/progress.rs, bookmarks.rs, auth.rs, storage.rs and meta.rs
use langhuan.Prelude.{
  ℕ, ◌%◌, ◌^◌, Bool, not, ◌&&◌, ◌||◌, Option, none, some, List, [], ◌∷◌, Text, text_eq, same, ltb,
}
use langhuan.Prelude.Table.{Table, lookup, has, upsert, erase, count}
use langhuan.Error.{ok, err, database}
use langhuan.Store.Rows.{
  BookKey, book_key_eq, FeedKey, feed_key_eq, ProgressRow, BookmarkRow, AuthRow, Database,
}
use langhuan.Store.Repo.{
  Repo, pure, lift, gets, modify, constrained, ◌>>=◌, ◌>>◌, Codec, encode_json,
}

-- `get_progress`; the offset is cast from `i64` to `u32`.
unfoldable pub get_progress : BookKey → Repo (Option ProgressRow)
get_progress k = gets λ db. elim (lookup k db.reading_progress) [
  | none ↦ none
  | some row ↦ some (record row { paragraph_char_offset = row.paragraph_char_offset % 2 ^ 32 })
]

-- `set_progress`
unfoldable pub set_progress : BookKey → ProgressRow → Repo (Unit {0})
set_progress k row =
    constrained (λ db. has k db.reading_progress || has k.feed_id db.feeds)
      λ db. record db { reading_progress = upsert k row (λ _. row) db.reading_progress }

-- The condition of `remove_stale_progress`, which `stale_cleanup` shares.
abbrev pub is_stale_progress : ℕ → Database → BookKey → ProgressRow → Bool
is_stale_progress cutoff_ms db k row = ltb row.updated_at_ms cutoff_ms && not (has k db.bookshelf)

-- `remove_stale_progress`
unfoldable pub remove_stale_progress : ℕ → Repo ℕ
remove_stale_progress cutoff_ms db = (
  ok (count (is_stale_progress cutoff_ms db) db.reading_progress),
  record db { reading_progress = erase (is_stale_progress cutoff_ms db) db.reading_progress },
)

-- `add_bookmark`: a known id violates the PRIMARY KEY.
unfoldable pub add_bookmark : Text → BookmarkRow → Repo (Unit {0})
add_bookmark id row =
    constrained (λ db. not (has id db.bookmarks) && has row.book.feed_id db.feeds)
      λ db. record db { bookmarks = upsert id row (λ _. row) db.bookmarks }

-- `remove_bookmark`
unfoldable pub remove_bookmark : Text → Repo Bool
remove_bookmark id db =
    (ok (has id db.bookmarks), record db { bookmarks = erase (λ j _. same j id) db.bookmarks })

-- `clear_auth`
unfoldable pub clear_auth : Text → Repo (Unit {0})
clear_auth feed_id = modify λ db. record db { auth = erase (λ j _. same j feed_id) db.auth }

module _ {Value : Type 0} (codec : Codec Value) where
  abbrev pub decoded_auth : Text → Option Value → Repo (Option Value)
  decoded_auth feed_id none = clear_auth feed_id >> lift (err database)
  decoded_auth feed_id (some value) = pure (some value)

  abbrev pub served_auth : Text → Option AuthRow → Repo (Option Value)
  served_auth feed_id none = pure none
  served_auth feed_id (some row) = decoded_auth feed_id (codec.decode row.cookies_json)

  -- `get_auth`
  unfoldable pub get_auth : Text → Repo (Option Value)
  get_auth feed_id = do found ← gets (λ db. lookup feed_id db.auth); served_auth feed_id found

  -- `set_auth`
  unfoldable pub set_auth : Text → Value → ℕ → Repo (Unit {0})
  set_auth feed_id value now_ms = do
    json ← lift (encode_json codec value)
    constrained (λ db. has feed_id db.auth || has feed_id db.feeds)
        (λ db. record db {
          auth =
              upsert feed_id (record { cookies_json = json; updated_at_ms = now_ms })
                (λ _. record { cookies_json = json; updated_at_ms = now_ms }) db.auth;
        })

  -- The loop of `all_feed_storage`, which skips a payload that does not decode.
  decode_entries : Table FeedKey Text → List (FeedKey × Value)
  decode_entries [] = []
  decode_entries ((k, json) ∷ rows) =
      let rest = decode_entries rows in
      elim (codec.decode json) [ none ↦ rest | some value ↦ (k, value) ∷ rest ]

  -- `all_feed_storage`
  unfoldable pub all_feed_storage : Repo (List (FeedKey × Value))
  unfolding decode_entries
  all_feed_storage = gets (λ db. decode_entries db.feed_storage)

  -- `set_feed_storage`
  unfoldable pub set_feed_storage : FeedKey → Value → Repo (Unit {0})
  set_feed_storage k value = do
    json ← lift (encode_json codec value)
    constrained (λ db. has k db.feed_storage || has k.feed_id db.feeds)
        (λ db. record db { feed_storage = upsert k json (λ _. json) db.feed_storage })

-- `delete_feed_storage`
unfoldable pub delete_feed_storage : FeedKey → Repo (Unit {0})
delete_feed_storage k =
    modify λ db. record db { feed_storage = erase (λ j _. same j k) db.feed_storage }

-- `get_meta`
unfoldable pub get_meta : Text → Repo (Option Text)
get_meta key = gets (λ db. lookup key db.meta)

-- `set_meta`
unfoldable pub set_meta : Text → Text → Repo (Unit {0})
set_meta key value = modify λ db. record db { meta = upsert key value (λ _. value) db.meta }
