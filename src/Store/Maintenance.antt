-- ===== src/Store/Maintenance.antt =====
-- native/langhuan/src/db/repo/maintenance.rs
pub mod Stale
pub mod Evict
use langhuan.Prelude.{
  ℕ, ◌+◌, Bool, false, not, ◌&&◌, ◌||◌, none, some, [], ◌∷◌, Text, text_eq, same, ltb, leb, ◌==◌,
  if◌then◌else◌, length,
}
use langhuan.Prelude.Order.{text_ltb}
use langhuan.Prelude.Table.{Table, lookup, has, update, erase, count}
use langhuan.Error.{ok}
use langhuan.Store.Rows.{
  BookKey, book_key_eq, ChapterKey, FeedKey, unset, ScriptRow, BookRow, CoverRow, BookmarkRow,
  PayloadRow, Database,
}
use langhuan.Store.Repo.{Repo}
use langhuan.Store.Books.{with_cover_state}
use langhuan.Store.Cascade.{delete_books}
use langhuan.Store.UserData.{is_stale_progress}
use langhuan.Store.Feeds.{versions_before}

-- `COALESCE(SUM(length(…)), 0)` over a table.
unfoldable pub total : {K V : Type 0} → (V → ℕ) → Table K V → ℕ
total size [] = 0
total size ((k, row) ∷ t) = size row + total size t

-- `cache_total_bytes`
unfoldable pub cache_total_bytes : Database → ℕ
unfolding total
cache_total_bytes db =
    total (λ row. length row.json) db.chapters
    + total (λ row. length row.json) db.chapter_lists
    + total (λ row. length row.bytes) db.covers

abbrev pub is_unshelved : Database → BookKey → Bool
is_unshelved db k = not (has k db.bookshelf)

-- The conditions of the statements of `stale_cleanup`.
abbrev pub is_stale_chapter : ℕ → Database → ChapterKey → PayloadRow → Bool
is_stale_chapter cutoff_ms db k row = ltb row.cached_at_ms cutoff_ms && is_unshelved db k.book

abbrev pub is_stale_list : ℕ → Database → BookKey → PayloadRow → Bool
is_stale_list cutoff_ms db k row = ltb row.cached_at_ms cutoff_ms && is_unshelved db k

abbrev pub is_stale_cover_row : ℕ → Database → BookKey → CoverRow → Bool
is_stale_cover_row cutoff_ms db k row = ltb row.fetched_at_ms cutoff_ms && is_unshelved db k

abbrev pub is_stale_book : ℕ → Database → BookKey → BookRow → Bool
is_stale_book cutoff_ms db k row = ltb row.last_used_at_ms cutoff_ms && is_unshelved db k

abbrev pub is_stale_bookmark : ℕ → Database → Text → BookmarkRow → Bool
is_stale_bookmark cutoff_ms db id row = ltb row.created_at_ms cutoff_ms && is_unshelved db row.book

-- The first three statements, the fourth with its cascade, and the last two, each with the number of
-- rows that it deletes.
unfoldable pub drop_stale_caches : ℕ → Database → ℕ × Database
drop_stale_caches cutoff_ms db = (
  count (is_stale_chapter cutoff_ms db) db.chapters
      + count (is_stale_list cutoff_ms db) db.chapter_lists
      + count (is_stale_cover_row cutoff_ms db) db.covers,
  record db {
    chapters = erase (is_stale_chapter cutoff_ms db) db.chapters;
    chapter_lists = erase (is_stale_list cutoff_ms db) db.chapter_lists;
    covers = erase (is_stale_cover_row cutoff_ms db) db.covers;
  },
)

unfoldable pub drop_stale_books : ℕ → Database → ℕ × Database
drop_stale_books cutoff_ms db =
    (count (is_stale_book cutoff_ms db) db.books, delete_books (is_stale_book cutoff_ms db) db)

unfoldable pub drop_stale_user_data : ℕ → Database → ℕ × Database
drop_stale_user_data cutoff_ms db = (
  count (is_stale_progress cutoff_ms db) db.reading_progress
      + count (is_stale_bookmark cutoff_ms db) db.bookmarks,
  record db {
    reading_progress = erase (is_stale_progress cutoff_ms db) db.reading_progress;
    bookmarks = erase (is_stale_bookmark cutoff_ms db) db.bookmarks;
  },
)

-- `stale_cleanup`: `items_removed`
unfoldable pub stale_cleanup : ℕ → Repo ℕ
stale_cleanup cutoff_ms db =
    let (caches, db₁) = drop_stale_caches cutoff_ms db in
    let (books, db₂) = drop_stale_books cutoff_ms db₁ in
    let (user, db₃) = drop_stale_user_data cutoff_ms db₂ in (ok (caches + books + user), db₃)

-- `ORDER BY b.last_used_at_ms, b.feed_id, b.book_id`: whether the first book comes before the
-- second.
unfoldable pub is_older : BookKey → BookRow → BookKey → BookRow → Bool
is_older k row k' row' =
    ltb row.last_used_at_ms row'.last_used_at_ms
    || (row.last_used_at_ms == row'.last_used_at_ms
        && (text_ltb k.feed_id k'.feed_id
            || (same k.feed_id k'.feed_id && text_ltb k.book_id k'.book_id)))

-- How many books without a shelf entry come before one.
abbrev pub books_before : Database → BookKey → BookRow → ℕ
books_before db k row = count (λ k' row'. is_unshelved db k' && is_older k' row' k row) db.books

-- The subquery of `evict_oldest_unprotected`: `LIMIT` keeps the books with fewer than `chunk` before
-- them.
unfoldable pub is_victim : ℕ → Database → BookKey → BookRow → Bool
is_victim chunk db k row = is_unshelved db k && ltb (books_before db k row) chunk

-- `evict_oldest_unprotected`
unfoldable pub evict_oldest_unprotected : ℕ → ℕ → Repo ℕ
evict_oldest_unprotected cap_bytes chunk db =
    if leb (cache_total_bytes db) cap_bytes
    then (ok 0, db)
    else (ok (count (is_victim chunk db) db.books), delete_books (is_victim chunk db) db)

-- `clear_cache`: `items_removed`. Every row with another state than `none` is reset.
unfoldable pub clear_cache : Repo ℕ
clear_cache db = (
  ok (length db.chapters + length db.chapter_lists + length db.covers),
  record db {
    chapters = [];
    chapter_lists = [];
    covers = [];
    books =
        update {V = BookRow}
          (λ _ row. elim row.cover_state [ unset ↦ row | _ ↦ with_cover_state unset 0 row ])
          db.books;
  },
)

abbrev pub is_active : Database → FeedKey → Bool
is_active db k = elim (lookup k.feed_id db.feeds) [
  | none ↦ false
  | some feed ↦ same feed.version k.name
]

-- The condition of `prune_all_scripts`.
unfoldable pub is_surplus : ℕ → Database → FeedKey → ScriptRow → Bool
is_surplus keep db k row = not (ltb (versions_before db k row) keep) && not (is_active db k)

-- `prune_all_scripts`
unfoldable pub prune_all_scripts : ℕ → Repo ℕ
prune_all_scripts keep db = (
  ok (count (is_surplus keep db) db.feed_scripts),
  record db { feed_scripts = erase (is_surplus keep db) db.feed_scripts },
)
