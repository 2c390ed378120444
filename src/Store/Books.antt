-- ===== src/Store/Books.antt =====
-- native/langhuan/src/db/repo/cache.rs: the `books` and `covers` tables and the cover state machine.
pub mod Claim
pub mod Refresh
use langhuan.Prelude.{
  ℕ, ◌-◌, ◌*◌, Bool, false, not, ◌&&◌, ◌||◌, Option, none, some, [], Text, text_eq, same,
  same_option, ltb, leb, ◌==◌, if◌then◌else◌,
}
use langhuan.Prelude.Table.{lookup, has, upsert, update, erase, count}
use langhuan.Error.{ok}
use langhuan.Model.{BookInfo}
use langhuan.Store.Rows.{
  BookKey, book_key_eq, CoverState, unset, pending, downloaded, failed, BookRow, CoverRow, Database,
}
use langhuan.Store.Repo.{Repo, pure, gets, modify, constrained, ◌>>=◌, ◌>>◌}

-- `COVER_INFLIGHT_RETRY_MS`
abbrev pub cover_inflight_retry_ms : ℕ
cover_inflight_retry_ms = 10 * 60 * 1000

-- `COVER_FAILED_RETRY_MS`
abbrev pub cover_failed_retry_ms : ℕ
cover_failed_retry_ms = 7 * 24 * 60 * 60 * 1000

-- `BookRow::is_fetched`
abbrev pub is_fetched : BookRow → Bool
is_fetched row = ltb 0 row.info_fetched_at_ms

-- The FOREIGN KEY of `books`, for an insertion that a conflict turns into an update.
abbrev pub may_hold_book : BookKey → Database → Bool
may_hold_book k db = has k db.books || has k.feed_id db.feeds

-- `UPDATE books SET … WHERE feed_id = ?1 AND book_id = ?2`
abbrev pub set_book : BookKey → (BookRow → BookRow) → Database → Database
set_book k f db = record db { books = update (λ j row. if same j k then f row else row) db.books }

-- The row that stands for a book of which nothing is known yet.
abbrev pub placeholder : BookKey → ℕ → BookRow
placeholder k now_ms = record {
  title = k.book_id;
  author = [];
  description = none;
  cover_url = none;
  cover_state = unset;
  cover_fetched_at_ms = 0;
  info_fetched_at_ms = 0;
  last_used_at_ms = now_ms;
}

-- `ensure_book`
unfoldable pub ensure_book : BookKey → ℕ → Repo (Unit {0})
ensure_book k now_ms =
    constrained (may_hold_book k)
      λ db. record db { books = upsert k (placeholder k now_ms) (λ row. row) db.books }

-- `touch_book`
unfoldable pub touch_book : BookKey → ℕ → Repo (Unit {0})
touch_book k now_ms = modify (set_book k λ row. record row { last_used_at_ms = now_ms })

abbrev pub touch_found : BookKey → ℕ → Option BookRow → Repo (Option BookRow)
touch_found k now_ms none = pure none
touch_found k now_ms (some row) =
    modify (set_book k λ r. record r { last_used_at_ms = now_ms }) >> pure (some row)

-- `get_book_and_touch`
unfoldable pub get_book_and_touch : BookKey → ℕ → Repo (Option BookRow)
unfolding touch_book
get_book_and_touch k now_ms = do found ← gets (λ db. lookup k db.books); touch_found k now_ms found

-- `DELETE_STALE_COVER`: the stored URL differs from the incoming one.
abbrev pub is_stale_cover : BookKey → Option Text → Database → Bool
is_stale_cover k url db = elim (lookup k db.books) [
  | none ↦ false
  | some row ↦ not (same_option row.cover_url url)
]

unfoldable pub delete_stale_cover : BookKey → Option Text → Repo (Unit {0})
delete_stale_cover k url =
    modify λ db. record db { covers = erase (λ j _. same j k && is_stale_cover k url db) db.covers }

-- `UPSERT_FETCHED_BOOK`: the row that is inserted, and the update on a conflict.
unfoldable pub fetched_row : BookInfo → ℕ → BookRow
fetched_row info now_ms = record {
  title = info.title;
  author = info.author;
  description = info.description;
  cover_url = info.cover_url;
  cover_state = unset;
  cover_fetched_at_ms = 0;
  info_fetched_at_ms = now_ms;
  last_used_at_ms = now_ms;
}

unfoldable pub refetched : BookInfo → ℕ → BookRow → BookRow
refetched info now_ms row = record row {
  title = info.title;
  author = info.author;
  description = info.description;
  cover_url = info.cover_url;
  cover_state = if same_option row.cover_url info.cover_url then row.cover_state else unset;
  cover_fetched_at_ms =
      if same_option row.cover_url info.cover_url then row.cover_fetched_at_ms else 0;
  info_fetched_at_ms = now_ms;
  last_used_at_ms = now_ms;
}

abbrev pub info_key : Text → BookInfo → BookKey
info_key feed_id info = record { feed_id = feed_id; book_id = info.id }

-- `upsert_fetched_book`
unfoldable pub upsert_fetched_book : Text → BookInfo → ℕ → Repo (Unit {0})
upsert_fetched_book feed_id info now_ms =
    delete_stale_cover (info_key feed_id info) info.cover_url
    >> constrained (may_hold_book (info_key feed_id info)) λ db. record db {
      books =
          upsert (info_key feed_id info) (fetched_row info now_ms) (refetched info now_ms) db.books;
    }

-- The columns of a search-result snapshot.
pub record Snapshot : Type 0 where
  pub title : Text
  pub author : Text
  pub description : Option Text
  pub cover_url : Option Text

-- The statement of `upsert_snapshot`.
unfoldable pub snapshot_row : Snapshot → ℕ → BookRow
snapshot_row s now_ms = record {
  title = s.title;
  author = s.author;
  description = s.description;
  cover_url = s.cover_url;
  cover_state = unset;
  cover_fetched_at_ms = 0;
  info_fetched_at_ms = 0;
  last_used_at_ms = now_ms;
}

unfoldable pub resnapped : Snapshot → ℕ → BookRow → BookRow
resnapped s now_ms row =
    let placeholder = row.info_fetched_at_ms == 0 in
    let moved = placeholder && not (same_option row.cover_url s.cover_url) in
    record row {
      title = if placeholder then s.title else row.title;
      author = if placeholder then s.author else row.author;
      description = if placeholder then s.description else row.description;
      cover_url = if placeholder then s.cover_url else row.cover_url;
      cover_state = if moved then unset else row.cover_state;
      cover_fetched_at_ms = if moved then 0 else row.cover_fetched_at_ms;
      last_used_at_ms = if placeholder then now_ms else row.last_used_at_ms;
    }

-- `upsert_snapshot`
unfoldable pub upsert_snapshot : BookKey → Snapshot → ℕ → Repo (Unit {0})
upsert_snapshot k s now_ms =
    delete_stale_cover k s.cover_url
    >> constrained (may_hold_book k)
        λ db. record db { books = upsert k (snapshot_row s now_ms) (resnapped s now_ms) db.books }

-- `get_cover_bytes`
unfoldable pub get_cover_bytes : BookKey → Repo (Option CoverRow)
get_cover_bytes k = gets (λ db. lookup k db.covers)

-- The state and its timestamp, as `set_cover` and `mark_cover` write them.
abbrev pub with_cover_state : CoverState → ℕ → BookRow → BookRow
with_cover_state state now_ms row = record row { cover_state = state; cover_fetched_at_ms = now_ms }

-- `set_cover`: the FOREIGN KEY of `covers` wants a `books` row.
unfoldable pub set_cover : BookKey → Text → Text → ℕ → Repo (Unit {0})
set_cover k mime bytes now_ms =
    constrained (λ db. has k db.covers || has k db.books)
      (λ db. record db {
        covers =
            upsert k (record { mime = mime; bytes = bytes; fetched_at_ms = now_ms })
              (λ _. record { mime = mime; bytes = bytes; fetched_at_ms = now_ms }) db.covers;
      })
    >> modify (set_book k (with_cover_state downloaded now_ms))

-- `mark_cover`
unfoldable pub mark_cover : BookKey → CoverState → ℕ → Repo (Unit {0})
mark_cover k state now_ms = modify (set_book k (with_cover_state state now_ms))

-- The condition of `CLAIM_COVER_DOWNLOAD` on a row of `books`; `stored` says whether a `covers` row
-- exists.
unfoldable pub is_due : Bool → ℕ → BookRow → Bool
is_due stored now_ms row = elim row.cover_state [
  | unset ↦ not (same_option row.cover_url none)
  | pending ↦ leb cover_inflight_retry_ms (now_ms - row.cover_fetched_at_ms)
  | failed ↦ leb cover_failed_retry_ms (now_ms - row.cover_fetched_at_ms)
  | downloaded ↦ not stored
]

abbrev pub claims : BookKey → ℕ → Database → BookKey → BookRow → Bool
claims k now_ms db j row = same j k && is_due (has j db.covers) now_ms row

-- `claim_cover_download`: whether the update changed a row.
unfoldable pub claim_cover_download : BookKey → ℕ → Repo Bool
claim_cover_download k now_ms db = (
  ok (ltb 0 (count (claims k now_ms db) db.books)),
  record db {
    books =
        update
          (λ j row. if claims k now_ms db j row then with_cover_state pending now_ms row else row)
          db.books;
  },
)

-- `delete_cover`
unfoldable pub delete_cover : BookKey → Repo (Unit {0})
delete_cover k = modify λ db. record db { covers = erase (λ j _. same j k) db.covers }
