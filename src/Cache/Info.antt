-- ===== src/Cache/Info.antt =====
-- native/langhuan/src/cache/mod.rs: `CachedFeed::book_info_with_options`.
use langhuan.Prelude.{
  ℕ, ◌<◌, ◌≡◌, refl, Bool, true, false, Option, none, some, Text, if◌then◌else◌, arith, sym, ap,
  ◌∙◌,
}
use langhuan.Prelude.Table.{lookup, has}
use langhuan.Error.{Result, ok, err}
use langhuan.Model.{BookInfo}
use langhuan.Store.Rows.{BookKey, book_key_eq, BookRow, Database}
use langhuan.Store.Repo.{call, write}
use langhuan.Store.Books.{
  is_fetched, get_book_and_touch, refetched, fetched_row, info_key, upsert_fetched_book,
}
use langhuan.Store.Books.Refresh.{fetched_after, upsert_fetched_book-eq, refreshed-books}
use langhuan.Cache.Stream.{shelved, shelved-has}

-- `From<BookRow> for BookInfo`
unfoldable pub info_of : BookKey → BookRow → BookInfo
info_of k row = record {
  id = k.book_id;
  title = row.title;
  author = row.author;
  cover_url = row.cover_url;
  description = row.description;
}

-- What a call returns, and the cover URL for which it spawns a download.
abbrev pub Answer : Type 0
Answer = Result BookInfo × Option Text

-- From the fetch on; `meanwhile` is what other tasks do to the database while the inner feed works.
unfoldable pub refetch :
    BookKey → ℕ → (Database → Database) → Result BookInfo → Database → Answer × Database
refetch k write_ms meanwhile (err e) db = ((err e, none), meanwhile db)
refetch k write_ms meanwhile (ok info) db = (
  (ok info, info.cover_url),
  (write (upsert_fetched_book k.feed_id info write_ms) (meanwhile db)).1,
)

-- The match on the row that was read.
abbrev pub after_read :
    BookKey
    → ℕ
    → (Database → Database)
    → Result BookInfo
    → Result (Option BookRow) × Database
    → Answer × Database
after_read k write_ms meanwhile inner (ok (some row), db) =
    if is_fetched row
    then ((ok (info_of k row), row.cover_url), db)
    else refetch k write_ms meanwhile inner db
after_read k write_ms meanwhile inner (ok none, db) = refetch k write_ms meanwhile inner db
after_read k write_ms meanwhile inner (err e, db) = refetch k write_ms meanwhile inner db

-- `CachedFeed::book_info_with_options`
unfoldable pub book_info_with_options :
    BookKey → Bool → ℕ → ℕ → (Database → Database) → Result BookInfo → Database → Answer × Database
book_info_with_options k force_refresh read_ms write_ms meanwhile inner db =
    if shelved k db
    then (if force_refresh
        then refetch k write_ms meanwhile inner db
        else after_read k write_ms meanwhile inner (call (get_book_and_touch k read_ms) db))
    else ((inner, none), meanwhile db)

read-hit :
    (k : BookKey) (now_ms : ℕ) (db : Database) {row : BookRow}
    → lookup k db.books ≡ some row
    → (get_book_and_touch k now_ms db).0 ≡ ok (some row)
unfolding get_book_and_touch
read-hit k now_ms db e = rw e refl

after_read-hit :
    (k : BookKey) (write_ms : ℕ) (meanwhile : Database → Database) (inner : Result BookInfo)
    (r : Result (Option BookRow) × Database) {row : BookRow}
    → r.0 ≡ ok (some row)
    → is_fetched row ≡ true
    → (after_read k write_ms meanwhile inner r).0 ≡ (ok (info_of k row), row.cover_url)
after_read-hit k write_ms meanwhile inner r h f = rw (h, f) refl

-- Where the inner feed answers a forced refresh with the id that it is asked for, the book is on
-- the shelf when the call begins, it is on the shelf and has its row when the fetch has ended, and
-- the time of storing is not 0, the call brings what the feed answers, and the next unforced call
-- serves the same info whatever the inner feed would answer then, with a download of its cover
-- spawned both times if it has a URL.
pub book_info_again :
    (k : BookKey) (info : BookInfo) (read_ms write_ms later_ms again_ms : ℕ)
    (meanwhile later : Database → Database) (inner : Result BookInfo) (db : Database)
    (row : BookRow)
    → info.id ≡ k.book_id
    → has k db.bookshelf ≡ true
    → has k (meanwhile db).bookshelf ≡ true
    → lookup k (meanwhile db).books ≡ some row
    → 0 < write_ms
    → (after : Database) × (book_info_with_options k true read_ms write_ms meanwhile (ok info) db
        ≡ ((ok info, info.cover_url), after))
      × ((book_info_with_options k false later_ms again_ms later inner after).0
          ≡ (ok info, info.cover_url))
unfolding book_info_with_options refetch write call info_of refetched
book_info_again k info read_ms write_ms later_ms again_ms meanwhile later inner db row asked on
      still e t =
    let after = fetched_after k.feed_id info write_ms (meanwhile db) in
    let key : info_key k.feed_id info ≡ k =
      ap (λ id. record { feed_id = k.feed_id; book_id = id }) asked in
    let e' : lookup (info_key k.feed_id info) (meanwhile db).books ≡ some row =
      ap (λ j. lookup j (meanwhile db).books) key ∙ e in
    let held : lookup k after.books ≡ some (refetched info write_ms row) =
      ap (λ j. lookup j after.books) (sym key)
      ∙ refreshed-books (info_key k.feed_id info) info.cover_url (fetched_row info write_ms)
          (refetched info write_ms) (meanwhile db) e' in
    (
      after,
      rw (shelved-has k db, on, upsert_fetched_book-eq k.feed_id info write_ms (meanwhile db) e')
          refl,
      rw (shelved-has k after, still)
          (after_read-hit k again_ms later inner _ (read-hit k later_ms after held) (ground arith)
            ∙ ap
                (λ id. (
                  ok (record {
                    id = id;
                    title = info.title;
                    author = info.author;
                    cover_url = info.cover_url;
                    description = info.description;
                  }),
                  info.cover_url,
                ))
                (sym asked)),
    )
