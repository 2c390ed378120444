-- ===== src/Store/Books/Refresh.antt =====
-- native/langhuan/src/db/repo/cache.rs: what a fresh fetch, or a snapshot, does to the stored cover.
use langhuan.Prelude.{
  sym, ◌==◌, ℕ, ◌≡◌, refl, Bool, true, false, not, ◌&&◌, Option, none, some, Text, text_eq, same,
  same_refl, same_option, same_option_iff, arith, if◌then◌else◌, ap, ◌∙◌,
}
use langhuan.Prelude.Table.{lookup, has, upsert, erase, lookup-upsert, lookup-erase_key}
use langhuan.Prelude.Table.Keys.{IsUnique, IsUnique-upsert}
use langhuan.Error.{ok}
use langhuan.Model.{BookInfo}
use langhuan.Store.Rows.{BookKey, book_key_eq, BookRow, Database}
use langhuan.Store.Repo.{constrained}
use langhuan.Store.Books.{
  is_fetched, is_stale_cover, may_hold_book, delete_stale_cover, fetched_row, refetched, info_key,
  upsert_fetched_book, Snapshot, snapshot_row, resnapped, upsert_snapshot, get_cover_bytes, is_due,
  claim_cover_download,
}
use langhuan.Store.Books.Claim.{claim-row}

-- What `DELETE_STALE_COVER` and the upsert of the book's row leave.
abbrev pub refreshed : BookKey → Option Text → BookRow → (BookRow → BookRow) → Database → Database
refreshed k url fresh onto db = record db {
  covers = erase (λ j _. same j k && is_stale_cover k url db) db.covers;
  books = upsert k fresh onto db.books;
}

module _ (k : BookKey) (url : Option Text) (fresh : BookRow) (onto : BookRow → BookRow)
    (db : Database) {row : BookRow} (e : lookup k db.books ≡ some row) where
  may_hold : may_hold_book k db ≡ true
  may_hold = rw (e, has) refl

  pub refreshed-books : lookup k (refreshed k url fresh onto db).books ≡ some (onto row)
  refreshed-books = lookup-upsert k k fresh onto db.books ∙ rw (same_refl k, e) refl

  refreshed-covers :
      lookup k (refreshed k url fresh onto db).covers
      ≡ (if same_option row.cover_url url then lookup k db.covers else none)
  refreshed-covers =
      lookup-erase_key (λ j. same j k && is_stale_cover k url db) k db.covers
      ∙ rw (same_refl k, e, is_stale_cover) (ground arith)

  -- The claim on a row that the refresh leaves.
  refreshed-claim :
      (later_ms : ℕ)
      → IsUnique db.books
      → (claim_cover_download k later_ms (refreshed k url fresh onto db)).0
        ≡ ok (is_due (has k (refreshed k url fresh onto db).covers) later_ms (onto row))
  refreshed-claim later_ms u =
      claim-row k later_ms (refreshed k url fresh onto db) (IsUnique-upsert k fresh onto db.books u)
        refreshed-books

module _ (feed_id : Text) (info : BookInfo) (now_ms : ℕ) (db : Database) where
  abbrev pub fetched_after : Database
  fetched_after =
      refreshed (info_key feed_id info) info.cover_url (fetched_row info now_ms)
        (refetched info now_ms) db

  pub upsert_fetched_book-eq :
      {row : BookRow}
      → lookup (info_key feed_id info) db.books ≡ some row
      → upsert_fetched_book feed_id info now_ms db ≡ (ok tt, fetched_after)
  unfolding upsert_fetched_book delete_stale_cover
  upsert_fetched_book-eq e =
      rw
        (
          may_hold (info_key feed_id info) info.cover_url (fetched_row info now_ms)
              (refetched info now_ms) db e,
          constrained,
        )
        refl

  is_due-refetched :
      (stored : Bool) (later_ms : ℕ) (row : BookRow)
      → row.cover_url ≡ info.cover_url
      → is_due stored later_ms (refetched info now_ms row) ≡ is_due stored later_ms row
  unfolding is_due refetched
  is_due-refetched stored later_ms row kept =
      rw (sym kept, (same_option_iff row.cover_url row.cover_url).1 refl) refl

  -- Where a book has one row, a fetch that brings another cover URL than it has drops the stored
  -- bytes, and the next claim is granted at once, if there is a URL at all.
  pub refetch_moved :
      (later_ms : ℕ) (row : BookRow)
      → IsUnique db.books
      → lookup (info_key feed_id info) db.books ≡ some row
      → same_option row.cover_url info.cover_url ≡ false
      → (after : Database) × (upsert_fetched_book feed_id info now_ms db ≡ (ok tt, after))
        × ((get_cover_bytes (info_key feed_id info) after).0 ≡ ok none)
        × ((claim_cover_download (info_key feed_id info) later_ms after).0
            ≡ ok (not (same_option info.cover_url none)))
  unfolding get_cover_bytes refetched is_due
  refetch_moved later_ms row u e moved =
      let k = info_key feed_id info in
      let fresh = fetched_row info now_ms in
      let covers = refreshed-covers k info.cover_url fresh (refetched info now_ms) db e in
      (
        fetched_after,
        upsert_fetched_book-eq e,
        ap (λ o. ok o) (covers ∙ rw moved refl),
        refreshed-claim k info.cover_url fresh (refetched info now_ms) db e later_ms u
            ∙ rw moved refl,
      )

  -- Where a book has one row, a fetch that brings the cover URL that it has leaves the stored bytes
  -- and the claims as they are.
  pub refetch_kept :
      (later_ms : ℕ) (row : BookRow)
      → IsUnique db.books
      → lookup (info_key feed_id info) db.books ≡ some row
      → row.cover_url ≡ info.cover_url
      → (after : Database) × (upsert_fetched_book feed_id info now_ms db ≡ (ok tt, after))
        × ((get_cover_bytes (info_key feed_id info) after).0
            ≡ (get_cover_bytes (info_key feed_id info) db).0)
        × ((claim_cover_download (info_key feed_id info) later_ms after).0
            ≡ (claim_cover_download (info_key feed_id info) later_ms db).0)
  unfolding get_cover_bytes refetched is_due
  refetch_kept later_ms row u e kept =
      let k = info_key feed_id info in
      let fresh = fetched_row info now_ms in
      let alike : same_option row.cover_url info.cover_url ≡ true = (same_option_iff _ _).1 kept in
      let covers =
        refreshed-covers k info.cover_url fresh (refetched info now_ms) db e ∙ rw alike refl in
      (
        fetched_after,
        upsert_fetched_book-eq e,
        ap (λ o. ok o) covers,
        refreshed-claim k info.cover_url fresh (refetched info now_ms) db e later_ms u
            ∙ ap ok (
                is_due-refetched (has k fetched_after.covers) later_ms row kept
                ∙ rw (covers, has) refl)
            ∙ sym (claim-row k later_ms db u e),
      )

module _ (k : BookKey) (s : Snapshot) (now_ms : ℕ) (db : Database) where
  abbrev resnapped_after : Database
  resnapped_after = refreshed k s.cover_url (snapshot_row s now_ms) (resnapped s now_ms) db

  upsert_snapshot-eq :
      {row : BookRow}
      → lookup k db.books ≡ some row
      → upsert_snapshot k s now_ms db ≡ (ok tt, resnapped_after)
  unfolding upsert_snapshot delete_stale_cover
  upsert_snapshot-eq e =
      rw (may_hold k s.cover_url (snapshot_row s now_ms) (resnapped s now_ms) db e, constrained)
        refl

  resnapped-fetched : (row : BookRow) → is_fetched row ≡ true → resnapped s now_ms row ≡ row
  unfolding resnapped
  resnapped-fetched row h =
      let fetched : (row.info_fetched_at_ms == 0) ≡ false = ground arith in rw fetched refl

  -- A snapshot leaves the row of a book that has been fetched as it is, and the stored bytes of its
  -- cover exactly where it brings the cover URL that the row has.
  pub snapshot_fetched :
      (row : BookRow)
      → lookup k db.books ≡ some row
      → is_fetched row ≡ true
      → (after : Database) × (upsert_snapshot k s now_ms db ≡ (ok tt, after))
        × (lookup k after.books ≡ some row)
        × ((get_cover_bytes k after).0
            ≡ ok (if same_option row.cover_url s.cover_url then lookup k db.covers else none))
  unfolding get_cover_bytes
  snapshot_fetched row e h =
      let fresh = snapshot_row s now_ms in
      (
        resnapped_after,
        upsert_snapshot-eq e,
        refreshed-books k s.cover_url fresh (resnapped s now_ms) db e
            ∙ ap some (resnapped-fetched row h),
        ap (λ o. ok o) (refreshed-covers k s.cover_url fresh (resnapped s now_ms) db e),
      )
