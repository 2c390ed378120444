-- ===== src/Store/Tests/Covers.antt =====
-- The cover state machine and the consistency of the store at concrete databases.
use langhuan.Prelude.{
  ℕ, ◌≡◌, ◌-◌, refl, true, false, none, some, [], ◌∷◌, text_beq, text_eq, same_option, leb,
  if◌then◌else◌,
}
use langhuan.Prelude.Bytes.{codes}
use langhuan.Prelude.Table.{lookup, count}
use langhuan.Error.{ok}
use langhuan.Model.{BookInfo}
use langhuan.Store.Rows.{book_key_eq, book_key_beq, chapter_key_eq, CoverRow, Database}
use langhuan.Store.Books.{
  is_due, claim_cover_download, get_cover_bytes, is_fetched, upsert_snapshot,
  cover_inflight_retry_ms,
}
use langhuan.Store.Books.Claim.{claim_again}
use langhuan.Store.Books.Refresh.{snapshot_fetched}
use langhuan.Store.Consistency.{IsConsistent}
use langhuan.Store.Consistency.Reachable.{Reachable-IsConsistent}
use langhuan.Store.Tests.Sample.{
  small_book, small_codec, small_database, small_database-IsConsistent, small_info, small_lookup,
  small_row, small_snapshot, small_steps, small_steps-Reachable,
}

Reachable-IsConsistent_example : IsConsistent small_steps
Reachable-IsConsistent_example =
    Reachable-IsConsistent small_codec small_codec (small_codec {A = ℕ}) small_steps-Reachable

small_claim : (claim_cover_download small_book 100 small_database).0 ≡ ok true
unfolding claim_cover_download is_due lookup count book_key_beq text_beq same_option
small_claim = refl

claim_again_example :
    (claim_cover_download small_book 700 (claim_cover_download small_book 100 small_database).1).0
    ≡ ok (leb cover_inflight_retry_ms (700 - 100))
claim_again_example =
    claim_again small_book 100 700 small_database small_database-IsConsistent.books_keys small_claim

abbrev small_cover : CoverRow
small_cover = record { mime = codes "image/png"; bytes = 1 ∷ 2 ∷ []; fetched_at_ms = 300 }

abbrev moved_info : BookInfo
moved_info = record small_info { cover_url = some (codes "v") }

small_moved : same_option small_row.cover_url moved_info.cover_url ≡ false
unfolding same_option text_beq
small_moved = refl

small_fetched : is_fetched small_row ≡ true
small_fetched = refl

snapshot_fetched_example :
    (left : Database) × (upsert_snapshot small_book small_snapshot 50 small_database
      ≡ (ok tt, left))
    × (lookup small_book left.books ≡ some small_row)
    × ((get_cover_bytes small_book left).0
        ≡ ok (
            if same_option small_row.cover_url small_snapshot.cover_url
            then lookup small_book small_database.covers
            else none))
snapshot_fetched_example =
    snapshot_fetched small_book small_snapshot 50 small_database small_row small_lookup
      small_fetched
