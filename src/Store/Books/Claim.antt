-- ===== src/Store/Books/Claim.antt =====
-- native/langhuan/src/db/repo/cache.rs: the claims of cover downloads over time.
use langhuan.Prelude.{
  ℕ, ◌-◌, ◌≡◌, refl, Bool, true, false, ◌||◌, some, text_eq, same, ap, ◌∙◌, same_refl, leb, arith,
  if◌then◌else◌, Option-cases, inl, inr,
}
use langhuan.Prelude.Table.{
  lookup, has, upsert, mapped, count, update_none, lookup-update, lookup-put,
}
use langhuan.Prelude.Table.Keys.{IsUnique, found, count-key, IsUnique-update, IsUnique-update}
use langhuan.Error.{ok}
use langhuan.Store.Rows.{
  BookKey, book_key_eq, pending, downloaded, failed, BookRow, CoverRow, Database,
}
use langhuan.Store.Repo.{constrained}
use langhuan.Store.Books.{
  set_book, with_cover_state, is_due, claims, claim_cover_download, set_cover, mark_cover,
  cover_inflight_retry_ms, cover_failed_retry_ms, get_cover_bytes,
}

-- Whether a download of a book's cover is due, by the book's row and its stored cover.
abbrev pub due : BookKey → ℕ → Database → Bool
due k now_ms db = found (is_due (has k db.covers) now_ms) (lookup k db.books)

module _ (k : BookKey) (now_ms : ℕ) (db : Database) where
  claim-eq : IsUnique db.books → (claim_cover_download k now_ms db).0 ≡ ok (due k now_ms db)
  unfolding claim_cover_download
  claim-eq u = ground (arith, count-key (λ j row. is_due (has j db.covers) now_ms row) k db.books u)

  -- The row of the book that a claim leaves.
  lookup-claim :
      lookup k (claim_cover_download k now_ms db).1.books
      ≡ mapped
          (λ row.
            if is_due (has k db.covers) now_ms row
            then with_cover_state pending now_ms row
            else row)
          (lookup k db.books)
  unfolding claim_cover_download
  lookup-claim = rw (lookup-update _ k db.books, same_refl k) refl

  claim-IsUnique : IsUnique db.books → IsUnique (claim_cover_download k now_ms db).1.books
  unfolding claim_cover_download
  claim-IsUnique u = IsUnique-update _ db.books u

  due-found : due k now_ms db ≡ true → (row : BookRow) × (lookup k db.books ≡ some row)
  due-found h = elim (Option-cases (lookup k db.books)) [
    | inl e ↦ absurd (ground arith)
    | inr (row, e) ↦ (row, e)
  ]

-- A claim that is not granted changes nothing.
pub claim-refused :
    (k : BookKey) (now_ms : ℕ) (db : Database)
    → (claim_cover_download k now_ms db).0 ≡ ok false
    → claim_cover_download k now_ms db ≡ (ok false, db)
unfolding claim_cover_download
claim-refused k now_ms db h =
    let none_due : count (claims k now_ms db) db.books ≡ 0 = ground arith in
    rw
      (
        none_due,
        update_none (claims k now_ms db) (with_cover_state pending now_ms) db.books none_due,
      )
      refl

-- The row that a successful claim leaves is pending since the claim.
pub pending_since :
    (k : BookKey) (now_ms : ℕ) (db : Database)
    → IsUnique db.books
    → (claim_cover_download k now_ms db).0 ≡ ok true
    → (row : BookRow) × (lookup k (claim_cover_download k now_ms db).1.books
        ≡ some (with_cover_state pending now_ms row))
pending_since k now_ms db u h =
    let d : due k now_ms db ≡ true = ground (arith, claim-eq k now_ms db u) in
    let (row, e) = due-found k now_ms db d in (row, ground (arith, lookup-claim k now_ms db))

pub claim-row :
    (k : BookKey) (now_ms : ℕ) (db : Database) {row : BookRow}
    → IsUnique db.books
    → lookup k db.books ≡ some row
    → (claim_cover_download k now_ms db).0 ≡ ok (is_due (has k db.covers) now_ms row)
claim-row k now_ms db u e =
    claim-eq k now_ms db u ∙ ap (λ o. ok (found (is_due (has k db.covers) now_ms) o)) e

lookup-set_book :
    (k : BookKey) (f : BookRow → BookRow) (db : Database) {row : BookRow}
    → lookup k db.books ≡ some row
    → lookup k (set_book k f db).books ≡ some (f row)
lookup-set_book k f db e =
    rw (lookup-update (λ j row. if same j k then f row else row) k db.books, e, same_refl k) refl

-- What `set_cover` leaves of a book that has a row.
abbrev pub with_cover : BookKey → CoverRow → Database → Database
with_cover k cover db =
    set_book k (with_cover_state downloaded cover.fetched_at_ms)
      (record db { covers = upsert k cover (λ _. cover) db.covers })

pub set_cover-eq :
    (k : BookKey) (cover : CoverRow) (db : Database) {row : BookRow}
    → lookup k db.books ≡ some row
    → set_cover k cover.mime cover.bytes cover.fetched_at_ms db ≡ (ok tt, with_cover k cover db)
unfolding set_cover
set_cover-eq k cover db e =
    let allowed : (has k db.covers || has k db.books) ≡ true =
      elim (Option-cases (lookup k db.covers)) [
        | inl none_yet ↦ rw (none_yet, e, has) refl
        | inr (old, f) ↦ rw (f, has) refl
      ] in
    rw (allowed, constrained) refl

-- Where a book has one row, once a claim of its cover's download has been granted, a later one is
-- granted exactly when the time that a download may be in flight has passed since.
pub claim_again :
    (k : BookKey) (now_ms later_ms : ℕ) (db : Database)
    → IsUnique db.books
    → (claim_cover_download k now_ms db).0 ≡ ok true
    → (claim_cover_download k later_ms (claim_cover_download k now_ms db).1).0
      ≡ ok (leb cover_inflight_retry_ms (later_ms - now_ms))
unfolding is_due
claim_again k now_ms later_ms db u h =
    let db' = (claim_cover_download k now_ms db).1 in
    let (row, e) = pending_since k now_ms db u h in
    claim-row k later_ms db' (claim-IsUnique k now_ms db u) e

-- Where a book has one row, after a granted claim a download that fails is marked, and the next
-- claim is granted exactly when the failure is seven days old.
pub claim-mark_cover :
    (k : BookKey) (now_ms failed_ms later_ms : ℕ) (db : Database)
    → IsUnique db.books
    → (claim_cover_download k now_ms db).0 ≡ ok true
    → (claim_cover_download k later_ms
        (mark_cover k failed failed_ms (claim_cover_download k now_ms db).1).1).0
      ≡ ok (leb cover_failed_retry_ms (later_ms - failed_ms))
unfolding is_due mark_cover
claim-mark_cover k now_ms failed_ms later_ms db u h =
    let db' = (claim_cover_download k now_ms db).1 in
    let (row, e) = pending_since k now_ms db u h in
    claim-row k later_ms _ (IsUnique-update _ db'.books (claim-IsUnique k now_ms db u))
      (lookup-set_book k (with_cover_state failed failed_ms) db' e)

-- Where a book has one row, after a granted claim the bytes of a download are stored and read back,
-- and no later claim is granted.
pub claim-set_cover :
    (k : BookKey) (cover : CoverRow) (now_ms later_ms : ℕ) (db : Database)
    → IsUnique db.books
    → (claim_cover_download k now_ms db).0 ≡ ok true
    → (after : Database) × (set_cover k cover.mime cover.bytes cover.fetched_at_ms
          (claim_cover_download k now_ms db).1
        ≡ (ok tt, after))
      × ((get_cover_bytes k after).0 ≡ ok (some cover))
      × ((claim_cover_download k later_ms after).0 ≡ ok false)
unfolding is_due get_cover_bytes
claim-set_cover k cover now_ms later_ms db u h =
    let db' = (claim_cover_download k now_ms db).1 in
    let (row, e) = pending_since k now_ms db u h in
    let stored : lookup k (with_cover k cover db').covers ≡ some cover =
      lookup-put k cover db'.covers in
    (
      with_cover k cover db',
      set_cover-eq k cover db' e,
      ap (λ o. ok o) stored,
      claim-row k later_ms (with_cover k cover db')
            (IsUnique-update _ db'.books (claim-IsUnique k now_ms db u))
            (lookup-set_book k (with_cover_state downloaded cover.fetched_at_ms) db' e)
          ∙ rw (stored, has) refl,
    )
