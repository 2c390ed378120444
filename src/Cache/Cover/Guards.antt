-- ===== src/Cache/Cover/Guards.antt =====
-- native/langhuan/src/cache/mod.rs: what guards a cover download, and what it may leave.
use langhuan.Prelude.{
  ℕ, ◌-◌, ◌<◌, ◌≡◌, refl, Bool, true, false, some, List, [], ◌∷◌, Text, arith, ap, sym, ◌∙◌, leb,
  Bool-cases, inl, inr,
}
use langhuan.Prelude.Table.{lookup, has, lookup-put}
use langhuan.Prelude.Table.Keys.{IsUnique}
use langhuan.Error.{Result, ok, err, domain_not_allowed}
use langhuan.Http.Url.{UrlParser}
use langhuan.Http.Domain.{domain_allowed}
use langhuan.Http.Response.{HttpResponse, get, content_type}
use langhuan.Http.Client.{Network, execute}
use langhuan.Store.Rows.{BookKey, book_key_eq, BookRow, CoverRow, Database}
use langhuan.Store.Repo.{call, write}
use langhuan.Store.Books.{claim_cover_download, get_cover_bytes, cover_inflight_retry_ms}
use langhuan.Store.Books.Claim.{claim_again, claim-refused, set_cover-eq}
use langhuan.Cache.Stream.{shelved, shelved-has}
use langhuan.Cache.Cover.{
  cover_timeout, is_image, is_empty, mime_or_default, store, after_execute, request_cover,
  after_claim, download,
}

after_claim-granted :
    (urls : UrlParser) (tracing : Bool) (net : Network urls) (ds : List Text) (k : BookKey)
    (url : Text) (store_ms : ℕ) (meanwhile : Database → Database) (r : Result Bool × Database)
    → r.0 ≡ ok true
    → after_claim urls tracing net ds k url store_ms meanwhile r
      ≡ request_cover urls tracing net ds k url store_ms meanwhile r.1
after_claim-granted urls tracing net ds k url store_ms meanwhile r h = rw h refl

after_claim-refused :
    (urls : UrlParser) (tracing : Bool) (net : Network urls) (ds : List Text) (k : BookKey)
    (url : Text) (store_ms : ℕ) (meanwhile : Database → Database) (r : Result Bool × Database)
    → r.0 ≡ ok false
    → after_claim urls tracing net ds k url store_ms meanwhile r ≡ (r.1, [])
after_claim-refused urls tracing net ds k url store_ms meanwhile r h = rw h refl

-- A download whose claim is refused hands no request to its client and changes nothing.
download-refused :
    (urls : UrlParser) (tracing : Bool) (net : Network urls) (ds : List Text) (k : BookKey)
    (url : Text) (claim_ms store_ms : ℕ) (meanwhile : Database → Database) (db : Database)
    → claim_cover_download k claim_ms db ≡ (ok false, db)
    → download urls tracing net ds k url claim_ms store_ms meanwhile db ≡ (db, [])
unfolding download call
download-refused urls tracing net ds k url claim_ms store_ms meanwhile db refused =
    elim (Bool-cases (shelved k db)) [
      | inr off ↦ rw off refl
      | inl on ↦ elim (Bool-cases (domain_allowed urls url ds)) [
        | inr outside ↦ rw (on, outside) refl
        | inl inside ↦ rw (on, inside, refused) refl
      ]
    ]

-- What other tasks do matters only by what it makes of the database that the claim leaves.
download-alike :
    (urls : UrlParser) (tracing : Bool) (net : Network urls) (ds : List Text) (k : BookKey)
    (url : Text) (claim_ms store_ms : ℕ) (some_tasks others : Database → Database) (db : Database)
    → (claim_cover_download k claim_ms db).0 ≡ ok true
    → some_tasks (claim_cover_download k claim_ms db).1
      ≡ others (claim_cover_download k claim_ms db).1
    → download urls tracing net ds k url claim_ms store_ms some_tasks db
      ≡ download urls tracing net ds k url claim_ms store_ms others db
unfolding download call request_cover
download-alike urls tracing net ds k url claim_ms store_ms some_tasks others db granted alike =
    let run = after_claim-granted urls tracing net ds k url store_ms in
    elim (Bool-cases (shelved k db)) [
      | inr off ↦ rw off refl
      | inl on ↦ elim (Bool-cases (domain_allowed urls url ds)) [
        | inr outside ↦ rw (on, outside) refl
        | inl inside ↦
            rw (on, inside) (run some_tasks _ granted ∙ rw alike refl ∙ sym (run others _ granted))
      ]
    ]

-- What is known of a task that has its slot, and of another one that starts after it.
module _ (k : BookKey) (claim_ms later_ms : ℕ) (db : Database) (unique : IsUnique db.books)
    (granted : (claim_cover_download k claim_ms db).0 ≡ ok true)
    (soon : later_ms - claim_ms < cover_inflight_retry_ms) where
  abbrev claimed : Database
  claimed = (claim_cover_download k claim_ms db).1

  -- Where each book has one row and a claim of the slot of a book's cover has been granted, a task
  -- for the same book, whatever URL and client it has, that starts on what the claim leaves, before
  -- the time that a download may be in flight has passed, sends no request and leaves the database
  -- as it is; and where this is all that happens while the claim's own task waits for its answer,
  -- that task leaves the same, and sends the same requests, as without it.
  pub download_exclusive :
      (urls : UrlParser) (tracing : Bool) (net : Network urls) (access_domains : List Text)
      (url : Text) (store_ms : ℕ) (meanwhile : Database → Database) (urls' : UrlParser)
      (tracing' : Bool) (net' : Network urls') (access_domains' : List Text) (url' : Text)
      (store_ms' : ℕ)
      → (download urls tracing net access_domains k url later_ms store_ms meanwhile
            (claim_cover_download k claim_ms db).1
          ≡ ((claim_cover_download k claim_ms db).1, []))
        × (download urls' tracing' net' access_domains' k url' claim_ms store_ms'
              (λ d.
                (download urls tracing net access_domains k url later_ms store_ms meanwhile d).0)
              db
            ≡ download urls' tracing' net' access_domains' k url' claim_ms store_ms' (λ d. d) db)
  download_exclusive urls tracing net access_domains url store_ms meanwhile urls' tracing' net'
        access_domains' url' store_ms' =
      let again : (claim_cover_download k later_ms claimed).0 ≡ ok false =
        claim_again k claim_ms later_ms db unique granted ∙ ground arith in
      let second =
        download-refused urls tracing net access_domains k url later_ms store_ms meanwhile claimed
          (claim-refused k later_ms claimed again) in
      (
        second,
        download-alike urls' tracing' net' access_domains' k url' claim_ms store_ms' _ (λ d. d) db
            granted (ap (λ r. r.0) second),
      )

module _ (urls : UrlParser) (tracing : Bool) (net : Network urls) (access_domains : List Text)
    (k : BookKey) (url : Text) (claim_ms store_ms : ℕ) (meanwhile : Database → Database)
    (db : Database) where
  -- What the slot's holder finds once its request has been answered.
  abbrev answered : Database
  answered = meanwhile (claim_cover_download k claim_ms db).1

  abbrev answer : Result HttpResponse
  answer = (execute urls tracing net access_domains (get url) cover_timeout).0

  download-granted :
      has k db.bookshelf ≡ true
      → domain_allowed urls url access_domains ≡ true
      → (claim_cover_download k claim_ms db).0 ≡ ok true
      → download urls tracing net access_domains k url claim_ms store_ms meanwhile db
        ≡ (after_execute k store_ms answer answered, get url ∷ [])
  unfolding download call request_cover
  download-granted on inside granted =
      rw (shelved-has k db, on, inside)
        (after_claim-granted urls tracing net access_domains k url store_ms meanwhile _ granted)

  -- Where a book has one row, a redirect hop that the allowlist blocks leaves its slot claimed: the
  -- next claim is granted only when the time that a download may be in flight has passed, if no
  -- other task writes meanwhile.
  pub download_hop_blocked :
      (next : Text) (domains : List Text) (later_ms : ℕ)
      → IsUnique db.books
      → has k db.bookshelf ≡ true
      → domain_allowed urls url access_domains ≡ true
      → (claim_cover_download k claim_ms db).0 ≡ ok true
      → answer ≡ err (domain_not_allowed next domains)
      → answered ≡ (claim_cover_download k claim_ms db).1
      → (claim_cover_download k later_ms
          (download urls tracing net access_domains k url claim_ms store_ms meanwhile db).0).0
        ≡ ok (leb cover_inflight_retry_ms (later_ms - claim_ms))
  download_hop_blocked next domains later_ms u on inside granted blocked alone =
      rw (download-granted on inside granted, blocked, alone)
        (claim_again k claim_ms later_ms db u granted)

  -- A granted download of an image that arrives in full stores its bytes, if the book's row is
  -- still there, and they are read back.
  pub download_stored :
      (resp : HttpResponse) (row : BookRow)
      → has k db.bookshelf ≡ true
      → domain_allowed urls url access_domains ≡ true
      → (claim_cover_download k claim_ms db).0 ≡ ok true
      → answer ≡ ok resp
      → is_image (content_type resp) ≡ true
      → is_empty resp.body ≡ false
      → lookup k answered.books ≡ some row
      → (get_cover_bytes k
          (download urls tracing net access_domains k url claim_ms store_ms meanwhile db).0).0
        ≡ ok (
            some (record {
              mime = mime_or_default (content_type resp);
              bytes = resp.body;
              fetched_at_ms = store_ms;
            }))
  unfolding store write get_cover_bytes
  download_stored resp row on inside granted arrives image full e =
      let cover : CoverRow = record {
        mime = mime_or_default (content_type resp);
        bytes = resp.body;
        fetched_at_ms = store_ms;
      } in
      rw (download-granted on inside granted, arrives, image, full, set_cover-eq k cover answered e)
        (ap (λ o. ok o) (lookup-put k cover answered.covers))
