-- ===== src/Cache/Cover.antt =====
-- native/langhuan/src/cache/mod.rs: `CoverDownloader`.
pub mod Guards
use langhuan.Prelude.{
  ℕ, ◌<◌, ◌≤◌, ◌*◌, ◌≡◌, refl, Bool, true, false, not, ◌&&◌, Option, none, some, List, [], ◌∷◌,
  Text, if◌then◌else◌, arith, ap, ◌∙◌, length, Bool-cases, Option-cases, inl, inr,
}
use langhuan.Prelude.Bytes.{codes, starts_with}
use langhuan.Prelude.Table.{lookup, has}
use langhuan.Error.{Error, Result, ok, err, domain_not_allowed, response_too_large}
use langhuan.Http.Url.{UrlParser}
use langhuan.Http.Domain.{domain_allowed}
use langhuan.Http.Response.{HttpRequest, HttpResponse, get, content_type}
use langhuan.Http.Body.{max_response_bytes}
use langhuan.Http.Client.{Network, execute}
use langhuan.Store.Rows.{BookKey, book_key_eq, CoverRow, failed, Database}
use langhuan.Store.Repo.{call, write}
use langhuan.Store.Books.{set_cover, mark_cover, claim_cover_download}
use langhuan.Cache.Stream.{shelved, shelved-has, or_false}

-- `COVER_TIMEOUT`, in milliseconds
abbrev pub cover_timeout : ℕ
cover_timeout = 30 * 1000

-- `CoverDownloader::mark_failed`
unfoldable pub mark_failed : BookKey → ℕ → Database → Database
mark_failed k now_ms db = (write (mark_cover k failed now_ms) db).1

abbrev pub is_image : Option Text → Bool
is_image none = true
is_image (some ct) = starts_with ct (codes "image/")

abbrev pub mime_or_default : Option Text → Text
mime_or_default none = codes "application/octet-stream"
mime_or_default (some ct) = ct

abbrev pub is_empty : Text → Bool
is_empty [] = true
is_empty (b ∷ bytes) = false

-- `CoverDownloader::store`
unfoldable pub store : BookKey → ℕ → HttpResponse → Database → Database
store k now_ms resp db =
    if not (is_image (content_type resp))
    then mark_failed k now_ms db
    else if is_empty resp.body
    then mark_failed k now_ms db
    else (write (set_cover k (mime_or_default (content_type resp)) resp.body now_ms) db).1

-- The match on the answer of `execute`.
abbrev pub after_execute : BookKey → ℕ → Result HttpResponse → Database → Database
after_execute k now_ms (ok resp) db = store k now_ms resp db
after_execute k now_ms (err (response_too_large limit)) db = mark_failed k now_ms db
after_execute k now_ms (err _) db = db

-- What a task of a download leaves, and the requests that it hands to its client.
abbrev pub Download : Type 0
Download = Database × List HttpRequest

-- The task's own client: the parser of URLs, whether a trace is recorded, the network and the
-- allowlist.
module _ (urls : UrlParser) (tracing : Bool) (net : Network urls) (access_domains : List Text) where
  -- The request for a claimed slot; `meanwhile` is what other tasks do to the database while it runs.
  unfoldable pub request_cover : BookKey → Text → ℕ → (Database → Database) → Database → Download
  request_cover k url store_ms meanwhile db = (
    after_execute k store_ms (execute urls tracing net access_domains (get url) cover_timeout).0
        (meanwhile db),
    get url ∷ [],
  )

  abbrev pub after_claim :
      BookKey → Text → ℕ → (Database → Database) → Result Bool × Database → Download
  after_claim k url store_ms meanwhile (ok true, db) = request_cover k url store_ms meanwhile db
  after_claim k url store_ms meanwhile (ok false, db) = (db, [])
  after_claim k url store_ms meanwhile (err e, db) = (db, [])

  -- `CoverDownloader::download`, which claims at one time and stores at another.
  unfoldable pub download : BookKey → Text → ℕ → ℕ → (Database → Database) → Database → Download
  download k url claim_ms store_ms meanwhile db =
      if shelved k db
      then (if domain_allowed urls url access_domains
          then after_claim k url store_ms meanwhile (call (claim_cover_download k claim_ms) db)
          else (db, []))
      else (db, [])
