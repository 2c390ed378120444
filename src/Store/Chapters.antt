-- ===== src/Store/Chapters.antt =====
-- native/langhuan/src/db/repo/cache.rs: the cached chapter lists and chapters.
pub mod RoundTrip
use langhuan.Prelude.{ℕ, ◌-◌, ◌*◌, ◌||◌, Option, none, some, List, same, leb, if◌then◌else◌}
use langhuan.Prelude.Table.{lookup, has, upsert, erase}
use langhuan.Error.{err, database}
use langhuan.Model.{ChapterInfo, Paragraph}
use langhuan.Store.Rows.{BookKey, book_key_eq, ChapterKey, chapter_key_eq, PayloadRow}
use langhuan.Store.Repo.{
  Repo, pure, lift, gets, modify, constrained, ◌>>=◌, ◌>>◌, Codec, encode_json,
}
use langhuan.Store.Books.{ensure_book, touch_book}

-- `CHAPTER_LIST_TTL_MS`
abbrev pub chapter_list_ttl_ms : ℕ
chapter_list_ttl_ms = 6 * 60 * 60 * 1000

-- `delete_chapter_list`
unfoldable pub delete_chapter_list : BookKey → Repo (Unit {0})
delete_chapter_list k =
    modify λ db. record db { chapter_lists = erase (λ j _. same j k) db.chapter_lists }

-- `delete_paragraphs`
unfoldable pub delete_paragraphs : ChapterKey → Repo (Unit {0})
delete_paragraphs k = modify λ db. record db { chapters = erase (λ j _. same j k) db.chapters }

module _ (codec : Codec (List ChapterInfo)) where
  -- A payload that does not decode is an error, and its row is dropped.
  abbrev pub decoded_list :
      BookKey → ℕ → Option (List ChapterInfo) → Repo (Option (List ChapterInfo))
  decoded_list k now_ms none = delete_chapter_list k >> lift (err database)
  decoded_list k now_ms (some chapters) = touch_book k now_ms >> pure (some chapters)

  abbrev pub served_list : BookKey → ℕ → Option PayloadRow → Repo (Option (List ChapterInfo))
  served_list k now_ms none = pure none
  served_list k now_ms (some row) =
      if leb (now_ms - row.cached_at_ms) chapter_list_ttl_ms
      then decoded_list k now_ms (codec.decode row.json)
      else pure none

  -- `get_chapter_list`
  unfoldable pub get_chapter_list : BookKey → ℕ → Repo (Option (List ChapterInfo))
  get_chapter_list k now_ms = do
    cached ← gets (λ db. lookup k db.chapter_lists)
    served_list k now_ms cached

  -- `set_chapter_list`
  unfoldable pub set_chapter_list : BookKey → List ChapterInfo → ℕ → Repo (Unit {0})
  set_chapter_list k chapters now_ms = do
    ensure_book k now_ms
    json ← lift (encode_json codec chapters)
    constrained (λ db. has k db.chapter_lists || has k db.books)
        (λ db. record db {
          chapter_lists =
              upsert k (record { json = json; cached_at_ms = now_ms })
                (λ _. record { json = json; cached_at_ms = now_ms }) db.chapter_lists;
        })
    touch_book k now_ms

module _ (codec : Codec (List Paragraph)) where
  abbrev pub decoded_chapter :
      ChapterKey → ℕ → Option (List Paragraph) → Repo (Option (List Paragraph))
  decoded_chapter k now_ms none = delete_paragraphs k >> lift (err database)
  decoded_chapter k now_ms (some paragraphs) = touch_book k.book now_ms >> pure (some paragraphs)

  abbrev pub served_chapter : ChapterKey → ℕ → Option PayloadRow → Repo (Option (List Paragraph))
  served_chapter k now_ms none = pure none
  served_chapter k now_ms (some row) = decoded_chapter k now_ms (codec.decode row.json)

  -- `get_paragraphs`
  unfoldable pub get_paragraphs : ChapterKey → ℕ → Repo (Option (List Paragraph))
  get_paragraphs k now_ms = do
    cached ← gets (λ db. lookup k db.chapters)
    served_chapter k now_ms cached

  -- `set_paragraphs`
  unfoldable pub set_paragraphs : ChapterKey → List Paragraph → ℕ → Repo (Unit {0})
  set_paragraphs k paragraphs now_ms = do
    ensure_book k.book now_ms
    json ← lift (encode_json codec paragraphs)
    constrained (λ db. has k db.chapters || has k.book db.books)
        (λ db. record db {
          chapters =
              upsert k (record { json = json; cached_at_ms = now_ms })
                (λ _. record { json = json; cached_at_ms = now_ms }) db.chapters;
        })
    touch_book k.book now_ms
