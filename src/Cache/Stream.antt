-- ===== src/Cache/Stream.antt =====
-- native/langhuan/src/cache/mod.rs: `cache_first_stream!` and the two streams that are made with it.
-- A stream is the list of what it yields to a consumer that reads it to the end.
pub mod Serving
use langhuan.Prelude.{
  ℕ, ◌≡◌, refl, Bool, true, false, Option, none, some, List, [], ◌∷◌, map, Text, if◌then◌else◌,
}
use langhuan.Error.{Result, ok, err}
use langhuan.Model.{ChapterInfo, Paragraph}
use langhuan.Prelude.Table.{has}
use langhuan.Store.Rows.{book_key_eq, BookKey, ChapterKey, Database}
use langhuan.Store.Repo.{Repo, Codec, call, write}
use langhuan.Store.Chapters.{
  delete_chapter_list, get_chapter_list, set_chapter_list, delete_paragraphs, get_paragraphs,
  set_paragraphs,
}
use langhuan.Store.Shelf.{is_shelved}

-- `Result::unwrap_or(false)`
abbrev pub or_false : Result Bool → Bool
or_false (ok b) = b
or_false (err e) = false

-- `CachedFeed::shelved`
unfoldable pub shelved : BookKey → Database → Bool
shelved k db = or_false (call (is_shelved k) db).0

pub shelved-has : (k : BookKey) (db : Database) → shelved k db ≡ has k db.bookshelf
unfolding shelved is_shelved call
shelved-has k db = refl

-- The expressions that the macro takes.
pub record Entry (A : Type 0) : Type 0 where
  pub cache_get : Repo (Option (List A))
  pub cache_clear : Repo (Unit {0})
  pub cache_set : List A → Repo (Unit {0})

module _ {A : Type 0} where
  abbrev cons_collected : A → Option (List A) → Option (List A)
  cons_collected item none = none
  cons_collected item (some items) = some (item ∷ items)

  -- The loop over the inner stream: what it yields, and the items if it meets no error.
  unfoldable pub collect : List (Result A) → List (Result A) × Option (List A)
  collect [] = ([], some [])
  collect (ok item ∷ rest) =
      let (yielded, collected) = collect rest in (ok item ∷ yielded, cons_collected item collected)
  collect (err e ∷ rest) = (err e ∷ [], none)

  -- What follows `cache_set`.
  abbrev pub after_set : Entry A → Result (Unit {0}) × Database → Database
  after_set entry (ok _, db) = db
  after_set entry (err e, db) = (write entry.cache_clear db).1

  unfoldable pub persist : Entry A → Option (List A) → Database → Database
  persist entry none db = db
  persist entry (some collected) db = after_set entry (write (entry.cache_set collected) db)

  -- The inner stream, collected and persisted. `meanwhile` is what other tasks do to the database
  -- while it runs.
  unfoldable pub fetch :
      Entry A → (Database → Database) → List (Result A) → Database → List (Result A) × Database
  fetch entry meanwhile inner db =
      let (yielded, collected) = collect inner in (yielded, persist entry collected (meanwhile db))

  -- The match on `cache_get`.
  abbrev pub after_get :
      Entry A
      → (Database → Database)
      → List (Result A)
      → Result (Option (List A)) × Database
      → List (Result A) × Database
  after_get entry meanwhile inner (ok (some items), db) = (map ok items, db)
  after_get entry meanwhile inner (ok none, db) = fetch entry meanwhile inner db
  after_get entry meanwhile inner (err e, db) =
      fetch entry meanwhile inner (write entry.cache_clear db).1

  -- `cache_first_stream!`
  unfoldable pub cache_first_stream :
      Bool
      → Entry A
      → (Database → Database)
      → List (Result A)
      → Database
      → List (Result A) × Database
  cache_first_stream gate entry meanwhile inner db =
      if gate
      then after_get entry meanwhile inner (call entry.cache_get db)
      else (inner, meanwhile db)

-- `CachedFeed::cached_paragraphs`, which reads the cache at one time and writes it at another.
unfoldable pub cached_paragraphs :
    Codec (List Paragraph)
    → ChapterKey
    → ℕ
    → ℕ
    → (Database → Database)
    → List (Result Paragraph)
    → Database
    → List (Result Paragraph) × Database
cached_paragraphs codec k read_ms write_ms meanwhile inner db =
    cache_first_stream (shelved k.book db)
      (record {
        cache_get = get_paragraphs codec k read_ms;
        cache_clear = delete_paragraphs k;
        cache_set = λ collected. set_paragraphs codec k collected write_ms;
      })
      meanwhile inner db

-- `CachedFeed::cached_chapters`
unfoldable pub cached_chapters :
    Codec (List ChapterInfo)
    → BookKey
    → ℕ
    → ℕ
    → (Database → Database)
    → List (Result ChapterInfo)
    → Database
    → List (Result ChapterInfo) × Database
cached_chapters codec k read_ms write_ms meanwhile inner db =
    cache_first_stream (shelved k db)
      (record {
        cache_get = get_chapter_list codec k read_ms;
        cache_clear = delete_chapter_list k;
        cache_set = λ collected. set_chapter_list codec k collected write_ms;
      })
      meanwhile inner db
