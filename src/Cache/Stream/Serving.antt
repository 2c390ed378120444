-- ===== src/Cache/Stream/Serving.antt =====
-- native/langhuan/src/cache/mod.rs: what a reader gets of a chapter, and what that leaves behind.
use langhuan.Prelude.{
  ℕ, ◌≡◌, refl, true, false, Option, none, some, List, [], ◌∷◌, ◌++◌, map, Text, ◌∙◌, ap, ◌⊎◌, inl,
  inr, Bool-cases, Option-cases, arith,
}
use langhuan.Prelude.Table.{lookup, has}
use langhuan.Error.{Error, Result, ok, err}
use langhuan.Model.{Paragraph}
use langhuan.Store.Rows.{book_key_eq, ChapterKey, chapter_key_eq, Database, PayloadRow}
use langhuan.Store.Repo.{Codec, call, write}
use langhuan.Store.Books.{may_hold_book, touch_book}
use langhuan.Store.Chapters.{get_paragraphs, set_paragraphs, delete_paragraphs}
use langhuan.Store.Chapters.RoundTrip.{stored, set_paragraphs-eq, get_paragraphs-stored}
use langhuan.Cache.Stream.{
  shelved-has, collect, persist, fetch, cache_first_stream, cached_paragraphs, Entry, after_get,
}

collect-map : {A : Type 0} (items : List A) → collect (map ok items) ≡ (map ok items, some items)
unfolding collect
collect-map [] = refl
collect-map (item ∷ items) = rw (collect-map items) refl

collect-broken :
    {A : Type 0} (items : List A) (e : Error) (rest : List (Result A))
    → collect (map ok items ++ err e ∷ rest) ≡ (map ok items ++ err e ∷ [], none)
unfolding collect
collect-broken [] e rest = refl
collect-broken (item ∷ items) e rest = rw (collect-broken items e rest) refl

-- A stream up to its first error.
abbrev pub up_to_error : {A : Type 0} → List (Result A) → List (Result A)
up_to_error [] = []
up_to_error (ok item ∷ rest) = ok item ∷ up_to_error rest
up_to_error (err e ∷ rest) = err e ∷ []

collect-yielded : {A : Type 0} (inner : List (Result A)) → (collect inner).0 ≡ up_to_error inner
unfolding collect
collect-yielded [] = refl
collect-yielded (ok item ∷ rest) = ap (λ yielded. ok item ∷ yielded) (collect-yielded rest)
collect-yielded (err e ∷ rest) = refl

module _ (codec : Codec (List Paragraph)) (k : ChapterKey) (read_ms write_ms : ℕ)
    (meanwhile : Database → Database) (inner : List (Result Paragraph)) (db : Database) where
  missed :
      has k.book db.bookshelf ≡ true
      → lookup k db.chapters ≡ none
      → cached_paragraphs codec k read_ms write_ms meanwhile inner db
        ≡ fetch
            (record {
              cache_get = get_paragraphs codec k read_ms;
              cache_clear = delete_paragraphs k;
              cache_set = λ collected. set_paragraphs codec k collected write_ms;
            })
            meanwhile
            inner
            db
  unfolding cached_paragraphs cache_first_stream get_paragraphs call
  missed on e = rw (shelved-has k.book db, on, e) refl

  -- Where the book is on the shelf and the chapter has no cached row, a stream of the inner feed
  -- that breaks off with an error is passed on up to that error, and the call stores nothing.
  pub cached_paragraphs_broken :
      (items : List Paragraph) (e : Error) (rest : List (Result Paragraph))
      → has k.book db.bookshelf ≡ true
      → lookup k db.chapters ≡ none
      → inner ≡ map ok items ++ err e ∷ rest
      → cached_paragraphs codec k read_ms write_ms meanwhile inner db
        ≡ (map ok items ++ err e ∷ [], meanwhile db)
  unfolding fetch persist
  cached_paragraphs_broken items e rest on miss parts =
      missed on miss ∙ rw (parts, collect-broken items e rest) refl

after_get-hit :
    {A : Type 0} (entry : Entry A) (meanwhile : Database → Database) (inner : List (Result A))
    (r : Result (Option (List A)) × Database) (items : List A)
    → r.0 ≡ ok (some items)
    → (after_get entry meanwhile inner r).0 ≡ map ok items
after_get-hit entry meanwhile inner r items h = rw h refl

hit :
    (codec : Codec (List Paragraph)) (k : ChapterKey) (read_ms write_ms : ℕ)
    (meanwhile : Database → Database) (inner : List (Result Paragraph)) (db : Database)
    (items : List Paragraph)
    → has k.book db.bookshelf ≡ true
    → (get_paragraphs codec k read_ms db).0 ≡ ok (some items)
    → (cached_paragraphs codec k read_ms write_ms meanwhile inner db).0 ≡ map ok items
unfolding cached_paragraphs cache_first_stream call
hit codec k read_ms write_ms meanwhile inner db items on h =
    rw (shelved-has k.book db, on) (after_get-hit _ meanwhile inner _ items h)

-- The paragraphs that the cache holds of a chapter.
abbrev pub cached_items : Codec (List Paragraph) → Option PayloadRow → Option (List Paragraph)
cached_items codec none = none
cached_items codec (some row) = codec.decode row.json

module _ (codec : Codec (List Paragraph)) (k : ChapterKey) (read_ms write_ms : ℕ)
    (meanwhile : Database → Database) (inner : List (Result Paragraph)) (db : Database) where
  abbrev served : List (Result Paragraph) × Database
  served = cached_paragraphs codec k read_ms write_ms meanwhile inner db

  get_paragraphs-held :
      (items : List Paragraph)
      → cached_items codec (lookup k db.chapters) ≡ some items
      → (get_paragraphs codec k read_ms db).0 ≡ ok (some items)
  unfolding get_paragraphs touch_book
  get_paragraphs-held items h = ground arith

  yields-live :
      has k.book db.bookshelf ≡ true
      → cached_items codec (lookup k db.chapters) ≡ none
      → served.0 ≡ up_to_error inner
  unfolding cached_paragraphs cache_first_stream get_paragraphs call fetch
  yields-live on h = ground (arith, shelved-has k.book db, collect-yielded inner)

  -- A reader of a chapter gets one of three streams: what the inner feed yields, errors that it
  -- goes on after included, if the book is not on the shelf, and the call then stores nothing; the
  -- paragraphs that the cache holds, if the book is on the shelf and the cached chapter decodes;
  -- and what the inner feed yields up to its first error otherwise.
  pub cached_paragraphs_yields :
      ((has k.book db.bookshelf ≡ false)
        × (cached_paragraphs codec k read_ms write_ms meanwhile inner db ≡ (inner, meanwhile db)))
      ⊎ (((items : List Paragraph) × (has k.book db.bookshelf ≡ true)
            × (cached_items codec (lookup k db.chapters) ≡ some items)
            × ((cached_paragraphs codec k read_ms write_ms meanwhile inner db).0 ≡ map ok items))
          ⊎ ((has k.book db.bookshelf ≡ true)
              × (cached_items codec (lookup k db.chapters) ≡ none)
              × ((cached_paragraphs codec k read_ms write_ms meanwhile inner db).0
                  ≡ up_to_error inner)))
  unfolding cached_paragraphs cache_first_stream
  cached_paragraphs_yields = elim (Bool-cases (has k.book db.bookshelf)) [
    | inr off ↦ inl (off, rw (shelved-has k.book db, off) refl)
    | inl on ↦ inr (elim (Option-cases (cached_items codec (lookup k db.chapters))) [
      | inl none_held ↦ inr (on, none_held, yields-live on none_held)
      | inr (items, held) ↦ inl (
        items,
        on,
        held,
        hit codec k read_ms write_ms meanwhile inner db items on (get_paragraphs-held items held),
      )
    ])
  ]

module _ (codec : Codec (List Paragraph)) (k : ChapterKey) (items : List Paragraph) (json : Text)
    (writes : codec.encode items ≡ some json) where
  -- A chapter of a shelved book that is not cached is passed on from the inner feed, and once that
  -- has streamed it to its end, the next read serves it whatever the inner feed would yield then,
  -- if the paragraphs can be encoded, and when the chapter is stored the book is still on the shelf
  -- and it or its feed has a row.
  pub cached_paragraphs_again :
      (read_ms write_ms later_ms again_ms : ℕ) (meanwhile later : Database → Database)
      (inner : List (Result Paragraph)) (db : Database)
      → has k.book db.bookshelf ≡ true
      → lookup k db.chapters ≡ none
      → has k.book (meanwhile db).bookshelf ≡ true
      → may_hold_book k.book (meanwhile db) ≡ true
      → (after : Database) × (cached_paragraphs codec k read_ms write_ms meanwhile (map ok items) db
          ≡ (map ok items, after))
        × ((cached_paragraphs codec k later_ms again_ms later inner after).0 ≡ map ok items)
  unfolding fetch persist write
  cached_paragraphs_again read_ms write_ms later_ms again_ms meanwhile later inner db on miss still
        holds =
      let read = get_paragraphs-stored codec k items write_ms (meanwhile db) later_ms json writes in
      (
        stored codec k items write_ms (meanwhile db) json,
        missed codec k read_ms write_ms meanwhile (map ok items) db on miss
            ∙ rw
                (
                  collect-map items,
                  set_paragraphs-eq codec k items write_ms (meanwhile db) holds writes,
                )
                refl,
        hit codec k later_ms again_ms later inner
            (stored codec k items write_ms (meanwhile db) json) items still read,
      )
