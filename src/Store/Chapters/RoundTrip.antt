-- ===== src/Store/Chapters/RoundTrip.antt =====
-- native/langhuan/src/db/repo/cache.rs: what a reader gets of what was cached, and of a broken payload.
use langhuan.Prelude.{
  ℕ, ◌-◌, ◌≡◌, refl, true, ◌||◌, none, some, List, Text, same, same_refl, leb, arith, if◌then◌else◌,
  Bool-cases, inl, inr,
}
use langhuan.Prelude.Table.{lookup, has, upsert, lookup-upsert, lookup-put, lookup-erase_key}
use langhuan.Error.{ok, err, database}
use langhuan.Model.{ChapterInfo, Paragraph}
use langhuan.Store.Rows.{BookKey, book_key_eq, ChapterKey, chapter_key_eq, PayloadRow, Database}
use langhuan.Store.Repo.{constrained, Codec, encode_json}
use langhuan.Store.Books.{may_hold_book, placeholder, set_book, ensure_book, touch_book}
use langhuan.Store.Chapters.{
  chapter_list_ttl_ms, get_paragraphs, set_paragraphs, get_chapter_list, set_chapter_list,
  delete_paragraphs,
}

-- What `ensure_book` leaves where it is admitted.
abbrev pub ensured : BookKey → ℕ → Database → Database
ensured k now_ms db = record db { books = upsert k (placeholder k now_ms) (λ row. row) db.books }

module _ (k : BookKey) (now_ms : ℕ) (db : Database) where
  ensure_book-eq :
      may_hold_book k db ≡ true → ensure_book k now_ms db ≡ (ok tt, ensured k now_ms db)
  unfolding ensure_book
  ensure_book-eq h = rw (h, constrained) refl

  has-ensured : has k (ensured k now_ms db).books ≡ true
  has-ensured =
      rw (lookup-upsert k k (placeholder k now_ms) (λ row. row) db.books, same_refl k, has) refl

module _ (codec : Codec (List Paragraph)) (k : ChapterKey) (paragraphs : List Paragraph)
    (now_ms : ℕ) (db : Database) where
  abbrev pub stored : Text → Database
  stored json =
      set_book k.book (λ row. record row { last_used_at_ms = now_ms })
        (let db' = ensured k.book now_ms db in
          record db' {
            chapters =
                upsert k (record { json = json; cached_at_ms = now_ms })
                  (λ _. record { json = json; cached_at_ms = now_ms }) db'.chapters;
          })

  pub set_paragraphs-eq :
      {json : Text}
      → may_hold_book k.book db ≡ true
      → codec.encode paragraphs ≡ some json
      → set_paragraphs codec k paragraphs now_ms db ≡ (ok tt, stored json)
  unfolding set_paragraphs touch_book
  set_paragraphs-eq h e =
      let allowed : (has k db.chapters || has k.book (ensured k.book now_ms db).books) ≡ true =
        ground (arith, has-ensured k.book now_ms db) in
      rw (ensure_book-eq k.book now_ms db h, e, allowed, constrained, encode_json) refl

  pub get_paragraphs-stored :
      (later_ms : ℕ) (json : Text)
      → codec.encode paragraphs ≡ some json
      → (get_paragraphs codec k later_ms (stored json)).0 ≡ ok (some paragraphs)
  unfolding get_paragraphs touch_book
  get_paragraphs-stored later_ms json e =
      rw
        (
          lookup-put k (record { json = json; cached_at_ms = now_ms }) db.chapters,
          codec.decode-encode paragraphs json e,
        )
        refl

  -- A chapter that is stored is read back at any later time, whatever was cached before, if its
  -- book or its feed is there and it can be written as JSON.
  pub get_paragraphs-set_paragraphs :
      (later_ms : ℕ) (json : Text)
      → may_hold_book k.book db ≡ true
      → codec.encode paragraphs ≡ some json
      → (after : Database) × (set_paragraphs codec k paragraphs now_ms db ≡ (ok tt, after))
        × ((get_paragraphs codec k later_ms after).0 ≡ ok (some paragraphs))
  get_paragraphs-set_paragraphs later_ms json h e =
      (stored json, set_paragraphs-eq h e, get_paragraphs-stored later_ms json e)

module _ (codec : Codec (List Paragraph)) (k : ChapterKey) (now_ms later_ms : ℕ)
    (db : Database) where
  -- A cached chapter that does not decode is an error once: outside a transaction its row is
  -- dropped, and the next read finds nothing.
  pub get_paragraphs_broken :
      (row : PayloadRow)
      → lookup k db.chapters ≡ some row
      → codec.decode row.json ≡ none
      → ((get_paragraphs codec k now_ms db).0 ≡ err database)
        × ((get_paragraphs codec k later_ms (get_paragraphs codec k now_ms db).1).0 ≡ ok none)
  unfolding get_paragraphs delete_paragraphs
  get_paragraphs_broken row e broken = (
    rw (e, broken) refl,
    rw (e, broken, lookup-erase_key (λ j. same j k) k db.chapters, same_refl k) refl,
  )

module _ (codec : Codec (List ChapterInfo)) (k : BookKey) (chapters : List ChapterInfo) (now_ms : ℕ)
    (db : Database) where
  abbrev stored_list : Text → Database
  stored_list json =
      set_book k (λ row. record row { last_used_at_ms = now_ms })
        (let db' = ensured k now_ms db in
          record db' {
            chapter_lists =
                upsert k (record { json = json; cached_at_ms = now_ms })
                  (λ _. record { json = json; cached_at_ms = now_ms }) db'.chapter_lists;
          })

  set_chapter_list-eq :
      {json : Text}
      → may_hold_book k db ≡ true
      → codec.encode chapters ≡ some json
      → set_chapter_list codec k chapters now_ms db ≡ (ok tt, stored_list json)
  unfolding set_chapter_list touch_book
  set_chapter_list-eq h e =
      let allowed : (has k db.chapter_lists || has k (ensured k now_ms db).books) ≡ true =
        ground (arith, has-ensured k now_ms db) in
      rw (ensure_book-eq k now_ms db h, e, allowed, constrained, encode_json) refl

  -- A chapter list that is stored is read back until it is six hours old, and after that the cache
  -- answers nothing, if the book or its feed is there and the list can be written as JSON.
  pub get_chapter_list-set_chapter_list :
      (later_ms : ℕ) (json : Text)
      → may_hold_book k db ≡ true
      → codec.encode chapters ≡ some json
      → (after : Database) × (set_chapter_list codec k chapters now_ms db ≡ (ok tt, after))
        × ((get_chapter_list codec k later_ms after).0
            ≡ ok (if leb (later_ms - now_ms) chapter_list_ttl_ms then some chapters else none))
  unfolding get_chapter_list touch_book
  get_chapter_list-set_chapter_list later_ms json h e = (
    stored_list json,
    set_chapter_list-eq h e,
    rw
        (
          lookup-put k (record { json = json; cached_at_ms = now_ms }) db.chapter_lists,
          codec.decode-encode chapters json e,
        )
        (elim (Bool-cases (leb (later_ms - now_ms) chapter_list_ttl_ms)) [
          | inl fresh_still ↦ rw fresh_still refl
          | inr old ↦ rw old refl
        ]),
  )
