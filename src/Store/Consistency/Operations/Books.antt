-- ===== src/Store/Consistency/Operations/Books.antt =====
-- native/langhuan/src/db/repo/cache.rs and bookshelf.rs: the methods keep the constraints.
use langhuan.Prelude.{◌≡◌, ℕ, Bool, true, Option, none, some, List, Text, text_eq, arith}
use langhuan.Prelude.Table.{lookup, upsert, update, erase}
use langhuan.Prelude.Table.Keys.{IsUnique-upsert, IsUnique-update, IsUnique-erase}
use langhuan.Prelude.Table.Child.{
  IsChild-upsert, IsChild-update, IsChild-erase, has-upsert, has-update,
}
use langhuan.Error.{err, database}
use langhuan.Model.{BookInfo, ChapterInfo, Paragraph}
use langhuan.Store.Rows.{
  BookKey, book_key_eq, ChapterKey, chapter_key_eq, BookRow, CoverRow, CoverState, PayloadRow,
  Database,
}
use langhuan.Store.Repo.{gets, Codec, encode_json}
use langhuan.Store.Books
use langhuan.Store.Books.{Snapshot, set_book, may_hold_book}
use langhuan.Store.Chapters
use langhuan.Store.Consistency.{IsConsistent, put_books, put_covers, put_lists, put_chapters}
use langhuan.Store.Consistency.Operations.Rules.{
  Keeps, Keeps-pure, Keeps-lift, Keeps-gets, Keeps-modify, Keeps-constrained, Keeps-bind, Keeps-if,
}

-- An insertion into `books`, or the update of the row in its place.
upsert_book-IsConsistent :
    (k : BookKey) (fresh : BookRow) (onto : BookRow → BookRow) (db : Database)
    → IsConsistent db
    → may_hold_book k db ≡ true
    → IsConsistent (record db { books = upsert k fresh onto db.books })
upsert_book-IsConsistent k fresh onto db h allowed =
    put_books h _ (IsUnique-upsert k fresh onto db.books h.books_keys)
      (IsChild-upsert _ k fresh onto db.books allowed h.books_feed)
      (λ j i. ground (arith, has-upsert k j fresh onto db.books))

update_books-IsConsistent :
    (f : BookKey → BookRow → BookRow) (db : Database)
    → IsConsistent db
    → IsConsistent (record db { books = update f db.books })
update_books-IsConsistent f db h =
    put_books h _ (IsUnique-update f db.books h.books_keys)
      (IsChild-update _ f db.books h.books_feed) (λ j i. ground (arith, has-update f j db.books))

erase_covers-IsConsistent :
    (p : BookKey → CoverRow → Bool) (db : Database)
    → IsConsistent db
    → IsConsistent (record db { covers = erase p db.covers })
erase_covers-IsConsistent p db h =
    put_covers h _ (IsUnique-erase p db.covers h.covers_keys)
      (IsChild-erase _ p db.covers h.covers_book)

pub Keeps-ensure_book : (k : BookKey) (now_ms : ℕ) → Keeps (Books.ensure_book k now_ms)
unfolding Books.ensure_book
Keeps-ensure_book k now_ms = Keeps-constrained _ _ (upsert_book-IsConsistent k _ _)

pub Keeps-touch_book : (k : BookKey) (now_ms : ℕ) → Keeps (Books.touch_book k now_ms)
unfolding Books.touch_book
Keeps-touch_book k now_ms = Keeps-modify _ (update_books-IsConsistent _)

Keeps-touch_found :
    (k : BookKey) (now_ms : ℕ) (found : Option BookRow) → Keeps (Books.touch_found k now_ms found)
Keeps-touch_found k now_ms none = Keeps-pure none
Keeps-touch_found k now_ms (some row) =
    Keeps-bind _ _ (Keeps-modify _ (update_books-IsConsistent _)) (λ _. Keeps-pure (some row))

pub Keeps-get_book_and_touch :
    (k : BookKey) (now_ms : ℕ) → Keeps (Books.get_book_and_touch k now_ms)
unfolding Books.get_book_and_touch
Keeps-get_book_and_touch k now_ms =
    Keeps-bind (gets λ db. lookup k db.books) (Books.touch_found k now_ms) (Keeps-gets _)
      (Keeps-touch_found k now_ms)

Keeps-delete_stale_cover :
    (k : BookKey) (url : Option Text) → Keeps (Books.delete_stale_cover k url)
unfolding Books.delete_stale_cover
Keeps-delete_stale_cover k url = Keeps-modify _ (λ db. erase_covers-IsConsistent _ db)

pub Keeps-upsert_fetched_book :
    (feed_id : Text) (info : BookInfo) (now_ms : ℕ)
    → Keeps (Books.upsert_fetched_book feed_id info now_ms)
unfolding Books.upsert_fetched_book
Keeps-upsert_fetched_book feed_id info now_ms =
    Keeps-bind _ _ (Keeps-delete_stale_cover _ _)
      (λ _. Keeps-constrained _ _ (upsert_book-IsConsistent _ _ _))

pub Keeps-upsert_snapshot :
    (k : BookKey) (s : Snapshot) (now_ms : ℕ) → Keeps (Books.upsert_snapshot k s now_ms)
unfolding Books.upsert_snapshot
Keeps-upsert_snapshot k s now_ms =
    Keeps-bind _ _ (Keeps-delete_stale_cover _ _)
      (λ _. Keeps-constrained _ _ (upsert_book-IsConsistent _ _ _))

pub Keeps-set_cover :
    (k : BookKey) (mime bytes : Text) (now_ms : ℕ) → Keeps (Books.set_cover k mime bytes now_ms)
unfolding Books.set_cover
Keeps-set_cover k mime bytes now_ms =
    Keeps-bind _ _
      (Keeps-constrained _ _ (λ db h allowed.
        put_covers h _ (IsUnique-upsert k _ _ db.covers h.covers_keys)
          (IsChild-upsert _ k _ _ db.covers allowed h.covers_book)))
      (λ _. Keeps-modify _ (update_books-IsConsistent _))

pub Keeps-mark_cover :
    (k : BookKey) (state : CoverState) (now_ms : ℕ) → Keeps (Books.mark_cover k state now_ms)
unfolding Books.mark_cover
Keeps-mark_cover k state now_ms = Keeps-modify _ (update_books-IsConsistent _)

pub Keeps-claim_cover_download :
    (k : BookKey) (now_ms : ℕ) → Keeps (Books.claim_cover_download k now_ms)
unfolding Books.claim_cover_download
Keeps-claim_cover_download k now_ms = record { at = λ db h. update_books-IsConsistent _ db h }

pub Keeps-delete_cover : (k : BookKey) → Keeps (Books.delete_cover k)
unfolding Books.delete_cover
Keeps-delete_cover k = Keeps-modify _ (erase_covers-IsConsistent _)

pub Keeps-delete_chapter_list : (k : BookKey) → Keeps (Chapters.delete_chapter_list k)
unfolding Chapters.delete_chapter_list
Keeps-delete_chapter_list k = Keeps-modify _ (λ db h.
    put_lists h _ (IsUnique-erase _ db.chapter_lists h.lists_keys)
      (IsChild-erase _ _ db.chapter_lists h.lists_book))

pub Keeps-delete_paragraphs : (k : ChapterKey) → Keeps (Chapters.delete_paragraphs k)
unfolding Chapters.delete_paragraphs
Keeps-delete_paragraphs k = Keeps-modify _ (λ db h.
    put_chapters h _ (IsUnique-erase _ db.chapters h.chapters_keys)
      (IsChild-erase _ _ db.chapters h.chapters_book))

module _ (codec : Codec (List ChapterInfo)) where
  Keeps-decoded_list :
      (k : BookKey) (now_ms : ℕ) (o : Option (List ChapterInfo))
      → Keeps (Chapters.decoded_list codec k now_ms o)
  Keeps-decoded_list k now_ms none =
      Keeps-bind _ _ (Keeps-delete_chapter_list k) (λ _. Keeps-lift (err database))
  Keeps-decoded_list k now_ms (some cs) =
      Keeps-bind _ _ (Keeps-touch_book k now_ms) (λ _. Keeps-pure (some cs))

  Keeps-served_list :
      (k : BookKey) (now_ms : ℕ) (o : Option PayloadRow)
      → Keeps (Chapters.served_list codec k now_ms o)
  Keeps-served_list k now_ms none = Keeps-pure none
  Keeps-served_list k now_ms (some row) =
      Keeps-if _ _ _ (Keeps-decoded_list k now_ms (codec.decode row.json)) (Keeps-pure none)

  pub Keeps-get_chapter_list :
      (k : BookKey) (now_ms : ℕ) → Keeps (Chapters.get_chapter_list codec k now_ms)
  unfolding Chapters.get_chapter_list
  Keeps-get_chapter_list k now_ms =
      Keeps-bind (gets λ db. lookup k db.chapter_lists) (Chapters.served_list codec k now_ms)
        (Keeps-gets _) (Keeps-served_list k now_ms)

  pub Keeps-set_chapter_list :
      (k : BookKey) (cs : List ChapterInfo) (now_ms : ℕ)
      → Keeps (Chapters.set_chapter_list codec k cs now_ms)
  unfolding Chapters.set_chapter_list
  Keeps-set_chapter_list k cs now_ms = Keeps-bind _ _ (Keeps-ensure_book k now_ms) λ _.
      Keeps-bind _ _ (Keeps-lift (encode_json codec cs)) λ json.
        Keeps-bind _ _
          (Keeps-constrained _ _ (λ db h allowed.
            put_lists h _ (IsUnique-upsert k _ _ db.chapter_lists h.lists_keys)
              (IsChild-upsert _ k _ _ db.chapter_lists allowed h.lists_book)))
          (λ _. Keeps-touch_book k now_ms)

module _ (codec : Codec (List Paragraph)) where
  Keeps-decoded_chapter :
      (k : ChapterKey) (now_ms : ℕ) (o : Option (List Paragraph))
      → Keeps (Chapters.decoded_chapter codec k now_ms o)
  Keeps-decoded_chapter k now_ms none =
      Keeps-bind _ _ (Keeps-delete_paragraphs k) (λ _. Keeps-lift (err database))
  Keeps-decoded_chapter k now_ms (some ps) =
      Keeps-bind _ _ (Keeps-touch_book k.book now_ms) (λ _. Keeps-pure (some ps))

  Keeps-served_chapter :
      (k : ChapterKey) (now_ms : ℕ) (o : Option PayloadRow)
      → Keeps (Chapters.served_chapter codec k now_ms o)
  Keeps-served_chapter k now_ms none = Keeps-pure none
  Keeps-served_chapter k now_ms (some row) = Keeps-decoded_chapter k now_ms (codec.decode row.json)

  pub Keeps-get_paragraphs :
      (k : ChapterKey) (now_ms : ℕ) → Keeps (Chapters.get_paragraphs codec k now_ms)
  unfolding Chapters.get_paragraphs
  Keeps-get_paragraphs k now_ms =
      Keeps-bind (gets λ db. lookup k db.chapters) (Chapters.served_chapter codec k now_ms)
        (Keeps-gets _) (Keeps-served_chapter k now_ms)

  pub Keeps-set_paragraphs :
      (k : ChapterKey) (ps : List Paragraph) (now_ms : ℕ)
      → Keeps (Chapters.set_paragraphs codec k ps now_ms)
  unfolding Chapters.set_paragraphs
  Keeps-set_paragraphs k ps now_ms = Keeps-bind _ _ (Keeps-ensure_book k.book now_ms) λ _.
      Keeps-bind _ _ (Keeps-lift (encode_json codec ps)) λ json.
        Keeps-bind _ _
          (Keeps-constrained _ _ (λ db h allowed.
            put_chapters h _ (IsUnique-upsert k _ _ db.chapters h.chapters_keys)
              (IsChild-upsert _ k _ _ db.chapters allowed h.chapters_book)))
          (λ _. Keeps-touch_book k.book now_ms)
