-- ===== src/Store/Cascade/Kept.antt =====
-- native/langhuan/src/db: what a deletion keeps of a book, and what it leaves nothing of.
use langhuan.Prelude.{
  Option-cases, inl, inr, ◌≡◌, refl, Bool, true, false, none, some, Text, text_eq, arith, ◌∙◌,
}
use langhuan.Prelude.Table.{
  count, erase_none, erase_never, lookup-eq_none_of_count, lookup, erase, lookup-erase_key,
}
use langhuan.Prelude.Table.Keys.{IsUnique, lookup-erase}
use langhuan.Store.Rows.{
  BookKey, book_key_eq, ChapterKey, chapter_key_eq, BookRow, BookmarkRow, Database,
}
use langhuan.Store.Cascade.{goes, delete_books}

abbrev pub chapter_of : BookKey → Text → ChapterKey
chapter_of k chapter_id = record { book = k; chapter_id = chapter_id }

-- The second database has of a book all that the first one has.
pub record KeepsBook (k : BookKey) (db db' : Database) : Type 0 where
  pub book : lookup k db'.books ≡ lookup k db.books
  pub cover : lookup k db'.covers ≡ lookup k db.covers
  pub shelf : lookup k db'.bookshelf ≡ lookup k db.bookshelf
  pub progress : lookup k db'.reading_progress ≡ lookup k db.reading_progress
  pub list : lookup k db'.chapter_lists ≡ lookup k db.chapter_lists
  pub chapter :
      (chapter_id : Text)
      → lookup (chapter_of k chapter_id) db'.chapters ≡ lookup (chapter_of k chapter_id) db.chapters
  pub bookmark :
      (id : Text) (row : BookmarkRow)
      → row.book ≡ k
      → lookup id db.bookmarks ≡ some row
      → lookup id db'.bookmarks ≡ some row

pub KeepsBook-trans :
    {k : BookKey} {a b c : Database} → KeepsBook k a b → KeepsBook k b c → KeepsBook k a c
KeepsBook-trans f g = record {
  book = g.book ∙ f.book;
  cover = g.cover ∙ f.cover;
  shelf = g.shelf ∙ f.shelf;
  progress = g.progress ∙ f.progress;
  list = g.list ∙ f.list;
  chapter = λ id. g.chapter id ∙ f.chapter id;
  bookmark = λ id row e h. g.bookmark id row e (f.bookmark id row e h);
}

module _ (p : BookKey → BookRow → Bool) (k : BookKey) (db : Database) (u : IsUnique db.books)
    (stays : goes p db k ≡ false) where
  kept_book : lookup k (erase p db.books) ≡ lookup k db.books
  unfolding goes
  kept_book = ground (arith, lookup-erase p k db.books u)

  -- A deletion of other books.
  pub KeepsBook-delete_books : KeepsBook k db (delete_books p db)
  unfolding delete_books
  KeepsBook-delete_books = record {
    book = kept_book;
    cover = lookup-erase_key (goes p db) k db.covers ∙ rw stays refl;
    shelf = lookup-erase_key (goes p db) k db.bookshelf ∙ rw stays refl;
    progress = refl;
    list = lookup-erase_key (goes p db) k db.chapter_lists ∙ rw stays refl;
    chapter = λ id.
        lookup-erase_key (λ c. goes p db c.book) (chapter_of k id) db.chapters ∙ rw stays refl;
    bookmark = λ id row e h. h;
  }

-- The second database has nothing that a book's rows in `books` bring along.
pub record HasNoCacheOf (k : BookKey) (db : Database) : Type 0 where
  pub no_book : lookup k db.books ≡ none
  pub no_cover : lookup k db.covers ≡ none
  pub no_shelf : lookup k db.bookshelf ≡ none
  pub no_list : lookup k db.chapter_lists ≡ none
  pub no_chapter : (chapter_id : Text) → lookup (chapter_of k chapter_id) db.chapters ≡ none

pub HasNoCacheOf-delete_books :
    (p : BookKey → BookRow → Bool) (k : BookKey) (db : Database)
    → IsUnique db.books
    → goes p db k ≡ true
    → HasNoCacheOf k (delete_books p db)
unfolding delete_books goes
HasNoCacheOf-delete_books p k db u gone = record {
  no_book = ground (arith, lookup-erase p k db.books u);
  no_cover = lookup-erase_key (goes p db) k db.covers ∙ rw gone refl;
  no_shelf = lookup-erase_key (goes p db) k db.bookshelf ∙ rw gone refl;
  no_list = lookup-erase_key (goes p db) k db.chapter_lists ∙ rw gone refl;
  no_chapter =
      λ id. lookup-erase_key (λ c. goes p db c.book) (chapter_of k id) db.chapters ∙ rw gone refl;
}

-- A deletion that finds no book changes nothing.
module _ (p : BookKey → BookRow → Bool) (db : Database) (nothing : count p db.books ≡ 0) where
  goes-none : (k : BookKey) → goes p db k ≡ false
  unfolding goes
  goes-none k = elim (Option-cases (lookup k db.books)) [
    | inl e ↦ rw (e, goes) refl
    | inr (row, e) ↦ rw (e, goes) (lookup-eq_none_of_count p k row db.books nothing e)
  ]

  pub delete_books-none : delete_books p db ≡ db
  unfolding delete_books
  delete_books-none =
      rw
        (
          erase_none p db.books nothing,
          erase_never (λ k _. goes p db k) db.covers (λ k _. goes-none k),
          erase_never (λ k _. goes p db k) db.bookshelf (λ k _. goes-none k),
          erase_never (λ k _. goes p db k) db.chapter_lists (λ k _. goes-none k),
          erase_never (λ k _. goes p db k.book) db.chapters (λ k _. goes-none k.book),
        )
        refl
