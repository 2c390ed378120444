-- ===== src/Store/Shelf.antt =====
-- native/langhuan/src/db/repo/bookshelf.rs
pub mod Removal
use langhuan.Prelude.{
  ℕ, zero, suc, ◌+◌, Bool, true, false, not, ◌||◌, Option, none, some, List, [], ◌∷◌, map, Text,
  text_eq, same, length, if◌then◌else◌,
}
use langhuan.Prelude.Bytes.{trim}
use langhuan.Prelude.Table.{has, upsert, update, erase}
use langhuan.Error.{ok}
use langhuan.Model.{ChapterInfo, Paragraph, ParagraphId, paragraph_id}
use langhuan.Store.Rows.{BookKey, book_key_eq, ShelfRow, Database}
use langhuan.Store.Repo.{Repo, pure, gets, modify, constrained, ◌>>=◌, ◌>>◌, Codec}
use langhuan.Store.Books.{Snapshot, upsert_snapshot}
use langhuan.Store.Cascade.{delete_books}

-- `INSERT OR IGNORE INTO bookshelf`
unfoldable pub shelve : BookKey → ℕ → Repo (Unit {0})
shelve k now_ms =
    constrained (λ db. has k db.bookshelf || has k db.books)
      λ db. record db {
        bookshelf =
            upsert k (record { added_at_ms = now_ms; last_seen_chapters = none }) (λ row. row)
              db.bookshelf;
      }

-- `add_book`: whether the shelf entry was inserted.
unfoldable pub add_book : BookKey → Snapshot → ℕ → Repo Bool
add_book k s now_ms = do
  upsert_snapshot k s now_ms
  shelved ← gets (λ db. has k db.bookshelf)
  shelve k now_ms
  pure (not shelved)

-- The deletions of `remove_book` once the shelf entry is gone.
unfoldable pub purge_book : BookKey → Database → Database
purge_book k db =
    let db' = delete_books (λ j _. same j k) db in
    record db' {
      reading_progress = erase (λ j _. same j k) db'.reading_progress;
      bookmarks = erase (λ _ row. same row.book k) db'.bookmarks;
    }

-- `remove_book`
unfoldable pub remove_book : BookKey → Repo Bool
remove_book k db =
    if has k db.bookshelf
    then (ok true, purge_book k (record db { bookshelf = erase (λ j _. same j k) db.bookshelf }))
    else (ok false, record db { bookshelf = erase (λ j _. same j k) db.bookshelf })

-- `set_last_seen_chapters`, with a count that is not negative.
unfoldable pub set_last_seen_chapters : BookKey → ℕ → Repo (Unit {0})
set_last_seen_chapters k count = modify λ db. record db {
  bookshelf =
      update {V = ShelfRow}
        (λ j row. if same j k then record row { last_seen_chapters = some count } else row)
        db.bookshelf;
}

-- `is_shelved`
unfoldable pub is_shelved : BookKey → Repo Bool
is_shelved k = gets (λ db. has k db.bookshelf)

-- `protected_pairs`, as the list of the shelf's keys.
unfoldable pub protected_pairs : Repo (List BookKey)
protected_pairs = gets (λ db. map (λ entry. entry.0) db.bookshelf)

module _ {A : Type 0} where
  -- `iter().position(…)`
  unfoldable pub position : (A → Bool) → List A → Option ℕ
  position p [] = none
  position p (x ∷ xs) =
      let rest = position p xs in
      if p x then some 0 else elim rest [ none ↦ none | some i ↦ some (suc i) ]

  abbrev pub nth_or : A → List A → ℕ → A
  nth_or d [] i = d
  nth_or d (x ∷ xs) zero = x
  nth_or d (x ∷ xs) (suc i) = nth_or d xs i

pub record ChapterProgress : Type 0 where
  pub current : Option ℕ
  pub total : Option ℕ
  pub title : Option Text

abbrev pub no_progress : ChapterProgress
no_progress = record { current = none; total = none; title = none }

abbrev pub nonempty : Text → Option Text
nonempty [] = none
nonempty (c ∷ s) = some (c ∷ s)

-- The parsed list with the position of the current chapter.
abbrev pub located : List ChapterInfo → Option ℕ → ChapterProgress
located chapters none = no_progress
located chapters (some i) = record {
  current = some (i + 1);
  total = some (length chapters);
  title = nonempty (trim (nth_or (record { id = []; title = [] }) chapters i).title);
}

-- `chapter_progress`
unfoldable pub chapter_progress :
    Codec (List ChapterInfo) → Option Text → Option Text → ChapterProgress
unfolding position
chapter_progress codec (some id) (some json) = elim (codec.decode json) [
  | none ↦ no_progress
  | some chapters ↦ located chapters (position (λ chapter. same chapter.id id) chapters)
]
chapter_progress codec _ _ = no_progress

-- `paragraph_progress`; `key` is `ParagraphId::to_string_lossy`.
unfoldable pub paragraph_progress :
    Codec (List Paragraph) → (ParagraphId → Text) → Option Text → Option Text → Option ℕ × Option ℕ
unfolding position
paragraph_progress codec key (some id) (some json) = elim (codec.decode json) [
  | none ↦ (none, none)
  | some paragraphs ↦ elim (position (λ p. same (key (paragraph_id p)) id) paragraphs) [
    | none ↦ (none, none)
    | some i ↦ (some (i + 1), some (length paragraphs))
  ]
]
paragraph_progress codec key _ _ = (none, none)
