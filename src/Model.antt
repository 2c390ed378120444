-- ===== src/Model.antt =====
-- native/langhuan/src/model.rs: books, chapters, and paragraphs with their identities.
use langhuan.Prelude.{ℕ, Option, none, some, List, [], ◌≡◌, refl, Text}

-- `SearchResult`
pub record SearchResult : Type 0 where
  pub id : Text
  pub title : Text
  pub author : Text
  pub cover_url : Option Text
  pub description : Option Text

-- `BookInfo`
pub record BookInfo : Type 0 where
  pub id : Text
  pub title : Text
  pub author : Text
  pub cover_url : Option Text
  pub description : Option Text

-- `ChapterInfo`
pub record ChapterInfo : Type 0 where
  pub id : Text
  pub title : Text

-- `OriginalParagraphId`
pub data OriginalParagraphId : Type 0 where
  source : Text → OriginalParagraphId
  generated : ℕ → OriginalParagraphId

-- `ParagraphId`
pub record ParagraphId : Type 0 where
  pub original : OriginalParagraphId
  pub path : List ℕ

-- `Paragraph`; the last field of each variant is its `comment_count`.
pub data Paragraph : Type 0 where
  title : ParagraphId → Text → Option ℕ → Paragraph
  text : ParagraphId → Text → Option ℕ → Paragraph
  image : ParagraphId → Text → Option Text → Option ℕ → Paragraph

-- `Paragraph::id`
unfoldable pub paragraph_id : Paragraph → ParagraphId
paragraph_id (title id _ _) = id
paragraph_id (text id _ _) = id
paragraph_id (image id _ _ _) = id

-- `Paragraph::set_id`
unfoldable pub set_id : ParagraphId → Paragraph → Paragraph
set_id new_id (title _ t n) = title new_id t n
set_id new_id (text _ t n) = text new_id t n
set_id new_id (image _ url alt n) = image new_id url alt n

-- `Paragraph::comment_count`
unfoldable pub comment_count : Paragraph → Option ℕ
comment_count (title _ _ n) = n
comment_count (text _ _ n) = n
comment_count (image _ _ _ n) = n

-- `RawParagraph`: a paragraph of a script, whose id may be missing.
pub data RawParagraph : Type 0 where
  raw_title : Option Text → Text → Option ℕ → RawParagraph
  raw_text : Option Text → Text → Option ℕ → RawParagraph
  raw_image : Option Text → Text → Option Text → Option ℕ → RawParagraph

-- `make_id`, with `ParagraphId::source` and `ParagraphId::generated`.
unfoldable pub make_id : ℕ → Option Text → ParagraphId
make_id index (some s) = record { original = source s; path = [] }
make_id index none = record { original = generated index; path = [] }

-- `RawParagraph::into_paragraph`
unfoldable pub into_paragraph : ℕ → RawParagraph → Paragraph
unfolding make_id
into_paragraph index (raw_title id t n) = title (make_id index id) t n
into_paragraph index (raw_text id t n) = text (make_id index id) t n
into_paragraph index (raw_image id url alt n) = image (make_id index id) url alt n

pub set_id-set_id : (a b : ParagraphId) (p : Paragraph) → set_id a (set_id b p) ≡ set_id a p
unfolding set_id
set_id-set_id a b (title _ _ _) = refl
set_id-set_id a b (text _ _ _) = refl
set_id-set_id a b (image _ _ _ _) = refl

pub paragraph_id-set_id : (a : ParagraphId) (p : Paragraph) → paragraph_id (set_id a p) ≡ a
unfolding set_id paragraph_id
paragraph_id-set_id a (title _ _ _) = refl
paragraph_id-set_id a (text _ _ _) = refl
paragraph_id-set_id a (image _ _ _ _) = refl

pub comment_count-set_id :
    (a : ParagraphId) (p : Paragraph) → comment_count (set_id a p) ≡ comment_count p
unfolding set_id comment_count
comment_count-set_id a (title _ _ _) = refl
comment_count-set_id a (text _ _ _) = refl
comment_count-set_id a (image _ _ _ _) = refl
