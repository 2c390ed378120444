-- ===== src/Store/Rows.antt =====
-- native/langhuan/src/db/schema.rs: the tables of the current schema version. Each has its PRIMARY KEY
-- as the key of a `Table`; a row holds the other columns. Timestamps are milliseconds since the epoch.
use langhuan.Prelude.{
  ℕ, ◌≡◌, ◌↔◌, Bool, true, ◌&&◌, Option, [], Text, text_eq, Eq, same, same_iff, arith,
}
use langhuan.Prelude.Table.{Table}

-- (feed_id, book_id)
pub record BookKey : Type 0 where
  pub feed_id : Text
  pub book_id : Text

-- (feed_id, book_id, chapter_id)
pub record ChapterKey : Type 0 where
  pub book : BookKey
  pub chapter_id : Text

-- (feed_id, version) of `feed_scripts` and (feed_id, key) of `feed_storage`
pub record FeedKey : Type 0 where
  pub feed_id : Text
  pub name : Text

unfoldable pub book_key_beq : BookKey → BookKey → Bool
book_key_beq a b = same a.feed_id b.feed_id && same a.book_id b.book_id

pub book_key_beq_iff : (a b : BookKey) → (book_key_beq a b ≡ true) ↔ (a ≡ b)
unfolding book_key_beq
book_key_beq_iff a b = ground (arith, same_iff a.feed_id b.feed_id, same_iff a.book_id b.book_id)

instance abbrev pub book_key_eq : Eq BookKey
book_key_eq = record { agree = book_key_beq; agree_iff = book_key_beq_iff }

unfoldable pub chapter_key_beq : ChapterKey → ChapterKey → Bool
chapter_key_beq a b = book_key_beq a.book b.book && same a.chapter_id b.chapter_id

pub chapter_key_beq_iff : (a b : ChapterKey) → (chapter_key_beq a b ≡ true) ↔ (a ≡ b)
unfolding chapter_key_beq
chapter_key_beq_iff a b =
    ground (arith, book_key_beq_iff a.book b.book, same_iff a.chapter_id b.chapter_id)

instance abbrev pub chapter_key_eq : Eq ChapterKey
chapter_key_eq = record { agree = chapter_key_beq; agree_iff = chapter_key_beq_iff }

unfoldable pub feed_key_beq : FeedKey → FeedKey → Bool
feed_key_beq a b = same a.feed_id b.feed_id && same a.name b.name

pub feed_key_beq_iff : (a b : FeedKey) → (feed_key_beq a b ≡ true) ↔ (a ≡ b)
unfolding feed_key_beq
feed_key_beq_iff a b = ground (arith, same_iff a.feed_id b.feed_id, same_iff a.name b.name)

instance abbrev pub feed_key_eq : Eq FeedKey
feed_key_eq = record { agree = feed_key_beq; agree_iff = feed_key_beq_iff }

-- `CoverState` of cache.rs
pub data CoverState : Type 0 where
  unset pending downloaded failed : CoverState

-- `feeds`
pub record FeedRow : Type 0 where
  pub name : Text
  pub version : Text
  pub author : Option Text
  pub source_url : Option Text
  pub content_hash : Text
  pub installed_at_ms : ℕ
  pub updated_at_ms : ℕ
  pub enabled : Bool
  pub base_url : Option Text
  pub access_domains_json : Text
  pub description : Option Text

-- `feed_scripts`
pub record ScriptRow : Type 0 where
  pub content_hash : Text
  pub script : Text
  pub installed_at_ms : ℕ

-- `books`
pub record BookRow : Type 0 where
  pub title : Text
  pub author : Text
  pub description : Option Text
  pub cover_url : Option Text
  pub cover_state : CoverState
  pub cover_fetched_at_ms : ℕ
  pub info_fetched_at_ms : ℕ
  pub last_used_at_ms : ℕ

-- `covers`
pub record CoverRow : Type 0 where
  pub mime : Text
  pub bytes : Text
  pub fetched_at_ms : ℕ

-- `bookshelf`; `last_seen_chapters` is `none` for -1, never seen.
pub record ShelfRow : Type 0 where
  pub added_at_ms : ℕ
  pub last_seen_chapters : Option ℕ

-- `reading_progress`
pub record ProgressRow : Type 0 where
  pub chapter_id : Text
  pub paragraph_id : Text
  pub paragraph_char_offset : ℕ
  pub updated_at_ms : ℕ

-- `bookmarks`
pub record BookmarkRow : Type 0 where
  pub book : BookKey
  pub chapter_id : Text
  pub paragraph_id : Text
  pub paragraph_name : Text
  pub paragraph_preview : Text
  pub label : Text
  pub created_at_ms : ℕ

-- `auth`
pub record AuthRow : Type 0 where
  pub cookies_json : Text
  pub updated_at_ms : ℕ

-- `chapter_lists` and `chapters`: a JSON payload with the time at which it was cached.
pub record PayloadRow : Type 0 where
  pub json : Text
  pub cached_at_ms : ℕ

pub record Database : Type 0 where
  pub feeds : Table Text FeedRow
  pub feed_scripts : Table FeedKey ScriptRow
  pub books : Table BookKey BookRow
  pub covers : Table BookKey CoverRow
  pub bookshelf : Table BookKey ShelfRow
  pub reading_progress : Table BookKey ProgressRow
  pub bookmarks : Table Text BookmarkRow
  pub auth : Table Text AuthRow
  pub chapter_lists : Table BookKey PayloadRow
  pub chapters : Table ChapterKey PayloadRow
  pub feed_storage : Table FeedKey Text
  pub meta : Table Text Text

-- A database to which the migrations have just been applied.
abbrev pub fresh : Database
fresh = record {
  feeds = [];
  feed_scripts = [];
  books = [];
  covers = [];
  bookshelf = [];
  reading_progress = [];
  bookmarks = [];
  auth = [];
  chapter_lists = [];
  chapters = [];
  feed_storage = [];
  meta = [];
}
