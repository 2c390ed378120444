-- ===== src/Store/Tests/Sample.antt =====
-- A database with a feed, a shelved book and one that has only been seen in a search.
use langhuan.Prelude.{
  ℕ, ◌≡◌, refl, subst, true, Option, none, some, List, [], ◌∷◌, Text, text_beq, text_eq,
  same_option,
}
use langhuan.Prelude.Bytes.{codes}
use langhuan.Prelude.Table.{lookup, upsert, erase}
use langhuan.Model.{BookInfo}
use langhuan.Store.Rows.{
  BookKey, book_key_eq, book_key_beq, chapter_key_eq, unset, BookRow, Database, fresh,
}
use langhuan.Store.Repo.{Repo, Codec, call, write}
use langhuan.Store.Books.{
  is_due, claim_cover_download, set_cover, mark_cover, get_cover_bytes, fetched_row, refetched,
  snapshot_row, resnapped, info_key, is_fetched, upsert_fetched_book, Snapshot, upsert_snapshot,
  cover_inflight_retry_ms, cover_failed_retry_ms,
}
use langhuan.Store.Books as Books
use langhuan.Store.Shelf as Shelf
use langhuan.Store.Feeds as Feeds
use langhuan.Store.Feeds.{FeedHeader}
use langhuan.Store.Consistency.{IsConsistent}
use langhuan.Store.Consistency.Reachable.{
  Method, upsert_feed, add_book, Returned, run, Reachable, opened, called, written,
  Reachable-IsConsistent,
}
use langhuan.Store.Consistency.Reachable as Reach

abbrev pub small_book : BookKey
small_book = record { feed_id = codes "f"; book_id = codes "b" }

abbrev pub other_book : BookKey
other_book = record { feed_id = codes "f"; book_id = codes "c" }

-- A format that can write only empty lists.
abbrev pub write_empty : {A : Type 0} → List A → Option Text
write_empty [] = some []
write_empty (a ∷ rest) = none

abbrev pub read_empty : {A : Type 0} → Text → Option (List A)
read_empty [] = some []
read_empty (c ∷ rest) = none

pub read_empty-write_empty :
    {A : Type 0} (xs : List A) (json : Text)
    → write_empty xs ≡ some json
    → read_empty json ≡ some xs
read_empty-write_empty [] [] e = refl
read_empty-write_empty [] (c ∷ json) e = absurd (cc)
read_empty-write_empty (x ∷ xs) json e = absurd (cc)

abbrev pub small_codec : {A : Type 0} → Codec (List A)
small_codec = record {
  encode = write_empty;
  decode = read_empty;
  decode-encode = read_empty-write_empty;
}

abbrev pub small_header : FeedHeader
small_header = record {
  id = codes "f";
  name = codes "Feed";
  version = codes "1";
  author = none;
  base_url = [];
  access_domains_json = [];
  description = none;
}

abbrev pub small_info : BookInfo
small_info = record {
  id = codes "b";
  title = codes "B";
  author = codes "A";
  cover_url = some (codes "u");
  description = none;
}

abbrev pub small_snapshot : Snapshot
small_snapshot = record {
  title = codes "B";
  author = codes "A";
  description = none;
  cover_url = some (codes "thumb");
}

abbrev pub run_small :
    (m : Method small_codec small_codec (small_codec {A = ℕ}))
    → Repo (Returned small_codec small_codec (small_codec {A = ℕ}) m)
run_small = run small_codec small_codec (small_codec {A = ℕ})

-- A feed with a book that has been fetched and shelved, and one that has only been seen in a search.
abbrev pub installed : Database
installed = (call (run_small (upsert_feed small_header none (codes "h") 1)) fresh).1

abbrev pub fetched : Database
fetched = (call (run_small (Reach.upsert_fetched_book (codes "f") small_info 5)) installed).1

abbrev pub shelved_one : Database
shelved_one = (write (run_small (add_book small_book small_snapshot 7)) fetched).1

abbrev pub small_steps : Database
small_steps = (call (run_small (Reach.upsert_snapshot other_book small_snapshot 6)) shelved_one).1

pub small_steps-Reachable : Reachable small_codec small_codec (small_codec {A = ℕ}) small_steps
small_steps-Reachable = called (Reach.upsert_snapshot other_book small_snapshot 6) (
    written (add_book small_book small_snapshot 7) (
      called (Reach.upsert_fetched_book (codes "f") small_info 5)
        (called (upsert_feed small_header none (codes "h") 1) opened)))

small_steps-IsConsistent : IsConsistent small_steps
small_steps-IsConsistent =
    Reachable-IsConsistent small_codec small_codec (small_codec {A = ℕ}) small_steps-Reachable

abbrev pub small_row : BookRow
small_row = record {
  title = codes "B";
  author = codes "A";
  description = none;
  cover_url = some (codes "u");
  cover_state = unset;
  cover_fetched_at_ms = 0;
  info_fetched_at_ms = 5;
  last_used_at_ms = 5;
}

abbrev pub other_row : BookRow
other_row = record small_row {
  cover_url = some (codes "thumb");
  info_fetched_at_ms = 0;
  last_used_at_ms = 6;
}

abbrev pub small_database : Database
small_database = record fresh {
  feeds =
      (
        codes "f",
        record {
          name = codes "Feed";
          version = codes "1";
          author = none;
          source_url = none;
          content_hash = codes "h";
          installed_at_ms = 1;
          updated_at_ms = 1;
          enabled = true;
          base_url = some [];
          access_domains_json = [];
          description = none;
        },
      )
      ∷ [];
  books = (small_book, small_row) ∷ (other_book, other_row) ∷ [];
  bookshelf = (small_book, record { added_at_ms = 7; last_seen_chapters = none }) ∷ [];
}

small_steps-eq : small_steps ≡ small_database
unfolding run call write Books.upsert_fetched_book Books.upsert_snapshot Books.delete_stale_cover
    fetched_row refetched snapshot_row resnapped Shelf.add_book Shelf.shelve Feeds.upsert_feed
    Feeds.installed_row lookup upsert erase book_key_beq text_beq same_option
small_steps-eq = refl

pub small_database-IsConsistent : IsConsistent small_database
small_database-IsConsistent = subst IsConsistent small_steps-eq small_steps-IsConsistent

pub small_lookup : lookup small_book small_database.books ≡ some small_row
unfolding lookup book_key_beq text_beq
small_lookup = refl
