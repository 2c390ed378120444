-- ===== src/Store/Consistency/Reachable.antt =====
-- native/langhuan/src/db: the databases that the program can bring about. A step runs one repository
-- method, in a transaction or not.
use langhuan.Prelude.{ℕ, Bool, Option, List, Text}
use langhuan.Model.{BookInfo, ChapterInfo, Paragraph}
use langhuan.Store.Rows.{
  BookKey, ChapterKey, FeedKey, CoverState, BookRow, ProgressRow, BookmarkRow, Database, fresh,
}
use langhuan.Store.Repo.{Repo, Codec, call, write}
use langhuan.Store.Books
use langhuan.Store.Books.{Snapshot}
use langhuan.Store.Chapters
use langhuan.Store.Shelf
use langhuan.Store.UserData
use langhuan.Store.Feeds
use langhuan.Store.Feeds.{FeedHeader}
use langhuan.Store.Maintenance
use langhuan.Store.Consistency.{IsConsistent, fresh-IsConsistent}
use langhuan.Store.Consistency.Operations.Rules.{Keeps, Keeps-write}
use langhuan.Store.Consistency.Operations.Books as BookRules
use langhuan.Store.Consistency.Operations.UserData as UserRules
use langhuan.Store.Consistency.Operations.Upkeep as UpkeepRules

module _ {Value : Type 0} (lists : Codec (List ChapterInfo)) (chapters : Codec (List Paragraph))
    (values : Codec Value) where
  -- The methods of `Repo` that may change rows, with their arguments.
  pub data Method : Type 0 where
    ensure_book : (k : BookKey) (now_ms : ℕ) → Method
    touch_book : (k : BookKey) (now_ms : ℕ) → Method
    get_book_and_touch : (k : BookKey) (now_ms : ℕ) → Method
    upsert_fetched_book : (feed_id : Text) (info : BookInfo) (now_ms : ℕ) → Method
    upsert_snapshot : (k : BookKey) (s : Snapshot) (now_ms : ℕ) → Method
    set_cover : (k : BookKey) (mime bytes : Text) (now_ms : ℕ) → Method
    mark_cover : (k : BookKey) (state : CoverState) (now_ms : ℕ) → Method
    claim_cover_download : (k : BookKey) (now_ms : ℕ) → Method
    delete_cover : (k : BookKey) → Method
    delete_chapter_list : (k : BookKey) → Method
    delete_paragraphs : (k : ChapterKey) → Method
    get_chapter_list : (k : BookKey) (now_ms : ℕ) → Method
    set_chapter_list : (k : BookKey) (cs : List ChapterInfo) (now_ms : ℕ) → Method
    get_paragraphs : (k : ChapterKey) (now_ms : ℕ) → Method
    set_paragraphs : (k : ChapterKey) (ps : List Paragraph) (now_ms : ℕ) → Method
    add_book : (k : BookKey) (s : Snapshot) (now_ms : ℕ) → Method
    remove_book : (k : BookKey) → Method
    set_last_seen_chapters : (k : BookKey) (count : ℕ) → Method
    set_progress : (k : BookKey) (row : ProgressRow) → Method
    remove_stale_progress : (cutoff_ms : ℕ) → Method
    add_bookmark : (id : Text) (row : BookmarkRow) → Method
    remove_bookmark : (id : Text) → Method
    clear_auth : (feed_id : Text) → Method
    get_auth : (feed_id : Text) → Method
    set_auth : (feed_id : Text) (value : Value) (now_ms : ℕ) → Method
    set_feed_storage : (k : FeedKey) (value : Value) → Method
    delete_feed_storage : (k : FeedKey) → Method
    set_meta : (key value : Text) → Method
    upsert_feed :
        (m : FeedHeader) (source_url : Option Text) (content_hash : Text) (now_ms : ℕ) → Method
    upsert_script : (k : FeedKey) (content_hash script : Text) (now_ms : ℕ) → Method
    prune_scripts : (feed_id : Text) (keep : ℕ) → Method
    delete_feed : (feed_id : Text) → Method
    set_feed_enabled : (feed_id : Text) (enabled : Bool) → Method
    stale_cleanup : (cutoff_ms : ℕ) → Method
    evict_oldest_unprotected : (cap_bytes chunk : ℕ) → Method
    clear_cache : Method
    prune_all_scripts : (keep : ℕ) → Method

  -- What a method returns.
  abbrev pub Returned : Method → Type 0
  Returned (get_book_and_touch _ _) = Option BookRow
  Returned (claim_cover_download _ _) = Bool
  Returned (get_chapter_list _ _) = Option (List ChapterInfo)
  Returned (get_paragraphs _ _) = Option (List Paragraph)
  Returned (add_book _ _ _) = Bool
  Returned (remove_book _) = Bool
  Returned (remove_stale_progress _) = ℕ
  Returned (remove_bookmark _) = Bool
  Returned (get_auth _) = Option Value
  Returned (prune_scripts _ _) = ℕ
  Returned (delete_feed _) = Bool
  Returned (set_feed_enabled _ _) = Bool
  Returned (stale_cleanup _) = ℕ
  Returned (evict_oldest_unprotected _ _) = ℕ
  Returned clear_cache = ℕ
  Returned (prune_all_scripts _) = ℕ
  Returned _ = Unit

  unfoldable pub run : (m : Method) → Repo (Returned m)
  run (ensure_book k now_ms) = Books.ensure_book k now_ms
  run (touch_book k now_ms) = Books.touch_book k now_ms
  run (get_book_and_touch k now_ms) = Books.get_book_and_touch k now_ms
  run (upsert_fetched_book feed_id info now_ms) = Books.upsert_fetched_book feed_id info now_ms
  run (upsert_snapshot k s now_ms) = Books.upsert_snapshot k s now_ms
  run (set_cover k mime bytes now_ms) = Books.set_cover k mime bytes now_ms
  run (mark_cover k state now_ms) = Books.mark_cover k state now_ms
  run (claim_cover_download k now_ms) = Books.claim_cover_download k now_ms
  run (delete_cover k) = Books.delete_cover k
  run (delete_chapter_list k) = Chapters.delete_chapter_list k
  run (delete_paragraphs k) = Chapters.delete_paragraphs k
  run (get_chapter_list k now_ms) = Chapters.get_chapter_list lists k now_ms
  run (set_chapter_list k cs now_ms) = Chapters.set_chapter_list lists k cs now_ms
  run (get_paragraphs k now_ms) = Chapters.get_paragraphs chapters k now_ms
  run (set_paragraphs k ps now_ms) = Chapters.set_paragraphs chapters k ps now_ms
  run (add_book k s now_ms) = Shelf.add_book k s now_ms
  run (remove_book k) = Shelf.remove_book k
  run (set_last_seen_chapters k count) = Shelf.set_last_seen_chapters k count
  run (set_progress k row) = UserData.set_progress k row
  run (remove_stale_progress cutoff_ms) = UserData.remove_stale_progress cutoff_ms
  run (add_bookmark id row) = UserData.add_bookmark id row
  run (remove_bookmark id) = UserData.remove_bookmark id
  run (clear_auth feed_id) = UserData.clear_auth feed_id
  run (get_auth feed_id) = UserData.get_auth values feed_id
  run (set_auth feed_id value now_ms) = UserData.set_auth values feed_id value now_ms
  run (set_feed_storage k value) = UserData.set_feed_storage values k value
  run (delete_feed_storage k) = UserData.delete_feed_storage k
  run (set_meta key value) = UserData.set_meta key value
  run (upsert_feed m source_url content_hash now_ms) =
      Feeds.upsert_feed m source_url content_hash now_ms
  run (upsert_script k content_hash script now_ms) =
      Feeds.upsert_script k content_hash script now_ms
  run (prune_scripts feed_id keep) = Feeds.prune_scripts feed_id keep
  run (delete_feed feed_id) = Feeds.delete_feed feed_id
  run (set_feed_enabled feed_id enabled) = Feeds.set_feed_enabled feed_id enabled
  run (stale_cleanup cutoff_ms) = Maintenance.stale_cleanup cutoff_ms
  run (evict_oldest_unprotected cap_bytes chunk) =
      Maintenance.evict_oldest_unprotected cap_bytes chunk
  run clear_cache = Maintenance.clear_cache
  run (prune_all_scripts keep) = Maintenance.prune_all_scripts keep

  -- The databases that the methods bring about, each run alone or in a transaction.
  pub data Reachable : Database → Type 0 where
    opened : Reachable fresh
    called : {db : Database} (m : Method) → Reachable db → Reachable (call (run m) db).1
    written : {db : Database} (m : Method) → Reachable db → Reachable (write (run m) db).1

  run-Keeps : (m : Method) → Keeps (run m)
  unfolding run
  run-Keeps (ensure_book k now_ms) = BookRules.Keeps-ensure_book k now_ms
  run-Keeps (touch_book k now_ms) = BookRules.Keeps-touch_book k now_ms
  run-Keeps (get_book_and_touch k now_ms) = BookRules.Keeps-get_book_and_touch k now_ms
  run-Keeps (upsert_fetched_book feed_id info now_ms) =
      BookRules.Keeps-upsert_fetched_book feed_id info now_ms
  run-Keeps (upsert_snapshot k s now_ms) = BookRules.Keeps-upsert_snapshot k s now_ms
  run-Keeps (set_cover k mime bytes now_ms) = BookRules.Keeps-set_cover k mime bytes now_ms
  run-Keeps (mark_cover k state now_ms) = BookRules.Keeps-mark_cover k state now_ms
  run-Keeps (claim_cover_download k now_ms) = BookRules.Keeps-claim_cover_download k now_ms
  run-Keeps (delete_cover k) = BookRules.Keeps-delete_cover k
  run-Keeps (delete_chapter_list k) = BookRules.Keeps-delete_chapter_list k
  run-Keeps (delete_paragraphs k) = BookRules.Keeps-delete_paragraphs k
  run-Keeps (get_chapter_list k now_ms) = BookRules.Keeps-get_chapter_list lists k now_ms
  run-Keeps (set_chapter_list k cs now_ms) = BookRules.Keeps-set_chapter_list lists k cs now_ms
  run-Keeps (get_paragraphs k now_ms) = BookRules.Keeps-get_paragraphs chapters k now_ms
  run-Keeps (set_paragraphs k ps now_ms) = BookRules.Keeps-set_paragraphs chapters k ps now_ms
  run-Keeps (add_book k s now_ms) = UserRules.Keeps-add_book k s now_ms
  run-Keeps (remove_book k) = UserRules.Keeps-remove_book k
  run-Keeps (set_last_seen_chapters k count) = UserRules.Keeps-set_last_seen_chapters k count
  run-Keeps (set_progress k row) = UserRules.Keeps-set_progress k row
  run-Keeps (remove_stale_progress cutoff_ms) = UserRules.Keeps-remove_stale_progress cutoff_ms
  run-Keeps (add_bookmark id row) = UserRules.Keeps-add_bookmark id row
  run-Keeps (remove_bookmark id) = UserRules.Keeps-remove_bookmark id
  run-Keeps (clear_auth feed_id) = UserRules.Keeps-clear_auth feed_id
  run-Keeps (get_auth feed_id) = UserRules.Keeps-get_auth values feed_id
  run-Keeps (set_auth feed_id value now_ms) = UserRules.Keeps-set_auth values feed_id value now_ms
  run-Keeps (set_feed_storage k value) = UserRules.Keeps-set_feed_storage values k value
  run-Keeps (delete_feed_storage k) = UserRules.Keeps-delete_feed_storage k
  run-Keeps (set_meta key value) = UserRules.Keeps-set_meta key value
  run-Keeps (upsert_feed m source_url content_hash now_ms) =
      UpkeepRules.Keeps-upsert_feed m source_url content_hash now_ms
  run-Keeps (upsert_script k content_hash script now_ms) =
      UpkeepRules.Keeps-upsert_script k content_hash script now_ms
  run-Keeps (prune_scripts feed_id keep) = UpkeepRules.Keeps-prune_scripts feed_id keep
  run-Keeps (delete_feed feed_id) = UpkeepRules.Keeps-delete_feed feed_id
  run-Keeps (set_feed_enabled feed_id enabled) = UpkeepRules.Keeps-set_feed_enabled feed_id enabled
  run-Keeps (stale_cleanup cutoff_ms) = UpkeepRules.Keeps-stale_cleanup cutoff_ms
  run-Keeps (evict_oldest_unprotected cap_bytes chunk) =
      UpkeepRules.Keeps-evict_oldest_unprotected cap_bytes chunk
  run-Keeps clear_cache = UpkeepRules.Keeps-clear_cache
  run-Keeps (prune_all_scripts keep) = UpkeepRules.Keeps-prune_all_scripts keep

  -- Every database that the methods of the repository bring about from a freshly migrated one, in
  -- any order, in transactions or not, failing or not, has unique keys and no row without its
  -- parent row.
  pub Reachable-IsConsistent : {db : Database} → Reachable db → IsConsistent db
  unfolding call
  Reachable-IsConsistent opened = fresh-IsConsistent
  Reachable-IsConsistent (called {db = db} m r) = (run-Keeps m).at db (Reachable-IsConsistent r)
  Reachable-IsConsistent (written {db = db} m r) =
      (Keeps-write (run m) (run-Keeps m)).at db (Reachable-IsConsistent r)
