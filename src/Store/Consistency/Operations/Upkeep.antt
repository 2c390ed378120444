-- ===== src/Store/Consistency/Operations/Upkeep.antt =====
-- native/langhuan/src/db/repo: feeds.rs and maintenance.rs keep the constraints.
use langhuan.Prelude.{ℕ, Bool, Option, [], Text, text_eq, arith, inl, inr, Bool-cases, leb}
use langhuan.Prelude.Table.{lookup}
use langhuan.Prelude.Table.Keys.{IsUnique-upsert, IsUnique-update, IsUnique-erase}
use langhuan.Prelude.Table.Child.{
  IsChild-upsert, IsChild-update, IsChild-erase, has-upsert, has-update,
}
use langhuan.Store.Rows.{book_key_eq, FeedKey, feed_key_eq, chapter_key_eq, FeedRow}
use langhuan.Store.Feeds
use langhuan.Store.Feeds.{FeedHeader}
use langhuan.Store.Maintenance
use langhuan.Store.Consistency.{
  put_books, put_feeds, put_scripts, put_covers, put_lists, put_chapters,
}
use langhuan.Store.Consistency.Deletes.{delete_books-IsConsistent, delete_feed_rows-IsConsistent}
use langhuan.Store.Consistency.Operations.Rules.{Keeps, Keeps-modify, Keeps-constrained}
use langhuan.Store.Consistency.Operations.UserData.{
  erase_progress-IsConsistent, erase_bookmarks-IsConsistent,
}

pub Keeps-upsert_feed :
    (m : FeedHeader) (source_url : Option Text) (content_hash : Text) (now_ms : ℕ)
    → Keeps (Feeds.upsert_feed m source_url content_hash now_ms)
unfolding Feeds.upsert_feed
Keeps-upsert_feed m source_url content_hash now_ms = Keeps-modify _ (λ db h.
    put_feeds h _ (IsUnique-upsert m.id _ _ db.feeds h.feeds_keys) (λ id i. ground (
      arith,
      has-upsert {V = FeedRow} m.id id (Feeds.installed_row m source_url content_hash now_ms)
          (Feeds.upgraded_row m source_url content_hash now_ms) db.feeds,
    )))

pub Keeps-upsert_script :
    (k : FeedKey) (content_hash script : Text) (now_ms : ℕ)
    → Keeps (Feeds.upsert_script k content_hash script now_ms)
unfolding Feeds.upsert_script
Keeps-upsert_script k content_hash script now_ms = Keeps-constrained _ _ (λ db h allowed.
    put_scripts h _ (IsUnique-upsert k _ _ db.feed_scripts h.scripts_keys)
      (IsChild-upsert _ k _ _ db.feed_scripts allowed h.scripts_feed))

pub Keeps-prune_scripts : (feed_id : Text) (keep : ℕ) → Keeps (Feeds.prune_scripts feed_id keep)
unfolding Feeds.prune_scripts
Keeps-prune_scripts feed_id keep = record {
  at = λ db h.
      put_scripts h _ (IsUnique-erase _ db.feed_scripts h.scripts_keys)
        (IsChild-erase _ _ db.feed_scripts h.scripts_feed);
}

pub Keeps-delete_feed : (feed_id : Text) → Keeps (Feeds.delete_feed feed_id)
unfolding Feeds.delete_feed
Keeps-delete_feed feed_id = record { at = λ db h. delete_feed_rows-IsConsistent feed_id db h }

pub Keeps-set_feed_enabled :
    (feed_id : Text) (enabled : Bool) → Keeps (Feeds.set_feed_enabled feed_id enabled)
unfolding Feeds.set_feed_enabled
Keeps-set_feed_enabled feed_id enabled = record {
  at = λ db h. put_feeds h _ (IsUnique-update _ db.feeds h.feeds_keys) (λ id i. rw has-update i);
}

pub Keeps-stale_cleanup : (cutoff_ms : ℕ) → Keeps (Maintenance.stale_cleanup cutoff_ms)
unfolding Maintenance.stale_cleanup Maintenance.drop_stale_caches Maintenance.drop_stale_books
    Maintenance.drop_stale_user_data
Keeps-stale_cleanup cutoff_ms = record {
  at = λ db h.
      let chapters =
        put_chapters h _
          (IsUnique-erase (Maintenance.is_stale_chapter cutoff_ms db) db.chapters h.chapters_keys)
          (IsChild-erase _ _ db.chapters h.chapters_book) in
      let lists =
        put_lists chapters _
          (IsUnique-erase (Maintenance.is_stale_list cutoff_ms db) db.chapter_lists h.lists_keys)
          (IsChild-erase _ _ db.chapter_lists h.lists_book) in
      let covers =
        put_covers lists _
          (IsUnique-erase (Maintenance.is_stale_cover_row cutoff_ms db) db.covers h.covers_keys)
          (IsChild-erase _ _ db.covers h.covers_book) in
      erase_bookmarks-IsConsistent _ _
        (erase_progress-IsConsistent _ _ (delete_books-IsConsistent _ _ covers));
}

pub Keeps-evict_oldest_unprotected :
    (cap_bytes chunk : ℕ) → Keeps (Maintenance.evict_oldest_unprotected cap_bytes chunk)
unfolding Maintenance.evict_oldest_unprotected
Keeps-evict_oldest_unprotected cap_bytes chunk = record {
  at = λ db h. elim (Bool-cases (leb (Maintenance.cache_total_bytes db) cap_bytes)) [
    | inl fits ↦ rw fits h
    | inr over ↦ rw over (delete_books-IsConsistent _ db h)
  ];
}

pub Keeps-clear_cache : Keeps Maintenance.clear_cache
unfolding Maintenance.clear_cache lookup
Keeps-clear_cache = record {
  at = λ db h.
      let chapters = put_chapters h [] tt (λ k i. absurd (cc)) in
      let lists = put_lists chapters [] tt (λ k i. absurd (cc)) in
      let covers = put_covers lists [] tt (λ k i. absurd (cc)) in
      put_books covers _ (IsUnique-update _ db.books h.books_keys)
        (IsChild-update _ _ db.books h.books_feed) (λ k i. rw has-update i);
}

pub Keeps-prune_all_scripts : (keep : ℕ) → Keeps (Maintenance.prune_all_scripts keep)
unfolding Maintenance.prune_all_scripts
Keeps-prune_all_scripts keep = record {
  at = λ db h.
      put_scripts h _ (IsUnique-erase _ db.feed_scripts h.scripts_keys)
        (IsChild-erase _ _ db.feed_scripts h.scripts_feed);
}
