-- ===== src/Store/Pass/Outcome.antt =====
-- native/langhuan/src/db/maintenance.rs: what a maintenance pass leaves, what it keeps, and how often
-- it runs.
use langhuan.Prelude.{
  ℕ, suc, ◌+◌, ◌-◌, ◌<◌, ◌≤◌, ◌≡◌, refl, Bool, true, false, some, text_eq, arith, length, inl, inr,
  leb, Bool-cases,
}
use langhuan.Prelude.Table.{lookup, has, count, upsert, lookup-put}
use langhuan.Prelude.Table.Keys.{IsUnique}
use langhuan.Error.{ok}
use langhuan.Store.Rows.{BookKey, book_key_eq, Database}
use langhuan.Store.Repo.{call, write}
use langhuan.Store.Cascade.Kept.{KeepsBook, KeepsBook-trans}
use langhuan.Store.Maintenance.{
  cache_total_bytes, is_surplus, drop_stale_caches, drop_stale_books, drop_stale_user_data,
  stale_cleanup, prune_all_scripts,
}
use langhuan.Prelude.Decimal.{to_string, plus, max_i64, parse_i64-to_string}
use langhuan.Store.Consistency.{IsConsistent}
use langhuan.Store.Consistency.Operations.Upkeep.{Keeps-stale_cleanup}
use langhuan.Store.Maintenance.Stale.{stale_cleanup_keeps}
use langhuan.Store.UserData.{set_meta, get_meta}
use langhuan.Store.Pass.{
  stale_max_age_ms, script_history_keep, MaintenanceOutcome, run_due, is_due, run_maintenance,
  meta_last_cleanup, cleanup_throttle_ms, get_meta_i64, parsed_or, is_over,
}
use langhuan.Store.Pass.Loop.{IsTrimmed, evict_all-Ends}

module _ (now_ms : ℕ) (db : Database) (h : IsConsistent db) where
  -- The databases after the first two steps.
  abbrev cleaned : Database
  cleaned = (stale_cleanup (now_ms - stale_max_age_ms) db).1

  abbrev pruned : Database
  pruned = (prune_all_scripts script_history_keep cleaned).1

  abbrev removed : ℕ
  removed =
      let cutoff_ms = now_ms - stale_max_age_ms in
      let (caches, db₁) = drop_stale_caches cutoff_ms db in
      let (books, db₂) = drop_stale_books cutoff_ms db₁ in
      caches + books + (drop_stale_user_data cutoff_ms db₂).0

  pruned-IsUnique : IsUnique pruned.books
  unfolding prune_all_scripts
  pruned-IsUnique = ((Keeps-stale_cleanup (now_ms - stale_max_age_ms)).at db h).books_keys

  KeepsBook-pruned : (k : BookKey) → has k db.bookshelf ≡ true → KeepsBook k db pruned
  unfolding prune_all_scripts
  KeepsBook-pruned k s = assumption (stale_cleanup_keeps (now_ms - stale_max_age_ms) k db h s)

  -- A pass that is due ends: the cache is within its cap or every book that is left is on the shelf,
  -- each book on the shelf keeps all that there is of it, and the time of the pass is recorded.
  abbrev Runs : Type 0
  Runs =
      (outcome : MaintenanceOutcome) × (after : Database) × (run_due now_ms db
        ≡ (ok outcome, after))
      × (outcome.skipped ≡ false)
      × IsTrimmed after
      × (lookup meta_last_cleanup after.meta ≡ some (to_string now_ms))
      × ((k : BookKey) → has k db.bookshelf ≡ true → KeepsBook k db after)

  run_due-Runs : Runs
  unfolding run_due write set_meta stale_cleanup prune_all_scripts cache_total_bytes
  run_due-Runs =
      let (evicted, last, e, trimmed, keeps) =
        evict_all-Ends (suc (length pruned.books)) pruned (omega arith) pruned-IsUnique in
      (
        record {
          skipped = false;
          items_removed =
              removed + count (is_surplus script_history_keep cleaned) cleaned.feed_scripts;
          bytes_freed = cache_total_bytes db - cache_total_bytes last;
          books_evicted = evicted;
        },
        record last {
          meta = upsert meta_last_cleanup (to_string now_ms) (λ _. to_string now_ms) last.meta;
        },
        rw e refl,
        refl,
        trimmed,
        lookup-put meta_last_cleanup (to_string now_ms) last.meta,
        λ k s.
            let before = KeepsBook-pruned k s in
            assumption (KeepsBook-trans before (keeps k (ground (arith, before.shelf)))),
      )

  -- A forced maintenance pass over a consistent database ends, and leaves the cache within its cap,
  -- or no book that is not on the shelf.
  pub run_maintenance_trims :
      (outcome : MaintenanceOutcome) × (after : Database) × (run_maintenance true now_ms db
        ≡ (ok outcome, after))
      × (outcome.skipped ≡ false)
      × IsTrimmed after
  unfolding run_maintenance call is_due
  run_maintenance_trims =
      let (outcome, after, e, ran, trimmed, stamp, keeps) = run_due-Runs in
      (outcome, after, e, ran, trimmed)

  -- A maintenance pass over a consistent database, forced or not, keeps all that there is of a book
  -- on the shelf.
  pub run_maintenance_keeps :
      (force : Bool) (k : BookKey)
      → has k db.bookshelf ≡ true
      → KeepsBook k db (run_maintenance force now_ms db).1
  unfolding run_maintenance call is_due get_meta_i64 get_meta
  run_maintenance_keeps true k s =
      let (outcome, after, e, ran, trimmed, stamp, keeps) = run_due-Runs in rw e (keeps k s)
  run_maintenance_keeps false k s =
      let (outcome, after, e, ran, trimmed, stamp, keeps) = run_due-Runs in
      elim (Bool-cases (is_over now_ms (parsed_or (plus 0) (lookup meta_last_cleanup db.meta)))) [
        | inl due ↦ rw (due, e) (keeps k s)
        | inr early ↦ rw early assumption
      ]

  -- After a forced pass at a time that an `i64` holds, one that is not forced is skipped for a day,
  -- and changes nothing.
  pub run_maintenance_throttled :
      (later_ms : ℕ)
      → now_ms ≤ max_i64
      → later_ms - now_ms < cleanup_throttle_ms
      → (outcome : MaintenanceOutcome) × (after : Database) × (run_maintenance true now_ms db
          ≡ (ok outcome, after))
        × (run_maintenance false later_ms after ≡ (
          ok (record { skipped = true; items_removed = 0; bytes_freed = 0; books_evicted = 0 }),
          after,
        ))
  unfolding run_maintenance call is_due get_meta_i64 get_meta
  run_maintenance_throttled later_ms fits soon =
      let (outcome, after, e, ran, trimmed, stamp, keeps) = run_due-Runs in
      let early : leb cleanup_throttle_ms (later_ms - now_ms) ≡ false = ground arith in
      let read : parsed_or (plus 0) (some (to_string now_ms)) ≡ plus now_ms =
        rw (parse_i64-to_string now_ms fits, parsed_or) refl in
      (outcome, after, e, rw (stamp, read, early) refl)
