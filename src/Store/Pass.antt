-- ===== src/Store/Pass.antt =====
-- native/langhuan/src/db/maintenance.rs: the maintenance pass over the whole database.
pub mod Loop
pub mod Outcome
use langhuan.Prelude.{
  ℕ, zero, suc, ◌+◌, ◌-◌, ◌*◌, Bool, true, false, ◌||◌, Option, none, some, Text, ltb, leb, ◌==◌,
  if◌then◌else◌, length, text_eq,
}
use langhuan.Prelude.Bytes.{codes}
use langhuan.Prelude.Decimal.{Signed, plus, minus, parse_i64, to_string}
use langhuan.Store.Rows.{Database}
use langhuan.Store.Repo.{Repo, pure, gets, call, write, ◌>>=◌, ◌>>◌}
use langhuan.Store.UserData.{get_meta, set_meta}
use langhuan.Store.Maintenance.{
  cache_total_bytes, stale_cleanup, evict_oldest_unprotected, clear_cache, prune_all_scripts,
}

-- `MAX_CACHE_BYTES`
abbrev pub max_cache_bytes : ℕ
max_cache_bytes = 512 * 1024 * 1024

-- `STALE_MAX_AGE_MS`
abbrev pub stale_max_age_ms : ℕ
stale_max_age_ms = 15 * 24 * 60 * 60 * 1000

-- `SCRIPT_HISTORY_KEEP`
abbrev pub script_history_keep : ℕ
script_history_keep = 3

-- `EVICT_CHUNK`
abbrev pub evict_chunk : ℕ
evict_chunk = 32

-- `CLEANUP_THROTTLE_MS`
abbrev pub cleanup_throttle_ms : ℕ
cleanup_throttle_ms = 24 * 60 * 60 * 1000

-- `META_LAST_CLEANUP`
abbrev pub meta_last_cleanup : Text
meta_last_cleanup = codes "last_cleanup_ms"

-- `get_meta_i64`
abbrev pub parsed_or : Signed → Option Text → Signed
parsed_or default none = default
parsed_or default (some value) = elim (parse_i64 value) [ none ↦ default | some n ↦ n ]

unfoldable pub get_meta_i64 : Text → Signed → Repo Signed
get_meta_i64 key default = do value ← get_meta key; pure (parsed_or default value)

-- `now - last >= CLEANUP_THROTTLE_MS`
abbrev pub is_over : ℕ → Signed → Bool
is_over now_ms (plus last) = leb cleanup_throttle_ms (now_ms - last)
is_over now_ms (minus before) = leb cleanup_throttle_ms (now_ms + before)

-- `MaintenanceOutcome`
pub record MaintenanceOutcome : Type 0 where
  pub skipped : Bool
  pub items_removed : ℕ
  pub bytes_freed : ℕ
  pub books_evicted : ℕ

-- The closure that decides whether a pass is due.
unfoldable pub is_due : Bool → ℕ → Repo Bool
is_due true now_ms = pure true
is_due false now_ms = do last ← get_meta_i64 meta_last_cleanup (plus 0); pure (is_over now_ms last)

-- The loop of evictions, which a fuel greater than the number of books is enough for.
unfoldable pub evict_all : ℕ → Repo ℕ
evict_all zero = pure 0
evict_all (suc fuel) = call (evict_oldest_unprotected max_cache_bytes evict_chunk) >>= λ evicted.
    elim evicted [ zero ↦ pure 0 | suc n ↦ evict_all fuel >>= λ more. pure (suc n + more) ]

-- The steps of a pass that is due.
unfoldable pub run_due : ℕ → Repo MaintenanceOutcome
run_due now_ms = do
  size_before ← gets cache_total_bytes
  removed ← write (stale_cleanup (now_ms - stale_max_age_ms))
  pruned ← write (prune_all_scripts script_history_keep)
  fuel ← gets (λ db. suc (length db.books))
  evicted ← evict_all fuel
  size_after ← gets cache_total_bytes
  write (set_meta meta_last_cleanup (to_string now_ms))
  pure (record {
    skipped = false;
    items_removed = removed + pruned;
    bytes_freed = size_before - size_after;
    books_evicted = evicted;
  })

-- `run_maintenance`; the vacuum gives pages back and changes no row.
unfoldable pub run_maintenance : Bool → ℕ → Repo MaintenanceOutcome
run_maintenance force now_ms = do
  due ← call (is_due force now_ms)
  elim due [
    | true ↦ run_due now_ms
    | false ↦
        pure (record { skipped = true; items_removed = 0; bytes_freed = 0; books_evicted = 0 })
  ]
