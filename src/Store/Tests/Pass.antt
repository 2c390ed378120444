-- ===== src/Store/Tests/Pass.antt =====
-- The maintenance pass at a concrete database.
use langhuan.Prelude.{◌≡◌, refl, true, false, arith}
use langhuan.Prelude.Table.{lookup, has}
use langhuan.Error.{ok}
use langhuan.Store.Rows.{book_key_eq, book_key_beq, Database}
use langhuan.Prelude.{text_beq}
use langhuan.Store.Cascade.Kept.{KeepsBook}
use langhuan.Store.Pass.{MaintenanceOutcome, run_maintenance}
use langhuan.Store.Pass.Loop.{IsTrimmed}
use langhuan.Store.Pass.Outcome.{
  run_maintenance_trims, run_maintenance_keeps, run_maintenance_throttled,
}
use langhuan.Store.Tests.Sample.{small_book, small_database, small_database-IsConsistent}

run_maintenance_trims_example :
    (outcome : MaintenanceOutcome) × (left : Database) × (run_maintenance true 2000000000
        small_database
      ≡ (ok outcome, left))
    × (outcome.skipped ≡ false)
    × IsTrimmed left
run_maintenance_trims_example =
    run_maintenance_trims 2000000000 small_database small_database-IsConsistent

on_shelf : has small_book small_database.bookshelf ≡ true
unfolding lookup book_key_beq text_beq
on_shelf = refl

run_maintenance_keeps_example :
    KeepsBook small_book small_database (run_maintenance false 2000000000 small_database).1
run_maintenance_keeps_example =
    run_maintenance_keeps 2000000000 small_database small_database-IsConsistent false small_book
      on_shelf

run_maintenance_throttled_example :
    (outcome : MaintenanceOutcome) × (left : Database) × (run_maintenance true 2000000000
        small_database
      ≡ (ok outcome, left))
    × (run_maintenance false 2000003600 left ≡ (
      ok (record { skipped = true; items_removed = 0; bytes_freed = 0; books_evicted = 0 }),
      left,
    ))
run_maintenance_throttled_example =
    run_maintenance_throttled 2000000000 small_database small_database-IsConsistent 2000003600
      (omega arith) (omega arith)
