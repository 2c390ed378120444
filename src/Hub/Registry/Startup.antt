-- ===== src/Hub/Registry/Startup.antt =====
-- native/hub/src/actors/registry_actor.rs: what the start leaves in the maps of the actor.
pub mod Loads
use langhuan.Prelude.{
  ◌≡◌, refl, Bool, false, ◌||◌, ◌&&◌, sym, Option, none, some, [], ◌∷◌, Text, text_eq, same,
  same_iff, arith, ap, same_refl,
}
use langhuan.Prelude.Table.{Table, lookup, has}
use langhuan.Prelude.Table.Keys.{IsUnique}
use langhuan.Prelude.Table.Sort.{IsUnique-sort_by, lookup-sort_by}
use langhuan.Prelude.Table.Child.{has-upsert}
use langhuan.Store.Rows.{Database, FeedRow}
use langhuan.Store.Feeds.{list_feeds, list_feeds_with_scripts, with_scripts, is_installed_before}
use langhuan.Hub.Registry.{
  Answer, answered, refused, aborted, failed, insert, LoadError, script_missing, load_failed,
}
use langhuan.Hub.Registry.Install.{Loader, Loaded, add_compiled, add_row, then_load, load_rows}
use langhuan.Hub.Registry.Agreement.{Split}

has-with_scripts :
    (db : Database) (id : Text) (t : Table Text FeedRow) → has id (with_scripts db t) ≡ has id t
unfolding lookup
has-with_scripts db id [] = refl
has-with_scripts db id ((j, row) ∷ t) = ground (arith, has-with_scripts db id t)

has-none {κ} : {A : Type κ} (id : Text) (t : Table Text A) → has id t ≡ false → lookup id t ≡ none
has-none id t h = ground arith

pub IsUnique-with_scripts :
    (db : Database) (t : Table Text FeedRow) → IsUnique t → IsUnique (with_scripts db t)
IsUnique-with_scripts db [] u = tt
IsUnique-with_scripts db ((id, row) ∷ t) (fresh, u) = (
  has-none id (with_scripts db t) (ground (arith, has-with_scripts db id t, fresh)),
  IsUnique-with_scripts db t u,
)

module _ {Feed V : Type 0} (loader : Loader Feed V) where
  -- The maps after the rows of some feeds.
  abbrev Covers : (Text → Bool) → Loaded Feed → Type 0
  Covers registered acc = (j : Text) → Split (registered j) acc.feeds acc.load_errors j

  Covers-loaded :
      (registered : Text → Bool) (id : Text) (feed : Feed) (acc : Loaded Feed)
      → registered id ≡ false
      → Covers registered acc
      → Covers (λ j. same id j || registered j) (record acc { feeds = insert id feed acc.feeds })
  Covers-loaded registered id feed acc fresh h j =
      ground (arith, has-upsert id j feed (λ _. feed) acc.feeds, same_iff id j, (h j).0, (h j).1)

  Covers-failed :
      (registered : Text → Bool) (id : Text) (e : LoadError) (acc : Loaded Feed)
      → registered id ≡ false
      → Covers registered acc
      → Covers
          (λ j. same id j || registered j)
          (record acc { load_errors = insert id e acc.load_errors })
  Covers-failed registered id e acc fresh h j =
      ground (arith, has-upsert id j e (λ _. e) acc.load_errors, same_iff id j, (h j).0, (h j).1)

  abbrev pub got : Loaded Feed → Answer (Loaded Feed) → Loaded Feed
  got acc (answered acc') = acc'
  got acc _ = acc

  pub then_load-answered :
      (a : Answer (Loaded Feed)) (next : Loaded Feed → Answer (Loaded Feed)) (loaded : Loaded Feed)
      → then_load loader a next ≡ answered loaded
      → (acc : Loaded Feed) × (a ≡ answered acc) × (next acc ≡ answered loaded)
  then_load-answered (answered acc) next loaded e = (acc, refl, e)
  then_load-answered (refused x) next loaded e = absurd (cc)
  then_load-answered aborted next loaded e = absurd (cc)

  add_compiled-Covers :
      (registered : Text → Bool) (id : Text) (a : Answer Feed) (acc acc' : Loaded Feed)
      → registered id ≡ false
      → Covers registered acc
      → add_compiled loader id a acc ≡ answered acc'
      → Covers (λ j. same id j || registered j) acc'
  add_compiled-Covers registered id aborted acc acc' fresh h e = absurd (cc)
  add_compiled-Covers registered id (refused (failed x)) acc acc' fresh h e =
      rw (sym (ap (got acc) e)) (Covers-failed registered id (load_failed x) acc fresh h)
  add_compiled-Covers registered id (refused other) acc acc' fresh h e = absurd (cc)
  add_compiled-Covers registered id (answered feed) acc acc' fresh h e =
      rw (sym (ap (got acc) e)) (Covers-loaded registered id feed acc fresh h)

  add_row-Covers :
      (registered : Text → Bool) (id : Text) (script : Option Text) (acc acc' : Loaded Feed)
      → registered id ≡ false
      → Covers registered acc
      → add_row loader id script acc ≡ answered acc'
      → Covers (λ j. same id j || registered j) acc'
  add_row-Covers registered id none acc acc' fresh h e =
      rw (sym (ap (got acc) e)) (Covers-failed registered id script_missing acc fresh h)
  add_row-Covers registered id (some script) acc acc' fresh h e =
      add_compiled-Covers registered id _ acc acc' fresh h e

  load_rows-Covers :
      (registered : Text → Bool) (rows : Table Text (FeedRow × Option Text))
      (acc loaded : Loaded Feed)
      → IsUnique rows
      → ((j : Text) → (registered j && has j rows) ≡ false)
      → Covers registered acc
      → load_rows loader rows acc ≡ answered loaded
      → Covers (λ j. registered j || has j rows) loaded
  unfolding load_rows lookup
  load_rows-Covers registered [] acc loaded u apart h e j =
      rw (sym (ap (got acc) e)) (ground (arith, (h j).0), (h j).1)
  load_rows-Covers registered ((id, (row, script)) ∷ rest) acc loaded (new, u) apart h e j =
      let (acc', added, more) = then_load-answered _ _ loaded e in
      let later =
        load_rows-Covers (λ k. same id k || registered k) rest acc' loaded u
          (λ k. ground (arith, same_iff id k, apart k, new))
          (add_row-Covers registered id script acc acc' (ground (arith, apart id, same_refl id)) h
            added)
          more j in
      (ground (arith, later.0), later.1)

  -- After the start, each feed of the database is loaded or known not to load, and no other is.
  pub load_rows-Split :
      (db : Database) (loaded : Loaded Feed)
      → IsUnique db.feeds
      → load_rows loader (list_feeds_with_scripts db) (record { feeds = []; load_errors = [] })
        ≡ answered loaded
      → (id : Text) → Split (has id db.feeds) loaded.feeds loaded.load_errors id
  unfolding list_feeds_with_scripts list_feeds lookup
  load_rows-Split db loaded u e id =
      let all =
        load_rows-Covers (λ _. false) (list_feeds_with_scripts db) _ loaded
          (IsUnique-with_scripts db (list_feeds db)
            (IsUnique-sort_by is_installed_before db.feeds u))
          (λ _. refl) (λ j. (refl, refl)) e id in
      (
        ground (
          arith,
          all.0,
          has-with_scripts db id (list_feeds db),
          lookup-sort_by is_installed_before id db.feeds u,
        ),
        all.1,
      )
