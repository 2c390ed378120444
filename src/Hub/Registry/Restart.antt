-- ===== src/Hub/Registry/Restart.antt =====
-- native/hub/src/actors/registry_actor.rs: what an installation leaves for the next start.
use langhuan.Prelude.{
  Eq, ℕ, ◌≡◌, refl, sym, ap, ◌∙◌, Bool, true, false, ◌&&◌, ◌||◌, Option, none, some, [], ◌∷◌, Text,
  text_eq, same, same_iff, same_refl, arith, inl, inr, Bool-cases, leb,
}
use langhuan.Prelude.Order.{text_ltb_irrefl}
use langhuan.Prelude.Table.{
  Table, lookup, has, upsert, erase, count, lookup-upsert, lookup-put, merged,
}
use langhuan.Prelude.Table.Keys.{IsUnique, IsUnique-upsert, lookup-erase}
use langhuan.Prelude.Table.Least.{count_mono}
use langhuan.Prelude.Table.Child.{has-upsert}
use langhuan.Error.{ok}
use langhuan.Script.Meta.{FeedMeta, parse_meta}
use langhuan.Store.Rows.{Database, FeedRow, FeedKey, feed_key_eq, ScriptRow}
use langhuan.Store.Repo.{write}
use langhuan.Store.Feeds.{
  installed_row, upgraded_row, upsert_feed, upsert_script, prune_scripts, is_newer, is_pruned,
  versions_before, active_script, list_feeds, list_feeds_with_scripts, is_installed_before,
}
use langhuan.Store.Pass.{script_history_keep}
use langhuan.Hub.Registry.{
  World, PendingInstall, answered, new, continue, remove, register, require_db,
}
use langhuan.Prelude.Table.Sort.{IsUnique-sort_by, lookup-sort_by}
use langhuan.Hub.Registry.Startup.Loads.{lookup-with_scripts, load_rows-loads}
use langhuan.Hub.Registry.Install.{
  Loader, Loaded, store_script, header_of, compile_feed, do_install, take_pending, parse, persist,
  load_feeds, attach, initialize,
}
use langhuan.Hub.Registry.Startup.{IsUnique-with_scripts}

-- Every script that a feed has was installed before a time.
abbrev pub IsLatest : Text → ℕ → Database → Type 0
IsLatest feed_id now_ms db =
    count (λ k row. same k.feed_id feed_id && leb now_ms row.installed_at_ms) db.feed_scripts ≡ 0

count-upsert {ℓ κ} :
    {K : Type ℓ} {V : Type κ} ⦃e : Eq K⦄ (p q : K → V → Bool) (k : K) (v : V) (t : Table K V)
    → ((j : K) (w : V) → p j w ≡ true → q j w ≡ true)
    → p k v ≡ false
    → count q t ≡ 0
    → count p (upsert k v (λ _. v) t) ≡ 0
unfolding count upsert
count-upsert p q k v [] h fresh none_there = rw fresh refl
count-upsert p q k v ((j, w) ∷ t) h fresh none_there =
    let rest = count_mono p q t h in
    elim (Bool-cases (same j k)) [
      | inl hit ↦ rw hit (ground (arith, ap (λ i. p i v) ((same_iff j k).0 hit), fresh, rest))
      | inr miss ↦ rw miss (ground (arith, count-upsert p q k v t h fresh, h j w))
    ]

module _ {Feed V : Type 0} (loader : Loader Feed V) (meta : FeedMeta) (content : Text)
    (source_url : Option Text) (now_ms : ℕ) (db : Database) where
  abbrev script_key : FeedKey
  script_key = record { feed_id = meta.id; name = meta.version }

  abbrev script_row : ScriptRow
  script_row = record {
    content_hash = loader.sha256_hex content;
    script = content;
    installed_at_ms = now_ms;
  }

  abbrev inserted : FeedRow
  inserted = installed_row (header_of loader meta) source_url (loader.sha256_hex content) now_ms

  abbrev updated : FeedRow → FeedRow
  updated = upgraded_row (header_of loader meta) source_url (loader.sha256_hex content) now_ms

  -- The database before the old scripts are pruned, and after it.
  abbrev unpruned : Database
  unpruned = record db {
    feeds = upsert meta.id inserted updated db.feeds;
    feed_scripts = upsert script_key script_row (λ _. script_row) db.feed_scripts;
  }

  abbrev pub stored : Database
  stored = record unpruned {
    feed_scripts = erase (is_pruned meta.id script_history_keep unpruned) unpruned.feed_scripts;
  }

  pub store_script-stored :
      write (store_script loader meta content source_url now_ms) db
      ≡ (ok (count (is_pruned meta.id script_history_keep unpruned) unpruned.feed_scripts), stored)
  unfolding store_script write upsert_feed upsert_script prune_scripts header_of lookup upsert
  store_script-stored =
      let allowed : (has script_key db.feed_scripts
            || has meta.id (upsert meta.id inserted updated db.feeds))
          ≡ true =
        ground (arith, has-upsert meta.id meta.id inserted updated db.feeds, same_refl meta.id) in
      rw allowed refl

  module _ (unique : IsUnique db.feed_scripts) (latest : IsLatest meta.id now_ms db) where
    is_kept : is_pruned meta.id script_history_keep unpruned script_key script_row ≡ false
    unfolding is_pruned is_newer
    is_kept =
        let none_newer : versions_before unpruned script_key script_row ≡ 0 =
          count-upsert (λ k row. is_newer k row script_key script_row)
            (λ k row. same k.feed_id meta.id && leb now_ms row.installed_at_ms) script_key
            script_row db.feed_scripts (λ j w newer. ground arith)
            (ground (arith, text_ltb_irrefl meta.version)) latest in
        rw none_newer (ground arith)

    stored-script : lookup script_key stored.feed_scripts ≡ some script_row
    stored-script =
        lookup-erase (is_pruned meta.id script_history_keep unpruned) script_key
          unpruned.feed_scripts
          (IsUnique-upsert script_key script_row (λ _. script_row) db.feed_scripts unique)
        ∙ rw (lookup-put script_key script_row db.feed_scripts, is_kept) refl

    abbrev text_of : Option ScriptRow → Option Text
    text_of found = elim found [ none ↦ none | some row ↦ some row.script ]

    active_script-merged :
        (old : Option FeedRow)
        → active_script meta.id stored (some (merged updated inserted old)) ≡ some content
    unfolding installed_row upgraded_row header_of
    active_script-merged none = ap text_of stored-script
    active_script-merged (some row) = ap text_of stored-script

    pub active_script-stored :
        active_script meta.id stored (lookup meta.id stored.feeds) ≡ some content
    active_script-stored =
        let there : lookup meta.id stored.feeds
            ≡ some (merged updated inserted (lookup meta.id db.feeds)) =
          lookup-upsert meta.id meta.id inserted updated db.feeds ∙ rw (same_refl meta.id) refl in
        ap (active_script meta.id stored) there ∙ active_script-merged (lookup meta.id db.feeds)

module _ {Feed V : Type 0} (loader : Loader Feed V) (w : World Feed) (request_id : Text)
    (now_ms : ℕ) (pending : PendingInstall) (meta : FeedMeta) (offset : ℕ) (feed : Feed)
    (on : w.actor.attached ≡ true)
    (waits : lookup request_id w.actor.pending_installs ≡ some pending)
    (parses : parse_meta loader.urls pending.content ≡ some (ok (meta, offset)))
    (compiles : compile_feed loader pending.content ≡ answered feed) where
  abbrev database : Database
  database = stored loader meta pending.content pending.source_url now_ms w.db

  -- What an installation that nothing stops leaves.
  abbrev installed : World Feed
  installed = record {
    actor =
        register meta.id feed
          (record w.actor { pending_installs = remove request_id w.actor.pending_installs });
    db = database;
  }

  do_install-installed : do_install loader request_id now_ms w ≡ (answered tt, installed)
  unfolding do_install take_pending require_db parse persist register
  do_install-installed =
      rw
        (
          waits,
          on,
          parses,
          compiles,
          store_script-stored loader meta pending.content pending.source_url now_ms w.db,
        )
        refl

  module _ (loaded : Loaded Feed) (feeds_unique : IsUnique w.db.feeds)
      (scripts_unique : IsUnique w.db.feed_scripts) (latest : IsLatest meta.id now_ms w.db)
      (starts : load_feeds loader database ≡ answered loaded) where
    row_there : (row : FeedRow) × (lookup meta.id database.feeds ≡ some row)
    row_there = (
      merged
          (upgraded_row (header_of loader meta) pending.source_url
            (loader.sha256_hex pending.content) now_ms)
          (installed_row (header_of loader meta) pending.source_url
            (loader.sha256_hex pending.content) now_ms)
          (lookup meta.id w.db.feeds),
      lookup-upsert meta.id meta.id _ _ w.db.feeds ∙ rw (same_refl meta.id) refl,
    )

    restarted : lookup meta.id loaded.feeds ≡ some feed
    unfolding list_feeds_with_scripts list_feeds
    restarted =
        let (row, there) = row_there in
        let script : active_script meta.id database (some row) ≡ some pending.content =
          ap (active_script meta.id database) (sym there)
          ∙ active_script-stored loader meta pending.content pending.source_url now_ms w.db
              scripts_unique latest in
        let unique = IsUnique-upsert meta.id _ _ w.db.feeds feeds_unique in
        load_rows-loads loader meta.id row pending.content feed (list_feeds_with_scripts database) _
          loaded
          (IsUnique-with_scripts database (list_feeds database)
            (IsUnique-sort_by is_installed_before database.feeds unique))
          (lookup-with_scripts database meta.id row (list_feeds database)
              (lookup-sort_by is_installed_before meta.id database.feeds unique ∙ there)
            ∙ ap (λ s. some (row, s)) script)
          compiles starts

  restart-loaded :
      (db : Database) (loaded : Loaded Feed)
      → load_feeds loader db ≡ answered loaded
      → (initialize loader (record { actor = new; db = db })).1.actor.feeds ≡ loaded.feeds
  unfolding initialize
  restart-loaded db loaded starts =
      ap (λ a. (continue a (attach loader) (record { actor = new; db = db })).1.actor.feeds) starts

  -- Where the actor has its database, the keys of the feeds and of the scripts are unique, every
  -- script that the feed has was installed before, the header of the waiting preview is accepted,
  -- its script compiles, and the start after the installation does not panic, the installation
  -- succeeds and loads the feed, and that start loads what the script compiles to.
  pub do_install-initialize :
      (loaded : Loaded Feed)
      → IsUnique w.db.feeds
      → IsUnique w.db.feed_scripts
      → IsLatest meta.id now_ms w.db
      → load_feeds loader (do_install loader request_id now_ms w).1.db ≡ answered loaded
      → ((do_install loader request_id now_ms w).0 ≡ answered tt)
        × (lookup meta.id (do_install loader request_id now_ms w).1.actor.feeds ≡ some feed)
        × (lookup meta.id
              (initialize loader (record {
                actor = new;
                db = (do_install loader request_id now_ms w).1.db;
              })).1.actor.feeds
            ≡ some feed)
  unfolding register
  do_install-initialize loaded feeds_unique scripts_unique latest starts =
      let starts' : load_feeds loader database ≡ answered loaded =
        ap (λ r. load_feeds loader r.1.db) (sym do_install-installed) ∙ starts in
      (
        ap (λ r. r.0) do_install-installed,
        ap (λ r. lookup meta.id r.1.actor.feeds) do_install-installed
            ∙ lookup-put meta.id feed w.actor.feeds,
        ap (lookup meta.id)
              (restart-loaded (do_install loader request_id now_ms w).1.db loaded starts)
            ∙ restarted loaded feeds_unique scripts_unique latest starts',
      )
