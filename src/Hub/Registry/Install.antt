-- ===== src/Hub/Registry/Install.antt =====
-- native/hub/src/actors/registry_actor.rs: the handlers that compile scripts: at the start, for a
-- preview, for an installation and for an import.
use langhuan.Prelude.{
  suc, ℕ, ◌++◌, Bool, true, false, ◌&&◌, Option, none, some, List, [], ◌∷◌, Text, text_eq, same,
  if◌then◌else◌,
}
use langhuan.Prelude.Order.{text_ltb}
use langhuan.Prelude.Table.{Table, lookup}
use langhuan.Http.Url.{UrlParser}
use langhuan.Script.Meta.{FeedMeta, parse_meta}
use langhuan.Script.Engine.{FeedLoader, parse_and_load}
use langhuan.Store.Rows.{Database, FeedRow}
use langhuan.Store.Repo as Repo
use langhuan.Store.Repo.{Repo, write, call}
use langhuan.Store.Feeds.{
  FeedHeader, upsert_feed, upsert_script, prune_scripts, get_feed, list_feeds_with_scripts,
}
use langhuan.Store.Pass.{script_history_keep}
use langhuan.Hub.Registry.{
  Hub, Answer, answered, refused, aborted, BridgeError, failed, reload_not_supported,
  no_pending_preview, LoadError, script_missing, load_failed, PendingInstall, SemVer, VersionChange,
  classify_version_change, of_outcome, insert, remove, push_pending, run, give, update_actor,
  require_db, register, ◌>>=◌,
}

-- `sort_unstable`
abbrev insert_text : Text → List Text → List Text
insert_text s [] = s ∷ []
insert_text s (t ∷ rest) =
    let more = insert_text s rest in if text_ltb t s then t ∷ more else s ∷ t ∷ rest

unfoldable pub sort_texts : List Text → List Text
sort_texts [] = []
sort_texts (s ∷ rest) = insert_text s (sort_texts rest)

-- What the program asks of third-party code here: the parser of URLs, the JavaScript engine, the
-- comparison of versions, the hash and `serde_json`.
pub record Loader (Feed V : Type 0) : Type 1 where
  pub urls : UrlParser
  pub new_feed : FeedLoader Feed
  pub semver : SemVer V
  pub sha256_hex : Text → Text
  pub to_json : List Text → Text

-- `ImportFeedScript`
pub record ImportFeedScript : Type 0 where
  pub script : Text
  pub source_url : Option Text

-- `FeedImportOutcome`; a failure with the id of its feed, empty where the header is refused.
pub record FeedImportOutcome : Type 0 where
  pub installed : ℕ
  pub skipped : ℕ
  pub failures : List (Text × BridgeError)

-- `FeedPreviewInfo`
pub record FeedPreviewInfo : Type 0 where
  pub meta : FeedMeta
  pub current_version : Option Text
  pub version_change : VersionChange
  pub script : Text

abbrev version_of : Option FeedRow → Option Text
version_of none = none
version_of (some row) = some row.version

-- The two maps that `initialize_app_data_directory` fills.
pub record Loaded (Feed : Type 0) : Type 0 where
  pub feeds : Table Text Feed
  pub load_errors : Table Text LoadError

module _ {Feed V : Type 0} (loader : Loader Feed V) where
  -- `compile_feed`; the handler for the web view is attached to a feed without an error.
  unfoldable pub compile_feed : Text → Answer Feed
  unfolding parse_and_load
  compile_feed script = of_outcome (parse_and_load loader.urls loader.new_feed script)

  -- The body of the loop over the rows.
  abbrev pub add_compiled : Text → Answer Feed → Loaded Feed → Answer (Loaded Feed)
  add_compiled id aborted acc = aborted
  add_compiled id (refused (failed e)) acc =
      answered (record acc { load_errors = insert id (load_failed e) acc.load_errors })
  add_compiled id (refused other) acc = refused other
  add_compiled id (answered feed) acc = answered (record acc { feeds = insert id feed acc.feeds })

  abbrev pub add_row : Text → Option Text → Loaded Feed → Answer (Loaded Feed)
  add_row id none acc =
      answered (record acc { load_errors = insert id script_missing acc.load_errors })
  add_row id (some script) acc = add_compiled id (compile_feed script) acc

  abbrev pub then_load :
      Answer (Loaded Feed) → (Loaded Feed → Answer (Loaded Feed)) → Answer (Loaded Feed)
  then_load (answered acc) next = next acc
  then_load (refused e) next = refused e
  then_load aborted next = aborted

  unfoldable pub load_rows : Table Text (FeedRow × Option Text) → Loaded Feed → Answer (Loaded Feed)
  unfolding compile_feed
  load_rows [] acc = answered acc
  load_rows ((id, (row, script)) ∷ rest) acc =
      then_load (add_row id script acc) λ acc'. load_rows rest acc'

  abbrev pub attach : Loaded Feed → Hub Feed (Unit {0})
  attach loaded =
      update_actor
        λ r. record r { attached = true; feeds = loaded.feeds; load_errors = loaded.load_errors }

  abbrev pub load_feeds : Database → Answer (Loaded Feed)
  load_feeds db = load_rows (list_feeds_with_scripts db) (record { feeds = []; load_errors = [] })

  abbrev pub initialize_unless : Bool → Hub Feed (Unit {0})
  initialize_unless true w = (refused reload_not_supported, w)
  initialize_unless false w = (give (load_feeds w.db) >>= attach) w

  -- `initialize_app_data_directory`
  unfoldable pub initialize : Hub Feed (Unit {0})
  unfolding load_rows list_feeds_with_scripts
  initialize w = initialize_unless w.actor.attached w

  -- `parse_meta(…)?`
  unfoldable pub parse : Text → Hub Feed (FeedMeta × ℕ)
  unfolding parse_meta
  parse content = give (of_outcome (parse_meta loader.urls content))

  -- The version that is installed, where there is a database.
  abbrev pub installed_version : Bool → Text → Hub Feed (Option Text)
  installed_version false id = give (answered none)
  installed_version true id = run (call (get_feed id)) >>= λ row. give (answered (version_of row))

  abbrev pub current_version : Text → Hub Feed (Option Text)
  current_version id w = installed_version w.actor.attached id w

  abbrev pub preview_of : FeedMeta → Text → Option Text → FeedPreviewInfo
  preview_of meta content version = record {
    meta = meta;
    current_version = version;
    version_change = classify_version_change loader.semver version meta.version;
    script = content;
  }

  -- `do_preview`
  unfoldable pub do_preview : Text → Option Text → Hub Feed FeedPreviewInfo
  unfolding parse classify_version_change push_pending
  do_preview content source_url = parse content >>= λ (meta, _).
      current_version meta.id >>= λ version.
      update_actor (push_pending meta.id content source_url) >>= λ _.
      give (answered (preview_of meta content version))

  -- The values that `upsert_feed` binds.
  unfoldable pub header_of : FeedMeta → FeedHeader
  unfolding sort_texts
  header_of meta = record {
    id = meta.id;
    name = meta.name;
    version = meta.version;
    author = meta.author;
    base_url = meta.base_url;
    access_domains_json = loader.to_json (sort_texts meta.access_domains);
    description = meta.description;
  }

  -- The transaction of an installation.
  unfoldable pub store_script : FeedMeta → Text → Option Text → ℕ → Repo ℕ
  unfolding header_of
  store_script meta content source_url now_ms =
      let content_hash = loader.sha256_hex content in
      Repo.◌>>◌ (upsert_feed (header_of meta) source_url content_hash now_ms) (
        Repo.◌>>◌
          (upsert_script (record { feed_id = meta.id; name = meta.version }) content_hash content
            now_ms)
          (prune_scripts meta.id script_history_keep))

  -- What an installation does with a feed that has been compiled.
  unfoldable pub persist : FeedMeta → Text → Option Text → ℕ → Feed → Hub Feed (Unit {0})
  unfolding store_script register
  persist meta content source_url now_ms feed =
      run (write (store_script meta content source_url now_ms)) >>= λ _.
      update_actor (register meta.id feed)

  -- `pending_installs.remove(…).ok_or_else(…)?`
  abbrev pub take_found : Option PendingInstall → Text → Hub Feed PendingInstall
  take_found none request_id w = (refused no_pending_preview, w)
  take_found (some pending) request_id w = (
    answered pending,
    record w {
      actor = record w.actor { pending_installs = remove request_id w.actor.pending_installs };
    },
  )

  unfoldable pub take_pending : Text → Hub Feed PendingInstall
  take_pending request_id w = take_found (lookup request_id w.actor.pending_installs) request_id w

  -- `do_install`
  unfoldable pub do_install : Text → ℕ → Hub Feed (Unit {0})
  unfolding take_pending parse persist require_db
  do_install request_id now_ms = take_pending request_id >>= λ pending. require_db >>= λ _.
      parse pending.content >>= λ (meta, _). give (compile_feed pending.content) >>= λ feed.
      persist meta pending.content pending.source_url now_ms feed

  -- `already_installed`
  abbrev pub is_installed : FeedMeta → Text → Option FeedRow → Bool
  is_installed meta content none = false
  is_installed meta content (some row) =
      same row.version meta.version && same row.content_hash (loader.sha256_hex content)

  abbrev pub persist_unless : Bool → FeedMeta → Text → Option Text → ℕ → Feed → Hub Feed Bool
  persist_unless true meta content source_url now_ms feed = give (answered false)
  persist_unless false meta content source_url now_ms feed =
      persist meta content source_url now_ms feed >>= λ _. give (answered true)

  -- `install_imported`
  unfoldable pub install_imported : FeedMeta → Text → Option Text → ℕ → Hub Feed Bool
  unfolding persist compile_feed require_db
  install_imported meta content source_url now_ms = require_db >>= λ _.
      give (compile_feed content) >>= λ feed. run (call (get_feed meta.id)) >>= λ row.
      persist_unless (is_installed meta content row) meta content source_url now_ms feed

  abbrev pub counted : Text → Answer Bool → FeedImportOutcome → Answer FeedImportOutcome
  counted id (answered true) o = answered (record o { installed = suc o.installed })
  counted id (answered false) o = answered (record o { skipped = suc o.skipped })
  counted id (refused e) o = answered (record o { failures = o.failures ++ (id, e) ∷ [] })
  counted id aborted o = aborted

  -- The body of the loop over the entries of an import.
  abbrev pub import_parsed :
      Answer (FeedMeta × ℕ) → ImportFeedScript → ℕ → FeedImportOutcome → Hub Feed FeedImportOutcome
  import_parsed (answered (meta, _)) entry now_ms o w =
      let (a, w') = install_imported meta entry.script entry.source_url now_ms w in
      (counted meta.id a o, w')
  import_parsed (refused e) entry now_ms o w = (counted [] (refused e) o, w)
  import_parsed aborted entry now_ms o w = (aborted, w)

  unfoldable pub import_entries :
      List (ImportFeedScript × ℕ) → FeedImportOutcome → Hub Feed FeedImportOutcome
  unfolding install_imported parse_meta
  import_entries [] o = give (answered o)
  import_entries ((entry, now_ms) ∷ rest) o =
      import_parsed (of_outcome (parse_meta loader.urls entry.script)) entry now_ms o >>= λ o'.
      import_entries rest o'

  -- `do_import`; each entry comes with the time at which it is installed.
  unfoldable pub do_import : List (ImportFeedScript × ℕ) → Hub Feed FeedImportOutcome
  unfolding import_entries
  do_import entries = import_entries entries (record { installed = 0; skipped = 0; failures = [] })
