-- ===== src/Hub/Registry/Keeps/Installs.antt =====
-- native/hub/src/actors/registry_actor.rs: what the handlers that compile scripts leave true.
use langhuan.Prelude.{
  ℕ, ◌≡◌, refl, Bool, true, false, ◌||◌, Option, none, some, List, [], ◌∷◌, Text, text_eq, arith,
  ap, same_refl,
}
use langhuan.Prelude.Table.{lookup, has, upsert}
use langhuan.Prelude.Table.Keys.{IsUnique-upsert}
use langhuan.Prelude.Table.Child.{has-upsert}
use langhuan.Script.Meta.{FeedMeta}
use langhuan.Store.Rows.{Database, feed_key_eq}
use langhuan.Store.Repo.{write, call}
use langhuan.Error.{ok}
use langhuan.Store.Feeds.{
  installed_row, upgraded_row, upsert_feed, upsert_script, prune_scripts, get_feed,
}
use langhuan.Hub.Registry.{
  World, Answer, answered, refused, aborted, insert, remove, run, give, continue, update_actor,
  require_db, register, push_pending, PendingInstall,
}
use langhuan.Hub.Registry.Pending.{push_pending-IsBounded, IsBounded-remove}
use langhuan.Hub.Registry.Agreement.{Split, Split-loaded}
use langhuan.Hub.Registry.Startup.{load_rows-Split}
use langhuan.Hub.Registry.Install.{
  Loader, Loaded, load_feeds, initialize_unless, attach, initialize, parse, installed_version,
  current_version, preview_of, do_preview, persist, take_pending, do_install, install_imported,
  ImportFeedScript, FeedImportOutcome, import_parsed, import_entries, do_import, take_found,
  persist_unless, compile_feed, store_script, header_of, is_installed,
}
use langhuan.Hub.Registry.Keeps.{
  IsRegistry, Keeps, Keeps-give, Keeps-bind, Keeps-require_db, Keeps-maps,
}

module _ {Feed V : Type 0} (loader : Loader Feed V) where
  IsRegistry-installed_version :
      (on : Bool) (id : Text) (w : World Feed)
      → IsRegistry w
      → IsRegistry (installed_version loader on id w).1
  unfolding call get_feed
  IsRegistry-installed_version true id w h = h
  IsRegistry-installed_version false id w h = h

  IsRegistry-push_pending :
      (feed_id content : Text) (source_url : Option Text) (w : World Feed)
      → IsRegistry w
      → IsRegistry (record w { actor = push_pending feed_id content source_url w.actor })
  unfolding push_pending
  IsRegistry-push_pending feed_id content source_url w h = record {
    keys = h.keys;
    bounded = push_pending-IsBounded feed_id content source_url w.actor h.bounded;
    agrees = h.agrees;
  }

  pub Keeps-do_preview :
      (content : Text) (source_url : Option Text) → Keeps (do_preview loader content source_url)
  unfolding do_preview parse
  Keeps-do_preview content source_url = Keeps-bind (parse loader content) _ (Keeps-give _) λ p.
      Keeps-bind (current_version loader p.0.id) _
        (record { keeps = λ w h. IsRegistry-installed_version w.actor.attached p.0.id w h })
        λ version.
          Keeps-bind (update_actor (push_pending p.0.id content source_url)) _
            (record { keeps = λ w h. IsRegistry-push_pending p.0.id content source_url w h })
            λ _. Keeps-give (answered (preview_of loader p.0 content version))

  -- An installation never violates a constraint, and puts the row of its feed into the table.
  store_script-feeds :
      (meta : FeedMeta) (content : Text) (source_url : Option Text) (now_ms : ℕ) (db : Database)
      → (n : ℕ) × (db' : Database) × (write (store_script loader meta content source_url now_ms) db
          ≡ (ok n, db'))
        × (db'.feeds
            ≡ upsert meta.id
                (installed_row
                  (header_of loader meta)
                  source_url
                  (loader.sha256_hex content)
                  now_ms)
                (upgraded_row (header_of loader meta) source_url (loader.sha256_hex content) now_ms)
                db.feeds)
  unfolding store_script write upsert_feed upsert_script prune_scripts header_of lookup upsert
  store_script-feeds meta content source_url now_ms db =
      let inserted =
        installed_row (header_of loader meta) source_url (loader.sha256_hex content) now_ms in
      let updated =
        upgraded_row (header_of loader meta) source_url (loader.sha256_hex content) now_ms in
      let allowed : (has (record { feed_id = meta.id; name = meta.version }) db.feed_scripts
            || has meta.id (upsert meta.id inserted updated db.feeds))
          ≡ true =
        ground (arith, has-upsert meta.id meta.id inserted updated db.feeds, same_refl meta.id) in
      rw allowed (_, _, refl, refl)

  Keeps-persist :
      (meta : FeedMeta) (content : Text) (source_url : Option Text) (now_ms : ℕ) (feed : Feed)
      → Keeps (persist loader meta content source_url now_ms feed)
  unfolding persist register
  Keeps-persist meta content source_url now_ms feed = record {
    keeps = λ w h.
        let (n, db', wrote, rows) = store_script-feeds meta content source_url now_ms w.db in
        rw wrote (
          Keeps-maps w w.actor.attached (insert meta.id feed w.actor.feeds)
            (remove meta.id w.actor.load_errors) db' h
            (rw rows (IsUnique-upsert meta.id _ _ w.db.feeds h.keys))
            λ on j.
              let s =
                Split-loaded meta.id j feed (has j w.db.feeds) w.actor.feeds w.actor.load_errors
                  (h.agrees on j) in
              (
                ground (
                  arith,
                  ap (has j) rows,
                  has-upsert meta.id j
                      (installed_row (header_of loader meta) source_url (loader.sha256_hex content)
                        now_ms)
                      (upgraded_row (header_of loader meta) source_url (loader.sha256_hex content)
                        now_ms)
                      w.db.feeds,
                  s.0,
                ),
                s.1,
              ));
  }

  Keeps-take_found :
      (found : Option PendingInstall) (request_id : Text)
      → Keeps (take_found loader found request_id)
  Keeps-take_found none request_id = record { keeps = λ w h. h }
  Keeps-take_found (some pending) request_id = record {
    keeps = λ w h. record {
      keys = h.keys;
      bounded = IsBounded-remove request_id w.actor h.bounded;
      agrees = h.agrees;
    };
  }

  Keeps-take_pending : (request_id : Text) → Keeps (take_pending loader request_id)
  unfolding take_pending
  Keeps-take_pending request_id = record {
    keeps =
        λ w h. (Keeps-take_found (lookup request_id w.actor.pending_installs) request_id).keeps w h;
  }

  pub Keeps-do_install :
      (request_id : Text) (now_ms : ℕ) → Keeps (do_install loader request_id now_ms)
  unfolding do_install parse
  Keeps-do_install request_id now_ms =
      Keeps-bind (take_pending loader request_id) _ (Keeps-take_pending request_id) λ pending.
        Keeps-bind require_db _ Keeps-require_db λ _.
          Keeps-bind (parse loader pending.content) _ (Keeps-give _) λ p.
            Keeps-bind (give (compile_feed loader pending.content)) _ (Keeps-give _)
              λ feed. Keeps-persist p.0 pending.content pending.source_url now_ms feed

  Keeps-persist_unless :
      (installed : Bool) (meta : FeedMeta) (content : Text) (source_url : Option Text) (now_ms : ℕ)
      (feed : Feed)
      → Keeps (persist_unless loader installed meta content source_url now_ms feed)
  Keeps-persist_unless true meta content source_url now_ms feed = Keeps-give _
  Keeps-persist_unless false meta content source_url now_ms feed =
      Keeps-bind (persist loader meta content source_url now_ms feed) _
        (Keeps-persist meta content source_url now_ms feed) λ _. Keeps-give _

  Keeps-install_imported :
      (meta : FeedMeta) (content : Text) (source_url : Option Text) (now_ms : ℕ)
      → Keeps (install_imported loader meta content source_url now_ms)
  unfolding install_imported call get_feed
  Keeps-install_imported meta content source_url now_ms =
      Keeps-bind require_db _ Keeps-require_db λ _.
        Keeps-bind (give (compile_feed loader content)) _ (Keeps-give _) λ feed.
          Keeps-bind (run (call (get_feed meta.id))) _ (record { keeps = λ w h. h })
            λ row.
              Keeps-persist_unless (is_installed loader meta content row) meta content source_url
                now_ms feed

  Keeps-import_parsed :
      (a : Answer (FeedMeta × ℕ)) (entry : ImportFeedScript) (now_ms : ℕ) (o : FeedImportOutcome)
      → Keeps (import_parsed loader a entry now_ms o)
  Keeps-import_parsed (answered (meta, _)) entry now_ms o = record {
    keeps = λ w h. (Keeps-install_imported meta entry.script entry.source_url now_ms).keeps w h;
  }
  Keeps-import_parsed (refused e) entry now_ms o = record { keeps = λ w h. h }
  Keeps-import_parsed aborted entry now_ms o = record { keeps = λ w h. h }

  Keeps-import_entries :
      (entries : List (ImportFeedScript × ℕ)) (o : FeedImportOutcome)
      → Keeps (import_entries loader entries o)
  unfolding import_entries
  Keeps-import_entries [] o = Keeps-give _
  Keeps-import_entries ((entry, now_ms) ∷ rest) o =
      Keeps-bind _ _ (Keeps-import_parsed _ entry now_ms o) λ o'. Keeps-import_entries rest o'

  pub Keeps-do_import : (entries : List (ImportFeedScript × ℕ)) → Keeps (do_import loader entries)
  unfolding do_import
  Keeps-do_import entries = Keeps-import_entries entries _

  IsRegistry-attach :
      (w : World Feed) (a : Answer (Loaded Feed))
      → IsRegistry w
      → ((loaded : Loaded Feed)
          → a ≡ answered loaded
          → (id : Text) → Split (has id w.db.feeds) loaded.feeds loaded.load_errors id)
      → IsRegistry (continue a (attach loader) w).1
  IsRegistry-attach w (answered loaded) h s =
      Keeps-maps w true loaded.feeds loaded.load_errors w.db h h.keys λ _. s loaded refl
  IsRegistry-attach w (refused e) h s = h
  IsRegistry-attach w aborted h s = h

  IsRegistry-initialize_unless :
      (attached : Bool) (w : World Feed)
      → IsRegistry w
      → IsRegistry (initialize_unless loader attached w).1
  IsRegistry-initialize_unless true w h = h
  IsRegistry-initialize_unless false w h =
      IsRegistry-attach w (load_feeds loader w.db) h
        λ loaded e. load_rows-Split loader w.db loaded h.keys e

  pub Keeps-initialize : Keeps (initialize loader)
  unfolding initialize
  Keeps-initialize = record { keeps = λ w h. IsRegistry-initialize_unless w.actor.attached w h }
