-- ===== src/Hub/Registry/Steps.antt =====
-- native/hub/src/actors/registry_actor.rs: the states that the handlers can bring about. Other parts of
-- the program may change the database between two messages, but not which feeds it has.
use langhuan.Prelude.{
  ℕ, ◌≡◌, ◌↔◌, length, refl, Bool, true, false, ◌||◌, ◌&&◌, Option, none, some, List, Text, text_eq,
  arith, ◌≤◌,
}
use langhuan.Prelude.Table.{lookup, has}
use langhuan.Prelude.Table.Keys.{IsUnique}
use langhuan.Store.Rows.{Database, feed_key_eq}
use langhuan.Hub.Registry.{
  pending_installs_cap, resolve, get_feed_handle, unresolved, not_found, Registry, World, do_remove,
  do_set_enabled, new,
}
use langhuan.Hub.Registry.Install.{
  Loader, initialize, do_preview, do_install, ImportFeedScript, do_import,
}
use langhuan.Hub.Registry.Keeps.{IsRegistry, Keeps-do_remove, Keeps-do_set_enabled}
use langhuan.Hub.Registry.Keeps.Installs.{
  Keeps-initialize, Keeps-do_preview, Keeps-do_install, Keeps-do_import,
}

module _ {Feed V : Type 0} (loader : Loader Feed V) where
  -- The messages that the actor answers, with their arguments.
  pub data Message : Type 0 where
    initialize_app_data_directory : Message
    preview : (content : Text) (source_url : Option Text) → Message
    install : (request_id : Text) (now_ms : ℕ) → Message
    import_feeds : List (ImportFeedScript × ℕ) → Message
    remove_feed : (feed_id : Text) → Message
    set_enabled : (feed_id : Text) (enabled : Bool) → Message

  abbrev pub handle : Message → World Feed → World Feed
  handle initialize_app_data_directory w = (initialize loader w).1
  handle (preview content source_url) w = (do_preview loader content source_url w).1
  handle (install request_id now_ms) w = (do_install loader request_id now_ms w).1
  handle (import_feeds entries) w = (do_import loader entries w).1
  handle (remove_feed feed_id) w = (do_remove feed_id w).1
  handle (set_enabled feed_id enabled) w = (do_set_enabled feed_id enabled w).1

  -- The worlds that a program comes to from its start, with the database that it opens.
  pub data Reachable : World Feed → Type 1 where
    started : (db : Database) → IsUnique db.feeds → Reachable (record { actor = new; db = db })
    handled : (w : World Feed) (m : Message) → Reachable w → Reachable (handle m w)
    changed :
        (w : World Feed) (db : Database)
        → db.feeds ≡ w.db.feeds
        → Reachable w
        → Reachable (record w { db = db })

  Keeps-handle : (m : Message) (w : World Feed) → IsRegistry w → IsRegistry (handle m w)
  Keeps-handle initialize_app_data_directory = (Keeps-initialize loader).keeps
  Keeps-handle (preview content source_url) = (Keeps-do_preview loader content source_url).keeps
  Keeps-handle (install request_id now_ms) = (Keeps-do_install loader request_id now_ms).keeps
  Keeps-handle (import_feeds entries) = (Keeps-do_import loader entries).keeps
  Keeps-handle (remove_feed feed_id) = (Keeps-do_remove feed_id).keeps
  Keeps-handle (set_enabled feed_id enabled) = (Keeps-do_set_enabled feed_id enabled).keeps

  pub Reachable-IsRegistry : (w : World Feed) → Reachable w → IsRegistry w
  unfolding lookup
  Reachable-IsRegistry _ (started db u) = record {
    keys = u;
    bounded = record { keys = tt; few = omega arith; counted = λ id p there. absurd (cc) };
    agrees = λ on. absurd (cc);
  }
  Reachable-IsRegistry _ (handled w m r) = Keeps-handle m w (Reachable-IsRegistry w r)
  Reachable-IsRegistry _ (changed w db same_feeds r) =
      let h = Reachable-IsRegistry w r in
      record {
        keys = rw same_feeds h.keys;
        bounded = record {
          keys = h.bounded.keys;
          few = h.bounded.few;
          counted = h.bounded.counted;
        };
        agrees = λ on id. rw same_feeds (h.agrees on id);
      }

  resolve_iff :
      (loaded : Option Feed) (broken : Bool) (id : Text)
      → (resolve true loaded broken id ≡ unresolved (not_found id))
        ↔ (((elim loaded [ none ↦ false | some _ ↦ true ]) || broken) ≡ false)
  resolve_iff (some feed) broken id = (λ e. absurd (cc), λ e. absurd (cc))
  resolve_iff none true id = (λ e. absurd (cc), λ e. absurd (cc))
  resolve_iff none false id = (λ _. refl, λ _. refl)

  not_found_iff :
      (id : Text) (r : Registry Feed) (registered : Bool)
      → r.attached ≡ true
      → registered ≡ (has id r.feeds || has id r.load_errors)
      → (get_feed_handle id r ≡ unresolved (not_found id)) ↔ (registered ≡ false)
  unfolding get_feed_handle
  not_found_iff id r registered on which =
      rw (on, which) (resolve_iff (lookup id r.feeds) (has id r.load_errors) id)

  -- In every world that the messages bring about while nothing else changes the table of feeds,
  -- once the actor has its database, at most eight previews wait, it answers that a feed is not
  -- found exactly when the table has no row of it, and no feed is both loaded and noted as failed.
  pub Reachable-get_feed :
      (w : World Feed) (id : Text)
      → Reachable w
      → w.actor.attached ≡ true
      → (length w.actor.pending_installs ≤ pending_installs_cap)
        × ((get_feed_handle id w.actor ≡ unresolved (not_found id)) ↔ (has id w.db.feeds ≡ false))
        × ((has id w.actor.feeds && has id w.actor.load_errors) ≡ false)
  Reachable-get_feed w id r on =
      let h = Reachable-IsRegistry w r in
      (
        h.bounded.few,
        not_found_iff id w.actor (has id w.db.feeds) on (h.agrees on id).0,
        (h.agrees on id).1,
      )
