-- ===== src/Hub/Registry/Keeps.antt =====
-- native/hub/src/actors/registry_actor.rs: what each handler leaves true.
pub mod Installs
use langhuan.Prelude.{
  ◌≡◌, Bool, true, false, Text, text_eq, same, same_iff, arith, inl, inr, Bool-cases, if◌then◌else◌,
}
use langhuan.Prelude.Table.{Table, has}
use langhuan.Prelude.Table.Keys.{IsUnique, IsUnique-erase, IsUnique-update}
use langhuan.Prelude.Table.Child.{has-update}
use langhuan.Store.Rows.{Database, FeedRow, feed_key_eq}
use langhuan.Store.Repo.{write}
use langhuan.Store.Cascade.{delete_feed_rows}
use langhuan.Store.Feeds.{delete_feed, set_feed_enabled}
use langhuan.Hub.Registry.{
  World, Hub, LoadError, Answer, answered, refused, aborted, remove, give, continue, ◌>>=◌,
  check_attached, require_db, do_remove, do_set_enabled,
}
use langhuan.Hub.Registry.Pending.{IsBounded}
use langhuan.Hub.Registry.Agreement.{Agrees, Split, Split-gone, has-remove}

module _ {Feed : Type 0} where
  -- What holds between two messages.
  pub record IsRegistry (w : World Feed) : Type 0 where
    pub keys : IsUnique w.db.feeds
    pub bounded : IsBounded w.actor
    pub agrees : w.actor.attached ≡ true → Agrees w.actor w.db

  -- What a handler, or a part of one, does not break.
  pub record Keeps {ℓ} {A : Type ℓ} (m : Hub Feed A) : Type ℓ where
    pub keeps : (w : World Feed) → IsRegistry w → IsRegistry (m w).1

  module _ {ℓ} {A : Type ℓ} where
    pub Keeps-give : (a : Answer A) → Keeps (give a)
    Keeps-give a = record { keeps = λ w h. h }

  module _ {ℓ κ} {A : Type ℓ} {B : Type κ} where
    IsRegistry-continue :
        (a : Answer A) (next : A → Hub Feed B) (w : World Feed)
        → ((a : A) → Keeps (next a))
        → IsRegistry w
        → IsRegistry (continue a next w).1
    IsRegistry-continue (answered a) next w k h = (k a).keeps w h
    IsRegistry-continue (refused e) next w k h = h
    IsRegistry-continue aborted next w k h = h

    pub Keeps-bind :
        (m : Hub Feed A) (next : A → Hub Feed B)
        → Keeps m
        → ((a : A) → Keeps (next a))
        → Keeps (m >>= next)
    Keeps-bind m next k l = record {
      keeps = λ w h. IsRegistry-continue (m w).0 next (m w).1 l (k.keeps w h);
    }

  IsRegistry-check_attached :
      (on : Bool) (w : World Feed) → IsRegistry w → IsRegistry (check_attached on w).1
  IsRegistry-check_attached true w h = h
  IsRegistry-check_attached false w h = h

  pub Keeps-require_db : Keeps (require_db {Feed = Feed})
  unfolding require_db
  Keeps-require_db = record { keeps = λ w h. IsRegistry-check_attached w.actor.attached w h }

  -- A change of the actor or of the database that leaves the previews alone.
  pub Keeps-maps :
      (w : World Feed) (attached : Bool) (feeds : Table Text Feed) (errors : Table Text LoadError)
      (db : Database)
      → IsRegistry w
      → IsUnique db.feeds
      → (attached ≡ true → (id : Text) → Split (has id db.feeds) feeds errors id)
      → IsRegistry (record {
        actor = record w.actor { attached = attached; feeds = feeds; load_errors = errors };
        db = db;
      })
  Keeps-maps w attached feeds errors db h u s = record {
    keys = u;
    bounded = record { keys = h.bounded.keys; few = h.bounded.few; counted = h.bounded.counted };
    agrees = s;
  }

  pub Keeps-do_remove : (feed_id : Text) → Keeps (do_remove feed_id)
  unfolding do_remove write delete_feed delete_feed_rows
  Keeps-do_remove feed_id = Keeps-bind require_db _ Keeps-require_db λ _. record {
    keeps = λ w h.
        let u = IsUnique-erase (λ k _. same k feed_id) w.db.feeds h.keys in
        elim (Bool-cases (has feed_id w.db.feeds)) [
          | inl there ↦ rw there (
              Keeps-maps w w.actor.attached (remove feed_id w.actor.feeds)
                (remove feed_id w.actor.load_errors) (delete_feed_rows feed_id w.db) h u
                λ on j.
                  let s =
                    Split-gone feed_id j (has j w.db.feeds) w.actor.feeds w.actor.load_errors
                      (h.agrees on j) in
                  (ground (arith, has-remove feed_id j w.db.feeds, s.0), s.1))
          | inr missing ↦ rw missing (
              Keeps-maps w w.actor.attached w.actor.feeds w.actor.load_errors
                (delete_feed_rows feed_id w.db) h u
                λ on j. (
                  ground (
                    arith,
                    has-remove feed_id j w.db.feeds,
                    same_iff j feed_id,
                    (h.agrees on j).0,
                  ),
                  (h.agrees on j).1,
                ))
        ];
  }

  pub Keeps-do_set_enabled :
      (feed_id : Text) (enabled : Bool) → Keeps (do_set_enabled feed_id enabled)
  unfolding do_set_enabled write set_feed_enabled
  Keeps-do_set_enabled feed_id enabled = Keeps-bind require_db _ Keeps-require_db λ _. record {
    keeps = λ w h.
        Keeps-maps w w.actor.attached w.actor.feeds w.actor.load_errors
          (set_feed_enabled feed_id enabled w.db).1 h (IsUnique-update _ w.db.feeds h.keys)
          λ on j. (
            ground (
              arith,
              has-update {V = FeedRow}
                  (λ id row. if same id feed_id then record row { enabled = enabled } else row) j
                  w.db.feeds,
              (h.agrees on j).0,
            ),
            (h.agrees on j).1,
          );
  }
