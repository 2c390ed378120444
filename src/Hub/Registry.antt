-- ===== src/Hub/Registry.antt =====
-- native/hub/src/actors/registry_actor.rs: the registry of the installed feeds. The script engine, the
-- hash and the comparison of versions are parameters.
pub mod Install
pub mod Restart
pub mod Keeps
pub mod Steps
pub mod Startup
pub mod Agreement
pub mod Pending
use langhuan.Prelude.{
  ℕ, suc, Bool, true, false, ◌&&◌, not, Option, none, some, List, [], ◌∷◌, Text, text_eq, same, leb,
  if◌then◌else◌, length,
}
use langhuan.Prelude.Table.{Table, lookup, has, upsert, erase}
use langhuan.Error.{Error, Result, ok, err, feed_not_found}
use langhuan.Store.Rows.{Database, FeedRow}
use langhuan.Store.Repo.{Repo, write}
use langhuan.Store.Feeds.{delete_feed, set_feed_enabled, list_feeds}

-- `PENDING_INSTALLS_CAP`
abbrev pub pending_installs_cap : ℕ
pending_installs_cap = 8

-- `PendingInstall`
pub record PendingInstall : Type 0 where
  pub content : Text
  pub source_url : Option Text
  pub seq : ℕ

-- `BridgeError`, by the function that makes it.
pub data BridgeError : Type 0 where
  failed : Error → BridgeError
  reload_not_supported not_initialized no_pending_preview : BridgeError

-- `ResolveError`
pub data ResolveError : Type 0 where
  dir_not_set : ResolveError
  unavailable not_found : Text → ResolveError

-- What a handler returns, or its panic.
pub data Answer {ℓ} (A : Type ℓ) : Type ℓ where
  answered : A → Answer A
  refused : BridgeError → Answer A
  aborted : Answer A

-- Why a feed that is registered is not loaded.
pub data LoadError : Type 0 where
  script_missing : LoadError
  load_failed : Error → LoadError

-- `VersionChange`, and what `semver` says of two versions.
pub data VersionChange : Type 0 where
  new_feed upgrade downgrade same_version unknown_change : VersionChange

pub record SemVer (V : Type 0) : Type 0 where
  pub parse : Text → Option V
  pub less : V → V → Bool

module _ {V : Type 0} (semver : SemVer V) where
  abbrev compare_versions : Option V → Option V → VersionChange
  compare_versions (some current) (some fresh) =
      if semver.less current fresh
      then upgrade
      else if semver.less fresh current
      then downgrade
      else same_version
  compare_versions (some current) none = unknown_change
  compare_versions none _ = unknown_change

  -- `classify_version_change`
  unfoldable pub classify_version_change : Option Text → Text → VersionChange
  classify_version_change none fresh = new_feed
  classify_version_change (some current) fresh =
      compare_versions (semver.parse current) (semver.parse fresh)

-- `RegistryActor`; `attached` tells whether it has a database.
pub record Registry (Feed : Type 0) : Type 0 where
  pub attached : Bool
  pub feeds : Table Text Feed
  pub load_errors : Table Text LoadError
  pub pending_installs : Table Text PendingInstall
  pub pending_seq : ℕ

-- `HashMap::insert` and `HashMap::remove`
module _ {κ} {A : Type κ} where
  abbrev pub insert : Text → A → Table Text A → Table Text A
  insert id a t = upsert id a (λ _. a) t

  abbrev pub remove : Text → Table Text A → Table Text A
  remove id t = erase (λ k _. same k id) t

-- `min_by_key(|(_, pending)| pending.seq)`
abbrev earlier : Text → ℕ → Option (Text × ℕ) → Option (Text × ℕ)
earlier id n none = some (id, n)
earlier id n (some (other, m)) = if leb n m then some (id, n) else some (other, m)

unfoldable pub oldest : Table Text PendingInstall → Option (Text × ℕ)
oldest [] = none
oldest ((id, pending) ∷ rest) = earlier id pending.seq (oldest rest)

abbrev remove_oldest : Option (Text × ℕ) → Table Text PendingInstall → Table Text PendingInstall
remove_oldest none t = t
remove_oldest (some (id, n)) t = remove id t

unfoldable pub make_room : Text → Table Text PendingInstall → Table Text PendingInstall
unfolding oldest
make_room feed_id t =
    if not (has feed_id t) && leb pending_installs_cap (length t)
    then remove_oldest (oldest t) t
    else t

-- What the database and the actor hold.
pub record World (Feed : Type 0) : Type 0 where
  pub actor : Registry Feed
  pub db : Database

-- What a handler does.
abbrev pub Hub {ℓ} : Type 0 → Type ℓ → Type ℓ
Hub Feed A = World Feed → Answer A × World Feed

module _ {ℓ} {A : Type ℓ} where
  abbrev pub of_result : Result A → Answer A
  of_result (ok a) = answered a
  of_result (err e) = refused (failed e)

  -- A computation that a panic may end.
  abbrev pub of_outcome : Option (Result A) → Answer A
  of_outcome none = aborted
  of_outcome (some r) = of_result r

-- What `Handler<GetFeed>` returns.
pub data Resolved (Feed : Type 0) : Type 0 where
  resolved : Feed → Resolved Feed
  unresolved : ResolveError → Resolved Feed

module _ {Feed : Type 0} where
  -- `RegistryActor::new`
  abbrev pub new : Registry Feed
  new = record {
    attached = false;
    feeds = [];
    load_errors = [];
    pending_installs = [];
    pending_seq = 0;
  }

  -- `push_pending`
  unfoldable pub push_pending : Text → Text → Option Text → Registry Feed → Registry Feed
  unfolding make_room
  push_pending feed_id content source_url r =
      let seq = suc r.pending_seq in
      record r {
        pending_installs =
            insert feed_id (record { content = content; source_url = source_url; seq = seq })
              (make_room feed_id r.pending_installs);
        pending_seq = seq;
      }

  module _ {ℓ} {A : Type ℓ} where
    abbrev pub give : Answer A → Hub Feed A
    give a w = (a, w)

    -- `db.call` and `db.write` on the database of the actor.
    abbrev pub run : Repo A → Hub Feed A
    run m w = let (r, db') = m w.db in (of_result r, record w { db = db' })

  module _ {ℓ κ} {A : Type ℓ} {B : Type κ} where
    abbrev pub continue : Answer A → (A → Hub Feed B) → Hub Feed B
    continue (answered a) next = next a
    continue (refused e) next = give (refused e)
    continue aborted next = give aborted

    infixl 5 ◌>>=◌
    abbrev pub ◌>>=◌ : Hub Feed A → (A → Hub Feed B) → Hub Feed B
    ◌>>=◌ m next w = let (a, w') = m w in continue a next w'

  abbrev pub update_actor : (Registry Feed → Registry Feed) → Hub Feed (Unit {0})
  update_actor f w = (answered tt, record w { actor = f w.actor })

  -- `require_db`
  abbrev pub check_attached : Bool → Hub Feed (Unit {0})
  check_attached true w = (answered tt, w)
  check_attached false w = (refused not_initialized, w)

  unfoldable pub require_db : Hub Feed (Unit {0})
  require_db w = check_attached w.actor.attached w

  -- A feed that has been compiled takes the place of what was there.
  unfoldable pub register : Text → Feed → Registry Feed → Registry Feed
  register id feed r = record r {
    feeds = insert id feed r.feeds;
    load_errors = remove id r.load_errors;
  }

  -- `do_remove`
  abbrev pub forget : Text → Registry Feed → Registry Feed
  forget id r = record r { feeds = remove id r.feeds; load_errors = remove id r.load_errors }

  unfoldable pub do_remove : Text → Hub Feed (Unit {0})
  unfolding require_db
  do_remove feed_id = require_db >>= λ _. run (write (delete_feed feed_id)) >>= λ removed.
      if removed
      then update_actor (forget feed_id)
      else give (refused (failed (feed_not_found feed_id)))

  -- `do_set_enabled`
  unfoldable pub do_set_enabled : Text → Bool → Hub Feed (Unit {0})
  unfolding require_db
  do_set_enabled feed_id enabled = require_db >>= λ _.
      run (write (set_feed_enabled feed_id enabled)) >>= λ updated.
      give (if updated then answered tt else refused (failed (feed_not_found feed_id)))

  -- `do_list_feeds`: each row with the error of its feed.
  abbrev listed : Registry Feed → Table Text FeedRow → List (Text × FeedRow × Option LoadError)
  listed r [] = []
  listed r ((id, row) ∷ rest) = (id, row, lookup id r.load_errors) ∷ listed r rest

  unfoldable pub do_list_feeds : World Feed → List (Text × FeedRow × Option LoadError)
  do_list_feeds w = if w.actor.attached then listed w.actor (list_feeds w.db) else []

  -- `Handler<GetFeed>`, from whether there is a database and what the two maps have.
  abbrev pub resolve : Bool → Option Feed → Bool → Text → Resolved Feed
  resolve false loaded broken feed_id = unresolved dir_not_set
  resolve true (some feed) broken feed_id = resolved feed
  resolve true none true feed_id = unresolved (unavailable feed_id)
  resolve true none false feed_id = unresolved (not_found feed_id)

  unfoldable pub get_feed_handle : Text → Registry Feed → Resolved Feed
  get_feed_handle feed_id r =
      resolve r.attached (lookup feed_id r.feeds) (has feed_id r.load_errors) feed_id
