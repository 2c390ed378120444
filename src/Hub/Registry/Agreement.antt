-- ===== src/Hub/Registry/Agreement.antt =====
-- native/hub/src/actors/registry_actor.rs: the maps of the actor follow the rows of its database.
use langhuan.Prelude.{◌≡◌, Bool, false, ◌&&◌, ◌||◌, not, Text, text_eq, same, same_iff, arith}
use langhuan.Prelude.Table.{Table, has, lookup-erase_key}
use langhuan.Prelude.Table.Child.{has-upsert}
use langhuan.Store.Rows.{Database}
use langhuan.Hub.Registry.{Registry, insert, remove, LoadError}

-- A feed of the database is either loaded or known not to load, and no other feed is either.
abbrev pub Split {ℓ} :
    {Feed : Type ℓ} → Bool → Table Text Feed → Table Text LoadError → Text → Type 0
Split registered feeds errors id =
    (registered ≡ (has id feeds || has id errors)) × ((has id feeds && has id errors) ≡ false)

abbrev pub Agrees : {Feed : Type 0} → Registry Feed → Database → Type 0
Agrees r db = (id : Text) → Split (has id db.feeds) r.feeds r.load_errors id

has-insert {κ} :
    {A : Type κ} (id j : Text) (a : A) (t : Table Text A)
    → has j (insert id a t) ≡ (same id j || has j t)
has-insert id j a t = has-upsert id j a (λ _. a) t

pub has-remove {κ} :
    {A : Type κ} (id j : Text) (t : Table Text A)
    → has j (remove id t) ≡ (not (same j id) && has j t)
has-remove id j t = ground (arith, lookup-erase_key (λ k. same k id) j t)

module _ {Feed : Type 0} where
  pub Split-loaded :
      (id j : Text) (feed : Feed) (registered : Bool) (feeds : Table Text Feed)
      (errors : Table Text LoadError)
      → Split registered feeds errors j
      → Split (same id j || registered) (insert id feed feeds) (remove id errors) j
  Split-loaded id j feed registered feeds errors h = ground (
    arith,
    has-insert id j feed feeds,
    has-remove id j errors,
    same_iff id j,
    same_iff j id,
    h.0,
    h.1,
  )

  pub Split-gone :
      (id j : Text) (registered : Bool) (feeds : Table Text Feed) (errors : Table Text LoadError)
      → Split registered feeds errors j
      → Split (not (same j id) && registered) (remove id feeds) (remove id errors) j
  Split-gone id j registered feeds errors h =
      ground (arith, has-remove id j feeds, has-remove id j errors, h.0, h.1)
