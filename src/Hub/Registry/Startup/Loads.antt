-- ===== src/Hub/Registry/Startup/Loads.antt =====
-- native/hub/src/actors/registry_actor.rs: a row whose script compiles is loaded at the start.
use langhuan.Prelude.{
  ◌≡◌, refl, sym, ap, ◌∙◌, false, Option, none, some, [], ◌∷◌, Text, text_eq, same, same_iff, arith,
  inl, inr, Bool-cases,
}
use langhuan.Prelude.Table.{Table, lookup, lookup-put, lookup-put_any}
use langhuan.Prelude.Table.Keys.{IsUnique}
use langhuan.Store.Rows.{Database, FeedRow, feed_key_eq}
use langhuan.Store.Feeds.{active_script, with_scripts}
use langhuan.Hub.Registry.{Answer, answered, refused, aborted, failed, insert}
use langhuan.Hub.Registry.Install.{Loader, Loaded, compile_feed, add_compiled, add_row, load_rows}
use langhuan.Hub.Registry.Startup.{got, then_load-answered}

pub lookup-with_scripts :
    (db : Database) (id : Text) (row : FeedRow) (t : Table Text FeedRow)
    → lookup id t ≡ some row
    → lookup id (with_scripts db t) ≡ some (row, active_script id db (some row))
unfolding lookup
lookup-with_scripts db id row [] there = absurd (cc)
lookup-with_scripts db id row ((j, r) ∷ t) there = elim (Bool-cases (same j id)) [
  | inl hit ↦
      let same_row : r ≡ row = ground arith in rw hit (rw (same_row, (same_iff j id).0 hit) refl)
  | inr miss ↦ rw miss (lookup-with_scripts db id row t (ground arith))
]

module _ {Feed V : Type 0} (loader : Loader Feed V) where
  add_compiled-other :
      (j id : Text) (a : Answer Feed) (acc acc' : Loaded Feed)
      → same j id ≡ false
      → add_compiled loader j a acc ≡ answered acc'
      → lookup id acc'.feeds ≡ lookup id acc.feeds
  add_compiled-other j id aborted acc acc' far e = absurd (cc)
  add_compiled-other j id (refused (failed x)) acc acc' far e =
      rw (sym (ap (got loader acc) e)) refl
  add_compiled-other j id (refused other) acc acc' far e = absurd (cc)
  add_compiled-other j id (answered feed) acc acc' far e =
      rw (sym (ap (got loader acc) e)) (lookup-put_any j id feed acc.feeds ∙ rw far refl)

  add_row-other :
      (j id : Text) (script : Option Text) (acc acc' : Loaded Feed)
      → same j id ≡ false
      → add_row loader j script acc ≡ answered acc'
      → lookup id acc'.feeds ≡ lookup id acc.feeds
  add_row-other j id none acc acc' far e = rw (sym (ap (got loader acc) e)) refl
  add_row-other j id (some script) acc acc' far e =
      add_compiled-other j id (compile_feed loader script) acc acc' far e

  load_rows-other :
      (id : Text) (rows : Table Text (FeedRow × Option Text)) (acc loaded : Loaded Feed)
      → lookup id rows ≡ none
      → load_rows loader rows acc ≡ answered loaded
      → lookup id loaded.feeds ≡ lookup id acc.feeds
  unfolding load_rows lookup
  load_rows-other id [] acc loaded gone e = rw (sym (ap (got loader acc) e)) refl
  load_rows-other id ((j, (row, script)) ∷ rest) acc loaded gone e =
      let (acc', added, more) =
        then_load-answered loader (add_row loader j script acc) (λ a. load_rows loader rest a)
          loaded e in
      let far : same j id ≡ false = ground arith in
      load_rows-other id rest acc' loaded (ground arith) more
      ∙ add_row-other j id script acc acc' far added

  add_row-loads :
      (j : Text) (s : Option Text) (script : Text) (feed : Feed) (acc acc' : Loaded Feed)
      → s ≡ some script
      → compile_feed loader script ≡ answered feed
      → add_row loader j s acc ≡ answered acc'
      → lookup j acc'.feeds ≡ some feed
  add_row-loads j s script feed acc acc' is_script compiles e =
      let added : add_row loader j s acc
          ≡ answered (record acc { feeds = insert j feed acc.feeds }) =
        ap (λ t. add_row loader j t acc) is_script
        ∙ ap (λ a. add_compiled loader j a acc) compiles in
      ap (λ a. lookup j (got loader acc a).feeds) (sym e ∙ added) ∙ lookup-put j feed acc.feeds

  -- A row whose script compiles is loaded.
  pub load_rows-loads :
      (id : Text) (row : FeedRow) (script : Text) (feed : Feed)
      (rows : Table Text (FeedRow × Option Text)) (acc loaded : Loaded Feed)
      → IsUnique rows
      → lookup id rows ≡ some (row, some script)
      → compile_feed loader script ≡ answered feed
      → load_rows loader rows acc ≡ answered loaded
      → lookup id loaded.feeds ≡ some feed
  unfolding load_rows lookup
  load_rows-loads id row script feed [] acc loaded u there compiles e = absurd (cc)
  load_rows-loads id row script feed ((j, (r, s)) ∷ rest) acc loaded (new, u) there compiles e =
      let (acc', added, more) =
        then_load-answered loader (add_row loader j s acc) (λ a. load_rows loader rest a) loaded
          e in
      elim (Bool-cases (same j id)) [
        | inl hit ↦
            let at_id = (same_iff j id).0 hit in
            let is_script : s ≡ some script = ground arith in
            load_rows-other id rest acc' loaded (ap (λ k. lookup k rest) (sym at_id) ∙ new) more
            ∙ ap (λ k. lookup k acc'.feeds) (sym at_id)
            ∙ add_row-loads j s script feed acc acc' is_script compiles added
        | inr miss ↦
            load_rows-loads id row script feed rest acc' loaded u (ground arith) compiles more
      ]
