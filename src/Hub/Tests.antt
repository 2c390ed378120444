-- ===== src/Hub/Tests.antt =====
-- The registry over a database with one feed.
use langhuan.Prelude.{
  ◌≡◌, ◌↔◌, ◌≤◌, ◌⊎◌, ◌&&◌, refl, arith, true, false, none, some, [], ◌∷◌, ◌++◌, Text, text_eq,
  text_beq, same, length, if◌then◌else◌,
}
use langhuan.Prelude.Bytes.{codes, before, strip_prefix, trim, leading_space, lower}
use langhuan.Prelude.Table.{lookup, has, upsert, erase, count}
use langhuan.Store.Repo.{write}
use langhuan.Error.{ok}
use langhuan.Http.Url.{UrlParser}
use langhuan.Script.Header.{lines, script_offset_of_line, total_length}
use langhuan.Prelude.Decimal.{parse_u32}
use langhuan.Script.Meta.{
  FeedMeta, parse_meta, scan_lines, set, set_field, normalize_all, word, after_word,
}
use langhuan.Store.Rows.{feed_key_beq, FeedRow, Database, fresh}
use langhuan.Hub.Registry.{
  World, new, answered, PendingInstall, get_feed_handle, unresolved, not_found, push_pending,
  pending_installs_cap,
}
use langhuan.Hub.Registry.Pending.{IsBounded, Dropped, push_pending_lem}
use langhuan.Hub.Registry.Install.{
  Loader, Loaded, load_rows, load_feeds, initialize, compile_feed, do_install,
}
use langhuan.Hub.Registry.Restart.{do_install-initialize}
use langhuan.Store.Feeds.{
  list_feeds, list_feeds_with_scripts, upsert_feed, upsert_script, prune_scripts, installed_row,
  upgraded_row, is_pruned, is_newer,
}
use langhuan.Prelude.Order.{text_ltb}
use langhuan.Prelude.Table.Sort.{sort_by}
use langhuan.Hub.Registry.Steps.{
  Reachable, started, handled, initialize_app_data_directory, handle, Reachable-get_feed,
}

abbrev small_urls : UrlParser
small_urls = record {
  Url = Text;
  parse = strip_prefix (codes "http://");
  host_str = λ u. some (before b'/' u);
  join = λ base path. some path;
  to_text = λ u. u;
}

-- An engine that accepts every script.
abbrev small_loader : Loader Text Text
small_loader = record {
  urls = small_urls;
  new_feed = λ body meta. ok body;
  semver = record { parse = λ s. some s; less = λ a b. false };
  sha256_hex = λ s. s;
  to_json = λ domains. [];
}

abbrev small_row : FeedRow
small_row = record {
  name = codes "F";
  version = codes "1.0.0";
  author = none;
  source_url = none;
  content_hash = [];
  installed_at_ms = 1;
  updated_at_ms = 1;
  enabled = true;
  base_url = none;
  access_domains_json = [];
  description = none;
}

abbrev small_db : Database
small_db = record fresh { feeds = (codes "f", small_row) ∷ [] }

-- The registry after its start: the script of the feed is missing.
abbrev small_world : World Text
small_world =
    handle small_loader (initialize_app_data_directory) (record { actor = new; db = small_db })

small_world-Reachable : Reachable small_loader small_world
unfolding lookup
small_world-Reachable =
    handled (record { actor = new; db = small_db }) initialize_app_data_directory
      (started small_db (refl, tt))

small_world-attached : small_world.actor.attached ≡ true
unfolding initialize load_rows list_feeds_with_scripts list_feeds lookup sort_by
small_world-attached = refl

Reachable-get_feed_example :
    (length small_world.actor.pending_installs ≤ pending_installs_cap)
    × ((get_feed_handle (codes "g") small_world.actor ≡ unresolved (not_found (codes "g")))
        ↔ (has (codes "g") small_world.db.feeds ≡ false))
    × ((has (codes "g") small_world.actor.feeds && has (codes "g") small_world.actor.load_errors)
        ≡ false)
Reachable-get_feed_example =
    Reachable-get_feed small_loader small_world (codes "g") small_world-Reachable
      small_world-attached

new-IsBounded : IsBounded (new {Feed = Text})
unfolding lookup
new-IsBounded = record { keys = tt; few = omega arith; counted = λ id p there. absurd (cc) }

push_pending_lem_example :
    IsBounded (push_pending (codes "f") (codes "x") none (new {Feed = Text}))
    × ((lookup
            (codes "f")
            (push_pending (codes "f") (codes "x") none (new {Feed = Text})).pending_installs
          ≡ (if same (codes "f") (codes "f")
              then some (record { content = codes "x"; source_url = none; seq = 1 })
              else lookup (codes "f") (new {Feed = Text}).pending_installs))
        ⊎ ((lookup
                (codes "f")
                (push_pending (codes "f") (codes "x") none (new {Feed = Text})).pending_installs
              ≡ none)
            × Dropped (codes "f") (codes "f") (new {Feed = Text}).pending_installs))
push_pending_lem_example =
    push_pending_lem (codes "f") (codes "x") none new new-IsBounded (codes "f")

-- The lines of a script's header.
abbrev small_script : Text
small_script =
    codes "// ==Feed==\n// @id f\n// @name F\n// @version 2\n// @base_url u\n"
    ++ codes "// @schema_version 6\n// ==/Feed==\n(() => ({}))()"

abbrev small_meta : FeedMeta
small_meta = record {
  id = codes "f";
  name = codes "F";
  version = codes "2";
  author = none;
  description = none;
  base_url = codes "u";
  access_domains = [];
  schema_version = 6;
}

small_script-parsed : parse_meta small_urls small_script ≡ some (ok (small_meta, 95))
unfolding parse_meta scan_lines lines text_beq set set_field normalize_all strip_prefix parse_u32
    trim leading_space lower script_offset_of_line total_length word after_word
small_script-parsed = refl

abbrev small_body : Text
small_body = codes "(() => ({}))()"

small_script-compiled : compile_feed small_loader small_script ≡ answered small_body
unfolding compile_feed scan_lines lines text_beq set set_field normalize_all strip_prefix parse_u32
    trim leading_space lower script_offset_of_line total_length word after_word
small_script-compiled = refl

abbrev small_pending : PendingInstall
small_pending = record { content = small_script; source_url = none; seq = 1 }

-- The feed has been previewed, and its row is there.
abbrev previewed_world : World Text
previewed_world = record {
  actor = record new {
    attached = true;
    pending_installs = (codes "f", small_pending) ∷ [];
    pending_seq = 1;
  };
  db = small_db;
}

abbrev small_loaded : Loaded Text
small_loaded = record { feeds = (codes "f", small_body) ∷ []; load_errors = [] }

small_waits : lookup (codes "f") previewed_world.actor.pending_installs ≡ some small_pending
unfolding lookup text_beq
small_waits = refl

small_restart :
    load_feeds small_loader (do_install small_loader (codes "f") 5 previewed_world).1.db
    ≡ answered small_loaded
unfolding do_install load_rows list_feeds_with_scripts list_feeds sort_by lookup upsert erase count
    write upsert_feed upsert_script prune_scripts installed_row upgraded_row is_pruned is_newer
    text_beq feed_key_beq scan_lines lines set set_field normalize_all strip_prefix parse_u32 trim
    lower script_offset_of_line total_length word after_word text_ltb
small_restart = refl

do_install-initialize_example :
    ((do_install small_loader (codes "f") 5 previewed_world).0 ≡ answered tt)
    × (lookup (codes "f") (do_install small_loader (codes "f") 5 previewed_world).1.actor.feeds
        ≡ some small_body)
    × (lookup
          (codes "f")
          (initialize small_loader (record {
            actor = new;
            db = (do_install small_loader (codes "f") 5 previewed_world).1.db;
          })).1.actor.feeds
        ≡ some small_body)
unfolding lookup count
do_install-initialize_example =
    do_install-initialize small_loader previewed_world (codes "f") 5 small_pending small_meta 95
      small_body refl small_waits small_script-parsed small_script-compiled small_loaded (refl, tt)
      tt refl small_restart
