-- ===== src/Store/Feeds.antt =====
-- native/langhuan/src/db/repo/feeds.rs
pub mod Removal
use langhuan.Prelude.{
  ℕ, Bool, true, not, ◌&&◌, ◌||◌, Option, none, some, [], ◌∷◌, Text, text_eq, same, ltb, ◌==◌,
  if◌then◌else◌,
}
use langhuan.Prelude.Order.{text_ltb}
use langhuan.Prelude.Table.{Table, lookup, has, upsert, update, erase, count}
use langhuan.Prelude.Table.Sort.{sort_by}
use langhuan.Error.{ok}
use langhuan.Store.Rows.{FeedKey, feed_key_eq, FeedRow, ScriptRow, Database}
use langhuan.Store.Repo.{Repo, gets, modify, constrained}
use langhuan.Store.Cascade.{delete_feed_rows}

-- What `upsert_feed` takes of a `FeedMeta`; `access_domains_json` is the serialised, sorted list.
pub record FeedHeader : Type 0 where
  pub id : Text
  pub name : Text
  pub version : Text
  pub author : Option Text
  pub base_url : Text
  pub access_domains_json : Text
  pub description : Option Text

-- `COALESCE`
abbrev pub coalesce : Option Text → Option Text → Option Text
coalesce (some a) b = some a
coalesce none b = b

-- The row that `upsert_feed` inserts, and its update on a conflict.
unfoldable pub installed_row : FeedHeader → Option Text → Text → ℕ → FeedRow
installed_row m source_url content_hash now_ms = record {
  name = m.name;
  version = m.version;
  author = m.author;
  source_url = source_url;
  content_hash = content_hash;
  installed_at_ms = now_ms;
  updated_at_ms = now_ms;
  enabled = true;
  base_url = some m.base_url;
  access_domains_json = m.access_domains_json;
  description = m.description;
}

unfoldable pub upgraded_row : FeedHeader → Option Text → Text → ℕ → FeedRow → FeedRow
upgraded_row m source_url content_hash now_ms row = record row {
  name = m.name;
  version = m.version;
  author = m.author;
  source_url = coalesce source_url row.source_url;
  content_hash = content_hash;
  updated_at_ms = now_ms;
  base_url = some m.base_url;
  access_domains_json = m.access_domains_json;
  description = m.description;
}

-- `upsert_feed`
unfoldable pub upsert_feed : FeedHeader → Option Text → Text → ℕ → Repo (Unit {0})
upsert_feed m source_url content_hash now_ms = modify λ db. record db {
  feeds =
      upsert m.id (installed_row m source_url content_hash now_ms)
        (upgraded_row m source_url content_hash now_ms) db.feeds;
}

-- `upsert_script`
unfoldable pub upsert_script : FeedKey → Text → Text → ℕ → Repo (Unit {0})
upsert_script k content_hash script now_ms =
    constrained (λ db. has k db.feed_scripts || has k.feed_id db.feeds)
      λ db. record db {
        feed_scripts =
            upsert k
              (record { content_hash = content_hash; script = script; installed_at_ms = now_ms })
              (λ _. record {
                content_hash = content_hash;
                script = script;
                installed_at_ms = now_ms;
              })
              db.feed_scripts;
      }

-- `ORDER BY installed_at_ms DESC, version DESC`: whether the first script of a feed comes before
-- the second.
unfoldable pub is_newer : FeedKey → ScriptRow → FeedKey → ScriptRow → Bool
is_newer k row k' row' =
    same k.feed_id k'.feed_id
    && (ltb row'.installed_at_ms row.installed_at_ms
        || (row'.installed_at_ms == row.installed_at_ms && text_ltb k'.name k.name))

-- How many versions of its feed come before a script: its row number, less one.
abbrev pub versions_before : Database → FeedKey → ScriptRow → ℕ
versions_before db k row = count (λ k' row'. is_newer k' row' k row) db.feed_scripts

-- `prune_scripts`
unfoldable pub is_pruned : Text → ℕ → Database → FeedKey → ScriptRow → Bool
is_pruned feed_id keep db k row =
    same k.feed_id feed_id && not (ltb (versions_before db k row) keep)

unfoldable pub prune_scripts : Text → ℕ → Repo ℕ
prune_scripts feed_id keep db = (
  ok (count (is_pruned feed_id keep db) db.feed_scripts),
  record db { feed_scripts = erase (is_pruned feed_id keep db) db.feed_scripts },
)

-- `get_feed`
unfoldable pub get_feed : Text → Repo (Option FeedRow)
get_feed id = gets (λ db. lookup id db.feeds)

-- The active script of a feed: the row of the version that `feeds` names.
abbrev pub active_script : Text → Database → Option FeedRow → Option Text
active_script feed_id db none = none
active_script feed_id db (some feed) =
    elim (lookup (record { feed_id = feed_id; name = feed.version }) db.feed_scripts) [
      | none ↦ none
      | some row ↦ some row.script
    ]

-- `get_current_script`
unfoldable pub get_current_script : Text → Repo (Option Text)
get_current_script feed_id = gets (λ db. active_script feed_id db (lookup feed_id db.feeds))

-- `delete_feed`
unfoldable pub delete_feed : Text → Repo Bool
delete_feed feed_id db = (ok (has feed_id db.feeds), delete_feed_rows feed_id db)

-- `set_feed_enabled`
unfoldable pub set_feed_enabled : Text → Bool → Repo Bool
set_feed_enabled feed_id enabled db = (
  ok (has feed_id db.feeds),
  record db {
    feeds =
        update {V = FeedRow}
          (λ id row. if same id feed_id then record row { enabled = enabled } else row) db.feeds;
  },
)

-- `ORDER BY installed_at_ms, id`
unfoldable pub is_installed_before : Text → FeedRow → Text → FeedRow → Bool
is_installed_before id row id' row' =
    ltb row.installed_at_ms row'.installed_at_ms
    || (row.installed_at_ms == row'.installed_at_ms && text_ltb id id')

-- `list_feeds`
unfoldable pub list_feeds : Database → Table Text FeedRow
unfolding is_installed_before
list_feeds db = sort_by is_installed_before db.feeds

-- `list_feeds_with_scripts`: each row with the script of its version.
abbrev pub with_scripts : Database → Table Text FeedRow → Table Text (FeedRow × Option Text)
with_scripts db [] = []
with_scripts db ((id, row) ∷ rest) =
    (id, (row, active_script id db (some row))) ∷ with_scripts db rest

unfoldable pub list_feeds_with_scripts : Database → Table Text (FeedRow × Option Text)
unfolding list_feeds
list_feeds_with_scripts db = with_scripts db (list_feeds db)
