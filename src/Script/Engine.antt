-- ===== src/Script/Engine.antt =====
-- native/langhuan/src/script/runtime/engine.rs: `ScriptEngine`, the loading of a feed script. The
-- JavaScript engine is a parameter.
use langhuan.Prelude.{ℕ, Option, none, some, Text, ltb, ◌==◌, if◌then◌else◌, drop}
use langhuan.Error.{Result, ok, err, schema_too_new, invalid_feed}
use langhuan.Http.Url.{UrlParser}
use langhuan.Script.Meta.{FeedMeta, is_char_boundary, parse_meta}

-- `FEED_SCHEMA_VERSION`
abbrev pub feed_schema_version : ℕ
feed_schema_version = 6

-- `JsFeed::new`, which evaluates the body of the script and looks for its handlers.
abbrev pub FeedLoader : Type 0 → Type 0
FeedLoader Feed = Text → FeedMeta → Result Feed

module _ {Feed : Type 0} (urls : UrlParser) (new_feed : FeedLoader Feed) where
  -- `script[body_offset..]`
  abbrev load_body : Text → FeedMeta → ℕ → Option (Result Feed)
  load_body script meta body_offset =
      if is_char_boundary script body_offset
      then some (new_feed (drop body_offset script) meta)
      else none

  abbrev load_parsed : Text → FeedMeta → ℕ → Option (Result Feed)
  load_parsed script meta body_offset =
      if ltb feed_schema_version meta.schema_version
      then some (err (schema_too_new meta.id meta.schema_version feed_schema_version))
      else if meta.schema_version == feed_schema_version
      then load_body script meta body_offset
      else some (err invalid_feed)

  -- `parse_and_load`; `none` is a panic.
  unfoldable pub parse_and_load : Text → Option (Result Feed)
  unfolding parse_meta is_char_boundary
  parse_and_load script = elim (parse_meta urls script) [
    | none ↦ none
    | some (err e) ↦ some (err e)
    | some (ok (meta, body_offset)) ↦ load_parsed script meta body_offset
  ]
