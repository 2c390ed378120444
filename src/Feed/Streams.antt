-- ===== src/Feed/Streams.antt =====
-- native/langhuan/src/script/js/feed.rs: the streams of a feed, and what it answers about a login.
-- A stream is the list of what it yields to a consumer that reads it to the end.
pub mod Dedup
pub mod Unique
use langhuan.Prelude.{
  ℕ, zero, suc, ◌+◌, Bool, Option, none, some, List, [], ◌∷◌, ◌++◌, map, Text, text_eq, contains,
  if◌then◌else◌,
}
use langhuan.Prelude.Bytes.{codes}
use langhuan.Error.{Result, ok, err, javascript, duplicate_id}
use langhuan.Model.{
  SearchResult, ChapterInfo, ParagraphId, Paragraph, paragraph_id, RawParagraph, into_paragraph,
}
use langhuan.Http.Url.{UrlParser}
use langhuan.Feed.Request.{ResponseCache}
use langhuan.Feed.Operation.{OperationKind, auth_status}
use langhuan.Feed.Steps.{Values, Complete, Host, drive_steps}

-- `Page`
pub record Page (A Cursor : Type 0) : Type 0 where
  pub items : List A
  pub next_cursor : Option Cursor

-- What an operation leaves in the feed and outside of it.
abbrev pub Left : Type 0 → Type 0 → Type 0
Left A World = Result A × ResponseCache × World

module _ (urls : UrlParser) {v : Values} (host : Host v) (has_login : Bool)
    (access_domains : List Text) where
  -- `run_page`; `from_value` is serde_json at the type of the items.
  module _ {A : Type 0} (from_value : v.Json → Option (List A)) where
    abbrev pub page_of :
        Result (Complete v) → ResponseCache → host.World → Left (Page A v.Json) host.World
    page_of (err e) cache w = (err e, cache, w)
    page_of (ok c) cache w = elim (from_value c.result) [
      | none ↦ (err javascript, cache, w)
      | some items ↦ (ok (record { items = items; next_cursor = c.next_cursor }), cache, w)
    ]

    unfoldable pub run_page :
        OperationKind → v.Json → ResponseCache → host.World → Left (Page A v.Json) host.World
    run_page kind cursor cache w =
        let d = drive_steps urls host kind has_login access_domains cursor cache w in
        page_of d.result d.cache d.world

    abbrev pub turn_page :
        (v.Json → ResponseCache → host.World → List (Result A))
        → Left (Page A v.Json) host.World
        → List (Result A)
    turn_page more (err e, cache, w) = err e ∷ []
    turn_page more (ok page, cache, w) =
        map ok page.items ++ elim page.next_cursor [ none ↦ [] | some cursor ↦ more cursor cache w ]

    -- `paged_stream`, over as many pages as its consumer waits for.
    unfoldable pub paged_stream :
        ℕ → OperationKind → v.Json → ResponseCache → host.World → List (Result A)
    unfolding run_page
    paged_stream zero kind cursor cache w = []
    paged_stream (suc pages) kind cursor cache w =
        turn_page (paged_stream pages kind) (run_page kind cursor cache w)

  -- `run_value`
  module _ {A : Type 0} (from_value : v.Json → Option A) where
    abbrev pub value_of : Result (Complete v) → ResponseCache → host.World → Left A host.World
    value_of (err e) cache w = (err e, cache, w)
    value_of (ok c) cache w = elim (from_value c.result) [
      | none ↦ (err javascript, cache, w)
      | some value ↦ (ok value, cache, w)
    ]

    unfoldable pub run_value :
        OperationKind → v.Json → ResponseCache → host.World → Left A host.World
    run_value kind null cache w =
        let d = drive_steps urls host kind has_login access_domains null cache w in
        value_of d.result d.cache d.world

module _ {A : Type 0} (feed_id kind : Text) (get_id : A → Text) where
  -- The loop of `dedup_stream`, with the set of ids that have been seen.
  unfoldable pub dedup_from : List Text → List (Result A) → List (Result A)
  dedup_from seen [] = []
  dedup_from seen (err e ∷ rest) = err e ∷ []
  dedup_from seen (ok item ∷ rest) =
      let more = ok item ∷ dedup_from (get_id item ∷ seen) rest in
      if contains seen (get_id item)
      then err (duplicate_id feed_id kind (get_id item)) ∷ []
      else more

  -- `dedup_stream`
  unfoldable pub dedup_stream : List (Result A) → List (Result A)
  unfolding dedup_from
  dedup_stream = dedup_from []

-- The loop of `unique_search_stream`
unfoldable pub unique_from : List Text → List (Result SearchResult) → List (Result SearchResult)
unique_from seen [] = []
unique_from seen (err e ∷ rest) = err e ∷ []
unique_from seen (ok item ∷ rest) =
    let more = ok item ∷ unique_from (item.id ∷ seen) rest in
    let same_rest = unique_from seen rest in if contains seen item.id then same_rest else more

-- `unique_search_stream`
unfoldable pub unique_search_stream : List (Result SearchResult) → List (Result SearchResult)
unfolding unique_from
unique_search_stream = unique_from []

-- The loop that gives the paragraphs of a script their positions.
unfoldable pub indexed_from : ℕ → List (Result RawParagraph) → List (Result Paragraph)
indexed_from index [] = []
indexed_from index (err e ∷ rest) = err e ∷ []
indexed_from index (ok item ∷ rest) = ok (into_paragraph index item) ∷ indexed_from (index + 1) rest

-- `JsFeed::chapters`, over the pages of the script.
unfoldable pub chapter_stream : Text → List (Result ChapterInfo) → List (Result ChapterInfo)
unfolding dedup_stream
chapter_stream feed_id paged = dedup_stream feed_id (codes "chapter") (λ item. item.id) paged

-- `JsFeed::paragraphs`, over the pages of the script; `to_string` is the JSON of an id.
unfoldable pub paragraph_stream :
    (ParagraphId → Text) → Text → List (Result RawParagraph) → List (Result Paragraph)
unfolding indexed_from dedup_stream
paragraph_stream to_string feed_id raw =
    dedup_stream feed_id (codes "paragraph") (λ item. to_string (paragraph_id item))
      (indexed_from 0 raw)

-- `AuthStatus`
pub data AuthStatus : Type 0 where
  logged_out logged_in expired : AuthStatus

abbrev pub status_of : {C W : Type 0} → Result Bool × C × W → Result AuthStatus × C × W
status_of (err e, cache, w) = (err e, cache, w)
status_of (ok valid, cache, w) = (ok (if valid then logged_in else expired), cache, w)

-- `JsFeed::auth_status`; `null` is the empty cursor, and `from_bool` reads the script's answer.
module _ (urls : UrlParser) {v : Values} (host : Host v) (has_login has_auth_status : Bool)
    (access_domains : List Text) (null : v.Json) (from_bool : v.Json → Option Bool) where
  unfoldable pub feed_auth_status : ResponseCache → host.World → Left AuthStatus host.World
  unfolding run_value
  feed_auth_status cache w = elim (host.auth_info w) [
    | none ↦ (ok logged_out, cache, w)
    | some auth ↦
        if has_auth_status
        then status_of
            (run_value urls host has_login access_domains from_bool auth_status null cache w)
        else (ok logged_in, cache, w)
  ]
