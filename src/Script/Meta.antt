-- ===== src/Script/Meta.antt =====
-- native/langhuan/src/script/meta.rs: `parse_meta`, the header of a feed script.
pub mod Fields
pub mod Entries
pub mod Builder
pub mod Scan
use langhuan.Prelude.{
  ℕ, suc, ◌+◌, Bool, true, false, ◌&&◌, ◌||◌, not, Option, none, some, List, [], ◌∷◌, ◌++◌, Text,
  text_eq, same, contains, leb, ltb, ◌==◌, if◌then◌else◌, length, get_elem?, any, zero, drop,
}
use langhuan.Prelude.Bytes.{codes, strip_prefix, trim, leading_space, to_ascii_lowercase}
use langhuan.Prelude.Decimal.{is_digit, read_digits, parse_u32}
use langhuan.Error.{Error, Result, ok, err, invalid_feed, parse_error, ◌>>=◌}
use langhuan.Http.Url.{UrlParser}
use langhuan.Script.Header.{line_feed, lines, script_offset_of_line}

-- `HEADER_START` and `HEADER_END`
abbrev pub header_start : Text
header_start = codes "==Feed=="

abbrev pub header_end : Text
header_end = codes "==/Feed=="

-- `HeaderEntry`
pub record HeaderEntry : Type 0 where
  pub key : Text
  pub value : Text
  pub line : ℕ

-- `strip_prefix("//").unwrap_or(trimmed)`
abbrev pub or_whole : Text → Option Text → Text
or_whole s none = s
or_whole s (some rest) = rest

-- What stands in a line without its comment marker.
unfoldable pub content_of : Text → Text
unfolding trim strip_prefix
content_of line =
    let trimmed = trim line in trim (or_whole trimmed (strip_prefix (codes "//") trimmed))

-- `split_once(char::is_whitespace)`: what stands before the first white space, and after it.
unfoldable pub word : Text → Text
unfolding leading_space
word [] = []
word (c ∷ s) = let rest = word s in elim (leading_space (c ∷ s)) [ zero ↦ c ∷ rest | suc n ↦ [] ]

unfoldable pub after_word : Text → Text
unfolding leading_space
after_word [] = []
after_word (c ∷ s) =
    let rest = after_word s in elim (leading_space (c ∷ s)) [ zero ↦ rest | suc n ↦ drop n s ]

-- An entry of a line that begins with `@`; a key has no white space, so that it needs no trimming.
abbrev pub entry_of : ℕ → Text → HeaderEntry
entry_of line rest = record { key = word rest; value = trim (after_word rest); line = line }

abbrev pub entries_of : ℕ → Option Text → List HeaderEntry
entries_of line none = []
entries_of line (some rest) = entry_of line rest ∷ []

-- A byte that does not begin a character.
abbrev pub is_continuation : Option ℕ → Bool
is_continuation none = false
is_continuation (some b) = leb 128 b && ltb b 192

-- `str::is_char_boundary`
unfoldable pub is_char_boundary : Text → ℕ → Bool
is_char_boundary s i = leb i (length s) && not (is_continuation (get_elem? s i))

-- `extract_header_lines`: the entries and where the body begins, an error, or a panic where the
-- script is sliced at an offset that is no boundary of a character.
pub data Extraction : Type 0 where
  extracted : List HeaderEntry → ℕ → Extraction
  failed : Error → Extraction
  panicked : Extraction

abbrev pub with_entries : List HeaderEntry → Extraction → Extraction
with_entries before (extracted entries offset) = extracted (before ++ entries) offset
with_entries before (failed e) = failed e
with_entries before panicked = panicked

abbrev pub is_line_feed : Option ℕ → Bool
is_line_feed none = false
is_line_feed (some c) = c == line_feed

-- Where the body begins, for the line of the closing tag.
abbrev pub body_offset : Text → ℕ → Text → ℕ
body_offset script start line =
    let line_end = start + length line in
    if is_line_feed (get_elem? script line_end) then line_end + 1 else line_end

unfoldable pub close_header : Text → ℕ → Text → Extraction
unfolding is_char_boundary
close_header script line_idx line =
    let start = script_offset_of_line script line_idx in
    if is_char_boundary script start then extracted [] (body_offset script start line) else panicked

-- The loop over the lines inside the header block, and before it.
unfoldable pub scan_header : Text → ℕ → List Text → Extraction
unfolding close_header content_of strip_prefix
scan_header script line_idx [] = failed (parse_error 1)
scan_header script line_idx (line ∷ rest) =
    let more =
      with_entries (entries_of (line_idx + 1) (strip_prefix (codes "@") (content_of line)))
        (scan_header script (suc line_idx) rest) in
    if same (content_of line) header_end then close_header script line_idx line else more

unfoldable pub scan_lines : Text → ℕ → List Text → Extraction
unfolding scan_header content_of
scan_lines script line_idx [] = failed (parse_error 1)
scan_lines script line_idx (line ∷ rest) =
    let more = scan_lines script (suc line_idx) rest in
    if same (content_of line) header_start then scan_header script (suc line_idx) rest else more

unfoldable pub extract_header_lines : Text → Extraction
unfolding scan_lines
extract_header_lines script = scan_lines script 0 (lines script)

-- `FeedMeta`
pub record FeedMeta : Type 0 where
  pub id : Text
  pub name : Text
  pub version : Text
  pub author : Option Text
  pub description : Option Text
  pub base_url : Text
  pub access_domains : List Text
  pub schema_version : ℕ

-- `FeedMetaBuilder`; a set is the list of its elements, without repetitions.
pub record FeedMetaBuilder : Type 0 where
  pub seen : List Text
  pub id : Option Text
  pub name : Option Text
  pub version : Option Text
  pub author : Option Text
  pub description : Option Text
  pub base_url : Option Text
  pub access_domains : List Text
  pub schema_version : Option ℕ

abbrev pub default_builder : FeedMetaBuilder
default_builder = record {
  seen = [];
  id = none;
  name = none;
  version = none;
  author = none;
  description = none;
  base_url = none;
  access_domains = [];
  schema_version = none;
}

-- `HashSet::insert`
unfoldable pub insert_into : List Text → Text → List Text
unfolding contains
insert_into set a = if contains set a then set else a ∷ set

abbrev pub set_schema_version : FeedMetaBuilder → ℕ → Option ℕ → Result FeedMetaBuilder
set_schema_version b line none = err (parse_error line)
set_schema_version b line (some n) = ok (record b { schema_version = some n })

-- The match on the key.
unfoldable pub set_field : FeedMetaBuilder → Text → Text → ℕ → Result FeedMetaBuilder
unfolding insert_into
set_field b key value line =
    if same key (codes "id")
    then ok (record b { id = some value })
    else if same key (codes "name")
    then ok (record b { name = some value })
    else if same key (codes "version")
    then ok (record b { version = some value })
    else if same key (codes "author")
    then ok (record b { author = some value })
    else if same key (codes "description")
    then ok (record b { description = some value })
    else if same key (codes "base_url")
    then ok (record b { base_url = some value })
    else if same key (codes "access_domain")
    then ok (
        if length (trim value) == 0
        then b
        else record b { access_domains = insert_into b.access_domains (trim value) })
    else if same key (codes "schema_version")
    then set_schema_version b line (parse_u32 (trim value))
    else err (parse_error line)

-- `FeedMetaBuilder::set`
unfoldable pub set : FeedMetaBuilder → Text → Text → ℕ → Result FeedMetaBuilder
unfolding contains
set b key value line =
    if same key (codes "access_domain")
    then set_field b key value line
    else if contains b.seen key
    then err (parse_error line)
    else set_field (record b { seen = key ∷ b.seen }) key value line

-- `require`
abbrev pub require : Option Text → Result Text
require none = err invalid_feed
require (some []) = err invalid_feed
require (some (c ∷ s)) = ok (c ∷ s)

-- `str::split('.')`
unfoldable pub split_dots : Text → List Text
split_dots [] = [] ∷ []
split_dots (c ∷ s) =
    let rest = split_dots s in
    if c == b'.' then [] ∷ rest else elim rest [ [] ↦ (c ∷ []) ∷ [] | a ∷ more ↦ (c ∷ a) ∷ more ]

-- A number of an IPv4 address: up to three digits without a zero before others, at most 255.
abbrev is_octet_value : Option ℕ → Bool
is_octet_value none = false
is_octet_value (some n) = leb n 255

unfoldable pub is_octet : Text → Bool
unfolding read_digits
is_octet [] = false
is_octet (c ∷ []) = is_digit c
is_octet (c ∷ d ∷ s) =
    not (c == b'0') && leb (length s) 1 && is_octet_value (read_digits 0 (c ∷ d ∷ s))

-- `parse::<IpAddr>().is_ok()` of a host, whose IPv6 addresses stand in brackets, which are refused.
unfoldable pub is_ip_addr : Text → Bool
unfolding split_dots is_octet
is_ip_addr host = elim (split_dots host) [
  | a ∷ b ∷ c ∷ d ∷ [] ↦ is_octet a && is_octet b && is_octet c && is_octet d
  | _ ↦ false
]

abbrev pub wildcard_prefix : Text
wildcard_prefix = codes "*."

-- The loop of `build_meta`
unfoldable pub set_all : FeedMetaBuilder → List HeaderEntry → Result FeedMetaBuilder
set_all b [] = ok b
set_all b (entry ∷ rest) = set b entry.key entry.value entry.line >>= λ b'. set_all b' rest

module _ (urls : UrlParser) where
  -- The host that the parser finds in `http://{hostname}/`.
  unfoldable pub parsed_host : Text → Option Text
  parsed_host hostname = elim (urls.parse (codes "http://" ++ (hostname ++ codes "/"))) [
    | none ↦ none
    | some url ↦ urls.host_str url
  ]

  abbrev pub accept_host : Bool → Text → Option Text → Option Text
  accept_host wildcard hostname none = none
  accept_host wildcard hostname (some normalized) =
      if not (same (to_ascii_lowercase normalized) (to_ascii_lowercase hostname))
      then none
      else if wildcard
      then (if is_ip_addr normalized || not (any (λ c. c == b'.') normalized)
          then none
          else some (wildcard_prefix ++ to_ascii_lowercase normalized))
      else some (to_ascii_lowercase normalized)

  unfoldable pub normalize_host_entry : Bool → Text → Option Text
  unfolding parsed_host is_ip_addr
  normalize_host_entry wildcard hostname =
      if length hostname == 0 || any (λ c. c == b'*') hostname
      then none
      else accept_host wildcard hostname (parsed_host hostname)

  -- `normalize_access_domain`
  unfoldable pub normalize_access_domain : Text → Option Text
  unfolding normalize_host_entry
  normalize_access_domain value = elim (strip_prefix wildcard_prefix value) [
    | some hostname ↦ normalize_host_entry true hostname
    | none ↦ normalize_host_entry false value
  ]

  abbrev pub insert_normalized : Option Text → Result (List Text) → Result (List Text)
  insert_normalized none rest = err invalid_feed
  insert_normalized (some domain) (err e) = err e
  insert_normalized (some domain) (ok rest) = ok (insert_into rest domain)

  -- `map(…).collect::<Result<HashSet<_>>>()`; all its errors are the same but for their texts.
  unfoldable pub normalize_all : List Text → Result (List Text)
  unfolding normalize_access_domain
  normalize_all [] = ok []
  normalize_all (entry ∷ rest) =
      insert_normalized (normalize_access_domain entry) (normalize_all rest)

  abbrev pub require_schema : Option ℕ → Result ℕ
  require_schema none = err invalid_feed
  require_schema (some n) = ok n

  -- `FeedMetaBuilder::build`
  unfoldable pub build : FeedMetaBuilder → Result FeedMeta
  unfolding normalize_all
  build b = require_schema b.schema_version >>= λ schema_version. require b.id >>= λ id.
      require b.name >>= λ name. require b.version >>= λ version. require b.base_url >>= λ base_url.
      normalize_all b.access_domains >>= λ access_domains. ok (record {
        id = id;
        name = name;
        version = version;
        author = b.author;
        description = b.description;
        base_url = base_url;
        access_domains = access_domains;
        schema_version = schema_version;
      })

  -- `build_meta`
  unfoldable pub build_meta : List HeaderEntry → Result FeedMeta
  unfolding set_all build
  build_meta entries = set_all default_builder entries >>= λ b. build b

  -- `parse_meta`; `none` is the panic of the slice.
  unfoldable pub parse_meta : Text → Option (Result (FeedMeta × ℕ))
  unfolding extract_header_lines build_meta
  parse_meta script = elim (extract_header_lines script) [
    | panicked ↦ none
    | failed e ↦ some (err e)
    | extracted entries offset ↦ some (build_meta entries >>= λ meta. ok (meta, offset))
  ]
