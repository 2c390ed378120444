-- ===== src/Http/Domain.antt =====
-- native/langhuan/src/http.rs: `domain_allowed`, the allowlist of hosts.
pub mod Boundary
use langhuan.Prelude.{
  ℕ, ◌-◌, Bool, true, false, ◌&&◌, Option, none, some, List, Text, text_eq, same, ltb, length,
  get_elem?, any, ◌==◌,
}
use langhuan.Prelude.Bytes.{codes, to_ascii_lowercase, strip_prefix, ends_with, trim_end}
use langhuan.Http.Url.{UrlParser}

abbrev pub dot : ℕ
dot = b'.'

abbrev pub is_byte : Option ℕ → ℕ → Bool
is_byte none b = false
is_byte (some c) b = c == b

-- The wildcard arm of the match in `domain_allowed`.
unfoldable pub wildcard_matches : Text → Text → Bool
unfolding ends_with
wildcard_matches host suffix =
    ltb (length suffix) (length host)
    && ends_with host suffix
    && is_byte (get_elem? host (length host - length suffix - 1)) dot

-- The match on the stripped prefix of a lower-case entry.
abbrev pub match_entry : Text → Text → Option Text → Bool
match_entry host entry (some suffix) = wildcard_matches host suffix
match_entry host entry none = same host entry

-- One entry of the allowlist against the normalised host.
unfoldable pub entry_allows : Text → Text → Bool
entry_allows host entry =
    let e = to_ascii_lowercase entry in match_entry host e (strip_prefix (codes "*.") e)

-- `host.trim_end_matches('.').to_ascii_lowercase()`
unfoldable pub normalize_host : Text → Text
unfolding trim_end
normalize_host host = to_ascii_lowercase (trim_end (λ c. c == dot) host)

-- The scan of the allowlist, for a URL that has a host.
abbrev pub host_allowed : Option Text → List Text → Bool
host_allowed none access_domains = false
host_allowed (some host) access_domains = any (entry_allows host) access_domains

module _ (urls : UrlParser) where
  open urls use {parse, host_str}

  -- The host that `domain_allowed` looks up, if the URL parses and has one.
  unfoldable pub request_host : Text → Option Text
  unfolding normalize_host
  request_host url = elim (parse url) [
    | none ↦ none
    | some u ↦ elim (host_str u) [ none ↦ none | some host ↦ some (normalize_host host) ]
  ]

  unfoldable pub domain_allowed : Text → List Text → Bool
  domain_allowed url access_domains = host_allowed (request_host url) access_domains
