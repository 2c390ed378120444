-- ===== src/Http/Tests.antt =====
-- The http modules at concrete inputs, with a small URL parser and network.
use langhuan.Prelude.{
  ◌≡◌, ◌≤◌, ◌↔◌, refl, true, false, none, some, List, [], ◌∷◌, ◌++◌, Text, length, All, Any, suc,
  text_beq,
}
use langhuan.Prelude.Bytes.{codes, strip_prefix, before, ends_with, lower, trim_end, trim_start}
use langhuan.Error.{ok, err, domain_not_allowed}
use langhuan.Http.Url.{UrlParser}
use langhuan.Http.Domain.{
  domain_allowed, request_host, entry_allows, wildcard_matches, normalize_host,
}
use langhuan.Http.Domain.Boundary.{Permits, domain_allowed_iff}
use langhuan.Http.Redirect.{redirect_policy, max_redirects, Chain, first, hop, Chain-allowed}
use langhuan.Http.Response.{
  HttpRequest, HttpResponse, get, bytes, is_followable, collect_response_headers,
}
use langhuan.Http.Body.{read_body, read_chunks, whole, max_response_bytes, Streams, read_body_iff}
use langhuan.Http.Client.{
  Received, received, blocked, Network, record_event, stopped_at, execute, after_send, accept,
  receive_body,
}
use langhuan.Http.Client.Gate.{execute_sound, execute_blocked_iff, IsBlockedAt}

-- A parser of `https` URLs that keeps what follows the scheme.
abbrev pub small_urls : UrlParser
small_urls = record {
  Url = Text;
  parse = strip_prefix (codes "https://");
  host_str = λ u. some (before b'/' u);
  join = λ base path. some (before b'/' base ++ path);
  to_text = λ u. codes "https://" ++ u;
}

abbrev pub small_domains : List Text
small_domains = codes "*.b.c" ∷ []

abbrev pub small_url : Text
small_url = codes "https://a.b.c/x"

abbrev pub small_response : Received Text
small_response = record {
  status = 200;
  url = codes "a.b.c/x";
  headers = [];
  content_length = none;
  chunks = bytes (1 ∷ []) ∷ bytes (2 ∷ 3 ∷ []) ∷ [];
}

abbrev pub small_network : Network small_urls
small_network = record { is_method = λ _. true; send = λ _ _. received small_response }

abbrev pub small_result : HttpResponse
small_result = record {
  status = 200;
  headers = [];
  body = 1 ∷ 2 ∷ 3 ∷ [];
  url = codes "https://a.b.c/x";
}

pub small_url-allowed : domain_allowed small_urls small_url small_domains ≡ true
unfolding domain_allowed request_host entry_allows wildcard_matches normalize_host strip_prefix
    before ends_with lower trim_end trim_start text_beq
small_url-allowed = refl

domain_allowed_iff_example : (domain_allowed small_urls small_url small_domains ≡ true) ↔ (
    (host : Text) × (request_host small_urls small_url ≡ some host)
    × Any (Permits host) small_domains)
domain_allowed_iff_example = domain_allowed_iff small_urls small_url small_domains

small-Chain :
    Chain small_urls (some small_domains) small_url (codes "https://d.b.c" ∷ small_url ∷ [])
unfolding redirect_policy domain_allowed request_host entry_allows wildcard_matches normalize_host
    strip_prefix before ends_with lower trim_end trim_start text_beq
small-Chain = hop (codes "https://d.b.c") first refl

Chain-allowed_example :
    All
      (λ url. domain_allowed small_urls url small_domains ≡ true)
      (codes "https://d.b.c" ∷ small_url ∷ [])
    × (length (codes "https://d.b.c" ∷ small_url ∷ []) ≤ suc max_redirects)
Chain-allowed_example =
    Chain-allowed small_urls small_domains small_url _ small_url-allowed small-Chain

read_body_iff_example : (read_body small_response.chunks ≡ whole small_result.body) ↔ (
    Streams small_response.chunks small_result.body
    × (length small_result.body ≤ max_response_bytes))
read_body_iff_example = read_body_iff small_response.chunks small_result.body

small_execute :
    (execute small_urls false small_network small_domains (get small_url) 30000).0 ≡ ok small_result
unfolding execute get after_send accept stopped_at is_followable receive_body read_body read_chunks
    collect_response_headers domain_allowed request_host entry_allows wildcard_matches
    normalize_host strip_prefix before ends_with lower trim_end trim_start text_beq
small_execute = refl

execute_sound_example :
    (r : Received Text) × (domain_allowed small_urls (get small_url).url small_domains ≡ true)
    × (small_network.send (get small_url) 30000 ≡ received r)
    × (stopped_at small_urls false r ≡ none)
    × Streams r.chunks small_result.body
    × (length small_result.body ≤ max_response_bytes)
    × (small_result.url ≡ small_urls.to_text r.url)
    × (small_result.status ≡ r.status)
execute_sound_example =
    execute_sound small_urls false small_network small_domains (get small_url) 30000 small_result
      small_execute

-- A request to a host that the allowlist does not name.
abbrev foreign : HttpRequest
foreign = record { url = codes "https://x.y/"; method = codes "POST"; headers = []; body = none }

execute_blocked_iff_example :
    (execute small_urls true small_network small_domains foreign 30000
      ≡ (err (domain_not_allowed foreign.url small_domains), blocked foreign ∷ []))
    ↔ ((small_domains ≡ small_domains)
        × (blocked foreign ∷ [] ≡ record_event small_urls true (blocked foreign))
        × IsBlockedAt small_urls true small_network small_domains foreign 30000 foreign.url)
execute_blocked_iff_example =
    execute_blocked_iff small_urls true small_network small_domains foreign 30000 foreign.url
      small_domains (blocked foreign ∷ [])
