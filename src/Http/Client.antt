-- ===== src/Http/Client.antt =====
-- native/langhuan/src/http.rs: `FeedClient::execute`.
pub mod Gate
use langhuan.Prelude.{
  ℕ, ◌≡◌, refl, Bool, true, false, ◌&&◌, Option, none, some, List, [], ◌∷◌, Text, ltb,
  if◌then◌else◌,
}
use langhuan.Error.{
  HttpFailure, Error, Result, ok, err, domain_not_allowed, invalid_feed, response_too_large, http,
}
use langhuan.Http.Url.{UrlParser}
use langhuan.Http.Domain.{domain_allowed}
use langhuan.Http.Response.{
  HttpRequest, HttpResponse, HeaderMap, Chunk, collect_response_headers, is_followable,
  redirect_target,
}
use langhuan.Http.Body.{max_response_bytes, BodyRead, whole, transport, too_large, read_body}

-- A response of reqwest, before its body is read; `url` is the one after the redirects.
pub record Received (Url : Type 0) : Type 0 where
  pub status : ℕ
  pub url : Url
  pub headers : HeaderMap
  pub content_length : Option ℕ
  pub chunks : List (Chunk HttpFailure)

pub data Sent (Url : Type 0) : Type 0 where
  received : Received Url → Sent Url
  unsent : HttpFailure → Sent Url

-- What the trace recorder is told of a request.
pub data TraceEvent : Type 0 where
  blocked : HttpRequest → TraceEvent
  send_error : HttpRequest → HttpFailure → TraceEvent
  body_error : HttpRequest → ℕ → Text → HttpFailure → TraceEvent
  response : HttpRequest → ℕ → Text → Text → TraceEvent

-- reqwest behind a client: whether a method parses, and what `send` brings for a request under a
-- total timeout in milliseconds.
pub record Network (urls : UrlParser) : Type 1 where
  pub is_method : Text → Bool
  pub send : HttpRequest → ℕ → Sent urls.Url

abbrev pub Outcome : Type 0
Outcome = Result HttpResponse × List TraceEvent

abbrev pub declared_too_large : Option ℕ → Bool
declared_too_large none = false
declared_too_large (some len) = ltb max_response_bytes len

-- `tracing` says whether a recorder is active for the task.
module _ (urls : UrlParser) (tracing : Bool) where
  abbrev pub record_event : TraceEvent → List TraceEvent
  record_event e = if tracing then e ∷ [] else []

  -- The match on `read_body` and what follows it.
  unfoldable pub receive_body : HttpRequest → Received urls.Url → BodyRead → Outcome
  receive_body req r (whole body) = (
    ok (record {
      status = r.status;
      headers = collect_response_headers r.headers;
      body = body;
      url = urls.to_text r.url;
    }),
    record_event (response req r.status (urls.to_text r.url) body),
  )
  receive_body req r too_large = (err (response_too_large max_response_bytes), [])
  receive_body req r (transport e) =
      (err (http e), record_event (body_error req r.status (urls.to_text r.url) e))

  -- The target of a redirect that the policy stopped.
  unfoldable pub stopped_at : Received urls.Url → Option Text
  stopped_at r = if is_followable r.status then redirect_target urls r.url r.headers else none

  -- What follows a `send` that brought a response.
  unfoldable pub accept : List Text → HttpRequest → Received urls.Url → Outcome
  accept access_domains req r = elim (stopped_at r) [
    | some next ↦ (err (domain_not_allowed next access_domains), record_event (blocked req))
    | none ↦
        if declared_too_large r.content_length
        then (err (response_too_large max_response_bytes), [])
        else receive_body req r (read_body r.chunks)
  ]

  unfoldable pub after_send : List Text → HttpRequest → Sent urls.Url → Outcome
  after_send access_domains req (unsent e) = (err (http e), record_event (send_error req e))
  after_send access_domains req (received r) = accept access_domains req r

  -- `FeedClient::execute`; the feed's id only labels the log.
  unfoldable pub execute : Network urls → List Text → HttpRequest → ℕ → Outcome
  execute net access_domains req timeout =
      if domain_allowed urls req.url access_domains
      then (if net.is_method req.method
          then after_send access_domains req (net.send req timeout)
          else (err invalid_feed, []))
      else (err (domain_not_allowed req.url access_domains), record_event (blocked req))
