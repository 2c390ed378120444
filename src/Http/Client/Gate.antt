-- ===== src/Http/Client/Gate.antt =====
-- What a caller of `FeedClient::execute` can rely on.
use langhuan.Prelude.{
  ℕ, ◌≡◌, ◌≤◌, refl, Bool, true, false, none, some, List, Text, arith, length, ◌↔◌, ◌⊎◌, inl, inr,
  Bool-cases,
}
use langhuan.Error.{ok, err, domain_not_allowed}
use langhuan.Http.Url.{UrlParser}
use langhuan.Http.Domain.{domain_allowed}
use langhuan.Http.Response.{HttpRequest, HttpResponse}
use langhuan.Http.Body.{max_response_bytes, whole, read_body, read_body_iff, Streams}
use langhuan.Http.Client.{
  Received, Sent, received, TraceEvent, unsent, blocked, Network, record_event, receive_body,
  stopped_at, accept, after_send, execute,
}

module _ (urls : UrlParser) (tracing : Bool) (domains : List Text) (req : HttpRequest) where
  -- What is known of an accepted response.
  abbrev Accepted : Received urls.Url → HttpResponse → Type 0
  Accepted r resp =
      (stopped_at urls tracing r ≡ none)
      × (read_body r.chunks ≡ whole resp.body)
      × (resp.url ≡ urls.to_text r.url)
      × (resp.status ≡ r.status)

  accept_ok :
      (r : Received urls.Url) (resp : HttpResponse)
      → (accept urls tracing domains req r).0 ≡ ok resp
      → Accepted r resp
  unfolding accept receive_body
  accept_ok r resp h = ground arith

  after_send_ok :
      (sent : Sent urls.Url) (resp : HttpResponse)
      → (after_send urls tracing domains req sent).0 ≡ ok resp
      → (r : Received urls.Url) × (sent ≡ received r) × Accepted r resp
  unfolding after_send
  after_send_ok (unsent e) resp h = absurd (cc)
  after_send_ok (received r) resp h = (r, refl, accept_ok r resp h)

  accept_blocked :
      (r : Received urls.Url) (url : Text) (allowlist : List Text) (events : List TraceEvent)
      → (accept urls tracing domains req r ≡ (err (domain_not_allowed url allowlist), events)) ↔ (
          (allowlist ≡ domains)
          × (events ≡ record_event urls tracing (blocked req))
          × (stopped_at urls tracing r ≡ some url))
  unfolding accept receive_body
  accept_blocked r url allowlist events = ground arith

  after_send_blocked :
      (sent : Sent urls.Url) (url : Text) (allowlist : List Text) (events : List TraceEvent)
      → (after_send urls tracing domains req sent
          ≡ (err (domain_not_allowed url allowlist), events))
        ↔ ((allowlist ≡ domains)
            × (events ≡ record_event urls tracing (blocked req))
            × ((r : Received urls.Url) × (sent ≡ received r)
                × (stopped_at urls tracing r ≡ some url)))
  unfolding after_send
  after_send_blocked (unsent e) url allowlist events =
      (λ h. absurd (cc), λ (_, _, (r, s, _)). absurd (cc))
  after_send_blocked (received r) url allowlist events = (
    λ h.
        let (same_list, same_events, stop) = (accept_blocked r url allowlist events).0 h in
        (same_list, same_events, (r, refl, stop)),
    λ (same_list, same_events, (other, s, stop)).
        (accept_blocked r url allowlist events).1 (same_list, same_events, ground arith),
  )

module _ (urls : UrlParser) (tracing : Bool) (net : Network urls) (domains : List Text)
    (req : HttpRequest) (timeout : ℕ) where
  -- A response that `execute` returns came from a request inside the allowlist, is no redirect that
  -- the policy stopped, carries every byte the server sent in order, and its body is within the
  -- size cap.
  pub execute_sound :
      (resp : HttpResponse)
      → (execute urls tracing net domains req timeout).0 ≡ ok resp
      → (r : Received urls.Url) × (domain_allowed urls req.url domains ≡ true)
        × (net.send req timeout ≡ received r)
        × (stopped_at urls tracing r ≡ none)
        × Streams r.chunks resp.body
        × (length resp.body ≤ max_response_bytes)
        × (resp.url ≡ urls.to_text r.url)
        × (resp.status ≡ r.status)
  unfolding execute
  execute_sound resp h =
      let (r, sent, known) =
        after_send_ok urls tracing domains req (net.send req timeout) resp (ground arith) in
      let (streams, fits) = (read_body_iff r.chunks resp.body).0 known.1 in
      (r, ground arith, sent, known.0, streams, fits, known.2, known.3)

  -- Why a request is blocked because of a URL.
  abbrev pub IsBlockedAt : Text → Type 0
  IsBlockedAt url =
      ((domain_allowed urls req.url domains ≡ false) × (url ≡ req.url))
      ⊎ ((r : Received urls.Url) × (domain_allowed urls req.url domains ≡ true)
          × (net.is_method req.method ≡ true)
          × (net.send req timeout ≡ received r)
          × (stopped_at urls tracing r ≡ some url))

  -- `execute` gives the error of a blocked URL in two cases only, when the request's own URL is
  -- outside the allowlist, and when a request inside it, whose method is valid, brings a redirect
  -- to that URL which the policy stopped; in both, the error names the client's allowlist, and all
  -- that an active recorder is told is that the request was blocked.
  pub execute_blocked_iff :
      (url : Text) (allowlist : List Text) (events : List TraceEvent)
      → (execute urls tracing net domains req timeout
          ≡ (err (domain_not_allowed url allowlist), events))
        ↔ ((allowlist ≡ domains)
            × (events ≡ record_event urls tracing (blocked req))
            × IsBlockedAt url)
  unfolding execute
  execute_blocked_iff url allowlist events =
      let sent =
        after_send_blocked urls tracing domains req (net.send req timeout) url allowlist events in
      elim (Bool-cases (domain_allowed urls req.url domains)) [
        | inr outside ↦ ground arith
        | inl inside ↦ elim (Bool-cases (net.is_method req.method)) [
          | inr unknown ↦ ground arith
          | inl known ↦
              rw (inside, known)
                (
                  λ h.
                      let (same_list, same_events, (r, s, stop)) = sent.0 h in
                      (same_list, same_events, inr (r, refl, refl, s, stop)),
                  λ (same_list, same_events, why). elim why [
                    | inl (outside, _) ↦ absurd (cc)
                    | inr (r, _, _, s, stop) ↦ sent.1 (same_list, same_events, (r, s, stop))
                  ],
                )
        ]
      ]
