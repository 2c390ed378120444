-- ===== src/Feed/Steps/Ends.antt =====
-- native/langhuan/src/script/js/feed.rs: what `drive_steps` spends, opens and keeps.
use langhuan.Prelude.{
  ℕ, zero, suc, Bool, none, some, List, Text, text_eq, Bool-cases, inl, inr, if◌then◌else◌,
}
use langhuan.Error.{Result, ok, err, javascript, domain_not_allowed}
use langhuan.Http.Url.{UrlParser}
use langhuan.Http.Domain.{domain_allowed}
use langhuan.Feed.Request.{ResponseCache}
use langhuan.Feed.Operation.{OperationKind, validate_user_agent}
use langhuan.Feed.Steps.{
  max_internal_steps, Values, WebviewRequest, Step, request, compute, webview, complete, fail, Host,
  Round, stopped, Next, on_user_agent, on_step, on_invoked, one_round, drive, drive_steps,
}
use langhuan.Feed.Steps.Within.{
  IsWithin, Continues, stopped-IsWithin, invoked-IsWithin, on_step-IsWithin,
}

module _ (urls : UrlParser) {v : Values} (host : Host v) (kind : OperationKind) (has_login : Bool)
    (access_domains : List Text) (cursor : v.Json) where
  on_spent_webview :
      (page : WebviewRequest) (checked : Result (Unit {0})) (cache : ResponseCache) (w : host.World)
      → IsWithin urls host kind has_login access_domains cursor 0 0 cache (
          on_user_agent urls host kind has_login access_domains cursor checked cache w (
            if domain_allowed urls page.url access_domains
            then stopped urls host (err javascript) cache w
            else stopped urls host (err (domain_not_allowed page.url access_domains)) cache w))
  on_spent_webview page (err e) cache w =
      stopped-IsWithin urls host kind has_login access_domains cursor 0 0 (err e) cache w
  on_spent_webview page (ok _) cache w =
      elim (Bool-cases (domain_allowed urls page.url access_domains)) [
        | inl inside ↦
            rw inside
              (stopped-IsWithin urls host kind has_login access_domains cursor 0 0 _ cache w)
        | inr outside ↦
            rw outside
              (stopped-IsWithin urls host kind has_login access_domains cursor 0 0 _ cache w)
      ]

  -- With no step left, a step that would spend one stops the loop.
  on_spent_step :
      (s : Step v) (cache : ResponseCache) (w : host.World)
      → IsWithin urls host kind has_login access_domains cursor 0 0 cache
          (on_step urls host kind has_login access_domains cursor none s cache w)
  unfolding on_step
  on_spent_step (request r state key) cache w =
      stopped-IsWithin urls host kind has_login access_domains cursor 0 0 _ cache w
  on_spent_step (compute programs input state) cache w =
      stopped-IsWithin urls host kind has_login access_domains cursor 0 0 _ cache w
  on_spent_step (webview url title user_agent state) cache w =
      on_spent_webview (record { url = url; title = title; user_agent = user_agent })
        (validate_user_agent user_agent) cache w
  on_spent_step (complete result next_cursor) cache w =
      stopped-IsWithin urls host kind has_login access_domains cursor 0 0 _ cache w
  on_spent_step (fail code) cache w =
      stopped-IsWithin urls host kind has_login access_domains cursor 0 0 _ cache w

  on_spent_invoked :
      (r : Result (Step v)) (cache : ResponseCache) (w : host.World)
      → IsWithin urls host kind has_login access_domains cursor 0 0 cache
          (on_invoked urls host kind has_login access_domains cursor none r cache w)
  on_spent_invoked (err e) cache w =
      stopped-IsWithin urls host kind has_login access_domains cursor 0 0 (err e) cache w
  on_spent_invoked (ok s) cache w = on_spent_step s cache w

  on_invoked-IsWithin :
      (m n : ℕ) (next : Next urls host)
      → Continues urls host kind has_login access_domains cursor m n next
      → (r : Result (Step v)) (cache : ResponseCache) (w : host.World)
      → IsWithin urls host kind has_login access_domains cursor
          (suc m)
          n
          cache
          (on_invoked urls host kind has_login access_domains cursor (some next) r cache w)
  on_invoked-IsWithin m n next go (err e) cache w =
      stopped-IsWithin urls host kind has_login access_domains cursor (suc m) n (err e) cache w
  on_invoked-IsWithin m n next go (ok s) cache w =
      on_step-IsWithin urls host kind has_login access_domains cursor m n next go s cache w

  drive-IsWithin :
      (steps_left : ℕ)
      → Continues urls host kind has_login access_domains cursor steps_left
          (suc steps_left)
          (drive urls host kind has_login access_domains cursor steps_left)
  unfolding drive one_round
  drive-IsWithin zero state outcome cache w =
      let round : Round v = record {
        cursor = cursor;
        state = state;
        outcome = outcome;
        auth = host.auth_info w;
      } in
      let (step, w') = host.invoke round w in
      invoked-IsWithin urls host kind has_login access_domains cursor 0 0 cache _
        (on_spent_invoked step cache w')
  drive-IsWithin (suc steps_left) state outcome cache w =
      let round : Round v = record {
        cursor = cursor;
        state = state;
        outcome = outcome;
        auth = host.auth_info w;
      } in
      let (step, w') = host.invoke round w in
      invoked-IsWithin urls host kind has_login access_domains cursor (suc steps_left)
        (suc steps_left) cache _
        (on_invoked-IsWithin steps_left (suc steps_left)
          (drive urls host kind has_login access_domains cursor steps_left)
          (drive-IsWithin steps_left) step cache w')

  -- An operation spends at most sixteen steps and calls its script at most seventeen times; it opens
  -- only pages inside the allowlist, with a valid user agent; an operation on comments leaves the kept
  -- responses as they were, and every other one leaves them within their limits.
  pub drive_steps-IsWithin :
      (cache : ResponseCache) (w : host.World)
      → IsWithin urls host kind has_login access_domains cursor max_internal_steps
          (suc max_internal_steps)
          cache
          (drive_steps urls host kind has_login access_domains cursor cache w)
  unfolding drive_steps
  drive_steps-IsWithin cache w = drive-IsWithin max_internal_steps none none cache w
