-- ===== src/Feed/Steps/Within.antt =====
-- native/langhuan/src/script/js/feed.rs: what one step of `drive_steps` spends, opens and keeps.
use langhuan.Prelude.{
  ℕ, suc, ◌≤◌, ◌≡◌, refl, Bool, true, false, Option, some, List, [], ◌∷◌, Text, text_eq, arith, All,
  Bool-cases, Option-cases, inl, inr, if◌then◌else◌,
}
use langhuan.Error.{Result, ok, err, domain_not_allowed}
use langhuan.Http.Url.{UrlParser}
use langhuan.Http.Domain.{domain_allowed}
use langhuan.Http.Response.{HttpRequest, HttpResponse}
use langhuan.Feed.Request.{ResponseCache, execute_cached_http}
use langhuan.Feed.Request.Retry.{IsSmall, execute_cached_http-IsSmall}
use langhuan.Feed.Operation.{OperationKind, is_comments, validate_user_agent}
use langhuan.Feed.Steps.{
  Values, WebviewRequest, Step, request, compute, webview, complete, fail, StepOutcome, Complete,
  Host, Action, invoked, computing, requested, opened, Driven, acted, stopped, Next,
  apply_auth_patch, on_response, kept, send_cached, send_fresh, on_patched, on_computed,
  on_snapshot, show_webview, on_user_agent, on_step,
}

-- How many of some actions are steps that the budget counts.
abbrev pub spent : List Action → ℕ
spent [] = 0
spent (invoked ∷ rest) = spent rest
spent (computing ∷ rest) = suc (spent rest)
spent (requested r ∷ rest) = suc (spent rest)
spent (opened p ∷ rest) = suc (spent rest)

-- How often the script is invoked.
abbrev pub rounds : List Action → ℕ
rounds [] = 0
rounds (invoked ∷ rest) = suc (rounds rest)
rounds (computing ∷ rest) = rounds rest
rounds (requested r ∷ rest) = rounds rest
rounds (opened p ∷ rest) = rounds rest

module _ (urls : UrlParser) (access_domains : List Text) where
  -- A page is opened only inside the allowlist, under a User-Agent that can be sent.
  abbrev pub IsOpenable : Action → Type 0
  IsOpenable invoked = Unit
  IsOpenable computing = Unit
  IsOpenable (requested r) = Unit
  IsOpenable (opened page) =
      (domain_allowed urls page.url access_domains ≡ true)
      × (validate_user_agent page.user_agent ≡ ok tt)

module _ (urls : UrlParser) {v : Values} (host : Host v) (kind : OperationKind) (has_login : Bool)
    (access_domains : List Text) (cursor : v.Json) where
  -- What the loop may spend and invoke, and what it does to the kept responses.
  pub record IsWithin (steps : ℕ) (calls : ℕ) (cache : ResponseCache) (d : Driven urls host)
      : Type 0 where
    pub steps_spent : spent d.actions ≤ steps
    pub invocations : rounds d.actions ≤ calls
    pub pages : All (IsOpenable urls access_domains) d.actions
    pub comments : is_comments kind ≡ true → d.cache ≡ cache
    pub small : IsSmall cache → IsSmall d.cache

  pub stopped-IsWithin :
      (m n : ℕ) (r : Result (Complete v)) (cache : ResponseCache) (w : host.World)
      → IsWithin m n cache (stopped urls host r cache w)
  stopped-IsWithin m n r cache w = record {
    steps_spent = omega arith;
    invocations = omega arith;
    pages = tt;
    comments = λ _. refl;
    small = λ s. s;
  }

  pub invoked-IsWithin :
      (m n : ℕ) (cache : ResponseCache) (d : Driven urls host)
      → IsWithin m n cache d
      → IsWithin m (suc n) cache (acted urls host invoked d)
  invoked-IsWithin m n cache d h = record {
    steps_spent = h.steps_spent;
    invocations = omega (arith, h.invocations);
    pages = (tt, h.pages);
    comments = h.comments;
    small = h.small;
  }

  computing-IsWithin :
      (m n : ℕ) (cache : ResponseCache) (d : Driven urls host)
      → IsWithin m n cache d
      → IsWithin (suc m) n cache (acted urls host computing d)
  computing-IsWithin m n cache d h = record {
    steps_spent = omega (arith, h.steps_spent);
    invocations = h.invocations;
    pages = (tt, h.pages);
    comments = h.comments;
    small = h.small;
  }

  requested-IsWithin :
      (m n : ℕ) (r : HttpRequest) (cache : ResponseCache) (d : Driven urls host)
      → IsWithin m n cache d
      → IsWithin (suc m) n cache (acted urls host (requested r) d)
  requested-IsWithin m n r cache d h = record {
    steps_spent = omega (arith, h.steps_spent);
    invocations = h.invocations;
    pages = (tt, h.pages);
    comments = h.comments;
    small = h.small;
  }

  opened-IsWithin :
      (m n : ℕ) (page : WebviewRequest) (cache : ResponseCache) (d : Driven urls host)
      → IsOpenable urls access_domains (opened page)
      → IsWithin m n cache d
      → IsWithin (suc m) n cache (acted urls host (opened page) d)
  opened-IsWithin m n page cache d fine h = record {
    steps_spent = omega (arith, h.steps_spent);
    invocations = h.invocations;
    pages = (fine, h.pages);
    comments = h.comments;
    small = h.small;
  }

  more-IsWithin :
      (m n : ℕ) (cache : ResponseCache) (d : Driven urls host)
      → IsWithin m n cache d
      → IsWithin (suc m) n cache d
  more-IsWithin m n cache d h = record {
    steps_spent = omega (arith, h.steps_spent);
    invocations = h.invocations;
    pages = h.pages;
    comments = h.comments;
    small = h.small;
  }

  -- A continuation that spends and invokes within limits.
  abbrev pub Continues : ℕ → ℕ → Next urls host → Type 0
  Continues m n next =
      (state : Option v.Opaque) (outcome : Option (StepOutcome v)) (cache : ResponseCache)
      (w : host.World)
      → IsWithin m n cache (next state outcome cache w)

  module _ (m n : ℕ) (next : Next urls host) (go : Continues m n next) where
    on_response-IsWithin :
        (state : Option v.Opaque) (r : Result HttpResponse) (cache : ResponseCache) (w : host.World)
        → IsWithin m n cache
            (on_response urls host kind has_login access_domains cursor next state r cache w)
    on_response-IsWithin state (err e) cache w = stopped-IsWithin m n (err e) cache w
    on_response-IsWithin state (ok r) cache w = go state _ cache w

    on_computed-IsWithin :
        (state : Option v.Opaque) (r : Result v.Json) (cache : ResponseCache) (w : host.World)
        → IsWithin m n cache
            (on_computed urls host kind has_login access_domains cursor next state r cache w)
    on_computed-IsWithin state (err e) cache w = stopped-IsWithin m n (err e) cache w
    on_computed-IsWithin state (ok r) cache w = go state _ cache w

    on_snapshot-IsWithin :
        (state : Option v.Opaque) (r : Result v.Snapshot) (cache : ResponseCache) (w : host.World)
        → IsWithin m n cache
            (on_snapshot urls host kind has_login access_domains cursor next state r cache w)
    on_snapshot-IsWithin state (err e) cache w = stopped-IsWithin m n (err e) cache w
    on_snapshot-IsWithin state (ok r) cache w = go state _ cache w

    -- A response that is kept, or that has just been, before the loop goes on.
    cached-IsWithin :
        (state : Option v.Opaque) (key : Option Text) (sent : Result HttpResponse)
        (cache : ResponseCache) (w : host.World)
        → is_comments kind ≡ false
        → IsWithin m n cache (
            let (answer, cache') = execute_cached_http key sent cache in
            on_response urls host kind has_login access_domains cursor next state answer cache' w)
    cached-IsWithin state key sent cache w other =
        let (answer, cache') = execute_cached_http key sent cache in
        let rest = on_response-IsWithin state answer cache' w in
        record {
          steps_spent = rest.steps_spent;
          invocations = rest.invocations;
          pages = rest.pages;
          comments = λ e. absurd (cc (e, other));
          small = λ s. rest.small (execute_cached_http-IsSmall key sent cache s);
        }

    send_cached-IsWithin :
        (state : Option v.Opaque) (key : Option Text) (r : HttpRequest) (cache : ResponseCache)
        (w : host.World)
        → is_comments kind ≡ false
        → IsWithin
            (suc m)
            n
            cache
            (send_cached urls host kind has_login access_domains cursor next state key r cache w)
    unfolding send_cached
    send_cached-IsWithin state key r cache w other =
        elim (Option-cases (kept urls host kind has_login access_domains cursor key cache)) [
          | inr (answer, hit) ↦
              rw (hit, send_cached)
                (more-IsWithin m n cache _ (on_response-IsWithin state (ok answer) cache w))
          | inl miss ↦
              rw (miss, send_cached)
                (requested-IsWithin m n r cache _
                  (cached-IsWithin state key _ cache (host.attempts r w).1 other))
        ]

    on_patched-IsWithin :
        (state : Option v.Opaque) (key : Option Text) (r : Result HttpRequest)
        (cache : ResponseCache) (w : host.World)
        → IsWithin
            (suc m)
            n
            cache
            (on_patched urls host kind has_login access_domains cursor next state key r cache w)
    unfolding send_fresh
    on_patched-IsWithin state key (err e) cache w = stopped-IsWithin (suc m) n (err e) cache w
    on_patched-IsWithin state key (ok r) cache w = elim (Bool-cases (is_comments kind)) [
      | inl yes_comments ↦ rw yes_comments (
          requested-IsWithin m n r cache _
            (on_response-IsWithin state _ cache (host.attempts r w).1))
      | inr other ↦ rw other (send_cached-IsWithin state key r cache w other)
    ]

    show_webview-IsWithin :
        (page : WebviewRequest) (state : Option v.Opaque) (cache : ResponseCache) (w : host.World)
        → IsOpenable urls access_domains (opened page)
        → IsWithin
            (suc m)
            n
            cache
            (show_webview urls host kind has_login access_domains cursor next page state cache w)
    show_webview-IsWithin page state cache w fine = elim (Bool-cases (host.has_webview w)) [
      | inl there ↦ rw there (
          opened-IsWithin m n page cache _ fine
            (on_snapshot-IsWithin state _ cache (host.open_webview page w).1))
      | inr missing ↦ rw missing (stopped-IsWithin (suc m) n _ cache w)
    ]

    on_webview-IsWithin :
        (page : WebviewRequest) (checked : Result (Unit {0})) (state : Option v.Opaque)
        (cache : ResponseCache) (w : host.World)
        → validate_user_agent page.user_agent ≡ checked
        → IsWithin (suc m) n cache (
            on_user_agent urls host kind has_login access_domains cursor checked cache w (
              if domain_allowed urls page.url access_domains
              then show_webview urls host kind has_login access_domains cursor next page state cache
                  w
              else stopped urls host (err (domain_not_allowed page.url access_domains)) cache w))
    on_webview-IsWithin page (err e) state cache w c = stopped-IsWithin (suc m) n (err e) cache w
    on_webview-IsWithin page (ok _) state cache w c =
        elim (Bool-cases (domain_allowed urls page.url access_domains)) [
          | inl inside ↦ rw inside (show_webview-IsWithin page state cache w (inside, c))
          | inr outside ↦ rw outside (stopped-IsWithin (suc m) n _ cache w)
        ]

    pub on_step-IsWithin :
        (s : Step v) (cache : ResponseCache) (w : host.World)
        → IsWithin
            (suc m)
            n
            cache
            (on_step urls host kind has_login access_domains cursor (some next) s cache w)
    unfolding on_step
    on_step-IsWithin (request r state key) cache w =
        let patched = apply_auth_patch urls host kind has_login access_domains cursor r w in
        on_patched-IsWithin state key patched.0 cache patched.1
    on_step-IsWithin (compute programs input state) cache w =
        computing-IsWithin m n cache _
          (on_computed-IsWithin state _ cache (host.run_compute programs input w).1)
    on_step-IsWithin (webview url title user_agent state) cache w =
        on_webview-IsWithin (record { url = url; title = title; user_agent = user_agent })
          (validate_user_agent user_agent) state cache w refl
    on_step-IsWithin (complete result next_cursor) cache w = stopped-IsWithin (suc m) n _ cache w
    on_step-IsWithin (fail code) cache w = stopped-IsWithin (suc m) n _ cache w
