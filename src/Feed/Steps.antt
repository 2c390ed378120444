-- ===== src/Feed/Steps.antt =====
-- native/langhuan/src/script/js/feed.rs: `drive_steps`, the loop that runs an operation of a feed.
pub mod Within
pub mod Ends
use langhuan.Prelude.{
  ℕ, zero, suc, Bool, Option, none, some, List, [], ◌∷◌, Text, text_eq, if◌then◌else◌,
}
use langhuan.Prelude.Table.{lookup}
use langhuan.Error.{
  Result, ok, err, javascript, expected, auth_required, domain_not_allowed, from_code,
}
use langhuan.Http.Url.{UrlParser}
use langhuan.Http.Domain.{domain_allowed}
use langhuan.Http.Response.{HttpRequest, HttpResponse}
use langhuan.Feed.Request.{Sending, execute_http_with_retry, ResponseCache, execute_cached_http}
use langhuan.Feed.Operation.{OperationKind, is_comments, validate_user_agent}

-- `MAX_INTERNAL_STEPS`
abbrev pub max_internal_steps : ℕ
max_internal_steps = 16

-- The values of the JavaScript engine and of serde_json that the loop passes on.
pub record Values : Type 1 where
  pub Json : Type 0
  pub Opaque : Type 0
  pub AuthInfo : Type 0
  pub Snapshot : Type 0

-- `WebviewRequest`, without the feed's id and name.
pub record WebviewRequest : Type 0 where
  pub url : Text
  pub title : Option Text
  pub user_agent : Text

module _ (v : Values) where
  open v use {Json, Opaque, AuthInfo, Snapshot}

  -- `Step`
  pub data Step : Type 0 where
    request : HttpRequest → Option Opaque → Option Text → Step
    compute : List Text → Json → Option Opaque → Step
    webview : Text → Option Text → Text → Option Opaque → Step
    complete : Json → Option Json → Step
    fail : Text → Step

  -- `StepOutcome`
  pub data StepOutcome : Type 0 where
    response : HttpResponse → StepOutcome
    computed : Json → StepOutcome
    snapshot : Snapshot → StepOutcome

  -- `Round`
  pub record Round : Type 0 where
    pub cursor : Json
    pub state : Option Opaque
    pub outcome : Option StepOutcome
    pub auth : Option AuthInfo

  -- `Complete`
  pub record Complete : Type 0 where
    pub result : Json
    pub next_cursor : Option Json

-- What is outside the loop: the script's realm, the network, the compute worker, the webview, and
-- what other tasks do to the feed's login and its webview handler while the loop waits.
pub record Host (v : Values) : Type 1 where
  pub World : Type 0
  pub auth_info : World → Option v.AuthInfo
  pub has_webview : World → Bool
  pub invoke : Round v → World → Result (Step v) × World
  pub patch_request : HttpRequest → v.AuthInfo → World → Result HttpRequest × World
  pub attempts : HttpRequest → World → (ℕ → Result HttpResponse) × World
  pub run_compute : List Text → v.Json → World → Result v.Json × World
  pub open_webview : WebviewRequest → World → Result v.Snapshot × World

-- What the loop does outside, in order.
pub data Action : Type 0 where
  invoked computing : Action
  requested : HttpRequest → Action
  opened : WebviewRequest → Action

-- The result of a call of `execute_http_with_retry`, whose fuel never runs out.
abbrev pub result_of : Option Sending → Result HttpResponse
result_of none = err javascript
result_of (some s) = s.result

module _ (urls : UrlParser) {v : Values} (host : Host v) where
  open v use {Json, Opaque, AuthInfo}
  open host use {
    World, auth_info, has_webview, invoke, patch_request, attempts, run_compute, open_webview,
  }

  -- What the loop leaves.
  pub record Driven : Type 0 where
    pub result : Result (Complete v)
    pub cache : ResponseCache
    pub world : World
    pub actions : List Action

  abbrev pub acted : Action → Driven → Driven
  acted a d = record d { actions = a ∷ d.actions }

  abbrev pub stopped : Result (Complete v) → ResponseCache → World → Driven
  stopped r cache w = record { result = r; cache = cache; world = w; actions = [] }

  -- The next round, from the state and the outcome that it consumes.
  abbrev pub Next : Type 0
  Next = Option Opaque → Option (StepOutcome v) → ResponseCache → World → Driven

  module _ (kind : OperationKind) (has_login : Bool) (access_domains : List Text)
      (cursor : Json) where
    abbrev pub patch_with : HttpRequest → Option AuthInfo → World → Result HttpRequest × World
    patch_with r none w = (ok r, w)
    patch_with r (some auth) w = patch_request r auth w

    -- `apply_auth_patch`
    unfoldable pub apply_auth_patch : HttpRequest → World → Result HttpRequest × World
    apply_auth_patch r w = if has_login then patch_with r (auth_info w) w else (ok r, w)

    -- What follows a request: the response becomes the outcome of the step.
    abbrev pub on_response :
        Next → Option Opaque → Result HttpResponse → ResponseCache → World → Driven
    on_response next next_state (err e) cache w = stopped (err e) cache w
    on_response next next_state (ok r) cache w = next next_state (some (response r)) cache w

    -- The response that is kept under a key.
    abbrev pub kept : Option Text → ResponseCache → Option HttpResponse
    kept none cache = none
    kept (some key) cache = lookup key cache

    -- `execute_cached_http`, with `execute_http_with_retry` for a response that is not kept.
    unfoldable pub send_cached :
        Next → Option Opaque → Option Text → HttpRequest → ResponseCache → World → Driven
    send_cached next next_state key r cache w = elim (kept key cache) [
      | some answer ↦ on_response next next_state (ok answer) cache w
      | none ↦
          let (answers, w') = attempts r w in
          let (answer, cache') =
            execute_cached_http key (result_of (execute_http_with_retry answers)) cache in
          acted (requested r) (on_response next next_state answer cache' w')
    ]

    unfoldable pub send_fresh : Next → Option Opaque → HttpRequest → ResponseCache → World → Driven
    send_fresh next next_state r cache w =
        let (answers, w') = attempts r w in
        acted (requested r)
          (on_response next next_state (result_of (execute_http_with_retry answers)) cache w')

    abbrev pub on_patched :
        Next → Option Opaque → Option Text → Result HttpRequest → ResponseCache → World → Driven
    on_patched next next_state key (err e) cache w = stopped (err e) cache w
    on_patched next next_state key (ok r) cache w =
        if is_comments kind
        then send_fresh next next_state r cache w
        else send_cached next next_state key r cache w

    abbrev pub on_computed : Next → Option Opaque → Result Json → ResponseCache → World → Driven
    on_computed next next_state (err e) cache w = stopped (err e) cache w
    on_computed next next_state (ok r) cache w = next next_state (some (computed r)) cache w

    abbrev pub on_snapshot :
        Next → Option Opaque → Result v.Snapshot → ResponseCache → World → Driven
    on_snapshot next next_state (err e) cache w = stopped (err e) cache w
    on_snapshot next next_state (ok s) cache w = next next_state (some (snapshot s)) cache w

    -- `spend_step`: what follows if a step is left; `none` is a budget that is spent.
    abbrev pub spend_step : Option Next → ResponseCache → World → (Next → Driven) → Driven
    spend_step none cache w rest = stopped (err javascript) cache w
    spend_step (some next) cache w rest = rest next

    -- The webview that a step asks for, once a step is spent on it.
    abbrev pub show_webview : Next → WebviewRequest → Option Opaque → ResponseCache → World → Driven
    show_webview next page next_state cache w =
        if has_webview w
        then (let (s, w') = open_webview page w in
            acted (opened page) (on_snapshot next next_state s cache w'))
        else stopped (err (expected auth_required)) cache w

    abbrev pub on_user_agent : Result (Unit {0}) → ResponseCache → World → Driven → Driven
    on_user_agent (err e) cache w rest = stopped (err e) cache w
    on_user_agent (ok _) cache w rest = rest

    -- The match on the step.
    unfoldable pub on_step : Option Next → Step v → ResponseCache → World → Driven
    unfolding apply_auth_patch send_cached send_fresh validate_user_agent
    on_step budget (request r next_state key) cache w = spend_step budget cache w λ next.
        let (patched, w') = apply_auth_patch r w in on_patched next next_state key patched cache w'
    on_step budget (compute programs input next_state) cache w = spend_step budget cache w λ next.
        let (value, w') = run_compute programs input w in
        acted computing (on_computed next next_state value cache w')
    on_step budget (webview url title user_agent next_state) cache w =
        on_user_agent (validate_user_agent user_agent) cache w (
          if domain_allowed urls url access_domains
          then spend_step budget cache w (λ next.
            show_webview next (record { url = url; title = title; user_agent = user_agent })
              next_state cache w)
          else stopped (err (domain_not_allowed url access_domains)) cache w)
    on_step budget (complete result next_cursor) cache w =
        stopped (ok (record { result = result; next_cursor = next_cursor })) cache w
    on_step budget (fail code) cache w = stopped (err (expected (from_code code))) cache w

    abbrev pub on_invoked : Option Next → Result (Step v) → ResponseCache → World → Driven
    on_invoked budget (err e) cache w = stopped (err e) cache w
    on_invoked budget (ok s) cache w = on_step budget s cache w

    -- One round of the loop.
    unfoldable pub one_round : Option Next → Next
    unfolding on_step
    one_round budget state outcome cache w =
        let (result, w') =
          invoke (record { cursor = cursor; state = state; outcome = outcome; auth = auth_info w })
            w in
        acted invoked (on_invoked budget result cache w')

    -- The loop, on the number of steps that are left.
    unfoldable pub drive : ℕ → Next
    unfolding one_round
    drive zero state outcome cache w = one_round none state outcome cache w
    drive (suc steps_left) state outcome cache w =
        one_round (some (drive steps_left)) state outcome cache w

    -- `drive_steps`
    unfoldable pub drive_steps : ResponseCache → World → Driven
    unfolding drive
    drive_steps cache w = drive max_internal_steps none none cache w
