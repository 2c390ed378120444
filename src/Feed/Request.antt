-- ===== src/Feed/Request.antt =====
-- native/langhuan/src/script/js/feed.rs: `execute_http_with_retry` and `execute_cached_http`.
pub mod Retry
use langhuan.Prelude.{
  ℕ, zero, suc, ◌+◌, ◌*◌, ◌^◌, Bool, true, false, ◌&&◌, Option, none, some, List, [], ◌∷◌, Text,
  text_eq, ltb, leb, ◌==◌, if◌then◌else◌, length,
}
use langhuan.Prelude.Table.{Table, lookup, upsert}
use langhuan.Error.{Error, Result, ok, err, is_retryable}
use langhuan.Http.Response.{HttpResponse}

-- `MAX_RETRIES`
abbrev pub max_retries : ℕ
max_retries = 3

-- `BASE_DELAY_MS * BACKOFF_MULTIPLIER.pow(attempt)`
abbrev pub delay : ℕ → ℕ
delay attempt = 200 * 3 ^ attempt

-- `MAX_CACHED_RESPONSES`
abbrev pub max_cached_responses : ℕ
max_cached_responses = 8

-- `MAX_CACHED_RESPONSE_BYTES`
abbrev pub max_cached_response_bytes : ℕ
max_cached_response_bytes = 1024 * 1024

-- What a call leaves: its result, the delays that it slept through, and how many requests it sent.
pub record Sending : Type 0 where
  pub result : Result HttpResponse
  pub delays : List ℕ
  pub requests : ℕ

abbrev pub slept : ℕ → Sending → Sending
slept ms s = record s { delays = ms ∷ s.delays; requests = suc s.requests }

abbrev pub returned : Result HttpResponse → Sending
returned r = record { result = r; delays = []; requests = 1 }

abbrev pub map_slept : ℕ → Option Sending → Option Sending
map_slept ms none = none
map_slept ms (some s) = some (slept ms s)

-- `answers` is what `FeedClient::execute` brings on each attempt.
module _ (answers : ℕ → Result HttpResponse) where
  -- The loop from an attempt on; `none` is a fuel that has run out.
  unfoldable pub retry_from : ℕ → ℕ → Option Sending
  retry_from zero attempt = none
  retry_from (suc fuel) attempt =
      let rest = retry_from fuel (suc attempt) in
      elim (answers attempt) [
        | ok response ↦ some (returned (ok response))
        | err error ↦
            if ltb attempt max_retries && is_retryable error
            then map_slept (delay attempt) rest
            else some (returned (err error))
      ]

  -- `execute_http_with_retry`
  unfoldable pub execute_http_with_retry : Option Sending
  execute_http_with_retry = retry_from (suc max_retries) 0

-- `response_cache`
abbrev pub ResponseCache : Type 0
ResponseCache = Table Text HttpResponse

abbrev pub is_cacheable : HttpResponse → ResponseCache → Bool
is_cacheable response cache =
    response.status == 200
    && leb (length response.body) max_cached_response_bytes
    && ltb (length cache) max_cached_responses

-- What follows the request, under the lock.
abbrev pub remember :
    Text → Result HttpResponse → ResponseCache → Result HttpResponse × ResponseCache
remember cache_key (err e) cache = (err e, cache)
remember cache_key (ok response) cache = (
  ok response,
  if is_cacheable response cache then upsert cache_key response (λ _. response) cache else cache,
)

-- `execute_cached_http`; `sent` is the result of `execute_http_with_retry` for the request.
unfoldable pub execute_cached_http :
    Option Text → Result HttpResponse → ResponseCache → Result HttpResponse × ResponseCache
execute_cached_http none sent cache = (sent, cache)
execute_cached_http (some cache_key) sent cache = elim (lookup cache_key cache) [
  | some response ↦ (ok response, cache)
  | none ↦ remember cache_key sent cache
]
