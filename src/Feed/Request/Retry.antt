-- ===== src/Feed/Request/Retry.antt =====
-- native/langhuan/src/script/js/feed.rs: how often a request is sent, and which responses are kept.
use langhuan.Prelude.{
  ℕ, zero, suc, ◌+◌, ◌<◌, ◌≤◌, ◌≡◌, refl, Bool, true, false, ◌&&◌, Option, none, some, List, [],
  ◌∷◌, Text, text_eq, ltb, length, arith, same, same_iff, Bool-cases, Option-cases, inl, inr, ap,
  ◌∙◌,
}
use langhuan.Prelude.Table.{lookup, upsert, lookup-put, lookup-upsert}
use langhuan.Error.{Result, ok, err, is_retryable}
use langhuan.Http.Response.{HttpResponse}
use langhuan.Feed.Request.{
  max_retries, delay, returned, map_slept, retry_from, execute_http_with_retry, ResponseCache,
  is_cacheable, remember, execute_cached_http, max_cached_responses, max_cached_response_bytes,
}

-- The delays before the attempts from one on.
abbrev pub delays_from : ℕ → ℕ → List ℕ
delays_from attempt zero = []
delays_from attempt (suc n) = delay attempt ∷ delays_from (suc attempt) n

-- Another attempt is due after an answer.
abbrev pub again : ℕ → Result HttpResponse → Bool
again attempt (ok response) = false
again attempt (err error) = ltb attempt max_retries && is_retryable error

module _ (answers : ℕ → Result HttpResponse) where
  -- `n` attempts from one on are answered by errors that call for another, and the next is not.
  abbrev pub Stops : ℕ → ℕ → Type 0
  Stops attempt zero = again attempt (answers attempt) ≡ false
  Stops attempt (suc n) = (again attempt (answers attempt) ≡ true) × Stops (suc attempt) n

  stops_here :
      (fuel attempt : ℕ) (r : Result HttpResponse)
      → answers attempt ≡ r
      → again attempt r ≡ false
      → retry_from answers (suc fuel) attempt ≡ some (returned r)
  unfolding retry_from
  stops_here fuel attempt (ok response) e h = rw (e, retry_from) refl
  stops_here fuel attempt (err error) e h = rw (e, h, retry_from) refl

  goes_on :
      (fuel attempt : ℕ) (r : Result HttpResponse)
      → answers attempt ≡ r
      → again attempt r ≡ true
      → retry_from answers (suc fuel) attempt
        ≡ map_slept (delay attempt) (retry_from answers fuel (suc attempt))
  unfolding retry_from
  goes_on fuel attempt (ok response) e h = absurd (cc)
  goes_on fuel attempt (err error) e h = rw (e, h, retry_from) refl

  again-bound :
      (attempt : ℕ) (r : Result HttpResponse) → again attempt r ≡ true → attempt < max_retries
  again-bound attempt (ok response) h = absurd (cc)
  again-bound attempt (err error) h = ground arith

  retry_from-Stops :
      (fuel attempt : ℕ)
      → max_retries < fuel + attempt
      → attempt ≤ max_retries
      → (n : ℕ) × (n + attempt ≤ max_retries)
        × Stops attempt n
        × (retry_from answers fuel attempt
            ≡ some (record {
              result = answers (n + attempt);
              delays = delays_from attempt n;
              requests = suc n;
            }))
  retry_from-Stops zero attempt h k = absurd (omega (arith, h, k))
  retry_from-Stops (suc fuel) attempt h k = elim (Bool-cases (again attempt (answers attempt))) [
    | inr done ↦
        let sum : attempt ≡ 0 + attempt = omega arith in
        (
          0,
          omega (arith, k),
          done,
          stops_here fuel attempt (answers attempt) refl done
              ∙ ap (λ i. some (record { result = answers i; delays = []; requests = 1 })) sum,
        )
    | inl more ↦
        let low : attempt < max_retries = again-bound attempt (answers attempt) more in
        let (n, bound, stops, e) =
          retry_from-Stops fuel (suc attempt) (omega (arith, h)) (omega (arith, low)) in
        let sum : n + suc attempt ≡ suc n + attempt = omega arith in
        (
          suc n,
          omega (arith, bound),
          (more, stops),
          goes_on fuel attempt (answers attempt) refl more
              ∙ rw e (
                  ap
                    (λ i. some (record {
                      result = answers i;
                      delays = delay attempt ∷ delays_from (suc attempt) n;
                      requests = suc (suc n);
                    }))
                    sum),
        )
  ]

  -- A request ends after at most four attempts: all but the last are answered by errors that may be
  -- retried, with a delay before the next that is three times the one before, and the last answer
  -- is the result, which is a response, an error that may not be retried, or the fourth answer.
  pub execute_http_with_retry_ends :
      (n : ℕ) × (n ≤ max_retries)
      × Stops 0 n
      × (execute_http_with_retry answers
          ≡ some (record { result = answers n; delays = delays_from 0 n; requests = suc n }))
  unfolding execute_http_with_retry
  execute_http_with_retry_ends =
      let (n, bound, stops, e) = retry_from-Stops (suc max_retries) 0 (omega arith) (omega arith) in
      let sum : n + 0 ≡ n = omega arith in
      (
        n,
        omega (arith, bound),
        stops,
        e
            ∙ ap
                (λ i.
                  some (record { result = answers i; delays = delays_from 0 n; requests = suc n }))
                sum,
      )

-- At most eight responses are kept, each of status 200 and of at most a mebibyte.
abbrev pub IsSmall : ResponseCache → Type 0
IsSmall cache =
    (length cache ≤ max_cached_responses)
    × ((cache_key : Text) (response : HttpResponse)
        → lookup cache_key cache ≡ some response
        → (response.status ≡ 200) × (length response.body ≤ max_cached_response_bytes))

length-upsert :
    (k : Text) (v : HttpResponse) (t : ResponseCache)
    → length (upsert k v (λ _. v) t) ≤ suc (length t)
unfolding upsert
length-upsert k v [] = omega arith
length-upsert k v ((j, w) ∷ t) = ground (arith, length-upsert k v t)

remember-IsSmall :
    (key : Text) (sent : Result HttpResponse) (cache : ResponseCache)
    → IsSmall cache
    → IsSmall (remember key sent cache).1
remember-IsSmall key (err e) cache h = h
remember-IsSmall key (ok response) cache (fits, small) =
    elim (Bool-cases (is_cacheable response cache)) [
      | inr other ↦ rw other (fits, small)
      | inl good ↦ rw good (
        ground (arith, length-upsert key response cache),
        λ k r e. elim (Bool-cases (same key k)) [
          | inl hit ↦
              let q : r ≡ response =
                ground (arith, same_iff key k, lookup-put key response cache) in
              rw q (ground arith)
          | inr miss ↦
              small k r (ground (arith, lookup-upsert key k response (λ _. response) cache))
        ],
      )
    ]

-- Whatever a request brings, the responses that are kept stay at most eight, each of status 200 and
-- of at most a mebibyte.
pub execute_cached_http-IsSmall :
    (cache_key : Option Text) (sent : Result HttpResponse) (cache : ResponseCache)
    → IsSmall cache
    → IsSmall (execute_cached_http cache_key sent cache).1
unfolding execute_cached_http
execute_cached_http-IsSmall none sent cache h = h
execute_cached_http-IsSmall (some key) sent cache h = elim (Option-cases (lookup key cache)) [
  | inl missing ↦ rw (missing, execute_cached_http) (remember-IsSmall key sent cache h)
  | inr (response, kept) ↦ rw (kept, execute_cached_http) h
]
