-- ===== src/Feed/Tests.antt =====
-- The retries and the kept responses at concrete answers.
mod Steps
mod Streams
use langhuan.Prelude.{ℕ, suc, ◌≤◌, ◌≡◌, some, [], ◌∷◌, if◌then◌else◌, ltb}
use langhuan.Prelude.Bytes.{codes}
use langhuan.Error.{Result, ok, err, expected, rate_limited}
use langhuan.Http.Response.{HttpResponse}
use langhuan.Feed.Request.{max_retries, execute_http_with_retry}
use langhuan.Feed.Request.Retry.{delays_from, Stops, execute_http_with_retry_ends}

abbrev small_response : HttpResponse
small_response = record { status = 200; headers = []; body = 1 ∷ 2 ∷ []; url = codes "u" }

-- Two refusals, then a response.
abbrev small_answers : ℕ → Result HttpResponse
small_answers i = if ltb i 2 then err (expected rate_limited) else ok small_response

execute_http_with_retry_ends_example :
    (n : ℕ) × (n ≤ max_retries)
    × Stops small_answers 0 n
    × (execute_http_with_retry small_answers
        ≡ some (record { result = small_answers n; delays = delays_from 0 n; requests = suc n }))
execute_http_with_retry_ends_example = execute_http_with_retry_ends small_answers
