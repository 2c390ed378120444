-- ===== src/Feed/Tests/Steps.antt =====
-- An operation that sends one request and then completes.
use langhuan.Prelude.{ℕ, suc, true, none, some, [], ◌∷◌, Text, if◌then◌else◌, ◌==◌}
use langhuan.Prelude.Bytes.{codes, before, strip_prefix}
use langhuan.Error.{ok, err, javascript}
use langhuan.Http.Url.{UrlParser}
use langhuan.Http.Response.{get}
use langhuan.Feed.Operation.{search}
use langhuan.Feed.Steps.{Values, Step, request, complete, Host, max_internal_steps, drive_steps}
use langhuan.Feed.Steps.Within.{IsWithin}
use langhuan.Feed.Steps.Ends.{drive_steps-IsWithin}

abbrev small_urls : UrlParser
small_urls = record {
  Url = Text;
  parse = strip_prefix (codes "https://");
  host_str = λ u. some (before b'/' u);
  join = λ base path. some path;
  to_text = λ u. u;
}

abbrev small_values : Values
small_values = record { Json = ℕ; Opaque = Unit; AuthInfo = Unit; Snapshot = Unit }

abbrev small_step : ℕ → Step small_values
small_step round =
    if round == 0 then request (get (codes "https://b.c/")) none none else complete 7 none

-- The world counts the rounds.
abbrev small_host : Host small_values
small_host = record {
  World = ℕ;
  auth_info = λ w. none;
  has_webview = λ w. true;
  invoke = λ round w. (ok (small_step w), suc w);
  patch_request = λ r auth w. (ok r, w);
  attempts =
      λ r w. ((λ i. ok (record { status = 200; headers = []; body = codes "x"; url = r.url })), w);
  run_compute = λ programs input w. (err javascript, w);
  open_webview = λ page w. (err javascript, w);
}

drive_steps-IsWithin_example :
    IsWithin small_urls small_host search true
      (codes "b.c" ∷ [])
      0
      max_internal_steps
      (suc max_internal_steps)
      []
      (drive_steps small_urls small_host search true (codes "b.c" ∷ []) 0 [] 0)
drive_steps-IsWithin_example =
    drive_steps-IsWithin small_urls small_host search true (codes "b.c" ∷ []) 0 [] 0
