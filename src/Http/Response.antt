-- ===== src/Http/Response.antt =====
-- native/langhuan/src/http.rs: the requests and responses, and what is read from their headers.
use langhuan.Prelude.{
  ℕ, Bool, ◌||◌, Option, none, some, List, [], ◌∷◌, ◌++◌, Text, text_eq, same, ◌==◌, if◌then◌else◌,
}
use langhuan.Prelude.Bytes.{codes, to_ascii_lowercase, before, trim}
use langhuan.Http.Url.{UrlParser}

pub record HttpRequest : Type 0 where
  pub url : Text
  pub method : Text
  pub headers : List (Text × Text)
  pub body : Option Text

-- `HttpRequest::get`
unfoldable pub get : Text → HttpRequest
get url = record { url = url; method = codes "GET"; headers = []; body = none }

pub record HttpResponse : Type 0 where
  pub status : ℕ
  pub headers : List (Text × Text)
  pub body : Text
  pub url : Text

-- `str::eq_ignore_ascii_case`
unfoldable pub eq_ignore_ascii_case : Text → Text → Bool
eq_ignore_ascii_case s t = same (to_ascii_lowercase s) (to_ascii_lowercase t)

unfoldable pub find_header : Text → List (Text × Text) → Option Text
find_header name [] = none
find_header name ((n, v) ∷ headers) =
    if eq_ignore_ascii_case n name then some v else find_header name headers

-- `HttpResponse::content_type`
unfoldable pub content_type : HttpResponse → Option Text
unfolding find_header
content_type r = elim (find_header (codes "content-type") r.headers) [
  | none ↦ none
  | some value ↦ some (trim (before b';' value))
]

-- A `HeaderMap`: its names in order, each with all its values; `none` for a value that `to_str`
-- refuses.
abbrev pub HeaderMap : Type 0
HeaderMap = List (Text × List (Option Text))

-- The values of one name, each beside the name.
unfoldable pub readable_values : Text → List (Option Text) → List (Text × Text)
readable_values name [] = []
readable_values name (none ∷ values) = readable_values name values
readable_values name (some v ∷ values) = (name, v) ∷ readable_values name values

-- `collect_response_headers`
unfoldable pub collect_response_headers : HeaderMap → List (Text × Text)
unfolding readable_values
collect_response_headers [] = []
collect_response_headers ((name, values) ∷ headers) =
    readable_values name values ++ collect_response_headers headers

-- `headers.get(name)`: the first value of a name.
unfoldable pub first_value : Text → HeaderMap → Option Text
first_value name [] = none
first_value name ((n, []) ∷ headers) = first_value name headers
first_value name ((n, v ∷ _) ∷ headers) = if same n name then v else first_value name headers

-- What arrives of a response before its body: `url` is the final URL.
pub data Chunk {ℓ} (F : Type ℓ) : Type ℓ where
  bytes : Text → Chunk F
  broken : F → Chunk F

-- `301 | 302 | 303 | 307 | 308`
unfoldable pub is_followable : ℕ → Bool
is_followable s = s == 301 || s == 302 || s == 303 || s == 307 || s == 308

module _ (urls : UrlParser) where
  open urls use {Url, parse, join, to_text}

  abbrev or_join : Option Url → Url → Text → Option Url
  or_join (some u) base location = some u
  or_join none base location = join base location

  -- `FeedClient::redirect_target`
  unfoldable pub redirect_target : Url → HeaderMap → Option Text
  unfolding first_value
  redirect_target base headers = elim (first_value (codes "location") headers) [
    | none ↦ none
    | some location ↦ elim (or_join (parse location) base location) [
      | none ↦ none
      | some u ↦ some (to_text u)
    ]
  ]
