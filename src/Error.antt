-- ===== src/Error.antt =====
-- native/langhuan/src/error.rs: the errors of the crate. The texts of the messages are left out.
use langhuan.Prelude.{
  ℕ, Bool, true, false, ◌||◌, Option, none, some, List, Text, leb, ltb, ◌&&◌, if◌then◌else◌, same,
  text_eq, ◌≡◌, refl, ◌⊎◌, inl, inr,
}
use langhuan.Prelude.Bytes.{codes}

-- `ExpectedErrorCode`
pub data ExpectedErrorCode : Type 0 where
  auth_required cf_challenge rate_limited content_not_found source_unavailable : ExpectedErrorCode
  unknown : Text → ExpectedErrorCode

-- `ExpectedErrorCode::from_code`
unfoldable pub from_code : Text → ExpectedErrorCode
from_code code =
    if same code (codes "auth_required")
    then auth_required
    else if same code (codes "cf_challenge")
    then cf_challenge
    else if same code (codes "rate_limited")
    then rate_limited
    else if same code (codes "content_not_found")
    then content_not_found
    else if same code (codes "source_unavailable")
    then source_unavailable
    else unknown code

-- What the program asks of a `reqwest::Error`.
pub record HttpFailure : Type 0 where
  pub is_connect : Bool
  pub is_timeout : Bool
  pub is_request : Bool
  pub status : Option ℕ

-- `Error`, with the constructors of `ScriptError`, `RegistryError` and `PersistenceError` in line.
pub data Error : Type 0 where
  javascript : Error
  missing_function : Text → Error
  invalid_feed : Error
  too_large : ℕ → Error
  response_too_large : ℕ → Error
  parse_error : ℕ → Error
  domain_not_allowed : Text → List Text → Error
  schema_too_new : Text → ℕ → ℕ → Error
  duplicate_id : Text → Text → Text → Error
  expected : ExpectedErrorCode → Error
  feed_not_found : Text → Error
  database : Error
  http : HttpFailure → Error

pub data Result {ℓ} (Value : Type ℓ) : Type ℓ where
  ok : Value → Result Value
  err : Error → Result Value

-- `?`, over what the code does with the value.
module _ {ℓ κ} {A : Type ℓ} {B : Type κ} where
  infixl 5 ◌>>=◌
  abbrev pub ◌>>=◌ : Result A → (A → Result B) → Result B
  (err failure) >>= next = err failure
  (ok value) >>= next = next value

pub Result-cases {ℓ} :
    {Value : Type ℓ} (outcome : Result Value)
    → ((value : Value) × (outcome ≡ ok value)) ⊎ ((failure : Error) × (outcome ≡ err failure))
Result-cases (err failure) = inr (failure, refl)
Result-cases (ok value) = inl (value, refl)

abbrev pub is_some {ℓ} : {A : Type ℓ} → Option A → Bool
is_some none = false
is_some (some _) = true

-- `StatusCode::is_server_error`
is_server_error : Option ℕ → Bool
is_server_error none = false
is_server_error (some s) = leb 500 s && ltb s 600

is_transient_code : ExpectedErrorCode → Bool
is_transient_code rate_limited = true
is_transient_code source_unavailable = true
is_transient_code _ = false

-- `Error::is_retryable`
unfoldable pub is_retryable : Error → Bool
unfolding is_server_error is_transient_code
is_retryable (http e) =
    if e.is_connect || e.is_timeout || e.is_request then true else is_server_error e.status
is_retryable (expected code) = is_transient_code code
is_retryable _ = false
