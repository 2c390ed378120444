-- ===== src/Script/Protobuf.antt =====
-- native/langhuan/src/script/js/protobuf.rs: the writer of protobuf messages.
pub mod Wire
use langhuan.Prelude.{
  ℕ, zero, suc, ◌+◌, ◌-◌, ◌*◌, ◌/◌, ◌%◌, ◌^◌, Bool, ◌&&◌, Option, none, some, List, [], ◌∷◌, ◌++◌,
  Text, leb, ltb, ◌==◌, if◌then◌else◌, length,
}
use langhuan.Prelude.Decimal.{Signed, plus, minus}

-- `MAX_MESSAGE_BYTES`
abbrev pub max_message_bytes : ℕ
max_message_bytes = 32 * 1024 * 1024

-- `MAX_FIELD`
abbrev pub max_field : ℕ
max_field = 2 ^ 29 - 1

-- `MAX_SAFE_INTEGER`
abbrev pub max_safe_integer : ℕ
max_safe_integer = 9007199254740992

-- `WIRE_VARINT` and `WIRE_LEN`
abbrev pub wire_varint : ℕ
wire_varint = 0

abbrev pub wire_len : ℕ
wire_len = 2

-- A number of JavaScript, by what `fract` and the range test tell of it: an integer, or none.
pub data JsNumber : Type 0 where
  whole : Signed → JsNumber
  fractional : JsNumber

-- What a method throws.
pub data Thrown : Type 0 where
  bad_field bad_value message_too_large : Thrown

pub data Validated : Type 0 where
  valid : ℕ → Validated
  refused : Thrown → Validated

-- `validate_field`
unfoldable pub validate_field : ℕ → Validated
validate_field field = if leb 1 field && leb field max_field then valid field else refused bad_field

-- `validate_varint`
unfoldable pub validate_varint : JsNumber → Validated
validate_varint fractional = refused bad_value
validate_varint (whole (minus n)) = if n == 0 then valid 0 else refused bad_value
validate_varint (whole (plus n)) = if leb n max_safe_integer then valid n else refused bad_value

-- The loop of `write_varint`: the bytes of a `u64`, of which there are ten at most.
unfoldable pub groups : ℕ → ℕ → Text
groups zero value = []
groups (suc fuel) value =
    let rest = groups fuel (value / 128) in
    if value / 128 == 0 then (value % 128) ∷ [] else (value % 128 + 128) ∷ rest

unfoldable pub write_varint : Text → ℕ → Text
write_varint buffer value = buffer ++ groups 10 value

-- What a method leaves in the buffer, and what it throws.
abbrev pub Written : Type 0
Written = Text × Option Thrown

-- `extend`
unfoldable pub extend : Text → Text → Written
extend buffer payload =
    if ltb max_message_bytes (length buffer + length payload)
    then (buffer, some message_too_large)
    else (buffer ++ payload, none)

-- `check_limit`, on a buffer that has been written.
unfoldable pub check_limit : Text → Written
check_limit buffer =
    (buffer, (if ltb max_message_bytes (length buffer) then some message_too_large else none))

abbrev pub with_valid : Text → Validated → (ℕ → Written) → Written
with_valid buffer (refused e) next = (buffer, some e)
with_valid buffer (valid n) next = next n

-- `Protobuf.varint`
unfoldable pub varint : Text → ℕ → JsNumber → Written
unfolding validate_field validate_varint write_varint check_limit
varint buffer field value = with_valid buffer (validate_field field) λ f.
    with_valid buffer (validate_varint value)
      λ v. check_limit (write_varint (write_varint buffer (f * 8 + wire_varint)) v)

-- `Protobuf.string` and `Protobuf.bytes`
unfoldable pub bytes : Text → ℕ → Text → Written
unfolding validate_field write_varint extend
bytes buffer field payload =
    with_valid buffer (validate_field field)
      λ f. extend (write_varint (write_varint buffer (f * 8 + wire_len)) (length payload)) payload

-- One call of a method.
pub data Call : Type 0 where
  call_varint : ℕ → JsNumber → Call
  call_bytes : ℕ → Text → Call

unfoldable pub run_call : Call → Text → Written
run_call (call_varint field value) buffer = varint buffer field value
run_call (call_bytes field payload) buffer = bytes buffer field payload
