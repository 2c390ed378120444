-- ===== src/Script/Encoding.antt =====
-- native/langhuan/src/script/js/encoding.rs: the base64 and hex conversions of `Bytes`.
pub mod Table
pub mod Hex
pub mod Base64
use langhuan.Prelude.{
  ℕ, ◌+◌, ◌-◌, ◌*◌, ◌/◌, ◌%◌, Bool, true, false, not, ◌&&◌, ◌||◌, Option, none, some, List, [], ◌∷◌,
  Text, leb, ltb, ◌==◌, if◌then◌else◌, length, get_elem?, take, any,
}
use langhuan.Prelude.Bytes.{codes}
use mathlib.Core.List.{reverse}

-- The element of a table at an index, which is within the table wherever the code reads one.
unfoldable pub table_at : Text → ℕ → ℕ
table_at table i = elim (get_elem? table i) [ none ↦ 0 | some c ↦ c ]

-- One more element before the bytes of the rest, if the rest decodes.
abbrev pub after_byte : ℕ → Option Text → Option Text
after_byte b none = none
after_byte b (some bytes) = some (b ∷ bytes)

-- `HEX`
abbrev pub hex_alphabet : Text
hex_alphabet = codes "0123456789abcdef"

-- `to_hex`, with `byte >> 4` and `byte & 0x0F`
unfoldable pub to_hex : Text → Text
unfolding table_at
to_hex [] = []
to_hex (byte ∷ rest) =
    table_at hex_alphabet (byte / 16) ∷ table_at hex_alphabet (byte % 16) ∷ to_hex rest

-- `digit` of `from_hex`
unfoldable pub hex_digit : ℕ → Option ℕ
hex_digit byte =
    if leb b'0' byte && leb byte b'9'
    then some (byte - b'0')
    else if leb b'a' byte && leb byte b'f'
    then some (byte - b'a' + 10)
    else if leb b'A' byte && leb byte b'F'
    then some (byte - b'A' + 10)
    else none

-- `(digit(pair[0])? << 4) | digit(pair[1])?`, of two digits below 16.
unfoldable pub hex_pair : ℕ → ℕ → Option ℕ
unfolding hex_digit
hex_pair high low = elim (hex_digit high) [
  | none ↦ none
  | some h ↦ elim (hex_digit low) [ none ↦ none | some l ↦ some (h * 16 + l) ]
]

abbrev pub after_pair : Option ℕ → Option Text → Option Text
after_pair none rest = none
after_pair (some b) rest = after_byte b rest

-- `from_hex`; a text of odd length is refused before its pairs are read, and no loop reads past it.
unfoldable pub from_hex : Text → Option Text
unfolding hex_pair
from_hex [] = some []
from_hex (c ∷ []) = none
from_hex (high ∷ low ∷ rest) = after_pair (hex_pair high low) (from_hex rest)

-- `BASE64_ALPHABET` and `BASE64_URL_SAFE_ALPHABET`
abbrev pub alphabet : Bool → Text
alphabet false = codes "ABCDEFGHIJKLMNOPQRSTUVWXYZabcdefghijklmnopqrstuvwxyz0123456789+/"
alphabet true = codes "ABCDEFGHIJKLMNOPQRSTUVWXYZabcdefghijklmnopqrstuvwxyz0123456789-_"

abbrev pub pad : ℕ
pad = b'='

-- `alphabet[(triple >> 18) as usize & 0x3F]` and so on, for the group at a place.
unfoldable pub symbol : Bool → ℕ → ℕ
unfolding table_at
symbol url_safe group = table_at (alphabet url_safe) (group % 64)

-- `(b0 << 16) | (b1 << 8) | b2`, of three bytes.
abbrev pub triple_of : ℕ → ℕ → ℕ → ℕ
triple_of b0 b1 b2 = b0 * 65536 + b1 * 256 + b2

-- `to_base64`, by chunks of three bytes
unfoldable pub to_base64 : Bool → Text → Text
unfolding symbol
to_base64 url_safe [] = []
to_base64 url_safe (b0 ∷ []) =
    let triple = triple_of b0 0 0 in
    symbol url_safe (triple / 262144) ∷ symbol url_safe (triple / 4096) ∷ pad ∷ pad ∷ []
to_base64 url_safe (b0 ∷ b1 ∷ []) =
    let triple = triple_of b0 b1 0 in
    symbol url_safe (triple / 262144)
    ∷ symbol url_safe (triple / 4096)
    ∷ symbol url_safe (triple / 64)
    ∷ pad
    ∷ []
to_base64 url_safe (b0 ∷ b1 ∷ b2 ∷ rest) =
    let triple = triple_of b0 b1 b2 in
    symbol url_safe (triple / 262144)
    ∷ symbol url_safe (triple / 4096)
    ∷ symbol url_safe (triple / 64)
    ∷ symbol url_safe triple
    ∷ to_base64 url_safe rest

-- `u8::is_ascii_whitespace`
unfoldable pub is_ascii_whitespace : ℕ → Bool
is_ascii_whitespace c = c == 32 || c == 9 || c == 10 || c == 12 || c == 13

-- `input.bytes().filter(…)`
unfoldable pub compact : Text → Text
unfolding is_ascii_whitespace
compact [] = []
compact (c ∷ s) = let rest = compact s in if is_ascii_whitespace c then rest else c ∷ rest

-- `value_of`
unfoldable pub value_of : Bool → ℕ → Option ℕ
value_of url_safe byte =
    if leb b'A' byte && leb byte b'Z'
    then some (byte - b'A')
    else if leb b'a' byte && leb byte b'z'
    then some (byte - b'a' + 26)
    else if leb b'0' byte && leb byte b'9'
    then some (byte - b'0' + 52)
    else if byte == b'+' && not url_safe
    then some 62
    else if byte == b'/' && not url_safe
    then some 63
    else if byte == b'-' && url_safe
    then some 62
    else if byte == b'_' && url_safe
    then some 63
    else none

-- `take_while(|&&byte| byte == b'=').count()`
unfoldable pub leading_pads : Text → ℕ
leading_pads [] = 0
leading_pads (c ∷ s) = let rest = leading_pads s in if c == pad then 1 + rest else 0

abbrev pub both {ℓ} : {A : Type ℓ} → Option ℕ → (ℕ → Option A) → Option A
both none f = none
both (some v) f = f v

-- One chunk of up to four digits; each digit is below 64, so that `|=` of the shifted digit adds it.
unfoldable pub decode_digits : Bool → Text → Option Text
unfolding value_of
decode_digits url_safe [] = some []
decode_digits url_safe (c ∷ []) =
    both (value_of url_safe c) λ v. some (v * 262144 / 65536 % 256 ∷ [])
decode_digits url_safe (c ∷ d ∷ []) =
    both (value_of url_safe c)
      λ v. both (value_of url_safe d) λ w. some ((v * 262144 + w * 4096) / 65536 % 256 ∷ [])
decode_digits url_safe (c ∷ d ∷ e ∷ []) = both (value_of url_safe c) λ v.
    both (value_of url_safe d) λ w. both (value_of url_safe e) λ x.
      let triple = v * 262144 + w * 4096 + x * 64 in
      some (triple / 65536 % 256 ∷ triple / 256 % 256 ∷ [])
decode_digits url_safe (c ∷ d ∷ e ∷ f ∷ rest) =
    let tail = decode_digits url_safe rest in
    both (value_of url_safe c) λ v. both (value_of url_safe d) λ w. both (value_of url_safe e) λ x.
      both (value_of url_safe f) λ y.
        let triple = v * 262144 + w * 4096 + x * 64 + y in
        after_byte (triple / 65536 % 256)
          (after_byte (triple / 256 % 256) (after_byte (triple % 256) tail))

-- The test on the padding and the number of digits.
unfoldable pub is_malformed : Text → ℕ → Bool
is_malformed s padding =
    ltb 2 padding
    || (padding == length s && not (length s == 0))
    || any (λ c. c == pad) (take (length s - padding) s)

-- `from_base64`
unfoldable pub from_base64 : Bool → Text → Option Text
unfolding compact leading_pads
from_base64 url_safe input =
    let s = compact input in
    let padding = leading_pads (reverse s) in
    let digits = take (length s - padding) s in
    if is_malformed s padding
    then none
    else if length digits % 4 == 1
    then none
    else decode_digits url_safe digits
