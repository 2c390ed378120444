-- ===== src/Script/Tests/Libraries.antt =====
-- The encodings and the protobuf writer at concrete bytes.
use langhuan.Prelude.{◌≡◌, ◌↔◌, refl, arith, none, some, List, [], ◌∷◌, map, Text, All, false}
use langhuan.Prelude.Bytes.{codes, to_ascii_lowercase}
use langhuan.Prelude.Decimal.{plus}
use langhuan.Script.Encoding.{from_hex, to_hex, from_base64, to_base64, compact}
use langhuan.Script.Encoding.Hex.{IsByte, from_hex_iff}
use langhuan.Script.Encoding.Base64.{from_base64-to_base64}
use langhuan.Script.Protobuf.{Call, call_varint, call_bytes, whole, run_call, varint, bytes, groups}
use langhuan.Script.Protobuf.Wire.{run_calls, meaning, Reads, run_calls-Reads}

from_hex_iff_example :
    (from_hex (codes "0aFF") ≡ some (10 ∷ 255 ∷ []))
    ↔ (All IsByte (10 ∷ 255 ∷ []) × (to_hex (10 ∷ 255 ∷ []) ≡ to_ascii_lowercase (codes "0aFF")))
from_hex_iff_example = from_hex_iff (codes "0aFF") (10 ∷ 255 ∷ [])

small_compact : compact (codes "+/8 =") ≡ to_base64 false (251 ∷ 255 ∷ [])
unfolding compact to_base64
small_compact = refl

from_base64-to_base64_example : from_base64 false (codes "+/8 =") ≡ some (251 ∷ 255 ∷ [])
from_base64-to_base64_example =
    from_base64-to_base64 false (251 ∷ 255 ∷ []) (codes "+/8 =") (omega arith, (omega arith, tt))
      small_compact

abbrev small_calls : List Call
small_calls = call_varint 1 (whole (plus 300)) ∷ call_bytes 2 (codes "ab") ∷ []

abbrev small_message : Text
small_message = 8 ∷ 172 ∷ 2 ∷ 18 ∷ 2 ∷ codes "ab"

small_calls-run : run_calls small_calls [] ≡ (small_message, none)
unfolding run_calls run_call varint bytes groups
small_calls-run = refl

run_calls-Reads_example : Reads small_message (map meaning small_calls)
run_calls-Reads_example = run_calls-Reads small_calls small_message small_calls-run
