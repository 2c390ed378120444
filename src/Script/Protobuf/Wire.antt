-- ===== src/Script/Protobuf/Wire.antt =====
-- native/langhuan/src/script/js/protobuf.rs: what a reader of the wire format finds in a message.
use langhuan.Prelude.{
  ℕ, zero, suc, ◌+◌, ◌-◌, ◌*◌, ◌/◌, ◌%◌, ◌^◌, ◌<◌, ◌≤◌, ◌≡◌, refl, ap, ◌∙◌, sym, true, false, ◌&&◌,
  Option, none, some, List, [], ◌∷◌, ◌++◌, Text, leb, ltb, ◌==◌, arith, if◌then◌else◌, length,
  length-append, take, drop, take-append, drop-append, append_assoc, append-nil, Bool-cases,
  Option-cases, inl, inr, All, map, subst,
}
use langhuan.Prelude.Decimal.{plus, minus}
use langhuan.Script.Protobuf.{
  max_message_bytes, max_field, max_safe_integer, wire_varint, wire_len, JsNumber, whole,
  fractional, validate_field, validate_varint, groups, write_varint, extend, check_limit, Written,
  with_valid, varint, bytes, Call, call_varint, call_bytes, run_call,
}

-- A field of a message, as the wire format has it.
pub data Field : Type 0 where
  number : ℕ → ℕ → Field
  payload : ℕ → Text → Field

abbrev longer : ℕ → Option (ℕ × Text) → Option (ℕ × Text)
longer b none = none
longer b (some (v, rest)) = some (b + 128 * v, rest)

-- A base-128 varint, least significant group first, and what follows it.
read_varint : Text → Option (ℕ × Text)
read_varint [] = none
read_varint (b ∷ s) =
    let more = read_varint s in if ltb b 128 then some (b, s) else longer (b - 128) more

read_payload : ℕ → Option (ℕ × Text) → Option (Field × Text)
read_payload field none = none
read_payload field (some (n, s)) =
    if leb n (length s) then some (payload field (take n s), drop n s) else none

read_number : ℕ → Option (ℕ × Text) → Option (Field × Text)
read_number field none = none
read_number field (some (v, s)) = some (number field v, s)

read_value : Option (ℕ × Text) → Option (Field × Text)
unfolding read_payload read_number read_varint
read_value none = none
read_value (some (key, s)) =
    if key % 8 == 0
    then read_number (key / 8) (read_varint s)
    else if key % 8 == 2
    then read_payload (key / 8) (read_varint s)
    else none

-- One field: a key of the field's number and its wire type, and the value.
pub read_field : Text → Option (Field × Text)
unfolding read_varint read_value
read_field s = read_value (read_varint s)

-- A message is read as some fields, to its end.
abbrev pub Reads : Text → List Field → Type 0
Reads s [] = s ≡ []
Reads s (f ∷ fs) = (rest : Text) × (read_field s ≡ some (f, rest)) × Reads rest fs

read_varint-groups :
    (fuel v : ℕ) (rest : Text)
    → v < 128 ^ suc fuel
    → read_varint (groups (suc fuel) v ++ rest) ≡ some (v, rest)
unfolding read_varint groups
read_varint-groups zero v rest h =
    let last : (v / 128 == 0) ≡ true = ground arith in rw last (ground arith)
read_varint-groups (suc fuel) v rest h = elim (Bool-cases (v / 128 == 0)) [
  | inl last ↦ rw last (ground arith)
  | inr more ↦ rw more (ground (arith, read_varint-groups fuel (v / 128) rest (omega (arith, h))))
]

-- What a field is in the wire format.
encoded : Field → Text
encoded (number field v) = groups 10 (field * 8 + wire_varint) ++ groups 10 v
encoded (payload field s) = groups 10 (field * 8 + wire_len) ++ (groups 10 (length s) ++ s)

IsSmall : Field → Type 0
IsSmall (number field v) = (field ≤ max_field) × (v ≤ max_safe_integer)
IsSmall (payload field s) = (field ≤ max_field) × (length s ≤ max_message_bytes)

read_field-encoded :
    (f : Field) (rest : Text) → IsSmall f → read_field (encoded f ++ rest) ≡ some (f, rest)
unfolding read_field encoded IsSmall
read_field-encoded (number field v) rest (small, fits) =
    let key = read_varint-groups 9 (field * 8 + wire_varint) (groups 10 v ++ rest) (omega arith) in
    let value = read_varint-groups 9 v rest (omega arith) in
    let wire : ((field * 8 + wire_varint) % 8 == 0) ≡ true = ground arith in
    let back : (field * 8 + wire_varint) / 8 ≡ field = omega arith in
    rw
      (
        append_assoc (groups 10 (field * 8 + wire_varint)) (groups 10 v) rest,
        key,
        wire,
        value,
        back,
      )
      refl
read_field-encoded (payload field s) rest (small, fits) =
    let key =
      read_varint-groups 9 (field * 8 + 2) ((groups 10 (length s) ++ s) ++ rest) (omega arith) in
    let size = read_varint-groups 9 (length s) (s ++ rest) (omega arith) in
    let not_varint : ((field * 8 + 2) % 8 == 0) ≡ false = ground arith in
    let wire : ((field * 8 + 2) % 8 == 2) ≡ true = ground arith in
    let back : (field * 8 + 2) / 8 ≡ field = omega arith in
    let whole_payload : leb (length s) (length (s ++ rest)) ≡ true =
      ground (arith, length-append s rest) in
    rw
      (
        append_assoc (groups 10 (field * 8 + 2)) (groups 10 (length s) ++ s) rest,
        key,
        not_varint,
        wire,
        append_assoc (groups 10 (length s)) s rest,
        size,
        whole_payload,
        back,
        take-append s rest,
        drop-append s rest,
      )
      refl

-- The number that a script passes, where it is one that a varint can carry.
abbrev amount : JsNumber → ℕ
amount fractional = 0
amount (whole (minus n)) = 0
amount (whole (plus n)) = n

-- The field that a call means to write.
abbrev pub meaning : Call → Field
meaning (call_varint field value) = number field (amount value)
meaning (call_bytes field s) = payload field s

with_field_sound :
    (buffer out : Text) (field : ℕ) (next : ℕ → Written)
    → with_valid buffer (validate_field field) next ≡ (out, none)
    → (field ≤ max_field) × (next field ≡ (out, none))
unfolding validate_field
with_field_sound buffer out field next e = elim (Bool-cases (leb 1 field && leb field max_field)) [
  | inl fits ↦ (ground arith, rw fits at e)
  | inr bad ↦ absurd (cc (rw bad at e))
]

with_amount_sound :
    (buffer out : Text) (x : JsNumber) (next : ℕ → Written)
    → with_valid buffer (validate_varint x) next ≡ (out, none)
    → (amount x ≤ max_safe_integer) × (next (amount x) ≡ (out, none))
unfolding validate_varint
with_amount_sound buffer out fractional next e = absurd (cc)
with_amount_sound buffer out (whole (minus n)) next e = elim (Bool-cases (n == 0)) [
  | inl fits ↦ (omega arith, rw fits at e)
  | inr bad ↦ absurd (cc (rw bad at e))
]
with_amount_sound buffer out (whole (plus n)) next e = elim (Bool-cases (leb n max_safe_integer)) [
  | inl fits ↦ (ground arith, rw fits at e)
  | inr bad ↦ absurd (cc (rw bad at e))
]

check_limit_sound :
    (buffer out : Text)
    → check_limit buffer ≡ (out, none)
    → (out ≡ buffer) × (length out ≤ max_message_bytes)
unfolding check_limit
check_limit_sound buffer out e = ground arith

extend_sound :
    (buffer s out : Text)
    → extend buffer s ≡ (out, none)
    → (out ≡ buffer ++ s) × (length buffer + length s ≤ max_message_bytes)
unfolding extend
extend_sound buffer s out e = ground arith

run_call-encoded :
    (c : Call) (buffer out : Text)
    → run_call c buffer ≡ (out, none)
    → IsSmall (meaning c) × (out ≡ buffer ++ encoded (meaning c)) × (length out ≤ max_message_bytes)
unfolding run_call varint bytes write_varint IsSmall encoded
run_call-encoded (call_varint field value) buffer out e =
    let (small, e') = with_field_sound buffer out field _ e in
    let (fits, e'') = with_amount_sound buffer out value _ e' in
    let (same, bound) = check_limit_sound _ out e'' in
    (
      (small, fits),
      same ∙ append_assoc buffer (groups 10 (field * 8 + wire_varint)) (groups 10 (amount value)),
      bound,
    )
run_call-encoded (call_bytes field s) buffer out e =
    let (small, e') = with_field_sound buffer out field _ e in
    let (same, bound) = extend_sound _ s out e' in
    let key = groups 10 (field * 8 + wire_len) in
    (
      (small, omega (arith, bound)),
      same
          ∙ (append_assoc (buffer ++ key) (groups 10 (length s)) s
              ∙ append_assoc buffer key (groups 10 (length s) ++ s)),
      omega
          (arith, ap length same, length-append ((buffer ++ key) ++ groups 10 (length s)) s, bound),
    )

-- The calls of a script, up to the first that throws.
unfoldable pub run_calls : List Call → Text → Written
run_calls [] buffer = (buffer, none)
run_calls (c ∷ cs) buffer =
    let (out, thrown) = run_call c buffer in
    elim thrown [ none ↦ run_calls cs out | some e ↦ (out, some e) ]

encodings : List Call → Text
encodings [] = []
encodings (c ∷ cs) = encoded (meaning c) ++ encodings cs

run_calls_head :
    (c : Call) (cs : List Call) (buffer out : Text)
    → run_calls (c ∷ cs) buffer ≡ (out, none)
    → (middle : Text) × (run_call c buffer ≡ (middle, none)) × (run_calls cs middle ≡ (out, none))
unfolding run_calls
run_calls_head c cs buffer out e = elim (Option-cases (run_call c buffer).1) [
  | inl fine ↦ ((run_call c buffer).0, ground arith, ground arith)
  | inr (t, thrown) ↦ absurd (ground arith)
]

run_calls-encodings :
    (cs : List Call) (buffer out : Text)
    → run_calls cs buffer ≡ (out, none)
    → All (λ c. IsSmall (meaning c)) cs × (out ≡ buffer ++ encodings cs)
unfolding encodings
run_calls-encodings [] buffer out e = unfold run_calls in (tt, cc (append-nil buffer))
run_calls-encodings (c ∷ cs) buffer out e =
    let (middle, one, rest) = run_calls_head c cs buffer out e in
    let (small, first, bound) = run_call-encoded c buffer middle one in
    let (smalls, tail) = run_calls-encodings cs middle out rest in
    (
      (small, smalls),
      tail
          ∙ ap (λ t. t ++ encodings cs) first
          ∙ append_assoc buffer (encoded (meaning c)) (encodings cs),
    )

Reads-encodings :
    (cs : List Call) → All (λ c. IsSmall (meaning c)) cs → Reads (encodings cs) (map meaning cs)
unfolding encodings
Reads-encodings [] h = refl
Reads-encodings (c ∷ cs) (small, smalls) =
    (encodings cs, read_field-encoded (meaning c) (encodings cs) small, Reads-encodings cs smalls)

-- A message that some calls write, none of which throws, is read in the wire format as the fields
-- that the calls name, in order and to its end.
pub run_calls-Reads :
    (cs : List Call) (message : Text)
    → run_calls cs [] ≡ (message, none)
    → Reads message (map meaning cs)
run_calls-Reads cs message e =
    let (small, whole_message) = run_calls-encodings cs [] message e in
    subst (λ s. Reads s (map meaning cs)) (sym whole_message) (Reads-encodings cs small)
