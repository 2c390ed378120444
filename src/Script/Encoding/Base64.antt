-- ===== src/Script/Encoding/Base64.antt =====
-- native/langhuan/src/script/js/encoding.rs: `from_base64` reads back what `to_base64` writes.
use langhuan.Prelude.{
  ℕ, zero, suc, ◌-◌, ◌/◌, ◌%◌, ◌<◌, ◌≤◌, ◌≡◌, ◌≢◌, refl, ap, ◌∙◌, Bool, true, false, ◌&&◌, not,
  Option, none, some, [], ◌∷◌, ◌++◌, Text, ◌==◌, arith, All, All-append, length, length-append,
  length-replicate, replicate, take, take-append, any,
}
use langhuan.Script.Encoding.{
  table_at, alphabet, pad, symbol, triple_of, to_base64, compact, value_of, leading_pads,
  decode_digits, is_malformed, from_base64,
}
use langhuan.Script.Encoding.Table.{passes_to, passes_to_sound}
use langhuan.Script.Encoding.Hex.{IsByte}
use mathlib.Core.List.{reverse, reverse-append, reverse-cons}

abbrev is_value : ℕ → Option ℕ → Bool
is_value g none = false
is_value g (some v) = v == g

abbrev is_symbol : Bool → ℕ → Bool
is_symbol url_safe g =
    let c = table_at (alphabet url_safe) g in is_value g (value_of url_safe c) && not (c == pad)

plain_table : passes_to (is_symbol false) 64 ≡ true
unfolding passes_to table_at value_of
plain_table = refl

url_safe_table : passes_to (is_symbol true) 64 ≡ true
unfolding passes_to table_at value_of
url_safe_table = refl

group_is_symbol : (url_safe : Bool) (g : ℕ) → g < 64 → is_symbol url_safe g ≡ true
group_is_symbol false g n = passes_to_sound (is_symbol false) 64 g plain_table n
group_is_symbol true g n = passes_to_sound (is_symbol true) 64 g url_safe_table n

value_of-symbol : (url_safe : Bool) (x : ℕ) → value_of url_safe (symbol url_safe x) ≡ some (x % 64)
unfolding symbol
value_of-symbol url_safe x = let h = group_is_symbol url_safe (x % 64) (omega arith) in ground arith

-- A text without padding.
abbrev IsUnpadded : ℕ → Type 0
IsUnpadded c = (c == pad) ≡ false

symbol-IsUnpadded : (url_safe : Bool) (x : ℕ) → IsUnpadded (symbol url_safe x)
unfolding symbol
symbol-IsUnpadded url_safe x =
    let h = group_is_symbol url_safe (x % 64) (omega arith) in ground arith

-- The digits of an encoding, and how much padding stands behind them.
digits_of : Bool → Text → Text
digits_of u [] = []
digits_of u (b0 ∷ []) =
    symbol u (triple_of b0 0 0 / 262144) ∷ symbol u (triple_of b0 0 0 / 4096) ∷ []
digits_of u (b0 ∷ b1 ∷ []) =
    symbol u (triple_of b0 b1 0 / 262144)
    ∷ symbol u (triple_of b0 b1 0 / 4096)
    ∷ symbol u (triple_of b0 b1 0 / 64)
    ∷ []
digits_of u (b0 ∷ b1 ∷ b2 ∷ rest) =
    symbol u (triple_of b0 b1 b2 / 262144)
    ∷ symbol u (triple_of b0 b1 b2 / 4096)
    ∷ symbol u (triple_of b0 b1 b2 / 64)
    ∷ symbol u (triple_of b0 b1 b2)
    ∷ digits_of u rest

pads_of : Text → ℕ
pads_of [] = 0
pads_of (b0 ∷ []) = 2
pads_of (b0 ∷ b1 ∷ []) = 1
pads_of (b0 ∷ b1 ∷ b2 ∷ rest) = pads_of rest

to_base64-digits_of :
    (u : Bool) (bytes : Text)
    → to_base64 u bytes ≡ digits_of u bytes ++ replicate (pads_of bytes) pad
unfolding to_base64 digits_of pads_of
to_base64-digits_of u [] = refl
to_base64-digits_of u (b0 ∷ []) = refl
to_base64-digits_of u (b0 ∷ b1 ∷ []) = refl
to_base64-digits_of u (b0 ∷ b1 ∷ b2 ∷ rest) = rw (to_base64-digits_of u rest) refl

digits_of-IsUnpadded : (u : Bool) (bytes : Text) → All IsUnpadded (digits_of u bytes)
unfolding digits_of
digits_of-IsUnpadded u [] = tt
digits_of-IsUnpadded u (b0 ∷ []) = (symbol-IsUnpadded u _, (symbol-IsUnpadded u _, tt))
digits_of-IsUnpadded u (b0 ∷ b1 ∷ []) =
    (symbol-IsUnpadded u _, (symbol-IsUnpadded u _, (symbol-IsUnpadded u _, tt)))
digits_of-IsUnpadded u (b0 ∷ b1 ∷ b2 ∷ rest) = (
  symbol-IsUnpadded u _,
  (
    symbol-IsUnpadded u _,
    (symbol-IsUnpadded u _, (symbol-IsUnpadded u _, digits_of-IsUnpadded u rest)),
  ),
)

-- The number of digits, modulo four, and the padding go together.
digits_fit :
    (u : Bool) (bytes : Text)
    → (length (digits_of u bytes) % 4 ≢ 1)
      × (pads_of bytes ≤ 2)
      × (pads_of bytes ≤ length (digits_of u bytes))
unfolding digits_of pads_of
digits_fit u [] = omega arith
digits_fit u (b0 ∷ []) = omega arith
digits_fit u (b0 ∷ b1 ∷ []) = omega arith
digits_fit u (b0 ∷ b1 ∷ b2 ∷ rest) = omega (arith, digits_fit u rest)

decode_digits-digits_of :
    (u : Bool) (bytes : Text) → All IsByte bytes → decode_digits u (digits_of u bytes) ≡ some bytes
unfolding decode_digits digits_of
decode_digits-digits_of u [] n = refl
decode_digits-digits_of u (b0 ∷ []) (n0, n) =
    rw (value_of-symbol u (triple_of b0 0 0 / 262144), value_of-symbol u (triple_of b0 0 0 / 4096))
      (ap (λ t. some (t ∷ [])) (omega arith))
decode_digits-digits_of u (b0 ∷ b1 ∷ []) (n0, (n1, n)) =
    rw
      (
        value_of-symbol u (triple_of b0 b1 0 / 262144),
        value_of-symbol u (triple_of b0 b1 0 / 4096),
        value_of-symbol u (triple_of b0 b1 0 / 64),
      )
      (ground (arith))
decode_digits-digits_of u (b0 ∷ b1 ∷ b2 ∷ rest) (n0, (n1, (n2, n))) =
    rw
      (
        value_of-symbol u (triple_of b0 b1 b2 / 262144),
        value_of-symbol u (triple_of b0 b1 b2 / 4096),
        value_of-symbol u (triple_of b0 b1 b2 / 64),
        value_of-symbol u (triple_of b0 b1 b2),
        decode_digits-digits_of u rest n,
      )
      (ground (arith))

All-reverse : (P : ℕ → Type 0) (s : Text) → All P s → All P (reverse s)
All-reverse P [] h = tt
All-reverse P (c ∷ s) (p, h) =
    rw (reverse-cons c s) (All-append P (reverse s) (c ∷ []) (All-reverse P s h) (p, tt))

leading_pads-zero : (s : Text) → All IsUnpadded s → leading_pads s ≡ 0
unfolding leading_pads
leading_pads-zero [] h = refl
leading_pads-zero (c ∷ s) (p, h) = rw p refl

leading_pads-replicate :
    (n : ℕ) (s : Text) → All IsUnpadded s → leading_pads (replicate n pad ++ s) ≡ n
unfolding leading_pads
leading_pads-replicate zero s h = leading_pads-zero s h
leading_pads-replicate (suc n) s h = omega (arith, leading_pads-replicate n s h)

replicate-snoc : (n : ℕ) → replicate n pad ++ pad ∷ [] ≡ pad ∷ replicate n pad
replicate-snoc zero = refl
replicate-snoc (suc n) = ap (λ t. pad ∷ t) (replicate-snoc n)

reverse-replicate : (n : ℕ) → reverse (replicate n pad) ≡ replicate n pad
reverse-replicate zero = refl
reverse-replicate (suc n) =
    reverse-cons pad (replicate n pad) ∙ rw (reverse-replicate n) (replicate-snoc n)

-- The padding that is counted is what stands behind the digits.
trailing_pads :
    (ds : Text) (n : ℕ) → All IsUnpadded ds → leading_pads (reverse (ds ++ replicate n pad)) ≡ n
trailing_pads ds n h =
    ap leading_pads
      (reverse-append ds (replicate n pad) ∙ ap (λ t. t ++ reverse ds) (reverse-replicate n))
    ∙ leading_pads-replicate n (reverse ds) (All-reverse IsUnpadded ds h)

any-unpadded : (ds : Text) → All IsUnpadded ds → any (λ c. c == pad) ds ≡ false
any-unpadded [] h = refl
any-unpadded (c ∷ ds) (p, h) = rw (p, any-unpadded ds h) refl

cut : (ds : Text) (n : ℕ) → take (length (ds ++ replicate n pad) - n) (ds ++ replicate n pad) ≡ ds
cut ds n =
    let size : length (ds ++ replicate n pad) - n ≡ length ds =
      omega (arith, length-append ds (replicate n pad), length-replicate n pad) in
    ap (λ t. take t (ds ++ replicate n pad)) size ∙ take-append ds (replicate n pad)

accepts :
    (ds : Text) (n : ℕ)
    → All IsUnpadded ds
    → n ≤ 2
    → n ≤ length ds
    → is_malformed (ds ++ replicate n pad) n ≡ false
unfolding is_malformed
accepts ds n h two fits =
    rw (cut ds n, any-unpadded ds h)
      (ground (arith, length-append ds (replicate n pad), length-replicate n pad))

-- What `to_base64` writes for some bytes is read back as those bytes, with white space anywhere.
pub from_base64-to_base64 :
    (url_safe : Bool) (bytes input : Text)
    → All IsByte bytes
    → compact input ≡ to_base64 url_safe bytes
    → from_base64 url_safe input ≡ some bytes
unfolding from_base64
from_base64-to_base64 u bytes input n e =
    let unpadded = digits_of-IsUnpadded u bytes in
    let (odd, two, fits) = digits_fit u bytes in
    let whole : compact input ≡ digits_of u bytes ++ replicate (pads_of bytes) pad =
      e ∙ to_base64-digits_of u bytes in
    let odd' : (length (digits_of u bytes) % 4 == 1) ≡ false = ground arith in
    rw
      (
        whole,
        trailing_pads (digits_of u bytes) (pads_of bytes) unpadded,
        cut (digits_of u bytes) (pads_of bytes),
        accepts (digits_of u bytes) (pads_of bytes) unpadded two fits,
        odd',
      )
      (decode_digits-digits_of u bytes n)
