-- ===== src/Prelude/Decimal.antt =====
-- Integers as decimal text: `i64::to_string` of a number that is not negative, and `str::parse::<i64>`.
use Prim.Native.Nat.{ℕ, zero, suc, ◌+◌, ◌-◌, ◌*◌, ◌/◌, ◌%◌, ◌<◌, ◌≤◌}
use mathlib.Core.Bool.{Bool, true, false, ◌&&◌}
use mathlib.Core.Logic.{inl, inr}
use mathlib.Core.Option.{Option, none, some}
use mathlib.Core.List.{[], ◌∷◌, ◌++◌}
use mathlib.Core.Path.{◌≡◌, refl, ap, ◌∙◌, subst}
use native.Mathlib.Omega.{arith}
use langhuan.Prelude.Tests.{leb, ltb, ◌==◌, if◌then◌else◌, Bool-cases}
use langhuan.Prelude.Equality.{Text}

-- The digits of a number, with fuel that is more than the number.
unfoldable pub digits : ℕ → ℕ → Text
digits zero n = []
digits (suc fuel) n =
    let rest = digits fuel (n / 10) in
    if ltb n 10 then (b'0' + n) ∷ [] else rest ++ (b'0' + n % 10) ∷ []

unfoldable pub to_string : ℕ → Text
unfolding digits
to_string n = digits (suc n) n

abbrev pub is_digit : ℕ → Bool
is_digit c = leb b'0' c && leb c b'9'

unfoldable pub read_digits : ℕ → Text → Option ℕ
read_digits acc [] = some acc
read_digits acc (c ∷ s) =
    let rest = read_digits (acc * 10 + (c - b'0')) s in if is_digit c then rest else none

-- An `i64`: a number, or the opposite of one.
pub data Signed : Type 0 where
  plus minus : ℕ → Signed

abbrev pub max_i64 : ℕ
max_i64 = 9223372036854775807

abbrev bounded : ℕ → (ℕ → Signed) → Option ℕ → Option Signed
bounded limit sign none = none
bounded limit sign (some n) = if leb n limit then some (sign n) else none

unfoldable pub parse_i64 : Text → Option Signed
unfolding read_digits
parse_i64 [] = none
parse_i64 (c ∷ []) = bounded max_i64 plus (read_digits 0 (c ∷ []))
parse_i64 (c ∷ d ∷ s) =
    if c == b'-'
    then bounded (suc max_i64) minus (read_digits 0 (d ∷ s))
    else if c == b'+'
    then bounded max_i64 plus (read_digits 0 (d ∷ s))
    else bounded max_i64 plus (read_digits 0 (c ∷ d ∷ s))

abbrev then_digit : ℕ → Option ℕ → Option ℕ
then_digit d none = none
then_digit d (some n) = some (n * 10 + d)

read_digits-append :
    (acc d : ℕ) (s : Text)
    → d < 10
    → read_digits acc (s ++ (b'0' + d) ∷ []) ≡ then_digit d (read_digits acc s)
unfolding read_digits
read_digits-append acc d [] h = ground arith
read_digits-append acc d (c ∷ s) h =
    ground (arith, read_digits-append (acc * 10 + (c - b'0')) d s h)

read_digits-digits : (fuel n : ℕ) → n < fuel → read_digits 0 (digits fuel n) ≡ some n
unfolding digits read_digits
read_digits-digits zero n h = absurd (omega (arith, h))
read_digits-digits (suc fuel) n h = elim (Bool-cases (ltb n 10)) [
  | inl small ↦ rw small (ground arith)
  | inr large ↦ rw large (
      read_digits-append 0 (n % 10) (digits fuel (n / 10)) (omega arith)
      ∙ rw (read_digits-digits fuel (n / 10) (ground arith)) (ap some (omega arith)))
]

-- The first character is a digit.
first_digit :
    (fuel n : ℕ) → n < fuel → (c : ℕ) × (s : Text) × (digits fuel n ≡ c ∷ s) × (is_digit c ≡ true)
unfolding digits
first_digit zero n h = absurd (omega (arith, h))
first_digit (suc fuel) n h = elim (Bool-cases (ltb n 10)) [
  | inl small ↦ (b'0' + n, [], rw small refl, ground arith)
  | inr large ↦
      let (c, s, e, d) = first_digit fuel (n / 10) (ground arith) in
      (c, s ++ (b'0' + n % 10) ∷ [], rw (large, e) refl, d)
]

parse_digits :
    (n c : ℕ) (s : Text)
    → is_digit c ≡ true
    → read_digits 0 (c ∷ s) ≡ some n
    → n ≤ max_i64
    → parse_i64 (c ∷ s) ≡ some (plus n)
unfolding parse_i64
parse_digits n c [] d e h = rw e (ground arith)
parse_digits n c (c' ∷ s) d e h =
    let not_minus : (c == b'-') ≡ false = ground arith in
    let not_plus : (c == b'+') ≡ false = ground arith in rw (not_minus, not_plus, e) (ground arith)

pub parse_i64-to_string : (n : ℕ) → n ≤ max_i64 → parse_i64 (to_string n) ≡ some (plus n)
unfolding to_string
parse_i64-to_string n h =
    let (c, s, e, d) = first_digit (suc n) n (omega arith) in
    rw e (
      parse_digits n c s d
        (subst (λ t. read_digits 0 t ≡ some n) e (read_digits-digits (suc n) n (omega arith))) h)

abbrev pub max_u32 : ℕ
max_u32 = 4294967295

abbrev bounded_u32 : Option ℕ → Option ℕ
bounded_u32 none = none
bounded_u32 (some n) = if leb n max_u32 then some n else none

-- `str::parse::<u32>`
unfoldable pub parse_u32 : Text → Option ℕ
unfolding read_digits
parse_u32 [] = none
parse_u32 (c ∷ []) = bounded_u32 (read_digits 0 (c ∷ []))
parse_u32 (c ∷ d ∷ s) =
    if c == b'+'
    then bounded_u32 (read_digits 0 (d ∷ s))
    else bounded_u32 (read_digits 0 (c ∷ d ∷ s))

parse_u32-digits :
    (n c : ℕ) (s : Text)
    → is_digit c ≡ true
    → read_digits 0 (c ∷ s) ≡ some n
    → n ≤ max_u32
    → parse_u32 (c ∷ s) ≡ some n
unfolding parse_u32
parse_u32-digits n c [] d e h = rw e (ground arith)
parse_u32-digits n c (c' ∷ s) d e h =
    let not_plus : (c == b'+') ≡ false = ground arith in rw (not_plus, e) (ground arith)

pub parse_u32-to_string : (n : ℕ) → n ≤ max_u32 → parse_u32 (to_string n) ≡ some n
unfolding to_string
parse_u32-to_string n h =
    let (c, s, e, d) = first_digit (suc n) n (omega arith) in
    rw e (
      parse_u32-digits n c s d
        (subst (λ t. read_digits 0 t ≡ some n) e (read_digits-digits (suc n) n (omega arith))) h)
