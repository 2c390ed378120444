-- ===== src/Script/Encoding/Hex.antt =====
-- native/langhuan/src/script/js/encoding.rs: `to_hex` and `from_hex` are inverse to one another.
use langhuan.Prelude.{
  ℕ, ◌+◌, ◌*◌, ◌/◌, ◌%◌, ◌<◌, ◌≤◌, ◌≡◌, ◌↔◌, refl, Bool, true, ◌&&◌, not, ◌||◌, Option, none, some,
  [], ◌∷◌, Text, ltb, ◌==◌, ==_iff, arith, All, subst, Option-cases, inl, inr,
}
use langhuan.Prelude.Bytes.{lower, to_ascii_lowercase}
use langhuan.Script.Encoding.{table_at, hex_alphabet, hex_digit, hex_pair, to_hex, from_hex}
use langhuan.Script.Encoding.Table.{passes_to, passes_to_sound}

abbrev pub IsByte : ℕ → Type 0
IsByte b = b < 256

abbrev is_digit_of : ℕ → Option ℕ → Bool
is_digit_of c none = true
is_digit_of c (some h) = ltb h 16 && table_at hex_alphabet h == lower c

digits_table : passes_to (λ c. is_digit_of c (hex_digit c)) 103 ≡ true
unfolding passes_to hex_digit table_at lower
digits_table = refl

hex_digit_below : (c h : ℕ) → hex_digit c ≡ some h → c < 103
unfolding hex_digit
hex_digit_below c h e = ground arith

hex_digit_sound : (c h : ℕ) → hex_digit c ≡ some h → (h < 16) × (table_at hex_alphabet h ≡ lower c)
hex_digit_sound c h e =
    let checked =
      passes_to_sound (λ c. is_digit_of c (hex_digit c)) 103 c digits_table
        (hex_digit_below c h e) in
    let fits : is_digit_of c (some h) ≡ true = subst (λ o. is_digit_of c o ≡ true) e checked in
    (ground arith, (==_iff (table_at hex_alphabet h) (lower c)).0 (ground arith))

abbrev is_digit : ℕ → Option ℕ → Bool
is_digit h none = not (ltb h 16)
is_digit h (some g) = g == h

abbrev reads : ℕ → ℕ → Bool
reads h c = not (table_at hex_alphabet h == lower c) || is_digit h (hex_digit c)

reads_table : passes_to (λ h. passes_to (reads h) 103) 16 ≡ true
unfolding passes_to hex_digit table_at lower
reads_table = refl

hex_complete_below :
    (c h : ℕ)
    → h < 16
    → c < 103
    → table_at hex_alphabet h ≡ lower c
    → is_digit h (hex_digit c) ≡ true
hex_complete_below c h n m e =
    let row = passes_to_sound (λ h. passes_to (reads h) 103) 16 h reads_table n in
    let cell = passes_to_sound (reads h) 103 c row m in
    let hit = (==_iff (table_at hex_alphabet h) (lower c)).1 e in ground arith

symbols_table : passes_to (λ h. ltb (table_at hex_alphabet h) 103) 16 ≡ true
unfolding passes_to table_at
symbols_table = refl

le-lower : (c : ℕ) → c ≤ lower c
unfolding lower
le-lower c = ground arith

hex_digit_complete : (c h : ℕ) → h < 16 → table_at hex_alphabet h ≡ lower c → hex_digit c ≡ some h
hex_digit_complete c h n e =
    let small = passes_to_sound (λ h. ltb (table_at hex_alphabet h) 103) 16 h symbols_table n in
    let checked = hex_complete_below c h n (ground (arith, le-lower c)) e in
    elim (Option-cases (hex_digit c)) [
      | inl miss ↦ absurd (ground arith)
      | inr (g, hit) ↦ ground (arith, ==_iff g h)
    ]

hex_pair_sound :
    (c d b : ℕ)
    → hex_pair c d ≡ some b
    → (b < 256)
      × (table_at hex_alphabet (b / 16) ≡ lower c)
      × (table_at hex_alphabet (b % 16) ≡ lower d)
unfolding hex_pair
hex_pair_sound c d b e = elim (Option-cases (hex_digit c)) [
  | inl miss ↦ absurd (ground arith)
  | inr (h, p) ↦ elim (Option-cases (hex_digit d)) [
    | inl miss ↦ absurd (ground arith)
    | inr (l, q) ↦
        let (hn, ht) = hex_digit_sound c h p in
        let (ln, lt) = hex_digit_sound d l q in
        let whole : b ≡ h * 16 + l = ground arith in
        let high : b / 16 ≡ h = omega arith in
        let low : b % 16 ≡ l = omega arith in (omega arith, rw high ht, rw low lt)
  ]
]

hex_pair_complete :
    (c d b : ℕ)
    → b < 256
    → table_at hex_alphabet (b / 16) ≡ lower c
    → table_at hex_alphabet (b % 16) ≡ lower d
    → hex_pair c d ≡ some b
unfolding hex_pair
hex_pair_complete c d b n p q =
    let high = hex_digit_complete c (b / 16) (omega arith) p in
    let low = hex_digit_complete d (b % 16) (omega arith) q in ground arith

from_hex_sound :
    (s bytes : Text)
    → from_hex s ≡ some bytes
    → All IsByte bytes × (to_hex bytes ≡ to_ascii_lowercase s)
unfolding from_hex to_hex
from_hex_sound [] bytes e = ground arith
from_hex_sound (c ∷ []) bytes e = absurd (cc)
from_hex_sound (c ∷ d ∷ s) bytes e = elim (Option-cases (hex_pair c d)) [
  | inl miss ↦ absurd (ground arith)
  | inr (b, p) ↦ elim (Option-cases (from_hex s)) [
    | inl miss ↦ absurd (ground arith)
    | inr (rest, q) ↦
        let (n, high, low) = hex_pair_sound c d b p in
        let (ns, tail) = from_hex_sound s rest q in
        let whole : bytes ≡ b ∷ rest = ground arith in rw whole ((n, ns), rw (high, low, tail) refl)
  ]
]

from_hex_complete :
    (s bytes : Text)
    → All IsByte bytes
    → to_hex bytes ≡ to_ascii_lowercase s
    → from_hex s ≡ some bytes
unfolding from_hex to_hex
from_hex_complete [] [] n e = refl
from_hex_complete [] (b ∷ bytes) n e = absurd (cc)
from_hex_complete (c ∷ []) [] n e = absurd (cc)
from_hex_complete (c ∷ []) (b ∷ bytes) n e = absurd (cc)
from_hex_complete (c ∷ d ∷ s) [] n e = absurd (cc)
from_hex_complete (c ∷ d ∷ s) (b ∷ bytes) (n, ns) e =
    let high : table_at hex_alphabet (b / 16) ≡ lower c = cc in
    let low : table_at hex_alphabet (b % 16) ≡ lower d = cc in
    let tail : to_hex bytes ≡ to_ascii_lowercase s = cc in
    rw (hex_pair_complete c d b n high low, from_hex_complete s bytes ns tail) refl

-- A text is read as some bytes exactly when they are bytes, and writing them gives the text in lower
-- case.
pub from_hex_iff :
    (s bytes : Text)
    → (from_hex s ≡ some bytes) ↔ (All IsByte bytes × (to_hex bytes ≡ to_ascii_lowercase s))
from_hex_iff s bytes = (from_hex_sound s bytes, λ (n, e). from_hex_complete s bytes n e)
