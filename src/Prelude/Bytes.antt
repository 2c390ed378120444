-- ===== src/Prelude/Bytes.antt =====
-- The operations of `str` that the program uses, on the bytes of a text.
use Prim.Native.Char.{code}
use Prim.Native.Nat.{ℕ, zero, suc, ◌+◌, ◌-◌}
use Prim.Native.String.{String}
use mathlib.Core.Bool.{Bool, true, false, ◌&&◌}
use mathlib.Core.Option.{Option, none, some}
use mathlib.Core.List.{List, [], ◌∷◌, ◌++◌, map, reverse}
use mathlib.Core.Path.{◌≡◌, sym, ◌∙◌, ap, ap₂}
use mathlib.Core.Logic.{◌↔◌}
use native.Mathlib.Omega.{arith}
use langhuan.Prelude.Tests.{leb, ◌==◌, ==_iff, if◌then◌else◌}
use langhuan.Prelude.Lists.{length, length-append, drop, drop-append, take, take-append-drop}
use langhuan.Prelude.Equality.{Text, text_beq, text_beq_iff}

-- The bytes of an ASCII literal.
abbrev pub codes : String → Text
codes String.[] = []
codes (String.◌∷◌ c s) = code c ∷ codes s

-- `u8::to_ascii_lowercase`, and the same on a `str`.
unfoldable pub lower : ℕ → ℕ
lower c = if leb b'A' c && leb c b'Z' then c + 32 else c

abbrev pub to_ascii_lowercase : Text → Text
to_ascii_lowercase = map lower

-- `str::strip_prefix`
unfoldable pub strip_prefix : Text → Text → Option Text
strip_prefix [] s = some s
strip_prefix (a ∷ p) [] = none
strip_prefix (a ∷ p) (b ∷ s) = if a == b then strip_prefix p s else none

-- `str::starts_with`
unfoldable pub starts_with : Text → Text → Bool
unfolding strip_prefix
starts_with s p = elim (strip_prefix p s) [ none ↦ false | some _ ↦ true ]

-- `str::ends_with`
unfoldable pub ends_with : Text → Text → Bool
unfolding text_beq
ends_with s t = leb (length t) (length s) && text_beq (drop (length s - length t) s) t

-- `str::split_once` at one byte, read from the left: what stands before it.
unfoldable pub before : ℕ → Text → Text
before b [] = []
before b (c ∷ s) = if c == b then [] else c ∷ before b s

-- `trim_start_matches` of a set of bytes.
unfoldable pub trim_start : (ℕ → Bool) → Text → Text
trim_start p [] = []
trim_start p (c ∷ s) = let rest = trim_start p s in if p c then rest else c ∷ s

-- `trim_end_matches` of a set of bytes.
unfoldable pub trim_end : (ℕ → Bool) → Text → Text
unfolding trim_start
trim_end p s = reverse (trim_start p (reverse s))

-- The UTF-8 encodings of the characters that `char::is_whitespace` accepts.
abbrev pub white_space : List Text
white_space =
    (9 ∷ [])
    ∷ (10 ∷ [])
    ∷ (11 ∷ [])
    ∷ (12 ∷ [])
    ∷ (13 ∷ [])
    ∷ (32 ∷ [])
    ∷ (194 ∷ 133 ∷ [])
    ∷ (194 ∷ 160 ∷ [])
    ∷ (225 ∷ 154 ∷ 128 ∷ [])
    ∷ (226 ∷ 128 ∷ 128 ∷ [])
    ∷ (226 ∷ 128 ∷ 129 ∷ [])
    ∷ (226 ∷ 128 ∷ 130 ∷ [])
    ∷ (226 ∷ 128 ∷ 131 ∷ [])
    ∷ (226 ∷ 128 ∷ 132 ∷ [])
    ∷ (226 ∷ 128 ∷ 133 ∷ [])
    ∷ (226 ∷ 128 ∷ 134 ∷ [])
    ∷ (226 ∷ 128 ∷ 135 ∷ [])
    ∷ (226 ∷ 128 ∷ 136 ∷ [])
    ∷ (226 ∷ 128 ∷ 137 ∷ [])
    ∷ (226 ∷ 128 ∷ 138 ∷ [])
    ∷ (226 ∷ 128 ∷ 168 ∷ [])
    ∷ (226 ∷ 128 ∷ 169 ∷ [])
    ∷ (226 ∷ 128 ∷ 175 ∷ [])
    ∷ (226 ∷ 129 ∷ 159 ∷ [])
    ∷ (227 ∷ 128 ∷ 128 ∷ [])
    ∷ []

-- The length of the first of some encodings that a text begins with, and 0 if it begins with none.
unfoldable pub leading : List Text → Text → ℕ
unfolding starts_with
leading [] s = 0
leading (encoding ∷ rest) s =
    let later = leading rest s in if starts_with s encoding then length encoding else later

-- The bytes of the white space that a text begins with. Valid UTF-8 has these bytes only where a
-- character begins.
unfoldable pub leading_space : Text → ℕ
unfolding leading
leading_space = leading white_space

-- A text without some bytes, and without the encodings that then stand at its start.
unfoldable pub skip : List Text → ℕ → Text → Text
unfolding leading
skip encodings n [] = []
skip encodings (suc n) (c ∷ s) = skip encodings n s
skip encodings zero (c ∷ s) = elim (leading encodings (c ∷ s)) [
  | zero ↦ c ∷ s
  | suc n ↦ skip encodings n s
]

-- `str::trim`: the encodings at the end are read from the last byte.
unfoldable pub trim : Text → Text
unfolding skip
trim s = reverse (skip (map reverse white_space) 0 (reverse (skip white_space 0 s)))

-- A stripped prefix is put back by `++`.
pub strip_prefix_iff : (p s t : Text) → (strip_prefix p s ≡ some t) ↔ (s ≡ p ++ t)
unfolding strip_prefix
strip_prefix_iff [] s t = (λ e. ground arith, λ e. ap some e)
strip_prefix_iff (a ∷ p) [] t = (λ e. absurd (cc), λ e. absurd (cc))
strip_prefix_iff (a ∷ p) (b ∷ s) t = ground (arith, ==_iff a b, strip_prefix_iff p s t)

-- A text ends with `t` exactly when it is some text followed by `t`.
pub ends_with_iff : (s t : Text) → (ends_with s t ≡ true) ↔ ((p : Text) × (s ≡ p ++ t))
unfolding ends_with
ends_with_iff s t = (
  λ h. (
    take (length s - length t) s,
    sym (take-append-drop (length s - length t) s)
        ∙ ap (λ u. take (length s - length t) s ++ u) ((text_beq_iff _ t).0 (ground arith)),
  ),
  λ (p, e).
      let n : length s ≡ length p + length t = ap length e ∙ length-append p t in
      let d : drop (length s - length t) s ≡ t = ap₂ drop (omega arith) e ∙ drop-append p t in
      ground (arith, (text_beq_iff _ t).1 d),
)
