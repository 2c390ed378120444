-- ===== src/Script/Header/Offsets.antt =====
-- native/langhuan/src/script/meta.rs: how far `script_offset_of_line` is from where a line begins.
use langhuan.Prelude.{
  ℕ, suc, ◌+◌, ◌≡◌, refl, Bool, true, false, not, ◌||◌, List, [], ◌∷◌, ◌++◌, Text, ◌==◌,
  if◌then◌else◌, length, length-append, take, all, map, arith, ap, ◌∙◌, append_assoc,
}
use langhuan.Script.Header.{line_feed, carriage_return, lines, total_length, script_offset_of_line}

-- A line with its ending, which has a carriage return or not.
pub record Line : Type 0 where
  pub content : Text
  pub is_crlf : Bool

abbrev pub ending : Bool → Text
ending true = carriage_return ∷ line_feed ∷ []
ending false = line_feed ∷ []

-- The text of some lines.
abbrev pub script_of : List Line → Text
script_of [] = []
script_of (line ∷ rest) = line.content ++ (ending line.is_crlf ++ script_of rest)

-- How many of some lines end in a carriage return and a line feed.
abbrev pub crlf_count : List Line → ℕ
crlf_count [] = 0
crlf_count (line ∷ rest) = if line.is_crlf then suc (crlf_count rest) else crlf_count rest

abbrev pub is_plain : ℕ → Bool
is_plain c = not (c == line_feed || c == carriage_return)

abbrev pub ArePlain : List Line → Type 0
ArePlain [] = Unit
ArePlain (line ∷ rest) = (all is_plain line.content ≡ true) × ArePlain rest

lines-ending : (crlf : Bool) (s : Text) → lines (ending crlf ++ s) ≡ [] ∷ lines s
unfolding lines
lines-ending true s = refl
lines-ending false s = refl

lines-line :
    (content : Text) (crlf : Bool) (s : Text)
    → all is_plain content ≡ true
    → lines (content ++ (ending crlf ++ s)) ≡ content ∷ lines s
unfolding lines
lines-line [] crlf s h = lines-ending crlf s
lines-line (c ∷ content) crlf s h =
    let rest = lines-line content crlf s (ground arith) in
    let not_lf : (c == line_feed) ≡ false = ground arith in
    let not_cr : (c == carriage_return) ≡ false = ground arith in
    rw (lines, not_lf, not_cr, rest) refl

pub lines-script_of :
    (ls : List Line) (s : Text)
    → ArePlain ls
    → lines (script_of ls ++ s) ≡ map (λ line. line.content) ls ++ lines s
lines-script_of [] s h = refl
lines-script_of (line ∷ ls) s (h, hs) =
    ap lines (
      append_assoc line.content (ending line.is_crlf ++ script_of ls) s
      ∙ ap (λ t. line.content ++ t) (append_assoc (ending line.is_crlf) (script_of ls) s))
    ∙ lines-line line.content line.is_crlf (script_of ls ++ s) h
    ∙ ap (λ t. line.content ∷ t) (lines-script_of ls s hs)

total_length-script_of :
    (ls : List Line)
    → total_length (map (λ line. line.content) ls) + crlf_count ls ≡ length (script_of ls)
unfolding total_length
total_length-script_of [] = omega arith
total_length-script_of (line ∷ ls) = ground (
  arith,
  total_length-script_of ls,
  length-append line.content (ending line.is_crlf ++ script_of ls),
  length-append (ending line.is_crlf) (script_of ls),
)

take-contents :
    (ls : List Line) (s : List Text)
    → take (length ls) (map (λ line. line.content) ls ++ s) ≡ map (λ line. line.content) ls
take-contents [] s = refl
take-contents (line ∷ ls) s = ap (λ t. line.content ∷ t) (take-contents ls s)

-- For lines without other line feeds and carriage returns than those that end them, the offset that
-- is computed for the line after them is short of where that line begins by the number of the lines
-- that end in a carriage return and a line feed.
pub script_offset_of_line_lem :
    (ls : List Line) (rest : Text)
    → ArePlain ls
    → script_offset_of_line (script_of ls ++ rest) (length ls) + crlf_count ls
      ≡ length (script_of ls)
unfolding script_offset_of_line
script_offset_of_line_lem ls rest h =
    rw (lines-script_of ls rest h, take-contents ls (lines rest)) (total_length-script_of ls)
