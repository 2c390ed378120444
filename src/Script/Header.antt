-- ===== src/Script/Header.antt =====
-- native/langhuan/src/script/meta.rs: the lines of a script and where each begins.
pub mod Offsets
use langhuan.Prelude.{
  ℕ, suc, ◌+◌, Bool, true, false, ◌&&◌, List, [], ◌∷◌, Text, ◌==◌, if◌then◌else◌, length, take,
}

abbrev pub line_feed : ℕ
line_feed = 10

abbrev pub carriage_return : ℕ
carriage_return = 13

abbrev pub begins_with_line_feed : Text → Bool
begins_with_line_feed [] = false
begins_with_line_feed (c ∷ s) = c == line_feed

-- One more character of the first line.
abbrev pub grown : ℕ → List Text → List Text
grown c [] = (c ∷ []) ∷ []
grown c (line ∷ rest) = (c ∷ line) ∷ rest

-- `str::lines`, which ends a line at a line feed and takes a carriage return before it away.
unfoldable pub lines : Text → List Text
lines [] = []
lines (c ∷ s) =
    let rest = lines s in
    if c == line_feed
    then [] ∷ rest
    else if c == carriage_return && begins_with_line_feed s
    then rest
    else grown c rest

-- `map(|l| l.len() + 1).sum()`
unfoldable pub total_length : List Text → ℕ
total_length [] = 0
total_length (line ∷ rest) = length line + 1 + total_length rest

-- `script_offset_of_line`
unfoldable pub script_offset_of_line : Text → ℕ → ℕ
script_offset_of_line s n = total_length (take n (lines s))
