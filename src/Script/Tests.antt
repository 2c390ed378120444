-- ===== src/Script/Tests.antt =====
-- The offsets of the lines of a concrete script.
mod Meta
mod Libraries
use langhuan.Prelude.{◌+◌, ◌≡◌, refl, true, false, List, [], ◌∷◌, ◌++◌, length}
use langhuan.Prelude.Bytes.{codes}
use langhuan.Script.Header.{script_offset_of_line}
use langhuan.Script.Header.Offsets.{
  Line, script_of, crlf_count, ArePlain, script_offset_of_line_lem,
}

abbrev small_lines : List Line
small_lines =
    record { content = codes "// ==Feed=="; is_crlf = true }
    ∷ record { content = codes "// @id f"; is_crlf = true }
    ∷ record { content = codes "// ==/Feed=="; is_crlf = false }
    ∷ []

small_lines-ArePlain : ArePlain small_lines
small_lines-ArePlain = (refl, (refl, (refl, tt)))

script_offset_of_line_lem_example :
    script_offset_of_line (script_of small_lines ++ codes "(() => ({}))()") (length small_lines)
      + crlf_count small_lines
    ≡ length (script_of small_lines)
script_offset_of_line_lem_example =
    script_offset_of_line_lem small_lines (codes "(() => ({}))()") small_lines-ArePlain
