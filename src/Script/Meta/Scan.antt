-- ===== src/Script/Meta/Scan.antt =====
-- native/langhuan/src/script/meta.rs: what `extract_header_lines` finds in a script.
use langhuan.Prelude.{
  ℕ, suc, ◌+◌, ◌≡◌, refl, sym, ap, ap₂, ◌∙◌, true, false, List, [], ◌∷◌, ◌++◌, Text, text_eq, same,
  same_iff, same-eq_false, arith, length, length-append, append_assoc, map, get_elem?,
  get_elem?-append, ◌≢◌, some, leb, subst,
}
use langhuan.Prelude.Bytes.{codes, strip_prefix}
use langhuan.Script.Header.{line_feed, lines, script_offset_of_line}
use langhuan.Script.Header.Offsets.{
  Line, script_of, crlf_count, ArePlain, lines-script_of, script_offset_of_line_lem,
}
use langhuan.Script.Meta.{
  header_start, header_end, HeaderEntry, content_of, entries_of, is_continuation, is_char_boundary,
  extracted, close_header, scan_header, scan_lines, extract_header_lines,
}

-- Some lines that end in line feeds.
abbrev pub lf_lines : List Text → List Line
lf_lines [] = []
lf_lines (content ∷ rest) = record { content = content; is_crlf = false } ∷ lf_lines rest

-- The entries of header lines, of which the first is at an index.
abbrev pub entries_from : ℕ → List Text → List HeaderEntry
entries_from line_idx [] = []
entries_from line_idx (line ∷ rest) =
    entries_of (line_idx + 1) (strip_prefix (codes "@") (content_of line))
    ++ entries_from (suc line_idx) rest

-- No line is a tag.
abbrev pub HasNo : Text → List Text → Type 0
HasNo tag [] = Unit
HasNo tag (line ∷ rest) = (content_of line ≢ tag) × HasNo tag rest

scan_header-append :
    (script : Text) (line_idx : ℕ) (header : List Text) (close : Text) (rest : List Text)
    (offset : ℕ)
    → HasNo header_end header
    → content_of close ≡ header_end
    → close_header script (line_idx + length header) close ≡ extracted [] offset
    → scan_header script line_idx (header ++ close ∷ rest)
      ≡ extracted (entries_from line_idx header) offset
unfolding scan_header
scan_header-append script line_idx [] close rest offset h e c =
    let hit : same (content_of close) header_end ≡ true =
      (same_iff (content_of close) header_end).1 e in
    let sum : line_idx + 0 ≡ line_idx = omega arith in
    rw hit (ap (λ i. close_header script i close) (sym sum) ∙ c)
scan_header-append script line_idx (line ∷ header) close rest offset (n, h) e c =
    let miss : same (content_of line) header_end ≡ false =
      same-eq_false (content_of line) header_end n in
    let sum : line_idx + suc (length header) ≡ suc line_idx + length header = omega arith in
    let tail =
      scan_header-append script (suc line_idx) header close rest offset h e
        (ap (λ i. close_header script i close) (sym sum) ∙ c) in
    rw (miss, tail) refl

scan_lines-append :
    (script : Text) (line_idx : ℕ) (before : List Text) (start : Text) (rest : List Text)
    → HasNo header_start before
    → content_of start ≡ header_start
    → scan_lines script line_idx (before ++ start ∷ rest)
      ≡ scan_header script (suc (line_idx + length before)) rest
unfolding scan_lines
scan_lines-append script line_idx [] start rest h e =
    let hit : same (content_of start) header_start ≡ true =
      (same_iff (content_of start) header_start).1 e in
    let sum : line_idx + 0 ≡ line_idx = omega arith in
    rw hit (ap (λ i. scan_header script (suc i) rest) (sym sum))
scan_lines-append script line_idx (line ∷ before) start rest (n, h) e =
    let miss : same (content_of line) header_start ≡ false =
      same-eq_false (content_of line) header_start n in
    let sum : suc line_idx + length before ≡ line_idx + suc (length before) = omega arith in
    rw miss (
      scan_lines-append script (suc line_idx) before start rest h e
      ∙ ap (λ i. scan_header script (suc i) rest) sum)

contents-lf_lines : (ls : List Text) → map (λ line. line.content) (lf_lines ls) ≡ ls
contents-lf_lines [] = refl
contents-lf_lines (line ∷ ls) = ap (λ t. line ∷ t) (contents-lf_lines ls)

crlf_count-lf_lines : (ls : List Text) → crlf_count (lf_lines ls) ≡ 0
crlf_count-lf_lines [] = refl
crlf_count-lf_lines (line ∷ ls) = crlf_count-lf_lines ls

length-lf_lines : (ls : List Text) → length (lf_lines ls) ≡ length ls
length-lf_lines [] = refl
length-lf_lines (line ∷ ls) = ap suc (length-lf_lines ls)

script_of-append :
    (ls more : List Text)
    → script_of (lf_lines (ls ++ more)) ≡ script_of (lf_lines ls) ++ script_of (lf_lines more)
script_of-append [] more = refl
script_of-append (line ∷ ls) more =
    ap (λ t. line ++ line_feed ∷ t) (script_of-append ls more)
    ∙ sym (append_assoc line (line_feed ∷ script_of (lf_lines ls)) (script_of (lf_lines more)))

ArePlain-append : (ls more : List Text) → ArePlain (lf_lines (ls ++ more)) → ArePlain (lf_lines ls)
ArePlain-append [] more h = tt
ArePlain-append (line ∷ ls) more (p, h) = (p, ArePlain-append ls more h)

-- A line does not begin inside a character, and has a byte.
abbrev pub BeginsCharacter : Text → Type 0
BeginsCharacter [] = ⊥
BeginsCharacter (c ∷ s) = is_continuation (some c) ≡ false

close_header_lem :
    (prefix : List Text) (close body : Text)
    → ArePlain (lf_lines prefix)
    → BeginsCharacter close
    → close_header
        (script_of (lf_lines prefix) ++ (close ++ line_feed ∷ body))
        (length prefix)
        close
      ≡ extracted [] (length (script_of (lf_lines prefix)) + length close + 1)
unfolding close_header is_char_boundary
close_header_lem prefix [] body plain b = absurd b
close_header_lem prefix (c ∷ close) body plain b =
    let script = script_of (lf_lines prefix) ++ ((c ∷ close) ++ line_feed ∷ body) in
    let here = length (script_of (lf_lines prefix)) in
    let offset : script_offset_of_line script (length prefix) ≡ here = omega (
      arith,
      script_offset_of_line_lem (lf_lines prefix) ((c ∷ close) ++ line_feed ∷ body) plain,
      crlf_count-lf_lines prefix,
      ap (λ n. script_offset_of_line script n) (length-lf_lines prefix),
    ) in
    let first : get_elem? script here ≡ some c =
      get_elem?-append (script_of (lf_lines prefix)) (close ++ line_feed ∷ body) c in
    let last : get_elem? script (here + suc (length close)) ≡ some line_feed =
      ap₂ get_elem?
        (sym (append_assoc (script_of (lf_lines prefix)) (c ∷ close) (line_feed ∷ body)))
        (sym (length-append (script_of (lf_lines prefix)) (c ∷ close)))
      ∙ get_elem?-append (script_of (lf_lines prefix) ++ (c ∷ close)) body line_feed in
    let inside : leb here (length script) ≡ true =
      ground
        (arith, length-append (script_of (lf_lines prefix)) ((c ∷ close) ++ line_feed ∷ body)) in
    rw (offset, first, b, inside, last) refl

-- For a script whose lines up to the closing tag end in line feeds, of which no line before the tag
-- that opens the header is one, and none in the header closes it, the entries are those of the lines
-- between the tags, in order and with their line numbers, and the body begins right after the line
-- of the closing tag.
pub extract_header_lines_lem :
    (before : List Text) (start : Text) (header : List Text) (close body : Text)
    → ArePlain (lf_lines (before ++ start ∷ (header ++ close ∷ [])))
    → HasNo header_start before
    → content_of start ≡ header_start
    → HasNo header_end header
    → content_of close ≡ header_end
    → BeginsCharacter close
    → extract_header_lines (script_of (lf_lines (before ++ start ∷ (header ++ close ∷ []))) ++ body)
      ≡ extracted
          (entries_from (suc (length before)) header)
          (length (script_of (lf_lines (before ++ start ∷ (header ++ close ∷ [])))))
unfolding extract_header_lines
extract_header_lines_lem before start header close body plain none_before opens none_inside closes
      b =
    let whole_lines = before ++ start ∷ (header ++ close ∷ []) in
    let prefix = before ++ start ∷ header in
    let script = script_of (lf_lines whole_lines) ++ body in
    let split : whole_lines ≡ prefix ++ close ∷ [] =
      sym (append_assoc before (start ∷ header) (close ∷ [])) in
    let pieces : script ≡ script_of (lf_lines prefix) ++ (close ++ line_feed ∷ body) =
      ap (λ t. script_of (lf_lines t) ++ body) split
      ∙ ap (λ t. t ++ body) (script_of-append prefix (close ∷ []))
      ∙ append_assoc (script_of (lf_lines prefix)) (close ++ line_feed ∷ []) body
      ∙ ap (λ t. script_of (lf_lines prefix) ++ t) (append_assoc close (line_feed ∷ []) body) in
    let plain_prefix =
      ArePlain-append prefix (close ∷ []) (subst (λ t. ArePlain (lf_lines t)) split plain) in
    let size : length (script_of (lf_lines prefix)) + length close + 1
        ≡ length (script_of (lf_lines whole_lines)) =
      omega (
        arith,
        ap (λ t. length (script_of (lf_lines t))) split,
        ap length (script_of-append prefix (close ∷ [])),
        length-append (script_of (lf_lines prefix)) (close ++ line_feed ∷ []),
        length-append close (line_feed ∷ []),
      ) in
    let index : length prefix ≡ suc (0 + length before) + length header =
      omega (arith, length-append before (start ∷ header)) in
    let closed : close_header script (suc (0 + length before) + length header) close
        ≡ extracted [] (length (script_of (lf_lines whole_lines))) =
      ap₂ (λ s i. close_header s i close) pieces (sym index)
      ∙ close_header_lem prefix close body plain_prefix b
      ∙ ap (extracted []) size in
    let read : lines script ≡ before ++ start ∷ (header ++ close ∷ lines body) =
      lines-script_of (lf_lines whole_lines) body plain
      ∙ ap (λ t. t ++ lines body) (contents-lf_lines whole_lines)
      ∙ append_assoc before (start ∷ (header ++ close ∷ [])) (lines body)
      ∙ ap (λ t. before ++ start ∷ t) (append_assoc header (close ∷ []) (lines body)) in
    let zero_sum : 0 + length before ≡ length before = omega arith in
    ap (scan_lines script 0) read
    ∙ scan_lines-append script 0 before start (header ++ close ∷ lines body) none_before opens
    ∙ scan_header-append script (suc (0 + length before)) header close (lines body)
        (length (script_of (lf_lines whole_lines))) none_inside closes closed
    ∙ ap (λ n. extracted (entries_from (suc n) header) (length (script_of (lf_lines whole_lines))))
        zero_sum
