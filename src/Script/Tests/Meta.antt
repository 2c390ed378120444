-- ===== src/Script/Tests/Meta.antt =====
-- The header of a concrete script.
use langhuan.Prelude.{◌≡◌, refl, none, some, List, [], ◌∷◌, ◌++◌, Text, text_beq, length}
use langhuan.Prelude.Bytes.{codes, before, strip_prefix, trim, lower}
use langhuan.Prelude.Decimal.{parse_u32}
use langhuan.Error.{ok}
use langhuan.Http.Url.{UrlParser}
use langhuan.Script.Header.Offsets.{script_of}
use langhuan.Script.Meta.{
  HeaderEntry, FeedMeta, entry_of, word, after_word, extracted, extract_header_lines, content_of,
  build_meta, set, set_field, normalize_all,
}
use langhuan.Script.Meta.Scan.{lf_lines, entries_from, extract_header_lines_lem}
use langhuan.Script.Meta.Builder.{IsDeclaredBy, build_meta_sound}

abbrev small_urls : UrlParser
small_urls = record {
  Url = Text;
  parse = strip_prefix (codes "http://");
  host_str = λ u. some (before b'/' u);
  join = λ base path. some (before b'/' base ++ path);
  to_text = λ u. codes "http://" ++ u;
}

abbrev small_start : Text
small_start = codes "// ==Feed=="

abbrev small_header : List Text
small_header = codes "// @id f" ∷ []

abbrev small_close : Text
small_close = codes "// ==/Feed=="

abbrev small_body : Text
small_body = codes "(() => ({}))()"

extract_header_lines_lem_example :
    extract_header_lines
      (script_of (lf_lines (small_start ∷ (small_header ++ small_close ∷ []))) ++ small_body)
    ≡ extracted
        (entries_from 1 small_header)
        (length (script_of (lf_lines (small_start ∷ (small_header ++ small_close ∷ [])))))
unfolding content_of
extract_header_lines_lem_example =
    extract_header_lines_lem [] small_start small_header small_close small_body
      (refl, (refl, (refl, tt))) tt refl ((λ e. absurd (cc)), tt) refl refl

-- A line that begins with U+3000 and ends with U+00A0, and an entry whose key ends at U+0085.
wide_content :
    content_of
      (227 ∷ 128 ∷ 128 ∷ (codes "//" ++ 226 ∷ 128 ∷ 137 ∷ (codes "@id f" ++ 194 ∷ 160 ∷ [])))
    ≡ codes "@id f"
unfolding content_of
wide_content = refl

wide_entry :
    entry_of 2 (codes "id" ++ 194 ∷ 133 ∷ 227 ∷ 128 ∷ 128 ∷ codes "f")
    ≡ record { key = codes "id"; value = codes "f"; line = 2 }
unfolding word after_word trim
wide_entry = refl

abbrev small_entries : List HeaderEntry
small_entries =
    record { key = codes "id"; value = codes "f"; line = 2 }
    ∷ record { key = codes "name"; value = codes "F"; line = 3 }
    ∷ record { key = codes "version"; value = codes "1.0.0"; line = 4 }
    ∷ record { key = codes "schema_version"; value = codes "6"; line = 5 }
    ∷ record { key = codes "base_url"; value = codes "http://b.c/"; line = 6 }
    ∷ record { key = codes "access_domain"; value = codes "*.B.c"; line = 7 }
    ∷ []

abbrev small_meta : FeedMeta
small_meta = record {
  id = codes "f";
  name = codes "F";
  version = codes "1.0.0";
  author = none;
  description = none;
  base_url = codes "http://b.c/";
  access_domains = codes "*.b.c" ∷ [];
  schema_version = 6;
}

small_built : build_meta small_urls small_entries ≡ ok small_meta
unfolding build_meta set set_field normalize_all text_beq strip_prefix parse_u32 trim before lower
small_built = refl

build_meta_sound_example : IsDeclaredBy small_urls small_entries small_meta
build_meta_sound_example = build_meta_sound small_urls small_entries small_meta small_built
