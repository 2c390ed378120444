-- ===== src/Feed/Tests/Streams.antt =====
-- The streams of a feed over concrete pages.
use langhuan.Prelude.{
  ◌≡◌, none, some, List, [], ◌∷◌, ◌++◌, map, Text, text_eq, length, AreNew, seen_after,
}
use langhuan.Prelude.Bytes.{codes}
use langhuan.Error.{Result, ok}
use langhuan.Model.{
  SearchResult, RawParagraph, raw_text, Paragraph, ParagraphId, OriginalParagraphId, source,
  generated, paragraph_id,
}
use langhuan.Feed.Streams.{unique_search_stream, paragraph_stream, indexed_from}
use langhuan.Feed.Streams.Dedup.{numbered, Ending, paragraph_stream-IsDeduped}
use langhuan.Feed.Streams.Unique.{
  firsts, closed, source_tail, stream_tail, unique_search_stream-firsts,
}

abbrev found : Text → SearchResult
found id = record { id = id; title = id; author = []; cover_url = none; description = none }

abbrev small_results : List SearchResult
small_results = found (codes "a") ∷ found (codes "b") ∷ found (codes "a") ∷ []

unique_search_stream-firsts_example :
    unique_search_stream (map ok small_results ++ source_tail closed)
    ≡ map ok (firsts small_results) ++ stream_tail closed
unique_search_stream-firsts_example = unique_search_stream-firsts small_results closed

-- The name of a paragraph that its source names.
abbrev small_origin : OriginalParagraphId → Text
small_origin (source s) = s
small_origin (generated n) = n ∷ []

abbrev small_name : ParagraphId → Text
small_name id = small_origin id.original

abbrev small_raws : List (Result RawParagraph)
small_raws =
    ok (raw_text (some (codes "p")) (codes "one") none)
    ∷ ok (raw_text (some (codes "p")) (codes "two") none)
    ∷ []

paragraph_stream-IsDeduped_example :
    (raws : List RawParagraph) × (more : List (Result RawParagraph)) × (end : List
      (Result Paragraph))
    × (small_raws ≡ map ok raws ++ more)
    × (paragraph_stream small_name (codes "f") small_raws ≡ map ok (numbered 0 raws) ++ end)
    × AreNew [] (map (λ p. small_name (paragraph_id p)) (numbered 0 raws))
    × Ending
        (codes "f")
        (codes "paragraph")
        (λ p. small_name (paragraph_id p))
        (seen_after [] (map (λ p. small_name (paragraph_id p)) (numbered 0 raws)))
        (indexed_from (length raws) more)
        end
paragraph_stream-IsDeduped_example = paragraph_stream-IsDeduped small_name (codes "f") small_raws
