-- ===== src/Feed/Streams/Dedup.antt =====
-- native/langhuan/src/script/js/feed.rs: which items `dedup_stream` lets through.
use langhuan.Prelude.{
  ℕ, suc, ◌+◌, ◌≡◌, refl, sym, ap, ◌∙◌, inl, inr, true, List, [], ◌∷◌, ◌++◌, map, Text, text_eq,
  contains, seen_after, AreNew, arith, Bool-cases, length,
}
use langhuan.Prelude.Bytes.{codes}
use langhuan.Error.{Error, Result, ok, err, duplicate_id}
use langhuan.Model.{ParagraphId, Paragraph, paragraph_id, RawParagraph, into_paragraph}
use langhuan.Feed.Streams.{dedup_from, dedup_stream, indexed_from, paragraph_stream}

module _ {A : Type 0} (feed_id kind : Text) (get_id : A → Text) where
  -- How a stream ends where its source goes on with a rest: with the source, with the source's
  -- error, or with an error for an item whose id has been seen.
  pub data Ending (seen : List Text) : List (Result A) → List (Result A) → Type 0 where
    at_end : Ending seen [] []
    at_error : (e : Error) (rest : List (Result A)) → Ending seen (err e ∷ rest) (err e ∷ [])
    at_repeat :
        (item : A) (rest : List (Result A))
        → contains seen (get_id item) ≡ true
        → Ending seen (ok item ∷ rest) (err (duplicate_id feed_id kind (get_id item)) ∷ [])

  -- The source is some items with new ids and a rest, and the stream is those items and an end.
  abbrev pub IsDeduped : List Text → List (Result A) → List (Result A) → Type 0
  IsDeduped seen source stream =
      (items : List A) × (rest : List (Result A)) × (end : List (Result A)) × (source
        ≡ map ok items ++ rest)
      × (stream ≡ map ok items ++ end)
      × AreNew seen (map get_id items)
      × Ending (seen_after seen (map get_id items)) rest end

  dedup_from-IsDeduped :
      (seen : List Text) (source : List (Result A))
      → IsDeduped seen source (dedup_from feed_id kind get_id seen source)
  unfolding dedup_from
  dedup_from-IsDeduped seen [] = ([], [], [], refl, refl, tt, at_end)
  dedup_from-IsDeduped seen (err e ∷ rest) =
      ([], err e ∷ rest, err e ∷ [], refl, refl, tt, at_error e rest)
  dedup_from-IsDeduped seen (ok item ∷ source) = elim (Bool-cases (contains seen (get_id item))) [
    | inl old ↦ (
      [],
      ok item ∷ source,
      err (duplicate_id feed_id kind (get_id item)) ∷ [],
      refl,
      rw old refl,
      tt,
      at_repeat item source old,
    )
    | inr new ↦
        let (items, rest, end, p, q, distinct, ends) =
          dedup_from-IsDeduped (get_id item ∷ seen) source in
        (
          item ∷ items,
          rest,
          end,
          ap (λ t. ok item ∷ t) p,
          rw new (ap (λ t. ok item ∷ t) q),
          (new, distinct),
          ends,
        )
  ]

  pub dedup_stream-IsDeduped :
      (source : List (Result A)) → IsDeduped [] source (dedup_stream feed_id kind get_id source)
  unfolding dedup_stream
  dedup_stream-IsDeduped source = dedup_from-IsDeduped [] source

-- The paragraphs at positions from one on.
abbrev pub numbered : ℕ → List RawParagraph → List Paragraph
numbered index [] = []
numbered index (raw ∷ rest) = into_paragraph index raw ∷ numbered (index + 1) rest

-- The paragraphs of a source that is some items and a rest.
split_ok :
    (index : ℕ) (source : List (Result RawParagraph)) (items : List Paragraph)
    (rest : List (Result Paragraph))
    → indexed_from index source ≡ map ok items ++ rest
    → (raws : List RawParagraph) × (more : List (Result RawParagraph)) × (source
        ≡ map ok raws ++ more)
      × (items ≡ numbered index raws)
      × (rest ≡ indexed_from (index + length raws) more)
unfolding indexed_from
split_ok index source [] rest e =
    let sum : index ≡ index + 0 = omega arith in
    ([], source, refl, refl, sym e ∙ ap (λ i. indexed_from i source) sum)
split_ok index [] (p ∷ items) rest e = absurd (cc)
split_ok index (err x ∷ source) (p ∷ items) rest e = absurd (ground arith)
split_ok index (ok raw ∷ source) (p ∷ items) rest e =
    let tail : indexed_from (index + 1) source ≡ map ok items ++ rest = ground arith in
    let head : p ≡ into_paragraph index raw = ground arith in
    let (raws, more, q, n, r) = split_ok (index + 1) source items rest tail in
    let sum : index + 1 + length raws ≡ index + suc (length raws) = omega arith in
    (
      raw ∷ raws,
      more,
      ap (λ t. ok raw ∷ t) q,
      rw (head, n) refl,
      r ∙ ap (λ i. indexed_from i more) sum,
    )

-- The paragraphs of a chapter are those of the script's pages from the first on, each with its
-- position for an id it does not have, no two with the same id, up to the first error or the first
-- repeated id, which is the error that ends the stream.
pub paragraph_stream-IsDeduped :
    (to_string : ParagraphId → Text) (feed_id : Text) (source : List (Result RawParagraph))
    → (raws : List RawParagraph) × (more : List (Result RawParagraph)) × (end : List
        (Result Paragraph))
      × (source ≡ map ok raws ++ more)
      × (paragraph_stream to_string feed_id source ≡ map ok (numbered 0 raws) ++ end)
      × AreNew [] (map (λ p. to_string (paragraph_id p)) (numbered 0 raws))
      × Ending feed_id
          (codes "paragraph")
          (λ p. to_string (paragraph_id p))
          (seen_after [] (map (λ p. to_string (paragraph_id p)) (numbered 0 raws)))
          (indexed_from (length raws) more)
          end
unfolding paragraph_stream
paragraph_stream-IsDeduped to_string feed_id source =
    let (items, rest, end, p, q, distinct, ends) =
      dedup_stream-IsDeduped feed_id (codes "paragraph") (λ p. to_string (paragraph_id p))
        (indexed_from 0 source) in
    let (raws, more, whole, same_items, r) = split_ok 0 source items rest p in
    let sum : 0 + length raws ≡ length raws = omega arith in
    let remains = r ∙ ap (λ i. indexed_from i more) sum in
    (
      raws,
      more,
      end,
      whole,
      rw (← same_items) q,
      rw (← same_items) distinct,
      rw (← same_items, ← remains) ends,
    )
