-- ===== src/Feed/Streams/Unique.antt =====
-- native/langhuan/src/script/js/feed.rs: `unique_search_stream` keeps the first of each identity.
use langhuan.Prelude.{
  ◌≡◌, refl, sym, ap, ◌∙◌, inl, inr, true, List, [], ◌∷◌, ◌++◌, map, Text, text_eq, same, same_iff,
  contains, arith, Bool-cases, if◌then◌else◌,
}
use langhuan.Error.{Error, Result, ok, err}
use langhuan.Model.{SearchResult}
use langhuan.Feed.Streams.{unique_from, unique_search_stream}

-- The results whose identity is another.
unfoldable without : Text → List SearchResult → List SearchResult
without id [] = []
without id (item ∷ items) =
    let rest = without id items in if same item.id id then rest else item ∷ rest

-- The first result of each identity, in order.
unfoldable pub firsts : List SearchResult → List SearchResult
unfolding without
firsts [] = []
firsts (item ∷ items) = item ∷ without item.id (firsts items)

unfoldable without_all : List Text → List SearchResult → List SearchResult
unfolding without
without_all [] items = items
without_all (id ∷ ids) items = without id (without_all ids items)

without-without :
    (a b : Text) (items : List SearchResult)
    → without a (without b items) ≡ without b (without a items)
unfolding without
without-without a b [] = refl
without-without a b (item ∷ items) = ground (arith, without-without a b items)

without-without_all :
    (a : Text) (ids : List Text) (items : List SearchResult)
    → without_all ids (without a items) ≡ without a (without_all ids items)
unfolding without_all
without-without_all a [] items = refl
without-without_all a (id ∷ ids) items =
    ap (without id) (without-without_all a ids items) ∙ without-without id a (without_all ids items)

without_idem :
    (a : Text) (items : List SearchResult) → without a (without a items) ≡ without a items
unfolding without
without_idem a [] = refl
without_idem a (item ∷ items) = ground (arith, without_idem a items)

-- A result whose identity has been seen is left out, and any other is kept.
without_all-cons :
    (ids : List Text) (item : SearchResult) (items : List SearchResult)
    → without_all ids (item ∷ items)
      ≡ (if contains ids item.id then without_all ids items else item ∷ without_all ids items)
unfolding without_all without contains
without_all-cons [] item items = refl
without_all-cons (id ∷ ids) item items = elim (Bool-cases (contains ids item.id)) [
  | inl old ↦ rw (without_all-cons ids item items, old) (ground arith)
  | inr new ↦
      rw (without_all-cons ids item items, new)
        (ground (arith, same_iff item.id id, same_iff id item.id))
]

without_all-nil : (ids : List Text) → without_all ids [] ≡ []
unfolding without_all without
without_all-nil [] = refl
without_all-nil (id ∷ ids) = rw (without_all-nil ids) refl

absorbed :
    (ids : List Text) (a : Text) (items : List SearchResult)
    → contains ids a ≡ true
    → without_all ids (without a items) ≡ without_all ids items
unfolding without_all contains
absorbed [] a items h = absurd (cc)
absorbed (id ∷ ids) a items h = elim (Bool-cases (same id a)) [
  | inl hit ↦
      let e : id ≡ a = (same_iff id a).0 hit in
      rw e
        (ap (without a) (without-without_all a ids items) ∙ without_idem a (without_all ids items))
  | inr miss ↦ ap (without id) (absorbed ids a items (ground arith))
]

-- The end of a source that breaks off with an error, or not.
pub data Tail : Type 0 where
  closed : Tail
  broken : Error → List (Result SearchResult) → Tail

abbrev pub source_tail : Tail → List (Result SearchResult)
source_tail closed = []
source_tail (broken e rest) = err e ∷ rest

abbrev pub stream_tail : Tail → List (Result SearchResult)
stream_tail closed = []
stream_tail (broken e rest) = err e ∷ []

unique_from-firsts :
    (seen : List Text) (items : List SearchResult) (tail : Tail)
    → unique_from seen (map ok items ++ source_tail tail)
      ≡ map ok (without_all seen (firsts items)) ++ stream_tail tail
unfolding unique_from firsts
unique_from-firsts seen [] closed = rw (without_all-nil seen) refl
unique_from-firsts seen [] (broken e rest) = rw (without_all-nil seen) refl
unique_from-firsts seen (item ∷ items) tail = elim (Bool-cases (contains seen item.id)) [
  | inl old ↦
      rw (without_all-cons seen item (without item.id (firsts items)), old)
        (unique_from-firsts seen items tail
          ∙ ap (λ t. map ok t ++ stream_tail tail) (sym (absorbed seen item.id (firsts items) old)))
  | inr new ↦
      rw (without_all-cons seen item (without item.id (firsts items)), new)
        (ap (λ t. ok item ∷ t)
          (unique_from-firsts (item.id ∷ seen) items tail
            ∙ unfold without_all in
              ap (λ t. map ok t ++ stream_tail tail)
                (sym (without-without_all item.id seen (firsts items)))))
]

-- Whatever the pages of a search repeat, its results are the first of each identity, in order, and
-- an error of a page ends them.
pub unique_search_stream-firsts :
    (items : List SearchResult) (tail : Tail)
    → unique_search_stream (map ok items ++ source_tail tail)
      ≡ map ok (firsts items) ++ stream_tail tail
unfolding unique_search_stream without_all
unique_search_stream-firsts items tail = unique_from-firsts [] items tail
