-- ===== src/Transform/DedupTitle.antt =====
-- native/langhuan/src/transform/dedup_title.rs
use langhuan.Prelude.{◌≡◌, refl, ap, Bool, true, false, not, List, [], ◌∷◌, Text, if◌then◌else◌}
use langhuan.Model.{Paragraph, title, text, image}
use langhuan.Transform.Chain.{Transform}
use langhuan.Transform.Chain.Pushes.{pushes_of}

-- `matches!(paragraph, Paragraph::Title { .. })`
abbrev pub is_title : Paragraph → Bool
is_title (title _ _ _) = true
is_title (text _ _ _) = false
is_title (image _ _ _ _) = false

-- `DedupTitleTransform::apply`
unfoldable pub dedup_apply : Bool → Paragraph → Bool × List Paragraph
dedup_apply seen p =
    if is_title p then if not seen then (true, p ∷ []) else (seen, []) else (seen, p ∷ [])

-- `DedupTitleTransform`: its state is `seen`.
abbrev pub dedup_title : Bool → Transform
dedup_title seen = record { State = Bool; current = seen; init = λ _ _. false; apply = dedup_apply }

-- The chapter without the titles that follow the first one.
abbrev pub titleless : List Paragraph → List Paragraph
titleless [] = []
titleless (p ∷ ps) = if is_title p then titleless ps else p ∷ titleless ps

abbrev pub keep_first_title : List Paragraph → List Paragraph
keep_first_title [] = []
keep_first_title (p ∷ ps) = if is_title p then p ∷ titleless ps else p ∷ keep_first_title ps

titles_dropped : (ps : List Paragraph) → pushes_of (dedup_title true) true ps ≡ titleless ps
unfolding dedup_apply pushes_of
titles_dropped [] = refl
titles_dropped (title _ _ _ ∷ ps) = titles_dropped ps
titles_dropped (text i t n ∷ ps) = ap (λ r. text i t n ∷ r) (titles_dropped ps)
titles_dropped (image i u a n ∷ ps) = ap (λ r. image i u a n ∷ r) (titles_dropped ps)

first_title_kept :
    (ps : List Paragraph) → pushes_of (dedup_title false) false ps ≡ keep_first_title ps
unfolding dedup_apply pushes_of
first_title_kept [] = refl
first_title_kept (title i t n ∷ ps) = ap (λ r. title i t n ∷ r) (titles_dropped ps)
first_title_kept (text i t n ∷ ps) = ap (λ r. text i t n ∷ r) (first_title_kept ps)
first_title_kept (image i u a n ∷ ps) = ap (λ r. image i u a n ∷ r) (first_title_kept ps)

-- From the state that `init` sets, whatever it was before, the transform pushes the chapter's
-- paragraphs in order, of its titles only the first.
pub dedup_chapter :
    (before : Bool) (chapter_id : Text) (ps : List Paragraph)
    → pushes_of (dedup_title before) ((dedup_title before).init chapter_id before) ps
      ≡ keep_first_title ps
unfolding pushes_of
dedup_chapter before chapter_id ps = first_title_kept ps
