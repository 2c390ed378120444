-- ===== src/Transform/Builtin.antt =====
-- native/langhuan/src/transform: chains of the transforms that the crate itself provides.
use langhuan.Prelude.{
  ℕ, ◌≡◌, refl, ◌∙◌, Bool, true, false, Option, none, some, List, [], ◌∷◌, ◌++◌, Text, length, map,
  Bool-cases, inl, inr,
}
use langhuan.Model.{
  ParagraphId, Paragraph, title, text, image, paragraph_id, comment_count, paragraph_id-set_id,
  comment_count-set_id,
}
use langhuan.Transform.Output.{new}
use langhuan.Transform.Chain.{Transform, child_id, relabel, stage, run_stages, apply}
use langhuan.Transform.Chain.Relabel.{spread, stage-eq-spread}
use langhuan.Transform.DedupTitle.{dedup_title, dedup_apply}
use langhuan.Transform.TextIndent.{text_indent, indent_apply}
use langhuan.Transform.Rewrite.{
  RegexEngine, RegexTransform, regex_transform, regex_apply, rewrite, is_selected, text_of,
  Conversion, opencc_apply,
}

module _ (engine : RegexEngine) (opencc : Conversion → Text → Text) where
  -- The transforms of the crate, each with its parameters.
  pub data Rule : Type 0 where
    dedup : Bool → Rule
    indent : ℕ → Rule
    regex : RegexTransform engine → Rule
    chinese : Option Conversion → Rule

  unfoldable pub transform_of : Rule → Transform
  transform_of (dedup seen) = dedup_title seen
  transform_of (indent spaces) = text_indent spaces
  transform_of (regex r) = regex_transform engine r
  transform_of (chinese mode) = record {
    State = Unit {0};
    current = tt;
    init = λ _ s. s;
    apply = λ s p. (s, opencc_apply opencc mode p);
  }

  -- At most one paragraph, with the id and the comment count of `p`.
  abbrev pub Keeps : Paragraph → List Paragraph → Type 0
  Keeps p [] = Unit
  Keeps p (q ∷ []) = (paragraph_id q ≡ paragraph_id p) × (comment_count q ≡ comment_count p)
  Keeps p (q ∷ r ∷ rest) = ⊥

  rewrite-Keeps :
      (pattern : engine.Regex) (replacement : Option Text) (p : Paragraph)
      → Keeps p (rewrite engine pattern replacement p)
  unfolding rewrite paragraph_id comment_count
  rewrite-Keeps pattern (some t) (title _ _ _) = (refl, refl)
  rewrite-Keeps pattern (some t) (text _ _ _) = (refl, refl)
  rewrite-Keeps pattern (some t) (image _ _ _ _) = (refl, refl)
  rewrite-Keeps pattern none p = elim (Bool-cases (engine.is_match pattern (text_of engine p))) [
    | inl hit ↦ rw hit tt
    | inr miss ↦ rw miss (refl, refl)
  ]

  regex-Keeps : (r : RegexTransform engine) (p : Paragraph) → Keeps p (regex_apply engine r p)
  unfolding regex_apply paragraph_id comment_count
  regex-Keeps r p = elim (Bool-cases (is_selected engine r.include_titles p)) [
    | inr other ↦ rw other (refl, refl)
    | inl selected ↦ rw selected (rewrite-Keeps r.regex r.replacement p)
  ]

  transform-Keeps :
      (r : Rule) (s : (transform_of r).State) (p : Paragraph)
      → Keeps p ((transform_of r).apply s p).1
  unfolding transform_of dedup_apply indent_apply opencc_apply paragraph_id comment_count
  transform-Keeps (dedup seen) true (title _ _ _) = tt
  transform-Keeps (dedup seen) false (title _ _ _) = (refl, refl)
  transform-Keeps (dedup seen) s (text _ _ _) = (refl, refl)
  transform-Keeps (dedup seen) s (image _ _ _ _) = (refl, refl)
  transform-Keeps (indent n) s (title _ _ _) = (refl, refl)
  transform-Keeps (indent n) s (text _ _ _) = (refl, refl)
  transform-Keeps (indent n) s (image _ _ _ _) = (refl, refl)
  transform-Keeps (regex r) s p = regex-Keeps r p
  transform-Keeps (chinese none) s p = (refl, refl)
  transform-Keeps (chinese (some m)) s (title _ _ _) = (refl, refl)
  transform-Keeps (chinese (some m)) s (text _ _ _) = (refl, refl)
  transform-Keeps (chinese (some m)) s (image _ _ _ _) = (refl, refl)

  relabel-Keeps :
      (p q : Paragraph) (pushes : List Paragraph)
      → Keeps p (q ∷ [])
      → Keeps q pushes
      → Keeps p (relabel (paragraph_id q) (length pushes) 0 pushes ++ [])
  unfolding relabel child_id
  relabel-Keeps p q [] h k = tt
  relabel-Keeps p q (c ∷ []) (id, n) (_, m) =
      (paragraph_id-set_id (paragraph_id q) c ∙ id, comment_count-set_id (paragraph_id q) c ∙ m ∙ n)
  relabel-Keeps p q (c ∷ d ∷ cs) h k = elim k [ ]

  stage-Keeps :
      (key : ParagraphId → Text) (r : Rule) (p : Paragraph) (ps : List Paragraph)
      → Keeps p ps
      → Keeps p (stage key (transform_of r) (transform_of r).current ps new).1.buf
  unfolding spread
  stage-Keeps key r p [] h = rw (stage-eq-spread key (transform_of r) _ [] new).0 tt
  stage-Keeps key r p (q ∷ []) h =
      rw (stage-eq-spread key (transform_of r) _ (q ∷ []) new).0
        (relabel-Keeps p q _ h (transform-Keeps r _ q))
  stage-Keeps key r p (q ∷ q' ∷ qs) h = elim h [ ]

  stages-Keeps :
      (key : ParagraphId → Text) (rules : List Rule) (p : Paragraph) (ps : List Paragraph)
      → Keeps p ps
      → Keeps p (run_stages key (map transform_of rules) ps).1
  unfolding run_stages
  stages-Keeps key [] p ps h = h
  stages-Keeps key (r ∷ rules) p ps h = stages-Keeps key rules p _ (stage-Keeps key r p ps h)

  -- A chain of the crate's own transforms, in any order, makes of a paragraph at most one
  -- paragraph, which has its id and its comment count.
  pub apply-Keeps :
      (key : ParagraphId → Text) (rules : List Rule) (p : Paragraph)
      → Keeps p (apply key (map transform_of rules) p).1
  unfolding apply
  apply-Keeps key rules p = stages-Keeps key rules p (p ∷ []) (refl, refl)
