-- ===== src/Transform/Rewrite.antt =====
-- native/langhuan/src/transform/regex.rs and opencc.rs: the transforms that rewrite text by a library.
use langhuan.Prelude.{
  ℕ, ◌*◌, ◌≡◌, Bool, true, false, ◌||◌, Option, none, some, List, [], ◌∷◌, Text, arith, ltb, length,
  if◌then◌else◌,
}
use langhuan.Model.{Paragraph, title, text, image, paragraph_id, comment_count}
use langhuan.Transform.Chain.{Transform}

-- The crate `regex`: `build` is a `RegexBuilder` with the size limit and the nesting limit.
pub record RegexEngine : Type 1 where
  pub Regex : Type 0
  pub build : Text → ℕ → ℕ → Option Regex
  pub replace_all : Regex → Text → Text → Text
  pub is_match : Regex → Text → Bool

abbrev pub max_pattern_bytes : ℕ
max_pattern_bytes = 4096

module _ (engine : RegexEngine) where
  open engine use {Regex, build, replace_all, is_match}

  -- `RegexTransform`
  pub record RegexTransform : Type 0 where
    pub regex : Regex
    pub replacement : Option Text
    pub include_titles : Bool

  abbrev too_long : Option Text → Bool
  too_long none = false
  too_long (some value) = ltb max_pattern_bytes (length value)

  -- `RegexTransform::new`; `none` is its error.
  unfoldable pub new_regex : Text → Option Text → Bool → Option RegexTransform
  new_regex pattern replacement include_titles =
      if ltb max_pattern_bytes (length pattern) || too_long replacement
      then none
      else elim (build pattern (1024 * 1024) 128) [
        | none ↦ none
        | some regex ↦
            some
              (record { regex = regex; replacement = replacement; include_titles = include_titles })
      ]

  -- The paragraphs that are rewritten, and those that are only passed on.
  abbrev pub is_selected : Bool → Paragraph → Bool
  is_selected titles (text _ _ _) = true
  is_selected titles (title _ _ _) = titles
  is_selected titles (image _ _ _ _) = false

  -- A rewrite of the text that stands in a paragraph.
  abbrev pub with_text : (Text → Text) → Paragraph → Paragraph
  with_text f (text id content n) = text id (f content) n
  with_text f (title id t n) = title id (f t) n
  with_text f (image id url alt n) = image id url alt n

  abbrev pub text_of : Paragraph → Text
  text_of (text id content n) = content
  text_of (title id t n) = t
  text_of (image id url alt n) = []

  -- The branch of `RegexTransform::apply` on a text that it may rewrite.
  unfoldable pub rewrite : Regex → Option Text → Paragraph → List Paragraph
  rewrite regex (some replacement) p = with_text (λ t. replace_all regex t replacement) p ∷ []
  rewrite regex none p = if is_match regex (text_of p) then [] else p ∷ []

  -- `RegexTransform::apply`
  unfoldable pub regex_apply : RegexTransform → Paragraph → List Paragraph
  unfolding rewrite
  regex_apply r p =
      if is_selected r.include_titles p then rewrite r.regex r.replacement p else p ∷ []

  abbrev pub regex_transform : RegexTransform → Transform
  regex_transform r = record {
    State = Unit {0};
    current = tt;
    init = λ _ s. s;
    apply = λ s p. (s, regex_apply r p);
  }

  -- A replacement keeps every paragraph, with its identity and its comment count.
  replacement_keeps :
      (r : RegexTransform) (replacement : Text) (p : Paragraph)
      → r.replacement ≡ some replacement
      → (q : Paragraph) × (regex_apply r p ≡ q ∷ [])
        × (paragraph_id q ≡ paragraph_id p)
        × (comment_count q ≡ comment_count p)
  unfolding regex_apply paragraph_id comment_count
  replacement_keeps r new_text p h = (
    if is_selected r.include_titles p then with_text (λ t. replace_all r.regex t new_text) p else p,
    ground arith,
    ground arith,
    ground arith,
  )

-- `ConversionMode`, but for `None`.
pub data Conversion : Type 0 where
  s2t t2s s2tw s2hk : Conversion

-- `OpenCcTransform::convert`, over the converters of the crate `ferrous-opencc`.
unfoldable pub convert : (Conversion → Text → Text) → Option Conversion → Text → Text
convert opencc none t = t
convert opencc (some mode) t = opencc mode t

-- `OpenCcTransform::apply`
unfoldable pub opencc_apply :
    (Conversion → Text → Text) → Option Conversion → Paragraph → List Paragraph
unfolding convert
opencc_apply opencc none p = p ∷ []
opencc_apply opencc (some mode) (title id t n) = title id (convert opencc (some mode) t) n ∷ []
opencc_apply opencc (some mode) (text id t n) = text id (convert opencc (some mode) t) n ∷ []
opencc_apply opencc (some mode) (image id url alt n) = image id url alt n ∷ []
