-- ===== src/Transform/TextIndent.antt =====
-- native/langhuan/src/transform/text_indent.rs
use langhuan.Prelude.{
  ℕ, zero, suc, ◌≡◌, refl, ap, ◌∙◌, List, [], ◌∷◌, ◌++◌, Text, arith, ◌==◌, ◌||◌, if◌then◌else◌,
}
use langhuan.Model.{Paragraph, title, text, image, paragraph_id, comment_count}
use langhuan.Transform.Chain.{Transform}

-- The three bytes of U+3000 in UTF-8.
abbrev pub ideographic_space : Text
ideographic_space = 0xe3 ∷ 0x80 ∷ 0x80 ∷ []

-- `content.trim_start_matches([' ', '\t', '\u{3000}'])`, on the bytes of the text.
unfoldable pub trim_indent : Text → Text
trim_indent [] = []
trim_indent (a ∷ b ∷ c ∷ s) =
    let long = trim_indent s in
    let short = trim_indent (b ∷ c ∷ s) in
    if a == 32 || a == 9
    then short
    else if a == 0xe3
    then if b == 0x80 then if c == 0x80 then long else a ∷ b ∷ c ∷ s else a ∷ b ∷ c ∷ s
    else a ∷ b ∷ c ∷ s
trim_indent (a ∷ s) = let short = trim_indent s in if a == 32 || a == 9 then short else a ∷ s

-- `"\u{3000}".repeat(spaces)`
unfoldable pub indent_of : ℕ → Text
indent_of zero = []
indent_of (suc n) = ideographic_space ++ indent_of n

-- `TextIndentTransform::apply`
unfoldable pub indent_apply : Text → Paragraph → List Paragraph
indent_apply indent (text id content count) = text id (indent ++ trim_indent content) count ∷ []
indent_apply indent (title id t n) = title id t n ∷ []
indent_apply indent (image id url alt n) = image id url alt n ∷ []

-- `TextIndentTransform::with_spaces`
abbrev pub text_indent : ℕ → Transform
text_indent spaces = record {
  State = Unit {0};
  current = tt;
  init = λ _ s. s;
  apply = λ s p. (s, indent_apply (indent_of spaces) p);
}

-- What is left begins with none of the three characters.
trim-trim : (s : Text) → trim_indent (trim_indent s) ≡ trim_indent s
unfolding trim_indent
trim-trim [] = refl
trim-trim (a ∷ []) = ground arith
trim-trim (a ∷ b ∷ []) = ground (arith, trim-trim (b ∷ []))
trim-trim (a ∷ b ∷ c ∷ s) = ground (arith, trim-trim (b ∷ c ∷ s), trim-trim s)

trim-indent_of : (n : ℕ) (s : Text) → trim_indent (indent_of n ++ s) ≡ trim_indent s
unfolding trim_indent indent_of
trim-indent_of zero s = refl
trim-indent_of (suc n) s = trim-indent_of n s

-- Every paragraph yields one, with its identity and its comment count, and indenting that again by
-- any number of spaces gives what indenting the original gives.
pub indent_again :
    (m n : ℕ) (p : Paragraph)
    → (q : Paragraph) × (indent_apply (indent_of m) p ≡ q ∷ [])
      × (paragraph_id q ≡ paragraph_id p)
      × (comment_count q ≡ comment_count p)
      × (indent_apply (indent_of n) q ≡ indent_apply (indent_of n) p)
unfolding indent_apply paragraph_id comment_count
indent_again m n (text id content count) = (
  text id (indent_of m ++ trim_indent content) count,
  refl,
  refl,
  refl,
  ap (λ t. text id (indent_of n ++ t) count ∷ [])
      (trim-indent_of m (trim_indent content) ∙ trim-trim content),
)
indent_again m n (title id t k) = (title id t k, refl, refl, refl, refl)
indent_again m n (image id url alt k) = (image id url alt k, refl, refl, refl, refl)
