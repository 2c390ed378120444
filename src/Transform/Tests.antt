-- ===== src/Transform/Tests.antt =====
-- The transform modules at concrete inputs.
use langhuan.Prelude.{
  ℕ, false, none, some, List, [], ◌∷◌, Text, arith, map, All, same, text_eq, if◌then◌else◌,
}
use langhuan.Prelude.Bytes.{codes}
use langhuan.Model.{ParagraphId, Paragraph, source, title, text, paragraph_id}
use langhuan.Transform.Chain.{Transform, apply}
use langhuan.Transform.Chain.Identity.{IsWithin, PairwiseApart, ids, AllBounded, apply-ids}
use langhuan.Transform.Rewrite.{RegexEngine, Conversion}
use langhuan.Transform.Builtin.{
  Rule, dedup, indent, regex, chinese, transform_of, Keeps, apply-Keeps,
}

abbrev small_key : ParagraphId → Text
small_key id = id.path

abbrev small_paragraph : Paragraph
small_paragraph = text (record { original = source (codes "p"); path = [] }) (codes " hi") (some 3)

abbrev small_title : Paragraph
small_title = title (record { original = source (codes "t"); path = [] }) (codes "One") none

-- A transform that pushes each paragraph twice.
abbrev duplicate : Transform
duplicate = record { State = ℕ; current = 0; init = λ _ _. 0; apply = λ s p. (s, p ∷ p ∷ []) }

duplicate-AllBounded : AllBounded (duplicate ∷ duplicate ∷ [])
duplicate-AllBounded = (λ s p. omega arith, (λ s p. omega arith, tt))

apply-ids_example :
    All
      (IsWithin (paragraph_id small_paragraph))
      (ids (apply small_key (duplicate ∷ duplicate ∷ []) small_paragraph).1)
    × PairwiseApart (ids (apply small_key (duplicate ∷ duplicate ∷ []) small_paragraph).1)
apply-ids_example =
    apply-ids small_key (duplicate ∷ duplicate ∷ []) small_paragraph duplicate-AllBounded

abbrev small_chapter : List Paragraph
small_chapter = small_title ∷ small_paragraph ∷ small_title ∷ []

-- An engine whose patterns are texts that match themselves.
abbrev small_engine : RegexEngine
small_engine = record {
  Regex = Text;
  build = λ pattern _ _. some pattern;
  replace_all = λ r replacement t. if same r t then replacement else t;
  is_match = λ r t. same r t;
}

abbrev small_opencc : Conversion → Text → Text
small_opencc _ t = t

abbrev small_rules : List (Rule small_engine small_opencc)
small_rules =
    dedup false
    ∷ regex (record { regex = codes "ad"; replacement = none; include_titles = false })
    ∷ indent 2
    ∷ chinese none
    ∷ []

apply-Keeps_example :
    Keeps small_engine small_opencc small_paragraph
      (apply small_key (map (transform_of small_engine small_opencc) small_rules) small_paragraph).1
apply-Keeps_example = apply-Keeps small_engine small_opencc small_key small_rules small_paragraph
