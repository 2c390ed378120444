-- ===== src/Transform/Output.antt =====
-- native/langhuan/src/transform/mod.rs: `TransformOutput`, the sink that a transform pushes into.
use langhuan.Prelude.{
  ℕ, ◌+◌, ◌%◌, ◌^◌, ◌≡◌, refl, List, [], ◌∷◌, ◌++◌, Text, text_eq, contains, if◌then◌else◌, inl,
  inr, Bool-cases,
}
use langhuan.Model.{ParagraphId, Paragraph, paragraph_id, set_id, set_id-set_id}

pub record TransformOutput : Type 0 where
  pub buf : List Paragraph
  pub seen : List Text
  pub next_index : ℕ

-- `TransformOutput::new`, over an empty buffer.
abbrev pub new : TransformOutput
new = record { buf = []; seen = []; next_index = 0 }

-- A path is extended by an index, cast to `u32`.
abbrev pub descend : ParagraphId → ℕ → ParagraphId
descend id index = record id { path = id.path ++ (index % 2 ^ 32) ∷ [] }

-- `key` is the text of an id, `ParagraphId::to_string`.
module _ (key : ParagraphId → Text) where
  -- `TransformOutput::push`
  unfoldable pub push : TransformOutput → Paragraph → TransformOutput
  push out p =
      let k = key (paragraph_id p) in
      let id = descend (paragraph_id p) out.next_index in
      if contains out.seen k
      then record out {
        buf = out.buf ++ set_id id p ∷ [];
        seen = key id ∷ k ∷ out.seen;
        next_index = out.next_index + 1;
      }
      else record out {
        buf = out.buf ++ p ∷ [];
        seen = k ∷ out.seen;
        next_index = out.next_index + 1;
      }

  -- The pushes of one call of `apply`.
  unfoldable pub push_all : TransformOutput → List Paragraph → TransformOutput
  unfolding push
  push_all out [] = out
  push_all out (p ∷ ps) = push_all (push out p) ps

  -- A push appends one paragraph, which differs from the pushed one in its id at most.
  pub buf-push :
      (out : TransformOutput) (p : Paragraph)
      → (q : Paragraph) × ((push out p).buf ≡ out.buf ++ q ∷ [])
        × ((id : ParagraphId) → set_id id q ≡ set_id id p)
  unfolding push
  buf-push out p = elim (Bool-cases (contains out.seen (key (paragraph_id p)))) [
    | inl e ↦ (set_id (descend (paragraph_id p) out.next_index) p, rw e, λ id. set_id-set_id id _ p)
    | inr e ↦ (p, rw e, λ id. refl)
  ]
