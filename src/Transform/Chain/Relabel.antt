-- ===== src/Transform/Chain/Relabel.antt =====
-- native/langhuan/src/transform/mod.rs: a stage of `TransformChain::apply` without its buffers. The
-- ids that `TransformOutput` assigns do not show in the result of a chain.
use langhuan.Prelude.{
  ℕ, suc, ◌-◌, ◌≡◌, refl, sym, ap, ap₂, ◌∙◌, List, [], ◌∷◌, ◌++◌, append_assoc, append-nil, Text,
  length, length-append, take, take-append, drop, drop-append, arith,
}
use langhuan.Model.{ParagraphId, Paragraph, paragraph_id}
use langhuan.Transform.Output.{TransformOutput, push, push_all, buf-push}
use langhuan.Transform.Chain.{Transform, child_id, relabel, emit, stage}

-- What a stage makes of its paragraphs.
unfoldable pub spread : (t : Transform) → t.State → List Paragraph → List Paragraph
spread t s [] = []
spread t s (p ∷ ps) =
    let (s', pushes) = t.apply s p in
    relabel (paragraph_id p) (length pushes) 0 pushes ++ spread t s' ps

unfoldable pub final_state : (t : Transform) → t.State → List Paragraph → t.State
final_state t s [] = s
final_state t s (p ∷ ps) = final_state t (t.apply s p).0 ps

module _ (key : ParagraphId → Text) where
  buf-push_all :
      (out : TransformOutput) (ps : List Paragraph)
      → (qs : List Paragraph) × ((push_all key out ps).buf ≡ out.buf ++ qs)
        × (length qs ≡ length ps)
        × ((parent : ParagraphId) (count i : ℕ)
            → relabel parent count i qs ≡ relabel parent count i ps)
  unfolding push_all relabel
  buf-push_all out [] = ([], sym (append-nil out.buf), refl, λ parent count i. refl)
  buf-push_all out (p ∷ ps) =
      let (q, e, same_id) = buf-push key out p in
      let (qs, e', n, same_ids) = buf-push_all (push key out p) ps in
      (
        q ∷ qs,
        e' ∙ ap (λ b. b ++ qs) e ∙ append_assoc out.buf (q ∷ []) qs,
        ap suc n,
        λ parent count i.
            ap₂ (λ x xs. x ∷ xs) (same_id (child_id parent count i))
              (same_ids parent count (suc i)),
      )

  emit-buf :
      (parent : ParagraphId) (pushes : List Paragraph) (out : TransformOutput)
      → (emit key parent pushes out).buf ≡ out.buf ++ relabel parent (length pushes) 0 pushes
  unfolding emit
  emit-buf parent pushes out =
      let (qs, e, n, same_ids) = buf-push_all out pushes in
      let count : length (push_all key out pushes).buf - length out.buf ≡ length pushes =
        omega (arith, ap length e, length-append out.buf qs) in
      ap₂ (λ a b. a ++ b) (ap (take (length out.buf)) e ∙ take-append out.buf qs)
        (ap₂ (λ k b. relabel parent k 0 b) count
            (ap (drop (length out.buf)) e ∙ drop-append out.buf qs)
          ∙ same_ids parent (length pushes) 0)

  -- A stage of the chain, with its buffer and its sink, appends what the transform pushes for each
  -- paragraph, relabelled from that paragraph, and ends in the transform's last state.
  pub stage-eq-spread :
      (t : Transform) (s : t.State) (ps : List Paragraph) (out : TransformOutput)
      → ((stage key t s ps out).1.buf ≡ out.buf ++ spread t s ps)
        × ((stage key t s ps out).0 ≡ final_state t s ps)
  unfolding stage spread final_state
  stage-eq-spread t s [] out = (sym (append-nil out.buf), refl)
  stage-eq-spread t s (p ∷ ps) out =
      let (s', pushes) = t.apply s p in
      let (e, f) = stage-eq-spread t s' ps (emit key (paragraph_id p) pushes out) in
      (
        e
            ∙ ap (λ b. b ++ spread t s' ps) (emit-buf (paragraph_id p) pushes out)
            ∙ append_assoc out.buf _ (spread t s' ps),
        f,
      )
