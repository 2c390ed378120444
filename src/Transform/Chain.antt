-- ===== src/Transform/Chain.antt =====
-- native/langhuan/src/transform/mod.rs: `ParagraphTransform` and `TransformChain`.
pub mod Relabel
pub mod Identity
pub mod Pushes
use langhuan.Prelude.{
  ℕ, suc, ◌+◌, ◌-◌, ◌≡◌, refl, List, [], ◌∷◌, ◌++◌, Text, if◌then◌else◌, ltb, length, take, drop,
}
use langhuan.Model.{ParagraphId, Paragraph, paragraph_id, set_id}
use langhuan.Transform.Output.{TransformOutput, new, descend, push_all}

-- A `ParagraphTransform` with the state it is in. Its `apply` may only push, so what it does to the
-- output is the list of what it pushes.
pub record Transform : Type 1 where
  pub State : Type 0
  pub current : State
  pub init : Text → State → State
  pub apply : State → Paragraph → State × List Paragraph

-- `TransformChain::init`
unfoldable pub init_all : Text → List Transform → List Transform
init_all chapter_id [] = []
init_all chapter_id (t ∷ ts) =
    record t { current = t.init chapter_id t.current } ∷ init_all chapter_id ts

-- The id that the `index`-th of `count` results of one paragraph is given.
unfoldable pub child_id : ParagraphId → ℕ → ℕ → ParagraphId
child_id parent count index = if ltb 1 count then descend parent index else parent

-- The loop that gives the results of one paragraph their ids.
unfoldable pub relabel : ParagraphId → ℕ → ℕ → List Paragraph → List Paragraph
unfolding child_id
relabel parent count index [] = []
relabel parent count index (child ∷ children) =
    set_id (child_id parent count index) child ∷ relabel parent count (suc index) children

module _ (key : ParagraphId → Text) where
  -- What one `transform.apply(p, &mut out)` and the relabelling leave in the output.
  unfoldable pub emit : ParagraphId → List Paragraph → TransformOutput → TransformOutput
  unfolding relabel push_all
  emit parent pushes out =
      let start = length out.buf in
      let out' = push_all key out pushes in
      let count = length out'.buf - start in
      record out' { buf = take start out'.buf ++ relabel parent count 0 (drop start out'.buf) }

  -- One transform over the buffer of the stage before.
  unfoldable pub stage :
      (t : Transform) → t.State → List Paragraph → TransformOutput → t.State × TransformOutput
  stage t s [] out = (s, out)
  stage t s (p ∷ ps) out =
      let (s', pushes) = t.apply s p in stage t s' ps (emit (paragraph_id p) pushes out)

  unfoldable pub run_stages : List Transform → List Paragraph → List Transform × List Paragraph
  run_stages [] ps = ([], ps)
  run_stages (t ∷ ts) ps =
      let (s, out) = stage t t.current ps new in
      let (ts', result) = run_stages ts out.buf in (record t { current = s } ∷ ts', result)

  -- `TransformChain::apply`
  unfoldable pub apply : List Transform → Paragraph → List Transform × List Paragraph
  apply ts p = run_stages ts (p ∷ [])
