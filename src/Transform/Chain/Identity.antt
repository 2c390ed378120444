-- ===== src/Transform/Chain/Identity.antt =====
-- native/langhuan/src/transform/mod.rs: the ids that a chain gives to what it makes of a paragraph.
use langhuan.Prelude.{
  ℕ, suc, ◌+◌, ◌<◌, ◌≤◌, ◌%◌, ◌^◌, ◌≡◌, ◌≢◌, refl, sym, ap, ◌∙◌, subst, List, [], ◌∷◌, ◌++◌,
  append_assoc, append-nil, Text, length, arith, map, All, All-append, All-mono, ltb, Bool-cases,
  inl, inr, lt→ltb, drop, drop-append, map-append,
}
use langhuan.Model.{ParagraphId, Paragraph, paragraph_id, paragraph_id-set_id}
use langhuan.Transform.Output.{new}
use langhuan.Transform.Chain.{Transform, child_id, relabel, stage, run_stages, apply}
use langhuan.Transform.Chain.Relabel.{spread, stage-eq-spread}

-- Two ids of one paragraph have no common descendant, so neither is the other, nor above it.
abbrev pub Apart : ParagraphId → ParagraphId → Type 0
Apart a b = (r s : List ℕ) → a.path ++ r ≢ b.path ++ s

-- `b` is `a` or below it.
abbrev pub IsWithin : ParagraphId → ParagraphId → Type 0
IsWithin a b = (b.original ≡ a.original) × ((r : List ℕ) × (b.path ≡ a.path ++ r))

abbrev pub PairwiseApart : List ParagraphId → Type 0
PairwiseApart [] = Unit
PairwiseApart (a ∷ as') = All (Apart a) as' × PairwiseApart as'

abbrev pub ids : List Paragraph → List ParagraphId
ids = map paragraph_id

Apart-within : (a b a' b' : ParagraphId) → IsWithin a a' → IsWithin b b' → Apart a b → Apart a' b'
Apart-within a b a' b' (_, (u, e)) (_, (v, f)) h r s p = h (u ++ r) (v ++ s) (
    sym (append_assoc a.path u r)
    ∙ ap (λ t. t ++ r) (sym e)
    ∙ p
    ∙ ap (λ t. t ++ s) f
    ∙ append_assoc b.path v s)

IsWithin-trans : (a b c : ParagraphId) → IsWithin a b → IsWithin b c → IsWithin a c
IsWithin-trans a b c (o, (u, e)) (o', (v, f)) =
    (o' ∙ o, (u ++ v, f ∙ ap (λ t. t ++ v) e ∙ append_assoc a.path u v))

child_id-IsWithin :
    (parent : ParagraphId) (count index : ℕ) → IsWithin parent (child_id parent count index)
unfolding child_id
child_id-IsWithin parent count index = elim (Bool-cases (ltb 1 count)) [
  | inl e ↦ rw e (refl, ((index % 2 ^ 32) ∷ [], refl))
  | inr e ↦ rw e (refl, ([], sym (append-nil parent.path)))
]

-- Two children of a parent that has more than one are apart.
siblings-Apart :
    (parent : ParagraphId) (count i j : ℕ)
    → 1 < count
    → i < j
    → j < 2 ^ 32
    → Apart (child_id parent count i) (child_id parent count j)
unfolding child_id
siblings-Apart parent count i j many lt fits r s = rw (lt→ltb 1 count many) (λ p.
    let head : ((i % 2 ^ 32) ∷ r) ≡ ((j % 2 ^ 32) ∷ s) =
      sym (drop-append parent.path ((i % 2 ^ 32) ∷ r))
      ∙ ap (drop (length parent.path)) (
          sym (append_assoc parent.path ((i % 2 ^ 32) ∷ []) r)
          ∙ p
          ∙ append_assoc parent.path ((j % 2 ^ 32) ∷ []) s)
      ∙ drop-append parent.path ((j % 2 ^ 32) ∷ s) in
    let same_index : i % 2 ^ 32 ≡ j % 2 ^ 32 = cc in omega arith)

module _ (parent : ParagraphId) (count : ℕ) where
  relabel-IsWithin :
      (i : ℕ) (cs : List Paragraph) → All (IsWithin parent) (ids (relabel parent count i cs))
  unfolding relabel
  relabel-IsWithin i [] = tt
  relabel-IsWithin i (c ∷ cs) = (
    rw (paragraph_id-set_id (child_id parent count i) c) (child_id-IsWithin parent count i),
    relabel-IsWithin (suc i) cs,
  )

  after-Apart :
      (i j : ℕ) (cs : List Paragraph)
      → 1 < count
      → i < j
      → j + length cs ≤ 2 ^ 32
      → All (Apart (child_id parent count i)) (ids (relabel parent count j cs))
  unfolding relabel
  after-Apart i j [] many lt fits = tt
  after-Apart i j (c ∷ cs) many lt fits = (
    rw (paragraph_id-set_id (child_id parent count j) c)
        (siblings-Apart parent count i j many lt (omega arith)),
    after-Apart i (suc j) cs many (omega arith) (omega arith),
  )

  relabel-Apart :
      (i : ℕ) (cs : List Paragraph)
      → length cs ≤ count
      → i + length cs ≤ 2 ^ 32
      → PairwiseApart (ids (relabel parent count i cs))
  unfolding relabel
  relabel-Apart i [] n fits = tt
  relabel-Apart i (c ∷ []) n fits = (tt, tt)
  relabel-Apart i (c ∷ d ∷ cs) n fits = (
    subst (λ a. All (Apart a) (ids (relabel parent count (suc i) (d ∷ cs))))
        (sym (paragraph_id-set_id (child_id parent count i) c))
        (after-Apart i (suc i) (d ∷ cs) (omega arith) (omega arith) (omega arith)),
    relabel-Apart (suc i) (d ∷ cs) (omega arith) (omega arith),
  )

PairwiseApart-append :
    (xs ys : List ParagraphId)
    → PairwiseApart xs
    → PairwiseApart ys
    → All (λ x. All (Apart x) ys) xs
    → PairwiseApart (xs ++ ys)
PairwiseApart-append [] ys hx hy h = hy
PairwiseApart-append (x ∷ xs) ys (a, hx) hy (b, h) =
    (All-append (Apart x) xs ys a b, PairwiseApart-append xs ys hx hy h)

-- A transform pushes at most 2^32 paragraphs for one.
abbrev pub IsBounded : Transform → Type 0
IsBounded t = (s : t.State) (p : Paragraph) → length (t.apply s p).1 ≤ 2 ^ 32

module _ (t : Transform) where
  spread-far :
      (a : ParagraphId) (s : t.State) (ps : List Paragraph)
      → All (Apart a) (ids ps)
      → All (Apart a) (ids (spread t s ps))
  unfolding spread
  spread-far a s [] h = tt
  spread-far a s (p ∷ ps) (h, hs) =
      let (s', pushes) = t.apply s p in
      rw (map-append _ _ _) (
        All-append (Apart a) (ids (relabel (paragraph_id p) (length pushes) 0 pushes))
          (ids (spread t s' ps))
          (All-mono
            (λ c w. Apart-within a (paragraph_id p) a c (refl, ([], sym (append-nil a.path))) w h) _
            (relabel-IsWithin (paragraph_id p) (length pushes) 0 pushes))
          (spread-far a s' ps hs))

  spread-IsWithin :
      (a : ParagraphId) (s : t.State) (ps : List Paragraph)
      → All (IsWithin a) (ids ps)
      → All (IsWithin a) (ids (spread t s ps))
  unfolding spread
  spread-IsWithin a s [] h = tt
  spread-IsWithin a s (p ∷ ps) (h, hs) =
      let (s', pushes) = t.apply s p in
      rw (map-append _ _ _) (
        All-append (IsWithin a) (ids (relabel (paragraph_id p) (length pushes) 0 pushes))
          (ids (spread t s' ps))
          (All-mono (λ c w. IsWithin-trans a (paragraph_id p) c h w) _
            (relabel-IsWithin (paragraph_id p) (length pushes) 0 pushes))
          (spread-IsWithin a s' ps hs))

  spread-Apart :
      IsBounded t
      → (s : t.State) (ps : List Paragraph) → PairwiseApart (ids ps)
      → PairwiseApart (ids (spread t s ps))
  unfolding spread
  spread-Apart bound s [] h = tt
  spread-Apart bound s (p ∷ ps) (h, hs) =
      let pushes = (t.apply s p).1 in
      let s' = (t.apply s p).0 in
      rw (map-append _ _ _) (
        PairwiseApart-append (ids (relabel (paragraph_id p) (length pushes) 0 pushes))
          (ids (spread t s' ps))
          (relabel-Apart (paragraph_id p) (length pushes) 0 pushes (omega arith)
            (omega (arith, bound s p)))
          (spread-Apart bound s' ps hs)
          (All-mono
            (λ c w. spread-far c s' ps (
              All-mono
                (λ d far.
                  Apart-within (paragraph_id p) d c d w (refl, ([], sym (append-nil d.path))) far)
                _ h))
            _ (relabel-IsWithin (paragraph_id p) (length pushes) 0 pushes)))

abbrev pub AllBounded : List Transform → Type 0
AllBounded [] = Unit
AllBounded (t ∷ ts) = IsBounded t × AllBounded ts

module _ (key : ParagraphId → Text) where
  run_stages-ids :
      (a : ParagraphId) (ts : List Transform) (ps : List Paragraph)
      → AllBounded ts
      → All (IsWithin a) (ids ps)
      → PairwiseApart (ids ps)
      → All (IsWithin a) (ids (run_stages key ts ps).1)
        × PairwiseApart (ids (run_stages key ts ps).1)
  unfolding run_stages
  run_stages-ids a [] ps b w h = (w, h)
  run_stages-ids a (t ∷ ts) ps (b, bs) w h =
      let e : (stage key t t.current ps new).1.buf ≡ spread t t.current ps =
        (stage-eq-spread key t t.current ps new).0 in
      run_stages-ids a ts _ bs (rw e (spread-IsWithin t a t.current ps w))
        (rw e (spread-Apart t b t.current ps h))

  -- Whatever the transforms of a chain push, each at most 2^32 paragraphs for one, what the chain
  -- makes of a paragraph keeps the original identity below its path, and no two results have the
  -- same id or one below the other.
  pub apply-ids :
      (ts : List Transform) (p : Paragraph)
      → AllBounded ts
      → All (IsWithin (paragraph_id p)) (ids (apply key ts p).1)
        × PairwiseApart (ids (apply key ts p).1)
  unfolding apply
  apply-ids ts p b =
      run_stages-ids (paragraph_id p) ts (p ∷ []) b ((refl, ([], sym (append-nil _))), tt) (tt, tt)
