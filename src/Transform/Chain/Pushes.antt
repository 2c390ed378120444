-- ===== src/Transform/Chain/Pushes.antt =====
-- native/langhuan/src/transform/mod.rs: what a transform pushes over a chapter, paragraph by paragraph.
use langhuan.Prelude.{List, [], ◌∷◌, ◌++◌}
use langhuan.Model.{Paragraph}
use langhuan.Transform.Chain.{Transform}

unfoldable pub pushes_of : (t : Transform) → t.State → List Paragraph → List Paragraph
pushes_of t s [] = []
pushes_of t s (p ∷ ps) = let (s', pushes) = t.apply s p in pushes ++ pushes_of t s' ps
