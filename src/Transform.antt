-- ===== src/Transform.antt =====
-- native/langhuan/src/transform: the per-chapter transforms of paragraphs, the sink that they push
-- into, and the chain that composes them.
pub mod Output
pub mod Chain
pub mod DedupTitle
pub mod TextIndent
pub mod Rewrite
pub mod Builtin
mod Tests
