-- ===== src/Store/Consistency/Operations.antt =====
-- native/langhuan/src/db/repo: every repository method keeps the constraints, failing or not.
pub mod Rules
pub mod Books
pub mod UserData
pub mod Upkeep
