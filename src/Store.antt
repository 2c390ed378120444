-- ===== src/Store.antt =====
-- native/langhuan/src/db: the SQLite store. `Rows` has the tables, `Repo` what a repository method
-- is, and the other modules one repository file each.
pub mod Rows
pub mod Repo
pub mod Books
pub mod Chapters
pub mod Cascade
pub mod Shelf
pub mod UserData
pub mod Feeds
pub mod Maintenance
pub mod Pass
pub mod Consistency
pub mod Tests
