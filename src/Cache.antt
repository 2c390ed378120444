-- ===== src/Cache.antt =====
-- native/langhuan/src/cache/mod.rs: `CachedFeed`, which serves shelved books from the store, and
-- `CoverDownloader`.
pub mod Stream
pub mod Info
pub mod Cover
mod Tests
