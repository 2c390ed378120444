-- ===== src/Feed.antt =====
-- native/langhuan/src/script/js/feed.rs: the requests that a script's steps send.
pub mod Operation
pub mod Request
pub mod Steps
pub mod Streams
mod Tests
