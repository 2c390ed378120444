-- ===== src/Hub.antt =====
-- native/hub/src: the actors behind the interface of the app.
pub mod Registry
mod Tests
