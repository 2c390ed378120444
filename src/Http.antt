-- ===== src/Http.antt =====
-- native/langhuan/src/http.rs: the HTTP client of a feed. The allowlist is in `Domain`, the redirect
-- policy in `Redirect`, the reading of a response in `Response` and `Body`, and `FeedClient::execute`
-- in `Client`.
pub mod Url
pub mod Domain
pub mod Redirect
pub mod Response
pub mod Body
pub mod Client
pub mod Tests
