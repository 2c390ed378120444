-- ===== src/Lib.antt =====
-- Langhuan, a reader of web novels: the Rust crate that talks to book sources and stores what it read.
--
-- A feed is a script that names requests; `native/langhuan/src/http.rs` sends them under the feed's
-- allowlist of hosts. What comes back becomes books, chapters and paragraphs
-- (`native/langhuan/src/model.rs`), a chain of transforms rewrites the paragraphs of a chapter
-- (`native/langhuan/src/transform`), and `native/langhuan/src/db` keeps it all in SQLite.
--
-- Files.
--   Prelude      lists, equality, bytes of texts, and tables with a primary key
--   Error        native/langhuan/src/error.rs: `Error`, `ExpectedErrorCode`, `is_retryable`
--   Http         native/langhuan/src/http.rs: Domain is `domain_allowed`, Redirect is
--                `FeedClient::redirect_policy` and the requests it lets through, Response and Body
--                read what arrives, and Client is `FeedClient::execute`
--   Model        native/langhuan/src/model.rs
--   Transform    native/langhuan/src/transform: Output is `TransformOutput`, Chain is `TransformChain`,
--                and DedupTitle, TextIndent, Rewrite (regex.rs and opencc.rs) are its transforms
--   Store        native/langhuan/src/db: Rows is the schema, Repo the calls and transactions, and the
--                others are the files of db/repo (Books and Chapters are cache.rs, Shelf is
--                bookshelf.rs, UserData is progress.rs, bookmarks.rs, auth.rs, storage.rs and meta.rs);
--                Pass is db/maintenance.rs
--   Cache        native/langhuan/src/cache/mod.rs: Stream is `cache_first_stream!` with the streams made
--                by it, Info is `book_info_with_options`, Cover is `CoverDownloader`
--   Feed         native/langhuan/src/script/js/feed.rs: Request is `execute_http_with_retry` and
--                `execute_cached_http`, Operation the kinds of operations and what a feed must define,
--                Steps is `drive_steps`, and Streams has `paged_stream`, the streams made of it and
--                `auth_status`
--   Script       native/langhuan/src/script: Header is `script_offset_of_line` and Meta the rest of meta.rs,
--                Engine is `parse_and_load` of runtime/engine.rs, Encoding has the base64 and hex
--                functions of js/encoding.rs, and Protobuf is the writer of js/protobuf.rs
--   Hub          native/hub/src/actors/registry_actor.rs: Registry has the state of the actor, the
--                previews and the messages that compile nothing, Install those that do, Steps the
--                states that they bring about, and Restart what the next start finds
--
-- How the code is read.
--   A text is the list of its UTF-8 bytes; `str::trim` and `char::is_whitespace` know the encoding of
--   every character of White_Space. A timestamp is a natural number of milliseconds since the
--   epoch, so a difference of two that would be negative is 0: the code compares such differences with
--   positive thresholds only. `last_seen_chapters` is `none` where the column holds -1. An index in the
--   path of a paragraph's id is cast to 32 bits as the code casts it.
--   A database is one table per table of the schema, each a list of keys and rows; a SQL statement is
--   what it does to the tables it names. A method takes a database to its result and the database it
--   leaves. A statement fails only on a constraint of the schema, and then changes nothing: failures
--   of the disk are left out. `Db::write` rolls back on an error; `Db::call` does not.
--   A download of a cover gives, beside the database, the requests that it hands to its client.
--   A stream is the list of what it yields to a consumer that reads it to the end. Where the cached feed
--   waits for the network, a function on databases stands for what the other tasks do meanwhile.
--   A slice of a text at an offset that is no boundary of a character is a panic: `none` in `parse_meta`
--   and `parse_and_load`, `aborted` in a message of the registry.
--   What `drive_steps` asks of the script, the network, the compute worker and the web view are fields
--   of a `Host`, which also may change its own state; between two rounds no other operation changes the
--   kept responses. The engine's values are opaque.
--   The registry and its database make a world; a message takes it to an answer and the next world. Where
--   the code reads the clock, the time is an argument, and each entry of an import has its own. The
--   counter of previews does not reach 2^64.
--   The loop of `FeedClient::read_body` ends with its stream of chunks, so no fuel is needed.
--   The loop of evictions in `run_maintenance` runs on a fuel of one more than the number of books: every
--   eviction but the last deletes a book. `execute_http_with_retry` runs on a fuel of one more than the
--   number of retries, and `drive_steps` on the number of steps that are left. `paged_stream` runs on the
--   number of pages that its consumer waits for, as the script decides how many there are. A varint of
--   64 bits has at most ten groups, which is the fuel of `write_varint`.
--
-- Outside the model.
--   reqwest, url, regex, opencc, serde_json, semver, the hash and the JavaScript engine are parameters
--   (UrlParser, Network, RegexEngine, the conversions of `opencc_apply`, Codec, Host, Loader). The texts
--   of error messages, logging, tracing beyond which event is recorded, and the queries that only list
--   rows for display are left out. The set-up of the scripts' runtime, the conversions of its values, the
--   HTML and crypto modules, the downloader of scripts, the other actors of native/hub and the Dart user
--   interface have no counterpart here.
pub mod Prelude
pub mod Error
pub mod Http
pub mod Hub
pub mod Model
pub mod Transform
pub mod Store
pub mod Cache
pub mod Feed
pub mod Script
