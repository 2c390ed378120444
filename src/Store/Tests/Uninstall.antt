-- ===== src/Store/Tests/Uninstall.antt =====
-- Deleting one of two feeds.
use langhuan.Prelude.{◌≡◌, ◌≢◌, none, ℕ, Text, text_eq}
use langhuan.Prelude.Bytes.{codes}
use langhuan.Prelude.Table.{has}
use langhuan.Error.{ok}
use langhuan.Store.Rows.{BookKey, Database}
use langhuan.Store.Repo.{call}
use langhuan.Store.Feeds.{FeedHeader, delete_feed}
use langhuan.Store.Feeds.Removal.{HasNothingOf, KeepsFeed, delete_feed_exact}
use langhuan.Store.Consistency.{IsConsistent}
use langhuan.Store.Consistency.Reachable.{
  upsert_feed, upsert_snapshot, Reachable, called, Reachable-IsConsistent,
}
use langhuan.Store.Tests.Sample.{
  small_codec, small_header, small_snapshot, run_small, small_steps, small_steps-Reachable,
}

abbrev second_header : FeedHeader
second_header = record small_header { id = codes "g" }

abbrev second_book : BookKey
second_book = record { feed_id = codes "g"; book_id = codes "b" }

abbrev second_feed : Database
second_feed = (call (run_small (upsert_feed second_header none (codes "h") 8)) small_steps).1

abbrev two_feeds : Database
two_feeds = (call (run_small (upsert_snapshot second_book small_snapshot 9)) second_feed).1

two_feeds-Reachable : Reachable small_codec small_codec (small_codec {A = ℕ}) two_feeds
two_feeds-Reachable =
    called (upsert_snapshot second_book small_snapshot 9)
      (called (upsert_feed second_header none (codes "h") 8) small_steps-Reachable)

two_feeds-IsConsistent : IsConsistent two_feeds
two_feeds-IsConsistent =
    Reachable-IsConsistent small_codec small_codec (small_codec {A = ℕ}) two_feeds-Reachable

delete_feed_exact_example :
    ((delete_feed (codes "f") two_feeds).0 ≡ ok (has (codes "f") two_feeds.feeds))
    × HasNothingOf (codes "f") (delete_feed (codes "f") two_feeds).1
    × ((other : Text)
        → other ≢ codes "f"
        → KeepsFeed other two_feeds (delete_feed (codes "f") two_feeds).1)
delete_feed_exact_example = delete_feed_exact (codes "f") two_feeds two_feeds-IsConsistent
