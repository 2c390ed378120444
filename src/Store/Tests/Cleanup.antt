-- ===== src/Store/Tests/Cleanup.antt =====
-- The cached chapters, the shelf and the cleanup at concrete databases.
use langhuan.Prelude.{◌≡◌, ◌≢◌, refl, true, false, none, some, [], ◌∷◌, Text, text_beq, text_eq}
use langhuan.Prelude.Bytes.{codes}
use langhuan.Prelude.Table.{lookup, has, erase, count}
use langhuan.Error.{ok, err, database}
use langhuan.Store.Rows.{
  book_key_eq, book_key_beq, book_key_beq_iff, ChapterKey, chapter_key_eq, chapter_key_beq,
  PayloadRow, BookmarkRow, Database,
}
use langhuan.Store.Books.{may_hold_book}
use langhuan.Store.Chapters.{get_paragraphs, set_paragraphs}
use langhuan.Store.Chapters.RoundTrip.{get_paragraphs-set_paragraphs, get_paragraphs_broken}
use langhuan.Store.Cascade.Kept.{KeepsBook, HasNoCacheOf}
use langhuan.Store.Shelf.{remove_book}
use langhuan.Store.Shelf.Removal.{remove_book_purges, remove_book_keeps}
use langhuan.Prelude.Order.{text_ltb}
use langhuan.Store.Cascade.{delete_books}
use langhuan.Store.Maintenance.{
  total, is_victim, is_older, cache_total_bytes, stale_cleanup, evict_oldest_unprotected,
}
use langhuan.Store.Maintenance.Stale.{stale_cleanup_keeps}
use langhuan.Store.Maintenance.Evict.{evict_oldest_first}
use langhuan.Store.Tests.Sample.{
  other_book, other_row, small_book, small_codec, small_database, small_database-IsConsistent,
  small_lookup, small_row,
}

abbrev small_chapter : ChapterKey
small_chapter = record { book = small_book; chapter_id = codes "1" }

small_may_hold : may_hold_book small_book small_database ≡ true
unfolding lookup book_key_beq text_beq
small_may_hold = refl

get_paragraphs-set_paragraphs_example :
    (left : Database) × (set_paragraphs small_codec small_chapter [] 50 small_database
      ≡ (ok tt, left))
    × ((get_paragraphs small_codec small_chapter 60 left).0 ≡ ok (some []))
get_paragraphs-set_paragraphs_example =
    get_paragraphs-set_paragraphs small_codec small_chapter [] 50 small_database 60 []
      small_may_hold refl

-- The same database with a chapter that does not decode.
abbrev broken_row : PayloadRow
broken_row = record { json = codes "?"; cached_at_ms = 9 }

abbrev broken_database : Database
broken_database = record small_database { chapters = (small_chapter, broken_row) ∷ [] }

broken_lookup : lookup small_chapter broken_database.chapters ≡ some broken_row
unfolding lookup chapter_key_beq book_key_beq text_beq
broken_lookup = refl

get_paragraphs_broken_example :
    ((get_paragraphs small_codec small_chapter 20 broken_database).0 ≡ err database)
    × ((get_paragraphs small_codec small_chapter 30
          (get_paragraphs small_codec small_chapter 20 broken_database).1).0
        ≡ ok none)
get_paragraphs_broken_example =
    get_paragraphs_broken small_codec small_chapter 20 30 broken_database broken_row broken_lookup
      refl

small_shelved : has small_book small_database.bookshelf ≡ true
unfolding lookup book_key_beq text_beq
small_shelved = refl

other_unshelved : has other_book small_database.bookshelf ≡ false
unfolding lookup book_key_beq text_beq
other_unshelved = refl

other_lookup : lookup other_book small_database.books ≡ some other_row
unfolding lookup book_key_beq text_beq
other_lookup = refl

small_differ : book_key_beq other_book small_book ≡ false
unfolding book_key_beq text_beq
small_differ = refl

distinct : other_book ≢ small_book
distinct e = absurd (cc (small_differ, (book_key_beq_iff other_book small_book).1 e))

remove_book_purges_example :
    ((remove_book small_book small_database).0 ≡ ok true)
    × HasNoCacheOf small_book (remove_book small_book small_database).1
    × (lookup small_book (remove_book small_book small_database).1.reading_progress ≡ none)
    × ((id : Text) (row : BookmarkRow)
        → lookup id (remove_book small_book small_database).1.bookmarks ≡ some row
        → row.book ≢ small_book)
remove_book_purges_example =
    remove_book_purges small_book small_database small_database-IsConsistent small_shelved

remove_book_keeps_example :
    KeepsBook other_book small_database (remove_book small_book small_database).1
remove_book_keeps_example =
    remove_book_keeps small_book small_database small_database-IsConsistent other_book distinct

stale_cleanup_keeps_example :
    KeepsBook small_book small_database (stale_cleanup 1000 small_database).1
stale_cleanup_keeps_example =
    stale_cleanup_keeps 1000 small_book small_database small_database-IsConsistent small_shelved

-- Both books off the shelf, and a cache that is over the cap.
abbrev crowded : Database
crowded = record broken_database { bookshelf = [] }

crowded-gone : lookup small_book (evict_oldest_unprotected 0 1 crowded).1.books ≡ none
unfolding evict_oldest_unprotected cache_total_bytes total is_victim is_older delete_books erase
    count lookup book_key_beq text_beq text_ltb
crowded-gone = refl

crowded-stays : lookup other_book (evict_oldest_unprotected 0 1 crowded).1.books ≡ some other_row
unfolding evict_oldest_unprotected cache_total_bytes total is_victim is_older delete_books erase
    count lookup book_key_beq text_beq text_ltb
crowded-stays = refl

crowded-free : has other_book crowded.bookshelf ≡ false
unfolding lookup
crowded-free = refl

evict_oldest_first_example : is_older other_book other_row small_book small_row ≡ false
evict_oldest_first_example =
    evict_oldest_first 0 1 crowded small_book other_book small_row other_row
      small_database-IsConsistent.books_keys crowded-free small_lookup other_lookup crowded-gone
      crowded-stays
