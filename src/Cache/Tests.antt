-- ===== src/Cache/Tests.antt =====
-- The cached feed and the cover downloads at concrete databases.
use langhuan.Prelude.{
  ◌-◌, ◌≡◌, refl, true, false, none, some, List, [], ◌∷◌, Text, map, ◌⊎◌, text_beq, text_eq, leb,
  arith, same_option,
}
use langhuan.Prelude.Bytes.{
  codes, starts_with, strip_prefix, before, ends_with, lower, trim_end, trim_start, trim,
}
use langhuan.Prelude.Table.{lookup, has, count, update}
use langhuan.Error.{Result, ok, err, source_unavailable, expected, domain_not_allowed}
use langhuan.Http.Domain.{
  domain_allowed, request_host, entry_allows, wildcard_matches, normalize_host,
}
use langhuan.Http.Response.{
  first_value, find_header, HttpResponse, get, content_type, is_followable, redirect_target,
  collect_response_headers, readable_values, eq_ignore_ascii_case,
}
use langhuan.Http.Body.{read_body, read_chunks}
use langhuan.Http.Client.{
  Received, received, Network, execute, after_send, accept, receive_body, stopped_at,
}
use langhuan.Http.Tests.{small_urls, small_domains, small_url, small_response, small_url-allowed}
use langhuan.Model.{BookInfo, Paragraph}
use langhuan.Store.Rows.{book_key_beq, chapter_key_eq, book_key_eq, ChapterKey, pending, Database}
use langhuan.Store.Books.{
  with_cover_state, may_hold_book, claim_cover_download, is_due, get_cover_bytes,
  cover_inflight_retry_ms,
}
use langhuan.Store.Tests.Sample.{
  small_book, other_book, small_codec, small_info, small_row, small_database,
  small_database-IsConsistent, small_lookup,
}
use langhuan.Cache.Stream.{cached_paragraphs}
use langhuan.Cache.Stream.Serving.{
  cached_items, up_to_error, cached_paragraphs_yields, cached_paragraphs_broken,
  cached_paragraphs_again,
}
use langhuan.Cache.Info.{book_info_with_options, book_info_again}
use langhuan.Cache.Cover.{cover_timeout, is_image, mime_or_default, download}
use langhuan.Cache.Cover.Guards.{download_exclusive, download_hop_blocked, download_stored}

abbrev idle : Database → Database
idle db = db

abbrev small_chapter : ChapterKey
small_chapter = record { book = small_book; chapter_id = codes "1" }

abbrev other_chapter : ChapterKey
other_chapter = record { book = other_book; chapter_id = codes "1" }

abbrev failing : List (Result Paragraph)
failing = err (expected source_unavailable) ∷ []

off_shelf : has other_book small_database.bookshelf ≡ false
unfolding lookup book_key_beq text_beq
off_shelf = refl

on_shelf : has small_book small_database.bookshelf ≡ true
unfolding lookup book_key_beq text_beq
on_shelf = refl

not_cached : lookup small_chapter small_database.chapters ≡ none
unfolding lookup
not_cached = refl

small_may_hold : may_hold_book small_book small_database ≡ true
unfolding lookup book_key_beq text_beq
small_may_hold = refl

cached_paragraphs_yields_example :
    ((has small_book small_database.bookshelf ≡ false)
      × (cached_paragraphs small_codec small_chapter 10 20 idle failing small_database
          ≡ (failing, small_database)))
    ⊎ (((items : List Paragraph) × (has small_book small_database.bookshelf ≡ true)
          × (cached_items small_codec (lookup small_chapter small_database.chapters) ≡ some items)
          × ((cached_paragraphs small_codec small_chapter 10 20 idle failing small_database).0
              ≡ map ok items))
        ⊎ ((has small_book small_database.bookshelf ≡ true)
            × (cached_items small_codec (lookup small_chapter small_database.chapters) ≡ none)
            × ((cached_paragraphs small_codec small_chapter 10 20 idle failing small_database).0
                ≡ up_to_error failing)))
cached_paragraphs_yields_example =
    cached_paragraphs_yields small_codec small_chapter 10 20 idle failing small_database

cached_paragraphs_broken_example :
    cached_paragraphs small_codec small_chapter 10 20 idle failing small_database
    ≡ (failing, small_database)
cached_paragraphs_broken_example =
    cached_paragraphs_broken small_codec small_chapter 10 20 idle failing small_database []
      (expected source_unavailable) [] on_shelf not_cached refl

cached_paragraphs_again_example :
    (left : Database) × (cached_paragraphs small_codec small_chapter 10 20 idle [] small_database
      ≡ ([], left))
    × ((cached_paragraphs small_codec small_chapter 30 40 idle failing left).0 ≡ [])
cached_paragraphs_again_example =
    cached_paragraphs_again small_codec small_chapter [] [] refl 10 20 30 40 idle idle failing
      small_database on_shelf not_cached on_shelf small_may_hold

abbrev no_info : Result BookInfo
no_info = err (expected source_unavailable)

book_info_again_example :
    (left : Database) × (book_info_with_options small_book true 10 20 idle
        (ok small_info)
        small_database
      ≡ ((ok small_info, small_info.cover_url), left))
    × ((book_info_with_options small_book false 30 40 idle no_info left).0
        ≡ (ok small_info, small_info.cover_url))
book_info_again_example =
    book_info_again small_book small_info 10 20 30 40 idle idle no_info small_database small_row
      refl on_shelf on_shelf small_lookup (omega arith)

abbrev image_response : Received Text
image_response = record small_response {
  headers = (codes "content-type", some (codes "image/png") ∷ []) ∷ [];
}

abbrev image_network : Network small_urls
image_network = record { is_method = λ _. true; send = λ _ _. received image_response }

abbrev image : HttpResponse
image = record {
  status = 200;
  headers = (codes "content-type", codes "image/png") ∷ [];
  body = 1 ∷ 2 ∷ 3 ∷ [];
  url = codes "https://a.b.c/x";
}

abbrev hop_response : Received Text
hop_response = record small_response {
  status = 302;
  headers = (codes "location", some (codes "https://x.y/") ∷ []) ∷ [];
}

abbrev hop_network : Network small_urls
hop_network = record { is_method = λ _. true; send = λ _ _. received hop_response }

small_claim : (claim_cover_download small_book 100 small_database).0 ≡ ok true
unfolding claim_cover_download is_due lookup count book_key_beq text_beq same_option
small_claim = refl

claimed_lookup :
    lookup small_book (claim_cover_download small_book 100 small_database).1.books
    ≡ some (with_cover_state pending 100 small_row)
unfolding claim_cover_download is_due lookup update book_key_beq text_beq same_option
claimed_lookup = refl

hop_answer :
    (execute small_urls false hop_network small_domains (get small_url) cover_timeout).0
    ≡ err (domain_not_allowed (codes "https://x.y/") small_domains)
unfolding execute get after_send accept stopped_at is_followable redirect_target first_value
    domain_allowed request_host entry_allows wildcard_matches normalize_host strip_prefix before
    ends_with lower trim_end trim_start text_beq
hop_answer = refl

image_answer :
    (execute small_urls false image_network small_domains (get small_url) cover_timeout).0
    ≡ ok image
unfolding execute get after_send accept stopped_at is_followable receive_body read_body read_chunks
    collect_response_headers readable_values domain_allowed request_host entry_allows
    wildcard_matches normalize_host strip_prefix before ends_with lower trim_end trim_start text_beq
image_answer = refl

image_type : is_image (content_type image) ≡ true
unfolding content_type find_header eq_ignore_ascii_case lower text_beq before trim trim_start
    trim_end starts_with strip_prefix
image_type = refl

download_exclusive_example :
    (download small_urls false image_network small_domains small_book small_url 150 300 idle
        (claim_cover_download small_book 100 small_database).1
      ≡ ((claim_cover_download small_book 100 small_database).1, []))
    × (download small_urls true hop_network small_domains small_book small_url 100 200
          (λ d.
            (download small_urls false image_network small_domains small_book small_url 150 300 idle
              d).0)
          small_database
        ≡ download small_urls true hop_network small_domains small_book small_url 100 200
            (λ d. d)
            small_database)
download_exclusive_example =
    download_exclusive small_book 100 150 small_database small_database-IsConsistent.books_keys
      small_claim (omega arith) small_urls false image_network small_domains small_url 300 idle
      small_urls true hop_network small_domains small_url 200

download_hop_blocked_example :
    (claim_cover_download small_book 500
      (download small_urls false hop_network small_domains small_book small_url 100 200 idle
        small_database).0).0
    ≡ ok (leb cover_inflight_retry_ms (500 - 100))
download_hop_blocked_example =
    download_hop_blocked small_urls false hop_network small_domains small_book small_url 100 200
      idle small_database (codes "https://x.y/") small_domains 500
      small_database-IsConsistent.books_keys on_shelf small_url-allowed small_claim hop_answer refl

download_stored_example :
    (get_cover_bytes small_book
      (download small_urls false image_network small_domains small_book small_url 100 200 idle
        small_database).0).0
    ≡ ok (
        some (record {
          mime = mime_or_default (content_type image);
          bytes = image.body;
          fetched_at_ms = 200;
        }))
download_stored_example =
    download_stored small_urls false image_network small_domains small_book small_url 100 200 idle
      small_database image (with_cover_state pending 100 small_row) on_shelf small_url-allowed
      small_claim image_answer image_type refl claimed_lookup
