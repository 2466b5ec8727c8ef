-- ===== src/Indexer/Tests.antt =====
-- The theorems about internal/indexer at concrete inputs.
use torrnado.Common.{
  ◌||◌, ℕ, zero, suc, ◌+◌, ◌*◌, ◌^◌, ◌≡◌, ◌<◌, ◌≤◌, refl, true, false, ◌&&◌, none, some, List, [],
  ◌∷◌, ◌++◌, map, arith, ◌==◌, if◌then◌else◌, ◌↔◌, take, filter,
}
use torrnado.Common.Text.{Text, codes, text_eq, every}
use torrnado.Common.Int64
use torrnado.Common.Sort.{IsDescending, sort_stable, by_greater}
use torrnado.Indexer.Result.{
  Strings, StringsLaws, is_ascii, ascii_lower, Result, Reply, Source, Resolved, unknown, seeder_key,
}
use torrnado.Indexer.Token.{token, parse_token, parse_token_iff, IsSource, IsId}
use torrnado.Indexer.Multi.{
  gather, gather_answer, name_error, names_itself, dedupe, dedupe_from, info_hash, search_all,
  marker,
}
use torrnado.Indexer.Multi.Distinct.{has_hash}
use torrnado.Indexer.Multi.Search.{search_best_first, answered}
use torrnado.Indexer.Multi.Panic.{search_panics, strokes}
use torrnado.Indexer.Cache.{get}
use torrnado.Indexer.Client.{
  Network, Backend, Client, TransportError, classify, Kind, reply, failure, Trip, replied, broken,
  do_request, results, search, base_backoff,
}
use torrnado.Indexer.Client.Retry.{retry_bounds, reply-do_request, sent, waited}
use torrnado.Indexer.Client.Kept.{Visit, searches, search-search}
use torrnado.Indexer.Client.Repeat.{search-IsValid, IsValid, BestFirst}

-- `Strings` for texts of ASCII letters and U+023A.
lower_simple : Text → Text
lower_simple [] = []
lower_simple (c ∷ []) = ascii_lower c ∷ []
lower_simple (c ∷ d ∷ s) =
    let grown = lower_simple s in
    let same = lower_simple (d ∷ s) in
    if c == 200 && d == 186 then 226 ∷ 177 ∷ 165 ∷ grown else ascii_lower c ∷ same

abbrev simple_strings : Strings
simple_strings = record { lower = lower_simple; trim = λ s. s }

lower_simple-ascii : (s : Text) → every is_ascii s ≡ true → lower_simple s ≡ map ascii_lower s
unfolding lower_simple every
lower_simple-ascii [] h = refl
lower_simple-ascii (c ∷ []) h = refl
lower_simple-ascii (c ∷ d ∷ s) h = ground (arith, lower_simple-ascii (d ∷ s))

simple_laws : StringsLaws simple_strings
unfolding lower_simple
simple_laws = record { lower_ascii = lower_simple-ascii; lower_stroke = λ s. refl }

abbrev movie : Text → Int64.Int64 → Result
movie link seeders = record {
  title = codes "Some Film";
  size = 700;
  seeders = seeders;
  leechers = 1;
  tracker = codes "t";
  link = link;
}

abbrev good_source : List Result → Source
good_source rs = record {
  sources = codes "jackett" ∷ [];
  search = λ q. record { results = rs; warnings = []; err = none };
  resolve = none;
}

abbrev bad_source : Source
bad_source = record {
  sources = codes "rutracker" ∷ [];
  search = λ q. record { results = []; warnings = []; err = some (codes "down") };
  resolve = some (λ id. Resolved.link (codes "magnet:?" ++ id));
}

abbrev magnet : Text
magnet = codes "magnet:?xt=urn:btih:ABC&dn=x"

abbrev two_sources : List Source
two_sources =
    good_source (movie magnet 3 ∷ movie (codes "http://x") unknown ∷ movie magnet 9 ∷ [])
    ∷ bad_source
    ∷ []

abbrev two_reply : Reply
two_reply = record {
  results = movie magnet 3 ∷ movie (codes "http://x") unknown ∷ [];
  warnings = codes "rutracker: down" ∷ [];
  err = none;
}

searched : search_all ⦃str = simple_strings⦄ two_sources (codes "film") ≡ some two_reply
unfolding search_all lower_simple gather gather_answer name_error names_itself dedupe info_hash
    dedupe_from sort_stable
searched = refl

parse_token_iff_example :
    (parse_token (codes "rutracker:6916386") ≡ some (codes "rutracker", codes "6916386")) ↔ (
      (codes "rutracker:6916386" ≡ token (codes "rutracker") (codes "6916386"))
      × IsSource (codes "rutracker")
      × IsId (codes "6916386"))
parse_token_iff_example =
    parse_token_iff (codes "rutracker:6916386") (codes "rutracker") (codes "6916386")

search_best_first_example :
    IsDescending seeder_key two_reply.results
    × (filter (has_hash ⦃str = simple_strings⦄ (codes "abc")) two_reply.results ≡ (
        if text_eq (codes "abc") []
        then sort_stable (by_greater seeder_key) (
            filter
              (has_hash ⦃str = simple_strings⦄ (codes "abc"))
              (answered (codes "film") two_sources))
        else take 1 (
            filter
              (has_hash ⦃str = simple_strings⦄ (codes "abc"))
              (answered (codes "film") two_sources))))
search_best_first_example =
    search_best_first ⦃str = simple_strings⦄ two_sources (codes "film") two_reply (codes "abc")
      searched refl

-- Three letters, the marker, and two characters of a hash.
abbrev grown : Text
grown = strokes 3 ++ (marker ++ codes "ab")

search_panics_example :
    search_all ⦃str = simple_strings⦄
      (good_source (movie grown 1 ∷ []) ∷ bad_source ∷ [])
      (codes "film")
    ≡ none
unfolding every
search_panics_example =
    search_panics ⦃str = simple_strings⦄ simple_laws (good_source (movie grown 1 ∷ []))
      (bad_source ∷ []) (codes "film") (movie grown 1) [] 3 (codes "ab") refl refl refl
      (omega arith) refl

-- The first attempt runs out of time, the second is answered.
abbrev slow : TransportError
slow = record { message = codes "timeout"; deadline_exceeded = false; net_timeout = true }

abbrev trip_at : ℕ → Trip
trip_at zero = broken slow
trip_at (suc n) = replied (codes "[]") 200

trip-first : (i : ℕ) → i < 1 → trip_at i ≡ broken slow
trip-first zero below = refl
trip-first (suc i) below = absurd (omega arith)

abbrev slow_network : Network
slow_network = record { gave_up = λ n. none; built = λ n. none; trip = trip_at }

abbrev parser : Backend
parser = record { parse = λ body. some (movie magnet 3 ∷ movie magnet 9 ∷ []) }

abbrev client : Client
client = record { attempts = 3; ttl = 300; cache = [] }

retry_bounds_example :
    (sent (do_request slow_network 3).0 ≤ 2 + 1)
    × (waited (do_request slow_network 3).0 < base_backoff * 2 ^ 2)
retry_bounds_example = retry_bounds slow_network 2

reply-do_request_example : (do_request slow_network 3).1 ≡ (
    if 200 == 401 || 200 == 403
    then failure (record { kind = Kind.auth; code = 200; cause = none })
    else reply (codes "[]") 200)
unfolding classify
reply-do_request_example =
    reply-do_request slow_network 3 1 (codes "[]") 200 (omega arith)
      (λ i below. (slow, refl, refl, trip-first i below, refl)) refl refl refl

search-IsValid_example :
    BestFirst (search ⦃str = simple_strings⦄ parser slow_network (codes "Film") 1 2 client).1
    × IsValid (search ⦃str = simple_strings⦄ parser slow_network (codes "Film") 1 2 client).2
search-IsValid_example =
    search-IsValid ⦃str = simple_strings⦄ parser slow_network (codes "Film") 1 2 client
      (record { bounded = omega arith; sorted = tt })

-- Another search in between.
abbrev other_visit : Visit
other_visit = record { net = slow_network; query = codes "series"; asked = 3; now = 4 }

search-search_example :
    search ⦃str = simple_strings⦄ parser slow_network (codes "film") 9 9 (
      searches ⦃str = simple_strings⦄ parser
        (other_visit ∷ [])
        (search ⦃str = simple_strings⦄ parser slow_network (codes "Film") 1 2 client).2)
    ≡ (
      [],
      results (movie magnet 9 ∷ movie magnet 3 ∷ []),
      searches ⦃str = simple_strings⦄ parser
          (other_visit ∷ [])
          (search ⦃str = simple_strings⦄ parser slow_network (codes "Film") 1 2 client).2,
    )
unfolding search lower_simple get sort_stable
search-search_example =
    search-search ⦃str = simple_strings⦄ parser slow_network slow_network (codes "Film")
      (codes "film") (other_visit ∷ []) 1 2 9 9 client (movie magnet 9 ∷ movie magnet 3 ∷ []) refl
      refl refl refl (omega arith) (omega arith, tt) (omega arith)
