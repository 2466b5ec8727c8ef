-- ===== src/Indexer/Client/Repeat.antt =====
-- What a search leaves in the cache, and what it returns.
use torrnado.Common.{
  ◌+◌, ◌≡◌, ◌≤◌, refl, not, Option, none, some, List, [], ◌∷◌, arith, ltb, leb, inl, inr, length,
  Bool-cases,
}
use mathlib.Core.Path.{subst}
use mathlib.Core.Option.{some-injective}
use torrnado.Common.Text.{Text}
use torrnado.Common.Int64
use torrnado.Common.Keys
use torrnado.Common.Sort.{sort_stable, by_greater, IsDescending, sort_stable-IsDescending}
use torrnado.Indexer.Result.{Strings, Result, seeder_key}
use torrnado.Indexer.Cache.{
  Cache, CacheEntry, Time, get, put, fresh, make_room, room_beside, oldest_from, max_cache_entries,
  length-put,
}
use torrnado.Indexer.Client.{
  Network, Outcome, reply, failure, no_attempt, Backend, Client, Answer, results, no_query, fails,
  nothing, is_success, parsed, concluded, search_new, search_keyed, search, do_request,
}

-- The cache within its bound, with every result set sorted.
pub record IsValid (c : Client) : Type 0 where
  pub bounded : length c.cache ≤ max_cache_entries
  pub sorted : Keys.Values (λ e. IsDescending seeder_key e.results) c.cache

-- An answer with results has the most seeders first.
abbrev pub BestFirst : Answer → Type 0
BestFirst (results rs) = IsDescending seeder_key rs
BestFirst no_query = Unit
BestFirst (fails e) = Unit
BestFirst nothing = Unit

abbrev Sorted : Cache → Type 0
Sorted = Keys.Values (λ e. IsDescending seeder_key e.results)

Values-room_beside : (c : Cache) (o : Option CacheEntry) → Sorted c → Sorted (room_beside c o)
unfolding room_beside
Values-room_beside c (some w) h = h
Values-room_beside c none h = elim (Bool-cases (leb max_cache_entries (length c))) [
  | inl b ↦
      rw b (Keys.Values-erase (λ e. IsDescending seeder_key e.results) (oldest_from [] 0 c).0 c h)
  | inr b ↦ rw b h
]

Values-put :
    (key : Text) (rs : List Result) (expires : Time) (ttl : Int64.Int64) (c : Cache)
    → IsDescending seeder_key rs
    → Sorted c
    → Sorted (put key rs expires ttl c)
unfolding put make_room
Values-put key rs expires ttl c d h = elim (Bool-cases (Int64.is_neg ttl)) [
  | inl b ↦ rw b h
  | inr b ↦ rw b (
      Keys.Values-insert (λ e. IsDescending seeder_key e.results) key
        (record { results = rs; expires = expires }) (room_beside c (Keys.lookup key c)) d
        (Values-room_beside c (Keys.lookup key c) h))
]

parsed-IsValid :
    (key : Text) (now : Time) (o : Option (List Result)) (c : Client)
    → IsValid c
    → BestFirst (parsed key now o c).0 × IsValid (parsed key now o c).1
unfolding parsed
parsed-IsValid key now none c v = (tt, v)
parsed-IsValid key now (some rs) c v =
    let d = sort_stable-IsDescending seeder_key rs in
    (
      d,
      record {
        bounded =
            length-put key (sort_stable (by_greater seeder_key) rs) (now + c.ttl) c.ttl c.cache
              v.bounded;
        sorted =
            Values-put key (sort_stable (by_greater seeder_key) rs) (now + c.ttl) c.ttl c.cache d
              v.sorted;
      },
    )

concluded-IsValid :
    (b : Backend) (key : Text) (now : Time) (o : Outcome) (c : Client)
    → IsValid c
    → BestFirst (concluded b key now o c).0 × IsValid (concluded b key now o c).1
unfolding concluded
concluded-IsValid b key now no_attempt c v = (tt, v)
concluded-IsValid b key now (failure e) c v = (tt, v)
concluded-IsValid b key now (reply body code) c v = elim (Bool-cases (not (is_success code))) [
  | inl f ↦ rw f (tt, v)
  | inr s ↦ rw s (parsed-IsValid key now (b.parse body) c v)
]

fresh-IsDescending :
    (now : Time) (o : Option CacheEntry) (rs : List Result)
    → ((e : CacheEntry) → o ≡ some e → IsDescending seeder_key e.results)
    → fresh now o ≡ some rs
    → IsDescending seeder_key rs
fresh-IsDescending now none rs h p = cc
fresh-IsDescending now (some e) rs h p = elim (Bool-cases (ltb now e.expires)) [
  | inl b ↦ subst (IsDescending seeder_key) (some-injective e.results rs (rw b at p)) (h e refl)
  | inr b ↦ ground arith
]

search_new-IsValid :
    (b : Backend) (net : Network) (key : Text) (asked now : Time) (o : Option (List Result))
    (c : Client)
    → get key asked c.cache ≡ o
    → IsValid c
    → BestFirst (search_new b net key now o c).1 × IsValid (search_new b net key now o c).2
unfolding search_new get
search_new-IsValid b net key asked now none c e v =
    concluded-IsValid b key now (do_request net c.attempts).1 c v
search_new-IsValid b net key asked now (some rs) c e v = (
  fresh-IsDescending asked (Keys.lookup key c.cache) rs
      (λ w p. Keys.Values-lookup (λ e. IsDescending seeder_key e.results) key c.cache v.sorted p) e,
  v,
)

search_keyed-IsValid :
    (b : Backend) (net : Network) (key : Text) (asked now : Time) (c : Client)
    → IsValid c
    → BestFirst (search_keyed b net key asked now c).1
      × IsValid (search_keyed b net key asked now c).2
unfolding search_keyed
search_keyed-IsValid b net [] asked now c v = (tt, v)
search_keyed-IsValid b net (x ∷ s) asked now c v =
    search_new-IsValid b net (x ∷ s) asked now (get (x ∷ s) asked c.cache) c refl v

module _ ⦃str : Strings⦄ where
  -- A search keeps its cache at 64 entries or fewer, each sorted, and whatever it returns, from the
  -- aggregator or from the cache, has the most seeders first.
  pub search-IsValid :
      (b : Backend) (net : Network) (query : Text) (asked now : Time) (c : Client)
      → IsValid c
      → BestFirst (search b net query asked now c).1 × IsValid (search b net query asked now c).2
  unfolding search
  search-IsValid b net query asked now c v =
      search_keyed-IsValid b net (str.lower (str.trim query)) asked now c v
