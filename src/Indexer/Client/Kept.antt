-- ===== src/Indexer/Client/Kept.antt =====
-- What a repeated search of internal/indexer answers from the cache, after other searches.
use torrnado.Common.{
  ℕ, ◌+◌, ◌≡◌, ◌≤◌, ◌<◌, refl, ap, sym, ◌∙◌, false, not, Option, none, some, List, [], ◌∷◌, arith,
  inl, inr, length, Bool-cases, All,
}
use mathlib.Core.Path.{subst}
use torrnado.Common.Text.{Text, text_eq, text_eq_iff}
use torrnado.Common.Int64
use torrnado.Common.Keys
use torrnado.Common.Sort.{sort_stable, by_greater}
use torrnado.Indexer.Result.{Strings, Result, seeder_key}
use torrnado.Indexer.Cache.{CacheEntry, Time, get, put, max_cache_entries, lookup-put, lookup_own}
use torrnado.Indexer.Client.{
  Network, Outcome, reply, failure, no_attempt, Backend, Client, results, is_success, parsed,
  concluded, search_new, search_keyed, search, do_request,
}

parsed-results :
    (key : Text) (now : Time) (o : Option (List Result)) (c : Client) (rs : List Result)
    → (parsed key now o c).0 ≡ results rs
    → (parsed key now o c).1.cache ≡ put key rs (now + c.ttl) c.ttl c.cache
unfolding parsed
parsed-results key now none c rs h = cc
parsed-results key now (some ss) c rs h = cc

concluded-results :
    (b : Backend) (key : Text) (now : Time) (o : Outcome) (c : Client) (rs : List Result)
    → (concluded b key now o c).0 ≡ results rs
    → (concluded b key now o c).1.cache ≡ put key rs (now + c.ttl) c.ttl c.cache
unfolding concluded
concluded-results b key now no_attempt c rs h = cc
concluded-results b key now (failure e) c rs h = cc
concluded-results b key now (reply body code) c rs h = elim (Bool-cases (not (is_success code))) [
  | inl f ↦ ground arith
  | inr s ↦ rw s (parsed-results key now (b.parse body) c rs (rw s at h))
]

-- The entry is there, and there are at most `n`.
record Holds (key : Text) (w : CacheEntry) (n : ℕ) (c : Client) : Type 0 where
  pub there : Keys.lookup key c.cache ≡ some w
  pub within : length c.cache ≤ n

-- A search of another key leaves it there, where the cache is not full.
parsed-Holds :
    (key j : Text) (w : CacheEntry) (n : ℕ) (now : Time) (o : Option (List Result)) (c : Client)
    → text_eq j key ≡ false
    → n < max_cache_entries
    → Holds key w n c
    → Holds key w (n + 1) (parsed j now o c).1
unfolding parsed
parsed-Holds key j w n now none c other room h =
    let le = h.within in record { there = h.there; within = omega arith }
parsed-Holds key j w n now (some rs) c other room h =
    let le = h.within in
    let (same, grown) =
      lookup-put j key (sort_stable (by_greater seeder_key) rs) (now + c.ttl) c.ttl c.cache other
        (omega arith) in
    record { there = same ∙ h.there; within = omega arith }

concluded-Holds :
    (b : Backend) (key j : Text) (w : CacheEntry) (n : ℕ) (now : Time) (o : Outcome) (c : Client)
    → text_eq j key ≡ false
    → n < max_cache_entries
    → Holds key w n c
    → Holds key w (n + 1) (concluded b j now o c).1
unfolding concluded
concluded-Holds b key j w n now no_attempt c other room h =
    let le = h.within in record { there = h.there; within = omega arith }
concluded-Holds b key j w n now (failure e) c other room h =
    let le = h.within in record { there = h.there; within = omega arith }
concluded-Holds b key j w n now (reply body code) c other room h =
    elim (Bool-cases (not (is_success code))) [
      | inl f ↦ let le = h.within in rw f (record { there = h.there; within = omega arith })
      | inr s ↦ rw s (parsed-Holds key j w n now (b.parse body) c other room h)
    ]

-- The key that is held is answered from the cache until the entry expires.
get_held :
    (key : Text) (w : CacheEntry) (asked : Time) (c : Client)
    → Keys.lookup key c.cache ≡ some w
    → asked < w.expires
    → get key asked c.cache ≡ some w.results
unfolding get
get_held key w asked c there early = rw there (ground arith)

search_new-Holds :
    (b : Backend) (net : Network) (key j : Text) (w : CacheEntry) (n : ℕ) (now : Time)
    (o : Option (List Result)) (c : Client)
    → text_eq j key ≡ false
    → n < max_cache_entries
    → Holds key w n c
    → Holds key w (n + 1) (search_new b net j now o c).2
unfolding search_new
search_new-Holds b net key j w n now none c other room h =
    concluded-Holds b key j w n now (do_request net c.attempts).1 c other room h
search_new-Holds b net key j w n now (some hit) c other room h =
    let le = h.within in record { there = h.there; within = omega arith }

-- A search of the same key, while the entry is fresh.
search_held :
    (b : Backend) (net : Network) (x : ℕ) (s : Text) (w : CacheEntry) (asked now : Time)
    (c : Client)
    → Keys.lookup (x ∷ s) c.cache ≡ some w
    → asked < w.expires
    → search_keyed b net (x ∷ s) asked now c ≡ ([], results w.results, c)
unfolding search_keyed search_new
search_held b net x s w asked now c there early = rw (get_held (x ∷ s) w asked c there early) refl

search_keyed-Holds :
    (b : Backend) (net : Network) (x : ℕ) (s j : Text) (w : CacheEntry) (n : ℕ) (asked now : Time)
    (c : Client)
    → n < max_cache_entries
    → asked < w.expires
    → Holds (x ∷ s) w n c
    → Holds (x ∷ s) w (n + 1) (search_keyed b net j asked now c).2
unfolding search_keyed
search_keyed-Holds b net x s [] w n asked now c room early h =
    let le = h.within in record { there = h.there; within = omega arith }
search_keyed-Holds b net x s (y ∷ t) w n asked now c room early h =
    elim (Bool-cases (text_eq (y ∷ t) (x ∷ s))) [
      | inr other ↦ search_new-Holds b net (x ∷ s) (y ∷ t) w n now _ c other room h
      | inl same ↦
          let le = h.within in
          subst (λ k. Holds (x ∷ s) w (n + 1) (search_keyed b net k asked now c).2)
            (sym ((text_eq_iff (y ∷ t) (x ∷ s)).0 same))
            (rw (search_held b net x s w asked now c h.there early)
              (record { there = h.there; within = omega arith }))
    ]

-- The first search of a key leaves its entry.
first-Holds :
    (b : Backend) (net : Network) (x : ℕ) (s : Text) (asked now : Time) (c : Client)
    (rs : List Result) (n : ℕ)
    → get (x ∷ s) asked c.cache ≡ none
    → (search_keyed b net (x ∷ s) asked now c).1 ≡ results rs
    → Int64.is_neg c.ttl ≡ false
    → length c.cache < n
    → n ≤ max_cache_entries
    → Holds
        (x ∷ s)
        (record { results = rs; expires = now + c.ttl })
        n
        (search_keyed b net (x ∷ s) asked now c).2
unfolding search_keyed search_new
first-Holds b net x s asked now c rs n new found on below room =
    let outcome = (do_request net c.attempts).1 in
    let kept = concluded-results b (x ∷ s) now outcome c rs (rw new at found) in
    let (own, grown) = lookup_own (x ∷ s) rs (now + c.ttl) c.ttl c.cache on in
    rw (new, search_new)
      (record { there = ap (Keys.lookup (x ∷ s)) kept ∙ own; within = rw kept (omega arith) })

-- A search's query, what the network answers to it, and the times at which the cache is asked and
-- at which the results are put into it.
pub record Visit : Type 0 where
  pub net : Network
  pub query : Text
  pub asked : Time
  pub now : Time

module _ ⦃str : Strings⦄ (b : Backend) where
  -- The client after several searches.
  unfoldable pub searches : List Visit → Client → Client
  searches [] c = c
  searches (v ∷ vs) c = searches vs (search b v.net v.query v.asked v.now c).2

  searches-Holds :
      (x : ℕ) (s : Text) (w : CacheEntry) (vs : List Visit) (n : ℕ) (c : Client)
      → n + length vs ≤ max_cache_entries
      → All (λ v. v.asked < w.expires) vs
      → Holds (x ∷ s) w n c
      → Holds (x ∷ s) w (n + length vs) (searches vs c)
  unfolding searches search
  searches-Holds x s w [] n c room early h =
      let le = h.within in record { there = h.there; within = omega arith }
  searches-Holds x s w (v ∷ vs) n c room (e, early) h =
      let next =
        search_keyed-Holds b v.net x s (str.lower (str.trim v.query)) w n v.asked v.now c
          (omega arith) e h in
      let last = searches-Holds x s w vs (n + 1) _ (omega arith) early next in
      let le = last.within in record { there = last.there; within = omega arith }

  search_keyed-again :
      (net net' : Network) (key : Text) (vs : List Visit) (asked now asked' now' : Time)
      (c : Client) (rs : List Result)
      → get key asked c.cache ≡ none
      → (search_keyed b net key asked now c).1 ≡ results rs
      → Int64.is_neg c.ttl ≡ false
      → length c.cache + length vs < max_cache_entries
      → All (λ v. v.asked < now + c.ttl) vs
      → asked' < now + c.ttl
      → search_keyed b net' key asked' now' (searches vs (search_keyed b net key asked now c).2)
        ≡ ([], results rs, searches vs (search_keyed b net key asked now c).2)
  search_keyed-again net net' [] vs asked now asked' now' c rs new found on room early e =
      unfold search_keyed in cc
  search_keyed-again net net' (x ∷ s) vs asked now asked' now' c rs new found on room early e =
      let w : CacheEntry = record { results = rs; expires = now + c.ttl } in
      let first =
        first-Holds b net x s asked now c rs (length c.cache + 1) new found on (omega arith)
          (omega arith) in
      let last = searches-Holds x s w vs (length c.cache + 1) _ (omega arith) early first in
      search_held b net' x s w asked' now' _ last.there e

  -- A query that was not cached, and whose results arrived, is answered with the same results and
  -- without a request, also if it is spelled in another case or with other spaces around it, and the
  -- client stays as it is: until the time to live is over, and after any other searches, as long as
  -- all that is cached and those searches come to fewer than 64, and each of them asks the cache
  -- before that time too. Caching is on.
  pub search-search :
      (net net' : Network) (query query' : Text) (vs : List Visit) (asked now asked' now' : Time)
      (c : Client) (rs : List Result)
      → str.lower (str.trim query') ≡ str.lower (str.trim query)
      → get (str.lower (str.trim query)) asked c.cache ≡ none
      → (search b net query asked now c).1 ≡ results rs
      → Int64.is_neg c.ttl ≡ false
      → length c.cache + length vs < max_cache_entries
      → All (λ v. v.asked < now + c.ttl) vs
      → asked' < now + c.ttl
      → search b net' query' asked' now' (searches vs (search b net query asked now c).2)
        ≡ ([], results rs, searches vs (search b net query asked now c).2)
  unfolding search
  search-search net net' query query' vs asked now asked' now' c rs same new found on room early e =
      ap
        (λ key.
          search_keyed b net' key asked' now' (searches vs (search b net query asked now c).2))
        same
      ∙ search_keyed-again net net' (str.lower (str.trim query)) vs asked now asked' now' c rs new
          found on room early e
