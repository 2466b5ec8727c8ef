-- ===== src/Indexer/Cache.antt =====
-- internal/indexer/cache.go: the recent result sets, by their query.
use torrnado.Common.{
  ℕ, ◌+◌, ◌≤◌, ◌<◌, ◌≡◌, ◌≢◌, refl, ap, ◌∙◌, false, ◌||◌, Option, none, some, List, [], ◌∷◌, arith,
  ◌==◌, ltb, leb, if◌then◌else◌, ◌⊎◌, inl, inr, length, Bool-cases, Option-cases,
}
use torrnado.Common.Text.{Text, text_eq, text_eq_iff, text_eq_refl}
use torrnado.Common.Int64
use torrnado.Common.Int64.{Int64}
use torrnado.Common.Keys
use torrnado.Indexer.Result.{Result}

-- Nanoseconds from Go's zero time on.
abbrev pub Time : Type 0
Time = ℕ

abbrev pub max_cache_entries : ℕ
max_cache_entries = 64

pub record CacheEntry : Type 0 where
  pub results : List Result
  pub expires : Time

abbrev pub Cache : Type 0
Cache = List (Text × CacheEntry)

abbrev pub fresh : Time → Option CacheEntry → Option (List Result)
fresh now none = none
fresh now (some e) = if ltb now e.expires then some e.results else none

unfoldable pub get : Text → Time → Cache → Option (List Result)
unfolding Keys.lookup
get key now c = fresh now (Keys.lookup key c)

-- The loop of `put` over the entries: the key and the time of the entry that expires first so far.
unfoldable pub oldest_from : Text → Time → Cache → Text × Time
oldest_from key oldest [] = (key, oldest)
oldest_from key oldest ((k, e) ∷ c) =
    let older = oldest == 0 || ltb e.expires oldest in
    oldest_from (if older then k else key) (if older then e.expires else oldest) c

-- A full cache drops the entry that expires first, unless the new one takes an entry's place.
unfoldable pub room_beside : Cache → Option CacheEntry → Cache
unfolding oldest_from Keys.erase
room_beside c (some _) = c
room_beside c none =
    if leb max_cache_entries (length c) then Keys.erase (oldest_from [] 0 c).0 c else c

unfoldable pub make_room : Text → Cache → Cache
unfolding room_beside Keys.lookup
make_room key c = room_beside c (Keys.lookup key c)

unfoldable pub put : Text → List Result → Time → Int64 → Cache → Cache
unfolding make_room Keys.insert
put key results expires ttl c =
    if Int64.is_neg ttl
    then c
    else Keys.insert key (record { results = results; expires = expires }) (make_room key c)

module _ {V : Type 0} where
  length-insert_new :
      (k : Text) (v : V) (m : List (Text × V)) → length (Keys.insert k v m) ≤ length m + 1
  unfolding Keys.insert
  length-insert_new k v [] = omega arith
  length-insert_new k v ((j, w) ∷ m) = ground (arith, length-insert_new k v m)

  length-insert_old :
      (k : Text) (v w : V) (m : List (Text × V))
      → Keys.lookup k m ≡ some w
      → length (Keys.insert k v m) ≡ length m
  unfolding Keys.insert Keys.lookup
  length-insert_old k v w [] h = cc
  length-insert_old k v w ((j, u) ∷ m) h = ground (arith, length-insert_old k v w m)

  length-erase-le : (k : Text) (m : List (Text × V)) → length (Keys.erase k m) ≤ length m
  unfolding Keys.erase
  length-erase-le k [] = omega arith
  length-erase-le k ((j, w) ∷ m) = ground (arith, length-erase-le k m)

  length-erase-lt :
      (k : Text) (m : List (Text × V)) → Keys.lookup k m ≢ none → length (Keys.erase k m) < length m
  unfolding Keys.erase Keys.lookup
  length-erase-lt k [] h = absurd (h refl)
  length-erase-lt k ((j, w) ∷ m) h = ground (arith, length-erase-lt k m, length-erase-le k m)

in_head : (j k : Text) (e : CacheEntry) (c : Cache) → j ≡ k → Keys.lookup j ((k, e) ∷ c) ≢ none
unfolding Keys.lookup
in_head j k e c h = ground (arith, text_eq_iff k j)

in_tail :
    (j k : Text) (e : CacheEntry) (c : Cache)
    → Keys.lookup j c ≢ none
    → Keys.lookup j ((k, e) ∷ c) ≢ none
unfolding Keys.lookup
in_tail j k e c h = ground (arith, text_eq_iff k j)

-- The key that the loop ends with is an entry's, or the one it began with.
oldest_from-key :
    (key : Text) (oldest : Time) (c : Cache)
    → ((oldest_from key oldest c).0 ≡ key) ⊎ (Keys.lookup (oldest_from key oldest c).0 c ≢ none)
unfolding oldest_from
oldest_from-key key oldest [] = inl refl
oldest_from-key key oldest ((k, e) ∷ c) = elim (Bool-cases (oldest == 0 || ltb e.expires oldest)) [
  | inl b ↦
      rw (b, oldest_from)
        (elim (oldest_from-key k e.expires c) [
          | inl h ↦ inr (in_head (oldest_from k e.expires c).0 k e c h)
          | inr h ↦ inr (in_tail (oldest_from k e.expires c).0 k e c h)
        ])
  | inr b ↦
      rw (b, oldest_from)
        (elim (oldest_from-key key oldest c) [
          | inl h ↦ inl h
          | inr h ↦ inr (in_tail (oldest_from key oldest c).0 k e c h)
        ])
]

oldest-lookup :
    (k : Text) (e : CacheEntry) (c : Cache)
    → Keys.lookup (oldest_from [] 0 ((k, e) ∷ c)).0 ((k, e) ∷ c) ≢ none
unfolding oldest_from
oldest-lookup k e c = elim (oldest_from-key k e.expires c) [
  | inl h ↦ in_head (oldest_from k e.expires c).0 k e c h
  | inr h ↦ in_tail (oldest_from k e.expires c).0 k e c h
]

-- A full cache has room for one more afterwards.
length-room_beside :
    (c : Cache) → length c ≤ max_cache_entries → length (room_beside c none) < max_cache_entries
unfolding room_beside
length-room_beside [] h = omega arith
length-room_beside ((k, e) ∷ c) h =
    let lt = length-erase-lt (oldest_from [] 0 ((k, e) ∷ c)).0 ((k, e) ∷ c) (oldest-lookup k e c) in
    ground arith

length-insert :
    (key : Text) (entry : CacheEntry) (c : Cache)
    → length c ≤ max_cache_entries
    → length (Keys.insert key entry (make_room key c)) ≤ max_cache_entries
unfolding make_room room_beside
length-insert key entry c h = elim (Option-cases (Keys.lookup key c)) [
  | inl new ↦
      let room = length-room_beside c h in
      let one = length-insert_new key entry (room_beside c none) in
      rw (new, make_room) (omega arith)
  | inr (w, old) ↦ rw (old, make_room, length-insert_old key entry w c old) h
]

-- The cache never has more than 64 entries.
pub length-put :
    (key : Text) (results : List Result) (expires : Time) (ttl : Int64) (c : Cache)
    → length c ≤ max_cache_entries
    → length (put key results expires ttl c) ≤ max_cache_entries
unfolding put
length-put key results expires ttl c h = elim (Bool-cases (Int64.is_neg ttl)) [
  | inl b ↦ rw b h
  | inr b ↦ rw b (length-insert key (record { results = results; expires = expires }) c h)
]

lookup-room_beside :
    (j : Text) (c : Cache) (o : Option CacheEntry)
    → (Keys.lookup j (room_beside c o) ≡ Keys.lookup j c)
      ⊎ ((Keys.lookup j (room_beside c o) ≡ none) × (max_cache_entries ≤ length c))
unfolding room_beside
lookup-room_beside j c (some w) = inl refl
lookup-room_beside j c none = ground (arith, Keys.lookup-erase (oldest_from [] 0 c).0 j c)

-- What is put is there until it expires. What is there under another key stays, or it is dropped,
-- and that only where the cache was full.
get-put :
    (key j : Text) (now : Time) (results : List Result) (expires : Time) (ttl : Int64) (c : Cache)
    → Int64.is_neg ttl ≡ false
    → (get key now (put key results expires ttl c)
        ≡ (if ltb now expires then some results else none))
      × ((key ≡ j)
          ⊎ (get j now (put key results expires ttl c) ≡ get j now c)
          ⊎ ((get j now (put key results expires ttl c) ≡ none) × (max_cache_entries ≤ length c)))
unfolding get put make_room
get-put key j now results expires ttl c on =
    let entry : CacheEntry = record { results = results; expires = expires } in
    let room = room_beside c (Keys.lookup key c) in
    let own : Keys.lookup key (Keys.insert key entry room) ≡ some entry =
      rw (Keys.lookup-insert key key entry room, text_eq_refl key) refl in
    rw on (
      ap (fresh now) own,
      elim (Bool-cases (text_eq key j)) [
        | inl b ↦ inl ((text_eq_iff key j).0 b)
        | inr b ↦
            let at : Keys.lookup j (Keys.insert key entry room) ≡ Keys.lookup j room =
              rw (Keys.lookup-insert key j entry room, b) refl in
            inr (elim (lookup-room_beside j c (Keys.lookup key c)) [
              | inl e ↦ inl (ap (fresh now) (at ∙ e))
              | inr (e, full) ↦ inr (ap (fresh now) (at ∙ e), full)
            ])
      ],
    )

length-room_beside-le : (c : Cache) (o : Option CacheEntry) → length (room_beside c o) ≤ length c
unfolding room_beside
length-room_beside-le c (some w) = omega arith
length-room_beside-le c none = ground (arith, length-erase-le (oldest_from [] 0 c).0 c)

-- A cache that is not full keeps what is there under another key, and grows by an entry at most.
pub lookup-put :
    (key j : Text) (results : List Result) (expires : Time) (ttl : Int64) (c : Cache)
    → text_eq key j ≡ false
    → length c < max_cache_entries
    → (Keys.lookup j (put key results expires ttl c) ≡ Keys.lookup j c)
      × (length (put key results expires ttl c) ≤ length c + 1)
unfolding put make_room
lookup-put key j results expires ttl c other room = elim (Bool-cases (Int64.is_neg ttl)) [
  | inl b ↦ rw b (refl, omega arith)
  | inr b ↦
      let entry : CacheEntry = record { results = results; expires = expires } in
      let beside = room_beside c (Keys.lookup key c) in
      let one = length-insert_new key entry beside in
      let le = length-room_beside-le c (Keys.lookup key c) in
      let at : Keys.lookup j (Keys.insert key entry beside) ≡ Keys.lookup j beside =
        rw (Keys.lookup-insert key j entry beside, other) refl in
      rw b (
        at ∙ elim (lookup-room_beside j c (Keys.lookup key c)) [
          | inl e ↦ e
          | inr (e, full) ↦ absurd (omega arith)
        ],
        omega arith,
      )
]

-- What is put is there, and takes the place of an entry at most.
pub lookup_own :
    (key : Text) (results : List Result) (expires : Time) (ttl : Int64) (c : Cache)
    → Int64.is_neg ttl ≡ false
    → (Keys.lookup key (put key results expires ttl c)
        ≡ some (record { results = results; expires = expires }))
      × (length (put key results expires ttl c) ≤ length c + 1)
unfolding put make_room
lookup_own key results expires ttl c on =
    let entry : CacheEntry = record { results = results; expires = expires } in
    let beside = room_beside c (Keys.lookup key c) in
    let one = length-insert_new key entry beside in
    let le = length-room_beside-le c (Keys.lookup key c) in
    rw on (rw (Keys.lookup-insert key key entry beside, text_eq_refl key) refl, omega arith)
