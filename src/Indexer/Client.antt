-- ===== src/Indexer/Client.antt =====
-- internal/indexer/indexer.go and errors.go: one aggregator, asked with retries and cached.
pub mod Retry
pub mod Repeat
pub mod Kept
use torrnado.Common.{
  ℕ, zero, suc, ◌+◌, ◌-◌, ◌*◌, ◌^◌, Bool, true, false, ◌||◌, not, Option, none, some, List, [], ◌∷◌,
  ◌==◌, ltb, if◌then◌else◌,
}
use torrnado.Common.Text.{Text}
use torrnado.Common.Int64
use torrnado.Common.Int64.{Int64}
use torrnado.Common.Sort.{sort_stable, by_greater}
use torrnado.Indexer.Result.{Strings, Result, seeder_key}
use torrnado.Indexer.Cache.{Cache, Time, get, put}

-- `Kind`
pub data Kind : Type 0 where
  unreachable auth status timeout decode : Kind

-- A transport error, as far as `classify` asks about it: `errors.Is(err, context.DeadlineExceeded)`,
-- and whether it is a `net.Error` that reports a timeout.
pub record TransportError : Type 0 where
  pub message : Text
  pub deadline_exceeded : Bool
  pub net_timeout : Bool

-- `*Error`; the status is 0 but for `auth` and `status`
pub record Error : Type 0 where
  pub kind : Kind
  pub code : ℕ
  pub cause : Option TransportError

unfoldable pub classify : TransportError → Error
classify err = record {
  kind = if err.deadline_exceeded || err.net_timeout then Kind.timeout else Kind.unreachable;
  code = 0;
  cause = some err;
}

abbrev pub is_timeout : Kind → Bool
is_timeout Kind.timeout = true
is_timeout Kind.unreachable = false
is_timeout Kind.auth = false
is_timeout Kind.status = false
is_timeout Kind.decode = false

abbrev pub base_backoff : ℕ
base_backoff = 500000000

-- What `roundTrip` returns: a body, limited in length, with a status, or an error.
pub data Trip : Type 0 where
  replied : Text → ℕ → Trip
  broken : TransportError → Trip

-- What the world answers in each attempt, by its number: whether the caller gave up during the wait
-- before it, whether the request could be built, and the round trip.
pub record Network : Type 0 where
  pub gave_up : ℕ → Option TransportError
  pub built : ℕ → Option TransportError
  pub trip : ℕ → Trip

-- The outcome of `do`; where `attempts` is 0 it has neither a reply nor an error.
pub data Outcome : Type 0 where
  reply : Text → ℕ → Outcome
  failure : Error → Outcome
  no_attempt : Outcome

-- What `do` does on its way: it waits for so long, or sends a request.
pub data Act : Type 0 where
  waits : ℕ → Act
  sends : ℕ → Act

unfoldable pub last_failure : Option Error → Outcome
last_failure none = no_attempt
last_failure (some e) = failure e

unfoldable pub judge : Text → ℕ → Outcome
judge body code =
    if code == 401 || code == 403
    then failure (record { kind = Kind.auth; code = code; cause = none })
    else reply body code

abbrev pub acting : Act → List Act × Outcome → List Act × Outcome
acting a (acts, o) = (a ∷ acts, o)

-- An attempt's request, and what follows if it times out.
unfoldable pub answered_by : ℕ → (Option Error → List Act × Outcome) → Trip → List Act × Outcome
unfolding classify judge
answered_by n rest (replied body code) = (sends n ∷ [], judge body code)
answered_by n rest (broken err) =
    let e = classify err in
    if not (is_timeout e.kind) then (sends n ∷ [], failure e) else acting (sends n) (rest (some e))

unfoldable pub built_by :
    Network → ℕ → (Option Error → List Act × Outcome) → Option TransportError → List Act × Outcome
unfolding answered_by
built_by net n rest (some err) =
    ([], failure (record { kind = Kind.unreachable; code = 0; cause = some err }))
built_by net n rest none = answered_by n rest (net.trip n)

-- The wait before every attempt but the first, abandoned where the caller gives up.
unfoldable pub waited_by :
    Network → ℕ → (Option Error → List Act × Outcome) → Option TransportError → List Act × Outcome
unfolding classify built_by
waited_by net n rest (some err) = ([], failure (classify err))
waited_by net n rest none =
    acting (waits (base_backoff * 2 ^ (n - 1))) (built_by net n rest (net.built n))

unfoldable pub attempt : Network → ℕ → (Option Error → List Act × Outcome) → List Act × Outcome
unfolding waited_by
attempt net n rest =
    if ltb 0 n then waited_by net n rest (net.gave_up n) else built_by net n rest (net.built n)

-- The loop of `do` over the attempts that are left.
unfoldable pub attempts_from : Network → ℕ → ℕ → Option Error → List Act × Outcome
unfolding attempt last_failure
attempts_from net n zero last = ([], last_failure last)
attempts_from net n (suc left) last = attempt net n λ last'. attempts_from net (suc n) left last'

unfoldable pub do_request : Network → ℕ → List Act × Outcome
unfolding attempts_from
do_request net attempts = attempts_from net 0 attempts none

-- The default number of attempts of `New`, and the default time to live.
unfoldable pub default_attempts : Int64 → ℕ
default_attempts n = if Int64.is_nonpos n then 3 else n

unfoldable pub default_ttl : Int64 → Int64
default_ttl ttl = if ttl == 0 then 300000000000 else ttl

-- The aggregator's own half, as far as a search needs it.
pub record Backend : Type 0 where
  pub parse : Text → Option (List Result)

pub record Client : Type 0 where
  pub attempts : ℕ
  pub ttl : Int64
  pub cache : Cache

pub data Answer : Type 0 where
  results : List Result → Answer
  no_query : Answer
  fails : Error → Answer
  nothing : Answer

abbrev pub is_success : ℕ → Bool
is_success code = not (ltb code 200 || ltb 299 code)

unfoldable pub parsed : Text → Time → Option (List Result) → Client → Answer × Client
unfolding put sort_stable
parsed key now none c = (fails (record { kind = Kind.decode; code = 0; cause = none }), c)
parsed key now (some rs) c =
    let sorted = sort_stable (by_greater seeder_key) rs in
    (results sorted, record c { cache = put key sorted (now + c.ttl) c.ttl c.cache })

-- `Search` once the request was made; `now` is the time of the second reading of the clock.
unfoldable pub concluded : Backend → Text → Time → Outcome → Client → Answer × Client
unfolding parsed
concluded b key now no_attempt c = (nothing, c)
concluded b key now (failure e) c = (fails e, c)
concluded b key now (reply body code) c =
    if not (is_success code)
    then (fails (record { kind = Kind.status; code = code; cause = none }), c)
    else parsed key now (b.parse body) c

unfoldable pub search_new :
    Backend → Network → Text → Time → Option (List Result) → Client → List Act × Answer × Client
unfolding concluded do_request
search_new b net key now (some hit) c = ([], results hit, c)
search_new b net key now none c =
    let (acts, o) = do_request net c.attempts in
    let (a, c') = concluded b key now o c in (acts, a, c')

unfoldable pub search_keyed :
    Backend → Network → Text → Time → Time → Client → List Act × Answer × Client
unfolding search_new get
search_keyed b net [] asked now c = ([], no_query, c)
search_keyed b net (x ∷ s) asked now c = search_new b net (x ∷ s) now (get (x ∷ s) asked c.cache) c

module _ ⦃str : Strings⦄ where
  -- `Search`: the clock is read as the cache is asked, and as the results are put into it.
  unfoldable pub search :
      Backend → Network → Text → Time → Time → Client → List Act × Answer × Client
  unfolding search_keyed
  search b net query asked now c = search_keyed b net (str.lower (str.trim query)) asked now c
