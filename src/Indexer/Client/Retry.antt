-- ===== src/Indexer/Client/Retry.antt =====
-- How often a request is sent, when it is sent again, and how long the waits are.
use torrnado.Common.{
  ℕ, zero, suc, ◌+◌, ◌-◌, ◌*◌, ◌^◌, ◌≤◌, ◌<◌, ◌≡◌, refl, ap, ◌∙◌, true, ◌||◌, Option, none, some,
  List, [], ◌∷◌, arith, ◌==◌, ltb, if◌then◌else◌, inl, inr, All, Bool-cases,
}
use mathlib.Core.Path.{subst}
use torrnado.Common.Text.{Text}
use torrnado.Indexer.Client.{
  Network, Kind, Error, TransportError, classify, is_timeout, Trip, replied, broken, Outcome, reply,
  failure, Act, waits, sends, judge, answered_by, built_by, waited_by, attempt, attempts_from,
  do_request, base_backoff,
}

abbrev pub sent : List Act → ℕ
sent [] = 0
sent (sends n ∷ acts) = sent acts + 1
sent (waits n ∷ acts) = sent acts

abbrev pub waited : List Act → ℕ
waited [] = 0
waited (sends n ∷ acts) = waited acts
waited (waits n ∷ acts) = n + waited acts

module _ (net : Network) (n : ℕ) (rest : Option Error → List Act × Outcome) (k w : ℕ)
    (bound : (e : Error) → (sent (rest (some e)).0 ≤ k) × (waited (rest (some e)).0 ≤ w)) where
  answered_by-bound :
      (t : Trip) → (sent (answered_by n rest t).0 ≤ k + 1) × (waited (answered_by n rest t).0 ≤ w)
  unfolding answered_by
  answered_by-bound (replied body code) = omega arith
  answered_by-bound (broken err) = ground (arith, bound (classify err))

  built_by-bound :
      (o : Option TransportError)
      → (sent (built_by net n rest o).0 ≤ k + 1) × (waited (built_by net n rest o).0 ≤ w)
  unfolding built_by
  built_by-bound (some err) = omega arith
  built_by-bound none = answered_by-bound (net.trip n)

  waited_by-bound :
      (o : Option TransportError)
      → (sent (waited_by net n rest o).0 ≤ k + 1)
        × (waited (waited_by net n rest o).0 ≤ base_backoff * 2 ^ (n - 1) + w)
  unfolding waited_by
  waited_by-bound (some err) = omega arith
  waited_by-bound none = let b = built_by-bound (net.built n) in (b.0, omega (arith, b.1))

double : (m : ℕ) → 2 ^ suc m ≡ 2 ^ m + 2 ^ m
double m = omega arith

pow_mono : (m k : ℕ) → 2 ^ m ≤ 2 ^ (m + k)
pow_mono m zero = let e : 2 ^ (m + 0) ≡ 2 ^ m = ap (λ n. 2 ^ n) (omega arith) in omega arith
pow_mono m (suc k) =
    let e : 2 ^ (m + suc k) ≡ 2 ^ suc (m + k) = ap (λ n. 2 ^ n) (omega arith) in
    omega (arith, pow_mono m k, double (m + k))

later_attempt :
    (net : Network) (m : ℕ) (rest : Option Error → List Act × Outcome)
    → attempt net (suc m) rest ≡ waited_by net (suc m) rest (net.gave_up (suc m))
unfolding attempt
later_attempt net m rest = ground arith

-- From the second attempt on, an attempt's wait is twice the one before.
later_bounds :
    (net : Network) (m left : ℕ) (last : Option Error)
    → (sent (attempts_from net (suc m) left last).0 ≤ left)
      × (waited (attempts_from net (suc m) left last).0 + base_backoff * 2 ^ m
          ≤ base_backoff * 2 ^ (m + left))
unfolding attempts_from
later_bounds net m zero last = (omega arith, omega (arith, pow_mono m 0))
later_bounds net m (suc left) last =
    let later = λ (e : Error). later_bounds net (suc m) left (some e) in
    let total = base_backoff * 2 ^ (suc m + left) - base_backoff * 2 ^ suc m in
    let (s, w) =
      waited_by-bound net (suc m) (λ last'. attempts_from net (suc (suc m)) left last') left total
        (λ e. ((later e).0, omega (arith, (later e).1))) (net.gave_up (suc m)) in
    let same : 2 ^ (suc m + left) ≡ 2 ^ (m + suc left) = ap (λ n. 2 ^ n) (omega arith) in
    let wait : 2 ^ (suc m - 1) ≡ 2 ^ m = ap (λ n. 2 ^ n) (omega arith) in
    rw (later_attempt net m (λ last'. attempts_from net (suc (suc m)) left last'))
      (omega arith, omega (arith, pow_mono (suc m) left, double m))

-- A search of at most `n + 1` attempts sends at most as many requests, and its waits together take
-- less than half a second times 2 to the power of `n`.
pub retry_bounds :
    (net : Network) (n : ℕ)
    → (sent (do_request net (suc n)).0 ≤ n + 1)
      × (waited (do_request net (suc n)).0 < base_backoff * 2 ^ n)
unfolding do_request attempts_from attempt
retry_bounds net n =
    let later = λ (e : Error). later_bounds net 0 n (some e) in
    let same : 2 ^ (0 + n) ≡ 2 ^ n = ap (λ n. 2 ^ n) (omega arith) in
    let (s, w) =
      built_by-bound net 0 (λ last'. attempts_from net 1 n last') n
        (base_backoff * 2 ^ n - base_backoff) (λ e. ((later e).0, omega (arith, (later e).1)))
        (net.built 0) in
    (s, omega (arith, pow_mono 0 n))

-- What every request but the first came after: the one before it ran out of time.
abbrev pub TimedOut : Network → Act → Type 0
TimedOut net (sends (suc n)) =
    (err : TransportError) × (net.trip n ≡ broken err) × (is_timeout (classify err).kind ≡ true)
TimedOut net (sends zero) = Unit
TimedOut net (waits w) = Unit

module _ (net : Network) (n : ℕ) (rest : Option Error → List Act × Outcome)
    (here : TimedOut net (sends n))
    (later : TimedOut net (sends (suc n))
      → (e : Error) → All (TimedOut net) (rest (some e)).0) where
  answered_by-TimedOut : (t : Trip) → net.trip n ≡ t → All (TimedOut net) (answered_by n rest t).0
  unfolding answered_by
  answered_by-TimedOut (replied body code) e = (here, tt)
  answered_by-TimedOut (broken err) e = elim (Bool-cases (is_timeout (classify err).kind)) [
    | inl b ↦ rw b (here, later (err, e, b) (classify err))
    | inr b ↦ rw b (here, tt)
  ]

  built_by-TimedOut : (o : Option TransportError) → All (TimedOut net) (built_by net n rest o).0
  unfolding built_by
  built_by-TimedOut (some err) = tt
  built_by-TimedOut none = answered_by-TimedOut (net.trip n) refl

  waited_by-TimedOut : (o : Option TransportError) → All (TimedOut net) (waited_by net n rest o).0
  unfolding waited_by
  waited_by-TimedOut (some err) = tt
  waited_by-TimedOut none = (tt, built_by-TimedOut (net.built n))

  attempt-TimedOut : All (TimedOut net) (attempt net n rest).0
  unfolding attempt
  attempt-TimedOut = elim (Bool-cases (ltb 0 n)) [
    | inl b ↦ rw b (waited_by-TimedOut (net.gave_up n))
    | inr b ↦ rw b (built_by-TimedOut (net.built n))
  ]

attempts_from-TimedOut :
    (net : Network) (n left : ℕ) (last : Option Error)
    → TimedOut net (sends n)
    → All (TimedOut net) (attempts_from net n left last).0
unfolding attempts_from
attempts_from-TimedOut net n zero last here = tt
attempts_from-TimedOut net n (suc left) last here =
    attempt-TimedOut net n (λ last'. attempts_from net (suc n) left last') here
      λ t e. attempts_from-TimedOut net (suc n) left (some e) t

-- Only a request that ran out of time is sent again.
pub retried_after_timeout :
    (net : Network) (attempts : ℕ) → All (TimedOut net) (do_request net attempts).0
unfolding do_request
retried_after_timeout net attempts = attempts_from-TimedOut net 0 attempts none tt

-- An attempt before `k` is worth another: nobody gave up, its request was built, and it ran out of
-- time.
abbrev pub TimesOut : Network → ℕ → Type 0
TimesOut net i =
    (err : TransportError) × (net.gave_up i ≡ none)
    × (net.built i ≡ none)
    × (net.trip i ≡ broken err)
    × (is_timeout (classify err).kind ≡ true)

TimesOut-step :
    (net : Network) (n left : ℕ) (last : Option Error)
    → TimesOut net n
    → (e : Error) × ((attempts_from net n (suc left) last).1
        ≡ (attempts_from net (suc n) left (some e)).1)
unfolding attempts_from attempt waited_by built_by answered_by
TimesOut-step net n left last (err, g, b, t, k) = (classify err, ground arith)

reply-step :
    (net : Network) (n left : ℕ) (last : Option Error) (body : Text) (code : ℕ)
    → net.gave_up n ≡ none
    → net.built n ≡ none
    → net.trip n ≡ replied body code
    → (attempts_from net n (suc left) last).1 ≡ judge body code
unfolding attempts_from attempt waited_by built_by answered_by
reply-step net n left last body code g b t = ground arith

reply_after :
    (net : Network) (n k left : ℕ) (last : Option Error) (body : Text) (code : ℕ)
    → ((i : ℕ) → i < k → TimesOut net (n + i))
    → net.gave_up (n + k) ≡ none
    → net.built (n + k) ≡ none
    → net.trip (n + k) ≡ replied body code
    → k < left
    → (attempts_from net n left last).1 ≡ judge body code
reply_after net n k zero last body code h g b t lt = absurd (omega arith)
reply_after net n zero (suc left) last body code h g b t lt =
    reply-step net n left last body code (subst (λ i. net.gave_up i ≡ none) (omega arith) g)
      (subst (λ i. net.built i ≡ none) (omega arith) b)
      (subst (λ i. net.trip i ≡ replied body code) (omega arith) t)
reply_after net n (suc k) (suc left) last body code h g b t lt =
    let (e, step) =
      TimesOut-step net n left last (subst (TimesOut net) (omega arith) (h 0 (omega arith))) in
    step
    ∙ reply_after net (suc n) k left (some e) body code
        (λ i below. subst (TimesOut net) (omega arith) (h (suc i) (omega arith)))
        (subst (λ i. net.gave_up i ≡ none) (omega arith) g)
        (subst (λ i. net.built i ≡ none) (omega arith) b)
        (subst (λ i. net.trip i ≡ replied body code) (omega arith) t) (omega arith)

-- Where the attempts before the `k`th all time out, and it is still made, the outcome is what its
-- reply comes to: the refusal of the key for a status of 401 or 403, and else the reply itself.
pub reply-do_request :
    (net : Network) (attempts k : ℕ) (body : Text) (code : ℕ)
    → k < attempts
    → ((i : ℕ) → i < k → TimesOut net i)
    → net.gave_up k ≡ none
    → net.built k ≡ none
    → net.trip k ≡ replied body code
    → (do_request net attempts).1 ≡ (
        if code == 401 || code == 403
        then failure (record { kind = Kind.auth; code = code; cause = none })
        else reply body code)
unfolding do_request judge
reply-do_request net attempts k body code lt h g b t =
    reply_after net 0 k attempts none body code
      (λ i below. subst (TimesOut net) (omega arith) (h i below))
      (subst (λ i. net.gave_up i ≡ none) (omega arith) g)
      (subst (λ i. net.built i ≡ none) (omega arith) b)
      (subst (λ i. net.trip i ≡ replied body code) (omega arith) t) lt
