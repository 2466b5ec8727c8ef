-- ===== src/Batch/Ends.antt =====
-- When the expansion of internal/batch ends: where everything that a glob matches is there, and not
-- where a link that leads nowhere is spelled like a pattern whose first match is the link.
use torrnado.Common.{
  ℕ, zero, suc, ◌≡◌, refl, ◌⊎◌, inl, inr, Bool, true, false, Option, none, some, List, [], ◌∷◌,
  Bool-cases, All,
}
use torrnado.Common.Text.{Text}
use torrnado.Engine.State.{Answer, gives, fails}
use torrnado.Indexer.Result.{Strings}
use torrnado.Disk.{Disk}
use torrnado.Batch.{
  Expander, Outcome, is_magnet, is_url, has_meta, and_sources, go_on, each, globbed, on_disk,
  one_with, one, ended, expand,
}

abbrev Returns : Outcome → Type 0
Returns o = (q : Answer (List Text) × Expander) × (o ≡ some q)

and_sources-Returns : (ss : List Text) (o : Outcome) → Returns o → Returns (and_sources ss o)
unfolding and_sources
and_sources-Returns ss none (q, e) = cc
and_sources-Returns ss (some (fails x, ex)) h = (_, refl)
and_sources-Returns ss (some (gives ts, ex)) h = (_, refl)

go_on-Returns :
    (rest : Expander → Outcome)
    → ((ex : Expander) → Returns (rest ex))
    → (o : Outcome) → Returns o
    → Returns (go_on rest o)
unfolding go_on
go_on-Returns rest k none (q, e) = cc
go_on-Returns rest k (some (fails x, ex)) h = (_, refl)
go_on-Returns rest k (some (gives ss, ex)) h = and_sources-Returns ss (rest ex) (k ex)

each-Returns :
    (f : Text → Expander → Outcome) (args : List Text)
    → All (λ a. (ex : Expander) → Returns (f a ex)) args
    → (ex : Expander) → Returns (each f args ex)
unfolding each
each-Returns f [] h ex = (_, refl)
each-Returns f (a ∷ rest) (k, h) ex =
    go_on-Returns (each f rest) (each-Returns f rest h) (f a ex) (k ex)

module _ (d : Disk) ⦃str : Strings⦄ where
  -- A path of which no glob is asked.
  abbrev pub Settled : Text → Type 0
  Settled a =
      (is_magnet a ≡ true)
      ⊎ (is_url a ≡ true)
      ⊎ ((b : Bool) × (d.stat a ≡ some b))
      ⊎ (has_meta a ≡ false)

  abbrev pub all_of : Answer (List Text) → List Text
  all_of (gives ms) = ms
  all_of (fails e) = []

  globbed-Returns :
      (f : Text → Expander → Outcome) (arg : Text) (ms : Answer (List Text))
      → All (λ a. (ex : Expander) → Returns (f a ex)) (all_of ms)
      → (ex : Expander) → Returns (globbed d f arg ms ex)
  unfolding globbed
  globbed-Returns f arg (fails e) h ex = (_, refl)
  globbed-Returns f arg (gives []) h ex = (_, refl)
  globbed-Returns f arg (gives (m ∷ ms)) h ex = each-Returns f (m ∷ ms) h ex

  on_disk-Returns :
      (f : Text → Expander → Outcome) (arg : Text) (o : Option Bool)
      → (has_meta arg ≡ false) ⊎ All (λ a. (ex : Expander) → Returns (f a ex)) (all_of (d.glob arg))
      → (ex : Expander) → Returns (on_disk d f arg o ex)
  unfolding on_disk
  on_disk-Returns f arg (some is_dir) h ex = (_, refl)
  on_disk-Returns f arg none (inl b) ex = rw b (_, refl)
  on_disk-Returns f arg none (inr h) ex = elim (Bool-cases (has_meta arg)) [
    | inl b ↦ rw b (globbed-Returns f arg (d.glob arg) h ex)
    | inr b ↦ rw b (_, refl)
  ]

  -- A path that is neither a magnet nor an address.
  on_disk-Settled :
      (f : Text → Expander → Outcome) (arg : Text)
      → is_magnet arg ≡ false
      → is_url arg ≡ false
      → Settled arg
      → (ex : Expander) → Returns (on_disk d f arg (d.stat arg) ex)
  unfolding on_disk
  on_disk-Settled f arg p q (inl m) ex = cc
  on_disk-Settled f arg p q (inr (inl u)) ex = cc
  on_disk-Settled f arg p q (inr (inr (inl (b, e)))) ex = rw e (_, refl)
  on_disk-Settled f arg p q (inr (inr (inr m))) ex = on_disk-Returns f arg (d.stat arg) (inl m) ex

  one_with-Returns :
      (f : Text → Expander → Outcome) (arg : Text)
      → (is_magnet arg ≡ false
          → is_url arg ≡ false
          → (ex : Expander) → Returns (on_disk d f arg (d.stat arg) ex))
      → (ex : Expander) → Returns (one_with d f arg ex)
  unfolding one_with
  one_with-Returns f arg h ex = elim (Bool-cases (is_magnet arg)) [
    | inl b ↦ rw b (_, refl)
    | inr b ↦
        rw b (elim (Bool-cases (is_url arg)) [ inl u ↦ rw u (_, refl) | inr u ↦ rw u (h b u ex) ])
  ]

  Settled-Returns :
      (f : Text → Expander → Outcome) (arg : Text)
      → Settled arg
      → (ex : Expander) → Returns (one_with d f arg ex)
  Settled-Returns f arg s = one_with-Returns f arg (λ p q. on_disk-Settled f arg p q s)

  matches-Returns :
      (n : ℕ) (ms : List Text)
      → All Settled ms
      → All (λ a. (ex : Expander) → Returns (one d (suc n) a ex)) ms
  unfolding one
  matches-Returns n [] h = tt
  matches-Returns n (m ∷ ms) (s, h) = (Settled-Returns (one d n) m s, matches-Returns n ms h)

  module _ (there : (pattern : Text) → All Settled (all_of (d.glob pattern))) where
    one-Returns : (n : ℕ) (arg : Text) (ex : Expander) → Returns (one d (suc (suc n)) arg ex)
    unfolding one
    one-Returns n arg = one_with-Returns (one d (suc n)) arg (λ p q.
        on_disk-Returns (one d (suc n)) arg (d.stat arg)
          (inr (matches-Returns n (all_of (d.glob arg)) (there arg))))

    args-Returns :
        (n : ℕ) (args : List Text)
        → All (λ a. (ex : Expander) → Returns (one d (suc (suc n)) a ex)) args
    args-Returns n [] = tt
    args-Returns n (a ∷ rest) = (one-Returns n a, args-Returns n rest)

  ended-Returns : (o : Outcome) → Returns o → Returns (ended d o)
  unfolding ended
  ended-Returns none (q, e) = cc
  ended-Returns (some (fails x, ex)) h = (_, refl)
  ended-Returns (some (gives ss, ex)) h = (_, refl)

  -- Where all that a glob matches is a magnet, an address, on disk, or free of the characters of a
  -- pattern, the expansion of any arguments ends, two calls deep at most.
  pub expand_ends :
      ((pattern : Text) → All Settled (all_of (d.glob pattern)))
      → (n : ℕ) (args : List Text)
      → (r : Answer (List Text) × Expander) × (expand d (suc (suc n)) args ≡ some r)
  unfolding expand
  expand_ends there n args =
      let start : Expander = record { tmp = []; files = [] } in
      ended-Returns (each (one d (suc (suc n))) args start)
        (each-Returns (one d (suc (suc n))) args (args-Returns there n args) start)

  -- An argument of which `os.Stat` finds nothing, and which is a pattern whose first match is itself.
  module _ (arg : Text) (rest : List Text) (no_magnet : is_magnet arg ≡ false)
      (no_url : is_url arg ≡ false) (nothing : d.stat arg ≡ none) (meta : has_meta arg ≡ true)
      (itself : d.glob arg ≡ gives (arg ∷ rest)) where
    one-none : (n : ℕ) (ex : Expander) → one d n arg ex ≡ none
    unfolding one one_with on_disk globbed each go_on
    one-none zero ex = refl
    one-none (suc n) ex = rw (no_magnet, no_url, nothing, meta, itself, one-none n ex) refl

    -- An argument that is neither a magnet nor an address, of which `os.Stat` finds nothing, and which
    -- is a pattern whose first match is the argument itself, is never expanded: the calls go deeper
    -- without end, whatever arguments follow it.
    pub dangling_link_loops : (n : ℕ) (args : List Text) → expand d n (arg ∷ args) ≡ none
    unfolding expand each go_on ended
    dangling_link_loops n args = rw (one-none n (record { tmp = []; files = [] })) refl
