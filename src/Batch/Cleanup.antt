-- ===== src/Batch/Cleanup.antt =====
-- The temporary files of internal/batch: whatever happens, the cleanup removes each that can be removed.
use mathlib.Core.Path.{subst}
use mathlib.Core.Option.{some-injective}
use torrnado.Common.{
  ℕ, zero, suc, ◌≡◌, refl, ap, inl, inr, Bool, true, false, not, ◌&&◌, Option, none, some, List, [],
  ◌∷◌, arith, Bool-cases, filter, All,
}
use torrnado.Common.Text.{Text, mem_text, text_eq_refl}
use torrnado.Engine.State.{Answer, gives, fails}
use torrnado.Indexer.Result.{Strings}
use torrnado.Disk.{Disk, Response}
use torrnado.Batch.{
  Expander, Outcome, cleanup, is_magnet, is_url, has_meta, follow, save, fetched, single,
  and_sources, go_on, each, fetch, globbed, on_disk, one_with, one, ended, expand,
}

-- Every temporary file that is on disk is recorded.
Recorded : Expander → Type 0
Recorded ex = ex.files ≡ ex.tmp

abbrev Keeps : Outcome → Type 0
Keeps none = Unit
Keeps (some (r, ex)) = Recorded ex

save-Recorded :
    (url : Text) (name : Answer Text) (copied : Option Text) (ex : Expander)
    → Recorded ex
    → Recorded (save url name copied ex).1
unfolding save Recorded
save-Recorded url (fails e) copied ex h = h
save-Recorded url (gives name) (some e) ex h = ap (λ (fs : List Text). name ∷ fs) h
save-Recorded url (gives name) none ex h = ap (λ (fs : List Text). name ∷ fs) h

fetched-Recorded :
    (url : Text) (m : Answer (Option Text)) (r : Response) (ex : Expander)
    → Recorded ex
    → Recorded (fetched url m r ex).1
unfolding fetched
fetched-Recorded url (fails e) r ex h = h
fetched-Recorded url (gives (some magnet)) r ex h = h
fetched-Recorded url (gives none) (Response.failed e) ex h = h
fetched-Recorded url (gives none) (Response.status s) ex h = h
fetched-Recorded url (gives none) (Response.body name copied) ex h =
    save-Recorded url name copied ex h

single-Recorded : (o : Answer Text × Expander) → Recorded o.1 → Recorded (single o).1
unfolding single
single-Recorded (gives s, ex) h = h
single-Recorded (fails e, ex) h = h

and_sources-Keeps : (ss : List Text) (o : Outcome) → Keeps o → Keeps (and_sources ss o)
unfolding and_sources
and_sources-Keeps ss none h = h
and_sources-Keeps ss (some (fails e, ex)) h = h
and_sources-Keeps ss (some (gives ts, ex)) h = h

go_on-Keeps :
    (rest : Expander → Outcome)
    → ((ex : Expander) → Recorded ex → Keeps (rest ex))
    → (o : Outcome) → Keeps o
    → Keeps (go_on rest o)
unfolding go_on
go_on-Keeps rest k none h = h
go_on-Keeps rest k (some (fails e, ex)) h = h
go_on-Keeps rest k (some (gives ss, ex)) h = and_sources-Keeps ss (rest ex) (k ex h)

module _ (f : Text → Expander → Outcome)
    (k : (a : Text) (ex : Expander) → Recorded ex → Keeps (f a ex)) where
  each-Keeps : (args : List Text) (ex : Expander) → Recorded ex → Keeps (each f args ex)
  unfolding each
  each-Keeps [] ex h = h
  each-Keeps (a ∷ rest) ex h = go_on-Keeps (each f rest) (each-Keeps rest) (f a ex) (k a ex h)

  module _ (d : Disk) ⦃str : Strings⦄ where
    globbed-Keeps :
        (arg : Text) (ms : Answer (List Text)) (ex : Expander)
        → Recorded ex
        → Keeps (globbed d f arg ms ex)
    unfolding globbed
    globbed-Keeps arg (fails e) ex h = h
    globbed-Keeps arg (gives []) ex h = h
    globbed-Keeps arg (gives (m ∷ ms)) ex h = each-Keeps (m ∷ ms) ex h

    on_disk-Keeps :
        (arg : Text) (o : Option Bool) (ex : Expander) → Recorded ex → Keeps (on_disk d f arg o ex)
    unfolding on_disk
    on_disk-Keeps arg (some is_dir) ex h = h
    on_disk-Keeps arg none ex h = elim (Bool-cases (has_meta arg)) [
      | inl b ↦ rw b (globbed-Keeps arg (d.glob arg) ex h)
      | inr b ↦ rw b h
    ]

    one_with-Keeps : (arg : Text) (ex : Expander) → Recorded ex → Keeps (one_with d f arg ex)
    unfolding one_with fetch
    one_with-Keeps arg ex h = elim (Bool-cases (is_magnet arg)) [
      | inl b ↦ rw b h
      | inr b ↦ rw b (elim (Bool-cases (is_url arg)) [
        | inl u ↦ rw u (
            single-Recorded (fetch d arg ex)
              (fetched-Recorded arg (follow 1 (d.redirects arg)) (d.response arg) ex h))
        | inr u ↦ rw u (on_disk-Keeps arg (d.stat arg) ex h)
      ])
    ]

module _ (d : Disk) ⦃str : Strings⦄ where
  one-Keeps : (n : ℕ) (arg : Text) (ex : Expander) → Recorded ex → Keeps (one d n arg ex)
  unfolding one
  one-Keeps zero arg ex h = tt
  one-Keeps (suc n) arg ex h = one_with-Keeps (one d n) (one-Keeps n) d arg ex h

mem_text-later :
    (p : Text) (ps fs : List Text)
    → All (λ f. mem_text f ps ≡ true) fs
    → All (λ f. mem_text f (p ∷ ps) ≡ true) fs
unfolding mem_text
mem_text-later p ps [] h = tt
mem_text-later p ps (f ∷ fs) (b, h) = (rw b (ground arith), mem_text-later p ps fs h)

mem_text_self : (fs : List Text) → All (λ f. mem_text f fs ≡ true) fs
unfolding mem_text
mem_text_self [] = tt
mem_text_self (f ∷ fs) = (rw (text_eq_refl f) refl, mem_text-later f fs fs (mem_text_self fs))

module _ (d : Disk) where
  -- Of what was recorded, what stays cannot be removed.
  filter-stuck :
      (ps fs : List Text)
      → All (λ f. mem_text f ps ≡ true) fs
      → All (λ f. d.unlinks f ≡ false) (filter (λ f. not (mem_text f ps && d.unlinks f)) fs)
  filter-stuck ps [] h = tt
  filter-stuck ps (f ∷ fs) (b, h) = elim (Bool-cases (d.unlinks f)) [
    | inl u ↦ rw (b, u) (filter-stuck ps fs h)
    | inr u ↦ rw (b, u) (u, filter-stuck ps fs h)
  ]

  cleanup_lem : (ex : Expander) → Recorded ex → All (λ f. d.unlinks f ≡ false) (cleanup d ex).files
  unfolding cleanup Recorded
  cleanup_lem ex h = rw h (filter-stuck ex.tmp ex.tmp (mem_text_self ex.tmp))

  -- The temporary files that are there once the caller of `Expand` is done: it calls the cleanup that
  -- it was given, which does nothing after an error.
  abbrev pub left_behind : Answer (List Text) → Expander → List Text
  left_behind (fails e) ex = ex.files
  left_behind (gives ss) ex = (cleanup d ex).files

  abbrev LeavesStuck : Outcome → Type 0
  LeavesStuck none = Unit
  LeavesStuck (some (r, ex)) = All (λ f. d.unlinks f ≡ false) (left_behind r ex)

  ended-LeavesStuck : (o : Outcome) → Keeps o → LeavesStuck (ended d o)
  unfolding ended
  ended-LeavesStuck none h = tt
  ended-LeavesStuck (some (fails e, ex)) h = cleanup_lem ex h
  ended-LeavesStuck (some (gives ss, ex)) h = cleanup_lem ex h

  leaves_stuck :
      (o : Outcome)
      → LeavesStuck o
      → (r : Answer (List Text)) (ex : Expander) → o ≡ some (r, ex)
      → All (λ f. d.unlinks f ≡ false) (left_behind r ex)
  leaves_stuck none h r ex e = cc
  leaves_stuck (some (q, x)) h r ex e =
      subst
        (λ (z : Answer (List Text) × Expander).
          All (λ f. d.unlinks f ≡ false) (left_behind z.0 z.1))
        (some-injective _ _ e) h

-- Whatever the arguments are and whatever the machine and the servers answer: when an expansion has
-- ended, with sources or with an error on the way, and its caller has called the cleanup, a temporary
-- file that it downloaded is left only if `os.Remove` of it fails.
pub expand_leaves_none :
    (d : Disk) ⦃str : Strings⦄ (n : ℕ) (args : List Text) (r : Answer (List Text)) (ex : Expander)
    → expand d n args ≡ some (r, ex)
    → All (λ f. d.unlinks f ≡ false) (left_behind d r ex)
unfolding expand Recorded
expand_leaves_none d n args r ex e =
    let start : Expander = record { tmp = []; files = [] } in
    leaves_stuck d (expand d n args)
      (ended-LeavesStuck d (each (one d n) args start)
        (each-Keeps (one d n) (one-Keeps d n) args start refl))
      r ex e
