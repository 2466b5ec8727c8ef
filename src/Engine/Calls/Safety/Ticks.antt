-- ===== src/Engine/Calls/Safety/Ticks.antt =====
-- A tick makes every engine safe, whatever its switches were before.
use torrnado.Common.{
  ◌≡◌, refl, sym, ap, ◌∙◌, true, some, List, [], ◌∷◌, inl, inr, Bool-cases, Option-cases,
}
use mathlib.Core.Path.{subst₂}
use mathlib.Core.Option.{some-injective}
use mathlib.Core.Path.{subst₂}
use torrnado.Common.Text.{text_eq}
use torrnado.Common.Keys
use torrnado.Engine.Library.{Float64, TorrentLib, TorrentLaws}
use torrnado.Engine.State.{
  Guards, Tracked, Engine, TorrentSnapshot, TorrentId, Time, Config, guards_locked,
}
use torrnado.Engine.Snapshot.{event_locked}
use torrnado.Engine.Flow.{turn, data_flow, apply_flow}
use torrnado.Engine.Tick.{tick}
use torrnado.Engine.Calls.Safety.{
  IsSafe, Alike-IsSafe, persist-Alike, broadcast-Alike, turn-StillIfHeld, Safe,
}
use torrnado.Engine.Tick.{
  flows, flows_applied, complete_logged, stop_all, refreshed, limits_found, marked, switched,
}
use torrnado.Engine.Seed.{
  Found, Decision, starts_clock, found_in, found_one, mark_completed_locked,
  seed_limits_reached_locked,
}
use torrnado.Engine.Calls.Safety.Ops.{set_paused-IsSafe}

module _ ⦃fl : Float64⦄ ⦃lib : TorrentLib⦄ where
  -- Marking a torrent complete does not change what its switches should be.
  flows-complete_logged :
      (g : Guards) (m : List (TorrentId × Tracked)) → flows g (complete_logged m) ≡ flows g m
  unfolding flows complete_logged data_flow
  flows-complete_logged g [] = refl
  flows-complete_logged g ((id, tr) ∷ m) = ap (λ r. data_flow g tr ∷ r) (flows-complete_logged g m)

  flows-insert :
      (g : Guards) (k : TorrentId) (v w : Tracked) (m : List (TorrentId × Tracked))
      → Keys.lookup k m ≡ some v
      → data_flow g w ≡ data_flow g v
      → flows g (Keys.insert k w m) ≡ flows g m
  unfolding flows Keys.insert Keys.lookup
  flows-insert g k v w [] p q = cc
  flows-insert g k v w ((j, u) ∷ m) p q = elim (Bool-cases (text_eq j k)) [
    | inl e ↦
        rw e (ap (λ d. d ∷ flows g m) (q ∙ ap (data_flow g) (sym (some-injective u v (rw e at p)))))
    | inr e ↦ rw e (ap (λ r. data_flow g u ∷ r) (flows-insert g k v w m (rw e at p) q))
  ]

  data_flow-mark :
      (g : Guards) (tr : Tracked) (s : TorrentSnapshot) (now : Time)
      → data_flow g (mark_completed_locked tr s now) ≡ data_flow g tr
  unfolding data_flow mark_completed_locked
  data_flow-mark g tr s now = elim (Bool-cases (starts_clock tr s)) [
    | inl p ↦ rw (p, mark_completed_locked)
    | inr p ↦ rw (p, mark_completed_locked)
  ]

  flows-found_one :
      (g : Guards) (cfg : Config) (now : Time) (s : TorrentSnapshot) (f : Found)
      → flows g (found_one cfg now s f).torrents ≡ flows g f.torrents
  unfolding found_one
  flows-found_one g cfg now s f = elim (Option-cases (Keys.lookup s.id f.torrents)) [
    | inl p ↦ rw (p, found_in)
    | inr (tr, p) ↦
        rw (p, found_in) (flows-insert g s.id tr _ f.torrents p (data_flow-mark g tr s now))
  ]

  flows-found :
      (g : Guards) (cfg : Config) (now : Time) (ss : List TorrentSnapshot) (f : Found)
      → flows g (seed_limits_reached_locked cfg now ss f).torrents ≡ flows g f.torrents
  unfolding seed_limits_reached_locked
  flows-found g cfg now [] f = refl
  flows-found g cfg now (s ∷ ss) f =
      flows-found g cfg now ss (found_one cfg now s f) ∙ flows-found_one g cfg now s f

  module _ (laws : TorrentLaws lib) where
    flows_applied-Safe :
        (g : Guards) (m : List (TorrentId × Tracked)) → Safe g (flows_applied (flows g m) m)
    unfolding flows_applied flows turn apply_flow
    flows_applied-Safe g [] = tt
    flows_applied-Safe g ((id, tr) ∷ m) = (turn-StillIfHeld laws g tr, flows_applied-Safe g m)

    stop_all-IsSafe : (ds : List Decision) (e : Engine) → IsSafe e → IsSafe (stop_all ds e)
    unfolding stop_all
    stop_all-IsSafe [] e h = h
    stop_all-IsSafe (d ∷ ds) e h = stop_all-IsSafe ds _ (set_paused-IsSafe laws d.id true e h)

    -- The marks and the save leave the guards, and what the switches should be.
    marked_keeps :
        (found : Found) (e : Engine)
        → ((marked found e).torrents ≡ found.torrents)
          × (guards_locked (marked found e) ≡ guards_locked e)
    unfolding marked guards_locked
    marked_keeps found e = elim (Bool-cases found.clock_started) [
      | inl p ↦
          let a = persist-Alike (record e { torrents = found.torrents }) in
          rw (p, marked) (a.torrents, a.guards)
      | inr p ↦ rw (p, marked) (refl, refl)
    ]

    switched-IsSafe :
        (e e' : Engine)
        → guards_locked e' ≡ guards_locked e
        → flows (guards_locked e) e'.torrents ≡ flows (guards_locked e) e.torrents
        → IsSafe (switched (flows (guards_locked e) e.torrents) e')
    unfolding switched guards_locked
    switched-IsSafe e e' same h =
        subst₂ (λ g ds. Safe g (flows_applied ds e'.torrents)) (sym same) h
          (flows_applied-Safe (guards_locked e) e'.torrents)

    -- What the tick decided before the marks is what it would decide after them.
    flows-limits_found :
        (g : Guards) (e : Engine) → flows g (limits_found e).torrents ≡ flows g e.torrents
    unfolding limits_found
    flows-limits_found g e =
        flows-found g e.cfg e.machine.clock _ _ ∙ flows-complete_logged g e.torrents

    pub tick-IsSafe : (e : Engine) → IsSafe (tick e).1
    unfolding tick
    tick-IsSafe e =
        let e' = refreshed e in
        let found = limits_found e' in
        Alike-IsSafe (broadcast-Alike (event_locked e') _) (
          stop_all-IsSafe found.decisions _ (
            switched-IsSafe e' (marked found e') ((marked_keeps found e').1) (
              ap (flows (guards_locked e')) ((marked_keeps found e').0) ∙ flows-limits_found _ e')))
