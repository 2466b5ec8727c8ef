-- ===== src/Engine/Tick/Completion.antt =====
-- The completions that a tick reports, and the torrents that it stops.
use torrnado.Common.{
  ◌≡◌, refl, sym, ◌∙◌, Bool, true, false, ◌&&◌, ◌||◌, not, Option, none, some, List, [], ◌∷◌, arith,
  inl, inr, Bool-cases, Option-cases,
}
use mathlib.Core.Path.{subst}
use mathlib.Core.Option
use torrnado.Common.Text.{text_eq, text_eq_iff}
use torrnado.Common.Keys
use torrnado.Engine.Library.{Float64, TorrentLib}
use torrnado.Engine.State.{Tracked, Engine, TorrentId}
use torrnado.Engine.Flow.{turn}
use torrnado.Engine.Ops.{with_tracked, found_or_err, set_paused, pause_tracked}
use torrnado.Engine.Tick.{complete_logged, newly_complete, newly_complete_locked, stop_all}
use torrnado.Engine.Seed.{Decision}
use torrnado.Engine.Ops.Files.{torrents-announce}

module _ ⦃fl : Float64⦄ ⦃lib : TorrentLib⦄ where
  already_logged :
      (tr : Tracked)
      → (not (tr.complete_logged || newly_complete tr) && lib.has_info tr.t && lib.is_complete tr.t)
        ≡ false
  unfolding newly_complete
  already_logged tr = ground arith

  -- A torrent that was reported complete is not reported again: after a tick's marks there is nothing
  -- to report, as long as the library says the same of each torrent.
  pub completion_once :
      (e : Engine) (m : List (TorrentId × Tracked))
      → newly_complete_locked e (complete_logged m) ≡ []
  unfolding newly_complete_locked complete_logged newly_complete
  completion_once e [] = refl
  completion_once e ((id, tr) ∷ m) = rw (already_logged tr, completion_once e m) refl

  -- Is a torrent among those that a limit has stopped?
  abbrev pub named : TorrentId → List Decision → Bool
  named j [] = false
  named j (d ∷ ds) = text_eq d.id j || named j ds

  -- Whether the torrent `j` is paused, where it is tracked.
  abbrev pub paused_at : TorrentId → Engine → Option Bool
  paused_at j e = Option.map (λ (tr : Tracked). tr.paused) (Keys.lookup j e.torrents)

  kept : (o : Option Bool) → Option.map (λ b. false || b) o ≡ o
  kept none = refl
  kept (some b) = refl

  twice :
      (a b : Bool) (o : Option Bool)
      → Option.map (λ x. a || x) (Option.map (λ x. b || x) o) ≡ Option.map (λ x. (b || a) || x) o
  twice a b none = refl
  twice a b (some x) = ground arith

  pause-paused_at :
      (j id : TorrentId) (e : Engine)
      → paused_at j (set_paused id true e).1 ≡ Option.map (λ b. text_eq id j || b) (paused_at j e)
  unfolding set_paused with_tracked
  pause-paused_at j id e = elim (Option-cases (Keys.lookup id e.torrents)) [
    | inl p ↦
        rw (p, found_or_err)
          (elim (Bool-cases (text_eq id j)) [
            | inl q ↦
                rw (subst (λ k. Keys.lookup k e.torrents ≡ none) ((text_eq_iff id j).0 q) p) refl
            | inr q ↦ rw q (sym (kept (paused_at j e)))
          ])
    | inr (tr, p) ↦
        rw (p, found_or_err, torrents-announce, Keys.lookup-insert)
          (elim (Bool-cases (text_eq id j)) [
            | inl q ↦
                rw (q, subst (λ k. Keys.lookup k e.torrents ≡ some tr) ((text_eq_iff id j).0 q) p)
                  (unfold pause_tracked turn in refl)
            | inr q ↦ rw q (sym (kept (paused_at j e)))
          ])
  ]

  -- A tick pauses exactly the torrents that have met a limit: after the stops a torrent is paused
  -- if it was before, or if a decision names it, and no torrent is resumed or lost.
  pub stop_all-paused :
      (ds : List Decision) (e : Engine) (j : TorrentId)
      → paused_at j (stop_all ds e) ≡ Option.map (λ b. named j ds || b) (paused_at j e)
  unfolding stop_all
  stop_all-paused [] e j = sym (kept (paused_at j e))
  stop_all-paused (d ∷ ds) e j =
      stop_all-paused ds _ j
      ∙ rw (pause-paused_at j d.id e) (twice (named j ds) (text_eq d.id j) (paused_at j e))
