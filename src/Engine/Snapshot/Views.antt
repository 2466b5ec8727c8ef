-- ===== src/Engine/Snapshot/Views.antt =====
-- What the snapshots show, against what the switches do, and what a broadcast delivers.
use torrnado.Common.{
  ℕ, ◌≡◌, refl, ap, Bool, true, false, ◌||◌, Option, none, some, List, [], ◌∷◌, map, arith,
}
use torrnado.Common.Text.{text_eq, text_eq_iff}
use torrnado.Common.Int64
use torrnado.Common.Int64.{Int64}
use torrnado.Engine.Library.{Float64, TorrentLib}
use torrnado.Engine.Types.{State}
use torrnado.Engine.State.{any, Tracked, Engine, Event, guards_locked}
use torrnado.Engine.Snapshot.{broadcast, state_of}
use torrnado.Engine.Flow.{data_flow}
use torrnado.Engine.Snapshot.{send_all}

module _ ⦃fl : Float64⦄ ⦃lib : TorrentLib⦄ where
  -- The states that say why a torrent does not run.
  abbrev pub holds : State → Bool
  holds State.paused = true
  holds State.blocked = true
  holds State.low_disk = true
  holds _ = false

  -- For a torrent with metadata, with no error and with no check running, the state that is shown is
  -- paused, blocked or low disk exactly if the user or a guard holds it.
  pub holds-state_of :
      (e : Engine) (tr : Tracked) (total completed : Int64)
      → text_eq tr.last_err [] ≡ true
      → tr.check.checking ≡ false
      → lib.has_info tr.t ≡ true
      → holds (state_of e tr total completed) ≡ (tr.paused || any (guards_locked e))
  unfolding state_of any guards_locked
  holds-state_of e tr total completed p q r = rw (p, q, r) (ground arith)

  -- A torrent that is shown as paused, blocked or low on disk has both its switches off.
  pub shown_held :
      (e : Engine) (tr : Tracked) (total completed : Int64)
      → holds (state_of e tr total completed) ≡ true
      → data_flow (guards_locked e) tr ≡ (false, false)
  unfolding state_of data_flow any guards_locked
  shown_held e tr total completed h = ground arith

  -- A torrent is shown as seeding only with an error-free, unchecked, complete and non-empty content.
  pub shown_seeding :
      (e : Engine) (tr : Tracked) (total completed : Int64)
      → state_of e tr total completed ≡ State.seeding
      → (tr.last_err ≡ [])
        × (tr.check.checking ≡ false)
        × (lib.has_info tr.t ≡ true)
        × (tr.paused ≡ false)
        × (Int64.is_pos total ≡ true)
        × (Int64.le total completed ≡ true)
  unfolding state_of
  shown_seeding e tr total completed h = ground (arith, text_eq_iff tr.last_err [])

  -- A broadcast drops no subscriber, and leaves the newest event in the slot of each, whether or not
  -- it has received the one before: it never waits for a slow one.
  pub broadcast_newest :
      (ev : Event) (e : Engine)
      → (broadcast ev e).subs ≡ map (λ (s : ℕ × Option Event). (s.0, some ev)) e.subs
  unfolding broadcast
  broadcast_newest ev e = go e.subs
    where
      go :
          (subs : List (ℕ × Option Event))
          → send_all ev subs ≡ map (λ (s : ℕ × Option Event). (s.0, some ev)) subs
      go [] = unfold send_all in refl
      go ((ch, none) ∷ subs) = unfold send_all in ap (λ r. (ch, some ev) ∷ r) (go subs)
      go ((ch, some old) ∷ subs) = unfold send_all in ap (λ r. (ch, some ev) ∷ r) (go subs)
