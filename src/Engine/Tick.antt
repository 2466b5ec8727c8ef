-- ===== src/Engine/Tick.antt =====
-- `tick` of internal/engine/engine.go: the guards, the speeds, the seeding limits and the switches.
pub mod Completion
use torrnado.Common.{zero, Bool, true, false, ◌&&◌, ◌||◌, not, List, [], ◌∷◌, if◌then◌else◌}
use torrnado.Engine.Library.{Float64, TorrentLib}
use torrnado.Engine.State.{
  Guards, Tracked, Engine, TorrentSnapshot, TorrentId, Time, guards_locked, sub_time,
}
use torrnado.Engine.Snapshot.{snapshot_locked, event_locked, broadcast}
use torrnado.Engine.Flow.{data_flow, apply_flow, update_rates}
use torrnado.Engine.Session.{persist}
use torrnado.Engine.Guard.{refresh_vpn, refresh_disk}
use torrnado.Engine.Ops.{set_paused}
use torrnado.Engine.Seed.{Decision, Found, seed_limits_reached_locked}

module _ ⦃fl : Float64⦄ ⦃lib : TorrentLib⦄ where
  -- The seconds since the last tick, or those of `tickInterval` where the clock has not moved on.
  unfoldable pub elapsed_since : Time → Time → fl.Float
  elapsed_since last now =
      let elapsed = fl.seconds (sub_time now last) in
      if fl.le elapsed fl.zero then fl.one else elapsed

  -- `tr.updateRates(elapsed)` for every torrent
  unfoldable pub rates_updated : fl.Float → List (TorrentId × Tracked) → List (TorrentId × Tracked)
  rates_updated elapsed [] = []
  rates_updated elapsed ((id, tr) ∷ m) = (id, update_rates elapsed tr) ∷ rates_updated elapsed m

  -- `flows`: what each torrent's switches should be, decided under the lock
  unfoldable pub flows : Guards → List (TorrentId × Tracked) → List (Bool × Bool)
  flows g [] = []
  flows g ((id, tr) ∷ m) = data_flow g tr ∷ flows g m

  -- The loop of `applyFlow` over `flows`, which holds one entry for each torrent, in order.
  unfoldable pub flows_applied :
      List (Bool × Bool) → List (TorrentId × Tracked) → List (TorrentId × Tracked)
  flows_applied [] m = m
  flows_applied (d ∷ ds) [] = []
  flows_applied (d ∷ ds) ((id, tr) ∷ m) =
      (id, record tr { t = apply_flow d tr.t }) ∷ flows_applied ds m

  -- `newlyCompleteLocked`: the torrents that finished since the last call, each reported once.
  unfoldable pub newly_complete : Tracked → Bool
  newly_complete tr = not tr.complete_logged && lib.has_info tr.t && lib.is_complete tr.t

  unfoldable pub complete_logged : List (TorrentId × Tracked) → List (TorrentId × Tracked)
  unfolding newly_complete
  complete_logged [] = []
  complete_logged ((id, tr) ∷ m) =
      (id, record tr { complete_logged = tr.complete_logged || newly_complete tr })
      ∷ complete_logged m

  unfoldable pub newly_complete_locked : Engine → List (TorrentId × Tracked) → List TorrentSnapshot
  unfolding newly_complete
  newly_complete_locked e [] = []
  newly_complete_locked e ((id, tr) ∷ m) =
      let rest = newly_complete_locked e m in
      if newly_complete tr
      then snapshot_locked e id (record tr { complete_logged = true }) ∷ rest
      else rest

  -- Each torrent that has met a limit is paused the way a user pauses it.
  unfoldable pub stop_all : List Decision → Engine → Engine
  stop_all [] e = e
  stop_all (d ∷ ds) e = stop_all ds (set_paused d.id true e).1

  -- The engine after the guards are refreshed and the speeds measured.
  unfoldable pub refreshed : Engine → Engine
  unfolding elapsed_since rates_updated
  refreshed e =
      let e' = refresh_disk (refresh_vpn e) in
      record e' {
        last_tick = e'.machine.clock;
        torrents = rates_updated (elapsed_since e'.last_tick e'.machine.clock) e'.torrents;
      }

  -- The completions marked, the clocks started and the limits that are met, read off the snapshots
  -- of the tick's event.
  unfoldable pub limits_found : Engine → Found
  unfolding complete_logged
  limits_found e =
      seed_limits_reached_locked e.cfg e.machine.clock (event_locked e).torrents
        (record { decisions = []; clock_started = false; torrents = complete_logged e.torrents })

  -- The engine with those marks, saved if a clock was started.
  unfoldable pub marked : Found → Engine → Engine
  marked found e =
      let e' = record e { torrents = found.torrents } in
      if found.clock_started then persist e' else e'

  unfoldable pub switched : List (Bool × Bool) → Engine → Engine
  unfolding flows_applied
  switched decided e = record e { torrents = flows_applied decided e.torrents }

  -- What one tick has done: the snapshots that `OnComplete` is called with, and the engine.
  unfoldable pub tick : Engine → List TorrentSnapshot × Engine
  unfolding refreshed flows limits_found marked switched newly_complete_locked stop_all
  tick e =
      let e' = refreshed e in
      let decided = flows (guards_locked e') e'.torrents in
      let found = limits_found e' in
      (
        newly_complete_locked e' e'.torrents,
        broadcast (event_locked e') (stop_all found.decisions (switched decided (marked found e'))),
      )
