-- ===== src/Engine/Seed.antt =====
-- The seeding limits of internal/engine/seedlimit.go.
pub mod Limits
use torrnado.Common.{
  zero, Bool, ◌&&◌, ◌||◌, not, Option, none, some, List, [], ◌∷◌, ◌++◌, ◌==◌, if◌then◌else◌,
}
use torrnado.Common.Int64
use torrnado.Common.Int64.{Int64}
use torrnado.Common.Keys
use torrnado.Engine.Library.{Float64, TorrentLib}
use torrnado.Engine.State.{Tracked, TorrentSnapshot, TorrentId, Time, is_zero, Config, sub_time}

-- Which limit a torrent has met.
pub data Limit : Type 0 where
  ratio time : Limit

module _ ⦃fl : Float64⦄ ⦃lib : TorrentLib⦄ where
  -- `seedLimitsFor`: zero on the torrent means the default, and a negative value none.
  unfoldable pub ratio_limit_for : Config → Tracked → fl.Float
  ratio_limit_for cfg tr =
      let chosen = if fl.eq tr.seed_ratio fl.zero then cfg.seed_ratio else tr.seed_ratio in
      if fl.lt chosen fl.zero then fl.zero else chosen

  unfoldable pub time_limit_for : Config → Tracked → Int64
  time_limit_for cfg tr =
      let chosen = if tr.seed_time == 0 then cfg.seed_time else tr.seed_time in
      if Int64.is_neg chosen then 0 else chosen

  -- `seedLimitReached`
  unfoldable pub seed_limit_reached : Config → Tracked → TorrentSnapshot → Time → Option Limit
  unfolding ratio_limit_for time_limit_for
  seed_limit_reached cfg tr snap now =
      if tr.paused || Int64.is_nonpos snap.total_length || Int64.lt snap.completed snap.total_length
      then none
      else if fl.lt fl.zero (ratio_limit_for cfg tr) && fl.le (ratio_limit_for cfg tr) snap.ratio
      then some ratio
      else if Int64.is_pos (time_limit_for cfg tr)
          && not (is_zero tr.completed_at)
          && Int64.le (time_limit_for cfg tr) (sub_time now tr.completed_at)
      then some time
      else none

  -- The test of `markCompletedLocked`, and its write.
  unfoldable pub starts_clock : Tracked → TorrentSnapshot → Bool
  starts_clock tr snap =
      is_zero tr.completed_at
      && Int64.is_pos snap.total_length
      && Int64.le snap.total_length snap.completed

  unfoldable pub mark_completed_locked : Tracked → TorrentSnapshot → Time → Tracked
  mark_completed_locked tr snap now =
      if starts_clock tr snap then record tr { completed_at = now } else tr

  -- `seedLimitDecision`, less the fields that only the log reads
  pub record Decision : Type 0 where
    pub id : TorrentId
    pub why : Limit

  -- What the loop of `seedLimitsReachedLocked` has gathered.
  pub record Found : Type 0 where
    pub decisions : List Decision
    pub clock_started : Bool
    pub torrents : List (TorrentId × Tracked)

  -- One round of the loop, on the torrent that the snapshot's id names.
  unfoldable pub decided : TorrentId → Option Limit → List Decision → List Decision
  decided id none ds = ds
  decided id (some why) ds = ds ++ record { id = id; why = why } ∷ []

  unfoldable pub found_in : Config → Time → TorrentSnapshot → Found → Option Tracked → Found
  unfolding seed_limit_reached mark_completed_locked decided
  found_in cfg now snap f none = f
  found_in cfg now snap f (some tr) =
      let tr' = mark_completed_locked tr snap now in
      record {
        decisions = decided snap.id (seed_limit_reached cfg tr' snap now) f.decisions;
        clock_started = f.clock_started || starts_clock tr snap;
        torrents = Keys.insert snap.id tr' f.torrents;
      }

  unfoldable pub found_one : Config → Time → TorrentSnapshot → Found → Found
  unfolding found_in
  found_one cfg now snap f = found_in cfg now snap f (Keys.lookup snap.id f.torrents)

  unfoldable pub seed_limits_reached_locked : Config → Time → List TorrentSnapshot → Found → Found
  seed_limits_reached_locked cfg now [] f = f
  seed_limits_reached_locked cfg now (snap ∷ snaps) f =
      seed_limits_reached_locked cfg now snaps (found_one cfg now snap f)
