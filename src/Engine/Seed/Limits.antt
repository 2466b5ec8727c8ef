-- ===== src/Engine/Seed/Limits.antt =====
-- The seeding limits: when one is met, and the clock that starts once.
use torrnado.Common.{◌≡◌, ◌≢◌, true, false, ◌&&◌, not, none, arith, ◌⊎◌, ◌↔◌}
use torrnado.Common.Int64
use torrnado.Common.Int64.{Int64}
use torrnado.Engine.Library.{Float64, TorrentLib}
use torrnado.Engine.State.{Tracked, TorrentSnapshot, Time, is_zero, Config, sub_time}
use torrnado.Engine.Seed.{
  ratio_limit_for, time_limit_for, seed_limit_reached, starts_clock, mark_completed_locked,
}

module _ ⦃fl : Float64⦄ ⦃lib : TorrentLib⦄ where
  -- A limit is met exactly by a torrent that runs, has content, has all of it, and is at its ratio
  -- limit or past its time limit; a limit that is not above zero is none, and the time limit needs the
  -- clock to have started.
  pub seed_limit_reached_iff :
      (cfg : Config) (tr : Tracked) (snap : TorrentSnapshot) (now : Time)
      → (seed_limit_reached cfg tr snap now ≢ none) ↔ (
          (tr.paused ≡ false)
          × (Int64.is_nonpos snap.total_length ≡ false)
          × (Int64.lt snap.completed snap.total_length ≡ false)
          × (((fl.lt fl.zero (ratio_limit_for cfg tr) && fl.le (ratio_limit_for cfg tr) snap.ratio)
                ≡ true)
              ⊎ ((Int64.is_pos (time_limit_for cfg tr)
                    && not (is_zero tr.completed_at)
                    && Int64.le (time_limit_for cfg tr) (sub_time now tr.completed_at))
                  ≡ true)))
  unfolding seed_limit_reached
  seed_limit_reached_iff cfg tr snap now = ground arith

  -- A torrent with a negative ratio limit and a negative time limit is never stopped, whatever the
  -- configuration's limits are. (On the doubles: a number below zero is not zero, and zero is not
  -- below zero.)
  pub opted_out :
      (cfg : Config) (tr : Tracked) (snap : TorrentSnapshot) (now : Time)
      → fl.eq tr.seed_ratio fl.zero ≡ false
      → fl.lt fl.zero fl.zero ≡ false
      → fl.lt tr.seed_ratio fl.zero ≡ true
      → Int64.is_neg tr.seed_time ≡ true
      → seed_limit_reached cfg tr snap now ≡ none
  unfolding seed_limit_reached ratio_limit_for time_limit_for
  opted_out cfg tr snap now eq irr neg time_neg = ground arith

  -- The clock of the time limit starts at the first snapshot that shows the torrent complete, and no
  -- later snapshot moves it.
  pub clock_starts_once :
      (tr : Tracked) (s s' : TorrentSnapshot) (now later : Time)
      → now ≢ 0
      → starts_clock tr s ≡ true
      → (mark_completed_locked (mark_completed_locked tr s now) s' later).completed_at ≡ now
  unfolding mark_completed_locked starts_clock
  clock_starts_once tr s s' now later n h = ground arith
