-- ===== src/Engine/Calls.antt =====
-- The calls that clients and the daemon's own ticks make on the engine, and their histories.
pub mod Safety
pub mod Saved
pub mod Frame
use torrnado.Common.{ℕ, Bool, List, [], ◌∷◌}
use torrnado.Common.Text.{Text}
use torrnado.Common.Int64.{Int64}
use torrnado.Engine.Library.{Float64, TorrentLib, File}
use torrnado.Engine.Types.{Priority}
use torrnado.Engine.State.{Engine, AddOpts, TorrentId, Machine, Answer}
use torrnado.Engine.Ops.{
  set_paused, set_file_priority, set_torrent_rate_limit, set_seed_limit, remove_torrent, add_spec,
}
use torrnado.Engine.Label.{set_label}
use torrnado.Engine.Relocate.{
  purge_data, move_storage, MoveAnswers, move_verified, force_recheck, recheck_ended,
}
use torrnado.Engine.Metadata.{PathLib, metadata_received}
use torrnado.Engine.Tick.{tick}

module _ ⦃fl : Float64⦄ ⦃lib : TorrentLib⦄ where
  -- A call, with what the system answers to it.
  pub data Call : Type 0 where
    pauses : TorrentId → Bool → Call
    prioritizes : TorrentId → Int64 → Priority → Call
    limits_rates : TorrentId → Int64 → Int64 → Call
    limits_seeding : TorrentId → fl.Float → Int64 → Call
    labels : TorrentId → Text → Call
    removes : TorrentId → Call
    adds : Text → AddOpts → Answer (Unit {0}) → Answer lib.Torrent → Call
    purges : TorrentId → Answer (Unit {0}) → Answer lib.Torrent → Call
    moves : TorrentId → Text → ℕ → MoveAnswers → Call
    moved : TorrentId → ℕ → Answer (Unit {0}) → Call
    rechecks : TorrentId → ℕ → Call
    rechecked : TorrentId → ℕ → Answer (Unit {0}) → Call
    informs : PathLib → TorrentId → AddOpts → List File → Call
    ticks : Machine → Call

  unfoldable pub run : Call → Engine → Engine
  run (pauses id b) e = (set_paused id b e).1
  run (prioritizes id i p) e = (set_file_priority id i p e).1
  run (limits_rates id up down) e = (set_torrent_rate_limit id up down e).1
  run (limits_seeding id r t) e = (set_seed_limit id r t e).1
  run (labels id s) e = (set_label id s e).1
  run (removes id) e = (remove_torrent id e).1
  run (adds magnet opts mkdir answer) e = (add_spec magnet opts mkdir answer e).1
  run (purges id rebuilt answer) e = (purge_data id rebuilt answer e).1
  run (moves id dir ctx answers) e = (move_storage id dir ctx answers e).1
  run (moved id ctx verified) e = move_verified id ctx verified e
  run (rechecks id ctx) e = (force_recheck id ctx e).1
  run (rechecked id ctx verified) e = recheck_ended id ctx verified e
  run (informs path id opts fs) e = metadata_received path id opts fs e
  -- the machine may have changed since the last tick
  run (ticks m) e = (tick (record e { machine = m })).1

  unfoldable pub run_all : List Call → Engine → Engine
  unfolding run
  run_all [] e = e
  run_all (c ∷ cs) e = run_all cs (run c e)
