-- ===== src/Engine/Calls/Safety/History.antt =====
-- Every history of calls, however it interleaves them, keeps an engine safe.
use torrnado.Common.{List, [], ◌∷◌, All}
use torrnado.Engine.Library.{Float64, TorrentLib, TorrentLaws}
use torrnado.Engine.State.{Engine, Machine}
use torrnado.Engine.Calls.{
  Call, run, run_all, pauses, prioritizes, limits_rates, limits_seeding, labels, removes, adds,
  purges, moves, moved, rechecks, rechecked, informs, ticks,
}
use torrnado.Engine.Calls.Safety.{IsSafe}
use torrnado.Engine.Calls.Safety.Ops.{
  set_paused-IsSafe, set_file_priority-IsSafe, set_torrent_rate_limit-IsSafe, set_seed_limit-IsSafe,
  set_label-IsSafe, remove_torrent-IsSafe, add_spec-IsSafe,
}
use torrnado.Engine.Calls.Safety.Relocation.{
  NotReadded, purge_data-IsSafe, move_fails-IsSafe, move_verified-IsSafe, force_recheck-IsSafe,
  recheck_ended-IsSafe,
}
use torrnado.Engine.Calls.Safety.Metadata.{metadata_received-IsSafe}
use torrnado.Engine.Calls.Safety.Ticks.{tick-IsSafe}

module _ ⦃fl : Float64⦄ ⦃lib : TorrentLib⦄ where
  -- A move that succeeds is the one call that may leave a held torrent with its switches on.
  abbrev pub MovesNothing : Call → Type 0
  MovesNothing (moves id dir ctx answers) = NotReadded answers
  MovesNothing _ = Unit

  module _ (laws : TorrentLaws lib) where
    run-IsSafe : (c : Call) (e : Engine) → MovesNothing c → IsSafe e → IsSafe (run c e)
    unfolding run
    run-IsSafe (pauses id b) e n h = set_paused-IsSafe laws id b e h
    run-IsSafe (prioritizes id i p) e n h = set_file_priority-IsSafe laws id i p e h
    run-IsSafe (limits_rates id up down) e n h = set_torrent_rate_limit-IsSafe laws id up down e h
    run-IsSafe (limits_seeding id r t) e n h = set_seed_limit-IsSafe laws id r t e h
    run-IsSafe (labels id s) e n h = set_label-IsSafe laws id s e h
    run-IsSafe (removes id) e n h = remove_torrent-IsSafe laws id e h
    run-IsSafe (adds magnet opts mkdir answer) e n h =
        add_spec-IsSafe laws magnet opts mkdir answer e h
    run-IsSafe (purges id rebuilt answer) e n h = purge_data-IsSafe laws id rebuilt answer e h
    run-IsSafe (moves id dir ctx answers) e n h = move_fails-IsSafe laws id dir ctx answers e n h
    run-IsSafe (moved id ctx v) e n h = move_verified-IsSafe laws id ctx v e h
    run-IsSafe (rechecks id ctx) e n h = force_recheck-IsSafe laws id ctx e h
    run-IsSafe (rechecked id ctx v) e n h = recheck_ended-IsSafe laws id ctx v e h
    run-IsSafe (informs path id opts fs) e n h = metadata_received-IsSafe laws path id opts fs e h
    run-IsSafe (ticks m) e n h = tick-IsSafe laws (record e { machine = m })

    -- From a safe engine, after any calls in which the library takes no moved torrent back, every
    -- torrent that is paused, held by an operation or held by a guard has both switches off.
    pub run_all-IsSafe :
        (cs : List Call) (e : Engine) → All MovesNothing cs → IsSafe e → IsSafe (run_all cs e)
    unfolding run_all
    run_all-IsSafe [] e n h = h
    run_all-IsSafe (c ∷ cs) e (n, ns) h = run_all-IsSafe cs (run c e) ns (run-IsSafe c e n h)

    -- A tick makes any engine safe, one that a move has left open included.
    pub ticks-IsSafe : (m : Machine) (e : Engine) → IsSafe (run (ticks m) e)
    unfolding run
    ticks-IsSafe m e = tick-IsSafe laws (record e { machine = m })
