-- ===== src/Engine/Tests/Parts.antt =====
-- The theorems on the parts of the engine, at concrete torrents, checks and events.
use torrnado.Common.{◌≡◌, refl, true, false, ◌||◌, some, List, [], ◌∷◌, ◌↔◌, arith}
use torrnado.Common.Text.{codes}
use torrnado.Common.Int64
use torrnado.Common.Int64.{Int64}
use torrnado.Engine.State.{Tracked, Engine, VpnStatus, Guards, Check, Run, idle, TorrentSnapshot}
use torrnado.Engine.Flow.{turn, turn-may_download}
use torrnado.Engine.Guard.{refresh_vpn, refresh_vpn_fails_closed}
use torrnado.Engine.Sample.{whole_numbers, sample_library, sample_laws, running, machine, engine}
use torrnado.Engine.Check.{begins, begin_check, end_check, cancel_check_locked}
use torrnado.Engine.Check.Serial.{Serial, quiet, busy, step-Serial, restart_loses_cancel}
use torrnado.Engine.Seed.{ratio, Decision}
use torrnado.Engine.Snapshot.{snapshot_locked, subscribe}

abbrev open_guards : Guards
open_guards = record { vpn_blocked = false; low_disk = false }

turn-may_download_example : ((turn open_guards running).t.down ≡ true) ↔ (
    (running.paused ≡ false)
    × (open_guards.vpn_blocked ≡ false)
    × (open_guards.low_disk ≡ false)
    × (running.hold_data ≡ false)
    × ((Int64.is_nonpos running.down_limit || Int64.le running.last_down_bps running.down_limit)
        ≡ true))
turn-may_download_example = turn-may_download sample_laws open_guards running

refresh_vpn_fails_closed_example :
    ((refresh_vpn engine).blocked ≡ false)
    ↔ ((st : VpnStatus) × (engine.machine.vpn_check ≡ some st) × (st.active ≡ true))
refresh_vpn_fails_closed_example = refresh_vpn_fails_closed engine refl

-- The engine on a disk that is nearly full.
abbrev full_engine : Engine
full_engine = record engine { machine = record machine { disk_free = some 3 } }

-- A check of four pieces, begun on a torrent that has none running.
step-Serial_example : Serial (begin_check 7 4 idle)
step-Serial_example = step-Serial (begins idle 7 4) refl quiet

abbrev one_run : Run
one_run = record { ctx = 7; total = 4; at = 2; cancelled = false }

-- The check when two pieces are hashed.
abbrev halfway : Check
halfway = record {
  cancel_check = some 7;
  checking = true;
  check_done = 2;
  check_total = 4;
  running = one_run ∷ [];
}

abbrev halfway-Serial : Serial halfway
halfway-Serial = busy one_run (omega arith)

restart_loses_cancel_example :
    (let c' = end_check 7 (begin_check 8 4 halfway) in
      (cancel_check_locked c' ≡ c')
      × (c'.checking ≡ false)
      × (c'.running ≡ record { ctx = 8; total = 4; at = 0; cancelled = false } ∷ []))
restart_loses_cancel_example = restart_loses_cancel one_run 8 4 (λ p. omega arith) halfway refl refl

abbrev done : TorrentSnapshot
done = snapshot_locked engine (codes "cd") running

abbrev forever : Tracked
forever = record running { seed_ratio = Int64.minus 1; seed_time = Int64.minus 1 }

abbrev stops : List Decision
stops = record { id = codes "cd"; why = ratio } ∷ []

abbrev watched : Engine
watched = subscribe 1 (subscribe 2 engine)
