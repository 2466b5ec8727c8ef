-- ===== src/Engine/Tests/Calls.antt =====
-- The theorems on whole calls and their histories, at concrete torrents and engines.
use torrnado.Common.{
  ℕ, ◌≡◌, refl, true, false, ◌&&◌, not, some, List, [], ◌∷◌, ◌⊎◌, contains, length, ltb, ◌==◌,
  if◌then◌else◌,
}
use torrnado.Common.Text.{codes, text_eq}
use torrnado.Common.Int64
use torrnado.Common.Int64.{Int64}
use torrnado.Common.Keys
use torrnado.Engine.Types.{Priority, to_lib_priority}
use torrnado.Engine.State.{
  FilePriorityRecord, Tracked, Engine, any, guards_locked, ok, err, Error, gives, TorrentId,
}
use torrnado.Engine.Calls.{Call, run, run_all, pauses, removes, ticks, limits_seeding}
use torrnado.Engine.Calls.Safety.{IsSafe}
use torrnado.Engine.Calls.Safety.History.{run_all-IsSafe, ticks-IsSafe}
use torrnado.Engine.Calls.Frame.{run-other}
use torrnado.Engine.Sample.{
  whole_numbers, sample_library, sample_laws, fresh, held, machine, engine,
}
use torrnado.Engine.Calls.Safety.Window.{Succeeds, move_leaves_open}
use torrnado.Engine.Ops.{set_file_priority}
use torrnado.Engine.Session.{records}
use torrnado.Engine.Relocate.{purge_data, move_storage, MoveAnswers, purge_begun, quiesced}
use torrnado.Engine.Relocate.Resumed.{purge_leaves_paused}
use torrnado.Engine.Snapshot.{downloaded_of, uploaded_of}
use torrnado.Engine.Restore.{RestoreAnswers, restore_all}
use torrnado.Engine.Restore.Unsaved.{session-restore_all}
use torrnado.Engine.State.{TorrentRecord}

held_or_still : IsSafe engine
unfolding guards_locked any
held_or_still = ((λ h. record { no_download = refl; no_upload = refl }), ((λ h. cc), tt))

abbrev calls : List Call
calls =
    pauses (codes "ab") false ∷ pauses (codes "cd") true ∷ removes (codes "ab") ∷ ticks machine ∷ []

run_all-IsSafe_example : IsSafe (run_all calls engine)
run_all-IsSafe_example =
    run_all-IsSafe sample_laws calls engine (tt, (tt, (tt, (tt, tt)))) held_or_still

-- An engine whose moved torrent was left open.
abbrev open_engine : Engine
open_engine = record engine { torrents = (codes "ab", record held { t = fresh }) ∷ [] }

ticks-IsSafe_example : IsSafe (run (ticks machine) open_engine)
ticks-IsSafe_example = ticks-IsSafe sample_laws machine open_engine

-- The engine just after it saved.
abbrev saved_engine : Engine
saved_engine = record engine { session = some (records engine.torrents) }

-- A ratio without a bound, a torrent that is not there, and the bound again.
abbrev saving_calls : List Call
saving_calls =
    limits_seeding (codes "ab") 9223372036854775807 0
    ∷ removes (codes "xy")
    ∷ limits_seeding (codes "ab") 2 0
    ∷ []

run-other_example :
    Keys.lookup (codes "cd") (run (removes (codes "ab")) engine).torrents
    ≡ Keys.lookup (codes "cd") engine.torrents
unfolding text_eq
run-other_example = run-other (codes "cd") (removes (codes "ab")) engine refl

-- What the theorem of `set_file_priority` says of a call.
abbrev Prioritized : TorrentId → ℕ → Priority → Engine → Tracked → Type 0
Prioritized id i prio e tr =
    (((tr.t.known && not (Int64.is_neg i) && ltb i (length tr.t.content)) ≡ true)
      × ((set_file_priority id i prio e).0 ≡ ok tt)
      × ((tr' : Tracked) × (Keys.lookup id (set_file_priority id i prio e).1.torrents ≡ some tr')
          × ((j : ℕ) → tr'.t.wants j ≡ (if i == j then to_lib_priority prio else tr.t.wants j))
          × (contains tr'.chosen_files i ≡ true)))
    ⊎ (((tr.t.known && not (Int64.is_neg i) && ltb i (length tr.t.content)) ≡ false)
        × ((x : Error) × (set_file_priority id i prio e ≡ (err x, e))))

purge_leaves_paused_example :
    (tr' : Tracked) × (Keys.lookup
        (codes "ab")
        (purge_data (codes "ab") (gives tt) (gives fresh) engine).1.torrents
      ≡ some tr')
    × (tr'.paused ≡ true)
    × (tr'.hold_data ≡ false)
    × (tr'.t.down ≡ false)
    × (tr'.t.up ≡ false)
    × (tr'.base_downloaded ≡ downloaded_of (purge_begun (guards_locked engine) (quiesced held)))
    × (tr'.base_uploaded ≡ uploaded_of (purge_begun (guards_locked engine) (quiesced held)))
    × (tr'.last_downloaded ≡ 0)
    × (tr'.last_uploaded ≡ 0)
purge_leaves_paused_example =
    purge_leaves_paused sample_laws (codes "ab") fresh engine held
      (unfold Keys.lookup text_eq in refl) refl

abbrev move_answers : MoveAnswers
move_answers = record {
  mkdir = gives tt;
  moved = gives tt;
  rebuilt = gives tt;
  readded = gives fresh;
}

move-Succeeds : Succeeds move_answers fresh
move-Succeeds = record { mkdir = refl; moved = refl; rebuilt = refl; readded = refl }

move_leaves_open_example :
    (tr' : Tracked) × (Keys.lookup
        (codes "ab")
        (move_storage (codes "ab") (codes "/new") 9 move_answers engine).1.torrents
      ≡ some tr')
    × (tr'.hold_data ≡ true)
    × (tr'.paused ≡ true)
    × (tr'.t.down ≡ true)
move_leaves_open_example =
    move_leaves_open sample_laws (codes "ab") (codes "/new") 9 move_answers engine held fresh
      (unfold Keys.lookup text_eq in refl) refl move-Succeeds

-- The saved session comes back: the one torrent's metainfo is there.
abbrev stored_engine : Engine
stored_engine = record engine {
  torrents = [];
  session = some (records engine.torrents);
  metainfos = (codes "ab", tt) ∷ [];
}

abbrev answers : TorrentRecord → RestoreAnswers
answers rec = record { parsed = gives tt; mkdir = gives tt; readded = gives fresh }

session-restore_all_example :
    ((restore_all
        (records engine.torrents)
        answers
        0
        (record stored_engine { restoring = true })).1.session
      ≡ stored_engine.session)
    × ((restore_all
          (records engine.torrents)
          answers
          0
          (record stored_engine { restoring = true })).1.metainfos
        ≡ stored_engine.metainfos)
session-restore_all_example =
    session-restore_all (records engine.torrents) answers 0
      (record stored_engine { restoring = true }) refl

-- What the session says of a torrent that was added paused: its files are not wanted.
abbrev not_wanted : List FilePriorityRecord
not_wanted =
    record { index = 0; priority = codes "none" }
    ∷ record { index = 1; priority = codes "none" }
    ∷ []
