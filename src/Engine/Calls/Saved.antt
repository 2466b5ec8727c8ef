-- ===== src/Engine/Calls/Saved.antt =====
-- The session file after each call: `SaveSession`, `persist` and the operations that end with them.
use torrnado.Common.{◌≡◌, true, false, some, []}
use torrnado.Common.Text.{Text, text_eq}
use torrnado.Common.Keys
use torrnado.Engine.Library.{Float64, TorrentLib}
use torrnado.Engine.State.{Engine, Check}
use torrnado.Engine.Calls.{Call, run}
use torrnado.Engine.Session.{records, encodable}
use torrnado.Engine.Calls.{Call, run, moves, moved, ticks}

module _ ⦃fl : Float64⦄ ⦃lib : TorrentLib⦄ where
  -- No restore is in progress, there is a state directory, and it can be written.
  abbrev pub Durable : Engine → Type 0
  Durable e =
      (e.restoring ≡ false)
      × (text_eq e.cfg.state_dir [] ≡ false)
      × (e.machine.state_writable ≡ true)

  -- The session file says what the engine tracks.
  abbrev pub IsSaved : Engine → Type 0
  IsSaved e = e.session ≡ some (records e.torrents)

  -- Every tracked torrent has a seed ratio that the session file can hold.
  abbrev pub Encodable : Engine → Type 0
  Encodable e = encodable (records e.torrents) ≡ true

  abbrev SavedStill : Engine → Type 0
  SavedStill e = Durable e × (Encodable e → IsSaved e)

  -- The calls that say that they save: all but a move, the end of its verification, and a tick.
  abbrev pub Saves : Call → Type 0
  Saves (moves id dir ctx answers) = ⊥
  Saves (moved id ctx verified) = ⊥
  Saves (ticks m) = ⊥
  Saves _ = Unit
