-- ===== src/Engine/Session.antt =====
-- Saving in internal/engine/session.go: `recordLocked`, `SaveSession`, `saveMetainfo`,
-- `removeMetainfo` and `persist`. What the state directory holds is part of the engine's state.
use torrnado.Common.{ℕ, ◌+◌, Bool, true, ◌&&◌, ◌||◌, not, some, List, [], ◌∷◌, if◌then◌else◌}
use torrnado.Common.Text.{text_eq}
use torrnado.Common.Keys
use torrnado.Engine.Library.{Float64, TorrentLib, File}
use torrnado.Engine.Types.{is_normal, priority_string, from_lib_priority}
use torrnado.Engine.State.{Tracked, Engine, TorrentRecord, FilePriorityRecord, TorrentId}
use torrnado.Engine.Snapshot.{snapshot_and_broadcast_now, downloaded_of, uploaded_of}

module _ ⦃fl : Float64⦄ ⦃lib : TorrentLib⦄ where
  -- `filesOrNil`
  unfoldable pub files_or_nil : lib.Torrent → List File
  files_or_nil t = if lib.has_info t then lib.files t else []

  -- The loop of `recordLocked` over the files from index `i` on.
  unfoldable pub priority_records : lib.Torrent → ℕ → List File → List FilePriorityRecord
  priority_records t i [] = []
  priority_records t i (f ∷ fs) =
      let prio = from_lib_priority (lib.priority t i) in
      let rest = priority_records t (i + 1) fs in
      if is_normal prio then rest else record { index = i; priority = priority_string prio } ∷ rest

  unfoldable pub record_locked : TorrentId → Tracked → TorrentRecord
  unfolding priority_records files_or_nil downloaded_of uploaded_of
  record_locked id tr = record {
    info_hash = id;
    name = if lib.has_info tr.t then lib.name tr.t else [];
    magnet = tr.magnet;
    save_path = tr.save_path;
    paused = tr.paused;
    up_limit = tr.up_limit;
    down_limit = tr.down_limit;
    uploaded = uploaded_of tr;
    downloaded = downloaded_of tr;
    added_at = tr.added_at;
    seed_ratio = tr.seed_ratio;
    seed_time = tr.seed_time;
    completed_at = tr.completed_at;
    label = tr.label;
    file_priorities = priority_records tr.t 0 (files_or_nil tr.t);
  }

  unfoldable pub records : List (TorrentId × Tracked) → List TorrentRecord
  records [] = []
  records ((id, tr) ∷ m) = record_locked id tr ∷ records m

  -- `saveMetainfo`: each torrent whose metadata has arrived gets a file, unless it has one.
  unfoldable pub save_metainfo :
      List (TorrentId × Tracked) → List (TorrentId × Unit {0}) → List (TorrentId × Unit {0})
  save_metainfo [] saved = saved
  save_metainfo ((id, tr) ∷ m) saved =
      save_metainfo m (if lib.has_info tr.t then Keys.insert id tt saved else saved)

  -- Whether `json.MarshalIndent` takes the records: it refuses an infinite ratio and one that is not a
  -- number.
  unfoldable pub encodable : List TorrentRecord → Bool
  encodable [] = true
  encodable (r ∷ rs) = fl.is_finite r.seed_ratio && encodable rs

  -- `SaveSession`. A state directory that cannot be written leaves the files as they were, and so
  -- do records that cannot be encoded the session file, when the metainfo is written already.
  unfoldable pub save_session : Engine → Engine
  unfolding records save_metainfo encodable
  save_session e =
      if text_eq e.cfg.state_dir [] || not e.machine.state_writable then e else record e {
        session = if encodable (records e.torrents) then some (records e.torrents) else e.session;
        metainfos = save_metainfo e.torrents e.metainfos;
      }

  -- `persist`: nothing is saved while a restore is in progress.
  unfoldable pub persist : Engine → Engine
  persist e = if e.restoring then e else save_session e

  unfoldable pub remove_metainfo : TorrentId → Engine → Engine
  remove_metainfo id e =
      if text_eq e.cfg.state_dir [] || not e.machine.state_writable
      then e
      else record e { metainfos = Keys.erase id e.metainfos }

  -- What every mutating operation ends with.
  unfoldable pub announce : Engine → Engine
  announce e = snapshot_and_broadcast_now (persist e)
