-- ===== src/Engine/Restore.antt =====
-- `RestoreSession` and `restoreOne` of internal/engine/session.go. The torrents that the library
-- hands out for the records are an argument.
pub mod Unsaved
pub mod Choices
use torrnado.Common.{
  Option, ℕ, ◌+◌, Bool, true, false, ◌&&◌, ◌||◌, not, none, some, List, [], ◌∷◌, ◌==◌,
  if◌then◌else◌,
}
use torrnado.Common.Text.{Text, codes, text_eq}
use torrnado.Common.Keys
use torrnado.Engine.Library.{Float64, TorrentLib}
use torrnado.Engine.Types.{Priority, parse_priority}
use torrnado.Engine.State.{
  Tracked, Engine, TorrentRecord, FilePriorityRecord, AddOpts, TorrentId, is_zero, Result, ok, err,
  Answer, external,
}
use torrnado.Engine.Session.{persist}
use torrnado.Engine.Ops.{add_magnet, add_torrent_file, set_torrent_rate_limit, set_file_priority}

module _ ⦃fl : Float64⦄ ⦃lib : TorrentLib⦄ where
  -- The options with which a record is added again.
  unfoldable pub restore_opts : Text → TorrentRecord → AddOpts
  restore_opts data_dir rec = record {
    save_path =
        if text_eq rec.save_path [] || text_eq rec.save_path data_dir then [] else rec.save_path;
    paused = rec.paused;
    files = [];
  }

  -- The limits of a record, set where one is not zero.
  unfoldable pub restore_limits : TorrentId → TorrentRecord → Engine → Engine
  restore_limits id rec e =
      if rec.up_limit == 0 && rec.down_limit == 0
      then e
      else (set_torrent_rate_limit id rec.up_limit rec.down_limit e).1

  -- One saved priority, best effort: a name that is unknown, or an index that is gone, is skipped.
  unfoldable pub restore_priority : TorrentId → ℕ → Option Priority → Engine → Engine
  restore_priority id i none e = e
  restore_priority id i (some prio) e = (set_file_priority id i prio e).1

  unfoldable pub restore_priorities : TorrentId → List FilePriorityRecord → Engine → Engine
  unfolding restore_priority
  restore_priorities id [] e = e
  restore_priorities id (fp ∷ fps) e =
      restore_priorities id fps (restore_priority id fp.index (parse_priority fp.priority) e)

  -- The record's own timestamp, totals, limits and label.
  unfoldable pub restore_fields : TorrentRecord → Tracked → Tracked
  restore_fields rec tr = record tr {
    added_at = if is_zero rec.added_at then tr.added_at else rec.added_at;
    base_downloaded = rec.downloaded;
    base_uploaded = rec.uploaded;
    seed_ratio = rec.seed_ratio;
    seed_time = rec.seed_time;
    completed_at = rec.completed_at;
    label = rec.label;
    complete_logged = not (is_zero rec.completed_at);
  }

  -- What the system answers to a restore: the reading of the saved metainfo or the parsing of the
  -- magnet, the making of the save directory, and `AddTorrentSpec`.
  pub record RestoreAnswers : Type 0 where
    pub parsed : Answer (Unit {0})
    pub mkdir : Answer (Unit {0})
    pub readded : Answer lib.Torrent

  -- How a torrent comes back: from its saved metainfo, from its magnet, or not at all.
  unfoldable pub restore_from :
      Option (Unit {0})
      → TorrentRecord
      → AddOpts
      → RestoreAnswers
      → Engine
      → Result TorrentId × Engine
  restore_from (some _) rec opts a e = add_torrent_file opts a.parsed a.mkdir a.readded e
  restore_from none rec opts a e =
      if text_eq rec.magnet []
      then (err (external (codes "no metainfo file and no magnet uri to re-add from")), e)
      else add_magnet rec.magnet opts a.parsed a.mkdir a.readded e

  unfoldable pub restore_source :
      TorrentRecord → AddOpts → RestoreAnswers → Engine → Result TorrentId × Engine
  unfolding restore_from
  restore_source rec opts a e = restore_from (Keys.lookup rec.info_hash e.metainfos) rec opts a e

  -- `restoreOne` once the torrent has been added again under `id`.
  unfoldable pub restore_rest : TorrentId → TorrentRecord → Engine → Engine
  unfolding restore_limits restore_priorities restore_fields
  restore_rest id rec e =
      let e' = restore_priorities id rec.file_priorities (restore_limits id rec e) in
      record e' { torrents = Keys.update id (restore_fields rec) e'.torrents }

  -- `restoreOne`: the result says whether the torrent came back.
  unfoldable pub restored : TorrentRecord → Result TorrentId × Engine → Bool × Engine
  unfolding restore_rest
  restored rec (err x, e) = (false, e)
  restored rec (ok id, e) = (true, restore_rest id rec e)

  unfoldable pub restore_one : TorrentRecord → RestoreAnswers → Engine → Bool × Engine
  unfolding restore_opts restore_source restored
  restore_one rec a e = restored rec (restore_source rec (restore_opts e.cfg.data_dir rec) a e)

  -- The loop of `RestoreSession`, which counts the torrents that came back. `world` is what the
  -- system answers for each record.
  unfoldable pub restore_all :
      List TorrentRecord → (TorrentRecord → RestoreAnswers) → ℕ → Engine → ℕ × Engine
  unfolding restore_one
  restore_all [] world n e = (n, e)
  restore_all (rec ∷ recs) world n e =
      let (back, e') = restore_one rec (world rec) e in
      restore_all recs world (if back then n + 1 else n) e'

  -- `RestoreSession`, where the session file was read and is not of a newer version: saves are
  -- suppressed during the restore, and one is made at its end.
  unfoldable pub restore_session :
      List TorrentRecord → (TorrentRecord → RestoreAnswers) → Engine → ℕ × Engine
  unfolding restore_all
  restore_session recs world e =
      let (n, e') = restore_all recs world 0 (record e { restoring = true }) in
      (n, persist (record e' { restoring = false }))
