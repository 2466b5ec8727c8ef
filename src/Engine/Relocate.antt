-- ===== src/Engine/Relocate.antt =====
-- `PurgeData`, `MoveStorage` and `ForceRecheck` of internal/engine/ops.go, which drop a torrent of
-- the library and add a fresh instance of it, or hash its data. What the library and the file
-- system answer on the way is an argument; the files themselves are not modelled.
pub mod Resumed
use torrnado.Common.{ℕ, ◌+◌, true, false, not, List, [], ◌∷◌, ◌++◌, if◌then◌else◌}
use torrnado.Common.Text.{Text, codes}
use torrnado.Engine.Library.{Float64, TorrentLib, File}
use torrnado.Engine.Types.{Priority, to_lib_priority, from_lib_priority}
use torrnado.Engine.State.{
  Guards, Tracked, Engine, TorrentId, guards_locked, Result, ok, err, Answer, gives, fails,
  no_metadata, external,
}
use torrnado.Engine.Snapshot.{snapshot_and_broadcast_now, downloaded_of, uploaded_of}
use torrnado.Engine.Check.{begin_check, end_check, quiesce_check}
use torrnado.Engine.Flow.{turn}
use torrnado.Engine.Session.{persist, announce, files_or_nil}
use torrnado.Engine.Ops.{with_tracked, on_tracked, put, download_unchosen_files}

module _ ⦃fl : Float64⦄ ⦃lib : TorrentLib⦄ where
  -- `foldCounters`
  unfoldable pub fold_counters : Tracked → Tracked
  unfolding downloaded_of uploaded_of
  fold_counters tr = record tr {
    base_downloaded = downloaded_of tr;
    base_uploaded = uploaded_of tr;
    last_downloaded = 0;
    last_uploaded = 0;
  }

  -- `quiesceCheck`
  unfoldable pub quiesced : Tracked → Tracked
  quiesced tr = record tr { check = quiesce_check tr.check }

  -- `purgeFailed`: the error is recorded and the hold taken off.
  unfoldable pub purge_failed : TorrentId → Tracked → Text → Engine → Result (Unit {0}) × Engine
  purge_failed id tr x e =
      (err (external x), announce (put id (record tr { last_err = x; hold_data = false }) e))

  -- The torrent paused, held and still, just before it is dropped.
  unfoldable pub purge_begun : Guards → Tracked → Tracked
  purge_begun g tr = turn g (record tr { paused = true; hold_data = true })

  -- The torrent back with the instance that the library gave.
  unfoldable pub purge_done : Guards → lib.Torrent → Tracked → Tracked
  purge_done g fresh tr = turn g (record tr { t = fresh; hold_data = false })

  -- `PurgeData` once the data is deleted, from the torrent as it was dropped.
  unfoldable pub purge_readd :
      TorrentId
      → Answer (Unit {0})
      → Answer lib.Torrent
      → Tracked
      → Engine
      → Result (Unit {0}) × Engine
  unfolding purge_failed purge_done
  purge_readd id (fails x) answer tr e = purge_failed id tr (codes "rebuild spec: " ++ x) e
  purge_readd id (gives _) (fails x) tr e =
      purge_failed id tr (codes "re-add torrent after purge: " ++ x) e
  purge_readd id (gives _) (gives fresh) tr e =
      (ok tt, announce (put id (purge_done (guards_locked e) fresh tr) e))

  -- `PurgeData`. `rebuilt` is whether a spec could be made of the metainfo, and `answer` what
  -- `AddTorrentSpec` returned.
  unfoldable pub purge_data :
      TorrentId → Answer (Unit {0}) → Answer lib.Torrent → Engine → Result (Unit {0}) × Engine
  unfolding purge_begun purge_readd fold_counters quiesced
  purge_data id rebuilt answer e = with_tracked id e λ tr.
      if not (lib.has_info tr.t)
      then (err no_metadata, put id (quiesced tr) e)
      else purge_readd id rebuilt answer
          (fold_counters (purge_begun (guards_locked e) (quiesced tr))) e

  -- The priorities of the old instance, file by file.
  unfoldable pub old_priorities : lib.Torrent → ℕ → List File → List Priority
  old_priorities t i [] = []
  old_priorities t i (f ∷ fs) = from_lib_priority (lib.priority t i) ∷ old_priorities t (i + 1) fs

  -- The loop of `applyFilePriorities` over the files from index `i` on.
  unfoldable pub apply_priorities : ℕ → List Priority → List File → lib.Torrent → lib.Torrent
  apply_priorities i prios [] t = t
  apply_priorities i [] (f ∷ fs) t = t
  apply_priorities i (p ∷ prios) (f ∷ fs) t =
      apply_priorities (i + 1) prios fs (lib.set_priority t i (to_lib_priority p))

  -- `moveFailed`: the error is recorded, the hold taken off and the switches turned. It does not
  -- save the session.
  unfoldable pub move_failed : TorrentId → Tracked → Text → Engine → Result (Unit {0}) × Engine
  move_failed id tr x e = (
    err (external x),
    snapshot_and_broadcast_now
        (put id (turn (guards_locked e) (record tr { last_err = x; hold_data = false })) e),
  )

  -- The torrent held, just before its files are moved.
  unfoldable pub move_begun : Guards → Tracked → Tracked
  move_begun g tr = turn g (record tr { hold_data = true })

  -- The fresh instance with the old priorities put back; where there were none, every file of a
  -- torrent that runs is wanted.
  unfoldable pub wanted_again : List Priority → Tracked → lib.Torrent → lib.Torrent
  unfolding apply_priorities files_or_nil
  wanted_again [] tr fresh = if tr.paused then fresh else download_unchosen_files [] fresh
  wanted_again (p ∷ ps) tr fresh = apply_priorities 0 (p ∷ ps) (files_or_nil fresh) fresh

  unfoldable pub move_wanted : Tracked → lib.Torrent → lib.Torrent
  unfolding old_priorities wanted_again
  move_wanted tr fresh = wanted_again (old_priorities tr.t 0 (files_or_nil tr.t)) tr fresh

  -- The torrent at its new place, with the verification of its data begun under `ctx`.
  unfoldable pub move_done : Text → ℕ → lib.Torrent → Tracked → Tracked
  unfolding move_wanted
  move_done new_dir ctx fresh tr = record tr {
    t = move_wanted tr fresh;
    save_path = new_dir;
    own_storage = true;
    check = begin_check ctx (lib.num_pieces fresh) tr.check;
  }

  -- What the system answers to a move: the making of the new directory, the moving of the files,
  -- the rebuilding of the spec, and `AddTorrentSpec`.
  pub record MoveAnswers : Type 0 where
    pub mkdir : Answer (Unit {0})
    pub moved : Answer (Unit {0})
    pub rebuilt : Answer (Unit {0})
    pub readded : Answer lib.Torrent

  -- `MoveStorage` from the drop of the old instance on.
  unfoldable pub move_readd :
      TorrentId → Text → ℕ → Answer lib.Torrent → Tracked → Engine → Result (Unit {0}) × Engine
  unfolding move_failed move_done
  move_readd id new_dir ctx (fails x) tr e =
      let tr' = record tr { save_path = new_dir } in
      move_failed id tr' (codes "re-add torrent at new location: " ++ x) (persist (put id tr' e))
  move_readd id new_dir ctx (gives fresh) tr e =
      (ok tt, snapshot_and_broadcast_now (put id (move_done new_dir ctx fresh tr) e))

  -- `MoveStorage` from the hold on, of a torrent whose check is quiet.
  unfoldable pub move_files :
      TorrentId
      → Text
      → ℕ
      → Answer (Unit {0})
      → Answer (Unit {0})
      → Answer lib.Torrent
      → Tracked
      → Engine
      → Result (Unit {0}) × Engine
  unfolding move_failed move_readd fold_counters
  move_files id new_dir ctx (fails x) rebuilt answer tr e = move_failed id tr x e
  move_files id new_dir ctx (gives _) (fails x) answer tr e =
      move_failed id tr (codes "rebuild spec: " ++ x) e
  move_files id new_dir ctx (gives _) (gives _) answer tr e =
      move_readd id new_dir ctx answer (fold_counters tr) e

  -- `MoveStorage` after the new directory was made
  unfoldable pub move_into :
      TorrentId
      → Text
      → ℕ
      → Answer (Unit {0})
      → MoveAnswers
      → Tracked
      → Engine
      → Result (Unit {0}) × Engine
  unfolding move_begun move_files
  move_into id new_dir ctx (fails x) answers tr e =
      (err (external (codes "create " ++ new_dir ++ codes ": " ++ x)), put id tr e)
  move_into id new_dir ctx (gives _) answers tr e =
      move_files id new_dir ctx answers.moved answers.rebuilt answers.readded
        (move_begun (guards_locked e) tr) e

  -- `MoveStorage` up to the goroutine that verifies the data, whose context is `ctx`.
  unfoldable pub move_storage :
      TorrentId → Text → ℕ → MoveAnswers → Engine → Result (Unit {0}) × Engine
  unfolding move_into quiesced
  move_storage id new_dir ctx answers e = with_tracked id e λ tr.
      if not (lib.has_info tr.t)
      then (err no_metadata, put id (quiesced tr) e)
      else move_into id new_dir ctx answers.mkdir answers (quiesced tr) e

  -- The error that a verification leaves: an error that is not a cancel is recorded.
  unfoldable pub error_after : Text → Answer (Unit {0}) → Text → Text
  error_after prefix (gives _) before = before
  error_after prefix (fails x) before = prefix ++ x

  -- The end of the goroutine that verifies moved data: `verified` holds an error that is not a
  -- cancel.
  unfoldable pub move_verified : TorrentId → ℕ → Answer (Unit {0}) → Engine → Engine
  move_verified id ctx verified e = on_tracked id e λ tr.
      let tr' = record tr {
        check = end_check ctx tr.check;
        last_err = error_after (codes "verify after move failed: ") verified tr.last_err;
        hold_data = false;
      } in
      snapshot_and_broadcast_now (put id (turn (guards_locked e) tr') e)

  -- `ForceRecheck` up to its goroutine, whose context is `ctx`.
  unfoldable pub force_recheck : TorrentId → ℕ → Engine → Result (Unit {0}) × Engine
  force_recheck id ctx e = with_tracked id e λ tr.
      if not (lib.has_info tr.t) then (err no_metadata, e) else (
        ok tt,
        snapshot_and_broadcast_now
            (put id (record tr { check = begin_check ctx (lib.num_pieces tr.t) tr.check }) e),
      )

  -- The end of the goroutine of a recheck: `verified` holds an error that is not a cancel.
  unfoldable pub recheck_ended : TorrentId → ℕ → Answer (Unit {0}) → Engine → Engine
  recheck_ended id ctx verified e = on_tracked id e λ tr.
      let tr' = record tr {
        check = end_check ctx tr.check;
        last_err = error_after (codes "recheck failed: ") verified tr.last_err;
      } in
      snapshot_and_broadcast_now (put id tr' e)
