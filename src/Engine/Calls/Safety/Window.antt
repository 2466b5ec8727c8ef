-- ===== src/Engine/Calls/Safety/Window.antt =====
-- The window that a successful move leaves: until the next tick the fresh instance's switches are
-- those that the library gave it, although the torrent is held.
use torrnado.Common.{
  ℕ, ◌+◌, ◌≡◌, refl, ◌∙◌, true, some, List, [], ◌∷◌, inl, inr, contains, Bool-cases,
}
use mathlib.Core.Option
use torrnado.Common.Text.{Text, text_eq_refl}
use torrnado.Common.Keys
use torrnado.Engine.Library.{Float64, TorrentLib, TorrentLaws, PiecePriority, File}
use torrnado.Engine.Types.{Priority, to_lib_priority}
use torrnado.Engine.State.{Tracked, Engine, TorrentId, guards_locked, gives}
use torrnado.Engine.Snapshot.{broadcast, snapshot_and_broadcast_now}
use torrnado.Engine.Flow.{turn}
use torrnado.Engine.Session.{files_or_nil}
use torrnado.Engine.Ops.{found_or_err, with_tracked, put, want_files, download_unchosen_files}
use torrnado.Engine.Relocate.{move_storage, MoveAnswers, quiesced, fold_counters}
use torrnado.Engine.Relocate.{
  move_readd, move_files, move_into, move_begun, move_done, move_wanted, wanted_again,
  apply_priorities, old_priorities,
}

-- A move in which everything succeeds.
module _ ⦃lib : TorrentLib⦄ where
  pub record Succeeds ⦃fl : Float64⦄ (a : MoveAnswers) (fresh : lib.Torrent) : Type 0 where
    pub mkdir : a.mkdir ≡ gives tt
    pub moved : a.moved ≡ gives tt
    pub rebuilt : a.rebuilt ≡ gives tt
    pub readded : a.readded ≡ gives fresh

module _ ⦃fl : Float64⦄ ⦃lib : TorrentLib⦄ where
  -- What `move_storage` comes to, then.
  moved_engine :
      (id : TorrentId) (dir : Text) (ctx : ℕ) (a : MoveAnswers) (e : Engine) (tr : Tracked)
      (fresh : lib.Torrent)
      → Keys.lookup id e.torrents ≡ some tr
      → lib.has_info tr.t ≡ true
      → Succeeds a fresh
      → (move_storage id dir ctx a e).1
        ≡ snapshot_and_broadcast_now (
            put id
              (move_done dir ctx fresh (fold_counters (move_begun (guards_locked e) (quiesced tr))))
              e)
  unfolding move_storage with_tracked move_into move_files move_readd
  moved_engine id dir ctx a e tr fresh p i s = rw (
    p, found_or_err, i, s.mkdir, move_into, s.moved, s.rebuilt, s.readded, move_files, move_readd,
  )

  -- The torrent as a successful move leaves it.
  abbrev moved_tracked : Text → ℕ → lib.Torrent → Tracked → Engine → Tracked
  moved_tracked dir ctx fresh tr e =
      move_done dir ctx fresh (fold_counters (move_begun (guards_locked e) (quiesced tr)))

  pub lookup-move :
      (id : TorrentId) (dir : Text) (ctx : ℕ) (a : MoveAnswers) (e : Engine) (tr : Tracked)
      (fresh : lib.Torrent)
      → Keys.lookup id e.torrents ≡ some tr
      → lib.has_info tr.t ≡ true
      → Succeeds a fresh
      → Keys.lookup id (move_storage id dir ctx a e).1.torrents
        ≡ some (moved_tracked dir ctx fresh tr e)
  unfolding snapshot_and_broadcast_now broadcast
  lookup-move id dir ctx a e tr fresh p i s =
      rw (moved_engine id dir ctx a e tr fresh p i s) (rw (Keys.lookup-insert, text_eq_refl))

  module _ (laws : TorrentLaws lib) where
    may_download-want_files :
        (chosen : List ℕ) (i : ℕ) (fs : List File) (t : lib.Torrent)
        → lib.may_download (want_files chosen i fs t) ≡ lib.may_download t
    unfolding want_files
    may_download-want_files chosen i [] t = refl
    may_download-want_files chosen i (f ∷ fs) t = elim (Bool-cases (contains chosen i)) [
      | inl c ↦ rw c (may_download-want_files chosen (i + 1) fs t)
      | inr c ↦
          rw c (
            may_download-want_files chosen (i + 1) fs _
            ∙ laws.download-set t i PiecePriority.normal)
    ]

    may_download-apply_priorities :
        (i : ℕ) (ps : List Priority) (fs : List File) (t : lib.Torrent)
        → lib.may_download (apply_priorities i ps fs t) ≡ lib.may_download t
    unfolding apply_priorities
    may_download-apply_priorities i ps [] t = refl
    may_download-apply_priorities i [] (f ∷ fs) t = refl
    may_download-apply_priorities i (p ∷ ps) (f ∷ fs) t =
        may_download-apply_priorities (i + 1) ps fs _ ∙ laws.download-set t i (to_lib_priority p)

    may_download-wanted :
        (ps : List Priority) (tr : Tracked) (fresh : lib.Torrent)
        → lib.may_download (wanted_again ps tr fresh) ≡ lib.may_download fresh
    unfolding wanted_again download_unchosen_files
    may_download-wanted (p ∷ ps) tr fresh = may_download-apply_priorities 0 (p ∷ ps) _ fresh
    may_download-wanted [] tr fresh = elim (Bool-cases tr.paused) [
      | inl c ↦ rw c
      | inr c ↦ rw c (may_download-want_files [] 0 (files_or_nil fresh) fresh)
    ]

    may_download-move_wanted :
        (tr : Tracked) (fresh : lib.Torrent)
        → lib.may_download (move_wanted tr fresh) ≡ lib.may_download fresh
    unfolding move_wanted
    may_download-move_wanted tr fresh =
        may_download-wanted (old_priorities tr.t 0 (files_or_nil tr.t)) tr fresh

    -- A successful move leaves the torrent held, for the verification of its data, with the download
    -- switch as the library set it on the fresh instance, whether or not the torrent is paused and
    -- whatever the guards say.
    pub move_leaves_open :
        (id : TorrentId) (dir : Text) (ctx : ℕ) (a : MoveAnswers) (e : Engine) (tr : Tracked)
        (fresh : lib.Torrent)
        → Keys.lookup id e.torrents ≡ some tr
        → lib.has_info tr.t ≡ true
        → Succeeds a fresh
        → (tr' : Tracked) × (Keys.lookup id (move_storage id dir ctx a e).1.torrents ≡ some tr')
          × (tr'.hold_data ≡ true)
          × (tr'.paused ≡ tr.paused)
          × (lib.may_download tr'.t ≡ lib.may_download fresh)
    unfolding move_begun fold_counters turn quiesced move_done
    move_leaves_open id dir ctx a e tr fresh p i s = (
      moved_tracked dir ctx fresh tr e,
      lookup-move id dir ctx a e tr fresh p i s,
      refl,
      refl,
      may_download-move_wanted (fold_counters (move_begun (guards_locked e) (quiesced tr))) fresh,
    )

  -- A successful move changes where the torrent's data is, and leaves the saved session as it was:
  -- the new save path is not in it until a later operation saves.
  pub session-move :
      (id : TorrentId) (dir : Text) (ctx : ℕ) (a : MoveAnswers) (e : Engine) (tr : Tracked)
      (fresh : lib.Torrent)
      → Keys.lookup id e.torrents ≡ some tr
      → lib.has_info tr.t ≡ true
      → Succeeds a fresh
      → ((move_storage id dir ctx a e).1.session ≡ e.session)
        × (Option.map
              (λ (t : Tracked). t.save_path)
              (Keys.lookup id (move_storage id dir ctx a e).1.torrents)
            ≡ some dir)
  unfolding snapshot_and_broadcast_now broadcast move_done
  session-move id dir ctx a e tr fresh p i s = (
    rw (moved_engine id dir ctx a e tr fresh p i s),
    rw (lookup-move id dir ctx a e tr fresh p i s),
  )
