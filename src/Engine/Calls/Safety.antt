-- ===== src/Engine/Calls/Safety.antt =====
-- The safety of the switches: nothing moves of a torrent that is paused, held by an operation, or
-- held by a guard. The operations are in the children.
pub mod Ops
pub mod Relocation
pub mod Metadata
pub mod Ticks
pub mod History
pub mod Window
use torrnado.Common.{
  ℕ, ◌+◌, ◌≡◌, refl, sym, ◌∙◌, Bool, true, false, some, List, [], ◌∷◌, arith, inl, inr, contains,
  Bool-cases,
}
use mathlib.Core.Path.{subst₂}
use torrnado.Common.Keys
use torrnado.Engine.Library.{Float64, TorrentLib, TorrentLaws, PiecePriority, File}
use torrnado.Engine.State.{Guards, Tracked, Engine, Event, TorrentId, guards_locked}
use torrnado.Engine.Snapshot.{broadcast, snapshot_and_broadcast_now}
use torrnado.Engine.Flow.{turn, IsHeld, IsStill}
use torrnado.Engine.Flow.{turn-IsStill}
use torrnado.Engine.Session.{persist, announce, save_session, files_or_nil, remove_metainfo}
use torrnado.Engine.Ops.{put, want_files, download_unchosen_files, pause_tracked}

module _ ⦃fl : Float64⦄ ⦃lib : TorrentLib⦄ where
  abbrev pub StillIfHeld : Guards → Tracked → Type 0
  StillIfHeld g tr = IsHeld g tr → IsStill tr.t

  abbrev pub Safe : Guards → List (TorrentId × Tracked) → Type 0
  Safe g m = Keys.Values (StillIfHeld g) m

  -- Every torrent that is held has both switches off.
  abbrev pub IsSafe : Engine → Type 0
  IsSafe e = Safe (guards_locked e) e.torrents

  -- The same torrents under the same guards.
  pub record Alike (e e' : Engine) : Type 0 where
    pub torrents : e'.torrents ≡ e.torrents
    pub guards : guards_locked e' ≡ guards_locked e

  pub Alike-IsSafe : {e e' : Engine} → Alike e e' → IsSafe e → IsSafe e'
  Alike-IsSafe a h = subst₂ Safe (sym a.guards) (sym a.torrents) h

  pub announce-Alike : (e : Engine) → Alike e (announce e)
  unfolding announce persist save_session snapshot_and_broadcast_now broadcast guards_locked
  announce-Alike e = record { torrents = ground arith; guards = ground arith }

  pub persist-Alike : (e : Engine) → Alike e (persist e)
  unfolding persist save_session guards_locked
  persist-Alike e = record { torrents = ground arith; guards = ground arith }

  pub broadcast-Alike : (ev : Event) (e : Engine) → Alike e (broadcast ev e)
  unfolding broadcast guards_locked
  broadcast-Alike ev e = record { torrents = refl; guards = refl }

  pub remove_metainfo-Alike : (id : TorrentId) (e : Engine) → Alike e (remove_metainfo id e)
  unfolding remove_metainfo guards_locked
  remove_metainfo-Alike id e = record { torrents = ground arith; guards = ground arith }

  pub announce-IsSafe : (e : Engine) → IsSafe e → IsSafe (announce e)
  announce-IsSafe e = Alike-IsSafe (announce-Alike e)

  -- An operation that writes one torrent back and announces it keeps an engine safe, if what it
  -- writes is still where it is held.
  pub put-IsSafe :
      (id : TorrentId) (tr : Tracked) (e : Engine)
      → StillIfHeld (guards_locked e) tr
      → IsSafe e
      → IsSafe (put id tr e)
  unfolding guards_locked
  put-IsSafe id tr e p h = Keys.Values-insert (StillIfHeld (guards_locked e)) id tr e.torrents p h

  pub announce-put-IsSafe :
      (id : TorrentId) (tr : Tracked) (e : Engine)
      → StillIfHeld (guards_locked e) tr
      → IsSafe e
      → IsSafe (announce (put id tr e))
  announce-put-IsSafe id tr e p h = announce-IsSafe (put id tr e) (put-IsSafe id tr e p h)

  -- The torrent that a safe engine holds under `id`.
  pub found-StillIfHeld :
      (id : TorrentId) (e : Engine) {tr : Tracked}
      → IsSafe e
      → Keys.lookup id e.torrents ≡ some tr
      → StillIfHeld (guards_locked e) tr
  found-StillIfHeld id e h p = Keys.Values-lookup (StillIfHeld (guards_locked e)) id e.torrents h p

  module _ (laws : TorrentLaws lib) where
    pub set_priority-IsStill :
        (t : lib.Torrent) (i : ℕ) (p : PiecePriority) → IsStill t → IsStill (lib.set_priority t i p)
    set_priority-IsStill t i p h = record {
      no_download = laws.download-set t i p ∙ h.no_download;
      no_upload = laws.upload-set t i p ∙ h.no_upload;
    }

    pub want_files-IsStill :
        (chosen : List ℕ) (i : ℕ) (fs : List File) (t : lib.Torrent)
        → IsStill t
        → IsStill (want_files chosen i fs t)
    unfolding want_files
    want_files-IsStill chosen i [] t h = h
    want_files-IsStill chosen i (f ∷ fs) t h = elim (Bool-cases (contains chosen i)) [
      | inl c ↦ rw c (want_files-IsStill chosen (i + 1) fs t h)
      | inr c ↦
          rw c (
            want_files-IsStill chosen (i + 1) fs _
              (set_priority-IsStill t i PiecePriority.normal h))
    ]

    pub download_unchosen_files-IsStill :
        (chosen : List ℕ) (t : lib.Torrent) → IsStill t → IsStill (download_unchosen_files chosen t)
    unfolding download_unchosen_files
    download_unchosen_files-IsStill chosen t = want_files-IsStill chosen 0 (files_or_nil t) t

    pub turn-StillIfHeld : (g : Guards) (tr : Tracked) → StillIfHeld g (turn g tr)
    unfolding turn
    turn-StillIfHeld g tr h = turn-IsStill laws g tr h

    pub pause_tracked-StillIfHeld :
        (g : Guards) (b : Bool) (tr : Tracked) → StillIfHeld g (pause_tracked g b tr)
    unfolding pause_tracked
    pause_tracked-StillIfHeld g true tr h = turn-StillIfHeld g _ h
    pause_tracked-StillIfHeld g false tr h =
        let tr' = turn g (record tr { paused = false }) in
        download_unchosen_files-IsStill tr'.chosen_files tr'.t (turn-StillIfHeld g _ h)
