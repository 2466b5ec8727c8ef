-- ===== src/Engine/Calls/Safety/Metadata.antt =====
-- The arrival of a torrent's metadata keeps an engine safe.
use torrnado.Common.{ℕ, ◌+◌, ◌∙◌, Bool, true, false, List, [], ◌∷◌, inl, inr, Bool-cases}
use torrnado.Common.Text.{Text}
use torrnado.Engine.Library.{Float64, TorrentLib, TorrentLaws, File}
use torrnado.Engine.State.{Guards, Tracked, Engine, AddOpts, TorrentId, guards_locked}
use torrnado.Engine.Flow.{IsStill}
use torrnado.Engine.Ops.{on_tracked_rule}
use torrnado.Engine.Calls.Safety.{
  StillIfHeld, IsSafe, announce-IsSafe, put-IsSafe, found-StillIfHeld, set_priority-IsStill,
  download_unchosen_files-IsStill,
}
use torrnado.Engine.Metadata.{
  PathLib, select_files, apply_file_selection, metadata_wanted, informed, metadata_received,
}

module _ ⦃fl : Float64⦄ ⦃lib : TorrentLib⦄ (laws : TorrentLaws lib) where
  select_files-IsStill :
      (picks : File → Bool) (i : ℕ) (fs : List File) (t : lib.Torrent)
      → IsStill t
      → IsStill (select_files picks i fs t)
  unfolding select_files
  select_files-IsStill picks i [] t h = h
  select_files-IsStill picks i (f ∷ fs) t h =
      select_files-IsStill picks (i + 1) fs _ (set_priority-IsStill laws t i _ h)

  informed-IsStill : (fs : List File) (tr : Tracked) → IsStill tr.t → IsStill (informed fs tr).t
  unfolding informed
  informed-IsStill fs tr h = elim (Bool-cases (lib.has_info tr.t)) [
    | inl p ↦ rw p h
    | inr p ↦ rw p (record {
      no_download = laws.download-got_info fs tr.t ∙ h.no_download;
      no_upload = laws.upload-got_info fs tr.t ∙ h.no_upload;
    })
  ]

  selection-StillIfHeld :
      (path : PathLib) (patterns : List Text) (g : Guards) (tr : Tracked)
      → StillIfHeld g tr
      → StillIfHeld g (apply_file_selection path patterns tr).1
  unfolding apply_file_selection
  selection-StillIfHeld path patterns g tr k = elim (Bool-cases (lib.has_info tr.t)) [
    | inr q ↦ rw (q, apply_file_selection) k
    | inl q ↦
        rw (q, apply_file_selection)
          (λ held. select_files-IsStill _ 0 (lib.files tr.t) tr.t (k held))
  ]

  metadata_wanted-StillIfHeld :
      (path : PathLib) (patterns : List Text) (paused : Bool) (g : Guards) (tr : Tracked)
      → StillIfHeld g tr
      → StillIfHeld g (metadata_wanted path patterns paused tr)
  unfolding metadata_wanted
  metadata_wanted-StillIfHeld path [] true g tr k = k
  metadata_wanted-StillIfHeld path [] false g tr k =
      λ held. download_unchosen_files-IsStill laws tr.chosen_files tr.t (k held)
  metadata_wanted-StillIfHeld path (p ∷ ps) paused g tr k =
      selection-StillIfHeld path (p ∷ ps) g tr k

  pub metadata_received-IsSafe :
      (path : PathLib) (id : TorrentId) (opts : AddOpts) (fs : List File) (e : Engine)
      → IsSafe e
      → IsSafe (metadata_received path id opts fs e)
  unfolding metadata_received
  metadata_received-IsSafe path id opts fs e h = announce-IsSafe _ (
      on_tracked_rule IsSafe id e _ h λ tr p.
        put-IsSafe id _ e
          (metadata_wanted-StillIfHeld path opts.files opts.paused (guards_locked e)
            (informed fs tr) (λ held. informed-IsStill fs tr (found-StillIfHeld id e h p held)))
          h)
