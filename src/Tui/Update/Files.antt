-- ===== src/Tui/Update/Files.antt =====
-- The handlers of internal/tui's detail.go: each carries the invariants on.
use torrnado.Common.{
  ◌+◌, true, ◌&&◌, Option, none, some, List, [], ◌∷◌, Bool-cases, inl, inr, ltb, length, get_elem?,
}
use torrnado.Common.Text.{text_eq}
use torrnado.Engine.Library.{Float64}
use torrnado.Engine.Types.{Priority}
use torrnado.Engine.State.{TorrentSnapshot, TorrentId, Answer, gives, fails}
use torrnado.Indexer.Result.{Strings}
use torrnado.Tui.Model.{Model, FileInfo, DetailTab, Detail, set_status}
use torrnado.Tui.Visible.{visible_torrents, shown, cursor_torrent}
use torrnado.Tui.Details.{
  set_detail_tab, next_file, toggle_wanted, toggle_file_wanted, adjust, adjust_file_priority,
  detail_up, detail_down, load_files, preview_files, preview_at, preview_file, is_files,
  snapshot_id,
}
use torrnado.Tui.Update.{take_detail}
use torrnado.Tui.Update.Carries.{Carries, Carries-refl}

module _ ⦃fl : Float64⦄ ⦃str : Strings⦄ where
  pub set_detail_tab-Carries : (t : DetailTab) (m : Model) → Carries m (set_detail_tab t m)
  unfolding set_detail_tab visible_torrents shown
  set_detail_tab-Carries t m = Carries-refl m

  next_file-Carries : (m : Model) → Carries m (next_file m)
  unfolding next_file visible_torrents shown
  next_file-Carries m = elim (Bool-cases (ltb (m.detail_cursor + 1) (length m.detail.files))) [
    | inl b ↦ rw b (Carries-refl m)
    | inr b ↦ rw b (Carries-refl m)
  ]

  toggle_wanted-Carries : (o : Option FileInfo) (m : Model) → Carries m (toggle_wanted o m).0
  unfolding toggle_wanted
  toggle_wanted-Carries none m = Carries-refl m
  toggle_wanted-Carries (some f) m = next_file-Carries m

  pub toggle_file_wanted-Carries : (m : Model) → Carries m (toggle_file_wanted m).0
  unfolding toggle_file_wanted
  toggle_file_wanted-Carries m = toggle_wanted-Carries (get_elem? m.detail.files m.detail_cursor) m

  adjust-Carries :
      (step : Priority → Priority) (o : Option FileInfo) (m : Model) → Carries m (adjust step o m).0
  unfolding adjust
  adjust-Carries step none m = Carries-refl m
  adjust-Carries step (some f) m = Carries-refl m

  pub adjust_file_priority-Carries :
      (step : Priority → Priority) (m : Model) → Carries m (adjust_file_priority step m).0
  unfolding adjust_file_priority
  adjust_file_priority-Carries step m = elim (Bool-cases (is_files m.detail_tab)) [
    | inl b ↦ rw b (adjust-Carries step (get_elem? m.detail.files m.detail_cursor) m)
    | inr b ↦ rw b (Carries-refl m)
  ]

  pub detail_up-Carries : (m : Model) → Carries m (detail_up m)
  unfolding detail_up visible_torrents shown
  detail_up-Carries m = elim (Bool-cases (is_files m.detail_tab)) [
    | inl b ↦ rw b (Carries-refl m)
    | inr b ↦ rw b (Carries-refl m)
  ]

  pub detail_down-Carries : (m : Model) → Carries m (detail_down m)
  unfolding detail_down visible_torrents shown
  detail_down-Carries m = elim (Bool-cases (is_files m.detail_tab)) [
    | inl b ↦ rw b (next_file-Carries m)
    | inr b ↦ rw b (Carries-refl m)
  ]

  load_files-Carries : (fs : List FileInfo) (m : Model) → Carries m (load_files fs m)
  unfolding load_files visible_torrents shown
  load_files-Carries fs m = elim (Bool-cases (ltb m.detail_cursor (length fs))) [
    | inl b ↦ rw b (Carries-refl m)
    | inr b ↦ rw b (Carries-refl m)
  ]

  pub take_detail-Carries : (a : Answer Detail) (m : Model) → Carries m (take_detail a m).0
  unfolding take_detail set_status visible_torrents shown
  take_detail-Carries (fails e) m = Carries-refl m
  take_detail-Carries (gives d) m =
      elim (Bool-cases (text_eq (snapshot_id d.snapshot) m.detail_id)) [
        | inl b ↦ rw b (load_files-Carries d.files (record m { detail = d; detail_loaded = true }))
        | inr b ↦ rw b (Carries-refl m)
      ]

  preview_files-Carries :
      (fs : List FileInfo) (id : TorrentId) (m : Model) → Carries m (preview_files fs id m).0
  unfolding preview_files set_status visible_torrents shown
  preview_files-Carries [] id m = Carries-refl m
  preview_files-Carries (f ∷ fs) id m = Carries-refl m

  preview_at-Carries : (o : Option TorrentSnapshot) (m : Model) → Carries m (preview_at o m).0
  unfolding preview_at set_status visible_torrents shown
  preview_at-Carries none m = Carries-refl m
  preview_at-Carries (some t) m =
      elim (Bool-cases (m.detail_loaded && text_eq (snapshot_id m.detail.snapshot) t.id)) [
        | inl b ↦ rw b (preview_files-Carries m.detail.files (snapshot_id m.detail.snapshot) m)
        | inr b ↦ rw b (Carries-refl m)
      ]

  pub preview_file-Carries : (m : Model) → Carries m (preview_file m).0
  unfolding preview_file
  preview_file-Carries m = preview_at-Carries (cursor_torrent m) m
