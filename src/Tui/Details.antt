-- ===== src/Tui/Details.antt =====
-- internal/tui/detail.go: the keys of the detail pane, and the preview of a file. The engine's five
-- priorities are steps on one scale.
use torrnado.Common.{
  ◌+◌, ◌-◌, Bool, true, false, ◌&&◌, Option, none, some, List, [], ◌∷◌, ◌++◌, ltb, if◌then◌else◌,
  length, get_elem?,
}
use torrnado.Common.Text.{codes, text_eq}
use torrnado.Common.Int64
use torrnado.Engine.Library.{Float64}
use torrnado.Engine.Types.{Priority}
use torrnado.Engine.State.{TorrentId, TorrentSnapshot}
use torrnado.Indexer.Result.{Strings}
use torrnado.Tui.Model.{Model, FileInfo, Cmd, DetailTab, set_status, err_status}
use torrnado.Tui.Visible.{cursor_torrent}

-- `t == tabFiles`
unfoldable pub is_files : DetailTab → Bool
is_files DetailTab.files = true
is_files _ = false

-- `p == PriorityNone`
unfoldable pub is_none : Priority → Bool
is_none Priority.none = true
is_none _ = false

-- The priority one step up or down, which stops at the ends.
unfoldable pub step_up : Priority → Priority
step_up Priority.none = Priority.low
step_up Priority.low = Priority.normal
step_up Priority.normal = Priority.high
step_up Priority.high = Priority.now
step_up Priority.now = Priority.now
step_up (Priority.other n) = Priority.now

unfoldable pub step_down : Priority → Priority
step_down Priority.none = Priority.none
step_down Priority.low = Priority.none
step_down Priority.normal = Priority.low
step_down Priority.high = Priority.normal
step_down Priority.now = Priority.high
step_down (Priority.other n) = Priority.now

-- `largestFile`, of a list that is not empty
unfoldable pub largest_from : FileInfo → List FileInfo → FileInfo
largest_from best [] = best
largest_from best (f ∷ fs) = largest_from (if Int64.lt best.length f.length then f else best) fs

module _ ⦃fl : Float64⦄ where
  unfoldable pub set_detail_tab : DetailTab → Model → Model
  set_detail_tab t m = record m { detail_tab = t; detail_scroll = 0 }

  -- `m.detail.Snapshot.ID`
  unfoldable pub snapshot_id : Option TorrentSnapshot → TorrentId
  snapshot_id none = []
  snapshot_id (some t) = t.id

  -- The next file, unless it is the last.
  unfoldable pub next_file : Model → Model
  next_file m =
      if ltb (m.detail_cursor + 1) (length m.detail.files)
      then record m { detail_cursor = m.detail_cursor + 1 }
      else m

  unfoldable pub toggle_wanted : Option FileInfo → Model → Model × List Cmd
  unfolding snapshot_id next_file is_none
  toggle_wanted none m = (m, [])
  toggle_wanted (some f) m = (
    next_file m,
    Cmd.set_priority (snapshot_id m.detail.snapshot) f.index
          (if is_none f.priority then Priority.normal else Priority.none)
        ∷ [],
  )

  unfoldable pub toggle_file_wanted : Model → Model × List Cmd
  unfolding toggle_wanted
  toggle_file_wanted m = toggle_wanted (get_elem? m.detail.files m.detail_cursor) m

  unfoldable pub adjust : (Priority → Priority) → Option FileInfo → Model → Model × List Cmd
  unfolding snapshot_id
  adjust step none m = (m, [])
  adjust step (some f) m =
      (m, Cmd.set_priority (snapshot_id m.detail.snapshot) f.index (step f.priority) ∷ [])

  -- `adjustFilePriority`, with the step for its delta
  unfoldable pub adjust_file_priority : (Priority → Priority) → Model → Model × List Cmd
  unfolding is_files adjust
  adjust_file_priority step m =
      if is_files m.detail_tab
      then adjust step (get_elem? m.detail.files m.detail_cursor) m
      else (m, [])

  -- The keys up and down.
  unfoldable pub detail_up : Model → Model
  unfolding is_files
  detail_up m =
      if is_files m.detail_tab
      then record m { detail_cursor = m.detail_cursor - 1 }
      else record m { detail_scroll = m.detail_scroll - 1 }

  unfoldable pub detail_down : Model → Model
  unfolding is_files next_file
  detail_down m =
      if is_files m.detail_tab
      then next_file m
      else record m { detail_scroll = m.detail_scroll + 1 }

  -- `detailLoadedMsg` without an error: a reply for a torrent that the cursor has left is dropped.
  unfoldable pub load_files : List FileInfo → Model → Model
  load_files fs m =
      if ltb m.detail_cursor (length fs) then m else record m { detail_cursor = length fs - 1 }

  -- The file that is previewed.
  unfoldable pub chosen_file : FileInfo → List FileInfo → Option FileInfo → Bool → FileInfo
  unfolding largest_from
  chosen_file f fs (some g) true = g
  chosen_file f fs (some g) false = largest_from f fs
  chosen_file f fs none on_files = largest_from f fs

  unfoldable pub preview_files : List FileInfo → TorrentId → Model → Model × List Cmd
  unfolding chosen_file is_files
  preview_files [] id m =
      set_status (err_status (codes "no files yet - still waiting for this torrent's metadata")) m
  preview_files (f ∷ fs) id m = (
    m,
    Cmd.preview id
          (chosen_file f fs (get_elem? m.detail.files m.detail_cursor) (is_files m.detail_tab))
        ∷ [],
  )

  unfoldable pub preview_at : Option TorrentSnapshot → Model → Model × List Cmd
  unfolding snapshot_id preview_files
  preview_at none m = (m, [])
  preview_at (some t) m =
      if m.detail_loaded && text_eq (snapshot_id m.detail.snapshot) t.id
      then preview_files m.detail.files (snapshot_id m.detail.snapshot) m
      else set_status (err_status (codes "still reading " ++ t.name)) m

  unfoldable pub preview_file : ⦃str : Strings⦄ → Model → Model × List Cmd
  unfolding preview_at
  preview_file m = preview_at (cursor_torrent m) m
