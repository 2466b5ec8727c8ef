-- ===== src/Tui/Keys.antt =====
-- internal/tui/update.go: what a key does.
use torrnado.Common.{
  ℕ, ◌+◌, ◌-◌, Bool, true, false, not, ◌&&◌, Option, none, some, List, [], ◌∷◌, ltb, leb, ◌==◌,
  if◌then◌else◌, length, get_elem?, filter,
}
use torrnado.Common.Text.{Text, codes, text_eq, mem_text}
use torrnado.Engine.Library.{Float64}
use torrnado.Engine.State.{TorrentId, TorrentSnapshot, Time}
use torrnado.Indexer.Result.{Strings}
use torrnado.Tui.Model.{
  World, Model, KeyMsg, Cmd, Next, DetailTab, PaneFocus, InputMode, StatusFilter, next_focus,
  prev_focus, next_tab, prev_tab,
}
use torrnado.Tui.Visible.{visible_torrents, clamp_cursor}
use torrnado.Tui.Sidebar.{sidebar_entries, current_sidebar_index, filter_eq}
use torrnado.Tui.Targets.{
  sync_detail, remove_targets, purge_targets, recheck_targets, pause_targets, open_cursor_folder,
  select_sidebar,
}
use torrnado.Tui.Find.{open_find, handle_find_key}
use torrnado.Tui.Details.{
  is_files, set_detail_tab, toggle_file_wanted, adjust_file_priority, step_up, step_down, detail_up,
  detail_down, preview_file,
}
use torrnado.Tui.Themes.{handle_theme_key}
use torrnado.Tui.Mouse.{toggle_mouse, step_sidebar, Turn, is_open}
use torrnado.Tui.Bindings.{
  ListKey, list_key, PaneKey, pane_key, SidebarKey, sidebar_key, DetailKey, detail_key,
}
use torrnado.Tui.Prompt.{handle_search_key, handle_find_prompt_key, handle_command_key}

-- `ddChordWindow` in nanoseconds
abbrev pub chord_window : Time
chord_window = 600000000

-- `delete(m.selected, id)` where it is marked, and `m.selected[id] = true` where it is not
unfoldable pub toggle_mark : TorrentId → List TorrentId → List TorrentId
toggle_mark id ids = if mem_text id ids then filter (λ j. not (text_eq j id)) ids else id ∷ ids

unfoldable pub is_list : PaneFocus → Bool
is_list PaneFocus.list = true
is_list _ = false

unfoldable pub some_marked : List TorrentId → Bool
some_marked [] = false
some_marked (id ∷ ids) = true

module _ ⦃fl : Float64⦄ ⦃str : Strings⦄ where
  abbrev reclamped : Model → Model
  reclamped m = clamp_cursor (length (visible_torrents m)) m

  -- The cursor in the list, by the keys.
  unfoldable pub cursor_down : ℕ → Model → Model
  cursor_down n m = if ltb (m.cursor + 1) n then record m { cursor = m.cursor + 1 } else m

  unfoldable pub press_d : World → Model → Model × List Cmd
  press_d w m =
      if m.pending_dd && leb (w.now - m.pending_at) chord_window
      then (let m' = record m { pending_dd = false } in
          remove_targets (visible_torrents m') false m')
      else (record m { pending_dd = true; pending_at = w.now }, [])

  -- `km.Back` peels one layer off.
  unfoldable pub peel : Model → Model
  peel m =
      if not (is_list m.focus)
      then record m { focus = PaneFocus.list }
      else if some_marked m.selected
      then record m { selected = [] }
      else if not (text_eq m.search_query [])
      then reclamped (record m { search_query = [] })
      else if not (text_eq m.label_filter [])
      then (let m' = record m { label_filter = [] } in
          reclamped (record m' { sidebar_cursor = current_sidebar_index m' }))
      else if not (filter_eq m.filter StatusFilter.all)
      then (let m' = record m { filter = StatusFilter.all } in
          reclamped (record m' { sidebar_cursor = current_sidebar_index m' }))
      else m

  -- `visible[m.cursor]` panics past the end.
  unfoldable pub mark : Option TorrentSnapshot → Model → Next
  mark none m = none
  mark (some t) m = some (
      sync_detail (
        cursor_down (length (visible_torrents m))
          (record m { selected = toggle_mark t.id m.selected })))

  unfoldable pub select_row : List TorrentSnapshot → Model → Next
  unfolding mark
  select_row [] m = some (sync_detail m)
  select_row (t ∷ ts) m = mark (get_elem? (t ∷ ts) m.cursor) m

  unfoldable pub bottom_of : ℕ → Model → Model
  bottom_of n m = if n == 0 then m else record m { cursor = n - 1 }

  unfoldable pub list_step : World → ListKey → Model → Next
  unfolding press_d peel select_row cursor_down bottom_of
  list_step w ListKey.chord m = some (press_d w m)
  list_step w ListKey.quit m = some (record m { quitting = true }, Cmd.quit ∷ [])
  list_step w ListKey.up m = some (sync_detail (record m { cursor = m.cursor - 1 }))
  list_step w ListKey.down m = some (sync_detail (cursor_down (length (visible_torrents m)) m))
  list_step w ListKey.top m = some (sync_detail (record m { cursor = 0 }))
  list_step w ListKey.bottom m = some (sync_detail (bottom_of (length (visible_torrents m)) m))
  list_step w ListKey.remove m = some (remove_targets (visible_torrents m) false m)
  list_step w ListKey.remove_data m = some (remove_targets (visible_torrents m) true m)
  list_step w ListKey.purge m = some (purge_targets (visible_torrents m) m)
  list_step w ListKey.pause m = some (pause_targets (visible_torrents m) m)
  list_step w ListKey.recheck m = some (recheck_targets (visible_torrents m) m)
  list_step w ListKey.preview m = some (preview_file m)
  list_step w ListKey.open_folder m = some (open_cursor_folder m)
  list_step w ListKey.find m = some (open_find m)
  list_step w ListKey.detail m = some (record m { focus = PaneFocus.detail }, [])
  list_step w ListKey.back m = some (peel m, [])
  list_step w ListKey.search m = some (record m { mode = InputMode.search }, [])
  list_step w ListKey.command m = some (record m { mode = InputMode.command; command_buf = [] }, [])
  list_step w ListKey.help m = some (record m { show_help = true }, [])
  list_step w ListKey.select m = select_row (visible_torrents m) m
  list_step w ListKey.ignored m = some (m, [])

  -- Any other key than "d" abandons the chord.
  unfoldable pub handle_list_key : World → Text → Model → Next
  unfolding list_step
  handle_list_key w k m =
      list_step w (list_key m.keymap k)
        (if text_eq k (codes "d") then m else record m { pending_dd = false })

  unfoldable pub sidebar_step : World → Text → SidebarKey → Model → Next
  sidebar_step w k SidebarKey.up m = step_sidebar Turn.up m
  sidebar_step w k SidebarKey.down m = step_sidebar Turn.down m
  sidebar_step w k SidebarKey.top m = select_sidebar 0 m
  sidebar_step w k SidebarKey.bottom m = select_sidebar (length (sidebar_entries m) - 1) m
  sidebar_step w k SidebarKey.other m = handle_list_key w k m

  unfoldable pub detail_step : World → Text → DetailKey → Model → Next
  detail_step w k DetailKey.up m = some (detail_up m, [])
  detail_step w k DetailKey.down m = some (detail_down m, [])
  detail_step w k DetailKey.toggle m = some (toggle_file_wanted m)
  detail_step w k DetailKey.raise m = some (adjust_file_priority step_up m)
  detail_step w k DetailKey.lower m = some (adjust_file_priority step_down m)
  detail_step w k DetailKey.other m = handle_list_key w k m

  -- `handleSidebarKey`, `handleDetailKey`, `handleListKey`
  unfoldable pub focused_key : World → Text → PaneFocus → Model → Next
  unfolding sidebar_step detail_step
  focused_key w k PaneFocus.sidebar m = sidebar_step w k (sidebar_key m.keymap k) m
  focused_key w k PaneFocus.detail m =
      detail_step w k (detail_key m.keymap (is_files m.detail_tab) k) m
  focused_key w k PaneFocus.list m = handle_list_key w k m

  unfoldable pub pane_step : World → Text → PaneKey → Model → Next
  unfolding focused_key
  pane_step w k PaneKey.focus_next m = some (record m { focus = next_focus m.focus }, [])
  pane_step w k PaneKey.focus_prev m = some (record m { focus = prev_focus m.focus }, [])
  pane_step w k PaneKey.tab_next m = some (set_detail_tab (next_tab m.detail_tab) m, [])
  pane_step w k PaneKey.tab_prev m = some (set_detail_tab (prev_tab m.detail_tab) m, [])
  pane_step w k PaneKey.filter_next m = step_sidebar Turn.down m
  pane_step w k PaneKey.filter_prev m = step_sidebar Turn.up m
  pane_step w k PaneKey.mouse m = some (toggle_mouse m)
  pane_step w k PaneKey.tab_pieces m = some (set_detail_tab DetailTab.pieces m, [])
  pane_step w k PaneKey.tab_peers m = some (set_detail_tab DetailTab.peers m, [])
  pane_step w k PaneKey.tab_files m = some (set_detail_tab DetailTab.files m, [])
  pane_step w k PaneKey.other m = focused_key w k m.focus m

  -- The prompts, and the panes where there is none.
  unfoldable pub mode_key : World → KeyMsg → InputMode → Model → Next
  unfolding handle_search_key handle_find_prompt_key handle_command_key pane_step
  mode_key w msg InputMode.search m = some (handle_search_key msg m, [])
  mode_key w msg InputMode.command m = some (handle_command_key w msg msg.type m)
  mode_key w msg InputMode.find m = some (handle_find_prompt_key msg msg.type m)
  mode_key w msg InputMode.normal m = pane_step w msg.string (pane_key m.keymap msg.string) m

  unfoldable pub handle_key : World → KeyMsg → Model → Next
  unfolding mode_key is_open
  handle_key w msg m =
      if text_eq msg.string (codes "ctrl+c")
      then some (record m { quitting = true }, Cmd.quit ∷ [])
      else if m.show_help
      then some (record m { show_help = false }, [])
      else if m.theme_picker
      then handle_theme_key w msg.string m
      else if is_open m.find_state
      then some (handle_find_key w msg.string m)
      else mode_key w msg m.mode m
