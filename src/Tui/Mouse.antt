-- ===== src/Tui/Mouse.antt =====
-- internal/tui/mouse.go: which pane a click falls in, and what it does there.
pub mod Clicks
use torrnado.Common.{
  ℕ, ◌+◌, ◌-◌, Bool, true, false, not, ◌&&◌, ◌||◌, Option, none, some, List, [], ◌∷◌, ◌++◌, ltb,
  leb, ◌==◌, if◌then◌else◌, length, get_elem?,
}
use torrnado.Common.Text.{Text, codes, text_eq}
use torrnado.Engine.Library.{Float64}
use torrnado.Indexer.Result.{Strings}
use torrnado.Tui.Layout.{Panes, layout, scroll_window}
use torrnado.Tui.Model.{
  Model, MouseMsg, Button, Cmd, Next, DetailTab, PaneFocus, FindState, set_status, ok_status,
}
use torrnado.Tui.Visible.{visible_torrents, clamp_cursor}
use torrnado.Tui.Sidebar.{sidebar_entries, current_sidebar_index, row_entries}
use torrnado.Tui.Targets.{sync_detail, select_sidebar}
use torrnado.Tui.Details.{is_files, set_detail_tab}

-- `mouseTarget`, with the row of the pane's content
pub data MouseTarget : Type 0 where
  nothing detail_tabs : MouseTarget
  sidebar list detail_body : ℕ → MouseTarget

-- The row of a pane's content that starts one below `top`, or none on the border.
unfoldable pub content_row : ℕ → ℕ → ℕ → Option ℕ
content_row top rows y = if leb y top || leb rows (y - top - 1) then none else some (y - top - 1)

unfoldable pub in_pane : (ℕ → MouseTarget) → Option ℕ → MouseTarget
in_pane f none = MouseTarget.nothing
in_pane f (some row) = f row

-- The tab strip owns the first row.
unfoldable pub in_detail : ℕ → MouseTarget
in_detail row = if row == 0 then MouseTarget.detail_tabs else MouseTarget.detail_body (row - 1)

unfoldable pub hit_test : Panes → ℕ → ℕ → MouseTarget
unfolding content_row in_pane in_detail
hit_test p x y =
    if ltb x p.sidebar_w
    then in_pane MouseTarget.sidebar (content_row 0 p.sidebar_content_h y)
    else if ltb y p.list_h
    then in_pane MouseTarget.list (content_row 0 p.list_content_h y)
    else if ltb y (p.list_h + p.detail_h)
    then in_pane in_detail (content_row p.list_h p.detail_content_h y)
    else MouseTarget.nothing

-- `detailTabSpans` and `detailTabAt`: the names have six, five and five letters, each with a column
-- on either side, and two columns between them.
unfoldable pub detail_tab_at : ℕ → Option DetailTab
detail_tab_at col =
    if leb 3 col && ltb col 11
    then some DetailTab.pieces
    else if leb 13 col && ltb col 20
    then some DetailTab.peers
    else if leb 22 col && ltb col 29
    then some DetailTab.files
    else none

unfoldable pub is_open : FindState → Bool
is_open FindState.closed = false
is_open _ = true

-- `displayKey`
unfoldable pub display_key : Text → Text
display_key k = if text_eq k (codes " ") then codes "space" else k

-- The direction of the wheel.
pub data Turn : Type 0 where
  up down : Turn

module _ ⦃fl : Float64⦄ where
  -- `tea.Batch` of a command and those of a result
  abbrev pub also : Cmd → Model × List Cmd → Model × List Cmd
  also c (m, cmds) = (m, c ∷ cmds)

  unfoldable pub toggle_mouse : Model → Model × List Cmd
  unfolding display_key
  toggle_mouse m =
      if m.mouse_off
      then also (Cmd.capture_mouse true)
          (set_status (ok_status (codes "mouse on")) (record m { mouse_off = false }))
      else also (Cmd.capture_mouse false) (
          set_status
            (ok_status (
              codes "mouse off - drag to select and copy, "
              ++ display_key m.keymap.toggle_mouse
              ++ codes " to switch back"))
            (record m { mouse_off = true }))

  -- A click on a row of the Files tab picks the file that the row shows.
  unfoldable pub click_file : ℕ → ℕ → Model → Model
  unfolding is_files
  click_file height row m =
      let i = (scroll_window m.detail_cursor (length m.detail.files) height).0 + row - 1 in
      if is_files m.detail_tab && not (row == 0) && ltb i (length m.detail.files)
      then record m { detail_cursor = i }
      else m

  unfoldable pub click_tab : Option DetailTab → Model → Model
  click_tab none m = m
  click_tab (some t) m = set_detail_tab t (record m { focus = PaneFocus.detail })

  module _ ⦃str : Strings⦄ where
    -- The row above, and the row below.
    unfoldable pub step_sidebar : Turn → Model → Next
    step_sidebar Turn.up m =
        select_sidebar (current_sidebar_index m + length (sidebar_entries m) - 1) m
    step_sidebar Turn.down m = select_sidebar (current_sidebar_index m + 1) m

    unfoldable pub move_by : Turn → ℕ → ℕ
    move_by Turn.up n = n - 1
    move_by Turn.down n = n + 1

    unfoldable pub scroll_list : Turn → Model → Model × List Cmd
    unfolding move_by
    scroll_list d m =
        let n = length (visible_torrents m) in
        if n == 0
        then (m, [])
        else sync_detail (clamp_cursor n (record m { cursor = move_by d m.cursor }))

    unfoldable pub scroll_target : MouseTarget → Turn → Model → Next
    unfolding step_sidebar scroll_list move_by
    scroll_target (MouseTarget.sidebar row) d m = step_sidebar d m
    scroll_target (MouseTarget.list row) d m = some (scroll_list d m)
    scroll_target MouseTarget.detail_tabs d m =
        some (record m { detail_scroll = move_by d m.detail_scroll }, [])
    scroll_target (MouseTarget.detail_body row) d m =
        some (record m { detail_scroll = move_by d m.detail_scroll }, [])
    scroll_target MouseTarget.nothing d m = some (m, [])

    -- A click on a row of the list, below the header.
    unfoldable pub click_list : ℕ → ℕ → Model → Model × List Cmd
    click_list height row m =
        let n = length (visible_torrents m) in
        let i = (scroll_window m.cursor n (height - 1)).0 + (row - 1) in
        if row == 0 || leb n i
        then (m, [])
        else sync_detail (record m { focus = PaneFocus.list; cursor = i })

    unfoldable pub click_sidebar : Option (Option ℕ) → Model → Next
    click_sidebar (some (some i)) m = select_sidebar i (record m { focus = PaneFocus.sidebar })
    click_sidebar (some none) m = some (m, [])
    click_sidebar none m = some (m, [])

    unfoldable pub click : Panes → ℕ → MouseTarget → Model → Next
    unfolding click_file click_tab click_list click_sidebar
    click p x (MouseTarget.sidebar row) m = click_sidebar (get_elem? (row_entries p m) row) m
    click p x (MouseTarget.list row) m = some (click_list p.list_content_h row m)
    click p x MouseTarget.detail_tabs m =
        some (click_tab (detail_tab_at (x - p.sidebar_w - 1 - 1)) m, [])
    click p x (MouseTarget.detail_body row) m =
        some (click_file (p.detail_content_h - 2) row (record m { focus = PaneFocus.detail }), [])
    click p x MouseTarget.nothing m = some (m, [])

    unfoldable pub mouse_button : Panes → MouseMsg → Button → Model → Next
    unfolding scroll_target click
    mouse_button p msg Button.wheel_up m = scroll_target (hit_test p msg.x msg.y) Turn.up m
    mouse_button p msg Button.wheel_down m = scroll_target (hit_test p msg.x msg.y) Turn.down m
    mouse_button p msg Button.left m =
        if msg.pressed then click p msg.x (hit_test p msg.x msg.y) m else some (m, [])
    mouse_button p msg Button.other m = some (m, [])

    unfoldable pub handle_mouse : MouseMsg → Model → Next
    unfolding mouse_button is_open
    handle_mouse msg m =
        if m.mouse_off || m.show_help || m.theme_picker || is_open m.find_state
        then some (m, [])
        else if m.width == 0 || m.height == 0
        then some (m, [])
        else mouse_button (layout m.width m.height) msg msg.button m
