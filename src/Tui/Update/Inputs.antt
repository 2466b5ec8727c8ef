-- ===== src/Tui/Update/Inputs.antt =====
-- The mouse and the command line of internal/tui (mouse.go, palette.go): each carries the invariants
-- on, and a click panics only where they do not hold.
use torrnado.Common.{
  ℕ, ◌+◌, ◌-◌, ◌<◌, ◌≡◌, refl, ◌⊎◌, inr, Bool, true, false, ◌||◌, Option, none, some, List, [], ◌∷◌,
  arith, leb, ◌==◌, if◌then◌else◌, length, get_elem?,
}
use torrnado.Common.Text.{Text, codes, join}
use torrnado.Engine.Library.{Float64}
use torrnado.Engine.State.{TorrentSnapshot}
use torrnado.Indexer.Result.{Strings}
use torrnado.Tui.Model.{
  World, Model, SortMode, DetailTab, PaneFocus, MouseMsg, Button, set_status, parse_sort_mode,
}
use torrnado.Tui.Layout.{Panes, layout, scroll_window}
use torrnado.Tui.Visible.{visible_torrents, shown, clamp_cursor, cursor_torrent}
use torrnado.Tui.Sidebar.{sidebar_entries, current_sidebar_index, row_entries}
use torrnado.Tui.Targets.{
  sync_detail, remove_targets, purge_targets, recheck_targets, set_paused_targets, label_targets,
}
use torrnado.Tui.Mouse.{
  MouseTarget, Turn, toggle_mouse, click_file, click_tab, step_sidebar, move_by, scroll_list,
  scroll_target, click_list, click_sidebar, click, mouse_button, handle_mouse, hit_test, is_open,
  detail_tab_at,
}
use torrnado.Tui.Palette.{
  Command, exec_add, exec_limit, move_at, exec_theme, exec_move, exec_find, sort_by_column,
  exec_sort, exec_named, exec_args, exec_command, command_named, split_args, is_desc,
}
use torrnado.Tui.Update.Carries.{
  rows, IsSafe, Carries, Steps, Carries-refl, Carries-if, Carries-if_model, Steps-if,
  Carries-reclamped, sync_detail-Carries,
}
use torrnado.Tui.Update.Handlers.{
  select_sidebar-Steps, Steps-trans, on_targets-Carries, remove_all-Carries,
}
use torrnado.Tui.Update.Overlays.{
  open_find-Carries, start_find-Carries, open_theme_picker-Carries, set_theme_by_name-Carries,
}
use torrnado.Tui.Update.Files.{set_detail_tab-Carries}

module _ ⦃fl : Float64⦄ ⦃str : Strings⦄ where
  pub toggle_mouse-Carries : (m : Model) → Carries m (toggle_mouse m).0
  unfolding toggle_mouse set_status visible_torrents shown
  toggle_mouse-Carries m = Carries-if m m.mouse_off _ _ (λ b. Carries-refl m) (λ b. Carries-refl m)

  click_file-Carries : (height row : ℕ) (m : Model) → Carries m (click_file height row m)
  unfolding click_file visible_torrents shown
  click_file-Carries height row m =
      Carries-if_model m _ _ _ (λ b. Carries-refl m) (λ b. Carries-refl m)

  click_tab-Carries : (o : Option DetailTab) (m : Model) → Carries m (click_tab o m)
  unfolding click_tab visible_torrents shown
  click_tab-Carries none m = Carries-refl m
  click_tab-Carries (some t) m = set_detail_tab-Carries t (record m { focus = PaneFocus.detail })

  pub step_sidebar-Steps : (d : Turn) (m : Model) → Steps m (step_sidebar d m)
  unfolding step_sidebar
  step_sidebar-Steps Turn.up m =
      select_sidebar-Steps (current_sidebar_index m + length (sidebar_entries m) - 1) m
  step_sidebar-Steps Turn.down m = select_sidebar-Steps (current_sidebar_index m + 1) m

  -- The cursor goes to a row of the list.
  pub cursor-Carries :
      (c : ℕ) (m : Model)
      → (IsSafe m → (c ≡ 0) ⊎ (c < rows m))
      → Carries m (record m { cursor = c })
  unfolding visible_torrents shown
  cursor-Carries c m p = (λ h. (p h, h.1), λ k h. h, omega arith, refl)

  scroll_list-Carries : (d : Turn) (m : Model) → Carries m (scroll_list d m).0
  unfolding scroll_list visible_torrents shown
  scroll_list-Carries d m =
      let m' = record m { cursor = move_by d m.cursor } in
      Carries-if m (rows m == 0) (m, []) (sync_detail (clamp_cursor (rows m) m'))
        (λ b. Carries-refl m)
        (λ b.
          sync_detail-Carries m (clamp_cursor (rows m) m')
            (Carries-reclamped m m' (refl, refl, refl, refl, refl) (inr (refl, refl, refl, refl))))

  scroll_target-Steps : (t : MouseTarget) (d : Turn) (m : Model) → Steps m (scroll_target t d m)
  unfolding scroll_target visible_torrents shown
  scroll_target-Steps (MouseTarget.sidebar row) d m = step_sidebar-Steps d m
  scroll_target-Steps (MouseTarget.list row) d m = scroll_list-Carries d m
  scroll_target-Steps MouseTarget.detail_tabs d m = Carries-refl m
  scroll_target-Steps (MouseTarget.detail_body row) d m = Carries-refl m
  scroll_target-Steps MouseTarget.nothing d m = Carries-refl m

  click_list-Carries : (height row : ℕ) (m : Model) → Carries m (click_list height row m).0
  unfolding click_list visible_torrents shown
  click_list-Carries height row m =
      let i = (scroll_window m.cursor (rows m) (height - 1)).0 + (row - 1) in
      let m' = record m { focus = PaneFocus.list; cursor = i } in
      Carries-if m (row == 0 || leb (rows m) i) (m, []) (sync_detail m') (λ b. Carries-refl m)
        (λ b.
          sync_detail-Carries m m' (λ h. (inr (ground arith), h.1), λ k h. h, omega arith, refl))

  click_sidebar-Steps : (o : Option (Option ℕ)) (m : Model) → Steps m (click_sidebar o m)
  unfolding click_sidebar visible_torrents shown
  click_sidebar-Steps (some (some i)) m =
      Steps-trans m (record m { focus = PaneFocus.sidebar }) _ (Carries-refl m)
        (select_sidebar-Steps i (record m { focus = PaneFocus.sidebar }))
  click_sidebar-Steps (some none) m = Carries-refl m
  click_sidebar-Steps none m = Carries-refl m

  click-Steps : (p : Panes) (x : ℕ) (t : MouseTarget) (m : Model) → Steps m (click p x t m)
  unfolding click visible_torrents shown
  click-Steps p x (MouseTarget.sidebar row) m =
      click_sidebar-Steps (get_elem? (row_entries p m) row) m
  click-Steps p x (MouseTarget.list row) m = click_list-Carries p.list_content_h row m
  click-Steps p x MouseTarget.detail_tabs m =
      click_tab-Carries (detail_tab_at (x - p.sidebar_w - 1 - 1)) m
  click-Steps p x (MouseTarget.detail_body row) m =
      click_file-Carries (p.detail_content_h - 2) row (record m { focus = PaneFocus.detail })
  click-Steps p x MouseTarget.nothing m = Carries-refl m

  mouse_button-Steps :
      (p : Panes) (msg : MouseMsg) (b : Button) (m : Model) → Steps m (mouse_button p msg b m)
  unfolding mouse_button
  mouse_button-Steps p msg Button.wheel_up m =
      scroll_target-Steps (hit_test p msg.x msg.y) Turn.up m
  mouse_button-Steps p msg Button.wheel_down m =
      scroll_target-Steps (hit_test p msg.x msg.y) Turn.down m
  mouse_button-Steps p msg Button.left m =
      Steps-if m msg.pressed (click p msg.x (hit_test p msg.x msg.y) m) (some (m, []))
        (λ b. click-Steps p msg.x (hit_test p msg.x msg.y) m) (λ b. Carries-refl m)
  mouse_button-Steps p msg Button.other m = Carries-refl m

  pub handle_mouse-Steps : (msg : MouseMsg) (m : Model) → Steps m (handle_mouse msg m)
  unfolding handle_mouse
  handle_mouse-Steps msg m =
      let p = layout m.width m.height in
      let laid = mouse_button p msg msg.button m in
      Steps-if m (m.mouse_off || m.show_help || m.theme_picker || is_open m.find_state)
        (some (m, [])) (if m.width == 0 || m.height == 0 then some (m, []) else laid)
        (λ b. Carries-refl m)
        (λ b.
          Steps-if m (m.width == 0 || m.height == 0) (some (m, [])) laid (λ c. Carries-refl m)
            (λ c. mouse_button-Steps p msg msg.button m))

  -- The command line.
  sort_by_column-Carries :
      (w : World) (a : Text) (o : Option SortMode) (rest : List Text) (m : Model)
      → Carries m (sort_by_column w a o rest m).0
  unfolding sort_by_column visible_torrents shown
  sort_by_column-Carries w a none rest m = Carries-refl m
  sort_by_column-Carries w a (some mode) rest m =
      Carries-reclamped m (record m { sort_by = mode; sort_desc = is_desc rest })
        (refl, refl, refl, refl, refl) (inr (refl, refl, refl, refl))

  exec_sort-Carries : (w : World) (rest : List Text) (m : Model) → Carries m (exec_sort w rest m).0
  unfolding exec_sort
  exec_sort-Carries w [] m = Carries-refl m
  exec_sort-Carries w (a ∷ rest) m = sort_by_column-Carries w a (parse_sort_mode a) rest m

  exec_limit-Carries :
      (up : Bool) (name : Text) (rest : List Text) (m : Model)
      → Carries m (exec_limit up name rest m).0
  unfolding exec_limit
  exec_limit-Carries up name [] m = Carries-refl m
  exec_limit-Carries up name (a ∷ []) m = Carries-refl m
  exec_limit-Carries up name (a ∷ b ∷ rest) m = Carries-refl m

  move_at-Carries :
      (o : Option TorrentSnapshot) (dir : Text) (m : Model) → Carries m (move_at o dir m).0
  unfolding move_at
  move_at-Carries none dir m = Carries-refl m
  move_at-Carries (some t) dir m = Carries-refl m

  exec_move-Carries : (w : World) (rest : List Text) (m : Model) → Carries m (exec_move w rest m).0
  unfolding exec_move
  exec_move-Carries w [] m = Carries-refl m
  exec_move-Carries w (a ∷ []) m = move_at-Carries (cursor_torrent m) (w.expand_path a) m
  exec_move-Carries w (a ∷ b ∷ rest) m = Carries-refl m

  exec_find-Carries : (rest : List Text) (m : Model) → Carries m (exec_find rest m).0
  unfolding exec_find
  exec_find-Carries [] m = open_find-Carries m
  exec_find-Carries (a ∷ rest) m = start_find-Carries (join (codes " ") (a ∷ rest)) m

  exec_theme-Carries :
      (w : World) (rest : List Text) (m : Model)
      → m.theme_picker ≡ false
      → Carries m (exec_theme w rest m).0
  unfolding exec_theme
  exec_theme-Carries w [] m p = open_theme_picker-Carries w m p
  exec_theme-Carries w (a ∷ rest) m p = set_theme_by_name-Carries w a m

  exec_add-Carries : (w : World) (rest : List Text) (m : Model) → Carries m (exec_add w rest m).0
  unfolding exec_add
  exec_add-Carries w [] m = Carries-refl m
  exec_add-Carries w (a ∷ rest) m = Carries-refl m

  exec_named-Carries :
      (w : World) (c : Command) (name : Text) (rest : List Text) (m : Model)
      → m.theme_picker ≡ false
      → Carries m (exec_named w c name rest m).0
  unfolding exec_named remove_targets purge_targets recheck_targets set_paused_targets label_targets
      visible_torrents shown
  exec_named-Carries w Command.add name rest m p = exec_add-Carries w rest m
  exec_named-Carries w Command.rm name rest m p = remove_all-Carries _ false m
  exec_named-Carries w Command.rm_data name rest m p = remove_all-Carries _ true m
  exec_named-Carries w Command.pause name rest m p = on_targets-Carries _ _ m
  exec_named-Carries w Command.resume name rest m p = on_targets-Carries _ _ m
  exec_named-Carries w Command.purge name rest m p = on_targets-Carries _ _ m
  exec_named-Carries w Command.recheck name rest m p = on_targets-Carries _ _ m
  exec_named-Carries w Command.limit_up name rest m p = exec_limit-Carries true name rest m
  exec_named-Carries w Command.limit_down name rest m p = exec_limit-Carries false name rest m
  exec_named-Carries w Command.move name rest m p = exec_move-Carries w rest m
  exec_named-Carries w Command.mouse name rest m p = toggle_mouse-Carries m
  exec_named-Carries w Command.label name rest m p = on_targets-Carries _ _ m
  exec_named-Carries w Command.find name rest m p = exec_find-Carries rest m
  exec_named-Carries w Command.theme name rest m p = exec_theme-Carries w rest m p
  exec_named-Carries w Command.sort name rest m p = exec_sort-Carries w rest m
  exec_named-Carries w Command.help name rest m p = Carries-refl m
  exec_named-Carries w Command.quit name rest m p = Carries-refl m
  exec_named-Carries w Command.unknown name rest m p = Carries-refl m

  exec_args-Carries :
      (w : World) (words : List Text) (m : Model)
      → m.theme_picker ≡ false
      → Carries m (exec_args w words m).0
  unfolding exec_args
  exec_args-Carries w [] m p = Carries-refl m
  exec_args-Carries w (name ∷ rest) m p = exec_named-Carries w (command_named name) name rest m p

  pub exec_command-Carries :
      (w : World) (line : Text) (m : Model)
      → m.theme_picker ≡ false
      → Carries m (exec_command w line m).0
  unfolding exec_command
  exec_command-Carries w line m p = exec_args-Carries w (split_args line) m p
