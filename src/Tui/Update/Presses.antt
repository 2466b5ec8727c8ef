-- ===== src/Tui/Update/Presses.antt =====
-- The keys of internal/tui's update.go: each carries the invariants on, and none panics where they
-- hold.
use torrnado.Common.{
  ◌-◌, ◌≡◌, refl, sym, ap, inl, inr, true, false, not, ◌&&◌, Option, none, some, List, [], ◌∷◌,
  arith, Bool-cases, leb, ◌==◌, if◌then◌else◌, length, get_elem?,
}
use torrnado.Common.Text.{Text, codes, text_eq}
use torrnado.Engine.Library.{Float64}
use torrnado.Engine.State.{TorrentId, TorrentSnapshot}
use torrnado.Indexer.Result.{Strings}
use torrnado.Tui.Model.{
  World, Model, KeyMsg, Cmd, Next, DetailTab, PaneFocus, InputMode, StatusFilter, next_tab,
  prev_tab,
}
use torrnado.Tui.Visible.{visible_torrents, shown, clamp_cursor, cursor_torrent}
use torrnado.Tui.Sidebar.{sidebar_entries, current_sidebar_index, filter_eq}
use torrnado.Tui.Targets.{
  remove_targets, purge_targets, recheck_targets, pause_targets, open_at, open_cursor_folder,
  targets,
}
use torrnado.Tui.Find.{handle_find_key}
use torrnado.Tui.Details.{is_files, step_up, step_down}
use torrnado.Tui.Themes.{handle_theme_key}
use torrnado.Tui.Mouse.{Turn, is_open}
use torrnado.Tui.Bindings.{
  ListKey, list_key, PaneKey, pane_key, SidebarKey, sidebar_key, DetailKey, detail_key,
}
use torrnado.Tui.Keys.{
  is_list, some_marked, cursor_down, press_d, peel, select_row, bottom_of, list_step,
  handle_list_key, sidebar_step, detail_step, focused_key, pane_step, mode_key, handle_key,
  chord_window,
}
use torrnado.Tui.Update.Carries.{
  rows, Carries, Steps, Carries-refl, Carries-if, Carries-if_model, Steps-if, Carries-reclamped,
  sync_detail-Carries, unmarked,
}
use torrnado.Tui.Update.Handlers.{
  Steps-trans, select_sidebar-Steps, on_targets-Carries, remove_all-Carries,
}
use torrnado.Tui.Update.Overlays.{
  open_find-Carries, handle_find_key-Carries, handle_theme_key-Steps,
}
use torrnado.Tui.Update.Files.{
  set_detail_tab-Carries, toggle_file_wanted-Carries, adjust_file_priority-Carries,
  detail_up-Carries, detail_down-Carries, preview_file-Carries,
}
use torrnado.Tui.Update.Marks.{cursor_down-Carries, mark-Steps}
use torrnado.Tui.Update.Inputs.{toggle_mouse-Carries, step_sidebar-Steps, cursor-Carries}
use torrnado.Tui.Update.Prompts.{
  handle_search_key-Carries, handle_find_prompt_key-Carries, handle_command_key-Carries,
}

module _ ⦃fl : Float64⦄ ⦃str : Strings⦄ where
  bottom_of-Carries : (m : Model) → Carries m (bottom_of (rows m) m)
  unfolding bottom_of visible_torrents shown
  bottom_of-Carries m =
      Carries-if_model m (rows m == 0) m (record m { cursor = rows m - 1 }) (λ b. Carries-refl m)
        (λ b. (λ h. (inr (ground arith), h.1), λ k h. h, omega arith, refl))

  press_d-Carries : (w : World) (m : Model) → Carries m (press_d w m).0
  unfolding press_d remove_targets visible_torrents shown
  press_d-Carries w m =
      let m' = record m { pending_dd = false } in
      Carries-if m (m.pending_dd && leb (w.now - m.pending_at) chord_window)
        (remove_targets (visible_torrents m') false m')
        (record m { pending_dd = true; pending_at = w.now }, [])
        (λ b. remove_all-Carries (targets m' (visible_torrents m')) false m') (λ b. Carries-refl m)

  no_marks : (ids : List TorrentId) → some_marked ids ≡ false → ids ≡ []
  unfolding some_marked
  no_marks [] h = refl
  no_marks (id ∷ ids) h = cc

  -- With nothing marked the next layer is a search, a label or a filter.
  peel_view : Model → Model
  peel_view m =
      if not (text_eq m.search_query [])
      then clamp_cursor (rows (record m { search_query = [] })) (record m { search_query = [] })
      else if not (text_eq m.label_filter [])
      then (let m' = record m { label_filter = [] } in
          let m'' = record m' { sidebar_cursor = current_sidebar_index m' } in
          clamp_cursor (rows m'') m'')
      else if not (filter_eq m.filter StatusFilter.all)
      then (let m' = record m { filter = StatusFilter.all } in
          let m'' = record m' { sidebar_cursor = current_sidebar_index m' } in
          clamp_cursor (rows m'') m'')
      else m

  peel_view-Carries : (m : Model) → m.selected ≡ [] → Carries m (peel_view m)
  unfolding peel_view
  peel_view-Carries m e = elim (Bool-cases (text_eq m.search_query [])) [
    | inr b ↦ rw b (
        Carries-reclamped m (record m { search_query = [] }) (refl, refl, refl, refl, refl) (inl e))
    | inl b ↦ elim (Bool-cases (text_eq m.label_filter [])) [
      | inr c ↦
          let m' = record m { label_filter = [] } in
          rw (b, c)
            (Carries-reclamped m (record m' { sidebar_cursor = current_sidebar_index m' })
              (refl, refl, refl, refl, refl) (inl e))
      | inl c ↦ elim (Bool-cases (filter_eq m.filter StatusFilter.all)) [
        | inr d ↦
            let m' = record m { filter = StatusFilter.all } in
            rw (b, c, d)
              (Carries-reclamped m (record m' { sidebar_cursor = current_sidebar_index m' })
                (refl, refl, refl, refl, refl) (inl e))
        | inl d ↦ rw (b, c, d) (Carries-refl m)
      ]
    ]
  ]

  peel-Carries : (m : Model) → Carries m (peel m)
  unfolding peel peel_view visible_torrents shown
  peel-Carries m = elim (Bool-cases (is_list m.focus)) [
    | inr b ↦ rw b (Carries-refl m)
    | inl b ↦ elim (Bool-cases (some_marked m.selected)) [
      | inl c ↦
          rw (b, c)
            (
              λ h. h,
              λ k h. unmarked (record m { selected = [] }) m.torrents refl,
              omega arith,
              refl,
            )
      | inr c ↦ rw (b, c) (peel_view-Carries m (no_marks m.selected c))
    ]
  ]

  select_row-Steps :
      (m : Model) (vs : List TorrentSnapshot) → vs ≡ visible_torrents m → Steps m (select_row vs m)
  unfolding select_row
  select_row-Steps m [] e = sync_detail-Carries m m (Carries-refl m)
  select_row-Steps m (t ∷ ts) e =
      mark-Steps m (length (t ∷ ts)) (get_elem? (t ∷ ts) m.cursor) (ap length e) (omega arith)
        (ap (λ vs. get_elem? vs m.cursor) (sym e))

  open_at-Carries : (o : Option TorrentSnapshot) (m : Model) → Carries m (open_at o m).0
  unfolding open_at
  open_at-Carries none m = Carries-refl m
  open_at-Carries (some t) m = Carries-refl m

  list_step-Steps : (w : World) (k : ListKey) (m : Model) → Steps m (list_step w k m)
  unfolding list_step remove_targets purge_targets pause_targets recheck_targets open_cursor_folder
      visible_torrents shown
  list_step-Steps w ListKey.chord m = press_d-Carries w m
  list_step-Steps w ListKey.quit m = Carries-refl m
  list_step-Steps w ListKey.up m =
      sync_detail-Carries m (record m { cursor = m.cursor - 1 })
        (cursor-Carries (m.cursor - 1) m
          (λ h. elim h.0 [ inl z ↦ inl (omega arith) | inr lt ↦ inr (omega arith) ]))
  list_step-Steps w ListKey.down m =
      sync_detail-Carries m (cursor_down (rows m) m) (cursor_down-Carries m)
  list_step-Steps w ListKey.top m =
      sync_detail-Carries m (record m { cursor = 0 }) (cursor-Carries 0 m (λ h. inl refl))
  list_step-Steps w ListKey.bottom m =
      sync_detail-Carries m (bottom_of (rows m) m) (bottom_of-Carries m)
  list_step-Steps w ListKey.remove m = remove_all-Carries _ false m
  list_step-Steps w ListKey.remove_data m = remove_all-Carries _ true m
  list_step-Steps w ListKey.purge m = on_targets-Carries _ _ m
  list_step-Steps w ListKey.pause m = on_targets-Carries _ _ m
  list_step-Steps w ListKey.recheck m = on_targets-Carries _ _ m
  list_step-Steps w ListKey.preview m = preview_file-Carries m
  list_step-Steps w ListKey.open_folder m = open_at-Carries (cursor_torrent m) m
  list_step-Steps w ListKey.find m = open_find-Carries m
  list_step-Steps w ListKey.detail m = Carries-refl m
  list_step-Steps w ListKey.back m = peel-Carries m
  list_step-Steps w ListKey.search m = Carries-refl m
  list_step-Steps w ListKey.command m = Carries-refl m
  list_step-Steps w ListKey.help m = Carries-refl m
  list_step-Steps w ListKey.select m = select_row-Steps m (visible_torrents m) refl
  list_step-Steps w ListKey.ignored m = Carries-refl m

  handle_list_key-Steps : (w : World) (k : Text) (m : Model) → Steps m (handle_list_key w k m)
  unfolding handle_list_key visible_torrents shown
  handle_list_key-Steps w k m =
      let m' = if text_eq k (codes "d") then m else record m { pending_dd = false } in
      Steps-trans m m' (list_step w (list_key m.keymap k) m')
        (Carries-if_model m (text_eq k (codes "d")) m (record m { pending_dd = false })
          (λ b. Carries-refl m) (λ b. Carries-refl m))
        (list_step-Steps w (list_key m.keymap k) m')

  sidebar_step-Steps :
      (w : World) (k : Text) (s : SidebarKey) (m : Model) → Steps m (sidebar_step w k s m)
  unfolding sidebar_step
  sidebar_step-Steps w k SidebarKey.up m = step_sidebar-Steps Turn.up m
  sidebar_step-Steps w k SidebarKey.down m = step_sidebar-Steps Turn.down m
  sidebar_step-Steps w k SidebarKey.top m = select_sidebar-Steps 0 m
  sidebar_step-Steps w k SidebarKey.bottom m =
      select_sidebar-Steps (length (sidebar_entries m) - 1) m
  sidebar_step-Steps w k SidebarKey.other m = handle_list_key-Steps w k m

  detail_step-Steps :
      (w : World) (k : Text) (d : DetailKey) (m : Model) → Steps m (detail_step w k d m)
  unfolding detail_step
  detail_step-Steps w k DetailKey.up m = detail_up-Carries m
  detail_step-Steps w k DetailKey.down m = detail_down-Carries m
  detail_step-Steps w k DetailKey.toggle m = toggle_file_wanted-Carries m
  detail_step-Steps w k DetailKey.raise m = adjust_file_priority-Carries step_up m
  detail_step-Steps w k DetailKey.lower m = adjust_file_priority-Carries step_down m
  detail_step-Steps w k DetailKey.other m = handle_list_key-Steps w k m

  focused_key-Steps :
      (w : World) (k : Text) (f : PaneFocus) (m : Model) → Steps m (focused_key w k f m)
  unfolding focused_key
  focused_key-Steps w k PaneFocus.sidebar m = sidebar_step-Steps w k (sidebar_key m.keymap k) m
  focused_key-Steps w k PaneFocus.detail m =
      detail_step-Steps w k (detail_key m.keymap (is_files m.detail_tab) k) m
  focused_key-Steps w k PaneFocus.list m = handle_list_key-Steps w k m

  pane_step-Steps : (w : World) (k : Text) (p : PaneKey) (m : Model) → Steps m (pane_step w k p m)
  unfolding pane_step visible_torrents shown
  pane_step-Steps w k PaneKey.focus_next m = Carries-refl m
  pane_step-Steps w k PaneKey.focus_prev m = Carries-refl m
  pane_step-Steps w k PaneKey.tab_next m = set_detail_tab-Carries (next_tab m.detail_tab) m
  pane_step-Steps w k PaneKey.tab_prev m = set_detail_tab-Carries (prev_tab m.detail_tab) m
  pane_step-Steps w k PaneKey.filter_next m = step_sidebar-Steps Turn.down m
  pane_step-Steps w k PaneKey.filter_prev m = step_sidebar-Steps Turn.up m
  pane_step-Steps w k PaneKey.mouse m = toggle_mouse-Carries m
  pane_step-Steps w k PaneKey.tab_pieces m = set_detail_tab-Carries DetailTab.pieces m
  pane_step-Steps w k PaneKey.tab_peers m = set_detail_tab-Carries DetailTab.peers m
  pane_step-Steps w k PaneKey.tab_files m = set_detail_tab-Carries DetailTab.files m
  pane_step-Steps w k PaneKey.other m = focused_key-Steps w k m.focus m

  mode_key-Steps :
      (w : World) (msg : KeyMsg) (i : InputMode) (m : Model)
      → m.theme_picker ≡ false
      → Steps m (mode_key w msg i m)
  unfolding mode_key
  mode_key-Steps w msg InputMode.search m p = handle_search_key-Carries msg m
  mode_key-Steps w msg InputMode.command m p = handle_command_key-Carries w msg msg.type m p
  mode_key-Steps w msg InputMode.find m p = handle_find_prompt_key-Carries msg msg.type m
  mode_key-Steps w msg InputMode.normal m p =
      pane_step-Steps w msg.string (pane_key m.keymap msg.string) m

  pub handle_key-Steps : (w : World) (msg : KeyMsg) (m : Model) → Steps m (handle_key w msg m)
  unfolding handle_key visible_torrents shown
  handle_key-Steps w msg m =
      let typed = mode_key w msg m.mode m in
      let found = if is_open m.find_state then some (handle_find_key w msg.string m) else typed in
      let themed = if m.theme_picker then handle_theme_key w msg.string m else found in
      let helped : Next =
        if m.show_help then some (record m { show_help = false }, []) else themed in
      Steps-if m (text_eq msg.string (codes "ctrl+c"))
        (some (record m { quitting = true }, Cmd.quit ∷ [])) helped (λ b. Carries-refl m)
        (λ b.
          Steps-if m m.show_help (some (record m { show_help = false }, [])) themed
            (λ c. Carries-refl m)
            (λ c.
              Steps-if m m.theme_picker (handle_theme_key w msg.string m) found
                (λ p. handle_theme_key-Steps w msg.string m p)
                (λ p.
                  Steps-if m (is_open m.find_state) (some (handle_find_key w msg.string m)) typed
                    (λ d. handle_find_key-Carries w msg.string m)
                    (λ d. mode_key-Steps w msg m.mode m p))))
