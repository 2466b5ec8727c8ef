-- ===== src/Tui/Update.antt =====
-- internal/tui/update.go's `Update`: what each message does to the model.
pub mod Carries
mod Handlers
mod Overlays
mod Files
mod Inputs
mod Marks
mod Prompts
mod Presses
mod Events
pub mod Safety
pub mod Shown
pub mod Reports
pub mod Stale
use torrnado.Common.{
  Bool, true, false, Option, none, some, List, [], ◌∷◌, ◌++◌, if◌then◌else◌, length,
}
use torrnado.Common.Text.{Text, codes, text_eq}
use torrnado.Engine.Library.{Float64}
use torrnado.Engine.State.{Answer, gives, fails}
use torrnado.Indexer.Result.{Strings}
use torrnado.Tui.Model.{
  World, Model, Msg, Cmd, Next, Detail, KeyMap, Theme, StatusFilter, SortMode, InputMode, FindState,
  PaneFocus, DetailTab, set_status, clear_status, err_status, ok_status,
}
use torrnado.Tui.Visible.{visible_torrents, clamp_cursor}
use torrnado.Tui.Sidebar.{drop_vanished_label_filter, reveal_just_added, join_clauses}
use torrnado.Tui.Targets.{sync_detail}
use torrnado.Tui.Find.{apply_find_results}
use torrnado.Tui.Details.{snapshot_id, load_files}
use torrnado.Tui.Themes.{check_theme_file, apply_theme}
use torrnado.Tui.Mouse.{handle_mouse}
use torrnado.Tui.Keys.{handle_key}

module _ ⦃fl : Float64⦄ where
  -- `detailLoadedMsg`: a reply for a torrent that the cursor has left is dropped.
  unfoldable pub take_detail : Answer Detail → Model → Model × List Cmd
  unfolding load_files snapshot_id
  take_detail (fails e) m = set_status (err_status e) m
  take_detail (gives d) m =
      if text_eq (snapshot_id d.snapshot) m.detail_id
      then (load_files d.files (record m { detail = d; detail_loaded = true }), [])
      else (m, [])

  -- The message that names what was cleared.
  unfoldable pub say_cleared : Model × List Text → Model × List Cmd
  unfolding join_clauses
  say_cleared (m, []) = (m, [])
  say_cleared (m, c ∷ cs) =
      set_status
        (ok_status
          (m.status.text ++ codes " - cleared " ++ join_clauses (c ∷ cs) ++ codes " to show them"))
        m

  module _ ⦃str : Strings⦄ where
    -- The state of the daemon arrives: filters that hide what was added go, and the cursor follows.
    unfoldable pub take_event : Model → Model × List Cmd
    unfolding say_cleared
    take_event m =
        let (m', said) = say_cleared (reveal_just_added (drop_vanished_label_filter m)) in
        let (m'', synced) = sync_detail (clamp_cursor (length (visible_torrents m')) m') in
        (m'', Cmd.listen ∷ synced ++ said)

    unfoldable pub update : World → Msg → Model → Next
    unfolding take_detail take_event
    update w (Msg.window_size width height) m =
        some (record m { width = width; height = height }, [])
    update w (Msg.engine_event ts vpn) m =
        some (take_event (record m { torrents = ts; vpn_required = vpn }))
    update w Msg.engine_closed m = some (
      record m { status = err_status (codes "lost connection to daemon"); daemon_down = true },
      [],
    )
    update w (Msg.torrents_added text ids) m =
        some (set_status (ok_status text) (record m { pending_reveal = ids }))
    update w (Msg.find_results seq results warnings err) m =
        some (apply_find_results seq results warnings err m, [])
    update w (Msg.status_msg msg) m = some (set_status msg m)
    update w (Msg.status_expired seq) m = some (clear_status seq m, [])
    update w Msg.theme_check m = some (check_theme_file w m)
    update w (Msg.detail_loaded answer) m = some (take_detail answer m)
    update w (Msg.key msg) m = handle_key w msg m
    update w (Msg.mouse msg) m = handle_mouse msg m

    -- The rest of a session, unless the message panicked.
    unfoldable pub go_on : (Model → Option Model) → Next → Option Model
    go_on rest none = none
    go_on rest (some (m, cmds)) = rest m

    -- The messages of a session, one after another.
    unfoldable pub update_all : List (World × Msg) → Model → Option Model
    unfolding go_on
    update_all [] m = some m
    update_all ((w, msg) ∷ msgs) m = go_on (update_all msgs) (update w msg m)

    -- `New`: the model before the first message, of the options that a caller gives.
    unfoldable pub new : World → KeyMap → Theme → Text → Bool → List Text → Model
    new w keys theme themes_dir has_finder find_sources =
        let m : Model = record {
          torrents = [];
          vpn_required = false;
          daemon_down = false;
          filter = StatusFilter.all;
          sort_by = SortMode.name;
          sort_desc = false;
          keymap = keys;
          cursor = 0;
          selected = [];
          mode = InputMode.normal;
          search_query = [];
          command_buf = [];
          completions = [];
          show_help = false;
          theme_picker = false;
          theme_names = [];
          theme_cursor = 0;
          theme = theme;
          theme_saved = theme;
          themes_dir = themes_dir;
          theme_stamp = none;
          has_finder = has_finder;
          find_state = FindState.closed;
          find_query = [];
          find_results = [];
          find_warnings = [];
          find_cursor = 0;
          find_err = none;
          find_seq = 0;
          find_sources = find_sources;
          pending_dd = false;
          pending_at = 0;
          focus = PaneFocus.list;
          sidebar_cursor = 0;
          label_filter = [];
          mouse_off = false;
          pending_reveal = [];
          detail = record { snapshot = none; files = [] };
          detail_tab = DetailTab.pieces;
          detail_cursor = 0;
          detail_scroll = 0;
          detail_loaded = false;
          detail_id = [];
          status = record { text = []; is_err = false };
          status_seq = 0;
          width = 0;
          height = 0;
          quitting = false;
        } in
        apply_theme w theme m
