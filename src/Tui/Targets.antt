-- ===== src/Tui/Targets.antt =====
-- internal/tui: model.go's `syncDetail`, and what update.go and palette.go apply to the marked
-- torrents, or to the one under the cursor, and
-- update.go's `selectSidebar`.
use torrnado.Common.{
  ℕ, ◌%◌, Bool, false, ◌&&◌, Option, none, some, List, [], ◌∷◌, map, if◌then◌else◌, get_elem?,
  filter, length, ◌==◌,
}
use torrnado.Common.Text.{Text, text_eq, mem_text}
use torrnado.Engine.Library.{Float64}
use torrnado.Engine.State.{TorrentId, TorrentSnapshot}
use torrnado.Indexer.Result.{Strings}
use torrnado.Tui.Model.{Model, Cmd, Next}
use torrnado.Tui.Visible.{visible_torrents, cursor_torrent, clamp_cursor}
use torrnado.Tui.Sidebar.{SidebarEntry, sidebar_entries, apply_entry, filter_eq}

module _ ⦃fl : Float64⦄ where
  -- `syncDetail`, for the torrent under the cursor
  unfoldable pub detail_of : Option TorrentSnapshot → Model → Model × List Cmd
  detail_of none m = (
    record m {
      detail_loaded = false;
      detail = record { snapshot = none; files = [] };
      detail_id = [];
    },
    [],
  )
  detail_of (some t) m =
      if text_eq t.id m.detail_id
      then (record m { detail = record m.detail { snapshot = some t } }, Cmd.load_detail t.id ∷ [])
      else (
        record m { detail_id = t.id; detail_loaded = false; detail_cursor = 0; detail_scroll = 0 },
        Cmd.load_detail t.id ∷ [],
      )

  -- `targets`
  unfoldable pub is_marked : List TorrentId → TorrentSnapshot → Bool
  is_marked ids t = mem_text t.id ids

  unfoldable pub at_cursor : Option TorrentSnapshot → List TorrentSnapshot
  at_cursor none = []
  at_cursor (some t) = t ∷ []

  unfoldable pub marked_or :
      List TorrentId → List TorrentSnapshot → Option TorrentSnapshot → List TorrentSnapshot
  unfolding is_marked at_cursor
  marked_or [] ts c = at_cursor c
  marked_or (id ∷ ids) ts c = filter (is_marked (id ∷ ids)) ts

  unfoldable pub targets : Model → List TorrentSnapshot → List TorrentSnapshot
  unfolding marked_or
  targets m visible = marked_or m.selected m.torrents (get_elem? visible m.cursor)

  abbrev pub ids_of : List TorrentSnapshot → List TorrentId
  ids_of = map (λ t. t.id)

  -- The actions on targets: nothing is asked for where there are none.
  unfoldable pub remove_all : List TorrentSnapshot → Bool → Model → Model × List Cmd
  remove_all [] delete_data m = (m, [])
  remove_all (t ∷ ts) delete_data m =
      (record m { selected = [] }, Cmd.remove (ids_of (t ∷ ts)) delete_data ∷ [])

  unfoldable pub on_targets :
      (List TorrentSnapshot → Cmd) → List TorrentSnapshot → Model → Model × List Cmd
  on_targets f [] m = (m, [])
  on_targets f (t ∷ ts) m = (m, f (t ∷ ts) ∷ [])

  unfoldable pub remove_targets : List TorrentSnapshot → Bool → Model → Model × List Cmd
  remove_targets visible delete_data m = remove_all (targets m visible) delete_data m

  unfoldable pub purge_targets : List TorrentSnapshot → Model → Model × List Cmd
  purge_targets visible m = on_targets (λ ts. Cmd.purge (ids_of ts)) (targets m visible) m

  unfoldable pub recheck_targets : List TorrentSnapshot → Model → Model × List Cmd
  recheck_targets visible m = on_targets (λ ts. Cmd.recheck (ids_of ts)) (targets m visible) m

  -- The case `km.Pause`.
  unfoldable pub pause_targets : List TorrentSnapshot → Model → Model × List Cmd
  pause_targets visible m = on_targets Cmd.toggle_pause (targets m visible) m

  module _ ⦃str : Strings⦄ where
    unfoldable pub sync_detail : Model → Model × List Cmd
    unfolding detail_of
    sync_detail m = detail_of (cursor_torrent m) m

    unfoldable pub set_paused_targets : Bool → Model → Model × List Cmd
    set_paused_targets paused m =
        on_targets (λ ts. Cmd.set_paused (ids_of ts) paused) (targets m (visible_torrents m)) m

    unfoldable pub label_targets : Text → Model → Model × List Cmd
    label_targets label m =
        on_targets (λ ts. Cmd.set_label (ids_of ts) label) (targets m (visible_torrents m)) m

    unfoldable pub open_at : Option TorrentSnapshot → Model → Model × List Cmd
    open_at none m = (m, [])
    open_at (some t) m = (m, Cmd.open_folder t ∷ [])

    -- `openCursorFolder`
    unfoldable pub open_cursor_folder : Model → Model × List Cmd
    unfolding open_at
    open_cursor_folder m = open_at (cursor_torrent m) m

    -- `selectSidebar` on the row's entry: the marks are kept only where no filter changes.
    unfoldable pub select_entry : ℕ → SidebarEntry → Model → Model × List Cmd
    select_entry i e m =
        let m' = apply_entry e m in
        let same = filter_eq m'.filter m.filter && text_eq m'.label_filter m.label_filter in
        let m'' = record m' { selected = if same then m.selected else []; sidebar_cursor = i } in
        sync_detail (clamp_cursor (length (visible_torrents m'')) m'')

    unfoldable pub select_at : ℕ → Option SidebarEntry → Model → Next
    unfolding select_entry
    select_at i none m = none
    select_at i (some e) m = some (select_entry i e m)

    -- `selectSidebar`, which goes round at both ends. Its argument is a natural number here: the row
    -- above the first is the last.
    unfoldable pub select_sidebar : ℕ → Model → Next
    unfolding select_at
    select_sidebar i m =
        let n = length (sidebar_entries m) in
        if n == 0 then some (m, []) else select_at (i % n) (get_elem? (sidebar_entries m) (i % n)) m
