-- ===== src/Tui/Bindings.antt =====
-- internal/tui/update.go: what a key means, by the pane that has the focus and the keys of the options.
use torrnado.Common.{Bool, ◌&&◌, ◌||◌, if◌then◌else◌}
use torrnado.Common.Text.{Text, codes, text_eq}
use torrnado.Tui.Model.{KeyMap}

-- `DefaultKeyMap`
abbrev pub default_key_map : KeyMap
default_key_map = record {
  up = codes "k";
  down = codes "j";
  top = codes "g";
  bottom = codes "G";
  select = codes " ";
  remove = codes "x";
  remove_data = codes "D";
  purge = codes "X";
  pause = codes "p";
  recheck = codes "r";
  detail = codes "enter";
  back = codes "esc";
  quit = codes "q";
  search_key = codes "/";
  command = codes ":";
  help = codes "h";
  help_alt = codes "?";
  preview = codes "v";
  open_key = codes "o";
  find = codes "f";
  focus_next = codes "tab";
  focus_prev = codes "shift+tab";
  tab_next = codes "]";
  tab_prev = codes "[";
  filter_next = codes "}";
  filter_prev = codes "{";
  toggle_mouse = codes "m";
  tab_pieces = codes "1";
  tab_peers = codes "2";
  tab_files = codes "3";
}

-- What a key means in the list, in the order of the `switch`.
pub data ListKey : Type 0 where
  chord quit up down top bottom remove remove_data purge pause recheck preview open_folder : ListKey
  find detail back search command help select ignored : ListKey

unfoldable pub list_key : KeyMap → Text → ListKey
list_key km k =
    if text_eq k (codes "d")
    then ListKey.chord
    else if text_eq k km.quit
    then ListKey.quit
    else if text_eq k km.up || text_eq k (codes "up")
    then ListKey.up
    else if text_eq k km.down || text_eq k (codes "down")
    then ListKey.down
    else if text_eq k km.top
    then ListKey.top
    else if text_eq k km.bottom
    then ListKey.bottom
    else if text_eq k km.remove
    then ListKey.remove
    else if text_eq k km.remove_data
    then ListKey.remove_data
    else if text_eq k km.purge
    then ListKey.purge
    else if text_eq k km.pause
    then ListKey.pause
    else if text_eq k km.recheck
    then ListKey.recheck
    else if text_eq k km.preview
    then ListKey.preview
    else if text_eq k km.open_key
    then ListKey.open_folder
    else if text_eq k km.find
    then ListKey.find
    else if text_eq k km.detail
    then ListKey.detail
    else if text_eq k km.back
    then ListKey.back
    else if text_eq k km.search_key
    then ListKey.search
    else if text_eq k km.command
    then ListKey.command
    else if text_eq k km.help || text_eq k km.help_alt
    then ListKey.help
    else if text_eq k km.select
    then ListKey.select
    else ListKey.ignored

-- What a key means from any pane; `other` goes to the pane that has the focus.
pub data PaneKey : Type 0 where
  focus_next focus_prev tab_next tab_prev filter_next filter_prev mouse : PaneKey
  tab_pieces tab_peers tab_files other : PaneKey

unfoldable pub pane_key : KeyMap → Text → PaneKey
pane_key km k =
    if text_eq k km.focus_next
    then PaneKey.focus_next
    else if text_eq k km.focus_prev
    then PaneKey.focus_prev
    else if text_eq k km.tab_next
    then PaneKey.tab_next
    else if text_eq k km.tab_prev
    then PaneKey.tab_prev
    else if text_eq k km.filter_next
    then PaneKey.filter_next
    else if text_eq k km.filter_prev
    then PaneKey.filter_prev
    else if text_eq k km.toggle_mouse
    then PaneKey.mouse
    else if text_eq k km.tab_pieces
    then PaneKey.tab_pieces
    else if text_eq k km.tab_peers
    then PaneKey.tab_peers
    else if text_eq k km.tab_files
    then PaneKey.tab_files
    else PaneKey.other

-- What a key means in the sidebar and in the detail pane, before the list's meaning.
pub data SidebarKey : Type 0 where
  up down top bottom other : SidebarKey

unfoldable pub sidebar_key : KeyMap → Text → SidebarKey
sidebar_key km k =
    if text_eq k km.up || text_eq k (codes "up")
    then SidebarKey.up
    else if text_eq k km.down || text_eq k (codes "down")
    then SidebarKey.down
    else if text_eq k km.top
    then SidebarKey.top
    else if text_eq k km.bottom
    then SidebarKey.bottom
    else SidebarKey.other

pub data DetailKey : Type 0 where
  up down toggle raise lower other : DetailKey

unfoldable pub detail_key : KeyMap → Bool → Text → DetailKey
detail_key km on_files k =
    if text_eq k km.up || text_eq k (codes "up")
    then DetailKey.up
    else if text_eq k km.down || text_eq k (codes "down")
    then DetailKey.down
    else if text_eq k km.select && on_files
    then DetailKey.toggle
    else if text_eq k (codes "+") || text_eq k (codes "=")
    then DetailKey.raise
    else if text_eq k (codes "-") || text_eq k (codes "_")
    then DetailKey.lower
    else DetailKey.other
