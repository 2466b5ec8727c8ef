-- ===== src/Tui/Model.antt =====
-- internal/tui/model.go, keymap.go and msg.go: the model of the terminal client, the messages that
-- it is sent, and what it asks for in return. A bubbletea command is a value here: what runs it
-- answers with a message. Not kept are the styles, the client, and the names of the programs that it
-- starts.
use torrnado.Common.{
  ℕ, suc, Bool, true, false, List, [], ◌∷◌, Option, none, some, if◌then◌else◌, ◌==◌,
}
use torrnado.Common.Text.{Text, codes, text_eq}
use torrnado.Common.Int64.{Int64}
use torrnado.Engine.Library.{Float64}
use torrnado.Engine.Types.{Priority}
use torrnado.Engine.State.{TorrentId, TorrentSnapshot, Time, Answer}
use torrnado.Indexer.Result.{Result}

-- `paneFocus`
pub data PaneFocus : Type 0 where
  list detail sidebar : PaneFocus

-- `paneFocus.next`
unfoldable pub next_focus : PaneFocus → PaneFocus
next_focus PaneFocus.list = PaneFocus.detail
next_focus PaneFocus.detail = PaneFocus.sidebar
next_focus PaneFocus.sidebar = PaneFocus.list

-- `paneFocus.prev`
unfoldable pub prev_focus : PaneFocus → PaneFocus
prev_focus PaneFocus.list = PaneFocus.sidebar
prev_focus PaneFocus.detail = PaneFocus.list
prev_focus PaneFocus.sidebar = PaneFocus.detail

-- `detailTab`
pub data DetailTab : Type 0 where
  pieces peers files : DetailTab

-- `detailTab.next`
unfoldable pub next_tab : DetailTab → DetailTab
next_tab DetailTab.pieces = DetailTab.peers
next_tab DetailTab.peers = DetailTab.files
next_tab DetailTab.files = DetailTab.pieces

-- `detailTab.prev`
unfoldable pub prev_tab : DetailTab → DetailTab
prev_tab DetailTab.pieces = DetailTab.files
prev_tab DetailTab.peers = DetailTab.pieces
prev_tab DetailTab.files = DetailTab.peers

-- `sortMode`
pub data SortMode : Type 0 where
  name size progress ratio eta added down up : SortMode

-- `ParseSortMode`
unfoldable pub parse_sort_mode : Text → Option SortMode
unfolding text_eq
parse_sort_mode s =
    if text_eq s (codes "name")
    then some SortMode.name
    else if text_eq s (codes "size")
    then some SortMode.size
    else if text_eq s (codes "progress")
    then some SortMode.progress
    else if text_eq s (codes "ratio")
    then some SortMode.ratio
    else if text_eq s (codes "eta")
    then some SortMode.eta
    else if text_eq s (codes "added")
    then some SortMode.added
    else if text_eq s (codes "down")
    then some SortMode.down
    else if text_eq s (codes "up")
    then some SortMode.up
    else none

-- `inputMode`
pub data InputMode : Type 0 where
  normal search command find : InputMode

-- `statusFilter`
pub data StatusFilter : Type 0 where
  all downloading seeding completed stopped : StatusFilter

-- `findState`
pub data FindState : Type 0 where
  closed loading loaded : FindState

-- `KeyMap`
pub record KeyMap : Type 0 where
  pub up : Text
  pub down : Text
  pub top : Text
  pub bottom : Text
  pub select : Text
  pub remove : Text
  pub remove_data : Text
  pub purge : Text
  pub pause : Text
  pub recheck : Text
  pub detail : Text
  pub back : Text
  pub quit : Text
  pub search_key : Text
  pub command : Text
  pub help : Text
  pub help_alt : Text
  pub preview : Text
  pub open_key : Text
  pub find : Text
  pub focus_next : Text
  pub focus_prev : Text
  pub tab_next : Text
  pub tab_prev : Text
  pub filter_next : Text
  pub filter_prev : Text
  pub toggle_mouse : Text
  pub tab_pieces : Text
  pub tab_peers : Text
  pub tab_files : Text

-- `theme.Theme`
pub record Theme : Type 0 where
  pub name : Text
  pub background : Text
  pub foreground : Text
  pub muted : Text
  pub accent : Text
  pub success : Text
  pub warning : Text
  pub error : Text
  pub border : Text
  pub selected_bg : Text
  pub selected_fg : Text

-- `fileStamp`; `none` in the model is its zero value
pub record FileStamp : Type 0 where
  pub mod_time : Time
  pub size : Int64

-- `engine.FileInfo`
pub record FileInfo : Type 0 where
  pub index : ℕ
  pub path : Text
  pub length : Int64
  pub completed : Int64
  pub priority : Priority

-- `statusMsg`
pub record StatusMsg : Type 0 where
  pub text : Text
  pub is_err : Bool

-- `tea.KeyMsg`: the name of the key, its type, and the text that was typed.
pub data KeyType : Type 0 where
  enter esc backspace tab space runes other : KeyType

pub record KeyMsg : Type 0 where
  pub string : Text
  pub type : KeyType
  pub runes : Text

-- `tea.MouseMsg`
pub data Button : Type 0 where
  wheel_up wheel_down left other : Button

pub record MouseMsg : Type 0 where
  pub x : ℕ
  pub y : ℕ
  pub button : Button
  pub pressed : Bool

-- What is asked of the machine and of libraries while a message is handled: the clock, the disk for
-- the completion and expansion of paths, the user's themes, `truncate` of format.go, which measures
-- the text on the terminal, and `strconv.Quote`.
pub record World : Type 0 where
  pub now : Time
  pub truncate : Text → ℕ → Text
  pub quote : Text → Text
  pub complete_path : Text → Text × List Text
  pub expand_path : Text → Text
  pub themes : List Text
  pub load_theme : Text → Answer Theme
  pub stamp : Text → Option FileStamp

module _ ⦃fl : Float64⦄ where
  -- `engine.TorrentDetail`, as far as the client's state depends on it
  pub record Detail : Type 0 where
    pub snapshot : Option TorrentSnapshot
    pub files : List FileInfo

  -- `Model`
  pub record Model : Type 0 where
    pub torrents : List TorrentSnapshot
    pub vpn_required : Bool
    pub daemon_down : Bool
    pub filter : StatusFilter
    pub sort_by : SortMode
    pub sort_desc : Bool
    pub keymap : KeyMap
    pub cursor : ℕ
    pub selected : List TorrentId
    pub mode : InputMode
    pub search_query : Text
    pub command_buf : Text
    pub completions : List Text
    pub show_help : Bool
    pub theme_picker : Bool
    pub theme_names : List Text
    pub theme_cursor : ℕ
    pub theme : Theme
    pub theme_saved : Theme
    pub themes_dir : Text
    pub theme_stamp : Option FileStamp
    pub has_finder : Bool
    pub find_state : FindState
    pub find_query : Text
    pub find_results : List Result
    pub find_warnings : List Text
    pub find_cursor : ℕ
    pub find_err : Option Text
    pub find_seq : ℕ
    pub find_sources : List Text
    pub pending_dd : Bool
    pub pending_at : Time
    pub focus : PaneFocus
    pub sidebar_cursor : ℕ
    pub label_filter : Text
    pub mouse_off : Bool
    pub pending_reveal : List TorrentId
    pub detail : Detail
    pub detail_tab : DetailTab
    pub detail_cursor : ℕ
    pub detail_scroll : ℕ
    pub detail_loaded : Bool
    pub detail_id : TorrentId
    pub status : StatusMsg
    pub status_seq : ℕ
    pub width : ℕ
    pub height : ℕ
    pub quitting : Bool

  -- What a handler asks for: the functions of commands.go and their like, before they run. A
  -- `tea.Batch` is the list of its commands.
  pub data Cmd : Type 0 where
    quit : Cmd
    listen : Cmd
    watch_theme : Cmd
    capture_mouse : Bool → Cmd
    expire_status : ℕ → Bool → Cmd
    say : StatusMsg → Cmd
    load_detail : TorrentId → Cmd
    remove : List TorrentId → Bool → Cmd
    purge : List TorrentId → Cmd
    toggle_pause : List TorrentSnapshot → Cmd
    set_paused : List TorrentId → Bool → Cmd
    recheck : List TorrentId → Cmd
    set_label : List TorrentId → Text → Cmd
    move : TorrentId → Text → Cmd
    open_folder : TorrentSnapshot → Cmd
    preview : TorrentId → FileInfo → Cmd
    set_priority : TorrentId → ℕ → Priority → Cmd
    find : Text → ℕ → Cmd
    add_batch : List Text → Cmd
    limit : Bool → Text → Cmd

  -- What a handler returns; `none` is a panic.
  abbrev pub Next : Type 0
  Next = Option (Model × List Cmd)

  -- The messages.
  pub data Msg : Type 0 where
    window_size : ℕ → ℕ → Msg
    engine_event : List TorrentSnapshot → Bool → Msg
    engine_closed : Msg
    torrents_added : Text → List TorrentId → Msg
    find_results : ℕ → List Result → List Text → Option Text → Msg
    status_msg : StatusMsg → Msg
    status_expired : ℕ → Msg
    theme_check : Msg
    detail_loaded : Answer Detail → Msg
    key : KeyMsg → Msg
    mouse : MouseMsg → Msg

  -- `setStatus`, with the command that will clear the message
  unfoldable pub set_status : StatusMsg → Model → Model × List Cmd
  set_status msg m = (
    record m { status = msg; status_seq = suc m.status_seq },
    expire_status (suc m.status_seq) msg.is_err ∷ [],
  )

  -- `clearStatus`
  unfoldable pub clear_status : ℕ → Model → Model
  clear_status seq m =
      if seq == m.status_seq then record m { status = record { text = []; is_err = false } } else m

-- `errStatus`, `okStatus`
abbrev pub err_status : Text → StatusMsg
err_status t = record { text = t; is_err = true }

abbrev pub ok_status : Text → StatusMsg
ok_status t = record { text = t; is_err = false }
