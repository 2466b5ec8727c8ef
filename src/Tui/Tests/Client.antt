-- ===== src/Tui/Tests/Client.antt =====
-- The theorems about the client's state machine at concrete inputs.
use torrnado.Common.{◌≡◌, refl, inl, true, false, none, some, List, [], ◌∷◌, arith, All, get_elem?}
use torrnado.Common.Text.{Text, codes, text_eq, mem_text}
use torrnado.Common.Sort.{sort_stable}
use torrnado.Engine.Types.{State}
use torrnado.Engine.State.{TorrentSnapshot, gives}
use torrnado.Engine.Sample.{whole_numbers}
use torrnado.Indexer.Result.{Strings}
use torrnado.Tui.Model.{
  World, Model, Msg, Cmd, Theme, KeyMsg, KeyType, Button, StatusFilter, FindState, PaneFocus,
  ok_status, set_status,
}
use torrnado.Tui.Visible.{
  visible_torrents, shown, matches, is_downloading, has_label, has_name, before, less, text_lt,
  contains_text,
}
use torrnado.Tui.Sidebar.{revealed}
use torrnado.Tui.Targets.{targets, is_marked, sync_detail}
use torrnado.Tui.Find.{close_find}
use torrnado.Tui.Themes.{apply_theme}
use torrnado.Tui.Bindings.{default_key_map}
use torrnado.Tui.Layout.{layout, detail_rows, sidebar_columns, scroll_window}
use torrnado.Tui.Mouse.{handle_mouse}
use torrnado.Tui.Mouse.Clicks.{click_hits_row}
use torrnado.Tui.Update.{update, update_all, go_on, take_event, new}
use torrnado.Tui.Update.Carries.{HasKeys, IsSafe}
use torrnado.Tui.Update.Safety.{session_returns, abandoned_search, update_all_returns}
use torrnado.Tui.Update.Shown.{keys_act_on_shown}
use torrnado.Tui.Update.Reports.{added_is_shown}
use torrnado.Tui.Update.Stale.{report_hides_marked}

instance abbrev plain_strings : Strings
plain_strings = record { lower = λ s. s; trim = λ s. s }

abbrev dark : Theme
dark = record {
  name = codes "dark";
  background = codes "#000000";
  foreground = codes "#ffffff";
  muted = codes "#888888";
  accent = codes "#00ffff";
  success = codes "#00ff00";
  warning = codes "#ffff00";
  error = codes "#ff0000";
  border = codes "#444444";
  selected_bg = codes "#222222";
  selected_fg = codes "#eeeeee";
}

abbrev here : World
here = record {
  now = 1000000000;
  truncate = λ s n. s;
  quote = λ s. s;
  complete_path = λ s. (s, []);
  expand_path = λ s. s;
  themes = codes "dark" ∷ [];
  load_theme = λ name. gives dark;
  stamp = λ name. none;
}

abbrev torrent : Text → State → TorrentSnapshot
torrent id state = record {
  id = id;
  name = id;
  total_length = 700;
  completed = 70;
  progress = 0;
  download_bps = 0;
  upload_bps = 0;
  downloaded = 70;
  uploaded = 0;
  ratio = 0;
  num_peers = 1;
  num_seeds = 1;
  eta = 60;
  state = state;
  paused = false;
  checking = false;
  check_progress = 0;
  save_path = codes "/data";
  added_at = 5;
  error = [];
  download_limit = 0;
  upload_limit = 0;
  label = [];
}

abbrev two : List TorrentSnapshot
two = torrent (codes "a") State.downloading ∷ torrent (codes "b") State.seeding ∷ []

abbrev start : Model
start = new here default_key_map dark (codes "/themes") true (codes "jackett" ∷ [])

abbrev named : Text → KeyMsg
named k = record { string = k; type = KeyType.runes; runes = k }

-- The client's window opens, the daemon reports two torrents, and the second is marked.
abbrev session : List (World × Msg)
session =
    (here, Msg.window_size 80 24)
    ∷ (here, Msg.engine_event two false)
    ∷ (here, Msg.key (named (codes "j")))
    ∷ (here, Msg.key (named (codes " ")))
    ∷ []

session_returns_example : (m : Model) × (update_all session start ≡ some m) × IsSafe m
session_returns_example =
    session_returns here default_key_map dark (codes "/themes") true (codes "jackett" ∷ []) session

-- A search was sent, the overlay is closed, and then something else is reported.
abbrev searching : Model
searching = record start { find_state = FindState.loading; find_seq = 1 }

abbrev moved_on : Model
moved_on = (set_status (ok_status (codes "added 1 torrent(s)")) (close_find searching)).0

went_on :
    update_all
      ((here, Msg.status_msg (ok_status (codes "added 1 torrent(s)"))) ∷ [])
      (close_find searching)
    ≡ some moved_on
unfolding update_all go_on update
went_on = refl

abandoned_search_example :
    update here (Msg.find_results 1 [] [] none) moved_on ≡ some (moved_on, [])
abandoned_search_example =
    abandoned_search searching
      ((here, Msg.status_msg (ok_status (codes "added 1 torrent(s)"))) ∷ []) went_on here 1 [] []
      none (omega arith)

-- A list of two torrents: the first is marked, the filter is changed, and what is left is marked.
abbrev listing : Model
listing = record start { torrents = two; width = 80; height = 24 }

abbrev keys : List (World × Msg)
keys =
    (here, Msg.key (named (codes " ")))
    ∷ (here, Msg.key (named (codes "}")))
    ∷ (here, Msg.key (named (codes " ")))
    ∷ []

listing-IsSafe : IsSafe listing
unfolding new apply_theme
listing-IsSafe = (inl refl, λ p. cc)

abbrev pressed : (m : Model) × (update_all keys listing ≡ some m) × IsSafe m
pressed = update_all_returns keys listing listing-IsSafe

two_listed : All (λ t. is_marked listing.selected t ≡ true → shown listing t ≡ true) two
unfolding new apply_theme shown matches has_label text_eq has_name
two_listed = ((λ h. refl), ((λ h. refl), tt))

two_keys : HasKeys two
unfolding text_eq
two_keys = (((λ e. refl), ((λ e. cc), tt)), (((λ e. cc), ((λ e. refl), tt)), tt))

keys_act_on_shown_example :
    All (λ t. shown pressed.0 t ≡ true) (targets pressed.0 (visible_torrents pressed.0))
keys_act_on_shown_example =
    keys_act_on_shown listing keys two_keys two_listed (tt, (tt, (tt, tt))) pressed.1

-- A torrent is added while the list shows what is downloading.
abbrev narrowed : Model
narrowed = record listing { filter = StatusFilter.downloading; pending_reveal = codes "b" ∷ [] }

added_is_shown_example :
    All (λ t. shown (take_event narrowed).0 t ≡ true) (revealed (codes "b" ∷ []) two)
added_is_shown_example = added_is_shown refl narrowed

-- The marked torrent starts seeding while the list shows what is downloading.
abbrev marked_one : Model
marked_one = record start { filter = StatusFilter.downloading; selected = codes "b" ∷ [] }

report_hides_marked_example :
    (m : Model) × (cmds : List Cmd) × (update here
        (Msg.engine_event (torrent (codes "b") State.seeding ∷ []) false)
        marked_one
      ≡ some (m, cmds))
    × (shown m (torrent (codes "b") State.seeding) ≡ false)
    × (get_elem? (targets m (visible_torrents m)) 0 ≡ some (torrent (codes "b") State.seeding))
unfolding new apply_theme mem_text matches is_downloading
report_hides_marked_example =
    report_hides_marked here marked_one (torrent (codes "b") State.seeding) [] false refl refl refl
      refl

abbrev words : List Text
words = codes "move" ∷ codes "/media/big disk" ∷ []

click_hits_row_example :
    handle_mouse (record { x = 40; y = 3; button = Button.left; pressed = true }) listing
    ≡ some (sync_detail (record listing { focus = PaneFocus.list; cursor = 1 }))
unfolding new apply_theme layout detail_rows sidebar_columns scroll_window visible_torrents shown
    has_label has_name before less text_lt contains_text text_eq matches sort_stable
click_hits_row_example =
    click_hits_row listing 40 1 refl refl refl refl (omega arith) (omega arith) (omega arith)
      (omega arith) (omega arith) (omega arith)
