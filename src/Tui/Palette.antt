-- ===== src/Tui/Palette.antt =====
-- internal/tui/palette.go: the command line.
pub mod Words
use torrnado.Common.{
  ℕ, Bool, true, false, ◌||◌, Option, none, some, List, [], ◌∷◌, ◌++◌, map, ◌==◌, if◌then◌else◌,
  length,
}
use torrnado.Common.Text.{Text, codes, text_eq, join}
use torrnado.Common.Utf8.{Rune, ascii, wide, runes, runes_from}
use torrnado.Engine.Library.{Float64}
use torrnado.Engine.State.{TorrentSnapshot}
use torrnado.Indexer.Result.{Strings}
use torrnado.Tui.Model.{World, Model, Cmd, SortMode, parse_sort_mode, err_status}
use torrnado.Tui.Visible.{visible_torrents, cursor_torrent, clamp_cursor}
use torrnado.Tui.Targets.{
  remove_targets, purge_targets, recheck_targets, set_paused_targets, label_targets,
}
use torrnado.Tui.Find.{open_find, start_find}
use torrnado.Tui.Themes.{open_theme_picker, set_theme_by_name}
use torrnado.Tui.Mouse.{toggle_mouse}

-- The variables of the loop in `splitArgs`; no quote is 0.
pub record Splitter : Type 0 where
  pub quote : ℕ
  pub started : Bool
  pub cur : Text

abbrev pub between : Splitter
between = record { quote = 0; started = false; cur = [] }

-- `open || cur.Len() > 0`
unfoldable pub has_arg : Splitter → Bool
has_arg st = st.started || (if text_eq st.cur [] then false else true)

-- One rune: the argument that it ends, if it ends one, and the variables afterwards. A rune of several
-- bytes is none of those that the cases test for, and is written in quotes and outside.
unfoldable pub split_step : Rune → Splitter → List Text × Splitter
unfolding has_arg
split_step (wide bytes) st = ([], record st { cur = st.cur ++ bytes })
split_step (ascii c) st =
    if st.quote == 0
    then (if c == 39 || c == 34
        then ([], record st { quote = c; started = true })
        else if c == 32 || c == 9
        then (if has_arg st then (st.cur ∷ [], between) else ([], st))
        else ([], record st { cur = st.cur ++ c ∷ [] }))
    else if c == st.quote
    then ([], record st { quote = 0 })
    else ([], record st { cur = st.cur ++ c ∷ [] })

unfoldable pub split_from : Splitter → List Rune → List Text
unfolding has_arg split_step
split_from st [] = if has_arg st then st.cur ∷ [] else []
split_from st (r ∷ rs) = let (out, st') = split_step r st in out ++ split_from st' rs

unfoldable pub split_args : ⦃str : Strings⦄ → Text → List Text
unfolding split_from runes_from
split_args ⦃str⦄ line = split_from between (runes (str.trim line))

-- The commands, by their names.
pub data Command : Type 0 where
  add rm rm_data pause resume purge recheck limit_up limit_down move mouse label find theme sort :
      Command
  help quit unknown : Command

unfoldable pub command_named : Text → Command
command_named s =
    if text_eq s (codes "add")
    then Command.add
    else if text_eq s (codes "rm") || text_eq s (codes "remove")
    then Command.rm
    else if text_eq s (codes "rm!") || text_eq s (codes "remove!")
    then Command.rm_data
    else if text_eq s (codes "pause")
    then Command.pause
    else if text_eq s (codes "resume")
    then Command.resume
    else if text_eq s (codes "purge")
    then Command.purge
    else if text_eq s (codes "recheck")
    then Command.recheck
    else if text_eq s (codes "limit-up")
    then Command.limit_up
    else if text_eq s (codes "limit-down")
    then Command.limit_down
    else if text_eq s (codes "move")
    then Command.move
    else if text_eq s (codes "mouse")
    then Command.mouse
    else if text_eq s (codes "label")
    then Command.label
    else if text_eq s (codes "find")
    then Command.find
    else if text_eq s (codes "theme")
    then Command.theme
    else if text_eq s (codes "sort")
    then Command.sort
    else if text_eq s (codes "help")
    then Command.help
    else if text_eq s (codes "q") || text_eq s (codes "quit")
    then Command.quit
    else Command.unknown

-- `len(args) > 1 && args[1] == "desc"`
unfoldable pub is_desc : List Text → Bool
is_desc [] = false
is_desc (a ∷ as') = text_eq a (codes "desc")

module _ ⦃fl : Float64⦄ where
  abbrev pub say_error : Text → Model → Model × List Cmd
  say_error t m = (m, Cmd.say (err_status t) ∷ [])

  unfoldable pub exec_add : World → List Text → Model → Model × List Cmd
  exec_add w [] m = say_error (codes "add: needs a magnet, file or directory") m
  exec_add w (a ∷ rest) m = (m, Cmd.add_batch (map w.expand_path (a ∷ rest)) ∷ [])

  unfoldable pub exec_limit : Bool → Text → List Text → Model → Model × List Cmd
  exec_limit up name (a ∷ []) m = (m, Cmd.limit up a ∷ [])
  exec_limit up name [] m = say_error (name ++ codes ": needs a rate, e.g. 500k or unlimited") m
  exec_limit up name (a ∷ b ∷ rest) m =
      say_error (name ++ codes ": needs a rate, e.g. 500k or unlimited") m

  unfoldable pub move_at : Option TorrentSnapshot → Text → Model → Model × List Cmd
  move_at none dir m = (m, [])
  move_at (some t) dir m = (m, Cmd.move t.id dir ∷ [])

  unfoldable pub exec_theme : World → List Text → Model → Model × List Cmd
  exec_theme w [] m = open_theme_picker w m
  exec_theme w (a ∷ rest) m = set_theme_by_name w a m

  module _ ⦃str : Strings⦄ where
    unfoldable pub exec_move : World → List Text → Model → Model × List Cmd
    unfolding move_at
    exec_move w (a ∷ []) m = move_at (cursor_torrent m) (w.expand_path a) m
    exec_move w [] m = say_error (codes "move: needs a directory") m
    exec_move w (a ∷ b ∷ rest) m = say_error (codes "move: needs a directory") m

    unfoldable pub exec_find : List Text → Model → Model × List Cmd
    exec_find [] m = open_find m
    exec_find (a ∷ rest) m = start_find (join (codes " ") (a ∷ rest)) m

    unfoldable pub sort_by_column :
        World → Text → Option SortMode → List Text → Model → Model × List Cmd
    unfolding is_desc
    sort_by_column w a none rest m = say_error (codes "sort: unknown column " ++ w.quote a) m
    sort_by_column w a (some mode) rest m =
        let m' = record m { sort_by = mode; sort_desc = is_desc rest } in
        (clamp_cursor (length (visible_torrents m')) m', [])

    unfoldable pub exec_sort : World → List Text → Model → Model × List Cmd
    unfolding sort_by_column
    exec_sort w [] m =
        say_error (codes "sort: needs a column (name, size, progress, ratio, eta, added, down, up)")
          m
    exec_sort w (a ∷ rest) m = sort_by_column w a (parse_sort_mode a) rest m

    unfoldable pub exec_named : World → Command → Text → List Text → Model → Model × List Cmd
    unfolding exec_add exec_limit exec_move exec_find exec_theme exec_sort
    exec_named w Command.add name rest m = exec_add w rest m
    exec_named w Command.rm name rest m = remove_targets (visible_torrents m) false m
    exec_named w Command.rm_data name rest m = remove_targets (visible_torrents m) true m
    exec_named w Command.pause name rest m = set_paused_targets true m
    exec_named w Command.resume name rest m = set_paused_targets false m
    exec_named w Command.purge name rest m = purge_targets (visible_torrents m) m
    exec_named w Command.recheck name rest m = recheck_targets (visible_torrents m) m
    exec_named w Command.limit_up name rest m = exec_limit true name rest m
    exec_named w Command.limit_down name rest m = exec_limit false name rest m
    exec_named w Command.move name rest m = exec_move w rest m
    exec_named w Command.mouse name rest m = toggle_mouse m
    exec_named w Command.label name rest m = label_targets (join (codes " ") rest) m
    exec_named w Command.find name rest m = exec_find rest m
    exec_named w Command.theme name rest m = exec_theme w rest m
    exec_named w Command.sort name rest m = exec_sort w rest m
    exec_named w Command.help name rest m = (record m { show_help = true }, [])
    exec_named w Command.quit name rest m = (record m { quitting = true }, Cmd.quit ∷ [])
    exec_named w Command.unknown name rest m =
        say_error (codes "unknown command " ++ w.quote name) m

    unfoldable pub exec_args : World → List Text → Model → Model × List Cmd
    unfolding exec_named
    exec_args w [] m = (m, [])
    exec_args w (name ∷ rest) m = exec_named w (command_named name) name rest m

    unfoldable pub exec_command : World → Text → Model → Model × List Cmd
    unfolding exec_args
    exec_command w line m = exec_args w (split_args line) m
