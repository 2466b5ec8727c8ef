-- ===== src/Tui/Themes.antt =====
-- internal/tui/themepicker.go and themewatch.go: the choice of a theme, and its file's changes. What
-- the disk holds is an answer of the World.
use torrnado.Common.{
  ℕ, ◌+◌, ◌-◌, Bool, true, false, ◌&&◌, ◌||◌, Option, none, some, List, [], ◌∷◌, ◌++◌, ltb, ◌==◌,
  if◌then◌else◌, length, get_elem?,
}
use torrnado.Common.Text.{Text, codes, text_eq}
use torrnado.Engine.Library.{Float64}
use torrnado.Engine.State.{Answer, gives, fails}
use torrnado.Tui.Model.{
  World, Model, KeyMap, Theme, FileStamp, Cmd, Next, set_status, err_status, ok_status,
}

-- `fileStamp.equal`; no stamp is the zero value
unfoldable pub stamp_eq : FileStamp → Option FileStamp → Bool
stamp_eq s none = s.size == 0 && s.mod_time == 0
stamp_eq s (some o) = s.size == o.size && s.mod_time == o.mod_time

-- The first theme of this name, or the first of all.
unfoldable pub theme_index : Text → ℕ → List Text → ℕ
theme_index name i [] = 0
theme_index name i (n ∷ ns) = if text_eq n name then i else theme_index name (i + 1) ns

unfoldable pub keep_theme_hint : World → Text → Text
keep_theme_hint w name =
    codes "theme "
    ++ w.quote name
    ++ codes " (add theme = "
    ++ w.quote name
    ++ codes " to config.toml to keep it)"

-- What a key means in the picker.
pub data ThemeKey : Type 0 where
  cancel keep down up top bottom ignored : ThemeKey

unfoldable pub theme_key : KeyMap → Text → ThemeKey
theme_key km k =
    if text_eq k (codes "esc") || text_eq k km.back
    then ThemeKey.cancel
    else if text_eq k (codes "enter") || text_eq k km.select
    then ThemeKey.keep
    else if text_eq k km.down || text_eq k (codes "down")
    then ThemeKey.down
    else if text_eq k km.up || text_eq k (codes "up")
    then ThemeKey.up
    else if text_eq k km.top
    then ThemeKey.top
    else if text_eq k km.bottom
    then ThemeKey.bottom
    else ThemeKey.ignored

module _ ⦃fl : Float64⦄ where
  -- `themeFile` and `stampOf`: no theme has a file where there is no directory for them.
  unfoldable pub theme_stamp_of : World → Model → Theme → Option FileStamp
  theme_stamp_of w m th =
      if text_eq m.themes_dir [] || text_eq th.name [] then none else w.stamp th.name

  -- `applyTheme`, less the styles
  unfoldable pub apply_theme : World → Theme → Model → Model
  unfolding theme_stamp_of
  apply_theme w th m = record m { theme = th; theme_stamp = theme_stamp_of w m th }

  unfoldable pub open_with : List Text → Model → Model × List Cmd
  open_with [] m = set_status (err_status (codes "no themes found")) (record m { theme_names = [] })
  open_with (n ∷ ns) m = (
    record m {
      theme_names = n ∷ ns;
      theme_saved = m.theme;
      theme_cursor = theme_index m.theme.name 0 (n ∷ ns);
      theme_picker = true;
    },
    [],
  )

  unfoldable pub open_theme_picker : World → Model → Model × List Cmd
  unfolding open_with
  open_theme_picker w m = open_with w.themes m

  -- The theme once it was loaded, or what went wrong.
  unfoldable pub themed : World → Answer Theme → Model → Model × List Cmd
  unfolding apply_theme
  themed w (gives th) m = (apply_theme w th m, [])
  themed w (fails e) m = set_status (err_status e) m

  unfoldable pub move_cursor : ThemeKey → Model → Model
  move_cursor ThemeKey.down m =
      if ltb m.theme_cursor (length m.theme_names - 1)
      then record m { theme_cursor = m.theme_cursor + 1 }
      else m
  move_cursor ThemeKey.up m = record m { theme_cursor = m.theme_cursor - 1 }
  move_cursor ThemeKey.top m = record m { theme_cursor = 0 }
  move_cursor ThemeKey.bottom m = record m { theme_cursor = length m.theme_names - 1 }
  move_cursor _ m = m

  -- `m.themeNames[m.themeCursor]` panics past the end.
  unfoldable pub load_at : World → Option Text → Model → Next
  unfolding themed
  load_at w none m = none
  load_at w (some name) m = some (themed w (w.load_theme name) m)

  unfoldable pub move_theme_cursor : World → ThemeKey → Model → Next
  unfolding move_cursor load_at
  move_theme_cursor w k m =
      let m' = move_cursor k m in load_at w (get_elem? m'.theme_names m'.theme_cursor) m'

  unfoldable pub keep_theme : World → Option Text → Model → Next
  keep_theme w none m = none
  keep_theme w (some name) m =
      some (set_status (ok_status (keep_theme_hint w name)) (record m { theme_picker = false }))

  unfoldable pub theme_step : World → ThemeKey → Model → Next
  unfolding apply_theme move_theme_cursor keep_theme
  theme_step w ThemeKey.cancel m =
      some (apply_theme w m.theme_saved (record m { theme_picker = false }), [])
  theme_step w ThemeKey.keep m = keep_theme w (get_elem? m.theme_names m.theme_cursor) m
  theme_step w ThemeKey.down m = move_theme_cursor w ThemeKey.down m
  theme_step w ThemeKey.up m = move_theme_cursor w ThemeKey.up m
  theme_step w ThemeKey.top m = move_theme_cursor w ThemeKey.top m
  theme_step w ThemeKey.bottom m = move_theme_cursor w ThemeKey.bottom m
  theme_step w ThemeKey.ignored m = some (m, [])

  unfoldable pub handle_theme_key : World → Text → Model → Next
  unfolding theme_step
  handle_theme_key w k m = theme_step w (theme_key m.keymap k) m

  unfoldable pub named_theme : World → Text → Answer Theme → Model → Model × List Cmd
  unfolding apply_theme
  named_theme w name (gives th) m =
      set_status (ok_status (keep_theme_hint w name)) (apply_theme w th m)
  named_theme w name (fails e) m = set_status (err_status e) m

  unfoldable pub set_theme_by_name : World → Text → Model → Model × List Cmd
  unfolding named_theme
  set_theme_by_name w name m = named_theme w name (w.load_theme name) m

  -- `checkThemeFile` where the file is there.
  unfoldable pub check_stamp : World → Option FileStamp → Model → Model × List Cmd
  unfolding stamp_eq themed
  check_stamp w none m = (m, Cmd.watch_theme ∷ [])
  check_stamp w (some s) m =
      if stamp_eq s m.theme_stamp
      then (m, Cmd.watch_theme ∷ [])
      else let (m', cmds) =
          themed w (w.load_theme m.theme.name) (record m { theme_stamp = some s }) in
        (m', Cmd.watch_theme ∷ cmds)

  unfoldable pub check_theme_file : World → Model → Model × List Cmd
  unfolding check_stamp theme_stamp_of
  check_theme_file w m =
      if m.theme_picker
      then (m, Cmd.watch_theme ∷ [])
      else check_stamp w (theme_stamp_of w m m.theme) m
