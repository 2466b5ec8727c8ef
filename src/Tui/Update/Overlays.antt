-- ===== src/Tui/Update/Overlays.antt =====
-- The handlers of find.go, themepicker.go, themewatch.go and detail.go of internal/tui: each carries
-- the invariants on.
use torrnado.Common.{
  ℕ, ◌+◌, ◌-◌, ◌<◌, ◌≡◌, refl, ◌∙◌, ◌⊎◌, inl, inr, true, false, Option, none, some, List, [], ◌∷◌,
  arith, Bool-cases, Option-cases, ltb, ◌==◌, length, get_elem?,
}
use torrnado.Common.Text.{Text, text_eq}
use torrnado.Engine.Library.{Float64}
use torrnado.Engine.State.{Answer, gives, fails}
use torrnado.Indexer.Result.{Strings, Result}
use torrnado.Tui.Model.{World, Model, Cmd, StatusMsg, Theme, FileStamp, set_status, clear_status}
use torrnado.Tui.Visible.{visible_torrents, shown}
use torrnado.Tui.Find.{
  can_find, open_find, find_trimmed, start_find, apply_find_results, close_find, add_result,
  FindKey, find_step, handle_find_key, find_key,
}
use torrnado.Tui.Themes.{
  theme_index, ThemeKey, theme_key, apply_theme, open_with, open_theme_picker, themed, move_cursor,
  load_at, move_theme_cursor, keep_theme, theme_step, handle_theme_key, named_theme,
  set_theme_by_name, check_stamp, check_theme_file, theme_stamp_of, stamp_eq,
}
use torrnado.Tui.Update.Carries.{Carries, Steps, Carries-refl, Carries-if}
use torrnado.Tui.Update.Handlers.{get_elem?-lt, Steps-trans}

module _ ⦃fl : Float64⦄ ⦃str : Strings⦄ where
  pub set_status-Carries :
      (msg : StatusMsg) (m m' : Model) → Carries m m' → Carries m (set_status msg m').0
  unfolding set_status visible_torrents shown
  set_status-Carries msg m m' c = c

  pub clear_status-Carries : (seq : ℕ) (m : Model) → Carries m (clear_status seq m)
  unfolding clear_status visible_torrents shown
  clear_status-Carries seq m = elim (Bool-cases (seq == m.status_seq)) [
    | inl b ↦ rw b (Carries-refl m)
    | inr b ↦ rw b (Carries-refl m)
  ]

  -- The search.
  pub open_find-Carries : (m : Model) → Carries m (open_find m).0
  unfolding open_find set_status visible_torrents shown
  open_find-Carries m = elim (Bool-cases (can_find m)) [
    | inl b ↦ rw b (Carries-refl m)
    | inr b ↦ rw b (Carries-refl m)
  ]

  pub start_find-Carries : (query : Text) (m : Model) → Carries m (start_find query m).0
  unfolding start_find find_trimmed set_status visible_torrents shown
  start_find-Carries query m = elim (Bool-cases (text_eq (str.trim query) [])) [
    | inl e ↦ rw e (Carries-refl m)
    | inr e ↦ elim (Bool-cases (can_find m)) [
      | inl b ↦ rw (e, b) (λ h. h, λ k h. h, omega arith, refl)
      | inr b ↦ rw (e, b) (Carries-refl m)
    ]
  ]

  pub apply_find_results-Carries :
      (seq : ℕ) (rs : List Result) (ws : List Text) (err : Option Text) (m : Model)
      → Carries m (apply_find_results seq rs ws err m)
  unfolding apply_find_results visible_torrents shown
  apply_find_results-Carries seq rs ws err m = elim (Bool-cases (seq == m.find_seq)) [
    | inl b ↦ rw b (Carries-refl m)
    | inr b ↦ rw b (Carries-refl m)
  ]

  close_find-Carries : (m : Model) → Carries m (close_find m)
  unfolding close_find visible_torrents shown
  close_find-Carries m = (λ h. h, λ k h. h, omega arith, refl)

  add_result-Carries : (w : World) (o : Option Result) (m : Model) → Carries m (add_result w o m).0
  unfolding add_result set_status visible_torrents shown
  add_result-Carries w none m = Carries-refl m
  add_result-Carries w (some r) m = elim (Bool-cases (text_eq r.link [])) [
    | inl b ↦ rw b (Carries-refl m)
    | inr b ↦ rw b (close_find-Carries m)
  ]

  find_step-Carries : (w : World) (k : FindKey) (m : Model) → Carries m (find_step w k m).0
  unfolding find_step visible_torrents shown
  find_step-Carries w FindKey.close m = close_find-Carries m
  find_step-Carries w FindKey.again m = close_find-Carries m
  find_step-Carries w FindKey.add m =
      add_result-Carries w (get_elem? m.find_results m.find_cursor) m
  find_step-Carries w FindKey.up m = Carries-refl m
  find_step-Carries w FindKey.down m = elim (Bool-cases (ltb 0 (length m.find_results))) [
    | inl b ↦ rw b (Carries-refl m)
    | inr b ↦ rw b (Carries-refl m)
  ]
  find_step-Carries w FindKey.top m = Carries-refl m
  find_step-Carries w FindKey.bottom m = elim (Bool-cases (ltb 0 (length m.find_results))) [
    | inl b ↦ rw b (Carries-refl m)
    | inr b ↦ rw b (Carries-refl m)
  ]
  find_step-Carries w FindKey.ignored m = Carries-refl m

  pub handle_find_key-Carries :
      (w : World) (k : Text) (m : Model) → Carries m (handle_find_key w k m).0
  unfolding handle_find_key
  handle_find_key-Carries w k m = find_step-Carries w (find_key m.keymap k) m

  -- The themes.
  themed-Carries : (w : World) (a : Answer Theme) (m : Model) → Carries m (themed w a m).0
  unfolding themed apply_theme set_status visible_torrents shown
  themed-Carries w (gives th) m = Carries-refl m
  themed-Carries w (fails e) m = Carries-refl m

  theme_index_lem :
      (name : Text) (i : ℕ) (xs : List Text)
      → (theme_index name i xs ≡ 0) ⊎ (theme_index name i xs < i + length xs)
  unfolding theme_index
  theme_index_lem name i [] = inl refl
  theme_index_lem name i (x ∷ xs) = ground (arith, theme_index_lem name (i + 1) xs)

  open_with-Carries :
      (ns : List Text) (m : Model) → m.theme_picker ≡ false → Carries m (open_with ns m).0
  unfolding open_with set_status visible_torrents shown
  open_with-Carries [] m p = (λ h. (h.0, λ q. cc), λ k h. h, omega arith, refl)
  open_with-Carries (n ∷ ns) m p = (
    λ h. (h.0, λ q. omega (arith, theme_index_lem m.theme.name 0 (n ∷ ns))),
    λ k h. h,
    omega arith,
    refl,
  )

  pub open_theme_picker-Carries :
      (w : World) (m : Model) → m.theme_picker ≡ false → Carries m (open_theme_picker w m).0
  unfolding open_theme_picker
  open_theme_picker-Carries w m p = open_with-Carries w.themes m p

  move_cursor-Carries :
      (k : ThemeKey) (m : Model) → m.theme_picker ≡ true → Carries m (move_cursor k m)
  unfolding move_cursor visible_torrents shown
  move_cursor-Carries ThemeKey.down m p =
      elim (Bool-cases (ltb m.theme_cursor (length m.theme_names - 1))) [
        | inl b ↦ rw b (λ h. (h.0, λ q. ground arith), λ k h. h, omega arith, refl)
        | inr b ↦ rw b (Carries-refl m)
      ]
  move_cursor-Carries ThemeKey.up m p =
      (λ h. (h.0, λ q. let c = h.1 q in omega arith), λ k h. h, omega arith, refl)
  move_cursor-Carries ThemeKey.top m p =
      (λ h. (h.0, λ q. let c = h.1 q in omega arith), λ k h. h, omega arith, refl)
  move_cursor-Carries ThemeKey.bottom m p =
      (λ h. (h.0, λ q. let c = h.1 q in omega arith), λ k h. h, omega arith, refl)
  move_cursor-Carries ThemeKey.cancel m p = Carries-refl m
  move_cursor-Carries ThemeKey.keep m p = Carries-refl m
  move_cursor-Carries ThemeKey.ignored m p = Carries-refl m

  load_at-Steps :
      (w : World) (m : Model)
      → m.theme_picker ≡ true
      → Steps m (load_at w (get_elem? m.theme_names m.theme_cursor) m)
  unfolding load_at
  load_at-Steps w m p = elim (Option-cases (get_elem? m.theme_names m.theme_cursor)) [
    | inl e ↦
        rw e
          (λ h. let f = get_elem?-lt m.theme_names m.theme_cursor (h.1 p) in ground (arith, e, f.1))
    | inr (name, e) ↦ rw e (themed-Carries w (w.load_theme name) m)
  ]

  move_theme_cursor-Steps :
      (w : World) (k : ThemeKey) (m : Model)
      → m.theme_picker ≡ true
      → (move_cursor k m).theme_picker ≡ true
      → Steps m (move_theme_cursor w k m)
  unfolding move_theme_cursor
  move_theme_cursor-Steps w k m p q =
      Steps-trans m (move_cursor k m) _ (move_cursor-Carries k m p)
        (load_at-Steps w (move_cursor k m) q)

  keep_theme-Steps :
      (w : World) (m : Model)
      → m.theme_picker ≡ true
      → Steps m (keep_theme w (get_elem? m.theme_names m.theme_cursor) m)
  unfolding keep_theme set_status visible_torrents shown
  keep_theme-Steps w m p = elim (Option-cases (get_elem? m.theme_names m.theme_cursor)) [
    | inl e ↦
        rw e
          (λ h. let f = get_elem?-lt m.theme_names m.theme_cursor (h.1 p) in ground (arith, e, f.1))
    | inr (name, e) ↦ rw e (λ h. (h.0, λ q. cc), λ k h. h, omega arith, refl)
  ]

  move_cursor-picker : (k : ThemeKey) (m : Model) → (move_cursor k m).theme_picker ≡ m.theme_picker
  unfolding move_cursor
  move_cursor-picker k m = ground arith

  theme_step-Steps :
      (w : World) (k : ThemeKey) (m : Model) → m.theme_picker ≡ true → Steps m (theme_step w k m)
  unfolding theme_step apply_theme visible_torrents shown
  theme_step-Steps w ThemeKey.cancel m p = (λ h. (h.0, λ q. cc), λ k h. h, omega arith, refl)
  theme_step-Steps w ThemeKey.keep m p = keep_theme-Steps w m p
  theme_step-Steps w ThemeKey.down m p =
      move_theme_cursor-Steps w ThemeKey.down m p (move_cursor-picker ThemeKey.down m ∙ p)
  theme_step-Steps w ThemeKey.up m p =
      move_theme_cursor-Steps w ThemeKey.up m p (move_cursor-picker ThemeKey.up m ∙ p)
  theme_step-Steps w ThemeKey.top m p =
      move_theme_cursor-Steps w ThemeKey.top m p (move_cursor-picker ThemeKey.top m ∙ p)
  theme_step-Steps w ThemeKey.bottom m p =
      move_theme_cursor-Steps w ThemeKey.bottom m p (move_cursor-picker ThemeKey.bottom m ∙ p)
  theme_step-Steps w ThemeKey.ignored m p = Carries-refl m

  pub handle_theme_key-Steps :
      (w : World) (k : Text) (m : Model) → m.theme_picker ≡ true → Steps m (handle_theme_key w k m)
  unfolding handle_theme_key
  handle_theme_key-Steps w k m p = theme_step-Steps w (theme_key m.keymap k) m p

  named_theme-Carries :
      (w : World) (name : Text) (a : Answer Theme) (m : Model)
      → Carries m (named_theme w name a m).0
  unfolding named_theme apply_theme set_status visible_torrents shown
  named_theme-Carries w name (gives th) m = Carries-refl m
  named_theme-Carries w name (fails e) m = Carries-refl m

  pub set_theme_by_name-Carries :
      (w : World) (name : Text) (m : Model) → Carries m (set_theme_by_name w name m).0
  unfolding set_theme_by_name
  set_theme_by_name-Carries w name m = named_theme-Carries w name (w.load_theme name) m

  check_stamp-Carries :
      (w : World) (o : Option FileStamp) (m : Model) → Carries m (check_stamp w o m).0
  unfolding check_stamp visible_torrents shown
  check_stamp-Carries w none m = Carries-refl m
  check_stamp-Carries w (some s) m = elim (Bool-cases (stamp_eq s m.theme_stamp)) [
    | inl b ↦ rw b (Carries-refl m)
    | inr b ↦
        rw b (themed-Carries w (w.load_theme m.theme.name) (record m { theme_stamp = some s }))
  ]

  pub check_theme_file-Carries : (w : World) (m : Model) → Carries m (check_theme_file w m).0
  unfolding check_theme_file
  check_theme_file-Carries w m =
      Carries-if m m.theme_picker (m, Cmd.watch_theme ∷ []) _ (λ b. Carries-refl m)
        (λ b. check_stamp-Carries w (theme_stamp_of w m m.theme) m)
