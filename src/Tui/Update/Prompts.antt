-- ===== src/Tui/Update/Prompts.antt =====
-- What a key does at a prompt keeps the cursor and the marks in order.
use torrnado.Common.{◌≡◌, refl, ◌++◌, inl, inr, false, List, [], ◌∷◌, Bool-cases, if◌then◌else◌}
use torrnado.Common.Text.{Text, text_eq, text_eq_iff}
use torrnado.Engine.Library.{Float64}
use torrnado.Indexer.Result.{Strings}
use torrnado.Tui.Model.{World, Model, KeyMsg, KeyType, InputMode}
use torrnado.Tui.Visible.{visible_torrents, shown, clamp_cursor}
use torrnado.Tui.Prompt.{
  search_typed, handle_search_key, handle_find_prompt_key, completed, handle_command_key,
  drop_last_rune,
}
use torrnado.Tui.Update.Carries.{rows, Carries, Carries-refl, Carries-reclamped, Carries-trans}
use torrnado.Tui.Update.Overlays.{start_find-Carries}
use torrnado.Tui.Update.Inputs.{exec_command-Carries}
use torrnado.Tui.Palette.{exec_command}

module _ ⦃fl : Float64⦄ ⦃str : Strings⦄ where
  -- The prompts.
  queried :
      (q : Text) (md : InputMode) (m : Model)
      → let m' = record m {
        mode = md;
        search_query = q;
        selected = if text_eq q m.search_query then m.selected else [];
      } in
        Carries m (clamp_cursor (rows m') m')
  queried q md m =
      let m' = record m {
        mode = md;
        search_query = q;
        selected = if text_eq q m.search_query then m.selected else [];
      } in
      Carries-reclamped m m' (refl, refl, refl, refl, refl)
        (elim (Bool-cases (text_eq q m.search_query)) [
          | inl b ↦ inr (rw b refl, refl, refl, (text_eq_iff q m.search_query).0 b)
          | inr b ↦ inl (rw b refl)
        ])

  search_key-Carries :
      (msg : KeyMsg) (t : KeyType) (m : Model)
      → let m' = search_typed msg t m in
        let m'' = record m' {
          selected = if text_eq m'.search_query m.search_query then m.selected else [];
        } in
        Carries m (clamp_cursor (rows m'') m'')
  unfolding search_typed
  search_key-Carries msg KeyType.enter m = queried m.search_query InputMode.normal m
  search_key-Carries msg KeyType.esc m = queried [] InputMode.normal m
  search_key-Carries msg KeyType.backspace m = queried (drop_last_rune m.search_query) m.mode m
  search_key-Carries msg KeyType.space m = queried (m.search_query ++ 32 ∷ []) m.mode m
  search_key-Carries msg KeyType.runes m = queried (m.search_query ++ msg.runes) m.mode m
  search_key-Carries msg KeyType.tab m = queried m.search_query m.mode m
  search_key-Carries msg KeyType.other m = queried m.search_query m.mode m

  pub handle_search_key-Carries : (msg : KeyMsg) (m : Model) → Carries m (handle_search_key msg m)
  unfolding handle_search_key clamp_cursor visible_torrents shown
  handle_search_key-Carries msg m = search_key-Carries msg msg.type m

  pub handle_find_prompt_key-Carries :
      (msg : KeyMsg) (t : KeyType) (m : Model) → Carries m (handle_find_prompt_key msg t m).0
  unfolding handle_find_prompt_key visible_torrents shown
  handle_find_prompt_key-Carries msg KeyType.enter m = start_find-Carries m.find_query m
  handle_find_prompt_key-Carries msg KeyType.esc m = Carries-refl m
  handle_find_prompt_key-Carries msg KeyType.backspace m = Carries-refl m
  handle_find_prompt_key-Carries msg KeyType.space m = Carries-refl m
  handle_find_prompt_key-Carries msg KeyType.runes m = Carries-refl m
  handle_find_prompt_key-Carries msg KeyType.tab m = Carries-refl m
  handle_find_prompt_key-Carries msg KeyType.other m = Carries-refl m

  completed-Carries : (c : Text × List Text) (m : Model) → Carries m (completed c m)
  unfolding completed visible_torrents shown
  completed-Carries (line, candidates) m = Carries-refl m

  pub handle_command_key-Carries :
      (w : World) (msg : KeyMsg) (t : KeyType) (m : Model)
      → m.theme_picker ≡ false
      → Carries m (handle_command_key w msg t m).0
  unfolding handle_command_key visible_torrents shown
  handle_command_key-Carries w msg KeyType.enter m p =
      let m' = record m { mode = InputMode.normal; command_buf = []; completions = [] } in
      Carries-trans m m' (exec_command w m.command_buf m').0 (Carries-refl m)
        (exec_command-Carries w m.command_buf m' p)
  handle_command_key-Carries w msg KeyType.esc m p = Carries-refl m
  handle_command_key-Carries w msg KeyType.backspace m p = Carries-refl m
  handle_command_key-Carries w msg KeyType.tab m p =
      completed-Carries (w.complete_path m.command_buf) m
  handle_command_key-Carries w msg KeyType.space m p = Carries-refl m
  handle_command_key-Carries w msg KeyType.runes m p = Carries-refl m
  handle_command_key-Carries w msg KeyType.other m p = Carries-refl m
