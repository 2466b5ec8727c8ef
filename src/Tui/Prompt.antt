-- ===== src/Tui/Prompt.antt =====
-- internal/tui/update.go: the search prompt, the command line and the find prompt.
pub mod Backspace
use torrnado.Common.{ℕ, Bool, ◌&&◌, List, [], ◌∷◌, ◌++◌, ltb, leb, if◌then◌else◌, length}
use torrnado.Common.Text.{Text, text_eq, every}
use torrnado.Engine.Library.{Float64}
use torrnado.Indexer.Result.{Strings}
use torrnado.Tui.Model.{World, Model, KeyMsg, KeyType, Cmd, InputMode}
use torrnado.Tui.Visible.{visible_torrents, clamp_cursor}
use torrnado.Tui.Find.{start_find}
use torrnado.Tui.Palette.{exec_command}

-- A byte that continues a character of UTF-8.
unfoldable pub is_continuation : ℕ → Bool
is_continuation c = leb 128 c && ltb c 192

-- `string(r[:len(r)-1])` for the runes `r` of a text in UTF-8: its last character, a byte and those
-- that continue it, is dropped.
unfoldable pub drop_last_rune : Text → Text
unfolding is_continuation
drop_last_rune [] = []
drop_last_rune (c ∷ s) = if every is_continuation s then [] else c ∷ drop_last_rune s

-- `s[:len(s)-1]`
unfoldable pub drop_last_byte : Text → Text
drop_last_byte [] = []
drop_last_byte (c ∷ []) = []
drop_last_byte (c ∷ d ∷ s) = c ∷ drop_last_byte (d ∷ s)

module _ ⦃fl : Float64⦄ ⦃str : Strings⦄ where
  -- One key at the search prompt, before the marks and the cursor follow.
  unfoldable pub search_typed : KeyMsg → KeyType → Model → Model
  search_typed msg KeyType.enter m = record m { mode = InputMode.normal }
  search_typed msg KeyType.esc m = record m { mode = InputMode.normal; search_query = [] }
  search_typed msg KeyType.backspace m = record m { search_query = drop_last_rune m.search_query }
  search_typed msg KeyType.space m = record m { search_query = m.search_query ++ 32 ∷ [] }
  search_typed msg KeyType.runes m = record m { search_query = m.search_query ++ msg.runes }
  search_typed msg KeyType.tab m = m
  search_typed msg KeyType.other m = m

  -- `handleSearchKey`
  unfoldable pub handle_search_key : KeyMsg → Model → Model
  unfolding search_typed
  handle_search_key msg m =
      let m' = search_typed msg msg.type m in
      clamp_cursor (length (visible_torrents m'))
        (record m' { selected = if text_eq m'.search_query m.search_query then m.selected else [] })

  -- `handleFindPromptKey`
  unfoldable pub handle_find_prompt_key : KeyMsg → KeyType → Model → Model × List Cmd
  unfolding drop_last_byte
  handle_find_prompt_key msg KeyType.enter m = start_find m.find_query m
  handle_find_prompt_key msg KeyType.esc m =
      (record m { mode = InputMode.normal; find_query = [] }, [])
  handle_find_prompt_key msg KeyType.backspace m =
      (record m { find_query = drop_last_byte m.find_query }, [])
  handle_find_prompt_key msg KeyType.space m =
      (record m { find_query = m.find_query ++ 32 ∷ [] }, [])
  handle_find_prompt_key msg KeyType.runes m =
      (record m { find_query = m.find_query ++ msg.runes }, [])
  handle_find_prompt_key msg KeyType.tab m = (m, [])
  handle_find_prompt_key msg KeyType.other m = (m, [])

  -- `handleCommandKey`
  abbrev pub prompt_closed : Model → Model
  prompt_closed m = record m { mode = InputMode.normal; command_buf = []; completions = [] }

  unfoldable pub completed : Text × List Text → Model → Model
  completed (line, candidates) m = record m { command_buf = line; completions = candidates }

  unfoldable pub handle_command_key : World → KeyMsg → KeyType → Model → Model × List Cmd
  unfolding completed
  handle_command_key w msg KeyType.enter m = exec_command w m.command_buf (prompt_closed m)
  handle_command_key w msg KeyType.esc m = (prompt_closed m, [])
  handle_command_key w msg KeyType.backspace m =
      (record m { command_buf = drop_last_rune m.command_buf; completions = [] }, [])
  handle_command_key w msg KeyType.tab m = (completed (w.complete_path m.command_buf) m, [])
  handle_command_key w msg KeyType.space m =
      (record m { command_buf = m.command_buf ++ 32 ∷ []; completions = [] }, [])
  handle_command_key w msg KeyType.runes m =
      (record m { command_buf = m.command_buf ++ msg.runes; completions = [] }, [])
  handle_command_key w msg KeyType.other m = (m, [])
