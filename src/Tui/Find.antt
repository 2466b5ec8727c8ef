-- ===== src/Tui/Find.antt =====
-- internal/tui/find.go: the search of an indexer, as a state machine.
use torrnado.Common.{
  ℕ, suc, ◌+◌, ◌-◌, min, Bool, false, true, ◌&&◌, ◌||◌, Option, none, some, List, [], ◌∷◌, ◌++◌,
  ltb, ◌==◌, if◌then◌else◌, length, get_elem?,
}
use torrnado.Common.Text.{Text, codes, text_eq}
use torrnado.Engine.Library.{Float64}
use torrnado.Indexer.Result.{Strings, Result}
use torrnado.Tui.Model.{
  World, Model, KeyMap, Cmd, FindState, InputMode, set_status, err_status, ok_status,
}

-- `errNoIndexer`
abbrev pub no_indexer : Text
no_indexer =
    codes
      "no indexer configured: set indexer.backend, indexer.url and indexer.api_key in config.toml"

unfoldable pub some_source : List Text → Bool
some_source [] = false
some_source (s ∷ ss) = true

-- What a key means in the overlay, in the order of the `switch`.
pub data FindKey : Type 0 where
  close again add up down top bottom ignored : FindKey

unfoldable pub find_key : KeyMap → Text → FindKey
find_key km k =
    if text_eq k (codes "esc") || text_eq k km.back
    then FindKey.close
    else if text_eq k km.find
    then FindKey.again
    else if text_eq k (codes "enter")
    then FindKey.add
    else if text_eq k km.up || text_eq k (codes "up")
    then FindKey.up
    else if text_eq k km.down || text_eq k (codes "down")
    then FindKey.down
    else if text_eq k km.top
    then FindKey.top
    else if text_eq k km.bottom
    then FindKey.bottom
    else FindKey.ignored

module _ ⦃fl : Float64⦄ where
  unfoldable pub can_find : Model → Bool
  unfolding some_source
  can_find m = m.has_finder && some_source m.find_sources

  unfoldable pub open_find : Model → Model × List Cmd
  unfolding can_find
  open_find m =
      if can_find m
      then (record m { mode = InputMode.find }, [])
      else set_status (err_status no_indexer) m

  -- `startFind` once the query is trimmed.
  unfoldable pub find_trimmed : Text → Model → Model × List Cmd
  unfolding can_find
  find_trimmed query m =
      if text_eq query []
      then (m, [])
      else if can_find m
      then (
        record m {
          mode = InputMode.normal;
          find_query = query;
          find_state = FindState.loading;
          find_results = [];
          find_err = none;
          find_cursor = 0;
          find_seq = suc m.find_seq;
        },
        Cmd.find query (suc m.find_seq) ∷ [],
      )
      else set_status (err_status no_indexer) m

  unfoldable pub start_find : ⦃str : Strings⦄ → Text → Model → Model × List Cmd
  unfolding find_trimmed
  start_find ⦃str⦄ query m = find_trimmed (str.trim query) m

  -- `applyFindResults`
  unfoldable pub apply_find_results : ℕ → List Result → List Text → Option Text → Model → Model
  apply_find_results seq results warnings err m =
      if seq == m.find_seq
      then record m {
        find_state = FindState.loaded;
        find_results = results;
        find_warnings = warnings;
        find_err = err;
        find_cursor = 0;
      }
      else m

  unfoldable pub close_find : Model → Model
  close_find m = record m { find_state = FindState.closed; find_seq = suc m.find_seq }

  -- `addFindResult`, on the result under the cursor.
  unfoldable pub add_result : World → Option Result → Model → Model × List Cmd
  unfolding close_find
  add_result w none m = (m, [])
  add_result w (some r) m =
      if text_eq r.link []
      then set_status (err_status (codes "that result has no magnet or download link")) m
      else let (m', cmds) =
          set_status (ok_status (codes "adding " ++ w.truncate r.title 60)) (close_find m) in
        (m', cmds ++ (Cmd.add_batch (r.link ∷ []) ∷ []))

  unfoldable pub find_step : World → FindKey → Model → Model × List Cmd
  unfolding close_find add_result
  find_step w FindKey.close m = (close_find m, [])
  find_step w FindKey.again m = (record (close_find m) { mode = InputMode.find }, [])
  find_step w FindKey.add m = add_result w (get_elem? m.find_results m.find_cursor) m
  find_step w FindKey.up m = (record m { find_cursor = m.find_cursor - 1 }, [])
  find_step w FindKey.down m =
      if ltb 0 (length m.find_results)
      then (record m { find_cursor = min (length m.find_results - 1) (m.find_cursor + 1) }, [])
      else (m, [])
  find_step w FindKey.top m = (record m { find_cursor = 0 }, [])
  find_step w FindKey.bottom m =
      if ltb 0 (length m.find_results)
      then (record m { find_cursor = length m.find_results - 1 }, [])
      else (m, [])
  find_step w FindKey.ignored m = (m, [])

  unfoldable pub handle_find_key : World → Text → Model → Model × List Cmd
  unfolding find_step
  handle_find_key w k m = find_step w (find_key m.keymap k) m
