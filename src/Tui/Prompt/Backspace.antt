-- ===== src/Tui/Prompt/Backspace.antt =====
-- Backspace at the prompts of internal/tui/update.go: at two it takes back a character, at the third
-- one byte of it.
use torrnado.Common.{
  ℕ, ◌+◌, ◌≡◌, ◌<◌, refl, ap, ◌∙◌, Bool, true, false, [], ◌∷◌, ◌++◌, arith, length, length-append,
}
use torrnado.Common.Text.{Text, codes, every}
use torrnado.Engine.Library.{Float64}
use torrnado.Indexer.Result.{Strings}
use torrnado.Tui.Model.{World, Model, KeyMsg, KeyType}
use torrnado.Tui.Visible.{clamp_cursor}
use torrnado.Tui.Prompt.{
  is_continuation, drop_last_rune, drop_last_byte, handle_search_key, search_typed,
  handle_command_key, handle_find_prompt_key,
}

every-append_false :
    (p : ℕ → Bool) (q : Text) (c : ℕ) (r : Text) → p c ≡ false → every p (q ++ c ∷ r) ≡ false
unfolding every
every-append_false p [] c r h = rw h refl
every-append_false p (x ∷ q) c r h = ground (arith, every-append_false p q c r h)

drop_last_rune-append :
    (q : Text) (c : ℕ) (r : Text)
    → is_continuation c ≡ false
    → every is_continuation r ≡ true
    → drop_last_rune (q ++ c ∷ r) ≡ q
unfolding drop_last_rune
drop_last_rune-append [] c r h k = rw k refl
drop_last_rune-append (x ∷ q) c r h k =
    rw (every-append_false is_continuation q c r h)
      (ap (λ (t : Text). x ∷ t) (drop_last_rune-append q c r h k))

length-drop_last_byte : (q : Text) → 0 < length q → length (drop_last_byte q) + 1 ≡ length q
unfolding drop_last_byte
length-drop_last_byte [] h = elim h [ ]
length-drop_last_byte (c ∷ []) h = refl
length-drop_last_byte (c ∷ d ∷ q) h = omega (arith, length-drop_last_byte (d ∷ q))

-- A key that types this text, and Backspace.
abbrev pub typing : Text → KeyMsg
typing r = record { string = r; type = KeyType.runes; runes = r }

abbrev pub backspace : KeyMsg
backspace = record { string = codes "backspace"; type = KeyType.backspace; runes = [] }

module _ ⦃fl : Float64⦄ ⦃str : Strings⦄ where
  clamp_cursor-query : (n : ℕ) (m : Model) → (clamp_cursor n m).search_query ≡ m.search_query
  unfolding clamp_cursor
  clamp_cursor-query n m = ground arith

  -- At the search prompt and on the command line Backspace takes back a character just typed, whatever
  -- the number of its bytes in UTF-8: one that begins it and those that continue it.
  pub backspace_undoes :
      (w : World) (m : Model) (c : ℕ) (r : Text)
      → is_continuation c ≡ false
      → every is_continuation r ≡ true
      → ((handle_search_key backspace (handle_search_key (typing (c ∷ r)) m)).search_query
          ≡ m.search_query)
        × ((handle_command_key w backspace KeyType.backspace
              (handle_command_key w (typing (c ∷ r)) KeyType.runes m).0).0.command_buf
            ≡ m.command_buf)
  unfolding handle_search_key search_typed handle_command_key
  backspace_undoes w m c r h k = (
    clamp_cursor-query _ _
        ∙ (ap drop_last_rune (clamp_cursor-query _ _)
            ∙ drop_last_rune-append m.search_query c r h k),
    drop_last_rune-append m.command_buf c r h k,
  )

  -- At the find prompt it does not take back a character of more than one byte: some of it is left.
  pub find_backspace_keeps :
      (m : Model) (c d : ℕ) (r : Text)
      → ¬ (
          (handle_find_prompt_key backspace KeyType.backspace
            (handle_find_prompt_key (typing (c ∷ d ∷ r)) KeyType.runes m).0).0.find_query
          ≡ m.find_query)
  unfolding handle_find_prompt_key
  find_backspace_keeps m c d r e =
      let n = ap length e in
      let typed = length-append {0} m.find_query (c ∷ d ∷ r) in
      let dropped = length-drop_last_byte (m.find_query ++ c ∷ d ∷ r) (omega (arith, typed)) in
      omega arith
