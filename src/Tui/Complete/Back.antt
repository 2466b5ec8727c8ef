-- ===== src/Tui/Complete/Back.antt =====
-- What Tab puts back into the command line, Enter reads as one argument.
use torrnado.Common.{
  ℕ, ◌≡◌, ◌<◌, refl, sym, ap, ◌∙◌, inl, inr, Bool, true, false, not, ◌&&◌, ◌||◌, List, [], ◌∷◌,
  ◌++◌, arith, Bool-cases, ◌==◌, if◌then◌else◌, take, append-nil, append_assoc,
}
use torrnado.Common.Text.{Text, codes, text_eq, every}
use torrnado.Common.Utf8.{
  Rune, ascii, wide, runes, runes_from, spelled, spell, respelled, respelled_empty, every_ascii,
  every_ascii-runes, runes-append,
}
use torrnado.Indexer.Result.{Strings}
use torrnado.Tui.Palette.{Splitter, between, has_arg, split_step, split_from, split_args}
use torrnado.Tui.Palette.Words.{split_from-quoted, runes_quoted}
use torrnado.Tui.Complete.{PathArg, has_blank, quote_arg, put_back}

abbrev pub is_quote : ℕ → Bool
is_quote c = c == 39 || c == 34

abbrev pub is_blank : ℕ → Bool
is_blank c = c == 32 || c == 9

-- A command's name.
abbrev pub is_word : Text → Bool
is_word w = not (text_eq w []) && every (λ c. not (is_quote c) && not (is_blank c)) w

-- A text that can stand in these quotes, or in none.
abbrev pub fits : ℕ → Text → Bool
fits q s =
    if q == 0
    then not (text_eq s []) && every (λ c. not (is_quote c)) s
    else is_quote q && every (λ c. not (c == q)) s

abbrev bare : Text → Splitter
bare c = record { quote = 0; started = false; cur = c }

split_from-bare :
    (w : List Rune) (c : Text) (s : List Rune)
    → every_ascii (λ c. not (is_quote c) && not (is_blank c)) w ≡ true
    → split_from (bare c) (w ++ s) ≡ split_from (bare (c ++ spelled w)) s
unfolding split_from every_ascii spelled spell
split_from-bare [] c s h = rw (append-nil c) refl
split_from-bare (ascii x ∷ w) c s h =
    let q : (x == 39 || x == 34) ≡ false = ground arith in
    let b : (x == 32 || x == 9) ≡ false = ground arith in
    let later : every_ascii (λ c. not (is_quote c) && not (is_blank c)) w ≡ true = ground arith in
    rw (q, b)
      (split_from-bare w (c ++ x ∷ []) s later
        ∙ ap (λ t. split_from (bare t) s) (append_assoc c (x ∷ []) (spelled w)))
split_from-bare (wide bytes ∷ w) c s h =
    split_from-bare w (c ++ bytes) s h
    ∙ ap (λ t. split_from (bare t) s) (append_assoc c bytes (spelled w))

has_arg-bare : (c : Text) → text_eq c [] ≡ false → has_arg (bare c) ≡ true
unfolding has_arg
has_arg-bare c h = rw h refl

-- A text with no blank in it is a word.
no_blank :
    (s : Text)
    → has_blank s ≡ false
    → every (λ c. not (is_quote c)) s ≡ true
    → every (λ c. not (is_quote c) && not (is_blank c)) s ≡ true
unfolding has_blank every
no_blank [] h k = refl
no_blank (c ∷ s) h k = ground (arith, no_blank s)

no_quote : (s : Text) → every (λ c. not (is_quote c)) s ≡ true → every (λ c. not (c == 39)) s ≡ true
unfolding every
no_quote [] k = refl
no_quote (c ∷ s) k = ground (arith, no_quote s)

quote_below : (q : ℕ) → is_quote q ≡ true → q < 128
quote_below q h = ground arith

split_from-in_quotes :
    (q : ℕ) (s : Text)
    → is_quote q ≡ true
    → every (λ c. not (c == q)) s ≡ true
    → split_from between (runes (q ∷ s ++ q ∷ [])) ≡ respelled s ∷ []
unfolding split_from split_step has_arg runes_from
split_from-in_quotes q s h k =
    let z : (q == 0) ≡ false = ground arith in
    rw (runes_quoted q s [] (quote_below q h), h)
      (split_from-quoted q (runes s) [] [] z (every_ascii-runes (λ c. not (c == q)) s k))

split_from-end : (s : Text) → text_eq s [] ≡ false → split_from (bare s) [] ≡ s ∷ []
unfolding split_from
split_from-end s h = rw (has_arg-bare s h) refl

bare_arg :
    (s : Text)
    → text_eq s [] ≡ false
    → every (λ c. not (is_quote c) && not (is_blank c)) s ≡ true
    → split_from between (runes s) ≡ respelled s ∷ []
bare_arg s e h =
    sym (ap (split_from between) (append-nil (runes s)))
    ∙ split_from-bare (runes s) [] []
        (every_ascii-runes (λ c. not (is_quote c) && not (is_blank c)) s h)
    ∙ split_from-end (respelled s) (respelled_empty s e)

fits_quoted :
    (q : ℕ) (s : Text)
    → (q == 0) ≡ false
    → fits q s ≡ true
    → (is_quote q ≡ true) × (every (λ c. not (c == q)) s ≡ true)
fits_quoted q s z h = ground arith

fits_bare :
    (q : ℕ) (s : Text)
    → (q == 0) ≡ true
    → fits q s ≡ true
    → (text_eq s [] ≡ false) × (every (λ c. not (is_quote c)) s ≡ true)
fits_bare q s z h = ground arith

after_word :
    (w : Text) (rest : List Rune)
    → text_eq w [] ≡ false
    → split_from (bare w) (ascii 32 ∷ rest) ≡ w ∷ split_from between rest
unfolding split_from split_step
after_word w rest h = rw (has_arg-bare w h) refl

split_from-quote_arg :
    (q : ℕ) (s : Text)
    → fits q s ≡ true
    → split_from between (runes (quote_arg s q)) ≡ respelled s ∷ []
unfolding quote_arg
split_from-quote_arg q s h = elim (Bool-cases (q == 0)) [
  | inr z ↦
      let f : (is_quote q ≡ true) × (every (λ c. not (c == q)) s ≡ true) = fits_quoted q s z h in
      rw z (split_from-in_quotes q s f.0 f.1)
  | inl z ↦
      let f : (text_eq s [] ≡ false) × (every (λ c. not (is_quote c)) s ≡ true) =
        fits_bare q s z h in
      rw z (elim (Bool-cases (has_blank s)) [
        | inl b ↦ rw b (split_from-in_quotes 39 s refl (no_quote s f.1))
        | inr b ↦ rw b (bare_arg s f.0 (no_blank s b f.1))
      ])
]

-- A command's name, a blank, and what follows.
split_from-command :
    (w rest : Text)
    → is_word w ≡ true
    → split_from between (runes (w ++ 32 ∷ rest)) ≡ respelled w ∷ split_from between (runes rest)
split_from-command w rest h =
    let f : (text_eq w [] ≡ false) × (every (λ c. not (is_quote c) && not (is_blank c)) w ≡ true) =
      ground arith in
    ap (split_from between) (runes-append w rest 32 (omega arith))
    ∙ split_from-bare (runes w) [] (ascii 32 ∷ runes rest)
        (every_ascii-runes (λ c. not (is_quote c) && not (is_blank c)) w f.1)
    ∙ after_word (respelled w) (runes rest) (respelled_empty w f.0)

-- What Tab puts back after a command's name: Enter reads the name and, as one argument, the completed
-- text, each with U+FFFD for every byte in it that is not UTF-8, whatever quotes the argument was
-- opened with, where the text fits into them and there is nothing to trim.
pub split_args-put_back :
    ⦃str : Strings⦄ (name line s : Text) (arg : PathArg)
    → is_word name ≡ true
    → take arg.start line ≡ name ++ codes " "
    → fits arg.quote s ≡ true
    → str.trim (put_back line arg s) ≡ put_back line arg s
    → split_args (put_back line arg s) ≡ respelled name ∷ respelled s ∷ []
unfolding split_args put_back
split_args-put_back name line s arg word typed fit t =
    let whole : take arg.start line ++ quote_arg s arg.quote ≡ name ++ 32 ∷ quote_arg s arg.quote =
      ap (λ l. l ++ quote_arg s arg.quote) typed
      ∙ append_assoc name (32 ∷ []) (quote_arg s arg.quote) in
    rw t (
      ap (λ l. split_from between (runes l)) whole
      ∙ (split_from-command name (quote_arg s arg.quote) word
          ∙ ap (λ ts. respelled name ∷ ts) (split_from-quote_arg arg.quote s fit)))
