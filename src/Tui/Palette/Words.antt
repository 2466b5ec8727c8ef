-- ===== src/Tui/Palette/Words.antt =====
-- Quotes on the command line of internal/tui/palette.go.
use torrnado.Common.{
  ℕ, ◌≡◌, ◌<◌, refl, ap, ◌∙◌, Bool, true, false, not, List, [], ◌∷◌, ◌++◌, map, arith, ◌==◌,
  append_assoc, append-nil, All,
}
use torrnado.Common.Text.{Text, codes, text_eq, join, every}
use torrnado.Common.Utf8.{
  Rune, ascii, wide, runes, spelled, spell, respelled, every_ascii, every_ascii-runes, runes_from,
  runes-append, runes-ascii,
}
use torrnado.Indexer.Result.{Strings}
use torrnado.Tui.Palette.{Splitter, between, split_from, split_args}

abbrev pub is_plain : ℕ → Bool
is_plain c = not (c == 39)

-- A word in single quotes.
abbrev pub quoted : Text → Text
quoted w = 39 ∷ w ++ 39 ∷ []

abbrev pub inside : ℕ → Text → Splitter
inside q c = record { quote = q; started = true; cur = c }

abbrev pub ended : Text → Splitter
ended c = record { quote = 0; started = true; cur = c }

pub split_from-quoted :
    (q : ℕ) (w : List Rune) (c : Text) (s : List Rune)
    → (q == 0) ≡ false
    → every_ascii (λ x. not (x == q)) w ≡ true
    → split_from (inside q c) (w ++ ascii q ∷ s) ≡ split_from (ended (c ++ spelled w)) s
unfolding split_from every_ascii spelled spell
split_from-quoted q [] c s z h =
    let same : (q == q) ≡ true = ground arith in rw (z, same, append-nil c) refl
split_from-quoted q (ascii x ∷ w) c s z h =
    let other : (x == q) ≡ false = ground arith in
    let later : every_ascii (λ x. not (x == q)) w ≡ true = ground arith in
    rw (z, other)
      (split_from-quoted q w (c ++ x ∷ []) s z later
        ∙ ap (λ t. split_from (ended t) s) (append_assoc c (x ∷ []) (spelled w)))
split_from-quoted q (wide bytes ∷ w) c s z h =
    split_from-quoted q w (c ++ bytes) s z h
    ∙ ap (λ t. split_from (ended t) s) (append_assoc c bytes (spelled w))

-- A text in quotes, and what follows.
pub runes_quoted :
    (q : ℕ) (w rest : Text)
    → q < 128
    → runes (q ∷ (w ++ q ∷ rest)) ≡ ascii q ∷ (runes w ++ ascii q ∷ runes rest)
runes_quoted q w rest h =
    runes-ascii q (w ++ q ∷ rest) h ∙ ap (λ rs. ascii q ∷ rs) (runes-append w rest q h)

quoted-append : (w rest : Text) → quoted w ++ codes " " ++ rest ≡ 39 ∷ (w ++ 39 ∷ 32 ∷ rest)
quoted-append w rest = simp append_assoc

split_from-words :
    (ws : List Text)
    → All (λ w. every is_plain w ≡ true) ws
    → split_from between (runes (join (codes " ") (map quoted ws))) ≡ map respelled ws
unfolding split_from join text_eq runes_from
split_from-words [] h = refl
split_from-words (w ∷ []) (p, h) =
    ap (split_from between) (runes_quoted 39 w [] (omega arith))
    ∙ split_from-quoted 39 (runes w) [] [] refl (every_ascii-runes is_plain w p)
split_from-words (w ∷ v ∷ ws) (p, h) =
    let rest = join (codes " ") (map quoted (v ∷ ws)) in
    ap (λ l. split_from between (runes l)) (quoted-append w rest)
    ∙ ap (split_from between) (runes_quoted 39 w (32 ∷ rest) (omega arith))
    ∙ split_from-quoted 39 (runes w) [] (ascii 32 ∷ runes rest) refl
        (every_ascii-runes is_plain w p)
    ∙ ap (λ ts. respelled w ∷ ts) (split_from-words (v ∷ ws) h)

-- A line of words in single quotes, none with such a quote in it, is split into these words, each
-- with U+FFFD for what is not UTF-8 in it, where `strings.TrimSpace` has nothing to trim.
pub split_args-quoted :
    ⦃str : Strings⦄ (ws : List Text)
    → All (λ w. every is_plain w ≡ true) ws
    → str.trim (join (codes " ") (map quoted ws)) ≡ join (codes " ") (map quoted ws)
    → split_args (join (codes " ") (map quoted ws)) ≡ map respelled ws
unfolding split_args
split_args-quoted ws h t = rw t (split_from-words ws h)
