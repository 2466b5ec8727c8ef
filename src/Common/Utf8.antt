-- ===== src/Common/Utf8.antt =====
-- Go's `range` over a string, and `WriteRune`: the runes of the bytes, by the table of the language's
-- UTF-8, with U+FFFD for each byte that begins none.
use Prim.Native.Nat.{ℕ, zero, suc, ◌≤◌, ◌<◌}
use mathlib.Core.Path.{◌≡◌, refl, ap}
use mathlib.Core.Logic.{inl, inr}
use mathlib.Core.Bool.{Bool, true, false, not, ◌&&◌}
use mathlib.Core.List.{List, [], ◌∷◌, ◌++◌}
use native.Mathlib.Omega.{arith}
use torrnado.Common.Tests.{◌==◌, ltb, leb, if◌then◌else◌, Bool-cases}
use torrnado.Common.Lists.{length, take}
use torrnado.Common.Text.{Text, text_eq, every}

-- A rune: a character of one byte, or the bytes that `WriteRune` writes of any other.
pub data Rune : Type 0 where
  ascii : ℕ → Rune
  wide : Text → Rune

-- How many bytes a first byte asks for after it, none where it is not the first of several, and the
-- bounds of the next one.
unfoldable pub more : ℕ → ℕ
more a =
    if leb 194 a && leb a 223
    then 1
    else if leb 224 a && leb a 239
    then 2
    else if leb 240 a && leb a 244
    then 3
    else 0

unfoldable pub low : ℕ → ℕ
low a = if a == 224 then 160 else if a == 240 then 144 else 128

unfoldable pub high : ℕ → ℕ
high a = if a == 237 then 159 else if a == 244 then 143 else 191

-- Whether as many bytes follow, the first between these bounds and the others between 128 and 191.
unfoldable pub follows : ℕ → ℕ → ℕ → Text → Bool
follows lo hi zero s = true
follows lo hi (suc n) [] = false
follows lo hi (suc n) (b ∷ s) = leb lo b && leb b hi && follows 128 191 n s

unfoldable pub is_multi : ℕ → Text → Bool
unfolding more low high follows
is_multi a s = not (more a == 0) && follows (low a) (high a) (more a) s

-- The runes after so many bytes.
unfoldable pub runes_from : ℕ → Text → List Rune
unfolding is_multi more
runes_from k [] = []
runes_from (suc k) (a ∷ s) = runes_from k s
runes_from zero (a ∷ s) =
    let next = runes_from 0 s in
    let later = runes_from (more a) s in
    if ltb a 128
    then ascii a ∷ next
    else if is_multi a s
    then wide (a ∷ take (more a) s) ∷ later
    else wide (239 ∷ 191 ∷ 189 ∷ []) ∷ next

abbrev pub runes : Text → List Rune
runes s = runes_from 0 s

unfoldable pub spell : Rune → Text
spell (ascii c) = c ∷ []
spell (wide s) = s

unfoldable pub spelled : List Rune → Text
unfolding spell
spelled [] = []
spelled (r ∷ rs) = spell r ++ spelled rs

-- A string as it is once each of its runes was written: itself, if it is UTF-8.
abbrev pub respelled : Text → Text
respelled s = spelled (runes s)

take-append : (n : ℕ) (s t : Text) → n ≤ length s → take n (s ++ t) ≡ take n s
take-append zero s t h = refl
take-append (suc n) [] t h = absurd (omega arith)
take-append (suc n) (a ∷ s) t h = ap (λ u. a ∷ u) (take-append n s t (omega arith))

follows-length : (lo hi n : ℕ) (s : Text) → follows lo hi n s ≡ true → n ≤ length s
unfolding follows
follows-length lo hi zero s h = omega arith
follows-length lo hi (suc n) [] h = cc
follows-length lo hi (suc n) (b ∷ s) h =
    let later : follows 128 191 n s ≡ true = ground arith in
    let le = follows-length 128 191 n s later in omega arith

-- A byte below 128 continues no rune.
follows-append :
    (lo hi n : ℕ) (s t : Text) (x : ℕ)
    → 128 ≤ lo
    → x < 128
    → follows lo hi n (s ++ x ∷ t) ≡ follows lo hi n s
unfolding follows
follows-append lo hi zero s t x l h = refl
follows-append lo hi (suc n) [] t x l h = ground arith
follows-append lo hi (suc n) (b ∷ s) t x l h =
    ap (λ r. leb lo b && leb b hi && r) (follows-append 128 191 n s t x (omega arith) h)

low_bound : (a : ℕ) → 128 ≤ low a
unfolding low
low_bound a = ground arith

is_multi-append : (a : ℕ) (s t : Text) (x : ℕ) → x < 128 → is_multi a (s ++ x ∷ t) ≡ is_multi a s
unfolding is_multi
is_multi-append a s t x h =
    ap (λ r. not (more a == 0) && r)
      (follows-append (low a) (high a) (more a) s t x (low_bound a) h)

is_multi-length : (a : ℕ) (s : Text) → is_multi a s ≡ true → more a ≤ length s
unfolding is_multi
is_multi-length a s h = follows-length (low a) (high a) (more a) s (ground arith)

pub runes-ascii : (x : ℕ) (t : Text) → x < 128 → runes (x ∷ t) ≡ ascii x ∷ runes t
unfolding runes_from
runes-ascii x t h = let b : ltb x 128 ≡ true = ground arith in rw b refl

-- The runes of a text are those of what is before a byte below 128 and of what follows.
runes_from-append :
    (k : ℕ) (s t : Text) (x : ℕ)
    → x < 128
    → k ≤ length s
    → runes_from k (s ++ x ∷ t) ≡ runes_from k s ++ ascii x ∷ runes t
unfolding runes_from
runes_from-append zero [] t x h le = runes-ascii x t h
runes_from-append (suc k) [] t x h le = absurd (omega arith)
runes_from-append (suc k) (a ∷ s) t x h le = runes_from-append k s t x h (omega arith)
runes_from-append zero (a ∷ s) t x h le = elim (Bool-cases (ltb a 128)) [
  | inl b ↦ rw b (ap (λ rs. ascii a ∷ rs) (runes_from-append 0 s t x h (omega arith)))
  | inr b ↦ elim (Bool-cases (is_multi a s)) [
    | inl m ↦
        let enough = is_multi-length a s m in
        rw (b, is_multi-append a s t x h, m, take-append (more a) s (x ∷ t) enough)
          (ap (λ rs. wide (a ∷ take (more a) s) ∷ rs) (runes_from-append (more a) s t x h enough))
    | inr m ↦
        rw (b, is_multi-append a s t x h, m)
          (ap (λ rs. wide (239 ∷ 191 ∷ 189 ∷ []) ∷ rs) (runes_from-append 0 s t x h (omega arith)))
  ]
]

pub runes-append :
    (s t : Text) (x : ℕ) → x < 128 → runes (s ++ x ∷ t) ≡ runes s ++ ascii x ∷ runes t
runes-append s t x h = runes_from-append 0 s t x h (omega arith)

-- A test of the characters of one byte.
unfoldable pub every_ascii : (ℕ → Bool) → List Rune → Bool
every_ascii p [] = true
every_ascii p (ascii c ∷ rs) = p c && every_ascii p rs
every_ascii p (wide s ∷ rs) = every_ascii p rs

every_ascii-runes_from :
    (p : ℕ → Bool) (k : ℕ) (s : Text) → every p s ≡ true → every_ascii p (runes_from k s) ≡ true
unfolding every every_ascii runes_from
every_ascii-runes_from p k [] h = refl
every_ascii-runes_from p (suc k) (a ∷ s) h = every_ascii-runes_from p k s (ground arith)
every_ascii-runes_from p zero (a ∷ s) h =
    let later : every p s ≡ true = ground arith in
    let own : p a ≡ true = ground arith in
    elim (Bool-cases (ltb a 128)) [
      | inl b ↦ rw (b, own) (every_ascii-runes_from p 0 s later)
      | inr b ↦ elim (Bool-cases (is_multi a s)) [
        | inl m ↦ rw (b, m) (every_ascii-runes_from p (more a) s later)
        | inr m ↦ rw (b, m) (every_ascii-runes_from p 0 s later)
      ]
    ]

pub every_ascii-runes :
    (p : ℕ → Bool) (s : Text) → every p s ≡ true → every_ascii p (runes s) ≡ true
every_ascii-runes p s h = every_ascii-runes_from p 0 s h

pub respelled_empty : (s : Text) → text_eq s [] ≡ false → text_eq (respelled s) [] ≡ false
unfolding text_eq spelled runes_from spell
respelled_empty [] h = cc
respelled_empty (a ∷ s) h = elim (Bool-cases (ltb a 128)) [
  | inl b ↦ rw b refl
  | inr b ↦ elim (Bool-cases (is_multi a s)) [ inl m ↦ rw (b, m) refl | inr m ↦ rw (b, m) refl ]
]
