-- ===== src/Tui/Pieces/Worst.antt =====
-- Each cell of the map shows the worst state among its pieces, as if the runs were expanded.
use torrnado.Common.{
  ℕ, zero, suc, ◌+◌, ◌<◌, ◌≤◌, max, ◌≡◌, refl, sym, ap, ◌∙◌, List, [], ◌∷◌, ◌++◌, arith, ltb, ◌==◌,
  if◌then◌else◌, inl, inr, length, get_or, set, replicate, length-set, length-replicate, Bool-cases,
  ==_iff,
}
use torrnado.Tui.Pieces.{
  PieceRun, CellState, cell_complete, run_state, cell_of, raise_cell, paint, walk, downsample,
}

-- The state of every piece that the runs describe, in order.
unfoldable pub states : List PieceRun → List CellState
states [] = []
states (run ∷ runs) = replicate run.length (run_state run) ++ states runs

-- The worst state among the pieces of a cell, from the piece with this number on; pieces past the
-- torrent's number do not count.
unfoldable pub worst_from : ℕ → ℕ → ℕ → ℕ → List CellState → CellState
worst_from num_pieces cells c piece [] = cell_complete
worst_from num_pieces cells c piece (st ∷ sts) =
    let rest = worst_from num_pieces cells c (piece + 1) sts in
    if ltb piece num_pieces
    then max (if cell_of num_pieces cells piece == c then st else cell_complete) rest
    else cell_complete

get_or-set :
    (out : List CellState) (i c : ℕ) (st : CellState)
    → i < length out
    → get_or (set out i st) c 0 ≡ (if i == c then st else get_or out c 0)
get_or-set [] i c st h = absurd (omega arith)
get_or-set (x ∷ out) zero zero st h = ground arith
get_or-set (x ∷ out) zero (suc c) st h = ground arith
get_or-set (x ∷ out) (suc i) zero st h = ground arith
get_or-set (x ∷ out) (suc i) (suc c) st h = ground (arith, get_or-set out i c st)

length-raise_cell :
    (c : ℕ) (st : CellState) (out : List CellState) → length (raise_cell c st out) ≡ length out
unfolding raise_cell
length-raise_cell c st out = ground (arith, length-set out c st)

get_or-raise_cell :
    (out : List CellState) (i c : ℕ) (st : CellState)
    → i < length out
    → get_or (raise_cell i st out) c 0 ≡ max (get_or out c 0) (if i == c then st else cell_complete)
unfolding raise_cell
get_or-raise_cell out i c st h = elim (Bool-cases (i == c)) [
  | inl e ↦
      ground (arith, get_or-set out i c st h, ap (λ (k : ℕ). get_or out k 0) ((==_iff i c).0 e))
  | inr e ↦ ground (arith, get_or-set out i c st h)
]

cell_of-lt : (num_pieces cells piece : ℕ) → 0 < cells → cell_of num_pieces cells piece < cells
unfolding cell_of
cell_of-lt num_pieces cells piece h = ground arith

-- The loops, over the expanded states.
each : ℕ → ℕ → List CellState → ℕ → List CellState → List CellState
each num_pieces cells [] piece out = out
each num_pieces cells (st ∷ sts) piece out =
    let rest =
      each num_pieces cells sts (piece + 1) (raise_cell (cell_of num_pieces cells piece) st out) in
    if ltb piece num_pieces then rest else out

each_past :
    (num_pieces cells : ℕ) (sts : List CellState) (piece : ℕ) (out : List CellState)
    → num_pieces ≤ piece
    → each num_pieces cells sts piece out ≡ out
unfolding each
each_past num_pieces cells [] piece out h = refl
each_past num_pieces cells (st ∷ sts) piece out h = ground arith

-- A run painted, and the rest after it.
abbrev after : ℕ → ℕ → List CellState → ℕ × List CellState → List CellState
after num_pieces cells sts (piece, out) = each num_pieces cells sts piece out

each-paint :
    (num_pieces cells : ℕ) (st : CellState) (k : ℕ) (sts : List CellState) (piece : ℕ)
    (out : List CellState)
    → each num_pieces cells (replicate k st ++ sts) piece out
      ≡ after num_pieces cells sts (paint num_pieces cells st k piece out)
unfolding each paint
each-paint num_pieces cells st zero sts piece out = refl
each-paint num_pieces cells st (suc k) sts piece out = elim (Bool-cases (ltb piece num_pieces)) [
  | inl b ↦ rw b (
      each-paint num_pieces cells st k sts (piece + 1)
        (raise_cell (cell_of num_pieces cells piece) st out))
  | inr b ↦ rw b (sym (each_past num_pieces cells sts piece out (ground arith)))
]

walk-each :
    (num_pieces cells : ℕ) (runs : List PieceRun) (p : ℕ × List CellState)
    → walk num_pieces cells runs p ≡ after num_pieces cells (states runs) p
unfolding walk states each
walk-each num_pieces cells [] (piece, out) = refl
walk-each num_pieces cells (run ∷ runs) (piece, out) =
    walk-each num_pieces cells runs (paint num_pieces cells (run_state run) run.length piece out)
    ∙ sym (each-paint num_pieces cells (run_state run) run.length (states runs) piece out)

length-each :
    (num_pieces cells : ℕ) (sts : List CellState) (piece : ℕ) (out : List CellState)
    → length (each num_pieces cells sts piece out) ≡ length out
unfolding each
length-each num_pieces cells [] piece out = refl
length-each num_pieces cells (st ∷ sts) piece out = ground (
  arith,
  length-each num_pieces cells sts (piece + 1) (raise_cell (cell_of num_pieces cells piece) st out),
  length-raise_cell (cell_of num_pieces cells piece) st out,
)

get_or-each :
    (num_pieces cells c : ℕ) (sts : List CellState) (piece : ℕ) (out : List CellState)
    → 0 < cells
    → length out ≡ cells
    → get_or (each num_pieces cells sts piece out) c 0
      ≡ max (get_or out c 0) (worst_from num_pieces cells c piece sts)
unfolding each worst_from
get_or-each num_pieces cells c [] piece out pos len = omega arith
get_or-each num_pieces cells c (st ∷ sts) piece out pos len =
    let at = cell_of num_pieces cells piece in
    let below = cell_of-lt num_pieces cells piece pos in
    ground (
      arith,
      get_or-each num_pieces cells c sts (piece + 1) (raise_cell at st out) pos
          (length-raise_cell at st out ∙ len),
      get_or-raise_cell out at c st (omega arith),
    )

get_or-replicate : (n c : ℕ) → get_or (replicate n cell_complete) c 0 ≡ 0
get_or-replicate zero c = refl
get_or-replicate (suc n) zero = refl
get_or-replicate (suc n) (suc c) = get_or-replicate n c

-- The map has as many cells as were asked for, and each shows the worst state among the pieces that
-- fall to it, all pieces of the runs taken one by one.
pub downsample_worst :
    (runs : List PieceRun) (num_pieces cells c : ℕ)
    → 0 < cells
    → (length (downsample runs num_pieces cells) ≡ cells)
      × (get_or (downsample runs num_pieces cells) c 0
          ≡ worst_from num_pieces cells c 0 (states runs))
unfolding downsample
downsample_worst runs num_pieces cells c pos =
    let blank = replicate cells cell_complete in
    let same = walk-each num_pieces cells runs (0, blank) in
    rw same (
      length-each num_pieces cells (states runs) 0 blank ∙ length-replicate cells cell_complete,
      get_or-each num_pieces cells c (states runs) 0 blank pos
            (length-replicate cells cell_complete)
          ∙ omega (arith, get_or-replicate cells c),
    )
