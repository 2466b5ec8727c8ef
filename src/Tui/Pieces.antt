-- ===== src/Tui/Pieces.antt =====
-- internal/tui/pieces.go: the map of a torrent's pieces.
pub mod Worst
use torrnado.Common.{
  ℕ, zero, suc, ◌+◌, ◌-◌, ◌*◌, ◌/◌, Bool, not, List, [], ◌∷◌, ltb, leb, if◌then◌else◌, get_or, set,
  replicate,
}

-- `engine.PieceRun`
pub record PieceRun : Type 0 where
  pub length : ℕ
  pub known : Bool
  pub complete : Bool
  pub partial : Bool
  pub checking : Bool

-- `cellState`, the worst last
abbrev pub CellState : Type 0
CellState = ℕ

abbrev pub cell_complete : CellState
cell_complete = 0

abbrev pub cell_checking : CellState
cell_checking = 1

abbrev pub cell_partial : CellState
cell_partial = 2

abbrev pub cell_unknown : CellState
cell_unknown = 3

abbrev pub cell_missing : CellState
cell_missing = 4

unfoldable pub run_state : PieceRun → CellState
run_state r =
    if r.complete
    then cell_complete
    else if r.checking
    then cell_checking
    else if r.partial
    then cell_partial
    else if not r.known
    then cell_unknown
    else cell_missing

-- The cell of a piece: the last one, if the division rounds past it.
unfoldable pub cell_of : ℕ → ℕ → ℕ → ℕ
cell_of num_pieces cells piece =
    let c = piece * cells / num_pieces in if leb cells c then cells - 1 else c

unfoldable pub raise_cell : ℕ → CellState → List CellState → List CellState
raise_cell c st out = if ltb (get_or out c 0) st then set out c st else out

-- The inner loop, over what is left of a run: the piece that it ends at, and the cells.
unfoldable pub paint : ℕ → ℕ → CellState → ℕ → ℕ → List CellState → ℕ × List CellState
unfolding cell_of raise_cell
paint num_pieces cells st zero piece out = (piece, out)
paint num_pieces cells st (suc left) piece out =
    let rest =
      paint num_pieces cells st left (piece + 1)
        (raise_cell (cell_of num_pieces cells piece) st out) in
    if ltb piece num_pieces then rest else (piece, out)

unfoldable pub walk : ℕ → ℕ → List PieceRun → ℕ × List CellState → List CellState
unfolding paint run_state
walk num_pieces cells [] (piece, out) = out
walk num_pieces cells (run ∷ runs) (piece, out) =
    walk num_pieces cells runs (paint num_pieces cells (run_state run) run.length piece out)

unfoldable pub downsample : List PieceRun → ℕ → ℕ → List CellState
unfolding walk
downsample runs num_pieces cells = walk num_pieces cells runs (0, replicate cells cell_complete)

-- The counts of `pieceSummary`: the verified pieces and the unknown ones.
unfoldable pub summary : List PieceRun → ℕ × ℕ
summary [] = (0, 0)
summary (run ∷ runs) =
    let (verified, unknown) = summary runs in
    if run.complete
    then (run.length + verified, unknown)
    else if not run.known
    then (verified, run.length + unknown)
    else (verified, unknown)
