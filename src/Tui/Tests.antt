-- ===== src/Tui/Tests.antt =====
-- The theorems about internal/tui at concrete inputs.
pub mod Client
pub mod Complete
use torrnado.Common.{◌≡◌, refl, true, false, List, [], ◌∷◌, arith, length, get_or}
use torrnado.Tui.Layout.{layout}
use torrnado.Tui.Layout.Fits.{IsTiling, layout-IsTiling}
use torrnado.Tui.Pieces.{PieceRun, downsample}
use torrnado.Tui.Pieces.Worst.{downsample_worst, states, worst_from}

-- Three pieces that are complete and two that are missing.
abbrev two_runs : List PieceRun
two_runs =
    record { length = 3; known = true; complete = true; partial = false; checking = false }
    ∷ record { length = 2; known = true; complete = false; partial = false; checking = false }
    ∷ []

downsampled : downsample two_runs 5 2 ≡ 0 ∷ 4 ∷ []
unfolding downsample
downsampled = refl

downsample_worst_example :
    (length (downsample two_runs 5 2) ≡ 2)
    × (get_or (downsample two_runs 5 2) 1 0 ≡ worst_from 5 2 1 0 (states two_runs))
downsample_worst_example = downsample_worst two_runs 5 2 1 (omega arith)

layout-IsTiling_example : IsTiling 80 24 (layout 80 24)
layout-IsTiling_example = layout-IsTiling 80 24 (omega arith) (omega arith)
