-- ===== src/Engine/Check.antt =====
-- The hash checks of internal/engine/ops.go: `beginCheck` and the function that it returns, one
-- round of `verifyPieces`, and the cancel. Contexts are numbered, and a check's goroutine is a `Run`.
pub mod Serial
use torrnado.Common.{
  ℕ, ◌+◌, ◌≡◌, ◌≢◌, Bool, true, false, none, some, List, [], ◌∷◌, ◌++◌, ◌==◌, leb, if◌then◌else◌,
}
use torrnado.Engine.State.{Check, Run}

-- Cancelling a context: the goroutine that runs under it will see it at its next round.
unfoldable pub cancel_ctx : ℕ → List Run → List Run
cancel_ctx c [] = []
cancel_ctx c (r ∷ rs) = (if r.ctx == c then record r { cancelled = true } else r) ∷ cancel_ctx c rs

unfoldable pub drop_run : ℕ → List Run → List Run
drop_run c [] = []
drop_run c (r ∷ rs) = let rest = drop_run c rs in if r.ctx == c then rest else r ∷ rest

-- `cancelCheckLocked`
unfoldable pub cancel_check_locked : Check → Check
unfolding cancel_ctx
cancel_check_locked c = elim c.cancel_check [
  | none ↦ c
  | some ctx ↦ record c { running = cancel_ctx ctx c.running }
]

-- `beginCheck`, with the new context `ctx`.
unfoldable pub begin_check : ℕ → ℕ → Check → Check
unfolding cancel_check_locked
begin_check ctx total c =
    let c' = cancel_check_locked c in
    record c' {
      cancel_check = some ctx;
      checking = true;
      check_done = 0;
      check_total = total;
      running = record { ctx = ctx; total = total; at = 0; cancelled = false } ∷ c'.running;
    }

-- The function that `beginCheck` returns: `cancel()`, the reset and `checkWG.Done()`.
unfoldable pub end_check : ℕ → Check → Check
unfolding drop_run
end_check ctx c = record c {
  cancel_check = none;
  checking = false;
  check_done = 0;
  check_total = 0;
  running = drop_run ctx c.running;
}

-- How one round of the loop of `verifyPieces` ends.
pub data Outcome : Type 0 where
  -- `ctx.Err()`, or `VerifyDataContext` giving up: the loop returns `context.Canceled`
  cancelled : Outcome
  -- the library reports another error
  failed : Outcome
  -- the loop is through
  finished : Outcome
  -- a piece was hashed
  hashed : Outcome

-- What a round does, given whether hashing the piece would fail.
unfoldable pub round : Bool → Run → Outcome
round fails r =
    if leb r.total r.at
    then finished
    else if r.cancelled
    then cancelled
    else if fails
    then failed
    else hashed

-- The write of `tr.checkDone`, and the next turn of the loop.
unfoldable pub advance : ℕ → ℕ → List Run → List Run
advance ctx n [] = []
advance ctx n (r ∷ rs) = (if r.ctx == ctx then record r { at = n } else r) ∷ advance ctx n rs

unfoldable pub after_hash : Run → Check → Check
unfolding advance
after_hash r c = record c { check_done = r.at + 1; running = advance r.ctx (r.at + 1) c.running }

-- `quiesceCheck`: cancel, and wait until every goroutine of the torrent has ended its check.
unfoldable pub end_all : List Run → Check → Check
end_all [] c = c
end_all (r ∷ rs) c = end_all rs (end_check r.ctx c)

unfoldable pub quiesce_check : Check → Check
unfolding end_all
quiesce_check c = let c' = cancel_check_locked c in end_all c'.running c'

-- What can happen to the checks of one torrent: a recheck or a move begins one, a pause, a removal
-- or a shutdown cancels, and a goroutine does a round of its loop.
pub data Step : Check → Check → Type 0 where
  begins : (c : Check) (ctx total : ℕ) → Step c (begin_check ctx total c)
  cancels : (c : Check) → Step c (cancel_check_locked c)
  hashes :
      (c : Check) (before : List Run) (r : Run) (rest : List Run)
      → c.running ≡ before ++ r ∷ rest
      → round false r ≡ hashed
      → Step c (after_hash r c)
  ends :
      (c : Check) (before : List Run) (r : Run) (rest : List Run) (fails : Bool)
      → c.running ≡ before ++ r ∷ rest
      → round fails r ≢ hashed
      → Step c (end_check r.ctx c)
