-- ===== src/Engine/Check/Serial.antt =====
-- The checks of one torrent that are begun one at a time, and what a second one does to the first.
use torrnado.Common.{
  ℕ, ◌+◌, ◌≤◌, ◌≡◌, ◌≢◌, refl, true, false, some, List, [], ◌∷◌, ◌++◌, arith, ◌==◌, All,
}
use torrnado.Engine.State.{Check, Run, idle}
use torrnado.Engine.Check.{
  cancel_check_locked, begin_check, end_check, quiesce_check, after_hash, round, Step, begins,
  cancels, hashes, ends, hashed,
}

-- At most one goroutine runs, the torrent shows its progress, and the cancel at hand is its own.
pub data Serial : Check → Type 0 where
  quiet : Serial idle
  busy :
      (r : Run)
      → r.at ≤ r.total
      → Serial (record {
        cancel_check = some r.ctx;
        checking = true;
        check_done = r.at;
        check_total = r.total;
        running = r ∷ [];
      })

-- A check begins only when none is running.
abbrev pub BeginsIdle : {c c' : Check} → Step c c' → Type 0
BeginsIdle (begins c ctx total) = c ≡ idle
BeginsIdle _ = Unit

none_at : (before : List Run) (r : Run) (rest : List Run) → [] ≢ before ++ r ∷ rest
none_at [] r rest p = cc
none_at (b ∷ bs) r rest p = cc

only_one :
    (before : List Run) (r r' : Run) (rest : List Run) → r ∷ [] ≡ before ++ r' ∷ rest → r ≡ r'
only_one [] r r' rest p = cc
only_one (b ∷ bs) r r' rest p = elim (none_at bs r' rest (cc)) [ ]

same : (n : ℕ) → (n == n) ≡ true
same n = ground arith

differ : (a b : ℕ) → a ≢ b → (b == a) ≡ false
differ a b n = ground arith

begin-Serial : (ctx total : ℕ) → Serial (begin_check ctx total idle)
unfolding begin_check
begin-Serial ctx total =
    busy (record { ctx = ctx; total = total; at = 0; cancelled = false }) (omega arith)

cancel-Serial : {c : Check} → Serial c → Serial (cancel_check_locked c)
unfolding cancel_check_locked
cancel-Serial quiet = quiet
cancel-Serial (busy r le) = rw (same r.ctx) (busy (record r { cancelled = true }) le)

more : (r : Run) → round false r ≡ hashed → r.at + 1 ≤ r.total
unfolding round
more r q = ground arith

hash-Serial :
    {c : Check} (before : List Run) (r : Run) (rest : List Run)
    → Serial c
    → c.running ≡ before ++ r ∷ rest
    → round false r ≡ hashed
    → Serial (after_hash r c)
unfolding after_hash
hash-Serial before r rest quiet p q = elim (none_at before r rest p) [ ]
hash-Serial before r rest (busy r0 le) p q =
    let e = only_one before r0 r rest p in
    rw⁻¹ e (rw (same r0.ctx) (busy (record r0 { at = r0.at + 1 }) (more r0 (rw e q))))

end-Serial :
    {c : Check} (before : List Run) (r : Run) (rest : List Run)
    → Serial c
    → c.running ≡ before ++ r ∷ rest
    → Serial (end_check r.ctx c)
unfolding end_check
end-Serial before r rest quiet p = elim (none_at before r rest p) [ ]
end-Serial before r rest (busy r0 le) p =
    rw⁻¹ (only_one before r0 r rest p) (rw (same r0.ctx) quiet)

-- While checks begin only where none is running, every step keeps the checks of a torrent serial: one
-- goroutine at most, whose own context is the one at hand to cancel, and whose progress is shown and
-- is within its total; and with it gone, nothing is shown.
pub step-Serial : {c c' : Check} (s : Step c c') → BeginsIdle s → Serial c → Serial c'
step-Serial (begins c ctx total) b h = rw b (begin-Serial ctx total)
step-Serial (cancels c) b h = cancel-Serial h
step-Serial (hashes c before r rest p q) b h = hash-Serial before r rest h p q
step-Serial (ends c before r rest fails p q) b h = end-Serial before r rest h p

-- A cancel then reaches every goroutine that runs.
pub cancel-Serial-All :
    {c : Check} → Serial c → All (λ (r : Run). r.cancelled ≡ true) (cancel_check_locked c).running
unfolding cancel_check_locked
cancel-Serial-All quiet = tt
cancel-Serial-All (busy r le) = rw (same r.ctx) (refl, tt)

-- A check that is begun while another runs cancels it, and is left running alone when that one ends;
-- but the end of the first takes away the cancel and the progress of the second, so that no cancel
-- reaches it any more and the torrent is not shown as checking.
pub restart_loses_cancel :
    (r : Run) (ctx total : ℕ)
    → r.ctx ≢ ctx
    → (c : Check) → c.cancel_check ≡ some r.ctx
    → c.running ≡ r ∷ []
    → (let c' = end_check r.ctx (begin_check ctx total c) in
        (cancel_check_locked c' ≡ c')
        × (c'.checking ≡ false)
        × (c'.running ≡ record { ctx = ctx; total = total; at = 0; cancelled = false } ∷ []))
unfolding cancel_check_locked begin_check end_check
restart_loses_cancel r ctx total n c p q =
    rw (p, q, differ r.ctx ctx n, same r.ctx, same r.ctx) (refl, refl, refl)

-- Quiescing serial checks leaves none running and nothing shown.
pub quiesce-Serial : {c : Check} → Serial c → quiesce_check c ≡ idle
unfolding quiesce_check cancel_check_locked end_check
quiesce-Serial quiet = refl
quiesce-Serial (busy r le) = rw (same r.ctx, same r.ctx) refl
