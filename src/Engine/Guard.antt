-- ===== src/Engine/Guard.antt =====
-- The guards of internal/engine/engine.go: `refreshVPN` and `refreshDisk`.
use torrnado.Common.{
  ◌≡◌, refl, true, false, not, Option, none, some, [], arith, if◌then◌else◌, inl, inr, ◌↔◌,
  Bool-cases, Option-cases,
}
use mathlib.Core.Option.{some-injective}
use torrnado.Common.Text.{codes}
use torrnado.Common.Int64
use torrnado.Common.Int64.{Int64}
use torrnado.Engine.Library.{Float64, TorrentLib}
use torrnado.Engine.State.{Engine, VpnStatus}

module _ ⦃fl : Float64⦄ ⦃lib : TorrentLib⦄ where
  -- A daemon with no check configured can verify nothing.
  abbrev no_check : VpnStatus
  no_check = record { active = false; interface = []; reason = codes "no VPN check configured" }

  unfoldable pub vpn_status : Option VpnStatus → VpnStatus
  vpn_status none = no_check
  vpn_status (some st) = st

  unfoldable pub refresh_vpn : Engine → Engine
  unfolding vpn_status
  refresh_vpn e = if not e.cfg.require_vpn then e else record e {
    vpn = vpn_status e.machine.vpn_check;
    blocked = not (vpn_status e.machine.vpn_check).active;
    vpn_checked = true;
  }

  unfoldable pub refresh_disk : Engine → Engine
  refresh_disk e = if Int64.is_nonpos e.cfg.min_free_space then e else elim e.machine.disk_free [
    | none ↦ e
    | some free ↦ record e {
      low_disk = Int64.lt free e.cfg.min_free_space;
      disk_free = free;
      disk_checked = true;
    }
  ]

  vpn_status_active :
      (o : Option VpnStatus)
      → (not (vpn_status o).active ≡ false)
        ↔ ((st : VpnStatus) × (o ≡ some st) × (st.active ≡ true))
  unfolding vpn_status
  vpn_status_active none = ((λ h. cc), λ (st, p, a). cc)
  vpn_status_active (some st) =
      ((λ h. (st, refl, ground arith)), λ (st', p, a). rw (some-injective st st' p, a))

  -- The VPN guard fails closed: where a VPN is required, the check leaves transfers allowed exactly if
  -- there is a check to call and it says that a VPN is active.
  pub refresh_vpn_fails_closed :
      (e : Engine)
      → e.cfg.require_vpn ≡ true
      → ((refresh_vpn e).blocked ≡ false)
        ↔ ((st : VpnStatus) × (e.machine.vpn_check ≡ some st) × (st.active ≡ true))
  unfolding refresh_vpn
  refresh_vpn_fails_closed e h = rw h (vpn_status_active e.machine.vpn_check)

  -- The disk guard fails open: transfers that were not held for want of space become so only on a
  -- reading of the free space that is below a floor greater than zero, never on a reading that fails.
  pub refresh_disk_fails_open :
      (e : Engine)
      → e.low_disk ≡ false
      → (refresh_disk e).low_disk ≡ true
      → (free : Int64) × (e.machine.disk_free ≡ some free)
        × (Int64.is_nonpos e.cfg.min_free_space ≡ false)
        × (Int64.lt free e.cfg.min_free_space ≡ true)
  unfolding refresh_disk
  refresh_disk_fails_open e was h = elim (Bool-cases (Int64.is_nonpos e.cfg.min_free_space)) [
    | inl p ↦ let h' = rw p at h in cc
    | inr p ↦ elim (Option-cases e.machine.disk_free) [
      | inl q ↦ let h' = rw (p, q) at h in cc
      | inr (free, q) ↦ (free, q, p, rw (p, q) at h)
    ]
  ]
