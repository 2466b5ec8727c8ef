-- ===== src/Engine/Flow.antt =====
-- The switches of internal/engine/snapshot.go: `updateRates`, `dataFlow`, `flowDecision` and
-- `applyFlow`.
use torrnado.Common.{◌≡◌, Bool, true, false, ◌||◌, arith, if◌then◌else◌, ◌↔◌}
use torrnado.Common.Int64
use torrnado.Common.Int64.{Int64}
use torrnado.Engine.Library.{Float64, TorrentLib, TorrentLaws}
use torrnado.Engine.State.{Guards, any, Tracked}

module _ ⦃fl : Float64⦄ ⦃lib : TorrentLib⦄ where
  -- `updateRates`; a rate is the change of a counter since the last reading over the time between.
  unfoldable pub update_rates : fl.Float → Tracked → Tracked
  update_rates elapsed tr = if fl.le elapsed fl.zero then tr else record tr {
    last_down_bps = speed (lib.bytes_read tr.t) tr.last_downloaded;
    last_up_bps = speed (lib.bytes_written tr.t) tr.last_uploaded;
    last_downloaded = lib.bytes_read tr.t;
    last_uploaded = lib.bytes_written tr.t;
  }
    where
      speed : Int64 → Int64 → fl.Float
      speed now before = fl.max fl.zero (fl.div (fl.of_int64 (Int64.sub now before)) elapsed)

  -- `dataFlow`: may the torrent download, and may it upload
  unfoldable pub data_flow : Guards → Tracked → Bool × Bool
  unfolding any
  data_flow g tr = if tr.paused || any g || tr.hold_data then (false, false) else (
    Int64.is_nonpos tr.down_limit || fl.le tr.last_down_bps (fl.of_int64 tr.down_limit),
    Int64.is_nonpos tr.up_limit || fl.le tr.last_up_bps (fl.of_int64 tr.up_limit),
  )

  unfoldable pub apply_flow : Bool × Bool → lib.Torrent → lib.Torrent
  apply_flow (down, up) t =
      let t' = if down then lib.allow_data_download t else lib.disallow_data_download t in
      if up then lib.allow_data_upload t' else lib.disallow_data_upload t'

  -- `applyFlow(tr.flowDecision(g))`: the decision is read off the torrent and its own switches are
  -- turned.
  unfoldable pub turn : Guards → Tracked → Tracked
  turn g tr = record tr { t = apply_flow (data_flow g tr) tr.t }

  -- A torrent is held: the reasons for which nothing of it may move.
  abbrev pub IsHeld : Guards → Tracked → Type 0
  IsHeld g tr = (tr.paused || any g || tr.hold_data) ≡ true

  -- Both switches are off.
  pub record IsStill (t : lib.Torrent) : Type 0 where
    pub no_download : lib.may_download t ≡ false
    pub no_upload : lib.may_upload t ≡ false

  module _ (laws : TorrentLaws lib) where
    pub apply_flow-switches :
        (d u : Bool) (t : lib.Torrent)
        → (lib.may_download (apply_flow (d, u) t) ≡ d) × (lib.may_upload (apply_flow (d, u) t) ≡ u)
    unfolding apply_flow
    apply_flow-switches d u t = ground (
      arith,
      laws.allow_download t,
      laws.disallow_download t,
      laws.allow_upload (lib.allow_data_download t),
      laws.allow_upload (lib.disallow_data_download t),
      laws.disallow_upload (lib.allow_data_download t),
      laws.disallow_upload (lib.disallow_data_download t),
      laws.download-allow_upload (lib.allow_data_download t),
      laws.download-allow_upload (lib.disallow_data_download t),
      laws.download-disallow_upload (lib.allow_data_download t),
      laws.download-disallow_upload (lib.disallow_data_download t),
    )

    -- Turning the switches leaves a held torrent still, whatever they were before.
    pub turn-IsStill : (g : Guards) (tr : Tracked) → IsHeld g tr → IsStill (turn g tr).t
    unfolding turn data_flow apply_flow
    turn-IsStill g tr h =
        let s = apply_flow-switches false false tr.t in
        record { no_download = rw h s.0; no_upload = rw h s.1 }

    -- The torrent may download after its switches were turned exactly if the user has not paused
    -- it, no guard and no operation holds it, and its last download speed is within its own limit
    -- (a limit of zero or less is none).
    pub turn-may_download :
        (g : Guards) (tr : Tracked)
        → (lib.may_download (turn g tr).t ≡ true) ↔ (
            (tr.paused ≡ false)
            × (g.vpn_blocked ≡ false)
            × (g.low_disk ≡ false)
            × (tr.hold_data ≡ false)
            × ((Int64.is_nonpos tr.down_limit || fl.le tr.last_down_bps (fl.of_int64 tr.down_limit))
                ≡ true))
    unfolding turn data_flow
    turn-may_download g tr =
        let (down, up) = data_flow g tr in rw ((apply_flow-switches down up tr.t).0) (ground arith)
