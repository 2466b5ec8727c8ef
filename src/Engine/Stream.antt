-- ===== src/Engine/Stream.antt =====
-- internal/engine/ops.go: what streaming a file asks of the engine, and the caps over all torrents.
pub mod Ready
use torrnado.Common.{◌-◌, Bool, true, false, ◌||◌, not, none, leb, if◌then◌else◌, length}
use torrnado.Common.Text.{Text, codes}
use torrnado.Common.Int64
use torrnado.Common.Int64.{Int64}
use torrnado.Engine.Library.{Float64, TorrentLib}
use torrnado.Engine.Types.{Priority, from_lib_priority}
use torrnado.Engine.State.{
  Tracked, Engine, TorrentId, Result, ok, err, no_metadata, within, out_of_range,
}
use torrnado.Engine.Ops.{with_tracked, set_paused, set_file_priority}

-- The cap of a limiter; `inf` is `rate.Inf`.
pub data Cap : Type 0 where
  inf : Cap
  capped : Int64 → Cap

-- `SetGlobalUploadLimit` and `SetGlobalDownloadLimit`
unfoldable pub global_cap : Int64 → Cap
global_cap bps = if Int64.is_nonpos bps then inf else capped bps

-- `p < PriorityHigh`
unfoldable pub below_high : Priority → Bool
below_high Priority.none = true
below_high Priority.low = true
below_high Priority.normal = true
below_high Priority.high = false
below_high Priority.now = false
below_high (Priority.other n) = false

module _ ⦃fl : Float64⦄ ⦃lib : TorrentLib⦄ where
  -- `lookupFile`, on the torrent that was found
  unfoldable pub lookup_file : Int64 → Tracked → Result (Unit {0})
  lookup_file i tr =
      if not (lib.has_info tr.t)
      then err no_metadata
      else if Int64.is_neg i || leb (length (lib.files tr.t)) i
      then err (out_of_range i (length (lib.files tr.t) - 1))
      else ok tt

  abbrev pub wrapped : Text → Result (Unit {0}) × Engine → Result (Unit {0}) × Engine
  wrapped s (ok x, e) = (ok x, e)
  wrapped s (err x, e) = (err (within s x), e)

  -- The file is raised where it is still below high after the resume.
  unfoldable pub raised : TorrentId → Int64 → Engine → Result (Unit {0}) × Engine
  raised id i e = with_tracked id e λ tr.
      if below_high (from_lib_priority (lib.priority tr.t i))
      then wrapped (codes "raise priority for streaming: ") (set_file_priority id i Priority.high e)
      else (ok tt, e)

  unfoldable pub raise_after :
      TorrentId → Int64 → Result (Unit {0}) × Engine → Result (Unit {0}) × Engine
  unfolding raised
  raise_after id i (err x, e) = (err x, e)
  raise_after id i (ok _, e) = raised id i e

  unfoldable pub stream_found :
      TorrentId → Int64 → Bool → Result (Unit {0}) → Engine → Result (Unit {0}) × Engine
  unfolding raise_after
  stream_found id i paused (err x) e = (err x, e)
  stream_found id i paused (ok _) e = raise_after id i (
      if paused
      then wrapped (codes "resume for streaming: ") (set_paused id false e)
      else (ok tt, e))

  unfoldable pub prepare_stream : TorrentId → Int64 → Engine → Result (Unit {0}) × Engine
  unfolding lookup_file stream_found
  prepare_stream id i e = with_tracked id e λ tr. stream_found id i tr.paused (lookup_file i tr) e
