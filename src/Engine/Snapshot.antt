-- ===== src/Engine/Snapshot.antt =====
-- internal/engine/snapshot.go's `snapshotLocked`, and engine.go's `eventLocked`, `broadcast` and
-- the two ends of a subscription.
pub mod Views
use torrnado.Common.{
  ℕ, zero, ◌*◌, ◌%◌, ◌&&◌, not, Option, none, some, List, [], ◌∷◌, ◌==◌, ltb, if◌then◌else◌, length,
}
use torrnado.Common.Text.{text_eq}
use torrnado.Common.Int64
use torrnado.Common.Int64.{Int64}
use torrnado.Engine.Library.{Float64, TorrentLib}
use torrnado.Engine.Types.{State}
use torrnado.Engine.State.{Tracked, Engine, Event, TorrentSnapshot, TorrentId, Check}

module _ ⦃fl : Float64⦄ ⦃lib : TorrentLib⦄ where
  -- The `switch` over the reasons for a state, in the order in which the code asks.
  unfoldable pub state_of : Engine → Tracked → Int64 → Int64 → State
  state_of e tr total completed =
      if not (text_eq tr.last_err [])
      then State.error
      else if tr.check.checking
      then State.checking
      else if not (lib.has_info tr.t)
      then State.checking
      else if tr.paused
      then State.paused
      else if e.blocked
      then State.blocked
      else if e.low_disk
      then State.low_disk
      else if Int64.is_pos total && Int64.le total completed
      then State.seeding
      else State.downloading

  -- `total` and `completed`: 0 until the metadata has arrived.
  unfoldable pub size_of : Tracked → Int64
  size_of tr = if lib.has_info tr.t then lib.total_length tr.t else 0

  unfoldable pub completed_of : Tracked → Int64
  completed_of tr = if lib.has_info tr.t then lib.bytes_completed tr.t else 0

  -- Bytes over the life of the torrent: those of earlier instances and those of this one.
  unfoldable pub downloaded_of : Tracked → Int64
  downloaded_of tr = Int64.add tr.base_downloaded (lib.bytes_read tr.t)

  unfoldable pub uploaded_of : Tracked → Int64
  uploaded_of tr = Int64.add tr.base_uploaded (lib.bytes_written tr.t)

  unfoldable pub ratio_of : Int64 → Int64 → fl.Float
  ratio_of downloaded uploaded =
      if Int64.is_pos downloaded
      then fl.div (fl.of_int64 uploaded) (fl.of_int64 downloaded)
      else if Int64.is_pos uploaded
      then fl.inf
      else fl.zero

  -- The seconds that are left, in nanoseconds.
  unfoldable pub eta_of : Tracked → Int64 → Int64 → Int64
  eta_of tr total completed =
      let missing = Int64.sub total completed in
      if Int64.is_pos missing && fl.lt fl.half tr.last_down_bps
      then (fl.to_int64 (fl.div (fl.of_int64 missing) tr.last_down_bps) * 1000000000) % Int64.two_64
      else 0

  unfoldable pub check_progress_of : Check → fl.Float
  check_progress_of c =
      if c.checking && ltb 0 c.check_total
      then fl.div (fl.of_int64 c.check_done) (fl.of_int64 c.check_total)
      else fl.zero

  unfoldable pub snapshot_locked : Engine → TorrentId → Tracked → TorrentSnapshot
  unfolding state_of size_of completed_of downloaded_of uploaded_of ratio_of eta_of
      check_progress_of
  snapshot_locked e id tr = record {
    id = id;
    name = lib.name tr.t;
    total_length = size_of tr;
    completed = completed_of tr;
    progress =
        if Int64.is_pos (size_of tr)
        then fl.div (fl.of_int64 (completed_of tr)) (fl.of_int64 (size_of tr))
        else fl.zero;
    download_bps = tr.last_down_bps;
    upload_bps = tr.last_up_bps;
    downloaded = downloaded_of tr;
    uploaded = uploaded_of tr;
    ratio = ratio_of (downloaded_of tr) (uploaded_of tr);
    num_peers = lib.active_peers tr.t;
    num_seeds = lib.connected_seeders tr.t;
    eta = eta_of tr (size_of tr) (completed_of tr);
    state = state_of e tr (size_of tr) (completed_of tr);
    paused = tr.paused;
    checking = tr.check.checking;
    check_progress = check_progress_of tr.check;
    save_path = tr.save_path;
    added_at = tr.added_at;
    error = tr.last_err;
    download_limit = tr.down_limit;
    upload_limit = tr.up_limit;
    label = tr.label;
  }

  unfoldable pub snapshots : Engine → List (TorrentId × Tracked) → List TorrentSnapshot
  snapshots e [] = []
  snapshots e ((id, tr) ∷ m) = snapshot_locked e id tr ∷ snapshots e m

  unfoldable pub total_speed : List TorrentSnapshot → fl.Float → fl.Float
  total_speed [] acc = acc
  total_speed (s ∷ ss) acc = total_speed ss (fl.add acc s.download_bps)

  unfoldable pub total_completed : List TorrentSnapshot → Int64 → Int64
  total_completed [] acc = acc
  total_completed (s ∷ ss) acc = total_completed ss (Int64.add acc s.completed)

  unfoldable pub event_locked : Engine → Event
  unfolding snapshots total_speed total_completed
  event_locked e =
      let snaps = snapshots e e.torrents in
      record {
        torrents = snaps;
        download_bps = total_speed snaps fl.zero;
        total_download = total_completed snaps 0;
        num_torrents = length snaps;
        vpn_required = e.cfg.require_vpn;
        vpn_active = e.vpn.active;
        disk_low = e.low_disk;
        at = e.machine.clock;
      }

  -- A send that does not block: it goes into the empty slot.
  unfoldable pub offer_empty : Event → Option Event → Option Event
  offer_empty ev none = some ev
  offer_empty ev (some other) = some other

  -- One subscriber's turn in `broadcast`: the send goes into the empty slot, or what is pending is
  -- received first and the send made again.
  unfoldable pub offer : Event → Option Event → Option Event
  unfolding offer_empty
  offer ev none = some ev
  offer ev (some pending) = offer_empty ev none

  unfoldable pub send_all : Event → List (ℕ × Option Event) → List (ℕ × Option Event)
  unfolding offer
  send_all ev [] = []
  send_all ev ((ch, slot) ∷ subs) = (ch, offer ev slot) ∷ send_all ev subs

  unfoldable pub broadcast : Event → Engine → Engine
  unfolding send_all
  broadcast ev e = record e { subs = send_all ev e.subs }

  unfoldable pub snapshot_and_broadcast_now : Engine → Engine
  snapshot_and_broadcast_now e = broadcast (event_locked e) e

  -- `Subscribe`: the new channel `ch` is primed with the state as it stands.
  unfoldable pub subscribe : ℕ → Engine → Engine
  subscribe ch e = record e { subs = (ch, some (event_locked e)) ∷ e.subs }

  unfoldable pub drop_sub : ℕ → List (ℕ × Option Event) → List (ℕ × Option Event)
  drop_sub ch [] = []
  drop_sub ch ((c, slot) ∷ subs) =
      let rest = drop_sub ch subs in if c == ch then rest else (c, slot) ∷ rest

  -- The function that `Subscribe` returns; calling it again changes nothing.
  unfoldable pub unsubscribe : ℕ → Engine → Engine
  unfolding drop_sub
  unsubscribe ch e = record e { subs = drop_sub ch e.subs }

  -- `ListTorrents`
  unfoldable pub list_torrents : Engine → List TorrentSnapshot
  list_torrents e = snapshots e e.torrents
