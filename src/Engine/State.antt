-- ===== src/Engine/State.antt =====
-- The records of engine.go and types.go that hold the engine's state. Times are nanoseconds, and 0
-- is Go's zero `time.Time`. The engine's log is pure output and is not modelled.
use torrnado.Common.{
  ◌-◌, min, leb, if◌then◌else◌, ℕ, ◌-◌, Bool, false, ◌||◌, Option, none, List, [], ◌==◌, leb,
  if◌then◌else◌,
}
use torrnado.Common.Text.{Text}
use torrnado.Common.Int64.{Int64, two_63, two_64}
use torrnado.Engine.Library.{Float64, TorrentLib}
use torrnado.Engine.Types.{State}

abbrev pub TorrentId : Type 0
TorrentId = Text

abbrev pub Time : Type 0
Time = ℕ

-- `t.IsZero()`
abbrev pub is_zero : Time → Bool
is_zero t = t == 0

-- `VPNStatus`
pub record VpnStatus : Type 0 where
  pub active : Bool
  pub interface : Text
  pub reason : Text

-- `guards`: the reasons that come from the machine
pub record Guards : Type 0 where
  pub vpn_blocked : Bool
  pub low_disk : Bool

-- `guards.any`
unfoldable pub any : Guards → Bool
any g = g.vpn_blocked || g.low_disk

-- `AddOpts`
pub record AddOpts : Type 0 where
  pub save_path : Text
  pub paused : Bool
  pub files : List Text

-- `filePriorityRecord`
pub record FilePriorityRecord : Type 0 where
  pub index : ℕ
  pub priority : Text

-- The hash checks of one torrent. `cancel_check` holds the context that `tr.cancelCheck` cancels,
-- and `running` the verification goroutines that `checkWG` counts.
pub record Run : Type 0 where
  pub ctx : ℕ
  pub total : ℕ
  -- the next piece that the loop hashes
  pub at : ℕ
  pub cancelled : Bool

pub record Check : Type 0 where
  pub cancel_check : Option ℕ
  pub checking : Bool
  pub check_done : ℕ
  pub check_total : ℕ
  pub running : List Run

abbrev pub idle : Check
idle = record {
  cancel_check = none;
  checking = false;
  check_done = 0;
  check_total = 0;
  running = [];
}

-- What the engine asks the machine, as the next call would answer: the clock, `VPNCheck`
-- (`none` where it is nil), `diskUsage` (`none` for an error), and whether the state directory
-- can be written.
pub record Machine : Type 0 where
  pub clock : Time
  pub vpn_check : Option VpnStatus
  pub disk_free : Option Int64
  pub state_writable : Bool

module _ ⦃fl : Float64⦄ where
  -- `Config`, less what only builds the library's client
  pub record Config : Type 0 where
    pub data_dir : Text
    pub require_vpn : Bool
    pub seed_ratio : fl.Float
    pub seed_time : Int64
    pub min_free_space : Int64
    pub state_dir : Text

  -- `torrentRecord`
  pub record TorrentRecord : Type 0 where
    pub info_hash : Text
    pub name : Text
    pub magnet : Text
    pub save_path : Text
    pub paused : Bool
    pub up_limit : Int64
    pub down_limit : Int64
    pub uploaded : Int64
    pub downloaded : Int64
    pub added_at : Time
    pub seed_ratio : fl.Float
    pub seed_time : Int64
    pub completed_at : Time
    pub label : Text
    pub file_priorities : List FilePriorityRecord

  -- `TorrentSnapshot`, less `InfoHash`, which is the id again, and `DataDir`
  pub record TorrentSnapshot : Type 0 where
    pub id : TorrentId
    pub name : Text
    pub total_length : Int64
    pub completed : Int64
    pub progress : fl.Float
    pub download_bps : fl.Float
    pub upload_bps : fl.Float
    pub downloaded : Int64
    pub uploaded : Int64
    pub ratio : fl.Float
    pub num_peers : ℕ
    pub num_seeds : ℕ
    pub eta : Int64
    pub state : State
    pub paused : Bool
    pub checking : Bool
    pub check_progress : fl.Float
    pub save_path : Text
    pub added_at : Time
    pub error : Text
    pub download_limit : Int64
    pub upload_limit : Int64
    pub label : Text

  -- `Event`, with the totals of `GlobalStats` that come from the torrents and the guards
  pub record Event : Type 0 where
    pub torrents : List TorrentSnapshot
    pub download_bps : fl.Float
    pub total_download : Int64
    pub num_torrents : ℕ
    pub vpn_required : Bool
    pub vpn_active : Bool
    pub disk_low : Bool
    pub at : Time

  module _ ⦃lib : TorrentLib⦄ where
    -- `tracked`, less the per-peer counters
    pub record Tracked : Type 0 where
      pub t : lib.Torrent
      pub added_at : Time
      pub paused : Bool
      pub save_path : Text
      pub magnet : Text
      -- whether the torrent has a storage of its own, which is then closed with it
      pub own_storage : Bool
      pub label : Text
      pub chosen_files : List ℕ
      pub base_downloaded : Int64
      pub base_uploaded : Int64
      pub last_downloaded : Int64
      pub last_uploaded : Int64
      pub last_down_bps : fl.Float
      pub last_up_bps : fl.Float
      pub down_limit : Int64
      pub up_limit : Int64
      pub seed_ratio : fl.Float
      pub seed_time : Int64
      pub completed_at : Time
      pub complete_logged : Bool
      pub hold_data : Bool
      pub check : Check
      pub last_err : Text

    -- `Engine`. `session` is the session file in the state directory, `metainfos` names the
    -- torrents whose metainfo is saved beside it, and `subs` holds the one-slot channel of each
    -- subscriber.
    pub record Engine : Type 0 where
      pub cfg : Config
      pub machine : Machine
      pub restoring : Bool
      pub torrents : List (TorrentId × Tracked)
      pub subs : List (ℕ × Option Event)
      pub vpn : VpnStatus
      pub blocked : Bool
      pub vpn_checked : Bool
      pub low_disk : Bool
      pub disk_free : Int64
      pub disk_checked : Bool
      pub last_tick : Time
      pub session : Option (List TorrentRecord)
      pub metainfos : List (TorrentId × Unit {0})

    -- `guardsLocked`
    unfoldable pub guards_locked : Engine → Guards
    guards_locked e = record { vpn_blocked = e.blocked; low_disk = e.low_disk }

-- `a.Sub(b)` in nanoseconds, which saturates.
unfoldable pub sub_time : Time → Time → Int64
sub_time a b = if leb b a then min (a - b) (two_63 - 1) else two_64 - min (b - a) two_63

-- What a call of the library or of the operating system returns: a value or an error's text.
pub data Answer {ℓ} (A : Type ℓ) : Type ℓ where
  gives : A → Answer A
  fails : Text → Answer A

-- The errors that the operations return; `external` wraps the text of an error that was returned
-- to them.
pub data Error : Type 0 where
  not_found : Error
  no_metadata : Error
  out_of_range : ℕ → ℕ → Error
  label_too_long : ℕ → Error
  label_control : Error
  external : Text → Error
  -- an error inside another, as `%w` writes it
  within : Text → Error → Error

pub data Result {ℓ} (A : Type ℓ) : Type ℓ where
  ok : A → Result A
  err : Error → Result A
