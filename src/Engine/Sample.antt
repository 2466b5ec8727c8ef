-- ===== src/Engine/Sample.antt =====
-- A small world in which the theorems of internal/engine are tried: whole numbers for the doubles,
-- and a torrent library that keeps its switches and priorities and does no transfer.
use torrnado.Common.{
  ℕ, ◌/◌, refl, Bool, true, false, not, none, some, List, [], ◌∷◌, ◌==◌, if◌then◌else◌, length,
}
use torrnado.Common.Text.{Text, codes}
use torrnado.Common.Int64
use torrnado.Common.Int64.{Int64}
use torrnado.Engine.Library.{Float64, TorrentLib, TorrentLaws, PiecePriority, File}
use torrnado.Engine.State.{Tracked, Engine, Config, Machine, idle}

-- Whole numbers in 64 bits, with the sign in the top bit.
instance abbrev pub whole_numbers : Float64
whole_numbers = record {
  Float = ℕ;
  zero = 0;
  one = 1;
  half = 0;
  inf = 9223372036854775807;
  of_int64 = λ n. n;
  to_int64 = λ x. x;
  seconds = λ d. d / 1000000000;
  add = Int64.add;
  div = λ a b. a / b;
  max = λ a b. if Int64.lt a b then b else a;
  lt = Int64.lt;
  le = Int64.le;
  eq = λ a b. a == b;
  is_finite = λ a. not (a == 9223372036854775807);
}

pub record SampleTorrent : Type 0 where
  pub hash : Text
  pub known : Bool
  pub content : List File
  pub have : Int64
  pub read : Int64
  pub written : Int64
  pub wants : ℕ → PiecePriority
  pub down : Bool
  pub up : Bool

abbrev total : List File → Int64
total [] = 0
total (f ∷ fs) = Int64.add f.length (total fs)

instance abbrev pub sample_library : TorrentLib
sample_library = record {
  Torrent = SampleTorrent;
  name = λ t. t.hash;
  info_hash = λ t. t.hash;
  has_info = λ t. t.known;
  files = λ t. t.content;
  total_length = λ t. total t.content;
  bytes_completed = λ t. t.have;
  num_pieces = λ t. length t.content;
  is_complete = λ t. t.have == total t.content;
  bytes_read = λ t. t.read;
  bytes_written = λ t. t.written;
  active_peers = λ t. 0;
  connected_seeders = λ t. 0;
  priority = λ t i. t.wants i;
  set_priority = λ t i p. record t { wants = λ j. if i == j then p else t.wants j };
  got_info = λ fs t. record t { known = true; content = fs; wants = λ i. PiecePriority.none };
  allow_data_download = λ t. record t { down = true };
  disallow_data_download = λ t. record t { down = false };
  allow_data_upload = λ t. record t { up = true };
  disallow_data_upload = λ t. record t { up = false };
  may_download = λ t. t.down;
  may_upload = λ t. t.up;
}

pub sample_laws : TorrentLaws sample_library
sample_laws = record {
  allow_download = λ t. refl;
  disallow_download = λ t. refl;
  allow_upload = λ t. refl;
  disallow_upload = λ t. refl;
  download-allow_upload = λ t. refl;
  download-disallow_upload = λ t. refl;
  priority-set = λ t i j p. refl;
  download-set = λ t i p. refl;
  upload-set = λ t i p. refl;
  files-set = λ t i p. refl;
  has_info-set = λ t i p. refl;
  priority-allow_download = λ t j. refl;
  priority-disallow_download = λ t j. refl;
  priority-allow_upload = λ t j. refl;
  priority-disallow_upload = λ t j. refl;
  download-got_info = λ fs t. refl;
  upload-got_info = λ fs t. refl;
  files-got_info = λ fs t. refl;
  has_info-got_info = λ fs t. refl;
  priority-got_info = λ fs t j h. refl;
  files-allow_download = λ t. refl;
  files-disallow_download = λ t. refl;
  files-allow_upload = λ t. refl;
  files-disallow_upload = λ t. refl;
  has_info-allow_download = λ t. refl;
  has_info-disallow_download = λ t. refl;
  has_info-allow_upload = λ t. refl;
  has_info-disallow_upload = λ t. refl;
}

-- An instance that the library has just made of a torrent of two files: nothing of it is wanted yet,
-- and its transfers are allowed.
abbrev pub fresh : SampleTorrent
fresh = record {
  hash = codes "ab";
  known = true;
  content =
      record { path = codes "one"; length = 100 } ∷ record { path = codes "two"; length = 50 } ∷ [];
  have = 0;
  read = 7;
  written = 3;
  wants = λ i. PiecePriority.none;
  down = true;
  up = true;
}

-- The torrent as a user has it who paused it and chose its second file.
abbrev pub held : Tracked
held = record {
  t = record fresh { down = false; up = false };
  added_at = 5;
  paused = true;
  save_path = codes "/data";
  magnet = codes "magnet";
  own_storage = false;
  label = [];
  chosen_files = 1 ∷ [];
  base_downloaded = 40;
  base_uploaded = 0;
  last_downloaded = 0;
  last_uploaded = 0;
  last_down_bps = 0;
  last_up_bps = 0;
  down_limit = 0;
  up_limit = 0;
  seed_ratio = 0;
  seed_time = 0;
  completed_at = 0;
  complete_logged = false;
  hold_data = false;
  check = idle;
  last_err = [];
}

-- Another torrent, complete and running.
abbrev pub running : Tracked
running = record held {
  t = record fresh { hash = codes "cd"; have = 150 };
  paused = false;
  chosen_files = [];
  complete_logged = true;
}

abbrev pub config : Config
config = record {
  data_dir = codes "/data";
  require_vpn = true;
  seed_ratio = 2;
  seed_time = 60;
  min_free_space = 10;
  state_dir = codes "/state";
}

abbrev pub machine : Machine
machine = record {
  clock = 1000000000;
  vpn_check = some (record { active = true; interface = codes "tun0"; reason = [] });
  disk_free = some 500;
  state_writable = true;
}

abbrev pub engine : Engine
engine = record {
  cfg = config;
  machine = machine;
  restoring = false;
  torrents = (codes "ab", held) ∷ (codes "cd", running) ∷ [];
  subs = [];
  vpn = record { active = true; interface = []; reason = [] };
  blocked = false;
  vpn_checked = true;
  low_disk = false;
  disk_free = 500;
  disk_checked = true;
  last_tick = 0;
  session = none;
  metainfos = [];
}
