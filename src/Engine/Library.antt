-- ===== src/Engine/Library.antt =====
-- What internal/engine calls and does not implement: IEEE doubles, and the `*torrent.Torrent` of
-- anacrolix/torrent. Both are interfaces; the laws that a theorem needs of the second are the
-- fields of `TorrentLaws`, each documented behaviour of that library.
use torrnado.Common.{ℕ, ◌≡◌, Bool, true, false, List, ◌==◌, if◌then◌else◌}
use torrnado.Common.Text.{Text}
use torrnado.Common.Int64.{Int64}

-- Go's `float64` and the operations on it that the program uses.
pub record Float64 : Type 1 where
  pub Float : Type 0
  pub zero : Float
  pub one : Float
  pub half : Float
  -- `math.Inf(1)`
  pub inf : Float
  -- `float64(n)` of an int64, and `int64(f)`
  pub of_int64 : Int64 → Float
  pub to_int64 : Float → Int64
  -- `time.Duration.Seconds`
  pub seconds : Int64 → Float
  pub add : Float → Float → Float
  pub div : Float → Float → Float
  -- `math.Max`
  pub max : Float → Float → Float
  -- `<`, `<=`, `==`
  pub lt : Float → Float → Bool
  pub le : Float → Float → Bool
  pub eq : Float → Float → Bool
  -- neither infinite nor not a number, as `encoding/json` demands
  pub is_finite : Float → Bool

-- The library's piece priorities, in their order.
pub data PiecePriority : Type 0 where
  none normal high readahead next now : PiecePriority

pub record File : Type 0 where
  pub path : Text
  pub length : Int64

-- A `*torrent.Torrent`, with all that the library holds about it. A method that changes it returns
-- the torrent afterwards.
pub record TorrentLib : Type 1 where
  pub Torrent : Type 0
  -- `t.Name()`, `t.InfoHash().HexString()`
  pub name : Torrent → Text
  pub info_hash : Torrent → Text
  -- `t.Info() != nil`; what reads through the metadata is called only then
  pub has_info : Torrent → Bool
  pub files : Torrent → List File
  pub total_length : Torrent → Int64
  pub bytes_completed : Torrent → Int64
  pub num_pieces : Torrent → ℕ
  -- `t.Complete().Bool()`
  pub is_complete : Torrent → Bool
  -- `t.Stats()`: `BytesReadUsefulData`, `BytesWrittenData`, `ActivePeers`, `ConnectedSeeders`
  pub bytes_read : Torrent → Int64
  pub bytes_written : Torrent → Int64
  pub active_peers : Torrent → ℕ
  pub connected_seeders : Torrent → ℕ
  -- `t.Files()[i].Priority()` and `SetPriority`
  pub priority : Torrent → ℕ → PiecePriority
  pub set_priority : Torrent → ℕ → PiecePriority → Torrent
  pub allow_data_download : Torrent → Torrent
  pub disallow_data_download : Torrent → Torrent
  pub allow_data_upload : Torrent → Torrent
  pub disallow_data_upload : Torrent → Torrent
  -- the torrent once its metadata, which lists these files, has arrived from a peer
  pub got_info : List File → Torrent → Torrent
  -- the two switches; the library has no accessor for them, and the program never reads them
  pub may_download : Torrent → Bool
  pub may_upload : Torrent → Bool

-- The documented behaviour of the switches and of `SetPriority`.
pub record TorrentLaws (lib : TorrentLib) : Type 0 where
  pub allow_download : (t : lib.Torrent) → lib.may_download (lib.allow_data_download t) ≡ true
  pub disallow_download :
      (t : lib.Torrent) → lib.may_download (lib.disallow_data_download t) ≡ false
  pub allow_upload : (t : lib.Torrent) → lib.may_upload (lib.allow_data_upload t) ≡ true
  pub disallow_upload : (t : lib.Torrent) → lib.may_upload (lib.disallow_data_upload t) ≡ false
  -- each switch leaves the other alone
  pub download-allow_upload :
      (t : lib.Torrent) → lib.may_download (lib.allow_data_upload t) ≡ lib.may_download t
  pub download-disallow_upload :
      (t : lib.Torrent) → lib.may_download (lib.disallow_data_upload t) ≡ lib.may_download t
  -- a priority is what was last set, and setting one moves no switch and no file
  pub priority-set :
      (t : lib.Torrent) (i j : ℕ) (p : PiecePriority)
      → lib.priority (lib.set_priority t i p) j ≡ (if i == j then p else lib.priority t j)
  pub download-set :
      (t : lib.Torrent) (i : ℕ) (p : PiecePriority)
      → lib.may_download (lib.set_priority t i p) ≡ lib.may_download t
  pub upload-set :
      (t : lib.Torrent) (i : ℕ) (p : PiecePriority)
      → lib.may_upload (lib.set_priority t i p) ≡ lib.may_upload t
  pub files-set :
      (t : lib.Torrent) (i : ℕ) (p : PiecePriority)
      → lib.files (lib.set_priority t i p) ≡ lib.files t
  pub has_info-set :
      (t : lib.Torrent) (i : ℕ) (p : PiecePriority)
      → lib.has_info (lib.set_priority t i p) ≡ lib.has_info t
  -- the arrival of the metadata moves no switch
  pub download-got_info :
      (fs : List File) (t : lib.Torrent) → lib.may_download (lib.got_info fs t) ≡ lib.may_download t
  pub upload-got_info :
      (fs : List File) (t : lib.Torrent) → lib.may_upload (lib.got_info fs t) ≡ lib.may_upload t
  pub files-got_info : (fs : List File) (t : lib.Torrent) → lib.files (lib.got_info fs t) ≡ fs
  pub has_info-got_info :
      (fs : List File) (t : lib.Torrent) → lib.has_info (lib.got_info fs t) ≡ true
  -- a file that the metadata brings is not wanted yet
  pub priority-got_info :
      (fs : List File) (t : lib.Torrent) (j : ℕ)
      → lib.has_info t ≡ false
      → lib.priority (lib.got_info fs t) j ≡ PiecePriority.none
  -- no switch changes the files
  pub files-allow_download : (t : lib.Torrent) → lib.files (lib.allow_data_download t) ≡ lib.files t
  pub files-disallow_download :
      (t : lib.Torrent) → lib.files (lib.disallow_data_download t) ≡ lib.files t
  pub files-allow_upload : (t : lib.Torrent) → lib.files (lib.allow_data_upload t) ≡ lib.files t
  pub files-disallow_upload :
      (t : lib.Torrent) → lib.files (lib.disallow_data_upload t) ≡ lib.files t
  -- no switch moves a priority, or brings the metadata
  pub has_info-allow_download :
      (t : lib.Torrent) → lib.has_info (lib.allow_data_download t) ≡ lib.has_info t
  pub has_info-disallow_download :
      (t : lib.Torrent) → lib.has_info (lib.disallow_data_download t) ≡ lib.has_info t
  pub has_info-allow_upload :
      (t : lib.Torrent) → lib.has_info (lib.allow_data_upload t) ≡ lib.has_info t
  pub has_info-disallow_upload :
      (t : lib.Torrent) → lib.has_info (lib.disallow_data_upload t) ≡ lib.has_info t
  pub priority-allow_download :
      (t : lib.Torrent) (j : ℕ) → lib.priority (lib.allow_data_download t) j ≡ lib.priority t j
  pub priority-disallow_download :
      (t : lib.Torrent) (j : ℕ) → lib.priority (lib.disallow_data_download t) j ≡ lib.priority t j
  pub priority-allow_upload :
      (t : lib.Torrent) (j : ℕ) → lib.priority (lib.allow_data_upload t) j ≡ lib.priority t j
  pub priority-disallow_upload :
      (t : lib.Torrent) (j : ℕ) → lib.priority (lib.disallow_data_upload t) j ≡ lib.priority t j
