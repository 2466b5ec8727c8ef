-- ===== src/Ipc/Protocol.antt =====
-- internal/ipc/protocol.go: requests and responses.
use torrnado.Common.{ℕ, Bool, false, Option, List}
use torrnado.Common.Text.{Text}
use torrnado.Common.Int64.{Int64}
use torrnado.Engine.Library.{Float64}
use torrnado.Engine.Types.{Priority}
use torrnado.Engine.State.{AddOpts, TorrentId, TorrentSnapshot, Error}
use torrnado.Indexer.Result
use torrnado.Indexer.Multi.{ResolveError}

-- `Method`; `other` is a name that no constant has.
pub data Method : Type 0 where
  ping add_magnet add_torrent_file add_batch remove purge_data set_paused force_recheck : Method
  set_file_priority set_global_upload_limit set_global_download_limit : Method
  set_torrent_rate_limit set_seed_limit move_storage list detail preview_url set_label : Method
  search search_sources resolve_link shutdown : Method
  other : Text → Method

-- Why a request failed; the wire has its text.
pub data Reason : Type 0 where
  engine_error : Error → Reason
  resolve_error : ResolveError → Reason
  search_error : Text → Reason
  no_searcher : Reason
  no_streaming : Reason
  unknown_method : Text → Reason

-- An entry of `Errs`: a source of a batch with its error, or the warning of a search.
pub data Message : Type 0 where
  source_failed : Text → Error → Message
  warning : Text → Message

module _ ⦃fl : Float64⦄ where
  -- `Request`
  pub record Request : Type 0 where
    pub seq : ℕ
    pub method : Method
    pub id : TorrentId
    pub source : Text
    pub sources : List Text
    pub opts : AddOpts
    pub delete_data : Bool
    pub paused : Bool
    pub file_index : Int64
    pub priority : Priority
    pub upload_bps : Int64
    pub download_bps : Int64
    pub seed_ratio : fl.Float
    pub seed_time : Int64
    pub label : Text
    pub new_dir : Text
    pub query : Text
    pub token : Text

  -- `Response`, with the details of a torrent as its snapshot alone
  pub record Response : Type 0 where
    pub seq : ℕ
    pub is_ok : Bool
    pub err : Option Reason
    pub id : TorrentId
    pub ids : List TorrentId
    pub errs : List Message
    pub snapshot : List TorrentSnapshot
    pub detail : Option TorrentSnapshot
    pub url : Text
    pub results : List Result.Result
    pub sources : List Text
    pub link : Text

  -- `&Response{Seq: req.Seq}`
  abbrev pub blank : ℕ → Response
  blank seq = record {
    seq = seq;
    is_ok = false;
    err = Option.none;
    id = List.[];
    ids = List.[];
    errs = List.[];
    snapshot = List.[];
    detail = Option.none;
    url = List.[];
    results = List.[];
    sources = List.[];
    link = List.[];
  }
