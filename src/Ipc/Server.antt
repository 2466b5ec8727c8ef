-- ===== src/Ipc/Server.antt =====
-- `dispatch` of internal/ipc/server.go.
use torrnado.Common.{ℕ, true, Option, none, some, List, [], ◌∷◌, if◌then◌else◌}
use torrnado.Common.Text.{Text, codes, has_prefix}
use torrnado.Common.Int64.{Int64}
use torrnado.Engine.Library.{Float64, TorrentLib}
use torrnado.Engine.State.{Engine, TorrentId, AddOpts, Result, ok, err, Answer}
use torrnado.Engine.Snapshot.{list_torrents}
use torrnado.Engine.Ops.{
  add_magnet, add_torrent_file, remove_torrent, set_paused, set_file_priority,
  set_torrent_rate_limit, set_seed_limit,
}
use torrnado.Engine.Relocate.{purge_data, move_storage, MoveAnswers, force_recheck}
use torrnado.Engine.Label.{set_label}
use torrnado.Engine.Stream.{Cap, global_cap, prepare_stream}
use torrnado.Indexer.Result.{Strings}
use torrnado.Indexer.Result
use torrnado.Indexer.Multi.{
  Searcher, nothing, lone, multi, search_all, sources, resolve_token, Resolution, resolved,
  unresolved,
}
use torrnado.Engine.Snapshot.{snapshot_locked}
use torrnado.Engine.State.{not_found, Tracked}
use torrnado.Common.Keys
use torrnado.Ipc.Protocol.{
  Method, engine_error, resolve_error, search_error, no_searcher, no_streaming, unknown_method,
  Message, source_failed, warning, Request, Response, blank,
}

module _ ⦃fl : Float64⦄ ⦃lib : TorrentLib⦄ where
  -- What the library and the system answer to the calls of one request.
  pub record World : Type 0 where
    -- parsing a magnet link or a torrent file, making a save directory, adding the torrent
    pub parsed : Text → Answer (Unit {0})
    pub mkdir : Text → Answer (Unit {0})
    pub added : Text → Answer lib.Torrent
    -- a purge's new storage and instance, and a move's answers
    pub rebuilt : Answer (Unit {0})
    pub readded : Answer lib.Torrent
    pub moves : MoveAnswers
    -- the context of a check that is started
    pub ctx : ℕ

  -- The server, with the engine and its two limiters.
  pub record Server : Type 0 where
    pub eng : Engine
    pub up_limiter : Cap
    pub down_limiter : Cap
    -- where the streaming server is, if there is one
    pub preview_url : Option (TorrentId → Int64 → Text)
    pub searcher : Searcher

  abbrev pub with_engine : Engine → Server → Server
  with_engine e s = record s { eng = e }

  -- A case of the switch that calls the engine and answers with nothing but the error.
  unfoldable pub plain : ℕ → Server → Result (Unit {0}) × Engine → Response × Server
  plain seq s (ok x, e) = (record (blank seq) { is_ok = true }, with_engine e s)
  plain seq s (err x, e) = (record (blank seq) { err = some (engine_error x) }, with_engine e s)

  unfoldable pub naming : ℕ → Server → Result TorrentId × Engine → Response × Server
  naming seq s (ok id, e) = (record (blank seq) { is_ok = true; id = id }, with_engine e s)
  naming seq s (err x, e) = (record (blank seq) { err = some (engine_error x) }, with_engine e s)

  -- One source of a batch, by its prefix.
  unfoldable pub add_source : World → AddOpts → Text → Engine → Result TorrentId × Engine
  unfolding has_prefix
  add_source w opts src e =
      if has_prefix src (codes "magnet:")
      then add_magnet src opts (w.parsed src) (w.mkdir opts.save_path) (w.added src) e
      else add_torrent_file opts (w.parsed src) (w.mkdir opts.save_path) (w.added src) e

  -- What the loop of `AddBatch` does with one outcome, in front of the later ones.
  unfoldable pub batch_round :
      Text
      → Result TorrentId × Engine
      → (Engine → List TorrentId × List Message × Engine)
      → List TorrentId × List Message × Engine
  batch_round src (ok id, e) rest = let (ids, errs, e') = rest e in (id ∷ ids, errs, e')
  batch_round src (err x, e) rest =
      let (ids, errs, e') = rest e in (ids, source_failed src x ∷ errs, e')

  unfoldable pub add_batch :
      World → AddOpts → List Text → Engine → List TorrentId × List Message × Engine
  unfolding add_source batch_round
  add_batch w opts [] e = ([], [], e)
  add_batch w opts (src ∷ srcs) e =
      batch_round src (add_source w opts src e) λ e'. add_batch w opts srcs e'

  unfoldable pub batched : ℕ → Server → List TorrentId × List Message × Engine → Response × Server
  batched seq s (ids, errs, e) =
      (record (blank seq) { is_ok = true; ids = ids; errs = errs }, with_engine e s)

  -- `TorrentDetail`, as far as it is modelled
  unfoldable pub torrent_detail : ℕ → TorrentId → Server → Option Tracked → Response × Server
  torrent_detail seq id s none = (record (blank seq) { err = some (engine_error not_found) }, s)
  torrent_detail seq id s (some tr) =
      (record (blank seq) { is_ok = true; detail = some (snapshot_locked s.eng id tr) }, s)

  unfoldable pub previewed : ℕ → Text → Server → Result (Unit {0}) × Engine → Response × Server
  previewed seq url s (ok x, e) = (record (blank seq) { is_ok = true; url = url }, with_engine e s)
  previewed seq url s (err x, e) =
      (record (blank seq) { err = some (engine_error x) }, with_engine e s)

  unfoldable pub preview : Request → Server → Option (TorrentId → Int64 → Text) → Response × Server
  unfolding previewed
  preview req s none = (record (blank req.seq) { err = some no_streaming }, s)
  preview req s (some url) =
      previewed req.seq (url req.id req.file_index) s (prepare_stream req.id req.file_index s.eng)

  abbrev pub linked : ℕ → Server → Resolution → Response × Server
  linked seq s (resolved l) = (record (blank seq) { is_ok = true; link = l }, s)
  linked seq s (unresolved x) = (record (blank seq) { err = some (resolve_error x) }, s)

  unfoldable pub resolve_link : Request → Server → Searcher → Response × Server
  resolve_link req s nothing = (record (blank req.seq) { err = some no_searcher }, s)
  resolve_link req s (lone src) = linked req.seq s (resolve_token (lone src) req.token)
  resolve_link req s (multi srcs) = linked req.seq s (resolve_token (multi srcs) req.token)

  abbrev pub warnings : List Text → List Message
  warnings [] = []
  warnings (w ∷ ws) = warning w ∷ warnings ws

  abbrev pub reported : ℕ → Result.Reply → Option Text → Response
  reported seq r none = record (blank seq) {
    is_ok = true;
    results = r.results;
    errs = warnings r.warnings;
  }
  reported seq r (some msg) = record (blank seq) { err = some (search_error msg) }

  abbrev pub searched : ℕ → Server → Option Result.Reply → Option (Response × Server)
  searched seq s none = none
  searched seq s (some r) = some (reported seq r r.err, s)

  module _ ⦃str : Strings⦄ where
    unfoldable pub search_with : Request → Server → Searcher → Option (Response × Server)
    search_with req s nothing = some (record (blank req.seq) { err = some no_searcher }, s)
    search_with req s (lone src) = searched req.seq s (some (src.search req.query))
    search_with req s (multi srcs) = searched req.seq s (search_all srcs req.query)

    abbrev pub names_of : Searcher → List Text
    names_of nothing = []
    names_of (lone src) = src.sources
    names_of (multi srcs) = sources srcs

    -- The switch of `dispatch`; `none` where the search panics.
    unfoldable pub dispatch_on : Method → World → Request → Server → Option (Response × Server)
    unfolding plain naming add_batch batched torrent_detail preview resolve_link search_with
    dispatch_on Method.ping w req s = some (record (blank req.seq) { is_ok = true }, s)
    dispatch_on Method.add_magnet w req s = some (
        naming req.seq s (
          add_magnet req.source req.opts (w.parsed req.source) (w.mkdir req.opts.save_path)
            (w.added req.source) s.eng))
    dispatch_on Method.add_torrent_file w req s = some (
        naming req.seq s (
          add_torrent_file req.opts (w.parsed req.source) (w.mkdir req.opts.save_path)
            (w.added req.source) s.eng))
    dispatch_on Method.add_batch w req s =
        some (batched req.seq s (add_batch w req.opts req.sources s.eng))
    dispatch_on Method.remove w req s = some (plain req.seq s (remove_torrent req.id s.eng))
    dispatch_on Method.purge_data w req s =
        some (plain req.seq s (purge_data req.id w.rebuilt w.readded s.eng))
    dispatch_on Method.set_paused w req s =
        some (plain req.seq s (set_paused req.id req.paused s.eng))
    dispatch_on Method.force_recheck w req s =
        some (plain req.seq s (force_recheck req.id w.ctx s.eng))
    dispatch_on Method.set_file_priority w req s =
        some (plain req.seq s (set_file_priority req.id req.file_index req.priority s.eng))
    dispatch_on Method.set_global_upload_limit w req s = some (
      record (blank req.seq) { is_ok = true },
      record s { up_limiter = global_cap req.upload_bps },
    )
    dispatch_on Method.set_global_download_limit w req s = some (
      record (blank req.seq) { is_ok = true },
      record s { down_limiter = global_cap req.download_bps },
    )
    dispatch_on Method.set_torrent_rate_limit w req s =
        some (plain req.seq s (set_torrent_rate_limit req.id req.upload_bps req.download_bps s.eng))
    dispatch_on Method.set_seed_limit w req s =
        some (plain req.seq s (set_seed_limit req.id req.seed_ratio req.seed_time s.eng))
    dispatch_on Method.move_storage w req s =
        some (plain req.seq s (move_storage req.id req.new_dir w.ctx w.moves s.eng))
    dispatch_on Method.list w req s =
        some (record (blank req.seq) { is_ok = true; snapshot = list_torrents s.eng }, s)
    dispatch_on Method.detail w req s =
        some (torrent_detail req.seq req.id s (Keys.lookup req.id s.eng.torrents))
    dispatch_on Method.preview_url w req s = some (preview req s s.preview_url)
    dispatch_on Method.resolve_link w req s = some (resolve_link req s s.searcher)
    dispatch_on Method.search w req s = search_with req s s.searcher
    dispatch_on Method.search_sources w req s =
        some (record (blank req.seq) { is_ok = true; sources = names_of s.searcher }, s)
    dispatch_on Method.set_label w req s = some (plain req.seq s (set_label req.id req.label s.eng))
    dispatch_on Method.shutdown w req s = some (record (blank req.seq) { is_ok = true }, s)
    dispatch_on (Method.other name) w req s =
        some (record (blank req.seq) { err = some (unknown_method name) }, s)

    unfoldable pub dispatch : World → Request → Server → Option (Response × Server)
    unfolding dispatch_on
    dispatch w req s = dispatch_on req.method w req s
