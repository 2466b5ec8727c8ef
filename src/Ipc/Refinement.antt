-- ===== src/Ipc/Refinement.antt =====
-- What each request asks of the engine, and that it does that and nothing else: the engine after a
-- request is the engine after the calls that the method stands for.
use torrnado.Common.{ℕ, ◌≡◌, refl, ◌∙◌, Option, none, some, List, [], ◌∷◌, All}
use torrnado.Engine.Library.{Float64, TorrentLib}
use torrnado.Engine.State.{Engine, TorrentId, Tracked, Result}
use torrnado.Indexer.Result.{Strings}
use torrnado.Indexer.Result
use torrnado.Indexer.Multi.{
  Searcher, nothing, lone, multi, search_all, resolve_token, Resolution, resolved, unresolved,
}
use torrnado.Ipc.Protocol.{Method, Request, Response}
use torrnado.Ipc.Server.{
  World, Server, batched, plain, torrent_detail, linked, resolve_link, searched, search_with,
  dispatch_on, dispatch,
}
use mathlib.Core.Path.{subst}
use torrnado.Engine.Calls.{
  Call, pauses, prioritizes, limits_rates, limits_seeding, labels, removes, purges, moves, rechecks,
  run, run_all,
}
use torrnado.Ipc.Histories.{
  plain-engine, naming-engine, parsed_call, batch_calls, add_magnet-run_all,
  add_torrent_file-run_all, add_batch-run_all,
}
use torrnado.Ipc.Previews.{IsPreviewCall, preview-Leads}

module _ ⦃fl : Float64⦄ ⦃lib : TorrentLib⦄ where
  -- The calls that a method other than a preview stands for, with the request's own arguments and with
  -- what the library and the system answer. A method that only reads, or that sets what the engine
  -- does not hold, stands for none.
  abbrev pub calls_of : Method → World → Request → List Call
  calls_of Method.add_magnet w req =
      parsed_call req.source req.opts (w.parsed req.source) (w.mkdir req.opts.save_path)
        (w.added req.source)
  calls_of Method.add_torrent_file w req =
      parsed_call [] req.opts (w.parsed req.source) (w.mkdir req.opts.save_path)
        (w.added req.source)
  calls_of Method.add_batch w req = batch_calls w req.opts req.sources
  calls_of Method.remove w req = removes req.id ∷ []
  calls_of Method.purge_data w req = purges req.id w.rebuilt w.readded ∷ []
  calls_of Method.set_paused w req = pauses req.id req.paused ∷ []
  calls_of Method.force_recheck w req = rechecks req.id w.ctx ∷ []
  calls_of Method.set_file_priority w req = prioritizes req.id req.file_index req.priority ∷ []
  calls_of Method.set_torrent_rate_limit w req =
      limits_rates req.id req.upload_bps req.download_bps ∷ []
  calls_of Method.set_seed_limit w req = limits_seeding req.id req.seed_ratio req.seed_time ∷ []
  calls_of Method.move_storage w req = moves req.id req.new_dir w.ctx w.moves ∷ []
  calls_of Method.set_label w req = labels req.id req.label ∷ []
  calls_of _ w req = []

  -- The calls that a request may come to. What a preview asks depends on the torrent: it is resumed,
  -- or its file is raised to high priority, or both, or neither.
  abbrev pub Asks : Method → World → Request → List Call → Type 0
  Asks Method.preview_url w req calls = All (IsPreviewCall req.id req.file_index) calls
  Asks m w req calls = calls ≡ calls_of m w req

  -- What a dispatch leaves of the engine, if it returns.
  abbrev RunsOn : (List Call → Type 0) → Engine → Option (Response × Server) → Type 0
  RunsOn A e none = Unit
  RunsOn A e (some p) = (calls : List Call) × A calls × (p.1.eng ≡ run_all calls e)

  by_plain :
      (seq : ℕ) (s : Server) (c : Call) (o : Result (Unit {0}) × Engine)
      → o.1 ≡ run c s.eng
      → RunsOn (λ calls. calls ≡ c ∷ []) s.eng (some (plain seq s o))
  unfolding run_all
  by_plain seq s c o e = (c ∷ [], refl, plain-engine seq s o ∙ e)

  torrent_detail-engine :
      (seq : ℕ) (id : TorrentId) (s : Server) (o : Option Tracked)
      → (torrent_detail seq id s o).1.eng ≡ s.eng
  unfolding torrent_detail
  torrent_detail-engine seq id s none = refl
  torrent_detail-engine seq id s (some tr) = refl

  linked-engine : (seq : ℕ) (s : Server) (o : Resolution) → (linked seq s o).1.eng ≡ s.eng
  linked-engine seq s (resolved l) = refl
  linked-engine seq s (unresolved x) = refl

  resolve_link-engine :
      (req : Request) (s : Server) (o : Searcher) → (resolve_link req s o).1.eng ≡ s.eng
  unfolding resolve_link
  resolve_link-engine req s nothing = refl
  resolve_link-engine req s (lone src) =
      linked-engine req.seq s (resolve_token (lone src) req.token)
  resolve_link-engine req s (multi srcs) =
      linked-engine req.seq s (resolve_token (multi srcs) req.token)

  searched-Runs :
      (seq : ℕ) (s : Server) (o : Option Result.Reply)
      → RunsOn (λ calls. calls ≡ []) s.eng (searched seq s o)
  unfolding run_all
  searched-Runs seq s none = tt
  searched-Runs seq s (some r) = ([], refl, refl)

  module _ ⦃str : Strings⦄ where
    search_with-Runs :
        (req : Request) (s : Server) (o : Searcher)
        → RunsOn (λ calls. calls ≡ []) s.eng (search_with req s o)
    unfolding search_with run_all
    search_with-Runs req s nothing = ([], refl, refl)
    search_with-Runs req s (lone src) = searched-Runs req.seq s (some (src.search req.query))
    search_with-Runs req s (multi srcs) = searched-Runs req.seq s (search_all srcs req.query)

    dispatch_on-Runs :
        (m : Method) (w : World) (req : Request) (s : Server)
        → RunsOn (Asks m w req) s.eng (dispatch_on m w req s)
    unfolding dispatch_on run run_all batched
    dispatch_on-Runs Method.ping w req s = ([], refl, refl)
    dispatch_on-Runs Method.add_magnet w req s = (
      _,
      refl,
      naming-engine req.seq s _
          ∙ add_magnet-run_all req.source req.opts (w.parsed req.source)
              (w.mkdir req.opts.save_path) (w.added req.source) s.eng,
    )
    dispatch_on-Runs Method.add_torrent_file w req s = (
      _,
      refl,
      naming-engine req.seq s _
          ∙ add_torrent_file-run_all req.opts (w.parsed req.source) (w.mkdir req.opts.save_path)
              (w.added req.source) s.eng,
    )
    dispatch_on-Runs Method.add_batch w req s =
        (_, refl, add_batch-run_all w req.opts req.sources s.eng)
    dispatch_on-Runs Method.remove w req s = by_plain req.seq s (removes req.id) _ refl
    dispatch_on-Runs Method.purge_data w req s =
        by_plain req.seq s (purges req.id w.rebuilt w.readded) _ refl
    dispatch_on-Runs Method.set_paused w req s =
        by_plain req.seq s (pauses req.id req.paused) _ refl
    dispatch_on-Runs Method.force_recheck w req s =
        by_plain req.seq s (rechecks req.id w.ctx) _ refl
    dispatch_on-Runs Method.set_file_priority w req s =
        by_plain req.seq s (prioritizes req.id req.file_index req.priority) _ refl
    dispatch_on-Runs Method.set_global_upload_limit w req s = ([], refl, refl)
    dispatch_on-Runs Method.set_global_download_limit w req s = ([], refl, refl)
    dispatch_on-Runs Method.set_torrent_rate_limit w req s =
        by_plain req.seq s (limits_rates req.id req.upload_bps req.download_bps) _ refl
    dispatch_on-Runs Method.set_seed_limit w req s =
        by_plain req.seq s (limits_seeding req.id req.seed_ratio req.seed_time) _ refl
    dispatch_on-Runs Method.move_storage w req s =
        by_plain req.seq s (moves req.id req.new_dir w.ctx w.moves) _ refl
    dispatch_on-Runs Method.list w req s = ([], refl, refl)
    dispatch_on-Runs Method.detail w req s = ([], refl, torrent_detail-engine req.seq req.id s _)
    dispatch_on-Runs Method.preview_url w req s = preview-Leads req s s.preview_url
    dispatch_on-Runs Method.resolve_link w req s = ([], refl, resolve_link-engine req s s.searcher)
    dispatch_on-Runs Method.search w req s = search_with-Runs req s s.searcher
    dispatch_on-Runs Method.search_sources w req s = ([], refl, refl)
    dispatch_on-Runs Method.set_label w req s = by_plain req.seq s (labels req.id req.label) _ refl
    dispatch_on-Runs Method.shutdown w req s = ([], refl, refl)
    dispatch_on-Runs (Method.other name) w req s = ([], refl, refl)

    -- A request that is answered refines the calls that its method stands for: the engine afterwards
    -- is the engine after exactly those calls, with the request's own id and arguments. A single
    -- operation is one call, an add one for what parses, a batch one in turn for each source that
    -- parses, and reading none; a preview resumes its torrent and raises its file, or does one of
    -- these, or neither.
    pub dispatch-run_all :
        (w : World) (req : Request) (s s' : Server) (r : Response)
        → dispatch w req s ≡ some (r, s')
        → (calls : List Call) × Asks req.method w req calls × (s'.eng ≡ run_all calls s.eng)
    unfolding dispatch
    dispatch-run_all w req s s' r e =
        subst (RunsOn (Asks req.method w req) s.eng) e (dispatch_on-Runs req.method w req s)
