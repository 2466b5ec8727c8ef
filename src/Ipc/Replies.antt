-- ===== src/Ipc/Replies.antt =====
-- What a response says: the number of its request, and either that all went well or one reason why
-- not.
use torrnado.Common.{
  ℕ, ◌+◌, ◌≡◌, refl, ◌∙◌, true, false, Option, none, some, List, [], ◌∷◌, arith, ◌⊎◌, inl, inr,
  length,
}
use mathlib.Core.Path.{subst}
use torrnado.Common.Text.{Text}
use torrnado.Common.Int64.{Int64}
use torrnado.Engine.Library.{Float64, TorrentLib}
use torrnado.Engine.State.{Engine, TorrentId, AddOpts, Result, ok, err}
use torrnado.Engine.Stream.{prepare_stream}
use torrnado.Indexer.Result.{Strings}
use torrnado.Indexer.Result
use torrnado.Indexer.Multi.{
  Searcher, nothing, lone, multi, search_all, resolve_token, Resolution, resolved, unresolved,
}
use torrnado.Engine.State.{not_found, Tracked}
use torrnado.Ipc.Protocol.{
  Method, Reason, engine_error, resolve_error, search_error, no_searcher, no_streaming,
  unknown_method, Message, Request, Response,
}
use torrnado.Ipc.Server.{
  World, Server, plain, naming, add_source, batch_round, add_batch, batched, torrent_detail,
  previewed, preview, linked, resolve_link, searched, reported, search_with, dispatch_on, dispatch,
}

module _ ⦃fl : Float64⦄ ⦃lib : TorrentLib⦄ where
  -- A response to the request of this number, with a reason exactly where it is not OK.
  abbrev pub Answers : ℕ → Response → Type 0
  Answers seq r =
      (r.seq ≡ seq)
      × (((r.is_ok ≡ true) × (r.err ≡ none))
          ⊎ ((r.is_ok ≡ false) × ((x : Reason) × (r.err ≡ some x))))

  plain-Answers :
      (seq : ℕ) (s : Server) (o : Result (Unit {0}) × Engine) → Answers seq (plain seq s o).0
  unfolding plain
  plain-Answers seq s (ok x, e) = (refl, inl (refl, refl))
  plain-Answers seq s (err x, e) = (refl, inr (refl, (engine_error x, refl)))

  naming-Answers :
      (seq : ℕ) (s : Server) (o : Result TorrentId × Engine) → Answers seq (naming seq s o).0
  unfolding naming
  naming-Answers seq s (ok x, e) = (refl, inl (refl, refl))
  naming-Answers seq s (err x, e) = (refl, inr (refl, (engine_error x, refl)))

  batched-Answers :
      (seq : ℕ) (s : Server) (o : List TorrentId × List Message × Engine)
      → Answers seq (batched seq s o).0
  unfolding batched
  batched-Answers seq s (ids, errs, e) = (refl, inl (refl, refl))

  torrent_detail-Answers :
      (seq : ℕ) (id : TorrentId) (s : Server) (o : Option Tracked)
      → Answers seq (torrent_detail seq id s o).0
  unfolding torrent_detail
  torrent_detail-Answers seq id s none = (refl, inr (refl, (engine_error not_found, refl)))
  torrent_detail-Answers seq id s (some tr) = (refl, inl (refl, refl))

  preview-Answers :
      (req : Request) (s : Server) (o : Option (TorrentId → Int64 → Text))
      → Answers req.seq (preview req s o).0
  unfolding preview
  preview-Answers req s none = (refl, inr (refl, (no_streaming, refl)))
  preview-Answers req s (some url) =
      previewed-Answers req.seq (url req.id req.file_index) s
        (prepare_stream req.id req.file_index s.eng)
    where
      previewed-Answers :
          (seq : ℕ) (url : Text) (s : Server) (o : Result (Unit {0}) × Engine)
          → Answers seq (previewed seq url s o).0
      previewed-Answers seq url s (ok x, e) = (refl, inl (refl, refl))
      previewed-Answers seq url s (err x, e) = (refl, inr (refl, (engine_error x, refl)))

  linked-Answers : (seq : ℕ) (s : Server) (o : Resolution) → Answers seq (linked seq s o).0
  linked-Answers seq s (resolved l) = (refl, inl (refl, refl))
  linked-Answers seq s (unresolved x) = (refl, inr (refl, (resolve_error x, refl)))

  resolve_link-Answers :
      (req : Request) (s : Server) (o : Searcher) → Answers req.seq (resolve_link req s o).0
  unfolding resolve_link
  resolve_link-Answers req s nothing = (refl, inr (refl, (no_searcher, refl)))
  resolve_link-Answers req s (lone src) =
      linked-Answers req.seq s (resolve_token (lone src) req.token)
  resolve_link-Answers req s (multi srcs) =
      linked-Answers req.seq s (resolve_token (multi srcs) req.token)

  -- The same of what a dispatch returns, if it returns.
  abbrev pub IsReply : ℕ → Option (Response × Server) → Type 0
  IsReply seq none = Unit
  IsReply seq (some p) = Answers seq p.0

  reported-Answers : (seq : ℕ) (r : Result.Reply) (o : Option Text) → Answers seq (reported seq r o)
  reported-Answers seq r none = (refl, inl (refl, refl))
  reported-Answers seq r (some x) = (refl, inr (refl, (search_error x, refl)))

  searched-IsReply :
      (seq : ℕ) (s : Server) (o : Option Result.Reply) → IsReply seq (searched seq s o)
  searched-IsReply seq s none = tt
  searched-IsReply seq s (some r) = reported-Answers seq r r.err

  module _ ⦃str : Strings⦄ where
    search_with-IsReply :
        (req : Request) (s : Server) (o : Searcher) → IsReply req.seq (search_with req s o)
    unfolding search_with
    search_with-IsReply req s nothing = (refl, inr (refl, (no_searcher, refl)))
    search_with-IsReply req s (lone src) = searched-IsReply req.seq s (some (src.search req.query))
    search_with-IsReply req s (multi srcs) = searched-IsReply req.seq s (search_all srcs req.query)

    dispatch_on-IsReply :
        (m : Method) (w : World) (req : Request) (s : Server)
        → IsReply req.seq (dispatch_on m w req s)
    unfolding dispatch_on
    dispatch_on-IsReply Method.ping w req s = (refl, inl (refl, refl))
    dispatch_on-IsReply Method.add_magnet w req s = naming-Answers req.seq s _
    dispatch_on-IsReply Method.add_torrent_file w req s = naming-Answers req.seq s _
    dispatch_on-IsReply Method.add_batch w req s =
        batched-Answers req.seq s (add_batch w req.opts req.sources s.eng)
    dispatch_on-IsReply Method.remove w req s = plain-Answers req.seq s _
    dispatch_on-IsReply Method.purge_data w req s = plain-Answers req.seq s _
    dispatch_on-IsReply Method.set_paused w req s = plain-Answers req.seq s _
    dispatch_on-IsReply Method.force_recheck w req s = plain-Answers req.seq s _
    dispatch_on-IsReply Method.set_file_priority w req s = plain-Answers req.seq s _
    dispatch_on-IsReply Method.set_global_upload_limit w req s = (refl, inl (refl, refl))
    dispatch_on-IsReply Method.set_global_download_limit w req s = (refl, inl (refl, refl))
    dispatch_on-IsReply Method.set_torrent_rate_limit w req s = plain-Answers req.seq s _
    dispatch_on-IsReply Method.set_seed_limit w req s = plain-Answers req.seq s _
    dispatch_on-IsReply Method.move_storage w req s = plain-Answers req.seq s _
    dispatch_on-IsReply Method.list w req s = (refl, inl (refl, refl))
    dispatch_on-IsReply Method.detail w req s = torrent_detail-Answers req.seq req.id s _
    dispatch_on-IsReply Method.preview_url w req s = preview-Answers req s s.preview_url
    dispatch_on-IsReply Method.resolve_link w req s = resolve_link-Answers req s s.searcher
    dispatch_on-IsReply Method.search w req s = search_with-IsReply req s s.searcher
    dispatch_on-IsReply Method.search_sources w req s = (refl, inl (refl, refl))
    dispatch_on-IsReply Method.set_label w req s = plain-Answers req.seq s _
    dispatch_on-IsReply Method.shutdown w req s = (refl, inl (refl, refl))
    dispatch_on-IsReply (Method.other name) w req s =
        (refl, inr (refl, (unknown_method name, refl)))

    -- Whatever a request asks for, its response has the request's number, and it is OK or has one
    -- reason why not, never both and never neither.
    pub dispatch-Answers :
        (w : World) (req : Request) (s s' : Server) (r : Response)
        → dispatch w req s ≡ some (r, s')
        → Answers req.seq r
    unfolding dispatch
    dispatch-Answers w req s s' r e =
        subst (IsReply req.seq) e (dispatch_on-IsReply req.method w req s)

  length-batch_round :
      (src : Text) (o : Result TorrentId × Engine)
      (rest : Engine → List TorrentId × List Message × Engine) (n : ℕ)
      → ((e : Engine) → length (rest e).0 + length (rest e).1 ≡ n)
      → length (batch_round src o rest).0 + length (batch_round src o rest).1 ≡ n + 1
  unfolding batch_round
  length-batch_round src (ok id, e) rest n h = omega (arith, h e)
  length-batch_round src (err x, e) rest n h = omega (arith, h e)

  -- A batch answers for each of its sources, with an id or with the source's error: one that fails
  -- does not end the batch.
  pub length-add_batch :
      (w : World) (opts : AddOpts) (srcs : List Text) (e : Engine)
      → length (add_batch w opts srcs e).0 + length (add_batch w opts srcs e).1 ≡ length srcs
  unfolding add_batch
  length-add_batch w opts [] e = omega arith
  length-add_batch w opts (src ∷ srcs) e =
      length-batch_round src (add_source w opts src e) (λ e'. add_batch w opts srcs e')
        (length srcs) (λ e'. length-add_batch w opts srcs e')
      ∙ omega arith
