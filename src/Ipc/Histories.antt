-- ===== src/Ipc/Histories.antt =====
-- The calls that a request asks of the engine: the histories that the methods which add torrents lead
-- to, and what a response leaves of the engine.
use torrnado.Common.{
  ℕ, ◌≡◌, refl, sym, ap, ◌∙◌, List, [], ◌∷◌, ◌++◌, inl, inr, Bool-cases, if◌then◌else◌,
}
use torrnado.Common.Text.{Text, codes, has_prefix}
use torrnado.Engine.Library.{Float64, TorrentLib}
use torrnado.Engine.State.{Engine, TorrentId, AddOpts, Result, ok, err, Answer, gives, fails}
use torrnado.Engine.Ops.{add_magnet, add_torrent_file}
use torrnado.Ipc.Protocol.{Message}
use torrnado.Ipc.Server.{World, Server, plain, naming, add_source, batch_round, add_batch}
use torrnado.Engine.Calls.{Call, adds, run, run_all}

module _ ⦃fl : Float64⦄ ⦃lib : TorrentLib⦄ where
  pub run_all-append :
      (cs ds : List Call) (e : Engine) → run_all (cs ++ ds) e ≡ run_all ds (run_all cs e)
  unfolding run_all
  run_all-append [] ds e = refl
  run_all-append (c ∷ cs) ds e = run_all-append cs ds (run c e)

  pub plain-engine :
      (seq : ℕ) (s : Server) (o : Result (Unit {0}) × Engine) → (plain seq s o).1.eng ≡ o.1
  unfolding plain
  plain-engine seq s (ok x, e) = refl
  plain-engine seq s (err x, e) = refl

  pub naming-engine :
      (seq : ℕ) (s : Server) (o : Result TorrentId × Engine) → (naming seq s o).1.eng ≡ o.1
  unfolding naming
  naming-engine seq s (ok x, e) = refl
  naming-engine seq s (err x, e) = refl

  -- What is parsed is added; what is not reaches no call.
  abbrev pub parsed_call :
      Text → AddOpts → Answer (Unit {0}) → Answer (Unit {0}) → Answer lib.Torrent → List Call
  parsed_call magnet opts (fails x) mkdir answer = []
  parsed_call magnet opts (gives x) mkdir answer = adds magnet opts mkdir answer ∷ []

  -- A source of a batch is a magnet, or else the name of a file.
  abbrev pub source_calls : World → AddOpts → Text → List Call
  source_calls w opts src =
      parsed_call (if has_prefix src (codes "magnet:") then src else []) opts (w.parsed src)
        (w.mkdir opts.save_path) (w.added src)

  abbrev pub batch_calls : World → AddOpts → List Text → List Call
  batch_calls w opts [] = []
  batch_calls w opts (src ∷ srcs) = source_calls w opts src ++ batch_calls w opts srcs

  pub add_magnet-run_all :
      (uri : Text) (opts : AddOpts) (parsed mkdir : Answer (Unit {0})) (answer : Answer lib.Torrent)
      (e : Engine)
      → (add_magnet uri opts parsed mkdir answer e).1
        ≡ run_all (parsed_call uri opts parsed mkdir answer) e
  unfolding add_magnet run run_all
  add_magnet-run_all uri opts (fails x) mkdir answer e = refl
  add_magnet-run_all uri opts (gives x) mkdir answer e = refl

  pub add_torrent_file-run_all :
      (opts : AddOpts) (parsed mkdir : Answer (Unit {0})) (answer : Answer lib.Torrent) (e : Engine)
      → (add_torrent_file opts parsed mkdir answer e).1
        ≡ run_all (parsed_call [] opts parsed mkdir answer) e
  unfolding add_torrent_file run run_all
  add_torrent_file-run_all opts (fails x) mkdir answer e = refl
  add_torrent_file-run_all opts (gives x) mkdir answer e = refl

  add_source-run_all :
      (w : World) (opts : AddOpts) (src : Text) (e : Engine)
      → (add_source w opts src e).1 ≡ run_all (source_calls w opts src) e
  unfolding add_source
  add_source-run_all w opts src e = elim (Bool-cases (has_prefix src (codes "magnet:"))) [
    | inl b ↦
        rw b (add_magnet-run_all src opts (w.parsed src) (w.mkdir opts.save_path) (w.added src) e)
    | inr b ↦
        rw b (add_torrent_file-run_all opts (w.parsed src) (w.mkdir opts.save_path) (w.added src) e)
  ]

  batch_round-engine :
      (src : Text) (o : Result TorrentId × Engine)
      (rest : Engine → List TorrentId × List Message × Engine)
      → (batch_round src o rest).2 ≡ (rest o.1).2
  unfolding batch_round
  batch_round-engine src (ok id, e) rest = refl
  batch_round-engine src (err x, e) rest = refl

  pub add_batch-run_all :
      (w : World) (opts : AddOpts) (srcs : List Text) (e : Engine)
      → (add_batch w opts srcs e).2 ≡ run_all (batch_calls w opts srcs) e
  unfolding add_batch run_all
  add_batch-run_all w opts [] e = refl
  add_batch-run_all w opts (src ∷ srcs) e =
      let added = add_source w opts src e in
      batch_round-engine src added (λ e'. add_batch w opts srcs e')
      ∙ add_batch-run_all w opts srcs added.1
      ∙ ap (run_all (batch_calls w opts srcs)) (add_source-run_all w opts src e)
      ∙ sym (run_all-append (source_calls w opts src) (batch_calls w opts srcs) e)
