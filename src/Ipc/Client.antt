-- ===== src/Ipc/Client.antt =====
-- internal/ipc/client.go: the calls of a client that are under way, what its one reader does with what
-- arrives, and the requests that its methods send. A step here is one section under the client's
-- lock, or one receive; the goroutines take them in any order.
pub mod Matched
use torrnado.Common.{
  ℕ, ◌+◌, ◌%◌, ◌^◌, Bool, true, false, Option, none, some, List, [], ◌∷◌, ◌==◌, if◌then◌else◌,
}
use torrnado.Common.Text.{Text}
use torrnado.Common.Int64.{Int64}
use torrnado.Engine.Library.{Float64}
use torrnado.Engine.Types.{Priority}
use torrnado.Engine.State.{AddOpts, TorrentId, Event, Result, ok, err, within}
use torrnado.Indexer.Token.{parse_token}
use torrnado.Ipc.Protocol.{Method, Request, Response}

module _ ⦃fl : Float64⦄ where
  -- The methods of `Client` that send a request.
  pub data Call : Type 0 where
    ping list search_sources shutdown : Call
    add_magnet add_torrent_file : Text → AddOpts → Call
    add_batch : List Text → AddOpts → Call
    remove set_paused : TorrentId → Bool → Call
    purge_data force_recheck detail : TorrentId → Call
    set_file_priority : TorrentId → Int64 → Priority → Call
    set_global_upload_limit set_global_download_limit : Int64 → Call
    set_torrent_rate_limit : TorrentId → Int64 → Int64 → Call
    set_seed_limit : TorrentId → fl.Float → Int64 → Call
    set_label move_storage : TorrentId → Text → Call
    search resolve_link : Text → Call
    preview_url : TorrentId → Int64 → Call

  -- A request with no field but its number and its method.
  abbrev pub bare : ℕ → Method → Request
  bare seq method = record {
    seq = seq;
    method = method;
    id = [];
    source = [];
    sources = [];
    opts = record { save_path = []; paused = false; files = [] };
    delete_data = false;
    paused = false;
    file_index = 0;
    priority = Priority.none;
    upload_bps = 0;
    download_bps = 0;
    seed_ratio = fl.zero;
    seed_time = 0;
    label = [];
    new_dir = [];
    query = [];
    token = [];
  }

  unfoldable pub request : ℕ → Call → Request
  request n Call.ping = bare n Method.ping
  request n Call.list = bare n Method.list
  request n Call.search_sources = bare n Method.search_sources
  request n Call.shutdown = bare n Method.shutdown
  request n (Call.add_magnet uri opts) = record (bare n Method.add_magnet) {
    source = uri;
    opts = opts;
  }
  request n (Call.add_torrent_file path opts) = record (bare n Method.add_torrent_file) {
    source = path;
    opts = opts;
  }
  request n (Call.add_batch srcs opts) = record (bare n Method.add_batch) {
    sources = srcs;
    opts = opts;
  }
  request n (Call.remove id delete_data) = record (bare n Method.remove) {
    id = id;
    delete_data = delete_data;
  }
  request n (Call.set_paused id paused) = record (bare n Method.set_paused) {
    id = id;
    paused = paused;
  }
  request n (Call.purge_data id) = record (bare n Method.purge_data) { id = id }
  request n (Call.force_recheck id) = record (bare n Method.force_recheck) { id = id }
  request n (Call.detail id) = record (bare n Method.detail) { id = id }
  request n (Call.set_file_priority id i p) = record (bare n Method.set_file_priority) {
    id = id;
    file_index = i;
    priority = p;
  }
  request n (Call.set_global_upload_limit bps) = record (bare n Method.set_global_upload_limit) {
    upload_bps = bps;
  }
  request n (Call.set_global_download_limit bps) =
      record (bare n Method.set_global_download_limit) { download_bps = bps }
  request n (Call.set_torrent_rate_limit id up down) =
      record (bare n Method.set_torrent_rate_limit) {
        id = id;
        upload_bps = up;
        download_bps = down;
      }
  request n (Call.set_seed_limit id ratio time) = record (bare n Method.set_seed_limit) {
    id = id;
    seed_ratio = ratio;
    seed_time = time;
  }
  request n (Call.set_label id label) = record (bare n Method.set_label) { id = id; label = label }
  request n (Call.move_storage id dir) = record (bare n Method.move_storage) {
    id = id;
    new_dir = dir;
  }
  request n (Call.search query) = record (bare n Method.search) { query = query }
  request n (Call.resolve_link token) = record (bare n Method.resolve_link) { token = token }
  request n (Call.preview_url id i) = record (bare n Method.preview_url) { id = id; file_index = i }

  -- What a caller's channel holds: a response of the daemon, or the word that the connection is gone.
  pub data Reply : Type 0 where
    answered : Response → Reply
    broken : Text → Reply

  -- `Client`: the numbers in `pending`, and the channel of each call, which has one slot. A call's
  -- channel is named by its number.
  pub record Client : Type 0 where
    pub seq : ℕ
    pub pending : ℕ → Bool
    pub chan : ℕ → Option Reply
    pub events : Option Event
    pub closed : Bool

  abbrev pub at {ℓ} : {A : Type ℓ} → ℕ → A → (ℕ → A) → ℕ → A
  at n a f k = if k == n then a else f k

  unfoldable pub dial : Client
  dial = record { seq = 0; pending = λ n. false; chan = λ n. none; events = none; closed = false }

  -- `c.seq++` on a `uint64`
  unfoldable pub next_seq : ℕ → ℕ
  next_seq n = (n + 1) % 2 ^ 64

  -- The first section of `callFor`.
  unfoldable pub begin_call : Client → Client
  unfolding next_seq
  begin_call c =
      let n = next_seq c.seq in
      record c { seq = n; pending = at n true c.pending; chan = at n none c.chan }

  -- The end of a call that could not be sent, or that waited too long.
  unfoldable pub abandon : ℕ → Client → Client
  abandon n c = record c { pending = at n false c.pending }

  -- A send on a channel that has a value in its slot waits: the step is none.
  unfoldable pub deliver : ℕ → Reply → Option Reply → Client → Option Client
  deliver n r none c = some (record c { chan = at n (some r) c.chan })
  deliver n r (some old) c = none

  -- `readLoop` on a reply.
  unfoldable pub receive : Response → Client → Option Client
  unfolding deliver
  receive r c =
      if c.pending r.seq
      then deliver r.seq (answered r) (c.chan r.seq)
          (record c { pending = at r.seq false c.pending })
      else some (record c { pending = at r.seq false c.pending })

  -- `pushEvent`
  unfoldable pub push_event : Event → Client → Client
  push_event ev c = record c { events = some ev }

  -- `failAllPending` on one call, and on all. The slot of a call that is pending is empty, so none of
  -- these sends waits.
  unfoldable pub failed_slot : Text → Bool → Option Reply → Option Reply
  failed_slot why true slot = some (broken why)
  failed_slot why false slot = slot

  unfoldable pub fail_all_pending : Text → Client → Client
  unfolding failed_slot
  fail_all_pending why c = record c {
    pending = λ n. false;
    chan = λ n. failed_slot why (c.pending n) (c.chan n);
  }

  -- The receive in `callFor`, which empties the slot.
  unfoldable pub take : ℕ → Client → Client
  take n c = record c { chan = at n none c.chan }

  -- `Close`
  unfoldable pub close : Client → Client
  close c = record c { closed = true }

  pub data Step : Type 0 where
    begin shut : Step
    give_up taken : ℕ → Step
    reply : Response → Step
    event : Event → Step
    lost : Text → Step

  unfoldable pub step : Step → Client → Option Client
  unfolding begin_call abandon receive push_event fail_all_pending take close
  step Step.begin c = some (begin_call c)
  step Step.shut c = some (close c)
  step (Step.give_up n) c = some (abandon n c)
  step (Step.taken n) c = some (take n c)
  step (Step.reply r) c = receive r c
  step (Step.event ev) c = some (push_event ev c)
  step (Step.lost why) c = some (fail_all_pending why c)

  unfoldable pub and_then : (Client → Option Client) → Option Client → Option Client
  and_then f none = none
  and_then f (some c) = f c

  unfoldable pub step_all : List Step → Client → Option Client
  unfolding and_then
  step_all [] c = some c
  step_all (s ∷ ss) c = and_then (step_all ss) (step s c)

-- `ResolveLinks`, over what the daemon answers to a token.
unfoldable pub resolved_with : Text → Result Text → Result (List Text) → Result (List Text)
resolved_with arg (err e) rest = err (within arg e)
resolved_with arg (ok link) (ok links) = ok (link ∷ links)
resolved_with arg (ok link) (err e) = err e

unfoldable pub with_arg : Text → Result (List Text) → Result (List Text)
with_arg arg (ok links) = ok (arg ∷ links)
with_arg arg (err e) = err e

unfoldable pub resolve_links : (Text → Result Text) → List Text → Result (List Text)
unfolding resolved_with with_arg
resolve_links resolve [] = ok []
resolve_links resolve (arg ∷ rest) = elim (parse_token arg) [
  | none ↦ with_arg arg (resolve_links resolve rest)
  | some t ↦ resolved_with arg (resolve arg) (resolve_links resolve rest)
]
