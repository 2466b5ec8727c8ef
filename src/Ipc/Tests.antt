-- ===== src/Ipc/Tests.antt =====
-- The theorems about internal/ipc at concrete inputs.
use torrnado.Common.{ℕ, ◌≡◌, ◌==◌, refl, true, false, ◌∷◌, none, some, List, []}
use torrnado.Common.Text.{codes}
use torrnado.Engine.Types.{Priority}
use torrnado.Engine.State.{gives, fails}
use torrnado.Engine.Sample.{whole_numbers, sample_library, fresh, engine}
use torrnado.Engine.Ops.{set_paused}
use torrnado.Engine.Stream.{Cap}
use torrnado.Engine.Calls.{Call, run_all}
use torrnado.Indexer.Result.{Strings}
use torrnado.Indexer.Multi.{nothing}
use torrnado.Ipc.Protocol.{Method, Request, Response}
use torrnado.Ipc.Client
use torrnado.Ipc.Client.{
  Client, Step, Reply, dial, step, and_then, step_all, begin_call, receive, request, next_seq,
}
use torrnado.Ipc.Client.Matched.{is_own, calls_matched, call_gets_its_answer}
use torrnado.Ipc.Server.{World, Server, dispatch, dispatch_on, plain}
use torrnado.Ipc.Replies.{Answers, dispatch-Answers}
use torrnado.Ipc.Refinement.{Asks, dispatch-run_all}

abbrev simple_strings : Strings
simple_strings = record { lower = λ s. s; trim = λ s. s }

abbrev answers : World
answers = record {
  parsed = λ src. gives tt;
  mkdir = λ dir. gives tt;
  added = λ src. fails (codes "closed");
  rebuilt = gives tt;
  readded = gives fresh;
  moves = record {
    mkdir = gives tt;
    moved = gives tt;
    rebuilt = gives tt;
    readded = fails (codes "closed");
  };
  ctx = 0;
}

abbrev server : Server
server = record {
  eng = engine;
  up_limiter = Cap.inf;
  down_limiter = Cap.inf;
  preview_url = none;
  searcher = nothing;
}

-- A client resumes a torrent.
abbrev resume : Request
resume = record {
  seq = 7;
  method = Method.set_paused;
  id = codes "ab";
  source = [];
  sources = [];
  opts = record { save_path = []; paused = false; files = [] };
  delete_data = false;
  paused = false;
  file_index = 0;
  priority = Priority.none;
  upload_bps = 0;
  download_bps = 0;
  seed_ratio = 0;
  seed_time = 0;
  label = [];
  new_dir = [];
  query = [];
  token = [];
}

abbrev resumed : Response × Server
resumed = plain 7 server (set_paused (codes "ab") false engine)

resume_served : dispatch ⦃str = simple_strings⦄ answers resume server ≡ some (resumed.0, resumed.1)
unfolding dispatch dispatch_on
resume_served = refl

dispatch-Answers_example : Answers 7 resumed.0
dispatch-Answers_example =
    dispatch-Answers ⦃str = simple_strings⦄ answers resume server resumed.1 resumed.0 resume_served

dispatch-run_all_example :
    (calls : List Call) × Asks Method.set_paused answers resume calls
    × (resumed.1.eng ≡ run_all calls engine)
dispatch-run_all_example =
    dispatch-run_all ⦃str = simple_strings⦄ answers resume server resumed.1 resumed.0 resume_served

-- Two calls begin, and the second is answered first.
abbrev calls : List Step
calls = Step.begin ∷ Step.begin ∷ Step.reply (record resumed.0 { seq = 2 }) ∷ Step.taken 2 ∷ []

calls_matched_example :
    (c : Client) × (step_all calls dial ≡ some c) × ((n : ℕ) → is_own n (c.chan n) ≡ true)
calls_matched_example = calls_matched calls

-- Two calls wait.
abbrev waiting : Client
waiting = begin_call (begin_call dial)

both_begun : step_all (Step.begin ∷ Step.begin ∷ []) dial ≡ some waiting
unfolding step_all step and_then
both_begun = refl

first_pending : waiting.pending 1 ≡ true
unfolding begin_call next_seq dial
first_pending = refl

abbrev first_call : Client.Call
first_call = Client.Call.set_paused (codes "ab") false

abbrev first_reply : Response × Server
first_reply = plain 1 server (set_paused (codes "ab") false engine)

first_served :
    dispatch ⦃str = simple_strings⦄ answers (request 1 first_call) server
    ≡ some (first_reply.0, first_reply.1)
unfolding dispatch dispatch_on request
first_served = refl

call_gets_its_answer_example :
    (c : Client) × (receive first_reply.0 waiting ≡ some c)
    × (c.chan 1 ≡ some (Reply.answered first_reply.0))
    × ((k : ℕ) → (k == 1) ≡ false → c.chan k ≡ waiting.chan k)
call_gets_its_answer_example =
    call_gets_its_answer ⦃str = simple_strings⦄ (Step.begin ∷ Step.begin ∷ []) waiting both_begun
      answers server first_reply.1 1 first_call first_reply.0 first_pending first_served
