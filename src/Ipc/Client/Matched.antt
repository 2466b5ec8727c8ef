-- ===== src/Ipc/Client/Matched.antt =====
-- internal/ipc/client.go: the reader never waits for a caller, every caller gets the reply to its own
-- call, and no caller is left waiting when the connection is gone.
use torrnado.Common.{
  ℕ, ◌≡◌, refl, ap, sym, ◌∙◌, inl, inr, Bool, true, false, Option, none, some, List, [], ◌∷◌, arith,
  Bool-cases, ◌==◌, ==_iff, if◌then◌else◌,
}
use mathlib.Core.Path.{subst}
use mathlib.Core.Option.{some-injective}
use torrnado.Common.Text.{Text}
use torrnado.Engine.Library.{Float64, TorrentLib}
use torrnado.Indexer.Result.{Strings}
use torrnado.Ipc.Protocol.{Response}
use torrnado.Ipc.Server.{World, Server, dispatch}
use torrnado.Ipc.Replies.{dispatch-Answers}
use torrnado.Ipc.Client.{
  Call, request, Reply, Client, at, dial, begin_call, abandon, deliver, receive, push_event,
  failed_slot, fail_all_pending, take, close, Step, step, and_then, step_all,
}

module _ ⦃fl : Float64⦄ where
  -- A call that is pending has an empty channel; a channel that holds
  -- a response holds the one with its own number.
  pub record IsMatched (c : Client) : Type 0 where
    pub empty : (n : ℕ) → c.pending n ≡ true → c.chan n ≡ none
    pub own : (n : ℕ) (r : Response) → c.chan n ≡ some (Reply.answered r) → r.seq ≡ n

  dial-IsMatched : IsMatched dial
  unfolding dial
  dial-IsMatched = record { empty = λ n p. refl; own = λ n r e. cc }

  begin_call-IsMatched : (c : Client) → IsMatched c → IsMatched (begin_call c)
  unfolding begin_call
  begin_call-IsMatched c m = record {
    empty = λ n p. ground (arith, m.empty n);
    own = λ n r e. ground (arith, m.own n r);
  }

  abandon-IsMatched : (k : ℕ) (c : Client) → IsMatched c → IsMatched (abandon k c)
  unfolding abandon
  abandon-IsMatched k c m = record {
    empty = λ n p. ground (arith, m.empty n);
    own = λ n r e. m.own n r e;
  }

  take-IsMatched : (k : ℕ) (c : Client) → IsMatched c → IsMatched (take k c)
  unfolding take
  take-IsMatched k c m = record {
    empty = λ n p. ground (arith, m.empty n);
    own = λ n r e. ground (arith, m.own n r);
  }

  failed_own :
      (why : Text) (n : ℕ) (r : Response) (b : Bool) (slot : Option Reply)
      → (slot ≡ some (Reply.answered r) → r.seq ≡ n)
      → failed_slot why b slot ≡ some (Reply.answered r)
      → r.seq ≡ n
  unfolding failed_slot
  failed_own why n r true slot own e = cc
  failed_own why n r false slot own e = own e

  fail_all_pending-IsMatched :
      (why : Text) (c : Client) → IsMatched c → IsMatched (fail_all_pending why c)
  unfolding fail_all_pending failed_slot
  fail_all_pending-IsMatched why c m = record {
    empty = λ n p. cc;
    own = λ n r e. failed_own why n r (c.pending n) (c.chan n) (m.own n r) e;
  }

  -- What `readLoop` does with a reply: it is put where its caller waits, or dropped.
  receive_lem :
      (r : Response) (c : Client)
      → IsMatched c
      → receive r c
        ≡ some (record c {
          pending = at r.seq false c.pending;
          chan = if c.pending r.seq then at r.seq (some (Reply.answered r)) c.chan else c.chan;
        })
  unfolding receive deliver
  receive_lem r c m = elim (Bool-cases (c.pending r.seq)) [
    | inl b ↦ rw (b, m.empty r.seq b) refl
    | inr b ↦ rw b refl
  ]

  answered_own :
      (n k : ℕ) (r q : Response)
      → r.seq ≡ k
      → n ≡ k
      → some (Reply.answered r) ≡ some (Reply.answered q)
      → q.seq ≡ n
  answered_own n k r q e same h = cc

  received-IsMatched :
      (r : Response) (b : Bool) (c : Client)
      → c.pending r.seq ≡ b
      → IsMatched c
      → IsMatched (record c {
        pending = at r.seq false c.pending;
        chan = if b then at r.seq (some (Reply.answered r)) c.chan else c.chan;
      })
  received-IsMatched r b c e m = record {
    empty = λ n p. ground (arith, m.empty n);
    own = λ n q h. own b n q h;
  }
    where
      own :
          (b : Bool) (n : ℕ) (q : Response)
          → (if b then at r.seq (some (Reply.answered r)) c.chan else c.chan) n
            ≡ some (Reply.answered q)
          → q.seq ≡ n
      own true n q h = elim (Bool-cases (n == r.seq)) [
        | inl same ↦ answered_own n r.seq r q refl ((==_iff n r.seq).0 same) (rw same at h)
        | inr other ↦ m.own n q (rw other at h)
      ]
      own false n q h = m.own n q h

  step-IsMatched :
      (s : Step) (c : Client) → IsMatched c → (c' : Client) × (step s c ≡ some c') × IsMatched c'
  unfolding step push_event close
  step-IsMatched Step.begin c m = (begin_call c, refl, begin_call-IsMatched c m)
  step-IsMatched Step.shut c m = (close c, refl, record { empty = m.empty; own = m.own })
  step-IsMatched (Step.give_up n) c m = (abandon n c, refl, abandon-IsMatched n c m)
  step-IsMatched (Step.taken n) c m = (take n c, refl, take-IsMatched n c m)
  step-IsMatched (Step.reply r) c m =
      (_, receive_lem r c m, received-IsMatched r (c.pending r.seq) c refl m)
  step-IsMatched (Step.event ev) c m =
      (push_event ev c, refl, record { empty = m.empty; own = m.own })
  step-IsMatched (Step.lost why) c m =
      (fail_all_pending why c, refl, fail_all_pending-IsMatched why c m)

  -- What any steps lead to: the reader never waits, and the replies stay matched.
  stepped :
      (ss : List Step) (c : Client)
      → IsMatched c
      → (c' : Client) × (step_all ss c ≡ some c') × IsMatched c'
  unfolding step_all and_then
  stepped [] c m = (c, refl, m)
  stepped (s ∷ ss) c m =
      let (c1, e1, m1) = step-IsMatched s c m in
      let (c2, e2, m2) = stepped ss c1 m1 in (c2, rw e1 e2, m2)

  -- Whether a channel holds no response but the one of this number.
  pub is_own : ℕ → Option Reply → Bool
  is_own n none = true
  is_own n (some (Reply.broken why)) = true
  is_own n (some (Reply.answered r)) = r.seq == n

  is_own_lem :
      (n : ℕ) (o : Option Reply)
      → ((r : Response) → o ≡ some (Reply.answered r) → r.seq ≡ n)
      → is_own n o ≡ true
  unfolding is_own
  is_own_lem n none own = refl
  is_own_lem n (some (Reply.broken why)) own = refl
  is_own_lem n (some (Reply.answered r)) own = (==_iff r.seq n).1 (own r refl)

  -- From a fresh connection, whatever calls begin, give up or read their reply, and whatever
  -- responses, events and losses of the connection arrive, in any order: every step is taken, so
  -- the reader never waits on a caller's channel; and a response that lies in a call's channel is
  -- the one with that call's number.
  pub calls_matched :
      (ss : List Step)
      → (c : Client) × (step_all ss dial ≡ some c) × ((n : ℕ) → is_own n (c.chan n) ≡ true)
  calls_matched ss =
      let (c, e, m) = stepped ss dial dial-IsMatched in
      (c, e, λ n. is_own_lem n (c.chan n) (m.own n))

  request-seq : (n : ℕ) (a : Call) → (request n a).seq ≡ n
  unfolding request
  request-seq n Call.ping = refl
  request-seq n Call.list = refl
  request-seq n Call.search_sources = refl
  request-seq n Call.shutdown = refl
  request-seq n (Call.add_magnet a b) = refl
  request-seq n (Call.add_torrent_file a b) = refl
  request-seq n (Call.add_batch a b) = refl
  request-seq n (Call.remove a b) = refl
  request-seq n (Call.set_paused a b) = refl
  request-seq n (Call.purge_data a) = refl
  request-seq n (Call.force_recheck a) = refl
  request-seq n (Call.detail a) = refl
  request-seq n (Call.set_file_priority a b c) = refl
  request-seq n (Call.set_global_upload_limit a) = refl
  request-seq n (Call.set_global_download_limit a) = refl
  request-seq n (Call.set_torrent_rate_limit a b c) = refl
  request-seq n (Call.set_seed_limit a b c) = refl
  request-seq n (Call.set_label a b) = refl
  request-seq n (Call.move_storage a b) = refl
  request-seq n (Call.search a) = refl
  request-seq n (Call.resolve_link a) = refl
  request-seq n (Call.preview_url a b) = refl

  -- What `readLoop` does with a reply whose caller still waits.
  Delivered : Client → Response → ℕ → Type 0
  Delivered c r n =
      (c' : Client) × (receive r c ≡ some c')
      × (c'.chan n ≡ some (Reply.answered r))
      × ((k : ℕ) → (k == n) ≡ false → c'.chan k ≡ c.chan k)

  delivered :
      (c : Client) → IsMatched c → (r : Response) → c.pending r.seq ≡ true → Delivered c r r.seq
  unfolding Delivered
  delivered c m r p = (
    record c {
      pending = at r.seq false c.pending;
      chan = at r.seq (some (Reply.answered r)) c.chan;
    },
    receive_lem r c m ∙ rw p refl,
    ground arith,
    λ k other. rw other refl,
  )

  -- When a call that is pending after any steps has its request answered by the daemon: what the
  -- daemon answers is put in that call's channel, and the channel of every other call stays as it
  -- was.
  pub call_gets_its_answer :
      ⦃lib : TorrentLib⦄
      → ⦃str : Strings⦄ → (ss : List Step) (c : Client) → step_all ss dial ≡ some c
      → (w : World) (s s' : Server) (n : ℕ) (a : Call) (r : Response) → c.pending n ≡ true
      → dispatch w (request n a) s ≡ some (r, s')
      → (c' : Client) × (receive r c ≡ some c')
        × (c'.chan n ≡ some (Reply.answered r))
        × ((k : ℕ) → (k == n) ≡ false → c'.chan k ≡ c.chan k)
  unfolding Delivered
  call_gets_its_answer ss c e w s s' n a r p d =
      let (c0, e0, m0) = stepped ss dial dial-IsMatched in
      let m : IsMatched c = subst IsMatched (some-injective _ _ (sym e0 ∙ e)) m0 in
      let q : r.seq ≡ n = (dispatch-Answers w (request n a) s s' r d).0 ∙ request-seq n a in
      subst (Delivered c r) q (delivered c m r (ap c.pending q ∙ p))
