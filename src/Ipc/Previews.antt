-- ===== src/Ipc/Previews.antt =====
-- The history of a preview: a resume and a raised priority, or neither.
use torrnado.Common.{
  ℕ, ◌≡◌, refl, sym, ap, ◌∙◌, ◌⊎◌, List, [], ◌∷◌, ◌++◌, All, Bool, true, false, Option, none, some,
  if◌then◌else◌, inl, inr, Bool-cases,
}
use torrnado.Common.Text.{Text, codes}
use torrnado.Common.Int64.{Int64}
use torrnado.Engine.Library.{Float64, TorrentLib}
use torrnado.Engine.Types.{Priority}
use torrnado.Engine.State.{Engine, TorrentId, Result, ok, err}
use torrnado.Engine.Ops.{set_paused, set_file_priority}
use torrnado.Engine.Stream.{prepare_stream}
use torrnado.Engine.Ops.{with_tracked_rule}
use torrnado.Ipc.Protocol.{Request}
use torrnado.Ipc.Server.{Server, previewed, preview}
use mathlib.Core.Path.{subst}
use torrnado.Engine.Stream.{raised, raise_after, stream_found, lookup_file, wrapped, below_high}
use torrnado.Engine.Types.{from_lib_priority}
use torrnado.Engine.Calls.{Call, pauses, prioritizes, run, run_all}
use torrnado.Ipc.Histories.{run_all-append}

module _ ⦃fl : Float64⦄ ⦃lib : TorrentLib⦄ where
  -- What a preview may ask: to resume the torrent, and to raise the priority of the file.
  abbrev pub IsPreviewCall : TorrentId → Int64 → Call → Type 0
  IsPreviewCall id i c = (c ≡ pauses id false) ⊎ (c ≡ prioritizes id i Priority.high)

  -- A history of such calls that leads from one engine to another.
  abbrev pub Leads : TorrentId → Int64 → Engine → Engine → Type 0
  Leads id i e e' = (calls : List Call) × All (IsPreviewCall id i) calls × (e' ≡ run_all calls e)

  by_none : (id : TorrentId) (i : Int64) (e : Engine) → Leads id i e e
  unfolding run_all
  by_none id i e = ([], tt, refl)

  by_one :
      (id : TorrentId) (i : Int64) (c : Call) (e : Engine)
      → IsPreviewCall id i c
      → Leads id i e (run c e)
  unfolding run_all
  by_one id i c e p = (c ∷ [], (p, tt), refl)

  All-append : (P : Call → Type 0) (cs ds : List Call) → All P cs → All P ds → All P (cs ++ ds)
  All-append P [] ds h k = k
  All-append P (c ∷ cs) ds (p, h) k = (p, All-append P cs ds h k)

  by_both :
      (id : TorrentId) (i : Int64) (e e' e'' : Engine)
      → Leads id i e e'
      → Leads id i e' e''
      → Leads id i e e''
  by_both id i e e' e'' (cs, p, a) (ds, q, b) = (
    cs ++ ds,
    All-append (IsPreviewCall id i) cs ds p q,
    b ∙ ap (run_all ds) a ∙ sym (run_all-append cs ds e),
  )

  wrapped-engine : (t : Text) (o : Result (Unit {0}) × Engine) → (wrapped t o).1 ≡ o.1
  wrapped-engine t (ok x, e) = refl
  wrapped-engine t (err x, e) = refl

  raised-Leads : (id : TorrentId) (i : Int64) (e : Engine) → Leads id i e (raised id i e).1
  unfolding raised run
  raised-Leads id i e =
      with_tracked_rule (Leads id i e) id e
        (λ tr.
          if below_high (from_lib_priority (lib.priority tr.t i))
          then wrapped (codes "raise priority for streaming: ")
              (set_file_priority id i Priority.high e)
          else (ok tt, e))
        (by_none id i e)
        λ tr p. elim (Bool-cases (below_high (from_lib_priority (lib.priority tr.t i)))) [
          | inl b ↦ rw b (
              subst (Leads id i e)
                (sym (
                  wrapped-engine (codes "raise priority for streaming: ")
                    (set_file_priority id i Priority.high e)))
                (by_one id i (prioritizes id i Priority.high) e (inr refl)))
          | inr b ↦ rw b (by_none id i e)
        ]

  raise_after-Leads :
      (id : TorrentId) (i : Int64) (e : Engine) (o : Result (Unit {0}) × Engine)
      → Leads id i e o.1
      → Leads id i e (raise_after id i o).1
  unfolding raise_after
  raise_after-Leads id i e (err x, e') h = h
  raise_after-Leads id i e (ok x, e') h =
      by_both id i e e' (raised id i e').1 h (raised-Leads id i e')

  stream_found-Leads :
      (id : TorrentId) (i : Int64) (paused : Bool) (o : Result (Unit {0})) (e : Engine)
      → Leads id i e (stream_found id i paused o e).1
  unfolding stream_found run
  stream_found-Leads id i paused (err x) e = by_none id i e
  stream_found-Leads id i true (ok x) e =
      raise_after-Leads id i e (wrapped (codes "resume for streaming: ") (set_paused id false e)) (
        subst (Leads id i e)
          (sym (wrapped-engine (codes "resume for streaming: ") (set_paused id false e)))
          (by_one id i (pauses id false) e (inl refl)))
  stream_found-Leads id i false (ok x) e = raise_after-Leads id i e (ok tt, e) (by_none id i e)

  prepare_stream-Leads :
      (id : TorrentId) (i : Int64) (e : Engine) → Leads id i e (prepare_stream id i e).1
  unfolding prepare_stream
  prepare_stream-Leads id i e =
      with_tracked_rule (Leads id i e) id e (λ tr. stream_found id i tr.paused (lookup_file i tr) e)
        (by_none id i e) λ tr p. stream_found-Leads id i tr.paused (lookup_file i tr) e

  previewed-engine :
      (seq : ℕ) (url : Text) (s : Server) (o : Result (Unit {0}) × Engine)
      → (previewed seq url s o).1.eng ≡ o.1
  unfolding previewed
  previewed-engine seq url s (ok x, e) = refl
  previewed-engine seq url s (err x, e) = refl

  pub preview-Leads :
      (req : Request) (s : Server) (o : Option (TorrentId → Int64 → Text))
      → Leads req.id req.file_index s.eng (preview req s o).1.eng
  unfolding preview
  preview-Leads req s none = by_none req.id req.file_index s.eng
  preview-Leads req s (some url) =
      subst (Leads req.id req.file_index s.eng)
        (sym (
          previewed-engine req.seq (url req.id req.file_index) s
            (prepare_stream req.id req.file_index s.eng)))
        (prepare_stream-Leads req.id req.file_index s.eng)
