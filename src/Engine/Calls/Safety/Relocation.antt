-- ===== src/Engine/Calls/Safety/Relocation.antt =====
-- A purge keeps an engine safe, and so does a move that fails and the end of any check.
use torrnado.Common.{ℕ, ◌≢◌, refl, arith, inl, inr, Bool-cases}
use torrnado.Common.Text.{Text}
use torrnado.Engine.Library.{Float64, TorrentLib, TorrentLaws}
use torrnado.Engine.State.{
  Guards, any, Tracked, Engine, TorrentId, guards_locked, Answer, gives, fails,
}
use torrnado.Engine.Snapshot.{snapshot_and_broadcast_now}
use torrnado.Engine.Flow.{IsStill}
use torrnado.Engine.Flow.{turn-IsStill}
use torrnado.Engine.Ops.{with_tracked_rule, on_tracked_rule}
use torrnado.Engine.Relocate.{
  purge_data, move_storage, MoveAnswers, move_verified, force_recheck, recheck_ended, quiesced,
  purge_begun, purge_readd, fold_counters,
}
use torrnado.Engine.Calls.Safety.{
  StillIfHeld, IsSafe, Alike-IsSafe, persist-Alike, broadcast-Alike, put-IsSafe,
  announce-put-IsSafe, found-StillIfHeld, turn-StillIfHeld,
}
use torrnado.Engine.Relocate.{move_failed, move_readd, move_files, move_into, move_begun}

module _ ⦃fl : Float64⦄ ⦃lib : TorrentLib⦄ where
  -- The answers of a move whose torrent the library does not take back.
  abbrev pub NotReadded : MoveAnswers → Type 0
  NotReadded a = (fresh : lib.Torrent) → a.readded ≢ gives fresh

module _ ⦃fl : Float64⦄ ⦃lib : TorrentLib⦄ (laws : TorrentLaws lib) where
  -- A torrent as it was dropped is paused, held and still.
  dropped-IsStill : (g : Guards) (tr : Tracked) → IsStill (fold_counters (purge_begun g tr)).t
  unfolding fold_counters purge_begun
  dropped-IsStill g tr = turn-IsStill laws g _ refl

  purge_readd-IsSafe :
      (id : TorrentId) (rebuilt : Answer (Unit {0})) (answer : Answer lib.Torrent) (tr : Tracked)
      (e : Engine)
      → IsStill tr.t
      → IsSafe e
      → IsSafe (purge_readd id rebuilt answer tr e).1
  unfolding purge_readd
  purge_readd-IsSafe id (fails x) answer tr e s h = announce-put-IsSafe id _ e (λ held. s) h
  purge_readd-IsSafe id (gives _) (fails x) tr e s h = announce-put-IsSafe id _ e (λ held. s) h
  purge_readd-IsSafe id (gives _) (gives fresh) tr e s h =
      announce-put-IsSafe id _ e (turn-StillIfHeld laws (guards_locked e) _) h

  pub purge_data-IsSafe :
      (id : TorrentId) (rebuilt : Answer (Unit {0})) (answer : Answer lib.Torrent) (e : Engine)
      → IsSafe e
      → IsSafe (purge_data id rebuilt answer e).1
  unfolding purge_data
  purge_data-IsSafe id rebuilt answer e h = with_tracked_rule IsSafe id e _ h λ tr p.
      elim (Bool-cases (lib.has_info tr.t)) [
        | inl i ↦ rw i (
            purge_readd-IsSafe id rebuilt answer _ e
              (dropped-IsStill (guards_locked e) (quiesced tr)) h)
        | inr i ↦ rw i (put-IsSafe id _ e (found-StillIfHeld id e h p) h)
      ]

  -- A move that fails leaves the torrent with its switches turned.
  move_failed-IsSafe :
      (id : TorrentId) (tr : Tracked) (x : Text) (e : Engine)
      → IsSafe e
      → IsSafe (move_failed id tr x e).1
  unfolding move_failed snapshot_and_broadcast_now
  move_failed-IsSafe id tr x e h =
      Alike-IsSafe (broadcast-Alike _ _)
        (put-IsSafe id _ e (turn-StillIfHeld laws (guards_locked e) _) h)

  -- A torrent that a move holds is still, also once its counters are folded.
  begun-IsStill : (g : Guards) (tr : Tracked) → IsStill (move_begun g tr).t
  unfolding move_begun any
  begun-IsStill g tr = turn-IsStill laws g _ (ground arith)

  move_readd_fails-IsSafe :
      (id : TorrentId) (dir : Text) (ctx : ℕ) (x : Text) (tr : Tracked) (e : Engine)
      → IsStill tr.t
      → IsSafe e
      → IsSafe (move_readd id dir ctx (fails x) tr e).1
  unfolding move_readd
  move_readd_fails-IsSafe id dir ctx x tr e s h =
      move_failed-IsSafe id (record tr { save_path = dir }) _ _
        (Alike-IsSafe (persist-Alike _) (put-IsSafe id _ e (λ held. s) h))

  move_files-IsSafe :
      (id : TorrentId) (dir : Text) (ctx : ℕ) (moved rebuilt : Answer (Unit {0}))
      (answer : Answer lib.Torrent) (tr : Tracked) (e : Engine)
      → ((fresh : lib.Torrent) → answer ≢ gives fresh)
      → IsStill tr.t
      → IsSafe e
      → IsSafe (move_files id dir ctx moved rebuilt answer tr e).1
  unfolding move_files fold_counters
  move_files-IsSafe id dir ctx (fails x) rebuilt answer tr e n s h = move_failed-IsSafe id tr x e h
  move_files-IsSafe id dir ctx (gives _) (fails x) answer tr e n s h =
      move_failed-IsSafe id tr _ e h
  move_files-IsSafe id dir ctx (gives _) (gives _) (fails x) tr e n s h =
      move_readd_fails-IsSafe id dir ctx x (fold_counters tr) e s h
  move_files-IsSafe id dir ctx (gives _) (gives _) (gives fresh) tr e n s h = absurd (n fresh refl)

  move_into-IsSafe :
      (id : TorrentId) (dir : Text) (ctx : ℕ) (mkdir : Answer (Unit {0})) (a : MoveAnswers)
      (tr : Tracked) (e : Engine)
      → NotReadded a
      → StillIfHeld (guards_locked e) tr
      → IsSafe e
      → IsSafe (move_into id dir ctx mkdir a tr e).1
  unfolding move_into
  move_into-IsSafe id dir ctx (fails x) a tr e n k h = put-IsSafe id tr e k h
  move_into-IsSafe id dir ctx (gives _) a tr e n k h =
      move_files-IsSafe id dir ctx a.moved a.rebuilt a.readded _ e n
        (begun-IsStill (guards_locked e) tr) h

  pub move_fails-IsSafe :
      (id : TorrentId) (dir : Text) (ctx : ℕ) (a : MoveAnswers) (e : Engine)
      → NotReadded a
      → IsSafe e
      → IsSafe (move_storage id dir ctx a e).1
  unfolding move_storage
  move_fails-IsSafe id dir ctx a e n h = with_tracked_rule IsSafe id e _ h λ tr p.
      elim (Bool-cases (lib.has_info tr.t)) [
        | inl i ↦
            rw i (
              move_into-IsSafe id dir ctx a.mkdir a (quiesced tr) e n (found-StillIfHeld id e h p)
                h)
        | inr i ↦ rw i (put-IsSafe id _ e (found-StillIfHeld id e h p) h)
      ]

  pub move_verified-IsSafe :
      (id : TorrentId) (ctx : ℕ) (v : Answer (Unit {0})) (e : Engine)
      → IsSafe e
      → IsSafe (move_verified id ctx v e)
  unfolding move_verified snapshot_and_broadcast_now
  move_verified-IsSafe id ctx v e h = on_tracked_rule IsSafe id e _ h λ tr p.
      Alike-IsSafe (broadcast-Alike _ _)
        (put-IsSafe id _ e (turn-StillIfHeld laws (guards_locked e) _) h)

  pub force_recheck-IsSafe :
      (id : TorrentId) (ctx : ℕ) (e : Engine) → IsSafe e → IsSafe (force_recheck id ctx e).1
  unfolding force_recheck snapshot_and_broadcast_now
  force_recheck-IsSafe id ctx e h = with_tracked_rule IsSafe id e _ h λ tr p.
      elim (Bool-cases (lib.has_info tr.t)) [
        | inl i ↦
            rw i (
              Alike-IsSafe (broadcast-Alike _ _) (put-IsSafe id _ e (found-StillIfHeld id e h p) h))
        | inr i ↦ rw i h
      ]

  pub recheck_ended-IsSafe :
      (id : TorrentId) (ctx : ℕ) (v : Answer (Unit {0})) (e : Engine)
      → IsSafe e
      → IsSafe (recheck_ended id ctx v e)
  unfolding recheck_ended snapshot_and_broadcast_now
  recheck_ended-IsSafe id ctx v e h =
      on_tracked_rule IsSafe id e _ h λ tr p.
        Alike-IsSafe (broadcast-Alike _ _) (put-IsSafe id _ e (found-StillIfHeld id e h p) h)
