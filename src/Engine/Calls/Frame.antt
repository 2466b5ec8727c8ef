-- ===== src/Engine/Calls/Frame.antt =====
-- Each call changes one torrent: every other is as it was.
use torrnado.Common.{ℕ, ◌≡◌, refl, ap, ◌∙◌, Bool, true, false, arith, inl, inr, Bool-cases}
use torrnado.Common.Text.{Text, text_eq}
use torrnado.Common.Keys
use torrnado.Engine.Library.{Float64, TorrentLib}
use torrnado.Engine.State.{
  Tracked, Engine, AddOpts, TorrentId, Result, ok, err, Answer, gives, fails,
}
use torrnado.Engine.Snapshot.{broadcast, snapshot_and_broadcast_now}
use torrnado.Engine.Session.{announce, remove_metainfo}
use torrnado.Engine.Ops.{
  with_tracked_rule, on_tracked_rule, set_paused, set_file_priority, set_torrent_rate_limit,
  set_seed_limit, remove_torrent, add_spec, put, set_prioritized, add_in, save_dir,
}
use torrnado.Engine.Label.{set_label, normalize_label, set_normalized}
use torrnado.Engine.Relocate.{
  purge_data, move_storage, MoveAnswers, move_verified, force_recheck, recheck_ended, quiesced,
  purge_failed, purge_readd,
}
use torrnado.Engine.Metadata.{metadata_received}
use torrnado.Engine.Calls.{Call, run}
use torrnado.Engine.Calls.Safety.{persist-Alike}
use torrnado.Engine.Ops.Files.{torrents-announce}
use torrnado.Engine.Relocate.{move_readd, move_files, move_into, move_failed}
use torrnado.Engine.Calls.{
  pauses, prioritizes, limits_rates, limits_seeding, labels, removes, adds, purges, moves, moved,
  rechecks, rechecked, informs, ticks,
}

module _ ⦃fl : Float64⦄ ⦃lib : TorrentLib⦄ where
  -- May the call change the torrent `j`? (A tick may change every one.)
  abbrev pub touches : Call → TorrentId → Bool
  touches (pauses id b) j = text_eq id j
  touches (prioritizes id i p) j = text_eq id j
  touches (limits_rates id up down) j = text_eq id j
  touches (limits_seeding id r t) j = text_eq id j
  touches (labels id s) j = text_eq id j
  touches (removes id) j = text_eq id j
  touches (adds magnet opts mkdir (gives t)) j = text_eq (lib.info_hash t) j
  touches (adds magnet opts mkdir (fails x)) j = false
  touches (purges id rebuilt a) j = text_eq id j
  touches (moves id dir ctx a) j = text_eq id j
  touches (moved id ctx v) j = text_eq id j
  touches (rechecks id ctx) j = text_eq id j
  touches (rechecked id ctx v) j = text_eq id j
  touches (informs path id opts fs) j = text_eq id j
  touches (ticks m) j = true

  module _ (j : TorrentId) where
    -- The torrent `j` is the same in both engines.
    abbrev Same : Engine → Engine → Type 0
    Same e e' = Keys.lookup j e'.torrents ≡ Keys.lookup j e.torrents

    announce-put-Same :
        (id : TorrentId) (tr : Tracked) (e : Engine)
        → text_eq id j ≡ false
        → Same e (announce (put id tr e))
    announce-put-Same id tr e n = rw (torrents-announce (put id tr e), Keys.lookup-insert, n) refl

    put-Same :
        (id : TorrentId) (tr : Tracked) (e : Engine) → text_eq id j ≡ false → Same e (put id tr e)
    put-Same id tr e n = rw (Keys.lookup-insert, n) refl

    shown_put-Same :
        (id : TorrentId) (tr : Tracked) (e : Engine)
        → text_eq id j ≡ false
        → Same e (snapshot_and_broadcast_now (put id tr e))
    unfolding snapshot_and_broadcast_now broadcast
    shown_put-Same id tr e n = put-Same id tr e n

    prioritized-Same :
        (id : TorrentId) (e : Engine) (r : Result Tracked)
        → text_eq id j ≡ false
        → Same e (set_prioritized id e r).1
    unfolding set_prioritized
    prioritized-Same id e (err x) n = refl
    prioritized-Same id e (ok tr) n = announce-put-Same id tr e n

    normalized-Same :
        (id : TorrentId) (e : Engine) (r : Result Text)
        → text_eq id j ≡ false
        → Same e (set_normalized id r e).1
    unfolding set_normalized
    normalized-Same id e (err x) n = refl
    normalized-Same id e (ok s) n =
        with_tracked_rule (Same e) id e _ refl λ tr p. announce-put-Same id _ e n

    removed-Same :
        (id : TorrentId) (e : Engine) → text_eq id j ≡ false → Same e (remove_torrent id e).1
    unfolding remove_torrent remove_metainfo
    removed-Same id e n =
        with_tracked_rule (Same e) id e _ refl
          λ tr p. rw torrents-announce (ground (arith, Keys.lookup-erase id j e.torrents))

    add_in-Same :
        (magnet : Text) (opts : AddOpts) (dir : Answer (Unit {0})) (a : Answer lib.Torrent)
        (e : Engine)
        → touches (adds magnet opts dir a) j ≡ false
        → Same e (add_in magnet opts dir a e).1
    unfolding add_in
    add_in-Same magnet opts (fails x) a e n = refl
    add_in-Same magnet opts (gives _) (fails x) e n = refl
    add_in-Same magnet opts (gives _) (gives t) e n = announce-put-Same (lib.info_hash t) _ e n

    add_spec-Same :
        (magnet : Text) (opts : AddOpts) (mkdir : Answer (Unit {0})) (a : Answer lib.Torrent)
        (e : Engine)
        → touches (adds magnet opts mkdir a) j ≡ false
        → Same e (add_spec magnet opts mkdir a e).1
    unfolding add_spec
    add_spec-Same magnet opts mkdir (fails x) e n =
        add_in-Same magnet opts (save_dir opts mkdir) (fails x) e n
    add_spec-Same magnet opts mkdir (gives t) e n =
        add_in-Same magnet opts (save_dir opts mkdir) (gives t) e n

    purge_readd-Same :
        (id : TorrentId) (rebuilt : Answer (Unit {0})) (a : Answer lib.Torrent) (tr : Tracked)
        (e : Engine)
        → text_eq id j ≡ false
        → Same e (purge_readd id rebuilt a tr e).1
    unfolding purge_readd purge_failed
    purge_readd-Same id (fails x) a tr e n = announce-put-Same id _ e n
    purge_readd-Same id (gives _) (fails x) tr e n = announce-put-Same id _ e n
    purge_readd-Same id (gives _) (gives t) tr e n = announce-put-Same id _ e n

    purge_data-Same :
        (id : TorrentId) (rebuilt : Answer (Unit {0})) (a : Answer lib.Torrent) (e : Engine)
        → text_eq id j ≡ false
        → Same e (purge_data id rebuilt a e).1
    unfolding purge_data
    purge_data-Same id rebuilt a e n = with_tracked_rule (Same e) id e _ refl λ tr p.
        elim (Bool-cases (lib.has_info tr.t)) [
          | inr q ↦ rw q (put-Same id (quiesced tr) e n)
          | inl q ↦ rw q (purge_readd-Same id rebuilt a _ e n)
        ]

    move_readd-Same :
        (id : TorrentId) (dir : Text) (ctx : ℕ) (a : Answer lib.Torrent) (tr : Tracked) (e : Engine)
        → text_eq id j ≡ false
        → Same e (move_readd id dir ctx a tr e).1
    unfolding move_readd move_failed
    move_readd-Same id dir ctx (fails x) tr e n =
        shown_put-Same id _ _ n ∙ ap (Keys.lookup j) (persist-Alike _).torrents ∙ put-Same id _ e n
    move_readd-Same id dir ctx (gives t) tr e n = shown_put-Same id _ e n

    move_files-Same :
        (id : TorrentId) (dir : Text) (ctx : ℕ) (moved rebuilt : Answer (Unit {0}))
        (a : Answer lib.Torrent) (tr : Tracked) (e : Engine)
        → text_eq id j ≡ false
        → Same e (move_files id dir ctx moved rebuilt a tr e).1
    unfolding move_files move_failed
    move_files-Same id dir ctx (fails x) rebuilt a tr e n = shown_put-Same id _ e n
    move_files-Same id dir ctx (gives _) (fails x) a tr e n = shown_put-Same id _ e n
    move_files-Same id dir ctx (gives _) (gives _) a tr e n = move_readd-Same id dir ctx a _ e n

    move_into-Same :
        (id : TorrentId) (dir : Text) (ctx : ℕ) (mkdir : Answer (Unit {0})) (a : MoveAnswers)
        (tr : Tracked) (e : Engine)
        → text_eq id j ≡ false
        → Same e (move_into id dir ctx mkdir a tr e).1
    unfolding move_into
    move_into-Same id dir ctx (fails x) a tr e n = put-Same id tr e n
    move_into-Same id dir ctx (gives _) a tr e n =
        move_files-Same id dir ctx a.moved a.rebuilt a.readded _ e n

    move_storage-Same :
        (id : TorrentId) (dir : Text) (ctx : ℕ) (a : MoveAnswers) (e : Engine)
        → text_eq id j ≡ false
        → Same e (move_storage id dir ctx a e).1
    unfolding move_storage
    move_storage-Same id dir ctx a e n = with_tracked_rule (Same e) id e _ refl λ tr p.
        elim (Bool-cases (lib.has_info tr.t)) [
          | inr q ↦ rw q (put-Same id (quiesced tr) e n)
          | inl q ↦ rw q (move_into-Same id dir ctx a.mkdir a (quiesced tr) e n)
        ]

    force_recheck-Same :
        (id : TorrentId) (ctx : ℕ) (e : Engine)
        → text_eq id j ≡ false
        → Same e (force_recheck id ctx e).1
    unfolding force_recheck
    force_recheck-Same id ctx e n = with_tracked_rule (Same e) id e _ refl λ tr p.
        elim (Bool-cases (lib.has_info tr.t)) [
          | inr q ↦ rw q refl
          | inl q ↦ rw q (shown_put-Same id _ e n)
        ]

    -- A call on one torrent leaves every other torrent exactly as it was, whether the call succeeds
    -- or fails: an operation on a torrent, the adding of one, and the end of a verification.
    pub run-other :
        (c : Call) (e : Engine)
        → touches c j ≡ false
        → Keys.lookup j (run c e).torrents ≡ Keys.lookup j e.torrents
    unfolding run
    run-other (pauses id b) e n =
        unfold set_paused in
        with_tracked_rule (Same e) id e _ refl λ tr p. announce-put-Same id _ e n
    run-other (prioritizes id i q) e n =
        unfold set_file_priority in
        with_tracked_rule (Same e) id e _ refl λ tr p. prioritized-Same id e _ n
    run-other (limits_rates id up down) e n =
        unfold set_torrent_rate_limit in
        with_tracked_rule (Same e) id e _ refl λ tr p. announce-put-Same id _ e n
    run-other (limits_seeding id r t) e n =
        unfold set_seed_limit in
        with_tracked_rule (Same e) id e _ refl λ tr p. announce-put-Same id _ e n
    run-other (labels id s) e n = unfold set_label in normalized-Same id e (normalize_label s) n
    run-other (removes id) e n = removed-Same id e n
    run-other (adds magnet opts mkdir a) e n = add_spec-Same magnet opts mkdir a e n
    run-other (purges id rebuilt a) e n = purge_data-Same id rebuilt a e n
    run-other (moves id dir ctx a) e n = move_storage-Same id dir ctx a e n
    run-other (moved id ctx v) e n =
        unfold move_verified in on_tracked_rule (Same e) id e _ refl λ tr p. shown_put-Same id _ e n
    run-other (rechecks id ctx) e n = force_recheck-Same id ctx e n
    run-other (rechecked id ctx v) e n =
        unfold recheck_ended in on_tracked_rule (Same e) id e _ refl λ tr p. shown_put-Same id _ e n
    run-other (informs path id opts fs) e n =
        unfold metadata_received in
        rw torrents-announce (on_tracked_rule (Same e) id e _ refl λ tr p. put-Same id _ e n)
    run-other (ticks m) e n = cc
