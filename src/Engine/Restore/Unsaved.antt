-- ===== src/Engine/Restore/Unsaved.antt =====
-- The session file during a restore: nothing is saved before its end.
use torrnado.Common.{
  ℕ, ◌≡◌, refl, ap, ◌∙◌, true, false, ◌&&◌, Option, none, some, List, [], ◌∷◌, arith, ◌==◌, inl,
  inr, Bool-cases,
}
use torrnado.Common.Text.{Text, text_eq}
use torrnado.Engine.Library.{Float64, TorrentLib}
use torrnado.Engine.Types.{Priority}
use torrnado.Engine.State.{
  Tracked, Engine, TorrentRecord, FilePriorityRecord, AddOpts, TorrentId, Config, Machine, Result,
  ok, err, Answer, gives, fails,
}
use torrnado.Engine.Snapshot.{broadcast, snapshot_and_broadcast_now}
use torrnado.Engine.Session.{persist, announce, save_session, records, encodable}
use torrnado.Engine.Ops.{
  with_tracked_rule, set_file_priority, set_torrent_rate_limit, add_spec, put, set_prioritized,
  add_in, save_dir,
}
use torrnado.Engine.Ops.{add_magnet, add_torrent_file}
use torrnado.Engine.Restore.{
  RestoreAnswers, restore_limits, restore_priority, restore_from, restore_priorities,
  restore_source, restored, restore_rest, restore_one, restore_all, restore_session,
}

module _ ⦃fl : Float64⦄ ⦃lib : TorrentLib⦄ where
  -- A restore is in progress, and the files in the state directory are those of `e`.
  abbrev Restoring : Engine → Engine → Type 0
  Restoring e e' =
      (e'.restoring ≡ true)
      × (e'.session ≡ e.session)
      × (e'.metainfos ≡ e.metainfos)
      × (e'.cfg ≡ e.cfg)
      × (e'.machine ≡ e.machine)

  announce-Restoring : (e e' : Engine) → Restoring e e' → Restoring e (announce e')
  unfolding announce persist snapshot_and_broadcast_now broadcast
  announce-Restoring e e' h = ground arith

  add_in-Restoring :
      (magnet : Text) (opts : AddOpts) (dir : Answer (Unit {0})) (a : Answer lib.Torrent)
      (e e' : Engine)
      → Restoring e e'
      → Restoring e (add_in magnet opts dir a e').1
  unfolding add_in
  add_in-Restoring magnet opts (fails x) a e e' h = h
  add_in-Restoring magnet opts (gives _) (fails x) e e' h = h
  add_in-Restoring magnet opts (gives _) (gives t) e e' h = announce-Restoring e (put _ _ e') h

  add_magnet-Restoring :
      (uri : Text) (opts : AddOpts) (a : RestoreAnswers) (e e' : Engine)
      → Restoring e e'
      → Restoring e (add_magnet uri opts a.parsed a.mkdir a.readded e').1
  unfolding add_magnet add_spec
  add_magnet-Restoring uri opts a e e' h = go a.parsed
    where
      go : (p : Answer (Unit {0})) → Restoring e (add_magnet uri opts p a.mkdir a.readded e').1
      go (fails x) = h
      go (gives _) = add_in-Restoring uri opts (save_dir opts a.mkdir) a.readded e e' h

  add_torrent_file-Restoring :
      (opts : AddOpts) (a : RestoreAnswers) (e e' : Engine)
      → Restoring e e'
      → Restoring e (add_torrent_file opts a.parsed a.mkdir a.readded e').1
  unfolding add_torrent_file add_spec
  add_torrent_file-Restoring opts a e e' h = go a.parsed
    where
      go : (p : Answer (Unit {0})) → Restoring e (add_torrent_file opts p a.mkdir a.readded e').1
      go (fails x) = h
      go (gives _) = add_in-Restoring [] opts (save_dir opts a.mkdir) a.readded e e' h

  restore_from-Restoring :
      (saved : Option (Unit {0})) (rec : TorrentRecord) (opts : AddOpts) (a : RestoreAnswers)
      (e e' : Engine)
      → Restoring e e'
      → Restoring e (restore_from saved rec opts a e').1
  unfolding restore_from
  restore_from-Restoring (some u) rec opts a e e' h = add_torrent_file-Restoring opts a e e' h
  restore_from-Restoring none rec opts a e e' h = elim (Bool-cases (text_eq rec.magnet [])) [
    | inl q ↦ rw q h
    | inr q ↦ rw q (add_magnet-Restoring rec.magnet opts a e e' h)
  ]

  set_prioritized-Restoring :
      (id : TorrentId) (e e' : Engine) (r : Result Tracked)
      → Restoring e e'
      → Restoring e (set_prioritized id e' r).1
  unfolding set_prioritized
  set_prioritized-Restoring id e e' (err x) h = h
  set_prioritized-Restoring id e e' (ok tr) h = announce-Restoring e (put id tr e') h

  restore_priority-Restoring :
      (id : TorrentId) (i : ℕ) (prio : Option Priority) (e e' : Engine)
      → Restoring e e'
      → Restoring e (restore_priority id i prio e')
  unfolding restore_priority set_file_priority
  restore_priority-Restoring id i none e e' h = h
  restore_priority-Restoring id i (some prio) e e' h =
      with_tracked_rule (Restoring e) id e' _ h λ tr q. set_prioritized-Restoring id e e' _ h

  restore_priorities-Restoring :
      (id : TorrentId) (fps : List FilePriorityRecord) (e e' : Engine)
      → Restoring e e'
      → Restoring e (restore_priorities id fps e')
  unfolding restore_priorities
  restore_priorities-Restoring id [] e e' h = h
  restore_priorities-Restoring id (fp ∷ fps) e e' h =
      restore_priorities-Restoring id fps e _ (restore_priority-Restoring id fp.index _ e e' h)

  restore_limits-Restoring :
      (id : TorrentId) (rec : TorrentRecord) (e e' : Engine)
      → Restoring e e'
      → Restoring e (restore_limits id rec e')
  unfolding restore_limits set_torrent_rate_limit
  restore_limits-Restoring id rec e e' h =
      elim (Bool-cases (rec.up_limit == 0 && rec.down_limit == 0)) [
        | inl p ↦ rw p h
        | inr p ↦
            rw p (
              with_tracked_rule (Restoring e) id e' _ h
                λ tr q. announce-Restoring e (put id _ e') h)
      ]

  restored-Restoring :
      (rec : TorrentRecord) (r : Result TorrentId × Engine) (e : Engine)
      → Restoring e r.1
      → Restoring e (restored rec r).1
  unfolding restored restore_rest
  restored-Restoring rec (err x, e') e h = h
  restored-Restoring rec (ok id, e') e h =
      restore_priorities-Restoring id rec.file_priorities e _
        (restore_limits-Restoring id rec e e' h)

  restore_all-Restoring :
      (recs : List TorrentRecord) (world : TorrentRecord → RestoreAnswers) (n : ℕ) (e e' : Engine)
      → Restoring e e'
      → Restoring e (restore_all recs world n e').1
  unfolding restore_all restore_one restore_source
  restore_all-Restoring [] world n e e' h = h
  restore_all-Restoring (rec ∷ recs) world n e e' h =
      restore_all-Restoring recs world _ e _
        (restored-Restoring rec _ e (restore_from-Restoring _ rec _ (world rec) e e' h))

  -- While the records of a session are restored, whichever of them come back, neither the session file
  -- nor the saved metainfo changes: a daemon that stops in the middle finds the whole session again.
  pub session-restore_all :
      (recs : List TorrentRecord) (world : TorrentRecord → RestoreAnswers) (n : ℕ) (e : Engine)
      → e.restoring ≡ true
      → ((restore_all recs world n e).1.session ≡ e.session)
        × ((restore_all recs world n e).1.metainfos ≡ e.metainfos)
  session-restore_all recs world n e h =
      let (r, s, m, c, w) = restore_all-Restoring recs world n e e (h, refl, refl, refl, refl) in
      (s, m)

  save_session-IsSaved :
      (e : Engine)
      → text_eq e.cfg.state_dir [] ≡ false
      → e.machine.state_writable ≡ true
      → encodable (records e.torrents) ≡ true
      → (save_session e).session ≡ some (records (save_session e).torrents)
  unfolding save_session
  save_session-IsSaved e d w c = ground arith

  -- At its end a restore saves once: with a state directory that can be written and seed ratios that
  -- can be encoded, the session file then holds one record for each torrent that is tracked.
  pub restore_session_saves :
      (recs : List TorrentRecord) (world : TorrentRecord → RestoreAnswers) (e : Engine)
      → text_eq e.cfg.state_dir [] ≡ false
      → e.machine.state_writable ≡ true
      → encodable (records (restore_session recs world e).1.torrents) ≡ true
      → (restore_session recs world e).1.session
        ≡ some (records (restore_session recs world e).1.torrents)
  unfolding restore_session persist save_session
  restore_session_saves recs world e d w f =
      let (r, s, m, c, k) =
        restore_all-Restoring recs world 0 (record e { restoring = true }) _
          (refl, refl, refl, refl, refl) in
      save_session-IsSaved
        (record (restore_all recs world 0 (record e { restoring = true })).1 { restoring = false })
        (ap (λ (x : Config). text_eq x.state_dir []) c ∙ d)
        (ap (λ (x : Machine). x.state_writable) k ∙ w) (ground arith)
