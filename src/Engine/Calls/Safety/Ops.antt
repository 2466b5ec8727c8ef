-- ===== src/Engine/Calls/Safety/Ops.antt =====
-- The operations on one torrent keep an engine safe.
use torrnado.Common.{Bool, ◌||◌, leb, inl, inr, length, Bool-cases}
use torrnado.Common.Text.{Text}
use torrnado.Common.Int64
use torrnado.Common.Int64.{Int64}
use torrnado.Common.Keys
use torrnado.Engine.Library.{Float64, TorrentLib, TorrentLaws}
use torrnado.Engine.Types.{Priority, to_lib_priority}
use torrnado.Engine.State.{
  Tracked, Engine, AddOpts, TorrentId, guards_locked, Result, ok, err, Answer, gives, fails,
}
use torrnado.Engine.Ops.{
  with_tracked_rule, set_paused, set_file_priority, set_torrent_rate_limit, set_seed_limit,
  remove_torrent, add_spec, prioritize, set_prioritized, add_in, save_dir,
}
use torrnado.Engine.Label.{set_label, normalize_label, set_normalized}
use torrnado.Engine.Calls.Safety.{
  StillIfHeld, IsSafe, Alike-IsSafe, remove_metainfo-Alike, announce-IsSafe, announce-put-IsSafe,
  found-StillIfHeld, set_priority-IsStill, turn-StillIfHeld, pause_tracked-StillIfHeld,
}

module _ ⦃fl : Float64⦄ ⦃lib : TorrentLib⦄ (laws : TorrentLaws lib) where
  pub set_paused-IsSafe :
      (id : TorrentId) (b : Bool) (e : Engine) → IsSafe e → IsSafe (set_paused id b e).1
  unfolding set_paused
  set_paused-IsSafe id b e h =
      with_tracked_rule IsSafe id e _ h
        λ tr p. announce-put-IsSafe id _ e (pause_tracked-StillIfHeld laws (guards_locked e) b tr) h

  prioritized-IsSafe :
      (id : TorrentId) (i : Int64) (prio : Priority) (e : Engine) (tr : Tracked)
      → IsSafe e
      → StillIfHeld (guards_locked e) tr
      → IsSafe (set_prioritized id e (prioritize i prio tr)).1
  unfolding prioritize set_prioritized
  prioritized-IsSafe id i prio e tr h k = elim (Bool-cases (lib.has_info tr.t)) [
    | inr p ↦ rw p h
    | inl p ↦ elim (Bool-cases (Int64.is_neg i || leb (length (lib.files tr.t)) i)) [
      | inl q ↦ rw (p, q) h
      | inr q ↦
          rw (p, q)
            (announce-put-IsSafe id _ e
              (λ held. set_priority-IsStill laws tr.t i (to_lib_priority prio) (k held)) h)
    ]
  ]

  pub set_file_priority-IsSafe :
      (id : TorrentId) (i : Int64) (prio : Priority) (e : Engine)
      → IsSafe e
      → IsSafe (set_file_priority id i prio e).1
  unfolding set_file_priority
  set_file_priority-IsSafe id i prio e h =
      with_tracked_rule IsSafe id e _ h
        λ tr p. prioritized-IsSafe id i prio e tr h (found-StillIfHeld id e h p)

  pub set_torrent_rate_limit-IsSafe :
      (id : TorrentId) (up down : Int64) (e : Engine)
      → IsSafe e
      → IsSafe (set_torrent_rate_limit id up down e).1
  unfolding set_torrent_rate_limit
  set_torrent_rate_limit-IsSafe id up down e h =
      with_tracked_rule IsSafe id e _ h
        λ tr p. announce-put-IsSafe id _ e (found-StillIfHeld id e h p) h

  pub set_seed_limit-IsSafe :
      (id : TorrentId) (r : fl.Float) (t : Int64) (e : Engine)
      → IsSafe e
      → IsSafe (set_seed_limit id r t e).1
  unfolding set_seed_limit
  set_seed_limit-IsSafe id r t e h =
      with_tracked_rule IsSafe id e _ h
        λ tr p. announce-put-IsSafe id _ e (found-StillIfHeld id e h p) h

  pub set_label-IsSafe :
      (id : TorrentId) (s : Text) (e : Engine) → IsSafe e → IsSafe (set_label id s e).1
  unfolding set_label
  set_label-IsSafe id s e h = set_normalized-IsSafe (normalize_label s)
    where
      set_normalized-IsSafe : (r : Result Text) → IsSafe (set_normalized id r e).1
      set_normalized-IsSafe (err x) = unfold set_normalized in h
      set_normalized-IsSafe (ok label) =
          unfold set_normalized in
          with_tracked_rule IsSafe id e _ h
            λ tr p. announce-put-IsSafe id _ e (found-StillIfHeld id e h p) h

  pub remove_torrent-IsSafe :
      (id : TorrentId) (e : Engine) → IsSafe e → IsSafe (remove_torrent id e).1
  unfolding remove_torrent guards_locked
  remove_torrent-IsSafe id e h = with_tracked_rule IsSafe id e _ h λ tr p. announce-IsSafe _ (
      Alike-IsSafe (remove_metainfo-Alike id (record e { torrents = Keys.erase id e.torrents }))
        (Keys.Values-erase (StillIfHeld (guards_locked e)) id e.torrents h))

  pub add_spec-IsSafe :
      (magnet : Text) (opts : AddOpts) (mkdir : Answer (Unit {0})) (answer : Answer lib.Torrent)
      (e : Engine)
      → IsSafe e
      → IsSafe (add_spec magnet opts mkdir answer e).1
  unfolding add_spec
  add_spec-IsSafe magnet opts mkdir answer e h = go (save_dir opts mkdir) answer
    where
      go :
          (dir : Answer (Unit {0})) (a : Answer lib.Torrent) → IsSafe (add_in magnet opts dir a e).1
      go (fails x) a = unfold add_in in h
      go (gives _) (fails x) = unfold add_in in h
      go (gives _) (gives t) =
          unfold add_in in
          announce-put-IsSafe (lib.info_hash t) _ e (turn-StillIfHeld laws (guards_locked e) _) h
