-- ===== src/Engine/Ops.antt =====
-- The operations of internal/engine/ops.go, label.go and seedlimit.go that change one torrent.
-- Each runs as one step: another client's call between its two locked parts is not modelled.
pub mod Files
use torrnado.Common.{
  ℕ, zero, ◌+◌, ◌-◌, ◌≡◌, Bool, true, false, ◌||◌, not, Option, none, some, List, [], ◌∷◌, ◌++◌,
  leb, if◌then◌else◌, inl, inr, length, contains, Option-cases,
}
use torrnado.Common.Text.{Text, codes, text_eq}
use torrnado.Common.Int64
use torrnado.Common.Int64.{Int64}
use torrnado.Common.Keys
use torrnado.Engine.Library.{Float64, TorrentLib, PiecePriority, File}
use torrnado.Engine.Types.{Priority, to_lib_priority}
use torrnado.Engine.State.{
  Guards, Tracked, Engine, AddOpts, TorrentId, Time, idle, guards_locked, Result, ok, err, Answer,
  gives, fails, not_found, no_metadata, out_of_range, external,
}
use torrnado.Engine.Check.{cancel_check_locked}
use torrnado.Engine.Flow.{turn}
use torrnado.Engine.Session.{announce, files_or_nil, remove_metainfo}

module _ ⦃fl : Float64⦄ ⦃lib : TorrentLib⦄ where
  -- A write through the pointer that `lookup` returned.
  abbrev pub put : TorrentId → Tracked → Engine → Engine
  put id tr e = record e { torrents = Keys.insert id tr e.torrents }

  -- `lookup`, and the early return of every operation where it fails.
  unfoldable pub found_or_err :
      {A : Type 0} → Option Tracked → Engine → (Tracked → Result A × Engine) → Result A × Engine
  found_or_err none e f = (err not_found, e)
  found_or_err (some tr) e f = f tr

  unfoldable pub with_tracked :
      {A : Type 0} → TorrentId → Engine → (Tracked → Result A × Engine) → Result A × Engine
  unfolding found_or_err
  with_tracked id e f = found_or_err (Keys.lookup id e.torrents) e f

  -- What a goroutine does to the torrent that it holds, as long as it is tracked.
  unfoldable pub found_or_same : Option Tracked → Engine → (Tracked → Engine) → Engine
  found_or_same none e f = e
  found_or_same (some tr) e f = f tr

  unfoldable pub on_tracked : TorrentId → Engine → (Tracked → Engine) → Engine
  unfolding found_or_same
  on_tracked id e f = found_or_same (Keys.lookup id e.torrents) e f

  -- What holds of an engine as it is, and after the rest of the operation, holds afterwards.
  pub with_tracked_rule {ℓ} :
      {A : Type 0} (P : Engine → Type ℓ) (id : TorrentId) (e : Engine)
      (f : Tracked → Result A × Engine)
      → P e
      → ((tr : Tracked) → Keys.lookup id e.torrents ≡ some tr → P (f tr).1)
      → P (with_tracked id e f).1
  unfolding with_tracked
  with_tracked_rule P id e f h k = elim (Option-cases (Keys.lookup id e.torrents)) [
    | inl p ↦ rw (p, found_or_err) h
    | inr (tr, p) ↦ rw (p, found_or_err) (k tr p)
  ]

  pub on_tracked_rule {ℓ} :
      (P : Engine → Type ℓ) (id : TorrentId) (e : Engine) (f : Tracked → Engine)
      → P e
      → ((tr : Tracked) → Keys.lookup id e.torrents ≡ some tr → P (f tr))
      → P (on_tracked id e f)
  unfolding on_tracked
  on_tracked_rule P id e f h k = elim (Option-cases (Keys.lookup id e.torrents)) [
    | inl p ↦ rw (p, found_or_same) h
    | inr (tr, p) ↦ rw (p, found_or_same) (k tr p)
  ]

  -- The loop of `downloadUnchosenFiles` over the files from index `i` on.
  unfoldable pub want_files : List ℕ → ℕ → List File → lib.Torrent → lib.Torrent
  want_files chosen i [] t = t
  want_files chosen i (f ∷ fs) t =
      want_files chosen (i + 1) fs
        (if contains chosen i then t else lib.set_priority t i PiecePriority.normal)

  unfoldable pub download_unchosen_files : List ℕ → lib.Torrent → lib.Torrent
  unfolding want_files files_or_nil
  download_unchosen_files chosen t = want_files chosen 0 (files_or_nil t) t

  -- `SetPaused`, on the torrent that was found
  unfoldable pub pause_tracked : Guards → Bool → Tracked → Tracked
  pause_tracked g paused tr =
      let tr' = turn g (record tr {
        paused = paused;
        check = if paused then cancel_check_locked tr.check else tr.check;
      }) in
      if paused then tr' else record tr' { t = download_unchosen_files tr'.chosen_files tr'.t }

  unfoldable pub set_paused : TorrentId → Bool → Engine → Result (Unit {0}) × Engine
  unfolding pause_tracked
  set_paused id paused e =
      with_tracked id e
        λ tr. (ok tt, announce (put id (pause_tracked (guards_locked e) paused tr) e))

  -- `SetFilePriority`, on the torrent that was found: the index is a Go int.
  unfoldable pub prioritize : Int64 → Priority → Tracked → Result Tracked
  prioritize i prio tr =
      if not (lib.has_info tr.t)
      then err no_metadata
      else if Int64.is_neg i || leb (length (lib.files tr.t)) i
      then err (out_of_range i (length (lib.files tr.t) - 1))
      else ok (record tr {
        t = lib.set_priority tr.t i (to_lib_priority prio);
        chosen_files = i ∷ tr.chosen_files;
      })

  unfoldable pub set_prioritized : TorrentId → Engine → Result Tracked → Result (Unit {0}) × Engine
  set_prioritized id e (err x) = (err x, e)
  set_prioritized id e (ok tr) = (ok tt, announce (put id tr e))

  unfoldable pub set_file_priority :
      TorrentId → Int64 → Priority → Engine → Result (Unit {0}) × Engine
  unfolding set_prioritized
  set_file_priority id i prio e =
      with_tracked id e λ tr. set_prioritized id e (prioritize i prio tr)

  -- `SetTorrentRateLimit`: a negative limit leaves its direction as it is.
  unfoldable pub limit_rates : Int64 → Int64 → Tracked → Tracked
  limit_rates up down tr = record tr {
    up_limit = if Int64.is_neg up then tr.up_limit else up;
    down_limit = if Int64.is_neg down then tr.down_limit else down;
  }

  unfoldable pub set_torrent_rate_limit :
      TorrentId → Int64 → Int64 → Engine → Result (Unit {0}) × Engine
  unfolding limit_rates
  set_torrent_rate_limit id up down e =
      with_tracked id e λ tr. (ok tt, announce (put id (limit_rates up down tr) e))

  unfoldable pub set_seed_limit : TorrentId → fl.Float → Int64 → Engine → Result (Unit {0}) × Engine
  set_seed_limit id ratio seed_time e =
      with_tracked id e
        λ tr. (ok tt, announce (put id (record tr { seed_ratio = ratio; seed_time = seed_time }) e))

  -- `RemoveTorrent`, once no check of the torrent is running; deleting the data is outside.
  unfoldable pub remove_torrent : TorrentId → Engine → Result (Unit {0}) × Engine
  remove_torrent id e = with_tracked id e λ tr.
      (ok tt, announce (remove_metainfo id (record e { torrents = Keys.erase id e.torrents })))

  -- A torrent as `addSpec` first tracks it.
  unfoldable pub new_tracked : lib.Torrent → Text → AddOpts → Text → Time → Tracked
  new_tracked t magnet opts data_dir now = record {
    t = t;
    added_at = now;
    paused = opts.paused;
    save_path = if text_eq opts.save_path [] then data_dir else opts.save_path;
    magnet = magnet;
    own_storage = not (text_eq opts.save_path []);
    label = [];
    chosen_files = [];
    base_downloaded = 0;
    base_uploaded = 0;
    last_downloaded = 0;
    last_uploaded = 0;
    last_down_bps = fl.zero;
    last_up_bps = fl.zero;
    down_limit = 0;
    up_limit = 0;
    seed_ratio = fl.zero;
    seed_time = 0;
    completed_at = 0;
    complete_logged = false;
    hold_data = false;
    check = idle;
    last_err = [];
  }

  -- What `addSpec` tracks for the torrent `t` that the library gave: re-adding keeps the entry, and
  -- only ever pauses it.
  unfoldable pub added : lib.Torrent → Text → AddOpts → Engine → Tracked
  unfolding new_tracked
  added t magnet opts e = elim (Keys.lookup (lib.info_hash t) e.torrents) [
    | none ↦ new_tracked t magnet opts e.cfg.data_dir e.machine.clock
    | some tr ↦ if opts.paused then record tr { paused = true } else tr
  ]

  -- The directory is created only where the options name one.
  unfoldable pub save_dir : AddOpts → Answer (Unit {0}) → Answer (Unit {0})
  save_dir opts mkdir = if text_eq opts.save_path [] then gives tt else elim mkdir [
    | gives _ ↦ gives tt
    | fails x ↦ fails (codes "create save dir " ++ opts.save_path ++ codes ": " ++ x)
  ]

  -- `addSpec` after the directory was made
  unfoldable pub add_in :
      Text → AddOpts → Answer (Unit {0}) → Answer lib.Torrent → Engine → Result TorrentId × Engine
  unfolding added
  add_in magnet opts (fails x) answer e = (err (external x), e)
  add_in magnet opts (gives _) (fails x) e = (err (external (codes "add torrent: " ++ x)), e)
  add_in magnet opts (gives _) (gives t) e = (
    ok (lib.info_hash t),
    announce (put (lib.info_hash t) (turn (guards_locked e) (added t magnet opts e)) e),
  )

  -- `addSpec` up to the goroutine that waits for the metadata. `mkdir` is what `os.MkdirAll` of the
  -- save directory returned, where it is called, and `answer` what `AddTorrentSpec` returned.
  unfoldable pub add_spec :
      Text → AddOpts → Answer (Unit {0}) → Answer lib.Torrent → Engine → Result TorrentId × Engine
  unfolding add_in save_dir
  add_spec magnet opts mkdir answer e = add_in magnet opts (save_dir opts mkdir) answer e

  -- `AddMagnet` and `AddTorrentFile`; `parsed` is what parsing the source returned.
  unfoldable pub add_magnet :
      Text
      → AddOpts
      → Answer (Unit {0})
      → Answer (Unit {0})
      → Answer lib.Torrent
      → Engine
      → Result TorrentId × Engine
  add_magnet uri opts (fails x) mkdir answer e =
      (err (external (codes "parse magnet uri: " ++ x)), e)
  add_magnet uri opts (gives _) mkdir answer e = add_spec uri opts mkdir answer e

  unfoldable pub add_torrent_file :
      AddOpts
      → Answer (Unit {0})
      → Answer (Unit {0})
      → Answer lib.Torrent
      → Engine
      → Result TorrentId × Engine
  add_torrent_file opts (fails x) mkdir answer e = (err (external x), e)
  add_torrent_file opts (gives _) mkdir answer e = add_spec [] opts mkdir answer e
