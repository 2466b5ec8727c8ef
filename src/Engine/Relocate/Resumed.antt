-- ===== src/Engine/Relocate/Resumed.antt =====
-- A purge that succeeds, and the resume after it.
use torrnado.Common.{ℕ, ◌≡◌, refl, ◌∙◌, Bool, true, false, some, contains}
use torrnado.Common.Keys
use torrnado.Engine.Library.{Float64, TorrentLib, TorrentLaws, PiecePriority}
use torrnado.Engine.State.{Guards, Tracked, Engine, TorrentId, guards_locked, gives}
use torrnado.Engine.Snapshot.{downloaded_of, uploaded_of}
use torrnado.Engine.Flow.{turn, data_flow, apply_flow, turn-IsStill}
use torrnado.Engine.Ops.{set_paused, pause_tracked, with_tracked, found_or_err}
use torrnado.Engine.Ops.Files.{priority-download_unchosen, lookup-announce-put}
use torrnado.Engine.Relocate.{
  purge_data, purge_readd, purge_done, purge_begun, fold_counters, quiesced,
}

module _ ⦃fl : Float64⦄ ⦃lib : TorrentLib⦄ where
  pub lookup-resume :
      (id : TorrentId) (e : Engine) (tr : Tracked)
      → Keys.lookup id e.torrents ≡ some tr
      → Keys.lookup id (set_paused id false e).1.torrents
        ≡ some (pause_tracked (guards_locked e) false tr)
  unfolding set_paused with_tracked
  lookup-resume id e tr p = rw (p, found_or_err) (lookup-announce-put id _ e)

  -- What a purge tracks that succeeds.
  abbrev purged : Engine → lib.Torrent → Tracked → Tracked
  purged e fresh tr =
      purge_done (guards_locked e) fresh
        (fold_counters (purge_begun (guards_locked e) (quiesced tr)))

  lookup-purge :
      (id : TorrentId) (fresh : lib.Torrent) (e : Engine) (tr : Tracked)
      → Keys.lookup id e.torrents ≡ some tr
      → lib.has_info tr.t ≡ true
      → Keys.lookup id (purge_data id (gives tt) (gives fresh) e).1.torrents
        ≡ some (purged e fresh tr)
  unfolding purge_data with_tracked purge_readd
  lookup-purge id fresh e tr p i = rw (p, found_or_err, i) (lookup-announce-put id _ e)

  module _ (laws : TorrentLaws lib) where
    priority-apply_flow :
        (d u : Bool) (t : lib.Torrent) (j : ℕ)
        → lib.priority (apply_flow (d, u) t) j ≡ lib.priority t j
    unfolding apply_flow
    priority-apply_flow true true t j =
        laws.priority-allow_upload _ j ∙ laws.priority-allow_download t j
    priority-apply_flow true false t j =
        laws.priority-disallow_upload _ j ∙ laws.priority-allow_download t j
    priority-apply_flow false true t j =
        laws.priority-allow_upload _ j ∙ laws.priority-disallow_download t j
    priority-apply_flow false false t j =
        laws.priority-disallow_upload _ j ∙ laws.priority-disallow_download t j

    priority-turn :
        (g : Guards) (tr : Tracked) (j : ℕ) → lib.priority (turn g tr).t j ≡ lib.priority tr.t j
    unfolding turn
    priority-turn g tr j = let (d, u) = data_flow g tr in priority-apply_flow d u tr.t j

    pub priority-resume :
        (g : Guards) (tr : Tracked) (j : ℕ)
        → contains tr.chosen_files j ≡ true
        → lib.priority (pause_tracked g false tr).t j ≡ lib.priority tr.t j
    unfolding pause_tracked turn
    priority-resume g tr j c =
        rw (priority-download_unchosen laws, c) (priority-turn g (record tr { paused = false }) j)

    -- A purge that succeeds leaves the torrent paused, held by no operation and with both switches of
    -- the fresh instance off, whatever the library set them to. The totals over the torrent's life
    -- are those that it had as it was dropped: the old instance's counters are folded in, and the
    -- speeds are measured from zero.
    pub purge_leaves_paused :
        (id : TorrentId) (fresh : lib.Torrent) (e : Engine) (tr : Tracked)
        → Keys.lookup id e.torrents ≡ some tr
        → lib.has_info tr.t ≡ true
        → (tr' : Tracked) × (Keys.lookup id (purge_data id (gives tt) (gives fresh) e).1.torrents
            ≡ some tr')
          × (tr'.paused ≡ true)
          × (tr'.hold_data ≡ false)
          × (lib.may_download tr'.t ≡ false)
          × (lib.may_upload tr'.t ≡ false)
          × (tr'.base_downloaded ≡ downloaded_of (purge_begun (guards_locked e) (quiesced tr)))
          × (tr'.base_uploaded ≡ uploaded_of (purge_begun (guards_locked e) (quiesced tr)))
          × (tr'.last_downloaded ≡ 0)
          × (tr'.last_uploaded ≡ 0)
    unfolding purge_done turn fold_counters purge_begun quiesced
    purge_leaves_paused id fresh e tr p i =
        let dropped = fold_counters (purge_begun (guards_locked e) (quiesced tr)) in
        let off =
          turn-IsStill laws (guards_locked e) (record dropped { t = fresh; hold_data = false })
            refl in
        (
          purged e fresh tr,
          lookup-purge id fresh e tr p i,
          refl,
          refl,
          off.no_download,
          off.no_upload,
          refl,
          refl,
          refl,
          refl,
        )

    -- Resuming a purged torrent does not fetch the files that were ever chosen: a purge keeps the
    -- choices and not the priorities they stood for, so a file that somebody chose, and that the fresh
    -- instance does not want, is still not wanted after the resume.
    pub purged_choice_unwanted :
        (id : TorrentId) (fresh : lib.Torrent) (e : Engine) (tr : Tracked) (j : ℕ)
        → Keys.lookup id e.torrents ≡ some tr
        → lib.has_info tr.t ≡ true
        → contains tr.chosen_files j ≡ true
        → lib.priority fresh j ≡ PiecePriority.none
        → (tr' : Tracked) × (Keys.lookup id
              (set_paused id false (purge_data id (gives tt) (gives fresh) e).1).1.torrents
            ≡ some tr')
          × (tr'.paused ≡ false)
          × (lib.priority tr'.t j ≡ PiecePriority.none)
    unfolding pause_tracked turn purge_done fold_counters purge_begun quiesced
    purged_choice_unwanted id fresh e tr j p i c n =
        let e' = (purge_data id (gives tt) (gives fresh) e).1 in
        let tr1 = purged e fresh tr in
        (
          pause_tracked (guards_locked e') false tr1,
          lookup-resume id e' tr1 (lookup-purge id fresh e tr p i),
          refl,
          priority-resume (guards_locked e') tr1 j c
              ∙ priority-turn (guards_locked e) (record tr1 { t = fresh }) j
              ∙ n,
        )
