-- ===== src/Engine/Metadata/Wanted.antt =====
-- Which files of a torrent are wanted once its metadata is there.
use torrnado.Common.{
  ℕ, zero, suc, ◌+◌, ◌<◌, ◌≡◌, ◌≢◌, refl, ap, ◌∙◌, Bool, true, false, some, List, [], ◌∷◌, arith,
  if◌then◌else◌, inl, inr, contains, Bool-cases, get_elem?,
}
use torrnado.Common.Text.{Text}
use torrnado.Common.Keys
use torrnado.Engine.Library.{Float64, TorrentLib, TorrentLaws, PiecePriority, File}
use torrnado.Engine.State.{Guards, Tracked, Engine, AddOpts, TorrentId, guards_locked}
use torrnado.Engine.Flow.{turn, data_flow, apply_flow}
use mathlib.Core.Path.{subst}
use torrnado.Engine.Session.{files_or_nil}
use torrnado.Engine.Ops.{
  found_or_same, on_tracked, download_unchosen_files, set_paused, pause_tracked, want_files,
}
use torrnado.Engine.Ops.Files.{lookup-announce-put}
use torrnado.Engine.Relocate.Resumed.{lookup-resume}
use torrnado.Engine.Metadata.{
  PathLib, select_files, apply_file_selection, metadata_wanted, informed, metadata_received,
  matches_any_pattern, indexes_from,
}

module _ ⦃fl : Float64⦄ ⦃lib : TorrentLib⦄ (laws : TorrentLaws lib) where
  lookup-received :
      (path : PathLib) (id : TorrentId) (opts : AddOpts) (fs : List File) (e : Engine)
      (tr : Tracked)
      → Keys.lookup id e.torrents ≡ some tr
      → Keys.lookup id (metadata_received path id opts fs e).torrents
        ≡ some (metadata_wanted path opts.files opts.paused (informed fs tr))
  unfolding metadata_received on_tracked
  lookup-received path id opts fs e tr p = rw (p, found_or_same) (lookup-announce-put id _ e)

  select_before :
      (picks : File → Bool) (i j : ℕ) (fs : List File) (t : lib.Torrent)
      → j < i
      → lib.priority (select_files picks i fs t) j ≡ lib.priority t j
  unfolding select_files
  select_before picks i j [] t h = refl
  select_before picks i j (f ∷ fs) t h =
      select_before picks (i + 1) j fs _ (omega arith)
      ∙ rw (laws.priority-set t i j (if picks f then PiecePriority.normal else PiecePriority.none))
          (ground arith)

  select_at :
      (picks : File → Bool) (i k : ℕ) (fs : List File) (t : lib.Torrent) (f : File)
      → get_elem? fs k ≡ some f
      → lib.priority (select_files picks i fs t) (i + k)
        ≡ (if picks f then PiecePriority.normal else PiecePriority.none)
  unfolding select_files
  select_at picks i k [] t f h = cc
  select_at picks i zero (g ∷ fs) t f h =
      select_before picks (i + 1) (i + 0) fs _ (omega arith)
      ∙ rw
          (laws.priority-set t i (i + 0)
            (if picks g then PiecePriority.normal else PiecePriority.none))
          (ground arith)
  select_at picks i (suc k) (g ∷ fs) t f h =
      subst
        (λ n.
          lib.priority (select_files picks i (g ∷ fs) t) n
          ≡ (if picks f then PiecePriority.normal else PiecePriority.none))
        (omega arith) (select_at picks (i + 1) k fs _ f h)

  contains-indexes_from :
      (i k : ℕ) (fs : List File) (f : File)
      → get_elem? fs k ≡ some f
      → contains (indexes_from i fs) (i + k) ≡ true
  contains-indexes_from i k [] f h = cc
  contains-indexes_from i zero (g ∷ fs) f h = ground arith
  contains-indexes_from i (suc k) (g ∷ fs) f h =
      ground (arith, contains-indexes_from (i + 1) k fs f h)

  has_info-informed : (fs : List File) (tr : Tracked) → lib.has_info (informed fs tr).t ≡ true
  unfolding informed
  has_info-informed fs tr = elim (Bool-cases (lib.has_info tr.t)) [
    | inl h ↦ rw (h) h
    | inr h ↦ rw h (laws.has_info-got_info fs tr.t)
  ]

  selection_at :
      (path : PathLib) (patterns : List Text) (tr : Tracked) (j : ℕ) (f : File)
      → lib.has_info tr.t ≡ true
      → get_elem? (lib.files tr.t) j ≡ some f
      → (lib.priority (apply_file_selection path patterns tr).1.t j ≡ (
          if matches_any_pattern path f.path patterns
          then PiecePriority.normal
          else PiecePriority.none))
        × (contains (apply_file_selection path patterns tr).1.chosen_files j ≡ true)
  unfolding apply_file_selection
  selection_at path patterns tr j f h p = rw h (
    subst
        (λ n.
          lib.priority
            (select_files (λ (f : File). matches_any_pattern path f.path patterns) 0
              (lib.files tr.t) tr.t)
            n
          ≡ (if matches_any_pattern path f.path patterns
              then PiecePriority.normal
              else PiecePriority.none))
        (omega arith)
        (select_at (λ (f : File). matches_any_pattern path f.path patterns) 0 j (lib.files tr.t)
          tr.t f p),
    subst (λ n. contains (indexes_from 0 (lib.files tr.t)) n ≡ true) (omega arith)
        (contains-indexes_from 0 j (lib.files tr.t) f p),
  )

  by_patterns :
      (path : PathLib) (patterns : List Text) (paused : Bool) (tr : Tracked)
      → patterns ≢ []
      → metadata_wanted path patterns paused tr ≡ (apply_file_selection path patterns tr).1
  unfolding metadata_wanted
  by_patterns path [] paused tr h = absurd (h refl)
  by_patterns path (p ∷ ps) paused tr h = refl

  -- When the metadata of a tracked torrent arrives, and the torrent was added with file patterns, a
  -- file gets the normal priority if its path matches one of them and none if not, and it counts as
  -- chosen. The torrent stays tracked.
  pub patterns_decide_wanted :
      (path : PathLib) (id : TorrentId) (opts : AddOpts) (fs : List File) (e : Engine)
      (tr : Tracked) (j : ℕ) (f : File)
      → Keys.lookup id e.torrents ≡ some tr
      → opts.files ≢ []
      → get_elem? (lib.files (informed fs tr).t) j ≡ some f
      → (tr' : Tracked) × (Keys.lookup id (metadata_received path id opts fs e).torrents ≡ some tr')
        × (lib.priority tr'.t j ≡ (
            if matches_any_pattern path f.path opts.files
            then PiecePriority.normal
            else PiecePriority.none))
        × (contains tr'.chosen_files j ≡ true)
  patterns_decide_wanted path id opts fs e tr j f found given at =
      let (wanted, chosen) =
        selection_at path opts.files (informed fs tr) j f (has_info-informed fs tr) at in
      (
        (apply_file_selection path opts.files (informed fs tr)).1,
        lookup-received path id opts fs e tr found
            ∙ ap some (by_patterns path opts.files opts.paused (informed fs tr) given),
        wanted,
        chosen,
      )

  has_info-apply_flow :
      (d u : Bool) (t : lib.Torrent) → lib.has_info (apply_flow (d, u) t) ≡ lib.has_info t
  unfolding apply_flow
  has_info-apply_flow true true t = laws.has_info-allow_upload _ ∙ laws.has_info-allow_download t
  has_info-apply_flow true false t =
      laws.has_info-disallow_upload _ ∙ laws.has_info-allow_download t
  has_info-apply_flow false true t =
      laws.has_info-allow_upload _ ∙ laws.has_info-disallow_download t
  has_info-apply_flow false false t =
      laws.has_info-disallow_upload _ ∙ laws.has_info-disallow_download t

  has_info-turn : (g : Guards) (tr : Tracked) → lib.has_info (turn g tr).t ≡ lib.has_info tr.t
  unfolding turn
  has_info-turn g tr = let (d, u) = data_flow g tr in has_info-apply_flow d u tr.t

  -- Resuming a torrent that has no metadata yet asks for no file.
  has_info-resume :
      (g : Guards) (tr : Tracked)
      → lib.has_info tr.t ≡ false
      → lib.has_info (pause_tracked g false tr).t ≡ false
  unfolding pause_tracked download_unchosen_files files_or_nil want_files
  has_info-resume g tr h =
      let still = has_info-turn g (record tr { paused = false }) ∙ h in rw still still

  added_paused :
      (path : PathLib) (patterns : List Text) (paused : Bool) (tr : Tracked)
      → patterns ≡ []
      → paused ≡ true
      → metadata_wanted path patterns paused tr ≡ tr
  unfolding metadata_wanted
  added_paused path [] paused tr e h = rw h
  added_paused path (p ∷ ps) paused tr e h = cc

  -- A torrent that was added paused and without patterns, and that is resumed while it has no
  -- metadata, is not paused once the metadata has arrived, and has every file at priority none.
  pub resumed_before_metadata :
      (path : PathLib) (id : TorrentId) (opts : AddOpts) (fs : List File) (e : Engine)
      (tr : Tracked) (j : ℕ)
      → Keys.lookup id e.torrents ≡ some tr
      → lib.has_info tr.t ≡ false
      → opts.files ≡ []
      → opts.paused ≡ true
      → (tr' : Tracked) × (Keys.lookup id
            (metadata_received path id opts fs (set_paused id false e).1).torrents
          ≡ some tr')
        × (tr'.paused ≡ false)
        × (lib.has_info tr'.t ≡ true)
        × (lib.priority tr'.t j ≡ PiecePriority.none)
  unfolding informed pause_tracked turn
  resumed_before_metadata path id opts fs e tr j found bare no_patterns add_paused =
      let tr1 = pause_tracked (guards_locked e) false tr in
      let bare1 = has_info-resume (guards_locked e) tr bare in
      (
        informed fs tr1,
        lookup-received path id opts fs (set_paused id false e).1 tr1 (lookup-resume id e tr found)
            ∙ ap some
                (added_paused path opts.files opts.paused (informed fs tr1) no_patterns add_paused),
        refl,
        has_info-informed fs tr1,
        rw bare1 (laws.priority-got_info fs tr1.t j bare1),
      )
