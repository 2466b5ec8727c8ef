-- ===== src/Engine/Stream/Ready.antt =====
-- What holds once a file was prepared for streaming.
use torrnado.Common.{
  ℕ, ◌+◌, ◌-◌, ◌≡◌, refl, ◌∙◌, Bool, true, false, ◌&&◌, ◌||◌, not, Option, some, List, [], ◌∷◌,
  arith, ltb, leb, if◌then◌else◌, ◌⊎◌, inl, inr, length, contains, Bool-cases,
}
use torrnado.Common.Int64
use torrnado.Common.Int64.{Int64}
use torrnado.Common.Keys
use torrnado.Engine.Library.{Float64, TorrentLib, TorrentLaws, PiecePriority, File}
use torrnado.Engine.Types.{Priority, to_lib_priority, from_lib_priority}
use torrnado.Engine.State.{
  Guards, Tracked, Engine, TorrentId, guards_locked, Error, ok, err, no_metadata, out_of_range,
}
use torrnado.Engine.Flow.{turn, data_flow, apply_flow}
use torrnado.Engine.Session.{announce, files_or_nil}
use torrnado.Engine.Ops.{
  with_tracked, found_or_err, put, set_paused, set_file_priority, prioritize, set_prioritized,
  pause_tracked, want_files, download_unchosen_files,
}
use torrnado.Engine.Ops.Files.{lookup-announce-put}
use torrnado.Engine.Stream.{
  below_high, lookup_file, raised, raise_after, stream_found, prepare_stream,
}

module _ ⦃fl : Float64⦄ ⦃lib : TorrentLib⦄ where
  -- The same metadata.
  abbrev KeepsInfo : lib.Torrent → lib.Torrent → Type 0
  KeepsInfo t t' = (lib.has_info t' ≡ lib.has_info t) × (lib.files t' ≡ lib.files t)

  keeps_trans : (t t' u : lib.Torrent) → KeepsInfo t t' → KeepsInfo t' u → KeepsInfo t u
  keeps_trans t t' u (a, b) (c, d) = (c ∙ a, d ∙ b)

  -- A file can be streamed: nothing holds the torrent back, and the file is wanted first.
  abbrev pub IsReady : Int64 → Option Tracked → Type 0
  IsReady i o =
      (tr : Tracked) × (o ≡ some tr)
      × (tr.paused ≡ false)
      × (below_high (from_lib_priority (lib.priority tr.t i)) ≡ false)

  module _ (laws : TorrentLaws lib) where
    apply_flow-KeepsInfo : (d u : Bool) (t : lib.Torrent) → KeepsInfo t (apply_flow (d, u) t)
    unfolding apply_flow
    apply_flow-KeepsInfo true true t = (
      laws.has_info-allow_upload _ ∙ laws.has_info-allow_download t,
      laws.files-allow_upload _ ∙ laws.files-allow_download t,
    )
    apply_flow-KeepsInfo true false t = (
      laws.has_info-disallow_upload _ ∙ laws.has_info-allow_download t,
      laws.files-disallow_upload _ ∙ laws.files-allow_download t,
    )
    apply_flow-KeepsInfo false true t = (
      laws.has_info-allow_upload _ ∙ laws.has_info-disallow_download t,
      laws.files-allow_upload _ ∙ laws.files-disallow_download t,
    )
    apply_flow-KeepsInfo false false t = (
      laws.has_info-disallow_upload _ ∙ laws.has_info-disallow_download t,
      laws.files-disallow_upload _ ∙ laws.files-disallow_download t,
    )

    turn-KeepsInfo : (g : Guards) (tr : Tracked) → KeepsInfo tr.t (turn g tr).t
    unfolding turn
    turn-KeepsInfo g tr = let (d, u) = data_flow g tr in apply_flow-KeepsInfo d u tr.t

    want_files-KeepsInfo :
        (chosen : List ℕ) (i : ℕ) (fs : List File) (t : lib.Torrent)
        → KeepsInfo t (want_files chosen i fs t)
    unfolding want_files
    want_files-KeepsInfo chosen i [] t = (refl, refl)
    want_files-KeepsInfo chosen i (f ∷ fs) t =
        keeps_trans t (if contains chosen i then t else lib.set_priority t i PiecePriority.normal)
          (want_files chosen (i + 1) fs
            (if contains chosen i then t else lib.set_priority t i PiecePriority.normal))
          (elim (Bool-cases (contains chosen i)) [
            | inl c ↦ rw c (refl, refl)
            | inr c ↦ rw c (
              laws.has_info-set t i PiecePriority.normal,
              laws.files-set t i PiecePriority.normal,
            )
          ])
          (want_files-KeepsInfo chosen (i + 1) fs _)

    resume-KeepsInfo : (g : Guards) (tr : Tracked) → KeepsInfo tr.t (pause_tracked g false tr).t
    unfolding pause_tracked download_unchosen_files
    resume-KeepsInfo g tr =
        let turned = turn g (record tr { paused = false }) in
        keeps_trans tr.t turned.t
          (want_files turned.chosen_files 0 (files_or_nil turned.t) turned.t)
          (turn-KeepsInfo g (record tr { paused = false }))
          (want_files-KeepsInfo turned.chosen_files 0 (files_or_nil turned.t) turned.t)

    -- The condition under which `lookupFile` finds the file.
    abbrev HasFile : Int64 → lib.Torrent → Type 0
    HasFile i t = (lib.has_info t && not (Int64.is_neg i) && ltb i (length (lib.files t))) ≡ true

    KeepsInfo-HasFile :
        (i : Int64) (t t' : lib.Torrent) → KeepsInfo t t' → HasFile i t → HasFile i t'
    KeepsInfo-HasFile i t t' (a, b) h = rw (a, b) h

    has_info_of : (i : Int64) (t : lib.Torrent) → HasFile i t → lib.has_info t ≡ true
    has_info_of i t h = ground arith

    in_range_of :
        (i : Int64) (t : lib.Torrent)
        → HasFile i t
        → (Int64.is_neg i || leb (length (lib.files t)) i) ≡ false
    in_range_of i t h = ground arith

    abbrev chosen_at : Int64 → Priority → Tracked → Tracked
    chosen_at i prio tr = record tr {
      t = lib.set_priority tr.t i (to_lib_priority prio);
      chosen_files = i ∷ tr.chosen_files;
    }

    prioritized :
        (id : TorrentId) (i : Int64) (prio : Priority) (e : Engine) (tr : Tracked)
        → Keys.lookup id e.torrents ≡ some tr
        → HasFile i tr.t
        → set_file_priority id i prio e ≡ (ok tt, announce (put id (chosen_at i prio tr) e))
    unfolding set_file_priority with_tracked prioritize
    prioritized id i prio e tr found has =
        rw (found, found_or_err, has_info_of i tr.t has, in_range_of i tr.t has, set_prioritized)
          refl

    raised-IsReady :
        (id : TorrentId) (i : Int64) (e : Engine) (tr : Tracked)
        → Keys.lookup id e.torrents ≡ some tr
        → tr.paused ≡ false
        → HasFile i tr.t
        → ((raised id i e).0 ≡ ok tt) × IsReady i (Keys.lookup id (raised id i e).1.torrents)
    unfolding raised with_tracked to_lib_priority from_lib_priority below_high
    raised-IsReady id i e tr found runs has =
        elim (Bool-cases (below_high (from_lib_priority (lib.priority tr.t i)))) [
          | inl low ↦
              rw (found, found_or_err, low, prioritized id i Priority.high e tr found has)
                (
                  refl,
                  (
                    chosen_at i Priority.high tr,
                    lookup-announce-put id (chosen_at i Priority.high tr) e,
                    runs,
                    rw (laws.priority-set tr.t i i PiecePriority.high) (ground arith),
                  ),
                )
          | inr high ↦ rw (found, found_or_err, high) (refl, (tr, found, runs, high))
        ]

    resumed :
        (id : TorrentId) (e : Engine) (tr : Tracked)
        → Keys.lookup id e.torrents ≡ some tr
        → set_paused id false e
          ≡ (ok tt, announce (put id (pause_tracked (guards_locked e) false tr) e))
    unfolding set_paused with_tracked
    resumed id e tr found = rw (found, found_or_err)

    raise_after-IsReady :
        (id : TorrentId) (i : Int64) (e : Engine) (tr : Tracked)
        → Keys.lookup id e.torrents ≡ some tr
        → HasFile i tr.t
        → ((stream_found id i tr.paused (ok tt) e).0 ≡ ok tt)
          × IsReady i (Keys.lookup id (stream_found id i tr.paused (ok tt) e).1.torrents)
    unfolding stream_found raise_after pause_tracked turn
    raise_after-IsReady id i e tr found has = elim (Bool-cases tr.paused) [
      | inr runs ↦ rw runs (raised-IsReady id i e tr found runs has)
      | inl paused ↦
          let tr1 = pause_tracked (guards_locked e) false tr in
          rw (paused, resumed id e tr found)
            (raised-IsReady id i (announce (put id tr1 e)) tr1 (lookup-announce-put id tr1 e) refl
              (KeepsInfo-HasFile i tr.t tr1.t (resume-KeepsInfo (guards_locked e) tr) has))
    ]

    lookup_file-ok : (i : Int64) (tr : Tracked) → HasFile i tr.t → lookup_file i tr ≡ ok tt
    unfolding lookup_file
    lookup_file-ok i tr has = rw (has_info_of i tr.t has, in_range_of i tr.t has)

    lookup_file-err :
        (i : Int64) (tr : Tracked)
        → (lib.has_info tr.t && not (Int64.is_neg i) && ltb i (length (lib.files tr.t))) ≡ false
        → (x : Error) × (lookup_file i tr ≡ err x)
    unfolding lookup_file
    lookup_file-err i tr h = elim (Bool-cases (lib.has_info tr.t)) [
      | inr q ↦ (no_metadata, rw q)
      | inl q ↦ (out_of_range i (length (lib.files tr.t) - 1), rw q (ground arith))
    ]

    -- Preparing a file of a tracked torrent for streaming succeeds exactly where the torrent has its
    -- metadata and the file: then the torrent is not paused, and the file's priority is high or more.
    -- Where it does not, an error is returned and the engine is as it was.
    pub prepare_stream-IsReady :
        (id : TorrentId) (i : Int64) (e : Engine) (tr : Tracked)
        → Keys.lookup id e.torrents ≡ some tr
        → (((lib.has_info tr.t && not (Int64.is_neg i) && ltb i (length (lib.files tr.t))) ≡ true)
            × ((prepare_stream id i e).0 ≡ ok tt)
            × IsReady i (Keys.lookup id (prepare_stream id i e).1.torrents))
          ⊎ (((lib.has_info tr.t && not (Int64.is_neg i) && ltb i (length (lib.files tr.t)))
                ≡ false)
              × ((x : Error) × (prepare_stream id i e ≡ (err x, e))))
    unfolding prepare_stream with_tracked stream_found
    prepare_stream-IsReady id i e tr found =
        elim (Bool-cases
          (lib.has_info tr.t && not (Int64.is_neg i) && ltb i (length (lib.files tr.t)))) [
            | inl has ↦
                let (done, ready) = raise_after-IsReady id i e tr found has in
                let path = lookup_file-ok i tr has in
                inl (has, rw (found, found_or_err, path) done, rw (found, found_or_err, path) ready)
            | inr lacks ↦
                let (x, fails_with) = lookup_file-err i tr lacks in
                inr (lacks, (x, rw (found, found_or_err, fails_with)))
          ]
