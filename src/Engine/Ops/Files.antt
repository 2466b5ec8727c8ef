-- ===== src/Engine/Ops/Files.antt =====
-- The files that a torrent wants: `SetFilePriority`, and what a resume does to the files that nobody chose.
use torrnado.Common.{
  ℕ, ◌+◌, ◌-◌, ◌≡◌, refl, ◌∙◌, Bool, true, false, ◌&&◌, ◌||◌, not, some, List, [], ◌∷◌, arith, ◌==◌,
  ltb, leb, if◌then◌else◌, ◌⊎◌, inl, inr, length, contains, Bool-cases,
}
use mathlib.Core.Path.{subst}
use torrnado.Common.Text.{text_eq_refl}
use torrnado.Common.Int64
use torrnado.Common.Int64.{Int64}
use torrnado.Common.Keys
use torrnado.Engine.Library.{Float64, TorrentLib, TorrentLaws, PiecePriority, File}
use torrnado.Engine.Types.{Priority, to_lib_priority}
use torrnado.Engine.State.{Tracked, Engine, TorrentId, Error, ok, err, no_metadata, out_of_range}
use torrnado.Engine.Snapshot.{broadcast, snapshot_and_broadcast_now}
use torrnado.Engine.Session.{files_or_nil, announce, persist, save_session}
use torrnado.Engine.Ops.{
  want_files, download_unchosen_files, prioritize, set_prioritized, set_file_priority, with_tracked,
  found_or_err, put,
}

contains-same : (xs : List ℕ) (i j : ℕ) (b : Bool) → contains xs i ≡ b → i ≡ j → contains xs j ≡ b
contains-same xs i j b c e = subst (λ k. contains xs k ≡ b) e c

module _ ⦃fl : Float64⦄ ⦃lib : TorrentLib⦄ where
  -- Announcing an engine leaves its torrents.
  pub torrents-announce : (e : Engine) → (announce e).torrents ≡ e.torrents
  unfolding announce persist save_session snapshot_and_broadcast_now broadcast
  torrents-announce e = ground arith

  pub lookup-announce-put :
      (id : TorrentId) (tr : Tracked) (e : Engine)
      → Keys.lookup id (announce (put id tr e)).torrents ≡ some tr
  lookup-announce-put id tr e =
      rw (torrents-announce (put id tr e), Keys.lookup-insert, text_eq_refl) refl

  module _ (laws : TorrentLaws lib) where
    priority-want_files :
        (chosen : List ℕ) (i j : ℕ) (fs : List File) (t : lib.Torrent)
        → lib.priority (want_files chosen i fs t) j ≡ (
            if not (contains chosen j) && leb i j && ltb j (i + length fs)
            then PiecePriority.normal
            else lib.priority t j)
    unfolding want_files
    priority-want_files chosen i j [] t = ground arith
    priority-want_files chosen i j (f ∷ fs) t = elim (Bool-cases (contains chosen i)) [
      | inl c ↦
          rw (c, priority-want_files chosen (i + 1) j fs t)
            (ground (arith, contains-same chosen i j true c))
      | inr c ↦
          rw
            (
              c,
              priority-want_files chosen (i + 1) j fs (lib.set_priority t i PiecePriority.normal),
              laws.priority-set t i j PiecePriority.normal,
            )
            (ground (arith, contains-same chosen i j false c))
    ]

    -- Marking the unchosen files of a torrent as wanted gives each of its files that nobody chose the
    -- normal priority, and leaves the chosen ones, and everything of a torrent without metadata, as
    -- they were.
    pub priority-download_unchosen :
        (chosen : List ℕ) (t : lib.Torrent) (j : ℕ)
        → lib.priority (download_unchosen_files chosen t) j ≡ (
            if not (contains chosen j) && ltb j (length (files_or_nil t))
            then PiecePriority.normal
            else lib.priority t j)
    unfolding download_unchosen_files
    priority-download_unchosen chosen t j =
        priority-want_files chosen 0 j (files_or_nil t) t ∙ ground arith

    -- A file's priority is set exactly on a torrent that is tracked, that has its metadata, and that
    -- has the file: then the file has the priority that was asked for, every other file keeps its own,
    -- and the file counts as chosen. In every other case an error is returned and the engine is as
    -- it was.
    pub set_file_priority_lem :
        (id : TorrentId) (i : ℕ) (prio : Priority) (e : Engine) (tr : Tracked)
        → Keys.lookup id e.torrents ≡ some tr
        → (((lib.has_info tr.t && not (Int64.is_neg i) && ltb i (length (lib.files tr.t))) ≡ true)
            × ((set_file_priority id i prio e).0 ≡ ok tt)
            × ((tr' : Tracked) × (Keys.lookup id (set_file_priority id i prio e).1.torrents
                  ≡ some tr')
                × ((j : ℕ)
                    → lib.priority tr'.t j
                      ≡ (if i == j then to_lib_priority prio else lib.priority tr.t j))
                × (contains tr'.chosen_files i ≡ true)))
          ⊎ (((lib.has_info tr.t && not (Int64.is_neg i) && ltb i (length (lib.files tr.t)))
                ≡ false)
              × ((x : Error) × (set_file_priority id i prio e ≡ (err x, e))))
    unfolding set_file_priority with_tracked prioritize
    set_file_priority_lem id i prio e tr p = elim (Bool-cases (lib.has_info tr.t)) [
      | inr q ↦ inr (rw q refl, (no_metadata, rw (p, found_or_err, q, set_prioritized) refl))
      | inl q ↦ elim (Bool-cases (Int64.is_neg i || leb (length (lib.files tr.t)) i)) [
        | inr r ↦
            inl (rw q (ground arith), rw (p, found_or_err, q, r, set_prioritized) refl, found q r)
        | inl r ↦ inr (
          rw q (ground arith),
          (
            out_of_range i (length (lib.files tr.t) - 1),
            rw (p, found_or_err, q, r, set_prioritized) refl,
          ),
        )
      ]
    ]
      where
        found :
            lib.has_info tr.t ≡ true
            → (Int64.is_neg i || leb (length (lib.files tr.t)) i) ≡ false
            → (tr' : Tracked) × (Keys.lookup id (set_file_priority id i prio e).1.torrents
                ≡ some tr')
              × ((j : ℕ)
                  → lib.priority tr'.t j
                    ≡ (if i == j then to_lib_priority prio else lib.priority tr.t j))
              × (contains tr'.chosen_files i ≡ true)
        found q r = (
          record tr {
            t = lib.set_priority tr.t i (to_lib_priority prio);
            chosen_files = i ∷ tr.chosen_files;
          },
          rw (p, found_or_err, q, r, set_prioritized) (lookup-announce-put id _ e),
          (λ j. laws.priority-set tr.t i j (to_lib_priority prio)),
          ground arith,
        )
