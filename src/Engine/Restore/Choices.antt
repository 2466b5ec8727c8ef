-- ===== src/Engine/Restore/Choices.antt =====
-- The file priorities of a session that are restored, and the resume after them.
use torrnado.Common.{
  ℕ, ◌≡◌, refl, ap, ◌∙◌, Bool, true, false, ◌||◌, not, some, List, [], ◌∷◌, arith, ◌==◌, leb, inl,
  inr, length, All, contains, Bool-cases,
}
use mathlib.Core.Path.{subst}
use torrnado.Common.Int64
use torrnado.Common.Int64.{Int64}
use torrnado.Common.Keys
use torrnado.Engine.Library.{Float64, TorrentLib, TorrentLaws, PiecePriority, File}
use torrnado.Engine.Types.{Priority, parse_priority, to_lib_priority}
use torrnado.Engine.State.{Tracked, Engine, FilePriorityRecord, TorrentId, guards_locked}
use torrnado.Engine.Ops.{
  with_tracked, set_paused, set_file_priority, found_or_err, pause_tracked, prioritize,
  set_prioritized,
}
use torrnado.Engine.Ops.Files.{lookup-announce-put}
use torrnado.Engine.Relocate.Resumed.{lookup-resume, priority-resume}
use torrnado.Engine.Restore.{restore_priorities, restore_priority}

abbrev indexes : List FilePriorityRecord → List ℕ
indexes [] = []
indexes (fp ∷ fps) = fp.index ∷ indexes fps

module _ ⦃fl : Float64⦄ ⦃lib : TorrentLib⦄ (laws : TorrentLaws lib) (id : TorrentId)
    (fs : List File) (j : ℕ) where
  -- The torrent is there with its files, and once `seen` the file `j` is chosen and not wanted.
  record Kept (seen : Bool) (e : Engine) : Type 0 where
    tr : Tracked
    found : Keys.lookup id e.torrents ≡ some tr
    known : lib.has_info tr.t ≡ true
    content : lib.files tr.t ≡ fs
    chosen : seen ≡ true → contains tr.chosen_files j ≡ true
    unwanted : seen ≡ true → lib.priority tr.t j ≡ PiecePriority.none

  abbrev in_range : ℕ → Bool
  in_range i = not (Int64.is_neg i || leb (length fs) i)

  -- The torrent with the file `i` not wanted.
  abbrev skipped : ℕ → Tracked → Tracked
  skipped i tr = record tr {
    t = lib.set_priority tr.t i PiecePriority.none;
    chosen_files = i ∷ tr.chosen_files;
  }

  still-seen :
      (i : ℕ) (seen : Bool)
      → in_range j ≡ true
      → (Int64.is_neg i || leb (length fs) i) ≡ true
      → (seen || j == i) ≡ true
      → seen ≡ true
  still-seen i seen ok_j r h = ground arith

  skip_past :
      (i : ℕ) (e : Engine) (tr : Tracked)
      → Keys.lookup id e.torrents ≡ some tr
      → lib.has_info tr.t ≡ true
      → (Int64.is_neg i || leb (length (lib.files tr.t)) i) ≡ true
      → (set_file_priority id i Priority.none e).1 ≡ e
  unfolding set_file_priority with_tracked prioritize
  skip_past i e tr p q r = rw (p, found_or_err, q, r, set_prioritized) refl

  skip_found :
      (i : ℕ) (e : Engine) (tr : Tracked)
      → Keys.lookup id e.torrents ≡ some tr
      → lib.has_info tr.t ≡ true
      → (Int64.is_neg i || leb (length (lib.files tr.t)) i) ≡ false
      → Keys.lookup id (set_file_priority id i Priority.none e).1.torrents ≡ some (skipped i tr)
  unfolding set_file_priority with_tracked prioritize to_lib_priority
  skip_found i e tr p q r =
      rw (p, found_or_err, q, r, set_prioritized) (lookup-announce-put id (skipped i tr) e)

  or_false : (a : Bool) → (a || false) ≡ a
  or_false a = ground arith

  or_assoc : (a b c : Bool) → ((a || b) || c) ≡ (a || (b || c))
  or_assoc a b c = ground arith

  skip-Kept :
      (i : ℕ) (seen : Bool) (e : Engine)
      → in_range j ≡ true
      → Kept seen e
      → Kept (seen || j == i) (restore_priority id i (some Priority.none) e)
  unfolding restore_priority
  skip-Kept i seen e ok_j k = elim (Bool-cases (Int64.is_neg i || leb (length fs) i)) [
    | inl r ↦ record {
      tr = k.tr;
      found =
          ap (λ (x : Engine). Keys.lookup id x.torrents)
            (skip_past i e k.tr k.found k.known (rw k.content r))
          ∙ k.found;
      known = k.known;
      content = k.content;
      chosen = λ h. k.chosen (still-seen i seen ok_j r h);
      unwanted = λ h. k.unwanted (still-seen i seen ok_j r h);
    }
    | inr r ↦ record {
      tr = skipped i k.tr;
      found = skip_found i e k.tr k.found k.known (rw k.content r);
      known = laws.has_info-set k.tr.t i PiecePriority.none ∙ k.known;
      content = laws.files-set k.tr.t i PiecePriority.none ∙ k.content;
      chosen = λ h. ground (arith, k.chosen);
      unwanted = λ h. ground (arith, laws.priority-set k.tr.t i j PiecePriority.none, k.unwanted);
    }
  ]

  skip_each-Kept :
      (fps : List FilePriorityRecord) (seen : Bool) (e : Engine)
      → All (λ (fp : FilePriorityRecord). parse_priority fp.priority ≡ some Priority.none) fps
      → in_range j ≡ true
      → Kept seen e
      → Kept (seen || contains (indexes fps) j) (restore_priorities id fps e)
  unfolding restore_priorities
  skip_each-Kept [] seen e h ok_j k = rw (or_false seen) k
  skip_each-Kept (fp ∷ fps) seen e (h, hs) ok_j k = rw h (
      subst
        (λ b.
          Kept b (restore_priorities id fps (restore_priority id fp.index (some Priority.none) e)))
        (or_assoc seen (j == fp.index) (contains (indexes fps) j))
        (skip_each-Kept fps (seen || j == fp.index) _ hs ok_j (skip-Kept fp.index seen e ok_j k)))

  -- Where the priorities that are restored to a torrent with its metadata all say that a file is not
  -- wanted, a resume after the restore does not fetch the files that they name: the restore of a
  -- priority counts as a choice of the file, and the resume leaves chosen files as they are.
  pub restored_unwanted :
      (fps : List FilePriorityRecord) (e : Engine) (tr : Tracked)
      → All (λ (fp : FilePriorityRecord). parse_priority fp.priority ≡ some Priority.none) fps
      → contains (indexes fps) j ≡ true
      → not (Int64.is_neg j || leb (length fs) j) ≡ true
      → Keys.lookup id e.torrents ≡ some tr
      → lib.has_info tr.t ≡ true
      → lib.files tr.t ≡ fs
      → (tr' : Tracked) × (Keys.lookup id
            (set_paused id false (restore_priorities id fps e)).1.torrents
          ≡ some tr')
        × (lib.priority tr'.t j ≡ PiecePriority.none)
  restored_unwanted fps e tr h c ok_j p i f =
      let k = skip_each-Kept fps false e h ok_j (record {
        tr = tr;
        found = p;
        known = i;
        content = f;
        chosen = λ x. cc;
        unwanted = λ x. cc;
      }) in
      let e' = restore_priorities id fps e in
      (
        pause_tracked (guards_locked e') false k.tr,
        lookup-resume id e' k.tr k.found,
        priority-resume laws (guards_locked e') k.tr j (k.chosen c) ∙ k.unwanted c,
      )
