-- ===== src/Engine/Metadata.antt =====
-- The goroutine of `addSpec` in internal/engine/ops.go that waits for a torrent's metadata, and
-- internal/engine/selectfiles.go.
pub mod Wanted
use torrnado.Common.{
  ℕ, ◌+◌, Bool, false, ◌||◌, not, Option, none, some, List, [], ◌∷◌, if◌then◌else◌, contains,
}
use torrnado.Common.Text.{Text}
use torrnado.Engine.Library.{Float64, TorrentLib, PiecePriority, File}
use torrnado.Engine.State.{Tracked, Engine, AddOpts, TorrentId}
use torrnado.Engine.Session.{announce, files_or_nil}
use torrnado.Engine.Ops.{on_tracked, put, download_unchosen_files}

-- Go's package `path`: `Base`, and `Match`, which fails (`none`) on a malformed pattern.
pub record PathLib : Type 0 where
  pub base : Text → Text
  pub match : Text → Text → Option Bool

abbrev pub slash : ℕ
slash = 47

-- `path.Match(p, target)` with its error taken for no match.
unfoldable pub matched : Option Bool → Bool
matched none = false
matched (some b) = b

unfoldable pub matches_any_pattern : PathLib → Text → List Text → Bool
unfolding matched
matches_any_pattern path file [] = false
matches_any_pattern path file (p ∷ ps) =
    matched (path.match p (if contains p slash then file else path.base file))
    || matches_any_pattern path file ps

-- The indexes from `i` on, one for each file.
abbrev pub indexes_from : ℕ → List File → List ℕ
indexes_from i [] = []
indexes_from i (f ∷ fs) = i ∷ indexes_from (i + 1) fs

module _ ⦃fl : Float64⦄ ⦃lib : TorrentLib⦄ where
  -- The loop of `applyFileSelection` over the files from index `i` on.
  unfoldable pub select_files : (File → Bool) → ℕ → List File → lib.Torrent → lib.Torrent
  select_files picks i [] t = t
  select_files picks i (f ∷ fs) t =
      select_files picks (i + 1) fs
        (lib.set_priority t i (if picks f then PiecePriority.normal else PiecePriority.none))

  unfoldable pub selected_count : (File → Bool) → List File → ℕ
  selected_count picks [] = 0
  selected_count picks (f ∷ fs) = (if picks f then 1 else 0) + selected_count picks fs

  -- `applyFileSelection`; it returns how many files were selected.
  unfoldable pub apply_file_selection : PathLib → List Text → Tracked → ℕ × Tracked
  unfolding matches_any_pattern select_files selected_count files_or_nil
  apply_file_selection path patterns tr =
      if not (lib.has_info tr.t)
      then (0, tr)
      else let picks = λ (f : File). matches_any_pattern path f.path patterns in
        (
          selected_count picks (lib.files tr.t),
          record tr {
            t = select_files picks 0 (lib.files tr.t) tr.t;
            chosen_files = indexes_from 0 (lib.files tr.t);
          },
        )

  -- The files that are wanted once the metadata is there: by the patterns of the add if it has any,
  -- and else, unless the add was a paused one, all that nobody chose.
  unfoldable pub metadata_wanted : PathLib → List Text → Bool → Tracked → Tracked
  unfolding apply_file_selection
  metadata_wanted path (p ∷ ps) paused tr = (apply_file_selection path (p ∷ ps) tr).1
  metadata_wanted path [] paused tr =
      if paused then tr else record tr { t = download_unchosen_files tr.chosen_files tr.t }

  -- The metadata arrives from a peer, or was there from the start.
  unfoldable pub informed : List File → Tracked → Tracked
  informed fs tr = record tr { t = if lib.has_info tr.t then tr.t else lib.got_info fs tr.t }

  -- What the goroutine does, as long as its torrent is tracked; it saves in any case.
  unfoldable pub metadata_received : PathLib → TorrentId → AddOpts → List File → Engine → Engine
  unfolding metadata_wanted informed
  metadata_received path id opts fs e = announce (
      on_tracked id e λ tr. put id (metadata_wanted path opts.files opts.paused (informed fs tr)) e)
