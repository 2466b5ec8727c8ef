-- ===== src/Engine/Tests/Files.antt =====
-- The theorems on the wanted files of a torrent, at concrete torrents.
use torrnado.Common.{
  ◌≡◌, refl, true, false, ◌&&◌, not, some, List, [], ◌∷◌, ltb, if◌then◌else◌, ◌⊎◌, length, contains,
}
use torrnado.Common.Text.{codes, text_eq}
use torrnado.Common.Int64
use torrnado.Common.Int64.{Int64}
use torrnado.Common.Keys
use torrnado.Engine.Library.{PiecePriority, File}
use torrnado.Engine.State.{Tracked, Engine, AddOpts, Error, ok, err}
use torrnado.Engine.Sample.{whole_numbers, sample_library, sample_laws, fresh, held, engine}
use torrnado.Engine.Ops.{set_paused}
use torrnado.Engine.Metadata.{PathLib, matches_any_pattern, informed, metadata_received}
use torrnado.Engine.Metadata.Wanted.{patterns_decide_wanted, resumed_before_metadata}
use torrnado.Engine.Stream.{prepare_stream}
use torrnado.Engine.Stream.Ready.{prepare_stream-IsReady, IsReady}

-- Patterns that match themselves alone, and base names that are the whole path.
abbrev exact_paths : PathLib
exact_paths = record { base = λ s. s; match = λ p s. some (text_eq p s) }

-- A magnet link of which nothing is known yet, added paused.
abbrev bare : Tracked
bare = record held {
  t = record fresh { known = false; content = []; down = false; up = false };
  chosen_files = [];
}

abbrev bare_engine : Engine
bare_engine = record engine { torrents = (codes "ab", bare) ∷ [] }

abbrev two_files : List File
two_files =
    record { path = codes "one"; length = 100 } ∷ record { path = codes "two"; length = 50 } ∷ []

abbrev only_two : AddOpts
only_two = record { save_path = []; paused = false; files = codes "two" ∷ [] }

abbrev add_paused : AddOpts
add_paused = record { save_path = []; paused = true; files = [] }

patterns_decide_wanted_example :
    (tr' : Tracked) × (Keys.lookup
        (codes "ab")
        (metadata_received exact_paths (codes "ab") only_two two_files bare_engine).torrents
      ≡ some tr')
    × (sample_library.priority tr'.t 1 ≡ (
        if matches_any_pattern exact_paths (codes "two") (codes "two" ∷ [])
        then PiecePriority.normal
        else PiecePriority.none))
    × (contains tr'.chosen_files 1 ≡ true)
unfolding informed Keys.lookup text_eq
patterns_decide_wanted_example =
    patterns_decide_wanted sample_laws exact_paths (codes "ab") only_two two_files bare_engine bare
      1 (record { path = codes "two"; length = 50 }) refl (λ e. cc) refl

resumed_before_metadata_example :
    (tr' : Tracked) × (Keys.lookup
        (codes "ab")
        (metadata_received exact_paths
          (codes "ab")
          add_paused
          two_files
          (set_paused (codes "ab") false bare_engine).1).torrents
      ≡ some tr')
    × (tr'.paused ≡ false)
    × (sample_library.has_info tr'.t ≡ true)
    × (sample_library.priority tr'.t 0 ≡ PiecePriority.none)
unfolding Keys.lookup text_eq
resumed_before_metadata_example =
    resumed_before_metadata sample_laws exact_paths (codes "ab") add_paused two_files bare_engine
      bare 0 refl refl refl refl

prepare_stream-IsReady_example :
    (((sample_library.has_info held.t
          && not (Int64.is_neg 1)
          && ltb 1 (length (sample_library.files held.t)))
        ≡ true)
      × ((prepare_stream (codes "ab") 1 engine).0 ≡ ok tt)
      × IsReady 1 (Keys.lookup (codes "ab") (prepare_stream (codes "ab") 1 engine).1.torrents))
    ⊎ (((sample_library.has_info held.t
            && not (Int64.is_neg 1)
            && ltb 1 (length (sample_library.files held.t)))
          ≡ false)
        × ((x : Error) × (prepare_stream (codes "ab") 1 engine ≡ (err x, engine))))
unfolding Keys.lookup text_eq
prepare_stream-IsReady_example = prepare_stream-IsReady sample_laws (codes "ab") 1 engine held refl
