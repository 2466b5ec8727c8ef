-- ===== src/Indexer/Result.antt =====
-- internal/indexer/indexer.go: a result of a search, and what the program asks of a source.
use torrnado.Common.{
  ℕ, ◌+◌, ◌%◌, ◌≡◌, Bool, true, ◌&&◌, List, ◌∷◌, map, Option, ltb, leb, if◌then◌else◌,
}
use torrnado.Common.Text.{Text, codes, has_prefix, every}
use torrnado.Common.Int64
use torrnado.Common.Int64.{Int64}

-- `strings.ToLower` and `strings.TrimSpace` on text of any script
pub record Strings : Type 0 where
  pub lower : Text → Text
  pub trim : Text → Text

abbrev pub is_ascii : ℕ → Bool
is_ascii c = ltb c 128

abbrev pub ascii_lower : ℕ → ℕ
ascii_lower c = if leb 65 c && leb c 90 then c + 32 else c

-- What the program relies on: the ASCII letters, and the letter U+023A, of two bytes in UTF-8, whose
-- lower case U+2C65 has three.
pub record StringsLaws (str : Strings) : Type 0 where
  pub lower_ascii : (s : Text) → every is_ascii s ≡ true → str.lower s ≡ map ascii_lower s
  pub lower_stroke : (s : Text) → str.lower (200 ∷ 186 ∷ s) ≡ 226 ∷ 177 ∷ 165 ∷ str.lower s

-- `Unknown`, for counts that the tracker did not report
abbrev pub unknown : Int64
unknown = Int64.minus 1

pub record Result : Type 0 where
  pub title : Text
  pub size : Int64
  pub seeders : Int64
  pub leechers : Int64
  pub tracker : Text
  pub link : Text

unfoldable pub is_magnet : Result → Bool
unfolding has_prefix
is_magnet r = has_prefix r.link (codes "magnet:")

-- What a search comes to: what it found, a message for each source that failed, and the error where
-- the search failed as a whole.
pub record Reply : Type 0 where
  pub results : List Result
  pub warnings : List Text
  pub err : Option Text

-- The answer of a source that is asked to resolve an id: a link, or an error.
pub data Resolved : Type 0 where
  link : Text → Resolved
  failed : Text → Resolved

-- A `Searcher`, by the answers that it gives; `resolve` where it is a `Resolver` too.
pub record Source : Type 0 where
  pub sources : List Text
  pub search : Text → Reply
  pub resolve : Option (Text → Resolved)

-- Signed numbers, shifted to the order of natural numbers.
abbrev pub seeder_key : Result → ℕ
seeder_key r = (r.seeders + Int64.two_63) % Int64.two_64
