-- ===== src/Indexer/Multi.antt =====
-- internal/indexer/multi.go: several sources searched as one.
pub mod Distinct
pub mod Search
pub mod Panic
pub mod Resolve
use torrnado.Common.{
  ℕ, ◌+◌, Bool, false, ◌&&◌, ◌||◌, not, Option, none, some, List, [], ◌∷◌, ◌++◌, ◌==◌, ltb,
  if◌then◌else◌, length, drop,
}
use torrnado.Common.Text.{Text, codes, text_eq, has_prefix, index, until, join, mem_text}
use torrnado.Common.Sort.{sort_stable, by_greater}
use torrnado.Indexer.Result.{Strings, Result, Reply, Source, Resolved, seeder_key}
use torrnado.Indexer.Token.{parse_token}

-- `s[n:]`: it panics where `n` is past the end.
abbrev pub slice_from : ℕ → Text → Option Text
slice_from n s = if ltb (length s) n then none else some (drop n s)

abbrev pub marker : Text
marker = codes "xt=urn:btih:"

-- `&`, `/` and `?`
abbrev pub ends_hash : ℕ → Bool
ends_hash c = c == 38 || c == 47 || c == 63

-- A searcher that a daemon holds, as `NewMulti` builds it: none, one or several sources.
pub data Searcher : Type 0 where
  nothing : Searcher
  lone : Source → Searcher
  multi : List Source → Searcher

unfoldable pub new_multi : List Source → Searcher
new_multi [] = nothing
new_multi (s ∷ []) = lone s
new_multi (s ∷ t ∷ ss) = multi (s ∷ t ∷ ss)

unfoldable pub sources : List Source → List Text
sources [] = []
sources (s ∷ ss) = s.sources ++ sources ss

-- `nameError`
unfoldable pub names_itself : List Text → Text → Bool
unfolding has_prefix
names_itself [] msg = false
names_itself (n ∷ ns) msg = has_prefix msg (n ++ codes ":") || names_itself ns msg

unfoldable pub name_error : List Text → Text → Text
unfolding names_itself join
name_error names msg =
    if names_itself names msg then msg else join (codes ", ") names ++ codes ": " ++ msg

-- What the loop of `Search` over the answers gathers.
pub record Gathered : Type 0 where
  pub merged : List Result
  pub warnings : List Text
  pub failed : ℕ

-- One round of that loop, in front of the rounds for the later sources.
unfoldable pub gather_answer : List Text → Reply → Option Text → Gathered → Gathered
unfolding name_error
gather_answer names a none g = record g {
  merged = a.results ++ g.merged;
  warnings = a.warnings ++ g.warnings;
}
gather_answer names a (some err) g = record g {
  warnings = a.warnings ++ name_error names err ∷ g.warnings;
  failed = g.failed + 1;
}

unfoldable pub gather : Text → List Source → Gathered
unfolding gather_answer
gather query [] = record { merged = []; warnings = []; failed = 0 }
gather query (s ∷ ss) = let a = s.search query in gather_answer s.sources a a.err (gather query ss)

-- `fmt.Errorf("no source named %q is configured", source)` and the like, up to the quoting
pub data ResolveError : Type 0 where
  not_token : Text → ResolveError
  not_searching : Text → Text → ResolveError
  no_source : Text → ResolveError
  needs_no_resolving : Text → ResolveError
  source_failed : Text → ResolveError

pub data Resolution : Type 0 where
  resolved : Text → Resolution
  unresolved : ResolveError → Resolution

unfoldable pub resolution : Resolved → Resolution
resolution (Resolved.link l) = resolved l
resolution (Resolved.failed msg) = unresolved (source_failed msg)

-- What a source that goes by the name makes of the id.
unfoldable pub resolve_with : Text → Text → Option (Text → Resolved) → Resolution
unfolding resolution
resolve_with source id none = unresolved (needs_no_resolving source)
resolve_with source id (some resolve) = resolution (resolve id)

-- `(*Multi).ResolveToken`
unfoldable pub resolve_among : Text → Text → List Source → Resolution
unfolding resolve_with mem_text
resolve_among source id [] = unresolved (no_source source)
resolve_among source id (s ∷ ss) =
    if mem_text source s.sources
    then resolve_with source id s.resolve
    else resolve_among source id ss

unfoldable pub resolve_in : Text → Text → Text → Searcher → Resolution
unfolding resolve_among
resolve_in token source id nothing = unresolved (not_searching token source)
resolve_in token source id (multi ss) = resolve_among source id ss
resolve_in token source id (lone s) =
    if mem_text source s.sources
    then resolve_with source id s.resolve
    else unresolved (not_searching token source)

unfoldable pub resolve_parsed : Text → Searcher → Option (Text × Text) → Resolution
unfolding resolve_in
resolve_parsed token s none = unresolved (not_token token)
resolve_parsed token s (some (source, id)) = resolve_in token source id s

-- `ResolveToken`
unfoldable pub resolve_token : Searcher → Text → Resolution
unfolding resolve_parsed parse_token
resolve_token s token = resolve_parsed token s (parse_token token)

module _ ⦃str : Strings⦄ where
  -- `infoHash`; `none` is a panic
  abbrev pub hash_at : Text → Option ℕ → Option Text
  hash_at link none = some []
  hash_at link (some i) = elim (slice_from (i + length marker) link) [
    | none ↦ none
    | some h ↦ some (str.lower (until ends_hash h))
  ]

  unfoldable pub info_hash : Text → Option Text
  unfolding index until
  info_hash link = hash_at link (index (str.lower link) marker)

  -- The loop of `dedupe`; `seen` holds the hashes met.
  unfoldable pub dedupe_hash : Text → List Text → Bool
  unfolding mem_text
  dedupe_hash h seen = not (text_eq h []) && mem_text h seen

  abbrev pub keep_result : Result → Option (List Result) → Option (List Result)
  keep_result r none = none
  keep_result r (some out) = some (r ∷ out)

  -- One round; `rest` makes the later ones.
  unfoldable pub dedupe_step :
      Result → List Text → (List Text → Option (List Result)) → Option Text → Option (List Result)
  unfolding dedupe_hash
  dedupe_step r seen rest none = none
  dedupe_step r seen rest (some h) =
      if dedupe_hash h seen
      then rest seen
      else keep_result r (rest (if text_eq h [] then seen else h ∷ seen))

  unfoldable pub dedupe_from : List Text → List Result → Option (List Result)
  unfolding dedupe_step info_hash
  dedupe_from seen [] = some []
  dedupe_from seen (r ∷ rs) = dedupe_step r seen (λ seen'. dedupe_from seen' rs) (info_hash r.link)

  unfoldable pub dedupe : List Result → Option (List Result)
  unfolding dedupe_from
  dedupe rs = dedupe_from [] rs

  abbrev pub found : List Text → Option (List Result) → Option Reply
  found warnings none = none
  found warnings (some rs) =
      some (record {
        results = sort_stable (by_greater seeder_key) rs;
        warnings = warnings;
        err = none;
      })

  -- `(*Multi).Search`
  unfoldable pub search_all : List Source → Text → Option Reply
  unfolding gather dedupe
  search_all ss query =
      let g = gather query ss in
      if g.failed == length ss
      then some (record {
        results = [];
        warnings = [];
        err = some (codes "every indexer failed: " ++ join (codes "; ") g.warnings);
      })
      else found g.warnings (dedupe g.merged)
