-- ===== src/Tui/Complete.antt =====
-- internal/tui/complete.go: what Tab does to the path that the command line ends on.
pub mod Prefix
pub mod Back
pub mod Hidden
use torrnado.Common.{
  ℕ, zero, suc, ◌+◌, ◌-◌, Bool, true, false, not, ◌&&◌, ◌||◌, none, some, List, [], ◌∷◌, ◌++◌, map,
  ◌==◌, ltb, if◌then◌else◌, filter, length, take, drop,
}
use torrnado.Common.Sort.{sort_stable}
use torrnado.Common.Text.{Text, codes, has_prefix, text_eq, mem_text}
use torrnado.Engine.State.{Answer, gives, fails}
use torrnado.Indexer.Result.{Strings}
use torrnado.Disk.{Disk}
use torrnado.Tui.Visible.{text_lt}
use torrnado.Tui.Palette.{split_args}
use torrnado.Tui.Prompt.{drop_last_byte}

-- `pathArg`; no quote is 0.
pub record PathArg : Type 0 where
  pub start : ℕ
  pub text : Text
  pub quote : ℕ

-- The variables of the loop in `lastPathArg`.
pub record Finder : Type 0 where
  pub start : ℕ
  pub quote : ℕ
  pub in_word : Bool

abbrev pub begin_word : ℕ → Finder → Finder
begin_word i st = if st.in_word then st else record st { start = i; in_word = true }

-- One byte at this place of the line.
unfoldable pub find_step : ℕ → ℕ → Finder → Finder
find_step i c st =
    if st.quote == 0
    then (if c == 39 || c == 34
        then record (begin_word i st) { quote = c }
        else if c == 32 || c == 9
        then record st { in_word = false; start = i + 1 }
        else begin_word i st)
    else if c == st.quote
    then record st { quote = 0 }
    else st

unfoldable pub find_from : ℕ → Finder → Text → Finder
unfolding find_step
find_from i st [] = st
find_from i st (c ∷ s) = find_from (i + 1) (find_step i c st) s

-- `strings.HasSuffix(s, t)`, and `strings.TrimSuffix(s, t)`
unfoldable pub has_suffix : Text → Text → Bool
has_suffix s t = text_eq (drop (length s - length t) s) t

unfoldable pub trim_suffix : Text → Text → Text
unfolding has_suffix
trim_suffix s t = if has_suffix s t then take (length s - length t) s else s

-- The quote that an argument opens with is taken off, and one that closes it.
unfoldable pub unquoted : ℕ → Text → PathArg
unfolding trim_suffix
unquoted start [] = record { start = start; text = []; quote = 0 }
unquoted start (c ∷ raw) =
    if c == 39 || c == 34
    then record { start = start; text = trim_suffix raw (c ∷ []); quote = c }
    else record { start = start; text = c ∷ raw; quote = 0 }

-- `lastPathArg`
unfoldable pub last_path_arg : Text → PathArg
unfolding find_from unquoted
last_path_arg line =
    let st = find_from 0 (record { start = length line; quote = 0; in_word = false }) line in
    let start = if not st.in_word && st.quote == 0 then length line else st.start in
    unquoted start (drop start line)

-- `completesPaths`: the commands of the table that take a path.
unfoldable pub completes_paths : Text → Bool
completes_paths name = mem_text name (codes "add" ∷ codes "move" ∷ [])

-- `isNotAPath`
unfoldable pub is_not_a_path : Text → Bool
is_not_a_path s =
    has_prefix s (codes "magnet:")
    || has_prefix s (codes "http://")
    || has_prefix s (codes "https://")

-- `entry`
pub record Entry : Type 0 where
  pub name : Text
  pub dir : Bool

unfoldable pub entry_before : Entry → Entry → Bool
entry_before a b = text_lt a.name b.name

-- `longestCommonPrefix`: the loop on one name, which shortens what is common, and the loop on all.
unfoldable pub shorten : ℕ → Text → Text → Text
unfolding drop_last_byte
shorten zero n common = common
shorten (suc k) n common =
    if has_prefix n common then common else shorten k n (drop_last_byte common)

unfoldable pub common_with : Text → List Text → Text
unfolding shorten
common_with common [] = common
common_with common (n ∷ ns) = common_with (shorten (length common) n common) ns

unfoldable pub longest_common_prefix : List Text → Text
unfolding common_with
longest_common_prefix [] = []
longest_common_prefix (n ∷ ns) = common_with n ns

-- `joinCompletion`
unfoldable pub join_completion : Text → Text → Entry → Text
unfolding trim_suffix
join_completion typed prefix e =
    trim_suffix typed prefix ++ e.name ++ (if e.dir then codes "/" else [])

unfoldable pub has_blank : Text → Bool
has_blank [] = false
has_blank (c ∷ s) = c == 32 || c == 9 || has_blank s

-- `quoteArg`
unfoldable pub quote_arg : Text → ℕ → Text
unfolding has_blank
quote_arg s q = if q == 0 then (if has_blank s then 39 ∷ s ++ 39 ∷ [] else s) else q ∷ s ++ q ∷ []

-- The line once its last argument is put back.
unfoldable pub put_back : Text → PathArg → Text → Text
unfolding quote_arg
put_back line arg s = take arg.start line ++ quote_arg s arg.quote

-- The tests of the loop in `matchesIn`.
unfoldable pub offered : Text → Text → Bool
offered prefix name =
    has_prefix name prefix && (not (has_prefix name (codes ".")) || has_prefix prefix (codes "."))

abbrev pub names_of : List Entry → List Text
names_of es = map (λ e. e.name) es

-- The three cases of `completePath` on what matches.
unfoldable pub complete_with : Text → PathArg → Text → List Entry → Text × List Text
unfolding put_back join_completion longest_common_prefix
complete_with line arg prefix [] = (line, [])
complete_with line arg prefix (e ∷ []) = (put_back line arg (join_completion arg.text prefix e), [])
complete_with line arg prefix (e ∷ e' ∷ es) =
    let names = names_of (e ∷ e' ∷ es) in
    let common = longest_common_prefix names in
    let whole : Entry = record { name = common; dir = false } in
    (
      if ltb (length prefix) (length common)
          then put_back line arg (join_completion arg.text prefix whole)
          else line,
      names,
    )

module _ (d : Disk) where
  -- `config.ExpandHome`
  unfoldable pub expand_home : Text → Answer Text
  expand_home path =
      if not (text_eq path (codes "~")) && not (has_prefix path (codes "~/"))
      then gives path
      else elim d.home [
        | fails e ↦ fails (codes "resolve " ++ d.quote path ++ codes ": " ++ e)
        | gives home ↦
            gives (if text_eq path (codes "~") then home else d.join_path home (drop 2 path))
      ]

  abbrev pub or_as_typed : Text → Answer Text → Text
  or_as_typed text (gives path) = path
  or_as_typed text (fails e) = text

  -- `expandForListing`, `splitForCompletion`
  unfoldable pub expand_for_listing : Text → Text
  unfolding expand_home
  expand_for_listing text =
      if text_eq text [] then codes "." else or_as_typed text (expand_home text)

  unfoldable pub split_for_completion : Text → Text × Text
  unfolding has_suffix expand_for_listing
  split_for_completion text =
      let expanded = expand_for_listing text in
      if has_suffix text (codes "/")
      then (expanded, [])
      else (d.dir_of expanded, d.base_of expanded)

  abbrev pub is_dir : Text → Bool
  is_dir path = elim (d.stat path) [ none ↦ false | some b ↦ b ]

  unfoldable pub entries_of : Text → Answer (List (Text × Bool)) → List Entry
  entries_of dir (fails e) = []
  entries_of dir (gives es) =
      map (λ e. record { name = e.0; dir = is_dir (d.join_path dir e.0) }) es

  unfoldable pub matches_in : Text → Text → List Entry
  unfolding offered entries_of entry_before
  matches_in dir prefix =
      sort_stable entry_before
        (filter (λ e. offered prefix e.name) (entries_of dir (d.read_dir dir)))

  unfoldable pub complete_split : Text → PathArg → Text × Text → Text × List Text
  unfolding matches_in complete_with
  complete_split line arg (dir, prefix) = complete_with line arg prefix (matches_in dir prefix)

  unfoldable pub complete_arg : Text → PathArg → Text × List Text
  unfolding is_not_a_path complete_split
  complete_arg line arg =
      if arg.start == 0 || is_not_a_path arg.text
      then (line, [])
      else complete_split line arg (split_for_completion arg.text)

  -- `completePath`
  unfoldable pub complete_command : Text → List Text → Text × List Text
  unfolding completes_paths last_path_arg complete_arg
  complete_command line [] = (line, [])
  complete_command line (name ∷ rest) =
      if completes_paths name then complete_arg line (last_path_arg line) else (line, [])

  unfoldable pub complete_path : ⦃str : Strings⦄ → Text → Text × List Text
  unfolding complete_command
  complete_path line = complete_command line (split_args line)

  -- `expandPathArgs`
  unfoldable pub expand_path_arg : Text → Text
  unfolding is_not_a_path expand_home
  expand_path_arg a = if is_not_a_path a then a else or_as_typed a (expand_home a)
