-- ===== src/Batch.antt =====
-- internal/batch/expand.go: what the arguments of an add stand for. `one` calls itself on what a glob
-- matches; here that call takes fuel, and `none` means that it ran out.
pub mod Cleanup
pub mod Ends
pub mod Tests
use torrnado.Common.{
  ℕ, zero, suc, Bool, true, false, not, ◌&&◌, ◌||◌, Option, none, some, List, [], ◌∷◌, ◌++◌, ◌==◌,
  leb, if◌then◌else◌, filter,
}
use torrnado.Common.Text.{Text, codes, has_prefix, text_eq, mem_text}
use torrnado.Engine.State.{Answer, gives, fails}
use torrnado.Indexer.Result.{Strings}
use torrnado.Disk.{Disk, Response, Hop}

-- `expander`, and beside it the temporary files that are on disk.
pub record Expander : Type 0 where
  pub tmp : List Text
  pub files : List Text

-- What is expanded, or why not, and the expander afterwards.
abbrev pub Outcome : Type 0
Outcome = Option (Answer (List Text) × Expander)

abbrev pub is_magnet : Text → Bool
is_magnet s = has_prefix s (codes "magnet:")

abbrev pub is_url : Text → Bool
is_url s = has_prefix s (codes "http://") || has_prefix s (codes "https://")

-- `strings.ContainsAny(arg, "*?[")`
unfoldable pub has_meta : Text → Bool
has_meta [] = false
has_meta (c ∷ s) = c == 42 || c == 63 || c == 91 || has_meta s

abbrev pub max_redirects : ℕ
max_redirects = 10

-- `CheckRedirect` on each redirect in turn, after `via` requests: the magnet that one leads to, or
-- none where all are followed.
unfoldable pub follow : ℕ → List Hop → Answer (Option Text)
follow via [] = gives none
follow via (h ∷ hops) =
    let rest = follow (suc via) hops in
    if h.magnet
    then gives (some h.url)
    else if leb max_redirects via
    then fails (codes "stopped after 10 redirects")
    else rest

-- The body is saved; the file is recorded before the copy.
unfoldable pub save : Text → Answer Text → Option Text → Expander → Answer Text × Expander
save url (fails e) copied ex = (fails (codes "create temp file for " ++ url ++ codes ": " ++ e), ex)
save url (gives name) (some e) ex = (
  fails (codes "save " ++ url ++ codes ": " ++ e),
  record ex { tmp = name ∷ ex.tmp; files = name ∷ ex.files },
)
save url (gives name) none ex =
    (gives name, record ex { tmp = name ∷ ex.tmp; files = name ∷ ex.files })

unfoldable pub fetched : Text → Answer (Option Text) → Response → Expander → Answer Text × Expander
unfolding save
fetched url (fails e) r ex = (fails (codes "fetch " ++ url ++ codes ": " ++ e), ex)
fetched url (gives (some magnet)) r ex = (gives magnet, ex)
fetched url (gives none) (Response.failed e) ex =
    (fails (codes "fetch " ++ url ++ codes ": " ++ e), ex)
fetched url (gives none) (Response.status s) ex =
    (fails (codes "fetch " ++ url ++ codes ": server returned " ++ s), ex)
fetched url (gives none) (Response.body name copied) ex = save url name copied ex

-- A single source, as a list of one.
unfoldable pub single : Answer Text × Expander → Answer (List Text) × Expander
single (gives s, ex) = (gives (s ∷ []), ex)
single (fails e, ex) = (fails e, ex)

-- The loops over arguments and over matches: the first error ends them.
unfoldable pub and_sources : List Text → Outcome → Outcome
and_sources ss none = none
and_sources ss (some (fails e, ex)) = some (fails e, ex)
and_sources ss (some (gives ts, ex)) = some (gives (ss ++ ts), ex)

unfoldable pub go_on : (Expander → Outcome) → Outcome → Outcome
unfolding and_sources
go_on rest none = none
go_on rest (some (fails e, ex)) = some (fails e, ex)
go_on rest (some (gives ss, ex)) = and_sources ss (rest ex)

unfoldable pub each : (Text → Expander → Outcome) → List Text → Expander → Outcome
unfolding go_on
each f [] ex = some (gives [], ex)
each f (a ∷ rest) ex = go_on (each f rest) (f a ex)

module _ (d : Disk) where
  -- `expander.cleanup`: a file whose removal fails stays, and is forgotten like the others.
  unfoldable pub cleanup : Expander → Expander
  cleanup ex = record {
    tmp = [];
    files = filter (λ f. not (mem_text f ex.tmp && d.unlinks f)) ex.files;
  }

  -- `Expand`: on an error it cleans up, and otherwise its caller does.
  unfoldable pub ended : Outcome → Outcome
  unfolding cleanup
  ended none = none
  ended (some (fails e, ex)) = some (fails e, cleanup ex)
  ended (some (gives ss, ex)) = some (gives ss, ex)

  -- `expander.fetch`
  unfoldable pub fetch : Text → Expander → Answer Text × Expander
  unfolding follow fetched
  fetch url ex = fetched url (follow 1 (d.redirects url)) (d.response url) ex

  -- `expandDir`
  unfoldable pub torrents_in : Text → List (Text × Bool) → List Text
  torrents_in dir [] = []
  torrents_in dir ((name, is_dir) ∷ es) =
      if is_dir || not (d.is_torrent name)
      then torrents_in dir es
      else d.join_path dir name ∷ torrents_in dir es

  unfoldable pub dir_sources : Text → List Text → Answer (List Text)
  dir_sources dir [] = fails (dir ++ codes ": no .torrent files found")
  dir_sources dir (s ∷ ss) = gives (s ∷ ss)

  unfoldable pub expand_dir : Text → Answer (List (Text × Bool)) → Answer (List Text)
  unfolding torrents_in dir_sources
  expand_dir dir (fails e) = fails (codes "read directory " ++ dir ++ codes ": " ++ e)
  expand_dir dir (gives es) = dir_sources dir (torrents_in dir es)

  module _ ⦃str : Strings⦄ where
    -- `expandMagnetListFile`: the loop over the lines, and what follows it.
    unfoldable pub after_line : Text → Answer (List Text) → Answer (List Text)
    after_line line (fails e) = fails e
    after_line line (gives ss) = gives (line ∷ ss)

    unfoldable pub read_lines : Text → List Text → Answer (List Text)
    unfolding after_line
    read_lines path [] = gives []
    read_lines path (l ∷ ls) =
        let line = str.trim l in
        let rest = read_lines path ls in
        if text_eq line [] || has_prefix line (codes "#")
        then rest
        else if is_magnet line
        then after_line line rest
        else fails (path ++ codes ": line " ++ d.quote line ++ codes " is not a magnet uri")

    unfoldable pub list_sources : Text → Option Text → Answer (List Text) → Answer (List Text)
    list_sources path stopped (fails e) = fails e
    list_sources path (some e) (gives ss) = fails (codes "read " ++ path ++ codes ": " ++ e)
    list_sources path none (gives []) = fails (path ++ codes ": no magnet uris found")
    list_sources path none (gives (s ∷ ss)) = gives (s ∷ ss)

    unfoldable pub expand_list : Text → Answer (List Text × Option Text) → Answer (List Text)
    unfolding read_lines list_sources
    expand_list path (fails e) = fails (codes "open " ++ path ++ codes ": " ++ e)
    expand_list path (gives (ls, stopped)) = list_sources path stopped (read_lines path ls)

    -- The branches of `one`, on what is there and on what is not.
    unfoldable pub existing : Text → Bool → Answer (List Text)
    unfolding expand_dir expand_list
    existing arg true = expand_dir arg (d.read_dir arg)
    existing arg false =
        if d.is_torrent arg then gives (arg ∷ []) else expand_list arg (d.lines arg)

    unfoldable pub globbed :
        (Text → Expander → Outcome) → Text → Answer (List Text) → Expander → Outcome
    unfolding each
    globbed f arg (fails e) ex =
        some (fails (codes "bad glob pattern " ++ d.quote arg ++ codes ": " ++ e), ex)
    globbed f arg (gives []) ex =
        some (fails (codes "glob " ++ d.quote arg ++ codes " matched no files"), ex)
    globbed f arg (gives (m ∷ ms)) ex = each f (m ∷ ms) ex

    unfoldable pub on_disk : (Text → Expander → Outcome) → Text → Option Bool → Expander → Outcome
    unfolding existing globbed has_meta
    on_disk f arg (some is_dir) ex = some (existing arg is_dir, ex)
    on_disk f arg none ex =
        if has_meta arg
        then globbed f arg (d.glob arg) ex
        else some (fails (arg ++ codes ": no such file or directory"), ex)

    unfoldable pub one_with : (Text → Expander → Outcome) → Text → Expander → Outcome
    unfolding single fetch on_disk
    one_with f arg ex =
        if is_magnet arg
        then some (gives (arg ∷ []), ex)
        else if is_url arg
        then some (single (fetch arg ex))
        else on_disk f arg (d.stat arg) ex

    -- `expander.one`
    unfoldable pub one : ℕ → Text → Expander → Outcome
    unfolding one_with
    one zero arg ex = none
    one (suc n) arg ex = one_with (one n) arg ex

    unfoldable pub expand : ℕ → List Text → Outcome
    unfolding one each ended
    expand n args = ended (each (one n) args (record { tmp = []; files = [] }))
