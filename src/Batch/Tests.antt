-- ===== src/Batch/Tests.antt =====
-- The theorems about internal/batch at concrete inputs.
use torrnado.Common.{
  ◌≡◌, refl, inl, inr, true, false, none, some, List, [], ◌∷◌, ◌++◌, if◌then◌else◌, All,
}
use torrnado.Common.Text.{Text, codes, text_eq, has_prefix, mem_text}
use torrnado.Engine.State.{Answer, gives, fails}
use torrnado.Indexer.Result.{Strings}
use torrnado.Disk.{Disk, Response}
use torrnado.Batch.{Expander, cleanup, expand, fetch, on_disk, has_meta}
use torrnado.Batch.Cleanup.{left_behind, expand_leaves_none}
use torrnado.Batch.Ends.{expand_ends, dangling_link_loops}

instance abbrev plain_strings : Strings
plain_strings = record { lower = λ s. s; trim = λ s. s }

-- One torrent file, which every pattern matches, and a server that answers with another.
abbrev shelf : Disk
shelf = record {
  stat = λ p. if text_eq p (codes "a.torrent") then some false else none;
  read_dir = λ p. fails (codes "no directory");
  glob = λ p. gives (codes "a.torrent" ∷ []);
  lines = λ p. fails (codes "no file");
  redirects = λ u. [];
  response = λ u. Response.body (gives (codes "/tmp/t1.torrent")) none;
  unlinks = λ p. true;
  is_torrent = λ p. true;
  join_path = λ p q. p ++ codes "/" ++ q;
  dir_of = λ p. codes ".";
  base_of = λ p. p;
  quote = λ p. p;
  home = gives (codes "/home/u");
}

abbrev downloaded : Expander
downloaded = record { tmp = codes "/tmp/t1.torrent" ∷ []; files = codes "/tmp/t1.torrent" ∷ [] }

abbrev links : List Text
links = codes "https://x/1" ∷ codes "a.torrent" ∷ []

links_expanded :
    expand shelf 1 links
    ≡ some (gives (codes "/tmp/t1.torrent" ∷ codes "a.torrent" ∷ []), downloaded)
unfolding expand on_disk fetch text_eq has_prefix
links_expanded = refl

expand_leaves_none_example :
    All
      (λ f. shelf.unlinks f ≡ false)
      (left_behind shelf (gives (codes "/tmp/t1.torrent" ∷ codes "a.torrent" ∷ [])) downloaded)
expand_leaves_none_example =
    expand_leaves_none shelf 1 links (gives (codes "/tmp/t1.torrent" ∷ codes "a.torrent" ∷ []))
      downloaded links_expanded

-- The file is removed.
downloaded_gone :
    left_behind shelf (gives (codes "/tmp/t1.torrent" ∷ codes "a.torrent" ∷ [])) downloaded ≡ []
unfolding cleanup mem_text text_eq
downloaded_gone = refl

there : shelf.stat (codes "a.torrent") ≡ some false
unfolding text_eq
there = refl

expand_ends_example :
    (r : Answer (List Text) × Expander) × (expand shelf 2 (codes "*.torrent" ∷ []) ≡ some r)
expand_ends_example =
    expand_ends shelf (λ pattern. (inr (inr (inl (false, there))), tt)) 0 (codes "*.torrent" ∷ [])

-- A link by the name of a star leads nowhere.
abbrev broken : Disk
broken = record shelf { stat = λ p. none; glob = λ p. gives (codes "*" ∷ []) }

dangling_link_loops_example : expand broken 9 (codes "*" ∷ []) ≡ none
unfolding has_prefix has_meta
dangling_link_loops_example =
    dangling_link_loops broken (codes "*") [] refl refl refl refl refl 9 []
