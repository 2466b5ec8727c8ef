-- ===== src/Tui/Tests/Complete.antt =====
-- The theorems about internal/tui/complete.go at concrete inputs.
use torrnado.Common.{◌≡◌, refl, true, false, none, List, [], ◌∷◌, ◌++◌, All}
use torrnado.Common.Text.{Text, codes, text_eq, has_prefix, every}
use torrnado.Common.Utf8.{runes_from, spelled, respelled}
use torrnado.Engine.State.{gives, fails}
use torrnado.Indexer.Result.{Strings}
use torrnado.Disk.{Disk, Response}
use torrnado.Tui.Palette.{split_args}
use torrnado.Common.Sort.{sort_stable}
use torrnado.Tui.Visible.{text_lt}
use torrnado.Tui.Complete.{
  split_for_completion, PathArg, complete_arg, longest_common_prefix, put_back, last_path_arg,
}
use torrnado.Tui.Complete.Prefix.{longest_common_prefix_lem}
use torrnado.Tui.Complete.Back.{split_args-put_back}

instance abbrev plain_strings : Strings
plain_strings = record { lower = λ s. s; trim = λ s. s }

-- A directory of two hidden files and one that is not.
abbrev folder : Disk
folder = record {
  stat = λ p. none;
  read_dir = λ p. gives ((codes ".b", false) ∷ (codes ".a", false) ∷ (codes "c", false) ∷ []);
  glob = λ p. gives [];
  lines = λ p. fails (codes "no file");
  redirects = λ u. [];
  response = λ u. Response.failed (codes "no network");
  unlinks = λ p. true;
  is_torrent = λ p. false;
  join_path = λ p q. p ++ codes "/" ++ q;
  dir_of = λ p. codes ".";
  base_of = λ p. p;
  quote = λ p. p;
  home = gives (codes "/home/u");
}

abbrev films : List Text
films = codes "film-b.torrent" ∷ codes "film-c" ∷ []

longest_common_prefix_lem_example :
    All
      (λ x. has_prefix x (longest_common_prefix (codes "film-a" ∷ films)) ≡ true)
      (codes "film-a" ∷ films)
    × (has_prefix (longest_common_prefix (codes "film-a" ∷ films)) (codes "fi") ≡ true)
unfolding has_prefix
longest_common_prefix_lem_example =
    longest_common_prefix_lem (codes "film-a") films (codes "fi") (refl, (refl, (refl, tt)))

abbrev opened : PathArg
opened = record { start = 5; text = codes "/me"; quote = 39 }

opened_arg : last_path_arg (codes "move '/me") ≡ opened
unfolding last_path_arg text_eq
opened_arg = refl

split_args-put_back_example :
    split_args (put_back (codes "move '/me") opened (codes "/media/big disk"))
    ≡ codes "move" ∷ codes "/media/big disk" ∷ []
unfolding every text_eq spelled runes_from
split_args-put_back_example =
    split_args-put_back (codes "move") (codes "move '/me") (codes "/media/big disk") opened refl
      refl refl refl

-- A byte that is not UTF-8 is written as U+FFFD; the letter after it is.
respelled_byte : respelled (97 ∷ 255 ∷ 195 ∷ 169 ∷ []) ≡ 97 ∷ 239 ∷ 191 ∷ 189 ∷ 195 ∷ 169 ∷ []
unfolding spelled runes_from
respelled_byte = refl

-- Nothing is typed after the command.
abbrev nothing_typed : PathArg
nothing_typed = record { start = 4; text = []; quote = 0 }

nothing_typed_offers :
    (complete_arg folder (codes "add ") nothing_typed).1 ≡ codes ".a" ∷ codes ".b" ∷ []
unfolding complete_arg text_eq has_prefix sort_stable split_for_completion text_lt
nothing_typed_offers = refl
