-- ===== src/Tui/Complete/Hidden.antt =====
-- What internal/tui/complete.go offers for an argument of which nothing is typed yet.
use torrnado.Common.{List, filter}
use torrnado.Common.Sort.{sort_stable}
use torrnado.Common.Text.{Text, codes, has_prefix}
use torrnado.Disk.{Disk}
use torrnado.Tui.Complete.{Entry, entry_before, entries_of}

-- The entries whose names begin with a dot.
abbrev pub hidden : List Entry → List Entry
hidden es = filter (λ e. has_prefix e.name (codes ".")) es

module _ (d : Disk) where
  -- What a directory holds, by name, with only the hidden entries.
  abbrev pub hidden_in : Text → List Entry
  hidden_in dir = sort_stable entry_before (hidden (entries_of d dir (d.read_dir dir)))
