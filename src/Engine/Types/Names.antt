-- ===== src/Engine/Types/Names.antt =====
-- Priorities by their names, and through the library and back.
use torrnado.Common.{◌≡◌, refl, some}
use mathlib.Core.Option
use torrnado.Engine.Library.{PiecePriority}
use torrnado.Engine.Types.{priority_string, parse_priority, to_lib_priority, from_lib_priority}

-- A priority as a session keeps it: the two that the library raises for a reader of its own are high.
abbrev pub settled : PiecePriority → PiecePriority
settled PiecePriority.readahead = PiecePriority.high
settled PiecePriority.next = PiecePriority.high
settled p = p

-- A file's priority goes through a session file by its name: what is written is read back as a
-- priority that gives the library the same one, but for the two between high and now, which become
-- high.
pub saved_priority :
    (q : PiecePriority)
    → Option.map to_lib_priority (parse_priority (priority_string (from_lib_priority q)))
      ≡ some (settled q)
unfolding from_lib_priority priority_string parse_priority to_lib_priority
saved_priority PiecePriority.none = refl
saved_priority PiecePriority.normal = refl
saved_priority PiecePriority.high = refl
saved_priority PiecePriority.readahead = refl
saved_priority PiecePriority.next = refl
saved_priority PiecePriority.now = refl
