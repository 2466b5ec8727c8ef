-- ===== src/Engine/Types.antt =====
-- internal/engine/types.go: priorities and states, and ops.go's maps between the engine's
-- priorities and the library's.
pub mod Names
use torrnado.Common.{ℕ, Bool, true, false, ◌||◌, Option, some, [], ◌==◌, leb, if◌then◌else◌}
use torrnado.Common.Text.{Text, codes, text_eq}
use torrnado.Engine.Library.{PiecePriority}

-- `Priority`; a value past `now` is one that the constants do not name.
pub data Priority : Type 0 where
  none low normal high now : Priority
  other : ℕ → Priority

-- `Priority.String`
unfoldable pub priority_string : Priority → Text
priority_string Priority.none = codes "none"
priority_string Priority.low = codes "low"
priority_string Priority.normal = codes "normal"
priority_string Priority.high = codes "high"
priority_string Priority.now = codes "now"
priority_string (Priority.other n) = codes "unknown"

unfoldable pub parse_priority : Text → Option Priority
unfolding text_eq
parse_priority s =
    if text_eq s (codes "none") || text_eq s (codes "skip")
    then some Priority.none
    else if text_eq s (codes "low")
    then some Priority.low
    else if text_eq s (codes "normal") || text_eq s []
    then some Priority.normal
    else if text_eq s (codes "high")
    then some Priority.high
    else if text_eq s (codes "now") || text_eq s (codes "max")
    then some Priority.now
    else Option.none

unfoldable pub to_lib_priority : Priority → PiecePriority
to_lib_priority Priority.none = PiecePriority.none
to_lib_priority Priority.low = PiecePriority.normal
to_lib_priority Priority.normal = PiecePriority.normal
to_lib_priority Priority.high = PiecePriority.high
to_lib_priority Priority.now = PiecePriority.now
to_lib_priority (Priority.other n) = PiecePriority.normal

-- The rank of a piece priority, by which the code compares them.
abbrev rank : PiecePriority → ℕ
rank PiecePriority.none = 0
rank PiecePriority.normal = 1
rank PiecePriority.high = 2
rank PiecePriority.readahead = 3
rank PiecePriority.next = 4
rank PiecePriority.now = 5

unfoldable pub from_lib_priority : PiecePriority → Priority
from_lib_priority p =
    if rank p == 0
    then Priority.none
    else if leb 5 (rank p)
    then Priority.now
    else if leb 2 (rank p)
    then Priority.high
    else Priority.normal

-- `fromLibPriority(p) == PriorityNormal`
unfoldable pub is_normal : Priority → Bool
is_normal Priority.normal = true
is_normal _ = false

-- `State`, with the wire value of each.
pub data State : Type 0 where
  checking queued paused downloading seeding error blocked low_disk : State

unfoldable pub state_string : State → Text
state_string State.checking = codes "checking"
state_string State.queued = codes "queued"
state_string State.paused = codes "paused"
state_string State.downloading = codes "downloading"
state_string State.seeding = codes "seeding"
state_string State.error = codes "error"
state_string State.blocked = codes "blocked"
state_string State.low_disk = codes "low disk"
