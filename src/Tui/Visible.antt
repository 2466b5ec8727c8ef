-- ===== src/Tui/Visible.antt =====
-- internal/tui/model.go's `visibleTorrents`, `cursorTorrent` and `clampCursor`, and the filters of
-- sidebar.go.
use torrnado.Common.{
  ℕ, ◌-◌, Bool, true, false, not, ◌&&◌, ◌||◌, Option, none, some, List, [], ◌∷◌, ltb, leb, ◌==◌,
  if◌then◌else◌, get_elem?, filter,
}
use torrnado.Common.Text.{Text, text_eq, index}
use torrnado.Common.Int64
use torrnado.Common.Sort.{sort_stable}
use torrnado.Engine.Library.{Float64}
use torrnado.Engine.Types.{State}
use torrnado.Engine.State.{TorrentSnapshot}
use torrnado.Indexer.Result.{Strings}
use torrnado.Tui.Model.{Model, SortMode, StatusFilter}

-- `a < b` on strings: by their bytes
unfoldable pub text_lt : Text → Text → Bool
text_lt [] [] = false
text_lt [] (d ∷ t) = true
text_lt (c ∷ s) [] = false
text_lt (c ∷ s) (d ∷ t) = ltb c d || (c == d && text_lt s t)

-- `strings.Contains(s, p)`
unfoldable pub contains_text : Text → Text → Bool
contains_text s [] = true
contains_text s (c ∷ p) = elim (index s (c ∷ p)) [ none ↦ false | some i ↦ true ]

-- `==` on states
unfoldable pub is_downloading : State → Bool
is_downloading State.downloading = true
is_downloading _ = false

unfoldable pub is_seeding : State → Bool
is_seeding State.seeding = true
is_seeding _ = false

unfoldable pub is_held : State → Bool
is_held State.error = true
is_held State.blocked = true
is_held State.low_disk = true
is_held _ = false

module _ ⦃fl : Float64⦄ where
  -- `statusFilter.matches`
  unfoldable pub matches : StatusFilter → TorrentSnapshot → Bool
  matches StatusFilter.all t = true
  matches StatusFilter.downloading t = is_downloading t.state
  matches StatusFilter.seeding t = is_seeding t.state
  matches StatusFilter.completed t =
      Int64.lt 0 t.total_length && Int64.le t.total_length t.completed
  matches StatusFilter.stopped t = t.paused || is_held t.state

  module _ ⦃str : Strings⦄ where
    -- The comparison of each column.
    unfoldable pub less : SortMode → TorrentSnapshot → TorrentSnapshot → Bool
    less SortMode.size a b = Int64.lt a.total_length b.total_length
    less SortMode.progress a b = fl.lt a.progress b.progress
    less SortMode.ratio a b = fl.lt a.ratio b.ratio
    less SortMode.eta a b = Int64.lt a.eta b.eta
    less SortMode.added a b = ltb a.added_at b.added_at
    less SortMode.down a b = fl.lt a.download_bps b.download_bps
    less SortMode.up a b = fl.lt a.upload_bps b.upload_bps
    less SortMode.name a b = text_lt (str.lower a.name) (str.lower b.name)

    -- The function that `visibleTorrents` sorts by. In descending order it is no strict order, and
    -- where two are alike Go leaves open which of them comes first; here one order stands for it.
    unfoldable pub before : SortMode → Bool → TorrentSnapshot → TorrentSnapshot → Bool
    before by desc a b = if desc then not (less by a b) else less by a b

    -- The three tests of the loop.
    unfoldable pub has_label : Text → TorrentSnapshot → Bool
    has_label l t = text_eq l [] || text_eq t.label l

    unfoldable pub has_name : Text → TorrentSnapshot → Bool
    has_name query t =
        let q = str.lower (str.trim query) in text_eq q [] || contains_text (str.lower t.name) q

    unfoldable pub shown : Model → TorrentSnapshot → Bool
    shown m t = matches m.filter t && has_label m.label_filter t && has_name m.search_query t

    unfoldable pub visible_torrents : Model → List TorrentSnapshot
    visible_torrents m = sort_stable (before m.sort_by m.sort_desc) (filter (shown m) m.torrents)

    unfoldable pub cursor_torrent : Model → Option TorrentSnapshot
    cursor_torrent m = get_elem? (visible_torrents m) m.cursor

  unfoldable pub clamp_cursor : ℕ → Model → Model
  clamp_cursor n m =
      if n == 0
      then record m { cursor = 0 }
      else if leb n m.cursor
      then record m { cursor = n - 1 }
      else m
