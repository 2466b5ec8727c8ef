-- ===== src/Tui/Sidebar.antt =====
-- internal/tui/label.go, the entries of sidebar.go, and update.go's `selectSidebar`.
use torrnado.Common.{
  ℕ, zero, suc, ◌+◌, ◌-◌, Bool, true, false, not, ◌&&◌, ◌||◌, Option, none, some, List, [], ◌∷◌,
  ◌++◌, map, ltb, ◌==◌, if◌then◌else◌, length, replicate,
}
use torrnado.Common.Text.{Text, codes, text_eq}
use torrnado.Common.Keys
use torrnado.Common.Sort.{sort_stable}
use torrnado.Engine.Library.{Float64}
use torrnado.Engine.State.{TorrentId, TorrentSnapshot}
use torrnado.Indexer.Result.{Strings}
use torrnado.Tui.Layout.{Panes}
use torrnado.Tui.Model.{Model, StatusFilter}
use torrnado.Tui.Visible.{text_lt, matches, has_label, has_name}

-- `labelUse`
pub record LabelUse : Type 0 where
  pub name : Text
  pub count : ℕ

-- `sidebarEntry`; the label of a status row is empty
pub record SidebarEntry : Type 0 where
  pub label : Text
  pub status : StatusFilter
  pub count : ℕ

unfoldable pub is_label : SidebarEntry → Bool
is_label e = not (text_eq e.label [])

-- `==` on filters
unfoldable pub filter_eq : StatusFilter → StatusFilter → Bool
filter_eq StatusFilter.all StatusFilter.all = true
filter_eq StatusFilter.downloading StatusFilter.downloading = true
filter_eq StatusFilter.seeding StatusFilter.seeding = true
filter_eq StatusFilter.completed StatusFilter.completed = true
filter_eq StatusFilter.stopped StatusFilter.stopped = true
filter_eq _ _ = false

-- The filters in the order of `filterNames`.
abbrev pub filters : List StatusFilter
filters =
    StatusFilter.all ∷ StatusFilter.downloading ∷ StatusFilter.seeding ∷ StatusFilter.completed
    ∷ StatusFilter.stopped ∷ []

-- `strings.ToLower(filterNames[f])`
unfoldable pub filter_name : StatusFilter → Text
filter_name StatusFilter.all = codes "all"
filter_name StatusFilter.downloading = codes "downloading"
filter_name StatusFilter.seeding = codes "seeding"
filter_name StatusFilter.completed = codes "completed"
filter_name StatusFilter.stopped = codes "stopped"

-- The order of the labels: the most used first, then by name.
unfoldable pub label_before : LabelUse → LabelUse → Bool
label_before a b = if a.count == b.count then text_lt a.name b.name else ltb b.count a.count

-- `counts[l]++`
unfoldable pub one_more : Text → List (Text × ℕ) → List (Text × ℕ)
one_more l counts = Keys.insert l (elim (Keys.lookup l counts) [ none ↦ 1 | some n ↦ n + 1 ]) counts

unfoldable pub label_use : Text × ℕ → LabelUse
label_use (name, n) = record { name = name; count = n }

unfoldable pub status_entry : StatusFilter → SidebarEntry
status_entry f = record { label = []; status = f; count = 0 }

unfoldable pub label_entry : LabelUse → SidebarEntry
label_entry l = record { label = l.name; status = StatusFilter.all; count = l.count }

-- `joinClauses`
unfoldable pub clauses_from : Text → List Text → Text
clauses_from p [] = p
clauses_from p (q ∷ []) = p ++ codes " and " ++ q
clauses_from p (q ∷ r ∷ ps) = p ++ codes ", " ++ clauses_from q (r ∷ ps)

unfoldable pub join_clauses : List Text → Text
unfolding clauses_from
join_clauses [] = []
join_clauses (p ∷ ps) = clauses_from p ps

module _ ⦃fl : Float64⦄ where
  unfoldable pub label_counts : List TorrentSnapshot → List (Text × ℕ) → List (Text × ℕ)
  unfolding one_more
  label_counts [] counts = counts
  label_counts (t ∷ ts) counts =
      label_counts ts (if text_eq t.label [] then counts else one_more t.label counts)

  unfoldable pub labels_in_use : Model → List LabelUse
  labels_in_use m = sort_stable label_before (map label_use (label_counts m.torrents []))

  unfoldable pub sidebar_entries : Model → List SidebarEntry
  sidebar_entries m = map status_entry filters ++ map label_entry (labels_in_use m)

  unfoldable pub apply_entry : SidebarEntry → Model → Model
  apply_entry e m =
      if is_label e
      then record m { label_filter = e.label; filter = StatusFilter.all }
      else record m { label_filter = []; filter = e.status }

  -- The test of `currentSidebarIndex`.
  unfoldable pub is_current : Model → SidebarEntry → Bool
  is_current m e =
      if text_eq m.label_filter []
      then not (is_label e) && filter_eq e.status m.filter
      else is_label e && text_eq e.label m.label_filter

  unfoldable pub index_of : (SidebarEntry → Bool) → ℕ → List SidebarEntry → ℕ
  index_of p i [] = 0
  index_of p i (e ∷ es) = if p e then i else index_of p (i + 1) es

  unfoldable pub current_sidebar_index : Model → ℕ
  current_sidebar_index m = index_of (is_current m) 0 (sidebar_entries m)

  unfoldable pub names_label : Text → List LabelUse → Bool
  names_label l [] = false
  names_label l (u ∷ us) = text_eq u.name l || names_label l us

  unfoldable pub drop_vanished_label_filter : Model → Model
  drop_vanished_label_filter m =
      if text_eq m.label_filter [] || names_label m.label_filter (labels_in_use m)
      then m
      else record m { label_filter = []; filter = StatusFilter.all; sidebar_cursor = 0 }

  -- `byID[id]`: of two torrents with one id the last is kept.
  unfoldable pub by_id : TorrentId → List TorrentSnapshot → Option TorrentSnapshot
  by_id id [] = none
  by_id id (t ∷ ts) = elim (by_id id ts) [
    | some u ↦ some u
    | none ↦ if text_eq t.id id then some t else none
  ]

  -- The pending torrents that the snapshot has.
  unfoldable pub revealed : List TorrentId → List TorrentSnapshot → List TorrentSnapshot
  revealed [] ts = []
  revealed (id ∷ ids) ts = elim (by_id id ts) [
    | none ↦ revealed ids ts
    | some t ↦ t ∷ revealed ids ts
  ]

  -- Some torrent fails the test.
  unfoldable pub hidden_by : (TorrentSnapshot → Bool) → List TorrentSnapshot → Bool
  hidden_by p [] = false
  hidden_by p (t ∷ ts) = not (p t) || hidden_by p ts

  -- The sidebar's cursor follows where anything was cleared.
  unfoldable pub follow_sidebar : Model → List Text → Model × List Text
  follow_sidebar m [] = (m, [])
  follow_sidebar m (c ∷ cs) = (record m { sidebar_cursor = current_sidebar_index m }, c ∷ cs)

  module _ ⦃str : Strings⦄ where
    -- What hides one of these torrents is cleared, and named.
    unfoldable pub cleared : List TorrentSnapshot → Model → Model
    cleared ts m = record m {
      pending_reveal = [];
      label_filter = if hidden_by (has_label m.label_filter) ts then [] else m.label_filter;
      filter = if hidden_by (matches m.filter) ts then StatusFilter.all else m.filter;
      search_query = if hidden_by (has_name m.search_query) ts then [] else m.search_query;
    }

    unfoldable pub cleared_names : List TorrentSnapshot → Model → List Text
    cleared_names ts m =
        (if hidden_by (has_label m.label_filter) ts
          then (codes "the " ++ m.label_filter ++ codes " label") ∷ []
          else [])
        ++ (if hidden_by (matches m.filter) ts
            then (codes "the " ++ filter_name m.filter ++ codes " filter") ∷ []
            else [])
        ++ (if hidden_by (has_name m.search_query) ts then codes "the search" ∷ [] else [])

    unfoldable pub reveal : List TorrentSnapshot → Model → Model × List Text
    unfolding cleared cleared_names
    reveal ts m = follow_sidebar (cleared ts m) (cleared_names ts m)

    unfoldable pub reveal_some : List TorrentSnapshot → Model → Model × List Text
    unfolding reveal
    reveal_some [] m = (m, [])
    reveal_some (t ∷ ts) m = reveal (t ∷ ts) m

    unfoldable pub reveal_just_added : Model → Model × List Text
    unfolding reveal_some
    reveal_just_added m = reveal_some (revealed m.pending_reveal m.torrents) m

  -- `buildSidebar`'s second result: the entry of each row, or none.
  unfoldable pub count_from : ℕ → ℕ → List (Option ℕ)
  count_from i zero = []
  count_from i (suc n) = some i ∷ count_from (i + 1) n

  unfoldable pub daemon_block_rows : Model → ℕ
  daemon_block_rows m = if m.vpn_required then 5 else 4

  unfoldable pub label_rows : ℕ → ℕ → List (Option ℕ)
  unfolding count_from
  label_rows room labels =
      let shown : ℕ = if ltb room labels then room - 1 else labels in
      if shown == 0
      then []
      else none ∷ none ∷ count_from 5 shown ++ (if shown == labels then [] else none ∷ [])

  unfoldable pub row_entries : Panes → Model → List (Option ℕ)
  unfolding label_rows daemon_block_rows
  row_entries p m =
      let status = none ∷ none ∷ none ∷ count_from 0 5 in
      let rows =
        status
        ++ label_rows (p.sidebar_content_h - 8 - (daemon_block_rows m + 1) - 2)
            (length (labels_in_use m)) in
      let gap = p.sidebar_content_h - length rows - daemon_block_rows m in
      rows ++ (if gap == 0 then [] else replicate (gap + daemon_block_rows m) none)
