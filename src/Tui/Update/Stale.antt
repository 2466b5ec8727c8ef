-- ===== src/Tui/Update/Stale.antt =====
-- A report of the daemon can take a marked torrent out of view.
use mathlib.Core.Path.{subst}
use torrnado.Common.{
  ◌≡◌, refl, sym, ap, ◌∙◌, Bool, true, false, Option, some, List, [], ◌∷◌, get_elem?,
}
use torrnado.Common.Text.{text_eq, mem_text}
use torrnado.Engine.Library.{Float64}
use torrnado.Engine.State.{TorrentId, TorrentSnapshot}
use torrnado.Indexer.Result.{Strings}
use torrnado.Tui.Model.{World, Model, Msg, Cmd}
use torrnado.Tui.Visible.{visible_torrents, shown, matches, clamp_cursor}
use torrnado.Tui.Sidebar.{drop_vanished_label_filter, reveal_just_added, reveal_some, revealed}
use torrnado.Tui.Targets.{sync_detail, targets, marked_or, is_marked}
use torrnado.Tui.Update.{update, take_event, say_cleared}
use torrnado.Tui.Update.Carries.{rows}
use torrnado.Tui.Update.Reports.{SameFilters, synced-SameFilters, shown-same}

module _ ⦃fl : Float64⦄ ⦃str : Strings⦄ where
  drop_vanished_none : (m : Model) → m.label_filter ≡ [] → drop_vanished_label_filter m ≡ m
  unfolding drop_vanished_label_filter text_eq
  drop_vanished_none m e = let b : text_eq m.label_filter [] ≡ true = rw e refl in rw b refl

  reveal_nothing : (m : Model) → m.pending_reveal ≡ [] → reveal_just_added m ≡ (m, [])
  unfolding reveal_just_added reveal_some revealed
  reveal_nothing m e =
      let none_left : revealed m.pending_reveal m.torrents ≡ [] =
        ap (λ ids. revealed ids m.torrents) e in
      rw none_left refl

  take_event_quiet :
      (m : Model) → m.label_filter ≡ [] → m.pending_reveal ≡ [] → SameFilters m (take_event m).0
  unfolding take_event say_cleared
  take_event_quiet m l p =
      let e : reveal_just_added (drop_vanished_label_filter m) ≡ (m, []) =
        ap reveal_just_added (drop_vanished_none m l) ∙ reveal_nothing m p in
      let s : say_cleared (reveal_just_added (drop_vanished_label_filter m)) ≡ (m, []) =
        ap say_cleared e in
      subst (λ (x : Model × List Cmd). SameFilters m (sync_detail (clamp_cursor (rows x.0) x.0)).0)
        (sym s) (synced-SameFilters (rows m) m)

  not_shown : (m : Model) (t : TorrentSnapshot) → matches m.filter t ≡ false → shown m t ≡ false
  unfolding shown
  not_shown m t h = rw h refl

  first_marked :
      (ids : List TorrentId) (t : TorrentSnapshot) (ts : List TorrentSnapshot)
      (c : Option TorrentSnapshot)
      → mem_text t.id ids ≡ true
      → get_elem? (marked_or ids (t ∷ ts) c) 0 ≡ some t
  unfolding marked_or is_marked mem_text
  first_marked [] t ts c h = cc
  first_marked (id ∷ ids) t ts c h = rw h refl

  first_target :
      (m : Model) (t : TorrentSnapshot) (ts : List TorrentSnapshot)
      → m.torrents ≡ t ∷ ts
      → mem_text t.id m.selected ≡ true
      → get_elem? (targets m (visible_torrents m)) 0 ≡ some t
  unfolding targets
  first_target m t ts e h =
      ap (λ us. get_elem? (marked_or m.selected us (get_elem? (visible_torrents m) m.cursor)) 0) e
      ∙ first_marked m.selected t ts (get_elem? (visible_torrents m) m.cursor) h

  -- A report whose first torrent is marked and does not match the status filter, while no label
  -- filter is set and nothing waits to be revealed, hides that torrent and leaves it marked: it is
  -- the first of what the next key acts on, and no row shows it.
  pub report_hides_marked :
      (w : World) (m : Model) (t : TorrentSnapshot) (ts : List TorrentSnapshot) (vpn : Bool)
      → mem_text t.id m.selected ≡ true
      → matches m.filter t ≡ false
      → m.label_filter ≡ []
      → m.pending_reveal ≡ []
      → (m' : Model) × (cmds : List Cmd) × (update w (Msg.engine_event (t ∷ ts) vpn) m
          ≡ some (m', cmds))
        × (shown m' t ≡ false)
        × (get_elem? (targets m' (visible_torrents m')) 0 ≡ some t)
  unfolding update
  report_hides_marked w m t ts vpn marked hidden l p =
      let m0 = record m { torrents = t ∷ ts; vpn_required = vpn } in
      let same = take_event_quiet m0 l p in
      (
        (take_event m0).0,
        (take_event m0).1,
        refl,
        shown-same m0 (take_event m0).0 t same ∙ not_shown m0 t hidden,
        first_target (take_event m0).0 t ts same.3 (rw same.4 marked),
      )
