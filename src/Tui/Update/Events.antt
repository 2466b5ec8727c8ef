-- ===== src/Tui/Update/Events.antt =====
-- What a report of the daemon changes in internal/tui: the filters that hide what was added, and the
-- cursor with them.
use torrnado.Common.{
  ◌<◌, ◌≡◌, refl, ap, ◌∙◌, inl, inr, true, Option, none, some, List, [], ◌∷◌, Bool-cases, length,
  ◌||◌,
}
use torrnado.Common.Text.{Text, text_eq}
use torrnado.Engine.Library.{Float64}
use torrnado.Engine.State.{TorrentSnapshot}
use torrnado.Indexer.Result.{Strings}
use torrnado.Tui.Model.{Model, set_status}
use torrnado.Tui.Visible.{visible_torrents, shown, clamp_cursor, cursor_torrent}
use torrnado.Tui.Sidebar.{
  drop_vanished_label_filter, reveal_just_added, reveal_some, reveal, revealed, follow_sidebar,
  names_label, labels_in_use,
}
use torrnado.Tui.Targets.{sync_detail, detail_of}
use torrnado.Tui.Update.{take_event, say_cleared}
use torrnado.Tui.Update.Carries.{
  rows, IsSafe, SameRest, Carries-refl, sync_detail-Carries, clamped, clamp_cursor_lem,
}

module _ ⦃fl : Float64⦄ ⦃str : Strings⦄ where
  -- What a report leaves alone.
  same_trans : (a b c : Model) → SameRest a b → SameRest b c → SameRest a c
  same_trans a b c (t, p, u, n, q) (t', p', u', n', q') = (t' ∙ t, p' ∙ p, u' ∙ u, n' ∙ n, q' ∙ q)

  drop_vanished-SameRest : (m : Model) → SameRest m (drop_vanished_label_filter m)
  unfolding drop_vanished_label_filter
  drop_vanished-SameRest m =
      elim (Bool-cases
        (text_eq m.label_filter [] || names_label m.label_filter (labels_in_use m))) [
          | inl b ↦ rw b (refl, refl, refl, refl, refl)
          | inr b ↦ rw b (refl, refl, refl, refl, refl)
        ]

  follow_sidebar-SameRest : (m : Model) (cs : List Text) → SameRest m (follow_sidebar m cs).0
  unfolding follow_sidebar
  follow_sidebar-SameRest m [] = (refl, refl, refl, refl, refl)
  follow_sidebar-SameRest m (c ∷ cs) = (refl, refl, refl, refl, refl)

  reveal_some-SameRest : (ts : List TorrentSnapshot) (m : Model) → SameRest m (reveal_some ts m).0
  unfolding reveal_some reveal
  reveal_some-SameRest [] m = (refl, refl, refl, refl, refl)
  reveal_some-SameRest (t ∷ ts) m = follow_sidebar-SameRest _ _

  say_cleared-SameRest : (m : Model) (cs : List Text) → SameRest m (say_cleared (m, cs)).0
  unfolding say_cleared set_status
  say_cleared-SameRest m [] = (refl, refl, refl, refl, refl)
  say_cleared-SameRest m (c ∷ cs) = (refl, refl, refl, refl, refl)

  detail_of-SameRest : (o : Option TorrentSnapshot) (m : Model) → SameRest m (detail_of o m).0
  unfolding detail_of
  detail_of-SameRest none m = (refl, refl, refl, refl, refl)
  detail_of-SameRest (some t) m = elim (Bool-cases (text_eq t.id m.detail_id)) [
    | inl b ↦ rw b (refl, refl, refl, refl, refl)
    | inr b ↦ rw b (refl, refl, refl, refl, refl)
  ]

  -- The model of a report once the filters are settled, and once the cursor is.
  settled : Model → Model
  settled m = (say_cleared (reveal_just_added (drop_vanished_label_filter m))).0

  settled-SameRest : (m : Model) → SameRest m (settled m)
  unfolding settled reveal_just_added
  settled-SameRest m =
      let d = drop_vanished_label_filter m in
      let r = reveal_just_added d in
      same_trans m d (say_cleared r).0 (drop_vanished-SameRest m) (
        same_trans d r.0 (say_cleared (r.0, r.1)).0
          (reveal_some-SameRest (revealed d.pending_reveal d.torrents) d)
          (say_cleared-SameRest r.0 r.1))

  take_event_lem :
      (m : Model) → (take_event m).0 ≡ (sync_detail (clamp_cursor (rows (settled m)) (settled m))).0
  unfolding take_event settled
  take_event_lem m = refl

  -- The cursor ends on a row, whatever the report holds.
  pub take_event-IsSafe :
      (m : Model)
      → (m.theme_picker ≡ true → m.theme_cursor < length m.theme_names)
      → IsSafe (take_event m).0
  unfolding visible_torrents shown
  take_event-IsSafe m themes =
      let s = settled m in
      let (t, p, c, n, q) = settled-SameRest m in
      let e = clamp_cursor_lem (rows s) s in
      let safe : IsSafe (clamp_cursor (rows s) s) =
        (clamped (rows s) s refl, rw e (rw (p, c, n) themes)) in
      rw (take_event_lem m) (
        (sync_detail-Carries (clamp_cursor (rows s) s) (clamp_cursor (rows s) s)
            (Carries-refl (clamp_cursor (rows s) s))).0
          safe)

  pub take_event-find_seq : (m : Model) → (take_event m).0.find_seq ≡ m.find_seq
  unfolding sync_detail
  take_event-find_seq m =
      let s = settled m in
      let (t, p, c, n, q) = settled-SameRest m in
      let (t', p', c', n', q') =
        detail_of-SameRest (cursor_torrent (clamp_cursor (rows s) s)) (clamp_cursor (rows s) s) in
      rw (take_event_lem m)
        (q' ∙ (ap (λ (x : Model). x.find_seq) (clamp_cursor_lem (rows s) s) ∙ q))
