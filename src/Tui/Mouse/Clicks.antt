-- ===== src/Tui/Mouse/Clicks.antt =====
-- A click in the list of internal/tui lands on the row that is drawn there.
use torrnado.Common.{
  ℕ, ◌+◌, ◌-◌, ◌≡◌, ◌<◌, ◌≤◌, refl, ap, true, false, ◌||◌, some, arith, ltb, leb, ◌==◌, length,
}
use torrnado.Engine.Library.{Float64}
use torrnado.Indexer.Result.{Strings}
use torrnado.Tui.Layout.{layout, scroll_window}
use torrnado.Tui.Layout.Fits.{layout-IsTiling, scroll_window_lem}
use torrnado.Tui.Model.{Model, Button, PaneFocus, FindState}
use torrnado.Tui.Visible.{visible_torrents}
use torrnado.Tui.Targets.{sync_detail}
use torrnado.Tui.Mouse.{
  MouseTarget, hit_test, content_row, in_pane, click_list, click, mouse_button, handle_mouse,
  is_open,
}

-- The k-th row below the header, in a terminal of at least 60 columns and 15 rows.
hit_test-list :
    (width height x k : ℕ)
    → 60 ≤ width
    → 15 ≤ height
    → (layout width height).sidebar_w ≤ x
    → k + 1 < (layout width height).list_content_h
    → hit_test (layout width height) x (2 + k) ≡ MouseTarget.list (1 + k)
unfolding hit_test content_row in_pane
hit_test-list width height x k w h beside inside =
    let t = layout-IsTiling width height w h in
    let lines = t.list_lines in
    let not_side : ltb x (layout width height).sidebar_w ≡ false = ground arith in
    let in_list : ltb (2 + k) (layout width height).list_h ≡ true = ground arith in
    let below : leb (2 + k) 0 ≡ false = ground arith in
    let above : leb (layout width height).list_content_h (2 + k - 0 - 1) ≡ false = ground arith in
    rw (not_side, in_list, below, above) (ap MouseTarget.list (omega arith))

module _ ⦃fl : Float64⦄ ⦃str : Strings⦄ where
  -- The rows of the list that are drawn, from the first up to the second number.
  abbrev pub window : Model → ℕ × ℕ
  window m =
      scroll_window m.cursor (length (visible_torrents m))
        ((layout m.width m.height).list_content_h - 1)

  click_list-row :
      (height k i : ℕ) (m : Model)
      → (scroll_window m.cursor (length (visible_torrents m)) (height - 1)).0 + k ≡ i
      → i < length (visible_torrents m)
      → click_list height (1 + k) m ≡ sync_detail (record m { focus = PaneFocus.list; cursor = i })
  unfolding click_list
  click_list-row height k i m e h =
      let start = (scroll_window m.cursor (length (visible_torrents m)) (height - 1)).0 in
      let same : start + (1 + k - 1) ≡ i = omega arith in
      let header : (1 + k == 0) ≡ false = ground arith in
      let past : leb (length (visible_torrents m)) i ≡ false = ground arith in
      rw (header, same, past) refl

  -- A left click on the list, with the mouse on, no overlay open, the cursor on a row, and a terminal
  -- of at least 60 columns and 15 rows, puts the cursor and the focus on the torrent whose row is
  -- drawn there: the body draws the rows of the scroll window from the second row of the pane on.
  pub click_hits_row :
      (m : Model) (x i : ℕ)
      → m.mouse_off ≡ false
      → m.show_help ≡ false
      → m.theme_picker ≡ false
      → m.find_state ≡ FindState.closed
      → 60 ≤ m.width
      → 15 ≤ m.height
      → (layout m.width m.height).sidebar_w ≤ x
      → m.cursor < length (visible_torrents m)
      → (window m).0 ≤ i
      → i < (window m).1
      → handle_mouse
          (record { x = x; y = 2 + (i - (window m).0); button = Button.left; pressed = true })
          m
        ≡ some (sync_detail (record m { focus = PaneFocus.list; cursor = i }))
  unfolding handle_mouse mouse_button click click_list is_open
  click_hits_row m x i off help picker find w h beside inside from to =
      let p = layout m.width m.height in
      let n = length (visible_torrents m) in
      let t = layout-IsTiling m.width m.height w h in
      let some_rows = t.some_rows in
      let start = (scroll_window m.cursor n (p.list_content_h - 1)).0 in
      let k = i - start in
      let (first, last, size, fits) =
        scroll_window_lem m.cursor n (p.list_content_h - 1) (omega arith) inside in
      let busy : (m.mouse_off || m.show_help || m.theme_picker || is_open m.find_state) ≡ false =
        rw (off, help, picker, find) refl in
      let laid : (m.width == 0 || m.height == 0) ≡ false = ground arith in
      let hit = hit_test-list m.width m.height x k w h beside (omega arith) in
      rw (busy, laid, hit)
        (ap some (click_list-row p.list_content_h k i m (omega arith) (omega arith)))
