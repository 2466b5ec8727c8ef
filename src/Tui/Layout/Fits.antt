-- ===== src/Tui/Layout/Fits.antt =====
-- The panes fill the terminal, a row fits its pane, and the cursor is in the window.
use torrnado.Common.{ℕ, ◌+◌, min, ◌<◌, ◌≤◌, ◌≡◌, arith, ◌⊎◌, inl, inr}
use torrnado.Tui.Layout.{
  Panes, detail_rows, sidebar_columns, layout, progress_width_with, fixed_columns_with, bar_width,
  row_cells, scroll_window,
}

-- The panes share the terminal without overlap or gap, and each has room for text.
pub record IsTiling (width height : ℕ) (p : Panes) : Type 0 where
  pub columns : p.sidebar_w + p.list_w ≡ width
  pub aligned : p.detail_w ≡ p.list_w
  pub rows : p.list_h + p.detail_h + 1 ≡ height
  pub beside : p.sidebar_h ≡ p.list_h + p.detail_h
  pub sidebar_text : p.sidebar_content_w + 4 ≡ p.sidebar_w
  pub list_text : p.list_content_w + 4 ≡ p.list_w
  pub detail_text : p.detail_content_w + 4 ≡ p.detail_w
  pub list_lines : p.list_content_h + 2 ≡ p.list_h
  pub detail_lines : p.detail_content_h + 2 ≡ p.detail_h
  pub some_columns : 36 ≤ p.list_content_w
  pub some_rows : 1 < p.list_content_h
  pub some_detail : 0 < p.detail_content_h

detail_rows_bounds :
    (height : ℕ) → 15 ≤ height → (3 ≤ detail_rows height) × (detail_rows height + 5 ≤ height)
unfolding detail_rows
detail_rows_bounds height h = ground arith

sidebar_columns_bounds :
    (width : ℕ) → 60 ≤ width → (10 ≤ sidebar_columns width) × (sidebar_columns width ≤ 20)
unfolding sidebar_columns
sidebar_columns_bounds width h = ground arith

-- In a terminal of at least 60 columns and 15 rows the panes fill all but the footer's row, their
-- text areas are what borders and padding leave, and the list has at least 36 columns and 2 rows.
pub layout-IsTiling :
    (width height : ℕ) → 60 ≤ width → 15 ≤ height → IsTiling width height (layout width height)
unfolding layout
layout-IsTiling width height w h =
    let (d0, d1) = detail_rows_bounds height h in
    let (s0, s1) = sidebar_columns_bounds width w in omega arith

-- The bar is drawn only where a name of twenty columns still fits beside every column.
bar_width_room :
    (content_w : ℕ)
    → (bar_width content_w ≡ 0) ⊎ (fixed_columns_with (bar_width content_w) + 20 ≤ content_w)
unfolding bar_width
bar_width_room content_w = ground arith

-- A row is as wide as the pane's text area, if that has at least 12 columns.
pub row_cells_lem : (content_w : ℕ) → 12 ≤ content_w → row_cells content_w ≡ content_w
unfolding row_cells progress_width_with fixed_columns_with
row_cells_lem content_w h = elim (bar_width_room content_w) [
  | inl none ↦ rw none (ground arith)
  | inr room ↦ ground arith
]

-- The window shows as many rows as fit, all if they do, and the cursor's row among them.
pub scroll_window_lem :
    (cursor n height : ℕ)
    → 0 < height
    → cursor < n
    → ((scroll_window cursor n height).0 ≤ cursor)
      × (cursor < (scroll_window cursor n height).1)
      × ((scroll_window cursor n height).1 ≡ (scroll_window cursor n height).0 + min n height)
      × ((scroll_window cursor n height).1 ≤ n)
unfolding scroll_window
scroll_window_lem cursor n height pos inside = ground arith
