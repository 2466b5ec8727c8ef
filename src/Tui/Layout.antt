-- ===== src/Tui/Layout.antt =====
-- internal/tui/layout.go and the widths and windows of internal/tui/list.go. The sizes are natural
-- numbers: where the code goes below 0 it goes on as with 0.
pub mod Fits
use torrnado.Common.{
  ℕ, ◌+◌, ◌-◌, ◌*◌, ◌/◌, min, max, Bool, true, false, ◌||◌, ltb, leb, ◌==◌, if◌then◌else◌,
}

-- `panes`
pub record Panes : Type 0 where
  pub sidebar_w : ℕ
  pub sidebar_h : ℕ
  pub list_w : ℕ
  pub list_h : ℕ
  pub detail_w : ℕ
  pub detail_h : ℕ
  pub footer_w : ℕ
  pub sidebar_box_w : ℕ
  pub list_box_w : ℕ
  pub detail_box_w : ℕ
  pub sidebar_content_w : ℕ
  pub sidebar_content_h : ℕ
  pub list_content_w : ℕ
  pub list_content_h : ℕ
  pub detail_content_w : ℕ
  pub detail_content_h : ℕ

-- The detail pane's rows, and the sidebar's columns.
unfoldable pub detail_rows : ℕ → ℕ
detail_rows height =
    let body_h = height - 1 in
    let wanted : ℕ = if ltb height 24 then 3 else 12 in
    if ltb (body_h - 4) wanted then max 3 (body_h - 4) else wanted

unfoldable pub sidebar_columns : ℕ → ℕ
sidebar_columns width = if ltb (width / 3) 20 then max 10 (width / 3) else 20

unfoldable pub layout : ℕ → ℕ → Panes
layout width height =
    let body_h = height - 1 in
    let detail_h = detail_rows height in
    let sidebar_w = sidebar_columns width in
    let right_w = width - sidebar_w in
    record {
      sidebar_w = sidebar_w;
      sidebar_h = body_h;
      list_w = right_w;
      list_h = body_h - detail_h;
      detail_w = right_w;
      detail_h = detail_h;
      footer_w = width;
      sidebar_box_w = sidebar_w - 2;
      list_box_w = right_w - 2;
      detail_box_w = right_w - 2;
      sidebar_content_w = max 0 (sidebar_w - 2 - 2 * 1);
      sidebar_content_h = body_h - 2;
      list_content_w = max 0 (right_w - 2 - 2 * 1);
      list_content_h = body_h - detail_h - 2;
      detail_content_w = max 0 (right_w - 2 - 2 * 1);
      detail_content_h = detail_h - 2;
    }

-- The columns of a row.
unfoldable pub progress_width_with : ℕ → ℕ
progress_width_with bar = if bar == 0 then 4 else bar + 1 + 4

unfoldable pub fixed_columns_with : ℕ → ℕ
unfolding progress_width_with
fixed_columns_with bar = 2 + 7 * 1 + progress_width_with bar + 8 + 13 + 12 + 12 + 7

unfoldable pub bar_width : ℕ → ℕ
unfolding fixed_columns_with
bar_width content_w =
    let surplus = content_w - fixed_columns_with 0 - 48 in
    if surplus == 0 then 0 else if ltb (surplus / 2) 10 then 0 else min 48 (surplus / 2)

unfoldable pub name_width : ℕ → ℕ × Bool
unfolding fixed_columns_with
name_width content_w =
    let w = content_w - fixed_columns_with (bar_width content_w) in
    if ltb w 20
    then (max 1 (content_w - 2 - 1 - progress_width_with (bar_width content_w) - 1), false)
    else (w, true)

-- The cells that `renderRow` writes: the two marks and a space, the name, and each column after a
-- space.
unfoldable pub row_cells : ℕ → ℕ
unfolding name_width
row_cells content_w =
    let (name, wide) = name_width content_w in
    1
    + 1
    + 1
    + name
    + (1 + progress_width_with (bar_width content_w))
    + (if wide then (1 + 8) + (1 + 13) + (1 + 12) + (1 + 12) + (1 + 7) else 0)

unfoldable pub scroll_window : ℕ → ℕ → ℕ → ℕ × ℕ
scroll_window cursor n height =
    if height == 0 || leb n height
    then (0, n)
    else let start = cursor - height / 2 in
      if ltb n (start + height) then (n - height, n) else (start, start + height)
