-- ===== src/Rect.antt =====
-- gui/rect.c, gui/splitter.c and gui/scrollbar.c: rectangles on the screen, and what is hit in them.
-- Coordinates are integers.
use kernel_basic.Prelude.{Bool, ◌&&◌}
use kernel_basic.Prelude.Int.{ℤ, pos, ◌+ℤ◌, ltb_ℤ, leb_ℤ}

-- `rect_st`
pub record Rect : Type 0 where
  pub x : ℤ
  pub y : ℤ
  pub w : ℤ
  pub h : ℤ

unfoldable pub rect_contains_point : Rect → ℤ → ℤ → Bool
rect_contains_point r px py =
    leb_ℤ r.x px && (ltb_ℤ px (r.x +ℤ r.w) && (leb_ℤ r.y py && ltb_ℤ py (r.y +ℤ r.h)))

-- `SPLITTER_WIDTH`
abbrev pub splitter_width : ℤ
splitter_width = pos 4

unfoldable pub splitter_bar_rect : Rect → ℤ → Rect
splitter_bar_rect pane_area split_x = record {
  x = pane_area.x +ℤ split_x;
  y = pane_area.y;
  w = splitter_width;
  h = pane_area.h;
}

unfoldable pub splitter_hit_test : Rect → ℤ → ℤ → Bool
splitter_hit_test bar x y = rect_contains_point bar x y
