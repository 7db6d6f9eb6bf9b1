-- ===== src/Wm/Frame.antt =====
-- The parts of a window's frame, gui/window.c, and the hit test of gui/wm.c.
use kernel_basic.Prelude.{ℕ, ◌+◌, ◌-◌, ◌*◌, ◌/◌, Bool, true, false, ◌&&◌, not, if◌then◌else◌}
use kernel_basic.Prelude.Int.{ℤ, pos, ◌+ℤ◌, ◌-ℤ◌, ltb_ℤ}
use kernel_basic.Rect.{Rect, rect_contains_point}
use kernel_basic.Mouse.{screen_w, screen_h}
use kernel_basic.Taskbar.{taskbar_height}
use kernel_basic.Wm.{
  Window, is_minimized, is_normal, ResizeEdge, resize_none, resize_n, resize_s, resize_e, resize_w,
  resize_ne, resize_nw, resize_se, resize_sw, HitRegion, hit_none, hit_sysmenu, hit_minimize,
  hit_maximize, hit_title, hit_resize, hit_content,
}

abbrev pub window_title_height : ℕ
window_title_height = 20

abbrev pub window_border : ℕ
window_border = 3

abbrev pub window_box_size : ℕ
window_box_size = 16

abbrev pub resize_border : ℕ
resize_border = 6

-- The three boxes of the title bar are drawn at one height.
abbrev box_y : Rect → ℤ
box_y r = r.y +ℤ pos (window_border + (window_title_height - window_box_size) / 2)

unfoldable pub window_sysmenu_rect : Rect → Rect
window_sysmenu_rect r = record {
  x = r.x +ℤ pos (window_border + 2);
  y = box_y r;
  w = pos window_box_size;
  h = pos window_box_size;
}

unfoldable pub window_maximize_rect : Rect → Rect
window_maximize_rect r = record {
  x = r.x +ℤ r.w -ℤ pos (window_border + 2 + window_box_size);
  y = box_y r;
  w = pos window_box_size;
  h = pos window_box_size;
}

unfoldable pub window_minimize_rect : Rect → Rect
unfolding window_maximize_rect
window_minimize_rect r =
    let m = window_maximize_rect r in record m { x = m.x -ℤ pos (window_box_size + 2) }

unfoldable pub window_content_rect : Rect → Rect
window_content_rect r = record {
  x = r.x +ℤ pos window_border;
  y = r.y +ℤ pos (window_border + window_title_height);
  w = r.w -ℤ pos (2 * window_border);
  h = r.h -ℤ pos (2 * window_border + window_title_height);
}

unfoldable pub wm_maximized_rect : Rect
wm_maximized_rect = record {
  x = pos 0;
  y = pos 0;
  w = pos screen_w;
  h = pos (screen_h - taskbar_height);
}

unfoldable pub wm_resize_edge_at : Window → ℤ → ℤ → ResizeEdge
wm_resize_edge_at win x y =
    let r = win.rect in
    let near_left = ltb_ℤ (x -ℤ r.x) (pos resize_border) in
    let near_right = ltb_ℤ (r.x +ℤ r.w -ℤ x) (pos resize_border) in
    let near_top = ltb_ℤ (y -ℤ r.y) (pos resize_border) in
    let near_bottom = ltb_ℤ (r.y +ℤ r.h -ℤ y) (pos resize_border) in
    if near_top && near_left
    then resize_nw
    else if near_top && near_right
    then resize_ne
    else if near_bottom && near_left
    then resize_sw
    else if near_bottom && near_right
    then resize_se
    else if near_top
    then resize_n
    else if near_bottom
    then resize_s
    else if near_left
    then resize_w
    else if near_right
    then resize_e
    else resize_none

-- The region below the title bar: an edge, where the window is normal, or the content.
unfoldable pub hit_body : Bool → ResizeEdge → HitRegion × ResizeEdge
hit_body false edge = (hit_content, resize_none)
hit_body true resize_none = (hit_content, resize_none)
hit_body true edge = (hit_resize, edge)

-- The region, and the edge that `*edge_out` gets.
unfoldable pub wm_hit_test : Window → ℤ → ℤ → HitRegion × ResizeEdge
unfolding window_sysmenu_rect window_minimize_rect window_maximize_rect wm_resize_edge_at hit_body
wm_hit_test win x y =
    let r = win.rect in
    if is_minimized win.state
    then (hit_none, resize_none)
    else if not (rect_contains_point r x y)
    then (hit_none, resize_none)
    else if rect_contains_point (window_sysmenu_rect r) x y
    then (hit_sysmenu, resize_none)
    else if rect_contains_point (window_minimize_rect r) x y
    then (hit_minimize, resize_none)
    else if rect_contains_point (window_maximize_rect r) x y
    then (hit_maximize, resize_none)
    else if ltb_ℤ y (r.y +ℤ pos (window_border + window_title_height))
    then (hit_title, resize_none)
    else hit_body (is_normal win.state) (wm_resize_edge_at win x y)
