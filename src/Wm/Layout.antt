-- ===== src/Wm/Layout.antt =====
-- Where the windows of gui/wm.c go: cascade, tile, maximize, and the rectangles of a drag.
use kernel_basic.Prelude.{
  ℕ, zero, suc, ◌+◌, ◌-◌, ◌*◌, ◌/◌, ◌%◌, true, List, [], ◌∷◌, ltb, ◌==◌, if◌then◌else◌,
}
use kernel_basic.Prelude.Int.{ℤ, pos, ◌+ℤ◌, ◌-ℤ◌, ltb_ℤ}
use kernel_basic.Rect.{Rect}
use kernel_basic.Mouse.{screen_w, screen_h}
use kernel_basic.Taskbar.{taskbar_height}
use kernel_basic.Wm.{
  normal, maximized, is_minimized, is_maximized, Window, Wm, ResizeEdge, resize_none, resize_n,
  resize_s, resize_e, resize_w, resize_ne, resize_nw, resize_se, resize_sw,
}
use kernel_basic.Wm.Frame.{wm_maximized_rect}
use kernel_basic.Wm.Windows.{update_window}

-- `if (v < m) v = m;`
abbrev pub at_least : (v m : ℤ) → ℤ
at_least v m = if ltb_ℤ v m then m else v

-- `if (v > m) v = m;`
abbrev pub at_most : (v m : ℤ) → ℤ
at_most v m = if ltb_ℤ m v then m else v

-- The screen above the task bar.
abbrev pub desktop_h : ℕ
desktop_h = screen_h - taskbar_height

abbrev pub cascade_fields : (x y : ℤ) → Window → Window
cascade_fields x y w = record w {
  state = normal;
  rect = record { x = x; y = y; w = at_least w.rect.w w.min_w; h = at_least w.rect.h w.min_h };
}

-- The next place down, or the first one again where the window just placed would not fit there.
abbrev pub cascade_next : (at size : ℤ) → (room : ℕ) → ℤ
cascade_next at size room = if ltb_ℤ (pos room) (at +ℤ pos 24 +ℤ size) then pos 20 else at +ℤ pos 24

unfoldable pub cascade_from : (x y : ℤ) → List Window → List Window
cascade_from x y [] = []
cascade_from x y (w ∷ ws) =
    let placed = cascade_fields x y w in
    if is_minimized w.state
    then w ∷ cascade_from x y ws
    else placed
      ∷ cascade_from (cascade_next x placed.rect.w screen_w)
          (cascade_next y placed.rect.h desktop_h) ws

unfoldable pub wm_cascade : Wm → Wm
unfolding cascade_from
wm_cascade s = record s { windows = cascade_from (pos 20) (pos 20) s.windows; dirty = true }

unfoldable pub count_visible : List Window → ℕ
count_visible [] = 0
count_visible (w ∷ ws) = if is_minimized w.state then count_visible ws else suc (count_visible ws)

-- while (cols * cols < count) cols++;
unfoldable pub tile_cols : (fuel cols count : ℕ) → ℕ
tile_cols zero cols count = cols
tile_cols (suc fuel) cols count =
    if ltb (cols * cols) count then tile_cols fuel (cols + 1) count else cols

abbrev pub tile_fields : (col row cell_w cell_h : ℕ) → Window → Window
tile_fields col row cell_w cell_h w = record w {
  state = normal;
  rect = record {
    x = pos (col * cell_w);
    y = pos (row * cell_h);
    w = at_least (pos cell_w) w.min_w;
    h = at_least (pos cell_h) w.min_h;
  };
}

unfoldable pub tile_from : (idx cols cell_w cell_h : ℕ) → List Window → List Window
tile_from idx cols cell_w cell_h [] = []
tile_from idx cols cell_w cell_h (w ∷ ws) =
    if is_minimized w.state
    then w ∷ tile_from idx cols cell_w cell_h ws
    else tile_fields (idx % cols) (idx / cols) cell_w cell_h w
      ∷ tile_from (idx + 1) cols cell_w cell_h ws

-- As much fuel as there are windows.
unfoldable pub wm_tile : Wm → Wm
unfolding count_visible tile_cols tile_from
wm_tile s =
    let count = count_visible s.windows in
    let cols = tile_cols count 1 count in
    let rows = (count + cols - 1) / cols in
    if count == 0 then s else record s {
      windows = tile_from 0 cols (screen_w / cols) (desktop_h / rows) s.windows;
      dirty = true;
    }

abbrev pub maximize_fields : Window → Window
maximize_fields w =
    if is_maximized w.state
    then record w { state = normal; rect = w.restore_rect }
    else record w { restore_rect = w.rect; state = maximized; rect = wm_maximized_rect }

unfoldable pub wm_toggle_maximize : (id : ℕ) → Wm → Wm
unfolding update_window
wm_toggle_maximize id s = record s { windows = update_window s.windows id maximize_fields }

-- The rectangle of a window dragged by its title, the mouse at (x, y).
unfoldable pub drag_rect : (off_x off_y x y : ℤ) → Rect → Rect
drag_rect off_x off_y x y r = record r {
  x = at_most (at_least (x -ℤ off_x) (pos 0)) (pos (screen_w - 20));
  y = at_most (at_least (y -ℤ off_y) (pos 0)) (pos (desktop_h - 20));
}

-- The switch over the edge.
unfoldable pub pull_edge : ResizeEdge → (dx dy : ℤ) → Rect → Rect
pull_edge resize_none dx dy r = r
pull_edge resize_e dx dy r = record r { w = r.w +ℤ dx }
pull_edge resize_s dx dy r = record r { h = r.h +ℤ dy }
pull_edge resize_w dx dy r = record r { x = r.x +ℤ dx; w = r.w -ℤ dx }
pull_edge resize_n dx dy r = record r { y = r.y +ℤ dy; h = r.h -ℤ dy }
pull_edge resize_se dx dy r = record r { w = r.w +ℤ dx; h = r.h +ℤ dy }
pull_edge resize_sw dx dy r = record r { x = r.x +ℤ dx; w = r.w -ℤ dx; h = r.h +ℤ dy }
pull_edge resize_ne dx dy r = record r { y = r.y +ℤ dy; h = r.h -ℤ dy; w = r.w +ℤ dx }
pull_edge resize_nw dx dy r = record r {
  x = r.x +ℤ dx;
  w = r.w -ℤ dx;
  y = r.y +ℤ dy;
  h = r.h -ℤ dy;
}

-- A size kept to its floor, and then to the screen.
abbrev pub keep_size : (at size floor : ℤ) → (room : ℕ) → ℤ
keep_size at size floor room =
    let size = at_least size floor in if ltb_ℤ (pos room) (at +ℤ size) then pos room -ℤ at else size

unfoldable pub resize_rect : ResizeEdge → (dx dy : ℤ) → (min_w min_h : ℤ) → Rect → Rect
unfolding pull_edge
resize_rect edge dx dy min_w min_h start =
    let r = pull_edge edge dx dy start in
    record r { w = keep_size r.x r.w min_w screen_w; h = keep_size r.y r.h min_h desktop_h }
