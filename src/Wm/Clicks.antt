-- ===== src/Wm/Clicks.antt =====
-- A press of the mouse button, gui/wm.c. `apps` has the applications' callbacks, `p` is the address for
-- a new window, and `now` the clock.
use kernel_basic.Prelude.{
  ℕ, ◌+◌, ◌-◌, ◌%◌, ◌^◌, Bool, true, false, not, ◌&&◌, List, [], ◌∷◌, Option, none, some, get_elem?,
  ltb, ◌==◌, if◌then◌else◌, length,
}
use kernel_basic.Prelude.Int.{ℤ, ◌-ℤ◌}
use kernel_basic.Rect.{rect_contains_point}
use kernel_basic.Taskbar.{taskbar_start_button_rect, taskbar_hit_start_item, taskbar_hit_button}
use kernel_basic.Wm.{
  Window, dragging_title, resizing, app_captured, ResizeEdge, HitRegion, hit_none, hit_sysmenu,
  hit_minimize, hit_maximize, hit_title, hit_resize, hit_content, Wm, is_win,
}
use kernel_basic.Wm.Frame.{window_content_rect, wm_hit_test}
use kernel_basic.Wm.Windows.{wm_raise, wm_close_window, wm_minimize_window, wm_focus_window}
use kernel_basic.Wm.Layout.{wm_toggle_maximize}
use kernel_basic.Wm.Launch.{Apps, start_menu_labels, wm_start_menu_select}

-- `timer_get_ticks() - since`, unsigned.
abbrev pub ticks_since : (now since : ℕ) → ℕ
ticks_since now since = (now + 2 ^ 32 - since) % 2 ^ 32

abbrev pub double_click_ticks : ℕ
double_click_ticks = 30

-- The second of two quick clicks closes the window, and nothing is repainted.
unfoldable pub click_sysmenu : (now : ℕ) → Window → Wm → Wm
click_sysmenu now w s =
    if is_win s.last_sysmenu_win w.id
      && ltb (ticks_since now s.last_sysmenu_tick) double_click_ticks
    then wm_close_window w.id (record s { last_sysmenu_win = none })
    else record s { last_sysmenu_win = some w.id; last_sysmenu_tick = now; dirty = true }

-- A callback with a place in the window's content.
unfoldable pub call_mouse :
    Option (ℕ → ℤ → ℤ → ℕ → Wm → Wm) → Window → (x y : ℤ) → (buttons : ℕ) → Wm → Wm
call_mouse none w x y buttons s = s
call_mouse (some f) w x y buttons s =
    let content = window_content_rect w.rect in f w.id (x -ℤ content.x) (y -ℤ content.y) buttons s

unfoldable pub click_content : Apps → Window → (x y : ℤ) → (buttons : ℕ) → Wm → Wm
unfolding call_mouse
click_content apps w x y buttons s =
    record (call_mouse (apps w.app).on_mouse_down w x y buttons s) {
      mode = app_captured;
      drag_win = some w.id;
      dirty = true;
    }

-- The switch over the region that was hit.
unfoldable pub click_region :
    Apps → (now : ℕ) → Window → HitRegion × ResizeEdge → (x y : ℤ) → (buttons : ℕ) → Wm → Wm
unfolding click_sysmenu click_content
click_region apps now w (hit_none, edge) x y buttons s = s
click_region apps now w (hit_sysmenu, edge) x y buttons s = click_sysmenu now w s
click_region apps now w (hit_minimize, edge) x y buttons s = record (wm_minimize_window w s) {
  dirty = true;
}
click_region apps now w (hit_maximize, edge) x y buttons s = record (wm_toggle_maximize w.id s) {
  dirty = true;
}
click_region apps now w (hit_title, edge) x y buttons s = record s {
  mode = dragging_title;
  drag_win = some w.id;
  drag_off_x = x -ℤ w.rect.x;
  drag_off_y = y -ℤ w.rect.y;
  dirty = true;
}
click_region apps now w (hit_resize, edge) x y buttons s = record s {
  mode = resizing;
  drag_win = some w.id;
  resize_edge = edge;
  drag_start_rect = w.rect;
  drag_start_mx = x;
  drag_start_my = y;
  dirty = true;
}
click_region apps now w (hit_content, edge) x y buttons s = click_content apps w x y buttons s

abbrev pub is_hit : HitRegion → Bool
is_hit hit_none = false
is_hit _ = true

-- The topmost window that is hit.
unfoldable pub hit_window : List Window → (x y : ℤ) → Option Window
hit_window [] x y = none
hit_window (w ∷ ws) x y = elim (hit_window ws x y) [
  | some v ↦ some v
  | none ↦ if is_hit (wm_hit_test w x y).0 then some w else none
]

unfoldable pub click_window : Apps → (now : ℕ) → Option Window → (x y : ℤ) → (buttons : ℕ) → Wm → Wm
unfolding click_region
click_window apps now none x y buttons s = s
click_window apps now (some w) x y buttons s =
    click_region apps now w (wm_hit_test w x y) x y buttons (wm_raise w.id s)

-- A click that neither the Start button nor an item of its menu takes: a task bar button, or a window.
unfoldable pub click_below :
    Apps → (now : ℕ) → (button : Option ℕ) → (x y : ℤ) → (buttons : ℕ) → Wm → Wm
unfolding hit_window click_window
click_below apps now (some i) x y buttons s = elim (get_elem? s.windows i) [
  | none ↦ s
  | some w ↦ wm_focus_window w.id s
]
click_below apps now none x y buttons s =
    click_window apps now (hit_window s.windows x y) x y buttons s

-- The open menu: an item, or none of them, where the click goes on to what is below.
unfoldable pub click_menu :
    Apps → (now p : ℕ) → (item : Option ℕ) → (x y : ℤ) → (buttons : ℕ) → Wm → Wm
unfolding click_below
click_menu apps now p (some item) x y buttons s = record (wm_start_menu_select p item s) {
  start_menu_open = false;
  dirty = true;
}
click_menu apps now p none x y buttons s =
    click_below apps now (taskbar_hit_button (length s.windows) x y) x y buttons
      (record s { start_menu_open = false; dirty = true })

unfoldable pub wm_on_mouse_down : Apps → (now p : ℕ) → (x y : ℤ) → (buttons : ℕ) → Wm → Wm
unfolding click_menu click_below
wm_on_mouse_down apps now p x y buttons s =
    if not (buttons % 2 == 1)
    then s
    else if rect_contains_point taskbar_start_button_rect x y
    then record s { start_menu_open = not s.start_menu_open; dirty = true }
    else if s.start_menu_open
    then click_menu apps now p (taskbar_hit_start_item start_menu_labels x y) x y buttons s
    else click_below apps now (taskbar_hit_button (length s.windows) x y) x y buttons s
