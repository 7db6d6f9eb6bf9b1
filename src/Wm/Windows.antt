-- ===== src/Wm/Windows.antt =====
-- The windows of gui/wm.c and their order: opening, closing, raising, minimizing and restoring.
use kernel_basic.Prelude.{
  ℕ, true, false, not, List, [], ◌∷◌, ◌++◌, Option, none, some, leb, ◌==◌, if◌then◌else◌, length,
}
use kernel_basic.Prelude.Int.{ℤ}
use kernel_basic.Rect.{Rect}
use kernel_basic.Wm.{
  max_windows, normal, minimized, is_minimized, is_maximized, is_normal, AppId, app_index, Window,
  idle, Wm, is_win,
}
use kernel_basic.Wm.Frame.{wm_maximized_rect}

-- The window at an address, if it is in the list.
unfoldable pub find_window : List Window → ℕ → Option Window
find_window [] id = none
find_window (w ∷ ws) id = if w.id == id then some w else find_window ws id

-- The list without the window at an address: the loops that move the others down.
unfoldable pub remove_window : List Window → ℕ → List Window
remove_window [] id = []
remove_window (w ∷ ws) id = if w.id == id then ws else w ∷ remove_window ws id

-- Assignments to the fields of the window at an address.
unfoldable pub update_window : List Window → ℕ → (Window → Window) → List Window
update_window [] id f = []
update_window (w ∷ ws) id f = if w.id == id then f w ∷ ws else w ∷ update_window ws id f

unfoldable pub last_window : List Window → Option ℕ
last_window [] = none
last_window (w ∷ []) = some w.id
last_window (w ∷ x ∷ ws) = last_window (x ∷ ws)

-- The window above all others that is not minimized.
unfoldable pub topmost_visible : List Window → Option ℕ
topmost_visible [] = none
topmost_visible (w ∷ ws) = elim (topmost_visible ws) [
  | some id ↦ some id
  | none ↦ if is_minimized w.state then none else some w.id
]

unfoldable pub wm_topmost_visible : Wm → Option ℕ
unfolding topmost_visible
wm_topmost_visible s = topmost_visible s.windows

unfoldable pub wm_init : Wm → Wm
wm_init s = record s {
  windows = [];
  focused = none;
  mode = idle;
  drag_win = none;
  last_sysmenu_win = none;
  start_menu_open = false;
}

-- What `wm_raise` does with the window it found.
unfoldable pub raise_found : (id : ℕ) → Wm → Option Window → Wm
unfolding remove_window
raise_found id s none = s
raise_found id s (some w) = record s {
  windows = remove_window s.windows id ++ (w ∷ []);
  focused = some id;
}

unfoldable pub wm_raise : (id : ℕ) → Wm → Wm
unfolding find_window raise_found
wm_raise id s = raise_found id s (find_window s.windows id)

-- `p` is what `kmalloc` returns, 0 for none. The window's address, if it was made, and the state.
unfoldable pub wm_create_window :
    (p : ℕ) → AppId → (title : List ℕ) → Rect → (min_w min_h : ℤ) → Wm → Option ℕ × Wm
wm_create_window p app title rect min_w min_h s =
    let w : Window = record {
      id = p;
      rect = rect;
      title = title;
      restore_rect = rect;
      state = normal;
      restore_state = normal;
      app = app;
      min_w = min_w;
      min_h = min_h;
    } in
    if leb max_windows (length s.windows)
    then (none, s)
    else if p == 0
    then (none, s)
    else (some p, record s { windows = s.windows ++ (w ∷ []); focused = some p })

-- `if (p == win) p = 0;`
abbrev pub forget : Option ℕ → ℕ → Option ℕ
forget p id = if is_win p id then none else p

unfoldable pub wm_close_window : (id : ℕ) → Wm → Wm
unfolding remove_window last_window
wm_close_window id s =
    let windows = remove_window s.windows id in
    record s {
      windows = windows;
      focused = if is_win s.focused id then last_window windows else s.focused;
      last_sysmenu_win = forget s.last_sysmenu_win id;
      drag_win = forget s.drag_win id;
      mode = if is_win s.drag_win id then idle else s.mode;
    }

unfoldable pub find_app : List Window → AppId → Option ℕ
find_app [] app = none
find_app (w ∷ ws) app = if app_index w.app == app_index app then some w.id else find_app ws app

unfoldable pub wm_find_window_by_app : AppId → Wm → Option ℕ
unfolding find_app
wm_find_window_by_app app s = find_app s.windows app

abbrev pub minimize_fields : Window → Window
minimize_fields w = record w {
  restore_rect = if is_normal w.state then w.rect else w.restore_rect;
  restore_state = w.state;
  state = minimized;
}

-- The window `w` is the one at `id`.
unfoldable pub wm_minimize_window : Window → Wm → Wm
unfolding update_window topmost_visible
wm_minimize_window w s =
    let windows = update_window s.windows w.id minimize_fields in
    if is_minimized w.state then s else record s {
      windows = windows;
      focused = if is_win s.focused w.id then topmost_visible windows else s.focused;
    }

abbrev pub restore_fields : Window → Window
restore_fields w = record w {
  state = w.restore_state;
  rect = if is_maximized w.restore_state then wm_maximized_rect else w.restore_rect;
}

unfoldable pub wm_restore_window : Window → Wm → Wm
unfolding update_window wm_raise
wm_restore_window w s =
    if not (is_minimized w.state)
    then s
    else wm_raise w.id (record s { windows = update_window s.windows w.id restore_fields })

unfoldable pub focus_found : Option Window → Wm → Wm
unfolding wm_restore_window wm_raise
focus_found none s = s
focus_found (some w) s =
    record (if is_minimized w.state then wm_restore_window w s else wm_raise w.id s) {
      dirty = true;
    }

-- The address of an open window.
unfoldable pub wm_focus_window : (id : ℕ) → Wm → Wm
unfolding focus_found find_window
wm_focus_window id s = focus_found (find_window s.windows id) s
