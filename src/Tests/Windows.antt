-- ===== src/Tests/Windows.antt =====
-- The window manager at concrete inputs.
use kernel_basic.Prelude.{ℕ, ◌*◌, ◌≤◌, ◌≡◌, refl, false, [], ◌∷◌, none, some, arith}
use kernel_basic.Prelude.Int.{ℤ, ◌+ℤ◌, ◌-ℤ◌, ◌/ℤ◌, pos, negsuc}
use kernel_basic.Rect.{Rect, rect_contains_point}
use kernel_basic.Taskbar.{taskbar_start_button_rect, taskbar_hit_button}
use kernel_basic.Wm.Frame.{wm_hit_test, window_content_rect}
use kernel_basic.Wm.{Window, normal, info_app, App, Wm, idle, app_captured, resize_none, resize_e}
use kernel_basic.Wm.Windows.{find_window, wm_minimize_window, wm_focus_window}
use kernel_basic.Wm.Layout.{count_visible, tile_cols, resize_rect, wm_tile}
use kernel_basic.Wm.Launch.{Apps}
use kernel_basic.Wm.Clicks.{hit_window, wm_on_mouse_down}
use kernel_basic.Wm.Input.{wm_on_mouse_move, wm_on_mouse_up}
use kernel_basic.Wm.Valid.{IsValid}
use kernel_basic.Wm.Handlers.{Lawful}
use kernel_basic.Prelude.Bytes.{codes}
use kernel_basic.Menubar.{Menubar, menubar_init, menubar_hit_top}
use kernel_basic.Menubar.Hits
use kernel_basic.Wm.Moves
use kernel_basic.Wm.Info
use kernel_basic.Wm.Info.{with_info, info_button}
use kernel_basic.Wm.Ids.{ids, elem}
use kernel_basic.Wm.Bounds
use kernel_basic.Wm.Tiling
use kernel_basic.Wm.Restore
use kernel_basic.Wm.Drag

abbrev box : (x y w h : ℕ) → Rect
box x y w h = record { x = pos x; y = pos y; w = pos w; h = pos h }

abbrev window : ℕ → Window
window id = record {
  id = id;
  rect = box 100 100 300 200;
  title = [];
  restore_rect = box 0 0 0 0;
  state = normal;
  restore_state = normal;
  app = info_app;
  min_w = pos 150;
  min_h = pos 100;
}

-- Two windows, the second one on top.
abbrev desktop : Wm
desktop = record {
  windows = window 5 ∷ window 6 ∷ [];
  focused = some 6;
  start_menu_open = false;
  mode = idle;
  drag_win = none;
  drag_off_x = pos 0;
  drag_off_y = pos 0;
  resize_edge = resize_none;
  drag_start_rect = box 0 0 0 0;
  drag_start_mx = pos 0;
  drag_start_my = pos 0;
  dirty = false;
  last_sysmenu_win = none;
  last_sysmenu_tick = 0;
}

desktop-IsValid : IsValid desktop
desktop-IsValid = record {
  distinct = (refl, (refl, tt));
  few = omega arith;
  focused_open = refl;
  drag_open = tt;
  sysmenu_open = tt;
  matches = tt;
}

abbrev silent : App
silent = record {
  on_mouse_down = none;
  on_mouse_up = none;
  on_mouse_move = none;
  on_key_down = none;
  on_key_up = none;
  on_tick = none;
}

abbrev silent_apps : Apps
silent_apps = λ a. silent

silent_apps-Lawful : Lawful silent_apps
silent_apps-Lawful = record {
  mouse_down = λ a. tt;
  mouse_up = λ a. tt;
  mouse_move = λ a. tt;
  key_press = λ a. tt;
  key_release = λ a. tt;
}

-- The title of the upper window is pressed, and dragged.
abbrev dragged : Wm
dragged =
    wm_on_mouse_move silent_apps (pos 300) (pos 300)
      (wm_on_mouse_down silent_apps 1000 77 (pos 200) (pos 110) 1 desktop)

-- The button of the Info window, and a press on it, followed by a move and the release.
abbrev button : Rect
button = info_button (window_content_rect (box 100 100 300 200))

abbrev info_apps : Apps
info_apps = with_info button silent_apps

abbrev pressed_ok : Wm
pressed_ok = wm_on_mouse_up info_apps (pos 251) (pos 275) 0 (
    wm_on_mouse_move info_apps (pos 251) (pos 275)
      (wm_on_mouse_down info_apps 1000 77 (pos 250) (pos 275) 1 desktop))

Steps-IsValid_example : IsValid pressed_ok
Steps-IsValid_example =
    Moves.Steps-IsValid info_apps desktop pressed_ok
      (Info.with_info-Lawful button silent_apps silent_apps-Lawful) desktop-IsValid
      (Moves.released (pos 251) (pos 275) 0 (
        Moves.moved (pos 251) (pos 275)
          (Moves.pressed 1000 77 (pos 250) (pos 275) 1 refl Moves.start)))

minimize-focus_rect_example :
    (find_window (wm_focus_window 6 (wm_minimize_window (window 6) desktop)).windows 6
      ≡ some (record (window 6) { restore_rect = box 100 100 300 200; restore_state = normal }))
    × ((wm_focus_window 6 (wm_minimize_window (window 6) desktop)).focused ≡ some 6)
unfolding find_window
minimize-focus_rect_example =
    Restore.minimize-focus_rect desktop (window 6) desktop-IsValid refl refl

-- The press on the Info window's button closes it.
info_press-dangles_example :
    let t = wm_on_mouse_down (with_info button silent_apps) 1000 77 (pos 250) (pos 275) 1 desktop in
    (t.mode ≡ app_captured) × (t.drag_win ≡ some 6) × (elem (ids t.windows) 6 ≡ false)
unfolding rect_contains_point taskbar_start_button_rect ◌+ℤ◌ taskbar_hit_button hit_window
    wm_hit_test ◌-ℤ◌ info_button ◌/ℤ◌ window_content_rect
info_press-dangles_example =
    Info.info_press-dangles silent_apps 1000 77 button (pos 250) (pos 275) desktop (window 6)
      desktop-IsValid refl refl refl refl refl refl refl

-- The left edge far to the right of the window's right one.
resize_rect-Resized_example :
    Bounds.Resized
      (pos 150)
      (pos 100)
      (resize_rect resize_e (pos 900) (negsuc 3) (pos 150) (pos 100) (box 100 100 300 200))
resize_rect-Resized_example =
    Bounds.resize_rect-Resized resize_e (pos 900) (negsuc 3) (pos 150) (pos 100)
      (box 100 100 300 200)

wm_tile-Tiled_example :
    (2 ≤ Tiling.grid_cols 2 * Tiling.grid_cols 2)
    × Tiling.Tiled 2 320 456 0 desktop.windows (wm_tile desktop).windows
unfolding count_visible tile_cols
wm_tile-Tiled_example = Tiling.wm_tile-Tiled desktop

-- The upper window's title, pressed at (200, 110) and dragged to (300, 300).
title-drag_example :
    (new_x : ℤ) × (new_y : ℤ) × Bounds.HeldAt 620 (pos 200) new_x
    × Bounds.HeldAt 436 (pos 290) new_y
    × (find_window dragged.windows 6
        ≡ some (record (window 6) { rect = record (box 100 100 300 200) { x = new_x; y = new_y } }))
    × (dragged.focused ≡ some 6)
unfolding rect_contains_point taskbar_start_button_rect ◌+ℤ◌ taskbar_hit_button hit_window
    wm_hit_test ◌-ℤ◌
title-drag_example =
    Drag.title-drag silent_apps 1000 77 (pos 200) (pos 110) (pos 300) (pos 300) desktop (window 6)
      desktop-IsValid refl refl refl refl refl

-- Two entries, "File" and "Edit", over the width of a window.
abbrev menus : Menubar
menus =
    menubar_init (box 0 0 300 16) (
      record { label = codes "File"; items = [] }
      ∷ record { label = codes "Edit"; items = [] }
      ∷ [])

menubar_hit_top_example : Hits.Spans menus (pos 60) (pos 8) (menubar_hit_top menus (pos 60) (pos 8))
menubar_hit_top_example = Hits.menubar_hit_top-Spans menus (pos 60) (pos 8)
