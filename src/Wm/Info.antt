-- ===== src/Wm/Info.antt =====
-- gui/apps/info.c: the Info window's button, the one press handler of the kernel's applications that
-- is followed here to the end, and what its press leaves of the pointers of gui/wm.c. The drawing and
-- the block of `app_state` are left out: `button_rect_local` stands for the state, its only field.
use mathlib.Core.Path.{subst}
use kernel_basic.Prelude.{
  ℕ, ◌≡◌, refl, sym, ap, ◌∙◌, true, false, none, some, if◌then◌else◌, length, if_ind,
}
use kernel_basic.Prelude.Int.{ℤ, pos, ◌-ℤ◌, ◌/ℤ◌}
use kernel_basic.Rect.{Rect, rect_contains_point}
use kernel_basic.Taskbar.{taskbar_start_button_rect, taskbar_hit_button}
use kernel_basic.Wm.{
  Window, Wm, App, AppId, info_app, program_manager_app, terminal_app, calculator_app,
  file_manager_app, text_editor_app, app_captured, hit_content, resize_none,
}
use kernel_basic.Wm.Frame.{wm_hit_test, window_content_rect}
use kernel_basic.Wm.Windows.{wm_close_window, wm_raise}
use kernel_basic.Wm.Launch.{Apps}
use kernel_basic.Wm.Clicks.{hit_window, wm_on_mouse_down, click_region, click_content, call_mouse}
use kernel_basic.Wm.Ids.{ids, elem, elem-erase_self, ids-remove}
use kernel_basic.Wm.Valid.{IsValid}
use kernel_basic.Wm.Invariant.{wm_close_window-IsValid, wm_raise-IsValid}
use kernel_basic.Wm.Handlers.{Lawful, Preserves, MouseLaw, PairLaw}
use kernel_basic.Wm.Drag.{press_region}

-- Where `info_on_show` puts the button in a window's content.
unfoldable pub info_button : (content : Rect) → Rect
info_button content = record {
  x = (content.w -ℤ pos 60) /ℤ pos 2;
  y = content.h -ℤ pos 24 -ℤ pos 10;
  w = pos 60;
  h = pos 24;
}

unfoldable pub info_on_mouse_down :
    (button_rect_local : Rect) → (id : ℕ) → (lx ly : ℤ) → (buttons : ℕ) → Wm → Wm
info_on_mouse_down button_rect_local id lx ly buttons s =
    if rect_contains_point button_rect_local lx ly then wm_close_window id s else s

-- The handlers of `info_app`.
abbrev pub info_handlers : (button_rect_local : Rect) → App
info_handlers button_rect_local = record {
  on_mouse_down = some (info_on_mouse_down button_rect_local);
  on_mouse_up = none;
  on_mouse_move = none;
  on_key_down = none;
  on_key_up = none;
  on_tick = none;
}

-- The table of applications, with the Info window's handlers in their place.
abbrev pub with_info : (button_rect_local : Rect) → Apps → Apps
with_info button_rect_local apps info_app = info_handlers button_rect_local
with_info button_rect_local apps program_manager_app = apps program_manager_app
with_info button_rect_local apps terminal_app = apps terminal_app
with_info button_rect_local apps calculator_app = apps calculator_app
with_info button_rect_local apps file_manager_app = apps file_manager_app
with_info button_rect_local apps text_editor_app = apps text_editor_app

-- The handler closes its own window, and that keeps the pointers in order.
info_on_mouse_down-Preserves :
    (button : Rect) (id : ℕ) (lx ly : ℤ) (buttons : ℕ)
    → Preserves (info_on_mouse_down button id lx ly buttons)
unfolding info_on_mouse_down
info_on_mouse_down-Preserves button id lx ly buttons s v =
    if_ind IsValid (rect_contains_point button lx ly) (λ _. wm_close_window-IsValid id s v) (λ _. v)

-- What holds of the Info window's handlers and of every other application's holds of the table.
with_info-each :
    (P : App → Type 0) (button : Rect) (apps : Apps)
    → P (info_handlers button)
    → ((a : AppId) → P (apps a))
    → (a : AppId) → P (with_info button apps a)
with_info-each P button apps p h program_manager_app = h program_manager_app
with_info-each P button apps p h terminal_app = h terminal_app
with_info-each P button apps p h calculator_app = h calculator_app
with_info-each P button apps p h info_app = p
with_info-each P button apps p h file_manager_app = h file_manager_app
with_info-each P button apps p h text_editor_app = h text_editor_app

pub with_info-Lawful : (button : Rect) (apps : Apps) → Lawful apps → Lawful (with_info button apps)
with_info-Lawful button apps law = record {
  mouse_down =
      with_info-each (λ f. MouseLaw f.on_mouse_down) button apps
        (info_on_mouse_down-Preserves button) law.mouse_down;
  mouse_up = with_info-each (λ f. MouseLaw f.on_mouse_up) button apps tt law.mouse_up;
  mouse_move = with_info-each (λ f. PairLaw f.on_mouse_move) button apps tt law.mouse_move;
  key_press = with_info-each (λ f. PairLaw f.on_key_down) button apps tt law.key_press;
  key_release = with_info-each (λ f. PairLaw f.on_key_up) button apps tt law.key_release;
}

closed_elem : (id : ℕ) (s : Wm) → IsValid s → elem (ids (wm_close_window id s).windows) id ≡ false
unfolding wm_close_window
closed_elem id s v =
    ap (λ l. elem l id) (ids-remove s.windows id) ∙ elem-erase_self (ids s.windows) id v.distinct

-- The state after a press on the Info window's button.
press_info :
    (apps : Apps) (now : ℕ) (button : Rect) (x y : ℤ) (s : Wm) (w : Window)
    → w.app ≡ info_app
    → (let content = window_content_rect w.rect in
        rect_contains_point button (x -ℤ content.x) (y -ℤ content.y) ≡ true)
    → click_region (with_info button apps) now w (hit_content, resize_none) x y 1 s
      ≡ record (wm_close_window w.id s) { mode = app_captured; drag_win = some w.id; dirty = true }
unfolding click_region click_content call_mouse info_on_mouse_down
press_info apps now button x y s w is_info inside = rw (is_info, inside) refl

-- Where the pointers are in order and the Start menu is closed, a left press at a place that is
-- neither the Start button nor a task bar button, and at which the topmost window hit is an Info
-- window hit on its OK button, closes that window and leaves the manager in the mode that sends
-- moves and the release to it, with the drag's pointer still leading to the closed window.
pub info_press-dangles :
    (apps : Apps) (now p : ℕ) (button : Rect) (x y : ℤ) (s : Wm) (w : Window)
    → IsValid s
    → rect_contains_point taskbar_start_button_rect x y ≡ false
    → s.start_menu_open ≡ false
    → taskbar_hit_button (length s.windows) x y ≡ none
    → hit_window s.windows x y ≡ some w
    → wm_hit_test w x y ≡ (hit_content, resize_none)
    → w.app ≡ info_app
    → (let content = window_content_rect w.rect in
        rect_contains_point button (x -ℤ content.x) (y -ℤ content.y) ≡ true)
    → let t = wm_on_mouse_down (with_info button apps) now p x y 1 s in
      (t.mode ≡ app_captured) × (t.drag_win ≡ some w.id) × (elem (ids t.windows) w.id ≡ false)
info_press-dangles apps now p button x y s w v start menu bar hit region is_info inside =
    let r = wm_raise w.id s in
    let pressed =
      press_region (with_info button apps) now p x y hit_content s w start menu bar hit region
      ∙ press_info apps now button x y r w is_info inside in
    subst
      (λ (t : Wm).
        (t.mode ≡ app_captured) × (t.drag_win ≡ some w.id) × (elem (ids t.windows) w.id ≡ false))
      (sym pressed) (refl, refl, closed_elem w.id r (wm_raise-IsValid w.id s v))
