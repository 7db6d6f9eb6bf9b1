-- ===== src/Wm/Drag.antt =====
-- A window of gui/wm.c that is dragged by its title.
use kernel_basic.Prelude.{
  ℕ, ◌-◌, ◌≡◌, refl, ap, ◌∙◌, Bool, true, false, List, [], ◌∷◌, Option, none, some, if◌then◌else◌,
  length, arith,
}
use kernel_basic.Prelude.Int.{ℤ, ◌+ℤ◌, ◌-ℤ◌}
use kernel_basic.Rect.{rect_contains_point}
use kernel_basic.Taskbar.{taskbar_start_button_rect, taskbar_hit_button}
use kernel_basic.Wm.{Window, Wm, HitRegion, hit_title, resize_none}
use kernel_basic.Wm.Frame.{wm_hit_test}
use kernel_basic.Wm.Windows.{find_window, wm_raise}
use kernel_basic.Wm.Layout.{drag_rect, desktop_h}
use kernel_basic.Wm.Launch.{Apps}
use kernel_basic.Wm.Clicks.{
  is_hit, hit_window, click_region, click_window, click_below, wm_on_mouse_down,
}
use kernel_basic.Wm.Input.{move_window, window_at, wm_on_mouse_move}
use kernel_basic.Wm.Ids.{ids, elem, Distinct, Found, hit_window-Found}
use kernel_basic.Wm.Valid.{IsValid}
use kernel_basic.Mouse.{screen_w}
use kernel_basic.Wm.Bounds.{HeldAt, drag_rect-HeldAt}
use mathlib.Core.Path.{subst}
use kernel_basic.Wm.Restore.{find-update, raise_found-some}

-- The window that was hit is the one at its address.
abbrev FoundIn : List Window → Option Window → Type 0
FoundIn ws none = Unit
FoundIn ws (some w) = find_window ws w.id ≡ some w

FoundIn-cons :
    (v : Window) (ws : List Window) (o : Option Window)
    → elem (ids ws) v.id ≡ false
    → Found (ids ws) o
    → FoundIn ws o
    → FoundIn (v ∷ ws) o
unfolding find_window
FoundIn-cons v ws none d f h = tt
FoundIn-cons v ws (some w) d f h = ground (arith, d, f, h, ap (elem (ids ws)) {x = v.id} {y = w.id})

FoundIn-head : (w : Window) (ws : List Window) → find_window (w ∷ ws) w.id ≡ some w
unfolding find_window
FoundIn-head w ws = ground arith

hit_or-FoundIn :
    (v : Window) (ws : List Window) (b : Bool) (o : Option Window)
    → elem (ids ws) v.id ≡ false
    → Found (ids ws) o
    → FoundIn ws o
    → FoundIn (v ∷ ws) (elim o [ some w ↦ some w | none ↦ if b then some v else none ])
hit_or-FoundIn v ws b (some w) d f h = FoundIn-cons v ws (some w) d f h
hit_or-FoundIn v ws true none d f h = FoundIn-head v ws
hit_or-FoundIn v ws false none d f h = tt

hit_window-FoundIn :
    (ws : List Window) (x y : ℤ) → Distinct (ids ws) → FoundIn ws (hit_window ws x y)
unfolding hit_window
hit_window-FoundIn [] x y d = tt
hit_window-FoundIn (w ∷ ws) x y d =
    hit_or-FoundIn w ws (is_hit (wm_hit_test w x y).0) (hit_window ws x y) d.0
      (hit_window-Found ws x y) (hit_window-FoundIn ws x y d.1)

if_false : {A : Type 0} (b : Bool) (a c : A) → b ≡ false → (if b then a else c) ≡ c
if_false true a c h = cc
if_false false a c h = refl

-- A press on a window's region, with the menu closed and away from the task bar.
pub press_region :
    (apps : Apps) (now p : ℕ) (x y : ℤ) (at : HitRegion) (s : Wm) (w : Window)
    → rect_contains_point taskbar_start_button_rect x y ≡ false
    → s.start_menu_open ≡ false
    → taskbar_hit_button (length s.windows) x y ≡ none
    → hit_window s.windows x y ≡ some w
    → wm_hit_test w x y ≡ (at, resize_none)
    → wm_on_mouse_down apps now p x y 1 s
      ≡ click_region apps now w (at, resize_none) x y 1 (wm_raise w.id s)
unfolding wm_on_mouse_down click_below click_window
press_region apps now p x y at s w start menu bar hit region =
    if_false (rect_contains_point taskbar_start_button_rect x y) _ _ start
    ∙ (if_false s.start_menu_open _ _ menu ∙ rw (bar, hit, region) refl)

-- Where the pointers are in order and the Start menu is closed, a left press at a place that is
-- neither the Start button nor a task bar button, and at which the topmost window hit is hit on
-- its title, followed by a move, focuses that window and moves it as far as the mouse moved:
-- across and down, its place is the one so reached, or the limit of the screen that this passes (0
-- on one side, 20 pixels from the end of the screen or of the part above the task bar on the
-- other). Nothing else of the window changes.
pub title-drag :
    (apps : Apps) (now p : ℕ) (x y x' y' : ℤ) (s : Wm) (w : Window)
    → IsValid s
    → rect_contains_point taskbar_start_button_rect x y ≡ false
    → s.start_menu_open ≡ false
    → taskbar_hit_button (length s.windows) x y ≡ none
    → hit_window s.windows x y ≡ some w
    → wm_hit_test w x y ≡ (hit_title, resize_none)
    → let t = wm_on_mouse_move apps x' y' (wm_on_mouse_down apps now p x y 1 s) in
      (new_x : ℤ) × (new_y : ℤ) × HeldAt (screen_w - 20) (w.rect.x +ℤ (x' -ℤ x)) new_x
      × HeldAt (desktop_h - 20) (w.rect.y +ℤ (y' -ℤ y)) new_y
      × (find_window t.windows w.id
          ≡ some (record w { rect = record w.rect { x = new_x; y = new_y } }))
      × (t.focused ≡ some w.id)
unfolding wm_on_mouse_move move_window window_at click_region drag_rect
title-drag apps now p x y x' y' s w v start menu bar hit region =
    let found = subst (FoundIn s.windows) hit (hit_window-FoundIn s.windows x y v.distinct) in
    let raised = raise_found-some s w v.distinct found in
    let moved =
      λ (v : Window). record v { rect = drag_rect (x -ℤ w.rect.x) (y -ℤ w.rect.y) x' y' v.rect } in
    let held = drag_rect-HeldAt x y x' y' w.rect in
    rw (press_region apps now p x y hit_title s w start menu bar hit region, raised.0)
      (
        (moved w).rect.x,
        (moved w).rect.y,
        held.0,
        held.1,
        find-update (wm_raise w.id s).windows w.id moved w (λ _. refl) raised.0,
        raised.1,
      )
