-- ===== src/Wm/Handlers.antt =====
-- The event handlers of gui/wm.c and the pointers, with any applications that keep to a contract.
use kernel_basic.Prelude.{
  ℕ, zero, suc, ◌%◌, ◌≡◌, ◌∙◌, true, false, not, ◌&&◌, Option, none, some, ltb, ◌==◌, if_ind,
  length, get_elem?,
}
use kernel_basic.Prelude.Int.{ℤ}
use kernel_basic.Rect.{rect_contains_point}
use kernel_basic.Taskbar.{taskbar_start_button_rect, taskbar_hit_start_item, taskbar_hit_button}
use kernel_basic.Wm.{
  Window, AppId, dragging_title, resizing, app_captured, Wm, is_win, HitRegion, ResizeEdge,
  hit_none, hit_sysmenu, hit_minimize, hit_maximize, hit_title, hit_resize, hit_content,
}
use kernel_basic.Wm.Frame.{wm_hit_test}
use kernel_basic.Wm.Windows.{wm_raise, wm_focus_window}
use kernel_basic.Wm.Launch.{
  Apps, Launcher, launchers, program_manager_entry, start_menu_labels, focus_or_open, pm_launch,
  start_menu_entry, wm_start_menu_select,
}
use kernel_basic.Wm.Clicks.{
  ticks_since, double_click_ticks, click_sysmenu, call_mouse, click_content, click_region,
  hit_window, click_window, click_below, click_menu, wm_on_mouse_down,
}
use kernel_basic.Wm.Ids.{ids, elem, Found, hit_window-Found}
use kernel_basic.Wm.Valid.{IsValid, sysmenu-Valid, drag-Valid}
use kernel_basic.Wm.Invariant.{
  wm_raise-IsValid, wm_create_window-IsValid, wm_close_window-IsValid, wm_minimize_window-IsValid,
  wm_focus_window-IsValid, wm_toggle_maximize-IsValid, wm_raise-elem,
}

-- A callback that leaves the pointers in order.
abbrev pub Preserves : (Wm → Wm) → Type 0
Preserves f = (s : Wm) → IsValid s → IsValid (f s)

abbrev pub MouseLaw : Option (ℕ → ℤ → ℤ → ℕ → Wm → Wm) → Type 0
MouseLaw none = Unit
MouseLaw (some f) = (id : ℕ) (x y : ℤ) (buttons : ℕ) → Preserves (f id x y buttons)

abbrev pub PairLaw : Option (ℕ → ℤ → ℤ → Wm → Wm) → Type 0
PairLaw none = Unit
PairLaw (some f) = (id : ℕ) (a b : ℤ) → Preserves (f id a b)

-- What the manager relies on of its applications.
pub record Lawful (apps : Apps) : Type 0 where
  pub mouse_down : (a : AppId) → MouseLaw (apps a).on_mouse_down
  pub mouse_up : (a : AppId) → MouseLaw (apps a).on_mouse_up
  pub mouse_move : (a : AppId) → PairLaw (apps a).on_mouse_move
  pub key_press : (a : AppId) → PairLaw (apps a).on_key_down
  pub key_release : (a : AppId) → PairLaw (apps a).on_key_up

-- The Start menu.
focus_or_open-IsValid :
    (p : ℕ) (e : Launcher) (s : Wm) (o : Option ℕ)
    → elem (ids s.windows) p ≡ false
    → IsValid s
    → IsValid (focus_or_open p e s o)
unfolding focus_or_open
focus_or_open-IsValid p e s (some id) fresh v = wm_focus_window-IsValid id s v
focus_or_open-IsValid p e s none fresh v =
    wm_create_window-IsValid p e.app e.title e.initial_rect e.min_w e.min_h s fresh v

start_menu_entry-IsValid :
    (p : ℕ) (o : Option Launcher) (s : Wm)
    → elem (ids s.windows) p ≡ false
    → IsValid s
    → IsValid (start_menu_entry p o s)
unfolding start_menu_entry pm_launch
start_menu_entry-IsValid p none s fresh v = v
start_menu_entry-IsValid p (some e) s fresh v = focus_or_open-IsValid p e s _ fresh v

wm_start_menu_select-IsValid :
    (p i : ℕ) (s : Wm)
    → elem (ids s.windows) p ≡ false
    → IsValid s
    → IsValid (wm_start_menu_select p i s)
unfolding wm_start_menu_select
wm_start_menu_select-IsValid p zero s fresh v =
    focus_or_open-IsValid p program_manager_entry s _ fresh v
wm_start_menu_select-IsValid p (suc i) s fresh v =
    start_menu_entry-IsValid p (get_elem? launchers i) s fresh v

-- The regions of a window, which is open.
click_sysmenu-IsValid :
    (now : ℕ) (w : Window) (s : Wm)
    → elem (ids s.windows) w.id ≡ true
    → IsValid s
    → IsValid (click_sysmenu now w s)
unfolding click_sysmenu
click_sysmenu-IsValid now w s o v =
    if_ind IsValid
      (is_win s.last_sysmenu_win w.id
        && ltb (ticks_since now s.last_sysmenu_tick) double_click_ticks)
      (λ _.
        wm_close_window-IsValid w.id (record s { last_sysmenu_win = none })
          (sysmenu-Valid none tt v))
      (λ _. sysmenu-Valid (some w.id) o v)

pub call_mouse-law :
    (o : Option (ℕ → ℤ → ℤ → ℕ → Wm → Wm)) (w : Window) (x y : ℤ) (buttons : ℕ)
    → MouseLaw o
    → Preserves (call_mouse o w x y buttons)
unfolding call_mouse
call_mouse-law none w x y buttons h s v = v
call_mouse-law (some f) w x y buttons h s v = h w.id _ _ buttons s v

click_content-IsValid :
    (apps : Apps) (w : Window) (x y : ℤ) (buttons : ℕ) (s : Wm)
    → Lawful apps
    → IsValid s
    → IsValid (click_content apps w x y buttons s)
unfolding click_content
click_content-IsValid apps w x y buttons s law v =
    let f = (apps w.app).on_mouse_down in
    let ok = call_mouse-law f w x y buttons (law.mouse_down w.app) s v in
    drag-Valid (some w.id) app_captured tt tt ok

click_region-IsValid :
    (apps : Apps) (now : ℕ) (w : Window) (hit : HitRegion × ResizeEdge) (x y : ℤ) (buttons : ℕ)
    (s : Wm)
    → Lawful apps
    → elem (ids s.windows) w.id ≡ true
    → IsValid s
    → IsValid (click_region apps now w hit x y buttons s)
unfolding click_region
click_region-IsValid apps now w (hit_none, edge) x y buttons s law o v = v
click_region-IsValid apps now w (hit_sysmenu, edge) x y buttons s law o v =
    click_sysmenu-IsValid now w s o v
click_region-IsValid apps now w (hit_minimize, edge) x y buttons s law o v =
    wm_minimize_window-IsValid w s v
click_region-IsValid apps now w (hit_maximize, edge) x y buttons s law o v =
    wm_toggle_maximize-IsValid w.id s v
click_region-IsValid apps now w (hit_title, edge) x y buttons s law o v =
    drag-Valid (some w.id) dragging_title o tt v
click_region-IsValid apps now w (hit_resize, edge) x y buttons s law o v =
    drag-Valid (some w.id) resizing o tt v
click_region-IsValid apps now w (hit_content, edge) x y buttons s law o v =
    click_content-IsValid apps w x y buttons s law v

click_window-IsValid :
    (apps : Apps) (now : ℕ) (o : Option Window) (x y : ℤ) (buttons : ℕ) (s : Wm)
    → Lawful apps
    → Found (ids s.windows) o
    → IsValid s
    → IsValid (click_window apps now o x y buttons s)
unfolding click_window
click_window-IsValid apps now none x y buttons s law f v = v
click_window-IsValid apps now (some w) x y buttons s law f v =
    click_region-IsValid apps now w (wm_hit_test w x y) x y buttons (wm_raise w.id s) law
      (wm_raise-elem w.id w.id s ∙ f) (wm_raise-IsValid w.id s v)

click_below-IsValid :
    (apps : Apps) (now : ℕ) (button : Option ℕ) (x y : ℤ) (buttons : ℕ) (s : Wm)
    → Lawful apps
    → IsValid s
    → IsValid (click_below apps now button x y buttons s)
unfolding click_below
click_below-IsValid apps now none x y buttons s law v =
    click_window-IsValid apps now (hit_window s.windows x y) x y buttons s law
      (hit_window-Found s.windows x y) v
click_below-IsValid apps now (some i) x y buttons s law v = focused_at (get_elem? s.windows i)
  where
    focused_at :
        (o : Option Window) → IsValid (elim o [ none ↦ s | some w ↦ wm_focus_window w.id s ])
    focused_at none = v
    focused_at (some w) = wm_focus_window-IsValid w.id s v

click_menu-IsValid :
    (apps : Apps) (now p : ℕ) (item : Option ℕ) (x y : ℤ) (buttons : ℕ) (s : Wm)
    → Lawful apps
    → elem (ids s.windows) p ≡ false
    → IsValid s
    → IsValid (click_menu apps now p item x y buttons s)
unfolding click_menu
click_menu-IsValid apps now p (some item) x y buttons s law fresh v =
    wm_start_menu_select-IsValid p item s fresh v
click_menu-IsValid apps now p none x y buttons s law fresh v =
    click_below-IsValid apps now _ x y buttons (record s { start_menu_open = false; dirty = true })
      law v

pub wm_on_mouse_down-IsValid :
    (apps : Apps) (now p : ℕ) (x y : ℤ) (buttons : ℕ) (s : Wm)
    → Lawful apps
    → elem (ids s.windows) p ≡ false
    → IsValid s
    → IsValid (wm_on_mouse_down apps now p x y buttons s)
unfolding wm_on_mouse_down
wm_on_mouse_down-IsValid apps now p x y buttons s law fresh v =
    if_ind IsValid (not (buttons % 2 == 1)) (λ _. v)
      λ _.
        if_ind IsValid (rect_contains_point taskbar_start_button_rect x y) (λ _. v)
          λ _.
            if_ind IsValid s.start_menu_open
              (λ _.
                click_menu-IsValid apps now p (taskbar_hit_start_item start_menu_labels x y) x y
                  buttons s law fresh v)
              (λ _.
                click_below-IsValid apps now (taskbar_hit_button (length s.windows) x y) x y buttons
                  s law v)
