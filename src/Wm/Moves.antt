-- ===== src/Wm/Moves.antt =====
-- The mouse's moves, its release and the keys, gui/wm.c, and the pointers.
use kernel_basic.Prelude.{ℕ, ◌≡◌, refl, Bool, false, ◌||◌, Option, none, some, if_ind}
use kernel_basic.Prelude.Int.{ℤ}
use kernel_basic.Wm.{Window, Mode, idle, dragging_title, resizing, app_captured, Wm}
use kernel_basic.Wm.Launch.{Apps}
use kernel_basic.Wm.Clicks.{wm_on_mouse_down}
use kernel_basic.Wm.Input.{
  call_move, move_window, window_at, wm_on_mouse_move, is_captured, release_window, wm_on_mouse_up,
  call_key, key_down_in, wm_on_key_down, key_up_in, wm_on_key_up, wm_on_tick, tick_windows,
}
use kernel_basic.Wm.Ids.{ids, elem, ids-update}
use kernel_basic.Wm.Valid.{IsValid, drag-Valid}
use kernel_basic.Wm.Invariant.{fields-IsValid}
use kernel_basic.Wm.Handlers.{wm_on_mouse_down-IsValid, Preserves, PairLaw, Lawful, call_mouse-law}

call_move-IsValid :
    (o : Option (ℕ → ℤ → ℤ → Wm → Wm)) (w : Window) (x y : ℤ)
    → PairLaw o
    → Preserves (call_move o w x y)
unfolding call_move
call_move-IsValid none w x y h s v = v
call_move-IsValid (some f) w x y h s v = h w.id _ _ s v

move_window-IsValid :
    (apps : Apps) (mode : Mode) (x y : ℤ) (s : Wm) (o : Option Window)
    → Lawful apps
    → IsValid s
    → IsValid (move_window apps mode x y s o)
unfolding move_window
move_window-IsValid apps mode x y s none law v = v
move_window-IsValid apps idle x y s (some w) law v = v
move_window-IsValid apps dragging_title x y s (some w) law v =
    fields-IsValid s _ (ids-update s.windows w.id _ (λ _. refl)) v
move_window-IsValid apps resizing x y s (some w) law v =
    fields-IsValid s _ (ids-update s.windows w.id _ (λ _. refl)) v
move_window-IsValid apps app_captured x y s (some w) law v =
    call_move-IsValid (apps w.app).on_mouse_move w x y (law.mouse_move w.app) s v

wm_on_mouse_move-IsValid :
    (apps : Apps) (x y : ℤ) (s : Wm)
    → Lawful apps
    → IsValid s
    → IsValid (wm_on_mouse_move apps x y s)
unfolding wm_on_mouse_move
wm_on_mouse_move-IsValid apps x y s law v =
    move_window-IsValid apps s.mode x y s (window_at s.drag_win s) law v

release_window-IsValid :
    (apps : Apps) (x y : ℤ) (buttons : ℕ) (s : Wm) (o : Option Window)
    → Lawful apps
    → IsValid s
    → IsValid (release_window apps x y buttons s o)
unfolding release_window
release_window-IsValid apps x y buttons s none law v = v
release_window-IsValid apps x y buttons s (some w) law v =
    call_mouse-law (apps w.app).on_mouse_up w x y buttons (law.mouse_up w.app) s v

wm_on_mouse_up-IsValid :
    (apps : Apps) (x y : ℤ) (buttons : ℕ) (s : Wm)
    → Lawful apps
    → IsValid s
    → IsValid (wm_on_mouse_up apps x y buttons s)
unfolding wm_on_mouse_up
wm_on_mouse_up-IsValid apps x y buttons s law v = drag-Valid none idle tt tt (
    if_ind IsValid (is_captured s.mode)
      (λ _. release_window-IsValid apps x y buttons s (window_at s.drag_win s) law v) (λ _. v))

call_key-IsValid :
    (o : Option (ℕ → ℤ → ℤ → Wm → Wm)) (id : ℕ) (a m : ℤ)
    → PairLaw o
    → Preserves (call_key o id a m)
unfolding call_key
call_key-IsValid none id a m h s v = v
call_key-IsValid (some f) id a m h s v = h id a m s v

wm_on_key_down-IsValid :
    (apps : Apps) (ascii mods : ℤ) (s : Wm)
    → Lawful apps
    → IsValid s
    → IsValid (wm_on_key_down apps ascii mods s)
unfolding wm_on_key_down key_down_in
wm_on_key_down-IsValid apps ascii mods s law v = to_app (window_at s.focused s)
  where
    to_app : (o : Option Window) → IsValid (key_down_in apps ascii mods s o)
    to_app none = v
    to_app (some w) =
        call_key-IsValid (apps w.app).on_key_down w.id ascii mods (law.key_press w.app) s v

wm_on_key_up-IsValid :
    (apps : Apps) (ascii mods : ℤ) (s : Wm)
    → Lawful apps
    → IsValid s
    → IsValid (wm_on_key_up apps ascii mods s)
unfolding wm_on_key_up key_up_in
wm_on_key_up-IsValid apps ascii mods s law v = to_app (window_at s.focused s)
  where
    to_app : (o : Option Window) → IsValid (key_up_in apps ascii mods s o)
    to_app none = v
    to_app (some w) =
        call_key-IsValid (apps w.app).on_key_up w.id ascii mods (law.key_release w.app) s v

-- What the event loop calls, one event after the other.
pub data Steps (apps : Apps) : Wm → Wm → Type 0 where
  start : {s : Wm} → Steps apps s s
  pressed :
      {s t : Wm} (now p : ℕ) (x y : ℤ) (buttons : ℕ)
      → elem (ids t.windows) p ≡ false
      → Steps apps s t
      → Steps apps s (wm_on_mouse_down apps now p x y buttons t)
  moved : {s t : Wm} (x y : ℤ) → Steps apps s t → Steps apps s (wm_on_mouse_move apps x y t)
  released :
      {s t : Wm} (x y : ℤ) (buttons : ℕ)
      → Steps apps s t
      → Steps apps s (wm_on_mouse_up apps x y buttons t)
  key_pressed :
      {s t : Wm} (ascii mods : ℤ) → Steps apps s t → Steps apps s (wm_on_key_down apps ascii mods t)
  key_released :
      {s t : Wm} (ascii mods : ℤ) → Steps apps s t → Steps apps s (wm_on_key_up apps ascii mods t)
  ticked : {s t : Wm} → Steps apps s t → Steps apps s (wm_on_tick apps t).0

wm_on_tick-IsValid : (apps : Apps) (s : Wm) → IsValid s → IsValid (wm_on_tick apps s).0
unfolding wm_on_tick
wm_on_tick-IsValid apps s v =
    if_ind (λ (r : Wm × Bool). IsValid r.0) (s.dirty || tick_windows apps s.windows s) (λ _. v)
      (λ _. v)

-- With applications whose callbacks keep the pointers in order, which may close their own window
-- at a press, and with new windows at addresses no open window has, every sequence of presses,
-- moves, releases, keys and ticks keeps the window list free of duplicates and at most 8 long, the
-- focused and the last clicked window null or in the list, a drag's window set exactly in the
-- modes that drag, and in the list while its title or its border is dragged. A move or a release
-- for a captured window that is closed is taken to do nothing to it.
pub Steps-IsValid : (apps : Apps) (s t : Wm) → Lawful apps → IsValid s → Steps apps s t → IsValid t
Steps-IsValid apps s _ law v start = v
Steps-IsValid apps s _ law v (pressed {t = t} now p x y buttons fresh r) =
    wm_on_mouse_down-IsValid apps now p x y buttons t law fresh (Steps-IsValid apps s t law v r)
Steps-IsValid apps s _ law v (moved {t = t} x y r) =
    wm_on_mouse_move-IsValid apps x y t law (Steps-IsValid apps s t law v r)
Steps-IsValid apps s _ law v (released {t = t} x y buttons r) =
    wm_on_mouse_up-IsValid apps x y buttons t law (Steps-IsValid apps s t law v r)
Steps-IsValid apps s _ law v (key_pressed {t = t} ascii mods r) =
    wm_on_key_down-IsValid apps ascii mods t law (Steps-IsValid apps s t law v r)
Steps-IsValid apps s _ law v (key_released {t = t} ascii mods r) =
    wm_on_key_up-IsValid apps ascii mods t law (Steps-IsValid apps s t law v r)
Steps-IsValid apps s _ law v (ticked {t = t} r) =
    wm_on_tick-IsValid apps t (Steps-IsValid apps s t law v r)
