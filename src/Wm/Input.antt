-- ===== src/Wm/Input.antt =====
-- The mouse's moves, its release, the keys and the clock, gui/wm.c.
use kernel_basic.Prelude.{
  ℕ, Bool, true, false, not, ◌&&◌, ◌||◌, List, [], ◌∷◌, Option, none, some, if◌then◌else◌,
}
use kernel_basic.Prelude.Int.{ℤ, ◌-ℤ◌}
use kernel_basic.Wm.{is_minimized, Window, Mode, idle, dragging_title, resizing, app_captured, Wm}
use kernel_basic.Wm.Frame.{window_content_rect}
use kernel_basic.Wm.Windows.{find_window, update_window}
use kernel_basic.Wm.Layout.{drag_rect, resize_rect}
use kernel_basic.Wm.Launch.{Apps}
use kernel_basic.Wm.Clicks.{call_mouse}

-- A callback without buttons.
unfoldable pub call_move : Option (ℕ → ℤ → ℤ → Wm → Wm) → Window → (x y : ℤ) → Wm → Wm
call_move none w x y s = s
call_move (some f) w x y s =
    let content = window_content_rect w.rect in f w.id (x -ℤ content.x) (y -ℤ content.y) s

-- The window that is dragged, in each mode.
unfoldable pub move_window : Apps → Mode → (x y : ℤ) → Wm → Option Window → Wm
unfolding call_move
move_window apps mode x y s none = s
move_window apps idle x y s (some w) = s
move_window apps dragging_title x y s (some w) =
    let moved =
      λ (w : Window). record w { rect = drag_rect s.drag_off_x s.drag_off_y x y w.rect } in
    record s { windows = update_window s.windows w.id moved; dirty = true }
move_window apps resizing x y s (some w) =
    let r =
      resize_rect s.resize_edge (x -ℤ s.drag_start_mx) (y -ℤ s.drag_start_my) w.min_w w.min_h
        s.drag_start_rect in
    record s { windows = update_window s.windows w.id (λ w. record w { rect = r }); dirty = true }
move_window apps app_captured x y s (some w) =
    record (call_move (apps w.app).on_mouse_move w x y s) { dirty = true }

-- The window that a pointer leads to. Where it leads to none, the source reads and writes through it
-- nevertheless.
unfoldable pub window_at : Option ℕ → Wm → Option Window
window_at none s = none
window_at (some id) s = find_window s.windows id

-- The cursor, which follows at each call, is no part of the state.
unfoldable pub wm_on_mouse_move : Apps → (x y : ℤ) → Wm → Wm
unfolding move_window window_at
wm_on_mouse_move apps x y s = move_window apps s.mode x y s (window_at s.drag_win s)

abbrev pub is_captured : Mode → Bool
is_captured app_captured = true
is_captured _ = false

unfoldable pub release_window : Apps → (x y : ℤ) → (buttons : ℕ) → Wm → Option Window → Wm
unfolding call_mouse
release_window apps x y buttons s none = s
release_window apps x y buttons s (some w) = call_mouse (apps w.app).on_mouse_up w x y buttons s

unfoldable pub wm_on_mouse_up : Apps → (x y : ℤ) → (buttons : ℕ) → Wm → Wm
unfolding release_window window_at
wm_on_mouse_up apps x y buttons s =
    let t =
      if is_captured s.mode
      then release_window apps x y buttons s (window_at s.drag_win s)
      else s in
    record t { mode = idle; drag_win = none; dirty = true }

-- A key goes to the focused window, if its application takes keys.
unfoldable pub call_key : Option (ℕ → ℤ → ℤ → Wm → Wm) → (id : ℕ) → (ascii mods : ℤ) → Wm → Wm
call_key none id ascii mods s = s
call_key (some f) id ascii mods s = record (f id ascii mods s) { dirty = true }

unfoldable pub key_down_in : Apps → (ascii mods : ℤ) → Wm → Option Window → Wm
unfolding call_key
key_down_in apps ascii mods s none = s
key_down_in apps ascii mods s (some w) = call_key (apps w.app).on_key_down w.id ascii mods s

unfoldable pub wm_on_key_down : Apps → (ascii mods : ℤ) → Wm → Wm
unfolding key_down_in window_at
wm_on_key_down apps ascii mods s = key_down_in apps ascii mods s (window_at s.focused s)

unfoldable pub key_up_in : Apps → (ascii mods : ℤ) → Wm → Option Window → Wm
unfolding call_key
key_up_in apps ascii mods s none = s
key_up_in apps ascii mods s (some w) = call_key (apps w.app).on_key_up w.id ascii mods s

unfoldable pub wm_on_key_up : Apps → (ascii mods : ℤ) → Wm → Wm
unfolding key_up_in window_at
wm_on_key_up apps ascii mods s = key_up_in apps ascii mods s (window_at s.focused s)

abbrev pub ticked : Option (ℕ → Wm → Bool) → (id : ℕ) → Wm → Bool
ticked none id s = false
ticked (some f) id s = f id s

-- Whether any visible window's application asks for a repaint.
unfoldable pub tick_windows : Apps → List Window → Wm → Bool
tick_windows apps [] s = false
tick_windows apps (w ∷ ws) s =
    (not (is_minimized w.state) && ticked (apps w.app).on_tick w.id s) || tick_windows apps ws s

-- The state, and whether the screen is painted.
unfoldable pub wm_on_tick : Apps → Wm → Wm × Bool
unfolding tick_windows
wm_on_tick apps s =
    if s.dirty || tick_windows apps s.windows s
    then (record s { dirty = false }, true)
    else (s, false)
