-- ===== src/Wm.antt =====
-- gui/wm.c and gui/window.c: the window manager's state. A pointer to a window is its address, and the
-- windows that `g_windows` points to are in the list, from the bottom to the top.
--
-- `wm_composite` and everything that draws is left out. Of an application's callbacks, `on_init`,
-- `on_close`, `on_blur` and `on_show` work on the application's own state and on the screen alone.
pub mod Frame
pub mod Windows
pub mod Layout
pub mod Launch
pub mod Clicks
pub mod Input
pub mod Ids
pub mod Valid
pub mod Invariant
pub mod Handlers
pub mod Moves
pub mod Info
pub mod Restore
pub mod Drag
pub mod Bounds
pub mod Tiling
use kernel_basic.Prelude.{ℕ, Bool, true, false, List, [], ◌∷◌, Option, none, some, ◌==◌}
use kernel_basic.Prelude.Int.{ℤ, pos}
use kernel_basic.Rect.{Rect}

abbrev pub max_windows : ℕ
max_windows = 8

-- `window_state_t`
pub data WindowState : Type 0 where
  normal minimized maximized : WindowState

abbrev pub is_minimized : WindowState → Bool
is_minimized minimized = true
is_minimized _ = false

abbrev pub is_maximized : WindowState → Bool
is_maximized maximized = true
is_maximized _ = false

abbrev pub is_normal : WindowState → Bool
is_normal normal = true
is_normal _ = false

-- The addresses of the `app_st` tables.
pub data AppId : Type 0 where
  program_manager_app terminal_app calculator_app info_app file_manager_app text_editor_app : AppId

abbrev pub app_index : AppId → ℕ
app_index program_manager_app = 0
app_index terminal_app = 1
app_index calculator_app = 2
app_index info_app = 3
app_index file_manager_app = 4
app_index text_editor_app = 5

-- `wm_window_st`; `id` is its address.
pub record Window : Type 0 where
  pub id : ℕ
  pub rect : Rect
  pub title : List ℕ
  pub restore_rect : Rect
  pub state : WindowState
  pub restore_state : WindowState
  pub app : AppId
  pub min_w : ℤ
  pub min_h : ℤ

-- `wm_mode_t`
pub data Mode : Type 0 where
  idle dragging_title resizing app_captured : Mode

-- `resize_edge_t`
pub data ResizeEdge : Type 0 where
  resize_none resize_n resize_s resize_e resize_w : ResizeEdge
  resize_ne resize_nw resize_se resize_sw : ResizeEdge

-- `hit_region_t`
pub data HitRegion : Type 0 where
  hit_none hit_sysmenu hit_minimize hit_maximize hit_title hit_resize hit_content : HitRegion

-- The static variables of wm.c. A null pointer is `none`.
pub record Wm : Type 0 where
  pub windows : List Window
  pub focused : Option ℕ
  pub start_menu_open : Bool
  pub mode : Mode
  pub drag_win : Option ℕ
  pub drag_off_x : ℤ
  pub drag_off_y : ℤ
  pub resize_edge : ResizeEdge
  pub drag_start_rect : Rect
  pub drag_start_mx : ℤ
  pub drag_start_my : ℤ
  pub dirty : Bool
  pub last_sysmenu_win : Option ℕ
  pub last_sysmenu_tick : ℕ

-- The callbacks of an `app_st` that the manager waits for: each takes the window, and may call the
-- manager again.
pub record App : Type 0 where
  pub on_mouse_down : Option (ℕ → ℤ → ℤ → ℕ → Wm → Wm)
  pub on_mouse_up : Option (ℕ → ℤ → ℤ → ℕ → Wm → Wm)
  pub on_mouse_move : Option (ℕ → ℤ → ℤ → Wm → Wm)
  pub on_key_down : Option (ℕ → ℤ → ℤ → Wm → Wm)
  pub on_key_up : Option (ℕ → ℤ → ℤ → Wm → Wm)
  pub on_tick : Option (ℕ → Wm → Bool)

abbrev pub is_win : Option ℕ → ℕ → Bool
is_win none id = false
is_win (some p) id = p == id
