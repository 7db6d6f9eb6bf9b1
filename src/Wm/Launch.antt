-- ===== src/Wm/Launch.antt =====
-- The Start menu of gui/wm.c, and `pm_launch` of gui/apps/program_manager.c. `p` is the address that
-- `kmalloc` gives to a new window, 0 for none.
use kernel_basic.Prelude.{
  ℕ, zero, suc, Bool, true, false, List, [], ◌∷◌, Option, none, some, get_elem?, if◌then◌else◌,
}
use kernel_basic.Prelude.Int.{ℤ, pos}
use kernel_basic.Prelude.Bytes.{codes}
use kernel_basic.Rect.{Rect}
use kernel_basic.Wm.{
  AppId, program_manager_app, terminal_app, calculator_app, info_app, file_manager_app,
  text_editor_app, Wm, App,
}
use kernel_basic.Wm.Windows.{wm_create_window, wm_find_window_by_app, wm_focus_window}

-- A pointer to the table of callbacks.
abbrev pub Apps : Type 0
Apps = AppId → App

-- `pm_launcher_entry_t`, as far as opening a window needs it.
pub record Launcher : Type 0 where
  pub app : AppId
  pub title : List ℕ
  pub initial_rect : Rect
  pub min_w : ℤ
  pub min_h : ℤ
  pub singleton : Bool

abbrev rect_of : (x y w h : ℕ) → Rect
rect_of x y w h = record { x = pos x; y = pos y; w = pos w; h = pos h }

abbrev entry : AppId → List ℕ → Rect → (min_w min_h : ℕ) → Bool → Launcher
entry app title r min_w min_h singleton = record {
  app = app;
  title = title;
  initial_rect = r;
  min_w = pos min_w;
  min_h = pos min_h;
  singleton = singleton;
}

-- Program Manager's own window.
abbrev pub program_manager_entry : Launcher
program_manager_entry =
    entry program_manager_app (codes "Program Manager") (rect_of 120 90 400 200) 360 180 true

abbrev pub launchers : List Launcher
launchers =
    entry terminal_app (codes "Terminal") (rect_of 40 40 340 220) 340 220 true
    ∷ entry calculator_app (codes "Calculator") (rect_of 400 40 200 220) 200 220 true
    ∷ entry info_app (codes "Info") (rect_of 150 280 260 180) 150 100 true
    ∷ entry file_manager_app (codes "Arquivos") (rect_of 60 60 400 300) 420 300 true
    ∷ entry text_editor_app (codes "Text Editor") (rect_of 120 60 460 300) 440 224 false
    ∷ []

abbrev pub start_menu_labels : List (List ℕ)
start_menu_labels =
    codes "Program Manager"
    ∷ codes "Terminal"
    ∷ codes "Calculator"
    ∷ codes "Info"
    ∷ codes "Arquivos"
    ∷ codes "Editor"
    ∷ []

-- A new window, whatever its address.
abbrev pub open_new : (p : ℕ) → Launcher → Wm → Wm
open_new p e s = (wm_create_window p e.app e.title e.initial_rect e.min_w e.min_h s).1

-- The window found, or a new one.
unfoldable pub focus_or_open : (p : ℕ) → Launcher → Wm → Option ℕ → Wm
focus_or_open p e s (some id) = wm_focus_window id s
focus_or_open p e s none = open_new p e s

unfoldable pub pm_launch : (p : ℕ) → Launcher → Wm → Wm
unfolding focus_or_open
pm_launch p e s = focus_or_open p e s (if e.singleton then wm_find_window_by_app e.app s else none)

unfoldable pub start_menu_entry : (p : ℕ) → Option Launcher → Wm → Wm
unfolding pm_launch
start_menu_entry p none s = s
start_menu_entry p (some e) s = pm_launch p e s

-- Item 0 is Program Manager, the others are the launchers.
unfoldable pub wm_start_menu_select : (p : ℕ) → (index : ℕ) → Wm → Wm
unfolding focus_or_open start_menu_entry
wm_start_menu_select p zero s =
    focus_or_open p program_manager_entry s (wm_find_window_by_app program_manager_app s)
wm_start_menu_select p (suc index) s = start_menu_entry p (get_elem? launchers index) s
