-- ===== src/Taskbar.antt =====
-- gui/taskbar.c: where the Start button, the window buttons and the Start menu are, and what a click
-- hits. Drawing is left out.
use kernel_basic.Prelude.{
  ℕ, zero, suc, ◌+◌, ◌-◌, ◌*◌, ◌/◌, List, [], ◌∷◌, Option, none, some, ltb, ◌||◌, ◌==◌, not,
  if◌then◌else◌, length,
}
use kernel_basic.Prelude.Int.{ℤ, pos, ◌+ℤ◌, ◌-ℤ◌, ◌/ℤ◌, ltb_ℤ, leb_ℤ, pos_part}
use kernel_basic.Mouse.{screen_w, screen_h}
use kernel_basic.Rect.{Rect, rect_contains_point}

abbrev pub taskbar_height : ℕ
taskbar_height = 24

abbrev pub taskbar_item_h : ℕ
taskbar_item_h = 16

abbrev pub font_w : ℕ
font_w = 8

abbrev pub taskbar_margin : ℕ
taskbar_margin = 2

abbrev pub taskbar_start_pad : ℕ
taskbar_start_pad = 12

abbrev pub taskbar_button_gap : ℕ
taskbar_button_gap = 4

abbrev pub taskbar_button_min_w : ℕ
taskbar_button_min_w = 40

abbrev pub taskbar_label_pad : ℕ
taskbar_label_pad = 16

unfoldable pub taskbar_bar_rect : Rect
taskbar_bar_rect = record {
  x = pos 0;
  y = pos (screen_h - taskbar_height);
  w = pos screen_w;
  h = pos taskbar_height;
}

-- "Iniciar" has seven letters.
unfoldable pub taskbar_start_button_rect : Rect
unfolding taskbar_bar_rect
taskbar_start_button_rect = record {
  x = pos taskbar_margin;
  y = taskbar_bar_rect.y +ℤ pos taskbar_margin;
  w = pos (7 * font_w + taskbar_start_pad);
  h = pos (taskbar_height - 2 * taskbar_margin);
}

-- Where the first window button begins.
abbrev pub buttons_x : ℕ
buttons_x = taskbar_margin + (7 * font_w + taskbar_start_pad) + taskbar_button_gap

unfoldable pub taskbar_button_w : (button_count : ℕ) → ℕ
taskbar_button_w button_count =
    let w = (screen_w - buttons_x - taskbar_margin) / button_count in
    if button_count == 0 then 0 else if ltb w taskbar_button_min_w then taskbar_button_min_w else w

unfoldable pub taskbar_button_rect_at : (index button_count : ℕ) → Rect
unfolding taskbar_bar_rect taskbar_button_w
taskbar_button_rect_at index button_count =
    let w = taskbar_button_w button_count in
    record {
      x = pos (buttons_x + index * w);
      y = taskbar_bar_rect.y +ℤ pos taskbar_margin;
      w = pos w;
      h = pos (taskbar_height - 2 * taskbar_margin);
    }

-- The buttons from `i` on, `n` of them.
unfoldable pub hit_button_from : (n i button_count : ℕ) → ℤ → ℤ → Option ℕ
unfolding taskbar_button_rect_at
hit_button_from zero i button_count x y = none
hit_button_from (suc n) i button_count x y =
    if rect_contains_point (taskbar_button_rect_at i button_count) x y
    then some i
    else hit_button_from n (i + 1) button_count x y

unfoldable pub taskbar_hit_button : (button_count : ℕ) → ℤ → ℤ → Option ℕ
unfolding hit_button_from
taskbar_hit_button button_count x y = hit_button_from button_count 0 button_count x y

-- The length of the longest label.
unfoldable pub max_len : List (List ℕ) → ℕ → ℕ
max_len [] m = m
max_len (l ∷ ls) m = max_len ls (if ltb m (length l) then length l else m)

unfoldable pub taskbar_start_menu_rect : (labels : List (List ℕ)) → Rect
unfolding taskbar_start_button_rect taskbar_bar_rect max_len
taskbar_start_menu_rect labels =
    let w = pos (max_len labels 0 * font_w + taskbar_label_pad) in
    let h = pos (length labels * taskbar_item_h) in
    let x = taskbar_start_button_rect.x in
    let x = if ltb_ℤ (pos screen_w) (x +ℤ w) then pos screen_w -ℤ w else x in
    record { x = if ltb_ℤ x (pos 0) then pos 0 else x; y = taskbar_bar_rect.y -ℤ h; w = w; h = h }

unfoldable pub taskbar_hit_start_item : (labels : List (List ℕ)) → ℤ → ℤ → Option ℕ
unfolding taskbar_start_menu_rect
taskbar_hit_start_item labels x y =
    let dd = taskbar_start_menu_rect labels in
    let row = (y -ℤ dd.y) /ℤ pos taskbar_item_h in
    if not (rect_contains_point dd x y)
    then none
    else if ltb_ℤ row (pos 0) || leb_ℤ (pos (length labels)) row
    then none
    else some (pos_part row)
