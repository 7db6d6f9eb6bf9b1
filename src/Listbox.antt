-- ===== src/Listbox.antt =====
-- gui/listbox.c and include/listbox.h: a list of rows with a selection and a scroll offset.
-- Row arguments are integers, -1 for none; the drawing of `listbox_draw` is left out.
pub mod Selection
use kernel_basic.Prelude.{
  ℕ, zero, suc, ◌+◌, ◌-◌, ◌/◌, Bool, true, false, not, ◌&&◌, ◌||◌, List, [], ◌∷◌, ltb, leb, ◌==◌,
  if◌then◌else◌, get_or, set, replicate,
}
use kernel_basic.Prelude.Int.{ℤ, pos, negsuc, ◌+ℤ◌, ◌-ℤ◌, ◌/ℤ◌, ltb_ℤ, leb_ℤ, pos_part}
use kernel_basic.Prelude.Memory.{fill}
use kernel_basic.Rect.{Rect, rect_contains_point}

abbrev pub listbox_max_rows : ℕ
listbox_max_rows = 128

abbrev pub font_h : ℕ
font_h = 8

-- `listbox_st`; a row is selected where its byte is 1.
pub record Listbox : Type 0 where
  pub rect : Rect
  pub count : ℕ
  pub top : ℕ
  pub selected : List ℕ
  pub anchor_row : ℤ

unfoldable pub listbox_visible_rows : Listbox → ℕ
listbox_visible_rows lb =
    let n = lb.rect.h /ℤ pos font_h in if ltb_ℤ (pos 0) n then pos_part n else 1

-- `memory` is what the array holds before.
unfoldable pub listbox_init : List ℕ → Rect → Listbox
listbox_init memory rect = record {
  rect = rect;
  count = 0;
  top = 0;
  selected = fill memory 0 listbox_max_rows 0;
  anchor_row = negsuc 0;
}

-- -1 for a point off the rows.
unfoldable pub listbox_row_at : Listbox → ℤ → ℤ → ℤ
listbox_row_at lb x y =
    let row = pos lb.top +ℤ (y -ℤ lb.rect.y) /ℤ pos font_h in
    if not (rect_contains_point lb.rect x y)
    then negsuc 0
    else if ltb_ℤ row (pos 0) || leb_ℤ (pos lb.count) row
    then negsuc 0
    else row

unfoldable pub listbox_clear_selection : Listbox → Listbox
listbox_clear_selection lb = record lb { selected = fill lb.selected 0 listbox_max_rows 0 }

-- A row that the box shows.
unfoldable pub in_rows : Listbox → ℤ → Bool
in_rows lb (pos r) = ltb r lb.count
in_rows lb (negsuc k) = false

unfoldable pub listbox_select_single : Listbox → ℤ → Listbox
listbox_select_single lb row =
    let cleared = listbox_clear_selection lb in
    if in_rows lb row
    then record cleared { selected = set cleared.selected (pos_part row) 1; anchor_row = row }
    else cleared

unfoldable pub listbox_toggle : Listbox → ℤ → Listbox
listbox_toggle lb row =
    let r = pos_part row in
    if not (in_rows lb row) then lb else record lb {
      selected = set lb.selected r (if get_or lb.selected r 0 == 0 then 1 else 0);
      anchor_row = row;
    }

-- The rows from the anchor to `row`, in either direction.
unfoldable pub listbox_range_select : Listbox → ℤ → Listbox
listbox_range_select lb row =
    let anchor = pos_part lb.anchor_row in
    let r = pos_part row in
    let lo = if ltb anchor r then anchor else r in
    let hi = if ltb anchor r then r else anchor in
    let cleared = listbox_clear_selection lb in
    if not (in_rows lb row)
    then lb
    else if ltb_ℤ lb.anchor_row (pos 0)
    then listbox_select_single lb row
    else record cleared { selected = fill cleared.selected lo (hi + 1 - lo) 1 }

-- `top` never becomes negative, so the last test of the source changes nothing.
unfoldable pub listbox_ensure_visible : Listbox → ℤ → Listbox
listbox_ensure_visible lb row =
    let visible = listbox_visible_rows lb in
    let r = pos_part row in
    if ltb_ℤ row (pos 0)
    then lb
    else if ltb r lb.top
    then record lb { top = r }
    else if leb (lb.top + visible) r
    then record lb { top = r + 1 - visible }
    else lb
