-- ===== src/Menubar.antt =====
-- gui/menubar.c: the menu bar, without its drawing. An index of -1 is `none`.
pub mod Hits
use kernel_basic.Prelude.{
  ℕ, ◌+◌, ◌*◌, Bool, true, false, not, ◌&&◌, ◌||◌, List, [], ◌∷◌, Option, none, some, get_elem?,
  if◌then◌else◌, ltb, length, take,
}
use kernel_basic.Prelude.Int.{ℤ, pos, ◌+ℤ◌, ◌-ℤ◌, ◌/ℤ◌, ltb_ℤ, leb_ℤ, pos_part}
use kernel_basic.Rect.{Rect, rect_contains_point}
use kernel_basic.Str.{strlen}
use kernel_basic.Taskbar.{font_w}

abbrev pub menubar_item_h : ℕ
menubar_item_h = 16

abbrev pub menubar_label_pad : ℕ
menubar_label_pad = 16

-- `menu_item_t`
pub record MenuItem : Type 0 where
  pub label : List ℕ
  pub id : ℤ
  pub enabled : Bool

-- `menu_entry_t`; the list of items has its length.
pub record MenuEntry : Type 0 where
  pub label : List ℕ
  pub items : List MenuItem

-- `menubar_st`
pub record Menubar : Type 0 where
  pub rect : Rect
  pub entries : List MenuEntry
  pub open_index : Option ℕ
  pub hover_item : Option ℕ

unfoldable pub menubar_init : Rect → List MenuEntry → Menubar
menubar_init rect entries = record {
  rect = rect;
  entries = entries;
  open_index = none;
  hover_item = none;
}

unfoldable pub menubar_top_w : MenuEntry → ℕ
menubar_top_w e = strlen e.label * font_w + menubar_label_pad

-- The width of the entries before an index.
unfoldable pub tops_w : List MenuEntry → ℕ
unfolding menubar_top_w
tops_w [] = 0
tops_w (e ∷ es) = menubar_top_w e + tops_w es

unfoldable pub menubar_top_x : Menubar → (index : ℕ) → ℤ
unfolding tops_w
menubar_top_x mb index = mb.rect.x +ℤ pos (tops_w (take index mb.entries))

unfoldable pub max_label : List MenuItem → ℕ → ℕ
max_label [] m = m
max_label (i ∷ is) m = max_label is (if ltb m (strlen i.label) then strlen i.label else m)

-- The rectangle below the entry `e` at `index`.
unfoldable pub menubar_dropdown_rect : Menubar → (index : ℕ) → MenuEntry → Rect
unfolding max_label menubar_top_x
menubar_dropdown_rect mb index e =
    let w = pos (max_label e.items 0 * font_w + 16) in
    let x = menubar_top_x mb index in
    let right = mb.rect.x +ℤ mb.rect.w in
    let x = if ltb_ℤ right (x +ℤ w) then right -ℤ w else x in
    record {
      x = if ltb_ℤ x mb.rect.x then mb.rect.x else x;
      y = mb.rect.y +ℤ mb.rect.h;
      w = w;
      h = pos (length e.items * menubar_item_h);
    }

-- The entries from index `i` on, the first of them at `cx`.
unfoldable pub hit_top_from : (i : ℕ) → (cx : ℤ) → List MenuEntry → (x : ℤ) → Option ℕ
unfolding menubar_top_w
hit_top_from i cx [] x = none
hit_top_from i cx (e ∷ es) x =
    let w = pos (menubar_top_w e) in
    if leb_ℤ cx x && ltb_ℤ x (cx +ℤ w) then some i else hit_top_from (i + 1) (cx +ℤ w) es x

unfoldable pub menubar_hit_top : Menubar → (x y : ℤ) → Option ℕ
unfolding hit_top_from
menubar_hit_top mb x y =
    if ltb_ℤ y mb.rect.y || leb_ℤ (mb.rect.y +ℤ mb.rect.h) y
    then none
    else hit_top_from 0 mb.rect.x mb.entries x

-- The row of an entry that is dropped down.
unfoldable pub dropdown_row : Menubar → (index : ℕ) → (x y : ℤ) → Option MenuEntry → Option ℕ
unfolding menubar_dropdown_rect
dropdown_row mb index x y none = none
dropdown_row mb index x y (some e) =
    let dd = menubar_dropdown_rect mb index e in
    let row = (y -ℤ dd.y) /ℤ pos menubar_item_h in
    if not (rect_contains_point dd x y)
    then none
    else if ltb_ℤ row (pos 0) || leb_ℤ (pos (length e.items)) row
    then none
    else some (pos_part row)

-- The entry that is open. An index past the table, which the source would read, has none.
abbrev pub open_entry : Menubar → Option ℕ → Option MenuEntry
open_entry mb none = none
open_entry mb (some index) = get_elem? mb.entries index

unfoldable pub menubar_dropdown_row_at : Menubar → (x y : ℤ) → Option ℕ
unfolding dropdown_row
menubar_dropdown_row_at mb x y = elim mb.open_index [
  | none ↦ none
  | some index ↦ dropdown_row mb index x y (get_elem? mb.entries index)
]

unfoldable pub menubar_track_hover : (x y : ℤ) → Menubar → Menubar
unfolding menubar_dropdown_row_at
menubar_track_hover x y mb = record mb { hover_item = menubar_dropdown_row_at mb x y }

-- The command of an item that is enabled.
unfoldable pub item_command : Option MenuItem → Option ℤ
item_command none = none
item_command (some i) = if i.enabled then some i.id else none

unfoldable pub item_at : Option MenuEntry → Option ℕ → Option MenuItem
item_at none row = none
item_at (some e) none = none
item_at (some e) (some row) = get_elem? e.items row

unfoldable pub menubar_hit_item : Menubar → (x y : ℤ) → Option ℤ
unfolding item_command item_at menubar_dropdown_row_at
menubar_hit_item mb x y =
    item_command (item_at (open_entry mb mb.open_index) (menubar_dropdown_row_at mb x y))

unfoldable pub menubar_open : (index : ℕ) → Menubar → Menubar
menubar_open index mb = record mb { open_index = some index; hover_item = none }

unfoldable pub menubar_close : Menubar → Menubar
menubar_close mb = record mb { open_index = none; hover_item = none }
