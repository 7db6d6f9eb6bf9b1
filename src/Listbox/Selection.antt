-- ===== src/Listbox/Selection.antt =====
-- The selection and the scrolling of gui/listbox.c.
use kernel_basic.Prelude.{
  ℕ, ◌+◌, ◌-◌, ◌≤◌, ◌<◌, ◌≡◌, ◌≢◌, refl, ap, ◌∙◌, Bool, true, ◌&&◌, ◌||◌, ltb, leb, ◌==◌,
  if◌then◌else◌, arith, length, get_or, if_ind,
}
use kernel_basic.Prelude.Int.{ℤ, pos, pos_part, ltb_ℤ, ◌/ℤ◌}
use kernel_basic.Prelude.Memory.{fill, length-fill, get_or-fill, get_or-set}
use kernel_basic.Listbox.{
  font_h, Listbox, listbox_max_rows, listbox_visible_rows, in_rows, listbox_clear_selection,
  listbox_select_single, listbox_toggle, listbox_range_select, listbox_ensure_visible,
}

-- The box shows at most as many rows as its array holds, and the anchor is one of the array's rows.
pub record IsValid (lb : Listbox) : Type 0 where
  pub storage : length lb.selected ≡ listbox_max_rows
  pub count_in : lb.count ≤ listbox_max_rows
  pub anchor_in : pos_part lb.anchor_row < listbox_max_rows

-- Row `i` is selected.
abbrev pub is_selected : Listbox → ℕ → Bool
is_selected lb i = get_or lb.selected i 0 == 1

cleared_cell :
    (lb : Listbox) (i : ℕ)
    → length lb.selected ≡ listbox_max_rows
    → i < listbox_max_rows
    → get_or (fill lb.selected 0 listbox_max_rows 0) i 0 ≡ 0
cleared_cell lb i h k = ground (arith, get_or-fill lb.selected 0 listbox_max_rows 0 i)

-- A single click selects exactly the clicked row.
pub select_single_exact :
    (lb : Listbox) (r i : ℕ)
    → IsValid lb
    → r < lb.count
    → i < listbox_max_rows
    → is_selected (listbox_select_single lb (pos r)) i ≡ (i == r)
unfolding listbox_select_single listbox_clear_selection in_rows
select_single_exact lb r i v h k = ground (
  arith,
  cleared_cell lb i,
  length-fill lb.selected 0 listbox_max_rows 0,
  get_or-set (fill lb.selected 0 listbox_max_rows 0) r i 1,
)

-- A click with Ctrl flips the clicked row and leaves every other row as it was.
pub toggle_exact :
    (lb : Listbox) (r i : ℕ)
    → IsValid lb
    → r < lb.count
    → i ≢ r
    → (is_selected (listbox_toggle lb (pos r)) r ≡ (get_or lb.selected r 0 == 0))
      × (is_selected (listbox_toggle lb (pos r)) i ≡ is_selected lb i)
unfolding listbox_toggle in_rows
toggle_exact lb r i v h n =
    let flipped : ℕ = if get_or lb.selected r 0 == 0 then 1 else 0 in
    ground (arith, get_or-set lb.selected r r flipped, get_or-set lb.selected r i flipped)

-- In a valid list box with an anchor row, a click with Shift on a row of the list selects exactly
-- the rows between the anchor and the clicked row, both included, and keeps the anchor.
pub range_select_exact :
    (lb : Listbox) (anchor r i : ℕ)
    → IsValid lb
    → lb.anchor_row ≡ pos anchor
    → r < lb.count
    → i < listbox_max_rows
    → (is_selected (listbox_range_select lb (pos r)) i
        ≡ (leb anchor i && leb i r || leb r i && leb i anchor))
      × ((listbox_range_select lb (pos r)).anchor_row ≡ pos anchor)
unfolding listbox_range_select listbox_clear_selection in_rows
range_select_exact lb anchor r i v e h k =
    let lo = if ltb anchor r then anchor else r in
    let hi = if ltb anchor r then r else anchor in
    let cleared = fill lb.selected 0 listbox_max_rows 0 in
    let size : length cleared ≡ listbox_max_rows = length-fill _ _ _ _ ∙ v.storage in
    let last : pos_part lb.anchor_row ≡ anchor = ap pos_part e in
    (ground (arith, cleared_cell lb i, get_or-fill cleared lo (hi + 1 - lo) 1 i), ground arith)

pos_part_pos : (n : ℤ) → ltb_ℤ (pos 0) n ≡ true → 0 < pos_part n
pos_part_pos n h = ground arith

visible_pos : (lb : Listbox) → 0 < listbox_visible_rows lb
unfolding listbox_visible_rows
visible_pos lb =
    let n = lb.rect.h /ℤ pos font_h in
    if_ind (λ (m : ℕ). 0 < m) (ltb_ℤ (pos 0) n) {x = pos_part n} {y = 1} (λ h. pos_part_pos n h)
      (λ _. omega arith)

visible-top :
    (lb : Listbox) (t : ℕ) → listbox_visible_rows (record lb { top = t }) ≡ listbox_visible_rows lb
unfolding listbox_visible_rows
visible-top lb t = refl

-- After listbox_ensure_visible the given row is one of those on screen.
pub ensure_visible_shows :
    (lb : Listbox) (r : ℕ)
    → let lb' = listbox_ensure_visible lb (pos r) in
      (lb'.top ≤ r) × (r < lb'.top + listbox_visible_rows lb')
unfolding listbox_ensure_visible
ensure_visible_shows lb r =
    let n = listbox_visible_rows lb in
    ground (arith, visible_pos lb, visible-top lb r, visible-top lb (r + 1 - n))
