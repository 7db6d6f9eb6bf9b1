-- ===== src/Wm/Tiling.antt =====
-- Where the tiling of gui/wm.c puts the windows.
use native.Mathlib.Nat.{
  mul-le-mul_right, mul-div-le, le-div_iff_mul-le, div-mul-le_self, mod-lt, le-mul_of_pos_right,
}
use kernel_basic.Prelude.{
  ℕ, zero, suc, ◌+◌, ◌-◌, ◌*◌, ◌/◌, ◌%◌, ◌≤◌, ◌<◌, ◌≡◌, ltb, if_ind, arith, List, [], ◌∷◌, refl,
  ◌==◌, if◌then◌else◌, true,
}
use kernel_basic.Prelude.Int.{pos, ◌+ℤ◌, ◌≤ℤ◌, +ℤ_parts}
use kernel_basic.Mouse.{screen_w}
use kernel_basic.Wm.{Window, Wm, is_minimized}
use kernel_basic.Wm.Layout.{
  tile_from, wm_tile, tile_fields, count_visible, at_least, desktop_h, tile_cols,
}

-- The loop that looks for the number of columns.
tile_cols-square :
    (fuel cols count : ℕ)
    → count ≤ fuel + cols
    → 1 ≤ cols
    → count ≤ tile_cols fuel cols count * tile_cols fuel cols count
unfolding tile_cols
tile_cols-square zero cols count h o = omega (arith, h, le-mul_of_pos_right {m = cols} cols o)
tile_cols-square (suc fuel) cols count h o =
    let m = tile_cols fuel (cols + 1) count in
    if_ind (λ c. count ≤ c * c) (ltb (cols * cols) count)
      (λ _. tile_cols-square fuel (cols + 1) count (omega (arith, h)) (omega arith))
      (λ e. ground (arith, e))

tile_cols-positive : (fuel cols count : ℕ) → 1 ≤ cols → 1 ≤ tile_cols fuel cols count
unfolding tile_cols
tile_cols-positive zero cols count o = o
tile_cols-positive (suc fuel) cols count o =
    if_ind (λ c. 1 ≤ c) (ltb (cols * cols) count)
      (λ _. tile_cols-positive fuel (cols + 1) count (omega arith)) (λ _. o)

-- Cell `i` of the `n` that a room is cut into.
cell-fits : (i n room : ℕ) → i < n → i * (room / n) + room / n ≤ room
cell-fits i n room h =
    omega
      (arith, mul-le-mul_right {m = i + 1} {n = n} (room / n) (omega (arith, h)), mul-div-le room n)

row-lt : (idx count cols : ℕ) → idx < count → 1 ≤ cols → idx / cols < (count + cols - 1) / cols
row-lt idx count cols h o =
    (le-div_iff_mul-le {k = cols} {x = suc (idx / cols)} {y = count + cols - 1} o).1
      (omega (arith, div-mul-le_self idx cols, h, o))

-- The grid: `wm_tile`'s columns and rows for a number of windows.
abbrev pub grid_cols : (count : ℕ) → ℕ
grid_cols count = tile_cols count 1 count

abbrev pub grid_rows : (count : ℕ) → ℕ
grid_rows count = (count + grid_cols count - 1) / grid_cols count

-- What tiling leaves of a list: the minimized windows as they were, and each other one `v` as the
-- former window `w` in cell `k` of the grid, as large as the cell or as its minimum.
abbrev InCell : (cols cell_w cell_h k : ℕ) → Window → Window → Type 0
InCell cols cell_w cell_h k w v =
    (v.id ≡ w.id)
    × (v.rect.x ≡ pos (k % cols * cell_w))
    × (v.rect.y ≡ pos (k / cols * cell_h))
    × (v.rect.x +ℤ pos cell_w ≤ℤ pos screen_w)
    × (v.rect.y +ℤ pos cell_h ≤ℤ pos desktop_h)
    × (v.rect.w ≡ at_least (pos cell_w) w.min_w)
    × (v.rect.h ≡ at_least (pos cell_h) w.min_h)

-- The visible windows take the cells one after the other, from cell `k` on.
abbrev pub Tiled : (cols cell_w cell_h k : ℕ) → List Window → List Window → Type 0
Tiled cols cell_w cell_h k [] [] = Unit
Tiled cols cell_w cell_h k (w ∷ ws) (v ∷ vs) =
    if is_minimized w.state
    then (v ≡ w) × Tiled cols cell_w cell_h k ws vs
    else InCell cols cell_w cell_h k w v × Tiled cols cell_w cell_h (k + 1) ws vs
Tiled cols cell_w cell_h k _ _ = ⊥

cell-InCell :
    (idx cols rows : ℕ) (w : Window)
    → 1 ≤ cols
    → idx / cols < rows
    → InCell cols
        (screen_w / cols)
        (desktop_h / rows)
        idx
        w
        (tile_fields (idx % cols) (idx / cols) (screen_w / cols) (desktop_h / rows) w)
cell-InCell idx cols rows w o h = (
  refl,
  refl,
  refl,
  omega (
    arith,
    +ℤ_parts (pos (idx % cols * (screen_w / cols))) (pos (screen_w / cols)),
    cell-fits (idx % cols) cols screen_w (mod-lt idx o),
  ),
  omega (
    arith,
    +ℤ_parts (pos (idx / cols * (desktop_h / rows))) (pos (desktop_h / rows)),
    cell-fits (idx / cols) rows desktop_h h,
  ),
  refl,
  refl,
)

tile_from-Tiled :
    (idx cols rows : ℕ) (ws : List Window)
    → 1 ≤ cols
    → ((i : ℕ) → i < idx + count_visible ws → i / cols < rows)
    → Tiled cols
        (screen_w / cols)
        (desktop_h / rows)
        idx
        ws
        (tile_from idx cols (screen_w / cols) (desktop_h / rows) ws)
unfolding tile_from count_visible
tile_from-Tiled idx cols rows [] o h = tt
tile_from-Tiled idx cols rows (w ∷ ws) o h =
    let cw = screen_w / cols in
    let ch = desktop_h / rows in
    if_ind (Tiled cols cw ch idx (w ∷ ws)) (is_minimized w.state)
      (λ e. rw e (refl, tile_from-Tiled idx cols rows ws o (λ i l. h i (ground (arith, e, l)))))
      (λ e. rw e (
        cell-InCell idx cols rows w o (h idx (ground (arith, e))),
        tile_from-Tiled (idx + 1) cols rows ws o (λ i l. h i (ground (arith, e, l))),
      ))

none_visible :
    (cols cell_w cell_h k : ℕ) (ws : List Window)
    → count_visible ws ≡ 0
    → Tiled cols cell_w cell_h k ws ws
unfolding count_visible
none_visible cols cell_w cell_h k [] h = tt
none_visible cols cell_w cell_h k (w ∷ ws) h =
    let all : is_minimized w.state ≡ true = ground (arith, h) in
    rw all (refl, none_visible cols cell_w cell_h k ws (ground (arith, h, all)))

-- Tiling leaves the minimized windows as they were and puts the other windows, in their order in
-- the list, at the cells 0, 1, 2 and so on of the grid, row by row: each at its cell's origin, in
-- a cell that lies within the screen and above the task bar, as wide and as high as the cell or,
-- where that is more, as the window's minimum; the grid has no fewer columns squared than there
-- are windows to place.
pub wm_tile-Tiled :
    (s : Wm)
    → let count = count_visible s.windows in
      let cols = grid_cols count in
      (count ≤ cols * cols)
      × Tiled cols (screen_w / cols) (desktop_h / grid_rows count) 0 s.windows (wm_tile s).windows
unfolding wm_tile
wm_tile-Tiled s =
    let count = count_visible s.windows in
    let cols = grid_cols count in
    let rows = grid_rows count in
    let o = tile_cols-positive count 1 count (omega arith) in
    (
      tile_cols-square count 1 count (omega arith) (omega arith),
      if_ind (λ (t : Wm). Tiled cols (screen_w / cols) (desktop_h / rows) 0 s.windows t.windows)
          (count == 0)
          (λ e.
            none_visible cols (screen_w / cols) (desktop_h / rows) 0 s.windows (ground (arith, e)))
          (λ _.
            tile_from-Tiled 0 cols rows s.windows o
              (λ i l. row-lt i count cols (omega (arith, l)) o)),
    )
