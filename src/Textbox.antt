-- ===== src/Textbox.antt =====
-- gui/textbox.c and include/textbox.h: a fixed grid of characters with a cursor.
-- `rows * stride` bytes stand row after row, and the last byte of each row is NUL. Positions are
-- never negative, so they are natural numbers. Drawing is left out.
pub mod Grid
pub mod Invariant
use kernel_basic.Prelude.{
  ℕ, zero, suc, ◌+◌, ◌-◌, ◌*◌, List, [], ◌∷◌, ltb, leb, ◌==◌, if◌then◌else◌, get_or, set,
}
use kernel_basic.Prelude.Memory.{fill, copy_down}

-- `textbox_st`
pub record Textbox : Type 0 where
  pub cols : ℕ
  pub rows : ℕ
  pub stride : ℕ
  pub cells : List ℕ
  pub cursor_row : ℕ
  pub cursor_col : ℕ

-- The rows `r`, `r + 1`, … of `textbox_clear`, `n` of them.
unfoldable pub clear_rows : (cols stride : ℕ) → (n r : ℕ) → List ℕ → List ℕ
clear_rows cols stride zero r cells = cells
clear_rows cols stride (suc n) r cells =
    clear_rows cols stride n (r + 1) (set (fill cells (r * stride) cols b' ') (r * stride + cols) 0)

unfoldable pub textbox_clear : Textbox → Textbox
unfolding clear_rows
textbox_clear tb = record tb {
  cells = clear_rows tb.cols tb.stride tb.rows 0 tb.cells;
  cursor_row = 0;
  cursor_col = 0;
}

-- `memory` is the block of `rows * stride` bytes that `kmalloc` returns, whatever it holds.
unfoldable pub textbox_init : ℕ → ℕ → List ℕ → Textbox
unfolding textbox_clear
textbox_init cols rows memory = textbox_clear (record {
  cols = cols;
  rows = rows;
  stride = cols + 1;
  cells = memory;
  cursor_row = 0;
  cursor_col = 0;
})

-- Each of the rows `r`, `r + 1`, …, `n` of them, takes the text of the row below it.
unfoldable pub scroll_rows : (cols stride : ℕ) → (n r : ℕ) → List ℕ → List ℕ
scroll_rows cols stride zero r cells = cells
scroll_rows cols stride (suc n) r cells =
    scroll_rows cols stride n (r + 1) (copy_down cells (r * stride) ((r + 1) * stride) cols)

unfoldable pub textbox_scroll : Textbox → Textbox
unfolding scroll_rows
textbox_scroll tb = record tb {
  cells =
      fill (scroll_rows tb.cols tb.stride (tb.rows - 1) 0 tb.cells) ((tb.rows - 1) * tb.stride)
        tb.cols b' ';
}

unfoldable pub textbox_newline : Textbox → Textbox
unfolding textbox_scroll
textbox_newline tb =
    let moved = record tb { cursor_col = 0; cursor_row = tb.cursor_row + 1 } in
    if leb moved.rows moved.cursor_row
    then record (textbox_scroll moved) { cursor_row = moved.rows - 1 }
    else moved

-- The write at the cursor that ends `textbox_putc`.
unfoldable pub put_cell : Textbox → ℕ → Textbox
put_cell tb c = record tb {
  cells = set tb.cells (tb.cursor_row * tb.stride + tb.cursor_col) c;
  cursor_col = tb.cursor_col + 1;
}

-- `'\b'` is 8 and `'\n'` is 10.
unfoldable pub textbox_putc : Textbox → ℕ → Textbox
textbox_putc tb c =
    if c == 10
    then textbox_newline tb
    else if c == 8
    then if ltb 0 tb.cursor_col
      then record tb {
        cells = set tb.cells (tb.cursor_row * tb.stride + (tb.cursor_col - 1)) b' ';
        cursor_col = tb.cursor_col - 1;
      }
      else tb
    else put_cell (if leb tb.cols tb.cursor_col then textbox_newline tb else tb) c

-- `s` is the bytes of a C string; the loop ends at its NUL.
unfoldable pub textbox_puts : Textbox → List ℕ → Textbox
textbox_puts tb [] = tb
textbox_puts tb (c ∷ s) = if c == 0 then tb else textbox_puts (textbox_putc tb c) s
