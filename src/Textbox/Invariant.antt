-- ===== src/Textbox/Invariant.antt =====
-- The well-formed text box of gui/textbox.c: the cursor and the grid.
use kernel_basic.Prelude.{
  ℕ, ◌+◌, ◌-◌, ◌*◌, ◌≤◌, ◌<◌, ◌≡◌, refl, ◌∙◌, List, [], ◌∷◌, leb, ltb, ltb→lt, if_ind, ◌==◌,
  if◌then◌else◌, inl, inr, Bool-cases, arith, length, get_or, set, length-set,
}
use kernel_basic.Prelude.Memory.{length-fill, get_or-fill, get_or-set}
use kernel_basic.Textbox.{
  Textbox, textbox_clear, scroll_rows, textbox_scroll, textbox_newline, put_cell, textbox_putc,
  textbox_puts,
}
use kernel_basic.Textbox.Grid.{
  IsGrid, cell-in, cell-ne-end, end-out-row, in-row, length-clear_rows, clear_rows-end,
  clear_rows-blank, length-scroll_rows, scroll_rows-end, scroll_rows-cell,
}

pub record IsValid (tb : Textbox) : Type 0 where
  pub grid : IsGrid tb
  pub row_in : tb.cursor_row < tb.rows
  pub col_in : tb.cursor_col ≤ tb.cols

-- `textbox_clear` makes a well-formed grid of any memory of the right size.
pub textbox_clear-IsValid :
    (tb : Textbox)
    → 0 < tb.cols
    → 0 < tb.rows
    → tb.stride ≡ tb.cols + 1
    → length tb.cells ≡ tb.rows * (tb.cols + 1)
    → IsValid (textbox_clear tb)
unfolding textbox_clear
textbox_clear-IsValid tb wide tall stride_is storage = record {
  grid = record {
    wide = wide;
    tall = tall;
    stride_is = stride_is;
    storage = rw stride_is (length-clear_rows tb.cols tb.rows 0 tb.cells ∙ storage);
    ends =
        λ r h. rw stride_is (ground (arith, clear_rows-end tb.cols tb.rows tb.rows 0 r tb.cells));
  };
  row_in = tall;
  col_in = omega arith;
}

pub set_cell-IsGrid :
    (tb : Textbox) (row col c : ℕ)
    → IsGrid tb
    → row < tb.rows
    → col < tb.cols
    → IsGrid (record tb { cells = set tb.cells (row * tb.stride + col) c })
set_cell-IsGrid tb row col c g h k = record {
  wide = g.wide;
  tall = g.tall;
  stride_is = g.stride_is;
  storage = length-set tb.cells (row * tb.stride + col) c ∙ g.storage;
  ends = λ r hr. rw g.stride_is (
      ground (
        arith,
        get_or-set tb.cells (row * (tb.cols + 1) + col) (r * (tb.cols + 1) + tb.cols) c,
        cell-in tb.cols tb.rows row col h,
        cell-ne-end tb.cols row r col k,
        g.ends r hr,
      ));
}

textbox_scroll-IsGrid : (tb : Textbox) → IsGrid tb → IsGrid (textbox_scroll tb)
unfolding textbox_scroll
textbox_scroll-IsGrid tb g =
    let n = tb.rows - 1 in
    let up = scroll_rows tb.cols (tb.cols + 1) n 0 tb.cells in
    let size : length up ≡ tb.rows * (tb.cols + 1) =
      length-scroll_rows tb.cols n 0 tb.cells ∙ g.storage in
    record {
      wide = g.wide;
      tall = g.tall;
      stride_is = g.stride_is;
      storage = rw g.stride_is (length-fill up (n * (tb.cols + 1)) tb.cols b' ' ∙ size);
      ends = λ r hr. rw g.stride_is (
          ground (
            arith,
            get_or-fill up (n * (tb.cols + 1)) tb.cols b' ' (r * (tb.cols + 1) + tb.cols),
            cell-in tb.cols tb.rows n tb.cols,
            end-out-row tb.cols r n,
            scroll_rows-end tb.cols tb.rows n 0 r tb.cells g.storage,
            g.ends r hr,
          ));
    }

-- Clearing keeps the grid's shape.
pub textbox_clear_shape :
    (tb : Textbox) → ((textbox_clear tb).cols ≡ tb.cols) × ((textbox_clear tb).rows ≡ tb.rows)
unfolding textbox_clear
textbox_clear_shape tb = (refl, refl)

-- The grid does not depend on the cursor.
pub move-IsGrid :
    (tb : Textbox) (row col : ℕ)
    → IsGrid tb
    → IsGrid (record tb { cursor_row = row; cursor_col = col })
move-IsGrid tb row col g = record {
  wide = g.wide;
  tall = g.tall;
  stride_is = g.stride_is;
  storage = g.storage;
  ends = g.ends;
}

textbox_newline-IsValid : (tb : Textbox) → IsValid tb → IsValid (textbox_newline tb)
unfolding textbox_newline
textbox_newline-IsValid tb v = elim (Bool-cases (leb tb.rows (tb.cursor_row + 1))) [
  | inl bottom ↦
      let moved = record tb { cursor_col = 0; cursor_row = tb.cursor_row + 1 } in
      let scrolled = textbox_scroll-IsGrid moved (move-IsGrid tb (tb.cursor_row + 1) 0 v.grid) in
      rw bottom (record {
        grid = move-IsGrid (textbox_scroll moved) (tb.rows - 1) 0 scrolled;
        row_in = omega arith;
        col_in = omega arith;
      })
  | inr room ↦ rw room (record {
    grid = move-IsGrid tb (tb.cursor_row + 1) 0 v.grid;
    row_in = ground arith;
    col_in = omega arith;
  })
]

newline-room :
    (tb : Textbox) → 0 < tb.cols → (textbox_newline tb).cursor_col < (textbox_newline tb).cols
unfolding textbox_newline
newline-room tb h = ground arith

put_cell-IsValid :
    (tb : Textbox) (c : ℕ) → IsValid tb → tb.cursor_col < tb.cols → IsValid (put_cell tb c)
unfolding put_cell
put_cell-IsValid tb c v h = record {
  grid =
      move-IsGrid (record tb { cells = set tb.cells (tb.cursor_row * tb.stride + tb.cursor_col) c })
        tb.cursor_row (tb.cursor_col + 1)
        (set_cell-IsGrid tb tb.cursor_row tb.cursor_col c v.grid v.row_in h);
  row_in = v.row_in;
  col_in = omega arith;
}

back-IsValid :
    (tb : Textbox)
    → IsValid tb
    → 0 < tb.cursor_col
    → IsValid (record tb {
      cells = set tb.cells (tb.cursor_row * tb.stride + (tb.cursor_col - 1)) b' ';
      cursor_col = tb.cursor_col - 1;
    })
back-IsValid tb v h = record {
  grid =
      move-IsGrid
        (record tb { cells = set tb.cells (tb.cursor_row * tb.stride + (tb.cursor_col - 1)) b' ' })
        tb.cursor_row (tb.cursor_col - 1)
        (set_cell-IsGrid tb tb.cursor_row (tb.cursor_col - 1) b' ' v.grid v.row_in (omega arith));
  row_in = v.row_in;
  col_in = omega arith;
}

-- Every character keeps the grid well formed: line breaks, backspaces, wraps and scrolls included.
pub textbox_putc-IsValid : {tb : Textbox} (c : ℕ) → IsValid tb → IsValid (textbox_putc tb c)
unfolding textbox_putc
textbox_putc-IsValid {tb} c v =
    if_ind IsValid (c == 10) (λ _. textbox_newline-IsValid tb v)
      λ _.
        if_ind IsValid (c == 8)
          (λ _.
            if_ind IsValid (ltb 0 tb.cursor_col) (λ h. back-IsValid tb v (ltb→lt _ _ h)) (λ _. v))
          λ _.
            if_ind (λ t. IsValid (put_cell t c)) (leb tb.cols tb.cursor_col)
              (λ _.
                put_cell-IsValid (textbox_newline tb) c (textbox_newline-IsValid tb v)
                  (newline-room tb v.grid.wide))
              (λ h. put_cell-IsValid tb c v (ground arith))

-- Printing any string leaves a well-formed text box well formed: the grid keeps its shape and its
-- rows their final NULs, and the cursor stays in it, line breaks, backspaces, wraps and scrolls
-- included.
pub textbox_puts-IsValid : (s : List ℕ) {tb : Textbox} → IsValid tb → IsValid (textbox_puts tb s)
unfolding textbox_puts
textbox_puts-IsValid [] v = v
textbox_puts-IsValid (c ∷ s) {tb} v =
    if_ind IsValid (c == 0) (λ _. v)
      (λ _. textbox_puts-IsValid s {tb = textbox_putc tb c} (textbox_putc-IsValid c v))

-- After `textbox_clear` every cell of the grid reads as a space.
pub textbox_clear-blank :
    {tb : Textbox} (r c : ℕ)
    → IsGrid tb
    → r < tb.rows
    → c < tb.cols
    → get_or (textbox_clear tb).cells (r * tb.stride + c) 0 ≡ b' '
unfolding textbox_clear
textbox_clear-blank {tb} r c g h k =
    rw g.stride_is
      (ground (arith, clear_rows-blank tb.cols tb.rows tb.rows 0 r c tb.cells g.storage))

-- On a well-formed grid a scroll makes each row show the text of the row below it, and the last
-- row blank.
pub scroll_cells :
    {tb : Textbox} (r c : ℕ)
    → IsGrid tb
    → r < tb.rows
    → c < tb.cols
    → get_or (textbox_scroll tb).cells (r * tb.stride + c) 0
      ≡ (if ltb (r + 1) tb.rows then get_or tb.cells ((r + 1) * tb.stride + c) 0 else b' ')
unfolding textbox_scroll
scroll_cells {tb} r c g h k =
    let n = tb.rows - 1 in
    let up = scroll_rows tb.cols (tb.cols + 1) n 0 tb.cells in
    let size : length up ≡ tb.rows * (tb.cols + 1) =
      length-scroll_rows tb.cols n 0 tb.cells ∙ g.storage in
    rw g.stride_is (
      ground (
        arith,
        get_or-fill up (n * (tb.cols + 1)) tb.cols b' ' (r * (tb.cols + 1) + c),
        cell-in tb.cols tb.rows n tb.cols,
        in-row tb.cols r n c k,
        scroll_rows-cell tb.cols tb.rows n 0 r c tb.cells g.storage,
      ))
