-- ===== src/Editbuf.antt =====
-- gui/editbuf.c and include/editbuf.h: the flat text buffer behind the editor.
-- `data` is the block of `cap` bytes, of which the first `len` are the document. Offsets are natural
-- numbers, and `goal_col` is an integer, -1 for none. Debug output on the serial line is left out.
pub mod Text
pub mod Lines
pub mod Typing
pub mod Render
use kernel_basic.Prelude.{
  ℕ, zero, suc, ◌+◌, ◌-◌, ◌*◌, Bool, true, false, ◌&&◌, List, [], ◌∷◌, ltb, leb, ◌==◌,
  if◌then◌else◌, get_or, set, min,
}
use kernel_basic.Prelude.Int.{ℤ, pos, negsuc, pos_part, ltb_ℤ, ◌-ℤ◌}
use kernel_basic.Prelude.Memory.{copy, copy_down, shift_up}
use kernel_basic.Keys.{key_left, key_right, key_up, key_down, key_delete, key_home, key_end}
use kernel_basic.Textbox.{Textbox, textbox_clear}

-- `editbuf_st`
pub record Editbuf : Type 0 where
  pub bytes : List ℕ
  pub len : ℕ
  pub cap : ℕ
  pub cursor : ℕ
  pub goal_col : ℤ
  pub top_line : ℕ
  pub dirty : Bool

abbrev pub no_goal : ℤ
no_goal = negsuc 0

-- `memory` is what `kmalloc` returns for `capacity` bytes.
unfoldable pub editbuf_init : List ℕ → ℕ → Editbuf
editbuf_init memory capacity = record {
  bytes = memory;
  cap = capacity;
  len = 0;
  cursor = 0;
  goal_col = no_goal;
  top_line = 0;
  dirty = false;
}

unfoldable pub editbuf_load : Editbuf → List ℕ → ℕ → Editbuf
editbuf_load eb src len =
    let n = if ltb eb.cap len then eb.cap else len in
    record eb {
      bytes = copy eb.bytes 0 src 0 n;
      len = n;
      cursor = 0;
      goal_col = no_goal;
      top_line = 0;
      dirty = false;
    }

-- `while (i > 0 && data[i - 1] != '\n') i--;`
unfoldable pub line_start : List ℕ → ℕ → ℕ
line_start d zero = 0
line_start d (suc i) = if get_or d i 0 == 10 then suc i else line_start d i

-- `while (i < len && data[i] != '\n') i++;` for the `n = len - i` rounds that it can make
unfoldable pub line_end_loop : List ℕ → (n i : ℕ) → ℕ
line_end_loop d zero i = i
line_end_loop d (suc n) i = if get_or d i 0 == 10 then i else line_end_loop d n (i + 1)

unfoldable pub line_end : Editbuf → ℕ → ℕ
unfolding line_end_loop
line_end eb off = line_end_loop eb.bytes (eb.len - off) off

unfoldable pub eb_insert : Editbuf → ℕ → Editbuf
eb_insert eb c = if leb eb.cap eb.len then eb else record eb {
  bytes = set (shift_up eb.bytes eb.cursor (eb.len - eb.cursor)) eb.cursor c;
  cursor = eb.cursor + 1;
  len = eb.len + 1;
}

-- Called only with `at` inside the document, so `len` is not 0 here.
unfoldable pub eb_erase : Editbuf → ℕ → Editbuf
eb_erase eb at = record eb {
  bytes = copy_down eb.bytes at (at + 1) (eb.len - 1 - at);
  len = eb.len - 1;
}

-- The column that `eb_up` and `eb_down` aim at.
unfoldable pub aim : Editbuf → ℕ
aim eb =
    if ltb_ℤ eb.goal_col (pos 0)
    then eb.cursor - line_start eb.bytes eb.cursor
    else pos_part eb.goal_col

unfoldable pub eb_up : Editbuf → Editbuf
eb_up eb =
    let goal = aim eb in
    let ls = line_start eb.bytes eb.cursor in
    let prev_start = line_start eb.bytes (ls - 1) in
    let prev_len = ls - 1 - prev_start in
    if ls == 0 then record eb { goal_col = pos goal } else record eb {
      goal_col = pos goal;
      cursor = prev_start + (if ltb goal prev_len then goal else prev_len);
    }

unfoldable pub eb_down : Editbuf → Editbuf
eb_down eb =
    let goal = aim eb in
    let le = line_end eb eb.cursor in
    let next_start = le + 1 in
    let next_len = line_end eb next_start - next_start in
    if leb eb.len le then record eb { goal_col = pos goal } else record eb {
      goal_col = pos goal;
      cursor = next_start + (if ltb goal next_len then goal else next_len);
    }

-- What a change of the document sets besides.
abbrev pub touched : Editbuf → Editbuf × Bool
touched eb = (record eb { dirty = true; goal_col = no_goal }, true)

-- The cases of `editbuf_key` that change the document, and its default.
unfoldable pub edit_key : Editbuf → ℕ → Editbuf × Bool
edit_key eb ascii =
    if ascii == key_delete
    then (if ltb eb.cursor eb.len
        then touched (eb_erase eb eb.cursor)
        else (record eb { goal_col = no_goal }, false))
    else if ascii == 8
    then (if ltb 0 eb.cursor
        then touched (eb_erase (record eb { cursor = eb.cursor - 1 }) (eb.cursor - 1))
        else (record eb { goal_col = no_goal }, false))
    else if ascii == 10
    then touched (eb_insert eb 10)
    else if ascii == 9
    then touched (eb_insert (eb_insert (eb_insert (eb_insert eb b' ') b' ') b' ') b' ')
    else if leb 32 ascii && ltb ascii 127
    then touched (eb_insert eb ascii)
    else (eb, false)

-- The new buffer, and the result: 1 where the function says that the contents changed.
unfoldable pub editbuf_key : Editbuf → ℕ → Editbuf × Bool
editbuf_key eb ascii =
    if ascii == key_left
    then (
      record eb {
        cursor = if ltb 0 eb.cursor then eb.cursor - 1 else eb.cursor;
        goal_col = no_goal;
      },
      false,
    )
    else if ascii == key_right
    then (
      record eb {
        cursor = if ltb eb.cursor eb.len then eb.cursor + 1 else eb.cursor;
        goal_col = no_goal;
      },
      false,
    )
    else if ascii == key_up
    then (eb_up eb, false)
    else if ascii == key_down
    then (eb_down eb, false)
    else if ascii == key_home
    then (record eb { cursor = line_start eb.bytes eb.cursor; goal_col = no_goal }, false)
    else if ascii == key_end
    then (record eb { cursor = line_end eb eb.cursor; goal_col = no_goal }, false)
    else edit_key eb ascii

-- The scan for the cursor's line, and for where that line begins: `n` rounds from offset `i` on.
unfoldable pub cursor_line : List ℕ → (n i line begin : ℕ) → ℕ × ℕ
cursor_line d zero i line begin = (line, begin)
cursor_line d (suc n) i line begin =
    cursor_line d n (i + 1) (if get_or d i 0 == 10 then line + 1 else line)
      (if get_or d i 0 == 10 then i + 1 else begin)

-- The offset at which line `top` begins, with `n` bytes left.
unfoldable pub skip_lines : List ℕ → (top : ℕ) → (n offset line : ℕ) → ℕ
skip_lines d top zero offset line = offset
skip_lines d top (suc n) offset line =
    let rest =
      skip_lines d top n (offset + 1) (if get_or d offset 0 == 10 then line + 1 else line) in
    if ltb line top then rest else offset

-- The loop that draws the document from `offset` on, with `n` bytes left.
unfoldable pub render_loop :
    (cols rows stride : ℕ) → List ℕ → (n offset row col : ℕ) → List ℕ → List ℕ
render_loop cols rows stride d zero offset row col cells = cells
render_loop cols rows stride d (suc n) offset row col cells =
    let c = get_or d offset 0 in
    let rest =
      render_loop cols rows stride d n (offset + 1) (if c == 10 then row + 1 else row)
        (if c == 10 then 0 else col + 1)
        (if c == 10
          then cells
          else if ltb col cols
          then set cells (row * stride + col) c
          else cells) in
    if ltb row rows then rest else cells

-- The first line to show, so that the cursor's line is in view. It is never negative, so the last
-- test of the source changes nothing.
unfoldable pub scroll_to : (cur_line top rows : ℕ) → ℕ
scroll_to cur_line top rows =
    let top' = if ltb cur_line top then cur_line else top in
    if leb (top' + rows) cur_line then cur_line + 1 - rows else top'

unfoldable pub editbuf_render : Editbuf → Textbox → Editbuf × Textbox
editbuf_render eb tb =
    let (cur_line, line_begin) = cursor_line eb.bytes eb.cursor 0 0 0 in
    let cur_col = eb.cursor - line_begin in
    let top = scroll_to cur_line eb.top_line tb.rows in
    let blank = textbox_clear tb in
    let offset = skip_lines eb.bytes top eb.len 0 0 in
    (
      record eb { top_line = top },
      record blank {
        cells =
            render_loop blank.cols blank.rows blank.stride eb.bytes (eb.len - offset) offset 0 0
              blank.cells;
        cursor_row = cur_line - top;
        cursor_col = if ltb cur_col tb.cols then cur_col else tb.cols - 1;
      },
    )
