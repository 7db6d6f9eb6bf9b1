-- ===== src/Textbox/Grid.antt =====
-- The rows of the textbox's grid, and what the loops over them leave in each cell.
use kernel_basic.Prelude.{
  ℕ, zero, suc, ◌+◌, ◌-◌, ◌*◌, ◌≤◌, ◌<◌, ◌≡◌, ◌≢◌, refl, ap, ◌∙◌, false, ◌&&◌, List, ltb, leb, ◌==◌,
  if◌then◌else◌, inl, inr, Bool-cases, arith, length, get_or, set, length-set, ==→≡,
}
use kernel_basic.Prelude.Memory.{
  fill, copy_down, length-fill, length-copy_down, get_or-fill, get_or-copy_down, get_or-set,
  index_eq,
}
use kernel_basic.Textbox.{Textbox, clear_rows, scroll_rows}

-- Every row of the grid ends in NUL: it is a C string of at most `cols` characters.
abbrev pub RowsEnd : (cols rows : ℕ) → List ℕ → Type 0
RowsEnd cols rows cells = (r : ℕ) → r < rows → get_or cells (r * (cols + 1) + cols) 0 ≡ 0

-- The grid without its cursor.
pub record IsGrid (tb : Textbox) : Type 0 where
  pub wide : 0 < tb.cols
  pub tall : 0 < tb.rows
  pub stride_is : tb.stride ≡ tb.cols + 1
  pub storage : length tb.cells ≡ tb.rows * (tb.cols + 1)
  pub ends : RowsEnd tb.cols tb.rows tb.cells

row_eq : (cols q r : ℕ) → q ≡ r → q * (cols + 1) ≡ r * (cols + 1)
row_eq cols q r e = ap (λ k. k * (cols + 1)) e

pub cell-in : (cols rows q c : ℕ) → q < rows → c ≤ cols → q * (cols + 1) + c < rows * (cols + 1)
cell-in cols rows q c h k = grind arith

-- The cells of one row lie before those of a later one.
cell-before : (cols q r c : ℕ) → q < r → c ≤ cols → q * (cols + 1) + c + 1 ≤ r * (cols + 1)
cell-before cols q r c h k = grind arith

-- A loop over the characters of row `r` meets those cells and no NUL.
pub in-row :
    (cols q r c : ℕ)
    → c < cols
    → (leb (r * (cols + 1)) (q * (cols + 1) + c)
        && ltb (q * (cols + 1) + c) (r * (cols + 1) + cols))
      ≡ (q == r)
in-row cols q r c h =
    ground (arith, cell-before cols q r c, cell-before cols r q cols, row_eq cols q r)

pub end-out-row :
    (cols q r : ℕ)
    → (leb (r * (cols + 1)) (q * (cols + 1) + cols)
        && ltb (q * (cols + 1) + cols) (r * (cols + 1) + cols))
      ≡ false
end-out-row cols q r =
    ground (arith, cell-before cols q r cols, cell-before cols r q cols, row_eq cols q r)

pub cell-ne-end : (cols q r c : ℕ) → c < cols → q * (cols + 1) + c ≢ r * (cols + 1) + cols
cell-ne-end cols q r c h e =
    ground (arith, cell-before cols q r c, cell-before cols r q cols, row_eq cols q r)

end-injective : (cols q r : ℕ) → (q * (cols + 1) + cols == r * (cols + 1) + cols) ≡ (q == r)
end-injective cols q r =
    ground (arith, cell-before cols q r cols, cell-before cols r q cols, row_eq cols q r)

-- The loop of `textbox_clear` blanks its rows and ends them in NUL.
pub length-clear_rows :
    (cols n r : ℕ) (cells : List ℕ) → length (clear_rows cols (cols + 1) n r cells) ≡ length cells
unfolding clear_rows
length-clear_rows cols zero r cells = refl
length-clear_rows cols (suc n) r cells =
    length-clear_rows cols n (r + 1) _ ∙ length-set _ _ _ ∙ length-fill _ _ _ _

pub clear_rows-end :
    (cols rows n r q : ℕ) (cells : List ℕ)
    → length cells ≡ rows * (cols + 1)
    → r + n ≤ rows
    → get_or (clear_rows cols (cols + 1) n r cells) (q * (cols + 1) + cols) 0
      ≡ (if leb r q && ltb q (r + n) then 0 else get_or cells (q * (cols + 1) + cols) 0)
unfolding clear_rows
clear_rows-end cols rows zero r q cells e h = ground arith
clear_rows-end cols rows (suc n) r q cells e h =
    let blank = fill cells (r * (cols + 1)) cols b' ' in
    let size : length blank ≡ rows * (cols + 1) = length-fill _ _ _ _ ∙ e in
    let here : r * (cols + 1) + cols < rows * (cols + 1) =
      cell-in cols rows r cols (omega arith) (omega arith) in
    ground (
      arith,
      clear_rows-end cols rows n (r + 1) q (set blank (r * (cols + 1) + cols) 0),
      length-set blank (r * (cols + 1) + cols) 0,
      get_or-set blank (r * (cols + 1) + cols) (q * (cols + 1) + cols) 0,
      end-injective cols r q,
      get_or-fill cells (r * (cols + 1)) cols b' ' (q * (cols + 1) + cols),
      end-out-row cols q r,
    )

pub clear_rows-blank :
    (cols rows n r q c : ℕ) (cells : List ℕ)
    → length cells ≡ rows * (cols + 1)
    → r + n ≤ rows
    → c < cols
    → get_or (clear_rows cols (cols + 1) n r cells) (q * (cols + 1) + c) 0
      ≡ (if leb r q && ltb q (r + n) then b' ' else get_or cells (q * (cols + 1) + c) 0)
unfolding clear_rows
clear_rows-blank cols rows zero r q c cells e h k = ground arith
clear_rows-blank cols rows (suc n) r q c cells e h k =
    let blank = fill cells (r * (cols + 1)) cols b' ' in
    let size : length blank ≡ rows * (cols + 1) = length-fill _ _ _ _ ∙ e in
    let here : r * (cols + 1) + cols < rows * (cols + 1) =
      cell-in cols rows r cols (omega arith) (omega arith) in
    ground (
      arith,
      clear_rows-blank cols rows n (r + 1) q c (set blank (r * (cols + 1) + cols) 0),
      length-set blank (r * (cols + 1) + cols) 0,
      get_or-set blank (r * (cols + 1) + cols) (q * (cols + 1) + c) 0,
      cell-ne-end cols q r c,
      get_or-fill cells (r * (cols + 1)) cols b' ' (q * (cols + 1) + c),
      in-row cols q r c,
    )

-- The loop of `textbox_scroll`: a row takes the characters of the row below it, and keeps its NUL.
pub length-scroll_rows :
    (cols n r : ℕ) (cells : List ℕ) → length (scroll_rows cols (cols + 1) n r cells) ≡ length cells
unfolding scroll_rows
length-scroll_rows cols zero r cells = refl
length-scroll_rows cols (suc n) r cells =
    length-scroll_rows cols n (r + 1) _ ∙ length-copy_down _ _ _ _

copy_row :
    (cols rows r j : ℕ) (cells : List ℕ)
    → length cells ≡ rows * (cols + 1)
    → r + 1 < rows
    → get_or (copy_down cells (r * (cols + 1)) ((r + 1) * (cols + 1)) cols) j 0 ≡ (
        if leb (r * (cols + 1)) j && ltb j (r * (cols + 1) + cols)
        then get_or cells ((r + 1) * (cols + 1) + (j - r * (cols + 1))) 0
        else get_or cells j 0)
copy_row cols rows r j cells e h =
    get_or-copy_down cells (r * (cols + 1)) ((r + 1) * (cols + 1)) cols j (omega arith) (
      let last : (r + 1) * (cols + 1) + cols < rows * (cols + 1) =
        cell-in cols rows (r + 1) cols (omega arith) (omega arith) in
      omega arith)

copy_row-cell :
    (cols rows r q c : ℕ) (cells : List ℕ)
    → length cells ≡ rows * (cols + 1)
    → r + 1 < rows
    → c < cols
    → get_or (copy_down cells (r * (cols + 1)) ((r + 1) * (cols + 1)) cols) (q * (cols + 1) + c) 0
      ≡ (if q == r
          then get_or cells ((q + 1) * (cols + 1) + c) 0
          else get_or cells (q * (cols + 1) + c) 0)
copy_row-cell cols rows r q c cells e h k = elim (Bool-cases (q == r)) [
  | inl same ↦ rw same (
      copy_row cols rows r (q * (cols + 1) + c) cells e h
      ∙ rw (in-row cols q r c k, same)
          (index_eq cells (omega (arith, row_eq cols q r (==→≡ q r same), ==→≡ q r same))))
  | inr other ↦
      rw other
        (copy_row cols rows r (q * (cols + 1) + c) cells e h ∙ rw (in-row cols q r c k, other))
]

pub scroll_rows-end :
    (cols rows n r q : ℕ) (cells : List ℕ)
    → length cells ≡ rows * (cols + 1)
    → r + n < rows
    → get_or (scroll_rows cols (cols + 1) n r cells) (q * (cols + 1) + cols) 0
      ≡ get_or cells (q * (cols + 1) + cols) 0
unfolding scroll_rows
scroll_rows-end cols rows zero r q cells e h = refl
scroll_rows-end cols rows (suc n) r q cells e h = ground (
  arith,
  scroll_rows-end cols rows n (r + 1) q
      (copy_down cells (r * (cols + 1)) ((r + 1) * (cols + 1)) cols),
  length-copy_down cells (r * (cols + 1)) ((r + 1) * (cols + 1)) cols,
  copy_row cols rows r (q * (cols + 1) + cols) cells,
  end-out-row cols q r,
)

pub scroll_rows-cell :
    (cols rows n r q c : ℕ) (cells : List ℕ)
    → length cells ≡ rows * (cols + 1)
    → r + n < rows
    → c < cols
    → get_or (scroll_rows cols (cols + 1) n r cells) (q * (cols + 1) + c) 0 ≡ (
        if leb r q && ltb q (r + n)
        then get_or cells ((q + 1) * (cols + 1) + c) 0
        else get_or cells (q * (cols + 1) + c) 0)
unfolding scroll_rows
scroll_rows-cell cols rows zero r q c cells e h k = ground arith
scroll_rows-cell cols rows (suc n) r q c cells e h k =
    let d = copy_down cells (r * (cols + 1)) ((r + 1) * (cols + 1)) cols in
    let size : length d ≡ rows * (cols + 1) = length-copy_down _ _ _ _ ∙ e in
    ground (
      arith,
      scroll_rows-cell cols rows n (r + 1) q c d,
      copy_row-cell cols rows r q c cells,
      copy_row-cell cols rows r (q + 1) c cells,
    )
