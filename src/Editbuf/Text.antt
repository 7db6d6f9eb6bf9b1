-- ===== src/Editbuf/Text.antt =====
-- The document as a text with a cursor: what each key does to it.
use kernel_basic.Prelude.{
  ℕ, ◌+◌, ◌-◌, ◌≤◌, ◌<◌, ◌≡◌, List, false, leb, arith, length, set, take, length-set, length-take,
}
use kernel_basic.Prelude.Memory.{
  list_ext, get_or-take, get_or-set, shift_up, copy_down, length-shift_up, length-copy_down,
  get_or-shift_up, get_or-copy_down, index_eq,
}
use kernel_basic.Prelude.Splice.{
  insert_at, remove_at, length-insert_at, length-remove_at, get_or-insert_at, get_or-remove_at,
}
use kernel_basic.Editbuf.{Editbuf, eb_insert, eb_erase}

pub record IsValid (eb : Editbuf) : Type 0 where
  pub storage : length eb.bytes ≡ eb.cap
  pub len_in : eb.len ≤ eb.cap
  pub cursor_in : eb.cursor ≤ eb.len

unfoldable pub text : Editbuf → List ℕ
text eb = take eb.len eb.bytes

pub length-text : (eb : Editbuf) → IsValid eb → length (text eb) ≡ eb.len
unfolding text
length-text eb v = omega (arith, length-take eb.len eb.bytes)

-- Making room at the cursor and writing there inserts the byte into the text.
insert_bytes :
    (d : List ℕ) (len cursor c : ℕ)
    → cursor ≤ len
    → len < length d
    → take (len + 1) (set (shift_up d cursor (len - cursor)) cursor c)
      ≡ insert_at cursor c (take len d)
insert_bytes d len cursor c h k =
    let up = shift_up d cursor (len - cursor) in
    let size : length up ≡ length d = length-shift_up d cursor (len - cursor) in
    list_ext _ _
      (omega (
        arith,
        length-take (len + 1) (set up cursor c),
        length-set up cursor c,
        length-take len d,
        length-insert_at cursor c (take len d),
      ))
      λ j hj. ground (
        arith,
        get_or-take (len + 1) (set up cursor c) j,
        length-take (len + 1) (set up cursor c),
        get_or-set up cursor j c,
        get_or-shift_up d cursor (len - cursor) j,
        length-take len d,
        get_or-insert_at cursor c (take len d) j,
        get_or-take len d j,
        get_or-take len d (j - 1),
      )

-- Closing the gap removes the byte from the text.
erase_bytes :
    (d : List ℕ) (len at : ℕ)
    → at < len
    → len ≤ length d
    → take (len - 1) (copy_down d at (at + 1) (len - 1 - at)) ≡ remove_at at (take len d)
erase_bytes d len at h k =
    let down = copy_down d at (at + 1) (len - 1 - at) in
    let size : length down ≡ length d = length-copy_down d at (at + 1) (len - 1 - at) in
    list_ext _ _
      (omega
        (arith, length-take (len - 1) down, length-take len d, length-remove_at at (take len d)))
      λ j hj. ground (
        arith,
        get_or-take (len - 1) down j,
        length-take (len - 1) down,
        get_or-copy_down d at (at + 1) (len - 1 - at) j,
        length-take len d,
        get_or-remove_at at (take len d) j,
        get_or-take len d j,
        get_or-take len d (j + 1),
        index_eq d {i = at + 1 + (j - at)} {j = j + 1},
      )

pub text-insert :
    (eb : Editbuf) (c : ℕ)
    → IsValid eb
    → eb.len < eb.cap
    → text (eb_insert eb c) ≡ insert_at eb.cursor c (text eb)
unfolding eb_insert text
text-insert eb c v h =
    let room : leb eb.cap eb.len ≡ false = ground arith in
    rw room (insert_bytes eb.bytes eb.len eb.cursor c v.cursor_in (omega arith))

pub text-erase :
    (eb : Editbuf) (at : ℕ)
    → IsValid eb
    → at < eb.len
    → text (eb_erase eb at) ≡ remove_at at (text eb)
unfolding eb_erase text
text-erase eb at v h = erase_bytes eb.bytes eb.len at h (omega arith)
