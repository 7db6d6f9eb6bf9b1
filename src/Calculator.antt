-- ===== src/Calculator.antt =====
-- gui/apps/calculator.c: the calculator's keys. `acc` is an integer; the drawing and the buttons'
-- places are left out, and so is the block that `kmalloc` returns for the state: `memory` is what the
-- display's bytes hold before.
pub mod Display
use kernel_basic.Prelude.{
  ℕ, ◌+◌, ◌-◌, Bool, true, false, ◌&&◌, List, [], ◌∷◌, ltb, leb, ◌==◌, if◌then◌else◌, set, get_or,
}
use kernel_basic.Prelude.Int.{ℤ, pos, negsuc, ◌+ℤ◌, ◌-ℤ◌, ◌*ℤ◌, ◌/ℤ◌, ◌==ℤ◌}
use kernel_basic.Str.{strlen, strcmp, strcpy}
use kernel_basic.Stdlib.{atoi, itoa}

abbrev pub display_size : ℕ
display_size = 16

-- `calculator_state_t`, without the buttons' places. Operator 0 is none.
pub record Calculator : Type 0 where
  pub display : List ℕ
  pub display_len : ℕ
  pub acc : ℤ
  pub pending_op : ℕ
  pub entry_active : Bool

-- `display[0] = '0'; display[1] = 0;` and the fields that go with it.
unfoldable pub cleared : List ℕ → Calculator
cleared display = record {
  display = set (set display 0 48) 1 0;
  display_len = 1;
  acc = pos 0;
  pending_op = 0;
  entry_active = true;
}

unfoldable pub calculator_on_init : (memory : List ℕ) → Calculator
unfolding cleared
calculator_on_init memory = cleared memory

-- A digit after a result starts a new number, and a digit after the lone 0 replaces it.
unfoldable pub start_entry : Calculator → Calculator
start_entry s =
    let s = if s.entry_active then s else record s { display_len = 0; entry_active = true } in
    if s.display_len == 1 && get_or s.display 0 0 == 48 then record s { display_len = 0 } else s

unfoldable pub calc_append_digit : Calculator → (d : ℕ) → Calculator
unfolding start_entry
calc_append_digit s d =
    let s = start_entry s in
    if ltb s.display_len (display_size - 1)
    then record s {
      display = set (set s.display s.display_len d) (s.display_len + 1) 0;
      display_len = s.display_len + 1;
    }
    else s

-- The text "Err".
abbrev pub err : List ℕ
err = 69 ∷ 114 ∷ 114 ∷ 0 ∷ []

-- Whether the division by zero was met.
unfoldable pub calc_apply_pending : Calculator → Calculator × Bool
calc_apply_pending s =
    let rhs = atoi s.display in
    if s.pending_op == 0
    then (record s { acc = rhs }, false)
    else if s.pending_op == 43
    then (record s { acc = s.acc +ℤ rhs }, false)
    else if s.pending_op == 45
    then (record s { acc = s.acc -ℤ rhs }, false)
    else if s.pending_op == 42
    then (record s { acc = s.acc *ℤ rhs }, false)
    else if s.pending_op == 47
    then (if rhs ==ℤ pos 0
        then (
          record s {
            display = strcpy s.display err;
            display_len = 3;
            acc = pos 0;
            pending_op = 0;
            entry_active = false;
          },
          true,
        )
        else (record s { acc = s.acc /ℤ rhs }, false))
    else (s, false)

-- The accumulator on the display, and the operator that waits for its operand.
unfoldable pub show_acc : Calculator → (op : ℕ) → Calculator
show_acc s op =
    let text = itoa s.display s.acc in
    record s { display = text; display_len = strlen text; pending_op = op; entry_active = false }

unfoldable pub finish_op : Calculator × Bool → (op : ℕ) → Calculator
unfolding show_acc
finish_op (s, true) op = s
finish_op (s, false) op = show_acc s op

-- A label is the bytes of its text, the NUL included.
unfoldable pub calc_press : Calculator → (label : List ℕ) → Calculator
unfolding finish_op cleared
calc_press s label =
    let c = get_or label 0 0 in
    if get_or label 1 0 == 0 && (leb 48 c && leb c 57)
    then calc_append_digit s c
    else if strcmp label (67 ∷ 0 ∷ []) == 0
    then cleared s.display
    else if strcmp label (61 ∷ 0 ∷ []) == 0
    then finish_op (calc_apply_pending s) 0
    else finish_op (calc_apply_pending s) c
