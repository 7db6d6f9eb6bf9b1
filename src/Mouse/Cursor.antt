-- ===== src/Mouse/Cursor.antt =====
-- The cursor's place and the packet of kernel/mouse.c.
use kernel_basic.Prelude.{
  ℕ, ◌+◌, ◌<◌, ◌≡◌, ◌∙◌, not, ◌&&◌, ◌||◌, ltb, ◌==◌, get_or, set, length, length-set, arith, if_ind,
}
use kernel_basic.Prelude.Int.{ℤ, pos, ◌+ℤ◌, ◌-ℤ◌, ◌≤ℤ◌, ◌<ℤ◌}
use Prim.Native.Nat.{bit_and}
use kernel_basic.Event.{EventQueue}
use kernel_basic.Mouse.{
  Mouse, screen_w, screen_h, clamp_to, clamp_cursor, complete_packet, mouse_irq_handler,
  sign_extend,
}

-- The cursor is on the screen, and the packet has room for the next byte.
pub record IsValid (m : Mouse) : Type 0 where
  pub x_in : (pos 0 ≤ℤ m.mouse_x) × (m.mouse_x <ℤ pos screen_w)
  pub y_in : (pos 0 ≤ℤ m.mouse_y) × (m.mouse_y <ℤ pos screen_h)
  pub storage : length m.packet ≡ 3
  pub index_in : m.packet_index < 3

clamp_to_in :
    (limit : ℕ) (v : ℤ) → 0 < limit → (pos 0 ≤ℤ clamp_to limit v) × (clamp_to limit v <ℤ pos limit)
unfolding clamp_to
clamp_to_in limit v h = (ground arith, ground arith)

abbrev ResultIsValid : Mouse × EventQueue → Type 0
ResultIsValid r = IsValid r.0

complete_packet-IsValid : (m : Mouse) (q : EventQueue) → IsValid m → IsValid (complete_packet m q).0
unfolding complete_packet clamp_cursor
complete_packet-IsValid m q v =
    let flags = get_or m.packet 0 0 in
    if_ind ResultIsValid (not (bit_and flags 0x40 == 0) || not (bit_and flags 0x80 == 0)) (λ _. v)
      (λ _. record {
        x_in =
            clamp_to_in screen_w (m.mouse_x +ℤ sign_extend flags 0x10 (get_or m.packet 1 0))
              (omega arith);
        y_in =
            clamp_to_in screen_h
              (m.mouse_y +ℤ (pos 0 -ℤ sign_extend flags 0x20 (get_or m.packet 2 0))) (omega arith);
        storage = v.storage;
        index_in = v.index_in;
      })

-- Whatever byte the mouse sends to a driver whose cursor is on the screen and whose packet has
-- room, the cursor stays within 640 by 480 and the packet keeps room for the next byte.
pub mouse_irq_handler-IsValid :
    (byte : ℕ) (m : Mouse) (q : EventQueue) → IsValid m → IsValid (mouse_irq_handler byte m q).0
unfolding mouse_irq_handler
mouse_irq_handler-IsValid byte m q v =
    let size = length-set m.packet m.packet_index byte ∙ v.storage in
    if_ind ResultIsValid (m.packet_index == 0 && bit_and byte 0x08 == 0) (λ _. v)
      (λ _.
        if_ind ResultIsValid (ltb (m.packet_index + 1) 3)
          (λ h. record { x_in = v.x_in; y_in = v.y_in; storage = size; index_in = ground arith })
          (λ _.
            complete_packet-IsValid
              (record m { packet = set m.packet m.packet_index byte; packet_index = 0 }) q
              (record { x_in = v.x_in; y_in = v.y_in; storage = size; index_in = omega arith })))
