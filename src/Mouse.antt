-- ===== src/Mouse.antt =====
-- kernel/mouse.c: from the bytes of the mouse to mouse events, and the cursor's place. The byte that
-- `inb(PS2_DATA)` reads is an argument; the set-up of the controller's ports is left out.
pub mod Cursor
use Prim.Native.Nat.{bit_and, bit_or}
use kernel_basic.Prelude.{
  ℕ, zero, suc, ◌+◌, ◌-◌, Bool, true, false, not, ◌&&◌, ◌||◌, List, [], ◌∷◌, ltb, ◌==◌,
  if◌then◌else◌, get_or, set,
}
use kernel_basic.Prelude.Int.{ℤ, pos, negsuc, ◌+ℤ◌, ◌-ℤ◌, ltb_ℤ, leb_ℤ, ◌==ℤ◌}
use kernel_basic.Event.{EventType, EventQueue, event_push}

abbrev pub screen_w : ℕ
screen_w = 640

abbrev pub screen_h : ℕ
screen_h = 480

abbrev pub mouse_button_left : ℕ
mouse_button_left = 1

abbrev pub mouse_button_right : ℕ
mouse_button_right = 2

-- The static variables of the driver.
pub record Mouse : Type 0 where
  pub mouse_x : ℤ
  pub mouse_y : ℤ
  pub packet : List ℕ
  pub packet_index : ℕ
  pub last_buttons : ℕ

-- The variables that `mouse_init` sets; `packet` is what the array holds before.
unfoldable pub mouse_init : List ℕ → Mouse
mouse_init packet = record {
  mouse_x = pos 320;
  mouse_y = pos 240;
  packet = packet;
  packet_index = 0;
  last_buttons = 0;
}

-- `clamp_cursor` for one coordinate: negative becomes 0, and the limit or more the last place.
unfoldable pub clamp_to : (limit : ℕ) → ℤ → ℤ
clamp_to limit v =
    let v = if ltb_ℤ v (pos 0) then pos 0 else v in
    if leb_ℤ (pos limit) v then pos (limit - 1) else v

unfoldable pub clamp_cursor : Mouse → Mouse
unfolding clamp_to
clamp_cursor m = record m {
  mouse_x = clamp_to screen_w m.mouse_x;
  mouse_y = clamp_to screen_h m.mouse_y;
}

-- A byte of the packet with its sign bit in the flags: 9 bits in two's complement.
unfoldable pub sign_extend : (flags bit byte : ℕ) → ℤ
sign_extend flags bit byte = if bit_and flags bit == 0 then pos byte else pos byte -ℤ pos 256

-- The events of a packet, in the order of the source.
unfoldable pub packet_events : (dx dy : ℤ) → (buttons last : ℕ) → EventQueue → EventQueue
packet_events dx dy buttons last q =
    let pressed = buttons - bit_and buttons last in
    let released = last - bit_and last buttons in
    let q = if dx ==ℤ pos 0 && dy ==ℤ pos 0 then q else event_push EventType.mouse_move dx dy q in
    let q = if pressed == 0 then q else event_push EventType.mouse_down (pos pressed) (pos 0) q in
    if released == 0 then q else event_push EventType.mouse_up (pos released) (pos 0) q

-- What the third byte completes. A packet that reports an overflow is dropped.
unfoldable pub complete_packet : Mouse → EventQueue → Mouse × EventQueue
unfolding clamp_cursor sign_extend packet_events
complete_packet m q =
    let flags = get_or m.packet 0 0 in
    let dx = sign_extend flags 0x10 (get_or m.packet 1 0) in
    let dy = pos 0 -ℤ sign_extend flags 0x20 (get_or m.packet 2 0) in
    let moved = clamp_cursor (record m { mouse_x = m.mouse_x +ℤ dx; mouse_y = m.mouse_y +ℤ dy }) in
    let buttons = bit_and flags (bit_or mouse_button_left mouse_button_right) in
    if not (bit_and flags 0x40 == 0) || not (bit_and flags 0x80 == 0)
    then (m, q)
    else (record moved { last_buttons = buttons }, packet_events dx dy buttons m.last_buttons q)

-- The first byte of a packet has the alignment bit; without it the driver is out of step and waits.
unfoldable pub mouse_irq_handler : (byte : ℕ) → Mouse → EventQueue → Mouse × EventQueue
unfolding complete_packet
mouse_irq_handler byte m q =
    let m' = record m {
      packet = set m.packet m.packet_index byte;
      packet_index = m.packet_index + 1;
    } in
    if m.packet_index == 0 && bit_and byte 0x08 == 0
    then (m, q)
    else if ltb m'.packet_index 3
    then (m', q)
    else complete_packet (record m' { packet_index = 0 }) q

unfoldable pub mouse_get_x : Mouse → ℤ
mouse_get_x m = m.mouse_x

unfoldable pub mouse_get_y : Mouse → ℤ
mouse_get_y m = m.mouse_y
