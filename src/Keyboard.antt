-- ===== src/Keyboard.antt =====
-- drivers/keyboard.c: from the bytes of the keyboard controller to key events. The byte that
-- `inb(0x60)` reads is an argument; the debug output to the serial port is left out.
pub mod Keystrokes
use Prim.Native.Nat.{bit_and, bit_or}
use kernel_basic.Prelude.{
  ℕ, zero, suc, ◌+◌, ◌-◌, ◌%◌, Bool, true, false, not, ◌&&◌, ◌||◌, List, [], ◌∷◌, leb, ◌==◌,
  if◌then◌else◌, get_or,
}
use kernel_basic.Prelude.Int.{ℤ, pos}
use kernel_basic.Keys.{
  key_left, key_right, key_up, key_down, key_delete, key_home, key_end, key_ctrl, key_shift,
  key_alt,
}
use kernel_basic.Event.{
  EventType, EventType.key_down as down_event, EventType.key_up as up_event, EventQueue, event_push,
}

-- The characters by scancode; the rest of the 128 entries is 0.
abbrev pub keyboard_ascii : List ℕ
keyboard_ascii =
    0 ∷ 27 ∷ 49 ∷ 50 ∷ 51 ∷ 52 ∷ 53 ∷ 54 ∷ 55 ∷ 56 ∷ 57 ∷ 48 ∷ 45 ∷ 61 ∷ 8 ∷ 9 ∷ 113 ∷ 119 ∷ 101
    ∷ 114 ∷ 116 ∷ 121 ∷ 117 ∷ 105 ∷ 111 ∷ 112 ∷ 91 ∷ 93 ∷ 10 ∷ 0 ∷ 97 ∷ 115 ∷ 100 ∷ 102 ∷ 103 ∷ 104
    ∷ 106 ∷ 107 ∷ 108 ∷ 59 ∷ 39 ∷ 96 ∷ 0 ∷ 92 ∷ 122 ∷ 120 ∷ 99 ∷ 118 ∷ 98 ∷ 110 ∷ 109 ∷ 44 ∷ 46 ∷ 47
    ∷ 0 ∷ 42 ∷ 0 ∷ 32 ∷ 0 ∷ 0 ∷ 0 ∷ 0 ∷ 0 ∷ 0 ∷ 0 ∷ 0 ∷ 0 ∷ 0 ∷ 0 ∷ 0 ∷ 0 ∷ 0 ∷ 0 ∷ 0 ∷ 45 ∷ 0 ∷ 0
    ∷ 0 ∷ 43 ∷ []

abbrev pub keyboard_ascii_shift : List ℕ
keyboard_ascii_shift =
    0 ∷ 27 ∷ 33 ∷ 64 ∷ 35 ∷ 36 ∷ 37 ∷ 94 ∷ 38 ∷ 42 ∷ 40 ∷ 41 ∷ 95 ∷ 43 ∷ 8 ∷ 9 ∷ 81 ∷ 87 ∷ 69 ∷ 82
    ∷ 84 ∷ 89 ∷ 85 ∷ 73 ∷ 79 ∷ 80 ∷ 123 ∷ 125 ∷ 10 ∷ 0 ∷ 65 ∷ 83 ∷ 68 ∷ 70 ∷ 71 ∷ 72 ∷ 74 ∷ 75 ∷ 76
    ∷ 58 ∷ 34 ∷ 126 ∷ 0 ∷ 124 ∷ 90 ∷ 88 ∷ 67 ∷ 86 ∷ 66 ∷ 78 ∷ 77 ∷ 60 ∷ 62 ∷ 63 ∷ 0 ∷ 42 ∷ 0 ∷ 32
    ∷ 0 ∷ 0 ∷ 0 ∷ 0 ∷ 0 ∷ 0 ∷ 0 ∷ 0 ∷ 0 ∷ 0 ∷ 0 ∷ 0 ∷ 0 ∷ 0 ∷ 0 ∷ 0 ∷ 45 ∷ 0 ∷ 0 ∷ 0 ∷ 43 ∷ []

abbrev pub key_mod_shift : ℕ
key_mod_shift = 1

abbrev pub key_mod_ctrl : ℕ
key_mod_ctrl = 2

abbrev pub key_mod_alt : ℕ
key_mod_alt = 4

-- The static variables of the driver.
pub record Keyboard : Type 0 where
  pub mods : ℕ
  pub extended : Bool

unfoldable pub keyboard_init : Keyboard
keyboard_init = record { mods = 0; extended = false }

unfoldable pub keyboard_get_mods : Keyboard → ℕ
keyboard_get_mods k = k.mods

-- `mods |= bit; event_push(EVENT_KEY_DOWN, key, mods);`
unfoldable pub press_mod : (bit key : ℕ) → Keyboard → EventQueue → Keyboard × EventQueue
press_mod bit key k q =
    let m = bit_or k.mods bit in (record k { mods = m }, event_push down_event (pos key) (pos m) q)

-- `mods &= ~bit; event_push(EVENT_KEY_UP, key, mods);`
unfoldable pub release_mod : (bit key : ℕ) → Keyboard → EventQueue → Keyboard × EventQueue
release_mod bit key k q =
    let m = k.mods - bit_and k.mods bit in
    (record k { mods = m }, event_push up_event (pos key) (pos m) q)

unfoldable pub keyboard_extended_ascii : ℕ → ℕ
keyboard_extended_ascii index =
    if index == 0x4B
    then key_left
    else if index == 0x4D
    then key_right
    else if index == 0x48
    then key_up
    else if index == 0x50
    then key_down
    else if index == 0x53
    then key_delete
    else if index == 0x47
    then key_home
    else if index == 0x4F
    then key_end
    else 0

-- The event of a key; a break code is 128 or more. Code 0 is dropped.
unfoldable pub push_key : (scancode ascii : ℕ) → Keyboard → EventQueue → EventQueue
push_key scancode ascii k q =
    if ascii == 0
    then q
    else event_push (if leb 128 scancode then up_event else down_event) (pos ascii) (pos k.mods) q

-- The branch for a byte behind the 0xE0 prefix, the prefix already taken.
unfoldable pub extended_byte : (scancode : ℕ) → Keyboard → EventQueue → Keyboard × EventQueue
extended_byte scancode k q =
    if scancode == 0x1D
    then press_mod key_mod_ctrl key_ctrl k q
    else if scancode == 0x9D
    then release_mod key_mod_ctrl key_ctrl k q
    else if scancode == 0x38
    then press_mod key_mod_alt key_alt k q
    else if scancode == 0xB8
    then release_mod key_mod_alt key_alt k q
    else (k, push_key scancode (keyboard_extended_ascii (scancode % 128)) k q)

-- The character of a key under the modifiers.
unfoldable pub char_of : (mods index : ℕ) → ℕ
char_of mods index =
    if bit_and mods key_mod_shift == 0
    then get_or keyboard_ascii index 0
    else get_or keyboard_ascii_shift index 0

unfoldable pub plain_byte : (scancode : ℕ) → Keyboard → EventQueue → Keyboard × EventQueue
plain_byte scancode k q =
    if scancode == 0x2A || scancode == 0x36
    then press_mod key_mod_shift key_shift k q
    else if scancode == 0xAA || scancode == 0xB6
    then release_mod key_mod_shift key_shift k q
    else if scancode == 0x1D
    then press_mod key_mod_ctrl key_ctrl k q
    else if scancode == 0x9D
    then release_mod key_mod_ctrl key_ctrl k q
    else if scancode == 0x38
    then press_mod key_mod_alt key_alt k q
    else if scancode == 0xB8
    then release_mod key_mod_alt key_alt k q
    else (k, push_key scancode (char_of k.mods (scancode % 128)) k q)

unfoldable pub keyboard_irq_handler : (scancode : ℕ) → Keyboard → EventQueue → Keyboard × EventQueue
keyboard_irq_handler scancode k q =
    if scancode == 0xE0
    then (record k { extended = true }, q)
    else if k.extended
    then extended_byte scancode (record k { extended = false }) q
    else plain_byte scancode k q
