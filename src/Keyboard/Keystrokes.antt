-- ===== src/Keyboard/Keystrokes.antt =====
-- Make and break codes in drivers/keyboard.c and the event queue.
use Prim.Native.Nat.{bit_and, bit_or}
use kernel_basic.Prelude.{
  ℕ, zero, suc, ◌-◌, ◌<◌, ◌≡◌, refl, Bool, true, false, not, ◌||◌, ◌==◌, arith,
}
use kernel_basic.Event.{EventType.key_down as down_event, EventType.key_up as up_event, EventQueue}
use kernel_basic.Keyboard.{
  Keyboard, key_mod_shift, key_mod_ctrl, key_mod_alt, press_mod, release_mod, plain_byte,
  keyboard_irq_handler,
}

-- A byte that is no modifier's code, make or break.
record IsKey (sc : ℕ) : Type 0 where
  shift : (sc == 0x2A || sc == 0x36) ≡ false
  no_shift : (sc == 0xAA || sc == 0xB6) ≡ false
  ctrl : (sc == 0x1D) ≡ false
  no_ctrl : (sc == 0x9D) ≡ false
  alt : (sc == 0x38) ≡ false
  no_alt : (sc == 0xB8) ≡ false
  prefix : (sc == 0xE0) ≡ false

below_8 : (P : ℕ → Type 0) → P 0 → P 1 → P 2 → P 3 → P 4 → P 5 → P 6 → P 7 → (m : ℕ) → m < 8 → P m
below_8 P a b c d e f g h zero l = a
below_8 P a b c d e f g h (suc zero) l = b
below_8 P a b c d e f g h (suc (suc zero)) l = c
below_8 P a b c d e f g h (suc (suc (suc zero))) l = d
below_8 P a b c d e f g h (suc (suc (suc (suc zero)))) l = e
below_8 P a b c d e f g h (suc (suc (suc (suc (suc zero))))) l = f
below_8 P a b c d e f g h (suc (suc (suc (suc (suc (suc zero)))))) l = g
below_8 P a b c d e f g h (suc (suc (suc (suc (suc (suc (suc zero))))))) l = h
below_8 P a b c d e f g h (suc (suc (suc (suc (suc (suc (suc (suc m)))))))) l = absurd (omega arith)

-- Whether a modifier is held.
abbrev pub holds : ℕ → ℕ → Bool
holds mods bit = not (bit_and mods bit == 0)

-- What setting the bit of Shift and clearing it do to the mask.
ShiftBits : ℕ → Type 0
ShiftBits mods =
    let m = bit_or mods key_mod_shift in
    let n = mods - bit_and mods key_mod_shift in
    (holds m key_mod_shift ≡ true)
    × (holds n key_mod_shift ≡ false)
    × (holds m key_mod_ctrl ≡ holds mods key_mod_ctrl)
    × (holds n key_mod_ctrl ≡ holds mods key_mod_ctrl)
    × (holds m key_mod_alt ≡ holds mods key_mod_alt)
    × (holds n key_mod_alt ≡ holds mods key_mod_alt)
    × (m < 8)
    × (n < 8)

shift_bits : (m : ℕ) → m < 8 → ShiftBits m
unfolding ShiftBits
shift_bits =
    below_8 ShiftBits (refl, refl, refl, refl, refl, refl, omega arith, omega arith)
      (refl, refl, refl, refl, refl, refl, omega arith, omega arith)
      (refl, refl, refl, refl, refl, refl, omega arith, omega arith)
      (refl, refl, refl, refl, refl, refl, omega arith, omega arith)
      (refl, refl, refl, refl, refl, refl, omega arith, omega arith)
      (refl, refl, refl, refl, refl, refl, omega arith, omega arith)
      (refl, refl, refl, refl, refl, refl, omega arith, omega arith)
      (refl, refl, refl, refl, refl, refl, omega arith, omega arith)

-- With no prefix pending and a modifier mask below 8, the left Shift's make code sets its bit and
-- its break code clears it; the bits of Ctrl and Alt stay, and so does the bound of the mask.
pub shift_tracks :
    (k : Keyboard) (q : EventQueue)
    → k.mods < 8
    → k.extended ≡ false
    → let m = (keyboard_irq_handler 0x2A k q).0.mods in
      let n = (keyboard_irq_handler 0xAA k q).0.mods in
      (holds m key_mod_shift ≡ true)
      × (holds n key_mod_shift ≡ false)
      × (holds m key_mod_ctrl ≡ holds k.mods key_mod_ctrl)
      × (holds n key_mod_ctrl ≡ holds k.mods key_mod_ctrl)
      × (holds m key_mod_alt ≡ holds k.mods key_mod_alt)
      × (holds n key_mod_alt ≡ holds k.mods key_mod_alt)
      × (m < 8)
      × (n < 8)
unfolding keyboard_irq_handler plain_byte press_mod release_mod ShiftBits
shift_tracks k q l e = rw e (shift_bits k.mods l)
