-- ===== src/Keys.antt =====
-- include/keyboard.h: the codes of the keys that are no characters, past those of ASCII.
use kernel_basic.Prelude.{ℕ}

abbrev pub key_left : ℕ
key_left = 0x80

abbrev pub key_right : ℕ
key_right = 0x81

abbrev pub key_up : ℕ
key_up = 0x82

abbrev pub key_down : ℕ
key_down = 0x83

abbrev pub key_delete : ℕ
key_delete = 0x84

abbrev pub key_home : ℕ
key_home = 0x85

abbrev pub key_end : ℕ
key_end = 0x86

abbrev pub key_ctrl : ℕ
key_ctrl = 0x87

abbrev pub key_shift : ℕ
key_shift = 0x88

abbrev pub key_alt : ℕ
key_alt = 0x89
