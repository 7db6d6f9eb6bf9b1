-- ===== src/Lineedit.antt =====
-- gui/lineedit.c and include/lineedit.h: a one-line text field; its drawing is left out.
pub mod Typed
use kernel_basic.Prelude.{
  ℕ, ◌+◌, ◌-◌, Bool, true, false, ◌&&◌, List, ltb, leb, ◌==◌, if◌then◌else◌, set,
}
use kernel_basic.Prelude.Int.{ℤ, pos, negsuc}

abbrev pub lineedit_max : ℕ
lineedit_max = 48

-- `lineedit_st`; `prompt` is an address.
pub record Lineedit : Type 0 where
  pub text : List ℕ
  pub len : ℕ
  pub active : Bool
  pub prompt : ℕ

unfoldable pub lineedit_open : Lineedit → (prompt : ℕ) → Lineedit
lineedit_open le prompt = record le {
  text = set le.text 0 0;
  len = 0;
  active = true;
  prompt = prompt;
}

unfoldable pub lineedit_close : Lineedit → Lineedit
lineedit_close le = record le { active = false }

-- 1 on Enter, -1 on Esc, 0 otherwise.
unfoldable pub lineedit_key : Lineedit → (ascii : ℕ) → Lineedit × ℤ
lineedit_key le ascii =
    if ascii == 10
    then (le, pos 1)
    else if ascii == 27
    then (lineedit_close le, negsuc 0)
    else if ascii == 8
    then (
      if ltb 0 le.len
          then record le { len = le.len - 1; text = set le.text (le.len - 1) 0 }
          else le,
      pos 0,
    )
    else (
      if leb 32 ascii && (ltb ascii 127 && ltb le.len (lineedit_max - 1))
          then record le { text = set (set le.text le.len ascii) (le.len + 1) 0; len = le.len + 1 }
          else le,
      pos 0,
    )
