-- ===== src/Lineedit/Typed.antt =====
-- The text in the field of gui/lineedit.c.
use kernel_basic.Prelude.{
  ℕ, suc, ◌+◌, ◌-◌, ◌≤◌, ◌<◌, ◌≡◌, refl, ap, ◌∙◌, ◌&&◌, ◌||◌, List, [], ◌∷◌, ◌++◌, ltb, leb, ◌==◌,
  if◌then◌else◌, set, get_or, length, length-set, sym, get_or-set_self, ==→≡, ltb→lt, length-take,
  take, arith, if_ind,
}
use kernel_basic.Prelude.Int.{ℤ, pos}
use kernel_basic.Prelude.Splice.{take-take, take-set, take-set-last}
use kernel_basic.Lineedit.{Lineedit, lineedit_max, lineedit_close, lineedit_key}

-- The text fits the array and ends in a NUL.
pub record IsValid (le : Lineedit) : Type 0 where
  pub storage : length le.text ≡ lineedit_max
  pub room : le.len < lineedit_max
  pub ends : get_or le.text le.len 0 ≡ 0

-- What a key makes of the typed text.
abbrev pub typed : List ℕ → ℕ → List ℕ
typed s c =
    if c == 10 || c == 27
    then s
    else if c == 8
    then take (length s - 1) s
    else if leb 32 c && (ltb c 127 && ltb (length s) (lineedit_max - 1))
    then s ++ (c ∷ [])
    else s

-- What an outcome of a key has to satisfy, for the field as it was: a text within the array, before a
-- NUL, and the one that the key makes of the old.
pub record Follows (le : Lineedit) (c : ℕ) (r : Lineedit × ℤ) : Type 0 where
  pub valid : IsValid r.0
  pub text : take r.0.len r.0.text ≡ typed (take le.len le.text) c

take_none : (s : List ℕ) → length s ≡ 0 → take (length s - 1) s ≡ s
take_none [] h = refl
take_none (x ∷ s) h = absurd (omega arith)

-- Backspace in a field with text.
back :
    (le : Lineedit) (c : ℕ)
    → IsValid le
    → c ≡ 8
    → 0 < le.len
    → Follows le c (record le { len = le.len - 1; text = set le.text (le.len - 1) 0 }, pos 0)
back le c v e h =
    let n = le.len - 1 in
    let s = take le.len le.text in
    let size : length s ≡ le.len = omega (arith, length-take le.len le.text, v.room, v.storage) in
    record {
      valid = record {
        storage = length-set le.text n 0 ∙ v.storage;
        room = omega (arith, v.room);
        ends = get_or-set_self le.text n 0 0 (omega (arith, v.room, v.storage));
      };
      text =
          take-set n le.text 0
          ∙ sym (take-take n le.len le.text (omega arith))
          ∙ ap (λ k. take (k - 1) s) (sym size)
          ∙ ap (λ d. typed s d) (sym e);
    }

-- A character in a field with room.
put :
    (le : Lineedit) (c : ℕ)
    → IsValid le
    → 32 ≤ c
    → c < 127
    → le.len < lineedit_max - 1
    → Follows le c
        (record le { text = set (set le.text le.len c) (le.len + 1) 0; len = le.len + 1 }, pos 0)
put le c v a b h =
    let s = take le.len le.text in
    let size : length s ≡ le.len = omega (arith, length-take le.len le.text, v.room, v.storage) in
    let one = set le.text le.len c in
    let z : length one ≡ lineedit_max = length-set le.text le.len c ∙ v.storage in
    record {
      valid = record {
        storage = length-set one (le.len + 1) 0 ∙ z;
        room = omega arith;
        ends = get_or-set_self one (le.len + 1) 0 0 (omega arith);
      };
      text =
          take-set (le.len + 1) one 0
          ∙ ap (λ k. take k one) {y = suc le.len} (omega arith)
          ∙ take-set-last le.len le.text c (omega (arith, v.storage))
          ∙ ground arith;
    }

-- A key that leaves the field.
stay :
    (le : Lineedit) (c : ℕ)
    → IsValid le
    → typed (take le.len le.text) c ≡ take le.len le.text
    → Follows le c (le, pos 0)
stay le c v e = record { valid = v; text = sym e }

-- In a field whose text fits the array and ends in a NUL, Backspace takes the last character away,
-- a printable character goes to the end while there is room, and any other key leaves the text;
-- the text stays within the array, before a NUL.
pub lineedit_key_lem : (le : Lineedit) (c : ℕ) → IsValid le → Follows le c (lineedit_key le c)
unfolding lineedit_key lineedit_close
lineedit_key_lem le c v =
    let s = take le.len le.text in
    let size : length s ≡ le.len = omega (arith, length-take le.len le.text, v.room, v.storage) in
    if_ind (Follows le c) (c == 10) (λ a. record { valid = v; text = ground arith })
      (λ a.
        if_ind (Follows le c) (c == 27)
          (λ b. record {
            valid = record { storage = v.storage; room = v.room; ends = v.ends };
            text = ground arith;
          })
          (λ b.
            if_ind (Follows le c) (c == 8)
              (λ d.
                if_ind (λ r. Follows le c (r, pos 0)) (ltb 0 le.len)
                  (λ e. back le c v (==→≡ c 8 d) (ltb→lt 0 le.len e))
                  (λ e. stay le c v (ground (arith, take_none s))))
              (λ d.
                if_ind (λ r. Follows le c (r, pos 0))
                  (leb 32 c && (ltb c 127 && ltb le.len (lineedit_max - 1)))
                  (λ e. put le c v (ground arith) (ground arith) (ground arith))
                  (λ e. stay le c v (ground arith)))))
