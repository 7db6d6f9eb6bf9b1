-- ===== src/Fs/Name.antt =====
-- The name helpers of kernel/fs.c. A name is the bytes of a C string: it ends at its first NUL, and
-- the end of the list stands for one.
use kernel_basic.Prelude.{
  ℕ, suc, ◌-◌, ◌≡◌, ◌≤◌, ◌<◌, refl, Bool, true, false, not, ◌&&◌, List, [], ◌∷◌, ◌==◌,
  if◌then◌else◌, set, min, arith, length, get_or, Bool-cases, inl, inr,
}
use mathlib.Core.Path.{subst}
use kernel_basic.Prelude.Bytes.{c_text}
use kernel_basic.Prelude.Memory.{copy, length-copy, get_or-copy, get_or-set}

abbrev pub fs_name_max : ℕ
fs_name_max = 100

unfoldable pub fs_name_eq : List ℕ → List ℕ → Bool
fs_name_eq [] [] = true
fs_name_eq [] (b ∷ bs) = 0 == b
fs_name_eq (a ∷ as_) [] = a == 0
fs_name_eq (a ∷ as_) (b ∷ bs) =
    let rest = fs_name_eq as_ bs in
    if not (a == 0) && not (b == 0) then (if a == b then rest else false) else a == b

unfoldable pub fs_name_len : List ℕ → ℕ
fs_name_len [] = 0
fs_name_len (c ∷ s) = if c == 0 then 0 else suc (fs_name_len s)

-- The bytes of the name field after `fs_set_name`: the loop copies up to 99 bytes, and ends them.
unfoldable pub fs_set_name : (field name : List ℕ) → List ℕ
unfolding fs_name_len
fs_set_name field name =
    let n = min (fs_name_len name) (fs_name_max - 1) in set (copy field 0 name 0 n) n 0

-- Two names are equal for `fs_name_eq` exactly when a reader of the strings sees the same text.
pub fs_name_eq_sound : (a b : List ℕ) → fs_name_eq a b ≡ true → c_text a ≡ c_text b
unfolding fs_name_eq
fs_name_eq_sound [] [] h = refl
fs_name_eq_sound [] (b ∷ bs) h = ground arith
fs_name_eq_sound (a ∷ as_) [] h = ground arith
fs_name_eq_sound (a ∷ as_) (b ∷ bs) h = ground (arith, fs_name_eq_sound as_ bs)

pub fs_name_eq_complete : (a b : List ℕ) → c_text a ≡ c_text b → fs_name_eq a b ≡ true
unfolding fs_name_eq
fs_name_eq_complete [] [] h = refl
fs_name_eq_complete [] (b ∷ bs) h = ground arith
fs_name_eq_complete (a ∷ as_) [] h = ground arith
fs_name_eq_complete (a ∷ as_) (b ∷ bs) h = ground (arith, fs_name_eq_complete as_ bs)

pub fs_name_len-length : (s : List ℕ) → fs_name_len s ≡ length (c_text s)
unfolding fs_name_len
fs_name_len-length [] = refl
fs_name_len-length (c ∷ s) = ground (arith, fs_name_len-length s)

-- Bytes that agree with a string up to its length, and then end, read as the same text.
text_of_prefix :
    (xs ys : List ℕ) (n : ℕ)
    → n ≡ fs_name_len ys
    → ((j : ℕ) → j < n → get_or xs j 0 ≡ get_or ys j 0)
    → get_or xs n 0 ≡ 0
    → c_text xs ≡ c_text ys
unfolding fs_name_len
text_of_prefix [] [] n e h z = refl
text_of_prefix (x ∷ xs) [] n e h z =
    let z' = subst (λ k. get_or (x ∷ xs) k 0 ≡ 0) e z in ground arith
text_of_prefix [] (y ∷ ys) n e h z = ground (arith, h 0)
text_of_prefix (x ∷ xs) (y ∷ ys) n e h z = elim (Bool-cases (y == 0)) [
  | inl end ↦
      let none_left : n ≡ 0 = ground arith in
      let z' = subst (λ k. get_or (x ∷ xs) k 0 ≡ 0) none_left z in ground arith
  | inr more ↦
      let size : n ≡ suc (fs_name_len ys) = ground arith in
      let z' = subst (λ k. get_or (x ∷ xs) k 0 ≡ 0) size z in
      let rest = text_of_prefix xs ys (fs_name_len ys) refl (λ j l. h (suc j) (omega arith)) z' in
      let same : x ≡ y = h 0 (omega arith) in ground arith
]

-- A name field of 100 bytes reads as the name that was set, for a name of at most 99 characters.
pub text-fs_set_name :
    (field name : List ℕ)
    → length field ≡ fs_name_max
    → fs_name_len name ≤ fs_name_max - 1
    → c_text (fs_set_name field name) ≡ c_text name
unfolding fs_set_name
text-fs_set_name field name h k =
    let n = min (fs_name_len name) (fs_name_max - 1) in
    let size = length-copy field 0 name 0 n in
    text_of_prefix (set (copy field 0 name 0 n) n 0) name n (omega arith)
      (λ j l.
        ground (arith, get_or-set (copy field 0 name 0 n) n j 0, get_or-copy field 0 name 0 n j))
      (ground (arith, get_or-set (copy field 0 name 0 n) n n 0))
