-- ===== src/Stdlib/Decimal.antt =====
-- `atoi` of lib/stdlib.c on digits.
use kernel_basic.Prelude.{
  ℕ, ◌+◌, ◌-◌, ◌*◌, ◌≤◌, ◌<◌, ◌≡◌, ap, ◌∙◌, Bool, true, false, List, [], ◌∷◌, ◌++◌, ◌==◌, leb, ◌&&◌,
  if◌then◌else◌, arith,
}
use kernel_basic.Prelude.Int.{pos, ◌+ℤ◌, ◌-ℤ◌, ◌*ℤ◌}
use kernel_basic.Stdlib.{int32, atoi_loop, atoi}

-- A text of digits.
abbrev pub all_digits : List ℕ → Bool
all_digits [] = true
all_digits (c ∷ s) = leb 48 c && (leb c 57 && all_digits s)

-- The number that a text of digits stands for, behind the number read before it.
abbrev pub value : ℕ → List ℕ → ℕ
value n [] = n
value n (c ∷ s) = value (n * 10 + (c - 48)) s

digit_sum : (n c : ℕ) → 48 ≤ c → pos n *ℤ pos 10 +ℤ pos c -ℤ pos 48 ≡ pos (n * 10 + (c - 48))
unfolding ◌+ℤ◌ ◌-ℤ◌ ◌*ℤ◌
digit_sum n c h = ground arith

int32-pos : (n : ℕ) → n < 2147483648 → int32 (pos n) ≡ pos n
unfolding int32
int32-pos n h = ground arith

digit_step :
    (n c : ℕ)
    → 48 ≤ c
    → n * 10 + (c - 48) < 2147483648
    → int32 (pos n *ℤ pos 10 +ℤ pos c -ℤ pos 48) ≡ pos (n * 10 + (c - 48))
digit_step n c h l = ap int32 (digit_sum n c h) ∙ int32-pos (n * 10 + (c - 48)) l

value-from : (n : ℕ) (s : List ℕ) → n ≤ value n s
value-from n [] = omega arith
value-from n (c ∷ s) = omega (arith, value-from (n * 10 + (c - 48)) s)

atoi_loop-value :
    (s rest : List ℕ) (n : ℕ)
    → all_digits s ≡ true
    → value n s < 2147483648
    → atoi_loop (s ++ (0 ∷ rest)) (pos n) ≡ pos (value n s)
unfolding atoi_loop
atoi_loop-value [] rest n h l = ground arith
atoi_loop-value (c ∷ s) rest n h l =
    let low : 48 ≤ c = ground arith in
    let m = n * 10 + (c - 48) in
    let not_end : (c == 0) ≡ false = ground arith in
    ap
      (λ b.
        if b
        then pos n
        else atoi_loop (s ++ (0 ∷ rest)) (int32 (pos n *ℤ pos 10 +ℤ pos c -ℤ pos 48)))
      not_end
    ∙ ap (atoi_loop (s ++ (0 ∷ rest))) (digit_step n c low (omega (arith, l, value-from m s)))
    ∙ atoi_loop-value s rest m (ground arith) l

-- atoi reads a text of digits whose number in base ten is below 2 ^ 31 as that number, whatever
-- follows its NUL.
pub atoi-value :
    (s rest : List ℕ)
    → all_digits s ≡ true
    → value 0 s < 2147483648
    → atoi (s ++ (0 ∷ rest)) ≡ pos (value 0 s)
unfolding atoi
atoi-value s rest h l = atoi_loop-value s rest 0 h l
