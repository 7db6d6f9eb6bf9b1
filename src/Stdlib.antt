-- ===== src/Stdlib.antt =====
-- lib/stdlib.c: numbers to text and back. A `char *` is the list of the bytes from it on.
pub mod Decimal
use kernel_basic.Prelude.{
  ℕ, zero, suc, ◌+◌, ◌-◌, ◌/◌, ◌%◌, Bool, true, false, List, [], ◌∷◌, ◌==◌, if◌then◌else◌, set, ltb,
}
use kernel_basic.Prelude.Int.{ℤ, pos, negsuc, ◌+ℤ◌, ◌-ℤ◌, ◌*ℤ◌}
use kernel_basic.Str.{reverse}

-- The value of an `int` of 32 bits after an operation, which wraps around.
unfoldable pub int32 : ℤ → ℤ
int32 (pos n) =
    let r = n % 4294967296 in if ltb r 2147483648 then pos r else negsuc (4294967295 - r)
int32 (negsuc n) =
    let r = n % 4294967296 in if ltb r 2147483648 then negsuc r else pos (4294967295 - r)

-- The loop of `atoi`, from the number read so far.
unfoldable pub atoi_loop : List ℕ → ℤ → ℤ
unfolding int32
atoi_loop [] res = res
atoi_loop (a ∷ s) res =
    let rest = atoi_loop s (int32 (res *ℤ pos 10 +ℤ pos a -ℤ pos 48)) in
    if a == 0 then res else rest

unfoldable pub atoi : List ℕ → ℤ
unfolding atoi_loop
atoi s = atoi_loop s (pos 0)

-- The `do … while ((n /= 10) > 0)` loop, which writes the digits from the last on; the bytes
-- afterwards, and the index behind the digits. `n` digits are enough fuel.
unfoldable pub digits : (fuel : ℕ) → List ℕ → (i n : ℕ) → List ℕ × ℕ
digits zero s i n = (s, i)
digits (suc fuel) s i n =
    let s' = set s i (n % 10 + 48) in
    let rest = digits fuel s' (i + 1) (n / 10) in if n / 10 == 0 then (s', i + 1) else rest

-- `n` has no more digits than `n + 1`.
unfoldable pub itoa : List ℕ → ℤ → List ℕ
unfolding digits
itoa s (pos n) = let (s, i) = digits (n + 1) s 0 n in reverse (set s i 0)
itoa s (negsuc n) = let (s, i) = digits (n + 2) s 0 (n + 1) in reverse (set (set s i 45) (i + 1) 0)
