-- ===== src/Str.antt =====
-- lib/string.c: the kernel's own string functions. A `char *` is the list of the bytes from it on;
-- the end of the list stands for a NUL.
pub mod Laws
use kernel_basic.Prelude.{
  ℕ, zero, suc, ◌+◌, ◌-◌, ◌%◌, Bool, true, false, not, ◌&&◌, List, [], ◌∷◌, ltb, ◌==◌,
  if◌then◌else◌, get_or, set,
}
use kernel_basic.Prelude.Int.{ℤ, pos, negsuc}
use kernel_basic.Prelude.Memory.{copy, fill}

unfoldable pub strlen : List ℕ → ℕ
strlen [] = 0
strlen (c ∷ s) = if c == 0 then 0 else suc (strlen s)

-- The loop of `strcmp` over `n` bytes: 1 at the first difference.
unfoldable pub differs : (n : ℕ) → List ℕ → List ℕ → ℕ
differs zero s t = 0
differs (suc n) [] t = 0
differs (suc n) (a ∷ s) [] = 1
differs (suc n) (a ∷ s) (b ∷ t) = let rest = differs n s t in if a == b then rest else 1

unfoldable pub strcmp : List ℕ → List ℕ → ℕ
unfolding strlen differs
strcmp s t = if strlen s == strlen t then differs (strlen s) s t else 1

-- The bytes at `buf_to` afterwards. The NUL of `buf_from` is not copied. A target that is too short
-- is written past its end, which is not modelled.
unfoldable pub strcpy : (buf_to buf_from : List ℕ) → List ℕ
strcpy to [] = to
strcpy [] (c ∷ s) = []
strcpy (t ∷ to) (c ∷ s) = if c == 0 then t ∷ to else c ∷ strcpy to s

-- `for (…; i < j; i++, j--)` swaps the bytes at `i` and `j`; half the length is enough fuel.
unfoldable pub reverse_loop : (fuel : ℕ) → List ℕ → (i j : ℕ) → List ℕ
reverse_loop zero s i j = s
reverse_loop (suc n) s i j =
    let rest = reverse_loop n (set (set s i (get_or s j 0)) j (get_or s i 0)) (i + 1) (j - 1) in
    if ltb i j then rest else s

unfoldable pub reverse : List ℕ → List ℕ
unfolding reverse_loop strlen
reverse s = reverse_loop (strlen s) s 0 (strlen s - 1)

unfoldable pub strncmp : List ℕ → List ℕ → (n : ℕ) → ℤ
strncmp s t zero = pos 0
strncmp [] [] (suc n) = pos 0
strncmp [] (b ∷ t) (suc n) = if b == 0 then pos 0 else negsuc 0
strncmp (a ∷ s) [] (suc n) = if a == 0 then pos 0 else pos 1
strncmp (a ∷ s) (b ∷ t) (suc n) =
    let rest = strncmp s t n in
    if a == b then (if a == 0 then pos 0 else rest) else if ltb a b then negsuc 0 else pos 1

unfoldable pub memcpy : (dst src : List ℕ) → (n : ℕ) → List ℕ
memcpy dst src n = copy dst 0 src 0 n

unfoldable pub memset : List ℕ → (c n : ℕ) → List ℕ
memset dst c n = fill dst 0 n (c % 256)
