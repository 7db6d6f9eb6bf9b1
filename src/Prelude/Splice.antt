-- ===== src/Prelude/Splice.antt =====
-- Texts with one element more, or one less: what insertion and deletion mean.
use Prim.Native.Nat.{ℕ, zero, suc, ◌+◌, ◌-◌, ◌≤◌, ◌<◌}
use mathlib.Core.Path.{◌≡◌, refl, ap}
use mathlib.Core.List.{List, [], ◌∷◌, ◌++◌}
use native.Mathlib.Omega.{arith}
use kernel_basic.Prelude.Tests.{ltb, ◌==◌, if◌then◌else◌}
use kernel_basic.Prelude.Lists.{
  length, get_or, set, take, drop, length-append, length-take, length-drop,
}
use kernel_basic.Prelude.Memory.{list_ext, get_or-append, get_or-take, get_or-drop, index_eq}

unfoldable pub insert_at : ℕ → ℕ → List ℕ → List ℕ
insert_at n c xs = take n xs ++ (c ∷ drop n xs)

unfoldable pub remove_at : ℕ → List ℕ → List ℕ
remove_at n xs = take n xs ++ drop (n + 1) xs

pub length-insert_at :
    (n c : ℕ) (xs : List ℕ) → n ≤ length xs → length (insert_at n c xs) ≡ length xs + 1
unfolding insert_at
length-insert_at n c xs h =
    omega (arith, length-append (take n xs) (c ∷ drop n xs), length-take n xs, length-drop n xs)

pub length-remove_at :
    (n : ℕ) (xs : List ℕ) → n < length xs → length (remove_at n xs) + 1 ≡ length xs
unfolding remove_at
length-remove_at n xs h =
    omega
      (arith, length-append (take n xs) (drop (n + 1) xs), length-take n xs, length-drop (n + 1) xs)

get_or-cons :
    (c : ℕ) (xs : List ℕ) (k : ℕ)
    → get_or (c ∷ xs) k 0 ≡ (if k == 0 then c else get_or xs (k - 1) 0)
get_or-cons c xs zero = refl
get_or-cons c xs (suc k) = ground (arith, index_eq xs {i = k} {j = suc k - 1} (omega arith))

pub get_or-insert_at :
    (n c : ℕ) (xs : List ℕ) (j : ℕ)
    → n ≤ length xs
    → get_or (insert_at n c xs) j 0
      ≡ (if ltb j n then get_or xs j 0 else if j == n then c else get_or xs (j - 1) 0)
unfolding insert_at
get_or-insert_at n c xs j h = ground (
  arith,
  get_or-append (take n xs) (c ∷ drop n xs) j,
  length-take n xs,
  get_or-take n xs j,
  get_or-cons c (drop n xs) (j - n),
  get_or-drop n xs (j - n - 1),
)

pub get_or-remove_at :
    (n : ℕ) (xs : List ℕ) (j : ℕ)
    → n ≤ length xs
    → get_or (remove_at n xs) j 0 ≡ (if ltb j n then get_or xs j 0 else get_or xs (j + 1) 0)
unfolding remove_at
get_or-remove_at n xs j h = ground (
  arith,
  get_or-append (take n xs) (drop (n + 1) xs) j,
  length-take n xs,
  get_or-take n xs j,
  get_or-drop (n + 1) xs (j - n),
)

-- Removing what was inserted gives the text back.
pub remove_at-insert_at :
    (n c : ℕ) (xs : List ℕ) → n ≤ length xs → remove_at n (insert_at n c xs) ≡ xs
remove_at-insert_at n c xs h =
    list_ext _ _ (omega (arith, length-insert_at n c xs h, length-remove_at n (insert_at n c xs)))
      λ j _. ground (
        arith,
        length-insert_at n c xs h,
        get_or-remove_at n (insert_at n c xs) j,
        get_or-insert_at n c xs j h,
        get_or-insert_at n c xs (j + 1) h,
      )

pub take-take : (m n : ℕ) (xs : List ℕ) → m ≤ n → take m (take n xs) ≡ take m xs
take-take zero n xs h = refl
take-take (suc m) zero xs h = absurd (omega arith)
take-take (suc m) (suc n) [] h = refl
take-take (suc m) (suc n) (x ∷ xs) h = ap (λ ys. x ∷ ys) (take-take m n xs (omega arith))

pub take-set : (n : ℕ) (xs : List ℕ) (v : ℕ) → take n (set xs n v) ≡ take n xs
take-set zero xs v = refl
take-set (suc n) [] v = refl
take-set (suc n) (x ∷ xs) v = ap (λ ys. x ∷ ys) (take-set n xs v)

pub take-set-last :
    (n : ℕ) (xs : List ℕ) (v : ℕ)
    → n < length xs
    → take (suc n) (set xs n v) ≡ take n xs ++ (v ∷ [])
take-set-last zero [] v h = absurd (omega arith)
take-set-last zero (x ∷ xs) v h = refl
take-set-last (suc n) [] v h = absurd (omega arith)
take-set-last (suc n) (x ∷ xs) v h = ap (λ ys. x ∷ ys) (take-set-last n xs v (omega arith))
