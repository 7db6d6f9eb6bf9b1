-- ===== src/Prelude/Memory.antt =====
-- Loops over a byte array, each with what one cell holds afterwards.
use Prim.Native.Nat.{ℕ, zero, suc, ◌+◌, ◌-◌, ◌≤◌, ◌<◌}
use mathlib.Core.Path.{◌≡◌, refl, ap, ap₂, ◌∙◌}
use mathlib.Core.Bool.{◌&&◌}
use mathlib.Core.List.{List, [], ◌∷◌, ◌++◌}
use native.Mathlib.Omega.{arith}
use kernel_basic.Prelude.Tests.{ltb, leb, ◌==◌, if◌then◌else◌}
use kernel_basic.Prelude.Lists.{
  length, get_or, set, take, drop, length-set, get_or-set_self, get_or-set_ne,
}

-- Two arrays of one length that agree at each index are equal.
pub list_ext :
    (xs ys : List ℕ)
    → length xs ≡ length ys
    → ((j : ℕ) → j < length xs → get_or xs j 0 ≡ get_or ys j 0)
    → xs ≡ ys
list_ext [] [] e h = refl
list_ext [] (y ∷ ys) e h = absurd (omega arith)
list_ext (x ∷ xs) [] e h = absurd (omega arith)
list_ext (x ∷ xs) (y ∷ ys) e h =
    ap₂ ◌∷◌ (h 0 (omega arith)) (list_ext xs ys (omega arith) (λ j l. h (suc j) (omega arith)))

pub index_eq : (xs : List ℕ) {i j : ℕ} → i ≡ j → get_or xs i 0 ≡ get_or xs j 0
index_eq xs e = ap (λ k. get_or xs k 0) e

pub get_or-append :
    (xs ys : List ℕ) (j : ℕ)
    → get_or (xs ++ ys) j 0
      ≡ (if ltb j (length xs) then get_or xs j 0 else get_or ys (j - length xs) 0)
get_or-append [] ys j = ground arith
get_or-append (x ∷ xs) ys zero = ground arith
get_or-append (x ∷ xs) ys (suc j) = ground (arith, get_or-append xs ys j)

pub get_or-take :
    (n : ℕ) (xs : List ℕ) (j : ℕ) → get_or (take n xs) j 0 ≡ (if ltb j n then get_or xs j 0 else 0)
get_or-take zero xs j = ground arith
get_or-take (suc n) [] j = ground arith
get_or-take (suc n) (x ∷ xs) zero = ground arith
get_or-take (suc n) (x ∷ xs) (suc j) = ground (arith, get_or-take n xs j)

pub get_or-drop : (n : ℕ) (xs : List ℕ) (j : ℕ) → get_or (drop n xs) j 0 ≡ get_or xs (n + j) 0
get_or-drop zero xs j = ground arith
get_or-drop (suc n) [] j = refl
get_or-drop (suc n) (x ∷ xs) j =
    get_or-drop n xs j ∙ index_eq (x ∷ xs) {i = suc (n + j)} (omega arith)

pub get_or-set :
    (xs : List ℕ) (i j v : ℕ)
    → i < length xs
    → get_or (set xs i v) j 0 ≡ (if i == j then v else get_or xs j 0)
get_or-set xs i j v h = ground (arith, get_or-set_self xs i v 0, get_or-set_ne xs i j v 0)

-- for (k = i; k < i + n; k++) d[k] = v;
unfoldable pub fill : List ℕ → ℕ → ℕ → ℕ → List ℕ
fill d i zero v = d
fill d i (suc n) v = fill (set d i v) (i + 1) n v

pub length-fill : (d : List ℕ) (i n v : ℕ) → length (fill d i n v) ≡ length d
unfolding fill
length-fill d i zero v = refl
length-fill d i (suc n) v = length-fill (set d i v) (i + 1) n v ∙ length-set d i v

pub get_or-fill :
    (d : List ℕ) (i n v j : ℕ)
    → i + n ≤ length d
    → get_or (fill d i n v) j 0 ≡ (if leb i j && ltb j (i + n) then v else get_or d j 0)
unfolding fill
get_or-fill d i zero v j h = ground arith
get_or-fill d i (suc n) v j h =
    ground (arith, get_or-fill (set d i v) (i + 1) n v j, length-set d i v, get_or-set d i j v)

-- for (k = 0; k < n; k++) d[dst + k] = s[src + k]; between two arrays
unfoldable pub copy : List ℕ → ℕ → List ℕ → ℕ → ℕ → List ℕ
copy d dst s src zero = d
copy d dst s src (suc n) = copy (set d dst (get_or s src 0)) (dst + 1) s (src + 1) n

pub length-copy :
    (d : List ℕ) (dst : ℕ) (s : List ℕ) (src n : ℕ) → length (copy d dst s src n) ≡ length d
unfolding copy
length-copy d dst s src zero = refl
length-copy d dst s src (suc n) =
    length-copy (set d dst (get_or s src 0)) (dst + 1) s (src + 1) n
    ∙ length-set d dst (get_or s src 0)

pub get_or-copy :
    (d : List ℕ) (dst : ℕ) (s : List ℕ) (src n j : ℕ)
    → dst + n ≤ length d
    → get_or (copy d dst s src n) j 0
      ≡ (if leb dst j && ltb j (dst + n) then get_or s (src + (j - dst)) 0 else get_or d j 0)
unfolding copy
get_or-copy d dst s src zero j h = ground arith
get_or-copy d dst s src (suc n) j h = ground (
  arith,
  get_or-copy (set d dst (get_or s src 0)) (dst + 1) s (src + 1) n j,
  length-set d dst (get_or s src 0),
  get_or-set d dst j (get_or s src 0),
)

-- for (k = 0; k < n; k++) d[dst + k] = d[src + k]; in one array
unfoldable pub copy_down : List ℕ → ℕ → ℕ → ℕ → List ℕ
copy_down d dst src zero = d
copy_down d dst src (suc n) = copy_down (set d dst (get_or d src 0)) (dst + 1) (src + 1) n

pub length-copy_down : (d : List ℕ) (dst src n : ℕ) → length (copy_down d dst src n) ≡ length d
unfolding copy_down
length-copy_down d dst src zero = refl
length-copy_down d dst src (suc n) =
    length-copy_down (set d dst (get_or d src 0)) (dst + 1) (src + 1) n
    ∙ length-set d dst (get_or d src 0)

-- Towards lower indices a cell is read before it is written, so the ranges may overlap.
pub get_or-copy_down :
    (d : List ℕ) (dst src n j : ℕ)
    → dst < src
    → src + n ≤ length d
    → get_or (copy_down d dst src n) j 0
      ≡ (if leb dst j && ltb j (dst + n) then get_or d (src + (j - dst)) 0 else get_or d j 0)
unfolding copy_down
get_or-copy_down d dst src zero j o h = ground arith
get_or-copy_down d dst src (suc n) j o h = ground (
  arith,
  get_or-copy_down (set d dst (get_or d src 0)) (dst + 1) (src + 1) n j,
  length-set d dst (get_or d src 0),
  get_or-set d dst j (get_or d src 0),
  get_or-set d dst (src + 1 + (j - (dst + 1))) (get_or d src 0),
)

-- for (k = i + n; k > i; k--) d[k] = d[k - 1];
unfoldable pub shift_up : List ℕ → ℕ → ℕ → List ℕ
shift_up d i zero = d
shift_up d i (suc n) = shift_up (set d (i + n + 1) (get_or d (i + n) 0)) i n

pub length-shift_up : (d : List ℕ) (i n : ℕ) → length (shift_up d i n) ≡ length d
unfolding shift_up
length-shift_up d i zero = refl
length-shift_up d i (suc n) =
    length-shift_up (set d (i + n + 1) (get_or d (i + n) 0)) i n
    ∙ length-set d (i + n + 1) (get_or d (i + n) 0)

shift_up_step :
    (i n j last at_j before at_j' before' : ℕ)
    → at_j' ≡ (if i + n + 1 == j then last else at_j)
    → before' ≡ (if i + n + 1 == j - 1 then last else before)
    → (j ≡ i + n + 1 → before ≡ last)
    → (if ltb i j && leb j (i + n) then before' else at_j')
      ≡ (if ltb i j && leb j (i + suc n) then before else at_j)
shift_up_step i n j last at_j before at_j' before' e f g = ground arith

pub get_or-shift_up :
    (d : List ℕ) (i n j : ℕ)
    → i + n < length d
    → get_or (shift_up d i n) j 0
      ≡ (if ltb i j && leb j (i + n) then get_or d (j - 1) 0 else get_or d j 0)
unfolding shift_up
get_or-shift_up d i zero j h = ground arith
get_or-shift_up d i (suc n) j h =
    let v = get_or d (i + n) 0 in
    let d' = set d (i + n + 1) v in
    let inside : i + n + 1 < length d = omega arith in
    get_or-shift_up d' i n j (omega (arith, length-set d (i + n + 1) v))
    ∙ shift_up_step i n j v _ _ _ _ (get_or-set d (i + n + 1) j v inside)
        (get_or-set d (i + n + 1) (j - 1) v inside) (λ e. index_eq d (omega arith))
