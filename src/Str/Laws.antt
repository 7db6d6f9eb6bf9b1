-- ===== src/Str/Laws.antt =====
-- The functions of lib/string.c and the texts that their arguments stand for.
use kernel_basic.Prelude.{
  ℕ, zero, suc, ◌+◌, ◌-◌, ◌≤◌, ◌<◌, ◌≡◌, ◌↔◌, refl, ◌∙◌, ◌&&◌, List, [], ◌∷◌, ◌++◌, ltb, leb, ◌==◌,
  if◌then◌else◌, length, get_or, set, take, drop, arith, length-set, ltb→lt, ltb→le, if_ind,
}
use kernel_basic.Prelude.Int.{pos}
use kernel_basic.Prelude.Bytes.{c_text}
use kernel_basic.Prelude.Memory.{get_or-set, index_eq}
use kernel_basic.Str.{strlen, strcmp, strcpy, reverse_loop, reverse, strncmp}

pub strlen-length : (s : List ℕ) → strlen s ≡ length (c_text s)
unfolding strlen
strlen-length [] = refl
strlen-length (c ∷ s) = ground (arith, strlen-length s)

-- `strcmp` returns 0 exactly for equal texts.
pub strcmp_sound : (s t : List ℕ) → strcmp s t ≡ 0 → c_text s ≡ c_text t
unfolding strcmp
strcmp_sound [] [] h = refl
strcmp_sound [] (b ∷ t) h = ground arith
strcmp_sound (a ∷ s) [] h = ground arith
strcmp_sound (a ∷ s) (b ∷ t) h = ground (arith, strcmp_sound s t)

strcmp_complete : (s t : List ℕ) → c_text s ≡ c_text t → strcmp s t ≡ 0
unfolding strcmp
strcmp_complete [] [] h = refl
strcmp_complete [] (b ∷ t) h = ground arith
strcmp_complete (a ∷ s) [] h = ground arith
strcmp_complete (a ∷ s) (b ∷ t) h = ground (arith, strcmp_complete s t)

-- strcmp returns 0 exactly where the two strings read as the same text.
pub strcmp_iff : (s t : List ℕ) → (strcmp s t ≡ 0) ↔ (c_text s ≡ c_text t)
strcmp_iff s t = (strcmp_sound s t, strcmp_complete s t)

-- `strncmp` returns 0 exactly where the texts agree on their first `n` bytes.
pub strncmp_sound :
    (s t : List ℕ) (n : ℕ) → strncmp s t n ≡ pos 0 → take n (c_text s) ≡ take n (c_text t)
unfolding strncmp
strncmp_sound s t zero h = refl
strncmp_sound [] [] (suc n) h = refl
strncmp_sound [] (b ∷ t) (suc n) h = ground arith
strncmp_sound (a ∷ s) [] (suc n) h = ground arith
strncmp_sound (a ∷ s) (b ∷ t) (suc n) h = ground (arith, strncmp_sound s t n)

-- strcpy into a buffer at least as long as the text does not end the text: what stood behind the
-- copied bytes still follows.
pub text-strcpy :
    (to from : List ℕ)
    → strlen from ≤ length to
    → c_text (strcpy to from) ≡ c_text from ++ c_text (drop (strlen from) to)
unfolding strlen strcpy
text-strcpy to [] h = refl
text-strcpy [] (c ∷ s) h = ground arith
text-strcpy (t ∷ to) (c ∷ s) h = ground (arith, text-strcpy to s)

length-reverse_loop :
    (fuel : ℕ) (s : List ℕ) (i j : ℕ) → length (reverse_loop fuel s i j) ≡ length s
unfolding reverse_loop
length-reverse_loop zero s i j = refl
length-reverse_loop (suc n) s i j =
    if_ind (λ (r : List ℕ). length r ≡ length s) (ltb i j)
      (λ _.
        length-reverse_loop n _ (i + 1) (j - 1)
        ∙ length-set (set s i (get_or s j 0)) j (get_or s i 0)
        ∙ length-set s i (get_or s j 0))
      (λ _. refl)

-- One swap of the bytes at `i < j`.
get_or-swap :
    (s : List ℕ) (i j k : ℕ)
    → i < j
    → j < length s
    → get_or (set (set s i (get_or s j 0)) j (get_or s i 0)) k 0
      ≡ (if k == j then get_or s i 0 else if k == i then get_or s j 0 else get_or s k 0)
get_or-swap s i j k l h = ground (
  arith,
  length-set s i (get_or s j 0),
  get_or-set (set s i (get_or s j 0)) j k (get_or s i 0),
  get_or-set s i k (get_or s j 0),
)

-- Byte `k` of `s` with the bytes from `i` to `j` in the opposite order.
abbrev mirrored : List ℕ → (i j k : ℕ) → ℕ
mirrored s i j k = if leb i k && leb k j then get_or s (i + j - k) 0 else get_or s k 0

mirrored_done : (s : List ℕ) (i j k : ℕ) → j ≤ i → get_or s k 0 ≡ mirrored s i j k
mirrored_done s i j k h = ground (arith, index_eq s {i = i + j - k} {j = k})

mirrored_step :
    (s : List ℕ) (i j k : ℕ)
    → i < j
    → j < length s
    → mirrored (set (set s i (get_or s j 0)) j (get_or s i 0)) (i + 1) (j - 1) k ≡ mirrored s i j k
mirrored_step s i j k l h =
    let swapped = set (set s i (get_or s j 0)) j (get_or s i 0) in
    ground (
      arith,
      index_eq swapped {i = i + 1 + (j - 1) - k} {j = i + j - k},
      index_eq s {i = i + j - k} {j = j},
      index_eq s {i = i + j - k} {j = i},
      get_or-swap s i j k,
      get_or-swap s i j (i + j - k),
      index_eq s {i = k} {j = j},
      index_eq s {i = k} {j = i},
    )

-- With enough fuel the loop mirrors the bytes from `i` to `j`.
get_or-reverse_loop :
    (fuel : ℕ) (s : List ℕ) (i j k : ℕ)
    → j < length s
    → j ≤ i + fuel
    → get_or (reverse_loop fuel s i j) k 0 ≡ mirrored s i j k
unfolding reverse_loop
get_or-reverse_loop zero s i j k h f = mirrored_done s i j k (omega arith)
get_or-reverse_loop (suc n) s i j k h f =
    let swapped = set (set s i (get_or s j 0)) j (get_or s i 0) in
    let size : length swapped ≡ length s =
      length-set (set s i (get_or s j 0)) j (get_or s i 0) ∙ length-set s i (get_or s j 0) in
    if_ind (λ (r : List ℕ). get_or r k 0 ≡ mirrored s i j k) (ltb i j)
      (λ b.
        get_or-reverse_loop n swapped (i + 1) (j - 1) k (ground arith) (ground arith)
        ∙ mirrored_step s i j k (ltb→lt i j b) h)
      (λ b. mirrored_done s i j k (ltb→le i j b))

strlen_le : (s : List ℕ) → strlen s ≤ length s
unfolding strlen
strlen_le [] = omega arith
strlen_le (c ∷ s) = ground (arith, strlen_le s)

-- reverse turns the text round in place: byte k of the text becomes the byte that far from its
-- end, the NUL and what follows it stay, and the buffer keeps its length.
pub reverse_mirrors :
    (s : List ℕ) (k : ℕ)
    → (length (reverse s) ≡ length s)
      × (get_or (reverse s) k 0
          ≡ (if ltb k (strlen s) then get_or s (strlen s - 1 - k) 0 else get_or s k 0))
unfolding reverse
reverse_mirrors [] k = (refl, ground arith)
reverse_mirrors (c ∷ s) k =
    let n = strlen (c ∷ s) in
    let at =
      get_or-reverse_loop n (c ∷ s) 0 (n - 1) k (ground (arith, strlen_le (c ∷ s))) (omega arith) in
    (
      length-reverse_loop n (c ∷ s) 0 (n - 1),
      at
          ∙ ground (
            arith,
            index_eq (c ∷ s) {i = 0 + (n - 1) - k} {j = n - 1 - k},
            index_eq (c ∷ s) {i = 0 + (n - 1) - k} {j = k},
          ),
    )
