-- ===== src/Heap/Layout.antt =====
-- The blocks of lib/heap.c in the heap's region.
use kernel_basic.Prelude.{
  ℕ, ◌+◌, ◌%◌, ◌≤◌, ◌<◌, ◌≡◌, refl, Bool, true, false, ◌&&◌, List, [], ◌∷◌, arith, Bool-cases, inl,
  inr, ◌∙◌,
}
use mathlib.Core.Path.{subst}
use kernel_basic.Heap.{Block, Heap, heap_start, heap_size, header_size, u32, coalesce_from, join}

-- From `start` to `stop` the blocks follow one another, with sizes that are multiples of 4.
abbrev pub Tiles : ℕ → List Block → ℕ → Type 0
Tiles start [] stop = start ≡ stop
Tiles start (b ∷ bs) stop =
    (b.addr ≡ start) × (b.size % 4 ≡ 0) × Tiles (start + header_size + b.size) bs stop

-- The block before is free, and so is the first of these.
abbrev pub both_free : Block → List Block → Bool
both_free b [] = false
both_free b (n ∷ bs) = b.free && n.free

abbrev pub IsCoalesced : List Block → Type 0
IsCoalesced [] = Unit {0}
IsCoalesced (b ∷ bs) = (both_free b bs ≡ false) × IsCoalesced bs

abbrev pub heap_end : ℕ
heap_end = heap_start + heap_size

pub record IsValid (h : Heap) : Type 0 where
  pub ready : h.initialized ≡ true
  pub tiles : Tiles heap_start h.blocks heap_end
  pub coalesced : IsCoalesced h.blocks

pub Tiles-le : (start : ℕ) (bs : List Block) (stop : ℕ) → Tiles start bs stop → start ≤ stop
Tiles-le start [] stop t = omega arith
Tiles-le start (b ∷ bs) stop t = omega (arith, Tiles-le (start + header_size + b.size) bs stop t.2)

module _ (b n : Block) (bs : List Block) where
  pub coalesce_from-join :
      (b.free && n.free) ≡ true → coalesce_from b (n ∷ bs) ≡ coalesce_from (join b n) bs
  unfolding coalesce_from
  coalesce_from-join h = rw (h, coalesce_from)

  pub coalesce_from-keep :
      (b.free && n.free) ≡ false → coalesce_from b (n ∷ bs) ≡ b ∷ coalesce_from n bs
  unfolding coalesce_from
  coalesce_from-keep h = rw (h, coalesce_from)

  -- Joining two neighbours that lie below 2 ^ 32 does not wrap.
  pub join-Tiles :
      (start stop : ℕ)
      → stop < u32
      → Tiles start (b ∷ n ∷ bs) stop
      → ((join b n).size ≡ b.size + header_size + n.size) × Tiles start (join b n ∷ bs) stop
  join-Tiles start stop h t =
      let end = start + header_size + b.size + header_size + n.size in
      let below : end ≤ stop = Tiles-le end bs stop t.2.2 in
      let whole : (join b n).size ≡ b.size + header_size + n.size = omega arith in
      let same : end ≡ start + header_size + (join b n).size = omega arith in
      (whole, (t.0, omega arith, subst (λ k. Tiles k bs stop) same t.2.2))

-- Coalescing keeps the tiling.
pub coalesce_from-Tiles :
    (start : ℕ) (b : Block) (bs : List Block) (stop : ℕ)
    → stop < u32
    → Tiles start (b ∷ bs) stop
    → Tiles start (coalesce_from b bs) stop
coalesce_from-Tiles start b [] stop h t = unfold coalesce_from in t
coalesce_from-Tiles start b (n ∷ bs) stop h t = elim (Bool-cases (b.free && n.free)) [
  | inl both ↦
      rw (coalesce_from-join b n bs both)
        (coalesce_from-Tiles start (join b n) bs stop h (join-Tiles b n bs start stop h t).1)
  | inr apart ↦
      rw (coalesce_from-keep b n bs apart)
        (t.0, t.1, coalesce_from-Tiles (start + header_size + b.size) n bs stop h t.2)
]

-- The first block of what coalescing leaves is free as the first block was.
pub both_free-coalesce_from :
    (c b : Block) (bs : List Block) → both_free c (coalesce_from b bs) ≡ (c.free && b.free)
both_free-coalesce_from c b [] = unfold coalesce_from in refl
both_free-coalesce_from c b (n ∷ bs) = elim (Bool-cases (b.free && n.free)) [
  | inl both ↦ rw (coalesce_from-join b n bs both) (both_free-coalesce_from c (join b n) bs)
  | inr apart ↦ rw (coalesce_from-keep b n bs apart)
]

-- What coalescing leaves has no two free neighbours, whatever it began with.
pub coalesce_from-IsCoalesced : (b : Block) (bs : List Block) → IsCoalesced (coalesce_from b bs)
coalesce_from-IsCoalesced b [] = unfold coalesce_from in (refl, tt)
coalesce_from-IsCoalesced b (n ∷ bs) = elim (Bool-cases (b.free && n.free)) [
  | inl both ↦ rw (coalesce_from-join b n bs both) (coalesce_from-IsCoalesced (join b n) bs)
  | inr apart ↦
      rw (coalesce_from-keep b n bs apart)
        (both_free-coalesce_from b n bs ∙ apart, coalesce_from-IsCoalesced n bs)
]

-- Coalescing has nothing to do where no two free blocks are neighbours.
pub coalesce_from-id :
    (b : Block) (bs : List Block) → IsCoalesced (b ∷ bs) → coalesce_from b bs ≡ b ∷ bs
coalesce_from-id b [] c = unfold coalesce_from in refl
coalesce_from-id b (n ∷ bs) c = rw (coalesce_from-keep b n bs c.0, coalesce_from-id n bs c.1)
