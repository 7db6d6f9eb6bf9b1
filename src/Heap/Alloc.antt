-- ===== src/Heap/Alloc.antt =====
-- `kmalloc` of lib/heap.c: the block that it hands out and the heap that it leaves.
use kernel_basic.Prelude.{
  ℕ, ◌+◌, ◌-◌, ◌%◌, ◌≤◌, ◌<◌, ◌≡◌, refl, Bool, true, false, ◌&&◌, List, [], ◌∷◌, Option, none, some,
  leb, leb→le, if◌then◌else◌, arith, ◌∙◌, sym, if_ind,
}
use mathlib.Core.Option
use mathlib.Core.Path.{subst}
use kernel_basic.Heap.{
  Block, Heap, heap_start, header_size, u32, heap_init, align4, take_block, first_fit, finish,
  kmalloc,
}
use kernel_basic.Heap.Layout.{Tiles, IsCoalesced, both_free, Tiles-le, IsValid, heap_end}

-- The allocations in use: the address behind the header, and the usable size.
abbrev pub live : List Block → List (ℕ × ℕ)
live [] = []
live (b ∷ bs) = if b.free then live bs else (b.addr + header_size, b.size) ∷ live bs

-- `ys` is `xs` with the allocation `a` put in somewhere.
pub data Inserted (a : ℕ × ℕ) : List (ℕ × ℕ) → List (ℕ × ℕ) → Type 0 where
  here : {xs : List (ℕ × ℕ)} → Inserted a xs (a ∷ xs)
  there : {x : ℕ × ℕ} {xs ys : List (ℕ × ℕ)} → Inserted a xs ys → Inserted a (x ∷ xs) (x ∷ ys)

-- What a search that succeeds has done.
pub record Served (size start stop : ℕ) (bs : List Block) (p : ℕ) (cs : List Block) : Type 0 where
  pub tiles : Tiles start cs stop
  pub coalesced : IsCoalesced cs
  pub usable : ℕ
  pub enough : size ≤ usable
  pub above : start + header_size ≤ p
  pub below : p + usable ≤ stop
  pub aligned : start % 4 ≡ 0 → p % 4 ≡ 0
  pub added : Inserted (p, usable) (live bs) (live cs)

both_free-same : (b c : Block) (bs : List Block) → b.free ≡ c.free → both_free b bs ≡ both_free c bs
both_free-same b c [] e = refl
both_free-same b c (n ∷ bs) e = rw e

both_free-used : (b : Block) (bs : List Block) → b.free ≡ false → both_free b bs ≡ false
both_free-used b [] e = refl
both_free-used b (n ∷ bs) e = rw e

take_block-Served :
    (size start stop : ℕ) (b : Block) (bs : List Block)
    → stop + 16 < u32
    → size % 4 ≡ 0
    → b.free ≡ true
    → size ≤ b.size
    → Tiles start (b ∷ bs) stop
    → IsCoalesced (b ∷ bs)
    → Served size start stop (b ∷ bs) (b.addr + header_size) (take_block size b bs)
unfolding take_block
take_block-Served size start stop b bs h m f e t c =
    let low = Tiles-le (start + header_size + b.size) bs stop t.2 in
    if_ind (Served size start stop (b ∷ bs) (b.addr + header_size))
      (leb ((size + header_size + 4) % u32) b.size)
      (λ split.
        let room = leb→le _ _ split in
        record {
          tiles = (t.0, m, (rw t.0, omega arith, subst (λ k. Tiles k bs stop) (omega arith) t.2));
          coalesced = (
            refl,
            (
              both_free-same
                    (record {
                      addr = b.addr + header_size + size;
                      size = b.size - size - header_size;
                      free = true;
                    })
                    b bs (sym f)
                  ∙ c.0,
              c.1,
            ),
          );
          usable = size;
          enough = omega arith;
          above = omega arith;
          below = omega arith;
          aligned = λ a. omega arith;
          added = rw f here;
        })
      (λ whole. record {
        tiles = (t.0, t.1, t.2);
        coalesced = (both_free-used (record b { free = false }) bs refl, c.1);
        usable = b.size;
        enough = e;
        above = omega arith;
        below = omega arith;
        aligned = λ a. omega arith;
        added = rw f here;
      })

-- No block can serve the request.
abbrev pub NoneFits : ℕ → List Block → Type 0
NoneFits size [] = Unit {0}
NoneFits size (b ∷ bs) = ((b.free && leb size b.size) ≡ false) × NoneFits size bs

-- A search fails only where no block fits. One that succeeds leaves a tiled heap, and adds to the
-- allocations in use exactly one, with at least the size asked for, inside the region.
abbrev pub Searched : (size start stop : ℕ) → List Block → Option (ℕ × List Block) → Type 0
Searched size start stop bs none = NoneFits size bs
Searched size start stop bs (some (p, cs)) = Served size start stop bs p cs

Inserted-live :
    (a : ℕ × ℕ) (b : Block) (bs cs : List Block)
    → Inserted a (live bs) (live cs)
    → Inserted a (live (b ∷ bs)) (live (b ∷ cs))
Inserted-live a b bs cs i = go b.free
  where
    go :
        (f : Bool)
        → Inserted a
            (if f then live bs else (b.addr + header_size, b.size) ∷ live bs)
            (if f then live cs else (b.addr + header_size, b.size) ∷ live cs)
    go true = i
    go false = there i

-- The block before keeps its place before what the search leaves.
Searched-cons :
    (size start stop : ℕ) (b : Block) (bs : List Block) (r : Option (ℕ × List Block))
    → Tiles start (b ∷ bs) stop
    → (b.free && leb size b.size) ≡ false
    → ((p : ℕ) (cs : List Block) → r ≡ some (p, cs) → both_free b cs ≡ false)
    → Searched size (start + header_size + b.size) stop bs r
    → Searched size start stop (b ∷ bs) (Option.map (λ (p, cs). (p, b ∷ cs)) r)
Searched-cons size start stop b bs none t f k s = (f, s)
Searched-cons size start stop b bs (some (p, cs)) t f k s = record {
  tiles = (t.0, t.1, s.tiles);
  coalesced = (k p cs refl, s.coalesced);
  usable = s.usable;
  enough = s.enough;
  above = omega (arith, s.above);
  below = s.below;
  aligned = λ a. s.aligned (omega arith);
  added = Inserted-live (p, s.usable) b bs cs s.added;
}

-- Behind a block that keeps its flag the search leaves no second free one.
both_free-first_fit :
    (size : ℕ) (b : Block) (bs : List Block) (p : ℕ) (cs : List Block)
    → both_free b bs ≡ false
    → first_fit size bs ≡ some (p, cs)
    → both_free b cs ≡ false
unfolding first_fit take_block
both_free-first_fit size b [] p cs e q = cc
both_free-first_fit size b (n ∷ bs) p cs e q = ground arith

pub first_fit-Searched :
    (size start stop : ℕ) (bs : List Block)
    → stop + 16 < u32
    → size % 4 ≡ 0
    → Tiles start bs stop
    → IsCoalesced bs
    → Searched size start stop bs (first_fit size bs)
unfolding first_fit
first_fit-Searched size start stop [] h m t c = tt
first_fit-Searched size start stop (b ∷ bs) h m t c =
    if_ind (Searched size start stop (b ∷ bs)) (b.free && leb size b.size)
      (λ fits. take_block-Served size start stop b bs h m (ground arith) (ground arith) t c)
      (λ misses.
        Searched-cons size start stop b bs (first_fit size bs) t misses
          (λ p cs q. both_free-first_fit size b bs p cs c.0 q)
          (first_fit-Searched size (start + header_size + b.size) stop bs h m t.2 c.1))

-- What `kmalloc` promises: NULL only if no block fits, and then nothing changes; else a 4-aligned
-- pointer to at least `size` bytes inside the region, which is the one allocation that is new.
abbrev pub Allocated : (size : ℕ) → Heap → Option ℕ × Heap → Type 0
Allocated size h (none, h') = NoneFits (align4 size) h.blocks × (h' ≡ h)
Allocated size h (some p, h') =
    (usable : ℕ) × (size ≤ usable)
    × (heap_start + header_size ≤ p)
    × (p + usable ≤ heap_end)
    × (p % 4 ≡ 0)
    × Inserted (p, usable) (live h.blocks) (live h'.blocks)
    × IsValid h'

align4_lem : (size : ℕ) → size + 3 < u32 → (size ≤ align4 size) × (align4 size % 4 ≡ 0)
unfolding align4
align4_lem size h = omega arith

align_wraps : (size : ℕ) → u32 ≤ size + 3 → size < u32 → align4 size ≡ 0
unfolding align4
align_wraps size big small = omega arith

pub kmalloc-finish :
    (size : ℕ) (h : Heap)
    → h.initialized ≡ true
    → 0 < size
    → kmalloc size h ≡ finish h (first_fit (align4 size) h.blocks)
unfolding kmalloc
kmalloc-finish size h ready pos = ground arith

finish-Allocated :
    (size : ℕ) (h : Heap) (r : Option (ℕ × List Block))
    → h.initialized ≡ true
    → size ≤ align4 size
    → Searched (align4 size) heap_start heap_end h.blocks r
    → Allocated size h (finish h r)
unfolding finish
finish-Allocated size h none ready fits s = (s, refl)
finish-Allocated size h (some (p, cs)) ready fits s = (
  s.usable,
  omega (arith, s.enough),
  s.above,
  s.below,
  s.aligned refl,
  s.added,
  record { ready = ready; tiles = s.tiles; coalesced = s.coalesced },
)

-- On a well-formed heap and for a size above 0 that does not wrap when it is rounded up, kmalloc
-- returns NULL only if no block fits, and then changes nothing; else it returns a pointer to at
-- least that many bytes, a multiple of 4, inside the region, which is the one new allocation, and
-- the heap stays well formed.
pub kmalloc-Allocated :
    (size : ℕ) (h : Heap)
    → IsValid h
    → 0 < size
    → size + 3 < u32
    → Allocated size h (kmalloc size h)
kmalloc-Allocated size h v pos small =
    let (fits, aligned) = align4_lem size small in
    rw (kmalloc-finish size h v.ready pos) (
      finish-Allocated size h _ v.ready fits (
        first_fit-Searched (align4 size) heap_start heap_end h.blocks (omega arith) aligned v.tiles
          v.coalesced))

-- The first call sets the heap up.
pub kmalloc-init :
    (size : ℕ) (h : Heap) → h.initialized ≡ false → kmalloc size h ≡ kmalloc size heap_init
unfolding kmalloc heap_init
kmalloc-init size h e = ground arith

pub heap_init-IsValid : IsValid heap_init
unfolding heap_init
heap_init-IsValid = record { ready = refl; tiles = (refl, refl, refl); coalesced = (refl, tt) }

-- What a request that wraps to 0 bytes gets: NULL only if no block is free, else a new allocation
-- that is too small.
abbrev pub TooSmall : (size : ℕ) → Heap → Option ℕ × Heap → Type 0
TooSmall size h (none, h') = NoneFits 0 h.blocks × (h' ≡ h)
TooSmall size h (some p, h') =
    (usable : ℕ) × (usable < size)
    × (heap_start + header_size ≤ p)
    × (p + usable ≤ heap_end)
    × Inserted (p, usable) (live h.blocks) (live h'.blocks)
    × IsValid h'

Allocated-TooSmall :
    (size : ℕ) (h : Heap) (r : Option ℕ × Heap)
    → u32 ≤ size + 3
    → Allocated 0 h r
    → TooSmall size h r
unfolding align4
Allocated-TooSmall size h (none, h') big a = a
Allocated-TooSmall size h (some p, h') big (usable, _, above, below, _, added, valid) =
    (usable, omega (arith, below, big), above, below, added, valid)

-- On a well-formed heap, a request within three bytes of 2 ^ 32 is not refused: kmalloc returns
-- NULL only if no block is free at all, and then changes nothing; else it returns a pointer to
-- fewer bytes than asked for, inside the region, which is the one new allocation, and the heap
-- stays well formed.
pub kmalloc_wraps :
    (size : ℕ) (h : Heap)
    → IsValid h
    → u32 ≤ size + 3
    → size < u32
    → TooSmall size h (kmalloc size h)
unfolding align4
kmalloc_wraps size h v big small =
    let zeroed =
      finish-Allocated 0 h (first_fit 0 h.blocks) v.ready (omega arith) (
        first_fit-Searched 0 heap_start heap_end h.blocks (omega arith) refl v.tiles v.coalesced) in
    rw (kmalloc-finish size h v.ready (omega arith), align_wraps size big small)
      (Allocated-TooSmall size h (finish h (first_fit 0 h.blocks)) big zeroed)
