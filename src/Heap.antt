-- ===== src/Heap.antt =====
-- lib/heap.c and include/heap.h: the first-fit allocator over a fixed region of memory.
-- The header of a block is its address, its size and its flag; the chain of `next` pointers from
-- `heap_head` is the list of the blocks in that order. `sizeof(block_header_t)` is 12 on this 32-bit
-- machine. Each call runs between `preempt_disable` and `preempt_enable`, so a call is one step.
pub mod Layout
pub mod Alloc
pub mod Restore
use kernel_basic.Prelude.{
  ℕ, ◌+◌, ◌-◌, ◌*◌, ◌/◌, ◌%◌, ◌^◌, Bool, true, false, ◌&&◌, List, [], ◌∷◌, Option, none, some, leb,
  ◌==◌, if◌then◌else◌,
}
use mathlib.Core.Option

abbrev pub heap_start : ℕ
heap_start = 0x300000

abbrev pub heap_size : ℕ
heap_size = 0x800000

abbrev pub header_size : ℕ
header_size = 12

-- `unsigned int` wraps at this.
abbrev pub u32 : ℕ
u32 = 2 ^ 32

-- `block_header_t`
pub record Block : Type 0 where
  pub addr : ℕ
  pub size : ℕ
  pub free : Bool

-- `heap_initialized`, and the blocks from `heap_head` on.
pub record Heap : Type 0 where
  pub initialized : Bool
  pub blocks : List Block

unfoldable pub heap_init : Heap
heap_init = record {
  initialized = true;
  blocks = record { addr = heap_start; size = heap_size - header_size; free = true } ∷ [];
}

-- `(size + 3u) & ~3u`
unfoldable pub align4 : ℕ → ℕ
align4 size = (size + 3) % u32 / 4 * 4

-- What becomes of the block that serves a request: the block, and the rest if it is split.
unfoldable pub take_block : ℕ → Block → List Block → List Block
take_block size b bs =
    if leb ((size + header_size + 4) % u32) b.size
    then record b { size = size; free = false }
      ∷ record {
        addr = b.addr + header_size + size;
        size = b.size - size - header_size;
        free = true;
      }
      ∷ bs
    else record b { free = false } ∷ bs

-- The search for the first free block that is large enough: the address behind its header, and the
-- blocks afterwards.
unfoldable pub first_fit : ℕ → List Block → Option (ℕ × List Block)
first_fit size [] = none
first_fit size (b ∷ bs) =
    if b.free && leb size b.size
    then some (b.addr + header_size, take_block size b bs)
    else Option.map (λ (p, cs). (p, b ∷ cs)) (first_fit size bs)

-- What a finished search returns: the pointer (`none` for NULL) and the heap afterwards.
unfoldable pub finish : Heap → Option (ℕ × List Block) → Option ℕ × Heap
finish h none = (none, h)
finish h (some (p, bs)) = (some p, record h { blocks = bs })

unfoldable pub kmalloc : ℕ → Heap → Option ℕ × Heap
kmalloc size heap =
    let h = if heap.initialized then heap else heap_init in
    if size == 0 then (none, h) else finish h (first_fit (align4 size) h.blocks)

-- `b` with the block behind it swallowed.
abbrev pub join : Block → Block → Block
join b n = record b { size = (b.size + (header_size + n.size)) % u32 }

-- `coalesce` from block `b` on: a free block swallows free ones behind it.
unfoldable pub coalesce_from : Block → List Block → List Block
coalesce_from b [] = b ∷ []
coalesce_from b (n ∷ bs) = elim (b.free && n.free) [
  | true ↦ coalesce_from (join b n) bs
  | false ↦ b ∷ coalesce_from n bs
]

unfoldable pub coalesce : List Block → List Block
coalesce [] = []
coalesce (b ∷ bs) = coalesce_from b bs

-- The write `block->free = 1` at the header before `ptr`; `none` if no block's header is there, when
-- the write would fall into other memory.
unfoldable pub release : ℕ → List Block → Option (List Block)
release ptr [] = none
release ptr (b ∷ bs) =
    if b.addr + header_size == ptr
    then some (record b { free = true } ∷ bs)
    else Option.map (λ cs. b ∷ cs) (release ptr bs)

unfoldable pub kfree : ℕ → Heap → Option Heap
kfree ptr heap =
    if ptr == 0
    then some heap
    else Option.map (λ bs. record heap { blocks = coalesce bs }) (release ptr heap.blocks)

-- The size in the header before `ptr`; `none` if there is no header there.
unfoldable pub block_size : ℕ → List Block → Option ℕ
block_size ptr [] = none
block_size ptr (b ∷ bs) = if b.addr + header_size == ptr then some b.size else block_size ptr bs

unfoldable pub kalloc_size : ℕ → Heap → Option ℕ
kalloc_size ptr heap = if ptr == 0 then some 0 else block_size ptr heap.blocks
