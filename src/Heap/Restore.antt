-- ===== src/Heap/Restore.antt =====
-- `kfree` of lib/heap.c, alone and after `kmalloc`.
use kernel_basic.Prelude.{
  ℕ, ◌+◌, ◌-◌, ◌%◌, ◌≤◌, ◌<◌, ◌≡◌, refl, true, false, ◌&&◌, List, [], ◌∷◌, Option, none, some, leb,
  leb→le, ◌==◌, arith, ==_refl, ◌∙◌, sym, ap, if_ind,
}
use mathlib.Core.Option
use mathlib.Core.Path.{subst}
use kernel_basic.Heap.{
  Block, Heap, heap_start, header_size, u32, align4, take_block, first_fit, finish, kmalloc,
  release, coalesce, coalesce_from, join, kfree,
}
use kernel_basic.Heap.Layout.{
  Tiles, IsCoalesced, both_free, Tiles-le, IsValid, heap_end, coalesce_from-join,
  coalesce_from-keep, both_free-coalesce_from, coalesce_from-id, coalesce_from-Tiles,
  coalesce_from-IsCoalesced,
}
use kernel_basic.Heap.Alloc.{kmalloc-finish}

-- Freeing at `p` and coalescing turns `cs` into `bs`.
abbrev GivesBack : ℕ → List Block → List Block → Type 0
GivesBack p cs bs = (ds : List Block) × (release p cs ≡ some ds) × (coalesce ds ≡ bs)

release-head :
    (b : Block) (bs : List Block)
    → release (b.addr + header_size) (b ∷ bs) ≡ some (record b { free = true } ∷ bs)
unfolding release
release-head b bs = rw (==_refl (b.addr + header_size))

release-skip :
    (p : ℕ) (b : Block) (bs ds : List Block)
    → b.addr + header_size < p
    → release p bs ≡ some ds
    → release p (b ∷ bs) ≡ some (b ∷ ds)
unfolding release
release-skip p b bs ds h e =
    let other : (b.addr + header_size == p) ≡ false = ground arith in rw (other, e)

coalesce-cons :
    (b : Block) (ds bs : List Block)
    → coalesce ds ≡ bs
    → both_free b bs ≡ false
    → coalesce (b ∷ ds) ≡ b ∷ bs
unfolding coalesce
coalesce-cons b [] bs e f = unfold coalesce_from in ap (λ xs. b ∷ xs) e
coalesce-cons b (d ∷ ds) bs e f =
    let apart : (b.free && d.free) ≡ false =
      sym (both_free-coalesce_from b d ds) ∙ ap (both_free b) e ∙ f in
    coalesce_from-keep b d ds apart ∙ ap (λ xs. b ∷ xs) e

take_block-GivesBack :
    (size start stop : ℕ) (b : Block) (bs : List Block)
    → stop + 16 < u32
    → b.free ≡ true
    → size ≤ b.size
    → Tiles start (b ∷ bs) stop
    → IsCoalesced (b ∷ bs)
    → GivesBack (b.addr + header_size) (take_block size b bs) (b ∷ bs)
unfolding take_block coalesce
take_block-GivesBack size start stop b bs h f e t c =
    let low = Tiles-le (start + header_size + b.size) bs stop t.2 in
    if_ind (λ cs. GivesBack (b.addr + header_size) cs (b ∷ bs))
      (leb ((size + header_size + 4) % u32) b.size)
      (λ split.
        let room = leb→le _ _ split in
        let front : Block = record { addr = b.addr; size = size; free = true } in
        let rest : Block = record {
          addr = b.addr + header_size + size;
          size = b.size - size - header_size;
          free = true;
        } in
        let whole : join front rest ≡ b = ground arith in
        (
          front ∷ rest ∷ bs,
          release-head (record front { free = false }) (rest ∷ bs),
          coalesce_from-join front rest bs refl
              ∙ ap (λ x. coalesce_from x bs) whole
              ∙ coalesce_from-id b bs c,
        ))
      (λ whole.
        let same : record b { free = true } ≡ b = ground arith in
        (
          record b { free = true } ∷ bs,
          release-head (record b { free = false }) bs,
          ap (λ x. coalesce_from x bs) same ∙ coalesce_from-id b bs c,
        ))

-- What is known of a finished search: where its pointer lies, and that freeing it restores the list.
abbrev Restored : ℕ → List Block → Option (ℕ × List Block) → Type 0
Restored start bs none = Unit {0}
Restored start bs (some (p, cs)) = (start + header_size ≤ p) × GivesBack p cs bs

Restored-cons :
    (start stop : ℕ) (b : Block) (bs : List Block) (r : Option (ℕ × List Block))
    → Tiles start (b ∷ bs) stop
    → IsCoalesced (b ∷ bs)
    → Restored (start + header_size + b.size) bs r
    → Restored start (b ∷ bs) (Option.map (λ (p, cs). (p, b ∷ cs)) r)
Restored-cons start stop b bs none t c s = tt
Restored-cons start stop b bs (some (p, cs)) t c (above, (ds, back, join)) = (
  omega arith,
  (b ∷ ds, release-skip p b cs ds (omega arith) back, coalesce-cons b ds bs join c.0),
)

first_fit-Restored :
    (size start stop : ℕ) (bs : List Block)
    → stop + 16 < u32
    → Tiles start bs stop
    → IsCoalesced bs
    → Restored start bs (first_fit size bs)
unfolding first_fit
first_fit-Restored size start stop [] h t c = tt
first_fit-Restored size start stop (b ∷ bs) h t c =
    if_ind (Restored start (b ∷ bs)) (b.free && leb size b.size)
      (λ fits. (
        omega arith,
        take_block-GivesBack size start stop b bs h (ground arith) (ground arith) t c,
      ))
      (λ _.
        Restored-cons start stop b bs (first_fit size bs) t c
          (first_fit-Restored size (start + header_size + b.size) stop bs h t.2 c.1))

-- The heap after freeing the pointer of a finished search.
finish-kfree :
    (h : Heap) (r : Option (ℕ × List Block)) (p : ℕ) (h' : Heap)
    → Restored heap_start h.blocks r
    → finish h r ≡ (some p, h')
    → kfree p h' ≡ some h
unfolding finish kfree
finish-kfree h none p h' s e = cc
finish-kfree h (some (q, cs)) p h' (above, (ds, back, join)) e =
    let nonzero : (q == 0) ≡ false = ground arith in
    let given_back : kfree q (record h { blocks = cs }) ≡ some h = rw (nonzero, back, join) in
    ground arith

-- On a well-formed heap, freeing a block right after it was allocated gives back exactly the heap
-- from before: the split is undone, and no other block is touched.
pub kfree-kmalloc :
    (size : ℕ) (h : Heap) {p : ℕ} {h' : Heap}
    → IsValid h
    → 0 < size
    → kmalloc size h ≡ (some p, h')
    → kfree p h' ≡ some h
kfree-kmalloc size h {p} {h'} v pos e =
    finish-kfree h (first_fit (align4 size) h.blocks) p h'
      (first_fit-Restored (align4 size) heap_start heap_end h.blocks (omega arith) v.tiles
        v.coalesced)
      (sym (kmalloc-finish size h v.ready pos) ∙ e)

-- Setting one flag leaves the layout as it is.
abbrev MapTiles : ℕ → Option (List Block) → ℕ → Type 0
MapTiles start none stop = Unit {0}
MapTiles start (some ds) stop = Tiles start ds stop

MapTiles-cons :
    (start : ℕ) (b : Block) (r : Option (List Block)) (stop : ℕ)
    → b.addr ≡ start
    → b.size % 4 ≡ 0
    → MapTiles (start + header_size + b.size) r stop
    → MapTiles start (Option.map (λ cs. b ∷ cs) r) stop
MapTiles-cons start b none stop a m t = tt
MapTiles-cons start b (some ds) stop a m t = (a, m, t)

release-Tiles :
    (p start : ℕ) (bs : List Block) (stop : ℕ)
    → Tiles start bs stop
    → MapTiles start (release p bs) stop
unfolding release
release-Tiles p start [] stop t = tt
release-Tiles p start (b ∷ bs) stop t =
    if_ind (λ r. MapTiles start r stop) (b.addr + header_size == p) (λ _. t)
      λ _.
        MapTiles-cons start b (release p bs) stop t.0 t.1
          (release-Tiles p (start + header_size + b.size) bs stop t.2)

coalesce-Tiles :
    (start : ℕ) (bs : List Block) (stop : ℕ)
    → stop < u32
    → Tiles start bs stop
    → Tiles start (coalesce bs) stop × IsCoalesced (coalesce bs)
unfolding coalesce
coalesce-Tiles start [] stop h t = (t, tt)
coalesce-Tiles start (b ∷ bs) stop h t =
    (coalesce_from-Tiles start b bs stop h t, coalesce_from-IsCoalesced b bs)

abbrev Freed : Option Heap → Type 0
Freed none = Unit {0}
Freed (some h) = IsValid h

Freed-map :
    (h : Heap) (r : Option (List Block))
    → h.initialized ≡ true
    → MapTiles heap_start r heap_end
    → Freed (Option.map (λ bs. record h { blocks = coalesce bs }) r)
Freed-map h none ready t = tt
Freed-map h (some ds) ready t =
    let (tiles, coalesced) = coalesce-Tiles heap_start ds heap_end (omega arith) t in
    record { ready = ready; tiles = tiles; coalesced = coalesced }

-- On a well-formed heap, kfree of NULL or of a pointer behind one of the heap's headers leaves a
-- well-formed heap: the blocks tile the region and no two free ones are neighbours.
pub kfree-IsValid : {h h' : Heap} (p : ℕ) → IsValid h → kfree p h ≡ some h' → IsValid h'
unfolding kfree
kfree-IsValid {h} p v e = subst Freed e (
    if_ind Freed (p == 0) (λ _. v)
      λ _.
        Freed-map h (release p h.blocks) v.ready
          (release-Tiles p heap_start h.blocks heap_end v.tiles))
