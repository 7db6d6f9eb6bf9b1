-- ===== src/Fs/Stored.antt =====
-- The disk and the tables in memory of kernel/fs.c, and one flush.
use kernel_basic.Prelude.{
  ℕ, zero, suc, ◌+◌, ◌*◌, ◌/◌, ◌≤◌, ◌<◌, ◌≡◌, ◌≢◌, Bool, true, ◌&&◌, ◌||◌, leb, not, false, refl,
  ap, sym, ◌∙◌, List, [], ◌∷◌, arith, length, get_or, set, set-get_or, set-set, get_or-set_self,
  get_or-set_ne, length-set, Bool-cases, inl, inr, ◌==◌, ==→≡, ==→≢,
}
use kernel_basic.Fs.Table.{fs_valid}
use kernel_basic.Fs.Content.{is_file}
use kernel_basic.Fs.Disk.{
  Fs, Dirent, Super, no_entry, entry, fs_format, fs_flush_super, clear_used, set_entry,
  flush_entries, fs_flush_entry, fs_max_entries, fs_magic, fs_version, fs_data_lba, fs_end_lba,
}

-- The superblock that `fs_init` accepts.
pub record IsSound (s : Super) : Type 0 where
  pub magic_is : s.magic ≡ fs_magic
  pub version_is : s.version ≡ fs_version
  pub after_table : fs_data_lba ≤ s.next_free
  pub in_region : s.next_free ≤ fs_end_lba

-- An entry in use has no run of sectors, or one that lies in the data region.
abbrev pub in_region : Dirent → Bool
in_region e =
    not e.used
    || (e.alloc == 0 || leb fs_data_lba e.start_lba && leb (e.start_lba + e.alloc) fs_end_lba)

-- The runs of a table.
abbrev pub AllInRegion : List Dirent → Type 0
AllInRegion t = (i : ℕ) → in_region (get_or t i no_entry) ≡ true

pub set-AllInRegion :
    (t : List Dirent) (id : ℕ) (e : Dirent)
    → id < length t
    → in_region e ≡ true
    → AllInRegion t
    → AllInRegion (set t id e)
set-AllInRegion t id e h r a i = elim (Bool-cases (i == id)) [
  | inl here ↦
      ap (λ j. in_region (get_or (set t id e) j no_entry)) (==→≡ i id here)
      ∙ ap in_region (get_or-set_self t id e no_entry h)
      ∙ r
  | inr later ↦ ap in_region (get_or-set_ne t id i e no_entry (λ q. ==→≢ i id later (sym q))) ∙ a i
]

-- The disk holds the superblock and the table, whose runs lie in the data region.
pub record IsStored (fs : Fs) : Type 0 where
  pub sound : IsSound fs.super
  pub entries : length fs.table ≡ fs_max_entries
  pub runs : AllInRegion fs.table
  pub super_stored : fs.disk.super_sector ≡ fs.super
  pub table_stored : fs.disk.table_sectors ≡ fs.table

-- Flushing entries that are on the disk already changes nothing.
flush_same : (m : List Dirent) (n i : ℕ) → flush_entries m n i m ≡ m
unfolding flush_entries
flush_same m zero i = refl
flush_same m (suc n) i = rw (set-get_or m i no_entry) (flush_same m n (i + 1))

-- Flushing a range that holds the one changed entry brings the disk up to date.
flush_one :
    (t : List Dirent) (id : ℕ) (e : Dirent) (n i : ℕ)
    → id < length t
    → i ≤ id
    → id < i + n
    → flush_entries (set t id e) n i t ≡ set t id e
unfolding flush_entries
flush_one t id e zero i h low high = absurd (omega arith)
flush_one t id e (suc n) i h low high = elim (Bool-cases (i == id)) [
  | inl here ↦
      let at : i ≡ id = ==→≡ i id here in
      rw (at, get_or-set_self t id e no_entry h) (flush_same (set t id e) n (id + 1))
  | inr later ↦
      let ne : i ≢ id = ==→≢ i id later in
      rw (get_or-set_ne t id i e no_entry (λ q. ne (sym q)), set-get_or t i no_entry)
        (flush_one t id e n (i + 1) h (omega arith) (omega arith))
]

-- The disk behind entry `id`: all else is stored.
pub record IsStoredBut (id : ℕ) (fs : Fs) : Type 0 where
  pub sound : IsSound fs.super
  pub entries : length fs.disk.table_sectors ≡ fs_max_entries
  pub runs : AllInRegion fs.table
  pub super_stored : fs.disk.super_sector ≡ fs.super
  pub table_stored : (e : Dirent) × (fs.table ≡ set fs.disk.table_sectors id e)

-- Changing that entry and flushing its sector stores everything.
pub flush-IsStored :
    (fs : Fs) (id : ℕ) (e : Dirent)
    → id < fs_max_entries
    → in_region e ≡ true
    → IsStoredBut id fs
    → IsStored (fs_flush_entry (set_entry fs id e) id)
unfolding fs_flush_entry set_entry
flush-IsStored fs id e h r s =
    let old = fs.disk.table_sectors in
    let (was, differs) = s.table_stored in
    let now : set fs.table id e ≡ set old id e =
      ap (λ t. set t id e) differs ∙ set-set old id was e in
    record {
      sound = s.sound;
      entries = ap length now ∙ length-set old id e ∙ s.entries;
      runs =
          set-AllInRegion fs.table id e
            (omega (arith, h, s.entries, ap length differs, length-set old id was)) r s.runs;
      super_stored = s.super_stored;
      table_stored =
          ap (λ m. flush_entries m 4 (id / 4 * 4) old) now
          ∙ flush_one old id e 4 (id / 4 * 4) (omega (arith, s.entries)) (omega arith) (omega arith)
          ∙ sym now;
    }

pub IsStored-IsStoredBut : (fs : Fs) (id : ℕ) → IsStored fs → IsStoredBut id fs
IsStored-IsStoredBut fs id s = record {
  sound = s.sound;
  entries = ap length s.table_stored ∙ s.entries;
  runs = s.runs;
  super_stored = s.super_stored;
  table_stored = (
    get_or fs.disk.table_sectors id no_entry,
    sym (set-get_or fs.disk.table_sectors id no_entry ∙ s.table_stored),
  );
}

-- The common case: one entry changes and its sector is flushed.
pub commit-IsStored :
    (fs : Fs) (id : ℕ) (e : Dirent)
    → id < fs_max_entries
    → in_region e ≡ true
    → IsStored fs
    → IsStored (fs_flush_entry (set_entry fs id e) id)
commit-IsStored fs id e h r s = flush-IsStored fs id e h r (IsStored-IsStoredBut fs id s)

pub file-below : (fs : Fs) (id : ℕ) → not (is_file fs id) ≡ false → id < fs_max_entries
unfolding is_file fs_valid
file-below fs id h = ground arith

pub file_used : (fs : Fs) (id : ℕ) → not (is_file fs id) ≡ false → (entry fs id).used ≡ true
unfolding is_file fs_valid
file_used fs id h = ground arith

-- The run of an entry.
pub entry-in_region : (fs : Fs) (id : ℕ) → AllInRegion fs.table → in_region (entry fs id) ≡ true
unfolding entry
entry-in_region fs id a = a id

clear_used-in_region :
    (t : List Dirent) (i : ℕ) → in_region (get_or (clear_used t) i no_entry) ≡ true
unfolding clear_used
clear_used-in_region [] i = refl
clear_used-in_region (e ∷ t) zero = refl
clear_used-in_region (e ∷ t) (suc i) = clear_used-in_region t i

length-clear_used : (t : List Dirent) → length (clear_used t) ≡ length t
unfolding clear_used
length-clear_used [] = refl
length-clear_used (e ∷ t) = ap suc (length-clear_used t)

-- Formatting leaves a disk that agrees with the memory, whatever both held.
pub fs_format-IsStored : (fs : Fs) → length fs.table ≡ fs_max_entries → IsStored (fs_format fs)
unfolding fs_format fs_flush_super
fs_format-IsStored fs h = record {
  sound = record {
    magic_is = refl;
    version_is = refl;
    after_table = omega arith;
    in_region = omega arith;
  };
  entries = length-clear_used fs.table ∙ h;
  runs = clear_used-in_region fs.table;
  super_stored = refl;
  table_stored = refl;
}
