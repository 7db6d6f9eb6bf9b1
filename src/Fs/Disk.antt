-- ===== src/Fs/Disk.antt =====
-- The file system's state: its static variables and the disk behind the storage thread.
-- The superblock's sector and the table's 32 sectors are kept as what they hold, not as bytes; a data
-- sector is its 512 bytes. Fs/Region.antt is about why they can be kept apart: no write of a file's
-- bytes reaches a sector outside the data region. The storage calls are taken to succeed, as the code
-- takes them to (it ignores their results).
use kernel_basic.Prelude.{
  ℕ, zero, suc, ◌+◌, ◌*◌, ◌/◌, Bool, false, List, [], ◌∷◌, ◌++◌, ◌||◌, not, ltb, ◌==◌,
  if◌then◌else◌, get_or, set, take, drop, replicate,
}
use kernel_basic.Prelude.Int.{ℤ, pos, negsuc}

abbrev pub fs_magic : ℕ
fs_magic = 0x72534653

abbrev pub fs_version : ℕ
fs_version = 2

abbrev pub fs_data_lba : ℕ
fs_data_lba = 4130

abbrev pub fs_end_lba : ℕ
fs_end_lba = 6176

abbrev pub fs_max_entries : ℕ
fs_max_entries = 128

abbrev pub fs_max_file_size : ℕ
fs_max_file_size = 4096

abbrev pub fs_type_file : ℕ
fs_type_file = 1

abbrev pub fs_type_folder : ℕ
fs_type_folder = 2

-- The parent of the top-level entries.
abbrev pub fs_root : ℤ
fs_root = negsuc 0

-- `fs_super_t`
pub record Super : Type 0 where
  pub magic : ℕ
  pub version : ℕ
  pub next_free : ℕ
  pub reserved : ℕ

-- `fs_dirent_t`, without its two reserved fields, which are always 0.
pub record Dirent : Type 0 where
  pub used : Bool
  pub kind : ℕ
  pub attr : ℕ
  pub parent : ℤ
  pub start_lba : ℕ
  pub size : ℕ
  pub alloc : ℕ
  pub created : ℕ
  pub modified : ℕ
  pub name : List ℕ

pub record Disk : Type 0 where
  pub super_sector : Super
  pub table_sectors : List Dirent
  pub sectors : ℕ → List ℕ

-- `g_super`, `g_table` and the disk.
pub record Fs : Type 0 where
  pub super : Super
  pub table : List Dirent
  pub disk : Disk

-- A free slot of zeroed memory.
abbrev pub no_entry : Dirent
no_entry = record {
  used = false;
  kind = 0;
  attr = 0;
  parent = pos 0;
  start_lba = 0;
  size = 0;
  alloc = 0;
  created = 0;
  modified = 0;
  name = replicate 100 0;
}

-- `g_table[i]`
unfoldable pub entry : Fs → ℕ → Dirent
entry fs i = get_or fs.table i no_entry

unfoldable pub set_entry : Fs → ℕ → Dirent → Fs
set_entry fs i e = record fs { table = set fs.table i e }

unfoldable pub fs_flush_super : Fs → Fs
fs_flush_super fs = record fs { disk = record (fs.disk) { super_sector = fs.super } }

-- Entries `i`, `i + 1`, …, `n` of them, go from memory to the disk.
unfoldable pub flush_entries : (memory : List Dirent) → (n i : ℕ) → List Dirent → List Dirent
flush_entries memory zero i disk = disk
flush_entries memory (suc n) i disk =
    flush_entries memory n (i + 1) (set disk i (get_or memory i no_entry))

-- The sector of the table that holds entry `id`: four entries.
unfoldable pub fs_flush_entry : Fs → ℕ → Fs
fs_flush_entry fs id = record fs {
  disk = record (fs.disk) {
    table_sectors = flush_entries fs.table 4 (id / 4 * 4) fs.disk.table_sectors;
  };
}

unfoldable pub clear_used : List Dirent → List Dirent
clear_used [] = []
clear_used (e ∷ es) = record e { used = false } ∷ clear_used es

unfoldable pub fs_format : Fs → Fs
unfolding clear_used fs_flush_super
fs_format fs =
    let table = clear_used fs.table in
    fs_flush_super (record {
      super = record {
        magic = fs_magic;
        version = fs_version;
        next_free = fs_data_lba;
        reserved = 0;
      };
      table = table;
      disk = record (fs.disk) { table_sectors = table };
    })

-- The test of `fs_init`: a blank, stale or corrupt superblock.
unfoldable pub is_bad : Super → Bool
is_bad s =
    not (s.magic == fs_magic)
    || not (s.version == fs_version)
    || ltb s.next_free fs_data_lba
    || ltb fs_end_lba s.next_free

-- Booting: the superblock and, if it is sound, the table come from the disk.
unfoldable pub fs_init : Fs → Fs
fs_init fs =
    let loaded = record fs { super = fs.disk.super_sector } in
    if is_bad loaded.super
    then fs_format loaded
    else record loaded { table = fs.disk.table_sectors }

-- One sector of the data region.
unfoldable pub write_sector : (ℕ → List ℕ) → ℕ → List ℕ → ℕ → List ℕ
write_sector sectors lba bytes k = if k == lba then bytes else sectors k

-- `storage_write_sectors`: `count` sectors from `lba` on take their bytes from the buffer.
unfoldable pub storage_write_sectors : (ℕ → List ℕ) → (lba count : ℕ) → List ℕ → ℕ → List ℕ
storage_write_sectors sectors lba zero buf = sectors
storage_write_sectors sectors lba (suc n) buf =
    storage_write_sectors (write_sector sectors lba (take 512 buf)) (lba + 1) n (drop 512 buf)

-- `storage_read_sectors`: the bytes of `count` sectors from `lba` on.
unfoldable pub storage_read_sectors : (ℕ → List ℕ) → (lba count : ℕ) → List ℕ
storage_read_sectors sectors lba zero = []
storage_read_sectors sectors lba (suc n) = sectors lba ++ storage_read_sectors sectors (lba + 1) n
