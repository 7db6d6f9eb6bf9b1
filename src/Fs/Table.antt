-- ===== src/Fs/Table.antt =====
-- The look-ups of kernel/fs.c: each is one loop over the table. Where the C functions return -1 for
-- "no entry", these return `none`.
use kernel_basic.Prelude.{
  ℕ, zero, suc, ◌+◌, Bool, true, false, ◌&&◌, not, List, [], ◌∷◌, Option, none, some, ltb, ◌==◌,
  if◌then◌else◌,
}
use kernel_basic.Prelude.Int.{ℤ, pos, negsuc, ◌==ℤ◌}
use kernel_basic.Fs.Name.{fs_name_eq}
use kernel_basic.Fs.Disk.{Fs, Dirent, entry, fs_max_entries, fs_type_folder}

-- The first free slot of the entries from index `i` on.
unfoldable pub free_from : (i : ℕ) → List Dirent → Option ℕ
free_from i [] = none
free_from i (e ∷ es) = if not e.used then some i else free_from (i + 1) es

unfoldable pub fs_alloc_entry : Fs → Option ℕ
fs_alloc_entry fs = free_from 0 fs.table

-- `FS_ROOT` is -1; no other negative id is a parent.
unfoldable pub fs_parent_ok : Fs → ℤ → Bool
fs_parent_ok fs (negsuc zero) = true
fs_parent_ok fs (negsuc (suc n)) = false
fs_parent_ok fs (pos p) =
    ltb p fs_max_entries && ((entry fs p).used && (entry fs p).kind == fs_type_folder)

unfoldable pub fs_valid : Fs → ℤ → Bool
fs_valid fs (pos i) = ltb i fs_max_entries && (entry fs i).used
fs_valid fs (negsuc n) = false

unfoldable pub fs_get : Fs → ℤ → Option Dirent
fs_get fs (pos i) = if fs_valid fs (pos i) then some (entry fs i) else none
fs_get fs (negsuc n) = none

-- The entry is in use, and stands in that folder.
unfoldable pub is_child : ℤ → Dirent → Bool
is_child parent e = e.used && e.parent ==ℤ parent

unfoldable pub find_from : (parent : ℤ) (name : List ℕ) (i : ℕ) → List Dirent → Option ℕ
find_from parent name i [] = none
find_from parent name i (e ∷ es) =
    if is_child parent e && fs_name_eq e.name name then some i else find_from parent name (i + 1) es

unfoldable pub fs_find : Fs → ℤ → List ℕ → Option ℕ
fs_find fs parent name = find_from parent name 0 fs.table

-- The ids that `fs_list` writes: at most `max` of them.
unfoldable pub list_from : (parent : ℤ) (max i : ℕ) → List Dirent → List ℕ
list_from parent max i [] = []
list_from parent zero i (e ∷ es) = []
list_from parent (suc max) i (e ∷ es) = elim (is_child parent e) [
  | true ↦ i ∷ list_from parent max (i + 1) es
  | false ↦ list_from parent (suc max) (i + 1) es
]

unfoldable pub fs_list : Fs → ℤ → ℕ → List ℕ
fs_list fs parent max = list_from parent max 0 fs.table

-- Some entry in use stands in the folder.
unfoldable pub any_child : ℤ → List Dirent → Bool
any_child parent [] = false
any_child parent (e ∷ es) = if is_child parent e then true else any_child parent es
