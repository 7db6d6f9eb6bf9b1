-- ===== src/Fs/Entry.antt =====
-- The operations of kernel/fs.c on entries: creating, deleting, renaming and moving. A returned -1
-- is `none` or `false`. Ids are natural numbers: on a negative one each call fails at `fs_valid`. `now` is what `rtc_now` reads from the clock.
use kernel_basic.Prelude.{
  ℕ, zero, suc, ◌-◌, Bool, true, false, ◌&&◌, ◌||◌, not, List, Option, none, some, ltb, ◌==◌,
  if◌then◌else◌,
}
use kernel_basic.Prelude.Int.{ℤ, pos, negsuc, ◌==ℤ◌}
use kernel_basic.Fs.Name.{fs_name_len, fs_set_name, fs_name_max}
use kernel_basic.Fs.Disk.{
  Fs, Dirent, entry, set_entry, fs_flush_entry, fs_max_entries, fs_type_file, fs_type_folder,
}
use kernel_basic.Fs.Table.{fs_parent_ok, fs_valid, fs_find, fs_alloc_entry, any_child}

-- The length that a name may have: 1 to 99.
unfoldable pub bad_name : List ℕ → Bool
bad_name name = fs_name_len name == 0 || ltb (fs_name_max - 1) (fs_name_len name)

unfoldable pub new_entry : (slot : Dirent) (parent : ℤ) (name : List ℕ) (kind now : ℕ) → Dirent
new_entry slot parent name kind now = record {
  used = true;
  kind = kind;
  attr = 0;
  parent = parent;
  start_lba = 0;
  size = 0;
  alloc = 0;
  created = now;
  modified = now;
  name = fs_set_name slot.name name;
}

-- The end of `fs_create`, once a slot is looked for.
unfoldable pub fill_slot : Fs → ℤ → List ℕ → (kind now : ℕ) → Option ℕ → Option ℕ × Fs
fill_slot fs parent name kind now none = (none, fs)
fill_slot fs parent name kind now (some id) =
    (some id, fs_flush_entry (set_entry fs id (new_entry (entry fs id) parent name kind now)) id)

-- The name is taken, or a slot is looked for.
unfoldable pub unless_found : Fs → ℤ → List ℕ → (kind now : ℕ) → Option ℕ → Option ℕ × Fs
unless_found fs parent name kind now (some id) = (none, fs)
unless_found fs parent name kind now none = fill_slot fs parent name kind now (fs_alloc_entry fs)

unfoldable pub fs_create : Fs → ℤ → List ℕ → (kind now : ℕ) → Option ℕ × Fs
fs_create fs parent name kind now =
    if not (fs_parent_ok fs parent)
    then (none, fs)
    else if bad_name name
    then (none, fs)
    else unless_found fs parent name kind now (fs_find fs parent name)

unfoldable pub fs_create_file : Fs → ℤ → List ℕ → (now : ℕ) → Option ℕ × Fs
fs_create_file fs parent name now = fs_create fs parent name fs_type_file now

unfoldable pub fs_create_folder : Fs → ℤ → List ℕ → (now : ℕ) → Option ℕ × Fs
fs_create_folder fs parent name now = fs_create fs parent name fs_type_folder now

unfoldable pub fs_delete : Fs → ℕ → Bool × Fs
fs_delete fs id =
    if not (fs_valid fs (pos id))
    then (false, fs)
    else if (entry fs id).kind == fs_type_folder && any_child (pos id) fs.table
    then (false, fs)
    else (true, fs_flush_entry (set_entry fs id (record (entry fs id) { used = false })) id)

-- Another entry of the folder has the name already.
unfoldable pub other_has : Option ℕ → ℕ → Bool
other_has none id = false
other_has (some i) id = not (i == id)

unfoldable pub fs_rename : Fs → ℕ → List ℕ → Bool × Fs
fs_rename fs id new_name =
    let e = entry fs id in
    if not (fs_valid fs (pos id))
    then (false, fs)
    else if bad_name new_name
    then (false, fs)
    else if other_has (fs_find fs e.parent new_name) id
    then (false, fs)
    else (
      true,
      fs_flush_entry (set_entry fs id (record e { name = fs_set_name e.name new_name })) id,
    )

-- The walk of `fs_move` from `cur` towards the root, for at most `steps` entries: whether it meets
-- `id`. No entry has a negative index but the root, where the walk ends.
unfoldable pub meets : Fs → (id : ℤ) → (steps : ℕ) → (cur : ℤ) → Bool
meets fs id zero cur = false
meets fs id (suc n) (negsuc k) = false
meets fs id (suc n) (pos c) =
    let rest = meets fs id n (entry fs c).parent in if pos c ==ℤ id then true else rest

unfoldable pub is_found : Option ℕ → Bool
is_found none = false
is_found (some i) = true

unfoldable pub fs_move : Fs → ℕ → ℤ → Bool × Fs
fs_move fs id new_parent =
    let e = entry fs id in
    if not (fs_valid fs (pos id))
    then (false, fs)
    else if not (fs_parent_ok fs new_parent) || new_parent ==ℤ pos id
    then (false, fs)
    else if meets fs (pos id) fs_max_entries new_parent
    then (false, fs)
    else if is_found (fs_find fs new_parent e.name)
    then (false, fs)
    else (true, fs_flush_entry (set_entry fs id (record e { parent = new_parent })) id)
