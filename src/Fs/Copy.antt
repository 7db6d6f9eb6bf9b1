-- ===== src/Fs/Copy.antt =====
-- `fs_copy` of kernel/fs.c. `budget` counts the levels that are left: it is `17 - depth`, so that 0
-- is the cap that refuses a depth above 16. A returned -1 is `none`.
use kernel_basic.Prelude.{
  ℕ, zero, suc, Bool, true, false, not, List, [], ◌∷◌, Option, none, some, ◌==◌, ◌&&◌, ltb, length,
  if◌then◌else◌,
}
use kernel_basic.Prelude.Int.{ℤ, pos, ◌==ℤ◌}
use kernel_basic.Fs.Disk.{
  Fs, Dirent, entry, fs_max_entries, fs_max_file_size, fs_type_file, fs_type_folder,
}
use kernel_basic.Fs.Table.{fs_parent_ok, fs_valid, fs_list}
use kernel_basic.Fs.Entry.{fs_create_file, fs_create_folder, fs_delete}
use kernel_basic.Fs.Content.{fs_write_file, fs_read_file}

-- Writing the copied bytes: the new file goes away again if that fails.
unfoldable pub keep_or_delete : ℕ → Bool × Fs → Option ℕ × Fs
keep_or_delete new_id (true, fs) = (some new_id, fs)
keep_or_delete new_id (false, fs) = (none, (fs_delete fs new_id).1)

unfoldable pub fill_copy : Fs → (new_id now : ℕ) → Option (List ℕ) → Option ℕ × Fs
fill_copy fs new_id now none = (some new_id, fs)
fill_copy fs new_id now (some bytes) =
    if ltb 0 (length bytes)
    then keep_or_delete new_id (fs_write_file fs new_id bytes (length bytes) now)
    else (some new_id, fs)

unfoldable pub copy_file : (id now : ℕ) → Option ℕ × Fs → Option ℕ × Fs
copy_file id now (none, fs) = (none, fs)
copy_file id now (some new_id, fs) = fill_copy fs new_id now (fs_read_file fs id fs_max_file_size)

-- The loop over the children: `copy_child` is the recursive call. It stops at the first failure.
unfoldable pub copy_children :
    (copy_child : Fs → ℕ → Option ℕ × Fs) → (new_id : ℕ) → List ℕ → Fs → Option ℕ × Fs
copy_children copy_child new_id [] fs = (some new_id, fs)
copy_children copy_child new_id (i ∷ ids) fs =
    let (made, fs') = copy_child fs i in
    let rest = copy_children copy_child new_id ids fs' in
    elim made [ none ↦ (none, fs') | some _ ↦ rest ]

-- The folder's children go into the new folder under their own names.
unfoldable pub copy_folder :
    (copy_child : Fs → (id : ℕ) → (parent : ℤ) → Option ℕ × Fs)
    → (id : ℕ) → Option ℕ × Fs
    → Option ℕ × Fs
copy_folder copy_child id (none, fs) = (none, fs)
copy_folder copy_child id (some new_id, fs) =
    copy_children (λ f i. copy_child f i (pos new_id)) new_id (fs_list fs (pos id) fs_max_entries)
      fs

unfoldable pub name_for : Option (List ℕ) → Dirent → List ℕ
name_for none e = e.name
name_for (some name) e = name

unfoldable pub fs_copy_depth :
    (budget now : ℕ) → Fs → (id : ℕ) → (new_parent : ℤ) → Option (List ℕ) → Option ℕ × Fs
fs_copy_depth zero now fs id new_parent name_or_null = (none, fs)
fs_copy_depth (suc n) now fs id new_parent name_or_null =
    let e = entry fs id in
    let name = name_for name_or_null e in
    if not (fs_valid fs (pos id))
    then (none, fs)
    else if not (fs_parent_ok fs new_parent)
    then (none, fs)
    else if e.kind == fs_type_folder && new_parent ==ℤ pos id
    then (none, fs)
    else if e.kind == fs_type_file
    then copy_file id now (fs_create_file fs new_parent name now)
    else copy_folder (λ f i p. fs_copy_depth n now f i p none) id
        (fs_create_folder fs new_parent name now)

unfoldable pub fs_copy :
    (now : ℕ) → Fs → (id : ℕ) → (new_parent : ℤ) → Option (List ℕ) → Option ℕ × Fs
fs_copy now fs id new_parent name_or_null = fs_copy_depth 17 now fs id new_parent name_or_null
