-- ===== src/Fs/Commits.antt =====
-- Each call of kernel/fs.c that changes the file system: it stores what it changes.
use kernel_basic.Prelude.{
  ℕ, ◌+◌, ◌≤◌, ◌<◌, ◌≡◌, refl, ap, sym, ◌∙◌, Bool, false, ◌&&◌, ◌||◌, not, List, [], ◌∷◌, Option,
  none, some, arith, length, ltb, ◌==◌, if_ind, ltb→le, set,
}
use kernel_basic.Prelude.Int.{ℤ, pos, ◌==ℤ◌}
use kernel_basic.Fs.Name.{fs_set_name}
use kernel_basic.Fs.Disk.{
  Fs, Dirent, entry, set_entry, fs_flush_super, fs_max_entries, fs_type_folder, fs_max_file_size,
  fs_end_lba,
}
use kernel_basic.Fs.Table.{fs_parent_ok, any_child, fs_valid, free_from, fs_alloc_entry, fs_find}
use kernel_basic.Fs.Entry.{
  fs_create, bad_name, new_entry, other_has, meets, is_found, unless_found, fill_slot, fs_delete,
  fs_rename, fs_move,
}
use kernel_basic.Fs.Content.{fs_write_file, reserve, store, write_bytes, is_file, sectors_for}
use kernel_basic.Fs.Stored.{
  IsStored, IsStoredBut, flush-IsStored, commit-IsStored, IsStored-IsStoredBut, entry-in_region,
  file-below, set-AllInRegion,
}

valid-below : (fs : Fs) (id : ℕ) → not (fs_valid fs (pos id)) ≡ false → id < fs_max_entries
unfolding fs_valid
valid-below fs id h = ground arith

free_from-below :
    (i : ℕ) (es : List Dirent) (id : ℕ) → free_from i es ≡ some id → id < i + length es
unfolding free_from
free_from-below i [] id h = cc
free_from-below i (e ∷ es) id h = ground (arith, free_from-below (i + 1) es id)

abbrev Kept : Bool × Fs → Type 0
Kept r = IsStored r.1

abbrev KeptId : Option ℕ × Fs → Type 0
KeptId r = IsStored r.1

fill_slot-IsStored :
    (fs : Fs) (parent : ℤ) (name : List ℕ) (kind now : ℕ) (slot : Option ℕ)
    → ((id : ℕ) → slot ≡ some id → id < fs_max_entries)
    → IsStored fs
    → IsStored (fill_slot fs parent name kind now slot).1
unfolding fill_slot new_entry
fill_slot-IsStored fs parent name kind now none h s = s
fill_slot-IsStored fs parent name kind now (some id) h s =
    commit-IsStored fs id (new_entry (entry fs id) parent name kind now) (h id refl) refl s

unless_found-IsStored :
    (fs : Fs) (parent : ℤ) (name : List ℕ) (kind now : ℕ) (found : Option ℕ)
    → IsStored fs
    → IsStored (unless_found fs parent name kind now found).1
unfolding unless_found fs_alloc_entry
unless_found-IsStored fs parent name kind now (some id) s = s
unless_found-IsStored fs parent name kind now none s =
    fill_slot-IsStored fs parent name kind now (fs_alloc_entry fs)
      (λ id h. omega (arith, free_from-below 0 fs.table id h, s.entries)) s

pub fs_create-IsStored :
    (fs : Fs) (parent : ℤ) (name : List ℕ) (kind now : ℕ)
    → IsStored fs
    → IsStored (fs_create fs parent name kind now).1
unfolding fs_create
fs_create-IsStored fs parent name kind now s =
    if_ind KeptId (not (fs_parent_ok fs parent)) (λ _. s)
      λ _.
        if_ind KeptId (bad_name name) (λ _. s)
          λ _. unless_found-IsStored fs parent name kind now (fs_find fs parent name) s

pub fs_delete-IsStored : (fs : Fs) (id : ℕ) → IsStored fs → IsStored (fs_delete fs id).1
unfolding fs_delete
fs_delete-IsStored fs id s =
    if_ind Kept (not (fs_valid fs (pos id))) (λ _. s)
      λ valid.
        if_ind Kept ((entry fs id).kind == fs_type_folder && any_child (pos id) fs.table) (λ _. s)
          λ _.
            commit-IsStored fs id (record (entry fs id) { used = false }) (valid-below fs id valid)
              refl s

pub fs_rename-IsStored :
    (fs : Fs) (id : ℕ) (name : List ℕ) → IsStored fs → IsStored (fs_rename fs id name).1
unfolding fs_rename
fs_rename-IsStored fs id name s =
    if_ind Kept (not (fs_valid fs (pos id))) (λ _. s)
      λ valid.
        if_ind Kept (bad_name name) (λ _. s)
          λ _.
            if_ind Kept (other_has (fs_find fs (entry fs id).parent name) id) (λ _. s)
              λ _.
                commit-IsStored fs id
                  (record (entry fs id) { name = fs_set_name (entry fs id).name name })
                  (valid-below fs id valid) (entry-in_region fs id s.runs) s

pub fs_move-IsStored :
    (fs : Fs) (id : ℕ) (parent : ℤ) → IsStored fs → IsStored (fs_move fs id parent).1
unfolding fs_move
fs_move-IsStored fs id parent s =
    if_ind Kept (not (fs_valid fs (pos id))) (λ _. s)
      λ valid.
        if_ind Kept (not (fs_parent_ok fs parent) || parent ==ℤ pos id) (λ _. s)
          λ _.
            if_ind Kept (meets fs (pos id) fs_max_entries parent) (λ _. s)
              λ _.
                if_ind Kept (is_found (fs_find fs parent (entry fs id).name)) (λ _. s)
                  λ _.
                    commit-IsStored fs id (record (entry fs id) { parent = parent })
                      (valid-below fs id valid) (entry-in_region fs id s.runs) s

-- Between reserving a run and the final flush, only that file's entry is behind on the disk.
reserve-IsStoredBut :
    (fs : Fs) (id need : ℕ)
    → id < fs_max_entries
    → fs.super.next_free + need ≤ fs_end_lba
    → IsStored fs
    → IsStoredBut id (reserve fs id need)
unfolding reserve fs_flush_super set_entry
reserve-IsStoredBut fs id need below h s = record {
  sound = record {
    magic_is = s.sound.magic_is;
    version_is = s.sound.version_is;
    after_table = omega arith;
    in_region = h;
  };
  entries = ap length s.table_stored ∙ s.entries;
  runs =
      set-AllInRegion fs.table id
        (record (entry fs id) { start_lba = fs.super.next_free; alloc = need })
        (omega (arith, below, s.entries)) (ground (arith, s.sound.after_table, h)) s.runs;
  super_stored = refl;
  table_stored =
      let run = record (entry fs id) { start_lba = fs.super.next_free; alloc = need } in
      (run, ap (λ t. set t id run) (sym s.table_stored));
}

store-IsStored :
    (fs : Fs) (id : ℕ) (buf : List ℕ) (len now : ℕ)
    → id < fs_max_entries
    → IsStoredBut id fs
    → IsStored (store fs id buf len now)
unfolding store
store-IsStored fs id buf len now h s =
    let written = write_bytes fs.disk.sectors (entry fs id).start_lba buf len in
    flush-IsStored (record fs { disk = record (fs.disk) { sectors = written } }) id
      (record (entry fs id) { size = len; modified = now }) h (entry-in_region fs id s.runs)
      (record {
        sound = s.sound;
        entries = s.entries;
        runs = s.runs;
        super_stored = s.super_stored;
        table_stored = s.table_stored;
      })

pub fs_write_file-IsStored :
    (fs : Fs) (id : ℕ) (buf : List ℕ) (len now : ℕ)
    → IsStored fs
    → IsStored (fs_write_file fs id buf len now).1
unfolding fs_write_file
fs_write_file-IsStored fs id buf len now s =
    let need = sectors_for len in
    if_ind Kept (not (is_file fs id)) (λ _. s)
      λ file.
        let below = file-below fs id file in
        if_ind Kept (ltb fs_max_file_size len) (λ _. s)
          λ _.
            if_ind Kept (ltb (entry fs id).alloc need)
              (λ _.
                if_ind Kept (ltb fs_end_lba (fs.super.next_free + need)) (λ _. s)
                  (λ room.
                    store-IsStored (reserve fs id need) id buf len now below
                      (reserve-IsStoredBut fs id need below (ltb→le _ _ room) s)))
              (λ _. store-IsStored fs id buf len now below (IsStored-IsStoredBut fs id s))
