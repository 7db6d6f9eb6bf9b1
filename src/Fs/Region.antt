-- ===== src/Fs/Region.antt =====
-- The sectors that a write of kernel/fs.c reaches.
use kernel_basic.Prelude.{
  ℕ, zero, suc, ◌+◌, ◌*◌, ◌/◌, ◌-◌, ◌≤◌, ◌<◌, ◌≡◌, refl, ap, ◌∙◌, Bool, true, false, ◌&&◌, List,
  arith, length, get_or-set_self, ltb, leb, if_ind, take, drop, ltb→le, not,
}
use kernel_basic.Fs.Disk.{
  Fs, Dirent, entry, set_entry, no_entry, write_sector, storage_write_sectors, fs_flush_entry,
  fs_flush_super, fs_max_file_size, fs_end_lba, fs_data_lba,
}
use kernel_basic.Prelude.Int.{ℤ}
use kernel_basic.Fs.Entry.{fs_create, unless_found, fill_slot, fs_delete, fs_rename, fs_move}
use kernel_basic.Fs.Content.{fs_write_file, reserve, store, write_bytes, is_file, sectors_for}
use kernel_basic.Fs.Stored.{IsStored, in_region, entry-in_region, file-below, file_used}

-- Sector `k` is one of the `count` from `lba` on.
abbrev pub reaches : (lba count k : ℕ) → Bool
reaches lba count k = leb lba k && ltb k (lba + count)

-- Sector `k` is one of the data region.
abbrev pub is_data : (k : ℕ) → Bool
is_data k = leb fs_data_lba k && ltb k fs_end_lba

write_sectors-outside :
    (sectors : ℕ → List ℕ) (lba count : ℕ) (buf : List ℕ) (k : ℕ)
    → reaches lba count k ≡ false
    → storage_write_sectors sectors lba count buf k ≡ sectors k
unfolding storage_write_sectors write_sector
write_sectors-outside sectors lba zero buf k h = refl
write_sectors-outside sectors lba (suc n) buf k h =
    write_sectors-outside (write_sector sectors lba (take 512 buf)) (lba + 1) n (drop 512 buf) k
      (ground (arith, h))
    ∙ ground (arith, h)

write_bytes-outside :
    (sectors : ℕ → List ℕ) (lba : ℕ) (buf : List ℕ) (len k : ℕ)
    → reaches lba (sectors_for len) k ≡ false
    → write_bytes sectors lba buf len k ≡ sectors k
unfolding write_bytes sectors_for
write_bytes-outside sectors lba buf len k h =
    let whole = len / 512 in
    let head = storage_write_sectors sectors lba whole buf in
    let body : head k ≡ sectors k =
      write_sectors-outside sectors lba whole buf k (ground (arith, h)) in
    if_ind (λ (s : ℕ → List ℕ). s k ≡ sectors k) (ltb 0 (len - whole * 512))
      (λ e. write_sectors-outside head (lba + whole) 1 _ k (ground (arith, e, h)) ∙ body)
      (λ _. body)

-- A run in the data region reaches no sector outside.
run-outside :
    (e : Dirent) (need k : ℕ)
    → in_region e ≡ true
    → e.used ≡ true
    → need ≤ e.alloc
    → is_data k ≡ false
    → reaches e.start_lba need k ≡ false
run-outside e need k r used fits out = ground (arith, r, used, fits, out)

store-outside :
    (fs : Fs) (id : ℕ) (buf : List ℕ) (len now k : ℕ)
    → in_region (entry fs id) ≡ true
    → (entry fs id).used ≡ true
    → sectors_for len ≤ (entry fs id).alloc
    → is_data k ≡ false
    → (store fs id buf len now).disk.sectors k ≡ fs.disk.sectors k
unfolding store fs_flush_entry set_entry
store-outside fs id buf len now k r used fits out =
    write_bytes-outside fs.disk.sectors (entry fs id).start_lba buf len k
      (run-outside (entry fs id) (sectors_for len) k r used fits out)

reserved-entry :
    (fs : Fs) (id need : ℕ)
    → id < length fs.table
    → entry (reserve fs id need) id
      ≡ record (entry fs id) { start_lba = fs.super.next_free; alloc = need }
unfolding entry reserve set_entry fs_flush_super
reserved-entry fs id need h = get_or-set_self fs.table id _ no_entry h

reserve-sectors : (fs : Fs) (id need : ℕ) → (reserve fs id need).disk.sectors ≡ fs.disk.sectors
unfolding reserve set_entry fs_flush_super
reserve-sectors fs id need = refl

-- A write changes no sector outside the data region.
pub fs_write_file-outside :
    (fs : Fs) (id : ℕ) (buf : List ℕ) (len now k : ℕ)
    → IsStored fs
    → is_data k ≡ false
    → (fs_write_file fs id buf len now).1.disk.sectors k ≡ fs.disk.sectors k
unfolding fs_write_file
fs_write_file-outside fs id buf len now k s out =
    let need = sectors_for len in
    let same = λ (r : Bool × Fs). r.1.disk.sectors k ≡ fs.disk.sectors k in
    if_ind same (not (is_file fs id)) (λ _. refl)
      λ file.
        if_ind same (ltb fs_max_file_size len) (λ _. refl)
          λ _.
            if_ind same (ltb (entry fs id).alloc need)
              (λ _.
                if_ind same (ltb fs_end_lba (fs.super.next_free + need)) (λ _. refl)
                  (λ room.
                    let at =
                      reserved-entry fs id need (omega (arith, file-below fs id file, s.entries)) in
                    store-outside (reserve fs id need) id buf len now k
                      (ap in_region at ∙ ground (arith, room, s.sound.after_table))
                      (ap (λ (e : Dirent). e.used) at ∙ file_used fs id file)
                      (omega (arith, ap (λ (e : Dirent). e.alloc) at)) out
                    ∙ ap (λ (d : ℕ → List ℕ). d k) (reserve-sectors fs id need)))
              (λ fits.
                store-outside fs id buf len now k (entry-in_region fs id s.runs)
                  (file_used fs id file) (ltb→le _ _ fits) out)

-- The other calls change entries only.
pub fs_create-outside :
    (fs : Fs) (parent : ℤ) (name : List ℕ) (kind now : ℕ)
    → (fs_create fs parent name kind now).1.disk.sectors ≡ fs.disk.sectors
unfolding fs_create unless_found fill_slot set_entry fs_flush_entry
fs_create-outside fs parent name kind now = ground arith

pub fs_delete-outside : (fs : Fs) (id : ℕ) → (fs_delete fs id).1.disk.sectors ≡ fs.disk.sectors
unfolding fs_delete set_entry fs_flush_entry
fs_delete-outside fs id = ground arith

pub fs_rename-outside :
    (fs : Fs) (id : ℕ) (name : List ℕ) → (fs_rename fs id name).1.disk.sectors ≡ fs.disk.sectors
unfolding fs_rename set_entry fs_flush_entry
fs_rename-outside fs id name = ground arith

pub fs_move-outside :
    (fs : Fs) (id : ℕ) (parent : ℤ) → (fs_move fs id parent).1.disk.sectors ≡ fs.disk.sectors
unfolding fs_move set_entry fs_flush_entry
fs_move-outside fs id parent = ground arith
