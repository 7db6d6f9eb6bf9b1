-- ===== src/Fs/Reboot.antt =====
-- The calls of kernel/fs.c that change the file system, and a reboot after them.
use kernel_basic.Prelude.{ℕ, ◌≡◌, refl, ap, ap₂, ◌∙◌, false, List, [], ◌∷◌, arith}
use kernel_basic.Prelude.Int.{ℤ}
use kernel_basic.Fs.Disk.{Fs, Dirent, Super, fs_init, is_bad}
use kernel_basic.Fs.Entry.{fs_create, fs_delete, fs_rename, fs_move}
use kernel_basic.Fs.Content.{fs_write_file}
use kernel_basic.Fs.Region.{
  is_data, fs_create-outside, fs_delete-outside, fs_rename-outside, fs_move-outside,
  fs_write_file-outside,
}
use kernel_basic.Fs.Commits.{
  fs_create-IsStored, fs_delete-IsStored, fs_rename-IsStored, fs_move-IsStored,
  fs_write_file-IsStored,
}
use kernel_basic.Fs.Stored.{IsSound, IsStored, AllInRegion}

-- The calls that change the file system.
pub data Call : Type 0 where
  create : (parent : ℤ) → (name : List ℕ) → (kind now : ℕ) → Call
  delete : (id : ℕ) → Call
  rename : (id : ℕ) → (name : List ℕ) → Call
  move : (id : ℕ) → (parent : ℤ) → Call
  write_file : (id : ℕ) → (buf : List ℕ) → (len now : ℕ) → Call

unfoldable pub perform : Fs → Call → Fs
perform fs (create parent name kind now) = (fs_create fs parent name kind now).1
perform fs (delete id) = (fs_delete fs id).1
perform fs (rename id name) = (fs_rename fs id name).1
perform fs (move id parent) = (fs_move fs id parent).1
perform fs (write_file id buf len now) = (fs_write_file fs id buf len now).1

unfoldable pub perform_all : Fs → List Call → Fs
perform_all fs [] = fs
perform_all fs (c ∷ cs) = perform_all (perform fs c) cs

pub perform-IsStored : (fs : Fs) (c : Call) → IsStored fs → IsStored (perform fs c)
unfolding perform
perform-IsStored fs (create parent name kind now) s = fs_create-IsStored fs parent name kind now s
perform-IsStored fs (delete id) s = fs_delete-IsStored fs id s
perform-IsStored fs (rename id name) s = fs_rename-IsStored fs id name s
perform-IsStored fs (move id parent) s = fs_move-IsStored fs id parent s
perform-IsStored fs (write_file id buf len now) s = fs_write_file-IsStored fs id buf len now s

-- The memory is lost and the disk stays; the machine boots again.
abbrev pub reboot : Super → List Dirent → Fs → Fs
reboot s t fs = fs_init (record { super = s; table = t; disk = fs.disk })

is_bad-IsSound : (s : Super) → IsSound s → is_bad s ≡ false
unfolding is_bad
is_bad-IsSound s h = ground arith

reboot-id : (fs : Fs) (s : Super) (t : List Dirent) → IsStored fs → reboot s t fs ≡ fs
unfolding fs_init
reboot-id fs s t st =
    let good : is_bad fs.disk.super_sector ≡ false =
      ap is_bad st.super_stored ∙ is_bad-IsSound fs.super st.sound in
    rw good
      (ap₂ (λ u v. record { super = u; table = v; disk = fs.disk }) st.super_stored st.table_stored)

-- No call changes a sector outside the data region through a file.
perform-outside :
    (fs : Fs) (c : Call) (k : ℕ)
    → IsStored fs
    → is_data k ≡ false
    → (perform fs c).disk.sectors k ≡ fs.disk.sectors k
unfolding perform
perform-outside fs (create parent name kind now) k s out =
    ap (λ d. d k) (fs_create-outside fs parent name kind now)
perform-outside fs (delete id) k s out = ap (λ d. d k) (fs_delete-outside fs id)
perform-outside fs (rename id name) k s out = ap (λ d. d k) (fs_rename-outside fs id name)
perform-outside fs (move id parent) k s out = ap (λ d. d k) (fs_move-outside fs id parent)
perform-outside fs (write_file id buf len now) k s out =
    fs_write_file-outside fs id buf len now k s out

perform_all-outside :
    (cs : List Call) (fs : Fs) (k : ℕ)
    → IsStored fs
    → is_data k ≡ false
    → (perform_all fs cs).disk.sectors k ≡ fs.disk.sectors k
unfolding perform_all
perform_all-outside [] fs k s out = refl
perform_all-outside (c ∷ cs) fs k s out =
    perform_all-outside cs (perform fs c) k (perform-IsStored fs c s) out
    ∙ perform-outside fs c k s out

perform_all-IsStored : (cs : List Call) (fs : Fs) → IsStored fs → IsStored (perform_all fs cs)
unfolding perform_all
perform_all-IsStored [] fs s = s
perform_all-IsStored (c ∷ cs) fs s =
    perform_all-IsStored cs (perform fs c) (perform-IsStored fs c s)

-- On a file system whose disk agrees with its memory and whose entries in use have their runs in
-- the data region, as a format leaves it, after any sequence of creates, deletes, renames, moves
-- and writes a reboot gives back the very state that the calls left, whatever the memory held; the
-- runs of the entries in use lie in the data region still, and the calls wrote file bytes to no
-- sector outside it, where the superblock and the table are.
pub reboot-perform_all :
    (cs : List Call) (fs : Fs) (s : Super) (t : List Dirent) (k : ℕ)
    → IsStored fs
    → is_data k ≡ false
    → (reboot s t (perform_all fs cs) ≡ perform_all fs cs)
      × AllInRegion (perform_all fs cs).table
      × ((perform_all fs cs).disk.sectors k ≡ fs.disk.sectors k)
reboot-perform_all cs fs s t k st out =
    let kept = perform_all-IsStored cs fs st in
    (reboot-id (perform_all fs cs) s t kept, kept.runs, perform_all-outside cs fs k st out)
