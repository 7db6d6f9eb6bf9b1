-- ===== src/Fs/Content.antt =====
-- The contents of files in kernel/fs.c. Lengths are natural numbers: a negative one fails at once.
use kernel_basic.Prelude.{
  ℕ, ◌+◌, ◌-◌, ◌*◌, ◌/◌, Bool, true, false, ◌&&◌, not, List, ◌++◌, Option, none, some, ltb, ◌==◌,
  if◌then◌else◌, take, drop, replicate, min,
}
use kernel_basic.Prelude.Int.{pos}
use kernel_basic.Fs.Disk.{
  Fs, entry, set_entry, fs_flush_entry, fs_flush_super, fs_end_lba, fs_max_file_size, fs_type_file,
  storage_write_sectors, storage_read_sectors,
}
use kernel_basic.Fs.Table.{fs_valid}

-- The check that opens `fs_write_file` and `fs_read_file`.
unfoldable pub is_file : Fs → ℕ → Bool
is_file fs id = fs_valid fs (pos id) && (entry fs id).kind == fs_type_file

-- `(len + 511) / 512`
unfoldable pub sectors_for : ℕ → ℕ
sectors_for len = (len + 511) / 512

-- A run of `need` sectors at the bump cursor, for a file that outgrows its own.
unfoldable pub reserve : Fs → (id need : ℕ) → Fs
reserve fs id need =
    let run = record (entry fs id) { start_lba = fs.super.next_free; alloc = need } in
    let moved = set_entry fs id run in
    fs_flush_super
      (record moved { super = record (fs.super) { next_free = fs.super.next_free + need } })

-- The whole sectors of the buffer, then the ragged tail, padded with zeros in the staging buffer.
unfoldable pub write_bytes : (ℕ → List ℕ) → (lba : ℕ) → List ℕ → (len : ℕ) → ℕ → List ℕ
write_bytes sectors lba buf len =
    let whole = len / 512 in
    let rest = len - whole * 512 in
    let head = storage_write_sectors sectors lba whole buf in
    if ltb 0 rest
    then storage_write_sectors head (lba + whole) 1
        (take rest (drop (whole * 512) buf) ++ replicate (512 - rest) 0)
    else head

-- The end of `fs_write_file`, in a run that is large enough.
unfoldable pub store : Fs → (id : ℕ) → List ℕ → (len now : ℕ) → Fs
store fs id buf len now =
    let e = entry fs id in
    let written = record fs {
      disk = record (fs.disk) { sectors = write_bytes fs.disk.sectors e.start_lba buf len };
    } in
    fs_flush_entry (set_entry written id (record e { size = len; modified = now })) id

unfoldable pub fs_write_file : Fs → (id : ℕ) → List ℕ → (len now : ℕ) → Bool × Fs
fs_write_file fs id buf len now =
    let need = sectors_for len in
    if not (is_file fs id)
    then (false, fs)
    else if ltb fs_max_file_size len
    then (false, fs)
    else if ltb (entry fs id).alloc need
    then (if ltb fs_end_lba (fs.super.next_free + need)
        then (false, fs)
        else (true, store (reserve fs id need) id buf len now))
    else (true, store fs id buf len now)

-- The bytes that the two reads of `fs_read_file` leave in the buffer.
unfoldable pub read_bytes : (ℕ → List ℕ) → (lba n : ℕ) → List ℕ
read_bytes sectors lba n =
    let whole = n / 512 in
    let rest = n - whole * 512 in
    let head = storage_read_sectors sectors lba whole in
    if ltb 0 rest then head ++ take rest (storage_read_sectors sectors (lba + whole) 1) else head

-- The bytes read; their number is what the function returns. `none` is -1.
unfoldable pub fs_read_file : Fs → (id max : ℕ) → Option (List ℕ)
fs_read_file fs id max =
    if not (is_file fs id)
    then none
    else some (read_bytes fs.disk.sectors (entry fs id).start_lba (min (entry fs id).size max))

unfoldable pub fs_free_sectors : Fs → ℕ
fs_free_sectors fs =
    if ltb fs_end_lba fs.super.next_free then 0 else fs_end_lba - fs.super.next_free
