-- ===== src/Fs/Paths.antt =====
-- `fs_path` and `fs_resolve_path` of kernel/fs.c. A path is the bytes of a C string.
use kernel_basic.Prelude.{
  ℕ, zero, suc, ◌-◌, Bool, true, false, ◌&&◌, ◌||◌, not, List, [], ◌∷◌, ◌++◌, Option, none, some,
  ltb, ◌==◌, if◌then◌else◌, length, take,
}
use kernel_basic.Prelude.Int.{ℤ, pos, negsuc}
use kernel_basic.Prelude.Bytes.{c_text}
use kernel_basic.Fs.Name.{fs_name_max}
use kernel_basic.Fs.Disk.{Fs, Dirent, entry, fs_root, fs_max_entries}
use kernel_basic.Fs.Table.{fs_valid, fs_get, fs_find}

-- The ids from `cur` up to the root, at most `steps` of them; the root's id is the only negative one.
unfoldable pub chain : Fs → (steps : ℕ) → ℤ → List ℕ
chain fs zero cur = []
chain fs (suc n) (negsuc k) = []
chain fs (suc n) (pos c) = c ∷ chain fs n (entry fs c).parent

-- The text of the chain, which is from leaf to root, behind what stands already: a backslash and
-- the name for each entry.
unfoldable pub render : Fs → List ℕ → List ℕ → List ℕ
render fs [] tail = tail
render fs (c ∷ cs) tail = render fs cs (b'\\' ∷ c_text (entry fs c).name ++ tail)

-- The bytes before the NUL that `fs_path` writes, cut off at `max - 1`; `none` is -1.
unfoldable pub fs_path : Fs → ℤ → (max : ℕ) → Option (List ℕ)
fs_path fs id max =
    let text = take (max - 1) (render fs (chain fs fs_max_entries id) []) in
    let refused : Bool = elim id [ pos i ↦ not (fs_valid fs (pos i)) | negsuc k ↦ not (k == 0) ] in
    if max == 0
    then none
    else if refused
    then none
    else if length text == 0
    then (if ltb max 2 then none else some (b'\\' ∷ []))
    else some text

unfoldable pub skip_slashes : List ℕ → List ℕ
skip_slashes [] = []
skip_slashes (c ∷ s) = let rest = skip_slashes s in if c == b'\\' then rest else c ∷ s

-- The segment that `fs_resolve_path` reads, at most `n` bytes, and the rest of the path.
unfoldable pub segment : (n : ℕ) → List ℕ → List ℕ × List ℕ
segment zero s = ([], s)
segment (suc n) [] = ([], [])
segment (suc n) (c ∷ s) =
    let (seg, rest) = segment n s in if c == 0 || c == b'\\' then ([], c ∷ s) else (c ∷ seg, rest)

abbrev pub is_end : List ℕ → Bool
is_end [] = true
is_end (c ∷ s) = c == 0

abbrev pub is_dot : List ℕ → Bool
is_dot (c ∷ []) = c == b'.'
is_dot _ = false

abbrev pub is_dots : List ℕ → Bool
is_dots (c ∷ d ∷ []) = c == b'.' && d == b'.'
is_dots _ = false

-- Where `..` leads: `e ? e->parent : FS_ROOT`.
unfoldable pub parent_of : Option Dirent → ℤ
parent_of none = fs_root
parent_of (some e) = e.parent

unfoldable pub go_up : Fs → ℤ → ℤ
go_up fs (negsuc zero) = fs_root
go_up fs (negsuc (suc k)) = parent_of (fs_get fs (negsuc (suc k)))
go_up fs (pos c) = parent_of (fs_get fs (pos c))

-- The loop of `fs_resolve_path`. Each round reads at least one byte, so one more round than there
-- are bytes is enough.
unfoldable pub resolve : Fs → (fuel : ℕ) → ℤ → List ℕ → Option ℤ
resolve fs zero cur path = some cur
resolve fs (suc n) cur path =
    let path' = skip_slashes path in
    let (seg, rest) = segment (fs_name_max - 1) path' in
    let again = λ (next : ℤ). resolve fs n next rest in
    if is_end path'
    then some cur
    else if is_dot seg
    then again cur
    else if is_dots seg
    then again (go_up fs cur)
    else elim (fs_find fs cur seg) [ none ↦ none | some next ↦ again (pos next) ]

abbrev pub is_absolute : List ℕ → Bool
is_absolute [] = false
is_absolute (c ∷ s) = c == b'\\'

-- `none` is `FS_NOT_FOUND`.
unfoldable pub fs_resolve_path : Fs → ℤ → List ℕ → Option ℤ
fs_resolve_path fs cwd path =
    resolve fs (suc (length path)) (if is_absolute path then fs_root else cwd) path
