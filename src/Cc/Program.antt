-- ===== src/Cc/Program.antt =====
-- The file format of kernel/cc.c: what `cc_load_program` reads of a file that `cc_save_program` wrote.
use kernel_basic.Prelude.{
  ℕ, ◌+◌, ◌-◌, ◌*◌, ◌/◌, ◌%◌, ◌≤◌, ◌<◌, ◌≡◌, ap, not, ◌||◌, List, Option, none, some, ltb, ◌==◌,
  if◌then◌else◌, if_ind, length, length-take, get_or, take, arith,
}
use kernel_basic.Prelude.Int.{pos}
use kernel_basic.Prelude.Memory.{copy, length-copy, get_or-copy, list_ext, index_eq, get_or-take}
use kernel_basic.Cc.{cc_code_size, cc_program_header_size}
use kernel_basic.Cc.Compile.{
  program_header, cc_save_program, declared_len, load_code, cc_load_program,
}

-- The bytes of a saved program.
saved :
    (out code : List ℕ) (j : ℕ)
    → 8 + length code ≤ length out
    → get_or (copy (copy out 0 (program_header (length code)) 0 8) 8 code 0 (length code)) j 0 ≡ (
        if ltb j 8
        then get_or (program_header (length code)) j 0
        else if ltb j (8 + length code)
        then get_or code (j - 8) 0
        else get_or out j 0)
saved out code j h = ground (
  arith,
  get_or-copy (copy out 0 (program_header (length code)) 0 8) 8 code 0 (length code) j,
  length-copy out 0 (program_header (length code)) 0 8,
  get_or-copy out 0 (program_header (length code)) 0 8 j,
)

declared_len-word :
    (file : List ℕ) (n : ℕ)
    → n < 2147483648
    → get_or file 4 0 ≡ n % 256
    → get_or file 5 0 ≡ n / 256 % 256
    → get_or file 6 0 ≡ n / 65536 % 256
    → get_or file 7 0 ≡ n / 16777216 % 256
    → declared_len file ≡ pos n
unfolding declared_len
declared_len-word file n h e₀ e₁ e₂ e₃ =
    let word : get_or file 4 0
          + get_or file 5 0 * 256
          + get_or file 6 0 * 65536
          + get_or file 7 0 * 16777216
        ≡ n =
      omega (arith, e₀, e₁, e₂, e₃, h) in
    rw word (ground (arith, h))

-- The code that a load puts at the start of the buffer.
abbrev pub loaded : Option (List ℕ × ℕ) → Option (List ℕ)
loaded none = none
loaded (some r) = some (take r.1 r.0)

-- What a load of the saved file gives.
abbrev pub reload : (buffer : List ℕ) → Option (List ℕ × ℕ) → Option (List ℕ)
reload buffer none = none
reload buffer (some r) = loaded (cc_load_program buffer r.0 r.1)

load_code-take :
    (buffer file code : List ℕ)
    → length code ≤ cc_code_size
    → length code ≤ length buffer
    → ((j : ℕ) → j < length code → get_or file (8 + j) 0 ≡ get_or code j 0)
    → loaded (load_code buffer file (cc_program_header_size + length code) (pos (length code)))
      ≡ some code
unfolding load_code
load_code-take buffer file code small room same =
    let n = length code in
    let whole : take n (copy buffer 0 file 8 n) ≡ code =
      list_ext (take n (copy buffer 0 file 8 n)) code
        (omega (arith, length-take n (copy buffer 0 file 8 n), length-copy buffer 0 file 8 n, room))
        (λ j l.
          let below : j < n = omega (arith, l, length-take n (copy buffer 0 file 8 n)) in
          ground (
            arith,
            get_or-take n (copy buffer 0 file 8 n) j,
            get_or-copy buffer 0 file 8 n j (omega (arith, room)),
            below,
            same j below,
            index_eq file {i = 8 + (j - 0)} {j = 8 + j} (omega arith),
          )) in
    if_ind (λ r. loaded r ≡ some code)
      (ltb cc_code_size n || not (cc_program_header_size + n == cc_program_header_size + n))
      (λ e. absurd (ground (arith, small, e))) (λ e. ap some whole)

-- Code of at most 32768 bytes, saved into a buffer that holds it and its header, is what
-- cc_load_program puts at the start of the code buffer.
pub save-load :
    (out buffer code : List ℕ) (out_buf_max : ℕ)
    → length code ≤ cc_code_size
    → cc_program_header_size + length code ≤ out_buf_max
    → out_buf_max ≤ length out
    → cc_code_size ≤ length buffer
    → reload buffer (cc_save_program out out_buf_max code (length code)) ≡ some code
unfolding cc_save_program cc_load_program
save-load out buffer code max small fits room size =
    let n = length code in
    let file = copy (copy out 0 (program_header n) 0 8) 8 code 0 n in
    let byte = λ (j : ℕ). saved out code j (omega (arith, fits, room)) in
    let declared =
      declared_len-word file n (omega (arith, small)) (byte 4) (byte 5) (byte 6) (byte 7) in
    if_ind (λ r. reload buffer r ≡ some code) (ltb max (cc_program_header_size + n))
      (λ e. absurd (ground (arith, fits, e)))
      (λ e.
        rw (byte 0, byte 1, byte 2, byte 3, declared)
          (if_ind (λ r. loaded r ≡ some code)
            (ltb (cc_program_header_size + n) cc_program_header_size) (λ e. absurd (ground arith))
            (λ e. load_code-take buffer file code small (omega (arith, small, size)) (λ j l.
              ground
                (arith, l, byte (8 + j), index_eq code {i = 8 + j - 8} {j = j} (omega arith))))))
