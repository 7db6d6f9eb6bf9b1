-- ===== src/Cc/Compile.antt =====
-- The driver of kernel/cc.c, and the file format of a compiled program. `cc_serialize` runs CPUID,
-- which changes nothing that is modelled.
use kernel_basic.Prelude.{
  ℕ, ◌+◌, ◌-◌, ◌*◌, ◌/◌, ◌%◌, not, ◌&&◌, ◌||◌, List, [], ◌∷◌, Option, none, some, ltb, ◌==◌,
  if◌then◌else◌, length, get_or, take,
}
use kernel_basic.Prelude.Int.{ℤ, pos, negsuc, sub_ℕ}
use kernel_basic.Prelude.Memory.{copy}
use kernel_basic.Cc.{
  Result, ok, err, stuck, ◌>>=◌, Cc, cc_code_size, cc_program_header_size, tok_eof,
}
use kernel_basic.Cc.Lexer.{token, cc_advance}
use kernel_basic.Cc.Statements.{cc_parse_program}
use kernel_basic.Cc.Emit.{emit_prologue, emit_mov_eax_imm32, emit_epilogue}
use kernel_basic.Cc.Codegen.{cc_codegen_stmt}

-- The static variables at the start of `cc_compile`.
unfoldable pub cc_reset : List ℕ → (src_len : ℕ) → Cc
cc_reset src src_len = record {
  src = src;
  src_len = src_len;
  at = 0;
  line = 1;
  arena_pos = 0;
  syms = [];
  cur = token tok_eof 0 [] 1;
}

-- The passes: the code, or the first error.
unfoldable pub compile_passes : (fuel : ℕ) → List ℕ → (src_len print_fn : ℕ) → Result (List ℕ)
unfolding cc_reset
compile_passes fuel src src_len print_fn =
    cc_advance (cc_reset src src_len) >>= cc_parse_program fuel >>= λ (program, s).
    emit_prologue (length s.syms) []
    >>= cc_codegen_stmt print_fn program
    >>= emit_mov_eax_imm32 0
    >>= emit_epilogue

-- What the caller gets: the length of the code and the code, or -1 with the message, cut to its
-- buffer, and the line.
pub data Compiled : Type 0 where
  compiled : (code_len : ℕ) → (code : List ℕ) → Compiled
  failed : (err_msg : List ℕ) → (err_line : ℤ) → Compiled
  no_fuel : Compiled

-- `cc_error` keeps 63 bytes of a message, and the caller's buffer `err_msg_max - 1` of those.
unfoldable pub report : (err_msg_max : ℕ) → Result (List ℕ) → Compiled
report err_msg_max (ok code) = compiled (length code) code
report err_msg_max (err line msg) = failed (take (err_msg_max - 1) (take 63 msg)) line
report err_msg_max stuck = no_fuel

-- One step of fuel for each byte of the source, and two more.
unfoldable pub cc_compile : List ℕ → (src_len print_fn err_msg_max : ℕ) → Compiled
unfolding compile_passes report
cc_compile src src_len print_fn err_msg_max =
    report err_msg_max (compile_passes (src_len + 2) src src_len print_fn)

-- The header: the magic "RKXC" and the length of the code, the lowest byte first.
unfoldable pub program_header : (code_len : ℕ) → List ℕ
program_header n =
    b'R' ∷ b'K' ∷ b'X' ∷ b'C' ∷ n % 256 ∷ n / 256 % 256 ∷ n / 65536 % 256 ∷ n / 16777216 % 256 ∷ []

-- The bytes at `out_buf` afterwards and the length of the file, or none where it does not fit. A
-- negative `code_len`, which fails at once, is not represented.
unfoldable pub cc_save_program :
    (out_buf : List ℕ) → (out_buf_max : ℕ) → (code : List ℕ) → (code_len : ℕ) → Option (List ℕ × ℕ)
unfolding program_header
cc_save_program out_buf out_buf_max code code_len =
    if ltb out_buf_max (cc_program_header_size + code_len)
    then none
    else some (
      copy (copy out_buf 0 (program_header code_len) 0 8) 8 code 0 code_len,
      cc_program_header_size + code_len,
    )

-- The length that a header declares, an `int`: the top bit is its sign.
unfoldable pub declared_len : List ℕ → ℤ
declared_len file =
    let n =
      get_or file 4 0
      + get_or file 5 0 * 256
      + get_or file 6 0 * 65536
      + get_or file 7 0 * 16777216 in
    if ltb n 2147483648 then pos n else sub_ℕ n 4294967296

-- What `cc_load_program` does with the declared length: the code buffer afterwards and the length.
unfoldable pub load_code : (buffer file : List ℕ) → (file_len : ℕ) → ℤ → Option (List ℕ × ℕ)
load_code buffer file file_len (negsuc n) = none
load_code buffer file file_len (pos n) =
    if ltb cc_code_size n || not (cc_program_header_size + n == file_len)
    then none
    else some (copy buffer 0 file 8 n, n)

-- `buffer` is the code buffer before.
unfoldable pub cc_load_program : (buffer file : List ℕ) → (file_len : ℕ) → Option (List ℕ × ℕ)
unfolding load_code declared_len
cc_load_program buffer file file_len =
    if ltb file_len cc_program_header_size
    then none
    else if not (
        get_or file 0 0 == b'R'
        && get_or file 1 0 == b'K'
        && get_or file 2 0 == b'X'
        && get_or file 3 0 == b'C')
    then none
    else load_code buffer file file_len (declared_len file)
