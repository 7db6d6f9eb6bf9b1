-- ===== src/Cc/Emit.antt =====
-- The emitters of kernel/cc.c: x86-32 instructions as bytes. The code is what was emitted so far, the
-- first `g_cc_code_pos` bytes of the buffer.
use kernel_basic.Prelude.{
  ℕ, ◌+◌, ◌-◌, ◌*◌, ◌/◌, ◌%◌, ◌^◌, List, [], ◌∷◌, ◌++◌, ltb, if◌then◌else◌, length, set,
}
use kernel_basic.Prelude.Int.{negsuc}
use kernel_basic.Prelude.Bytes.{codes}
use kernel_basic.Cc.{Result, ok, err, ◌>>=◌, cc_code_size}

-- An emitter takes the code on.
abbrev pub Emit : Type 0
Emit = List ℕ → Result (List ℕ)

unfoldable pub emit_byte : (b : ℕ) → Emit
emit_byte b code =
    if ltb (length code) cc_code_size
    then ok (code ++ (b ∷ []))
    else err (negsuc 0) (codes "codigo gerado excede o buffer")

-- A run of calls of `emit_byte`.
unfoldable pub emit_bytes : List ℕ → Emit
unfolding emit_byte
emit_bytes [] code = ok code
emit_bytes (b ∷ bs) code = emit_byte b code >>= emit_bytes bs

-- The four bytes of a 32-bit word, the lowest first.
abbrev pub word_bytes : ℕ → List ℕ
word_bytes v = v % 256 ∷ v / 256 % 256 ∷ v / 65536 % 256 ∷ v / 16777216 % 256 ∷ []

unfoldable pub emit_u32 : (v : ℕ) → Emit
emit_u32 v code = emit_bytes (word_bytes v) code

unfoldable pub emit_push_eax : Emit
emit_push_eax code = emit_bytes (0x50 ∷ []) code

unfoldable pub emit_pop_eax : Emit
emit_pop_eax code = emit_bytes (0x58 ∷ []) code

unfoldable pub emit_mov_ecx_eax : Emit
emit_mov_ecx_eax code = emit_bytes (0x89 ∷ 0xC1 ∷ []) code

unfoldable pub emit_mov_eax_imm32 : (v : ℕ) → Emit
unfolding emit_u32
emit_mov_eax_imm32 v code = emit_bytes (0xB8 ∷ []) code >>= emit_u32 v

unfoldable pub emit_add : Emit
emit_add code = emit_bytes (0x01 ∷ 0xC8 ∷ []) code

unfoldable pub emit_sub : Emit
emit_sub code = emit_bytes (0x29 ∷ 0xC8 ∷ []) code

unfoldable pub emit_imul : Emit
emit_imul code = emit_bytes (0x0F ∷ 0xAF ∷ 0xC1 ∷ []) code

unfoldable pub emit_cdq : Emit
emit_cdq code = emit_bytes (0x99 ∷ []) code

unfoldable pub emit_idiv_ecx : Emit
emit_idiv_ecx code = emit_bytes (0xF7 ∷ 0xF9 ∷ []) code

unfoldable pub emit_neg_eax : Emit
emit_neg_eax code = emit_bytes (0xF7 ∷ 0xD8 ∷ []) code

unfoldable pub emit_cmp : Emit
emit_cmp code = emit_bytes (0x39 ∷ 0xC8 ∷ []) code

unfoldable pub emit_setcc_al : (cc : ℕ) → Emit
emit_setcc_al cc code = emit_bytes (0x0F ∷ cc ∷ 0xC0 ∷ []) code

unfoldable pub emit_movzx_eax_al : Emit
emit_movzx_eax_al code = emit_bytes (0x0F ∷ 0xB6 ∷ 0xC0 ∷ []) code

unfoldable pub emit_test_eax_eax : Emit
emit_test_eax_eax code = emit_bytes (0x85 ∷ 0xC0 ∷ []) code

unfoldable pub emit_call_eax : Emit
emit_call_eax code = emit_bytes (0xFF ∷ 0xD0 ∷ []) code

unfoldable pub emit_add_esp4 : Emit
emit_add_esp4 code = emit_bytes (0x83 ∷ 0xC4 ∷ 0x04 ∷ []) code

-- `(unsigned char)(-off)`
abbrev pub neg_byte : ℕ → ℕ
neg_byte off = (256 - off % 256) % 256

unfoldable pub emit_store_local : (off : ℕ) → Emit
emit_store_local off code = emit_bytes (0x89 ∷ 0x45 ∷ neg_byte off ∷ []) code

unfoldable pub emit_load_local : (off : ℕ) → Emit
emit_load_local off code = emit_bytes (0x8B ∷ 0x45 ∷ neg_byte off ∷ []) code

unfoldable pub emit_zero_local : (off : ℕ) → Emit
unfolding emit_u32
emit_zero_local off code = emit_bytes (0xC7 ∷ 0x45 ∷ neg_byte off ∷ []) code >>= emit_u32 0

unfoldable pub emit_prologue : (n : ℕ) → Emit
unfolding emit_u32
emit_prologue n code = emit_bytes (0x55 ∷ 0x89 ∷ 0xE5 ∷ []) code >>= λ code.
    if ltb 0 n then (emit_bytes (0x81 ∷ 0xEC ∷ []) code >>= emit_u32 (4 * n)) else ok code

unfoldable pub emit_epilogue : Emit
emit_epilogue code = emit_bytes (0x89 ∷ 0xEC ∷ 0x5D ∷ 0xC3 ∷ []) code

-- The code and the place of the jump's operand.
unfoldable pub emit_jz_placeholder : List ℕ → Result (List ℕ × ℕ)
unfolding emit_test_eax_eax emit_u32
emit_jz_placeholder code = emit_test_eax_eax code >>= emit_bytes (0x0F ∷ 0x84 ∷ []) >>= λ code.
    emit_u32 0 code >>= λ code'. ok (code', length code)

unfoldable pub emit_jmp_placeholder : List ℕ → Result (List ℕ × ℕ)
unfolding emit_u32
emit_jmp_placeholder code =
    emit_bytes (0xE9 ∷ []) code >>= λ code. emit_u32 0 code >>= λ code'. ok (code', length code)

-- `target - from` in 32 bits, which wraps for a jump back.
abbrev pub rel32 : (target from : ℕ) → ℕ
rel32 target from = (target + 2 ^ 32 - from % 2 ^ 32) % 2 ^ 32

unfoldable pub emit_jmp_back : (target : ℕ) → Emit
unfolding emit_u32
emit_jmp_back target code =
    emit_bytes (0xE9 ∷ []) code >>= λ code. emit_u32 (rel32 target (length code + 4)) code

-- Four bytes from `at` on.
unfoldable pub put_word : (at v : ℕ) → List ℕ → List ℕ
put_word at v code =
    set (set (set (set code at (v % 256)) (at + 1) (v / 256 % 256)) (at + 2) (v / 65536 % 256))
      (at + 3) (v / 16777216 % 256)

unfoldable pub cc_patch : (at target : ℕ) → List ℕ → List ℕ
unfolding put_word
cc_patch at target code = put_word at (rel32 target (at + 4)) code
