-- ===== src/Tests/Compiler.antt =====
-- The compiler at concrete inputs.
use kernel_basic.Prelude.{
  ℕ, ◌≤◌, ◌≡◌, ◌≢◌, refl, List, [], ◌∷◌, ◌++◌, some, length, replicate, length-replicate, arith,
}
use kernel_basic.Prelude.Bytes.{codes}
use kernel_basic.Cc.{ok, Cc, cc_code_size, tok_lt}
use kernel_basic.Cc.Tree.{Node, nd_num, nd_var, nd_binop, nd_assign, nd_while}
use kernel_basic.Cc.Compile.{no_fuel, cc_save_program}
use kernel_basic.Cc.Image.{program_code, stmt_code}
use kernel_basic.Cc.Correct
use kernel_basic.Str.{strcmp}
use kernel_basic.Cc.Program
use kernel_basic.Cc.Codegen.{
  gen_compare, gen_op, cc_codegen_expr, gen_print, gen_decl, gen_if, gen_while, cc_codegen_stmt,
  codegen_block,
}
use kernel_basic.Cc.Compile.{cc_reset, compile_passes, report, cc_compile}
use kernel_basic.Cc.Emit.{
  emit_byte, emit_bytes, emit_u32, emit_push_eax, emit_pop_eax, emit_mov_ecx_eax,
  emit_mov_eax_imm32, emit_add, emit_sub, emit_imul, emit_cdq, emit_idiv_ecx, emit_neg_eax,
  emit_cmp, emit_setcc_al, emit_movzx_eax_al, emit_test_eax_eax, emit_call_eax, emit_add_esp4,
  emit_store_local, emit_load_local, emit_zero_local, emit_prologue, emit_epilogue,
  emit_jz_placeholder, emit_jmp_placeholder, emit_jmp_back, put_word, cc_patch,
}
use kernel_basic.Cc.Lexer.{
  skip_ws, cc_skip_ws, lex_num, lex_word, word_kind, one_or_two, lex_op, lex_token, cc_lex_next,
  cc_advance, cc_expect,
}
use kernel_basic.Cc.Parser.{
  new_node, cc_new_binop, parse_var, cc_parse_primary, cc_parse_unary, binop_loop, cc_parse_term,
  cc_parse_additive, cc_is_cmp_tok, cc_parse_comparison, cc_parse_expr,
}
use kernel_basic.Cc.Statements.{
  parse_init, parse_decl, parse_parens, parse_else, parse_if, parse_while, parse_print,
  parse_return, assign_to, parse_assign, block_loop, cc_parse_block, stmt_of, cc_parse_stmt,
  cc_parse_program,
}
use kernel_basic.Cc.Tree.{
  append_node, cc_arena_alloc, find_sym, cc_sym_lookup, declare_new, cc_sym_declare,
}
use kernel_basic.Cc.{cc_is_digit, cc_is_alpha, cc_is_alnum, copy_text, cc_copy_text}

-- A program with a variable, a test, a print and a return.
abbrev program : List ℕ
program = codes "int main(){int x=2;if(x<3)print(x);return x;}"

abbrev program_bytes : List ℕ
program_bytes =
    0x55 ∷ 0x89 ∷ 0xe5 ∷ 0x81 ∷ 0xec ∷ 0x4 ∷ 0x0 ∷ 0x0 ∷ 0x0 ∷ 0xb8 ∷ 0x2 ∷ 0x0 ∷ 0x0 ∷ 0x0 ∷ 0x89
    ∷ 0x45 ∷ 0xfc ∷ 0x8b ∷ 0x45 ∷ 0xfc ∷ 0x50 ∷ 0xb8 ∷ 0x3 ∷ 0x0 ∷ 0x0 ∷ 0x0 ∷ 0x89 ∷ 0xc1 ∷ 0x58
    ∷ 0x39 ∷ 0xc8 ∷ 0xf ∷ 0x9c ∷ 0xc0 ∷ 0xf ∷ 0xb6 ∷ 0xc0 ∷ 0x85 ∷ 0xc0 ∷ 0xf ∷ 0x84 ∷ 0xe ∷ 0x0
    ∷ 0x0 ∷ 0x0 ∷ 0x8b ∷ 0x45 ∷ 0xfc ∷ 0x50 ∷ 0xb8 ∷ 0x0 ∷ 0x10 ∷ 0x0 ∷ 0x0 ∷ 0xff ∷ 0xd0 ∷ 0x83
    ∷ 0xc4 ∷ 0x4 ∷ 0x8b ∷ 0x45 ∷ 0xfc ∷ 0x89 ∷ 0xec ∷ 0x5d ∷ 0xc3 ∷ 0xb8 ∷ 0x0 ∷ 0x0 ∷ 0x0 ∷ 0x0
    ∷ 0x89 ∷ 0xec ∷ 0x5d ∷ 0xc3 ∷ []

cc_compile-code_example :
    75 ≡ length program_bytes
    × ((r : Node × Cc) × (Correct.parse program 45 ≡ ok r
          × (program_bytes ≡ program_code 4096 (length r.1.syms) r.0
              × length program_bytes ≤ cc_code_size)))
unfolding strcmp gen_compare gen_op cc_codegen_expr gen_print gen_decl gen_if gen_while
    cc_codegen_stmt codegen_block cc_reset compile_passes report cc_compile emit_byte emit_bytes
    emit_u32 emit_push_eax emit_pop_eax emit_mov_ecx_eax emit_mov_eax_imm32 emit_add emit_sub
    emit_imul emit_cdq emit_idiv_ecx emit_neg_eax emit_cmp emit_setcc_al emit_movzx_eax_al
    emit_test_eax_eax emit_call_eax emit_add_esp4 emit_store_local emit_load_local emit_zero_local
    emit_prologue emit_epilogue emit_jz_placeholder emit_jmp_placeholder emit_jmp_back put_word
    cc_patch skip_ws cc_skip_ws lex_num lex_word word_kind one_or_two lex_op lex_token cc_lex_next
    cc_advance cc_expect new_node cc_new_binop parse_var cc_parse_primary cc_parse_unary binop_loop
    cc_parse_term cc_parse_additive cc_is_cmp_tok cc_parse_comparison cc_parse_expr parse_init
    parse_decl parse_parens parse_else parse_if parse_while parse_print parse_return assign_to
    parse_assign block_loop cc_parse_block stmt_of cc_parse_stmt cc_parse_program append_node
    cc_arena_alloc find_sym cc_sym_lookup declare_new cc_sym_declare cc_is_digit cc_is_alpha
    cc_is_alnum copy_text cc_copy_text
cc_compile-code_example = Correct.cc_compile-code program 45 4096 64 75 program_bytes refl

cc_compile-terminates_example : cc_compile (codes "int main(){{{") 13 4096 64 ≢ no_fuel
cc_compile-terminates_example = Correct.cc_compile-terminates (codes "int main(){{{") 13 4096 64

-- while (x < 3) x = 5;
abbrev loop : Node
loop = nd_while 1 (nd_binop 1 tok_lt (nd_var 1 4) (nd_num 1 3)) (nd_assign 1 4 (nd_num 1 5))

abbrev loop_bytes : List ℕ
loop_bytes =
    0x90 ∷ 0x8b ∷ 0x45 ∷ 0xfc ∷ 0x50 ∷ 0xb8 ∷ 0x3 ∷ 0x0 ∷ 0x0 ∷ 0x0 ∷ 0x89 ∷ 0xc1 ∷ 0x58 ∷ 0x39
    ∷ 0xc8 ∷ 0xf ∷ 0x9c ∷ 0xc0 ∷ 0xf ∷ 0xb6 ∷ 0xc0 ∷ 0x85 ∷ 0xc0 ∷ 0xf ∷ 0x84 ∷ 0xd ∷ 0x0 ∷ 0x0
    ∷ 0x0 ∷ 0xb8 ∷ 0x5 ∷ 0x0 ∷ 0x0 ∷ 0x0 ∷ 0x89 ∷ 0x45 ∷ 0xfc ∷ 0xe9 ∷ 0xd7 ∷ 0xff ∷ 0xff ∷ 0xff
    ∷ []

cc_codegen_stmt-stmt_code_example :
    loop_bytes ≡ (0x90 ∷ []) ++ stmt_code 4096 loop × length loop_bytes ≤ cc_code_size
unfolding gen_compare gen_op cc_codegen_expr gen_while cc_codegen_stmt emit_byte emit_bytes emit_u32
    emit_push_eax emit_pop_eax emit_mov_ecx_eax emit_mov_eax_imm32 emit_cmp emit_setcc_al
    emit_movzx_eax_al emit_test_eax_eax emit_store_local emit_load_local emit_jz_placeholder
    emit_jmp_back put_word cc_patch
cc_codegen_stmt-stmt_code_example =
    Correct.cc_codegen_stmt-stmt_code 4096 loop (0x90 ∷ []) loop_bytes (omega arith) refl

abbrev zeros : ℕ → List ℕ
zeros n = replicate n 0

save-load_example :
    Program.reload
      (zeros 32768)
      (cc_save_program (zeros 100) 100 (0xB8 ∷ 7 ∷ 0 ∷ 0 ∷ 0 ∷ 0xC3 ∷ []) 6)
    ≡ some (0xB8 ∷ 7 ∷ 0 ∷ 0 ∷ 0 ∷ 0xC3 ∷ [])
save-load_example =
    Program.save-load (zeros 100) (zeros 32768) (0xB8 ∷ 7 ∷ 0 ∷ 0 ∷ 0 ∷ 0xC3 ∷ []) 100 (omega arith)
      (omega arith) (omega (arith, length-replicate {A = ℕ} 100 0))
      (omega (arith, length-replicate {A = ℕ} 32768 0))
