-- ===== src/Cc/Codegen.antt =====
-- The code generator of kernel/cc.c: a stack machine on x86-32, with the value of an expression in
-- eax. `print_fn` is the address that `print` calls.
use kernel_basic.Prelude.{ℕ, Bool, true, false, List, if◌then◌else◌, length}
use kernel_basic.Prelude.Int.{pos}
use kernel_basic.Prelude.Bytes.{codes}
use kernel_basic.Cc.{
  Result, ok, err, ◌>>=◌, TokType, tok_plus, tok_minus, tok_star, tok_slash, tok_eq, tok_ne, tok_lt,
  tok_gt, tok_le, tok_ge,
}
use kernel_basic.Cc.Tree.{
  Node, Nodes, null, nd_num, nd_var, nd_unm, nd_binop, nd_assign, nd_decl, nd_if, nd_while,
  nd_print, nd_return, nd_block, end, next,
}
use kernel_basic.Cc.Emit.{
  Emit, emit_push_eax, emit_pop_eax, emit_mov_ecx_eax, emit_mov_eax_imm32, emit_add, emit_sub,
  emit_imul, emit_cdq, emit_idiv_ecx, emit_neg_eax, emit_cmp, emit_setcc_al, emit_movzx_eax_al,
  emit_call_eax, emit_add_esp4, emit_store_local, emit_load_local, emit_zero_local, emit_epilogue,
  emit_jz_placeholder, emit_jmp_placeholder, emit_jmp_back, cc_patch,
}

-- The comparison of eax with ecx under condition code `cc`, as 0 or 1.
unfoldable pub gen_compare : (cc : ℕ) → Emit
gen_compare cc code = emit_cmp code >>= emit_setcc_al cc >>= emit_movzx_eax_al

-- The switch over the operator of a binary node: the left operand in eax, the right one in ecx.
unfoldable pub gen_op : (line : ℕ) → TokType → Emit
unfolding gen_compare
gen_op line tok_plus code = emit_add code
gen_op line tok_minus code = emit_sub code
gen_op line tok_star code = emit_imul code
gen_op line tok_slash code = emit_cdq code >>= emit_idiv_ecx
gen_op line tok_eq code = gen_compare 0x94 code
gen_op line tok_ne code = gen_compare 0x95 code
gen_op line tok_lt code = gen_compare 0x9C code
gen_op line tok_gt code = gen_compare 0x9F code
gen_op line tok_le code = gen_compare 0x9E code
gen_op line tok_ge code = gen_compare 0x9D code
gen_op line _ code = err (pos line) (codes "operador invalido")

abbrev pub bad_expr : (line : ℕ) → Result (List ℕ)
bad_expr line = err (pos line) (codes "expressao invalida")

unfoldable pub cc_codegen_expr : Node → Emit
unfolding gen_op
cc_codegen_expr null code = ok code
cc_codegen_expr (nd_num line int_val) code = emit_mov_eax_imm32 int_val code
cc_codegen_expr (nd_var line var_offset) code = emit_load_local var_offset code
cc_codegen_expr (nd_unm line a) code = cc_codegen_expr a code >>= emit_neg_eax
cc_codegen_expr (nd_binop line op a b) code =
    cc_codegen_expr a code
    >>= emit_push_eax
    >>= cc_codegen_expr b
    >>= emit_mov_ecx_eax
    >>= emit_pop_eax
    >>= gen_op line op
cc_codegen_expr (nd_assign line var_offset a) code = bad_expr line
cc_codegen_expr (nd_decl line var_offset a) code = bad_expr line
cc_codegen_expr (nd_if line a b c) code = bad_expr line
cc_codegen_expr (nd_while line a b) code = bad_expr line
cc_codegen_expr (nd_print line a) code = bad_expr line
cc_codegen_expr (nd_return line a) code = bad_expr line
cc_codegen_expr (nd_block line a) code = bad_expr line

abbrev pub bad_stmt : (line : ℕ) → Result (List ℕ)
bad_stmt line = err (pos line) (codes "comando invalido")

abbrev pub is_null : Node → Bool
is_null null = true
is_null _ = false

-- The call of `print_fn` with the value as its one argument.
unfoldable pub gen_print : (print_fn : ℕ) → Node → Emit
unfolding cc_codegen_expr
gen_print print_fn a code =
    cc_codegen_expr a code
    >>= emit_push_eax
    >>= emit_mov_eax_imm32 print_fn
    >>= emit_call_eax
    >>= emit_add_esp4

unfoldable pub gen_decl : (var_offset : ℕ) → Node → Emit
unfolding cc_codegen_expr
gen_decl var_offset a code =
    if is_null a
    then emit_zero_local var_offset code
    else (cc_codegen_expr a code >>= emit_store_local var_offset)

-- The conditional around the emitters of its branches.
unfoldable pub gen_if : (cond : Node) → (then_s else_s : Emit) → (no_else : Bool) → Emit
unfolding cc_codegen_expr
gen_if cond then_s else_s no_else code =
    cc_codegen_expr cond code >>= emit_jz_placeholder >>= λ (code, l1). then_s code >>= λ code.
    if no_else
    then ok (cc_patch l1 (length code) code)
    else (emit_jmp_placeholder code >>= λ (code, l2).
        else_s (cc_patch l1 (length code) code) >>= λ code. ok (cc_patch l2 (length code) code))

unfoldable pub gen_while : (cond : Node) → (body : Emit) → Emit
unfolding cc_codegen_expr
gen_while cond body code = cc_codegen_expr cond code >>= emit_jz_placeholder >>= λ (code', l1).
    body code' >>= emit_jmp_back (length code) >>= λ code. ok (cc_patch l1 (length code) code)

unfoldable mutual
  unfolding gen_print gen_decl gen_if gen_while cc_codegen_expr

  pub cc_codegen_stmt : (print_fn : ℕ) → Node → Emit
  cc_codegen_stmt print_fn null code = ok code
  cc_codegen_stmt print_fn (nd_num line int_val) code = bad_stmt line
  cc_codegen_stmt print_fn (nd_var line var_offset) code = bad_stmt line
  cc_codegen_stmt print_fn (nd_unm line a) code = bad_stmt line
  cc_codegen_stmt print_fn (nd_binop line op a b) code = bad_stmt line
  cc_codegen_stmt print_fn (nd_assign line var_offset a) code =
      cc_codegen_expr a code >>= emit_store_local var_offset
  cc_codegen_stmt print_fn (nd_decl line var_offset a) code = gen_decl var_offset a code
  cc_codegen_stmt print_fn (nd_if line a b c) code =
      let then_s = cc_codegen_stmt print_fn b in
      let else_s = cc_codegen_stmt print_fn c in gen_if a then_s else_s (is_null c) code
  cc_codegen_stmt print_fn (nd_while line a b) code =
      let body = cc_codegen_stmt print_fn b in gen_while a body code
  cc_codegen_stmt print_fn (nd_print line a) code = gen_print print_fn a code
  cc_codegen_stmt print_fn (nd_return line a) code = cc_codegen_expr a code >>= emit_epilogue
  cc_codegen_stmt print_fn (nd_block line a) code = codegen_block print_fn a code

  pub codegen_block : (print_fn : ℕ) → Nodes → Emit
  codegen_block print_fn end code = ok code
  codegen_block print_fn (next n ns) code =
      let rest = codegen_block print_fn ns in cc_codegen_stmt print_fn n code >>= rest
