-- ===== src/Cc/Generates.antt =====
-- The code generator of kernel/cc.c against the machine code of a tree.
use kernel_basic.Prelude.{ℕ, ◌*◌, refl, sym, Bool, true, false, [], ◌∷◌, ltb, if◌then◌else◌, arith}
use kernel_basic.Cc.{ok, ◌>>=◌}
use kernel_basic.Cc.Tree.{
  Node, Nodes, null, nd_assign, nd_decl, nd_if, nd_while, nd_print, nd_return, nd_block, end, next,
}
use kernel_basic.Cc.Emit.{
  emit_bytes, word_bytes, emit_u32, emit_mov_eax_imm32, emit_prologue, emit_epilogue,
}
use kernel_basic.Cc.Codegen.{is_null, cc_codegen_stmt, codegen_block}
use kernel_basic.Cc.Image.{expr_code, stmt_code, nodes_code, prologue_code, program_code}
use kernel_basic.Cc.Progress.{returns, raises}
use kernel_basic.Cc.Emits.{Appends, Emits, Emits-bind, emit_bytes-Emits}
use mathlib.Core.List.{append-nil, append_assoc}
use kernel_basic.Cc.Straight.{
  regroup, emit_mov_eax-Emits, cc_codegen_expr-Emits, store-Emits, decl-Emits, print-Emits,
}
use kernel_basic.Cc.Jumps.{if-Emits, while-Emits}

mutual
  unfolding cc_codegen_stmt stmt_code emit_epilogue

  pub cc_codegen_stmt-Emits : (p : ℕ) (n : Node) → Emits (cc_codegen_stmt p n) (stmt_code p n)
  cc_codegen_stmt-Emits p null code h = returns (sym (append-nil code), h)
  cc_codegen_stmt-Emits p (nd_assign line off a) code h = store-Emits off a code h
  cc_codegen_stmt-Emits p (nd_decl line off a) code h = decl-Emits off a code h
  cc_codegen_stmt-Emits p (nd_if line a b c) code h =
      if-Emits a (stmt_code p b) (stmt_code p c) (cc_codegen_stmt-Emits p b)
        (cc_codegen_stmt-Emits p c) (is_null c) code h
  cc_codegen_stmt-Emits p (nd_while line a b) code h =
      while-Emits a (stmt_code p b) (cc_codegen_stmt-Emits p b) code h
  cc_codegen_stmt-Emits p (nd_print line a) code h = print-Emits p a code h
  cc_codegen_stmt-Emits p (nd_return line a) code h =
      Emits-bind code (expr_code a) _ (cc_codegen_expr-Emits a code h) (emit_bytes-Emits _)
  cc_codegen_stmt-Emits p (nd_block line ns) code h = block-Emits p ns code h
  cc_codegen_stmt-Emits p _ code h = raises

  block-Emits : (p : ℕ) (ns : Nodes) → Emits (codegen_block p ns) (nodes_code p ns)
  block-Emits p end code h = returns (sym (append-nil code), h)
  block-Emits p (next n ns) code h =
      Emits-bind code (stmt_code p n) (nodes_code p ns) (cc_codegen_stmt-Emits p n code h)
        (block-Emits p ns)

-- The room for the variables, where there are any.
room-Emits :
    (n : ℕ) (b : Bool)
    → Emits
        (λ code. if b then (emit_bytes (0x81 ∷ 0xEC ∷ []) code >>= emit_u32 (4 * n)) else ok code)
        (if b then 0x81 ∷ 0xEC ∷ word_bytes (4 * n) else [])
unfolding emit_u32
room-Emits n true code h =
    Emits-bind code (0x81 ∷ 0xEC ∷ []) (word_bytes (4 * n)) (emit_bytes-Emits _ code h)
      (emit_bytes-Emits _)
room-Emits n false code h = returns (sym (append-nil code), h)

prologue-Emits : (n : ℕ) → Emits (emit_prologue n) (prologue_code n)
unfolding emit_prologue prologue_code
prologue-Emits n code h =
    Emits-bind code (0x55 ∷ 0x89 ∷ 0xE5 ∷ []) _ (emit_bytes-Emits _ code h) (room-Emits n (ltb 0 n))

-- What the driver emits for the tree of a program.
pub program-Emits :
    (p n : ℕ) (body : Node)
    → Appends []
        (program_code p n body)
        (emit_prologue n [] >>= cc_codegen_stmt p body >>= emit_mov_eax_imm32 0 >>= emit_epilogue)
unfolding program_code emit_epilogue
program-Emits p n body =
    let entered = prologue-Emits n [] (omega arith) in
    let run =
      Emits-bind [] (prologue_code n) (stmt_code p body) entered (cc_codegen_stmt-Emits p body) in
    let value = Emits-bind [] _ (0xB8 ∷ word_bytes 0) run (emit_mov_eax-Emits 0) in
    regroup [] (simp append_assoc refl)
      (Emits-bind [] _ (0x89 ∷ 0xEC ∷ 0x5D ∷ 0xC3 ∷ []) value (emit_bytes-Emits _))
