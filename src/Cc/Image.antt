-- ===== src/Cc/Image.antt =====
-- The machine code of a syntax tree, node by node: what kernel/cc.c's code generator is to emit. Its
-- jumps are relative to the code they skip or repeat.
use kernel_basic.Prelude.{
  ℕ, ◌+◌, ◌-◌, ◌*◌, ◌%◌, ◌^◌, Bool, true, false, List, [], ◌∷◌, ◌++◌, ltb, if◌then◌else◌, length,
}
use kernel_basic.Cc.{
  TokType, tok_plus, tok_minus, tok_star, tok_slash, tok_eq, tok_ne, tok_lt, tok_gt, tok_le, tok_ge,
}
use kernel_basic.Cc.Tree.{
  Node, Nodes, nd_num, nd_var, nd_unm, nd_binop, nd_assign, nd_decl, nd_if, nd_while, nd_print,
  nd_return, nd_block, end, next,
}
use kernel_basic.Cc.Emit.{word_bytes, neg_byte}
use kernel_basic.Cc.Codegen.{is_null}

-- cmp eax, ecx; setcc al; movzx eax, al
abbrev pub compare_code : (cc : ℕ) → List ℕ
compare_code cc = 0x39 ∷ 0xC8 ∷ 0x0F ∷ cc ∷ 0xC0 ∷ 0x0F ∷ 0xB6 ∷ 0xC0 ∷ []

unfoldable pub op_code : TokType → List ℕ
op_code tok_plus = 0x01 ∷ 0xC8 ∷ []
op_code tok_minus = 0x29 ∷ 0xC8 ∷ []
op_code tok_star = 0x0F ∷ 0xAF ∷ 0xC1 ∷ []
op_code tok_slash = 0x99 ∷ 0xF7 ∷ 0xF9 ∷ []
op_code tok_eq = compare_code 0x94
op_code tok_ne = compare_code 0x95
op_code tok_lt = compare_code 0x9C
op_code tok_gt = compare_code 0x9F
op_code tok_le = compare_code 0x9E
op_code tok_ge = compare_code 0x9D
op_code _ = []

unfoldable pub expr_code : Node → List ℕ
unfolding op_code
expr_code (nd_num line int_val) = 0xB8 ∷ word_bytes int_val
expr_code (nd_var line var_offset) = 0x8B ∷ 0x45 ∷ neg_byte var_offset ∷ []
expr_code (nd_unm line a) = expr_code a ++ (0xF7 ∷ 0xD8 ∷ [])
expr_code (nd_binop line op a b) =
    expr_code a ++ (0x50 ∷ expr_code b) ++ (0x89 ∷ 0xC1 ∷ 0x58 ∷ op_code op)
expr_code _ = []

-- test eax, eax; jz over `n` bytes
abbrev pub jz_code : (n : ℕ) → List ℕ
jz_code n = 0x85 ∷ 0xC0 ∷ 0x0F ∷ 0x84 ∷ word_bytes (n % 2 ^ 32)

-- jmp over `n` bytes
abbrev pub jmp_code : (n : ℕ) → List ℕ
jmp_code n = 0xE9 ∷ word_bytes (n % 2 ^ 32)

-- jmp `n` bytes back
abbrev pub back_code : (n : ℕ) → List ℕ
back_code n = 0xE9 ∷ word_bytes ((2 ^ 32 - n % 2 ^ 32) % 2 ^ 32)

abbrev pub if_code : (cond then_s else_s : List ℕ) → (no_else : Bool) → List ℕ
if_code cond then_s else_s true = cond ++ jz_code (length then_s) ++ then_s
if_code cond then_s else_s false =
    cond ++ jz_code (length then_s + 5) ++ then_s ++ jmp_code (length else_s) ++ else_s

abbrev pub while_code : (cond body : List ℕ) → List ℕ
while_code cond body =
    cond ++ jz_code (length body + 5) ++ body ++ back_code (length cond + length body + 13)

unfoldable mutual
  unfolding expr_code

  pub stmt_code : (print_fn : ℕ) → Node → List ℕ
  stmt_code p (nd_assign line var_offset a) =
      expr_code a ++ (0x89 ∷ 0x45 ∷ neg_byte var_offset ∷ [])
  stmt_code p (nd_decl line var_offset a) =
      if is_null a
      then 0xC7 ∷ 0x45 ∷ neg_byte var_offset ∷ word_bytes 0
      else expr_code a ++ (0x89 ∷ 0x45 ∷ neg_byte var_offset ∷ [])
  stmt_code p (nd_if line a b c) = if_code (expr_code a) (stmt_code p b) (stmt_code p c) (is_null c)
  stmt_code p (nd_while line a b) = while_code (expr_code a) (stmt_code p b)
  stmt_code p (nd_print line a) =
      expr_code a ++ (0x50 ∷ 0xB8 ∷ word_bytes p ++ (0xFF ∷ 0xD0 ∷ 0x83 ∷ 0xC4 ∷ 0x04 ∷ []))
  stmt_code p (nd_return line a) = expr_code a ++ (0x89 ∷ 0xEC ∷ 0x5D ∷ 0xC3 ∷ [])
  stmt_code p (nd_block line ns) = nodes_code p ns
  stmt_code p _ = []

  pub nodes_code : (print_fn : ℕ) → Nodes → List ℕ
  nodes_code p end = []
  nodes_code p (next n ns) = stmt_code p n ++ nodes_code p ns

-- push ebp; mov ebp, esp; sub esp, 4 * n, this only where there are variables
unfoldable pub prologue_code : (n : ℕ) → List ℕ
prologue_code n = 0x55 ∷ 0x89 ∷ 0xE5 ∷ (if ltb 0 n then 0x81 ∷ 0xEC ∷ word_bytes (4 * n) else [])

-- A whole program: its value is 0 where no `return` was reached.
unfoldable pub program_code : (print_fn locals : ℕ) → Node → List ℕ
unfolding prologue_code stmt_code
program_code p n body =
    prologue_code n ++ stmt_code p body ++ (0xB8 ∷ word_bytes 0 ++ (0x89 ∷ 0xEC ∷ 0x5D ∷ 0xC3 ∷ []))
