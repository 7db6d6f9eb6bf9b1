-- ===== src/Cc/Straight.antt =====
-- The code generator of kernel/cc.c where no jump is: expressions, stores and prints.
use kernel_basic.Prelude.{
  ℕ, ◌≤◌, ◌≡◌, refl, sym, ap, ◌∙◌, List, [], ◌∷◌, ◌++◌, if◌then◌else◌, length,
}
use kernel_basic.Cc.{
  Result, ◌>>=◌, TokType, cc_code_size, tok_plus, tok_minus, tok_star, tok_slash, tok_eq, tok_ne,
  tok_lt, tok_gt, tok_le, tok_ge,
}
use kernel_basic.Cc.Tree.{Node, null, nd_num, nd_var, nd_unm, nd_binop}
use kernel_basic.Cc.Emit.{
  word_bytes, neg_byte, emit_u32, emit_push_eax, emit_pop_eax, emit_mov_ecx_eax, emit_mov_eax_imm32,
  emit_add, emit_sub, emit_imul, emit_cdq, emit_idiv_ecx, emit_neg_eax, emit_cmp, emit_setcc_al,
  emit_movzx_eax_al, emit_call_eax, emit_add_esp4, emit_store_local, emit_load_local,
  emit_zero_local,
}
use kernel_basic.Cc.Codegen.{gen_compare, gen_op, cc_codegen_expr, is_null, gen_print, gen_decl}
use kernel_basic.Cc.Image.{compare_code, op_code, expr_code}
use kernel_basic.Cc.Progress.{returns, raises, Post-weaken}
use kernel_basic.Cc.Emits.{Appends, Emits, Emits-bind, emit_bytes-Emits}
use mathlib.Core.List.{append-nil, append_assoc}

-- The same bytes, in another grouping.
pub regroup :
    (code : List ℕ) {bs cs : List ℕ} {r : Result (List ℕ)}
    → bs ≡ cs
    → Appends code bs r
    → Appends code cs r
regroup code e h = Post-weaken h (λ c g. (g.0 ∙ ap (λ x. code ++ x) e, g.1))

compare-Emits : (cc : ℕ) → Emits (gen_compare cc) (compare_code cc)
unfolding gen_compare emit_cmp emit_setcc_al emit_movzx_eax_al
compare-Emits cc code h =
    Emits-bind code (0x39 ∷ 0xC8 ∷ 0x0F ∷ cc ∷ 0xC0 ∷ []) (0x0F ∷ 0xB6 ∷ 0xC0 ∷ [])
      (Emits-bind code (0x39 ∷ 0xC8 ∷ []) (0x0F ∷ cc ∷ 0xC0 ∷ []) (emit_bytes-Emits _ code h)
        (emit_bytes-Emits _))
      (emit_bytes-Emits _)

gen_op-Emits : (line : ℕ) (op : TokType) → Emits (gen_op line op) (op_code op)
unfolding gen_op op_code emit_add emit_sub emit_imul emit_cdq emit_idiv_ecx
gen_op-Emits line tok_plus code h = emit_bytes-Emits _ code h
gen_op-Emits line tok_minus code h = emit_bytes-Emits _ code h
gen_op-Emits line tok_star code h = emit_bytes-Emits _ code h
gen_op-Emits line tok_slash code h =
    Emits-bind code (0x99 ∷ []) (0xF7 ∷ 0xF9 ∷ []) (emit_bytes-Emits _ code h) (emit_bytes-Emits _)
gen_op-Emits line tok_eq code h = compare-Emits 0x94 code h
gen_op-Emits line tok_ne code h = compare-Emits 0x95 code h
gen_op-Emits line tok_lt code h = compare-Emits 0x9C code h
gen_op-Emits line tok_gt code h = compare-Emits 0x9F code h
gen_op-Emits line tok_le code h = compare-Emits 0x9E code h
gen_op-Emits line tok_ge code h = compare-Emits 0x9D code h
gen_op-Emits line _ code h = raises

pub emit_mov_eax-Emits : (v : ℕ) → Emits (emit_mov_eax_imm32 v) (0xB8 ∷ word_bytes v)
unfolding emit_mov_eax_imm32 emit_u32
emit_mov_eax-Emits v code h =
    Emits-bind code (0xB8 ∷ []) (word_bytes v) (emit_bytes-Emits _ code h) (emit_bytes-Emits _)

pub cc_codegen_expr-Emits : (n : Node) → Emits (cc_codegen_expr n) (expr_code n)
unfolding cc_codegen_expr expr_code emit_load_local emit_neg_eax emit_push_eax emit_mov_ecx_eax
    emit_pop_eax
cc_codegen_expr-Emits null code h = returns (sym (append-nil code), h)
cc_codegen_expr-Emits (nd_num line v) code h = emit_mov_eax-Emits v code h
cc_codegen_expr-Emits (nd_var line off) code h = emit_bytes-Emits _ code h
cc_codegen_expr-Emits (nd_unm line a) code h =
    Emits-bind code (expr_code a) _ (cc_codegen_expr-Emits a code h) (emit_bytes-Emits _)
cc_codegen_expr-Emits (nd_binop line op a b) code h =
    let left_pushed =
      Emits-bind code (expr_code a) (0x50 ∷ []) (cc_codegen_expr-Emits a code h)
        (emit_bytes-Emits _) in
    let both = Emits-bind code _ (expr_code b) left_pushed (cc_codegen_expr-Emits b) in
    let moved = Emits-bind code _ (0x89 ∷ 0xC1 ∷ []) both (emit_bytes-Emits _) in
    let popped = Emits-bind code _ (0x58 ∷ []) moved (emit_bytes-Emits _) in
    regroup code (simp append_assoc refl)
      (Emits-bind code _ (op_code op) popped (gen_op-Emits line op))
cc_codegen_expr-Emits _ code h = raises

pub store-Emits :
    (off : ℕ) (n : Node) (code : List ℕ)
    → length code ≤ cc_code_size
    → Appends code
        (expr_code n ++ (0x89 ∷ 0x45 ∷ neg_byte off ∷ []))
        (cc_codegen_expr n code >>= emit_store_local off)
unfolding emit_store_local
store-Emits off n code h =
    Emits-bind code (expr_code n) _ (cc_codegen_expr-Emits n code h) (emit_bytes-Emits _)

pub decl-Emits :
    (off : ℕ) (n : Node)
    → Emits (gen_decl off n) (
        if is_null n
        then 0xC7 ∷ 0x45 ∷ neg_byte off ∷ word_bytes 0
        else expr_code n ++ (0x89 ∷ 0x45 ∷ neg_byte off ∷ []))
unfolding gen_decl emit_zero_local emit_u32
decl-Emits off null code h = Emits-bind code _ _ (emit_bytes-Emits _ code h) (emit_bytes-Emits _)
decl-Emits off n code h = store-Emits off n code h

pub print-Emits :
    (p : ℕ) (n : Node)
    → Emits
        (gen_print p n)
        (expr_code n ++ (0x50 ∷ 0xB8 ∷ word_bytes p ++ (0xFF ∷ 0xD0 ∷ 0x83 ∷ 0xC4 ∷ 0x04 ∷ [])))
unfolding gen_print emit_push_eax emit_call_eax emit_add_esp4
print-Emits p n code h =
    let pushed =
      Emits-bind code (expr_code n) (0x50 ∷ []) (cc_codegen_expr-Emits n code h)
        (emit_bytes-Emits _) in
    let address = Emits-bind code _ (0xB8 ∷ word_bytes p) pushed (emit_mov_eax-Emits p) in
    let called = Emits-bind code _ (0xFF ∷ 0xD0 ∷ []) address (emit_bytes-Emits _) in
    regroup code (simp append_assoc refl)
      (Emits-bind code _ (0x83 ∷ 0xC4 ∷ 0x04 ∷ []) called (emit_bytes-Emits _))
