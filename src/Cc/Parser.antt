-- ===== src/Cc/Parser.antt =====
-- The recursive descent parser of kernel/cc.c. Each recursion and loop is given a fuel. A function
-- whose callee calls it in turn takes that callee's parser as an argument, with less fuel in it.
use kernel_basic.Prelude.{ℕ, zero, suc, Bool, ◌||◌, Option, none, some, if◌then◌else◌}
use kernel_basic.Prelude.Int.{pos}
use kernel_basic.Prelude.Bytes.{codes}
use kernel_basic.Cc.{
  Result, ok, err, stuck, ◌>>=◌, TokType, is_tok, Cc, cc_copy_text, tok_ident, tok_num, tok_lparen,
  tok_rparen, tok_plus, tok_minus, tok_star, tok_slash, tok_eq, tok_ne, tok_lt, tok_gt, tok_le,
  tok_ge,
}
use kernel_basic.Cc.Lexer.{cc_advance, cc_expect}
use kernel_basic.Cc.Tree.{
  Node, nd_num, nd_var, nd_unm, nd_binop, node_size, cc_arena_alloc, cc_sym_lookup,
}

-- A parser takes the shared state on.
abbrev pub Parse : Type 0
Parse = Cc → Result (Node × Cc)

-- `cc_arena_alloc(sizeof(cc_node_t))` and the assignments to the new node's fields.
unfoldable pub new_node : Node → Parse
new_node n s = cc_arena_alloc node_size s >>= λ s. ok (n, s)

unfoldable pub cc_new_binop : TokType → Node → Node → (line : ℕ) → Parse
unfolding new_node
cc_new_binop op a b line s = new_node (nd_binop line op a b) s

-- A variable in an expression.
unfoldable pub parse_var : (line : ℕ) → Option ℕ → Parse
unfolding new_node
parse_var line none s = err (pos line) (codes "variavel nao declarada")
parse_var line (some offset) s = cc_advance s >>= new_node (nd_var line offset)

unfoldable pub cc_parse_primary : (expr : Parse) → Parse
unfolding new_node parse_var
cc_parse_primary expr s =
    let line = s.cur.line in
    if is_tok s.cur.kind tok_num
    then (new_node (nd_num line s.cur.int_val) s >>= λ (n, s). cc_advance s >>= λ s. ok (n, s))
    else if is_tok s.cur.kind tok_ident
    then parse_var line (cc_sym_lookup (cc_copy_text s.cur.text) s) s
    else if is_tok s.cur.kind tok_lparen
    then (cc_advance s >>= expr >>= λ (n, s).
        cc_expect tok_rparen (codes "esperado ')'") s >>= λ s. ok (n, s))
    else err (pos line) (codes "esperado numero, variavel ou '('")

unfoldable pub cc_parse_unary : (fuel : ℕ) → (expr : Parse) → Parse
unfolding cc_parse_primary new_node
cc_parse_unary zero expr s = stuck
cc_parse_unary (suc fuel) expr s =
    let line = s.cur.line in
    let operand = λ (s : Cc). cc_parse_unary fuel expr s in
    if is_tok s.cur.kind tok_minus
    then (cc_advance s >>= operand >>= λ (n, s). new_node (nd_unm line n) s)
    else cc_parse_primary expr s

-- The loop of `cc_parse_term` and of `cc_parse_additive`: while the token is one of the two operators,
-- an operand follows.
unfoldable pub binop_loop : (fuel : ℕ) → (op₁ op₂ : TokType) → (operand : Parse) → Node → Parse
unfolding cc_new_binop
binop_loop zero op₁ op₂ operand n s = stuck
binop_loop (suc fuel) op₁ op₂ operand n s =
    let op = s.cur.kind in
    let line = s.cur.line in
    let again = λ (n : Node) (s : Cc). binop_loop fuel op₁ op₂ operand n s in
    if is_tok op op₁ || is_tok op op₂
    then (cc_advance s >>= operand >>= λ (rhs, s).
        cc_new_binop op n rhs line s >>= λ (n, s). again n s)
    else ok (n, s)

unfoldable pub cc_parse_term : (fuel : ℕ) → (expr : Parse) → Parse
unfolding cc_parse_unary binop_loop
cc_parse_term fuel expr s = cc_parse_unary fuel expr s >>= λ (n, s).
    binop_loop fuel tok_star tok_slash (cc_parse_unary fuel expr) n s

unfoldable pub cc_parse_additive : (fuel : ℕ) → (expr : Parse) → Parse
unfolding cc_parse_term binop_loop
cc_parse_additive fuel expr s = cc_parse_term fuel expr s >>= λ (n, s).
    binop_loop fuel tok_plus tok_minus (cc_parse_term fuel expr) n s

unfoldable pub cc_is_cmp_tok : TokType → Bool
cc_is_cmp_tok t =
    is_tok t tok_eq
    || is_tok t tok_ne
    || is_tok t tok_lt
    || is_tok t tok_gt
    || is_tok t tok_le
    || is_tok t tok_ge

-- At most one comparison.
unfoldable pub cc_parse_comparison : (fuel : ℕ) → (expr : Parse) → Parse
unfolding cc_parse_additive cc_new_binop
cc_parse_comparison fuel expr s = cc_parse_additive fuel expr s >>= λ (n, s).
    if cc_is_cmp_tok s.cur.kind
    then (cc_advance s >>= cc_parse_additive fuel expr >>= λ (rhs, t).
        cc_new_binop s.cur.kind n rhs s.cur.line t)
    else ok (n, s)

unfoldable pub cc_parse_expr : (fuel : ℕ) → Parse
unfolding cc_parse_comparison
cc_parse_expr zero s = stuck
cc_parse_expr (suc fuel) s = cc_parse_comparison (suc fuel) (cc_parse_expr fuel) s
