-- ===== src/Cc/Statements.antt =====
-- The statement parser of kernel/cc.c.
use kernel_basic.Prelude.{
  ℕ, zero, suc, not, ◌&&◌, ◌||◌, List, Option, none, some, ◌==◌, if◌then◌else◌,
}
use kernel_basic.Prelude.Int.{pos}
use kernel_basic.Prelude.Bytes.{codes}
use kernel_basic.Str.{strcmp}
use kernel_basic.Cc.{
  Result, ok, err, stuck, ◌>>=◌, is_tok, Cc, cc_copy_text, tok_eof, tok_ident, tok_kw_int,
  tok_kw_if, tok_kw_else, tok_kw_while, tok_kw_print, tok_kw_return, tok_lbrace, tok_rbrace,
  tok_lparen, tok_rparen, tok_semi, tok_assign,
}
use kernel_basic.Cc.Lexer.{cc_advance, cc_expect}
use kernel_basic.Cc.Tree.{
  Nodes, null, nd_assign, nd_decl, nd_if, nd_while, nd_print, nd_return, nd_block, end, append_node,
  node_size, cc_arena_alloc, cc_sym_lookup, cc_sym_declare,
}
use kernel_basic.Cc.Parser.{Parse, new_node, cc_parse_expr}

abbrev pub open_paren : List ℕ
open_paren = codes "esperado '('"

abbrev pub close_paren : List ℕ
close_paren = codes "esperado ')'"

abbrev pub semicolon : List ℕ
semicolon = codes "esperado ';'"

-- The initializer of a declaration, if there is one. The declaration's node is in the arena already.
unfoldable pub parse_init : (expr : Parse) → Parse
parse_init expr s = if is_tok s.cur.kind tok_assign then (cc_advance s >>= expr) else ok (null, s)

unfoldable pub parse_decl : (expr : Parse) → Parse
unfolding parse_init
parse_decl expr s =
    let line = s.cur.line in
    cc_advance s >>= λ s.
    let name = cc_copy_text s.cur.text in
    if not (is_tok s.cur.kind tok_ident)
    then err (pos line) (codes "esperado nome de variavel")
    else (cc_advance s >>= cc_sym_declare name line >>= λ (offset, s).
        cc_arena_alloc node_size s >>= parse_init expr >>= λ (a, s).
        cc_expect tok_semi semicolon s >>= λ s. ok (nd_decl line offset a, s))

-- `(`, an expression and `)`.
unfoldable pub parse_parens : (expr : Parse) → Parse
parse_parens expr s = cc_expect tok_lparen open_paren s >>= expr >>= λ (n, s).
    cc_expect tok_rparen close_paren s >>= λ s. ok (n, s)

-- The other branch of an `if`, if there is one.
unfoldable pub parse_else : (stmt : Parse) → Parse
parse_else stmt s = if is_tok s.cur.kind tok_kw_else then (cc_advance s >>= stmt) else ok (null, s)

unfoldable pub parse_if : (expr stmt : Parse) → Parse
unfolding parse_parens parse_else
parse_if expr stmt s =
    let line = s.cur.line in
    cc_advance s >>= parse_parens expr >>= λ (cond, s). stmt s >>= λ (then_s, s).
    parse_else stmt s >>= λ (else_s, s). new_node (nd_if line cond then_s else_s) s

unfoldable pub parse_while : (expr stmt : Parse) → Parse
unfolding parse_parens
parse_while expr stmt s =
    let line = s.cur.line in
    cc_advance s >>= parse_parens expr >>= λ (cond, s).
    stmt s >>= λ (body, s). new_node (nd_while line cond body) s

unfoldable pub parse_print : (expr : Parse) → Parse
unfolding parse_parens
parse_print expr s =
    let line = s.cur.line in
    cc_advance s >>= parse_parens expr >>= λ (a, s).
    cc_expect tok_semi semicolon s >>= new_node (nd_print line a)

unfoldable pub parse_return : (expr : Parse) → Parse
parse_return expr s =
    let line = s.cur.line in
    cc_advance s >>= expr >>= λ (a, s).
    cc_expect tok_semi semicolon s >>= new_node (nd_return line a)

-- The assignment to a variable that the table has at `found`.
unfoldable pub assign_to : (expr : Parse) → (line : ℕ) → (found : Option ℕ) → Parse
assign_to expr line none s = err (pos line) (codes "variavel nao declarada")
assign_to expr line (some offset) s =
    cc_expect tok_assign (codes "esperado '='") s >>= expr >>= λ (a, s).
    cc_expect tok_semi semicolon s >>= new_node (nd_assign line offset a)

unfoldable pub parse_assign : (expr : Parse) → Parse
unfolding assign_to
parse_assign expr s =
    let line = s.cur.line in
    let name = cc_copy_text s.cur.text in
    cc_advance s >>= λ s. assign_to expr line (cc_sym_lookup name s) s

-- The statements up to the closing brace, behind those read.
unfoldable pub block_loop : (fuel : ℕ) → (stmt : Parse) → Nodes → Cc → Result (Nodes × Cc)
block_loop zero stmt ns s = stuck
block_loop (suc fuel) stmt ns s =
    let again = λ (ns : Nodes) (s : Cc). block_loop fuel stmt ns s in
    if is_tok s.cur.kind tok_rbrace || is_tok s.cur.kind tok_eof
    then ok (ns, s)
    else (stmt s >>= λ (n, s). again (append_node ns n) s)

unfoldable pub cc_parse_block : (fuel : ℕ) → (stmt : Parse) → Parse
unfolding block_loop
cc_parse_block fuel stmt s =
    cc_expect tok_lbrace (codes "esperado '{'") s >>= cc_arena_alloc node_size >>= λ s.
    let line = s.cur.line in
    block_loop fuel stmt end s >>= λ (ns, s).
    cc_expect tok_rbrace (codes "esperado '}'") s >>= λ s. ok (nd_block line ns, s)

-- The branches of `cc_parse_stmt`, with the parsers for the parts.
unfoldable pub stmt_of : (fuel : ℕ) → (expr stmt : Parse) → Parse
unfolding cc_parse_block parse_decl parse_if parse_while parse_print parse_return parse_assign
stmt_of fuel expr stmt s =
    let kind = s.cur.kind in
    if is_tok kind tok_lbrace
    then cc_parse_block fuel stmt s
    else if is_tok kind tok_kw_int
    then parse_decl expr s
    else if is_tok kind tok_kw_if
    then parse_if expr stmt s
    else if is_tok kind tok_kw_while
    then parse_while expr stmt s
    else if is_tok kind tok_kw_print
    then parse_print expr s
    else if is_tok kind tok_kw_return
    then parse_return expr s
    else if is_tok kind tok_ident
    then parse_assign expr s
    else err (pos (s.cur.line)) (codes "comando invalido")

unfoldable pub cc_parse_stmt : (fuel : ℕ) → Parse
unfolding stmt_of
cc_parse_stmt zero s = stuck
cc_parse_stmt (suc fuel) s = stmt_of (suc fuel) (cc_parse_expr (suc fuel)) (cc_parse_stmt fuel) s

unfoldable pub cc_parse_program : (fuel : ℕ) → Parse
unfolding cc_parse_block cc_parse_stmt
cc_parse_program fuel s = cc_expect tok_kw_int (codes "esperado 'int'") s >>= λ s.
    if is_tok s.cur.kind tok_ident && strcmp s.cur.text (codes "main") == 0
    then (cc_advance s
        >>= cc_expect tok_lparen open_paren
        >>= cc_expect tok_rparen close_paren
        >>= cc_parse_block fuel (cc_parse_stmt fuel))
    else err (pos (s.cur.line)) (codes "esperado 'main'")
