-- ===== src/Cc/Terminates.antt =====
-- The fuel of kernel/cc.c's statement parser, and of the whole compiler.
use kernel_basic.Prelude.{ℕ, zero, suc, ◌<◌, refl, ◌&&◌, ◌||◌, ◌==◌, arith}
use kernel_basic.Prelude.Bytes.{codes}
use kernel_basic.Str.{strcmp}
use kernel_basic.Cc.{
  is_tok, Cc, tok_eof, tok_ident, tok_lbrace, tok_rbrace, tok_lparen, tok_rparen, tok_kw_int,
  tok_kw_if, tok_kw_while, tok_kw_print, tok_kw_return,
}
use kernel_basic.Cc.Tree.{Nodes, append_node, end, nd_block}
use kernel_basic.Cc.Parser.{Parse, cc_parse_expr}
use kernel_basic.Cc.Statements.{
  block_loop, cc_parse_block, stmt_of, cc_parse_stmt, cc_parse_program,
}
use kernel_basic.Cc.Progress.{
  returns, raises, Post-bind, Post-weaken, Post-if, todo, cc_expect-Post,
}
use kernel_basic.Cc.Total.{
  Within, Less, Total, Takes, Takes-Total, advance, alloc, not_end, expected, cc_parse_expr-Takes,
}
use kernel_basic.Cc.Branches.{
  decl-Takes, if-Takes, while-Takes, print-Takes, return-Takes, assign-Takes,
}

-- The statements of a block: `fuel` for the loop, `k` for each statement.
block_loop-Within :
    (fuel k : ℕ) (stmt : Parse) (ns : Nodes) (s : Cc)
    → Takes k stmt
    → todo s < fuel
    → todo s < k
    → Within (todo s) (block_loop fuel stmt ns s)
unfolding block_loop
block_loop-Within zero k stmt ns s takes h le = absurd (omega (arith, h))
block_loop-Within (suc fuel) k stmt ns s takes h le =
    Post-if (is_tok s.cur.kind tok_rbrace || is_tok s.cur.kind tok_eof) (λ _. returns (omega arith))
      λ _. Post-bind (takes s le) λ r g.
        Post-weaken
          (block_loop-Within fuel k stmt (append_node ns r.0) r.1 takes (omega (arith, g, h))
            (omega (arith, g, le)))
          (λ q l. omega (arith, g, l))

-- A block takes its brace, so that the statements need less than it has.
block-Less :
    (fuel k : ℕ) (stmt : Parse) (s : Cc)
    → Takes k stmt
    → todo s < suc fuel
    → todo s < suc k
    → Less (todo s) (cc_parse_block fuel stmt s)
unfolding cc_parse_block
block-Less fuel k stmt s takes h le =
    Post-bind {P = λ t. todo t < todo s}
      (Post-bind (cc_expect-Post tok_lbrace _ s refl)
        (λ t g. Post-weaken (alloc t) (λ u l. omega (arith, g, l))))
      λ u g.
        expected tok_rbrace _ (nd_block u.cur.line)
          (Post-weaken
            (block_loop-Within fuel k stmt end u takes (omega (arith, g, h)) (omega (arith, g, le)))
            (λ r l. omega (arith, g, l)))
          refl

stmt_of-Takes :
    (k : ℕ) (expr stmt : Parse)
    → Total k expr
    → Takes k stmt
    → Takes (suc k) (stmt_of (suc k) expr stmt)
unfolding stmt_of
stmt_of-Takes k expr stmt total takes s h =
    let kind = s.cur.kind in
    let step = Takes-Total k stmt takes in
    Post-if (is_tok kind tok_lbrace) (λ _. block-Less (suc k) k stmt s takes (omega (arith, h)) h)
      λ _.
        Post-if (is_tok kind tok_kw_int)
          (λ e. decl-Takes k expr s total h (not_end kind tok_kw_int e refl))
          λ _.
            Post-if (is_tok kind tok_kw_if)
              (λ e. if-Takes k expr stmt s total step h (not_end kind tok_kw_if e refl))
              λ _.
                Post-if (is_tok kind tok_kw_while)
                  (λ e. while-Takes k expr stmt s total step h (not_end kind tok_kw_while e refl))
                  λ _.
                    Post-if (is_tok kind tok_kw_print)
                      (λ e. print-Takes k expr s total h (not_end kind tok_kw_print e refl))
                      λ _.
                        Post-if (is_tok kind tok_kw_return)
                          (λ e. return-Takes k expr s total h (not_end kind tok_kw_return e refl))
                          λ _.
                            Post-if (is_tok kind tok_ident)
                              (λ e. assign-Takes k expr s total h (not_end kind tok_ident e refl))
                              (λ _. raises)

-- An expression's fuel is that of the statement around it.
expr-Total : (k : ℕ) → Total k (cc_parse_expr (suc k))
expr-Total k s h =
    Post-weaken (cc_parse_expr-Takes (suc k) s (omega (arith, h))) (λ r g. omega (arith, g))

cc_parse_stmt-Takes : (fuel : ℕ) → Takes fuel (cc_parse_stmt fuel)
unfolding cc_parse_stmt
cc_parse_stmt-Takes zero s h = absurd (omega (arith, h))
cc_parse_stmt-Takes (suc fuel) s h =
    stmt_of-Takes fuel (cc_parse_expr (suc fuel)) (cc_parse_stmt fuel) (expr-Total fuel)
      (cc_parse_stmt-Takes fuel) s h

-- The parser of a program needs no more fuel than there are tokens.
pub cc_parse_program-Less : (fuel : ℕ) → Takes fuel (cc_parse_program fuel)
unfolding cc_parse_program
cc_parse_program-Less fuel s h = Post-bind (cc_expect-Post tok_kw_int _ s refl) λ t g.
    Post-if (is_tok t.cur.kind tok_ident && strcmp t.cur.text (codes "main") == 0)
      (λ e.
        Post-bind {P = λ u. todo u < todo s}
          (Post-bind {P = λ u. todo u < todo s}
            (Post-bind (advance t (ground (arith, e))) (λ u l.
              Post-weaken (cc_expect-Post tok_lparen _ u refl) (λ v o. omega (arith, g, l, o))))
            (λ u l.
              Post-weaken (cc_expect-Post tok_rparen _ u refl) (λ v o. omega (arith, g, l, o))))
          λ u l.
            Post-weaken
              (block-Less fuel fuel (cc_parse_stmt fuel) u (cc_parse_stmt-Takes fuel)
                (omega (arith, l, h)) (omega (arith, l, h)))
              (λ r o. omega (arith, l, o)))
      (λ _. raises)
