-- ===== src/Cc/Branches.antt =====
-- The fuel of the branches of kernel/cc.c's cc_parse_stmt.
use kernel_basic.Prelude.{
  ℕ, suc, ◌≤◌, ◌<◌, ◌≡◌, refl, false, not, leb, length, List, Option, none, some, if◌then◌else◌,
  arith,
}
use kernel_basic.Cc.{
  cc_max_locals, Result, ok, ◌>>=◌, TokType, is_tok, Cc, tok_eof, tok_ident, tok_lparen, tok_rparen,
  tok_semi, tok_assign, tok_kw_else, cc_copy_text,
}
use kernel_basic.Cc.Lexer.{cc_advance, cc_expect}
use kernel_basic.Cc.Tree.{
  node_size, cc_arena_alloc, cc_sym_declare, declare_new, find_sym, null, cc_sym_lookup,
}
use kernel_basic.Cc.Parser.{Parse}
use kernel_basic.Cc.Statements.{
  parse_init, parse_decl, parse_parens, parse_else, parse_if, parse_while, parse_print,
  parse_return, assign_to, parse_assign,
}
use kernel_basic.Cc.Progress.{
  returns, raises, Post-bind, Post-weaken, Post-if, todo, cc_expect-Post,
}
use kernel_basic.Cc.Total.{
  Within, Less, Total, advance, alloc, new_node-Within, not_end, run, expected,
}

-- What follows a parser that takes a token.
onward :
    {A B : Type 0} {m : ℕ} {r : Result (A × Cc)} {f : A × Cc → Result (B × Cc)}
    → Less m r
    → ((q : A × Cc) → todo q.1 < m → Within (todo q.1) (f q))
    → Less m (r >>= f)
onward h k = Post-bind h (λ q g. Post-weaken (k q g) (λ u l. omega (arith, g, l)))

along :
    {A B : Type 0} {m : ℕ} {r : Result (A × Cc)} {f : A × Cc → Result (B × Cc)}
    → Within m r
    → ((q : A × Cc) → todo q.1 ≤ m → Within (todo q.1) (f q))
    → Within m (r >>= f)
along h k = Post-bind h (λ q g. Post-weaken (k q g) (λ u l. omega (arith, g, l)))

-- A token that has to follow, and then what takes no more.
closed :
    {B : Type 0} {f : Cc → Result (B × Cc)} (t : TokType) (msg : List ℕ) (s : Cc)
    → is_tok t tok_eof ≡ false
    → ((u : Cc) → Within (todo u) (f u))
    → Within (todo s) (cc_expect t msg s >>= f)
closed t msg s e k =
    Post-bind (cc_expect-Post t msg s e) (λ u g. Post-weaken (k u) (λ r l. omega (arith, g, l)))

optional-Total :
    (k : ℕ) (t : TokType) (p : Parse)
    → is_tok t tok_eof ≡ false
    → Total k p
    → Total k (λ s. if is_tok s.cur.kind t then (cc_advance s >>= p) else ok (null, s))
optional-Total k t p e total s h =
    Post-if (is_tok s.cur.kind t)
      (λ b.
        Post-weaken (run p (advance s (not_end s.cur.kind t b e)) total (omega (arith, h)))
          (λ r g. omega (arith, g)))
      (λ _. returns (omega arith))

declare_new-Within :
    (name : List ℕ) (line : ℕ) (s : Cc) (o : Option ℕ) → Within (todo s) (declare_new name line s o)
unfolding declare_new
declare_new-Within name line s none =
    Post-if (leb cc_max_locals (length s.syms)) (λ _. raises) (λ _. returns (omega arith))
declare_new-Within name line s (some offset) = raises

cc_sym_declare-Within :
    (name : List ℕ) (line : ℕ) (s : Cc) → Within (todo s) (cc_sym_declare name line s)
unfolding cc_sym_declare
cc_sym_declare-Within name line s = declare_new-Within name line s (find_sym s.syms name)

init-Total :
    (k : ℕ) (expr : Parse)
    → Total k expr
    → Total k (λ s. cc_arena_alloc node_size s >>= parse_init expr)
unfolding parse_init
init-Total k expr total s h = Post-bind (alloc s) (λ t g.
    Post-weaken (optional-Total k tok_assign expr refl total t (omega (arith, h, g)))
      (λ r l. omega (arith, g, l)))

pub decl-Takes :
    (k : ℕ) (expr : Parse) (s : Cc)
    → Total k expr
    → todo s < suc k
    → is_tok s.cur.kind tok_eof ≡ false
    → Less (todo s) (parse_decl expr s)
unfolding parse_decl
decl-Takes k expr s total h e = Post-bind (advance s e) λ t g.
    let name = cc_copy_text t.cur.text in
    Post-if (not (is_tok t.cur.kind tok_ident)) (λ _. raises)
      λ b.
        onward
          (Post-bind (advance t (ground (arith, b))) λ u l.
            Post-weaken (cc_sym_declare-Within name s.cur.line u) (λ r o. omega (arith, g, l, o)))
          λ q l.
            along (init-Total k expr total q.1 (omega (arith, h, l)))
              λ r o. closed tok_semi _ r.1 refl (λ u. returns (omega arith))

parens-Total : (k : ℕ) (expr : Parse) → Total k expr → Total k (parse_parens expr)
unfolding parse_parens
parens-Total k expr total s h =
    Post-weaken
      (expected tok_rparen _ (λ n. n)
        (run expr (cc_expect-Post tok_lparen _ s refl) total (omega (arith, h))) refl)
      (λ r g. omega (arith, g))

-- A keyword's token and the condition in its parentheses.
head-Less :
    (k : ℕ) (expr : Parse) (s : Cc)
    → Total k expr
    → todo s < suc k
    → is_tok s.cur.kind tok_eof ≡ false
    → Less (todo s) (cc_advance s >>= parse_parens expr)
head-Less k expr s total h e =
    run (parse_parens expr) (advance s e) (parens-Total k expr total) (omega (arith, h))

pub if-Takes :
    (k : ℕ) (expr stmt : Parse) (s : Cc)
    → Total k expr
    → Total k stmt
    → todo s < suc k
    → is_tok s.cur.kind tok_eof ≡ false
    → Less (todo s) (parse_if expr stmt s)
unfolding parse_if parse_else
if-Takes k expr stmt s total step h e = onward (head-Less k expr s total h e) λ c g.
    along (step c.1 (omega (arith, h, g))) λ a l.
      along (optional-Total k tok_kw_else stmt refl step a.1 (omega (arith, h, g, l)))
        λ b o. new_node-Within _ b.1

pub while-Takes :
    (k : ℕ) (expr stmt : Parse) (s : Cc)
    → Total k expr
    → Total k stmt
    → todo s < suc k
    → is_tok s.cur.kind tok_eof ≡ false
    → Less (todo s) (parse_while expr stmt s)
unfolding parse_while
while-Takes k expr stmt s total step h e =
    onward (head-Less k expr s total h e)
      λ c g. along (step c.1 (omega (arith, h, g))) λ a l. new_node-Within _ a.1

pub print-Takes :
    (k : ℕ) (expr : Parse) (s : Cc)
    → Total k expr
    → todo s < suc k
    → is_tok s.cur.kind tok_eof ≡ false
    → Less (todo s) (parse_print expr s)
unfolding parse_print
print-Takes k expr s total h e =
    onward (head-Less k expr s total h e) (λ a g. closed tok_semi _ a.1 refl (new_node-Within _))

pub return-Takes :
    (k : ℕ) (expr : Parse) (s : Cc)
    → Total k expr
    → todo s < suc k
    → is_tok s.cur.kind tok_eof ≡ false
    → Less (todo s) (parse_return expr s)
unfolding parse_return
return-Takes k expr s total h e =
    onward (run expr (advance s e) total (omega (arith, h)))
      (λ a g. closed tok_semi _ a.1 refl (new_node-Within _))

assign_to-Total :
    (k : ℕ) (expr : Parse) (line : ℕ) (found : Option ℕ)
    → Total k expr
    → Total k (assign_to expr line found)
unfolding assign_to
assign_to-Total k expr line none total s h = raises
assign_to-Total k expr line (some offset) total s h =
    Post-weaken
      (onward (run expr (cc_expect-Post tok_assign _ s refl) total (omega (arith, h)))
        (λ a g. closed tok_semi _ a.1 refl (new_node-Within _)))
      (λ r g. omega (arith, g))

pub assign-Takes :
    (k : ℕ) (expr : Parse) (s : Cc)
    → Total k expr
    → todo s < suc k
    → is_tok s.cur.kind tok_eof ≡ false
    → Less (todo s) (parse_assign expr s)
unfolding parse_assign
assign-Takes k expr s total h e =
    let name = cc_copy_text s.cur.text in
    Post-bind (advance s e) λ t g.
      Post-weaken
        (assign_to-Total k expr s.cur.line (cc_sym_lookup name t) total t (omega (arith, h, g)))
        (λ r l. omega (arith, g, l))
