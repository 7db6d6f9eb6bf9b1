-- ===== src/Cc/Total.antt =====
-- The fuel of kernel/cc.c's parser: what is left of the source bounds its recursion.
use kernel_basic.Prelude.{
  ℕ, zero, suc, ◌+◌, ◌*◌, ◌≤◌, ◌<◌, ◌≡◌, refl, true, false, ◌||◌, List, ◌/◌, Option, none, some,
  ltb, arith,
}
use kernel_basic.Cc.{
  Result, ok, ◌>>=◌, TokType, is_tok, Cc, cc_arena_size, tok_eof, tok_star, tok_slash, tok_plus,
  tok_minus, tok_lparen, tok_rparen, tok_num, tok_ident,
}
use kernel_basic.Cc.Lexer.{cc_advance, cc_expect}
use kernel_basic.Cc.Tree.{Node, nd_num, node_size, cc_arena_alloc}
use kernel_basic.Cc.Parser.{
  Parse, new_node, cc_new_binop, parse_var, cc_parse_primary, cc_parse_unary, binop_loop,
  cc_parse_term, cc_parse_additive, cc_is_cmp_tok, cc_parse_comparison, cc_parse_expr,
}
use kernel_basic.Cc.Progress.{
  Post, returns, raises, Post-bind, Post-weaken, Post-if, left, todo, cc_advance-Post,
  cc_expect-Post,
}

-- What a parser leaves is no more than there was.
abbrev pub Within {ℓ} : {A : Type ℓ} → ℕ → Result (A × Cc) → Type ℓ
Within m = Post (λ r. todo r.1 ≤ m)

-- What it leaves is less.
abbrev pub Less {ℓ} : {A : Type ℓ} → ℕ → Result (A × Cc) → Type ℓ
Less m = Post (λ r. todo r.1 < m)

-- For states with less than `k` to do, the parser needs no more fuel than it has.
abbrev pub Total : ℕ → Parse → Type 0
Total k p = (s : Cc) → todo s < k → Within (todo s) (p s)

-- The same, and it takes a token.
abbrev pub Takes : ℕ → Parse → Type 0
Takes k p = (s : Cc) → todo s < k → Less (todo s) (p s)

pub Takes-Total : (k : ℕ) (p : Parse) → Takes k p → Total k p
Takes-Total k p t s h = Post-weaken (t s h) (λ r g. omega (arith, g))

-- Taking a token that is not the end.
pub advance :
    (s : Cc) → is_tok s.cur.kind tok_eof ≡ false → Post (λ s'. todo s' < todo s) (cc_advance s)
advance s e = Post-weaken (cc_advance-Post s) (λ s' g. ground (arith, g))

-- A node takes nothing of the source.
pub alloc : (s : Cc) → Post (λ t. todo t ≡ todo s × left t ≡ left s) (cc_arena_alloc node_size s)
unfolding cc_arena_alloc
alloc s =
    Post-if (ltb cc_arena_size (s.arena_pos + (node_size + 3) / 4 * 4)) (λ _. raises)
      (λ _. returns {a = record s { arena_pos = s.arena_pos + 36 }} (refl, refl))

pub new_node-Post :
    (n : Node) (s : Cc) → Post (λ r. todo r.1 ≡ todo s × left r.1 ≡ left s) (new_node n s)
unfolding new_node
new_node-Post n s = Post-bind (alloc s) (λ t g. returns g)

pub new_node-Within : (n : Node) (s : Cc) → Within (todo s) (new_node n s)
new_node-Within n s = Post-weaken (new_node-Post n s) (λ r g. omega (arith, g))

new_binop-Within :
    (op : TokType) (a b : Node) (line : ℕ) (s : Cc) → Within (todo s) (cc_new_binop op a b line s)
unfolding cc_new_binop
new_binop-Within op a b line s = new_node-Within _ s

-- A kind that is some other one is not the end.
pub not_end :
    (k t : TokType) → is_tok k t ≡ true → is_tok t tok_eof ≡ false → is_tok k tok_eof ≡ false
not_end k t h e = ground arith

parse_var-Takes :
    (line : ℕ) (o : Option ℕ) (s : Cc)
    → is_tok s.cur.kind tok_eof ≡ false
    → Less (todo s) (parse_var line o s)
unfolding parse_var
parse_var-Takes line none s e = raises
parse_var-Takes line (some offset) s e =
    Post-bind (advance s e) (λ t g. Post-weaken (new_node-Within _ t) (λ r l. omega (arith, g, l)))

-- After a token a parser that has the fuel takes no more.
pub run :
    {m k : ℕ} {r : Result Cc} (p : Parse)
    → Post (λ t. todo t < m) r
    → Total k p
    → m ≤ k
    → Less m (r >>= p)
run p h total le =
    Post-bind h (λ t g. Post-weaken (total t (omega (arith, g, le))) (λ r l. omega (arith, g, l)))

-- A token that has to follow, behind which something is made of what was read.
pub expected :
    {A B : Type 0} {m : ℕ} {r : Result (A × Cc)} (t : TokType) (msg : List ℕ) (f : A → B)
    → Less m r
    → is_tok t tok_eof ≡ false
    → Less m (r >>= λ (n, s). cc_expect t msg s >>= λ s. ok (f n, s))
expected t msg f h e =
    Post-bind h
      (λ r g. Post-bind (cc_expect-Post t msg r.1 e) (λ u l. returns (omega (arith, l, g))))

primary-Takes : (k : ℕ) (expr : Parse) → Total k expr → Takes (suc k) (cc_parse_primary expr)
unfolding cc_parse_primary
primary-Takes k expr total s h =
    let kind = s.cur.kind in
    Post-if (is_tok kind tok_num)
      (λ e.
        let left_s = not_end kind tok_num e refl in
        Post-bind {Q = λ r. todo r.1 < todo s} (new_node-Post (nd_num s.cur.line s.cur.int_val) s)
          (λ r g. Post-bind (cc_advance-Post r.1) (λ t l. returns (ground (arith, g, l, left_s)))))
      λ _.
        Post-if (is_tok kind tok_ident) (λ e. parse_var-Takes _ _ s (not_end kind tok_ident e refl))
          λ _.
            Post-if (is_tok kind tok_lparen)
              (λ e.
                expected tok_rparen _ (λ n. n)
                  (run expr (advance s (not_end kind tok_lparen e refl)) total (omega (arith, h)))
                  refl)
              (λ _. raises)

unary-Takes :
    (fuel k : ℕ) (expr : Parse)
    → Total k expr
    → (s : Cc) → todo s < fuel
    → todo s ≤ k
    → Less (todo s) (cc_parse_unary fuel expr s)
unfolding cc_parse_unary
unary-Takes zero k expr total s h le = absurd (omega (arith, h))
unary-Takes (suc fuel) k expr total s h le =
    Post-if (is_tok s.cur.kind tok_minus)
      (λ e.
        Post-bind {P = λ r. todo r.1 < todo s}
          (Post-bind (advance s (not_end s.cur.kind tok_minus e refl)) (λ t g.
            Post-weaken
              (unary-Takes fuel k expr total t (omega (arith, g, h)) (omega (arith, g, le)))
              (λ r l. omega (arith, g, l))))
          (λ r g. Post-weaken (new_node-Within _ r.1) (λ q l. omega (arith, g, l))))
      (λ _. primary-Takes k expr total s (omega (arith, le)))

either :
    (k t₁ t₂ : TokType)
    → (is_tok k t₁ || is_tok k t₂) ≡ true
    → is_tok t₁ tok_eof ≡ false
    → is_tok t₂ tok_eof ≡ false
    → is_tok k tok_eof ≡ false
either k t₁ t₂ h e₁ e₂ = ground arith

binop_loop-Within :
    (fuel k : ℕ) (op₁ op₂ : TokType) (operand : Parse) (n : Node) (s : Cc)
    → is_tok op₁ tok_eof ≡ false
    → is_tok op₂ tok_eof ≡ false
    → Total k operand
    → todo s < fuel
    → todo s ≤ k
    → Within (todo s) (binop_loop fuel op₁ op₂ operand n s)
unfolding binop_loop
binop_loop-Within zero k op₁ op₂ operand n s e₁ e₂ total h le = absurd (omega (arith, h))
binop_loop-Within (suc fuel) k op₁ op₂ operand n s e₁ e₂ total h le =
    let kind = s.cur.kind in
    Post-if (is_tok kind op₁ || is_tok kind op₂)
      (λ e. Post-bind (run operand (advance s (either kind op₁ op₂ e e₁ e₂)) total le) λ r g.
        Post-bind (new_binop-Within kind n r.0 s.cur.line r.1) λ q l.
          Post-weaken
            (binop_loop-Within fuel k op₁ op₂ operand q.0 q.1 e₁ e₂ total (omega (arith, h, g, l))
              (omega (arith, le, g, l)))
            (λ u o. omega (arith, g, l, o)))
      (λ _. returns (omega arith))

-- An operand and the loop behind it.
chain-Takes :
    (k : ℕ) (op₁ op₂ : TokType) (operand : Parse)
    → is_tok op₁ tok_eof ≡ false
    → is_tok op₂ tok_eof ≡ false
    → Takes (suc k) operand
    → Takes (suc k) (λ s. operand s >>= λ (n, s). binop_loop (suc k) op₁ op₂ operand n s)
chain-Takes k op₁ op₂ operand e₁ e₂ takes s h = Post-bind (takes s h) λ r g.
    Post-weaken
      (binop_loop-Within (suc k) (suc k) op₁ op₂ operand r.0 r.1 e₁ e₂
        (Takes-Total (suc k) operand takes) (omega (arith, g, h)) (omega (arith, g, h)))
      (λ q l. omega (arith, g, l))

cc_parse_unary-Takes :
    (k : ℕ) (expr : Parse) → Total k expr → Takes (suc k) (cc_parse_unary (suc k) expr)
cc_parse_unary-Takes k expr total s h = unary-Takes (suc k) k expr total s h (omega (arith, h))

cc_parse_term-Takes :
    (k : ℕ) (expr : Parse) → Total k expr → Takes (suc k) (cc_parse_term (suc k) expr)
unfolding cc_parse_term
cc_parse_term-Takes k expr total =
    chain-Takes k tok_star tok_slash (cc_parse_unary (suc k) expr) refl refl
      (cc_parse_unary-Takes k expr total)

cc_parse_additive-Takes :
    (k : ℕ) (expr : Parse) → Total k expr → Takes (suc k) (cc_parse_additive (suc k) expr)
unfolding cc_parse_additive
cc_parse_additive-Takes k expr total =
    chain-Takes k tok_plus tok_minus (cc_parse_term (suc k) expr) refl refl
      (cc_parse_term-Takes k expr total)

cc_parse_comparison-Takes :
    (k : ℕ) (expr : Parse) → Total k expr → Takes (suc k) (cc_parse_comparison (suc k) expr)
unfolding cc_parse_comparison cc_is_cmp_tok
cc_parse_comparison-Takes k expr total s h =
    let additive = cc_parse_additive-Takes k expr total in
    Post-bind (additive s h) λ r g.
      let kind = r.1.cur.kind in
      Post-if (cc_is_cmp_tok kind)
        (λ e.
          Post-bind
            (run (cc_parse_additive (suc k) expr) (advance r.1 (ground arith))
              (Takes-Total (suc k) _ additive) (omega (arith, g, h)))
            λ q l.
              Post-weaken (new_binop-Within kind r.0 q.0 r.1.cur.line q.1)
                (λ u o. omega (arith, g, l, o)))
        (λ _. returns g)

-- With the fuel, `cc_parse_expr` takes a token or reports an error.
pub cc_parse_expr-Takes : (fuel : ℕ) → Takes fuel (cc_parse_expr fuel)
unfolding cc_parse_expr
cc_parse_expr-Takes zero s h = absurd (omega (arith, h))
cc_parse_expr-Takes (suc fuel) s h =
    cc_parse_comparison-Takes fuel (cc_parse_expr fuel)
      (Takes-Total fuel (cc_parse_expr fuel) (cc_parse_expr-Takes fuel)) s h
