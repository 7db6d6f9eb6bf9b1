-- ===== src/Cc/Jumps.antt =====
-- The code generator of kernel/cc.c where it patches jumps: conditionals and loops.
use kernel_basic.Prelude.{
  ℕ, ◌+◌, ◌-◌, ◌%◌, ◌^◌, ◌≤◌, ◌≡◌, refl, ap, ◌∙◌, Bool, true, false, List, [], ◌∷◌, ◌++◌, length,
  length-append, arith,
}
use kernel_basic.Cc.{◌>>=◌, cc_code_size}
use kernel_basic.Cc.Tree.{Node}
use kernel_basic.Cc.Emit.{
  Emit, word_bytes, rel32, cc_patch, emit_u32, emit_test_eax_eax, emit_jz_placeholder,
  emit_jmp_placeholder, emit_jmp_back,
}
use kernel_basic.Cc.Codegen.{cc_codegen_expr, gen_if, gen_while}
use kernel_basic.Cc.Image.{expr_code, back_code, if_code, while_code}
use kernel_basic.Cc.Progress.{Post, returns, Post-bind, Post-weaken}
use kernel_basic.Cc.Emits.{
  Emits, Emits-bind, emit_bytes-Emits, rel32-back, length-cc_patch, cc_patch-end,
}
use mathlib.Core.List.{append_assoc}
use kernel_basic.Cc.Straight.{cc_codegen_expr-Emits}

-- A jump whose operand, four zeros behind `pre`, is still to come.
abbrev Jumps : List ℕ → List ℕ × ℕ → Type 0
Jumps pre r = r.0 ≡ pre ++ word_bytes 0 × (r.1 ≡ length pre × length r.0 ≤ cc_code_size)

jz-Post :
    (code : List ℕ)
    → length code ≤ cc_code_size
    → Post (Jumps (code ++ (0x85 ∷ 0xC0 ∷ 0x0F ∷ 0x84 ∷ []))) (emit_jz_placeholder code)
unfolding emit_jz_placeholder emit_test_eax_eax emit_u32
jz-Post code h =
    Post-bind
      (Emits-bind code (0x85 ∷ 0xC0 ∷ []) (0x0F ∷ 0x84 ∷ []) (emit_bytes-Emits _ code h)
        (emit_bytes-Emits _))
      λ c g.
        Post-bind (emit_bytes-Emits (word_bytes 0) c g.1)
          λ d l. returns (l.0 ∙ ap (λ x. x ++ word_bytes 0) g.0, (ap length g.0, l.1))

jmp-Post :
    (code : List ℕ)
    → length code ≤ cc_code_size
    → Post (Jumps (code ++ (0xE9 ∷ []))) (emit_jmp_placeholder code)
unfolding emit_jmp_placeholder emit_u32
jmp-Post code h = Post-bind (emit_bytes-Emits (0xE9 ∷ []) code h) λ c g.
    Post-bind (emit_bytes-Emits (word_bytes 0) c g.1)
      λ d l. returns (l.0 ∙ ap (λ x. x ++ word_bytes 0) g.0, (ap length g.0, l.1))

-- The condition and the jump behind it.
cond-Post :
    (n : Node) (code : List ℕ)
    → length code ≤ cc_code_size
    → Post
        (Jumps (code ++ expr_code n ++ (0x85 ∷ 0xC0 ∷ 0x0F ∷ 0x84 ∷ [])))
        (cc_codegen_expr n code >>= emit_jz_placeholder)
cond-Post n code h = Post-bind (cc_codegen_expr-Emits n code h) λ c g.
    Post-weaken (jz-Post c g.1) λ r l.
      let same = ap (λ x. x ++ (0x85 ∷ 0xC0 ∷ 0x0F ∷ 0x84 ∷ [])) g.0 in
      (l.0 ∙ ap (λ x. x ++ word_bytes 0) same, (l.1.0 ∙ ap length same, l.1.1))

-- What a body behind a jump leaves, once the jump leads to its end.
landed :
    (pre body c : List ℕ) (r : List ℕ × ℕ)
    → Jumps pre r
    → c ≡ r.0 ++ body
    → cc_patch r.1 (length c) c ≡ pre ++ word_bytes (length body % 2 ^ 32) ++ body
landed pre body c r j e = cc_patch-end pre body c r.1 (e ∙ ap (λ x. x ++ body) j.0) j.1.0

-- The same jump in code of the same length, in which other words have changed.
kept :
    (pre pre' : List ℕ) (q : List ℕ × ℕ) (x : List ℕ)
    → Jumps pre q
    → x ≡ pre' ++ word_bytes 0
    → length x ≡ length q.0
    → Jumps pre' (x, q.1)
kept pre pre' q x j e h = (
  e,
  (
    omega (
      arith,
      j.1.0,
      ap length j.0,
      ap length e,
      h,
      length-append pre (word_bytes 0),
      length-append pre' (word_bytes 0),
    ),
    omega (arith, h, j.1.1),
  ),
)

pub if-Emits :
    (n : Node) {then_s else_s : Emit} (t e : List ℕ)
    → Emits then_s t
    → Emits else_s e
    → (b : Bool) → Emits (gen_if n then_s else_s b) (if_code (expr_code n) t e b)
unfolding gen_if
if-Emits n t e then_t else_e true code h = Post-bind (cond-Post n code h) λ r j.
    Post-bind (then_t r.0 j.1.1) λ c g.
      returns
        (landed _ t c r j g.0 ∙ simp append_assoc refl, rw (length-cc_patch r.1 (length c) c) g.1)
if-Emits n t e then_t else_e false code h =
    let test = code ++ expr_code n ++ (0x85 ∷ 0xC0 ∷ 0x0F ∷ 0x84 ∷ []) in
    Post-bind (cond-Post n code h) λ r j. Post-bind (then_t r.0 j.1.1) λ c g.
      Post-bind (jmp-Post c g.1) λ q k.
        let taken = t ++ (0xE9 ∷ word_bytes 0) in
        let over =
          landed test taken q.0 r j
            (k.0 ∙ ap (λ x. x ++ (0xE9 ∷ []) ++ word_bytes 0) g.0 ∙ simp append_assoc refl) in
        let size = length-cc_patch r.1 (length q.0) q.0 in
        Post-bind (else_e (cc_patch r.1 (length q.0) q.0) (rw size k.1.1)) λ d l.
          let over_else = test ++ word_bytes (length taken % 2 ^ 32) ++ t ++ (0xE9 ∷ []) in
          let other =
            kept (c ++ (0xE9 ∷ [])) over_else q (cc_patch r.1 (length q.0) q.0) k
              (over ∙ simp append_assoc refl) size in
          returns (
            landed over_else e d (cc_patch r.1 (length q.0) q.0, q.1) other l.0
                ∙ rw (length-append t (0xE9 ∷ word_bytes 0)) (simp append_assoc refl),
            rw (length-cc_patch q.1 (length d) d) l.1,
          )

pub while-Emits :
    (n : Node) {body : Emit} (b : List ℕ)
    → Emits body b
    → Emits (gen_while n body) (while_code (expr_code n) b)
unfolding gen_while emit_jmp_back emit_u32
while-Emits n b body_b code h =
    let size = length (expr_code n) + length b + 13 in
    let test = code ++ expr_code n ++ (0x85 ∷ 0xC0 ∷ 0x0F ∷ 0x84 ∷ []) in
    Post-bind (cond-Post n code h) λ r j.
      Post-bind {P = λ x. x ≡ r.0 ++ (b ++ back_code size) × length x ≤ cc_code_size}
        (Post-bind (body_b r.0 j.1.1) λ c g. Post-bind (emit_bytes-Emits (0xE9 ∷ []) c g.1) λ d l.
          let from : length d + 4 ≡ length code + size = omega (
            arith,
            ap length l.0,
            ap length g.0,
            ap length j.0,
            length-append c (0xE9 ∷ []),
            length-append r.0 b,
            length-append test (word_bytes 0),
            length-append (code ++ expr_code n) (0x85 ∷ 0xC0 ∷ 0x0F ∷ 0x84 ∷ []),
            length-append code (expr_code n),
          ) in
          Post-weaken (emit_bytes-Emits (word_bytes (rel32 (length code) (length d + 4))) d l.1)
            (λ x m. (
              m.0
                  ∙ ap (λ f. d ++ word_bytes (rel32 (length code) f)) from
                  ∙ ap (λ w. d ++ word_bytes w) (rel32-back (length code) size)
                  ∙ ap (λ y. y ++ word_bytes ((2 ^ 32 - size % 2 ^ 32) % 2 ^ 32))
                      (l.0 ∙ ap (λ y. y ++ (0xE9 ∷ [])) g.0)
                  ∙ simp append_assoc refl,
              m.1,
            )))
        λ x g. returns (
          landed test (b ++ back_code size) x r j g.0
              ∙ rw (length-append b (back_code size)) (simp append_assoc refl),
          rw (length-cc_patch r.1 (length x) x) g.1,
        )
