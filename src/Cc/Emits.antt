-- ===== src/Cc/Emits.antt =====
-- The emitters of kernel/cc.c: each appends its bytes, or the buffer is full.
use kernel_basic.Prelude.{
  ℕ, ◌+◌, ◌-◌, ◌%◌, ◌^◌, ◌≤◌, ◌≡◌, refl, sym, ap, ◌∙◌, List, [], ◌∷◌, ◌++◌, ltb, length,
  length-append, length-set, suc, arith,
}
use kernel_basic.Cc.{Result, ◌>>=◌, cc_code_size}
use kernel_basic.Cc.Emit.{Emit, emit_byte, emit_bytes, word_bytes, rel32, put_word, cc_patch}
use kernel_basic.Cc.Progress.{Post, returns, raises, Post-bind, Post-weaken, Post-if}
use native.Mathlib.Numerals.{unary_clauses}
use mathlib.Core.List.{append-nil, append_assoc}

-- The bytes behind the code that was there, and no more than the buffer holds.
abbrev pub Appends : List ℕ → List ℕ → Result (List ℕ) → Type 0
Appends code bs r = Post (λ c. c ≡ code ++ bs × length c ≤ cc_code_size) r

abbrev pub Emits : Emit → List ℕ → Type 0
Emits e bs = (code : List ℕ) → length code ≤ cc_code_size → Appends code bs (e code)

-- Emitters in sequence.
pub Emits-bind :
    (code bs cs : List ℕ) {r : Result (List ℕ)} {f : Emit}
    → Appends code bs r
    → Emits f cs
    → Appends code (bs ++ cs) (r >>= f)
Emits-bind code bs cs h k = Post-bind h λ c g.
    Post-weaken (k c g.1) (λ d l. (l.0 ∙ ap (λ x. x ++ cs) g.0 ∙ append_assoc code bs cs, l.1))

emit_byte-Emits : (b : ℕ) → Emits (emit_byte b) (b ∷ [])
unfolding emit_byte
emit_byte-Emits b code h =
    Post-if (ltb (length code) cc_code_size)
      (λ e. returns (refl, ground (arith, length-append code (b ∷ [])))) (λ _. raises)

pub emit_bytes-Emits : (bs : List ℕ) → Emits (emit_bytes bs) bs
unfolding emit_bytes
emit_bytes-Emits [] code h = returns (sym (append-nil code), h)
emit_bytes-Emits (b ∷ bs) code h =
    Emits-bind code (b ∷ []) bs (emit_byte-Emits b code h) (emit_bytes-Emits bs)

-- An operand that wraps: jumps are relative.
pub rel32-forward : (at n : ℕ) → rel32 (at + n) at ≡ n % 2 ^ 32
rel32-forward at n = omega arith

pub rel32-back : (at n : ℕ) → rel32 at (at + n) ≡ (2 ^ 32 - n % 2 ^ 32) % 2 ^ 32
rel32-back at n = omega arith

put_word-nil : (suf : List ℕ) (v : ℕ) → put_word 0 v (word_bytes 0 ++ suf) ≡ word_bytes v ++ suf
unfolding put_word
put_word-nil suf v = refl

-- Under a first byte, the places are one further.
put_word-suc : (x n v : ℕ) (l : List ℕ) → put_word (suc n) v (x ∷ l) ≡ x ∷ put_word n v l
unfolding put_word
put_word-suc x n v l = simp unary_clauses refl

-- The word behind `pre` is replaced.
put_word-middle :
    (pre suf : List ℕ) (v : ℕ)
    → put_word (length pre) v (pre ++ word_bytes 0 ++ suf) ≡ pre ++ word_bytes v ++ suf
put_word-middle [] suf v = put_word-nil suf v
put_word-middle (x ∷ pre) suf v =
    put_word-suc x (length pre) v (pre ++ word_bytes 0 ++ suf)
    ∙ ap (λ l. x ∷ l) (put_word-middle pre suf v)

length-put_word : (at v : ℕ) (l : List ℕ) → length (put_word at v l) ≡ length l
unfolding put_word
length-put_word at v l = simp length-set refl

pub length-cc_patch : (at target : ℕ) (l : List ℕ) → length (cc_patch at target l) ≡ length l
unfolding cc_patch
length-cc_patch at target l = length-put_word at (rel32 target (at + 4)) l

-- A jump to the end of the code, whose operand stands behind `pre`.
pub cc_patch-end :
    (pre suf c : List ℕ) (at : ℕ)
    → c ≡ pre ++ word_bytes 0 ++ suf
    → at ≡ length pre
    → cc_patch at (length c) c ≡ pre ++ word_bytes (length suf % 2 ^ 32) ++ suf
unfolding cc_patch
cc_patch-end pre suf c at e l =
    let size : length c ≡ length pre + 4 + length suf =
      rw e (
        omega (arith, length-append (pre ++ word_bytes 0) suf, length-append pre (word_bytes 0))) in
    rw (size, l, e, rel32-forward (length pre + 4) (length suf))
      (put_word-middle pre suf (length suf % 2 ^ 32))
