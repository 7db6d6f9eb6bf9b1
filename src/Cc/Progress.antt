-- ===== src/Cc/Progress.antt =====
-- How far the lexer of kernel/cc.c gets with each token.
use kernel_basic.Prelude.{
  ℕ, zero, suc, ◌+◌, ◌-◌, ◌*◌, ◌≤◌, ◌<◌, ◌≡◌, refl, Bool, true, false, ◌&&◌, List, [], ◌∷◌, ◌++◌,
  ltb, leb, ◌==◌, if◌then◌else◌, get_or, length, arith, if_ind,
}
use kernel_basic.Prelude.Int.{ℤ}
use kernel_basic.Cc.{
  Result, ok, err, ◌>>=◌, TokType, Token, is_tok, Cc, tok_eof, cc_is_digit, cc_is_alpha,
  cc_is_alnum, tok_ne, tok_eq, tok_le, tok_lt, tok_ge, tok_gt, tok_assign,
}
use kernel_basic.Cc.Lexer.{
  skip_ws, cc_skip_ws, lex_num, lex_word, lex_op, one_or_two, lex_token, cc_lex_next, cc_advance,
  cc_expect,
}

-- A result that is no want of fuel, and whose value satisfies `P`.
pub data Post {ℓ} {A : Type ℓ} (P : A → Type 0) : Result A → Type ℓ where
  returns : {a : A} → P a → Post P (ok a)
  raises : {line : ℤ} {msg : List ℕ} → Post P (err line msg)

pub Post-bind {ℓ κ} :
    {A : Type ℓ} {B : Type κ} {P : A → Type 0} {Q : B → Type 0} {r : Result A} {f : A → Result B}
    → Post P r
    → ((a : A) → P a → Post Q (f a))
    → Post Q (r >>= f)
Post-bind (returns h) k = k _ h
Post-bind raises k = raises

pub Post-weaken {ℓ} :
    {A : Type ℓ} {P Q : A → Type 0} {r : Result A} → Post P r → ((a : A) → P a → Q a) → Post Q r
Post-weaken (returns h) k = returns (k _ h)
Post-weaken raises k = raises

-- A test in front of two results.
pub Post-if {ℓ} :
    {A : Type ℓ} {P : A → Type 0} (b : Bool) {x y : Result A}
    → (b ≡ true → Post P x)
    → (b ≡ false → Post P y)
    → Post P (if b then x else y)
Post-if true h k = h refl
Post-if false h k = k refl

-- The bytes that are left, and one more for a token that is not the end: each token taken lowers it.
abbrev pub left : Cc → ℕ
left s = s.src_len - s.at

abbrev pub todo : Cc → ℕ
todo s = left s + (if is_tok s.cur.kind tok_eof then 0 else 1)

skip_ws-ge : (n : ℕ) (src : List ℕ) (at line : ℕ) → at ≤ (skip_ws n src at line).0
unfolding skip_ws
skip_ws-ge zero src at line = omega arith
skip_ws-ge (suc n) src at line =
    ground (arith, skip_ws-ge n src (at + 1) (line + 1), skip_ws-ge n src (at + 1) line)

lex_num-ge : (n : ℕ) (src : List ℕ) (at val : ℕ) → at ≤ (lex_num n src at val).0
unfolding lex_num
lex_num-ge zero src at val = omega arith
lex_num-ge (suc n) src at val =
    ground (arith, lex_num-ge n src (at + 1) (val * 10 + (get_or src at 0 - b'0')))

lex_word-ge : (n : ℕ) (src : List ℕ) (at : ℕ) (text : List ℕ) → at ≤ (lex_word n src at text).0
unfolding lex_word
lex_word-ge zero src at text = omega arith
lex_word-ge (suc n) src at text =
    let c = get_or src at 0 in
    let kept = if ltb (length text) 31 then text ++ (c ∷ []) else text in
    if_ind (λ (r : ℕ × List ℕ). at ≤ r.0) (cc_is_alnum c)
      (λ _. omega (arith, lex_word-ge n src (at + 1) kept)) (λ _. omega arith)

-- The first byte of a number or a word is taken.
lex_num-gt :
    (n : ℕ) (src : List ℕ) (at val : ℕ)
    → 0 < n
    → cc_is_digit (get_or src at 0) ≡ true
    → at < (lex_num n src at val).0
unfolding lex_num
lex_num-gt zero src at val h d = absurd (omega arith)
lex_num-gt (suc n) src at val h d =
    rw d (omega (arith, lex_num-ge n src (at + 1) (val * 10 + (get_or src at 0 - b'0'))))

lex_word-gt :
    (n : ℕ) (src : List ℕ) (at : ℕ) (text : List ℕ)
    → 0 < n
    → cc_is_alpha (get_or src at 0) ≡ true
    → at < (lex_word n src at text).0
unfolding lex_word cc_is_alnum
lex_word-gt zero src at text h d = absurd (omega arith)
lex_word-gt (suc n) src at text h d =
    let c = get_or src at 0 in
    let kept = if ltb (length text) 31 then text ++ (c ∷ []) else text in
    rw d (omega (arith, lex_word-ge n src (at + 1) kept))

one_or_two-ge : (s : Cc) (at : ℕ) (two one : TokType) → at ≤ (one_or_two s at two one).0
unfolding one_or_two
one_or_two-ge s at two one = ground arith

lex_op-Post : (s : Cc) (at c : ℕ) → Post (λ (r : ℕ × TokType). at ≤ r.0) (lex_op s at c)
unfolding lex_op
lex_op-Post s at c =
    Post-if (c == b'{') (λ _. returns (omega arith))
      λ _.
        Post-if (c == b'}') (λ _. returns (omega arith))
          λ _.
            Post-if (c == b'(') (λ _. returns (omega arith))
              λ _.
                Post-if (c == b')') (λ _. returns (omega arith))
                  λ _.
                    Post-if (c == b';') (λ _. returns (omega arith))
                      λ _.
                        Post-if (c == b'+') (λ _. returns (omega arith))
                          λ _.
                            Post-if (c == b'-') (λ _. returns (omega arith))
                              λ _.
                                Post-if (c == b'*') (λ _. returns (omega arith))
                                  λ _.
                                    Post-if (c == b'/') (λ _. returns (omega arith))
                                      λ _.
                                        Post-if (c == b'=')
                                          (λ _. returns (one_or_two-ge s at tok_eq tok_assign))
                                          λ _.
                                            Post-if (c == b'!')
                                              (λ _.
                                                Post-if
                                                  (ltb at s.src_len && get_or s.src at 0 == b'=')
                                                  (λ _.
                                                    returns {a = (at + 1, tok_ne)} (omega arith))
                                                  (λ _. raises))
                                              λ _.
                                                Post-if (c == b'<')
                                                  (λ _. returns (one_or_two-ge s at tok_le tok_lt))
                                                  λ _.
                                                    Post-if (c == b'>')
                                                      (λ _.
                                                        returns (one_or_two-ge s at tok_ge tok_gt))
                                                      (λ _. raises)

-- A token is taken from the bytes that are left, unless it is the end.
abbrev Took : Cc → Token × Cc → Type 0
Took s r = left r.1 + (if is_tok r.0.kind tok_eof then 0 else 1) ≤ left s

lex_token-Took : (s : Cc) → s.at < s.src_len → Post (Took s) (lex_token s)
unfolding lex_token
lex_token-Took s h =
    let c = get_or s.src s.at 0 in
    let n = s.src_len - s.at in
    let size : 0 < n = omega (arith, h) in
    Post-if (cc_is_digit c) (λ d. returns (omega (arith, lex_num-gt n s.src s.at 0 size d)))
      λ _.
        Post-if (cc_is_alpha c) (λ d. returns (ground (arith, lex_word-gt n s.src s.at [] size d)))
          λ _. Post-bind (lex_op-Post s (s.at + 1) c) (λ r g. returns (ground (arith, g)))

cc_lex_next-Took : (s : Cc) → Post (Took s) (cc_lex_next s)
unfolding cc_lex_next cc_skip_ws
cc_lex_next-Took s =
    let t = cc_skip_ws s in
    let on = skip_ws-ge (s.src_len - s.at) s.src s.at s.line in
    Post-if (leb t.src_len t.at) (λ e. returns (omega (arith, on)))
      (λ e. Post-weaken (lex_token-Took t (ground (arith, e))) (λ r g. omega (arith, g, on)))

-- `cc_advance` takes a token, or reports a bad one.
pub cc_advance-Post : (s : Cc) → Post (λ s'. todo s' ≤ left s) (cc_advance s)
unfolding cc_advance
cc_advance-Post s = Post-bind (cc_lex_next-Took s) (λ a h. returns h)

pub cc_expect-Post :
    (t : TokType) (msg : List ℕ) (s : Cc)
    → is_tok t tok_eof ≡ false
    → Post (λ s'. todo s' < todo s) (cc_expect t msg s)
unfolding cc_expect
cc_expect-Post t msg s h =
    Post-if (is_tok s.cur.kind t) (λ e. Post-weaken (cc_advance-Post s) (λ s' g. ground (arith, g)))
      (λ _. raises)
