-- ===== src/Cc/Lexer.antt =====
-- The lexer of kernel/cc.c.
use kernel_basic.Prelude.{
  ℕ, zero, suc, ◌+◌, ◌-◌, ◌*◌, ◌&&◌, ◌||◌, List, [], ◌∷◌, ◌++◌, ltb, leb, ◌==◌, if◌then◌else◌,
  get_or, length,
}
use kernel_basic.Prelude.Int.{pos}
use kernel_basic.Prelude.Bytes.{codes}
use kernel_basic.Str.{strcmp}
use kernel_basic.Cc.{
  Result, ok, err, ◌>>=◌, TokType, Token, is_tok, Cc, cc_is_digit, cc_is_alpha, cc_is_alnum,
  tok_eof, tok_ident, tok_num, tok_kw_int, tok_kw_if, tok_kw_else, tok_kw_while, tok_kw_print,
  tok_kw_return, tok_lbrace, tok_rbrace, tok_lparen, tok_rparen, tok_semi, tok_plus, tok_minus,
  tok_star, tok_slash, tok_assign, tok_eq, tok_ne, tok_lt, tok_gt, tok_le, tok_ge,
}

-- The `n` bytes from index `at` on are left; the index behind the blanks, and the line there.
unfoldable pub skip_ws : (n : ℕ) → List ℕ → (at line : ℕ) → ℕ × ℕ
skip_ws zero src at line = (at, line)
skip_ws (suc n) src at line =
    let c = get_or src at 0 in
    let newline = skip_ws n src (at + 1) (line + 1) in
    let blank = skip_ws n src (at + 1) line in
    if c == b'\n'
    then newline
    else if c == b' ' || c == b'\t' || c == b'\r'
    then blank
    else (at, line)

unfoldable pub cc_skip_ws : Cc → Cc
unfolding skip_ws
cc_skip_ws s =
    let (at, line) = skip_ws (s.src_len - s.at) s.src s.at s.line in
    record s { at = at; line = line }

-- The number whose digits begin at `at`, behind the digits of `val`, and the index behind it.
unfoldable pub lex_num : (n : ℕ) → List ℕ → (at val : ℕ) → ℕ × ℕ
lex_num zero src at val = (at, val)
lex_num (suc n) src at val =
    let c = get_or src at 0 in
    let rest = lex_num n src (at + 1) (val * 10 + (c - b'0')) in
    if cc_is_digit c then rest else (at, val)

-- The same for a word, of which 31 bytes are kept.
unfoldable pub lex_word : (n : ℕ) → List ℕ → (at : ℕ) → List ℕ → ℕ × List ℕ
lex_word zero src at text = (at, text)
lex_word (suc n) src at text =
    let c = get_or src at 0 in
    let rest = lex_word n src (at + 1) (if ltb (length text) 31 then text ++ (c ∷ []) else text) in
    if cc_is_alnum c then rest else (at, text)

unfoldable pub word_kind : List ℕ → TokType
word_kind text =
    if strcmp text (codes "int") == 0
    then tok_kw_int
    else if strcmp text (codes "if") == 0
    then tok_kw_if
    else if strcmp text (codes "else") == 0
    then tok_kw_else
    else if strcmp text (codes "while") == 0
    then tok_kw_while
    else if strcmp text (codes "print") == 0
    then tok_kw_print
    else if strcmp text (codes "return") == 0
    then tok_kw_return
    else tok_ident

-- An operator of one byte, or of two if the next byte is '='; `at` is the index of that next byte.
unfoldable pub one_or_two : Cc → (at : ℕ) → (two one : TokType) → ℕ × TokType
one_or_two s at two one =
    if ltb at s.src_len && get_or s.src at 0 == b'=' then (at + 1, two) else (at, one)

abbrev pub bad_char : List ℕ
bad_char = codes "caractere invalido"

-- The byte `c` and perhaps the next: the index behind the operator, and its kind.
unfoldable pub lex_op : Cc → (at c : ℕ) → Result (ℕ × TokType)
unfolding one_or_two
lex_op s at c =
    if c == b'{'
    then ok (at, tok_lbrace)
    else if c == b'}'
    then ok (at, tok_rbrace)
    else if c == b'('
    then ok (at, tok_lparen)
    else if c == b')'
    then ok (at, tok_rparen)
    else if c == b';'
    then ok (at, tok_semi)
    else if c == b'+'
    then ok (at, tok_plus)
    else if c == b'-'
    then ok (at, tok_minus)
    else if c == b'*'
    then ok (at, tok_star)
    else if c == b'/'
    then ok (at, tok_slash)
    else if c == b'='
    then ok (one_or_two s at tok_eq tok_assign)
    else if c == b'!'
    then (if ltb at s.src_len && get_or s.src at 0 == b'='
        then ok (at + 1, tok_ne)
        else err (pos s.line) bad_char)
    else if c == b'<'
    then ok (one_or_two s at tok_le tok_lt)
    else if c == b'>'
    then ok (one_or_two s at tok_ge tok_gt)
    else err (pos s.line) bad_char

abbrev pub token : TokType → (int_val : ℕ) → (text : List ℕ) → (line : ℕ) → Token
token kind int_val text line = record { kind = kind; int_val = int_val; text = text; line = line }

-- The token that begins at `s.at`, where a byte is left.
unfoldable pub lex_token : Cc → Result (Token × Cc)
unfolding lex_num lex_word lex_op
lex_token s =
    let c = get_or s.src s.at 0 in
    let left = s.src_len - s.at in
    let (num_end, val) = lex_num left s.src s.at 0 in
    let (word_end, text) = lex_word left s.src s.at [] in
    if cc_is_digit c
    then ok (token tok_num val [] s.line, record s { at = num_end })
    else if cc_is_alpha c
    then ok (token (word_kind text) 0 text s.line, record s { at = word_end })
    else (lex_op s (s.at + 1) c >>= λ (at, kind). ok (token kind 0 [] s.line, record s { at = at }))

unfoldable pub cc_lex_next : Cc → Result (Token × Cc)
unfolding cc_skip_ws lex_token
cc_lex_next s =
    let s = cc_skip_ws s in
    if leb s.src_len s.at then ok (token tok_eof 0 [] s.line, s) else lex_token s

unfoldable pub cc_advance : Cc → Result Cc
unfolding cc_lex_next
cc_advance s = cc_lex_next s >>= λ (t, s). ok (record s { cur = t })

unfoldable pub cc_expect : TokType → (msg : List ℕ) → Cc → Result Cc
unfolding cc_advance
cc_expect t msg s = if is_tok s.cur.kind t then cc_advance s else err (pos (s.cur.line)) msg
