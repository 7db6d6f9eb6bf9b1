-- ===== src/Cc.antt =====
-- kernel/cc.c and include/cc.h: the compiler of the C subset. Here: its limits, its errors, its tokens
-- and the static variables that the passes share.
--
-- The source latches the first error in `g_cc_error`, and from then on every function returns at
-- once: here an error is a result. `stuck` is a loop or recursion that ran out of the fuel given.
pub mod Lexer
pub mod Tree
pub mod Parser
pub mod Statements
pub mod Emit
pub mod Codegen
pub mod Compile
pub mod Progress
pub mod Total
pub mod Branches
pub mod Terminates
pub mod Image
pub mod Emits
pub mod Straight
pub mod Jumps
pub mod Generates
pub mod Correct
pub mod Program
use kernel_basic.Prelude.{ℕ, Bool, true, false, List, [], ◌∷◌, ◌==◌, ◌&&◌, ◌||◌, leb}
use kernel_basic.Prelude.Int.{ℤ, pos, negsuc}

abbrev pub cc_code_size : ℕ
cc_code_size = 32768

abbrev pub cc_arena_size : ℕ
cc_arena_size = 65536

abbrev pub cc_max_locals : ℕ
cc_max_locals = 32

abbrev pub cc_program_header_size : ℕ
cc_program_header_size = 8

-- An error has the line that `cc_error` is given, -1 for none, and its message.
pub data Result {ℓ} (A : Type ℓ) : Type ℓ where
  ok : A → Result A
  err : (line : ℤ) → (msg : List ℕ) → Result A
  stuck : Result A

infixl 5 ◌>>=◌
abbrev pub ◌>>=◌ {ℓ κ} : {A : Type ℓ} {B : Type κ} → Result A → (A → Result B) → Result B
ok a >>= f = f a
err line msg >>= f = err line msg
stuck >>= f = stuck

-- `cc_tok_type_t`, in the order of the source.
pub data TokType : Type 0 where
  tok_eof tok_ident tok_num : TokType
  tok_kw_int tok_kw_if tok_kw_else tok_kw_while tok_kw_print tok_kw_return : TokType
  tok_lbrace tok_rbrace tok_lparen tok_rparen tok_semi : TokType
  tok_plus tok_minus tok_star tok_slash tok_assign : TokType
  tok_eq tok_ne tok_lt tok_gt tok_le tok_ge : TokType

-- The value of the enumeration's constant.
abbrev pub tok_value : TokType → ℕ
tok_value tok_eof = 0
tok_value tok_ident = 1
tok_value tok_num = 2
tok_value tok_kw_int = 3
tok_value tok_kw_if = 4
tok_value tok_kw_else = 5
tok_value tok_kw_while = 6
tok_value tok_kw_print = 7
tok_value tok_kw_return = 8
tok_value tok_lbrace = 9
tok_value tok_rbrace = 10
tok_value tok_lparen = 11
tok_value tok_rparen = 12
tok_value tok_semi = 13
tok_value tok_plus = 14
tok_value tok_minus = 15
tok_value tok_star = 16
tok_value tok_slash = 17
tok_value tok_assign = 18
tok_value tok_eq = 19
tok_value tok_ne = 20
tok_value tok_lt = 21
tok_value tok_gt = 22
tok_value tok_le = 23
tok_value tok_ge = 24

abbrev pub is_tok : TokType → TokType → Bool
is_tok a b = tok_value a == tok_value b

-- `cc_token_t`; `text` is the bytes before the NUL.
pub record Token : Type 0 where
  pub kind : TokType
  pub int_val : ℕ
  pub text : List ℕ
  pub line : ℕ

-- `cc_sym_t`
pub record Symbol : Type 0 where
  pub name : List ℕ
  pub offset : ℕ

-- The static variables of the lexer, the arena, the symbol table and the parser. `g_src` and
-- `g_src_len` stay as they are while a program is compiled. `syms` is the used part of the table.
pub record Cc : Type 0 where
  pub src : List ℕ
  pub src_len : ℕ
  pub at : ℕ
  pub line : ℕ
  pub arena_pos : ℕ
  pub syms : List Symbol
  pub cur : Token

unfoldable pub cc_is_digit : ℕ → Bool
cc_is_digit c = leb b'0' c && leb c b'9'

unfoldable pub cc_is_alpha : ℕ → Bool
cc_is_alpha c = (leb b'a' c && leb c b'z') || (leb b'A' c && leb c b'Z') || c == b'_'

unfoldable pub cc_is_alnum : ℕ → Bool
unfolding cc_is_alpha cc_is_digit
cc_is_alnum c = cc_is_alpha c || cc_is_digit c

-- The first `n` bytes of a string, or all before its NUL.
unfoldable pub copy_text : (n : ℕ) → List ℕ → List ℕ
copy_text ℕ.zero s = []
copy_text (ℕ.suc n) [] = []
copy_text (ℕ.suc n) (c ∷ s) = elim (c == 0) [ true ↦ [] | false ↦ c ∷ copy_text n s ]

-- A name has 31 bytes at most.
unfoldable pub cc_copy_text : List ℕ → List ℕ
unfolding copy_text
cc_copy_text s = copy_text 31 s
