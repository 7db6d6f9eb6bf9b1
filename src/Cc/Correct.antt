-- ===== src/Cc/Correct.antt =====
-- What kernel/cc.c promises of a whole compilation.
use mathlib.Core.Path.{subst}
use kernel_basic.Prelude.{ℕ, ◌+◌, ◌≤◌, ◌<◌, ◌≡◌, ◌≢◌, refl, List, ◌++◌, length, arith}
use kernel_basic.Cc.{Result, ok, err, stuck, ◌>>=◌, Cc, cc_code_size}
use kernel_basic.Cc.Lexer.{cc_advance}
use kernel_basic.Cc.Tree.{Node}
use kernel_basic.Cc.Statements.{cc_parse_program}
use kernel_basic.Cc.Codegen.{cc_codegen_stmt}
use kernel_basic.Cc.Compile.{
  cc_reset, compile_passes, Compiled, compiled, failed, no_fuel, report, cc_compile,
}
use kernel_basic.Cc.Image.{stmt_code, program_code}
use kernel_basic.Cc.Progress.{Post, returns, raises, Post-bind, Post-weaken, todo, cc_advance-Post}
use kernel_basic.Cc.Terminates.{cc_parse_program-Less}
use kernel_basic.Cc.Generates.{cc_codegen_stmt-Emits, program-Emits}

-- The first two passes: the tree, and the state in which its variables are declared.
abbrev pub parse : (src : List ℕ) → (src_len : ℕ) → Result (Node × Cc)
parse src src_len = cc_advance (cc_reset src src_len) >>= cc_parse_program (src_len + 2)

-- Code that is the image of a tree, and fits the buffer.
abbrev pub IsImage : (print_fn : ℕ) → List ℕ → Node × Cc → Type 0
IsImage p code r = code ≡ program_code p (length r.1.syms) r.0 × length code ≤ cc_code_size

-- A result with the equation that gives it.
known : {A : Type 0} {P : A → Type 0} (r : Result A) → Post P r → Post (λ a. r ≡ ok a) r
known (ok a) (returns h) = returns refl
known (err line msg) raises = raises
known stuck h = elim h [ ]

parse-Post : (src : List ℕ) (src_len : ℕ) → Post (λ r. parse src src_len ≡ ok r) (parse src src_len)
unfolding cc_reset
parse-Post src src_len =
    let start = cc_reset src src_len in
    known (parse src src_len) (
      Post-bind {Q = λ r. todo r.1 < src_len + 2} (cc_advance-Post start) λ s g.
        Post-weaken (cc_parse_program-Less (src_len + 2) s (omega (arith, g)))
          (λ r l. omega (arith, g, l)))

-- Code that comes from a tree which the parser returns.
abbrev pub FromTree : (src : List ℕ) → (src_len print_fn : ℕ) → List ℕ → Type 0
FromTree src src_len p code = (r : Node × Cc) × (parse src src_len ≡ ok r × IsImage p code r)

compile_passes-Post :
    (src : List ℕ) (src_len p : ℕ)
    → Post (FromTree src src_len p) (compile_passes (src_len + 2) src src_len p)
unfolding compile_passes
compile_passes-Post src src_len p =
    Post-bind (parse-Post src src_len)
      λ r e. Post-weaken (program-Emits p (length r.1.syms) r.0) (λ code g. (r, (e, g)))

-- What the caller gets.
abbrev pub Reported : (List ℕ → Type 0) → Compiled → Type 0
Reported P (compiled n code) = n ≡ length code × P code
Reported P (failed msg line) = Unit
Reported P no_fuel = ⊥

report-Reported :
    {P : List ℕ → Type 0} (m : ℕ) (r : Result (List ℕ)) → Post P r → Reported P (report m r)
unfolding report
report-Reported m (ok code) (returns h) = (refl, h)
report-Reported m (err line msg) raises = tt
report-Reported m stuck h = elim h [ ]

cc_compile-Reported :
    (src : List ℕ) (src_len p m : ℕ)
    → Reported (FromTree src src_len p) (cc_compile src src_len p m)
unfolding cc_compile
cc_compile-Reported src src_len p m = report-Reported m _ (compile_passes-Post src src_len p)

-- Whatever the source, its length and the other arguments, the loops and recursions of the
-- compiler end within one step for each byte of the source and two more: cc_compile returns code
-- or an error.
pub cc_compile-terminates :
    (src : List ℕ) (src_len print_fn err_msg_max : ℕ)
    → cc_compile src src_len print_fn err_msg_max ≢ no_fuel
cc_compile-terminates src src_len p m e =
    subst (Reported (FromTree src src_len p)) e (cc_compile-Reported src src_len p m)

-- Where cc_compile returns code, the length it returns is the code's, the parser read a whole
-- program from the source, and the code is the one that the program's tree stands for: the
-- prologue for its variables, the instructions of each statement with jumps relative to the code
-- they skip or repeat, and the return of 0 behind them. It fits the buffer of 32768 bytes.
pub cc_compile-code :
    (src : List ℕ) (src_len print_fn err_msg_max n : ℕ) (code : List ℕ)
    → cc_compile src src_len print_fn err_msg_max ≡ compiled n code
    → n ≡ length code
      × ((r : Node × Cc) × (parse src src_len ≡ ok r
            × (code ≡ program_code print_fn (length r.1.syms) r.0 × length code ≤ cc_code_size)))
cc_compile-code src src_len p m n code e =
    subst (Reported (FromTree src src_len p)) e (cc_compile-Reported src src_len p m)

-- What holds of a value that is returned.
abbrev Holds : (List ℕ → Type 0) → Result (List ℕ) → Type 0
Holds P (ok code) = P code
Holds P _ = Unit

Post-Holds : {P : List ℕ → Type 0} (r : Result (List ℕ)) → Post P r → Holds P r
Post-Holds (ok code) (returns h) = h
Post-Holds (err line msg) h = tt
Post-Holds stuck h = tt

-- Where cc_codegen_stmt succeeds behind code that fits the buffer, it keeps that code and appends
-- the machine code of the statement, built node by node with no patching: each placeholder holds
-- the length of the code its jump skips, and each jump back the distance to the loop's condition.
-- The result fits the buffer.
pub cc_codegen_stmt-stmt_code :
    (print_fn : ℕ) (n : Node) (code code' : List ℕ)
    → length code ≤ cc_code_size
    → cc_codegen_stmt print_fn n code ≡ ok code'
    → code' ≡ code ++ stmt_code print_fn n × length code' ≤ cc_code_size
cc_codegen_stmt-stmt_code p n code code' h e =
    subst (Holds (λ c. c ≡ code ++ stmt_code p n × length c ≤ cc_code_size)) e
      (Post-Holds (cc_codegen_stmt p n code) (cc_codegen_stmt-Emits p n code h))
