-- ===== src/Cc/Tree.antt =====
-- The syntax tree, its arena and the symbol table of kernel/cc.c. Nodes are values: of the arena only
-- the fill is kept, which limits the size of a program.
use kernel_basic.Prelude.{
  ℕ, ◌+◌, ◌*◌, ◌/◌, List, [], ◌∷◌, ◌++◌, Option, none, some, ltb, leb, ◌==◌, if◌then◌else◌, length,
}
use kernel_basic.Prelude.Int.{pos, negsuc}
use kernel_basic.Prelude.Bytes.{codes}
use kernel_basic.Str.{strcmp}
use kernel_basic.Cc.{
  Result, ok, err, TokType, Symbol, Cc, cc_arena_size, cc_max_locals, cc_copy_text,
}

-- `cc_node_t`: the kinds with the children that each uses. `null` is the pointer 0, and a block's
-- chain of `next` pointers is the list of its statements.
mutual
  pub data Node : Type 0 where
    null : Node
    nd_num : (line int_val : ℕ) → Node
    nd_var : (line var_offset : ℕ) → Node
    nd_unm : (line : ℕ) → (a : Node) → Node
    nd_binop : (line : ℕ) → (op : TokType) → (a b : Node) → Node
    nd_assign : (line var_offset : ℕ) → (a : Node) → Node
    nd_decl : (line var_offset : ℕ) → (a : Node) → Node
    nd_if : (line : ℕ) → (a b c : Node) → Node
    nd_while : (line : ℕ) → (a b : Node) → Node
    nd_print : (line : ℕ) → (a : Node) → Node
    nd_return : (line : ℕ) → (a : Node) → Node
    nd_block : (line : ℕ) → (a : Nodes) → Node

  pub data Nodes : Type 0 where
    end : Nodes
    next : Node → Nodes → Nodes

-- `block->a = stmt` for the first statement, `tail->next = stmt` for the others.
unfoldable pub append_node : Nodes → Node → Nodes
append_node end stmt = next stmt end
append_node (next n ns) stmt = next n (append_node ns stmt)

-- `sizeof(cc_node_t)` on this 32-bit machine: nine words.
abbrev pub node_size : ℕ
node_size = 36

-- The arena after `size` more bytes, a multiple of 4.
unfoldable pub cc_arena_alloc : (size : ℕ) → Cc → Result Cc
cc_arena_alloc size s =
    let size = (size + 3) / 4 * 4 in
    if ltb cc_arena_size (s.arena_pos + size)
    then err (negsuc 0) (codes "programa fonte grande demais")
    else ok (record s { arena_pos = s.arena_pos + size })

-- The offset of a name in the table.
unfoldable pub find_sym : List Symbol → List ℕ → Option ℕ
find_sym [] name = none
find_sym (x ∷ xs) name = if strcmp x.name name == 0 then some x.offset else find_sym xs name

unfoldable pub cc_sym_lookup : List ℕ → Cc → Option ℕ
unfolding find_sym
cc_sym_lookup name s = find_sym s.syms name

-- What `cc_sym_declare` does with the result of its search.
unfoldable pub declare_new : List ℕ → (line : ℕ) → Cc → Option ℕ → Result (ℕ × Cc)
declare_new name line s (some offset) = err (pos line) (codes "variavel redeclarada")
declare_new name line s none =
    let offset = 4 * (length s.syms + 1) in
    if leb cc_max_locals (length s.syms)
    then err (pos line) (codes "muitas variaveis locais")
    else ok (
      offset,
      record s { syms = s.syms ++ (record { name = cc_copy_text name; offset = offset } ∷ []) },
    )

unfoldable pub cc_sym_declare : List ℕ → (line : ℕ) → Cc → Result (ℕ × Cc)
unfolding find_sym declare_new
cc_sym_declare name line s = declare_new name line s (find_sym s.syms name)
