-- ===== src/Prelude/Bytes.antt =====
-- C strings: a `char *` is the list of the bytes from it on, and its text ends before the first NUL.
use Prim.Native.Nat.{ℕ}
use mathlib.Core.List.{List, [], ◌∷◌}
use Prim.Native.Char.{code}
use Prim.Native.String.{String}
use kernel_basic.Prelude.Tests.{◌==◌, if◌then◌else◌}

-- The code points of a literal.
abbrev pub codes : String → List ℕ
codes String.[] = []
codes (String.◌∷◌ c s) = code c ∷ codes s

-- The text that a reader of the string sees.
abbrev pub c_text : List ℕ → List ℕ
c_text [] = []
c_text (c ∷ s) = if c == 0 then [] else c ∷ c_text s
