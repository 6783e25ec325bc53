-- ===== src/Prelude/Text.antt =====
-- Go strings as sequences of bytes. A literal is the list of its codes.
use Prim.Native.Nat.{ℕ}
use Prim.Native.Char.{code}
use Prim.Native.String.{String}
use mathlib.Core.List.{List, [], ◌∷◌}
use kubecrtutils.Prelude.Class.{Eq, nat_eq, list_eq}

abbrev pub Text : Type 0
Text = List ℕ

-- The code points of a literal; these are its bytes, since every literal here is ASCII.
abbrev pub codes : String → Text
codes String.[] = []
codes (String.◌∷◌ c s) = code c ∷ codes s

instance abbrev pub text_eq : Eq Text
text_eq = list_eq
