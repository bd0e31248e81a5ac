-- ===== src/Base/Texts.antt =====
-- Rust strings as their bytes. A text literal of the source is ASCII: its characters are its bytes.
use Prim.Native.Nat.{ℕ}
use Prim.Native.Char.{code}
use Prim.Native.String.{String}
use mathlib.Core.List.{List, [], ◌∷◌}

-- `String`, `&str`, `Path` and the message of a `Box<dyn Error>`
abbrev pub Str : Type 0
Str = List ℕ

unfoldable pub text : String → Str
text String.[] = []
text (String.◌∷◌ c s) = code c ∷ text s
