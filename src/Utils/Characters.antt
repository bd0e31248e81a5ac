-- ===== src/Utils/Characters.antt =====
-- The characters of the strings that src/utils.rs reads, by the definition of UTF-8.
pub mod FirstBytes
pub mod Decoding
pub mod Encoding
pub mod Strings
use grpc_web_server.Base.{
  ℕ, zero, suc, ◌+◌, ◌*◌, ◌-◌, ◌≤◌, ◌<◌, Str, ◌≡◌, ◌≢◌, refl, sym, ap, ◌∙◌, subst, ◌↔◌, ◌⊎◌, inl,
  inr, Bool, true, false, Option, none, some, List, [], ◌∷◌, ◌++◌, length, arith, Bool-cases,
  Option-cases, ltb, leb, ◌==◌, ◌&&◌, if◌then◌else◌,
}

-- The bytes of a character in UTF-8: the fewest that have room for its number, which is below 2^21,
-- at most 10FFFF and no surrogate.
pub data IsChar (c : ℕ) : Str → Type 0 where
  one : c < 128 → IsChar c (c ∷ [])
  two :
      (x y : ℕ)
      → y < 64
      → c ≡ 64 * x + y
      → 128 ≤ c
      → c < 2048
      → IsChar c ((192 + x) ∷ (128 + y) ∷ [])
  three :
      (x y z : ℕ)
      → y < 64
      → z < 64
      → c ≡ 4096 * x + 64 * y + z
      → 2048 ≤ c
      → c < 65536
      → (c < 55296) ⊎ (57344 ≤ c)
      → IsChar c ((224 + x) ∷ (128 + y) ∷ (128 + z) ∷ [])
  four :
      (x y z u : ℕ)
      → y < 64
      → z < 64
      → u < 64
      → c ≡ 262144 * x + 4096 * y + 64 * z + u
      → 65536 ≤ c
      → c < 1114112
      → IsChar c ((240 + x) ∷ (128 + y) ∷ (128 + z) ∷ (128 + u) ∷ [])

-- The bytes of a text, character by character.
pub data IsText : List ℕ → Str → Type 0 where
  end : IsText [] []
  char :
      {c : ℕ} {s : Str} {cs : List ℕ} {rest : Str}
      → IsChar c s
      → IsText cs rest
      → IsText (c ∷ cs) (s ++ rest)

-- The bytes of some characters.
abbrev pub Decodes : Str → Type 0
Decodes bytes = (cs : List ℕ) × IsText cs bytes
