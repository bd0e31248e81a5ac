-- ===== src/Utils/Characters/Encoding.antt =====
-- `CStr::to_str` in src/utils.rs: from characters to well-formed bytes.
use grpc_web_server.Base.{
  ℕ, ◌+◌, ◌≤◌, ◌<◌, Str, ◌≡◌, refl, ◌↔◌, inl, inr, true, some, List, [], ◌∷◌, ◌++◌, length, arith,
  Bool-cases, ltb, leb, ◌==◌,
}
use grpc_web_server.Utils.Utf8.{continuation, followers, is_utf8}
use grpc_web_server.Utils.Characters.{IsChar, one, two, three, four, IsText, end, char, Decodes}
use grpc_web_server.Utils.Characters.Decoding.{is_utf8-Decodes}

from_due :
    (d : ℕ × ℕ) (more : List (ℕ × ℕ)) (y : ℕ) (rest : Str)
    → d.0 ≤ y
    → y ≤ d.1
    → is_utf8 more rest ≡ true
    → is_utf8 (d ∷ more) (y ∷ rest) ≡ true
unfolding is_utf8
from_due d more y rest low high good =
    let low' : leb d.0 y ≡ true = ground (arith, low) in
    let high' : leb y d.1 ≡ true = ground (arith, high) in rw (low', high', is_utf8) good

from_first :
    (b : ℕ) (due : List (ℕ × ℕ)) (bytes : Str)
    → followers b ≡ some due
    → is_utf8 due bytes ≡ true
    → is_utf8 [] (b ∷ bytes) ≡ true
unfolding is_utf8
from_first b due bytes e good = rw (e, is_utf8) good

two_followers : (b : ℕ) → 194 ≤ b → b < 224 → followers b ≡ some (continuation ∷ [])
two_followers b low high = ground (arith, low, high)

three_followers :
    (b y : ℕ)
    → 224 ≤ b
    → b < 240
    → 128 ≤ y
    → y ≤ 191
    → (b ≡ 224 → 160 ≤ y)
    → (b ≡ 237 → y ≤ 159)
    → (lo : ℕ) × (hi : ℕ) × (followers b ≡ some ((lo, hi) ∷ continuation ∷ []))
      × (lo ≤ y)
      × (y ≤ hi)
three_followers b y low high l h least surrogate = elim (Bool-cases (ltb b 225)) [
  | inl a ↦ (160, 191, ground (arith, low, a), ground (arith, low, a, least), h)
  | inr a ↦ elim (Bool-cases (b == 237)) [
    | inl c ↦ (128, 159, ground (arith, c), l, ground (arith, c, surrogate))
    | inr c ↦ (128, 191, ground (arith, a, c, high), l, h)
  ]
]

four_followers :
    (b y : ℕ)
    → 240 ≤ b
    → b < 245
    → 128 ≤ y
    → y ≤ 191
    → (b ≡ 240 → 144 ≤ y)
    → (b ≡ 244 → y ≤ 143)
    → (lo : ℕ) × (hi : ℕ) × (followers b ≡ some ((lo, hi) ∷ continuation ∷ continuation ∷ []))
      × (lo ≤ y)
      × (y ≤ hi)
four_followers b y low high l h least most = elim (Bool-cases (ltb b 241)) [
  | inl a ↦ (144, 191, ground (arith, low, a), ground (arith, low, a, least), h)
  | inr a ↦ elim (Bool-cases (ltb b 244)) [
    | inl c ↦ (128, 191, ground (arith, a, c), l, h)
    | inr c ↦ (128, 143, ground (arith, a, c, high), l, ground (arith, c, high, most))
  ]
]

one_followers : (b : ℕ) → b < 128 → followers b ≡ some []
one_followers b low = ground (arith, low)

from_continuation :
    (more : List (ℕ × ℕ)) (y : ℕ) (rest : Str)
    → y < 64
    → is_utf8 more rest ≡ true
    → is_utf8 (continuation ∷ more) ((128 + y) ∷ rest) ≡ true
from_continuation more y rest small good =
    from_due continuation more (128 + y) rest (omega arith) (omega (arith, small)) good

IsChar-is_utf8 :
    (c : ℕ) (s rest : Str) → IsChar c s → is_utf8 [] rest ≡ true → is_utf8 [] (s ++ rest) ≡ true
IsChar-is_utf8 c s rest (one small) good = from_first c [] rest (one_followers c small) good
IsChar-is_utf8 c s rest (two x y p e low high) good =
    from_first (192 + x) (continuation ∷ []) _
      (two_followers (192 + x) (omega (arith, p, e, low)) (omega (arith, p, e, high)))
      (from_continuation [] y rest p good)
IsChar-is_utf8 c s rest (three x y z p q e low high plane) good =
    let (lo, hi, start, above, under) =
      three_followers (224 + x) (128 + y) (omega arith) (omega (arith, e, high)) (omega arith)
        (omega (arith, p)) (λ b. omega (arith, b, q, e, low))
        (λ b. ground (arith, b, q, e, plane)) in
    from_first (224 + x) _ _ start (
      from_due (lo, hi) (continuation ∷ []) (128 + y) _ above under
        (from_continuation [] z rest q good))
IsChar-is_utf8 c s rest (four x y z u p q r e low high) good =
    let (lo, hi, start, above, under) =
      four_followers (240 + x) (128 + y) (omega arith) (omega (arith, e, high)) (omega arith)
        (omega (arith, p)) (λ b. omega (arith, b, q, r, e, low))
        (λ b. omega (arith, b, q, r, e, high)) in
    from_first (240 + x) _ _ start (
      from_due (lo, hi) (continuation ∷ continuation ∷ []) (128 + y) _ above under
        (from_continuation (continuation ∷ []) z _ q (from_continuation [] u rest r good)))

IsText-is_utf8 : (cs : List ℕ) (bytes : Str) → IsText cs bytes → is_utf8 [] bytes ≡ true
unfolding is_utf8
IsText-is_utf8 cs bytes end = refl
IsText-is_utf8 cs bytes (char {c} {s} {rest = rest} first more) =
    IsChar-is_utf8 c s rest first (IsText-is_utf8 _ rest more)

-- A byte sequence is well-formed exactly if it is the encoding of some characters.
pub is_utf8_iff : (bytes : Str) → (is_utf8 [] bytes ≡ true) ↔ Decodes bytes
is_utf8_iff bytes =
    (is_utf8-Decodes (length bytes) bytes (omega arith), λ (cs, text). IsText-is_utf8 cs bytes text)
