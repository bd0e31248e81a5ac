-- ===== src/Utils/Characters/Decoding.antt =====
-- `CStr::to_str` in src/utils.rs: from well-formed bytes to characters.
use grpc_web_server.Base.{
  ℕ, zero, suc, ◌+◌, ◌*◌, ◌-◌, ◌≤◌, ◌<◌, Str, ◌≡◌, refl, sym, ap, ◌∙◌, subst, inl, inr, true, List,
  [], ◌∷◌, ◌++◌, length, arith,
}
use grpc_web_server.Utils.Utf8.{continuation, is_utf8}
use grpc_web_server.Utils.Characters.{IsChar, one, two, three, four, IsText, end, char, Decodes}
use grpc_web_server.Utils.Characters.FirstBytes.{due_byte, first_byte}

-- That every well-formed sequence that is no longer is a text.
abbrev Known : Str → Type 0
Known bytes = (rest : Str) → length rest ≤ length bytes → is_utf8 [] rest ≡ true → Decodes rest

prepend :
    (c : ℕ) (s rest bytes : Str) → IsChar c s → Decodes rest → s ++ rest ≡ bytes → Decodes bytes
prepend c s rest bytes first (cs, more) e = (c ∷ cs, subst (IsText (c ∷ cs)) e (char first more))

two_bytes :
    (b : ℕ) (bytes : Str)
    → 194 ≤ b
    → b < 224
    → is_utf8 (continuation ∷ []) bytes ≡ true
    → Known bytes
    → Decodes (b ∷ bytes)
two_bytes b bytes low high e known =
    let (y, rest, split, p, q, good) = due_byte continuation [] bytes e in
    let shorter = ap length split in
    let b≡ : 192 + (b - 192) ≡ b = omega (arith, low) in
    let y≡ : 128 + (y - 128) ≡ y = omega (arith, p) in
    prepend (64 * (b - 192) + (y - 128)) _ rest (b ∷ bytes)
      (two (b - 192) (y - 128) (omega (arith, q)) refl (omega (arith, low))
        (omega (arith, high, q)))
      (known rest (omega (arith, shorter)) good) (cc (b≡, y≡, split))

three_bytes :
    (b lo hi : ℕ) (bytes : Str)
    → 224 ≤ b
    → b < 240
    → 128 ≤ lo
    → hi ≤ 191
    → (b ≡ 224 → 160 ≤ lo)
    → (b ≡ 237 → hi ≤ 159)
    → is_utf8 ((lo, hi) ∷ continuation ∷ []) bytes ≡ true
    → Known bytes
    → Decodes (b ∷ bytes)
three_bytes b lo hi bytes low high l h least surrogate e known =
    let (y, bytes1, split, p, q, e1) = due_byte (lo, hi) (continuation ∷ []) bytes e in
    let (z, rest, split1, r, s, good) = due_byte continuation [] bytes1 e1 in
    let shorter = ap length split in
    let shorter1 = ap length split1 in
    let b≡ : 224 + (b - 224) ≡ b = omega (arith, low) in
    let y≡ : 128 + (y - 128) ≡ y = omega (arith, l, p) in
    let z≡ : 128 + (z - 128) ≡ z = omega (arith, r) in
    prepend (4096 * (b - 224) + 64 * (y - 128) + (z - 128)) _ rest (b ∷ bytes)
      (three (b - 224) (y - 128) (z - 128) (omega (arith, h, q)) (omega (arith, s)) refl
        (ground (arith, low, least, l, p)) (omega (arith, high, h, q, s))
        (ground (arith, surrogate, low, l, h, p, q, r, s)))
      (known rest (omega (arith, shorter, shorter1)) good) (cc (b≡, y≡, z≡, split, split1))

four_bytes :
    (b lo hi : ℕ) (bytes : Str)
    → 240 ≤ b
    → b < 245
    → 128 ≤ lo
    → hi ≤ 191
    → (b ≡ 240 → 144 ≤ lo)
    → (b ≡ 244 → hi ≤ 143)
    → is_utf8 ((lo, hi) ∷ continuation ∷ continuation ∷ []) bytes ≡ true
    → Known bytes
    → Decodes (b ∷ bytes)
four_bytes b lo hi bytes low high l h least most e known =
    let (y, bytes1, split, p, q, e1) =
      due_byte (lo, hi) (continuation ∷ continuation ∷ []) bytes e in
    let (z, bytes2, split1, r, s, e2) = due_byte continuation (continuation ∷ []) bytes1 e1 in
    let (u, rest, split2, v, w, good) = due_byte continuation [] bytes2 e2 in
    let shorter = ap length split in
    let shorter1 = ap length split1 in
    let shorter2 = ap length split2 in
    let b≡ : 240 + (b - 240) ≡ b = omega (arith, low) in
    let y≡ : 128 + (y - 128) ≡ y = omega (arith, l, p) in
    let z≡ : 128 + (z - 128) ≡ z = omega (arith, r) in
    let u≡ : 128 + (u - 128) ≡ u = omega (arith, v) in
    prepend (262144 * (b - 240) + 4096 * (y - 128) + 64 * (z - 128) + (u - 128)) _ rest (b ∷ bytes)
      (four (b - 240) (y - 128) (z - 128) (u - 128) (omega (arith, h, q)) (omega (arith, s))
        (omega (arith, w)) refl (ground (arith, low, least, l, p))
        (ground (arith, high, most, l, h, p, q, r, s, v, w)))
      (known rest (omega (arith, shorter, shorter1, shorter2)) good)
      (cc (b≡, y≡, z≡, u≡, split, split1, split2))

first_char :
    (b : ℕ) (bytes : Str) → is_utf8 [] (b ∷ bytes) ≡ true → Known bytes → Decodes (b ∷ bytes)
first_char b bytes e known =
    let (due, starts, more) = first_byte b bytes e in
    elim starts [
      | inl (small, d) ↦
          prepend b (b ∷ []) bytes (b ∷ bytes) (one small)
            (known bytes (omega arith) (follows d more)) refl
      | inr (inl (low, high, d)) ↦ two_bytes b bytes low high (follows d more) known
      | inr (inr (inl (lo, hi, low, high, d, l, h, least, surrogate))) ↦
          three_bytes b lo hi bytes low high l h least surrogate (follows d more) known
      | inr (inr (inr (lo, hi, low, high, d, l, h, least, most))) ↦
          four_bytes b lo hi bytes low high l h least most (follows d more) known
    ]
  where
    follows :
        {due ds : List (ℕ × ℕ)} → due ≡ ds → is_utf8 due bytes ≡ true → is_utf8 ds bytes ≡ true
    follows d more = ap (λ ds. is_utf8 ds bytes) (sym d) ∙ more

-- Every well-formed byte sequence is a text.
pub is_utf8-Decodes :
    (n : ℕ) (bytes : Str) → length bytes ≤ n → is_utf8 [] bytes ≡ true → Decodes bytes
is_utf8-Decodes n [] short good = ([], end)
is_utf8-Decodes zero (b ∷ bytes) short good = absurd (omega (arith, short))
is_utf8-Decodes (suc n) (b ∷ bytes) short good =
    first_char b bytes good
      (λ rest shorter fine. is_utf8-Decodes n rest (omega (arith, short, shorter)) fine)
