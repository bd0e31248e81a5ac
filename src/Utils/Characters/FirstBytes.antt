-- ===== src/Utils/Characters/FirstBytes.antt =====
-- `CStr::to_str` in src/utils.rs: the test of a first byte, and of each byte due after it.
use grpc_web_server.Base.{
  ℕ, ◌≤◌, ◌<◌, Str, ◌≡◌, ◌≢◌, refl, ◌⊎◌, inl, inr, Bool, true, false, Option, none, some, List, [],
  ◌∷◌, arith, Bool-cases, Option-cases, ltb, leb, ◌&&◌, if◌then◌else◌,
}
use grpc_web_server.Utils.Utf8.{continuation, followers, is_utf8}

-- The bytes after a first byte that starts a character.
abbrev pub Starts : ℕ → List (ℕ × ℕ) → Type 0
Starts b due =
    ((b < 128) × (due ≡ []))
    ⊎ ((194 ≤ b) × (b < 224) × (due ≡ continuation ∷ []))
    ⊎ ((lo : ℕ) × (hi : ℕ) × (224 ≤ b)
        × (b < 240)
        × (due ≡ (lo, hi) ∷ continuation ∷ [])
        × (128 ≤ lo)
        × (hi ≤ 191)
        × (b ≡ 224 → 160 ≤ lo)
        × (b ≡ 237 → hi ≤ 159))
    ⊎ ((lo : ℕ) × (hi : ℕ) × (240 ≤ b)
        × (b < 245)
        × (due ≡ (lo, hi) ∷ continuation ∷ continuation ∷ [])
        × (128 ≤ lo)
        × (hi ≤ 191)
        × (b ≡ 240 → 144 ≤ lo)
        × (b ≡ 244 → hi ≤ 143))

and_true : (a b : Bool) → (a && b) ≡ true → (a ≡ true) × (b ≡ true)
and_true true b e = (refl, e)
and_true false b e = cc (e)

leb-≤ : (a b : ℕ) → leb a b ≡ true → a ≤ b
leb-≤ a b e = ground (arith, e)

pub due_byte :
    (d : ℕ × ℕ) (more : List (ℕ × ℕ)) (bytes : Str)
    → is_utf8 (d ∷ more) bytes ≡ true
    → (y : ℕ) × (rest : Str) × (bytes ≡ y ∷ rest)
      × (d.0 ≤ y)
      × (y ≤ d.1)
      × (is_utf8 more rest ≡ true)
unfolding is_utf8
due_byte d more [] e = cc (e)
due_byte d more (y ∷ rest) e =
    let (low, e1) = and_true (leb d.0 y) _ e in
    let (high, good) = and_true (leb y d.1) _ e1 in
    (y, rest, refl, leb-≤ d.0 y low, leb-≤ y d.1 high, good)

-- Below a bound the first branch, from it on the second.
below_or :
    {A : Type 0} (b n : ℕ) {x y z : A}
    → (if ltb b n then x else y) ≡ z
    → ((b < n) × (x ≡ z)) ⊎ ((n ≤ b) × (y ≡ z))
below_or b n e = elim (Bool-cases (ltb b n)) [
  | inl small ↦ inl (ground (arith, small), ground (arith, e, small))
  | inr large ↦ inr (ground (arith, large), ground (arith, e, large))
]

some_inj : {A : Type 0} {x y : A} → ◌≡◌ {A = Option A} (some x) (some y) → y ≡ x
some_inj e = cc (e)

three-Starts :
    (b lo hi : ℕ) (due : List (ℕ × ℕ))
    → 224 ≤ b
    → b < 240
    → 128 ≤ lo
    → hi ≤ 191
    → (b ≡ 224 → 160 ≤ lo)
    → (b ≡ 237 → hi ≤ 159)
    → ◌≡◌ {A = Option (List (ℕ × ℕ))} (some ((lo, hi) ∷ continuation ∷ [])) (some due)
    → Starts b due
three-Starts b lo hi due p q r s t u e = inr (inr (inl (lo, hi, p, q, some_inj e, r, s, t, u)))

four-Starts :
    (b lo hi : ℕ) (due : List (ℕ × ℕ))
    → 240 ≤ b
    → b < 245
    → 128 ≤ lo
    → hi ≤ 191
    → (b ≡ 240 → 144 ≤ lo)
    → (b ≡ 244 → hi ≤ 143)
    → ◌≡◌ {A = Option (List (ℕ × ℕ))}
        (some ((lo, hi) ∷ continuation ∷ continuation ∷ []))
        (some due)
    → Starts b due
four-Starts b lo hi due p q r s t u e = inr (inr (inr (lo, hi, p, q, some_inj e, r, s, t, u)))

high-Starts :
    (b : ℕ) (due : List (ℕ × ℕ))
    → 240 ≤ b
    → (if ltb b 241
        then some ((144, 191) ∷ continuation ∷ continuation ∷ [])
        else if ltb b 244
        then some (continuation ∷ continuation ∷ continuation ∷ [])
        else if ltb b 245
        then some ((128, 143) ∷ continuation ∷ continuation ∷ [])
        else none)
      ≡ some due
    → Starts b due
high-Starts b due low e = elim (below_or b 241 e) [
  | inl (a, f) ↦
      four-Starts b 144 191 due low (omega (arith, a)) (omega arith) (omega arith)
        (λ x. omega arith) (λ x. omega (arith, x, a)) f
  | inr (a, f) ↦ elim (below_or b 244 f) [
    | inl (c, g) ↦
        four-Starts b 128 191 due low (omega (arith, c)) (omega arith) (omega arith)
          (λ x. omega (arith, x, a)) (λ x. omega (arith, x, c)) g
    | inr (c, g) ↦ elim (below_or b 245 g) [
      | inl (d, h) ↦
          four-Starts b 128 143 due low d (omega arith) (omega arith) (λ x. omega (arith, x, c))
            (λ x. omega arith) h
      | inr (d, h) ↦ cc (h)
    ]
  ]
]

middle-Starts :
    (b : ℕ) (due : List (ℕ × ℕ))
    → 224 ≤ b
    → (if ltb b 225
        then some ((160, 191) ∷ continuation ∷ [])
        else if ltb b 237
        then some (continuation ∷ continuation ∷ [])
        else if ltb b 238
        then some ((128, 159) ∷ continuation ∷ [])
        else if ltb b 240
        then some (continuation ∷ continuation ∷ [])
        else if ltb b 241
        then some ((144, 191) ∷ continuation ∷ continuation ∷ [])
        else if ltb b 244
        then some (continuation ∷ continuation ∷ continuation ∷ [])
        else if ltb b 245
        then some ((128, 143) ∷ continuation ∷ continuation ∷ [])
        else none)
      ≡ some due
    → Starts b due
middle-Starts b due low e = elim (below_or b 225 e) [
  | inl (a, f) ↦
      three-Starts b 160 191 due low (omega (arith, a)) (omega arith) (omega arith)
        (λ x. omega arith) (λ x. omega (arith, x, a)) f
  | inr (a, f) ↦ elim (below_or b 237 f) [
    | inl (c, g) ↦
        three-Starts b 128 191 due low (omega (arith, c)) (omega arith) (omega arith)
          (λ x. omega (arith, x, a)) (λ x. omega (arith, x, c)) g
    | inr (c, g) ↦ elim (below_or b 238 g) [
      | inl (d, h) ↦
          three-Starts b 128 159 due low (omega (arith, d)) (omega arith) (omega arith)
            (λ x. omega (arith, x, c)) (λ x. omega arith) h
      | inr (d, h) ↦ elim (below_or b 240 h) [
        | inl (j, k) ↦
            three-Starts b 128 191 due low j (omega arith) (omega arith) (λ x. omega (arith, x, d))
              (λ x. omega (arith, x, d)) k
        | inr (j, k) ↦ high-Starts b due j k
      ]
    ]
  ]
]

followers-Starts : (b : ℕ) (due : List (ℕ × ℕ)) → followers b ≡ some due → Starts b due
followers-Starts b due e = elim (below_or b 128 e) [
  | inl (a, f) ↦ inl (a, some_inj f)
  | inr (a, f) ↦ elim (below_or b 194 f) [
    | inl (c, g) ↦ cc (g)
    | inr (c, g) ↦ elim (below_or b 224 g) [
      | inl (d, h) ↦ inr (inl (c, d, some_inj h))
      | inr (d, h) ↦ middle-Starts b due d h
    ]
  ]
]

pub first_byte :
    (b : ℕ) (bytes : Str)
    → is_utf8 [] (b ∷ bytes) ≡ true
    → (due : List (ℕ × ℕ)) × Starts b due × (is_utf8 due bytes ≡ true)
unfolding is_utf8
first_byte b bytes e = elim (Option-cases (followers b)) [
  | inl bad ↦ absurd (split (followers b) e bad)
  | inr (due, good) ↦ (due, followers-Starts b due good, follow (followers b) due e good)
]
  where
    split :
        (o : Option (List (ℕ × ℕ)))
        → (elim o [ none ↦ false | some due ↦ is_utf8 due bytes ]) ≡ true
        → o ≢ none
    split none e n = cc (e)
    split (some due) e n = cc (n)

    follow :
        (o : Option (List (ℕ × ℕ))) (due : List (ℕ × ℕ))
        → (elim o [ none ↦ false | some due ↦ is_utf8 due bytes ]) ≡ true
        → o ≡ some due
        → is_utf8 due bytes ≡ true
    follow none due e n = cc
    follow (some x) due e n = rw (some_inj n) e
