-- ===== src/Utils/Reads.antt =====
-- What a successful read of C strings says about memory.
use grpc_web_server.Base.{
  ℕ, zero, suc, ◌+◌, ◌%◌, Str, ◌≡◌, ◌≢◌, refl, sym, ap, ◌∙◌, subst, ◌↔◌, ◌⊎◌, inl, inr, true, some,
  List, [], ◌∷◌, ◌++◌, length, length-eq-zero, drop, ok, ◌>>=◌, ◌==◌, arith, Bool-cases,
  Option-cases, >>=-eq-ok, ok_inj, ==_iff,
}
use grpc_web_server.Utils.Utf8.{is_utf8}
use grpc_web_server.Utils.{
  Memory, until_nul, from_ptr, to_str, required_c_string, pointer_at, read_pointers, from_raw_parts,
  collect, collect_c_string_vector,
}

abbrev pub HasNoNul : Str → Type 0
HasNoNul [] = Unit {0}
HasNoNul (b ∷ s) = (b ≢ 0) × HasNoNul s

-- At a non-null pointer, memory holds a well-formed UTF-8 string and then its NUL.
abbrev pub IsCString : Memory → ℕ → Str → Type 0
IsCString mem ptr s =
    (ptr ≢ 0)
    × HasNoNul s
    × (is_utf8 [] s ≡ true)
    × (rest : List ℕ) × (drop ptr mem ≡ s ++ (0 ∷ rest))

until_nul-append : (s : Str) (rest : List ℕ) → HasNoNul s → until_nul (s ++ (0 ∷ rest)) ≡ some s
until_nul-append [] rest clean = refl
until_nul-append (b ∷ s) rest (b≢0, clean) =
    let tail = until_nul-append s rest clean in ground (arith, tail, b≢0)

until_nul-eq-some :
    (bytes : List ℕ) {s : Str}
    → until_nul bytes ≡ some s
    → HasNoNul s × (rest : List ℕ) × (bytes ≡ s ++ (0 ∷ rest))
until_nul-eq-some [] e = cc
until_nul-eq-some (b ∷ bytes) {s} e = elim (Bool-cases (b == 0)) [
  | inl nul ↦
      let s≡[] : s ≡ [] = ground (arith, e, nul) in
      simp (s≡[]) (tt, bytes, ap (λ x. x ∷ bytes) ((==_iff b 0).0 nul))
  | inr other ↦ elim (Option-cases (until_nul bytes)) [
    | inl missing ↦ ground (arith, e, other, missing)
    | inr (tail, found) ↦
        let s≡ : s ≡ b ∷ tail = ground (arith, e, other, found) in
        let (clean, rest, split) = until_nul-eq-some bytes found in
        simp (s≡) ((λ b≡0. ground (arith, other, b≡0), clean), rest, ap (λ x. b ∷ x) split)
  ]
]

module _ (mem : Memory) where
  from_ptr-eq-ok : (ptr : ℕ) {s : Str} → from_ptr mem ptr ≡ ok s → until_nul (drop ptr mem) ≡ some s
  unfolding from_ptr
  from_ptr-eq-ok ptr e = ground (arith, e)

  to_str-eq-ok : (t : Str) {s : Str} → to_str t ≡ ok s → (t ≡ s) × (is_utf8 [] s ≡ true)
  unfolding to_str
  to_str-eq-ok t e = elim (Bool-cases (is_utf8 [] t)) [
    | inl good ↦ (ground (arith, e, good), ground (arith, e, good))
    | inr bad ↦ ground (arith, e, bad)
  ]

  -- A required string is read exactly where memory holds one, and it is the one that memory holds.
  pub required_c_string-ok_iff :
      (ptr : ℕ) (s : Str) → (required_c_string mem ptr ≡ ok s) ↔ IsCString mem ptr s
  unfolding required_c_string from_ptr to_str
  required_c_string-ok_iff ptr s = (holds, reads)
    where
      holds : required_c_string mem ptr ≡ ok s → IsCString mem ptr s
      holds e = elim (Bool-cases (ptr == 0)) [
        | inl null ↦ ground (arith, e, null)
        | inr some_ptr ↦
            let body : (from_ptr mem ptr >>= to_str) ≡ ok s = ground (arith, e, some_ptr) in
            let (t, read, checked) = >>=-eq-ok (from_ptr mem ptr) to_str body in
            let (t≡s, good) = to_str-eq-ok t checked in
            let (clean, rest, split) =
              until_nul-eq-some (drop ptr mem) (from_ptr-eq-ok ptr (read ∙ ap ok t≡s)) in
            (λ ptr≡0. ground (arith, some_ptr, ptr≡0), clean, good, rest, split)
      ]

      reads : IsCString mem ptr s → required_c_string mem ptr ≡ ok s
      reads (ptr≢0, clean, good, rest, split) =
          let found = ap until_nul split ∙ until_nul-append s rest clean in
          ground (arith, ptr≢0, found, good)

  -- From an address on, memory holds one pointer for each string, and the string that it points to.
  abbrev pub Lays : ℕ → List Str → Type 0
  Lays address [] = Unit {0}
  Lays address (s ∷ ss) =
      (ptr : ℕ) × (pointer_at mem address ≡ some ptr) × IsCString mem ptr s × Lays (address + 8) ss

  -- An array of strings as C passes it: a pointer, which counts only for a non-zero count.
  abbrev pub IsStringArray : ℕ → ℕ → List Str → Type 0
  IsStringArray values count ss =
      (count ≡ length ss) × ((count ≡ 0) ⊎ ((values ≢ 0) × (values % 8 ≡ 0) × Lays values ss))

  collected-Lays :
      (address count : ℕ) (ptrs : List ℕ) {ss : List Str}
      → read_pointers mem address count ≡ some ptrs
      → collect (required_c_string mem) ptrs ≡ ok ss
      → (count ≡ length ss) × Lays address ss
  unfolding read_pointers collect
  collected-Lays address zero ptrs {ss} reads strings =
      let none_read : ptrs ≡ [] = ground (arith, reads) in
      let none_left : ss ≡ [] = ground (arith, none_read, strings) in simp (none_left) (refl, tt)
  collected-Lays address (suc count) ptrs {ss} reads strings =
      elim (Option-cases (pointer_at mem address)) [
        | inl outside ↦ ground (arith, reads, outside)
        | inr (ptr, inside) ↦ elim (Option-cases (read_pointers mem (address + 8) count)) [
          | inl short ↦ ground (arith, reads, inside, short)
          | inr (more, rest) ↦
              let split : ptrs ≡ ptr ∷ more = ground (arith, reads, inside, rest) in
              let both : collect (required_c_string mem) (ptr ∷ more) ≡ ok ss =
                ap (collect (required_c_string mem)) (sym split) ∙ strings in
              let (s, first, tail) = >>=-eq-ok (required_c_string mem ptr) _ both in
              let (others, collected, end) =
                >>=-eq-ok (collect (required_c_string mem) more) _ tail in
              let (counted, laid) = collected-Lays (address + 8) count more rest collected in
              subst (λ l. (suc count ≡ length l) × Lays address l) (ok_inj end)
                (ap suc counted, (ptr, inside, (required_c_string-ok_iff ptr s).0 first, laid))
        ]
      ]

  from_raw_parts-eq-ok :
      (values count : ℕ) (ptrs : List ℕ)
      → from_raw_parts mem values count ≡ ok ptrs
      → (values % 8 ≡ 0) × (read_pointers mem values count ≡ some ptrs)
  unfolding from_raw_parts
  from_raw_parts-eq-ok values count ptrs e = elim (Bool-cases (values % 8 == 0)) [
    | inl aligned ↦ ((==_iff (values % 8) 0).0 aligned, ground (arith, e, aligned))
    | inr skewed ↦ ground (arith, e, skewed)
  ]

  Lays-collected :
      (address : ℕ) (ss : List Str)
      → Lays address ss
      → (ptrs : List ℕ) × (read_pointers mem address (length ss) ≡ some ptrs)
        × (collect (required_c_string mem) ptrs ≡ ok ss)
  unfolding read_pointers collect
  Lays-collected address [] laid = ([], refl, refl)
  Lays-collected address (s ∷ ss) (ptr, inside, held, laid) =
      let (ptrs, reads, strings) = Lays-collected (address + 8) ss laid in
      let first = (required_c_string-ok_iff ptr s).1 held in
      (ptr ∷ ptrs, ground (arith, inside, reads), ground (arith, first, strings))

  -- An array of strings is read exactly where memory holds one, in order, with as many strings as
  -- the count says.
  pub collect_c_string_vector-ok_iff :
      (values count : ℕ) (ss : List Str)
      → (collect_c_string_vector mem values count ≡ ok ss) ↔ IsStringArray values count ss
  unfolding collect_c_string_vector from_raw_parts
  collect_c_string_vector-ok_iff values count ss = (holds, reads)
    where
      holds : collect_c_string_vector mem values count ≡ ok ss → IsStringArray values count ss
      holds e = elim (Bool-cases (count == 0)) [
        | inl empty ↦
            let none_left : ss ≡ [] = ground (arith, e, empty) in
            let count≡0 = (==_iff count 0).0 empty in simp (none_left) (count≡0, inl count≡0)
        | inr full ↦ elim (Bool-cases (values == 0)) [
          | inl null ↦ ground (arith, e, full, null)
          | inr some_array ↦
              let body : (from_raw_parts mem values count >>= collect (required_c_string mem))
                  ≡ ok ss =
                ground (arith, e, full, some_array) in
              let (ptrs, parts, strings) = >>=-eq-ok (from_raw_parts mem values count) _ body in
              let (aligned, reads) = from_raw_parts-eq-ok values count ptrs parts in
              let (counted, laid) = collected-Lays values count ptrs reads strings in
              (counted, inr (λ null. ground (arith, some_array, null), aligned, laid))
        ]
      ]

      empty_array : count ≡ 0 → count ≡ length ss → collect_c_string_vector mem values count ≡ ok ss
      empty_array count≡0 counted =
          let none_left = length-eq-zero ss (sym counted ∙ count≡0) in
          ground (arith, none_left, count≡0)

      reads : IsStringArray values count ss → collect_c_string_vector mem values count ≡ ok ss
      reads (counted, inl count≡0) = empty_array count≡0 counted
      reads (counted, inr (values≢0, aligned, laid)) =
          let (ptrs, inside, strings) = Lays-collected values ss laid in
          let parts : read_pointers mem values count ≡ some ptrs =
            ap (read_pointers mem values) counted ∙ inside in
          elim (Bool-cases (count == 0)) [
            | inl empty ↦ empty_array ((==_iff count 0).0 empty) counted
            | inr full ↦ ground (arith, values≢0, aligned, parts, strings, full)
          ]
