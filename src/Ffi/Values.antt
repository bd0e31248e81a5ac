-- ===== src/Ffi/Values.antt =====
-- src/server/ffi.rs: what the conversion of one C option, or of one list of them, yields.
use grpc_web_server.Base.{
  ℕ, Str, ◌≡◌, refl, sym, ap, ◌∙◌, ◌↔◌, inl, inr, Bool, true, false, Option, none, some, List, [],
  ◌∷◌, Outcome, ok, ◌>>=◌, map_err-eq-ok, ◌==◌, if◌then◌else◌, arith, Bool-cases, >>=-eq-ok, ==_iff,
}
use grpc_web_server.Utils.{Memory, required_c_string, collect, collect_c_string_vector}
use grpc_web_server.Utils.Reads.{
  IsCString, IsStringArray, required_c_string-ok_iff, collect_c_string_vector-ok_iff,
}
use grpc_web_server.Ffi.{parse_value, unless_any, optional_string, parse_list}

-- The values are those of the strings, in order.
abbrev pub AreParsed : {A : Type 0} → (Str → Outcome Str A) → List Str → List A → Type 0
AreParsed parse [] [] = Unit {0}
AreParsed parse (s ∷ ss) (v ∷ vs) = (parse s ≡ ok v) × AreParsed parse ss vs
AreParsed parse ss vs = ⊥

module _ (mem : Memory) where
  -- A null pointer stands for no string.
  abbrev pub IsOptional : ℕ → Option Str → Type 0
  IsOptional ptr none = ptr ≡ 0
  IsOptional ptr (some s) = IsCString mem ptr s

  -- A list setting: memory holds the strings, each parses, and they are kept unless the wildcard
  -- is set.
  abbrev pub IsListSetting :
      {A : Type 0} → (Str → Outcome Str A) → ℕ → ℕ → Bool → Option (List A) → Type 0
  IsListSetting {A} parse values count any setting =
      (ss : List Str) × (vs : List A) × IsStringArray mem values count ss
      × AreParsed parse ss vs
      × (setting ≡ (if any then none else some vs))

  pub optional_string-ok_iff :
      (ptr : ℕ) (field : Option Str) → (optional_string mem ptr ≡ ok field) ↔ IsOptional ptr field
  unfolding optional_string
  optional_string-ok_iff ptr none = (
    λ e. elim (Bool-cases (ptr == 0)) [
      | inl null ↦ (==_iff ptr 0).0 null
      | inr some_ptr ↦
          let body : (required_c_string mem ptr >>= (λ t. ok (some t))) ≡ ok none =
            ground (arith, e, some_ptr) in
          let (t, read, end) = >>=-eq-ok (required_c_string mem ptr) _ body in cc (end)
    ],
    λ null. ground (arith, null),
  )
  optional_string-ok_iff ptr (some s) = (
    λ e. elim (Bool-cases (ptr == 0)) [
      | inl null ↦ ground (arith, e, null)
      | inr some_ptr ↦
          let body : (required_c_string mem ptr >>= (λ t. ok (some t))) ≡ ok (some s) =
            ground (arith, e, some_ptr) in
          let (t, read, end) = >>=-eq-ok (required_c_string mem ptr) _ body in
          let t≡s : t ≡ s = cc (end) in (required_c_string-ok_iff mem ptr s).0 (read ∙ ap ok t≡s)
    ],
    λ held.
        let read = (required_c_string-ok_iff mem ptr s).1 held in
        let ptr≢0 = held.0 in ground (arith, read, ptr≢0),
  )

  collect-AreParsed :
      {A : Type 0} (kind : Str) (parse : Str → Outcome Str A) (ss : List Str) (vs : List A)
      → (collect (parse_value kind parse) ss ≡ ok vs) ↔ AreParsed parse ss vs
  unfolding collect
  collect-AreParsed kind parse [] [] = (λ e. tt, λ p. refl)
  collect-AreParsed kind parse [] (v ∷ vs) = (λ e. cc (e), λ p. elim p [ ])
  collect-AreParsed kind parse (s ∷ ss) [] = (
    λ e.
        let (v, first, tail) = >>=-eq-ok (parse_value kind parse s) _ e in
        let (vs, others, end) = >>=-eq-ok (collect (parse_value kind parse) ss) _ tail in cc (end),
    λ p. elim p [ ],
  )
  collect-AreParsed kind parse (s ∷ ss) (v ∷ vs) = (
    λ e.
        let (u, first, tail) = >>=-eq-ok (parse_value kind parse s) _ e in
        let (us, others, end) = >>=-eq-ok (collect (parse_value kind parse) ss) _ tail in
        let u≡v : u ≡ v = cc (end) in
        let us≡vs : us ≡ vs = cc (end) in
        (
          (map_err-eq-ok _ (parse s)).0 (first ∙ ap ok u≡v),
          (collect-AreParsed kind parse ss vs).0 (others ∙ ap ok us≡vs),
        ),
    λ (parsed, rest).
        let first : parse_value kind parse s ≡ ok v = (map_err-eq-ok _ (parse s)).1 parsed in
        let others = (collect-AreParsed kind parse ss vs).1 rest in ground (arith, first, others),
  )

  unless_any-eq :
      {A : Type 0} (any : Bool) (vs : List A) → unless_any any vs ≡ (if any then none else some vs)
  unless_any-eq true vs = refl
  unless_any-eq false [] = refl
  unless_any-eq false (v ∷ vs) = refl

  pub parse_list-IsListSetting :
      {A : Type 0} (kind : Str) (parse : Str → Outcome Str A) (values count : ℕ) (any : Bool)
      (vs : List A)
      → parse_list mem kind parse values count ≡ ok vs
      → IsListSetting parse values count any (unless_any any vs)
  unfolding parse_list
  parse_list-IsListSetting kind parse values count any vs e =
      let (ss, strings, parsed) = >>=-eq-ok (collect_c_string_vector mem values count) _ e in
      (
        ss,
        vs,
        (collect_c_string_vector-ok_iff mem values count ss).0 strings,
        (collect-AreParsed kind parse ss vs).0 parsed,
        unless_any-eq any vs,
      )

  pub IsListSetting-parse_list :
      {A : Type 0} (kind : Str) (parse : Str → Outcome Str A) (values count : ℕ) (any : Bool)
      (setting : Option (List A))
      → IsListSetting parse values count any setting
      → (vs : List A) × (parse_list mem kind parse values count ≡ ok vs)
        × (unless_any any vs ≡ setting)
  unfolding parse_list
  IsListSetting-parse_list kind parse values count any setting (ss, vs, held, parsed, same) =
      let strings = (collect_c_string_vector-ok_iff mem values count ss).1 held in
      let collected = (collect-AreParsed kind parse ss vs).1 parsed in
      (vs, ground (arith, strings, collected), unless_any-eq any vs ∙ sym same)
