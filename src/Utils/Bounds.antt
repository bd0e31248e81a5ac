-- ===== src/Utils/Bounds.antt =====
-- src/utils.rs: where in C memory an array of strings is read.
use grpc_web_server.Base.{
  ℕ, zero, suc, ◌+◌, ◌*◌, ◌^◌, ◌≤◌, ◌<◌, Str, ◌≡◌, ◌≢◌, ap, ◌∙◌, inl, inr, some, List, [], ◌∷◌,
  ◌++◌, length, length-append, drop, ok, arith,
}
use grpc_web_server.Utils.{Memory, first_word, pointer_at, collect_c_string_vector}
use grpc_web_server.Utils.Reads.{IsCString, Lays, collect_c_string_vector-ok_iff}

-- Every cell of memory is a byte.
abbrev pub AreBytes : Memory → Type 0
AreBytes [] = Unit {0}
AreBytes (b ∷ bytes) = (b < 256) × AreBytes bytes

-- From an address on, memory holds a pointer for each string, each of which fits in 64 bits and is not
-- null; there the string and its NUL are in memory.
abbrev pub AreInside : Memory → ℕ → List Str → Type 0
AreInside mem address [] = Unit {0}
AreInside mem address (s ∷ ss) =
    ((ptr : ℕ) × (pointer_at mem address ≡ some ptr)
      × (0 < ptr)
      × (ptr < 2 ^ 64)
      × (ptr + length s < length mem)
      × (rest : List ℕ) × (drop ptr mem ≡ s ++ (0 ∷ rest)))
    × AreInside mem (address + 8) ss

AreBytes-drop : (n : ℕ) (mem : Memory) → AreBytes mem → AreBytes (drop n mem)
AreBytes-drop zero mem bytes = bytes
AreBytes-drop (suc n) [] bytes = tt
AreBytes-drop (suc n) (b ∷ mem) bytes = AreBytes-drop n mem bytes.1

drop_room : (n : ℕ) (mem : Memory) → 0 < length (drop n mem) → n + length (drop n mem) ≡ length mem
drop_room zero mem room = omega arith
drop_room (suc n) [] room = absurd (omega (arith, room))
drop_room (suc n) (b ∷ mem) room = omega (arith, drop_room n mem room)

first_word-bounds :
    (bytes : List ℕ) (ptr : ℕ)
    → AreBytes bytes
    → first_word bytes ≡ some ptr
    → (ptr < 2 ^ 64) × (8 ≤ length bytes)
first_word-bounds (a ∷ b ∷ c ∷ d ∷ e ∷ f ∷ g ∷ h ∷ bytes) ptr small read =
    ground (arith, read, small)
first_word-bounds _ ptr small read = cc (read)

pointer_at-bounds :
    (mem : Memory) (a ptr : ℕ)
    → AreBytes mem
    → pointer_at mem a ≡ some ptr
    → (ptr < 2 ^ 64) × (a + 8 ≤ length mem)
pointer_at-bounds mem a ptr small e =
    let (fits, room) = first_word-bounds (drop a mem) ptr (AreBytes-drop a mem small) e in
    (fits, omega (arith, room, drop_room a mem (omega (arith, room))))

IsCString-bounds :
    (mem : Memory) (ptr : ℕ) (s : Str)
    → IsCString mem ptr s
    → (0 < ptr) × (ptr + length s < length mem)
IsCString-bounds mem ptr s (live, clean, good, rest, split) =
    let long = ap length split ∙ length-append s (0 ∷ rest) in
    (omega (arith, live), omega (arith, long, drop_room ptr mem (omega (arith, long))))

Lays-bounds :
    (mem : Memory) (a : ℕ) (ss : List Str)
    → AreBytes mem
    → Lays mem a ss
    → AreInside mem a ss × ((0 < length ss) → a + 8 * length ss ≤ length mem)
Lays-bounds mem a [] small laid = (tt, λ pos. omega (arith, pos))
Lays-bounds mem a (s ∷ ss) small (ptr, at, held, laid) =
    let (fits, room) = pointer_at-bounds mem a ptr small at in
    let (live, inside) = IsCString-bounds mem ptr s held in
    let (rest, end) = Lays-bounds mem (a + 8) ss small laid in
    (((ptr, at, live, fits, inside, held.3, held.4), rest), λ pos. ground (arith, room, end))

-- For a memory of bytes and a count that is not zero: where an array of strings has been read, the
-- array of pointers lies in memory at an address that is not null, and at each of its pointers, which
-- are not null and fit in 64 bits, the string of that place and its NUL lie in memory.
pub collect_c_string_vector-bounds :
    (mem : Memory) (values count : ℕ) (ss : List Str)
    → AreBytes mem
    → count ≢ 0
    → collect_c_string_vector mem values count ≡ ok ss
    → (0 < values) × (values + 8 * count ≤ length mem) × AreInside mem values ss
collect_c_string_vector-bounds mem values count ss small some_count e =
    let (counted, array) = (collect_c_string_vector-ok_iff mem values count ss).0 e in
    elim array [
      | inl empty ↦ absurd (some_count empty)
      | inr (live, aligned, laid) ↦
          let (inside, end) = Lays-bounds mem values ss small laid in
          (
            omega (arith, live),
            omega (arith, end (omega (arith, counted, some_count)), counted),
            inside,
          )
    ]
