-- ===== src/Utils.antt =====
-- src/utils.rs: C strings and arrays of C strings, read from the memory of the caller.
--
-- Memory is the list of its bytes from address 0 on, and a pointer is an address; null is 0. A
-- pointer in memory takes eight bytes, the lowest first. What Rust's unsafe reads leave undefined
-- (bytes outside memory, no NUL, an array that is not aligned) is the outcome `undefined`.
pub mod Utf8
pub mod Reads
pub mod Bounds
pub mod Characters
use grpc_web_server.Base.{
  ℕ, zero, suc, ◌+◌, ◌*◌, ◌%◌, Str, text, Bool, Option, none, some, List, [], ◌∷◌, drop, Outcome,
  ok, err, panic, undefined, ◌>>=◌, ◌==◌, if◌then◌else◌,
}
use grpc_web_server.Utils.Utf8.{is_utf8}

abbrev pub Memory : Type 0
Memory = List ℕ

-- `Box<dyn Error>` in the conversions: a message, or the error of `CStr::to_str`.
pub data Problem : Type 0 where
  message : Str → Problem
  utf8_error : Problem

-- The bytes before the first NUL.
abbrev pub until_nul : List ℕ → Option Str
until_nul [] = none
until_nul (b ∷ bytes) =
    let rest = until_nul bytes in
    if b == 0 then some [] else elim rest [ none ↦ none | some s ↦ some (b ∷ s) ]

-- `CStr::from_ptr`
pub from_ptr : Memory → ℕ → Outcome Problem Str
from_ptr mem ptr = elim (until_nul (drop ptr mem)) [ none ↦ undefined | some s ↦ ok s ]

-- `CStr::to_str`
pub to_str : Str → Outcome Problem Str
unfolding is_utf8
to_str s = if is_utf8 [] s then ok s else err utf8_error

unfoldable pub required_c_string : Memory → ℕ → Outcome Problem Str
unfolding from_ptr to_str is_utf8
required_c_string mem ptr =
    if ptr == 0
    then err (message (text "string must be defined"))
    else (do s ← from_ptr mem ptr; to_str s)

-- The pointer that the first eight bytes hold.
abbrev pub first_word : List ℕ → Option ℕ
first_word (a ∷ b ∷ c ∷ d ∷ e ∷ f ∷ g ∷ h ∷ bytes) =
    some (a + 256 * (b + 256 * (c + 256 * (d + 256 * (e + 256 * (f + 256 * (g + 256 * h)))))))
first_word _ = none

abbrev pub pointer_at : Memory → ℕ → Option ℕ
pointer_at mem address = first_word (drop address mem)

-- The elements of `slice::from_raw_parts(values, count)`.
pub read_pointers : Memory → ℕ → ℕ → Option (List ℕ)
read_pointers mem address zero = some []
read_pointers mem address (suc count) =
    let rest = read_pointers mem (address + 8) count in
    elim (pointer_at mem address) [
      | none ↦ none
      | some ptr ↦ elim rest [ none ↦ none | some ptrs ↦ some (ptr ∷ ptrs) ]
    ]

-- `slice::from_raw_parts`
pub from_raw_parts : Memory → ℕ → ℕ → Outcome Problem (List ℕ)
unfolding read_pointers
from_raw_parts mem values count =
    if values % 8 == 0
    then elim (read_pointers mem values count) [ none ↦ undefined | some ptrs ↦ ok ptrs ]
    else undefined

-- `iter().map(f).collect::<Result<Vec<_>, _>>()`: up to the first error.
unfoldable pub collect : {A B E : Type 0} → (A → Outcome E B) → List A → Outcome E (List B)
collect f [] = ok []
collect f (x ∷ xs) = do y ← f x; ys ← collect f xs; ok (y ∷ ys)

unfoldable pub collect_c_string_vector : Memory → ℕ → ℕ → Outcome Problem (List Str)
unfolding required_c_string from_raw_parts collect
collect_c_string_vector mem values count =
    if count == 0
    then ok []
    else if values == 0
    then err (message (text "values must be defined when count is non-zero"))
    else (do ptrs ← from_raw_parts mem values count; collect (required_c_string mem) ptrs)
