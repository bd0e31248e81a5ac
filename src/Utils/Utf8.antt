-- ===== src/Utils/Utf8.antt =====
-- `str::from_utf8` of the standard library, which `CStr::to_str` in src/utils.rs calls: which byte
-- sequences are well-formed UTF-8.
use grpc_web_server.Base.{
  ℕ, Bool, true, false, ◌&&◌, Option, none, some, List, [], ◌∷◌, leb, ltb, if◌then◌else◌,
}

-- The ranges of the bytes that must follow a first byte.
abbrev pub continuation : ℕ × ℕ
continuation = (128, 191)

abbrev pub followers : ℕ → Option (List (ℕ × ℕ))
followers b =
    if ltb b 128
    then some []
    else if ltb b 194
    then none
    else if ltb b 224
    then some (continuation ∷ [])
    else if ltb b 225
    then some ((160, 191) ∷ continuation ∷ [])
    else if ltb b 237
    then some (continuation ∷ continuation ∷ [])
    else if ltb b 238
    then some ((128, 159) ∷ continuation ∷ [])
    else if ltb b 240
    then some (continuation ∷ continuation ∷ [])
    else if ltb b 241
    then some ((144, 191) ∷ continuation ∷ continuation ∷ [])
    else if ltb b 244
    then some (continuation ∷ continuation ∷ continuation ∷ [])
    else if ltb b 245
    then some ((128, 143) ∷ continuation ∷ continuation ∷ [])
    else none

-- Whether the bytes are well-formed, where the given ranges are still due.
unfoldable pub is_utf8 : List (ℕ × ℕ) → List ℕ → Bool
is_utf8 [] [] = true
is_utf8 (due ∷ more) [] = false
is_utf8 (due ∷ more) (b ∷ bytes) = leb due.0 b && (leb b due.1 && is_utf8 more bytes)
is_utf8 [] (b ∷ bytes) = elim (followers b) [ none ↦ false | some due ↦ is_utf8 due bytes ]
