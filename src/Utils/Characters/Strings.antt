-- ===== src/Utils/Characters/Strings.antt =====
-- The strings that `required_c_string` of src/utils.rs reads, as characters.
use grpc_web_server.Base.{ℕ, Str, ◌≡◌, ◌≢◌, ◌↔◌, List, ◌∷◌, ◌++◌, drop, ok}
use grpc_web_server.Utils.{Memory, required_c_string}
use grpc_web_server.Utils.Reads.{HasNoNul, required_c_string-ok_iff}
use grpc_web_server.Utils.Characters.{Decodes}
use grpc_web_server.Utils.Characters.Encoding.{is_utf8_iff}

-- A required string is read exactly if the pointer is not null and memory holds there the UTF-8
-- encoding of some Unicode characters, without a NUL, and then a NUL; the string is that encoding.
pub required_c_string-Decodes :
    (mem : Memory) (ptr : ℕ) (s : Str)
    → (required_c_string mem ptr ≡ ok s)
      ↔ ((ptr ≢ 0) × HasNoNul s × Decodes s × (rest : List ℕ) × (drop ptr mem ≡ s ++ (0 ∷ rest)))
required_c_string-Decodes mem ptr s = (
  λ e.
      let (live, clean, good, rest, split) = (required_c_string-ok_iff mem ptr s).0 e in
      (live, clean, (is_utf8_iff s).0 good, rest, split),
  λ (live, clean, text, rest, split).
      (required_c_string-ok_iff mem ptr s).1 (live, clean, (is_utf8_iff s).1 text, rest, split),
)
