-- ===== src/Headers.antt =====
-- src/build.rs: the build script, which writes the C headers of the library.
--
-- cbindgen is a record of types and operations. The file system is the files and the directories by
-- their paths, which are canonical (CARGO_MANIFEST_DIR is, and the output directory is no link), and
-- says which removals and which creations fail, among them those of a directory where a file stands.
pub mod Output
use grpc_web_server.Base.{
  ℕ, Str, text, Bool, false, true, not, ◌&&◌, ◌||◌, ◌==◌, if◌then◌else◌, ◌++◌, Option, none, some,
  is_some, List, [], ◌∷◌, Outcome, ok, err, panic, undefined,
}
use grpc_web_server.Paths.{join}
use grpc_web_server.Proxy.{expect}
use grpc_web_server.Tls.{same}

pub record Tree : Type 0 where
  pub files : Str → Option Str
  pub directories : Str → Bool
  pub removal_faults :
      Str
      → Option
          record { message : Str; left_files : Str → Option Str; left_directories : Str → Bool }
  pub creation_faults : Str → Option Str

-- Whether the second path is inside the first.
abbrev pub below : Str → Str → Bool
below [] [] = false
below [] (c ∷ path) = c == b'/'
below (b ∷ dir) [] = false
below (b ∷ dir) (c ∷ path) = (b == c) && below dir path

-- The fields of `cbindgen::Config` that the code assigns; `rest` stands for the others.
pub record CbindgenConfig (Braces Language DocumentationStyle Rest : Type 0) : Type 0 where
  pub pragma_once : Bool
  pub braces : Braces
  pub language : Language
  pub line_length : ℕ
  pub documentation_style : DocumentationStyle
  pub cpp_compat : Bool
  pub namespaces : Option (List Str)
  pub rest : Rest

pub record Cbindgen : Type 1 where
  pub Braces : Type 0
  pub Language : Type 0
  pub DocumentationStyle : Type 0
  pub Rest : Type 0
  pub Bindings : Type 0
  -- `Braces::NextLine`, `Language::C`, `DocumentationStyle::C`
  pub next_line : Braces
  pub language_c : Language
  pub documentation_c : DocumentationStyle
  pub default_config : CbindgenConfig Braces Language DocumentationStyle Rest
  -- `Builder::new().with_src(source).with_config(config).generate()`
  pub generate : Str → CbindgenConfig Braces Language DocumentationStyle Rest → Outcome Str Bindings
  pub write_to_file : Bindings → Str → Tree → Outcome Str Bool × Tree

-- What a call returned, and the file system after it; a failure ends the script.
abbrev pub then_do :
    {A B : Type 0} → Outcome Str A × Tree → (A → Tree → Outcome Str B × Tree) → Outcome Str B × Tree
then_do (ok a, t) rest = rest a t
then_do (err e, t) rest = (err e, t)
then_do (panic, t) rest = (panic, t)
then_do (undefined, t) rest = (undefined, t)

-- `Path::exists`
abbrev pub exists : Tree → Str → Bool
exists t path = t.directories path || is_some (t.files path)

-- `fs::remove_dir_all`
unfoldable pub remove_dir_all : Str → Tree → Outcome Str (Unit {0}) × Tree
remove_dir_all path t = elim (t.removal_faults path) [
  | none ↦ (
    ok tt,
    record t {
      files = λ other. if below path other then none else t.files other;
      directories = λ other. not (same other path || below path other) && t.directories other;
    },
  )
  | some fault ↦ (
    err fault.message,
    record t { files = fault.left_files; directories = fault.left_directories },
  )
]

-- `fs::create_dir_all`
unfoldable pub create_dir_all : Str → Tree → Outcome Str (Unit {0}) × Tree
create_dir_all path t = elim (t.creation_faults path) [
  | none ↦ (
    ok tt,
    record t {
      directories = λ other. same other path || (below other path || t.directories other);
    },
  )
  | some message ↦ (err message, t)
]

-- `format!("{}/gen/include", manifest_dir)`
abbrev pub out_dir : Str → Str
out_dir manifest_dir = manifest_dir ++ text "/gen/include"

-- `if out_dir.exists() { remove_dir_all(out_dir)?; }`
unfoldable pub clear : Str → Tree → Outcome Str (Unit {0}) × Tree
unfolding remove_dir_all
clear path t = if exists t path then remove_dir_all path t else (ok tt, t)

module _ (cbindgen : Cbindgen) where
  -- The configuration of both headers, with the namespaces of one.
  abbrev pub header_config :
      List Str
      → CbindgenConfig cbindgen.Braces cbindgen.Language cbindgen.DocumentationStyle cbindgen.Rest
  header_config namespaces = record cbindgen.default_config {
    pragma_once = true;
    braces = cbindgen.next_line;
    language = cbindgen.language_c;
    line_length = 120;
    documentation_style = cbindgen.documentation_c;
    cpp_compat = true;
    namespaces = some namespaces;
  }

  abbrev pub server_bindings : Str → Outcome Str cbindgen.Bindings
  server_bindings manifest_dir =
      cbindgen.generate (join manifest_dir (text "src/server/mod.rs"))
        (header_config (text "grpc_web" ∷ text "server" ∷ []))

  abbrev pub tls_bindings : Str → Outcome Str cbindgen.Bindings
  tls_bindings manifest_dir =
      cbindgen.generate (join manifest_dir (text "src/tls/mod.rs"))
        (header_config (text "grpc_web" ∷ text "tls" ∷ []))

  -- `generated.expect(..).write_to_file(path)`
  unfoldable pub write_header : Outcome Str cbindgen.Bindings → Str → Tree → Outcome Str Bool × Tree
  write_header generated path t =
      then_do (expect generated, t) λ bindings t. cbindgen.write_to_file bindings path t

  -- `main` from the first use of the file system on.
  unfoldable pub build : Str → Tree → Outcome Str (Unit {0}) × Tree
  unfolding clear create_dir_all write_header
  build manifest_dir t =
      let out = out_dir manifest_dir in
      then_do (clear out t) λ _ t. then_do (create_dir_all out t) λ _ t.
        then_do (write_header (server_bindings manifest_dir) (join out (text "server.h")) t) λ _ t.
          then_do (write_header (tls_bindings manifest_dir) (join out (text "tls.h")) t)
            λ _ t. (ok tt, t)

  -- `main`, for the value of `CARGO_MANIFEST_DIR`.
  unfoldable pub main : Option Str → Tree → Outcome Str (Unit {0}) × Tree
  unfolding build
  main none t = (panic, t)
  main (some manifest_dir) t = build manifest_dir t
