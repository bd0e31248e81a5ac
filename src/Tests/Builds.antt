-- ===== src/Tests/Builds.antt =====
-- A build of the C headers over an old output directory.
use grpc_web_server.Base.{
  ℕ, Str, text, ◌≡◌, refl, Bool, true, false, if◌then◌else◌, Option, none, some, List, [], ok,
  arith, inl, inr, Bool-cases, subst,
}
use grpc_web_server.Paths.{join}
use grpc_web_server.Tls.{same}
use grpc_web_server.Tls.Names.{same_eq, same_refl, same-false}
use grpc_web_server.Headers.{Tree, Cbindgen, below, main}
use grpc_web_server.Headers.Output.{IsTree, Writes, IsBuilt, main-IsBuilt}

-- Bindings are texts: the source and then the namespaces.
abbrev generator : Cbindgen
generator = record {
  Braces = Bool;
  Language = ℕ;
  DocumentationStyle = ℕ;
  Rest = Unit {0};
  Bindings = Str × Option (List Str);
  next_line = true;
  language_c = 2;
  documentation_c = 1;
  default_config = record {
    pragma_once = false;
    braces = false;
    language = 0;
    line_length = 100;
    documentation_style = 0;
    cpp_compat = false;
    namespaces = none;
    rest = tt;
  };
  generate = λ source config. ok (source, config.namespaces);
  write_to_file = λ b path t.
      (ok true, record t { files = λ other. if same other path then some b.0 else t.files other });
}

generator-Writes : Writes generator
generator-Writes = record {
  text_of = λ b. b.0;
  written = λ b path t t' changed e. let r = same_refl path in ground (arith, e, r);
  others = λ b path t t' changed e other away.
      let r = same-false other path away in ground (arith, e, r);
}

abbrev old_header : Str
old_header = text "/app/gen/include/old.h"

-- An output directory in which a header is left that is generated no longer.
abbrev old : Tree
old = record {
  files = λ path. if same path old_header then some [] else none;
  directories = λ path. below path old_header;
  removal_faults = λ path. none;
  creation_faults = λ path. none;
}

old-IsTree : IsTree old
old-IsTree dir path absent inside = elim (Bool-cases (same path old_header)) [
  | inl here ↦
      let one = same_eq path old_header here in
      let there : below dir old_header ≡ true = subst (λ p. below dir p ≡ true) one inside in
      ground (arith, absent, there)
  | inr away ↦ ground (arith, away)
]

built : Tree
unfolding main text
built = (main generator (some (text "/app")) old).1

main-IsBuilt_example :
    (manifest_dir : Str) × (some (text "/app") ≡ some manifest_dir)
    × IsBuilt generator generator-Writes manifest_dir old built
unfolding main text built
main-IsBuilt_example =
    main-IsBuilt generator generator-Writes (some (text "/app")) old built old-IsTree refl

-- The old header is gone.
old_header_gone : built.files old_header ≡ none
unfolding main text built join
old_header_gone = refl
