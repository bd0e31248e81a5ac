-- ===== src/Headers/Output.antt =====
-- src/build.rs: what a build that succeeds leaves in the output directory.
use grpc_web_server.Base.{
  List, [], ◌∷◌, ◌++◌, length, length-append, Str, text, ◌≡◌, ◌≢◌, refl, ap, ◌∙◌, subst, Bool, true,
  false, if◌then◌else◌, Option, none, some, Outcome, ok, err, panic, undefined, arith, inl, inr,
  Bool-cases, Option-cases,
}
use grpc_web_server.Paths.{needs_separator, join}
use grpc_web_server.Headers.{
  Tree, Cbindgen, below, then_do, exists, remove_dir_all, create_dir_all, out_dir, clear,
  CbindgenConfig, write_header, build, main,
}

-- A directory that does not exist has nothing in it.
abbrev pub IsTree : Tree → Type 0
IsTree t = (dir path : Str) → exists t dir ≡ false → below dir path ≡ true → t.files path ≡ none

-- What cbindgen documents of `write_to_file`: when it returns, the file holds the bindings as a text,
-- and it has written no other file.
pub record Writes (cbindgen : Cbindgen) : Type 0 where
  pub text_of : cbindgen.Bindings → Str
  pub written :
      (b : cbindgen.Bindings) (path : Str) (t t' : Tree) (changed : Bool)
      → cbindgen.write_to_file b path t ≡ (ok changed, t')
      → t'.files path ≡ some (text_of b)
  pub others :
      (b : cbindgen.Bindings) (path : Str) (t t' : Tree) (changed : Bool)
      → cbindgen.write_to_file b path t ≡ (ok changed, t')
      → (other : Str) → other ≢ path
      → t'.files other ≡ t.files other

-- The output directory, and the headers in it.
abbrev pub include_dir : Str → Str
include_dir manifest_dir = manifest_dir ++ text "/gen/include"

abbrev pub server_header : Str → Str
server_header manifest_dir = join (include_dir manifest_dir) (text "server.h")

abbrev pub tls_header : Str → Str
tls_header manifest_dir = join (include_dir manifest_dir) (text "tls.h")

then_do-eq-ok :
    {A B : Type 0} (r : Outcome Str A × Tree) (rest : A → Tree → Outcome Str B × Tree) {b : B}
    {t' : Tree}
    → then_do r rest ≡ (ok b, t')
    → (a : A) × (t : Tree) × (r ≡ (ok a, t)) × (rest a t ≡ (ok b, t'))
then_do-eq-ok (ok a, t) rest e = (a, t, refl, e)
then_do-eq-ok (err x, t) rest e = cc (e)
then_do-eq-ok (panic, t) rest e = cc (e)
then_do-eq-ok (undefined, t) rest e = cc (e)

headers_differ : (manifest_dir : Str) → server_header manifest_dir ≢ tls_header manifest_dir
unfolding text join
headers_differ manifest_dir e =
    let dir = include_dir manifest_dir in
    let lengths = ap length e in
    let long = length-append dir (text "/server.h") in
    let short = length-append dir (text "/tls.h") in
    let long' = length-append dir (text "server.h") in
    let short' = length-append dir (text "tls.h") in
    elim (Bool-cases (needs_separator dir)) [
      | inl sep ↦ ground (arith, lengths, sep, long, short)
      | inr plain ↦ ground (arith, lengths, plain, long', short')
    ]

remove_dir_all-files :
    (dir : Str) (t t' : Tree)
    → remove_dir_all dir t ≡ (ok tt, t')
    → (path : Str) → t'.files path ≡ (if below dir path then none else t.files path)
unfolding remove_dir_all
remove_dir_all-files dir t t' e path = elim (Option-cases (t.removal_faults dir)) [
  | inl fine ↦ ground (arith, e, fine)
  | inr (fault, fails) ↦ ground (arith, e, fails)
]

clear-files :
    (dir : Str) (t t' : Tree)
    → IsTree t
    → clear dir t ≡ (ok tt, t')
    → (path : Str) → t'.files path ≡ (if below dir path then none else t.files path)
unfolding clear
clear-files dir t t' tree e path = elim (Bool-cases (exists t dir)) [
  | inl there ↦ remove_dir_all-files dir t t' (ground (arith, e, there)) path
  | inr absent ↦ elim (Bool-cases (below dir path)) [
    | inl inside ↦ ground (arith, e, absent, inside, tree dir path absent inside)
    | inr outside ↦ ground (arith, e, absent, outside)
  ]
]

create_dir_all-files :
    (dir : Str) (t t' : Tree)
    → create_dir_all dir t ≡ (ok tt, t')
    → (path : Str) → t'.files path ≡ t.files path
unfolding create_dir_all
create_dir_all-files dir t t' e path = elim (Option-cases (t.creation_faults dir)) [
  | inl fine ↦ ground (arith, e, fine)
  | inr (message, fails) ↦ ground (arith, e, fails)
]

module _ (cbindgen : Cbindgen) (writes : Writes cbindgen) where
  write_header-written :
      (generated : Outcome Str cbindgen.Bindings) (path : Str) (t t' : Tree) (changed : Bool)
      → write_header cbindgen generated path t ≡ (ok changed, t')
      → (b : cbindgen.Bindings) × (generated ≡ ok b)
        × (t'.files path ≡ some (writes.text_of b))
        × ((other : Str) → other ≢ path → t'.files other ≡ t.files other)
  unfolding write_header
  write_header-written (ok b) path t t' changed e =
      (b, refl, writes.written b path t t' changed e, writes.others b path t t' changed e)
  write_header-written (err x) path t t' changed e = cc (e)
  write_header-written panic path t t' changed e = cc (e)
  write_header-written undefined path t t' changed e = cc (e)

  -- C headers for C++ too, with the include guard as a pragma, braces on their own lines, lines of 120
  -- columns and comments in the style of C.
  abbrev pub settings :
      List Str
      → CbindgenConfig cbindgen.Braces cbindgen.Language cbindgen.DocumentationStyle cbindgen.Rest
  settings namespaces = record {
    pragma_once = true;
    braces = cbindgen.next_line;
    language = cbindgen.language_c;
    line_length = 120;
    documentation_style = cbindgen.documentation_c;
    cpp_compat = true;
    namespaces = some namespaces;
    rest = cbindgen.default_config.rest;
  }

  -- What a build leaves: the two headers, with the bindings generated from the two modules, and no
  -- other file in the output directory; outside of it the files are as they were.
  pub record IsBuilt (manifest_dir : Str) (t t' : Tree) : Type 0 where
    pub server : cbindgen.Bindings
    pub tls : cbindgen.Bindings
    pub server_generated :
        cbindgen.generate
          (join manifest_dir (text "src/server/mod.rs"))
          (settings (text "grpc_web" ∷ text "server" ∷ []))
        ≡ ok server
    pub tls_generated :
        cbindgen.generate
          (join manifest_dir (text "src/tls/mod.rs"))
          (settings (text "grpc_web" ∷ text "tls" ∷ []))
        ≡ ok tls
    pub server_written : t'.files (server_header manifest_dir) ≡ some (writes.text_of server)
    pub tls_written : t'.files (tls_header manifest_dir) ≡ some (writes.text_of tls)
    pub no_other :
        (path : Str)
        → path ≢ server_header manifest_dir
        → path ≢ tls_header manifest_dir
        → below (include_dir manifest_dir) path ≡ true
        → t'.files path ≡ none
    pub kept :
        (path : Str)
        → path ≢ server_header manifest_dir
        → path ≢ tls_header manifest_dir
        → below (include_dir manifest_dir) path ≡ false
        → t'.files path ≡ t.files path

  build-IsBuilt :
      (manifest_dir : Str) (t t' : Tree)
      → IsTree t
      → build cbindgen manifest_dir t ≡ (ok tt, t')
      → IsBuilt manifest_dir t t'
  unfolding build
  build-IsBuilt manifest_dir t t' tree e =
      let (x, t1, cleared, e1) = then_do-eq-ok (clear (out_dir manifest_dir) t) _ e in
      let (y, t2, created, e2) = then_do-eq-ok (create_dir_all (out_dir manifest_dir) t1) _ e1 in
      let (z, t3, first, e3) =
        then_do-eq-ok (write_header cbindgen _ (server_header manifest_dir) t2) _ e2 in
      let (v, t4, second, e4) =
        then_do-eq-ok (write_header cbindgen _ (tls_header manifest_dir) t3) _ e3 in
      let (server, made, held, rest) = write_header-written _ _ t2 t3 z first in
      let (tls, made', held', rest') = write_header-written _ _ t3 t4 v second in
      let same : t4 ≡ t' = ap (λ r. r.1) e4 in
      let empty : (path : Str)
          → t2.files path ≡ (if below (out_dir manifest_dir) path then none else t.files path) =
        λ path. create_dir_all-files _ t1 t2 created path ∙ clear-files _ t t1 tree cleared path in
      let through : (path : Str)
          → path ≢ server_header manifest_dir
          → path ≢ tls_header manifest_dir
          → t4.files path ≡ (if below (out_dir manifest_dir) path then none else t.files path) =
        λ path p q. rest' path q ∙ rest path p ∙ empty path in
      subst (λ after. IsBuilt manifest_dir t after) same
        (record {
          server = server;
          tls = tls;
          server_generated = made;
          tls_generated = made';
          server_written = rest' (server_header manifest_dir) (headers_differ manifest_dir) ∙ held;
          tls_written = held';
          no_other = λ path p q inside.
              through path p q ∙ ap (λ b. if b then none else t.files path) inside;
          kept = λ path p q outside.
              through path p q ∙ ap (λ b. if b then none else t.files path) outside;
        })

  -- If no directory that does not exist has files in it, and cbindgen writes the bindings to the given
  -- file and to no other, then a build that succeeds was given its directory, and leaves in gen/include
  -- server.h with the bindings generated from src/server/mod.rs and tls.h with those from
  -- src/tls/mod.rs, each with its namespaces; whatever else was in that directory is gone, and the
  -- files outside of it are as they were.
  pub main-IsBuilt :
      (env : Option Str) (t t' : Tree)
      → IsTree t
      → main cbindgen env t ≡ (ok tt, t')
      → (manifest_dir : Str) × (env ≡ some manifest_dir) × IsBuilt manifest_dir t t'
  unfolding main
  main-IsBuilt none t t' tree e = cc (e)
  main-IsBuilt (some manifest_dir) t t' tree e =
      (manifest_dir, refl, build-IsBuilt manifest_dir t t' tree e)
