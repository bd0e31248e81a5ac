-- ===== src/Tls/Prefixes.antt =====
-- src/tls/leaf.rs: leaves written to one directory under two prefixes.
use grpc_web_server.Base.{Str, ◌≡◌, ap, ◌∙◌, true, some, ok}
use grpc_web_server.Tls.{Rcgen, Disk, write_leaf}
use grpc_web_server.Tls.Names.{
  cert_file, key_file, is_plain, AreSeparate, AreSeparate-kept, ArePrefixes, pair_apart,
  files_apart,
}
use grpc_web_server.Tls.Files.{HasPair, write_leaf-HasPair}

-- The files of a prefix hold a certificate and a key.
abbrev pub Holds : Disk → Str → Str → Str → Str → Type 0
Holds d dir prefix cert key =
    (d.contents (d.locate (cert_file dir prefix)) ≡ some cert)
    × (d.contents (d.locate (key_file dir prefix)) ≡ some key)

pub HasPair-Holds :
    (d d' : Disk) (dir prefix cert key : Str)
    → HasPair d d' (cert_file dir prefix) cert (key_file dir prefix) key
    → Holds d' dir prefix cert key
HasPair-Holds d d' dir prefix cert key (c, k, others, same) = (
  ap (λ f. d'.contents (f (cert_file dir prefix))) same ∙ c,
  ap (λ f. d'.contents (f (key_file dir prefix))) same ∙ k,
)

-- A pair that is written under another prefix leaves the files of a prefix as they are.
pub Holds-kept :
    (d d' : Disk) (dir a b cert key cert' key' : Str)
    → AreSeparate d dir
    → is_plain a ≡ true
    → is_plain b ≡ true
    → ArePrefixes a b
    → HasPair d d' (cert_file dir b) cert' (key_file dir b) key'
    → Holds d dir a cert key
    → Holds d' dir a cert key
Holds-kept d d' dir a b cert key cert' key' apart plain plain' other (c, k, others, same)
      (held, held') =
    let (cc', ck, kc, kk) = files_apart d dir apart a b plain plain' other in
    (
      ap (λ f. d'.contents (f (cert_file dir a))) same ∙ others _ cc' ck ∙ held,
      ap (λ f. d'.contents (f (key_file dir a))) same ∙ others _ kc kk ∙ held',
    )

module _ (rcgen : Rcgen) where
  -- The files of a prefix hold a leaf.
  abbrev pub HoldsLeaf : Disk → Str → Str → rcgen.Certificate × rcgen.KeyPair → Type 0
  HoldsLeaf d dir prefix leaf =
      Holds d dir prefix (rcgen.certificate_pem leaf.0) (rcgen.serialize_pem leaf.1)

  -- In a directory in which different names that end in ".pem" are different files, after two leaves
  -- have been written under prefixes without a slash, neither of which is the other or the other with
  -- "-key" after it, the four files hold both leaves.
  pub two_leaves_kept :
      (dir a b : Str) (first second : rcgen.Certificate × rcgen.KeyPair) (d d1 d2 : Disk)
      → AreSeparate d dir
      → is_plain a ≡ true
      → is_plain b ≡ true
      → ArePrefixes a b
      → write_leaf rcgen dir a first d ≡ (ok tt, d1)
      → write_leaf rcgen dir b second d1 ≡ (ok tt, d2)
      → HoldsLeaf d2 dir a first × HoldsLeaf d2 dir b second
  two_leaves_kept dir a b first second d d1 d2 apart plain plain' other e e' =
      let one = write_leaf-HasPair rcgen dir a first d d1 (pair_apart d dir apart a plain) e in
      let apart1 = AreSeparate-kept d d1 dir one.3 apart in
      let two =
        write_leaf-HasPair rcgen dir b second d1 d2 (pair_apart d1 dir apart1 b plain') e' in
      (
        Holds-kept d1 d2 dir a b _ _ _ _ apart1 plain plain' other two
            (HasPair-Holds d d1 dir a _ _ one),
        HasPair-Holds d1 d2 dir b _ _ two,
      )
