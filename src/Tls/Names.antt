-- ===== src/Tls/Names.antt =====
-- src/tls/ca.rs and src/tls/leaf.rs: the paths of the PEM files, and which of them are different files.
use grpc_web_server.Base.{
  Str, text, ◌≡◌, ◌≢◌, refl, sym, ap, ◌∙◌, inl, inr, true, false, Bool, not, ◌&&◌, ◌++◌, [], ◌∷◌,
  arith, Bool-cases, ==_iff, ◌==◌, length, length-append, append_assoc,
}
use grpc_web_server.Paths.{join}
use grpc_web_server.Tls.{Disk, same}

-- The files of a prefix.
abbrev pub cert_file : Str → Str → Str
cert_file dir prefix = join dir (prefix ++ text ".pem")

abbrev pub key_file : Str → Str → Str
key_file dir prefix = join dir (prefix ++ text "-key.pem")

pub same_refl : (s : Str) → same s s ≡ true
same_refl [] = refl
same_refl (b ∷ s) = let rest = same_refl s in ground (arith, rest)

pub same_eq : (s t : Str) → same s t ≡ true → s ≡ t
same_eq [] [] e = refl
same_eq [] (c ∷ t) e = cc (e)
same_eq (b ∷ s) [] e = cc (e)
same_eq (b ∷ s) (c ∷ t) e = elim (Bool-cases (b == c)) [
  | inl one ↦
      ap (λ x. x ∷ s) ((==_iff b c).0 one) ∙ ap (λ l. c ∷ l) (same_eq s t (ground (arith, e, one)))
  | inr other ↦ ground (arith, e, other)
]

pub same-false : (s t : Str) → s ≢ t → same s t ≡ false
same-false s t s≢t = elim (Bool-cases (same s t)) [
  | inl one ↦ elim (s≢t (same_eq s t one)) [ ]
  | inr other ↦ other
]

pub append_inj_right : (xs ys zs : Str) → xs ++ zs ≡ ys ++ zs → xs ≡ ys
append_inj_right [] [] zs e = refl
append_inj_right [] (y ∷ ys) zs e =
    let lengths = ap length e in absurd (omega (arith, lengths, length-append ys zs))
append_inj_right (x ∷ xs) [] zs e =
    let lengths = ap length e in absurd (omega (arith, lengths, length-append xs zs))
append_inj_right (x ∷ xs) (y ∷ ys) zs e =
    let heads : x ≡ y = cc (e) in
    ap (λ c. c ∷ xs) heads ∙ ap (λ l. y ∷ l) (append_inj_right xs ys zs (cc (e)))

-- A name of one component: no path through other directories.
abbrev pub is_plain : Str → Bool
is_plain [] = true
is_plain (c ∷ name) = not (c == b'/') && is_plain name

pub is_plain-append : (a b : Str) → is_plain a ≡ true → is_plain b ≡ true → is_plain (a ++ b) ≡ true
is_plain-append [] b plain plain' = plain'
is_plain-append (c ∷ a) b plain plain' =
    let rest = is_plain-append a b (ground (arith, plain)) plain' in ground (arith, plain, rest)

-- In a directory, different names that end in ".pem" lead to different files: the file system tells
-- letters of either case apart, and no such name is a link to the file of another.
abbrev pub AreSeparate : Disk → Str → Type 0
AreSeparate d dir =
    (a b : Str)
    → is_plain a ≡ true
    → is_plain b ≡ true
    → a ≢ b
    → d.locate (cert_file dir a) ≢ d.locate (cert_file dir b)

-- The key file of a prefix is the certificate file of the prefix with "-key" after it.
key_file-eq : (dir a : Str) → key_file dir a ≡ cert_file dir (a ++ text "-key")
unfolding text
key_file-eq dir a = ap (join dir) (sym (append_assoc a (text "-key") (text ".pem")))

pub AreSeparate-kept :
    (d d' : Disk) (dir : Str) → d'.locate ≡ d.locate → AreSeparate d dir → AreSeparate d' dir
AreSeparate-kept d d' dir same apart a b plain plain' a≢b e =
    apart a b plain plain' a≢b
      (sym (ap (λ f. f (cert_file dir a)) same) ∙ e ∙ ap (λ f. f (cert_file dir b)) same)

-- Files of different prefixes: neither is the other, or the other with "-key" after it.
abbrev pub ArePrefixes : Str → Str → Type 0
ArePrefixes a b = (a ≢ b) × (a ≢ b ++ text "-key") × (a ++ text "-key" ≢ b)

-- Two given prefixes, by a test.
pub prefixes_differ :
    (a b : Str)
    → same a b ≡ false
    → same a (b ++ text "-key") ≡ false
    → same (a ++ text "-key") b ≡ false
    → ArePrefixes a b
prefixes_differ a b x y z = (
  λ e. let yes = ap (λ s. same s b) e ∙ same_refl b in cc (x, yes),
  λ e.
      let yes = ap (λ s. same s (b ++ text "-key")) e ∙ same_refl (b ++ text "-key") in cc (y, yes),
  λ e. let yes = ap (λ s. same s b) e ∙ same_refl b in cc (z, yes),
)

longer : (a : Str) → a ≢ a ++ text "-key"
unfolding text
longer a e = let lengths = ap length e in omega (arith, lengths, length-append a (text "-key"))

module _ (d : Disk) (dir : Str) (apart : AreSeparate d dir) where
  key_plain : (a : Str) → is_plain a ≡ true → is_plain (a ++ text "-key") ≡ true
  unfolding text
  key_plain a plain = is_plain-append a (text "-key") plain refl

  pub pair_apart :
      (a : Str) → is_plain a ≡ true → d.locate (cert_file dir a) ≢ d.locate (key_file dir a)
  pair_apart a plain e =
      apart a (a ++ text "-key") plain (key_plain a plain) (longer a)
        (e ∙ ap d.locate (key_file-eq dir a))

  -- The two files of a prefix are neither of the two of another.
  pub files_apart :
      (a b : Str)
      → is_plain a ≡ true
      → is_plain b ≡ true
      → ArePrefixes a b
      → (d.locate (cert_file dir a) ≢ d.locate (cert_file dir b))
        × (d.locate (cert_file dir a) ≢ d.locate (key_file dir b))
        × (d.locate (key_file dir a) ≢ d.locate (cert_file dir b))
        × (d.locate (key_file dir a) ≢ d.locate (key_file dir b))
  files_apart a b plain plain' (a≢b, a≢bkey, akey≢b) =
      let ka = ap d.locate (key_file-eq dir a) in
      let kb = ap d.locate (key_file-eq dir b) in
      (
        λ e. apart a b plain plain' a≢b e,
        λ e. apart a (b ++ text "-key") plain (key_plain b plain') a≢bkey (e ∙ kb),
        λ e. apart (a ++ text "-key") b (key_plain a plain) plain' akey≢b (sym ka ∙ e),
        λ e.
            apart (a ++ text "-key") (b ++ text "-key") (key_plain a plain) (key_plain b plain')
              (λ same. a≢b (append_inj_right a b (text "-key") same)) (sym ka ∙ e ∙ kb),
      )
