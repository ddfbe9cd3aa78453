-- ===== src/FakeFs/Paths/Canonical.antt =====
-- What `normalize_path` (src/infra/fake_fs/commands.py) returns: an absolute path with no empty,
-- `.` or `..` part, and it leaves such a path as it is.
use honey_mind.Prelude.{
  Text, codes, eqb, eqb_iff, split, split_from, join, strip_char, starts_with, keep, false, not,
  Bool-cases, All, All-append, ◌||◌, List, [], ◌∷◌, ◌++◌, append_assoc, append-nil, ◌≡◌, refl,
  arith, sym, ap, ◌∙◌, inl, inr,
}
use honey_mind.FakeFs.Paths.{
  slash, root, pop, walk, walk_part, components, base_of, absolute, normalize_path,
}
use honey_mind.FakeFs.Paths.Split.{NoSlash, IsPart, split_from-NoSlash, split-join, strip-absolute}

-- a name of a file or folder
abbrev pub IsName : Text → Type 0
IsName p =
    (eqb p [] ≡ false) × (eqb p (codes ".") ≡ false) × (eqb p (codes "..") ≡ false) × NoSlash p

-- an absolute path whose parts are names
pub record IsCanonical (path : Text) : Type 0 where
  pub parts : List Text
  pub named : All IsName parts
  pub spelled : path ≡ absolute parts

IsName-IsPart : (p : Text) → IsName p → IsPart p
IsName-IsPart p (ne, _, _, h) = (λ e. cc ((eqb_iff p []).1 e), h)

All-IsPart : (ps : List Text) → All IsName ps → All IsPart ps
All-IsPart [] h = tt
All-IsPart (p ∷ ps) (hp, hs) = (IsName-IsPart p hp, All-IsPart ps hs)

All-NoSlash : (ps : List Text) → All IsPart ps → All NoSlash ps
All-NoSlash [] h = tt
All-NoSlash (p ∷ ps) ((_, hp), hs) = (hp, All-NoSlash ps hs)

pop-IsName : (ps : List Text) → All IsName ps → All IsName (pop ps)
unfolding pop
pop-IsName [] h = tt
pop-IsName (p ∷ []) h = tt
pop-IsName (p ∷ q ∷ ps) (hp, hs) = (hp, pop-IsName (q ∷ ps) hs)

walk_part-IsName :
    (base : List Text) (part : Text)
    → NoSlash part
    → All IsName base
    → All IsName (walk_part base part)
unfolding walk_part
walk_part-IsName base part clean h = elim (Bool-cases (eqb part [] || eqb part (codes "."))) [
  | inl e ↦ rw e h
  | inr e ↦ rw e (elim (Bool-cases (eqb part (codes ".."))) [
    | inl u ↦ rw u (pop-IsName base h)
    | inr u ↦
        rw u (All-append IsName base (part ∷ []) h ((ground arith, ground arith, u, clean), tt))
  ])
]

walk-IsName :
    (base parts : List Text) → All NoSlash parts → All IsName base → All IsName (walk base parts)
unfolding walk
walk-IsName base [] clean h = h
walk-IsName base (part ∷ parts) (c, clean) h =
    walk-IsName (walk_part base part) parts clean (walk_part-IsName base part c h)

walk_part-name : (base : List Text) (p : Text) → IsName p → walk_part base p ≡ base ++ p ∷ []
unfolding walk_part
walk_part-name base p (a, b, c, _) = rw (a, b, c)

walk-names : (base parts : List Text) → All IsName parts → walk base parts ≡ base ++ parts
unfolding walk
walk-names base [] h = sym (append-nil base)
walk-names base (p ∷ ps) (hp, hs) =
    rw (walk_part-name base p hp)
      (walk-names (base ++ p ∷ []) ps hs ∙ append_assoc base (p ∷ []) ps)

-- The parts of an absolute path of names are these names; the root has one empty part.
split-absolute :
    (p : Text) (ps : List Text)
    → All IsName (p ∷ ps)
    → split slash (strip_char slash (absolute (p ∷ ps))) ≡ p ∷ ps
unfolding split absolute
split-absolute p ps (hp, hs) =
    let parts = All-IsPart ps hs in
    ap (λ t. split_from slash t []) (strip-absolute p ps (IsName-IsPart p hp) parts)
    ∙ split-join p ps (IsName-IsPart p hp).1 (All-NoSlash ps parts)

split-root : split slash (strip_char slash (absolute [])) ≡ [] ∷ []
unfolding split split_from strip_char absolute join
split-root = refl

keep-names : (ps : List Text) → All IsName ps → keep (λ p. not (eqb p [])) ps ≡ ps
keep-names [] h = refl
keep-names (p ∷ ps) ((ne, a, b, c), hs) = rw ne (ap (◌∷◌ p) (keep-names ps hs))

pub components-absolute : (ps : List Text) → All IsName ps → components (absolute ps) ≡ ps
unfolding components
components-absolute [] h = rw split-root (unfold eqb in refl)
components-absolute (p ∷ ps) h = rw (split-absolute p ps h) (keep-names (p ∷ ps) h)

base_of-IsName : (path cwd : Text) → IsCanonical cwd → All IsName (base_of path cwd)
unfolding base_of
base_of-IsName path cwd c = elim (Bool-cases (starts_with path root)) [
  | inl e ↦ rw e tt
  | inr e ↦ rw (e, c.spelled, components-absolute c.parts c.named) c.named
]

-- From a canonical working directory every path, whatever dots and slashes it holds, is normalised
-- to an absolute path of names: it cannot leave the root.
pub normalize_path-IsCanonical :
    (path cwd : Text) → IsCanonical cwd → IsCanonical (normalize_path path cwd)
unfolding normalize_path
normalize_path-IsCanonical path cwd c = record {
  parts = walk (base_of path cwd) (split slash (strip_char slash path));
  named =
      walk-IsName (base_of path cwd) (split slash (strip_char slash path))
        (unfold split in split_from-NoSlash (strip_char slash path) [] tt)
        (base_of-IsName path cwd c);
  spelled = refl;
}

base_of-absolute : (ps : List Text) (cwd : Text) → base_of (absolute ps) cwd ≡ []
unfolding base_of absolute starts_with
base_of-absolute ps cwd = refl

normalize_absolute :
    (ps : List Text) (cwd : Text) → All IsName ps → normalize_path (absolute ps) cwd ≡ absolute ps
unfolding normalize_path
normalize_absolute [] cwd h = rw (base_of-absolute, split-root) (unfold walk walk_part eqb in refl)
normalize_absolute (p ∷ ps) cwd h =
    rw (base_of-absolute, split-absolute p ps h) (ap absolute (walk-names [] (p ∷ ps) h))

-- A canonical path is normalised to itself, from every working directory.
pub normalize_path-canonical : (path cwd : Text) → IsCanonical path → normalize_path path cwd ≡ path
normalize_path-canonical path cwd c = rw c.spelled (normalize_absolute c.parts cwd c.named)
