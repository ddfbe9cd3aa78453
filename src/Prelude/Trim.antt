-- ===== src/Prelude/Trim.antt =====
-- Laws of `str.strip`: the result begins and ends outside the class, and such a text stays.
use Prim.Native.Nat.{ℕ}
use mathlib.Core.Path.{◌≡◌, refl, ap, ◌∙◌}
use mathlib.Core.Logic.{◌⊎◌, inl, inr}
use mathlib.Core.Bool.{Bool, false}
use mathlib.Core.List.{cons-ne-nil, [], ◌∷◌, ◌++◌}
use native.Mathlib.Omega.{arith}
use honey_mind.Prelude.Tests.{Bool-cases}
use honey_mind.Prelude.Texts.{Text, is_space}
use honey_mind.Prelude.Strip.{drop_while, rstrip_cons, rstrip_by, strip_by, strip}

module _ (p : ℕ → Bool) where
  -- the first, and the last, character is there and outside the class
  abbrev pub BeginsSolid : Text → Type 0
  BeginsSolid [] = ⊥
  BeginsSolid (c ∷ s) = p c ≡ false

  abbrev pub EndsSolid : Text → Type 0
  EndsSolid [] = ⊥
  EndsSolid (c ∷ []) = p c ≡ false
  EndsSolid (c ∷ d ∷ s) = EndsSolid (d ∷ s)

  pub EndsSolid-cons : (c : ℕ) (s : Text) → EndsSolid s → EndsSolid (c ∷ s)
  EndsSolid-cons c [] h = absurd h
  EndsSolid-cons c (d ∷ s) h = h

  pub EndsSolid-append : (s t : Text) → EndsSolid t → EndsSolid (s ++ t)
  EndsSolid-append [] t h = h
  EndsSolid-append (c ∷ s) t h = EndsSolid-cons c (s ++ t) (EndsSolid-append s t h)

  pub drop_while_solid : (s : Text) → BeginsSolid s → drop_while p s ≡ s
  unfolding drop_while
  drop_while_solid [] h = absurd h
  drop_while_solid (c ∷ s) h = rw (h, drop_while)

  pub rstrip_by_solid : (s : Text) → EndsSolid s → rstrip_by p s ≡ s
  unfolding rstrip_by
  rstrip_by_solid [] h = refl
  rstrip_by_solid (c ∷ []) h = ground arith
  rstrip_by_solid (c ∷ d ∷ s) h = rw (rstrip_by_solid (d ∷ s) h)

  pub strip_by_solid : (s : Text) → BeginsSolid s → EndsSolid s → strip_by p s ≡ s
  unfolding strip_by
  strip_by_solid s b e = ap (rstrip_by p) (drop_while_solid s b) ∙ rstrip_by_solid s e

  drop_while-cases : (s : Text) → (drop_while p s ≡ []) ⊎ BeginsSolid (drop_while p s)
  unfolding drop_while
  drop_while-cases [] = inl refl
  drop_while-cases (c ∷ s) = elim (Bool-cases (p c)) [
    | inl h ↦ rw (h, drop_while) (drop_while-cases s)
    | inr h ↦ inr (rw (h, drop_while) h)
  ]

  rstrip_cons-begins : (c : ℕ) (r : Text) → p c ≡ false → BeginsSolid (rstrip_cons p c r)
  unfolding rstrip_cons
  rstrip_cons-begins c [] h = rw (h, rstrip_cons) h
  rstrip_cons-begins c (d ∷ r) h = h

  rstrip_by-begins : (s : Text) → BeginsSolid s → BeginsSolid (rstrip_by p s)
  unfolding rstrip_by
  rstrip_by-begins [] h = absurd h
  rstrip_by-begins (c ∷ s) h = rstrip_cons-begins c (rstrip_by p s) h

  rstrip_cons-ends :
      (c : ℕ) (r : Text)
      → (r ≡ []) ⊎ EndsSolid r
      → (rstrip_cons p c r ≡ []) ⊎ EndsSolid (rstrip_cons p c r)
  unfolding rstrip_cons
  rstrip_cons-ends c [] _ = elim (Bool-cases (p c)) [
    | inl h ↦ inl (rw (h, rstrip_cons))
    | inr h ↦ inr (rw (h, rstrip_cons) h)
  ]
  rstrip_cons-ends c (d ∷ r) (inl e) = absurd (cons-ne-nil d r e)
  rstrip_cons-ends c (d ∷ r) (inr h) = inr h

  rstrip_by-ends : (s : Text) → (rstrip_by p s ≡ []) ⊎ EndsSolid (rstrip_by p s)
  unfolding rstrip_by
  rstrip_by-ends [] = inl refl
  rstrip_by-ends (c ∷ s) = rstrip_cons-ends c (rstrip_by p s) (rstrip_by-ends s)

  -- A stripped text is empty, or begins and ends outside the class.
  pub strip_by-cases :
      (s : Text) → (strip_by p s ≡ []) ⊎ (BeginsSolid (strip_by p s) × EndsSolid (strip_by p s))
  unfolding strip_by
  strip_by-cases s = elim (drop_while-cases s) [
    | inl e ↦ inl (unfold rstrip_by in rw e)
    | inr b ↦ elim (rstrip_by-ends (drop_while p s)) [
      | inl e ↦ inl e
      | inr h ↦ inr (rstrip_by-begins (drop_while p s) b, h)
    ]
  ]

pub strip_solid : (s : Text) → BeginsSolid is_space s → EndsSolid is_space s → strip s ≡ s
unfolding strip
strip_solid s b e = strip_by_solid is_space s b e

pub strip-cases :
    (s : Text) → (strip s ≡ []) ⊎ (BeginsSolid is_space (strip s) × EndsSolid is_space (strip s))
unfolding strip
strip-cases s = strip_by-cases is_space s

pub strip-nil : strip [] ≡ []
unfolding strip
strip-nil = refl
