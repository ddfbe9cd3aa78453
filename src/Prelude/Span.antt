-- ===== src/Prelude/Span.antt =====
-- The longest prefix of one class of characters, and what follows it.
use Prim.Native.Nat.{ℕ}
use mathlib.Core.Path.{◌≡◌, refl}
use mathlib.Core.Bool.{Bool, true, false}
use mathlib.Core.List.{[], ◌∷◌, ◌++◌}
use native.Mathlib.Omega.{arith}
use honey_mind.Prelude.Texts.{Text}

unfoldable pub span : (ℕ → Bool) → Text → Text × Text
span p [] = ([], [])
span p (c ∷ s) =
    let (here, rest) = span p s in elim (p c) [ true ↦ (c ∷ here, rest) | false ↦ ([], c ∷ s) ]

pub span-append : (p : ℕ → Bool) (s : Text) → (span p s).0 ++ (span p s).1 ≡ s
unfolding span
span-append p [] = refl
span-append p (c ∷ s) = ground (arith, span-append p s)
