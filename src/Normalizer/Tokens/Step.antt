-- ===== src/Normalizer/Tokens/Step.antt =====
-- The rounds of `_tokenize_shell_like` (src/core/input_normalizer.py): each one reads at least one
-- character, so the loop ends with nothing unread.
use honey_mind.Prelude.{
  ℕ, zero, suc, ◌≤◌, ◌<◌, Text, [], ◌∷◌, length, length-drop, some, none, Option, ◌≡◌, refl, arith,
}
use honey_mind.Normalizer.Tokens.{
  Scan, step, step_quoted, step_plain, step_operator, match_shell_operator, scan,
}

-- Every operator that the table can return has a character.
pub operator-pos : (value o : Text) → match_shell_operator value ≡ some o → 0 < length o
unfolding match_shell_operator
operator-pos value o h = ground arith

step_operator-rest :
    (m : Option Text) (c : ℕ) (v : Text) (s : Scan)
    → match_shell_operator (c ∷ v) ≡ m
    → length (step_operator m c v s).rest ≤ length v
unfolding step_operator
step_operator-rest none c v s h = omega arith
step_operator-rest (some o) c v s h =
    omega (arith, operator-pos (c ∷ v) o h, length-drop (length o) (c ∷ v))

pub step-rest : (q : Option ℕ) (c : ℕ) (v : Text) (s : Scan) → length (step q c v s).rest ≤ length v
unfolding step step_quoted step_plain
step-rest (some q) c [] s = omega arith
step-rest (some q) c (d ∷ v) s = ground arith
step-rest none c [] s = ground (arith, step_operator-rest _ c [] s refl)
step-rest none c (d ∷ v) s = ground (arith, step_operator-rest _ c (d ∷ v) s refl)

-- With fuel for every character the loop reads the whole text.
pub scan-rest :
    (fuel : ℕ) (v : Text) (s : Scan) → s.rest ≡ v → length v ≤ fuel → (scan fuel v s).rest ≡ []
unfolding scan
scan-rest zero [] s e h = e
scan-rest zero (c ∷ v) s e h = absurd (omega arith)
scan-rest (suc fuel) [] s e h = e
scan-rest (suc fuel) (c ∷ v) s e h =
    let s' = step s.quote c v s in
    scan-rest fuel s'.rest s' refl (omega (arith, step-rest s.quote c v s))
