-- ===== src/Normalizer/Collapse.antt =====
-- `_collapse_unquoted_whitespace` of src/core/input_normalizer.py.
pub mod Emit
pub mod Idempotent
use honey_mind.Prelude.{
  ℕ, zero, suc, Text, codes, is_space, space, any_of, Bool, true, false, ◌||◌, ◌&&◌, not, List, [],
  ◌∷◌, ◌++◌, ◌==◌, if◌then◌else◌, Option, none, some, ◌≡◌, refl,
}

-- the variables of the loop
pub record Collapse : Type 0 where
  pub output : Text
  pub quote : Option ℕ
  pub pending_space : Bool

unfoldable pub non_empty : Text → Bool
non_empty [] = false
non_empty (c ∷ s) = true

-- `if pending_space and output: output.append(" ")`
unfoldable pub put_pending : Collapse → Text
put_pending s = if s.pending_space && non_empty s.output then s.output ++ space ∷ [] else s.output

-- one round of `for char in value`
unfoldable pub step : Text → Option ℕ → ℕ → Collapse → Collapse
step quote_chars (some q) c s = record s {
  output = s.output ++ c ∷ [];
  quote = if c == q then none else some q;
}
step quote_chars none c s =
    if any_of (λ q. c == q) quote_chars
    then record {
      output = put_pending s ++ c ∷ [];
      quote = some c;
      pending_space = s.pending_space && not (non_empty s.output);
    }
    else if is_space c
    then record s { pending_space = true }
    else record { output = put_pending s ++ c ∷ []; quote = none; pending_space = false }

unfoldable pub collapse_from : Text → Text → Collapse → Collapse
collapse_from quote_chars [] s = s
collapse_from quote_chars (c ∷ v) s = collapse_from quote_chars v (step quote_chars s.quote c s)

abbrev pub initial : Collapse
initial = record { output = []; quote = none; pending_space = false }

unfoldable pub collapse_unquoted_whitespace : Text → Text → Text
collapse_unquoted_whitespace quote_chars value =
    let s = collapse_from quote_chars value initial in s.output

program : Unit {0}
unfolding collapse_unquoted_whitespace collapse_from step put_pending non_empty is_space
program = tt

collapse_select :
    collapse_unquoted_whitespace (codes "'") (codes "select   'a  b'   x") ≡ codes "select 'a  b' x"
unfolding program
collapse_select = refl
