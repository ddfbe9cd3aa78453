-- ===== src/Normalizer/Tokens/NonEmpty.antt =====
-- No round of `_tokenize_shell_like` (src/core/input_normalizer.py) finishes an empty token.
use mathlib.Core.List.{cons-ne-nil}
use honey_mind.Prelude.{
  ℕ, zero, suc, ◌<◌, Text, List, [], ◌∷◌, length, some, none, Option, ◌≡◌, refl, arith, inl, inr,
  Bool-cases, is_space, ◌==◌, All, All-append, ◌≢◌, ◌||◌,
}
use honey_mind.Normalizer.Tokens.{
  Scan, step, step_quoted, step_backslash, step_plain, step_operator, match_shell_operator, scan,
  tokenize_shell_like, start, flush_token, backslash, double_quote, single_quote,
}
use honey_mind.Normalizer.Tokens.Step.{operator-pos}

-- the tokens that are finished hold no empty one
abbrev NoneEmpty : List Text → Type 0
NoneEmpty = All (λ t. t ≢ [])

flush_token-NoneEmpty : (ts : List Text) (t : Text) → NoneEmpty ts → NoneEmpty (flush_token ts t)
unfolding flush_token
flush_token-NoneEmpty ts [] h = h
flush_token-NoneEmpty ts (c ∷ t) h = All-append _ ts _ h (cons-ne-nil c t, tt)

ne_of_pos : (o : Text) → 0 < length o → o ≢ []
ne_of_pos [] h = absurd (omega arith)
ne_of_pos (c ∷ o) h = cons-ne-nil c o

step_operator-NoneEmpty :
    (m : Option Text) (c : ℕ) (v : Text) (s : Scan)
    → match_shell_operator (c ∷ v) ≡ m
    → NoneEmpty s.tokens
    → NoneEmpty (step_operator m c v s).tokens
unfolding step_operator
step_operator-NoneEmpty none c v s e h = h
step_operator-NoneEmpty (some o) c v s e h =
    All-append _ (flush_token s.tokens s.token) _ (flush_token-NoneEmpty s.tokens s.token h)
      (ne_of_pos o (operator-pos (c ∷ v) o e), tt)

step_backslash-tokens : (v : Text) (s : Scan) → (step_backslash v s).tokens ≡ s.tokens
unfolding step_backslash
step_backslash-tokens [] s = refl
step_backslash-tokens (d ∷ v) s = refl

step_quoted-tokens : (q c : ℕ) (v : Text) (s : Scan) → (step_quoted q c v s).tokens ≡ s.tokens
unfolding step_quoted
step_quoted-tokens q c [] s = refl
step_quoted-tokens q c (d ∷ v) s = ground arith

step_plain-NoneEmpty :
    (c : ℕ) (v : Text) (s : Scan) → NoneEmpty s.tokens → NoneEmpty (step_plain c v s).tokens
unfolding step_plain
step_plain-NoneEmpty c v s h = elim (Bool-cases ((c == single_quote) || (c == double_quote))) [
  | inl q ↦ rw q h
  | inr q ↦ rw q (elim (Bool-cases (c == backslash)) [
    | inl b ↦ rw (b, step_backslash-tokens) h
    | inr b ↦ rw b (elim (Bool-cases (is_space c)) [
      | inl w ↦ rw w (flush_token-NoneEmpty s.tokens s.token h)
      | inr w ↦ rw w (step_operator-NoneEmpty _ c v s refl h)
    ])
  ])
]

step-NoneEmpty :
    (q : Option ℕ) (c : ℕ) (v : Text) (s : Scan)
    → NoneEmpty s.tokens
    → NoneEmpty (step q c v s).tokens
unfolding step
step-NoneEmpty (some q) c v s h = rw step_quoted-tokens h
step-NoneEmpty none c v s h = step_plain-NoneEmpty c v s h

scan-NoneEmpty :
    (fuel : ℕ) (v : Text) (s : Scan) → NoneEmpty s.tokens → NoneEmpty (scan fuel v s).tokens
unfolding scan
scan-NoneEmpty zero v s h = h
scan-NoneEmpty (suc fuel) [] s h = h
scan-NoneEmpty (suc fuel) (c ∷ v) s h =
    let s' = step s.quote c v s in scan-NoneEmpty fuel s'.rest s' (step-NoneEmpty s.quote c v s h)

-- No token of a command is empty, whatever the input.
pub tokenize_shell_like-NoneEmpty : (value : Text) → All (λ t. t ≢ []) (tokenize_shell_like value)
unfolding tokenize_shell_like
tokenize_shell_like-NoneEmpty value =
    let s = scan (length value) value (start value) in
    flush_token-NoneEmpty s.tokens s.token (scan-NoneEmpty (length value) value (start value) tt)
