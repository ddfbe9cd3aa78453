-- ===== src/Normalizer/Tokens/Content.antt =====
-- What the tokens of a command hold: all of its characters but white space, in order.
use honey_mind.Prelude.{
  ℕ, zero, suc, Text, List, [], ◌∷◌, ◌++◌, append_assoc, append-nil, length, drop, concat,
  starts_with, first_of?, some, none, Option, ◌≡◌, refl, arith, inl, inr, Bool-cases, is_space,
  true, if◌then◌else◌, sym, ◌∙◌, ap, ◌==◌, Bool, ◌&&◌, ◌||◌, ==_iff,
}
use honey_mind.Normalizer.Tokens.{
  Scan, step, step_quoted, step_backslash, step_plain, step_operator, match_shell_operator, scan,
  tokenize_shell_like, start, flush_token, backslash, double_quote, single_quote, shell_operators,
}
use honey_mind.Normalizer.Tokens.Step.{scan-rest}

-- a text without its white space
unfoldable pub squeeze : Text → Text
squeeze [] = []
squeeze (c ∷ s) = let rest = squeeze s in if is_space c then rest else c ∷ rest

pub squeeze-append : (s t : Text) → squeeze (s ++ t) ≡ squeeze s ++ squeeze t
unfolding squeeze
squeeze-append [] t = refl
squeeze-append (c ∷ s) t = ground (arith, squeeze-append s t)

concat-append : (xs ys : List Text) → concat (xs ++ ys) ≡ concat xs ++ concat ys
concat-append [] ys = refl
concat-append (x ∷ xs) ys = simp (concat-append xs ys, append_assoc)

concat-flush_token : (ts : List Text) (t : Text) → concat (flush_token ts t) ≡ concat ts ++ t
unfolding flush_token
concat-flush_token ts [] = sym (append-nil _)
concat-flush_token ts (c ∷ t) = simp (concat-append, append-nil)

-- An operator is read from the text: the text is the operator and what the loop goes on with.
operator-prefix : (value o : Text) → starts_with value o ≡ true → o ++ drop (length o) value ≡ value
unfolding starts_with
operator-prefix value [] h = refl
operator-prefix [] (d ∷ o) h = cc
operator-prefix (c ∷ value) (d ∷ o) h = ground (arith, operator-prefix value o)

first_of?-holds {ℓ} :
    {A : Type ℓ} (p : A → Bool) (xs : List A) (o : A) → first_of? p xs ≡ some o → p o ≡ true
first_of?-holds p [] o h = cc
first_of?-holds p (x ∷ xs) o h = ground (arith, first_of?-holds p xs o)

pub match-prefix :
    (value o : Text) → match_shell_operator value ≡ some o → o ++ drop (length o) value ≡ value
unfolding match_shell_operator
match-prefix value o h =
    operator-prefix value o (first_of?-holds (starts_with value) shell_operators o h)

-- everything that the loop has read and has still to read
abbrev held : Scan → Text
held s = concat s.tokens ++ (s.token ++ s.rest)

ruleset regroup = (concat-append, concat-flush_token, append_assoc, append-nil)

step_operator-held :
    (m : Option Text) (c : ℕ) (v : Text) (s : Scan)
    → match_shell_operator (c ∷ v) ≡ m
    → s.rest ≡ c ∷ v
    → held (step_operator m c v s) ≡ held s
unfolding step_operator
step_operator-held none c v s h e = rw e (simp regroup)
step_operator-held (some o) c v s h e =
    rw e (simp regroup (ap (λ t. concat s.tokens ++ (s.token ++ t)) (match-prefix (c ∷ v) o h)))

step_backslash-held :
    (v : Text) (s : Scan) → s.rest ≡ backslash ∷ v → held (step_backslash v s) ≡ held s
unfolding step_backslash
step_backslash-held [] s e = rw e (simp regroup)
step_backslash-held (d ∷ v) s e = rw e (simp regroup)

step_quoted-held :
    (q c : ℕ) (v : Text) (s : Scan) → s.rest ≡ c ∷ v → held (step_quoted q c v s) ≡ held s
unfolding step_quoted
step_quoted-held q c [] s e = rw e (simp regroup)
step_quoted-held q c (d ∷ v) s e = elim (Bool-cases ((c == backslash) && (q == double_quote))) [
  | inl h ↦ rw (h, e) (simp regroup)
  | inr h ↦ rw (h, e) (simp regroup)
]

squeeze-space : (c : ℕ) (v : Text) → is_space c ≡ true → squeeze (c ∷ v) ≡ squeeze v
unfolding squeeze
squeeze-space c v h = rw h

step_plain-seen :
    (c : ℕ) (v : Text) (s : Scan)
    → s.rest ≡ c ∷ v
    → squeeze (held (step_plain c v s)) ≡ squeeze (held s)
unfolding step_plain squeeze
step_plain-seen c v s e = elim (Bool-cases ((c == single_quote) || (c == double_quote))) [
  | inl h ↦ rw (h, e) (simp regroup)
  | inr h ↦ rw h (elim (Bool-cases (c == backslash)) [
    | inl b ↦
        rw (b)
          (ap squeeze (step_backslash-held v s (e ∙ ap (λ x. x ∷ v) ((==_iff c backslash).0 b))))
    | inr b ↦ rw b (elim (Bool-cases (is_space c)) [
      | inl w ↦ rw (w, e) (simp (regroup, squeeze-append, squeeze-space c v w))
      | inr w ↦ rw w (ap squeeze (step_operator-held _ c v s refl e))
    ])
  ])
]

step-seen :
    (q : Option ℕ) (c : ℕ) (v : Text) (s : Scan)
    → s.rest ≡ c ∷ v
    → squeeze (held (step q c v s)) ≡ squeeze (held s)
unfolding step
step-seen (some q) c v s e = ap squeeze (step_quoted-held q c v s e)
step-seen none c v s e = step_plain-seen c v s e

scan-seen :
    (fuel : ℕ) (v : Text) (s : Scan)
    → s.rest ≡ v
    → squeeze (held (scan fuel v s)) ≡ squeeze (held s)
unfolding scan
scan-seen zero v s e = refl
scan-seen (suc fuel) [] s e = refl
scan-seen (suc fuel) (c ∷ v) s e =
    let s' = step s.quote c v s in scan-seen fuel s'.rest s' refl ∙ step-seen s.quote c v s e

-- Tokenizing loses, adds and reorders nothing but white space: without it, the tokens spell the
-- input, for every input.
pub squeeze-tokenize_shell_like :
    (value : Text) → squeeze (concat (tokenize_shell_like value)) ≡ squeeze value
unfolding tokenize_shell_like
squeeze-tokenize_shell_like value =
    let s = scan (length value) value (start value) in
    let done = scan-rest (length value) value (start value) refl (omega arith) in
    concat_held s done ∙ scan-seen (length value) value (start value) refl
  where
    concat_held :
        (s : Scan)
        → s.rest ≡ []
        → squeeze (concat (flush_token s.tokens s.token)) ≡ squeeze (held s)
    concat_held s e = rw e (simp regroup)
