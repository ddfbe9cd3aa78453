-- ===== src/Normalizer/Collapse/Emit.antt =====
-- `_collapse_unquoted_whitespace` (src/core/input_normalizer.py) without its accumulator: what the
-- characters from here on append.
use honey_mind.Prelude.{
  ℕ, Text, is_space, space, any_of, Bool, true, false, Bool-cases, ◌&&◌, not, [], ◌∷◌, ◌++◌,
  append_assoc, append-nil, ◌==◌, if◌then◌else◌, Option, none, some, ◌≡◌, refl, sym, ◌∙◌, inl, inr,
}
use honey_mind.Normalizer.Collapse.{
  Collapse, put_pending, non_empty, step, collapse_from, initial, collapse_unquoted_whitespace,
}

-- the space that is due
unfoldable pub due : Bool → Bool → Text → Text
due p ne t = if p && ne then space ∷ t else t

unfoldable pub emit : Text → Option ℕ → Bool → Bool → Text → Text
emit qs q p ne [] = []
emit qs (some q) p ne (c ∷ s) = c ∷ emit qs (if c == q then none else some q) p true s
emit qs none p ne (c ∷ s) =
    let quoted = due p ne (c ∷ emit qs (some c) (p && not ne) true s) in
    let skipped = emit qs none true ne s in
    let plain = due p ne (c ∷ emit qs none false true s) in
    if any_of (λ q. c == q) qs then quoted else if is_space c then skipped else plain

-- `emit` outside a quotation, one equation for each kind of character
module _ (qs : Text) (p ne : Bool) (c : ℕ) (s : Text) where
  pub emit-quote :
      any_of (λ q. c == q) qs ≡ true
      → emit qs none p ne (c ∷ s) ≡ due p ne (c ∷ emit qs (some c) (p && not ne) true s)
  unfolding emit
  emit-quote h = rw h

  pub emit-space :
      any_of (λ q. c == q) qs ≡ false
      → is_space c ≡ true
      → emit qs none p ne (c ∷ s) ≡ emit qs none true ne s
  unfolding emit
  emit-space h w = rw (h, w)

  pub emit-plain :
      any_of (λ q. c == q) qs ≡ false
      → is_space c ≡ false
      → emit qs none p ne (c ∷ s) ≡ due p ne (c ∷ emit qs none false true s)
  unfolding emit
  emit-plain h w = rw (h, w)

-- and the equation inside one
pub emit-quoted :
    (qs : Text) (q : ℕ) (p ne : Bool) (c : ℕ) (s : Text)
    → emit qs (some q) p ne (c ∷ s) ≡ c ∷ emit qs (if c == q then none else some q) p true s
unfolding emit
emit-quoted qs q p ne c s = refl

put_pending-due :
    (st : Collapse) (t : Text)
    → put_pending st ++ t ≡ st.output ++ due st.pending_space (non_empty st.output) t
unfolding put_pending due
put_pending-due st t = elim (Bool-cases (st.pending_space && non_empty st.output)) [
  | inl h ↦ rw h (append_assoc st.output (space ∷ []) t)
  | inr h ↦ rw h
]

non_empty-concat : (s : Text) (c : ℕ) → non_empty (s ++ c ∷ []) ≡ true
unfolding non_empty
non_empty-concat [] c = refl
non_empty-concat (d ∷ s) c = refl

-- what a state has put out, with what the rest will add
abbrev outcome : Text → Option ℕ → Collapse → Text → Text
outcome qs q st s = st.output ++ emit qs q st.pending_space (non_empty st.output) s

append-put_pending :
    (st : Collapse) (c : ℕ) (t : Text)
    → (put_pending st ++ c ∷ []) ++ t
      ≡ st.output ++ due st.pending_space (non_empty st.output) (c ∷ t)
append-put_pending st c t = append_assoc (put_pending st) (c ∷ []) t ∙ put_pending-due st (c ∷ t)

step-outcome :
    (qs : Text) (q : Option ℕ) (c : ℕ) (s : Text) (st : Collapse)
    → st.quote ≡ q
    → outcome qs (step qs q c st).quote (step qs q c st) s ≡ outcome qs q st (c ∷ s)
unfolding emit step
step-outcome qs (some q) c s st e = rw non_empty-concat (append_assoc st.output (c ∷ []) _)
step-outcome qs none c s st e = elim (Bool-cases (any_of (λ q. c == q) qs)) [
  | inl h ↦ rw (h, non_empty-concat) (append-put_pending st c _)
  | inr h ↦ rw h (elim (Bool-cases (is_space c)) [
    | inl w ↦ rw (w, e) refl
    | inr w ↦ rw (w, non_empty-concat) (append-put_pending st c _)
  ])
]

collapse_from-emit :
    (qs s : Text) (st : Collapse) → (collapse_from qs s st).output ≡ outcome qs st.quote st s
unfolding collapse_from emit
collapse_from-emit qs [] st = sym (append-nil _)
collapse_from-emit qs (c ∷ s) st =
    collapse_from-emit qs s (step qs st.quote c st) ∙ step-outcome qs st.quote c s st refl

pub collapse-emit : (qs s : Text) → collapse_unquoted_whitespace qs s ≡ emit qs none false false s
unfolding collapse_unquoted_whitespace
collapse-emit qs s = unfold non_empty in collapse_from-emit qs s initial

pub collapse-nil : (qs : Text) → collapse_unquoted_whitespace qs [] ≡ []
unfolding emit
collapse-nil qs = collapse-emit qs []
