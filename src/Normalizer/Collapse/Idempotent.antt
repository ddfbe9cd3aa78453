-- ===== src/Normalizer/Collapse/Idempotent.antt =====
-- A second collapse (`_collapse_unquoted_whitespace`, src/core/input_normalizer.py) changes
-- nothing.
use mathlib.Core.List.{cons-ne-nil}
use honey_mind.Prelude.{
  ℕ, Text, is_space, space, any_of, Bool, true, false, Bool-cases, BeginsSolid, EndsSolid,
  EndsSolid-cons, strip, strip_solid, strip-cases, strip-nil, ◌&&◌, not, [], ◌∷◌, ◌==◌,
  if◌then◌else◌, Option, none, some, ◌≡◌, refl, ap, ◌∙◌, inl, inr, arith,
}
use honey_mind.Normalizer.Collapse.{collapse_unquoted_whitespace}
use honey_mind.Normalizer.Collapse.Emit.{
  due, emit, emit-quote, emit-space, emit-plain, emit-quoted, collapse-emit, collapse-nil,
}

-- White space is no quotation mark.
abbrev NoSpaceIn : Text → Type 0
NoSpaceIn qs = (c : ℕ) → is_space c ≡ true → any_of (λ q. c == q) qs ≡ false

module _ (qs : Text) (plain_quotes : NoSpaceIn qs) where
  quote-not-space : (c : ℕ) → any_of (λ q. c == q) qs ≡ true → is_space c ≡ false
  quote-not-space c h = elim (Bool-cases (is_space c)) [ inl w ↦ cc (plain_quotes c w) | inr w ↦ w ]

  -- The due space is read back as white space that is pending, and is due again.
  emit-due :
      (p ne : Bool) (t : Text) → emit qs none false ne (due p ne t) ≡ emit qs none (p && ne) ne t
  unfolding due is_space
  emit-due true true t = emit-space qs false true space t (plain_quotes space refl) refl
  emit-due true false t = refl
  emit-due false ne t = refl

  due_twice : (p ne : Bool) (t : Text) → due (p && ne) ne t ≡ due p ne t
  unfolding due
  due_twice p ne t = ground arith

  nothing_pending : (p ne : Bool) → (p && ne) && not ne ≡ false
  nothing_pending p ne = ground arith

  emit-again :
      (s : Text) (q : Option ℕ) (p ne : Bool)
      → emit qs q false ne (emit qs q p ne s) ≡ emit qs q p ne s
  emit-again [] q p ne = unfold emit in refl
  emit-again (c ∷ s) (some q) p ne =
      simp emit-quoted (ap (◌∷◌ c) (emit-again s (if c == q then none else some q) p true))
  emit-again (c ∷ s) none p ne = elim (Bool-cases (any_of (λ q. c == q) qs)) [
    | inl h ↦
        rw
          (
            emit-quote qs p ne c s h,
            emit-due,
            emit-quote qs (p && ne) ne c _ h,
            due_twice,
            nothing_pending,
          )
          (ap (λ t. due p ne (c ∷ t)) (emit-again s (some c) (p && not ne) true))
    | inr h ↦ elim (Bool-cases (is_space c)) [
      | inl w ↦ rw (emit-space qs p ne c s h w) (emit-again s none true ne)
      | inr w ↦
          rw (emit-plain qs p ne c s h w, emit-due, emit-plain qs (p && ne) ne c _ h w, due_twice)
            (ap (λ t. due p ne (c ∷ t)) (emit-again s none false true))
    ]
  ]

  -- Collapsing white space twice is collapsing it once, on every text.
  pub collapse-collapse :
      (s : Text)
      → collapse_unquoted_whitespace qs (collapse_unquoted_whitespace qs s)
        ≡ collapse_unquoted_whitespace qs s
  collapse-collapse s = simp collapse-emit (emit-again s none false false)

  -- A text that ends outside white space is collapsed to one, and so for its beginning.
  due-EndsSolid : (p ne : Bool) (t : Text) → EndsSolid is_space t → EndsSolid is_space (due p ne t)
  unfolding due
  due-EndsSolid p ne t h = elim (Bool-cases (p && ne)) [
    | inl e ↦ rw e (EndsSolid-cons is_space space t h)
    | inr e ↦ rw e h
  ]

  solid_char : (s : Text) (c : ℕ) → EndsSolid is_space (c ∷ s) → s ≡ [] → is_space c ≡ false
  solid_char [] c h e = h
  solid_char (d ∷ s) c h e = absurd (cons-ne-nil d s e)

  -- The rest of a text that ends outside white space is empty, or ends outside it too.
  emit-EndsSolid :
      (s : Text) (q : Option ℕ) (p ne : Bool)
      → EndsSolid is_space s
      → EndsSolid is_space (emit qs q p ne s)
  emit-EndsSolid [] q p ne h = absurd h
  emit-EndsSolid (c ∷ []) (some q) p ne h = unfold emit in h
  emit-EndsSolid (c ∷ d ∷ s) (some q) p ne h = rw emit-quoted (
      EndsSolid-cons is_space c (emit qs (if c == q then none else some q) p true (d ∷ s))
        (emit-EndsSolid (d ∷ s) (if c == q then none else some q) p true h))
  emit-EndsSolid (c ∷ []) none p ne h = elim (Bool-cases (any_of (λ q. c == q) qs)) [
    | inl e ↦ rw (emit-quote qs p ne c [] e) (due-EndsSolid p ne _ (unfold emit in h))
    | inr e ↦ rw (emit-plain qs p ne c [] e h) (due-EndsSolid p ne _ (unfold emit in h))
  ]
  emit-EndsSolid (c ∷ d ∷ s) none p ne h = elim (Bool-cases (any_of (λ q. c == q) qs)) [
    | inl e ↦ rw (emit-quote qs p ne c (d ∷ s) e) (
        due-EndsSolid p ne (c ∷ emit qs (some c) (p && not ne) true (d ∷ s)) (
          EndsSolid-cons is_space c (emit qs (some c) (p && not ne) true (d ∷ s))
            (emit-EndsSolid (d ∷ s) (some c) (p && not ne) true h)))
    | inr e ↦ elim (Bool-cases (is_space c)) [
      | inl w ↦ rw (emit-space qs p ne c (d ∷ s) e w) (emit-EndsSolid (d ∷ s) none true ne h)
      | inr w ↦ rw (emit-plain qs p ne c (d ∷ s) e w) (
          due-EndsSolid p ne (c ∷ emit qs none false true (d ∷ s)) (
            EndsSolid-cons is_space c (emit qs none false true (d ∷ s))
              (emit-EndsSolid (d ∷ s) none false true h)))
    ]
  ]

  emit-BeginsSolid :
      (s : Text) → BeginsSolid is_space s → BeginsSolid is_space (emit qs none false false s)
  emit-BeginsSolid [] h = absurd h
  emit-BeginsSolid (c ∷ s) h = elim (Bool-cases (any_of (λ q. c == q) qs)) [
    | inl e ↦ rw (emit-quote qs false false c s e) (unfold due in h)
    | inr e ↦ rw (emit-plain qs false false c s e h) (unfold due in h)
  ]

  -- Stripping and collapsing a second time changes nothing.
  pub collapse-strip-again :
      (raw : Text)
      → collapse_unquoted_whitespace qs (strip (collapse_unquoted_whitespace qs (strip raw)))
        ≡ collapse_unquoted_whitespace qs (strip raw)
  collapse-strip-again raw = elim (strip-cases raw) [
    | inl e ↦ rw e (simp (collapse-nil, strip-nil))
    | inr (b, e) ↦
        ap (collapse_unquoted_whitespace qs) (
          rw collapse-emit (
            strip_solid _ (emit-BeginsSolid (strip raw) b)
              (emit-EndsSolid (strip raw) none false false e)))
        ∙ collapse-collapse (strip raw)
  ]
