-- ===== src/Ssh/Terminal.antt =====
-- `normalize_terminal_output` of src/honeypots/ssh_honeypot.py.
use honey_mind.Prelude.{
  ℕ, Text, Bool, true, false, ◌&&◌, ◌||◌, ◌==◌, [], ◌∷◌, Option, some, get_or, rstrip_by,
  rstrip_cons, if◌then◌else◌, ◌≡◌, refl, ap, subst, ◌∙◌, Bool-cases, arith, inl, inr,
}

-- `text.replace("\r\n", "\n")`
unfoldable pub join_crlf : Text → Text
join_crlf [] = []
join_crlf (c ∷ []) = c ∷ []
join_crlf (c ∷ d ∷ s) = elim ((c == 13) && (d == 10)) [
  | true ↦ 10 ∷ join_crlf s
  | false ↦ c ∷ join_crlf (d ∷ s)
]

-- `.replace("\r", "\n")`
unfoldable pub feed_lines : Text → Text
feed_lines [] = []
feed_lines (c ∷ s) = (if c == 13 then 10 else c) ∷ feed_lines s

-- `.replace("\n", "\r\n")`
unfoldable pub return_lines : Text → Text
return_lines [] = []
return_lines (c ∷ s) = if c == 10 then 13 ∷ 10 ∷ return_lines s else c ∷ return_lines s

abbrev pub is_line_end : ℕ → Bool
is_line_end c = (c == 13) || (c == 10)

unfoldable pub normalize_terminal_output : Option Text → Text
unfolding join_crlf feed_lines return_lines
normalize_terminal_output output =
    return_lines (feed_lines (join_crlf (rstrip_by is_line_end (get_or output []))))

-- every line end is a carriage return with a line feed
abbrev pub IsTerminalText : Text → Type 0
IsTerminalText [] = Unit
IsTerminalText (c ∷ []) = is_line_end c ≡ false
IsTerminalText (c ∷ d ∷ s) = elim ((c == 13) && (d == 10)) [
  | true ↦ IsTerminalText s
  | false ↦ (is_line_end c ≡ false) × IsTerminalText (d ∷ s)
]

abbrev NoReturn : Text → Type 0
NoReturn [] = Unit
NoReturn (c ∷ s) = ((c == 13) ≡ false) × NoReturn s

feed_lines-NoReturn : (s : Text) → NoReturn (feed_lines s)
unfolding feed_lines
feed_lines-NoReturn [] = tt
feed_lines-NoReturn (c ∷ s) = (ground arith, feed_lines-NoReturn s)

feed_lines-same : (s : Text) → NoReturn s → feed_lines s ≡ s
unfolding feed_lines
feed_lines-same [] h = refl
feed_lines-same (c ∷ s) (hc, h) = rw hc (ap (◌∷◌ c) (feed_lines-same s h))

IsTerminalText-cons :
    (c : ℕ) (t : Text) → is_line_end c ≡ false → IsTerminalText t → IsTerminalText (c ∷ t)
IsTerminalText-cons c [] hc h = hc
IsTerminalText-cons c (d ∷ t) hc h =
    let off : (c == 13) ≡ false = ground arith in rw (off, IsTerminalText) (hc, h)

return_lines-IsTerminalText : (s : Text) → NoReturn s → IsTerminalText (return_lines s)
unfolding return_lines
return_lines-IsTerminalText [] h = tt
return_lines-IsTerminalText (c ∷ s) (hc, h) = elim (Bool-cases (c == 10)) [
  | inl e ↦ rw e (return_lines-IsTerminalText s h)
  | inr e ↦
      rw e
        (IsTerminalText-cons c (return_lines s) (rw (hc, e) refl) (return_lines-IsTerminalText s h))
]

join_crlf-cons : (c : ℕ) (s : Text) → (c == 13) ≡ false → join_crlf (c ∷ s) ≡ c ∷ join_crlf s
unfolding join_crlf
join_crlf-cons c [] h = refl
join_crlf-cons c (d ∷ s) h = rw (h, join_crlf) refl

join_crlf-return_lines : (s : Text) → NoReturn s → join_crlf (return_lines s) ≡ s
unfolding join_crlf return_lines
join_crlf-return_lines [] h = refl
join_crlf-return_lines (c ∷ s) (hc, h) = elim (Bool-cases (c == 10)) [
  | inl e ↦
      let ten : c ≡ 10 = ground arith in rw e (rw ten (ap (◌∷◌ 10) (join_crlf-return_lines s h)))
  | inr e ↦ rw e (join_crlf-cons c (return_lines s) hc ∙ ap (◌∷◌ c) (join_crlf-return_lines s h))
]

-- the last character, where there is one, ends no line
abbrev EndsPlain : Text → Type 0
EndsPlain [] = Unit
EndsPlain (c ∷ []) = is_line_end c ≡ false
EndsPlain (c ∷ d ∷ s) = EndsPlain (d ∷ s)

EndsPlain-rstrip_cons : (c : ℕ) (t : Text) → EndsPlain t → EndsPlain (rstrip_cons is_line_end c t)
unfolding rstrip_cons
EndsPlain-rstrip_cons c [] h = elim (Bool-cases (is_line_end c)) [
  | inl e ↦ rw e tt
  | inr e ↦ rw e e
]
EndsPlain-rstrip_cons c (d ∷ t) h = h

EndsPlain-rstrip_by : (s : Text) → EndsPlain (rstrip_by is_line_end s)
unfolding rstrip_by
EndsPlain-rstrip_by [] = tt
EndsPlain-rstrip_by (c ∷ s) =
    EndsPlain-rstrip_cons c (rstrip_by is_line_end s) (EndsPlain-rstrip_by s)

rstrip_by-EndsPlain : (s : Text) → EndsPlain s → rstrip_by is_line_end s ≡ s
unfolding rstrip_by rstrip_cons
rstrip_by-EndsPlain [] h = refl
rstrip_by-EndsPlain (c ∷ []) h = rw h refl
rstrip_by-EndsPlain (c ∷ d ∷ s) h = rw (rstrip_by-EndsPlain (d ∷ s) h, rstrip_cons) refl

abbrev NonEmpty : Text → Type 0
NonEmpty t = (c : ℕ) × (s : Text) × (t ≡ c ∷ s)

EndsPlain-cons : (c : ℕ) (t : Text) → NonEmpty t → EndsPlain t → EndsPlain (c ∷ t)
EndsPlain-cons c t (d, s, e) h = let tail : EndsPlain (d ∷ s) = subst EndsPlain e h in rw e tail

join_crlf-NonEmpty : (c : ℕ) (s : Text) → NonEmpty (join_crlf (c ∷ s))
unfolding join_crlf
join_crlf-NonEmpty c [] = (c, [], refl)
join_crlf-NonEmpty c (d ∷ s) = elim (Bool-cases ((c == 13) && (d == 10))) [
  | inl e ↦ (10, join_crlf s, rw (e, join_crlf) refl)
  | inr e ↦ (c, join_crlf (d ∷ s), rw (e, join_crlf) refl)
]

EndsPlain-join_crlf : (s : Text) → EndsPlain s → EndsPlain (join_crlf s)
unfolding join_crlf
EndsPlain-join_crlf [] h = tt
EndsPlain-join_crlf (c ∷ []) h = h
EndsPlain-join_crlf (c ∷ d ∷ []) h = elim (Bool-cases ((c == 13) && (d == 10))) [
  | inl e ↦ absurd (ground arith)
  | inr e ↦ rw (e, join_crlf) h
]
EndsPlain-join_crlf (c ∷ d ∷ x ∷ s) h = elim (Bool-cases ((c == 13) && (d == 10))) [
  | inl e ↦
      rw (e, join_crlf)
        (EndsPlain-cons 10 (join_crlf (x ∷ s)) (join_crlf-NonEmpty x s)
          (EndsPlain-join_crlf (x ∷ s) h))
  | inr e ↦
      rw (e, join_crlf)
        (EndsPlain-cons c (join_crlf (d ∷ x ∷ s)) (join_crlf-NonEmpty d (x ∷ s))
          (EndsPlain-join_crlf (d ∷ x ∷ s) h))
]

EndsPlain-feed_lines : (s : Text) → EndsPlain s → EndsPlain (feed_lines s)
unfolding feed_lines
EndsPlain-feed_lines [] h = tt
EndsPlain-feed_lines (c ∷ []) h = ground arith
EndsPlain-feed_lines (c ∷ d ∷ s) h = EndsPlain-feed_lines (d ∷ s) h

return_lines-NonEmpty : (c : ℕ) (s : Text) → NonEmpty (return_lines (c ∷ s))
unfolding return_lines
return_lines-NonEmpty c s = elim (Bool-cases (c == 10)) [
  | inl e ↦ (13, 10 ∷ return_lines s, rw e refl)
  | inr e ↦ (c, return_lines s, rw e refl)
]

EndsPlain-return_lines : (s : Text) → EndsPlain s → EndsPlain (return_lines s)
unfolding return_lines
EndsPlain-return_lines [] h = tt
EndsPlain-return_lines (c ∷ []) h = elim (Bool-cases (c == 10)) [
  | inl e ↦ absurd (ground arith)
  | inr e ↦ rw e h
]
EndsPlain-return_lines (c ∷ d ∷ s) h =
    let rest = EndsPlain-return_lines (d ∷ s) h in
    let there = return_lines-NonEmpty d s in
    elim (Bool-cases (c == 10)) [
      | inl e ↦ rw e (EndsPlain-cons 10 (return_lines (d ∷ s)) there rest)
      | inr e ↦ rw e (EndsPlain-cons c (return_lines (d ∷ s)) there rest)
    ]

-- What the terminal is sent has no line end but a carriage return with a line feed, whatever the
-- output holds.
pub normalize-IsTerminalText :
    (output : Option Text) → IsTerminalText (normalize_terminal_output output)
unfolding normalize_terminal_output
normalize-IsTerminalText output =
    return_lines-IsTerminalText (feed_lines (join_crlf (rstrip_by is_line_end (get_or output []))))
      (feed_lines-NoReturn (join_crlf (rstrip_by is_line_end (get_or output []))))

-- An output that was normalised once stays as it is when it is normalised again.
pub normalize_terminal_output-again :
    (output : Option Text)
    → normalize_terminal_output (some (normalize_terminal_output output))
      ≡ normalize_terminal_output output
unfolding normalize_terminal_output
normalize_terminal_output-again output =
    let joined = join_crlf (rstrip_by is_line_end (get_or output [])) in
    let fed = feed_lines joined in
    let plain : EndsPlain fed = EndsPlain-feed_lines joined (
      EndsPlain-join_crlf (rstrip_by is_line_end (get_or output []))
        (EndsPlain-rstrip_by (get_or output []))) in
    ap return_lines (
      ap feed_lines (
        ap join_crlf (rstrip_by-EndsPlain (return_lines fed) (EndsPlain-return_lines fed plain))
        ∙ join_crlf-return_lines fed (feed_lines-NoReturn joined))
      ∙ feed_lines-same fed (feed_lines-NoReturn joined))
