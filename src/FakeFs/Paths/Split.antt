-- ===== src/FakeFs/Paths/Split.antt =====
-- Splitting at slashes (src/infra/fake_fs/commands.py): parts hold no slash, and joining such parts
-- and splitting again gives them back.
use mathlib.Core.List.{cons-ne-nil}
use honey_mind.Prelude.{
  ℕ, Text, split_from, join, strip_char, BeginsSolid, EndsSolid, EndsSolid-cons, EndsSolid-append,
  Bool, false, Bool-cases, ◌==◌, All, All-append, strip_by_solid, List, [], ◌∷◌, ◌++◌, append_assoc,
  append-nil, ◌≡◌, ◌≢◌, refl, arith, sym, ap, ◌∙◌, inl, inr,
}
use honey_mind.FakeFs.Paths.{slash, root}

abbrev pub is_slash : ℕ → Bool
is_slash c = c == slash

abbrev pub NoSlash : Text → Type 0
NoSlash = All (λ c. (c == slash) ≡ false)

==-flip : (a b : ℕ) → (a == b) ≡ (b == a)
==-flip a b = ground arith

pub split_from-NoSlash : (s part : Text) → NoSlash part → All NoSlash (split_from slash s part)
unfolding split_from
split_from-NoSlash [] part h = (h, tt)
split_from-NoSlash (d ∷ s) part h = elim (Bool-cases (slash == d)) [
  | inl e ↦ rw (e, split_from) (h, split_from-NoSlash s [] tt)
  | inr e ↦
      rw (e, split_from)
        (split_from-NoSlash s (part ++ d ∷ [])
          (All-append _ part (d ∷ []) h (==-flip d slash ∙ e, tt)))
]

split_from-append :
    (p rest part : Text)
    → NoSlash p
    → split_from slash (p ++ rest) part ≡ split_from slash rest (part ++ p)
unfolding split_from
split_from-append [] rest part h = rw append-nil
split_from-append (c ∷ p) rest part (hc, hp) =
    rw (==-flip slash c ∙ hc, split_from)
      (split_from-append p rest (part ++ c ∷ []) hp
        ∙ ap (split_from slash rest) (append_assoc part (c ∷ []) p))

split_from-slash :
    (rest part : Text) → split_from slash (slash ∷ rest) part ≡ part ∷ split_from slash rest []
unfolding split_from
split_from-slash rest part = refl

-- A join of parts without slashes is split into the same parts.
pub split-join :
    (p : Text) (ps : List Text)
    → NoSlash p
    → All NoSlash ps
    → split_from slash (join root (p ∷ ps)) [] ≡ p ∷ ps
unfolding join
split-join p [] h hs =
    ap (λ t. split_from slash t []) (sym (append-nil p))
    ∙ split_from-append p [] [] h
    ∙ unfold split_from in refl
split-join p (q ∷ ps) h (hq, hs) =
    split_from-append p (slash ∷ join root (q ∷ ps)) [] h
    ∙ split_from-slash (join root (q ∷ ps)) p
    ∙ ap (◌∷◌ p) (split-join q ps hq hs)

NoSlash-solid : (p : Text) → NoSlash p → p ≢ [] → BeginsSolid is_slash p × EndsSolid is_slash p
NoSlash-solid [] h ne = absurd (ne refl)
NoSlash-solid (c ∷ []) (hc, _) ne = (hc, hc)
NoSlash-solid (c ∷ d ∷ p) (hc, hp) ne =
    let (_, e) = NoSlash-solid (d ∷ p) hp (cons-ne-nil d p) in (hc, e)

BeginsSolid-append : (p t : Text) → BeginsSolid is_slash p → BeginsSolid is_slash (p ++ t)
BeginsSolid-append [] t h = absurd h
BeginsSolid-append (c ∷ p) t h = h

-- a part: it has characters, and none is a slash
abbrev pub IsPart : Text → Type 0
IsPart p = (p ≢ []) × NoSlash p

join-solid :
    (p : Text) (ps : List Text)
    → IsPart p
    → All IsPart ps
    → BeginsSolid is_slash (join root (p ∷ ps)) × EndsSolid is_slash (join root (p ∷ ps))
unfolding join
join-solid p [] (ne, h) hs = NoSlash-solid p h ne
join-solid p (q ∷ ps) (ne, h) (hq, hs) =
    let (b, _) = NoSlash-solid p h ne in
    let (_, e) = join-solid q ps hq hs in
    (
      BeginsSolid-append p (slash ∷ join root (q ∷ ps)) b,
      EndsSolid-append is_slash p (slash ∷ join root (q ∷ ps))
          (EndsSolid-cons is_slash slash (join root (q ∷ ps)) e),
    )

-- Stripping the slashes of an absolute path leaves the joined parts.
pub strip-absolute :
    (p : Text) (ps : List Text)
    → IsPart p
    → All IsPart ps
    → strip_char slash (slash ∷ join root (p ∷ ps)) ≡ join root (p ∷ ps)
unfolding strip_char
strip-absolute p ps h hs =
    let (b, e) = join-solid p ps h hs in strip_by_solid is_slash (join root (p ∷ ps)) b e
