-- ===== src/Prelude/Texts.antt =====
-- Texts are lists of code points. The operations are those of Python's `str` that the program
-- calls; case folding is that of ASCII.
use Prim.Native.Char.{code}
use Prim.Native.Nat.{ℕ, zero, suc, ◌+◌, ◌-◌, ◌/◌, ◌%◌, ◌<◌}
use Prim.Native.String.{String}
use mathlib.Core.Path.{◌≡◌, refl, ap, ◌∙◌}
use mathlib.Core.Logic.{◌↔◌, inl, inr}
use mathlib.Core.Bool.{Bool, true, false, ◌&&◌, ◌||◌}
use mathlib.Core.List.{List, [], ◌∷◌, ◌++◌, map, reverse}
use native.Mathlib.Omega.{arith}
use honey_mind.Prelude.Tests.{ltb, leb, ◌==◌, if◌then◌else◌, Bool-cases}

abbrev pub Text : Type 0
Text = List ℕ

-- the code points of a literal
abbrev pub codes : String → Text
codes String.[] = []
codes (String.◌∷◌ c s) = code c ∷ codes s

-- `s == t`
unfoldable pub eqb : Text → Text → Bool
eqb [] [] = true
eqb [] (d ∷ t) = false
eqb (c ∷ s) [] = false
eqb (c ∷ s) (d ∷ t) = (c == d) && eqb s t

pub eqb_iff : (s t : Text) → (eqb s t ≡ true) ↔ (s ≡ t)
unfolding eqb
eqb_iff [] [] = (λ _. refl, λ _. refl)
eqb_iff [] (d ∷ t) = (λ h. cc, λ h. cc)
eqb_iff (c ∷ s) [] = (λ h. cc, λ h. cc)
eqb_iff (c ∷ s) (d ∷ t) = ground (arith, eqb_iff s t)

pub eqb_refl : (s : Text) → eqb s s ≡ true
eqb_refl s = (eqb_iff s s).1 refl

-- `s in ts`
abbrev pub member : Text → List Text → Bool
member s [] = false
member s (t ∷ ts) = eqb s t || member s ts

-- `s.startswith(p)`
unfoldable pub starts_with : Text → Text → Bool
starts_with s [] = true
starts_with [] (d ∷ p) = false
starts_with (c ∷ s) (d ∷ p) = (c == d) && starts_with s p

-- `s.endswith(p)`
unfoldable pub ends_with : Text → Text → Bool
unfolding starts_with
ends_with s p = starts_with (reverse s) (reverse p)

-- `p in s`
unfoldable pub contains : Text → Text → Bool
unfolding starts_with
contains [] p = starts_with [] p
contains (c ∷ s) p = starts_with (c ∷ s) p || contains s p

-- `str.isspace` on one code point
unfoldable pub is_space : ℕ → Bool
is_space c =
    (leb 9 c && leb c 13)
    || (leb 28 c && leb c 32)
    || (c == 133)
    || (c == 160)
    || (c == 5760)
    || (leb 8192 c && leb c 8202)
    || (c == 8232)
    || (c == 8233)
    || (c == 8239)
    || (c == 8287)
    || (c == 12288)

-- `str.lower` and `str.upper` on one ASCII letter
unfoldable pub to_lower : ℕ → ℕ
to_lower c = if leb b'A' c && leb c b'Z' then c + 32 else c

unfoldable pub to_upper : ℕ → ℕ
to_upper c = if leb b'a' c && leb c b'z' then c - 32 else c

unfoldable pub lower : Text → Text
unfolding to_lower
lower = map to_lower

unfoldable pub upper : Text → Text
unfolding to_upper
upper = map to_upper

abbrev pub is_digit : ℕ → Bool
is_digit c = leb b'0' c && leb c b'9'

abbrev pub space : ℕ
space = 32

abbrev pub newline : ℕ
newline = 10

-- `sep.join(parts)`
unfoldable pub join : Text → List Text → Text
join sep [] = []
join sep (p ∷ []) = p
join sep (p ∷ q ∷ ps) = p ++ (sep ++ join sep (q ∷ ps))

-- `"".join(parts)`
abbrev pub concat : List Text → Text
concat [] = []
concat (p ∷ ps) = p ++ concat ps

-- `s.split(c)`: the current part, reversed by nothing, stands in the second argument
unfoldable pub split_from : ℕ → Text → Text → List Text
split_from c [] part = part ∷ []
split_from c (d ∷ s) part = elim (c == d) [
  | true ↦ part ∷ split_from c s []
  | false ↦ split_from c s (part ++ d ∷ [])
]

unfoldable pub split : ℕ → Text → List Text
unfolding split_from
split c s = split_from c s []

-- `str(n)` for a natural number, on as much fuel as the number
digits : ℕ → ℕ → Text → Text
digits zero n out = out
digits (suc fuel) n out = elim (ltb n 10) [
  | true ↦ (n + b'0') ∷ out
  | false ↦ digits fuel (n / 10) ((n % 10 + b'0') ∷ out)
]

unfoldable pub show : ℕ → Text
unfolding digits
show n = digits (suc n) n []

digits-small :
    (fuel n : ℕ) (out : Text) → ltb n 10 ≡ true → digits (suc fuel) n out ≡ (n + b'0') ∷ out
unfolding digits
digits-small fuel n out e = rw (e, digits) refl

digits-large :
    (fuel n : ℕ) (out : Text)
    → ltb n 10 ≡ false
    → digits (suc fuel) n out ≡ digits fuel (n / 10) ((n % 10 + b'0') ∷ out)
unfolding digits
digits-large fuel n out e = rw (e, digits) refl

digits-cons : (fuel n c : ℕ) (out : Text) → (d : ℕ) × (s : Text) × (digits fuel n (c ∷ out) ≡ d ∷ s)
unfolding digits
digits-cons zero n c out = (c, out, refl)
digits-cons (suc fuel) n c out = elim (Bool-cases (ltb n 10)) [
  | inl e ↦ (n + b'0', c ∷ out, digits-small fuel n (c ∷ out) e)
  | inr e ↦
      rw (digits-large fuel n (c ∷ out) e) (digits-cons fuel (n / 10) (n % 10 + b'0') (c ∷ out))
]

-- the text of a number is not empty
pub show-cons : (n : ℕ) → (d : ℕ) × (s : Text) × (show n ≡ d ∷ s)
unfolding show
show-cons n = elim (Bool-cases (ltb n 10)) [
  | inl e ↦ (n + b'0', [], digits-small n n [] e)
  | inr e ↦ rw (digits-large n n [] e) (digits-cons n (n / 10) (n % 10 + b'0') [])
]

map-digits :
    (f : ℕ → ℕ) (fuel n : ℕ) (out : Text)
    → ((d : ℕ) → d < 10 → f (d + b'0') ≡ d + b'0')
    → map f out ≡ out
    → map f (digits fuel n out) ≡ digits fuel n out
unfolding digits
map-digits f zero n out h e = e
map-digits f (suc fuel) n out h e = elim (Bool-cases (ltb n 10)) [
  | inl l ↦ rw (digits-small fuel n out l) (
      let same : f (n + b'0') ≡ n + b'0' = h n (ground arith) in
      ap (λ c. c ∷ map f out) same ∙ ap (λ s. (n + b'0') ∷ s) e)
  | inr l ↦ rw (digits-large fuel n out l) (
      let same : f (n % 10 + b'0') ≡ n % 10 + b'0' = h (n % 10) (omega arith) in
      map-digits f fuel (n / 10) ((n % 10 + b'0') ∷ out) h
        (ap (λ c. c ∷ map f out) same ∙ ap (λ s. (n % 10 + b'0') ∷ s) e))
]

-- what leaves the digits as they are leaves the text of a number as it is
pub map-show :
    (f : ℕ → ℕ) (n : ℕ) → ((d : ℕ) → d < 10 → f (d + b'0') ≡ d + b'0') → map f (show n) ≡ show n
unfolding show
map-show f n h = map-digits f (suc n) n [] h refl

-- `s.splitlines()`: the line boundaries of `str`, with a carriage return and a line feed as one
unfoldable pub is_line_break : ℕ → Bool
is_line_break c =
    (leb 10 c && leb c 13) || (leb 28 c && leb c 30) || (c == 133) || (c == 8232) || (c == 8233)

lines_from : Text → Text → List Text
lines_from [] [] = []
lines_from [] (c ∷ line) = (c ∷ line) ∷ []
lines_from (c ∷ []) line = if is_line_break c then line ∷ [] else (line ++ c ∷ []) ∷ []
lines_from (c ∷ d ∷ s) line = elim (is_line_break c) [
  | true ↦ elim ((c == 13) && (d == 10)) [
    | true ↦ line ∷ lines_from s []
    | false ↦ line ∷ lines_from (d ∷ s) []
  ]
  | false ↦ lines_from (d ∷ s) (line ++ c ∷ [])
]

unfoldable pub split_lines : Text → List Text
unfolding lines_from is_line_break
split_lines s = lines_from s []

-- `f"{s:<w}"` and, for a number's digits, `f"{n:wd}"`
unfoldable pub pad_to : ℕ → Text → Text
pad_to zero s = s
pad_to (suc width) [] = space ∷ pad_to width []
pad_to (suc width) (c ∷ s) = c ∷ pad_to width s

unfoldable pub pad_left : ℕ → Text → Text
unfolding pad_to
pad_left width s = reverse (pad_to width (reverse s))
