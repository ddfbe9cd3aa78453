-- ===== src/Analysis/Condenser/Counts.antt =====
-- What `condense_commands` of src/analysis/log_condenser.py counts.
use honey_mind.Prelude.{
  ℕ, ◌+◌, ◌≤◌, ◌<◌, Text, eqb, eqb_iff, leb, get_or, Dict, false, List, [], ◌∷◌, if◌then◌else◌,
  Bool-cases, All, ◌≡◌, refl, ap, ◌∙◌, inl, inr, arith,
}
use honey_mind.Analysis.Condenser.{
  Condensed, count_one, count_all, counter, insert_common, most_common, condensed_of, condense_all,
  condense_commands,
}

-- how often a text stands in a list
abbrev pub occurrences : Text → List Text → ℕ
occurrences cmd [] = 0
occurrences cmd (x ∷ xs) = (if eqb x cmd then 1 else 0) + occurrences cmd xs

-- how many entries the condensed commands have for a command, and how often they say that it was
-- typed: once where there is no count
abbrev pub entries_of : Text → List Condensed → ℕ
entries_of cmd [] = 0
entries_of cmd (c ∷ cs) = (if eqb c.cmd cmd then 1 else 0) + entries_of cmd cs

abbrev pub times_of : Text → List Condensed → ℕ
times_of cmd [] = 0
times_of cmd (c ∷ cs) = (if eqb c.cmd cmd then get_or c.count 1 else 0) + times_of cmd cs

-- a weight of the entries for a command, in all: their number, or their counts
tally : (ℕ → ℕ) → Text → Dict ℕ → ℕ
tally w x [] = 0
tally w x ((j, n) ∷ counts) = (if eqb j x then w n else 0) + tally w x counts

abbrev one : ℕ → ℕ
one n = 1

abbrev same : ℕ → ℕ
same n = n

abbrev Positive : Dict ℕ → Type 0
Positive = All (λ e. 0 < e.1)

-- counting a command changes no other
tally-count_one_ne :
    (w : ℕ → ℕ) (x k : Text) (counts : Dict ℕ)
    → eqb k x ≡ false
    → tally w x (count_one k counts) ≡ tally w x counts
unfolding tally count_one
tally-count_one_ne w x k [] ne = rw ne refl
tally-count_one_ne w x k ((j, n) ∷ counts) ne =
    ground (arith, tally-count_one_ne w x k counts ne, eqb_iff j k)

tally-count_one :
    (x k : Text) (counts : Dict ℕ)
    → tally same x (count_one k counts) ≡ (if eqb k x then 1 else 0) + tally same x counts
unfolding tally count_one
tally-count_one x k [] = refl
tally-count_one x k ((j, n) ∷ counts) = ground (arith, tally-count_one x k counts, eqb_iff j k)

tally-count_all :
    (x : Text) (xs : List Text) (counts : Dict ℕ)
    → tally same x (count_all xs counts) ≡ occurrences x xs + tally same x counts
unfolding count_all
tally-count_all x [] counts = omega arith
tally-count_all x (k ∷ xs) counts =
    omega (arith, tally-count_all x xs (count_one k counts), tally-count_one x k counts)

-- a key stands once
single-count_one :
    (x k : Text) (counts : Dict ℕ) → tally one x counts ≤ 1 → tally one x (count_one k counts) ≤ 1
unfolding tally count_one
single-count_one x k [] h = ground arith
single-count_one x k ((j, n) ∷ counts) h = ground (
  arith,
  single-count_one x k counts,
  tally-count_one_ne one x k counts,
  eqb_iff j k,
  eqb_iff j x,
  eqb_iff k x,
)

single-count_all :
    (x : Text) (xs : List Text) (counts : Dict ℕ)
    → tally one x counts ≤ 1
    → tally one x (count_all xs counts) ≤ 1
unfolding count_all
single-count_all x [] counts h = h
single-count_all x (k ∷ xs) counts h =
    single-count_all x xs (count_one k counts) (single-count_one x k counts h)

Positive-count_one : (k : Text) (counts : Dict ℕ) → Positive counts → Positive (count_one k counts)
unfolding count_one
Positive-count_one k [] h = (omega arith, tt)
Positive-count_one k ((j, n) ∷ counts) (hn, h) = elim (Bool-cases (eqb j k)) [
  | inl e ↦ rw e (omega arith, h)
  | inr e ↦ rw e (hn, Positive-count_one k counts h)
]

Positive-count_all :
    (xs : List Text) (counts : Dict ℕ) → Positive counts → Positive (count_all xs counts)
unfolding count_all
Positive-count_all [] counts h = h
Positive-count_all (x ∷ xs) counts h =
    Positive-count_all xs (count_one x counts) (Positive-count_one x counts h)

-- sorting moves the entries only
tally-insert_common :
    (w : ℕ → ℕ) (x : Text) (e : Text × ℕ) (es : Dict ℕ)
    → tally w x (insert_common e es) ≡ tally w x (e ∷ es)
unfolding tally insert_common
tally-insert_common w x e [] = refl
tally-insert_common w x e (f ∷ fs) = ground (arith, tally-insert_common w x e fs)

tally-most_common : (w : ℕ → ℕ) (x : Text) (es : Dict ℕ) → tally w x (most_common es) ≡ tally w x es
unfolding tally most_common
tally-most_common w x [] = refl
tally-most_common w x (e ∷ es) =
    tally-insert_common w x e (most_common es)
    ∙ unfold tally in ap (λ t. (if eqb e.0 x then w e.1 else 0) + t) (tally-most_common w x es)

Positive-insert_common :
    (e : Text × ℕ) (es : Dict ℕ) → 0 < e.1 → Positive es → Positive (insert_common e es)
unfolding insert_common
Positive-insert_common e [] he h = (he, tt)
Positive-insert_common e (f ∷ fs) he (hf, h) = elim (Bool-cases (leb f.1 e.1)) [
  | inl l ↦ rw l (he, (hf, h))
  | inr l ↦ rw l (hf, Positive-insert_common e fs he h)
]

Positive-most_common : (es : Dict ℕ) → Positive es → Positive (most_common es)
unfolding most_common
Positive-most_common [] h = tt
Positive-most_common (e ∷ es) (he, h) =
    Positive-insert_common e (most_common es) he (Positive-most_common es h)

times-condense_all :
    (x : Text) (es : Dict ℕ) → Positive es → times_of x (condense_all es) ≡ tally same x es
unfolding tally condense_all condensed_of
times-condense_all x [] h = refl
times-condense_all x (e ∷ es) (he, h) = ground (arith, times-condense_all x es h)

entries-condense_all : (x : Text) (es : Dict ℕ) → entries_of x (condense_all es) ≡ tally one x es
unfolding tally condense_all condensed_of
entries-condense_all x [] = refl
entries-condense_all x (e ∷ es) = ground (arith, entries-condense_all x es)

-- The condensed commands of a session say of every command exactly how often it was typed, an entry
-- without a count standing for once, and they have at most one entry for it.
pub times-condense_commands :
    (cmd : Text) (raw_commands : List Text)
    → (times_of cmd (condense_commands raw_commands) ≡ occurrences cmd raw_commands)
      × (entries_of cmd (condense_commands raw_commands) ≤ 1)
unfolding condense_commands tally
times-condense_commands cmd raw_commands =
    let counts = counter raw_commands in
    let positive = Positive-most_common counts (Positive-count_all raw_commands [] tt) in
    (
      times-condense_all cmd (most_common counts) positive
          ∙ tally-most_common same cmd counts
          ∙ omega (arith, tally-count_all cmd raw_commands []),
      omega (
        arith,
        entries-condense_all cmd (most_common counts),
        tally-most_common one cmd counts,
        single-count_all cmd raw_commands [] (omega arith),
      ),
    )
