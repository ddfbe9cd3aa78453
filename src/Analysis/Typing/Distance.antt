-- ===== src/Analysis/Typing/Distance.antt =====
-- The row by row computation of `_levenshtein` (src/analysis/bot_human_analyzer.py) against the
-- recursive definition of the edit distance.
use honey_mind.Prelude.{
  ℕ, suc, ◌+◌, min, Text, eqb, length, get_or, last?, reverse, reverse-cons, append_assoc,
  append-nil, List, [], ◌∷◌, ◌++◌, some, ◌≡◌, refl, sym, ap, ◌∙◌, arith,
}
use honey_mind.Analysis.Typing.{count_up, differs, fill, rows, distance_from, levenshtein}

-- The least number of insertions, deletions and replacements that turn one text into another.
unfoldable pub edit_distance : Text → Text → ℕ
unfolding differs
edit_distance [] b = length b
edit_distance (c ∷ a) [] = suc (length a)
edit_distance (c ∷ a) (d ∷ b) =
    min (min (edit_distance a (d ∷ b) + 1) (edit_distance (c ∷ a) b + 1))
      (edit_distance a b + differs c d)

edit_distance_nil : (a : Text) → edit_distance a [] ≡ length a
unfolding edit_distance
edit_distance_nil [] = refl
edit_distance_nil (c ∷ a) = refl

edit_distance_comm : (a b : Text) → edit_distance a b ≡ edit_distance b a
unfolding edit_distance differs
edit_distance_comm [] b = sym (edit_distance_nil b)
edit_distance_comm (c ∷ a) [] = refl
edit_distance_comm (c ∷ a) (d ∷ b) =
    ground
      (arith, edit_distance_comm a (d ∷ b), edit_distance_comm (c ∷ a) b, edit_distance_comm a b)

-- the row of a reversed prefix against all prefixes of `b` behind the reversed `done`
row_of : Text → Text → Text → List ℕ
row_of a done [] = edit_distance a done ∷ []
row_of a done (d ∷ b) = edit_distance a done ∷ row_of a (d ∷ done) b

row_rest : Text → Text → Text → List ℕ
unfolding row_of
row_rest a done [] = []
row_rest a done (d ∷ b) = row_of a (d ∷ done) b

row_of-rest : (a done b : Text) → row_of a done b ≡ edit_distance a done ∷ row_rest a done b
unfolding row_of row_rest
row_of-rest a done [] = refl
row_of-rest a done (d ∷ b) = refl

fill-row_of :
    (c : ℕ) (a done b : Text)
    → fill c b (row_of a done b) (edit_distance (c ∷ a) done) ≡ row_rest (c ∷ a) done b
unfolding fill row_rest row_of edit_distance
fill-row_of c a done [] = refl
fill-row_of c a done (d ∷ []) = refl
fill-row_of c a done (d ∷ e ∷ b) =
    ap (λ r. edit_distance (c ∷ a) (d ∷ done) ∷ r) (fill-row_of c a (d ∷ done) (e ∷ b))

count_up-row_of : (done b : Text) → count_up (length done) b ≡ row_of [] done b
unfolding count_up row_of edit_distance
count_up-row_of done [] = refl
count_up-row_of done (d ∷ b) = ap (λ r. length done ∷ r) (count_up-row_of (d ∷ done) b)

-- `a`, read backwards, in front of `back`
onto : Text → Text → Text
onto back [] = back
onto back (c ∷ a) = onto (c ∷ back) a

rows-row_of :
    (back a b : Text) → rows (length back) a b (row_of back [] b) ≡ row_of (onto back a) [] b
unfolding rows onto edit_distance
rows-row_of back [] b = refl
rows-row_of back (c ∷ a) b = ap (rows (suc (length back)) a b) next_row ∙ rows-row_of (c ∷ back) a b
  where
    next_row :
        (length back + 1) ∷ fill c b (row_of back [] b) (length back + 1) ≡ row_of (c ∷ back) [] b
    next_row =
        ap (λ n. n ∷ fill c b (row_of back [] b) n) (omega arith)
        ∙ ap (λ r. suc (length back) ∷ r) (fill-row_of c back [] b)
        ∙ sym (row_of-rest (c ∷ back) [] b)

last-row_of :
    (back done b : Text) → last? (row_of back done b) ≡ some (edit_distance back (onto done b))
unfolding row_of onto
last-row_of back done [] = refl
last-row_of back done (d ∷ []) = refl
last-row_of back done (d ∷ e ∷ b) = last-row_of back (d ∷ done) (e ∷ b)

length-onto : (back a : Text) → length (onto back a) ≡ length back + length a
unfolding onto
length-onto back [] = omega arith
length-onto back (c ∷ a) = omega (arith, length-onto (c ∷ back) a)

onto-append : (back a : Text) → onto back a ≡ reverse a ++ back
unfolding onto
onto-append back [] = refl
onto-append back (c ∷ a) =
    onto-append (c ∷ back) a
    ∙ sym (append_assoc (reverse a) (c ∷ []) back)
    ∙ ap (λ t. t ++ back) (sym (reverse-cons c a))

distance_from-edit_distance :
    (a b : Text) → distance_from a b ≡ edit_distance (onto [] a) (onto [] b)
unfolding distance_from eqb onto edit_distance
distance_from-edit_distance a [] =
    sym (edit_distance_nil (onto [] a) ∙ length-onto [] a ∙ omega arith)
distance_from-edit_distance a (d ∷ b) =
    ap (λ r. get_or (last? r) 0)
      (ap (rows 0 a (d ∷ b)) (count_up-row_of [] (d ∷ b)) ∙ rows-row_of [] a (d ∷ b))
    ∙ ap (λ r. get_or r 0) (last-row_of (onto [] a) [] (d ∷ b))

onto-reverse : (a : Text) → onto [] a ≡ reverse a
onto-reverse a = onto-append [] a ∙ append-nil (reverse a)

-- What `_levenshtein` computes row by row, swapping its arguments where the first is shorter, is
-- the recursive edit distance, taken from the last characters of both commands.
pub levenshtein-edit_distance :
    (a b : Text) → levenshtein a b ≡ edit_distance (reverse a) (reverse b)
unfolding levenshtein
levenshtein-edit_distance a b = ground (
  arith,
  distance_from-edit_distance a b,
  distance_from-edit_distance b a,
  edit_distance_comm (onto [] a) (onto [] b),
  onto-reverse a,
  onto-reverse b,
)
