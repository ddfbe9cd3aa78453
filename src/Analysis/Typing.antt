-- ===== src/Analysis/Typing.antt =====
-- The signals on typing of src/analysis/bot_human_analyzer.py: the edit distance of two commands,
-- corrected typing errors and pasted bursts. The laws stand in the children.
pub mod Distance
pub mod Bursts
use honey_mind.Prelude.{
  ℕ, zero, suc, ◌+◌, min, Text, eqb, strip, length, ltb, leb, get_or, last?, Bool, true, false, not,
  ◌||◌, ◌&&◌, ◌==◌, List, [], ◌∷◌, if◌then◌else◌,
}

-- `list(range(n + 1))` from a start
unfoldable pub count_up : ℕ → Text → List ℕ
count_up n [] = n ∷ []
count_up n (c ∷ b) = n ∷ count_up (suc n) b

-- `ca != cb` as a number
unfoldable pub differs : ℕ → ℕ → ℕ
differs c d = if c == d then 0 else 1

-- the inner loop: `curr` behind its last entry, from `prev`
unfoldable pub fill : ℕ → Text → List ℕ → ℕ → List ℕ
unfolding differs
fill ca (cb ∷ b) (p ∷ q ∷ prev) left =
    let x = min (min (q + 1) (left + 1)) (p + differs ca cb) in x ∷ fill ca b (q ∷ prev) x
fill ca b prev left = []

-- the outer loop, from the row `prev` of the prefix of length `i`
unfoldable pub rows : ℕ → Text → Text → List ℕ → List ℕ
unfolding fill
rows i [] b prev = prev
rows i (ca ∷ a) b prev = rows (suc i) a b ((i + 1) ∷ fill ca b prev (i + 1))

unfoldable pub distance_from : Text → Text → ℕ
unfolding rows count_up
distance_from a b = if eqb b [] then length a else get_or (last? (rows 0 a b (count_up 0 b))) 0

-- `_levenshtein`
unfoldable pub levenshtein : Text → Text → ℕ
unfolding distance_from
levenshtein a b = if ltb (length a) (length b) then distance_from b a else distance_from a b

unfoldable pub is_correction : Text → Text → Bool
unfolding levenshtein
is_correction a b =
    not (eqb a b || eqb a [] || eqb b [])
    && leb 1 (levenshtein a b)
    && leb (levenshtein a b) 3
    && ltb 4 (length a)
    && ltb 4 (length b)

-- `_count_typo_corrections`
unfoldable pub count_typo_corrections : List Text → ℕ
unfolding is_correction
count_typo_corrections [] = 0
count_typo_corrections (a ∷ []) = 0
count_typo_corrections (a ∷ b ∷ commands) =
    let rest = count_typo_corrections (b ∷ commands) in
    if is_correction (strip a) (strip b) then suc rest else rest

-- the loop of `_count_paste_bursts`
unfoldable pub bursts_from : ℕ → ℕ → ℕ → List ℕ → ℕ
bursts_from threshold_ms bursts streak [] = bursts
bursts_from threshold_ms bursts streak (d ∷ delays) = elim (ltb d threshold_ms) [
  | true ↦ elim (leb 3 (streak + 1)) [
    | true ↦ bursts_from threshold_ms (bursts + 1) 0 delays
    | false ↦ bursts_from threshold_ms bursts (streak + 1) delays
  ]
  | false ↦ bursts_from threshold_ms bursts 0 delays
]

-- `_count_paste_bursts`
unfoldable pub count_paste_bursts : ℕ → List ℕ → ℕ
unfolding bursts_from
count_paste_bursts threshold_ms delays = bursts_from threshold_ms 0 0 delays
