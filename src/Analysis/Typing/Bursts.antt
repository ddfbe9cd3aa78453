-- ===== src/Analysis/Typing/Bursts.antt =====
-- Bounds on the bursts that src/analysis/bot_human_analyzer.py counts.
use honey_mind.Prelude.{
  ℕ, ◌+◌, ◌*◌, ◌≤◌, ◌<◌, ◌/◌, All, length, keep, ltb, List, [], ◌∷◌, ◌≡◌, arith,
}
use honey_mind.Analysis.Typing.{bursts_from, count_paste_bursts}

bursts_from-bound :
    (t bursts streak : ℕ) (ds : List ℕ)
    → streak ≤ 2
    → (bursts_from t bursts streak ds * 3 ≤ bursts * 3 + streak + length (keep (λ d. ltb d t) ds))
unfolding bursts_from
bursts_from-bound t bursts streak [] small = omega arith
bursts_from-bound t bursts streak (d ∷ ds) small = ground (
  arith,
  bursts_from-bound t (bursts + 1) 0 ds,
  bursts_from-bound t bursts (streak + 1) ds,
  bursts_from-bound t bursts 0 ds,
)

-- Every counted burst takes three delays of its own that are below the threshold.
pub count_paste_bursts-bound :
    (t : ℕ) (ds : List ℕ) → count_paste_bursts t ds * 3 ≤ length (keep (λ d. ltb d t) ds)
unfolding count_paste_bursts
count_paste_bursts-bound t ds = omega (arith, bursts_from-bound t 0 0 ds (omega arith))

bursts_from-fast :
    (t bursts streak : ℕ) (ds : List ℕ)
    → streak ≤ 2
    → All (λ d. d < t) ds
    → bursts_from t bursts streak ds ≡ (bursts * 3 + streak + length ds) / 3
unfolding bursts_from
bursts_from-fast t bursts streak [] small all_fast = omega arith
bursts_from-fast t bursts streak (d ∷ ds) small (fast, rest) = ground (
  arith,
  bursts_from-fast t (bursts + 1) 0 ds (omega arith) rest,
  bursts_from-fast t bursts (streak + 1) ds,
)

-- Where every delay is below the threshold, a third of the delays, rounded down, is counted.
pub count_paste_bursts-fast :
    (t : ℕ) (ds : List ℕ) → All (λ d. d < t) ds → count_paste_bursts t ds ≡ length ds / 3
unfolding count_paste_bursts
count_paste_bursts-fast t ds all_fast =
    omega (arith, bursts_from-fast t 0 0 ds (omega arith) all_fast)
