-- ===== src/Llm/Limiter/Budget.antt =====
-- The budget that `InvokeLimiter` (src/llm_providers/llm_utils.py) enforces.
use honey_mind.Prelude.{
  ℕ, suc, ◌+◌, ◌-◌, ◌*◌, ◌≤◌, ◌<◌, Text, lookup, ltb, ◌==◌, Bool, true, false, List, [], ◌∷◌,
  if◌then◌else◌, Option, none, some, length, arith, inl, inr, ◌≡◌, refl, Bool-cases,
  lookup-insert_self, lookup-remove_self, min, ◌⊎◌, ap, ◌∙◌,
}
use honey_mind.Llm.Limiter.{
  Limiter, init, elapsed_seconds, at_limit, known_visitor, can_invoke, can_invokes,
}

unfoldable pub count_in : Option ℕ → ℕ
count_in none = 0
count_in (some n) = n

-- the calls that a visitor has made since its count was last set
unfoldable pub used : Limiter → Text → ℕ
unfolding count_in
used l v = count_in (lookup v l.visitors)

pub granted : List Bool → ℕ
granted [] = 0
granted (true ∷ bs) = suc (granted bs)
granted (false ∷ bs) = granted bs

-- times that do not run backwards, from `lo` to `hi`
abbrev pub Rising : ℕ → ℕ → List ℕ → Type 0
Rising lo hi [] = Unit
Rising lo hi (t ∷ ts) = (lo ≤ t) × (t ≤ hi) × Rising t hi ts

-- Within the period, which is less than a day, no more seconds than the period have passed.
elapsed-le :
    (now reached period : ℕ)
    → reached ≤ now
    → now ≤ reached + period * 1000000
    → period < 86400
    → elapsed_seconds now reached ≤ period
elapsed-le now reached period h k d = omega arith

-- A visitor whose limit was reached between `lo` and `hi`, if it was.
pub record Window (l : Limiter) (v : Text) (lo hi : ℕ) : Type 0 where
  pub positive : 0 < l.invokes_limit
  pub within : used l v ≤ l.invokes_limit
  pub short : l.time_period_in_seconds < 86400
  pub reached_in :
      (r : ℕ)
      → lookup v l.limit_reached_time ≡ some r
      → (r ≤ lo) × (hi ≤ r + l.time_period_in_seconds * 1000000)

-- the two settings stay
pub can_invoke-settings :
    (l : Limiter) (v : Text) (now : ℕ)
    → ((can_invoke l v now).0.invokes_limit ≡ l.invokes_limit)
      × ((can_invoke l v now).0.time_period_in_seconds ≡ l.time_period_in_seconds)
unfolding can_invoke
can_invoke-settings l v now = ground arith

abbrev Refused : Limiter → Limiter × Bool → Type 0
Refused l r = (r.1 ≡ false) × (r.0.visitors ≡ l.visitors)

at_limit-refuses :
    (l : Limiter) (v : Text) (now : ℕ) (o : Option ℕ)
    → ((r : ℕ) → o ≡ some r → elapsed_seconds now r ≤ l.time_period_in_seconds)
    → Refused l (at_limit l v now o)
unfolding at_limit
at_limit-refuses l v now none h = (refl, refl)
at_limit-refuses l v now (some r) h =
    let e : ltb l.time_period_in_seconds (elapsed_seconds now r) ≡ false =
      ground (arith, h r refl) in
    rw e (refl, refl)

-- one call inside the window: granted while some of the budget is left, and counted
abbrev pub Budgeted : Limiter → Text → ℕ → Limiter × Bool → Type 0
Budgeted l v n r =
    (r.1 ≡ ltb n l.invokes_limit) × (used r.0 v ≡ n + (if ltb n l.invokes_limit then 1 else 0))

known_visitor-budget :
    (l : Limiter) (v : Text) (now : ℕ) (o : Option ℕ)
    → lookup v l.visitors ≡ o
    → 0 < l.invokes_limit
    → count_in o ≤ l.invokes_limit
    → Refused l (at_limit l v now (lookup v l.limit_reached_time))
    → Budgeted l v (count_in o) (known_visitor l v now o)
unfolding known_visitor used count_in
known_visitor-budget l v now none e pos fits refused =
    ground (arith, lookup-insert_self v 1 l.visitors)
known_visitor-budget l v now (some n) e pos fits refused =
    elim (Bool-cases (n == l.invokes_limit)) [
      | inl h ↦
          let full : ltb n l.invokes_limit ≡ false = ground arith in
          let same : lookup v (at_limit l v now (lookup v l.limit_reached_time)).0.visitors
              ≡ some n =
            ap (lookup v) refused.1 ∙ e in
          rw (h, full) (refused.0, rw same (omega arith))
      | inr h ↦
          let room : ltb n l.invokes_limit ≡ true = ground arith in
          rw (h, room) (refl, rw lookup-insert_self refl)
    ]

pub can_invoke-budget :
    (l : Limiter) (v : Text) (lo hi now : ℕ)
    → Window l v lo hi
    → lo ≤ now
    → now ≤ hi
    → Budgeted l v (used l v) (can_invoke l v now)
unfolding can_invoke used
can_invoke-budget l v lo hi now w a b =
    known_visitor-budget l v now (lookup v l.visitors) refl w.positive w.within (
      at_limit-refuses l v now (lookup v l.limit_reached_time) λ r e.
        elapsed-le now r l.time_period_in_seconds (omega (arith, w.reached_in r e))
          (omega (arith, w.reached_in r e)) w.short)

reached-can_invoke :
    (l : Limiter) (v : Text) (now r : ℕ)
    → lookup v (can_invoke l v now).0.limit_reached_time ≡ some r
    → (lookup v l.limit_reached_time ≡ some r) ⊎ (r ≡ now)
unfolding can_invoke
reached-can_invoke l v now r h = ground (
  arith,
  lookup-insert_self v now l.limit_reached_time,
  lookup-remove_self v l.limit_reached_time,
)

pub can_invoke-Window :
    (l : Limiter) (v : Text) (lo hi now : ℕ)
    → Window l v lo hi
    → hi ≤ lo + l.time_period_in_seconds * 1000000
    → lo ≤ now
    → now ≤ hi
    → Window (can_invoke l v now).0 v now hi
can_invoke-Window l v lo hi now w fits a b =
    let (ok, n) = can_invoke-budget l v lo hi now w a b in
    let (same_limit, same_period) = can_invoke-settings l v now in
    record {
      positive = rw same_limit w.positive;
      within = ground (arith, w.within);
      short = rw same_period w.short;
      reached_in = λ r e. ground (arith, reached-can_invoke l v now r e, w.reached_in r);
    }

granted-cons : (b : Bool) (bs : List Bool) → granted (b ∷ bs) ≡ (if b then 1 else 0) + granted bs
unfolding granted
granted-cons true bs = omega arith
granted-cons false bs = omega arith

budget :
    (ts : List ℕ) (l : Limiter) (v : Text) (lo hi : ℕ)
    → Window l v lo hi
    → hi ≤ lo + l.time_period_in_seconds * 1000000
    → Rising lo hi ts
    → granted (can_invokes l v ts).1 ≡ min (l.invokes_limit - used l v) (length ts)
unfolding can_invokes
budget [] l v lo hi w fits h = unfold granted in omega arith
budget (t ∷ ts) l v lo hi w fits (a, b, h) =
    let (ok, n) = can_invoke-budget l v lo hi t w a b in
    let (same_limit, same_period) = can_invoke-settings l v t in
    let ih =
      budget ts (can_invoke l v t).0 v t hi (can_invoke-Window l v lo hi t w fits a b)
        (rw same_period (omega arith)) h in
    ground
      (arith, granted-cons (can_invoke l v t).1 (can_invokes (can_invoke l v t).0 v ts).1, w.within)

-- Of the calls of a visitor within one period, on a clock that does not run backwards and for a
-- period of less than a day, a new limiter with a positive limit grants as many as its limit, or
-- all if they are fewer.
pub granted-can_invokes :
    (limit period lo hi : ℕ) (v : Text) (ts : List ℕ)
    → 0 < limit
    → period < 86400
    → hi ≤ lo + period * 1000000
    → Rising lo hi ts
    → granted (can_invokes (init limit period) v ts).1 ≡ min limit (length ts)
unfolding used count_in lookup
granted-can_invokes limit period lo hi v ts pos short fits h =
    let fresh : used (init limit period) v ≡ 0 = refl in
    omega (
      arith,
      fresh,
      budget ts (init limit period) v lo hi
          (record { positive = pos; within = omega arith; short = short; reached_in = λ r e. cc })
          fits h,
    )
