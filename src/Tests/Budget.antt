-- ===== src/Tests/Budget.antt =====
-- Runs of the limiter (src/llm_providers/llm_utils.py).
use honey_mind.Prelude.{
  ℕ, ◌+◌, ◌*◌, codes, eqb, length, lookup, min, false, List, [], ◌∷◌, ◌≡◌, refl, arith,
}
use honey_mind.Llm.Limiter.{Limiter, init, day, can_invoke, can_invokes}
use honey_mind.Llm.Limiter.Budget.{Rising, granted, granted-can_invokes}
use honey_mind.Llm.Limiter.Reset.{IsBlocked, refused_after_days}

abbrev call_times : List ℕ
call_times = 1000000 ∷ 2000000 ∷ 2000000 ∷ 3000000 ∷ []

calls-Rising : Rising 1000000 601000000 call_times
calls-Rising = (
  omega arith,
  omega arith,
  (omega arith, omega arith, (omega arith, omega arith, (omega arith, omega arith, tt))),
)

granted-can_invokes_example :
    granted (can_invokes (init 2 600) (codes "visitor") call_times).1 ≡ min 2 (length call_times)
granted-can_invokes_example =
    granted-can_invokes 2 600 1000000 601000000 (codes "visitor") call_times (omega arith)
      (omega arith) (omega arith) calls-Rising

abbrev blocked_limiter : Limiter
blocked_limiter = record {
  visitors = (codes "visitor", 2) ∷ [];
  limit_reached_time = (codes "visitor", 5000000) ∷ [];
  invokes_limit = 2;
  time_period_in_seconds = 600;
}

visitor-IsBlocked : IsBlocked blocked_limiter (codes "visitor") 5000000
unfolding lookup eqb
visitor-IsBlocked = record { used_up = refl; since = refl }

refused_after_days_example :
    can_invoke blocked_limiter (codes "visitor") (5000000 + 3 * day + 60000000)
    ≡ (blocked_limiter, false)
refused_after_days_example =
    refused_after_days blocked_limiter (codes "visitor") 5000000 3 60000000 visitor-IsBlocked
      (omega arith) (omega arith)

different_visitors : eqb (codes "visitor") (codes "10.0.0.9") ≡ false
unfolding eqb
different_visitors = refl
