-- ===== src/Llm/Limiter/Reset.antt =====
-- When `InvokeLimiter` (src/llm_providers/llm_utils.py) lets a visitor in again.
use honey_mind.Prelude.{
  ℕ, ◌+◌, ◌*◌, ◌/◌, ◌≤◌, ◌<◌, Text, lookup, insert, remove, ltb, ◌==◌, true, false, eqb,
  if◌then◌else◌, get_or, none, some, arith, ◌≡◌, refl, lookup-insert, lookup-remove,
  lookup-insert_self, lookup-remove_self,
}
use honey_mind.Llm.Limiter.{Limiter, day, elapsed_seconds, at_limit, known_visitor, can_invoke}

-- A visitor that has used up its budget, at the time `reached`.
pub record IsBlocked (l : Limiter) (v : Text) (reached : ℕ) : Type 0 where
  pub used_up : lookup v l.visitors ≡ some l.invokes_limit
  pub since : lookup v l.limit_reached_time ≡ some reached

==-self : (n : ℕ) → (n == n) ≡ true
==-self n = ground arith

blocked-at_limit :
    (l : Limiter) (v : Text) (reached now : ℕ)
    → IsBlocked l v reached
    → can_invoke l v now ≡ at_limit l v now (some reached)
unfolding can_invoke known_visitor
blocked-at_limit l v reached now b = rw (b.used_up, ==-self l.invokes_limit, b.since)

-- A blocked visitor is let in, with one call used, exactly when the seconds that
-- `timedelta.seconds` shows are more than the period; otherwise nothing changes.
pub can_invoke-IsBlocked :
    (l : Limiter) (v : Text) (reached now : ℕ)
    → IsBlocked l v reached
    → can_invoke l v now ≡ (
        if ltb l.time_period_in_seconds (elapsed_seconds now reached)
        then (
          record l {
            visitors = insert v 1 l.visitors;
            limit_reached_time = remove v l.limit_reached_time;
          },
          true,
        )
        else (l, false))
unfolding at_limit
can_invoke-IsBlocked l v reached now b = blocked-at_limit l v reached now b

elapsed_days :
    (reached days rest : ℕ)
    → rest < day
    → elapsed_seconds (reached + days * day + rest) reached ≡ rest / 1000000
elapsed_days reached days rest h = omega arith

-- The whole days do not count: a blocked visitor that comes back any number of days after it was
-- blocked, with no more than the period in seconds beside the days, is refused again.
pub refused_after_days :
    (l : Limiter) (v : Text) (reached days rest : ℕ)
    → IsBlocked l v reached
    → rest < day
    → rest / 1000000 ≤ l.time_period_in_seconds
    → can_invoke l v (reached + days * day + rest) ≡ (l, false)
refused_after_days l v reached days rest b small within =
    let e = elapsed_days reached days rest small in
    let h : ltb l.time_period_in_seconds (rest / 1000000) ≡ false = ground arith in
    rw (can_invoke-IsBlocked l v reached _ b, e, h) refl

-- Within the day, a blocked visitor is let in once more than the period has passed, with one call
-- used and the block forgotten.
pub granted_after_period :
    (l : Limiter) (v : Text) (reached wait : ℕ)
    → IsBlocked l v reached
    → wait < day
    → l.time_period_in_seconds < wait / 1000000
    → ((can_invoke l v (reached + wait)).1 ≡ true)
      × (lookup v (can_invoke l v (reached + wait)).0.visitors ≡ some 1)
      × (lookup v (can_invoke l v (reached + wait)).0.limit_reached_time ≡ none)
granted_after_period l v reached wait b small over =
    let e : elapsed_seconds (reached + wait) reached ≡ wait / 1000000 = omega arith in
    let h : ltb l.time_period_in_seconds (wait / 1000000) ≡ true = ground arith in
    rw (can_invoke-IsBlocked l v reached (reached + wait) b, e, h)
      (refl, lookup-insert_self v 1 l.visitors, lookup-remove_self v l.limit_reached_time)

-- A call changes nothing that is known of any other visitor.
pub can_invoke_other :
    (l : Limiter) (v w : Text) (now : ℕ)
    → eqb v w ≡ false
    → (lookup w (can_invoke l v now).0.visitors ≡ lookup w l.visitors)
      × (lookup w (can_invoke l v now).0.limit_reached_time ≡ lookup w l.limit_reached_time)
unfolding can_invoke known_visitor at_limit
can_invoke_other l v w now h = ground (
  arith,
  lookup-insert v w 1 l.visitors,
  lookup-insert v w (get_or (lookup v l.visitors) 0 + 1) l.visitors,
  lookup-insert v w now l.limit_reached_time,
  lookup-remove v w l.limit_reached_time,
)
