-- ===== src/Llm/Limiter.antt =====
-- `InvokeLimiter` of src/llm_providers/llm_utils.py. Times are microseconds; `datetime.now()` is an
-- argument of the call. The laws stand in the child.
pub mod Budget
pub mod Reset
use honey_mind.Prelude.{
  ℕ, ◌+◌, ◌-◌, ◌*◌, ◌/◌, ◌%◌, Text, Dict, lookup, insert, remove, ltb, ◌==◌, Bool, true, false,
  List, [], ◌∷◌, if◌then◌else◌, Option, none, some,
}

pub record Limiter : Type 0 where
  pub visitors : Dict ℕ
  pub limit_reached_time : Dict ℕ
  pub invokes_limit : ℕ
  pub time_period_in_seconds : ℕ

abbrev pub init : ℕ → ℕ → Limiter
init invokes_limit period = record {
  visitors = [];
  limit_reached_time = [];
  invokes_limit = invokes_limit;
  time_period_in_seconds = period;
}

abbrev pub day : ℕ
day = 86400 * 1000000

-- `(now - then).seconds`: the seconds of a `timedelta` beside its whole days, of either sign
abbrev pub elapsed_seconds : ℕ → ℕ → ℕ
elapsed_seconds now then' = ((now + (day - then' % day)) % day) / 1000000

-- the visitor has used up its calls
unfoldable pub at_limit : Limiter → Text → ℕ → Option ℕ → Limiter × Bool
at_limit l visitor now none =
    (record l { limit_reached_time = insert visitor now l.limit_reached_time }, false)
at_limit l visitor now (some reached) =
    if ltb l.time_period_in_seconds (elapsed_seconds now reached)
    then (
      record l {
        visitors = insert visitor 1 l.visitors;
        limit_reached_time = remove visitor l.limit_reached_time;
      },
      true,
    )
    else (l, false)

unfoldable pub known_visitor : Limiter → Text → ℕ → Option ℕ → Limiter × Bool
unfolding at_limit
known_visitor l visitor now none = (record l { visitors = insert visitor 1 l.visitors }, true)
known_visitor l visitor now (some count) =
    if count == l.invokes_limit
    then at_limit l visitor now (lookup visitor l.limit_reached_time)
    else (record l { visitors = insert visitor (count + 1) l.visitors }, true)

unfoldable pub can_invoke : Limiter → Text → ℕ → Limiter × Bool
unfolding known_visitor
can_invoke l visitor now = known_visitor l visitor now (lookup visitor l.visitors)

-- the calls of one visitor at several times
unfoldable pub can_invokes : Limiter → Text → List ℕ → Limiter × List Bool
can_invokes l visitor [] = (l, [])
can_invokes l visitor (now ∷ times) =
    let (l', ok) = can_invoke l visitor now in
    let (l'', oks) = can_invokes l' visitor times in (l'', ok ∷ oks)
