-- ===== src/EventLog/Times.antt =====
-- The times of a session's events (src/logging_pipeline/canonical_log_utils.py).
use honey_mind.Prelude.{
  ℕ, ◌-◌, ◌≤◌, member, Bool-cases, All, List, [], ◌∷◌, Option, none, some, or_else, ◌≡◌, inl, inr,
  refl, arith,
}
use honey_mind.Redis.Integers.{ℤ, pos}
use honey_mind.EventLog.{
  Session, Request, Event, build_event, event_of, event_types, next_session_seq, session_timing,
  difference, since,
}
use honey_mind.EventLog.Runs.{Step, builds, takes_over, take_step, one_more, events_of, take_over}

-- a time that is not negative
abbrev pub NotNegative : Option ℤ → Type 0
NotNegative none = Unit
NotNegative (some i) = (n : ℕ) × (i ≡ pos n)

-- a moment, where there is one, is no later than a time
abbrev pub NotAfter : ℕ → Option ℕ → Type 0
NotAfter t none = Unit
NotAfter t (some before) = before ≤ t

-- a session that started at a time, and whose last event is no later than another
abbrev pub Until : ℕ → ℕ → Session → Type 0
Until start t session =
    (start ≤ t) × (session.session_start_ts ≡ some start) × NotAfter t session.last_event_ts

since-NotNegative : (t t' : ℕ) (o : Option ℕ) → t ≤ t' → NotAfter t o → NotNegative (since t' o)
unfolding since difference
since-NotNegative t t' none le h = tt
since-NotNegative t t' (some before) le h = (t' - before, ground arith)

NotAfter-or_else :
    (t : ℕ) (o other : Option ℕ) → NotAfter t o → NotAfter t other → NotAfter t (or_else o other)
NotAfter-or_else t none other h k = k
NotAfter-or_else t (some before) other h k = h

Until-later :
    (start t t' : ℕ) (session : Session) → t ≤ t' → Until start t session → Until start t' session
Until-later start t t' session le (a, b, c) = (omega arith, b, later session.last_event_ts c)
  where
    later : (o : Option ℕ) → NotAfter t o → NotAfter t' o
    later none h = tt
    later (some before) h = omega arith

module _ {J : Type 0} where
  -- the clock does not run backwards: every event stands at or behind the one before it
  abbrev pub Onwards : ℕ → List (Step J) → Type 0
  Onwards t [] = Unit
  Onwards t (takes_over sess ∷ steps) = NotAfter t sess.last_event_ts × Onwards t steps
  Onwards t (builds r ∷ steps) = (t ≤ r.timestamp) × Onwards r.timestamp steps

  -- the times of an event of a session that started at a time
  abbrev pub IsTimed : ℕ → Event J → Type 0
  IsTimed start e =
      (start ≤ e.timestamp)
      × (e.timing.since_session_start_ms ≡ pos (e.timestamp - start))
      × NotNegative e.timing.since_previous_event_ms

  event_of-IsTimed :
      (start t : ℕ) (r : Request J) (session : Session)
      → Until start t session
      → t ≤ r.timestamp
      → IsTimed start (event_of r session).1
  unfolding event_of next_session_seq session_timing difference
  event_of-IsTimed start t r session (le, started, last) onwards = rw started (
    omega arith,
    ground arith,
    since-NotNegative t r.timestamp session.last_event_ts onwards last,
  )

  event_of-Until :
      (start t : ℕ) (r : Request J) (session : Session)
      → Until start t session
      → t ≤ r.timestamp
      → Until start r.timestamp (event_of r session).0
  unfolding event_of next_session_seq session_timing
  event_of-Until start t r session (le, started, last) onwards =
      rw started (omega arith, refl, omega arith)

  -- Events that are built in a session with a start, on a clock that does not run backwards and is
  -- no earlier than the start and the session's last event, with logins between them that bring no
  -- later event and with requests that raise: each event tells how long after the start it stands,
  -- and no event stands before the one that it follows.
  pub events_of-IsTimed :
      (start t : ℕ) (steps : List (Step J)) (session : Session)
      → Until start t session
      → Onwards t steps
      → All (IsTimed start) (events_of steps session)
  unfolding events_of take_step one_more build_event take_over
  events_of-IsTimed start t [] session u o = tt
  events_of-IsTimed start t (takes_over sess ∷ steps) session (le, started, last) (h, o) =
      events_of-IsTimed start t steps (take_over session sess)
        (le, rw started refl, NotAfter-or_else t session.last_event_ts sess.last_event_ts last h) o
  events_of-IsTimed start t (builds r ∷ steps) session u (h, o) =
      elim (Bool-cases (member r.event_type event_types)) [
        | inr e ↦ rw e (
            events_of-IsTimed start r.timestamp steps session
              (Until-later start t r.timestamp session h u) o)
        | inl e ↦ rw e (
          event_of-IsTimed start t r session u h,
          events_of-IsTimed start r.timestamp steps (event_of r session).0
              (event_of-Until start t r session u h) o,
        )
      ]
