-- ===== src/EventLog/Logger/Counts.antt =====
-- What the logging methods count (src/honeypots/base_honeypot.py), and what the event of an end
-- reports.
use honey_mind.Prelude.{
  ℕ, suc, ◌+◌, Text, codes, eqb, Bool, false, ◌||◌, List, [], ◌∷◌, Option, none, some, get_or, ◌≡◌,
  refl, ap, ◌∙◌, arith,
}
use honey_mind.Redis.Integers.{ℤ}
use honey_mind.EventLog.{
  Session, Event, build_event, event_of, difference, next_session_seq, session_timing,
}
use honey_mind.EventLog.Logger.{
  Payload, auth_payload, end_payload, Context, request, log_session_start, end_details,
  log_session_end, Attempt, count_attempt, log_auth_attempt, log_command, Call, starts, attempts,
  commands, call, left_by, session_after,
}

-- the calls that are attempts, successful attempts, and commands
abbrev pub attempts_in : List (Context × Call) → ℕ
attempts_in [] = 0
attempts_in ((ctx, starts ip username) ∷ calls) = attempts_in calls
attempts_in ((ctx, attempts a) ∷ calls) = suc (attempts_in calls)
attempts_in ((ctx, commands raw r p x ip username) ∷ calls) = attempts_in calls

abbrev pub success_in : List (Context × Call) → Bool
success_in [] = false
success_in ((ctx, starts ip username) ∷ calls) = success_in calls
success_in ((ctx, attempts a) ∷ calls) = a.success || success_in calls
success_in ((ctx, commands raw r p x ip username) ∷ calls) = success_in calls

abbrev pub commands_in : List (Context × Call) → ℕ
commands_in [] = 0
commands_in ((ctx, starts ip username) ∷ calls) = commands_in calls
commands_in ((ctx, attempts a) ∷ calls) = commands_in calls
commands_in ((ctx, commands raw r p x ip username) ∷ calls) = suc (commands_in calls)

-- a session's counts
abbrev Counts : Session → ℕ → Bool → ℕ → Type 0
Counts session n ok c =
    (session.auth_attempts ≡ n) × (session.auth_success ≡ ok) × (session.commands ≡ c)

Counts-run :
    (calls : List (Context × Call)) (session : Session)
    → Counts
        (session_after calls session)
        (session.auth_attempts + attempts_in calls)
        (session.auth_success || success_in calls)
        (session.commands + commands_in calls)
unfolding session_after call left_by log_session_start log_auth_attempt log_command count_attempt
    build_event event_of next_session_seq session_timing request eqb
Counts-run [] session = (omega arith, ground arith, omega arith)
Counts-run ((ctx, starts ip username) ∷ calls) session =
    Counts-run calls (left_by session (log_session_start ctx ip username session))
Counts-run ((ctx, attempts a) ∷ calls) session =
    let (n, ok, c) = Counts-run calls (left_by session (log_auth_attempt ctx a session)) in
    (omega (arith, n), ground (arith, ok), c)
Counts-run ((ctx, commands raw r p x ip username) ∷ calls) session =
    let (n, ok, c) =
      Counts-run calls (left_by session (log_command ctx raw r p x ip username session)) in
    (n, ok, omega (arith, c))

end_event :
    (ctx : Context) (ip username reason : Option Text) (session : Session)
    → (e : Event Payload) × (s' : Session) × (log_session_end ctx ip username reason session
        ≡ some (s', e))
      × (e.details ≡ some (end_details ctx reason session))
unfolding log_session_end build_event request eqb event_of next_session_seq session_timing
end_event ctx ip username reason session =
    let r =
      request ctx (codes "session_end") ip username none none
        (some (end_details ctx reason session)) session in
    ((event_of r session).1, (event_of r session).0, refl, refl)

-- Whatever calls a session had, its end is logged, and the event reports as many attempts and
-- commands as the session counted before and the calls made, and that it is authenticated exactly
-- where it was before or one of the attempts succeeded.
pub session_end-counts :
    (ctx : Context) (ip username reason : Option Text) (calls : List (Context × Call))
    (session : Session)
    → (e : Event Payload) × (s' : Session) × (duration : ℤ) × (log_session_end ctx ip username
          reason
          (session_after calls session)
        ≡ some (s', e))
      × (e.details
          ≡ some (
              end_payload duration
                (session.auth_attempts + attempts_in calls)
                (session.commands + commands_in calls)
                (session.auth_success || success_in calls)
                reason))
unfolding end_details
session_end-counts ctx ip username reason calls session =
    let after = session_after calls session in
    let (e, s', logged, details) = end_event ctx ip username reason after in
    let (n, ok, c) = Counts-run calls session in
    let duration = difference ctx.now (get_or after.session_start_ts ctx.now) in
    (
      e,
      s',
      duration,
      logged,
      details
          ∙ ap (λ k. some (end_payload duration k after.commands after.auth_success reason)) n
          ∙ ap
              (λ k. some (
                end_payload duration (session.auth_attempts + attempts_in calls) k
                  after.auth_success reason))
              c
          ∙ ap
              (λ k. some (
                end_payload duration (session.auth_attempts + attempts_in calls)
                  (session.commands + commands_in calls) k reason))
              ok,
    )

-- an attempt is logged, and counted
pub attempt_logged :
    (ctx : Context) (a : Attempt) (session : Session)
    → (s' : Session) × (e : Event Payload) × (log_auth_attempt ctx a session ≡ some (s', e))
      × (s'.auth_attempts ≡ session.auth_attempts + 1)
      × (s'.auth_success ≡ (session.auth_success || a.success))
      × (e.auth ≡ some (auth_payload a.password a.attempt_number a.required_attempts a.success))
unfolding log_auth_attempt build_event request eqb event_of next_session_seq session_timing
    count_attempt
attempt_logged ctx a session =
    let counted = count_attempt a session in
    let r =
      request ctx (codes "auth_attempt") a.client_ip (some a.username)
        (some (auth_payload a.password a.attempt_number a.required_attempts a.success)) none none
        counted in
    ((event_of r counted).0, (event_of r counted).1, refl, refl, refl, refl)
