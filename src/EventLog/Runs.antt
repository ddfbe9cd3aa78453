-- ===== src/EventLog/Runs.antt =====
-- Runs of a session's events (src/logging_pipeline/canonical_log_utils.py), with the logins between
-- them (src/honeypots/ssh_honeypot.py).
use honey_mind.Prelude.{ℕ, Text, or_else, List, [], ◌∷◌, ◌++◌, Option, none, some}
use honey_mind.EventLog.{Session, Request, Event, build_event}

-- the entries that the session of an action brings
pub record ActionSession : Type 0 where
  pub session_start_ts : Option ℕ
  pub last_event_ts : Option ℕ
  pub client_ip : Option Text
  pub username : Option Text

-- What a login does to the session: it takes over the entries of the action's session, but keeps
-- its identifier, its number, and the times that it has (src/honeypots/ssh_honeypot.py).
unfoldable pub take_over : Session → ActionSession → Session
take_over session sess = record session {
  session_start_ts = or_else session.session_start_ts sess.session_start_ts;
  last_event_ts = or_else session.last_event_ts sess.last_event_ts;
  client_ip = or_else sess.client_ip session.client_ip;
  username = or_else sess.username session.username;
}

-- what happens to a session: events are built, and a login takes over the session of the action
pub data Step (J : Type 0) : Type 0 where
  builds : Request J → Step J
  takes_over : ActionSession → Step J

module _ {J : Type 0} where
  unfoldable pub one_more :
      List (Event J) → Option (Session × Event J) → Session → Session × List (Event J)
  one_more seen none session = (session, seen)
  one_more seen (some (session', e)) session = (session', e ∷ seen)

  -- a step, with the events that it builds: an unknown type raises and builds none
  unfoldable pub take_step : Step J → Session → Session × List (Event J)
  unfolding one_more
  take_step (builds r) session = one_more [] (build_event r session) session
  take_step (takes_over sess) session = (take_over session sess, [])

  -- all events of a run, in order
  unfoldable pub events_of : List (Step J) → Session → List (Event J)
  events_of [] session = []
  events_of (s ∷ steps) session =
      let (session', here) = take_step s session in here ++ events_of steps session'
