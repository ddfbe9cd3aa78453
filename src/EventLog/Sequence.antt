-- ===== src/EventLog/Sequence.antt =====
-- The numbers and the identifier of a session's events
-- (src/logging_pipeline/canonical_log_utils.py).
use honey_mind.Prelude.{
  ℕ, suc, Text, member, length, Bool-cases, All, List, [], ◌∷◌, some, ◌≡◌, inl, inr, refl, ap, ◌∙◌,
}
use honey_mind.EventLog.{
  Session, Request, Event, build_event, event_of, event_types, next_session_seq, session_timing,
}
use honey_mind.EventLog.Runs.{Step, builds, takes_over, take_step, one_more, events_of, take_over}

-- `n` numbers from a first one
abbrev pub count_from : ℕ → ℕ → List ℕ
count_from first ℕ.zero = []
count_from first (suc n) = first ∷ count_from (suc first) n

module _ {J : Type 0} where
  -- the numbers of the events
  abbrev pub numbers : List (Event J) → List ℕ
  numbers [] = []
  numbers (e ∷ events) = e.seq ∷ numbers events

  abbrev pub IsOf : Text → Event J → Type 0
  IsOf id e = e.session_id ≡ id

  -- what the events of a run are, from the session before it
  abbrev AreOf : Session → Text → List (Event J) → Type 0
  AreOf session id events =
      (numbers events ≡ count_from (suc session.seq) (length events)) × All (IsOf id) events

  event_of-seq : (r : Request J) (session : Session) → (event_of r session).1.seq ≡ suc session.seq
  unfolding event_of next_session_seq session_timing
  event_of-seq r session = refl

  event_of-next : (r : Request J) (session : Session) → (event_of r session).0.seq ≡ suc session.seq
  unfolding event_of next_session_seq session_timing
  event_of-next r session = refl

  event_of-id :
      (r : Request J) (session : Session) (id : Text)
      → session.session_id ≡ some id
      → ((event_of r session).1.session_id ≡ id) × ((event_of r session).0.session_id ≡ some id)
  unfolding event_of next_session_seq session_timing
  event_of-id r session id h = rw h (refl, refl)

  -- Events that are built in a session with an identifier, with logins between them and with
  -- requests of unknown types that raise: their numbers follow one another without a gap, from the
  -- one behind the session's, and they have its identifier.
  pub events_of-numbers :
      (steps : List (Step J)) (session : Session) (id : Text)
      → session.session_id ≡ some id
      → (numbers (events_of steps session)
          ≡ count_from (suc session.seq) (length (events_of steps session)))
        × All (λ e. e.session_id ≡ id) (events_of steps session)
  unfolding events_of take_step one_more build_event take_over
  events_of-numbers [] session id h = (refl, tt)
  events_of-numbers (takes_over sess ∷ steps) session id h =
      events_of-numbers steps (take_over session sess) id h
  events_of-numbers (builds r ∷ steps) session id h =
      elim (Bool-cases (member r.event_type event_types)) [
        | inr e ↦ rw e (events_of-numbers steps session id h)
        | inl e ↦
            let (here, later) = event_of-id r session id h in
            let next = (event_of r session).0 in
            let (numbered, ids) = events_of-numbers steps next id later in
            let more = events_of steps next in
            rw e (
              ap (λ n. n ∷ numbers more) (event_of-seq r session)
                  ∙ ap (◌∷◌ (suc session.seq)) (
                      numbered
                      ∙ ap (λ n. count_from (suc n) (length more)) (event_of-next r session)),
              (here, ids),
            )
      ]
