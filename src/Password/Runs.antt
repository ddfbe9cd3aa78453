-- ===== src/Password/Runs.antt =====
-- How long src/core/password_manager.py keeps a client waiting: the tracked counts stay below their
-- thresholds, and so a client is accepted within the maximal number of attempts.
use honey_mind.Prelude.{
  ℕ, ◌+◌, ◌≤◌, ◌<◌, Text, eqb, eqb_iff, member, length, Bool, true, false, Bool-cases, ◌∷◌,
  Option-cases, sym, ap, ◌∙◌, none, some, ◌≡◌, arith, inl, inr, lookup, insert, lookup-insert,
  lookup-remove, ltb, if◌then◌else◌,
}
use honey_mind.Password.{
  Manager, Tracking, Login, attempt, counted_attempt, tracking_key, state, record_attempt,
}

-- Every tracked client has fewer attempts than its threshold, which is within the bounds.
pub record IsValid (m : Manager) : Type 0 where
  pub waiting :
      (key : Text) (t : Tracking)
      → lookup key m.tracking ≡ some t
      → (t.count < t.threshold) × (t.threshold ≤ m.config.max_attempts)

-- what `random.randint(min, max)` promises, where the minimum is positive
pub record DrawsFairly (m : Manager) (l : Login) : Type 0 where
  pub positive : 0 < l.drawn_threshold
  pub at_most : l.drawn_threshold ≤ m.config.max_attempts

-- the entry of a client after a counted attempt that failed
abbrev pub counted : Manager → Login → Text → Tracking
counted m l key = record {
  threshold = (state m.tracking key l.drawn_threshold).threshold;
  count = (state m.tracking key l.drawn_threshold).count + 1;
}

-- The tracking after a counted attempt: the client is forgotten at a success, and is one attempt
-- further otherwise; no other client is touched.
pub tracking-counted_attempt :
    (m : Manager) (l : Login) (key k : Text)
    → lookup k (counted_attempt m l key).0.tracking ≡ (
        if eqb key k
        then (if (counted_attempt m l key).1.success then none else some (counted m l key))
        else lookup k m.tracking)
unfolding counted_attempt
tracking-counted_attempt m l key k =
    let e = counted m l key in
    ground (
      arith,
      eqb_iff key k,
      lookup-insert key k e m.tracking,
      lookup-remove key k (insert key e m.tracking),
    )

-- A counted attempt that fails leaves the count below the threshold.
failed-counted_attempt :
    (m : Manager) (l : Login) (key : Text)
    → (counted_attempt m l key).1.success ≡ false
    → (counted m l key).count < (counted m l key).threshold
unfolding counted_attempt
failed-counted_attempt m l key h = ground arith

state-threshold :
    (m : Manager) (l : Login) (key : Text)
    → IsValid m
    → DrawsFairly m l
    → (state m.tracking key l.drawn_threshold).threshold ≤ m.config.max_attempts
unfolding state
state-threshold m l key v d = elim (Option-cases (lookup key m.tracking)) [
  | inl e ↦ rw e d.at_most
  | inr (t, e) ↦ rw e (v.waiting key t e).1
]

config-counted_attempt :
    (m : Manager) (l : Login) (key : Text) → (counted_attempt m l key).0.config ≡ m.config
unfolding counted_attempt
config-counted_attempt m l key = ground arith

counted_attempt-IsValid :
    (m : Manager) (l : Login) (key : Text)
    → IsValid m
    → DrawsFairly m l
    → IsValid (counted_attempt m l key).0
counted_attempt-IsValid m l key v d = record {
  waiting = λ k t h. ground (
    arith,
    tracking-counted_attempt m l key k,
    failed-counted_attempt m l key,
    state-threshold m l key v d,
    config-counted_attempt m l key,
    v.waiting k t,
  );
}

record_attempt-keeps :
    (m : Manager) (l : Login) (n t : ℕ) (b : Bool)
    → ((record_attempt m l n t b).0.tracking ≡ m.tracking)
      × ((record_attempt m l n t b).0.config ≡ m.config)
unfolding record_attempt
record_attempt-keeps m l n t b = ground arith

IsValid-same :
    (m n : Manager) → n.tracking ≡ m.tracking → n.config ≡ m.config → IsValid m → IsValid n
IsValid-same m n t c v = record {
  waiting = λ k e h. ground (arith, v.waiting k e (ap (lookup k) (sym t) ∙ h));
}

-- Where the drawn threshold is positive and within the maximum, an attempt keeps the tracked
-- counts below their thresholds, and these within the maximum.
pub attempt-IsValid :
    (m : Manager) (l : Login) → IsValid m → DrawsFairly m l → IsValid (attempt m l).0
unfolding attempt
attempt-IsValid m l v d = elim (Bool-cases (member l.password m.allowed)) [
  | inl a ↦
      let (t, c) = record_attempt-keeps m l 1 1 true in
      rw a (IsValid-same m (record_attempt m l 1 1 true).0 t c v)
  | inr a ↦ rw a (elim (Bool-cases (ltb m.config.max_length (length l.password))) [
    | inl b ↦
        let listed = record m { blacklist = l.password ∷ m.blacklist } in
        let (t, c) = record_attempt-keeps listed l 0 0 false in
        rw b (IsValid-same m (record_attempt listed l 0 0 false).0 t c v)
    | inr b ↦ rw b (counted_attempt-IsValid m l (tracking_key l.client_ip l.session_id) v d)
  ])
]
