-- ===== src/Password/Within.antt =====
-- A client of src/core/password_manager.py is accepted within the maximal number of attempts.
use honey_mind.Prelude.{
  ℕ, ◌+◌, ◌≤◌, ◌<◌, Text, eqb_refl, member, length, any_of, true, false, Bool-cases, List, [], ◌∷◌,
  All, Option, Option-cases, sym, ap, ◌∙◌, none, some, ◌≡◌, refl, arith, inl, inr, lookup, Dict,
  ltb,
}
use honey_mind.Password.{
  Manager, Tracking, Login, attempt, attempts, counted_attempt, tracking_key, state,
}
use honey_mind.Password.Reject.{attempt_allowed, config-attempt}
use honey_mind.Password.Runs.{IsValid, DrawsFairly, tracking-counted_attempt, attempt-IsValid}

-- how often a client has tried since it was last accepted
count_in : Option Tracking → ℕ
count_in none = 0
count_in (some t) = t.count

count_of : Dict Tracking → Text → ℕ
count_of tracking key = count_in (lookup key tracking)

count-state :
    (tracking : Dict Tracking) (key : Text) (drawn : ℕ)
    → (state tracking key drawn).count ≡ count_of tracking key
unfolding count_of count_in state
count-state tracking key drawn = elim (Option-cases (lookup key tracking)) [
  | inl e ↦ rw e
  | inr (t, e) ↦ rw e
]

-- an attempt of the client with a password that is not too long
pub record Tries (m : Manager) (key : Text) (l : Login) : Type 0 where
  pub same_client : tracking_key l.client_ip l.session_id ≡ key
  pub short : length l.password ≤ m.config.max_length
  pub fair : DrawsFairly m l

le→ltb : (a b : ℕ) → b ≤ a → ltb a b ≡ false
le→ltb a b h = ground arith

attempt-counted :
    (m : Manager) (key : Text) (l : Login)
    → Tries m key l
    → (attempt m l).1.success ≡ false
    → attempt m l ≡ counted_attempt m l key
unfolding attempt
attempt-counted m key l h fails = elim (Bool-cases (member l.password m.allowed)) [
  | inl a ↦ let (accepted, _, _) = attempt_allowed m l a in cc (accepted)
  | inr a ↦ rw (a, le→ltb _ _ h.short, h.same_client)
]

count-counted :
    (m : Manager) (key : Text) (l : Login)
    → (counted_attempt m l key).1.success ≡ false
    → count_of (counted_attempt m l key).0.tracking key ≡ count_of m.tracking key + 1
count-counted m key l fails =
    let e = tracking-counted_attempt m l key key in
    unfold count_of count_in in
    rw (e, eqb_refl, fails) (ap (λ n. n + 1) (count-state m.tracking key l.drawn_threshold))

count_of-lt :
    (m : Manager) (key : Text)
    → IsValid m
    → 0 < m.config.max_attempts
    → count_of m.tracking key < m.config.max_attempts
unfolding count_of count_in
count_of-lt m key v pos = elim (Option-cases (lookup key m.tracking)) [
  | inl e ↦ rw e pos
  | inr (t, e) ↦ rw e (omega (arith, v.waiting key t e))
]

short-config :
    (m : Manager) (key : Text) (l x : Login) → Tries m key x → Tries (attempt m l).0 key x
short-config m key l x h = record {
  same_client = h.same_client;
  short = rw config-attempt h.short;
  fair = record { positive = h.fair.positive; at_most = rw config-attempt h.fair.at_most };
}

all_try_after :
    (m : Manager) (key : Text) (l : Login) (ls : List Login)
    → All (Tries m key) ls
    → All (Tries (attempt m l).0 key) ls
all_try_after m key l [] h = tt
all_try_after m key l (x ∷ ls) (hx, hs) = (short-config m key l x hx, all_try_after m key l ls hs)

count-failed :
    (m : Manager) (key : Text) (l : Login)
    → Tries m key l
    → (attempt m l).1.success ≡ false
    → count_of (attempt m l).0.tracking key ≡ count_of m.tracking key + 1
count-failed m key l h fails =
    let e = attempt-counted m key l h fails in
    rw e (count-counted m key l (ap (λ r. r.1.success) (sym e) ∙ fails))

within :
    (m : Manager) (key : Text) (ls : List Login)
    → IsValid m
    → 0 < m.config.max_attempts
    → All (Tries m key) ls
    → m.config.max_attempts ≤ count_of m.tracking key + length ls
    → any_of (λ b. b) (attempts m ls).1 ≡ true
unfolding attempts
within m key [] v pos h enough = absurd (omega (arith, count_of-lt m key v pos))
within m key (l ∷ ls) v pos (hl, hs) enough = elim (Bool-cases (attempt m l).1.success) [
  | inl e ↦ rw e refl
  | inr e ↦ rw e (
      within (attempt m l).0 key ls (attempt-IsValid m l v hl.fair) (rw config-attempt pos)
        (all_try_after m key l ls hs)
        (rw config-attempt (omega (arith, count-failed m key l hl e))))
]

-- Where every tracked count is below its threshold and these are within the maximum, a client
-- whose passwords are not too long is accepted at least once in any run of as many attempts as the
-- maximum, where the draws are positive and within the maximum, and the maximum is positive.
pub accepted_within_max :
    (m : Manager) (key : Text) (ls : List Login)
    → IsValid m
    → 0 < m.config.max_attempts
    → All (Tries m key) ls
    → m.config.max_attempts ≤ length ls
    → any_of (λ b. b) (attempts m ls).1 ≡ true
accepted_within_max m key ls v pos h enough = within m key ls v pos h (omega arith)
