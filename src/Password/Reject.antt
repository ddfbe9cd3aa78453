-- ===== src/Password/Reject.antt =====
-- Which attempts src/core/password_manager.py refuses: a password that is too long stays refused.
use honey_mind.Prelude.{
  ◌<◌, Text, eqb, eqb_iff, member, length, true, false, Bool-cases, List, [], ◌∷◌, ◌≡◌, refl, arith,
  inl, inr, ◌||◌, ◌&&◌, ◌∙◌,
}
use honey_mind.Password.{Manager, Login, attempt, attempts, counted_attempt, record_attempt}

-- An attempt with a password that is allowed is accepted at once, and counts for no client.
pub attempt_allowed :
    (m : Manager) (l : Login)
    → member l.password m.allowed ≡ true
    → ((attempt m l).1.success ≡ true)
      × ((attempt m l).0.allowed ≡ m.allowed)
      × ((attempt m l).0.tracking ≡ m.tracking)
unfolding attempt record_attempt
attempt_allowed m l h = ground arith

attempt_too_long :
    (m : Manager) (l : Login)
    → member l.password m.allowed ≡ false
    → m.config.max_length < length l.password
    → ((attempt m l).1.success ≡ false)
      × ((attempt m l).0.allowed ≡ m.allowed)
      × ((attempt m l).0.tracking ≡ m.tracking)
      × ((attempt m l).0.blacklist ≡ l.password ∷ m.blacklist)
unfolding attempt record_attempt
attempt_too_long m l h long = ground arith

-- What an attempt allows afterwards: what was allowed, and its own password if it is accepted.
pub allowed-attempt :
    (m : Manager) (l : Login) (p : Text)
    → member p (attempt m l).0.allowed
      ≡ (member p m.allowed || (eqb p l.password && (attempt m l).1.success))
unfolding attempt counted_attempt record_attempt
allowed-attempt m l p = ground (arith, eqb_iff p l.password)

pub config-attempt : (m : Manager) (l : Login) → (attempt m l).0.config ≡ m.config
unfolding attempt counted_attempt record_attempt
config-attempt m l = ground arith

-- An attempt accepts no new password that is too long, so it stays new.
too_long-attempt :
    (m : Manager) (l : Login) (p : Text)
    → member p m.allowed ≡ false
    → m.config.max_length < length p
    → member p (attempt m l).0.allowed ≡ false
too_long-attempt m l p new long = elim (Bool-cases (eqb p l.password)) [
  | inl same ↦
      let e = (eqb_iff p l.password).0 same in
      ground (arith, allowed-attempt m l p, attempt_too_long m l)
  | inr other ↦ ground (arith, allowed-attempt m l p)
]

too_long-attempts :
    (m : Manager) (ls : List Login) (p : Text)
    → member p m.allowed ≡ false
    → m.config.max_length < length p
    → (member p (attempts m ls).0.allowed ≡ false) × ((attempts m ls).0.config ≡ m.config)
unfolding attempts
too_long-attempts m [] p new long = (new, refl)
too_long-attempts m (l ∷ ls) p new long =
    let (n, e) =
      too_long-attempts (attempt m l).0 ls p (too_long-attempt m l p new long)
        (rw config-attempt long) in
    (n, e ∙ config-attempt m l)

-- A password that is longer than the maximum and not allowed is refused, whatever attempts, by
-- whatever clients and with whatever random draws, came before it.
pub too_long_never_accepted :
    (m : Manager) (ls : List Login) (l : Login)
    → member l.password m.allowed ≡ false
    → m.config.max_length < length l.password
    → (attempt (attempts m ls).0 l).1.success ≡ false
too_long_never_accepted m ls l new long =
    let (n, e) = too_long-attempts m ls l.password new long in
    (attempt_too_long (attempts m ls).0 l n (rw e long)).0
