-- ===== src/Password/Accept.antt =====
-- What src/core/password_manager.py accepts, it accepts again, from every client.
use honey_mind.Prelude.{Text, eqb_refl, member, true, List, [], ◌∷◌, ◌≡◌, refl, arith}
use honey_mind.Password.{Manager, Login, attempt, attempts}
use honey_mind.Password.Reject.{attempt_allowed, allowed-attempt}

allowed-attempts :
    (m : Manager) (ls : List Login) (p : Text)
    → member p m.allowed ≡ true
    → member p (attempts m ls).0.allowed ≡ true
unfolding attempts
allowed-attempts m [] p h = h
allowed-attempts m (l ∷ ls) p h =
    allowed-attempts (attempt m l).0 ls p (rw (allowed-attempt m l p, h) refl)

-- Once an attempt is accepted, its password is accepted from then on: at the first attempt of any
-- client, with any random draws, whatever attempts come between.
pub accepted_again :
    (m : Manager) (l : Login) (ls : List Login) (l' : Login)
    → (attempt m l).1.success ≡ true
    → l'.password ≡ l.password
    → (attempt (attempts (attempt m l).0 ls).0 l').1.success ≡ true
accepted_again m l ls l' accepted same =
    let still =
      allowed-attempts (attempt m l).0 ls l'.password
        (rw (allowed-attempt, same, eqb_refl, accepted) (ground arith)) in
    let (yes', _, _) = attempt_allowed (attempts (attempt m l).0 ls).0 l' still in yes'
