-- ===== src/Cache/Chain.antt =====
-- `ChainedDataHandler.query` of src/infra/chained_data_handler.py and `ChainedHoneypotAction` of
-- src/infra/chain_honeypot_action.py, over handlers that change a session.
use honey_mind.Prelude.{
  Bool, false, if◌then◌else◌, Text, List, [], ◌∷◌, ◌++◌, Option, none, some, get_or, ◌≡◌, refl,
}

-- what a handler's `query` does: it raises, returns `None`, or returns a result
pub data Outcome (R : Type 0) : Type 0 where
  raised : Outcome R
  nothing : Outcome R
  result : R → Outcome R

abbrev pub Handlers : Type 0 → Type 0 → Type 0
Handlers S R = List (S → Text → S × Outcome R)

module _ {S R : Type 0} where
  -- the loop: the first result that is not `None`; an exception is logged
  pub consult : Handlers S R → S → Text → S × Option R
  consult [] session command = (session, none)
  consult (handler ∷ handlers) session command =
      let (session', outcome) = handler session command in
      let rest = consult handlers session' command in
      elim outcome [ raised ↦ rest | nothing ↦ rest | result r ↦ (session', some r) ]

  -- `query`, with the answer that no handler gave as an argument
  unfoldable pub query : R → Handlers S R → S → Text → S × R
  unfolding consult
  query not_handled handlers session command =
      let (session', found) = consult handlers session command in
      (session', get_or found not_handled)

  -- what the handlers behind the first ones add to what these found
  pub continue_with : Handlers S R → Text → S × Option R → S × Option R
  unfolding consult
  continue_with handlers command (session, none) = consult handlers session command
  continue_with handlers command (session, some r) = (session, some r)

  -- Handlers in front of others decide alone where one of them gives a result; otherwise the others
  -- are asked, in the session that the first ones left.
  pub consult-append :
      (xs ys : Handlers S R) (session : S) (command : Text)
      → consult (xs ++ ys) session command ≡ continue_with ys command (consult xs session command)
  unfolding consult continue_with
  consult-append [] ys session command = refl
  consult-append (x ∷ xs) ys session command =
      split (x session command).0 (x session command).1
        (consult-append xs ys (x session command).0 command)
    where
      split :
          (session' : S) (outcome : Outcome R)
          → consult (xs ++ ys) session' command
            ≡ continue_with ys command (consult xs session' command)
          → elim outcome [
            | raised ↦ consult (xs ++ ys) session' command
            | nothing ↦ consult (xs ++ ys) session' command
            | result r ↦ (session', some r)
          ]
            ≡ continue_with ys command (elim outcome [
              | raised ↦ consult xs session' command
              | nothing ↦ consult xs session' command
              | result r ↦ (session', some r)
            ])
      split session' raised rest = rest
      split session' nothing rest = rest
      split session' (result r) rest = refl

  -- `connect`, `query` and `request` of `ChainedHoneypotAction`: the outer action, and the inner
  -- one where its result is falsy
  unfoldable pub outer_or_inner : (R → Bool) → (S → S × R) → (S → S × R) → S → S × R
  outer_or_inner is_falsy outer inner session =
      let (session', r) = outer session in
      let second = inner session' in if is_falsy r then second else (session', r)

  -- Where the outer action gives nothing falsy, the inner one is never asked.
  outer_alone :
      (is_falsy : R → Bool) (outer inner : S → S × R) (session : S)
      → is_falsy (outer session).1 ≡ false
      → outer_or_inner is_falsy outer inner session ≡ outer session
  unfolding outer_or_inner
  outer_alone is_falsy outer inner session kept = rw kept refl
