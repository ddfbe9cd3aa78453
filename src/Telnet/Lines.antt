-- ===== src/Telnet/Lines.antt =====
-- What the reader of a line of src/honeypots/telnet_honeypot.py shows and returns, and that the
-- shell ends.
use honey_mind.Prelude.{
  ℕ, zero, suc, ◌-◌, ◌<◌, Text, codes, take, length, Bool, true, false, ◌||◌, ◌==◌, Bool-cases,
  Option-cases, All, List, [], ◌∷◌, ◌++◌, if◌then◌else◌, Option, none, some, ◌≡◌, ◌≢◌, ◌⊎◌, inl,
  inr, refl, arith,
}
use honey_mind.Telnet.{
  Read, wrote, erase, read_line, Run, out_of_fuel, stopped, goodbye_run, answer, is_leaving, serve,
  shell,
}

-- a star, or the erasure of one
abbrev pub IsHidden : Text → Type 0
IsHidden t = (t ≡ codes "*") ⊎ (t ≡ 8 ∷ 32 ∷ 8 ∷ [])

-- what `read_line` does with a character, as equations
module _ (isprintable : ℕ → Bool) where
  -- a case on the kind of a character, for a statement about what is read
  by_kind :
      (P : Read → Type 0) (echo : Bool) (char : ℕ) (rest : List ℕ) (word : Text)
      → P (record { line = some word; rest = rest; written = [] })
      → P (erase word (read_line isprintable echo rest))
      → (isprintable char ≡ true
          → P (
              wrote
                (if echo then char ∷ [] else codes "*")
                (read_line isprintable echo rest (word ++ char ∷ []))))
      → P (read_line isprintable echo rest word)
      → P (read_line isprintable echo (char ∷ rest) word)
  unfolding read_line
  by_kind P echo char rest word ended erased printed skipped =
      elim (Bool-cases ((char == 13) || (char == 10))) [
        | inl e ↦ rw (e, read_line) ended
        | inr e ↦ elim (Bool-cases ((char == 8) || (char == 127))) [
          | inl d ↦ rw (e, read_line) (rw d erased)
          | inr d ↦ elim (Bool-cases (isprintable char)) [
            | inl p ↦ rw (e, read_line) (rw (d, p) (printed p))
            | inr p ↦ rw (e, read_line) (rw (d, p) skipped)
          ]
        ]
      ]

  erase-IsHidden :
      (word : Text) (next : Text → Read)
      → ((w : Text) → All IsHidden (next w).written)
      → All IsHidden (erase word next).written
  unfolding erase
  erase-IsHidden [] next h = h []
  erase-IsHidden (c ∷ word) next h = (inr refl, h (take (length (c ∷ word) - 1) (c ∷ word)))

  -- While a password is read, only stars and their erasures are written, whatever is typed.
  pub password-IsHidden :
      (chars : List ℕ) (word : Text) → All IsHidden (read_line isprintable false chars word).written
  unfolding read_line
  password-IsHidden [] word = tt
  password-IsHidden (char ∷ rest) word =
      by_kind (λ r. All IsHidden r.written) false char rest word tt
        (erase-IsHidden word (read_line isprintable false rest) (λ w. password-IsHidden rest w))
        (λ p. (inl refl, password-IsHidden rest (word ++ char ∷ []))) (password-IsHidden rest word)

  -- a line leaves less to read than a number
  abbrev pub Shorter : ℕ → Read → Type 0
  Shorter n r = (line : Text) → r.line ≡ some line → length r.rest < n

  erase-Shorter :
      (n : ℕ) (word : Text) (next : Text → Read)
      → ((w : Text) → Shorter n (next w))
      → Shorter n (erase word next)
  unfolding erase
  erase-Shorter n [] next h = h []
  erase-Shorter n (c ∷ word) next h = h (take (length (c ∷ word) - 1) (c ∷ word))

  later : (n : ℕ) (r : Read) → Shorter n r → Shorter (suc n) r
  later n r h line e = omega (arith, h line e)

  pub read_line-Shorter :
      (echo : Bool) (chars : List ℕ) (word : Text)
      → Shorter (length chars) (read_line isprintable echo chars word)
  unfolding read_line
  read_line-Shorter echo [] word = λ line e. cc
  read_line-Shorter echo (char ∷ rest) word =
      let n = length rest in
      by_kind (Shorter (suc n)) echo char rest word (λ line e. omega arith)
        (erase-Shorter (suc n) word (read_line isprintable echo rest)
          (λ w. later n (read_line isprintable echo rest w) (read_line-Shorter echo rest w)))
        (λ p.
          later n (read_line isprintable echo rest (word ++ char ∷ []))
            (read_line-Shorter echo rest (word ++ char ∷ [])))
        (later n (read_line isprintable echo rest word) (read_line-Shorter echo rest word))

module _ {S : Type 0} (isprintable : ℕ → Bool) (query : Text → S → S × Option Text)
    (log_data : Text → Option Text → S → S) (prompt : Text) where
  -- an end that is the program's own
  abbrev pub Ended : Run S → Type 0
  Ended r = r.ending ≢ out_of_fuel

  answer-Ended :
      (line : Text) (r : S × Option Text) (next : S → Run S)
      → ((s : S) → Ended (next s))
      → Ended (answer isprintable query log_data prompt line r next)
  unfolding answer stopped
  answer-Ended line (session, none) next h = λ e. cc e
  answer-Ended line (session, some response) next h = h (log_data line (some response) session)

  serve-Ended :
      (fuel : ℕ) (chars : List ℕ) (session : S)
      → length chars < fuel
      → Ended (serve isprintable query log_data prompt fuel chars session)
  unfolding serve stopped goodbye_run
  serve-Ended zero chars session h = absurd (omega arith)
  serve-Ended (suc fuel) chars session h =
      let r = read_line isprintable true chars [] in
      elim (Option-cases r.line) [
        | inl e ↦ rw (e, serve) (λ x. cc x)
        | inr (line, e) ↦ elim (Bool-cases (is_leaving line)) [
          | inl l ↦ rw (e, serve) (rw l (λ x. cc x))
          | inr l ↦
              rw (e, serve)
                (rw l (
                  answer-Ended line (query line session)
                    (serve isprintable query log_data prompt fuel r.rest)
                    (λ s.
                      serve-Ended fuel r.rest s
                        (omega (arith, read_line-Shorter isprintable true chars [] line e)))))
        ]
      ]

  -- The shell ends by itself, whatever is typed and whatever the action answers: the client leaves,
  -- the connection is closed, or the action raises.
  pub shell-Ended :
      (chars : List ℕ) (session : S) → Ended (shell isprintable query log_data prompt chars session)
  unfolding shell
  shell-Ended chars session = serve-Ended (suc (length chars)) chars session (omega arith)
