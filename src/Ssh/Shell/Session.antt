-- ===== src/Ssh/Shell/Session.antt =====
-- What a whole shell does to the session of the action behind it (src/honeypots/ssh_honeypot.py).
use honey_mind.Prelude.{
  ℕ, Text, codes, eqb, lower, strip, true, false, List, [], ◌∷◌, ◌++◌, Option, some, All, ◌≡◌, refl,
  ap, ◌∙◌,
}
use honey_mind.Ssh.Shell.{
  Backend, sent, closed, new_line, Ran, run_line, read_line, before, is_leaving,
}
use honey_mind.Ssh.Shell.Typing.{IsPlain, echo, typed, entering}

-- A relation of an earlier session to a later one that the action keeps: it holds of a session and
-- itself, it composes, and it holds over a query, whether it raises or not, over taking the parser
-- action out, and over logging a command.
pub record Maintained (S : Type 0) (backend : Backend S) (R : S → S → Type 0) : Type 0 where
  pub reflexive : (s : S) → R s s
  pub transitive : (s t u : S) → R s t → R t u → R s u
  pub asked :
      (query : Text → S → S × Option Text) (command : Text) (s : S)
      → backend.query ≡ some query
      → R s (query command s).0
  pub popped : (s : S) → R s (backend.pop_parser_action s).0
  pub logged :
      (raw response parser_action : Text) (s : S)
      → R s (backend.log_command raw response parser_action s)

not_blank : (command : Text) → is_leaving command ≡ true → eqb command [] ≡ false
unfolding is_leaving lower eqb
not_blank [] h = cc
not_blank (c ∷ s) h = refl

run_line-leaving :
    (S : Type 0) (backend : Backend S) (session : S) (line : Text)
    → is_leaving (strip line) ≡ true
    → run_line backend line session ≡ record {
      session = session;
      events = sent (codes "\r\nConnection closed.\r\n") ∷ [];
      reads_on = false;
    }
unfolding run_line
run_line-leaving S backend session line h = rw (not_blank (strip line) h, h) refl

-- A plain line that names one of the leaving commands, in any case and with white space around it,
-- ends the shell: nothing behind it is read, and the session is as before.
pub leaving_ends :
    (S : Type 0) (backend : Backend S) (prompt : S → Text) (session : S)
    → (t : Text) (rest : List ℕ) → All IsPlain t
    → is_leaving (strip t) ≡ true
    → read_line backend prompt (t ++ 13 ∷ rest) new_line session
      ≡ (session, echo t ++ sent (codes "\r\nConnection closed.\r\n") ∷ closed ∷ [])
unfolding read_line
leaving_ends S backend prompt session t rest h leaving =
    let left = run_line-leaving S backend session t leaving in
    typed backend prompt session t [] (13 ∷ rest) h
    ∙ rw (entering t, read_line)
        (rw (left, before)
          (ap (λ (ran : Ran S). (ran.session, echo t ++ (ran.events ++ closed ∷ []))) left))
