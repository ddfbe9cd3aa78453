-- ===== src/Telnet/Login/Ends.antt =====
-- That the login of src/honeypots/telnet_honeypot.py ends by itself.
use honey_mind.Prelude.{
  ℕ, zero, suc, ◌≤◌, ◌<◌, Text, length, Bool, true, false, List, [], Option, Option-cases, none,
  some, Bool-cases, is_some, ◌||◌, ◌≡◌, ◌≢◌, refl, inl, inr, arith,
}
use honey_mind.Password.{Manager, attempt}
use honey_mind.Telnet.{read_line}
use honey_mind.Telnet.Lines.{read_line-Shorter}
use honey_mind.Telnet.Login.{
  Settings, End, out_of_fuel, stripped, ask, with_password, ask_both, login_of, log_in, has_prompts,
}

stripped-rest :
    (o : Option Text) (rest rest' : List ℕ) (text : Text)
    → stripped o rest ≡ some (text, rest')
    → (line : Text) × (o ≡ some line) × (rest' ≡ rest)
unfolding stripped
stripped-rest none rest rest' text h = absurd (ground arith)
stripped-rest (some line) rest rest' text h = (line, refl, ground arith)

-- a question behind a prompt reads a character at least
ask-shorter :
    (p : ℕ → Bool) (echo : Bool) (prompt : Text) (chars rest : List ℕ) (text : Text)
    → ask p echo (some prompt) chars ≡ some (text, rest)
    → length rest < length chars
unfolding ask
ask-shorter p echo prompt chars rest text h =
    let r = read_line p echo chars [] in
    let (line, there, same) = stripped-rest r.line r.rest rest text h in
    rw same (read_line-Shorter p echo chars [] line there)

ask-rest :
    (p : ℕ → Bool) (echo : Bool) (prompt : Option Text) (chars rest : List ℕ) (text : Text)
    → ask p echo prompt chars ≡ some (text, rest)
    → length rest ≤ length chars
ask-rest p echo none chars rest text h =
    let same : chars ≡ rest = unfold ask in ground arith in rw same (omega arith)
ask-rest p echo (some prompt) chars rest text h =
    omega (arith, ask-shorter p echo prompt chars rest text h)

with_password-some :
    (username u w : Text) (o : Option (Text × List ℕ)) (rest : List ℕ)
    → with_password username o ≡ some (u, w, rest)
    → o ≡ some (w, rest)
unfolding with_password
with_password-some username u w none rest h = absurd (ground arith)
with_password-some username u w (some (password, rest')) rest h = ground arith

-- the prompts of a round, one of which is there
abbrev pub HasPrompts : Settings → Type 0
HasPrompts s = has_prompts s ≡ true

shorter-with :
    (p : ℕ → Bool) (a b : Option Text) (chars middle rest : List ℕ) (u w : Text)
    → (is_some a || is_some b) ≡ true
    → ask p true a chars ≡ some (u, middle)
    → ask p false b middle ≡ some (w, rest)
    → length rest < length chars
shorter-with p (some prompt) b chars middle rest u w has first second =
    omega (
      arith,
      ask-shorter p true prompt chars middle u first,
      ask-rest p false b middle rest w second,
    )
shorter-with p none (some prompt) chars middle rest u w has first second = omega (
  arith,
  ask-rest p true none chars middle u first,
  ask-shorter p false prompt middle rest w second,
)
shorter-with p none none chars middle rest u w has first second = absurd (ground arith)

ask_both-shorter :
    (s : Settings) (chars rest : List ℕ) (u w : Text)
    → HasPrompts s
    → ask_both s chars ≡ some (u, w, rest)
    → length rest < length chars
unfolding ask_both has_prompts
ask_both-shorter s chars rest u w has h =
    elim (Option-cases (ask s.isprintable true s.login_prompt chars)) [
      | inl e ↦ absurd (ground arith)
      | inr ((username, middle), e) ↦
          shorter-with s.isprintable s.login_prompt s.password_prompt chars middle rest username w
            has e
            (with_password-some username u w (ask s.isprintable false s.password_prompt middle) rest
              (rw (e, ask_both) at h))
    ]

-- an end that is the program's own
abbrev pub IsOwn : Manager × End → Type 0
IsOwn (manager, end) = end ≢ out_of_fuel

-- A login with a prompt ends by itself on fuel for one round more than there are characters: the
-- client is let in or closes the connection.
pub log_in-IsOwn :
    (fuel : ℕ) (s : Settings) (round : ℕ) (chars : List ℕ) (manager : Manager)
    → HasPrompts s
    → length chars < fuel
    → IsOwn (log_in fuel s round chars manager)
unfolding log_in
log_in-IsOwn zero s round chars manager has h = absurd (omega arith)
log_in-IsOwn (suc fuel) s round chars manager has h = elim (Option-cases (ask_both s chars)) [
  | inl e ↦ rw (e, log_in) (λ x. cc x)
  | inr ((username, password, rest), e) ↦
      let (manager', last) = attempt manager (login_of s round username password) in
      elim (Bool-cases last.success) [
        | inl ok ↦ rw (e, log_in) (rw ok (λ x. cc x))
        | inr refused ↦
            rw (e, log_in)
              (rw refused (
                log_in-IsOwn fuel s (suc round) rest manager' has
                  (omega (arith, ask_both-shorter s chars rest username password has e))))
      ]
]
