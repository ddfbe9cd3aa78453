-- ===== src/Ssh/Shell/Typing.antt =====
-- What typing does on the line editor of src/honeypots/ssh_honeypot.py.
use honey_mind.Prelude.{
  ℕ, ◌-◌, Text, codes, eqb, length, take, ltb, member, ◌⊎◌, inl, inr, true, false, List, [], ◌∷◌,
  ◌++◌, append_assoc, append-nil, Bool-cases, All, ◌==◌, ◌≡◌, length-append, take-length, refl, sym,
  ap, ◌∙◌, arith,
}
use honey_mind.Ssh.Shell.{
  Backend, Event, sent, closed, Editor, new_line, decoded, type_char, plain_char, escape_char,
  backspace, read_line, before, is_arrow, going_on, entered, run_line,
}

-- a key that stands for itself: an ASCII character, neither escape, return, line feed nor delete
abbrev pub IsPlain : ℕ → Type 0
IsPlain c =
    (ltb c 128 ≡ true)
    × ((c == 27) ≡ false)
    × ((c == 13) ≡ false)
    × ((c == 10) ≡ false)
    × ((c == 127) ≡ false)

-- the echo of a text, the keys that erase it, and what they print
abbrev pub echo : Text → List Event
echo [] = []
echo (c ∷ t) = sent (c ∷ []) ∷ echo t

abbrev pub erasing : Text → List ℕ
erasing [] = []
erasing (c ∷ t) = 127 ∷ erasing t

abbrev pub erased : Text → List Event
erased [] = []
erased (c ∷ t) = sent (8 ∷ 32 ∷ 8 ∷ []) ∷ erased t

type_char-plain :
    (buffer : Text) (c : ℕ)
    → IsPlain c
    → type_char (record { buffer = buffer; escape_seq = [] }) (decoded c)
      ≡ going_on (record { buffer = buffer ++ c ∷ []; escape_seq = [] }) (sent (c ∷ []) ∷ [])
unfolding type_char plain_char decoded eqb
type_char-plain buffer c (ascii, esc, cr, lf, del) = rw (ascii, esc) (rw (cr, lf) (rw del refl))

all_but_last : (s : Text) (c : ℕ) → take (length (s ++ c ∷ []) - 1) (s ++ c ∷ []) ≡ s
all_but_last s c =
    let n : length (s ++ c ∷ []) - 1 ≡ length s = omega (arith, length-append s (c ∷ [])) in
    ap (λ m. take m (s ++ c ∷ [])) n ∙ take-length s (c ∷ [])

not_empty : (s : Text) (c : ℕ) → eqb (s ++ c ∷ []) [] ≡ false
unfolding eqb
not_empty [] c = refl
not_empty (d ∷ s) c = refl

type_char-delete :
    (buffer : Text) (c : ℕ)
    → type_char (record { buffer = buffer ++ c ∷ []; escape_seq = [] }) (decoded 127)
      ≡ going_on (record { buffer = buffer; escape_seq = [] }) (sent (8 ∷ 32 ∷ 8 ∷ []) ∷ [])
unfolding type_char plain_char decoded eqb backspace
type_char-delete buffer c = rw (not_empty buffer c) (
    ap (λ b. going_on (record { buffer = b; escape_seq = [] }) (sent (8 ∷ 32 ∷ 8 ∷ []) ∷ []))
      (all_but_last buffer c))

pub entering :
    (t : Text) → type_char (record { buffer = t; escape_seq = [] }) (decoded 13) ≡ entered t
unfolding type_char decoded eqb
entering t = refl

escaping :
    (buffer : Text)
    → type_char (record { buffer = buffer; escape_seq = [] }) (decoded 27)
      ≡ going_on (record { buffer = buffer; escape_seq = 27 ∷ [] }) []
unfolding type_char decoded eqb
escaping buffer = refl

bracket :
    (buffer : Text)
    → type_char (record { buffer = buffer; escape_seq = 27 ∷ [] }) (decoded 91)
      ≡ going_on (record { buffer = buffer; escape_seq = 27 ∷ 91 ∷ [] }) []
unfolding type_char decoded eqb escape_char
bracket buffer = refl

arrow_code :
    (key : ℕ)
    → member (key ∷ []) (codes "A" ∷ codes "B" ∷ codes "C" ∷ codes "D" ∷ []) ≡ true
    → (key ≡ 65) ⊎ (key ≡ 66) ⊎ (key ≡ 67) ⊎ (key ≡ 68)
unfolding eqb
arrow_code key h = ground arith

arrow :
    (key : ℕ) (buffer : Text)
    → member (key ∷ []) (codes "A" ∷ codes "B" ∷ codes "C" ∷ codes "D" ∷ []) ≡ true
    → type_char (record { buffer = buffer; escape_seq = 27 ∷ 91 ∷ [] }) (decoded key)
      ≡ going_on (record { buffer = buffer; escape_seq = [] }) []
unfolding type_char decoded eqb escape_char is_arrow
arrow key buffer h = elim (arrow_code key h) [
  | inl e ↦ rw e refl
  | inr (inl e) ↦ rw e refl
  | inr (inr (inl e)) ↦ rw e refl
  | inr (inr (inr e)) ↦ rw e refl
]

erasing-last : (t rest : Text) → erasing t ++ 127 ∷ rest ≡ 127 ∷ (erasing t ++ rest)
erasing-last [] rest = refl
erasing-last (c ∷ t) rest = ap (◌∷◌ 127) (erasing-last t rest)

erased-last :
    (t : Text) → erased t ++ sent (8 ∷ 32 ∷ 8 ∷ []) ∷ [] ≡ sent (8 ∷ 32 ∷ 8 ∷ []) ∷ erased t
erased-last [] = refl
erased-last (c ∷ t) = ap (◌∷◌ (sent (8 ∷ 32 ∷ 8 ∷ []))) (erased-last t)

-- the keys of a list of lines, each with its return
abbrev pub keys_of : List Text → List ℕ
keys_of [] = []
keys_of (t ∷ lines) = t ++ 13 ∷ keys_of lines

module _ {S : Type 0} where
  before-append :
      (xs ys : List Event) (r : S × List Event) → before xs (before ys r) ≡ before (xs ++ ys) r
  before-append xs ys (session, more) = ap (λ m. (session, m)) (sym (append_assoc xs ys more))

  module _ (backend : Backend S) (prompt : S → Text) (session : S) where
    read_line-step :
        (byte : ℕ) (bytes : List ℕ) (e e' : Editor) (events : List Event)
        → type_char e (decoded byte) ≡ going_on e' events
        → read_line backend prompt (byte ∷ bytes) e session
          ≡ before events (read_line backend prompt bytes e' session)
    unfolding read_line
    read_line-step byte bytes e e' events h = rw (h, read_line) refl

    -- Plain text that is typed at the end of a line, and then erased key by key, leaves the line as
    -- it was: the shell goes on as if none of it had been typed, behind the echo and the erasures.
    pub typed_and_erased :
        (t : Text) (buffer : Text) (rest : List ℕ)
        → All IsPlain t
        → read_line backend prompt
            (t ++ (erasing t ++ rest))
            (record { buffer = buffer; escape_seq = [] })
            session
          ≡ before
              (echo t ++ erased t)
              (read_line backend prompt rest (record { buffer = buffer; escape_seq = [] }) session)
    typed_and_erased [] buffer rest h = refl
    typed_and_erased (c ∷ t) buffer rest (hc, h) =
        let e : Editor = record { buffer = buffer; escape_seq = [] } in
        let e' : Editor = record { buffer = buffer ++ c ∷ []; escape_seq = [] } in
        let erasure : List Event = sent (8 ∷ 32 ∷ 8 ∷ []) ∷ [] in
        let there = read_line backend prompt rest e session in
        read_line-step c (t ++ (127 ∷ (erasing t ++ rest))) e e' (sent (c ∷ []) ∷ [])
          (type_char-plain buffer c hc)
        ∙ ap (before (sent (c ∷ []) ∷ [])) (
            ap (λ bytes. read_line backend prompt (t ++ bytes) e' session)
              (sym (erasing-last t rest))
            ∙ typed_and_erased t (buffer ++ c ∷ []) (127 ∷ rest) h
            ∙ ap (before (echo t ++ erased t))
                (read_line-step 127 rest e' e erasure (type_char-delete buffer c))
            ∙ before-append (echo t ++ erased t) erasure there
            ∙ ap (λ events. before events there)
                (append_assoc (echo t) (erased t) erasure ∙ ap (λ x. echo t ++ x) (erased-last t)))
        ∙ before-append (sent (c ∷ []) ∷ []) (echo t ++ erased (c ∷ t)) there

    -- Plain text behind a line is echoed and appended to it.
    pub typed :
        (t : Text) (buffer : Text) (rest : List ℕ)
        → All IsPlain t
        → read_line backend prompt (t ++ rest) (record { buffer = buffer; escape_seq = [] }) session
          ≡ before (echo t) (
              read_line backend prompt rest
                (record { buffer = buffer ++ t; escape_seq = [] })
                session)
    typed [] buffer rest h =
        ap (λ b. read_line backend prompt rest (record { buffer = b; escape_seq = [] }) session)
          (sym (append-nil buffer))
    typed (c ∷ t) buffer rest (hc, h) =
        let e : Editor = record { buffer = buffer; escape_seq = [] } in
        let e' : Editor = record { buffer = buffer ++ c ∷ []; escape_seq = [] } in
        let there = λ (b : Text).
          read_line backend prompt rest (record { buffer = b; escape_seq = [] }) session in
        read_line-step c (t ++ rest) e e' (sent (c ∷ []) ∷ []) (type_char-plain buffer c hc)
        ∙ ap (before (sent (c ∷ []) ∷ [])) (typed t (buffer ++ c ∷ []) rest h)
        ∙ before-append (sent (c ∷ []) ∷ []) (echo t) (there ((buffer ++ c ∷ []) ++ t))
        ∙ ap (λ b. before (echo (c ∷ t)) (there b)) (append_assoc buffer (c ∷ []) t)

    -- An arrow key on a line changes nothing and prints nothing.
    pub arrow_ignored :
        (key : ℕ) (buffer : Text) (rest : List ℕ)
        → member (key ∷ []) (codes "A" ∷ codes "B" ∷ codes "C" ∷ codes "D" ∷ []) ≡ true
        → read_line backend prompt
            (27 ∷ 91 ∷ key ∷ rest)
            (record { buffer = buffer; escape_seq = [] })
            session
          ≡ read_line backend prompt rest (record { buffer = buffer; escape_seq = [] }) session
    arrow_ignored key buffer rest h =
        let e : Editor = record { buffer = buffer; escape_seq = [] } in
        let e1 : Editor = record { buffer = buffer; escape_seq = 27 ∷ [] } in
        let e2 : Editor = record { buffer = buffer; escape_seq = 27 ∷ 91 ∷ [] } in
        read_line-step 27 (91 ∷ key ∷ rest) e e1 [] (escaping buffer)
        ∙ read_line-step 91 (key ∷ rest) e1 e2 [] (bracket buffer)
        ∙ read_line-step key rest e2 e [] (arrow key buffer h)

  -- The lines as commands, one after the other, on the session that each leaves, up to the first
  -- that leaves the shell; each stands behind its echo, and a prompt behind those that do not.
  abbrev pub run_lines : Backend S → (S → Text) → List Text → S → S × List Event
  run_lines backend prompt [] session = (session, closed ∷ [])
  run_lines backend prompt (t ∷ lines) session =
      let ran = run_line backend t session in
      before (echo t ++ ran.events) (elim ran.reads_on [
        | true ↦
            before (sent (prompt ran.session) ∷ []) (run_lines backend prompt lines ran.session)
        | false ↦ (ran.session, closed ∷ [])
      ])

  -- Lines of plain text, each with a return, that are typed at a new line run as their commands, in
  -- their order and each once, on the session that the one before left; the first command that
  -- leaves the shell is the last to run, whatever is typed behind it.
  pub typed_lines :
      (backend : Backend S) (prompt : S → Text) (lines : List Text) (session : S)
      → All (All IsPlain) lines
      → read_line backend prompt (keys_of lines) new_line session
        ≡ run_lines backend prompt lines session
  unfolding read_line
  typed_lines backend prompt [] session h = refl
  typed_lines backend prompt (t ∷ lines) session (ht, h) =
      let ran = run_line backend t session in
      typed backend prompt session t [] (13 ∷ keys_of lines) ht ∙ elim (Bool-cases ran.reads_on) [
        | inl on ↦
            rw (entering t, read_line)
              (rw on (
                ap (λ r. before (echo t) (before (ran.events ++ sent (prompt ran.session) ∷ []) r))
                  (typed_lines backend prompt lines ran.session h)
                ∙ ap (before (echo t)) (
                    sym (
                      before-append ran.events (sent (prompt ran.session) ∷ [])
                        (run_lines backend prompt lines ran.session)))
                ∙ before-append (echo t) ran.events (
                    before (sent (prompt ran.session) ∷ [])
                      (run_lines backend prompt lines ran.session))))
        | inr off ↦
            rw (entering t, read_line)
              (rw off (before-append (echo t) ran.events (ran.session, closed ∷ [])))
      ]
