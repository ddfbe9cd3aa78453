-- ===== src/Postgres/Framing.antt =====
-- What the reader of src/honeypots/postgresql_honeypot.py makes of the bytes of a message.
use honey_mind.Prelude.{
  ℕ, zero, suc, ◌+◌, ◌-◌, ◌/◌, ◌%◌, ◌≤◌, ◌<◌, min, ltb, Text, length, take, drop, length-take,
  take-none, drop-none, take-add, drop-add, take-length, drop-length, Bool-cases, false, ◌==◌, List,
  [], ◌∷◌, ◌++◌, some, none, if◌then◌else◌, ◌≡◌, refl, sym, ap, ◌∙◌, ◌⊎◌, inl, inr, arith,
}
use honey_mind.Postgres.Words.{pack_u32, unpack_u32, unpack-bytes}
use honey_mind.Postgres.{
  Delivery, send_message, with_length, read_message, read_body, body_behind, appended, sized,
  whole_message, disconnected,
}

-- `recv` delivers a byte at least and no more than it is asked for.
pub record Delivers (delivers : Delivery) : Type 0 where
  pub some_byte : (bytes : List ℕ) (n : ℕ) → 0 < n → 0 < delivers bytes n
  pub at_most : (bytes : List ℕ) (n : ℕ) → delivers bytes n ≤ n

drop-all : (n : ℕ) (s : Text) → length s ≤ n → drop n s ≡ []
drop-all zero [] h = refl
drop-all zero (c ∷ s) h = absurd (omega arith)
drop-all (suc n) [] h = refl
drop-all (suc n) (c ∷ s) h = drop-all n s (omega arith)

body_behind-some :
    (chunk rest : Text) (more : Text × List ℕ)
    → 0 < length chunk
    → body_behind chunk rest more ≡ (chunk ++ more.0, more.1)
unfolding body_behind appended
body_behind-some [] rest more h = absurd (omega arith)
body_behind-some (c ∷ chunk) rest more h = refl

-- what is left behind a chunk does not depend on how much of it was there
cut : (n m : ℕ) (s : Text) → (m - length (take n s) ≡ m - n) ⊎ (drop n s ≡ [])
cut n m s = elim (Bool-cases (ltb (length s) n)) [
  | inl short ↦ let le : length s ≤ n = ground arith in inr (drop-all n s le)
  | inr long ↦ let ge : n ≤ length s = ground arith in inl (omega (arith, length-take n s))
]

rest-cut :
    (n m : ℕ) (s : Text)
    → (take (m - length (take n s)) (drop n s) ≡ take (m - n) (drop n s))
      × (drop (m - length (take n s)) (drop n s) ≡ drop (m - n) (drop n s))
rest-cut n m s = elim (cut n m s) [
  | inl e ↦ (ap (λ k. take k (drop n s)) e, ap (λ k. drop k (drop n s)) e)
  | inr e ↦ (
    ap (take (m - length (take n s))) e
        ∙ take-none (m - length (take n s))
        ∙ sym (take-none (m - n))
        ∙ ap (take (m - n)) (sym e),
    ap (drop (m - length (take n s))) e
        ∙ drop-none (m - length (take n s))
        ∙ sym (drop-none (m - n))
        ∙ ap (drop (m - n)) (sym e),
  )
]

-- one delivery, and then the rest of the body
body_behind-exact :
    (n m : ℕ) (s : Text)
    → 0 < n
    → n ≤ m
    → 0 < length s
    → body_behind
        (take n s)
        (drop n s)
        (take (m - length (take n s)) (drop n s), drop (m - length (take n s)) (drop n s))
      ≡ (take m s, drop m s)
body_behind-exact n m s pos_n le pos_s =
    let all : n + (m - n) ≡ m = omega arith in
    let (front, back) = rest-cut n m s in
    body_behind-some (take n s) (drop n s) _ (omega (arith, length-take n s))
    ∙ ap (λ t. (take n s ++ t, drop (m - length (take n s)) (drop n s))) front
    ∙ ap (λ t. (take n s ++ take (m - n) (drop n s), t)) back
    ∙ ap (λ t. (t, drop (m - n) (drop n s))) (take-add n (m - n) s ∙ ap (λ k. take k s) all)
    ∙ ap (λ t. (take m s, t)) (drop-add n (m - n) s ∙ ap (λ k. drop k s) all)

read_body-exact :
    (fuel : ℕ) (delivers : Delivery) (missing : ℕ) (bytes : List ℕ)
    → Delivers delivers
    → missing ≤ fuel
    → read_body fuel delivers missing bytes ≡ (take missing bytes, drop missing bytes)
unfolding read_body
read_body-exact fuel delivers zero bytes d h = refl
read_body-exact zero delivers (suc missing) bytes d h = absurd (omega arith)
read_body-exact (suc fuel) delivers (suc missing) [] d h =
    let n = delivers [] (min 4096 (suc missing)) in
    ap
      (λ (chunk : Text).
        body_behind chunk (drop n [])
          (read_body fuel delivers (suc missing - length (take {A = ℕ} n [])) (drop n [])))
      (take-none n)
    ∙ unfold body_behind in ap (λ (t : Text). ([], t)) (drop-none n)
read_body-exact (suc fuel) delivers (suc missing) (b ∷ bytes) d h =
    let asked = min 4096 (suc missing) in
    let n = delivers (b ∷ bytes) asked in
    let pos_n : 0 < n = d.some_byte (b ∷ bytes) asked (omega arith) in
    let le : n ≤ suc missing = omega (arith, d.at_most (b ∷ bytes) asked) in
    ap (body_behind (take n (b ∷ bytes)) (drop n (b ∷ bytes))) (
      read_body-exact fuel delivers (suc missing - length (take n (b ∷ bytes))) (drop n (b ∷ bytes))
        d (omega (arith, length-take n (b ∷ bytes))))
    ∙ body_behind-exact n (suc missing) (b ∷ bytes) pos_n le (omega arith)

-- the bytes of a message that fits
sent_bytes : ℕ → Text → List ℕ
sent_bytes t body =
    let n = length body + 4 in t ∷ n / 16777216 ∷ n / 65536 % 256 ∷ n / 256 % 256 ∷ n % 256 ∷ body

send_message-cases :
    (t : ℕ) (body sent : Text) → send_message t body ≡ some sent → sent ≡ sent_bytes t body
unfolding send_message with_length pack_u32 sent_bytes
send_message-cases t body sent h = elim (Bool-cases (ltb (length body + 4) 4294967296)) [
  | inl e ↦ ground arith
  | inr e ↦ absurd (ground arith)
]

-- the length of a message, and what stands behind it
behind_type : Text → List ℕ → List ℕ
behind_type body rest =
    let n = length body + 4 in
    n / 16777216 ∷ n / 65536 % 256 ∷ n / 256 % 256 ∷ n % 256 ∷ (body ++ rest)

read-bytes :
    (delivers : Delivery) (t : ℕ) (body : Text) (rest : List ℕ)
    → Delivers delivers
    → (t == 0) ≡ false
    → delivers (behind_type body rest) 4 ≡ 4
    → read_message delivers (sent_bytes t body ++ rest)
      ≡ record { message = some (t, body); rest = rest; answered = [] }
unfolding read_message sent_bytes unpack_u32 sized whole_message behind_type
read-bytes delivers t body rest d typed whole =
    let n = length body + 4 in
    let back : n - 4 ≡ length body = omega arith in
    let behind = behind_type body rest in
    rw typed (
      ap (λ k. sized delivers t (unpack_u32 (take k behind)) (drop k behind)) whole
      ∙ ap (λ m. sized delivers t (some m) (body ++ rest)) (unpack-bytes n)
      ∙ ap (λ k. whole_message t (read_body k delivers k (body ++ rest))) back
      ∙ ap (whole_message t) (
          read_body-exact (length body) delivers (length body) (body ++ rest) d (omega arith)
          ∙ ap (λ s. (s, drop (length body) (body ++ rest))) (take-length body rest)
          ∙ ap (λ s. (body, s)) (drop-length body rest)))

unpack-short : (bytes : List ℕ) → length bytes < 4 → unpack_u32 bytes ≡ none
unfolding unpack_u32
unpack-short [] h = refl
unpack-short (a ∷ []) h = refl
unpack-short (a ∷ b ∷ []) h = refl
unpack-short (a ∷ b ∷ c ∷ []) h = refl
unpack-short (a ∷ b ∷ c ∷ e ∷ bytes) h = absurd (omega arith)

read-cut :
    (delivers : Delivery) (t : ℕ) (behind : List ℕ)
    → (t == 0) ≡ false
    → delivers behind 4 < 4
    → read_message delivers (t ∷ behind) ≡ disconnected (drop (delivers behind 4) behind)
unfolding read_message sized
read-cut delivers t behind typed cut =
    let n = delivers behind 4 in
    rw typed (
      ap (λ o. sized delivers t o (drop n behind))
        (unpack-short (take n behind) (omega (arith, length-take n behind))))

-- What the reader makes of a message that is sent, where its type is not a zero byte, its length
-- fits four bytes, so that it is sent at all, and each `recv` delivers a byte at least and no more
-- than it is asked for. Where the `recv` of the length delivers its four bytes at once, the reader
-- returns the type and the body, however the body is delivered, and leaves what stands behind the
-- message; where it delivers fewer, the client counts as disconnected.
pub read-send_message :
    (delivers : Delivery) (t : ℕ) (body sent : Text) (rest : List ℕ)
    → Delivers delivers
    → (t == 0) ≡ false
    → send_message t body ≡ some sent
    → let behind = drop 1 (sent ++ rest) in
      read_message delivers (sent ++ rest) ≡ (
        if delivers behind 4 == 4
        then record { message = some (t, body); rest = rest; answered = [] }
        else disconnected (drop (delivers behind 4) behind))
unfolding sent_bytes behind_type
read-send_message delivers t body sent rest d typed sends =
    let behind = behind_type body rest in
    let at_most = d.at_most behind 4 in
    rw (send_message-cases t body sent sends) (elim (Bool-cases (delivers behind 4 == 4)) [
      | inl whole ↦ rw whole (read-bytes delivers t body rest d typed (ground arith))
      | inr cut ↦ rw cut (read-cut delivers t behind typed (ground arith))
    ])
