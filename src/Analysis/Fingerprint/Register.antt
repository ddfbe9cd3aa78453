-- ===== src/Analysis/Fingerprint/Register.antt =====
-- What is registered and what is ignored of the fingerprints of src/analysis/session_fingerprint.py.
use honey_mind.Prelude.{
  ℕ, ◌≤◌, Text, codes, eqb, eqb_iff, member, join, starts_with, take, length, ltb, keep, map, Dict,
  lookup, insert, lookup-insert, lookup-insert_self, length-take, Bool, true, false, List, [], ◌∷◌,
  ◌++◌, if◌then◌else◌, none, some, Bool-cases, All, ◌≡◌, refl, sym, ap, ◌∙◌, inl, inr, arith,
}
use honey_mind.Analysis.Fingerprint.{
  noise_cmds, normalize_cmd, is_meaningful, meaningful, compute_sequence_hash, first_prefix,
  match_sequence, register_sequence,
}

keep-append : (p : Text → Bool) (xs ys : List Text) → keep p (xs ++ ys) ≡ keep p xs ++ keep p ys
keep-append p [] ys = refl
keep-append p (x ∷ xs) ys = elim (Bool-cases (p x)) [
  | inl e ↦ rw e (ap (◌∷◌ x) (keep-append p xs ys))
  | inr e ↦ rw e (keep-append p xs ys)
]

-- A command that is noise, wherever it stands, does not change the hash of a sequence.
pub noise_ignored :
    (md5 : Text → Text) (n : ℕ) (before after : List Text) (noise : Text)
    → member (normalize_cmd noise) noise_cmds ≡ true
    → compute_sequence_hash md5 n (before ++ noise ∷ after)
      ≡ compute_sequence_hash md5 n (before ++ after)
unfolding compute_sequence_hash meaningful
noise_ignored md5 n before after noise h =
    ap
      (λ (kept : List Text).
        let first = take n (map normalize_cmd kept) in
        if ltb (length first) 3 then none else some (md5 (join (codes "|") first)))
      (keep-append is_meaningful before (noise ∷ after)
        ∙ rw h (sym (keep-append is_meaningful before after)))

-- the keys have eight characters
abbrev pub EightLong : Dict Text → Type 0
EightLong = All (λ e. length e.0 ≡ 8)

starts_with-take : (s p : Text) → length p ≤ length s → starts_with s p ≡ eqb (take (length p) s) p
unfolding starts_with eqb
starts_with-take s [] h = refl
starts_with-take [] (d ∷ p) h = absurd (omega arith)
starts_with-take (c ∷ s) (d ∷ p) h = ground (arith, starts_with-take s p (omega arith))

first_prefix-lookup :
    (s : Text) (known : Dict Text)
    → EightLong known
    → 8 ≤ length s
    → first_prefix s known ≡ lookup (take 8 s) known
unfolding first_prefix lookup
first_prefix-lookup s [] k h = refl
first_prefix-lookup s ((p, name) ∷ known) (kp, k) h = ground (
  arith,
  starts_with-take s p (omega arith),
  ap (λ n. take n s) kp,
  eqb_iff p (take 8 s),
  eqb_iff (take 8 s) p,
  first_prefix-lookup s known k h,
)

insert-EightLong :
    (k v : Text) (known : Dict Text) → length k ≡ 8 → EightLong known → EightLong (insert k v known)
unfolding insert
insert-EightLong k v [] h all = (h, tt)
insert-EightLong k v ((j, w) ∷ known) h (hj, all) = elim (Bool-cases (eqb j k)) [
  | inl e ↦ rw e (hj, all)
  | inr e ↦ rw e (hj, insert-EightLong k v known h all)
]

-- the registrations of a list, one after the other
abbrev pub register_all : List (Text × Text) → Dict Text → Dict Text
register_all [] known = known
register_all ((seq_hash, tool_name) ∷ later) known =
    register_all later (register_sequence seq_hash tool_name known)

-- a registration of a hash that has eight characters at least, not the first eight of another
abbrev pub IsOther : Text → Text × Text → Type 0
IsOther seq_hash (h, tool_name) = (8 ≤ length h) × (eqb (take 8 h) (take 8 seq_hash) ≡ false)

register-EightLong :
    (seq_hash tool_name : Text) (known : Dict Text)
    → EightLong known
    → 8 ≤ length seq_hash
    → EightLong (register_sequence seq_hash tool_name known)
unfolding register_sequence
register-EightLong [] tool_name known k h = absurd (omega arith)
register-EightLong (c ∷ s) tool_name known k h =
    insert-EightLong (take 8 (c ∷ s)) tool_name known (omega (arith, length-take 8 (c ∷ s))) k

-- what is known under a key outlasts the registrations of other keys
lookup-register_all :
    (seq_hash : Text) (later : List (Text × Text)) (known : Dict Text) (tool_name : Text)
    → All (IsOther seq_hash) later
    → EightLong known
    → lookup (take 8 seq_hash) known ≡ some tool_name
    → EightLong (register_all later known)
      × (lookup (take 8 seq_hash) (register_all later known) ≡ some tool_name)
lookup-register_all seq_hash [] known tool_name others k found = (k, found)
lookup-register_all seq_hash (([], name) ∷ later) known tool_name ((long, _), others) k found =
    absurd (omega arith)
lookup-register_all seq_hash ((c ∷ h, name) ∷ later) known tool_name ((long, ne), others) k found =
    lookup-register_all seq_hash later (register_sequence (c ∷ h) name known) tool_name others
      (register-EightLong (c ∷ h) name known k long)
      (unfold register_sequence in
        (lookup-insert (take 8 (c ∷ h)) (take 8 seq_hash) name known ∙ rw ne found))

-- A registered sequence is found under its own hash, whatever was registered before it, and through
-- all later registrations up to one of the same first eight characters, where the hashes have eight
-- characters at least and the keys that were known have eight.
pub match-register_all :
    (seq_hash tool_name : Text) (known : Dict Text) (later : List (Text × Text))
    → EightLong known
    → 8 ≤ length seq_hash
    → All (IsOther seq_hash) later
    → match_sequence
        (register_all later (register_sequence seq_hash tool_name known))
        (some seq_hash)
      ≡ some tool_name
unfolding match_sequence
match-register_all [] tool_name known later k h others = absurd (omega arith)
match-register_all (c ∷ s) tool_name known later k h others =
    let here = register_sequence (c ∷ s) tool_name known in
    let (long, found) =
      lookup-register_all (c ∷ s) later here tool_name others
        (register-EightLong (c ∷ s) tool_name known k h)
        (unfold register_sequence in lookup-insert_self (take 8 (c ∷ s)) tool_name known) in
    first_prefix-lookup (c ∷ s) (register_all later here) long h ∙ found
