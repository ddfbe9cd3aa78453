-- ===== src/Cache/Store/Clear.antt =====
-- What `clear`, `delete` and `dump` of src/infra/data_store.py leave and show.
use honey_mind.Prelude.{
  ◌+◌, Text, Dict, length, keep, Bool, not, Bool-cases, List, [], ◌∷◌, none, some, ◌≡◌, refl, arith,
  inl, inr, ap,
}
use honey_mind.Cache.Store.{
  Term, Row, DataStore, Condition, build_where_clause, matches, fetch_one, search, delete, clear,
  dump,
}
use honey_mind.Cache.Store.Lookup.{checked-some, checked-cons}

module _ {ℓ} {A : Type ℓ} (p : A → Bool) where
  keep-not-keep : (xs : List A) → keep (λ x. not (p x)) (keep p xs) ≡ []
  keep-not-keep [] = refl
  keep-not-keep (x ∷ xs) = elim (Bool-cases (p x)) [
    | inl h ↦ rw h (rw h (keep-not-keep xs))
    | inr h ↦ rw h (keep-not-keep xs)
  ]

  length-keep : (xs : List A) → length (keep p xs) + length (keep (λ x. not (p x)) xs) ≡ length xs
  length-keep [] = omega arith
  length-keep (x ∷ xs) = ground (arith, length-keep xs)

-- After `clear` nothing is left to dump, and what it reports and what it leaves make up the table.
pub dump-clear :
    (s : DataStore)
    → (dump (clear s).0 ≡ []) × (length (clear s).0.rows + (clear s).1 ≡ length s.rows)
unfolding dump clear
dump-clear s = (keep-not-keep (λ r. r.is_static) s.rows, length-keep (λ r. r.is_static) s.rows)

fetch_one-keep :
    (sql_like : Text → Text → Bool) (cs : List Condition) (rows : List Row)
    → fetch_one sql_like cs (keep (λ r. not (matches sql_like cs r)) rows) ≡ none
unfolding fetch_one
fetch_one-keep sql_like cs [] = refl
fetch_one-keep sql_like cs (r ∷ rows) = elim (Bool-cases (matches sql_like cs r)) [
  | inl h ↦ rw h (fetch_one-keep sql_like cs rows)
  | inr h ↦ rw (h) (rw h (fetch_one-keep sql_like cs rows))
]

-- After a `delete` a search for the same terms finds nothing.
pub search-delete :
    (sql_like : Text → Text → Bool) (s s' : DataStore) (terms : Dict Term) (found : Bool)
    → delete sql_like s terms ≡ some (s', found)
    → search sql_like s' terms ≡ some none
unfolding delete search build_where_clause
search-delete sql_like s s' terms found h =
    let cs = build_where_clause s terms in
    let (e, ne) = checked-some cs _ (s', found) h in
    rw (ap (λ p. p.0) e) (rw (fetch_one-keep sql_like cs s.rows) (checked-cons cs none ne))
