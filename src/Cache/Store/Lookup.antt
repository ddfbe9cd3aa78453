-- ===== src/Cache/Store/Lookup.antt =====
-- What `search` of src/infra/data_store.py finds after a `store`.
use mathlib.Core.List.{cons-ne-nil}
use honey_mind.Prelude.{
  Text, eqb, eqb_iff, eqb_refl, member, Dict, lookup, Bool, true, false, Bool-cases, List, [], ◌∷◌,
  ◌++◌, if◌then◌else◌, Option, none, some, ◌≡◌, refl, arith, All, ◌∙◌, sym, inl, inr, ◌≢◌,
}
use honey_mind.Cache.Store.{
  Term, str, Row, DataStore, Condition, condition, where_clause, build_where_clause, add_condition,
  matches, holds, fetch_one, checked, search, columns, add_column, store, exact,
}

module _ (sql_like : Text → Text → Bool) where
  fetch_one-append :
      (cs : List Condition) (rows : List Row) (row : Row)
      → fetch_one sql_like cs rows ≡ none
      → fetch_one sql_like cs (rows ++ row ∷ [])
        ≡ (if matches sql_like cs row then some row.content else none)
  unfolding fetch_one
  fetch_one-append cs [] row h = refl
  fetch_one-append cs (r ∷ rows) row h = ground (arith, fetch_one-append cs rows row)

  pub fetch_one-append_found :
      (cs : List Condition) (rows : List Row) (row : Row) (data' : Text)
      → fetch_one sql_like cs rows ≡ some data'
      → fetch_one sql_like cs (rows ++ row ∷ []) ≡ some data'
  unfolding fetch_one
  fetch_one-append_found cs [] row d h = cc
  fetch_one-append_found cs (r ∷ rows) row d h =
      ground (arith, fetch_one-append_found cs rows row d)

lookup-add_column_ne :
    (key k : Text) (o : Option Term) (cols : Dict Text)
    → eqb key k ≡ false
    → lookup k (add_column key o cols) ≡ lookup k cols
unfolding add_column lookup
lookup-add_column_ne key k none cols h = refl
lookup-add_column_ne key k (some v) cols h = rw h

lookup-add_column_self :
    (k : Text) (v : Term) (cols : Dict Text) → lookup k (add_column k (some v) cols) ≡ some (str v)
unfolding add_column lookup
lookup-add_column_self k v cols = rw eqb_refl

-- The new row holds each term whose key is a column.
lookup-columns :
    (structure : List Text) (terms : Dict Term) (k : Text) (v : Term)
    → member k structure ≡ true
    → lookup k terms ≡ some v
    → lookup k (columns structure terms) ≡ some (str v)
unfolding columns
lookup-columns [] terms k v m h = cc
lookup-columns (key ∷ structure) terms k v m h = elim (Bool-cases (eqb key k)) [
  | inl same ↦ rw ((eqb_iff key k).0 same, h) (lookup-add_column_self k v (columns structure terms))
  | inr differs ↦
      lookup-add_column_ne key k (lookup key terms) (columns structure terms) differs
      ∙ lookup-columns structure terms k v (ground (arith, eqb_iff key k, eqb_iff k key)) h
]

module _ (sql_like : Text → Text → Bool) (structure : List Text) (terms : Dict Term) (row : Row)
    (own : row.fields ≡ columns structure terms) where
  holds-own :
      (key : Text) (v : Term)
      → member key structure ≡ true
      → lookup key terms ≡ some v
      → holds sql_like (condition key (str v) exact) (lookup key row.fields) ≡ true
  unfolding holds condition
  holds-own key v m h = rw (own, lookup-columns structure terms key v m h) (eqb_refl (str v))

  add_condition-own :
      (key : Text) (o : Option Term) (cs : List Condition)
      → member key structure ≡ true
      → lookup key terms ≡ o
      → matches sql_like cs row ≡ true
      → matches sql_like (add_condition [] key o cs) row ≡ true
  unfolding matches add_condition lookup condition
  add_condition-own key none cs m h rest = rest
  add_condition-own key (some v) cs m h rest = ground (arith, holds-own key v m h)

  -- A row answers the search for the terms that it was made of.
  matches-own :
      (sub : List Text)
      → All (λ k. member k structure ≡ true) sub
      → matches sql_like (where_clause [] sub terms) row ≡ true
  unfolding where_clause
  matches-own [] h = unfold matches in refl
  matches-own (key ∷ sub) (m, h) =
      add_condition-own key (lookup key terms) (where_clause [] sub terms) m refl
        (matches-own sub h)

member-weaken :
    (x : Text) (sub xs : List Text)
    → All (λ k. member k xs ≡ true) sub
    → All (λ k. member k (x ∷ xs) ≡ true) sub
member-weaken x [] xs h = tt
member-weaken x (k ∷ sub) xs (m, h) = (ground arith, member-weaken x sub xs h)

member-all : (xs : List Text) → All (λ k. member k xs ≡ true) xs
member-all [] = tt
member-all (x ∷ xs) = (rw eqb_refl refl, member-weaken x xs xs (member-all xs))

pub checked-some {ℓ} :
    {A B : Type ℓ} (xs : List A) (b c : B) → checked xs b ≡ some c → (c ≡ b) × (xs ≢ [])
unfolding checked
checked-some [] b c h = cc
checked-some (x ∷ xs) b c h = (ground arith, cons-ne-nil x xs)

pub checked-cons {ℓ} : {A B : Type ℓ} (xs : List A) (b : B) → xs ≢ [] → checked xs b ≡ some b
unfolding checked
checked-cons [] b h = absurd (h refl)
checked-cons (x ∷ xs) b h = refl

-- A `store` adds one row, made of the columns of the terms.
pub store-some :
    (s s' : DataStore) (terms : Dict Term) (is_static : Bool) (content : Text)
    → store s terms is_static content ≡ some s'
    → s' ≡ record s {
      rows =
          s.rows
          ++ (record {
            is_static = is_static;
            fields = columns s.structure terms;
            content = content;
          })
            ∷ [];
    }
unfolding store
store-some s s' terms is_static content h = (checked-some (columns s.structure terms) _ s' h).0

pub search-some :
    (sql_like : Text → Text → Bool) (s : DataStore) (terms : Dict Term) (o : Option Text)
    → search sql_like s terms ≡ some o
    → (o ≡ fetch_one sql_like (build_where_clause s terms) s.rows)
      × (build_where_clause s terms ≢ [])
unfolding search
search-some sql_like s terms o h = checked-some (build_where_clause s terms) _ o h

-- What is stored under terms that find nothing is what a search for the same terms finds, where
-- every key is compared exactly.
pub search-store :
    (sql_like : Text → Text → Bool) (s s' : DataStore) (terms : Dict Term) (is_static : Bool)
    (content : Text)
    → s.search_method ≡ []
    → search sql_like s terms ≡ some none
    → store s terms is_static content ≡ some s'
    → search sql_like s' terms ≡ some (some content)
unfolding search build_where_clause
search-store sql_like s s' terms is_static content methods nothing stored =
    let row : Row = record {
      is_static = is_static;
      fields = columns s.structure terms;
      content = content;
    } in
    let cs = build_where_clause s terms in
    let (empty, ne) = search-some sql_like s terms none nothing in
    let own =
      matches-own sql_like s.structure terms row refl s.structure (member-all s.structure) in
    let own' : matches sql_like cs row ≡ true = rw methods own in
    rw (store-some s s' terms is_static content stored) (
      rw (fetch_one-append sql_like cs s.rows row (sym empty), own')
        (checked-cons cs (some content) ne))
