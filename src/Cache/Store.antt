-- ===== src/Cache/Store.antt =====
-- `SqliteDataStore` (src/infra/data_store.py): the table as the list of its rows, in the order of
-- insertion, in which SQLite scans a table that has no index. `LIKE` is SQLite's, a parameter. An
-- SQL statement with no condition or no column is a syntax error, `none`.
pub mod Lookup
pub mod Clear
use honey_mind.Prelude.{
  ℕ, ◌+◌, Text, codes, eqb, Dict, lookup, has_key, length, keep, first_of?, any_of, all_of, Bool,
  true, false, not, ◌&&◌, ◌||◌, List, [], ◌∷◌, ◌++◌, if◌then◌else◌, Option, none, some, get_or,
}

pub data SearchMethod : Type 0 where
  exact like : SearchMethod

-- a value of `search_terms`: a text, or another value with its `str()`
pub data Term : Type 0 where
  text : Text → Term
  other : Text → Term

unfoldable pub str : Term → Text
str (text s) = s
str (other s) = s

pub record Row : Type 0 where
  pub is_static : Bool
  pub fields : Dict Text
  pub content : Text

pub record DataStore : Type 0 where
  pub structure : List Text
  pub search_method : Dict SearchMethod
  pub rows : List Row

-- a condition of the `WHERE` clause, with its bound value
pub record Condition : Type 0 where
  pub key : Text
  pub method : SearchMethod
  pub value : Text

abbrev percent : Text
percent = b'%' ∷ []

unfoldable pub condition : Text → Text → SearchMethod → Condition
condition key value exact = record { key = key; method = exact; value = value }
condition key value like = record {
  key = key;
  method = like;
  value = percent ++ (value ++ percent);
}

-- one round of the loop of `build_where_clause`
unfoldable pub add_condition :
    Dict SearchMethod → Text → Option Term → List Condition → List Condition
unfolding condition str
add_condition methods key none conditions = conditions
add_condition methods key (some v) conditions =
    condition key (str v) (get_or (lookup key methods) exact) ∷ conditions

unfoldable pub where_clause : Dict SearchMethod → List Text → Dict Term → List Condition
unfolding add_condition
where_clause methods [] terms = []
where_clause methods (key ∷ structure) terms =
    add_condition methods key (lookup key terms) (where_clause methods structure terms)

unfoldable pub build_where_clause : DataStore → Dict Term → List Condition
unfolding where_clause
build_where_clause s terms = where_clause s.search_method s.structure terms

unfoldable pub compare_by : (Text → Text → Bool) → SearchMethod → Text → Text → Bool
compare_by sql_like exact value column = eqb column value
compare_by sql_like like value column = sql_like column value

-- A column that was not given is NULL, and passes no test.
unfoldable pub holds : (Text → Text → Bool) → Condition → Option Text → Bool
unfolding compare_by
holds sql_like c none = false
holds sql_like c (some column) = compare_by sql_like c.method c.value column

unfoldable pub matches : (Text → Text → Bool) → List Condition → Row → Bool
unfolding holds
matches sql_like [] row = true
matches sql_like (c ∷ cs) row =
    holds sql_like c (lookup c.key row.fields) && matches sql_like cs row

-- the first row of the result, if any
unfoldable pub fetch_one : (Text → Text → Bool) → List Condition → List Row → Option Text
fetch_one sql_like cs [] = none
fetch_one sql_like cs (row ∷ rows) =
    if matches sql_like cs row then some row.content else fetch_one sql_like cs rows

unfoldable pub checked {ℓ} : {A B : Type ℓ} → List A → B → Option B
checked [] b = none
checked (x ∷ xs) b = some b

unfoldable pub search : (Text → Text → Bool) → DataStore → Dict Term → Option (Option Text)
unfolding checked
search sql_like s terms =
    let cs = build_where_clause s terms in checked cs (fetch_one sql_like cs s.rows)

-- the columns of a new row
unfoldable pub add_column : Text → Option Term → Dict Text → Dict Text
unfolding str
add_column key none columns = columns
add_column key (some v) columns = (key, str v) ∷ columns

unfoldable pub columns : List Text → Dict Term → Dict Text
unfolding add_column
columns [] terms = []
columns (key ∷ structure) terms = add_column key (lookup key terms) (columns structure terms)

-- `store`; `is_static` is `search_terms.get("is_static", False)`
unfoldable pub store : DataStore → Dict Term → Bool → Text → Option DataStore
unfolding checked
store s terms is_static content =
    let fields = columns s.structure terms in
    checked fields (record s {
      rows = s.rows ++ (record { is_static = is_static; fields = fields; content = content }) ∷ [];
    })

-- `delete`: the table without the matching rows, and whether there were any
unfoldable pub delete : (Text → Text → Bool) → DataStore → Dict Term → Option (DataStore × Bool)
unfolding checked
delete sql_like s terms =
    let cs = build_where_clause s terms in
    checked cs (
      record s { rows = keep (λ r. not (matches sql_like cs r)) s.rows },
      any_of (matches sql_like cs) s.rows,
    )

-- `clear`: only the static rows stay
unfoldable pub clear : DataStore → DataStore × ℕ
clear s = (
  record s { rows = keep (λ r. r.is_static) s.rows },
  length (keep (λ r. not r.is_static) s.rows),
)

-- the lines that `dump` writes: the rows that are not static
unfoldable pub dump : DataStore → List Row
dump s = keep (λ r. not r.is_static) s.rows

-- the fields that a line of the static content must have
unfoldable pub required_fields : List Text → List Text
required_fields structure =
    if all_of (λ k. eqb k (codes "path") || eqb k (codes "name")) structure
      && any_of (eqb (codes "path")) structure
      && any_of (eqb (codes "name")) structure
    then codes "path" ∷ codes "name" ∷ []
    else structure ++ codes "response" ∷ []

-- `line_json.get("response", "")`
unfoldable pub response_of : Dict Term → Text
unfolding str
response_of line = elim (lookup (codes "response") line) [ none ↦ [] | some v ↦ str v ]

-- one line of the file: an object, or no valid JSON
unfoldable pub load_line : DataStore → Option (Dict Term) → DataStore
load_line s none = s
load_line s (some line) =
    if all_of (λ k. has_key k line) (required_fields s.structure)
    then get_or (store s line true (response_of line)) s
    else s

unfoldable pub load_static_content : DataStore → List (Option (Dict Term)) → DataStore
load_static_content s [] = s
load_static_content s (line ∷ lines) = load_static_content (load_line s line) lines
