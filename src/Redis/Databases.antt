-- ===== src/Redis/Databases.antt =====
-- What the commands of src/honeypots/redis_honeypot.py promise a client about the databases.
use honey_mind.Prelude.{
  Text, codes, eqb, eqb_iff, upper, words, join, space, member, Dict, lookup, insert, remove,
  lookup-insert, lookup-remove, Bool, true, false, ◌&&◌, List, [], ◌∷◌, if◌then◌else◌, Option, none,
  some, ◌≡◌, refl, sym, ap, ◌∙◌, arith,
}
use honey_mind.Redis.Integers.{ℤ, same_int, same_int_iff}
use honey_mind.Redis.Framing.{bulk, fallback}
use honey_mind.Redis.Commands.{
  Databases, database, set_database, Honeypot, Session, World, verb_of, run_get, run, run_del,
  with_database, delete_keys, process_words, process_command,
}

database-set_database :
    (i j : ℤ) (db : Dict Text) (dbs : Databases)
    → database j (set_database i db dbs) ≡ (if same_int i j then db else database j dbs)
unfolding database set_database
database-set_database i j db [] = refl
database-set_database i j db ((k, old) ∷ dbs) =
    ground (
      arith,
      same_int_iff i j,
      same_int_iff k i,
      same_int_iff k j,
      database-set_database i j db dbs,
    )

-- what is under a key after one database was set
pub lookup-database :
    (i j : ℤ) (k : Text) (db : Dict Text) (dbs : Databases)
    → lookup k (database j (set_database i db dbs))
      ≡ (if same_int i j then lookup k db else lookup k (database j dbs))
lookup-database i j k db dbs = ground (arith, database-set_database i j db dbs)

pub lookup-database-insert :
    (i j : ℤ) (k l v : Text) (dbs : Databases)
    → lookup l (database j (set_database i (insert k v (database i dbs)) dbs))
      ≡ (if same_int i j && eqb k l then some v else lookup l (database j dbs))
lookup-database-insert i j k l v dbs = ground (
  arith,
  lookup-database i j l (insert k v (database i dbs)) dbs,
  same_int_iff i j,
  lookup-insert k l v (database i dbs),
)

lookup-delete_keys :
    (ks : List Text) (k : Text) (db : Dict Text)
    → lookup k (delete_keys ks db).0 ≡ (if member k ks then none else lookup k db)
unfolding delete_keys
lookup-delete_keys [] k db = refl
lookup-delete_keys (l ∷ ks) k db = ground (
  arith,
  eqb_iff k l,
  eqb_iff l k,
  lookup-delete_keys ks k db,
  lookup-delete_keys ks k (remove l db),
  lookup-remove l k db,
)

pub lookup-database-delete :
    (i j : ℤ) (ks : List Text) (l : Text) (dbs : Databases)
    → lookup l (database j (set_database i (delete_keys ks (database i dbs)).0 dbs))
      ≡ (if same_int i j && member l ks then none else lookup l (database j dbs))
lookup-database-delete i j ks l dbs = ground (
  arith,
  lookup-database i j l (delete_keys ks (database i dbs)).0 dbs,
  same_int_iff i j,
  lookup-delete_keys ks l (database i dbs),
)

unfoldable pub found_reply : Text → Option Text → Text
found_reply missed none = missed
found_reply missed (some val) = bulk val

found_reply-if :
    (b : Bool) (missed : Text) (x y : Option Text)
    → found_reply missed (if b then x else y)
      ≡ (if b then found_reply missed x else found_reply missed y)
found_reply-if true missed x y = refl
found_reply-if false missed x y = refl

-- the reply of a GET in a session
unfoldable pub get_reply : World → Session → Text → Text → Databases → Text
get_reply w t command key dbs =
    found_reply (fallback w.action (codes "GET") command) (lookup key (database t.current_db dbs))

run_get-reply :
    (h : Honeypot) (s : Session) (found : Option Text) (missed : Text)
    → (run_get h s found missed).1 ≡ found_reply missed found
unfolding run_get found_reply
run_get-reply h s none missed = refl
run_get-reply h s (some val) missed = refl

module _ (w : World) (h : Honeypot) (s : Session) (command cmd key : Text) where
  -- a command by its words
  process-words :
      (args : List Text)
      → words command ≡ cmd ∷ args
      → process_command w h s command ≡ run w h s (upper cmd) command (verb_of (upper cmd)) args
  unfolding process_command process_words
  process-words args words_are = ap (process_words w h s command) words_are

  process-set :
      (v : Text) (vs : List Text)
      → words command ≡ cmd ∷ key ∷ v ∷ vs
      → upper cmd ≡ codes "SET"
      → (process_command w h s command).0.0.data_store
        ≡ set_database s.current_db
            (insert key (join (space ∷ []) (v ∷ vs)) (database s.current_db h.data_store))
            h.data_store
  unfolding run verb_of eqb with_database
  process-set v vs words_are verb =
      ap (λ o. o.0.0.data_store) (process-words (key ∷ v ∷ vs) words_are)
      ∙ ap (λ u. (run w h s u command (verb_of u) (key ∷ v ∷ vs)).0.0.data_store) verb

  pub process-get :
      (rest : List Text)
      → words command ≡ cmd ∷ key ∷ rest
      → upper cmd ≡ codes "GET"
      → (process_command w h s command).1 ≡ get_reply w s command key h.data_store
  unfolding run verb_of eqb run_get get_reply
  process-get rest words_are verb =
      ap (λ o. o.1) (process-words (key ∷ rest) words_are)
      ∙ ap (λ u. (run w h s u command (verb_of u) (key ∷ rest)).1) verb
      ∙ run_get-reply h s (lookup key (database s.current_db h.data_store)) _

  process-del :
      (names : List Text)
      → words command ≡ cmd ∷ key ∷ names
      → upper cmd ≡ codes "DEL"
      → (process_command w h s command).0.0.data_store
        ≡ set_database s.current_db
            (delete_keys (key ∷ names) (database s.current_db h.data_store)).0
            h.data_store
  unfolding run verb_of eqb run_del with_database
  process-del names words_are verb =
      ap (λ o. o.0.0.data_store) (process-words (key ∷ names) words_are)
      ∙ ap (λ u. (run w h s u command (verb_of u) (key ∷ names)).0.0.data_store) verb

-- After `SET key value…`, a GET of any key replies as it did before, unless it names the same key
-- in the same database; then it replies with the words of the value as one bulk string.
pub set-get :
    (w w' : World) (h : Honeypot) (s t : Session) (c1 cmd1 key v : Text) (vs : List Text)
    (c2 cmd2 other_key : Text) (rest : List Text)
    → words c1 ≡ cmd1 ∷ key ∷ v ∷ vs
    → upper cmd1 ≡ codes "SET"
    → words c2 ≡ cmd2 ∷ other_key ∷ rest
    → upper cmd2 ≡ codes "GET"
    → (process_command w' (process_command w h s c1).0.0 t c2).1 ≡ (
        if same_int s.current_db t.current_db && eqb key other_key
        then bulk (join (space ∷ []) (v ∷ vs))
        else (process_command w' h t c2).1)
unfolding get_reply found_reply
set-get w w' h s t c1 cmd1 key v vs c2 cmd2 other_key rest words1 verb1 words2 verb2 =
    process-get w' (process_command w h s c1).0.0 t c2 cmd2 other_key rest words2 verb2
    ∙ ap (get_reply w' t c2 other_key) (process-set w h s c1 cmd1 key v vs words1 verb1)
    ∙ ap (found_reply (fallback w'.action (codes "GET") c2)) (
        lookup-database-insert s.current_db t.current_db key other_key (join (space ∷ []) (v ∷ vs))
          h.data_store)
    ∙ found_reply-if (same_int s.current_db t.current_db && eqb key other_key) _ (some _) _
    ∙ ap
        (λ r.
          if same_int s.current_db t.current_db && eqb key other_key
          then bulk (join (space ∷ []) (v ∷ vs))
          else r)
        (sym (process-get w' h t c2 cmd2 other_key rest words2 verb2))

-- After `DEL key…`, a GET of any key replies as it did before, unless DEL named it in the same
-- database; then it replies as to a key that was never set.
pub del-get :
    (w w' : World) (h : Honeypot) (s t : Session) (c1 cmd1 key : Text) (names : List Text)
    (c2 cmd2 other_key : Text) (rest : List Text)
    → words c1 ≡ cmd1 ∷ key ∷ names
    → upper cmd1 ≡ codes "DEL"
    → words c2 ≡ cmd2 ∷ other_key ∷ rest
    → upper cmd2 ≡ codes "GET"
    → (process_command w' (process_command w h s c1).0.0 t c2).1 ≡ (
        if same_int s.current_db t.current_db && member other_key (key ∷ names)
        then fallback w'.action (codes "GET") c2
        else (process_command w' h t c2).1)
unfolding get_reply found_reply
del-get w w' h s t c1 cmd1 key names c2 cmd2 other_key rest words1 verb1 words2 verb2 =
    process-get w' (process_command w h s c1).0.0 t c2 cmd2 other_key rest words2 verb2
    ∙ ap (get_reply w' t c2 other_key) (process-del w h s c1 cmd1 key names words1 verb1)
    ∙ ap (found_reply (fallback w'.action (codes "GET") c2))
        (lookup-database-delete s.current_db t.current_db (key ∷ names) other_key h.data_store)
    ∙ found_reply-if (same_int s.current_db t.current_db && member other_key (key ∷ names)) _ none _
    ∙ ap
        (λ r.
          if same_int s.current_db t.current_db && member other_key (key ∷ names)
          then fallback w'.action (codes "GET") c2
          else r)
        (sym (process-get w' h t c2 cmd2 other_key rest words2 verb2))
