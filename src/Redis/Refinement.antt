-- ===== src/Redis/Refinement.antt =====
-- What the databases of src/honeypots/redis_honeypot.py are to a client: a value, or none, for each
-- key of each database. The commands on the dictionaries of the honeypot carry out those on this
-- map.
use honey_mind.Prelude.{
  Text, codes, eqb, upper, words, join, space, member, lookup, insert, lookup-nil, List, [], ◌∷◌,
  if◌then◌else◌, Option, none, some, get_or, ◌≡◌, refl, ap, ◌∙◌, arith,
}
use honey_mind.Redis.Integers.{ℤ, same_int, int}
use honey_mind.Redis.Framing.{fallback}
use honey_mind.Redis.Commands.{
  database, Honeypot, Session, World, Verb, auth, select, set, get, del, keys_of, flushdb, flushall,
  info, command_list, other, verb_of, run, run_auth, run_select, run_get, run_del, with_database,
  delete_keys, process_words, process_command,
}
use honey_mind.Redis.Databases.{
  lookup-database, lookup-database-insert, lookup-database-delete, get_reply, found_reply,
  process-get,
}

-- the client's view: the selected database, and the values
pub record Client : Type 0 where
  pub selected : ℤ
  pub values : ℤ → Text → Option Text

abbrev update : Client → (Text → Option Text → Option Text) → Client
update a change = record a {
  values = λ i k. if same_int a.selected i then change k (a.values i k) else a.values i k;
}

-- the commands on a view
unfoldable pub act : Client → Verb → List Text → Client
act a select (index ∷ rest) = record a { selected = get_or (int index) a.selected }
act a set (key ∷ v ∷ vs) =
    update a (λ k old. if eqb key k then some (join (space ∷ []) (v ∷ vs)) else old)
act a del (key ∷ names) = update a (λ k old. if member k (key ∷ names) then none else old)
act a flushdb args = update a (λ k old. none)
act a flushall args = record a { values = λ i k. none }
act a _ args = a

unfoldable pub act_words : Client → List Text → Client
act_words a [] = a
act_words a (cmd ∷ args) = act a (verb_of (upper cmd)) args

-- a honeypot and a session show a view
pub record Shows (h : Honeypot) (s : Session) (a : Client) : Type 0 where
  pub same_selected : s.current_db ≡ a.selected
  pub same_values : (i : ℤ) (k : Text) → lookup k (database i h.data_store) ≡ a.values i k

module _ (w : World) (h : Honeypot) (s : Session) (a : Client) (shows : Shows h s a) where
  after_update :
      (h' : Honeypot) (change : Text → Option Text → Option Text)
      → ((i : ℤ) (k : Text)
          → lookup k (database i h'.data_store) ≡ (
              if same_int s.current_db i
              then change k (lookup k (database i h.data_store))
              else lookup k (database i h.data_store)))
      → Shows h' s (update a change)
  after_update h' change same = record {
    same_selected = shows.same_selected;
    same_values = λ i k.
        same i k
        ∙ ap (λ o. if same_int s.current_db i then change k o else o) (shows.same_values i k)
        ∙ ap (λ j. if same_int j i then change k (a.values i k) else a.values i k)
            shows.same_selected;
  }

  select-Shows :
      (o : Option ℤ)
      → Shows
          (run_select h s o).0.0
          (run_select h s o).0.1
          (record a { selected = get_or o a.selected })
  unfolding run_select
  select-Shows none = shows
  select-Shows (some i) = record { same_selected = refl; same_values = shows.same_values }

  get-Shows :
      (o : Option Text) (missed : Text)
      → Shows (run_get h s o missed).0.0 (run_get h s o missed).0.1 a
  unfolding run_get
  get-Shows none missed = shows
  get-Shows (some v) missed = shows

  auth-Shows : (args : List Text) → Shows (run_auth w h s args).0.0 (run_auth w h s args).0.1 a
  unfolding run_auth
  auth-Shows args = record { same_selected = shows.same_selected; same_values = shows.same_values }

  set-Shows :
      (key value : Text)
      → Shows
          (with_database h s (insert key value (database s.current_db h.data_store)))
          s
          (update a (λ k old. if eqb key k then some value else old))
  unfolding with_database
  set-Shows key value =
      after_update _ (λ k old. if eqb key k then some value else old)
        (λ i k. ground (arith, lookup-database-insert s.current_db i key k value h.data_store))

  del-Shows :
      (names : List Text)
      → Shows
          (with_database h s (delete_keys names (database s.current_db h.data_store)).0)
          s
          (update a (λ k old. if member k names then none else old))
  unfolding with_database
  del-Shows names =
      after_update _ (λ k old. if member k names then none else old)
        (λ i k. ground (arith, lookup-database-delete s.current_db i names k h.data_store))

  flushdb-Shows : Shows (with_database h s []) s (update a (λ k old. none))
  unfolding with_database
  flushdb-Shows =
      after_update _ (λ k old. none)
        (λ i k.
          lookup-database s.current_db i k [] h.data_store
          ∙ ap (λ o. if same_int s.current_db i then o else lookup k (database i h.data_store))
              (lookup-nil k))

  flushall-Shows : Shows (record h { data_store = [] }) s (record a { values = λ i k. none })
  unfolding database
  flushall-Shows = record { same_selected = shows.same_selected; same_values = λ i k. lookup-nil k }

  run-Shows :
      (cmd command : Text) (verb : Verb) (args : List Text)
      → Shows
          (run w h s cmd command verb args).0.0
          (run w h s cmd command verb args).0.1
          (act a verb args)
  unfolding run act run_del
  run-Shows cmd command auth args = auth-Shows args
  run-Shows cmd command select [] = shows
  run-Shows cmd command select (index ∷ rest) = select-Shows (int index)
  run-Shows cmd command set [] = shows
  run-Shows cmd command set (key ∷ []) = shows
  run-Shows cmd command set (key ∷ v ∷ vs) = set-Shows key (join (space ∷ []) (v ∷ vs))
  run-Shows cmd command get [] = shows
  run-Shows cmd command get (key ∷ rest) =
      get-Shows (lookup key (database s.current_db h.data_store)) (fallback w.action cmd command)
  run-Shows cmd command del [] = shows
  run-Shows cmd command del (key ∷ names) = del-Shows (key ∷ names)
  run-Shows cmd command keys_of args = shows
  run-Shows cmd command flushdb args = flushdb-Shows
  run-Shows cmd command flushall args = flushall-Shows
  run-Shows cmd command info args = shows
  run-Shows cmd command command_list args = shows
  run-Shows cmd command other args = shows

  words-Shows :
      (command : Text) (ws : List Text)
      → Shows
          (process_words w h s command ws).0.0
          (process_words w h s command ws).0.1
          (act_words a ws)
  unfolding process_words act_words
  words-Shows command [] = shows
  words-Shows command (cmd ∷ args) = run-Shows (upper cmd) command (verb_of (upper cmd)) args

-- the commands of a connection, one behind the other
unfoldable pub process_all : List (World × Text) → Honeypot × Session → Honeypot × Session
process_all [] state = state
process_all ((w, command) ∷ commands) (h, s) =
    process_all commands (process_command w h s command).0

unfoldable pub act_all : List (World × Text) → Client → Client
act_all [] a = a
act_all ((w, command) ∷ commands) a = act_all commands (act_words a (words command))

-- The commands of a connection, whatever they are, refine those on the view of the client: where
-- the honeypot and the session show a view before them, they show the view that the commands make
-- of it behind them.
pub process_all-Shows :
    (commands : List (World × Text)) (h : Honeypot) (s : Session) (a : Client)
    → Shows h s a
    → Shows (process_all commands (h, s)).0 (process_all commands (h, s)).1 (act_all commands a)
unfolding process_all act_all process_command
process_all-Shows [] h s a shows = shows
process_all-Shows ((w, command) ∷ commands) h s a shows =
    let (h', s') = (process_command w h s command).0 in
    process_all-Shows commands h' s' (act_words a (words command))
      (words-Shows w h s a shows command (words command))

-- A GET behind any commands of a connection replies from the view that the client has of them: with
-- the value as one bulk string, or as to a key that was never set.
pub process_all-get :
    (commands : List (World × Text)) (h : Honeypot) (s : Session) (a : Client) (w : World)
    (command cmd key : Text) (rest : List Text)
    → Shows h s a
    → words command ≡ cmd ∷ key ∷ rest
    → upper cmd ≡ codes "GET"
    → (process_command w (process_all commands (h, s)).0 (process_all commands (h, s)).1 command).1
      ≡ found_reply
          (fallback w.action (codes "GET") command)
          ((act_all commands a).values (act_all commands a).selected key)
unfolding get_reply
process_all-get commands h s a w command cmd key rest shows words_are verb =
    let (h', s') = process_all commands (h, s) in
    let view = process_all-Shows commands h s a shows in
    let missed = fallback w.action (codes "GET") command in
    process-get w h' s' command cmd key rest words_are verb
    ∙ ap (found_reply missed) (view.same_values s'.current_db key)
    ∙ ap (λ i. found_reply missed ((act_all commands a).values i key)) view.same_selected
