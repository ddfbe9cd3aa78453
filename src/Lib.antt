-- ===== src/Lib.antt =====
-- HoneyMind: a honeypot whose services answer attackers from a store of recorded responses, from a
-- fake file system, or from a language model. This library models the parts that decide what an
-- attacker sees and proves what they promise.
--
-- How the parts interact: a service takes an input line (a shell command, an SQL text, an HTTP path),
-- lets the password manager decide on logins, and hands the line to a chain of handlers. The data
-- handler normalises it, looks it up in the data store, and asks the model, within the budget of the
-- limiter, where nothing is found. The fake file system answers shell commands from its table. The
-- analysis reads recorded sessions.
--
-- Normalizer, src/core/input_normalizer.py: `tokenize_shell_like` (a scanner, one step function per
--   branch of the loop), `collapse_unquoted_whitespace`, the HTTP and SQL forms, `normalize_lookup_key`.
-- Password, src/core/password_manager.py: the manager as a record, `attempt` as a state transition; the
--   draws of `random` are arguments.
-- Llm, src/llm_providers/llm_utils.py: `Limiter` is InvokeLimiter with the clock, in microseconds, as an
--   argument; `Provider` chooses provider, key and headers, with the URL library as a parameter.
-- Cache: `Store` is SqliteDataStore of src/infra/data_store.py, a list of rows, with the engine's LIKE
--   as a parameter; `Terms`, `Handler` and `Dispatch` are DataHandler of src/infra/data_handler.py; `Chain`
--   is ChainedDataHandler of src/infra/chained_data_handler.py and ChainedHoneypotAction of
--   src/infra/chain_honeypot_action.py.
-- FakeFs: `Paths` and `Commands` are src/infra/fake_fs/commands.py; `Nodes` is
--   src/infra/fake_fs_datastore.py and src/infra/fake_fs/filesystem.py, a list of nodes, with os.path as a
--   parameter and times as the texts that SQLite keeps;
--   `Arguments`, `Reader` and `Search` are commands of src/infra/fake_fs_data_handler.py, `System`
--   and `Artifacts` the machine that it poses as, `Shlex` the library's splitter, and `Query` the order
--   of its handlers and the downloads. `Query/Keeps` has the sessions that queries lead to.
-- Redis, src/honeypots/redis_honeypot.py: the framing and the commands on the databases; `Refinement` has the
--   view of a client, an abstract map, that the commands refine.
-- Ssh, src/honeypots/ssh_honeypot.py: `Terminal` is the normal form of outputs, `Shell` the shell on a channel,
--   one byte at a time, `Exec` a single command, `Upload` the scp protocol on the bytes of a channel, `Files`
--   the operations of SFTP. `Login` is the check of a
--   password, on the manager and the log of events, `Connection` the filter of the log and the reason of
--   an end, `Prompt` src/infra/prompt_utils.py. The action behind the honeypot
--   and what the log changes of a session are an interface, `Backend`.
-- Telnet, src/honeypots/telnet_honeypot.py: the reader of a line, the sessions by address, and the shell; `Login`
--   has what stands in front of the shell: the session that is gone on with, or the rounds of names and
--   passwords.
-- EventLog, src/logging_pipeline/canonical_log_utils.py: the events of a session; `Logger` has the methods of
--   src/honeypots/base_honeypot.py that build them.
-- Analysis: `Typing` is src/analysis/bot_human_analyzer.py, `Profile` is
--   src/analysis/attacker_profiler.py, `Fingerprint` is src/analysis/session_fingerprint.py,
--   `Condenser` is src/analysis/log_condenser.py.
-- Postgres, src/honeypots/postgresql_honeypot.py: the reader of a message and the bytes of the replies.
-- EnvFile, src/core/honeypot_utils.py: the environment file.
-- Prelude holds the shared helpers: tests, lists, texts as lists of code points, dictionaries in the
--   order of insertion. Tests holds concrete runs.
--
-- Fuel: the tokenizer's loop runs on as much fuel as the text has characters, and every step takes one
-- at least; the printer of numbers runs on the number itself. The bytes of an upload and of a message are received on as
-- much fuel as are missing, and the login and the shell of Telnet run on one round more than there are
-- characters. All else is structural recursion.
--
-- Texts: case folding is that of ASCII. Ratios are in hundredths.
--
-- Not modelled: sockets, threads, files and logging; the SQL engine; the network calls to providers; the
-- classifier's regular expressions; the other protocols; floating point scores.
mod Prelude
mod Tests
pub mod Normalizer
pub mod Password
pub mod Llm
pub mod Cache
pub mod FakeFs
pub mod Redis
pub mod Analysis
pub mod EnvFile
pub mod Ssh
pub mod EventLog
pub mod Telnet
pub mod Postgres
