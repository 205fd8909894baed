-- ===== src/Lib.antt =====
-- OpenClaw Memory OS: a verification library.
--
-- The program (openclaw_memory_os/, Python) stores memories, ranks them under a retrieval policy, and
-- lets that policy evolve. A dashboard guards it by passwords, one-time codes and sessions. The parts
-- that are modelled, and the files here:
--
--   openclaw_memory_os/contracts.py: Contracts has the identity of a memory, `MemoryRef`, and its text form.
--   openclaw_memory_os/sessions.py: Sessions has `SessionStore`, the table of browser sessions as a list of
--     rows, with `create`, `revoke`, `revoke_all`, `revoke_all_for_user`, `is_valid`; Sessions/Listing `list`;
--     Sessions/Opening the constructor, which migrates a database of an older schema.
--   openclaw_memory_os/evaluation.py: Evaluation has the normalised queries and the order of timestamps,
--     Evaluation/Split `split_cases`, Evaluation/Metrics the metrics, Evaluation/Runner `evaluate` and
--     `evaluate_candidate`; Evaluation/Partition (with Evaluation/Buckets) and Evaluation/Returns are about the
--     split, Evaluation/Counters about the totals of `evaluate`.
--   openclaw_memory_os/migration.py: Migration has `run_migrations`, Migration/Feedback the migrations of the
--     table `feedback_events`.
--   openclaw_memory_os/auth.py: Auth/Limiter has `LoginRateLimiter`, Auth/Recovery the one-time recovery
--     codes (in Auth/Recovery/Concurrent for calls that overlap), Auth/Totp `verify_totp`, Auth/Password
--     `verify_password`, and Auth/Login `verify_token`, `revoke_session` and `attempt_login`, which call all of these and the session store.
--   openclaw_memory_os/policy_store.py: Policy has `Policy` and its clamping; Policy/Files the slots and the
--     files of `PolicyStore`; Policy/Store its operations (`promote`, `revert`, `reject_shadow`, ...);
--     Policy/Store/Open how a store opens on the files of an earlier process.
--   openclaw_memory_os/retrieval_engine.py and candidate_pool.py: Retrieval has candidates, pools, calibration,
--     recency and exact match; Retrieval/Ranking `_rank_pool_band` and `rank_candidate_pool`, which rank by a
--     `Policy`.
--   openclaw_memory_os/evolution.py: Evolution has the state kept between cycles, `_record_cycle_result` and
--     `_can_promote`; Evolution/Steps their sequences; Evolution/Gate the thresholds of a promotion;
--     Evolution/Rollback `_check_rollback`, which calls the policy store's `revert`.
--   openclaw_memory_os/lexical.py: Lexical has `BM25Index`, the index that keyword search reads, with `add`,
--     `remove`, `clear` and `incremental_refresh`; Lexical/Regex the part of `re` that it uses, Lexical/Tokens
--     the tokenizer and `build_lexical_document`, Lexical/Search `search` with its cache of results,
--     Lexical/Disk `to_dict`, `from_dict`, `save`, `load` and the migration of old cache files.
--
-- The files below a part hold its proofs and are named for what they prove. Prelude has the shared
-- lists, tables, texts, errors and numbers; Tests has the examples.
--
-- How the code is modelled. A method is a function from the object's state to its result and the new
-- state; an exception is a value (`Result`), and what was written before it stays. A method is one step,
-- as where a lock is held; the login limiter has no lock, and its calls are taken one after another. An
-- SQLite statement is one step on the list of rows; the two statements that use up a recovery code are
-- also modelled as steps of several calls at once (Auth/Recovery/Concurrent). Times are numbers
-- (microseconds) that a call is given. Loops are structural recursion over lists; only the repetition in
-- a regular expression (Lexical/Regex) has fuel, the number of characters left, of which each repetition
-- uses one at least (Lexical/Matching). Floats are an interface (Prelude/Floats): the formulas are those
-- of the code, and a theorem states the laws of the order that it uses; the ratios of `split_cases` are
-- hundredths instead. Digests, HMAC, Base32, Argon2 and the text form of dates are arguments, with what
-- is used of them as a hypothesis; so are Unicode's classes of characters, the logarithm and `int` of a
-- field weight, which is taken to be a finite number (Lexical/Tokens). Whether a file operation succeeds
-- is an argument too (`Io`), so that a theorem holds for every pattern of the failures that it names: in
-- the policy store the writes, the moves, the removals, and the modes and times that are set or read
-- after a write or a move. Reading a file fails like a file that does not parse.
--
-- Not modelled: the search backends, the loading of judged queries and the reports on them, ingestion,
-- feedback storage, the analytics and audit reports; the web application, the command line, backends,
-- embedding services and scripts, which are calls of other software.
pub mod Prelude
pub mod Contracts
pub mod Sessions
pub mod Auth
pub mod Policy
pub mod Evolution
pub mod Retrieval
pub mod Lexical
pub mod Migration
pub mod Evaluation
pub mod Tests
