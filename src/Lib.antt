-- ===== src/Lib.antt =====
-- automem: one memory for several agents, a server that keeps memories in mem0 and its own tables in
-- SQLite (backend/), with a worker process for governance jobs.
--
-- Parts and files:
-- - Common: lists, tables as lists of rows, stable sorting, Booleans; Text: strings as code points,
--   `normalize_text` (backend/governance/canonicalize.py) and the loop that trims lists of strings;
--   Http: the exceptions, and results that may be one.
-- - Auth: backend/auth.py and the access checks of backend/main.py. Auth/Keys: the table `api_keys` of
--   backend/agent_keys.py; Auth/Verify: `verify_api_key`.
-- - Audit: backend/audit_log.py.
-- - Jobs: the table `governance_jobs` of backend/governance_jobs.py. Jobs/Queue: one function per
--   operation; Jobs/ById: what a claim by id is for; Jobs/Operations: the calls of several processes as a
--   sequence of operations on one table;
--   Jobs/Dispatch: `dispatch_governance_job` of backend/services.py and the endpoint `run-next` of
--   backend/routers/governance.py.
-- - Cache: backend/memory_cache.py. Cache/Facts: the metadata of long-term facts; Cache/Rows: the
--   operations on the table `memory_cache`.
-- - Services: backend/services.py. Services/Flow: calls that change the memories and may raise;
--   Services/Store with Services/Classify, Services/Archive, Services/Rebuild: one service each;
--   Services/Owned: what a store asks of mem0.
-- - Tasks: the table `tasks` and backend/task_storage.py. Tasks/Pages: listings by cursors; Tasks/Rows:
--   `upsert_task` and what the search reads; Tasks/Scan and Tasks/Normalize: `normalize_tasks`;
--   Tasks/Lifecycle: the writes of the endpoints as a sequence. Tasks/Titles and Tasks/Summary: the text
--   helpers and the gate of backend/tasks.py; Tasks/Policy: backend/governance/task_policy.py;
--   Tasks/Resolve: `resolve_task` of backend/routing.py; Tasks/Memories: the memories of a summary.
-- - Consolidation: `run_consolidation_operation` of backend/services.py and its endpoint.
--   Consolidation/Review: what is noise, rewritten or a duplicate; Consolidation/Changes: the writes;
--   Consolidation/Facts: which facts are superseded; Consolidation/Run: the operation, with
--   Consolidation/Steps for what its steps maintain; Consolidation/Jobs: as the job that run-next dispatches.
-- - Search: backend/search.py and backend/search_pipeline.py. Search/Queries: the intent of a query;
--   Search/Scopes: the scope of an old memory;
--   Search/Sources and Search/Candidates: `merge_search_candidate` and its callers; Search/Rank:
--   `rerank_results`; Search/Hybrid: `hybrid_search`.
-- - Worker: scripts/governance_worker.py (Worker/Lock, Worker/Loop) and scripts/scheduled_consolidate.py
--   (Worker/Schedule, Worker/Retries).
-- - Endpoints: backend/routers/memories.py (with Endpoints/Search), backend/routers/tasks.py (Endpoints/Tasks and
--   Endpoints/Summaries), backend/routers/admin.py, and creating and listing jobs (Endpoints/JobCreation,
--   Endpoints/Jobs) of backend/routers/governance.py.
--
-- An endpoint verifies the key, checks scope and identity, calls the component and writes the audit log.
--
-- A table is the list of its rows in the order of insertion; an operation takes the table and returns the
-- table after it beside its answer. A table constraint (primary key, UNIQUE) is a test at the insertion.
-- A transaction that takes the write lock at its beginning is one step, as SQLite serializes the writers; the
-- release of a job reads without that lock, so that its SELECT and its UPDATE are two steps of Jobs/Operations.
-- The dispatch of one job (Jobs/Dispatch) is modelled where no other process writes in between. The rollback
-- of a transaction is `close_transaction` of Tasks/Normalize. JSON columns are held as the values that
-- they encode, a metadata dictionary as a record of the keys that the program reads, where `none` is an
-- absent key or `None`. Where ORDER BY leaves a tie open, the row inserted first comes first.
--
-- The times of jobs and audit events are numbers of microseconds, the others are texts. Clock readings and
-- random ids are arguments. `hash_token` (SHA-256), the digest of a fact key (SHA-1), the mem0 backend and
-- the decision on a text (`govern_memory_text`) are parameters. `str.lower` is modelled on ASCII letters. A
-- negative limit or count of attempts reads as 0, which the code clamps in the same way. The loops of the
-- code run over lists.
--
-- The rules on the titles and kinds of tasks, the tests on regular expressions, the scores of tasks and the
-- encoding of cursors are parameters of Tasks. Reading all pages of a listing runs on fuel, of which one more
-- than the number of tasks is enough.
--
-- In Search the regular expressions, MATCH and LIKE, the search of mem0 and the formula of the final score
-- (floating point) are parameters, and an order of the scores a hypothesis. In Worker each system call on the
-- lock file is a step of one process, and an interleaving is a list of steps; `str` and `int` of a pid, the
-- answer of `os.kill` and the posts of the HTTP client, which may raise, are parameters.
--
-- Not modelled: `route_memory`; the schema migrations; the regular expressions and language model calls of
-- the judge and the routing; HTTP, logging and configuration, clients and user interface.
pub mod Audit
pub mod Auth
pub mod Cache
pub mod Common
pub mod Consolidation
pub mod Endpoints
pub mod Http
pub mod Jobs
pub mod Metadata
pub mod Search
pub mod Services
pub mod Tasks
pub mod Text
pub mod Worker
