-- ===== src/Lib.antt =====
-- Verification of a compliance service that compares contract clauses with the Code of Federal
-- Regulations (CFR).
--
-- The program. The retrieval (agent/mcp_search.py) finds the regulation for each clause, as a
-- `CfrMatch`. The pipeline (agent/compliance_pipeline.py) takes each match through the security gate
-- (agent/security.py), the memory of verified verdicts (agent/memory.py, agent/memory_store.py), the
-- deterministic rules (agent/deterministic_rules.py), the language model
-- (agent/compliance_agent.py) and the verification of its answer (agent/verification_agent.py). The
-- results make a report (agent/reporting.py), which a repository keeps with the reviews that people
-- decide (agent/persistence). The HTTP interface (api.py) evaluates clauses against a regulation text
-- that the caller supplies, without the retrieval, through the same gate, rules, model and
-- verification, and serves the reviews. The retrieval's server (src/cfr_compliance_mcp) asks the
-- public service eCFR through a client with a rate limit and caches, behind tools with a cache of
-- their own.
--
-- The files.
--   Models: the data of agent/models.py.
--   Reporting: `ClauseReport`, `ReportRecord` and `build_report`; the file names (Identifiers, Names,
--     Safe); the directory of reports and agent/persistence/file_repository.py (Directory, Saved).
--   Review: `review_lifecycle.py` (Lifecycle), the records and exceptions (Records), the state and
--     the writes of `InMemoryRepository` (Repository), its reads (Queries); invariants of the trail
--     (Trail, History), concurrency (Concurrency, Bounds), what a save opens (Opening), listings
--     (Counting).
--   Cache: `InMemoryCacheBackend` (Backend), an ideal store (Ideal) and the refinement (Refinement).
--   Regex: the regular expressions that the source writes, with the order of Python's search.
--   Rules: keywords and markers (Keywords), what a rule returns (Outcomes), the rules (Checks,
--     Requirement), what they can see (Language) and decide (Verdicts).
--   Verification: the checks (Checks) and what acceptance means (Verdict).
--   Memory: token sets and citations (Similarity), records, the file (Store), `retrieve`
--     (Retrieval), `index` (Indexing), when a verdict is reused (Reuse), how the file grows (Growth),
--     what is found again (Recall), that nothing is stored twice (Uniqueness).
--   Security: the injection patterns (Injection), the gates (Gate), when they pass (Safety), the
--     sanitizers (Sanitize), runs of blanks (Runs), what a sanitized text is (Sanitized),
--     `evaluate_with_security` (Evaluation).
--   Agent: from the model's answer to a result.
--   Retrieval: the search query (SearchQuery, QueryBounds), the prediction of a title by
--     agent/cfr_query_optimizer.py (Domains, Prediction), candidates and citations (Candidates),
--     fetches and versions (Fetch), which candidate is taken (Selection), what a match may claim
--     (Labels).
--   Pipeline: `CfrMatch` and its title (Match), the results (Results), `_evaluate_match`
--     (Evaluation), the tasks and their order (Schedule), which stored records make a result (Trust)
--     and what a lookup gives of them (Recalled), what a result promises (Outcome, Interleaving), the
--     memory (Feedback, Retention), the evidence (Provenance), the whole run (Run).
--   Api: api.py. The request, its validation and the scan (Input), `_evaluate_clause` (Evaluation),
--     the endpoints `/evaluate-clause` and `/evaluate-bulk` (Endpoints), what a result and a bulk
--     response are (Outcome, Bulk), the memory (Memory), the review endpoints and the exception
--     handlers over any repository (Reviews), with the in-memory one (Workflow, Decisions), the history
--     of analyses (Analyses) and the report of a bulk request in it (History).
--   Server: src/cfr_compliance_mcp. `_RateLimiter` of clients/http_client.py (Limiter, Spacing), the
--     errors of that client, of clients/ecfr_client.py, of exceptions.py and of tools/_common.py
--     (Errors, Retrying), calls with errors and state (Calls), `EcfrClient` (Client), what its calls
--     keep (Sessions, Histories), the text and the date of tools/retrieve_section.py (Citing),
--     `cached_call` of tools/_common.py (Cached, Freshness), the requests of models/requests.py
--     (Requests, Words) and the search tools (Searching, Queries).
--   Prelude: shared names, tests on numbers, lists, texts, dictionaries, integers.
--
-- State is passed explicitly: `InMemoryRepository` is a record of two dictionaries, the eCFR client
-- one of its two caches and the requests so far, the limiter a list of times, the directory of
-- reports an optional dictionary of files, the cache a dictionary with a clock argument, the memory a
-- file of lines with the identifiers read so far and flags that say whether the file can be read and
-- written. An operation of the source that raises returns an error value and the state it leaves.
--
-- Concurrency. The pipeline's tasks run one after another up to the answer of the model, and resume
-- in any order: `_evaluate_match` is cut there, into `begin_match` and `finish_match`, and the order
-- is an argument, a list of task numbers; tasks that it leaves out resume at the end. An operation
-- of the cache holds its lock, and one of the in-memory repository awaits nothing, so each is one
-- step, and a run is a list of operations. The limiter holds its lock for a whole `acquire`. The calls
-- of the eCFR client run one after another here, and a bulk request evaluates its clauses in order, as
-- the code does.
--
-- Parameters: the hash, the clock (for the limiter its readings, in milliseconds), the tools of the
-- retrieval's server, the model, a function from its request to an answer or none; for the server, the
-- eCFR service, whose answer may depend on all requests before, the decoding of its index of titles,
-- and the encoding of what the tools cache; for the API, the repository that keeps reports and reviews.
--
-- A line of the memory's file reads back as the record that was written, unless a text of the record
-- has one of U+0085, U+2028 and U+2029, where the reading cuts the line: then it is malformed. A stored
-- record may have any confidence, and evidence that the models do not accept; to reuse it, or to
-- render it for the model, raises as the code does.
--
-- Confidences are hundredths. Letters, digits and blanks are those of ASCII. No fuel is used but for
-- the digits of a decimal number, where a number is fuel enough for its own digits.
--
-- Not modelled: the eCFR service and the transport to it, the retry loop (a library's) and
-- interleaved calls of the eCFR client (two resolutions of a date at once among them), the parsing
-- of XML, of PDF contracts and of JSON, the database repository, health checks of the HTTP
-- interface, the dashboard, the benchmarks, rendering of prompts, log lines and the texts of
-- exceptions.
pub mod Prelude
pub mod Models
pub mod Reporting
pub mod Review
pub mod Cache
pub mod Regex
pub mod Rules
pub mod Verification
pub mod Memory
pub mod Security
pub mod Agent
pub mod Pipeline
pub mod Api
pub mod Server
pub mod Retrieval
