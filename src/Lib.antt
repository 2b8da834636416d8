-- ===== src/Lib.antt =====
-- The backend of the multi-agent analyst (backend/app), modelled part by part.
--
-- A question becomes a run. A worker claims the run's job from a queue and drives a graph of agents: a
-- supervisor chooses among the evidence agents (documents, web, analytics) until it sends the run to
-- the answer, and a critic reviews the answer.
--
-- Parts and files:
-- Prelude: numbers, lists, exceptions as values; Prelude/Text: Python's str as a list of code points.
-- Json: the values of json.loads, and the first object of a chatty reply.
-- Agents/State: agents/state.py. Agents/Action: calls of outside services, which may raise.
-- Agents/Supervisor: agents/supervisor.py (choose_route, _fallback_route); Routing has its proofs.
-- Agents/Specialists: agents/retriever.py, agents/web.py, agents/data.py, agents/critic.py.
-- Agents/Graph: agents/workflow.py (the nodes, the edges, _RunBudget, run_workflow). Its children
-- prove that nodes follow the step relation of Relation (Nodes), an induction over runs (Steps), the
-- bound on supersteps (Termination), the ceilings (Limits), what comes before an answer (Grounding),
-- which answers of the services its evidence goes back to (Provenance), and whole runs (Runs).
-- Queue: services/queue.py. InMemory and Durable are the two queues, Redis the commands that the
-- durable one sends. Its children prove that only the readable keys matter (Independence), that no
-- stored job is out of reach (Tracking), what a crash inside a claim does (Crash), and that the
-- durable queue does what the in-memory one does (Refinement).
--
-- Database: tables as SQLAlchemy shows them; Queries: order, maximum, numbered rows.
-- RunStore: services/run_store.py, with the rows of db/models.py in Rows. Its children prove what a
-- resuming reader gets (Events, over the sequences of writes of Changes), how many requests the daily
-- quota grants (Quota), which verdict stays (Verdicts), and what pages and citations show (Reads).
--
-- DocumentStore: services/document_store.py.
-- Worker: worker.py, the claim loop and what becomes of a job. Jobs executes one, Environment has what
-- it is executed with, Queues the in-memory queue behind the interface of services/queue.py, and
-- Documents the services with Extraction and Ingestion in their places. The rest proves which rows a
-- job leaves alone (Rows, Others), that a run that has ended stays so (Terminal), and that a job about
-- a run settles it or goes back to the queue (Settling, Handling). Agents/Graph/Effects and the
-- children of Agents/Action carry these proofs across a run's agents.
--
-- RateLimit: services/rate_limit.py, both limiters and enforce; Windows counts what they let through.
-- Extraction: ingestion/extraction.py. Sources is what its parsers give, Budget the accumulator with
-- its limit, and Formats the extractors. Bounds, Measures, Guard and Refusals prove what its ceilings
-- promise.
-- Ingestion: ingestion/service.py, over Chunking; Indexing proves what it hands to the vector store.
-- Chunking: ingestion/chunking.py; Bounds shows that its loop ends and how long chunks are.
--
-- Auth: auth/service.py. Rows has the tables and Transactions the shape of a method that writes,
-- commits and may then raise; Credentials is what the service reads of hashing and of signed tokens.
-- Sessions, Accounts, Passwords, Invites and Login hold the methods, one file for each group of them.
-- Lineage is the revocation of every session reached from a replayed one, with its rounds and its loop
-- beneath it. Calls has the sequences of calls of the service, and Changes the steps that they change
-- sessions by. Replay, Access, Failures, Resets, Acceptance and Rotation prove what the calls of a
-- client give.
-- Api: api/routes/runs.py. Creation is create_run with its quotas, Stream the event stream's rounds,
-- Runs the other handlers, Cursor the reading of Last-Event-ID, Resume what a reader who comes back
-- with the id of a frame is sent, and Site what a request brings along with client_identifier and
-- rate_limit_key of services/rate_limit.py.
--
-- Parameters: the language model, the searches, the SQL executor, the event sink, the clock,
-- str.lower, json.loads and json.dumps are arguments of the definitions that use them; Redis is a
-- record of commands, and the database a record of tables, with the documented effect of each. Prompts
-- are the values that their fixed wording interpolates. UUIDs are numbers. The password and token
-- hashes, JSON web tokens, and the ids and secrets that a call draws are arguments of the methods of
-- the service. The parsers of documents give their items one by one and may raise at any.
--
-- Fuel: the graph has as many supersteps as run_workflow allows, max(8, 4 * max_steps); Termination
-- says when these are enough. `decimal` has more fuel than a number has digits, and chunk_text one
-- round more than its text has characters, which Chunking/Bounds shows to be enough. revoke_from has
-- one round for every row and one more, and Lineage/Rounds shows that these reach every successor. An
-- event stream has the 3600 rounds that fill half an hour at half a second each.
--
-- Not modelled: the other HTTP handlers (authentication, documents, health), database sessions and
-- writes that fail, configuration, readiness, the clients of outside services, the guard of generated
-- SQL, telemetry, and the text of log lines.
pub mod Agents
pub mod Api
pub mod Auth
pub mod Chunking
pub mod Database
pub mod DocumentStore
pub mod Extraction
pub mod Ingestion
pub mod Json
pub mod Prelude
pub mod Queue
pub mod RateLimit
pub mod RunStore
pub mod Worker
