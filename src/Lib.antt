-- ===== src/Lib.antt =====
-- A verification library for python-async-api-barebones, an async HTTP client that persists,
-- deduplicates, limits, retries and dead-letters its requests (async_hardened_client/).
--
-- How the parts interact. `request` builds a Request, whose idempotency key asks the dedup registry
-- for a future. The owner of a fresh future persists a row and puts an item on the bounded queue.
-- A worker takes the item, asks the breaker of the host, waits for a token of the host's bucket,
-- and executes. A success deletes the row and resolves the future; an error that may be tried again
-- counts on the row and leaves a task that sleeps and puts the item back; any other error writes a
-- dead letter, deletes the row and fails the future. `start` recovers the rows of an earlier run.
--
-- Which file models which part:
--   Config                     async_hardened_client/config.py
--   Errors                     errors.py: the exceptions as one type, their classification
--   Exec                       exceptions and state: a Result and the changed object
--   Retry                      retry.py: should_retry, backoff_seconds, parse_retry_after
--   Breaker                    circuit_breaker.py: Defs the breaker, Hosts the registry; Rules,
--                              Probes and Window hold the proofs
--   Limiter                    rate_limiter.py: Bucket the token bucket, Registry the buckets of
--                              hosts; Bounds, Rate and Overrides hold the proofs
--   Models                     models.py: Json the values and the canonical text, Defs the request;
--                              Keys and RoundTrip hold the proofs
--   Queue                      queue.py: Defs the operations, Order the proofs
--   Dedup                      dedup.py: Defs the registry; Invariant and Sharing the proofs
--   Storage                    storage.py: Tables the rows and the connection, Inflight and
--                              DeadLetters the statements; Rows, Book, Represented, Listing,
--                              Letters, Presence and Writes the proofs
--   Metrics                    observability.py: the counters and their snapshot
--   Client                     client.py: State its attributes and where each task stands, Execute
--                              `_execute`, Body `_read_response`, Worker `_worker`, `_handle` and
--                              `_handle_retry_or_dlq`, Tasks `request`, `_submit` and
--                              `_reschedule`, Start `start` and the recovery, Snapshot `metrics`,
--                              System all tasks together
--   Client.System              Defs the tasks and their steps, Moves the cancellation of callers,
--                              Carriers, Futures, Workers, Balances, Consistent and Invariant the
--                              work of a key, Covered, Interrupted and Split the same with
--                              cancellations, Stuck work that is lost, Runnable and Progress who can
--                              run;
--                              Segments, Kept, Ledger, Stages and Puts what each step does to sums
--                              over the tasks, which Attempts, Budget, Sends, Counted, Saved and
--                              Written use; Recovered and Crashed a restart, Unserved a
--                              start that fails, Stranded a stop that leaves an item
--   DeadLetter                 dead_letter.py: Defs the functions, a replay as a task of its own;
--                              Sessions, Results and Removal the proofs
--   Cli                        cli.py: Defs the commands behind the parser of their arguments;
--                              ExitCodes and Purge the proofs
--   MockServer                 mock_server/app.py: State the state and the stages of a request to
--                              /flaky, Flaky its handler, Admin the admin endpoints and the server;
--                              Counts and Bucket the proofs
--   Demo                       examples/run_demo.py: the requests of its two batches; Shares the proof
--   Base                       shared names: tests, lists, dicts, floats, the order of texts
--   Tests                      concrete inputs for the theorems with conditions
--
-- How state and operations correspond. An object is a record, and a method a function from the old
-- record to the result and the new one. A coroutine is cut at its awaits that can suspend: each
-- stretch between two is one step, so that the steps of several tasks interleave as the event loop
-- lets them. A lock that is held across no suspension is no step of its own. A shared future and a
-- shared bucket are objects on a heap, which their index refers to. The clock, the random draw, the
-- transport's reply and the identifiers are inputs of the steps.
--
-- Numbers. Python's ints are natural numbers where the source keeps them from going below 0. Floats
-- are a type F with operations (Base.Float): theorems about their order assume FloatLaws, which
-- rounding keeps, and two theorems on rates assume ExactLaws, arithmetic without rounding. Tests
-- shows both for the natural numbers.
--
-- Loops. No definition runs on fuel. The loop of `TokenBucket.acquire` follows a list of the times
-- of its rounds, and `none` says that the list has ended while the caller still waits; a worker
-- makes one round a step. An operation of the queue that would wait answers `none`.
--
-- Replays and commands. A replay submits each request as one more caller of the system, so that its
-- steps interleave with those of the client (DeadLetter.Sessions). A command is followed up to its
-- `return`; the client that it has started then stops. A limit and an id of the command line, and
-- the burst and the warm-up of a profile of the mock server, are natural numbers.
--
-- Stop and cancellation. `stop` is four stretches among the steps of the system: its beginning, the
-- return of `drain` with the cancellation of the workers, the end of the session and that of the
-- connection. asyncio resumes `join` some time after the queue was joined, when an item may have
-- been put again: so the second stretch asks that no worker holds an item and no reschedule is
-- pending, and not that the queue is empty. A worker that takes such an item before `stop` is
-- resumed, and is cancelled with it, is left out, and so are the waits of `drain` in themselves.
-- `hardened_client`, `__aenter__` and `__aexit__` only call `start` and `stop`. A caller is cancelled at one of its waits (Moves):
-- in the write of its row, which takes place or not, at its put, or at its future, which asyncio then
-- cancels for all.
--
-- The database is a file, whose rows stay when the connection is closed. One in memory (`:memory:`),
-- which closing discards, is not modelled.
--
-- Not modelled: the rest of examples/run_demo.py, which starts a server and prints; argparse;
-- logging and printing, which are output; /healthz and /echo of the mock server, which touch no
-- state; the session, the decoding of bytes and JSON texts, the database engine, the web framework,
-- the random generator and the event loop, which are libraries. JSON text is written as a value and
-- read back as that value: a tuple in a body stands as the list that json makes of it, and dicts with
-- keys that are not texts are left out.
pub mod Base
pub mod Config
pub mod Errors
pub mod Exec
pub mod Retry
pub mod Breaker
pub mod Limiter
pub mod Models
pub mod Queue
pub mod Dedup
pub mod Storage
pub mod Metrics
pub mod Client
pub mod DeadLetter
pub mod Demo
pub mod MockServer
pub mod Cli
mod Tests
