-- ===== src/Lib.antt =====
-- RowTrail: the checked SUM, the durable job store, the result reader, the progressive aggregate and the
-- supervision of jobs.
--
-- RowTrail runs SQL queries over local files as jobs. A client submits a job; the coordinator starts
-- a worker process for it, which executes the query and writes the result in parts; the coordinator
-- commits each part to a SQLite store, from which clients read immutable revisions of the result. SUM
-- is computed by an accumulator of the runtime's own, which reports overflow and never wraps.
--
-- The files and the code that they model, with paths from the repository's root:
-- - Numeric, with its children: crates/runtime/src/numeric.rs. Numeric has the output range, the wide
--   state and `Range::scalar`; Numeric/Batch the fold of one array by `add_batch` and `values`;
--   Numeric/Accumulator `CheckedAccumulator`, plain, DISTINCT and sliding; Numeric/Groups
--   `CheckedGroups`.
-- - Jobs, with its children: crates/runtime/src/db.rs and model.rs. Jobs has the tables; Jobs/Submit
--   the admission of storage.rs and the inserting transaction of api.rs; Jobs/Queue `queued`, `cancel`,
--   `set_schema`, `set_worker`, `stopping` and `job_in`; Jobs/Coverage the checks of a progressive
--   checkpoint; Jobs/Publish `publish`; Jobs/Finish `finish`, `recover` and `commit` of prepare.rs;
--   Jobs/Lifecycle the transactions as steps.
-- - Jobs/Snapshot: `snapshot` of crates/runtime/src/results.rs, which opens a revision for reading.
-- - Jobs/Retention: `invalidate` of db.rs; `retain`, the quota and garbage collection of storage.rs;
--   Jobs/Datasets: the transactions of `open` and `refresh` of api.rs.
-- - Results: the reader of crates/runtime/src/results.rs. Results/Fetch has `verified_bytes` and
--   `verified_inline`; Results/Page the loops that fill one page; Results/Read `read` with its cursor;
--   Results/Read/Follow a client that follows the cursors.
-- - Aggregate: crates/runtime/src/aggregate.rs. Aggregate has `accumulate`; Aggregate/Projection
--   `projection`; Aggregate/Average and Aggregate/Output `output`; Aggregate/Run the loops of `execute`,
--   whose checkpoints go to the checks of Jobs/Coverage.
-- - Coordinator: `run_job` and `run_job_with_recovery` of crates/runtime/src/coordinator.rs, over the
--   transactions of Jobs.
-- - Client: `send`, `receive` and `Session::call` of crates/client/src/lib.rs.
-- - Worker: the counting writer, the staged file and the slices of a batch in
--   crates/runtime/src/worker.rs; Worker/Output: `Output::push` and `publish`, with the loop of the
--   execution that calls them.
-- - Store: the cache of verified parts in crates/runtime/src/store.rs; Store/Manifest: the files that a
--   job may read, and the reservation of bytes for ranges.
-- - Base: lists, numbers, results and tables that the models share.
-- A child named Sound, Exact, Total, Commit, Events, Steps, Reach, Roots, Needed, Storage, Invalid, Reopen,
-- Different, Window, Rows, Typed, Scan, Accepted, Counts, Landed, Files, Ended, Watch, Held, Ends, Frames,
-- Closed, Log, Stored, Slices, Order, Whole, Budget or Bounds holds proofs; Tests holds runs.
--
-- What the models choose:
-- - An i256 or i128 is an integer with a range test where the code has a checked operation; a cast
--   keeps the low bits. A u64 counter is a number with a test at 2^64. Rust's errors end the query, so
--   the state that an error leaves behind is not modelled.
-- - A SQL table is an association list in row order, and a lookup takes the first row of its key. A
--   transaction returns the new tables or an error; with an error nothing is written. Identifiers,
--   checksums, schemas and times are numbers, drawn by the caller. Columns that no modelled operation
--   reads are left out: metrics, JSON texts, scope and label columns, and the identity of a part's file;
--   so are the tables of catalog labels and of the requests that were answered before.
-- - The file system is a function from paths to file entries in `publish`, and what `finish` needs of
--   it (whether an export could be linked, whether a manifest fits its limit) is an argument.
-- - Hex decoding and SHA-256 are parameters of `publish`, about which nothing is assumed.
-- - The reader's libraries (JSON, hex, Arrow, SHA-256) are the fields of a record, and a cursor's text has
--   any type with an encoder and a decoder. The aggregate's libraries open a file and stream its batches;
--   the clock and the coordinator's answers are arguments.
-- - What `select!` yields to the coordinator is a list of signals, ended by the end of the worker's output,
--   with the clients' cancellations of the job in between. A write to the store that SQLite refuses on an
--   existing row is not modelled.
-- - These loops of the code run on fuel, and every other loop is over a list or a count. Three are closures
--   over the dependency table in Jobs/Retention: each follows a row of `deps` at most once, so its fuel
--   is the number of those rows and of the ids it starts from. The client that follows cursors runs on the
--   number of rows and one, since a page has a row. The slices of a batch run on its rows, since a slice
--   has a row. The digits of a u64 are counted with fuel for twenty.
-- - The Arrow and Parquet writers of a worker's part are a record: what they write to the counting writer to
--   open the part, for a batch and to close it, or an error, and whether the coordinator accepts it.
--
-- Not modelled: the API's request decoding and documents, the worker's execution by DataFusion, the
-- coordinator's process spawning, accept loop and clean-up, file probing, formatting of cells, the
-- system calls behind a read, the client's connection set-up and the command line. They are glue to
-- libraries and processes, or read the store that is modelled here.
pub mod Base
pub mod Numeric
pub mod Jobs
pub mod Store
pub mod Results
pub mod Aggregate
pub mod Coordinator
pub mod Client
pub mod Worker
