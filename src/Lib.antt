-- ===== src/Lib.antt =====
-- edg runs workloads against databases: a YAML file names queries, transactions and generated
-- arguments, and the program loads it, validates it, generates argument sets, runs the queries on
-- worker goroutines and gathers statistics. This library models the parts that decide something.
-- Code outside the repository (drivers, the expression
-- language, `math/rand`, `strconv.ParseFloat`, `slices.Sort`) is a parameter of the definitions
-- that use it.
--
-- Parts, files and sources:
--   * Config: the records of a workload file and their accessors (pkg/config/config.go: Request,
--     Query, RunItem, queryGroups, queryGroupsFor). Config.Validate: each check of `Validate`;
--     Config.Validate.Expressions: validateExpressions and Validate itself. Names, Rules and
--     Accepts hold the proofs.
--     Config.Include: the resolution of includes before that (pkg/config/include.go) and what
--     LoadConfig does up to the decoding (pkg/config/load.go).
--   * Env.Args.Product: the expansion of batch arguments in GenerateArgs (pkg/env/env_args.go).
--     Env.Args.Batch: the batch sizes of generateBatchArgs and of GenBatch (pkg/gen/gen.go);
--     Env.Args.Generate: generateBatchArgs itself. Env.Args.Uniq: uniq and uniqExpr.
--   * Env.Transaction: runTransaction, tryTransaction and runTransactionQueries
--     (pkg/env/env_worker.go), evalLocals and clearLocals (pkg/env/env_args.go). The state is
--     passed from call to call and keeps a journal of begins, commits and rollbacks.
--   * Env.Weighted: pickWeighted (pkg/env/env_worker.go) and weightedItems (pkg/env/set.go);
--     Env.Weighted.Set: setRand and pickFromSet over it. The weights and run items
--     are those that Config.Validate checks.
--   * Env.Ref: refDiff (pkg/env/ref.go) over getDataset (pkg/env/agg.go); Env.Ref.Cached: refRand and
--     the cached rows of refSame and refPerm; Env.Ref.Sample: fisherYates, a sample of rows.
--   * Env.Agg: the aggregates of a dataset (pkg/env/agg.go).
--   * Env.Query.Inline: the arguments in the text of a query, translatePlaceholders;
--     Env.Query.Section: the calls of runSection and the prepared statements; Env.Query.Section.Run:
--     runSection itself (pkg/env/env_query.go), which writes values with Convert and takes its
--     argument sets from the generator. Env.Worker: RunWorker (pkg/env/env_worker.go) over
--     runSection.
--   * Env.Output: captureOutput and captureOutputBatch (pkg/env/env_output.go), which evaluate rows as
--     Env.Args.Generate does and give them to a writer. Output: the writers (pkg/output).
--   * Convert: values, their conversion and their literals (pkg/convert/convert.go);
--     Convert.Encoding: the encodings of the standard library that it calls.
--   * Db.Batch: findBatchGroups and ExpandBatchQuery (pkg/db/batch.go), with which drivers split the
--     batches that the literals of Convert stand in. Groups, Fill and Rows hold the proofs.
--   * Gen.Random: samples between bounds (pkg/random/random.go). Bits, DayTimes, Times and Clamped hold
--     the proofs. Env.Rand: nuRand and nuRandN; Env.Rand.Norm: normRandN; Env.Rand.Sampled:
--     weightedSampleN, which all join unique draws by one loop; Env.Rand.Distribute: distributeSum;
--     Env.Rand.Sequences: the calls of sequences over Seq (pkg/env/rand.go). Env.Rand.Unique,
--     Env.Rand.Nurand and the children named Rows and Parts hold the proofs.
--   * Gen.Values: the functions of pkg/gen/gen.go over Gen.Random, and GenLtree. Gen.Values.Ltree holds
--     the proofs.
--   * Gen.Mask: Mask and its modes (pkg/gen/mask.go).
--   * Schema.Tables: SortTables (pkg/schema/schema.go). Counts, Pending, Loop, Parents, Sorted and
--     Acyclic hold the proofs. Schema.Generate: Generate (pkg/schema/generate.go) for the tables in
--     that order.
--   * License: Verify (pkg/license/license.go) and the check before a connection
--     (cmd/edg/connect.go).
--   * Seq: sequences and their manager (pkg/seq/manager.go).
--   * Cmd.Sync: verifyTable (cmd/edg/sync.go) over the rows that two cursors return;
--     Cmd.Sync.Cursor: rowCursor itself; Cmd.Sync.Command: the loop over the tables.
--   * Cmd.Stats: the collector printResults and percentiles (cmd/edg/stats.go), which receives
--     what the run loop and runTransaction send.
--   * Prelude: shared lists, results, calls with a state, tests, 64-bit integers and the random
--     generator. Witnesses: the theorems at concrete inputs.
--
-- Numbers: a Go `int` or `int64` that can overflow is an integer reduced by `wrap_64`; indices of
-- lists in memory are natural numbers. Four functions run on fuel: `drain`, one step for each call of
-- a cursor, where one more than the number of rows is enough; the loop of `sort_tables`, where the
-- number of the tables' names is enough; that of `translate_placeholders`, where the number of
-- dollar signs is enough. The fuel of `load_config` is the number of files that may be open at a
-- time, where the number of readable paths is enough. The loops of unique draws and of clamped
-- samples run at most `max_iter` rounds, as in the source. All other loops are structural. A panic is a
-- result of its own (`Panic`, `Fault`, none, or an error of the part). Text is a list of code points where the code
-- walks it, and a native string where it is only compared.
--
-- Not modelled: drivers and connections, the expression language, fake data, random
-- points, addresses and UUIDs, the encodings of output files, schema inspection, the YAML parser,
-- decoder and encoder, command-line parsing, progress output and metrics. The locks of `Env` are left
-- out, as each worker calls in sequence. YAML documents with an alias inside the node that it refers
-- to are left out.
pub mod Prelude
pub mod Db
pub mod Env
pub mod Config
pub mod Convert
pub mod Gen
pub mod License
pub mod Output
pub mod Schema
pub mod Seq
pub mod Cmd
pub mod Witnesses
