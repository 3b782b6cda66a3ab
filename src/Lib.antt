-- ===== src/Lib.antt =====
-- A verification library for ai-sre, an incident-response service: alerts come in, are correlated
-- to incident episodes, and each new episode is investigated by a bounded run over model providers.
-- All that has to survive a restart goes through one journal in SQLite.
--
-- The parts and their files. The paths of the program are from the repository's root.
--
-- - Prelude: shared names and helpers. Text is the list of a string's code points, Decimal the
--   printing and parsing of numbers, Int the signed integers, Map the BTreeMap from strings,
--   Results the Result type with its do blocks.
-- - Reasoning/Budget (src/reasoning/budget.rs): BudgetState and its reserve. A u32 or u64 sum that
--   the code does not check wraps at its width. Bounds has the invariant of the totals.
-- - Reasoning/Router (src/reasoning/router.rs): ProviderOrder, ProviderAdmission and the search for
--   the next provider. A BTreeSet is a list without repetitions. Order is about the search.
-- - Reasoning/Coordinator (src/reasoning/coordinator.rs): ReasoningRun. A method that changes the
--   run returns the new run beside its result. Admission and Completion say how admit, fail_with
--   and succeed_with end, Choice which provider is admitted, Dropped what a mismatched failure
--   loses, Invariant what holds after each call, Progress and Final what holds of all sequences of
--   calls.
-- - Reasoning/Roles (src/reasoning/roles.rs): RoleGraph; Sequence is about all its runs.
-- - Reasoning/Incident (src/reasoning/incident.rs): webhooks, validate_webhook and normalize. Time
--   is parse_rfc3339_millis, Time/Calendar days_from_civil and Time/Succession its meaning as a
--   count of days. Identity is about normalize.
-- - Reasoning/Journal (src/reasoning/journal.rs): the events, with the source's fields as
--   arguments. Projection is the rebuilding of the metrics, a sum of which wraps where the code
--   does not saturate it; Counts is about those that count facts.
-- - Reasoning/Evidence (src/reasoning/evidence.rs): EvidenceBoard, a list of records. Redaction is
--   redact_text: an index into the characters is the character before it and the rest. Ends,
--   Pieces, Hides and Bearer are about its rounds. Payload is redact_payload over a JSON reader and
--   printer; Alike and Board are about what payloads and boards show.
-- - Reasoning/Tools (src/reasoning/tools.rs): ToolLoop and parse_tool_call; Turns is about its
--   calls.
-- - Reasoning/Contracts (src/reasoning/contracts.rs, src/reasoning/validate.rs): the reports and
--   the recommendations of the model; Citations relates them to the board.
-- - Reasoning/Storage (src/reasoning/storage.rs): JournalStore. The database is the list of its
--   rows in each table. The field outcomes lists how the coming transactions end, so every pattern
--   of failures is a store: a transaction is kept, or is undone with an error, or is kept and
--   reports an error. The JSON encoding of an event is a parameter that the store holds. Appends
--   says how a transaction of the journal ends, Rows what is read back from the rows; Untouched
--   which changes leave the journal alone; Committed and Durable relate memory and database, Outbox
--   is about deliveries. Ledger has reserve_cost and reconcile_cost over the three tables of the
--   budget; Sums, Reservation and Balance relate the ledgers and the reservations, Ceilings is
--   about the admitted amounts and Retry about calls that are repeated. Tables has the rows of the
--   review tables, which one field of the store holds; Kept says what any calls keep.
-- - Reasoning/Storage/Deployments (src/reasoning/storage/gitops.rs): record_deployment and
--   qualified_deployment over the hash and the JSON encoding of receipts. Cases says how a call
--   ends, Invalid is about rows that are not eligible.
-- - Reasoning/Storage/Validations (src/reasoning/storage/manual_validation.rs): the attempts, from
--   their reservation to a receipt, a failure or a recovery, over the hash and the JSON of
--   requests. Steps and Recovered are about the archived attempts.
-- - Reasoning/Dispatcher (src/reasoning/dispatcher.rs): LifecycleState and its replay from the
--   journal; Process has process_one, the batches and the completions. Keys is about identities,
--   Agreement, Process/Consistent, Process/Arms, Process/Batches and Replay relate memory and
--   replay. Process/Effects says what a signal does, as a state machine, and Episodes which signals
--   open an episode. Pending has pending_investigations.
-- - Promotion (src/domain/promotion.rs) and Promotion/Policy (src/policy/promotion.rs): a manifest
--   is its payload with the digest beside it; the hash and the JSON encoding are parameters.
--   Admissible says which manifests admit takes. Shadow is the policy of the shadow gate with its
--   flat YAML.
-- - Gitops/Health (src/gitops/qualified_deployment.rs): assess_health; Coverage is about its
--   samples.
-- - Gitops/Receipt (src/gitops/receipt.rs): a receipt and its validate_shape, with valid_sha and
--   valid_image (src/gitops/validate.rs, src/gitops/it_tools_image.rs).
-- - Gitops/Image (src/gitops/it_tools_image.rs, src/gitops/validate.rs): render and validate_change
--   over the YAML values and their reader; Replaced is about what a rendering changes.
-- - Gitops/Candidate (src/gitops/artifact.rs): the build of a repair candidate; Bound is about what
--   it is bound to.
-- - Gitops/Jobs (src/gitops/sandbox/jobs.rs): JobStore with its four tables as fields, the random
--   tokens and the ends of the statements as arguments. Snapshot has the leases over a record of
--   the file system's answers. Steps is about any calls, Replay about claimed requests, Names about
--   the jobs' names and Exclusive about the one active job.
--
-- The dispatcher appends to the store, whose journal it replays when it is created; the coordinator
-- uses the router and the budget; a report cites the records of the evidence board.
--
-- Bounds and fuel. Every append checks the i64 range of its sequence numbers, as the code does; the
-- ledgers of the budget are integers with a mark for a sum that leaves the range of an i64, behind
-- which SQLite holds a REAL, which the code cannot read. show has the number's successor as fuel,
-- since a number has fewer digits than that. The loop of redact_text has the length of the text as
-- fuel, since every round passes a character. Episode numbers wrap at 2^64 as in a release build.
-- The retry loop of Coordinator/Progress has fuel: one round for each provider that is left, and
-- one more.
--
-- Not modelled: SQLite itself (its tables are lists; that a REAL of a ledger may become an INTEGER
-- again, and errors of the file beside those of a transaction, are left out), the asynchronous
-- calls of models and tools, the containers that run validators, HTTP, metrics and configuration;
-- the storage of repair candidates, their handoffs and acknowledgements; the protected files and
-- the checkpoints of the GitOps admission.
pub mod Gitops
pub mod Prelude
pub mod Promotion
pub mod Reasoning
