-- ===== src/Lib.antt =====
-- A model of cockpitctl, which collects the receipts of sensors (tools that ran on a change), applies
-- a policy to them, and writes one report, one comment and an exit code.
--
-- The parts, and the files that model them:
-- - Types (crates/cockpitctl-types/src/lib.rs): the data that the crates share, one record or data type
--   for each struct or enum with the source's fields; Types/Defaults the default configuration,
--   Types/Ranks the ranks and the derived orders, Types/SensorId `is_valid_sensor_id`.
-- - Domain (crates/cockpitctl-domain/src/lib.rs): the pure policy logic. Domain/Counts `compute_counts`,
--   Domain/Findings sorting, capping and fingerprints, Domain/Highlights `select_highlights`,
--   Domain/Synthesize the summaries of receipts that are missing or unusable, Domain/Summarize
--   `summarize_sensor_report`, Domain/Sensors `sort_sensor_summaries`, Domain/Verdict `overall_verdict`,
--   Domain/Report `build_cockpit_report`, Domain/Codes `explain_code`, Domain/Outcome
--   `compute_policy_outcome`.
-- - Ingest (crates/cockpitctl-ingest/src/lib.rs): `IngestUseCase::execute`. Ingest/Ports has the ports,
--   Ingest/Examine the body of the loop over the sensors, Ingest/Execute the rest. The use case calls
--   Domain for every decision and Buildfix for the plans.
-- - Buildfix (crates/cockpitctl-domain-buildfix/src/lib.rs): matching fixes to highlights.
-- - Trend (crates/cockpitctl-domain-trend/src/lib.rs): the difference of two reports.
-- - Features (crates/cockpitctl-feature-state/src/lib.rs): which features a run has.
-- - Render (crates/cockpitctl-render/src/lib.rs): Render/Comment `render_comment`, Render/Annotations and
--   Render/Github the annotations as a list and as workflow commands, Render/Sections the trend, the
--   fixes and the signature, Render/Append `append_comment_sections`, Render/Badges the labels.
-- - Sarif (crates/cockpitctl-sarif/src/lib.rs): the export of a report.
-- - Signing (crates/cockpitctl-domain-signing/src/lib.rs, crates/cockpitctl-io-policy-signing/src/lib.rs):
--   the signature of the policy and where its key comes from.
-- - Io: Io/Layout, Io/Source and Io/Sink (crates/cockpitctl-io/src/lib.rs), the adapters to files behind
--   the ports of Ingest; Io/Hooks (crates/cockpitctl-io-hooks/src/lib.rs) and Io/Actuator
--   (crates/cockpitctl-io-buildfix/src/lib.rs), the child processes; Io/Schema
--   (crates/cockpitctl-io-schema/src/lib.rs), the validation against a schema.
-- - Conform: Conform/Checks and Conform/Single (crates/cockpitctl-conform/src/checks.rs and single.rs), the
--   checks of receipts and reports; Conform/Cli (crates/conformctl/src/main.rs), the commands `check` and
--   `check-dir` over them.
-- - Features/Grid (crates/cockpitctl-feature-grid/src/lib.rs): the grid of features and arguments.
-- - Cli (crates/cockpitctl-cli/src/main.rs): Cli/Ingest `cmd_ingest`, which puts Io behind the ports of
--   Ingest, runs it, and then Sarif, Trend and Cli/Stages; of it, Cli/Options the effective configuration,
--   Cli/Apply the automatic application of fixes, which runs Io/Actuator on what Buildfix selects, and
--   Cli/Stages the writes after the use case: the fixes, Signing, and Io/Hooks. Cli/Commands the commands
--   `explain`, `init` and `validate`, Cli/Entry `run` and `main_entry`. Cli/Ingest/Kept describes a run by
--   a step relation on the state of the world.
-- - Xtask (xtask/src/main.rs): Xtask/Sync the copies of schemas and of the example, Xtask/Schemas
--   `schema_check` and `validate_schemas`; `conform` and `conform_dir` have the code of Conform/Cli.
-- - Base: orders, sorting, maps, counting, integers and texts that the parts share. Tests and
--   Domain/Tests: runs on small inputs; Domain/Samples, Ingest/Samples, Render/Samples, Io/Samples,
--   Cli/Samples and Xtask/Samples: their data.
--
-- How the code is represented: a loop that fills local variables is a function by recursion on the
-- list, with the variables as arguments; `BTreeMap` is an association list in ascending order of its
-- keys; `sort_by` is a stable sort; `u64`, `u32` and `usize` are natural numbers, with `saturating_add`
-- and the casts to `i64` written out; a string is compared by `compare` on its characters, which agrees
-- with the order of UTF-8 bytes. `anyhow::Result` is Ingest/Result, an error being its chain of
-- messages. One loop has fuel, the one that strips line breaks from a key (Signing.strip): a round takes
-- a byte away, so as many rounds as there are bytes are enough. Every other loop is over a list.
--
-- Parameters: the ports of the use case are a record of what they answer, which does not change
-- during a run, and the sink is a pair of functions on a state. `serde_json`, `sha2` and `hex` are the
-- record Codec. `serde_json::Value` is a type `V` without operations of its own.
--
-- The file system is the record Files of what it answers, which does not change during a run, and the
-- writes are the record Disk on a state. A child process is the record Process: whether it starts and
-- takes its input, and how it ends. `serde_json`, `jsonschema` and `toml` are parameters where they are
-- used (Json, Schemas, Payloads, Adapters, Environment, SchemaTools, and functions). Bytes are natural
-- numbers below 256, and the HMAC stands on a digest that is a parameter. The tasks of xtask read what
-- they write, so that the records Store and Tree answer from the state.
--
-- Not modelled: the argument parsers; what is printed to stderr, except for the trend, and what `explain`
-- prints; base64; the threads that drain a child's output; what the tasks of xtask and the
-- commands of conformctl print; the serde attributes of the types, which concern their text alone.
pub mod Base
pub mod Types
pub mod Domain
pub mod Buildfix
pub mod Features
pub mod Trend
pub mod Ingest
pub mod Sarif
pub mod Render
pub mod Signing
pub mod Io
pub mod Conform
pub mod Cli
pub mod Tests
pub mod Xtask
