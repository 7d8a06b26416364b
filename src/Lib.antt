-- ===== src/Lib.antt =====
-- InstallScope records what a package installation does to a machine and reports it. A recorder
-- (recorder/) turns system calls into a stream of events (core/src/events.rs); the engine
-- (core/src/rules.rs) evaluates a catalog of rules (core/src/catalog.rs) over a recording and produces
-- an analysis: findings, a score (core/src/findings.rs), and how far the recording can be believed
-- (core/src/coverage.rs). Reports, the registry of behaviour and the lockfile reader stand around it.
--
-- The files and the code that they are about:
--   Common        shared names, lists over the native numbers, texts as lists of code points with the
--                 operations of `str` that the code uses, comparison functions and stable sorting;
--   Core.Events   core/src/events.rs: the event types, one record or data type each, with the
--                 constructors and queries of their `impl` blocks;
--   Core.Zones    core/src/zones.rs: `placement_of`, `within`, `is_runtime`;
--   Core.Findings core/src/findings.rs: `Finding`, `Score::compute`, `select_bullets`, `deduplicate`;
--   Core.Coverage core/src/coverage.rs: `observability` per backend and class, the blind spots and the
--                 caveat; the notes' texts are in Core.Coverage.Notes;
--   Core.Catalog  core/src/catalog.rs: `Catalog::validate`, `from_yaml`, `load`, `rule_for` and the
--                 lists of hosts, paths and programs;
--   Core.Rules    core/src/rules.rs: the tests of command lines, ports and modes (Commands), one
--                 evaluator per kind of event (Evaluators), and `evaluate` with its loops. Rules.Shows
--                 says what each rule is about, without the order of the code's tests; Rules.Effects,
--                 Tracing and Firing relate the two, Rules.Report, Completeness and Trust are about the
--                 result. Of a script, Commands.Piped says what is accepted, Downloaders, Interpreters
--                 and Caught what must be;
--   Core.Tests    sample recordings and catalogs, tests, and an instance of each result about it;
--   Recorder.Paths, FdTable, Resolving
--                 recorder/src/fdtable.rs: `normalize` and `join`; the table of descriptors and
--                 directories (HashMaps are association lists, Recorder.Maps), whose calls FdTable.Calls
--                 explains by functions of a process and a descriptor, and FdTable.Refinement relates the
--                 two; FdTable.Forks is about two processes, Paths.Reduction about what
--                 `normalize` drops; `resolve`, whose answers Resolving.Honesty is about;
--   Recorder.Strings, Arguments, Descriptors, Results, Addresses, Dns
--                 recorder/src/decode.rs, in this order: `read_quoted` and `decode_escaped`; `split_args`;
--                 `fd_annotation` and `fd_number`; `parse_ret`; `parse_sockaddr`, `is_loopback` and
--                 `is_private`; `parse_dns_question`. An index into a text is what follows there, and an
--                 index that a function returns the number of characters up to it. Strings.Escapes says
--                 which texts stand for which bytes, Strings.Quoting reads them back, Arguments.Splitting
--                 says which arguments are told apart, Dns.Labels and Dns.Questions which payloads ask what;
--                 Recorder.DecodingTests has tests and instances;
--   Core.Errors, Recorder.Session
--                 core/src/error.rs with its messages, and recorder/src/session.rs: `summarize_stream`, with
--                 `Event::from_jsonl` over a JSON parser that is a parameter;
--   Recorder.Writer
--                 recorder/src/session.rs: `SessionWriter`; the sink, the encoder and each reading of
--                 the clock are parameters, and dropping a writer is an operation; Settings, Recorded and
--                 Rereading put the writer and `summarize_stream` together, Spacing and Pace count what
--                 stands between heartbeats;
--   Recorder.Tests, WriterTests, RereadingTests
--                 tests and instances for the recorder;
--   Lockfile.Model, Lockfile.Diff
--                 lockfile/src/model.rs and lockfile/src/diff.rs: packages and identities, `index`,
--                 `compare_same_identity`, `pair_by_name` and `diff`. BTreeMaps and BTreeSets are ordered
--                 lists (Common.Ordered). Entries is about the index, Pairs about the pairing, Renewal
--                 about what brings other code, Recording about the diff; Lockfile.Tests has tests and instances;
--   Abi           abi/src/lib.rs: the kernel side's records and their accessors, without the padding;
--                 paths are decoded by Common.Text.Utf8;
--   Recorder.Merging
--                 recorder/src/merge.rs: the `Merger`, its state and pushes; Processing has what one
--                 released record does, Releasing `drain_ready` and `finish`. Volume, Accounting, Runs
--                 and Conservation follow the written bytes, Order is about the order of a batch;
--                 Recorder.MergingTests has tests and instances;
--   Recorder.Translation
--                 recorder/src/translate.rs: `to_event`, from merged records to events; Placed follows a
--                 write into `placement_of`; Recorder.TranslationTests has tests and an instance;
--   Registry.Behavior
--                 registry/src/behavior.rs: `Behavior` and its order (Keys, which compares by rank and
--                 fields as the derived order does), `place`, `shell_pipeline_tool`; Profiles has the
--                 reduction of a recording to its `Profile`, Outside which events put what there;
--   Registry.Diff registry/src/diff.rs: `compare` (here `compare_recordings`), `highlights`, the blockers
--                 and caveats with their texts; Claims is about them;
--   Registry.Errors, Registry.Index
--                 registry/src/error.rs and registry/src/index.rs: `Index::load`, `append` and the
--                 queries, over files and a JSON of an entry that are parameters; Reloading relates what
--                 was appended to what is loaded. Registry.Tests has tests and instances.
-- A name of the source keeps its spelling; `open_file` stands for `WriteKind::Open`, `other_family`
-- for `AddrFamily::Other`, `is_private` for the field `private` and `working_dir` for `FdTable::cwd`,
-- whose names are taken. A descriptor is an integer; that it fits in 32 bits is tested where the code
-- parses it.
--
-- Numbers are natural numbers. A `u32`, `u64` or `i32` sum wraps where the code uses `+=`, as in the release
-- profile, and saturates where the code saturates. Loops are recursion on the list that the code walks,
-- so no fuel is needed, with three exceptions. A text is taken off the start of another with the length of
-- that one as fuel, of which each round needs one. Each round of the loop over the merger's cap takes a record
-- off, and the fuel is the number of records, which Order shows to be enough; and a number is written
-- out with one more than itself as fuel, which its digits do not exceed. `&mut Vec` accumulators are
-- passed and returned. The YAML parser and the file system are parameters of `from_yaml` and `load`, with
-- any behaviour; three results about the session writer assume a sink that keeps every line and an encoder
-- that fails on none, of which two assume that the lines read back, and one about the index assumes files
-- that keep what is appended and an encoding of entries as lines that reads back.
--
-- Not modelled: the JSON encoding of events, which serde derives; the recorder's strace parser, whose
-- decoding functions are modelled but not its state between lines; the clock's calendar; the backends
-- and the eBPF programs, which run tracers and kernel code; the parsers of lockfiles, which read JSON
-- and YAML values that serde decodes; the registry's snapshots and store, which hash, compress and write
-- files; the report renderers and the command line, which are output; and the measurement harness.
pub mod Common
pub mod Core
pub mod Recorder
pub mod Lockfile
pub mod Abi
pub mod Registry
