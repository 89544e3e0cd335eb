-- ===== src/Lib.antt =====
-- Morphling runs the GEMM operations of a model on fleets of devices that share a GPU. The
-- development models Python code of the repository over Python's own data: integers, strings,
-- lists and dictionaries, with exceptions as values.
--
-- The parts and how they interact:
--   * GreenCtx, for morphling/runtime/green_context.py and morphling/runtime/greenctx: a trace file
--     says how many multiprocessors (SMs) of the GPU a step may use (GreenCtx.Trace, for trace.py).
--     A backend activates a partition of that many SMs and has a bundle of four streams for it. The
--     protocol of a backend is a record of methods and laws (GreenCtx.Base, base.py). There are
--     three: over PyTorch's green contexts (GreenCtx.Torch, torch_backend.py), over the C++ runtime
--     with a log of swaps (GreenCtx.Cpp, cpp_backend.py), and one that does nothing (GreenCtx.Off,
--     off_backend.py); GreenCtx.Backends fills the protocol by each. `select_backend` chooses one
--     (GreenCtx.Factory, factory.py). The controller holds a cache of bundles over any backend and
--     runs a step inside `step_scope` (GreenCtx.Controller, green_context.py).
--   * Hooks, for morphling/hooks/autograd.py: the passes of a linear layer activate a partition of a
--     green context, dispatch a product to the compute backend, deactivate the partition, and log
--     the call once the product is there (over the backend of PyTorch in Hooks.OverTorch).
--   * Metrics, for morphling/runtime/coordinator_metrics.py and coordinator_metrics_models.py: the
--     collector's start, the rounds of its thread and its stop, as steps in any order (Metrics), the
--     recorder of phases (Metrics.Phases, PhaseRecorder and track_phase), and the sums over network
--     interfaces (Metrics.Nics, aggregate_nic_counters).
--   * VTime, for scripts/sync_virtual_time.py: the events of a merged log (VTime, parse_vtime_event
--     to read_log), the offsets of the devices and their application (VTime.Sync,
--     find_compute_start_times to apply_offsets), and the output (VTime.Write, the printed lines,
--     write_synchronized_log and main).
--   * Violations, for scripts/analyze_violations.py: the logs are read (Violations.Parse,
--     parse_gemm_log to parse_trace), GEMM calls are assigned to the steps in which they start
--     (assign_gemms_to_steps), calls that run into a next step are summed up (detect_violations), and
--     their times merged (compute_violation_time_ns); the report and the summaries
--     (Violations.Report, Violations.Summaries, format_ns to write_json_summary), and the command
--     (Violations.Run, main). The binary search of Python's bisect module halves its range, so the
--     length of the list is fuel enough.
--   * Memory, for morphling/common/types_and_defs.py: the offsets of parameters in pinned and in
--     shared memory.
--   * Config, for morphling/common/config.py: sizes with units (Config, bytes2human and human2bytes),
--     and the sizes that an emulator publishes (Config.Emulator, EmulatorConfig.__post_init__).
--   * Shapes, for morphling/utils/hfparser.py: the shapes of the products of a model's layers
--     (Shapes and Shapes.Blocks, get_attn_shapes to get_model_shapes) and the tiles that they are
--     cut into (Shapes.Shards, split_gemm_rc to parse_shapes).
--   * Batch, for scripts/compute_batch_runtime.py: the entries of a log (Batch.Entries), the groups
--     of calls that make up a collective (Batch.Collective, Batch.Groups), the estimate of its time
--     (Batch.Estimate), the phases of a batch (Batch.Phases), the tables of times by level, stage
--     and device (Batch.Tables, Batch.Totals), the runtime by the kind of schedule
--     (Batch.Runtime, Batch.Compute), and the command (Batch.Command, Batch.Run, main). It reads
--     JSON values (Json) and counts in floats (Float).
--   * Ldpc, for morphling/runtime/ldpc_trace_adapter.py: a table of SM counts by slot is read,
--     clipped, and written as the lines of a trace file, which GreenCtx.Trace reads; changes of the
--     count are found over numbers of 64 bits and doubles.
--
-- How state and operations correspond to the code: an object is a record with the fields of its
-- class, without the leading underscore; a method is a function of the same name that passes the
-- record on; a method that may raise returns a `Result` over the exception's class (Py). A
-- dictionary is a list of pairs in the order of insertion (Dict), text is a list of code points
-- (Str), and integers are signed and without bound (Prelude.Int). A block that the source
-- repeats is one function. Loops are recursion over the list that they read; only two take
-- fuel: the printing of a number, one more than the number, which is enough since each round
-- divides by ten, and the binary search, the length of the list, which is enough since each
-- round halves the range.
--
-- What is a parameter: the types of green contexts and streams and the outcomes of creating
-- them (GreenCtx.Torch.Init.Env), the runtime object of the extension module
-- (GreenCtx.Cpp.Runtime), readings of the clock, the outcomes of reading metrics and of writing
-- (Metrics.Outcomes; each such call returns or raises), what a double makes of a number of 64 bits
-- (Ldpc), the types of floats, of matrices and of the compute backend with their
-- operations (VTime, Float, Hooks.Ops, Metrics.FloatOps), the outcomes of the constructors in the
-- selection, the fields of a model's configuration that Hugging Face's library holds, the columns
-- or rows of the tables that pandas and the csv module read, how a float prints, and the lines of
-- the files that are read. Of floats it is assumed that they are ordered (Float.IsOrder), and that
-- they are exact on small whole numbers (Config.Units.IsExact, Ldpc.Changes.IsExact), each only
-- where a theorem says so. Creating a green context, a stream, and the constructor's `set_context`
-- may raise; no other `set_context` does, and no `pop_context`.
--
-- What is not modelled: the C++ core, generated code, log output, `int` over digits other than
-- ASCII, the averages that are computed in floats, command lines, and drivers of experiments and
-- plots.
pub mod Prelude
pub mod Str
pub mod Py
pub mod Dict
pub mod Sort
pub mod Float
pub mod Json
pub mod Config
pub mod GreenCtx
pub mod Memory
pub mod VTime
pub mod Shapes
pub mod Batch
pub mod Violations
pub mod Hooks
pub mod Ldpc
pub mod Metrics
