-- ===== src/Lib.antt =====
-- Verification of the benchmark harness: the scoring of candidate solutions in containers and the
-- tools that read and check its results.
--
-- The program scores a candidate by an oracle of two suites, `atomic` and `integration`
-- (harness/sandbox.py). A runner of the task's language (harness/runners/base.py) discovers the
-- tests on the host, prepares a container and reads the reports of batches of tests.
--
-- Base holds what the files share: tests on numbers, Python's equality, dicts in insertion order,
-- lists by native numbers, text as code points, integers, and the floating-point numbers as a
-- record of operations. Whole names that are only compared are native strings, and text that is
-- searched or split is a list of code points.
--
-- Runners models harness/runners/base.py: the methods of a runner are the fields of a record over
-- the host's directory trees. Runners.Scopes and Runners.Comments are the helpers of that file that
-- read source text. Runners.Markers is harness/core/depends_on.py, over the syntax tree of
-- Runners.Syntax. Runners.Python, with Runners.PythonSetup, is harness/lang/python/runner.py, and
-- Runners.Go, with Runners.GoSetup and Runners.GoEvents, is harness/lang/go/runner.py; the state of
-- Go's flat mode is an argument and a result of the methods that read or change it, and `go_runner`
-- is the runner in one state. Runners.Rust, with Runners.RustSetup, is harness/lang/rust/runner.py,
-- and Runners.TypeScript, with Runners.TypeScriptSetup, is harness/lang/typescript/runner.py.
-- Runners.Java, with Runners.JavaSetup, is harness/lang/java/runner.py.
--
-- Clauses models harness/verify_clauses.py in Clauses.Verify and harness/clause_span_coverage.py in
-- Clauses.Prose and Clauses.Coverage, with the rows that both read in Clauses.Rows. The loop over
-- the occurrences of a quote recurs on fuel, one round more than the prose has characters.
--
-- Core.Layout models harness/core/layout.py: the places of packets and benches, over a record of
-- what the disk answers. Its paths are lists of names, the last name first.
--
-- Core.Slots and Core.Verdict model harness/core/verdict.py: a slot of evidence is a constructor,
-- and its extractor is the list of the keys that it asks for; `main` takes the files of the
-- verdicts and gives them back.
--
-- Core.Candidates models harness/core/validate_ledger.py: the table of CANDIDATES.md, the warnings
-- and the exit code.
--
-- Core.Gate models harness/core/verify_task.py, the static gate: its checks are in Core.GateChecks,
-- and those that read Python source in Core.PythonChecks. An error is a value that holds what its
-- message shows.
--
-- Core.Cleanroom models harness/core/run.py: the workspace of a candidate run, as the list of its
-- entries.
--
-- Core.Metadata models harness/core/sync_task_metadata.py: task.json as a decoded object, its
-- comparison by Python's equality, and the files by their bytes. Base.Json has the objects and what
-- updates them.
--
-- Core.Filter models harness/core/filter.py: the counts of a repository's files and the objective
-- verdict.
--
-- Core.Rubric models `score` of harness/core/score.py: the buckets and the totals over the results
-- of the cases, whose run is a parameter.
--
-- Analysis models the reports on the results of a run: Analysis.EvalLib is analysis/eval_lib.py,
-- Analysis.Ledger is analysis/ledger.py and Analysis.Attribution is analysis/attribution.py,
-- without the columns that they print.
--
-- Sandbox models harness/sandbox.py. Sandbox.Outcomes is `_aggregate_function_outcomes`;
-- Sandbox.Gap is `_suite_prefix`, `_suite_outcomes_by_name` and `_compute_adjusted_gap`;
-- Sandbox.Docker has the docker commands in a monad of state and exceptions over a process runner,
-- which is a parameter; Sandbox.Suite is `_run_suite` and `_batch_execution_errors`;
-- Sandbox.Provenance is `_check_provenance`; Sandbox.Results is `ScoringResult` with its
-- computation, and Sandbox.Score is `score` and `_run`, with `get_runner`. The loop over the
-- batches recurs on the number of rounds, which is the length of the range that the source walks.
-- An exit code of more than 4300 digits raises, as `int` of CPython does with its default limit.
--
-- Evaluate models harness/evaluate.py: the choice of the tasks, the two phases of a task and the
-- loop. The agent, what is on the disk at each moment and the written results are fields of a
-- record.
--
-- Parameters of the model are the process runner, the host's directory trees and what is read from
-- them, `ast.parse`, `re.escape`, `repr`, the matches of the patterns of the Go, the Rust, the Java
-- and the TypeScript runners, the tree of surefire's XML, the packages of a cargo workspace,
-- `json.loads` of a probe's line, the decoded packet files, `json.dumps`, the errors of the static
-- gate where a verdict or the ledger's gate asks it, the matches of the gate's patterns with the
-- imports and the annotations of a packet's files, the matches of the pattern of a task id, the
-- table of import roots, the blocks of a specification without its comments and fences, the search
-- for a section, and floating-point arithmetic. The fields of the events of `go test -json` and of
-- libtest have the types that these tools write. Wall-clock times are not modelled. A message of an
-- error is a value that holds what the message shows.
--
-- Not modelled are the import lint of oracles, the language scores, the comparison of
-- specifications with stubs, the annotations of assertions, the agent adapters, and what the tools
-- print. The packets under tasks, benches and evidence are data with their own scripts.
mod Base
pub mod Analysis
pub mod Clauses
pub mod Core
pub mod Evaluate
pub mod Runners
pub mod Sandbox
mod Tests
