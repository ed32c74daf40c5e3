-- ===== src/Lib.antt =====
-- A model of the control plane of MetaClaw, which plans work as graphs of subtasks and runs them by
-- coding agents, with the theorems that make it correct.
--
-- The program. A Planner proposes a task as a work graph: subtasks, their dependencies, the
-- capabilities that they need and the AgentClasses that may do them. Events (a proposal, the
-- outcome of an attempt, a timer, a request for a permission, a merge conflict, a cancellation)
-- reach the control kernel with a snapshot of the facts that the database holds; the kernel is a
-- pure function that returns one decision, and the rest of the program applies it. It relies on
-- pure parts of their own: the frontier of the subtasks that may start, the closure of a
-- cancellation, the validation of a graph, the availability of an AgentClass, the conflicts of
-- resources and the policy on permissions. What an agent returns is checked against its contract
-- before it counts.
--
-- The files.
--   Base: the shared names, lists, texts, sorting and maps. A text is read by UTF-16 code units
--     where JavaScript does so; a map is an association list in order of insertion.
--   Host: what is taken from JavaScript's library and from its tables as a parameter, such as
--     localeCompare, Date.parse and normalize. Times are milliseconds.
--   WorkGraph: src/work-graph/types.ts. WorkGraph/Frontier is src/work-graph/frontier.ts,
--     WorkGraph/Cancellation src/work-graph/cancellation.ts and WorkGraph/Validation
--     src/work-graph/validation.ts, with a module for each of its functions; Ids,
--     Dependencies and WellFormed below it say what an accepted graph satisfies.
--   Resource: src/resource/types.ts. Resource/Partition is src/resource/partition.ts, but for its
--     canonical keys, which are Resource/Key; Resource/Policy is src/resource/permission-policy.ts
--     without the fingerprint. Resource/Leases is src/storage/resource-lease-repo.ts: the two
--     tables are lists of rows, each statement is a function on them, and Resource/Leases/Steps is
--     the sequence of the calls. Resource/Permissions is src/storage/permission-repo.ts in the same
--     way, and Resource/Permissions/Accounts counts the uses of the grants beside its tables.
--   Task: the records of src/core/types.ts. Task/Repo is src/storage/task-repo.ts, Task/Engine
--     src/task/task-engine.ts, and Task/Runtime src/task/task-runtime-service.ts with
--     src/task/task-execution-planner.ts. Each method is a function from the state to its result
--     and the new state, or to the error that it throws.
--   Planning: src/planning/planning-agent-plan-validator.ts; what zod makes of the schema is a
--     parameter.
--   Kernel/Failure: src/core/kernel-failure.ts. Kernel/Status:
--     src/kernel/executor-status-projection.ts. Kernel/Availability:
--     src/kernel/agent-availability.ts.
--   Kernel/Model, Kernel/Snapshot, Kernel/Select, Kernel/Decide: src/kernel/control-kernel.ts; the
--     events, the snapshots and decisions, the helpers, and the handlers of the events. Each
--     method decideX of ControlKernel is the function decide_x, with its guards in the order of
--     the source; decide of Kernel/Decide chooses the handler.
--   Execution/Completion: src/execution/completion-protocol.ts. What JSON.parse and zod make of the
--     text of a report is a parameter, as is the file system; the separator of paths is that of
--     POSIX.
--   Scenarios: concrete inputs, and the runs of the program on them.
--
-- Conventions. A thrown error is none. An early return of a long chain of guards is an entry of a
-- list, of which the first that applies is taken. The tag schemaVersion, and fields that hold one
-- constant, are left out. The contract of a completion is its JSON text, since the kernel only
-- passes it on. The confidence of a plan is counted in millionths.
--
-- Fuel. The recursion over dependencies in the frontier and in the check for cycles has one unit
-- more than there are subtasks, or two; the nested calls are for different subtasks, so this is
-- enough, as the theorems show. The visits of a cancellation do not end in the source when the
-- subtasks below the targets form a cycle; the model has two units more than there are subtasks
-- and returns none when they are used up. A graph that the validation accepts has no cycle, and
-- WorkGraph/Cancellation/Accepted joins the two.
--
-- Tables. A table of the database is the list of its rows in the order of insertion, and a column
-- of JSON text is kept as its value. A violated primary key or unique index is an error; the rows to
-- which foreign keys refer are taken to exist; a call of randomUUID is a parameter. Texts compare by
-- code points, as SQLite does.
--
-- The engine of tasks is the only way by which the theorems let a status change: the repository's
-- update, which a few callers use with a status of their own, does not look at the table.
--
-- Not modelled: the other repositories of the database, the processes of the agents, sandboxes and
-- containers, the user interfaces, messengers, the Planner's process and prompts, memory and
-- learning, and the workflows that load a snapshot and apply a decision.
pub mod Base
pub mod Host
pub mod WorkGraph
pub mod Resource
pub mod Task
pub mod Execution
pub mod Planning
pub mod Kernel
pub mod Scenarios
