-- ===== src/Lib.antt =====
-- Verification of the control plane of AkoFlow: the durable queue of jobs, the event loop that
-- leases and handles them, the check of a request before a run, the loop that runs its activities,
-- and the workspaces of these activities.
--
-- The parts and how they interact. A service publishes a job in the queue; the event loop leases
-- jobs for as many slots as its pools have, dispatches each to the handler of its event, and
-- completes it or hands it back for a later attempt. The handler of an execution is the
-- supervisor, which checks the request and its plan, goes over the activities in turns (it takes
-- in the results of starts, allocations and inspections, chooses the ready activities that have
-- room, and starts them), activates the workspace of an activity, seals it when the activity has
-- ended, releases the leases that the activity held on the workspaces of its producers, removes a
-- workspace that no lease holds any longer, and stops a cloud instance that the run no longer
-- needs.
--
-- Apart from a run, the projection of workspaces foresees the files of every activity and the
-- bytes that each dependency transfers.
--
-- Files and code.
--   Prelude      shared helpers: Boolean tests, lists over native numbers, keys, sets and maps that change,
--                results, trimmed text, the interface of float64.
--   Queue        internal/domain/queue/job.go: statuses, jobs, New, Validate.
--     Store      the table queue_jobs as a list of rows with the audit log beside it; UPDATE ... WHERE
--                ... RETURNING, and internal/infrastructure/database/queue/audit.go.
--     Repository internal/infrastructure/database/queue/repository.go: Publish, Complete, RenewLease,
--                Retry, Cancel, CancelByAggregate, ReleaseExpired.
--     Admission, Lease
--                the same file: the candidates, the environments of executions, Lease.
--     History    calls on the queue as a data type, a step and a run.
--     Invariant, States, Ownership, Exclusive, Selection, Idempotency, Retries, Revival, Rows
--                proofs.
--   EventLoop    internal/controlplane/eventloop/eventloop.go: Config, New, splitCategories, handle,
--                drain; Dispatcher is dispatcher.go; Pools is the loop of Run with its two pools,
--                Backoff and Categories are proofs.
--   Workspace    internal/domain/execution/workspace.go, and the two tables of ports.WorkspaceStore.
--     Manifest   internal/domain/execution/artifact_observation.go and applyArtifactManifest.
--     Lifecycle, Recovery
--                internal/controlplane/execution/workspace_lifecycle.go and
--                recovery_workspace_integrity.go.
--     History    the operations on workspaces, the restoration of leases among them, as a data type,
--                a step and a run.
--     Tables, Listing, Passed, Release, Operations, Restart, Leases, Contents
--                proofs.
--   Precedence   internal/controlplane/execution/planned_precedence.go, LanePredecessors of
--                internal/domain/planning/lanes.go, and workspaceProducers of
--                internal/controlplane/execution/supervisor.go; Order, Dependencies and
--                Fuel are proofs.
--   Supervision  internal/controlplane/execution/supervisor.go: what it reads of a request, its maps.
--     Runtimes, Admission
--                selectRuntime, readyActivities, queueReadyActivities; admission.go of the same folder, and
--                SchedulingCPUCores of internal/domain/resource/resource.go.
--     Events, Loop, Cleanup
--                applyStartResult, applyInspectionResult, cancelRunningActivities, executeActivities and
--                the function that it defers; ready_allocations.go.
--     Requests, Reuse, Releases
--                validateRequest; reconcileReusableWorkspaces; releaseCloud and the two functions that
--                retain allocations.
--     Chosen, Founded, Safety
--                proofs about the predecessors of the activities at work.
--     Consistent, Agreement, Dispatched, Turns
--                proofs about the maps of the loop.
--     OpenActivity, Waiting, Liveness, Unstuck, Accepted
--                proofs about a loop in which nothing can go on, and about requests.
--     Capacity, Spared
--                proofs on admission and on the teardown.
--   Projection   internal/domain/workflow/workspace_projection.go: files, volumes, guarded sums.
--     Files, Activities, Versions
--                mergeProjectedFile; projectActivityWorkspace and finalizeProjectedWorkspace; the models
--                of a workflow and the loop over its activities.
--     Sizes, Ends, Passes, Ordering, Inherited, Produced
--                proofs.
--   CloudStops   internal/controlplane/execution/cloud_stop_gate.go; Safety is a proof.
--   Tests        runs on concrete data, and each theorem at an input that meets its hypotheses.
--
-- The state of the supervisor's loop is a record of its maps. One turn takes all that reaches it
-- from outside (the results of workers in the order of their arrival, what inspections say, which
-- stops fail, what ends the wait), so a theorem on every list of arrivals covers every schedule of
-- the goroutines. The order in which Go goes over a map is the order of a list, which is any
-- order.
--
-- State. A table is a list of rows in the order of insertion; an operation takes the tables and
-- returns them, with the error as a text or a value of the component. A time is a natural number
-- that the caller gives, so a clock that goes backwards is allowed. A transaction is one step, as
-- SQLite runs one writer at a time; histories are lists of such steps in any order, which covers
-- the interleavings of workers.
--
-- Bounds and fuel. The visit of an activity's predecessors runs on fuel, one more than there are
-- activities: each nested visit marks one of them. The loop that drops reusable activities runs on
-- fuel, one more than there are of them: each pass but the last drops one. The projection of a
-- workflow has fuel for one pass more than it has activities: each pass projects one. Every other
-- loop goes over a list. Sizes of files are bit patterns of int64, with sums modulo 2^64; the
-- delay of a retry is one of nanoseconds, which wraps. Attempts and times are unbounded natural
-- numbers.
--
-- Parameters. The decoding of JSON (a job's payload, the model of a projection), the manager of
-- workspaces (WorkspaceManager, whose implementations run commands on other machines), and the
-- rewriting of a URI by net/url are arguments of the definitions that use them. A float64 is a
-- value of any type with the comparisons and conversions that the code uses, of which no law is
-- assumed.
--
-- Not modelled: failures of the database itself, cancelled contexts, the provenance of requests in
-- the audit log, the creation of workspaces at the start of a run, what a worker does to start an
-- activity, the times and prices of tasks, the restore of attempts in a recovery, planning,
-- providers, transfers, the HTTP API and the console.
pub mod Prelude
pub mod Queue
pub mod EventLoop
pub mod Workspace
pub mod Precedence
pub mod CloudStops
pub mod Supervision
pub mod Projection
mod Tests
