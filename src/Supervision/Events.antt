-- ===== src/Supervision/Events.antt =====
-- What arrives at the loop of executeActivities: results of starts, allocations and inspections, from
-- internal/controlplane/execution/supervisor.go and ready_allocations.go. A worker's result is data;
-- what it did to workspaces stands in Workspace, and here its error. The outcome of an operation is
-- the new state with the error.
use akoflow.Prelude.{
  String, Bool, not, List, [], ◌∷◌, Option, none, some, add, remove, put, contains, lookup, ◌==◌,
  string_eq, if◌then◌else◌,
}
use akoflow.Workspace.Recovery.{RuntimeAllocation}
use akoflow.CloudStops.{TaskExecutionStatus, blocked, running, completed, failed, cancelled}
use akoflow.Supervision.{
  FailureReason, no_failure, observed_failure, cancelled_after, not_cancelled, TaskExecution,
  Progress, SupervisorError, inspect_failed, no_handle, outputs_missing, seal_failed,
  activity_failed, start_failed, allocation_failed,
}

abbrev pub Effect : Type 0
Effect = Progress × Option SupervisorError

-- The next operation, unless there was an error.
infixl 5 ◌then_do◌
abbrev pub ◌then_do◌ : Effect → (Progress → Effect) → Effect
◌then_do◌ o f = elim o.1 [ none ↦ f o.0 | some e ↦ (o.0, some e) ]

abbrev pub zero_task : TaskExecution
zero_task = record { status = blocked; attempt = 0; queue_reason = ""; failure_reason = no_failure }

abbrev pub task_of : Option TaskExecution → TaskExecution
task_of none = zero_task
task_of (some t) = t

-- The result of startReadyActivity. A refusal may be uncertain: then the handle is kept, to be
-- reconciled.
pub data StartResult : Type 0 where
  started : RuntimeAllocation → Bool → Option String → StartResult
  refused : RuntimeAllocation → String → Bool → StartResult

abbrev pub with_status : TaskExecutionStatus → FailureReason → TaskExecution → TaskExecution
with_status status reason t = record t { status = status; failure_reason = reason }

-- newRunningTask and, where the handle is completed already, completeTask and sealWorkspace.
unfoldable pub started_activity :
    String → RuntimeAllocation → Bool → Option String → Progress → Effect
started_activity id a at_once seal_error s =
    let t : TaskExecution = task_of (lookup id s.tasks) in
    let begun : Progress = record s {
      runtime_allocations = put id a s.runtime_allocations;
      tasks =
          put id
            (record {
              status = running;
              attempt = t.attempt;
              queue_reason = "";
              failure_reason = no_failure;
            })
            s.tasks;
      running = add id s.running;
    } in
    let ended : Progress = record begun {
      tasks =
          put id
            (record {
              status = completed;
              attempt = t.attempt;
              queue_reason = "";
              failure_reason = no_failure;
            })
            s.tasks;
      completed = add id s.completed;
      running = remove id begun.running;
    } in
    if not at_once
    then (begun, none)
    else elim seal_error [ some e ↦ (begun, some (seal_failed id e)) | none ↦ (ended, none) ]

abbrev pub keep_allocation : String → RuntimeAllocation → Progress → Progress
keep_allocation id a s =
    if a.resource_id == ""
    then s
    else record s { runtime_allocations = put id a s.runtime_allocations }

unfoldable pub apply_start_result : String → StartResult → Progress → Effect
unfolding started_activity
apply_start_result id (started a at_once seal_error) s =
    started_activity id a at_once seal_error (keep_allocation id a s)
apply_start_result id (refused a e uncertain) s =
    let s' : Progress = keep_allocation id a s in
    (
      (if uncertain then (record s' { running = add id s'.running }) else s'),
      some (start_failed id e),
    )

-- consumeStart; only the worker of a pending start sends a result.
unfoldable pub consume_start : String × StartResult → Progress → Effect
unfolding apply_start_result
consume_start (id, r) s =
    if contains s.pending_starts id
    then apply_start_result id r (record s { pending_starts = remove id s.pending_starts })
    else (s, none)

pub data AllocationResult : Type 0 where
  allocated : RuntimeAllocation → AllocationResult
  not_allocated : String → AllocationResult

-- consumeAllocation; only the worker of a pending allocation sends a result.
unfoldable pub consume_allocation : String × AllocationResult → Progress → Effect
consume_allocation (id, r) s =
    let s' : Progress = record s { pending_allocations = remove id s.pending_allocations } in
    if not (contains s.pending_allocations id) then (s, none) else elim r [
      | not_allocated e ↦ (s', some (allocation_failed id e))
      | allocated a ↦ (record s' { ready_allocations = put id a s.ready_allocations }, none)
    ]

-- The loops that drain a channel.
unfoldable pub drain {ℓ} : {A : Type ℓ} → (A → Progress → Effect) → List A → Progress → Effect
drain consume [] s = (s, none)
drain consume (a ∷ rest) s = consume a s then_do drain consume rest

-- What Inspect says of a handle, with the errors of the two operations that follow a completion.
pub data Observation : Type 0 where
  inspect_error : String → Observation
  nothing_observed : Observation
  still_running : Observation
  has_completed : Option String → Option String → Observation
  has_failed : String → Observation

abbrev pub first_error : Option SupervisorError → SupervisorError → Option SupervisorError
first_error none e = some e
first_error (some e') e = some e'

abbrev pub end_running : String → TaskExecution → Progress → Progress
end_running id t s = record s { tasks = put id t s.tasks; running = remove id s.running }

-- A case of applyInspectionResult.
unfoldable pub apply_inspection_result :
    String → Observation → Progress → Option SupervisorError → Effect
apply_inspection_result id (inspect_error e) s err = (s, first_error err (inspect_failed id e))
apply_inspection_result id nothing_observed s err = (s, first_error err (no_handle id ""))
apply_inspection_result id still_running s err = (s, err)
apply_inspection_result id (has_completed (some e) seal_error) s err =
    (s, first_error err (outputs_missing id e))
apply_inspection_result id (has_completed none (some e)) s err =
    (s, first_error err (seal_failed id e))
apply_inspection_result id (has_completed none none) s err =
    let t : TaskExecution = task_of (lookup id s.tasks) in
    let s' : Progress = end_running id (record t { status = completed }) s in
    (record s' { completed = add id s'.completed }, err)
apply_inspection_result id (has_failed e) s err =
    let t : TaskExecution = task_of (lookup id s.tasks) in
    (
      end_running id (with_status failed (observed_failure e) t) s,
      first_error err (activity_failed id e),
    )

unfoldable pub apply_inspections :
    (String → Observation) → List String → Progress → Option SupervisorError → Effect
unfolding apply_inspection_result
apply_inspections observe [] s err = (s, err)
apply_inspections observe (id ∷ ids) s err =
    let o = apply_inspection_result id (observe id) s err in apply_inspections observe ids o.0 o.1

-- A case of cancelRunningActivities; `stop` is none where Stop succeeded.
unfoldable pub cancel_activity : SupervisorError → String → Option String → Progress → Progress
cancel_activity cause id none s =
    end_running id (with_status cancelled (cancelled_after cause) (task_of (lookup id s.tasks))) s
cancel_activity cause id (some e) s = record s {
  tasks = put id (with_status failed (not_cancelled e) (task_of (lookup id s.tasks))) s.tasks;
}

unfoldable pub cancel_each :
    SupervisorError → (String → Option String) → List String → Progress → Progress
unfolding cancel_activity
cancel_each cause stop [] s = s
cancel_each cause stop (id ∷ ids) s =
    cancel_each cause stop ids (cancel_activity cause id (stop id) s)

unfoldable pub cancel_running_activities :
    SupervisorError → (String → Option String) → Progress → Progress
cancel_running_activities cause stop s = cancel_each cause stop s.running s

-- inspectRunning: every running activity is inspected, and an error cancels those that are left.
unfoldable pub inspect_running :
    (String → Observation) → (String → Option String) → Progress → Effect
inspect_running observe stop s =
    let o = apply_inspections observe s.running s none in
    elim o.1 [ none ↦ (o.0, none) | some e ↦ (cancel_running_activities e stop o.0, some e) ]
