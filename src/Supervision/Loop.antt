-- ===== src/Supervision/Loop.antt =====
-- The loop of executeActivities in internal/controlplane/execution/supervisor.go, one turn for each
-- list of arrivals, and the workers that it joins at the end.
use akoflow.Prelude.{
  ℕ, String, Bool, true, false, not, List, [], ◌∷◌, Option, none, some, add, put, drop_key, lookup,
  length, ltb, leb, string_eq, ◌&&◌, ◌||◌, if◌then◌else◌, Float,
}
use akoflow.CloudStops.{preparing}
use akoflow.Supervision.{
  ExecutionMode, interactive, ExecutionRequest, Progress, SupervisorError, cannot_progress,
  prewarm_failed, index_activities, index_assignments, index_resources, predecessors_of,
}
use akoflow.Supervision.Runtimes.{partition_ready_allocations}
use akoflow.Supervision.Admission.{
  ready_activities, queue_ready_activities, planned_ready_activities, restricted_capacity_ready,
}
use akoflow.Supervision.Events.{
  Effect, ◌then_do◌, StartResult, AllocationResult, Observation, task_of, consume_start,
  consume_allocation, drain, inspect_running,
}

abbrev pub ready_activity_concurrency : ℕ
ready_activity_concurrency = 8

unfoldable pub mark_pending : List String → Progress → Progress
mark_pending [] s = s
mark_pending (id ∷ ids) s =
    mark_pending ids (record s { pending_allocations = add id s.pending_allocations })

abbrev pub synchronizing : String
synchronizing = "synchronizing predecessor workspaces and preparing runtime"

unfoldable pub begin_start : String → Progress → Progress
begin_start id s = record s {
  tasks =
      put id
        (record (task_of (lookup id s.tasks)) { status = preparing; queue_reason = synchronizing })
        s.tasks;
  pending_starts = add id s.pending_starts;
  ready_allocations = drop_key id s.ready_allocations;
}

-- The loop over the activities to start at once, with its break.
unfoldable pub begin_starts : List String → Progress → Progress
begin_starts [] s = s
begin_starts (id ∷ ids) s =
    let rest = begin_starts ids (begin_start id s) in
    if leb ready_activity_concurrency (length s.pending_starts) then s else rest

abbrev pub is_empty : List String → Bool
is_empty [] = true
is_empty (x ∷ xs) = false

abbrev pub is_interactive : ExecutionMode → Bool
is_interactive interactive = true
is_interactive _ = false

-- How a turn ends.
pub data Verdict : Type 0 where
  goes_on returns : Verdict
  fails : SupervisorError → Verdict

-- What the select at the end of a turn receives.
pub data Wake : Type 0 where
  polled : Wake
  start_arrived : String × StartResult → Wake
  allocation_arrived : String × AllocationResult → Wake

-- All that reaches a turn from outside.
pub record Arrivals : Type 0 where
  pub starts : List (String × StartResult)
  pub allocations : List (String × AllocationResult)
  pub observe : String → Observation
  pub stop : String → Option String
  pub prewarm_error : Option String
  pub wake : Wake

abbrev pub verdict_of : Effect → Progress × Verdict
verdict_of (s, none) = (s, goes_on)
verdict_of (s, some e) = (s, fails e)

unfoldable pub woken : Wake → Progress → Effect
woken polled s = (s, none)
woken (start_arrived r) s = consume_start r s
woken (allocation_arrived r) s = consume_allocation r s

-- The three operations before the activities are chosen.
unfoldable pub receive : Arrivals → Progress → Effect
receive a s =
    (drain consume_start a.starts s then_do drain consume_allocation a.allocations)
    then_do inspect_running a.observe a.stop

unfoldable pub in_flight : Progress → Bool
in_flight s =
    not (is_empty s.running)
    || (not (is_empty s.pending_starts) || not (is_empty s.pending_allocations))

module _ {ℓ} {F : Type ℓ} (float : Float F) (request : ExecutionRequest F) where
  abbrev pub activities : List String
  activities = index_activities request.workflow.activities

  abbrev pub admitted : Progress → List String → List String
  admitted s ids =
      let m = index_assignments request.assignments [] in
      restricted_capacity_ready float m (index_resources request.resources []) s.tasks
        s.pending_allocations (planned_ready_activities float m s.pending_allocations ids)

  -- The activities that are ready, and those of them that are to be allocated or started. Admission
  -- reads the tasks as they were before the ready ones were queued.
  unfoldable pub choose : Progress → List String × List String
  choose s =
      partition_ready_allocations request
        (admitted s (ready_activities activities (predecessors_of request) s)) s.ready_allocations

  unfoldable pub dispatch : Progress → Progress
  dispatch s =
      let ready = ready_activities activities (predecessors_of request) s in
      let chosen = choose s in
      begin_starts chosen.1 (mark_pending chosen.0 (queue_ready_activities ready s))

  unfoldable pub is_stuck : Progress → List String → Bool
  is_stuck s immediate =
      not (in_flight s) && (is_empty immediate && ltb (length s.completed) (length activities))

  unfoldable pub dispatch_and_wait : Arrivals → Progress → Progress × Verdict
  dispatch_and_wait a s =
      let s' = dispatch s in
      elim a.prewarm_error [
        | some e ↦ (
          queue_ready_activities (ready_activities activities (predecessors_of request) s) s,
          fails (prewarm_failed e),
        )
        | none ↦
            if is_stuck s' (choose s).1
            then (s', fails cannot_progress)
            else if in_flight s'
            then verdict_of (woken a.wake s')
            else (s', goes_on)
      ]

  unfoldable pub turn : Arrivals → Progress → Progress × Verdict
  turn a s =
      let received = receive a s in
      elim received.1 [
        | some e ↦ (received.0, fails e)
        | none ↦
            if is_interactive request.mode && not (is_empty received.0.running)
            then (received.0, returns)
            else dispatch_and_wait a received.0
      ]

  -- The loop, as far as there are arrivals.
  unfoldable pub execute_activities : List Arrivals → Progress → Progress × Verdict
  execute_activities [] s = (s, goes_on)
  execute_activities (a ∷ rest) s =
      let next = turn a s in
      if not (ltb (length s.completed) (length activities)) then (s, returns) else elim next.1 [
        | goes_on ↦ execute_activities rest next.0
        | returns ↦ (next.0, returns)
        | fails e ↦ (next.0, fails e)
      ]
