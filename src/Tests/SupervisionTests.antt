-- ===== src/Tests/SupervisionTests.antt =====
-- The loop on the sample, turn by turn.
use akoflow.Prelude.{remove, put, drop_key, [], ◌∷◌, none, ◌≡◌, refl, string_eq}
use akoflow.Precedence.{
  data_producers, control_producers, workspace_producers, add_to_lane, by_lane, insert_in_lane,
  sort_lane, previous_in_lane, all_previous, lane_predecessors, assign_each, predecessors, each,
  visit, validate_planned_precedence,
}
use akoflow.Supervision.{
  placements, index_assignments, index_resources, index_activities, activity_failed,
  predecessors_of,
}
use akoflow.Supervision.Runtimes.{
  index_runtimes, first_binding, select_runtime, first_selected, resolved_runtime_id, driver_of,
  runtime_driver, needs_allocation, partition_ready_allocations,
}
use akoflow.Supervision.Admission.{
  insert_sorted, sort_stable, all_completed, is_ready, ready_activities, queue_activity,
  queue_ready_activities, scheduling_cpu_cores, is_restricted, assignment_of, resource_named,
  starts_before, planned_ready_activities, occupied_lanes, is_full, admit,
  restricted_capacity_ready,
}
use akoflow.Supervision.Events.{
  still_running, has_completed, has_failed, started_activity, apply_start_result, consume_start,
  consume_allocation, drain, apply_inspection_result, apply_inspections, inspect_running,
}
use akoflow.Supervision.Loop.{
  mark_pending, begin_start, begin_starts, woken, receive, in_flight, choose, dispatch, is_stuck,
  dispatch_and_wait, turn, execute_activities, returns, fails,
}
use akoflow.Supervision.Safety.{RunsFounded, execute_activities-Founded}
use akoflow.Supervision.Consistent.{Consistent}
use akoflow.Supervision.Turns.{execute_activities-Consistent}
use akoflow.Tests.SupervisionSamples.{
  integers, chain, at_start, starts_next, all_well, after_a, at_start-Consistent,
}

runs_to_the_end : (execute_activities integers chain all_well at_start).1 ≡ returns
unfolding execute_activities turn dispatch_and_wait is_stuck dispatch choose in_flight receive woken
    begin_starts begin_start mark_pending inspect_running apply_inspections apply_inspection_result
    drain consume_allocation consume_start apply_start_result started_activity
    restricted_capacity_ready admit is_full occupied_lanes planned_ready_activities starts_before
    resource_named assignment_of is_restricted scheduling_cpu_cores queue_ready_activities
    queue_activity ready_activities is_ready all_completed sort_stable insert_sorted
    partition_ready_allocations needs_allocation runtime_driver driver_of resolved_runtime_id
    first_selected select_runtime first_binding index_runtimes predecessors_of index_activities
    index_resources index_assignments placements predecessors lane_predecessors all_previous
    previous_in_lane sort_lane insert_in_lane by_lane add_to_lane workspace_producers data_producers
    control_producers remove put drop_key
runs_to_the_end = refl

-- The first activity runs; the one that is ready too waits for the only core.
first_turn :
    (execute_activities integers chain
      (starts_next "a" (has_completed none none) ∷ [])
      at_start).0.running
    ≡ "a" ∷ []
unfolding execute_activities turn dispatch_and_wait is_stuck dispatch choose in_flight receive woken
    begin_starts begin_start mark_pending inspect_running apply_inspections apply_inspection_result
    drain consume_allocation consume_start apply_start_result started_activity
    restricted_capacity_ready admit is_full occupied_lanes planned_ready_activities starts_before
    resource_named assignment_of is_restricted scheduling_cpu_cores queue_ready_activities
    queue_activity ready_activities is_ready all_completed sort_stable insert_sorted
    partition_ready_allocations needs_allocation runtime_driver driver_of resolved_runtime_id
    first_selected select_runtime first_binding index_runtimes predecessors_of index_activities
    index_resources index_assignments placements predecessors lane_predecessors all_previous
    previous_in_lane sort_lane insert_in_lane by_lane add_to_lane workspace_producers data_producers
    control_producers
first_turn = refl

-- The activity that needs the first is started once that is completed.
second_turn :
    (execute_activities integers chain
      (starts_next "b" (has_completed none none) ∷ [])
      after_a).0.running
    ≡ "b" ∷ []
unfolding execute_activities turn dispatch_and_wait is_stuck dispatch choose in_flight receive woken
    begin_starts begin_start mark_pending inspect_running apply_inspections apply_inspection_result
    drain consume_allocation consume_start apply_start_result started_activity
    restricted_capacity_ready admit is_full occupied_lanes planned_ready_activities starts_before
    resource_named assignment_of is_restricted scheduling_cpu_cores queue_ready_activities
    queue_activity ready_activities is_ready all_completed sort_stable insert_sorted
    partition_ready_allocations needs_allocation runtime_driver driver_of resolved_runtime_id
    first_selected select_runtime first_binding index_runtimes predecessors_of index_activities
    index_resources index_assignments placements predecessors lane_predecessors all_previous
    previous_in_lane sort_lane insert_in_lane by_lane add_to_lane workspace_producers data_producers
    control_producers remove put
second_turn = refl

a_fails :
    (execute_activities integers chain (starts_next "b" (has_failed "exit 1") ∷ []) after_a).1
    ≡ fails (activity_failed "a" "exit 1")
unfolding execute_activities turn dispatch_and_wait is_stuck dispatch choose in_flight receive woken
    begin_starts begin_start mark_pending inspect_running apply_inspections apply_inspection_result
    drain consume_allocation consume_start apply_start_result started_activity
    restricted_capacity_ready admit is_full occupied_lanes planned_ready_activities starts_before
    resource_named assignment_of is_restricted scheduling_cpu_cores queue_ready_activities
    queue_activity ready_activities is_ready all_completed sort_stable insert_sorted
    partition_ready_allocations needs_allocation runtime_driver driver_of resolved_runtime_id
    first_selected select_runtime first_binding index_runtimes predecessors_of index_activities
    index_resources index_assignments placements predecessors lane_predecessors all_previous
    previous_in_lane sort_lane insert_in_lane by_lane add_to_lane workspace_producers data_producers
    control_producers
a_fails = refl

chain-valid : validate_planned_precedence chain.workflow (placements chain.assignments) ≡ none
unfolding validate_planned_precedence assign_each each visit predecessors lane_predecessors
    all_previous previous_in_lane sort_lane insert_in_lane by_lane add_to_lane workspace_producers
    data_producers control_producers placements
chain-valid = refl

execute_activities-Founded_example :
    RunsFounded integers chain (execute_activities integers chain all_well at_start).0
execute_activities-Founded_example =
    execute_activities-Founded integers chain all_well at_start (λ id h. cc)

execute_activities-Consistent_example :
    Consistent (execute_activities integers chain (starts_next "a" still_running ∷ []) at_start).0
unfolding execute_activities turn dispatch_and_wait is_stuck dispatch choose in_flight receive woken
    begin_starts begin_start mark_pending inspect_running apply_inspections apply_inspection_result
    drain consume_allocation consume_start apply_start_result started_activity
    restricted_capacity_ready admit is_full occupied_lanes planned_ready_activities starts_before
    resource_named assignment_of is_restricted scheduling_cpu_cores queue_ready_activities
    queue_activity ready_activities is_ready all_completed sort_stable insert_sorted
    partition_ready_allocations needs_allocation runtime_driver driver_of resolved_runtime_id
    first_selected select_runtime first_binding index_runtimes predecessors_of index_activities
    index_resources index_assignments placements predecessors lane_predecessors all_previous
    previous_in_lane sort_lane insert_in_lane by_lane add_to_lane workspace_producers data_producers
    control_producers
execute_activities-Consistent_example =
    execute_activities-Consistent integers chain (starts_next "a" still_running ∷ []) at_start
      at_start-Consistent refl
