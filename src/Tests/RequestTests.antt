-- ===== src/Tests/RequestTests.antt =====
-- The check of the sample request, its cleanup and its admission.
use akoflow.Prelude.{
  ◌+◌, ◌≤◌, remove, false, [], ◌∷◌, none, some, ◌≡◌, ◌≢◌, refl, All, string_eq, arith,
}
use akoflow.Precedence.{
  data_producers, control_producers, workspace_producers, add_to_lane, by_lane, insert_in_lane,
  sort_lane, previous_in_lane, all_previous, lane_predecessors, assign_each, predecessors, each,
  visit, validate_planned_precedence,
}
use akoflow.Supervision.{placements, index_resources, activity_failed, cannot_progress}
use akoflow.Supervision.Runtimes.{index_runtimes, first_binding, select_runtime}
use akoflow.Supervision.Admission.{
  scheduling_cpu_cores, is_restricted, resource_named, lanes_of, admit,
}
use akoflow.Supervision.Events.{started}
use akoflow.Supervision.Loop.{execute_activities, fails}
use akoflow.Supervision.Requests.{no_runtime, is_counted, check_assignments, validate_request}
use akoflow.Supervision.Accepted.{Served, validate_request-Served, validate_request-progress}
use akoflow.Supervision.Waiting.{Idle}
use akoflow.Supervision.Cleanup.{clean_up, clean_up-Idle}
use akoflow.Supervision.Capacity.{admitted_on, admit-bounded}
use akoflow.Tests.SupervisionSamples.{
  integers, host, chain, at_start, no_allocation_yet, all_well, at_start-Consistent, planned,
}

chain-accepted : validate_request integers chain ≡ none
unfolding validate_request check_assignments is_counted scheduling_cpu_cores resource_named
    select_runtime first_binding index_runtimes index_resources validate_planned_precedence
    assign_each each visit predecessors lane_predecessors all_previous previous_in_lane sort_lane
    insert_in_lane by_lane add_to_lane workspace_producers data_producers control_producers
    placements
chain-accepted = refl

unbound_rejected :
    validate_request integers (record chain { runtime_bindings = [] }) ≡ some (no_runtime "host")
unfolding validate_request check_assignments is_counted scheduling_cpu_cores resource_named
    select_runtime first_binding index_runtimes index_resources validate_planned_precedence
    assign_each each visit predecessors lane_predecessors all_previous previous_in_lane sort_lane
    insert_in_lane by_lane add_to_lane workspace_producers data_producers control_producers
    placements
unbound_rejected = refl

validate_request-progress_example :
    (execute_activities integers chain all_well at_start).1 ≢ fails cannot_progress
validate_request-progress_example =
    validate_request-progress integers chain chain-accepted all_well at_start at_start-Consistent

validate_request-Served_example :
    All (λ a. Served chain a (select_runtime chain a)) chain.assignments
validate_request-Served_example = validate_request-Served integers chain chain-accepted

-- One start is pending, and its worker answers that the activity was started.
clean_up-Idle_example :
    Idle
      (clean_up []
        (("b", started no_allocation_yet false none) ∷ [])
        (λ id. none)
        (some (activity_failed "a" "exit 1"))
        (record at_start { pending_starts = "b" ∷ []; running = "c" ∷ [] })).0
    × ((clean_up []
          (("b", started no_allocation_yet false none) ∷ [])
          (λ id. none)
          (some (activity_failed "a" "exit 1"))
          (record at_start { pending_starts = "b" ∷ []; running = "c" ∷ [] })).1
        ≡ some (activity_failed "a" "exit 1"))
unfolding remove
clean_up-Idle_example =
    clean_up-Idle [] (("b", started no_allocation_yet false none) ∷ []) (λ id. none)
      (activity_failed "a" "exit 1")
      (record at_start { pending_starts = "b" ∷ []; running = "c" ∷ [] }) (λ j. refl) (λ j. refl)
      (λ id. refl)

admit-bounded_example :
    lanes_of "host" []
      + admitted_on integers planned
          (("host", host) ∷ [])
          "host"
          (admit integers planned (("host", host) ∷ []) [] ("a" ∷ "c" ∷ []))
    ≤ scheduling_cpu_cores integers (resource_named integers (("host", host) ∷ []) "host")
unfolding is_restricted resource_named scheduling_cpu_cores
admit-bounded_example =
    admit-bounded integers planned (("host", host) ∷ []) "host" [] ("a" ∷ "c" ∷ []) refl
      (omega arith)
