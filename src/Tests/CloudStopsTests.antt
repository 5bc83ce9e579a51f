-- ===== src/Tests/CloudStopsTests.antt =====
-- Early stops in a run whose producer and consumer lie on different cloud instances.
use akoflow.Prelude.{String, [], ◌∷◌, none, some, ◌≡◌, refl, true, All, pos}
use akoflow.Precedence.{PlanAssignment, workspace_producers, data_producers, control_producers}
use akoflow.Workspace.Recovery.{RuntimeAllocation}
use akoflow.CloudStops.{
  running, queued, ExecutionRequest, index_assignments, index_resources, resource_of,
  resource_capacity_target, stop_targets, is_stop_resource, put_allocation, target_of, by_instance,
  work_done, cloud_work_finished, producers_transferred, outputs_transferred, ready_of,
  ready_cloud_stops,
}
use akoflow.CloudStops.Safety.{Stoppable, ready_cloud_stops-Stoppable}

abbrev assigned : String → String → PlanAssignment
assigned id resource_id = record {
  activity_id = id;
  resource_id = resource_id;
  core_id = "";
  slot_id = "";
  order_on_resource = pos 0;
}

abbrev on_instance : String → String → RuntimeAllocation
on_instance resource_id instance_id = record {
  resource_id = resource_id;
  runtime_id = "";
  connection_id = "";
  cloud_instance_id = instance_id;
}

abbrev request : ExecutionRequest
request = record {
  workflow = record {
    activities = "a" ∷ "b" ∷ [];
    dependencies = record { activity_id = "b"; depends_on_activity_id = "a" } ∷ [];
    data_dependencies = [];
  };
  plan = record {
    assignments = assigned "a" "r1" ∷ assigned "b" "r2" ∷ [];
    lifecycle_actions =
        record { action = "stop"; capacity_target_id = "t1" }
        ∷ record { action = "stop"; capacity_target_id = "r2" }
        ∷ [];
  };
  resources =
      record { id = "r1"; capacity_target_id = some "t1" }
      ∷ record { id = "r2"; capacity_target_id = none }
      ∷ [];
  runtime_allocations = ("a", on_instance "r1" "vm1") ∷ ("b", on_instance "r2" "vm2") ∷ [];
}

stops_producer :
    ready_cloud_stops request ("a" ∷ []) (("b", running) ∷ []) [] true
    ≡ ("vm1", ("a", on_instance "r1" "vm1") ∷ []) ∷ []
unfolding ready_cloud_stops ready_of by_instance put_allocation is_stop_resource stop_targets
    resource_capacity_target resource_of index_assignments index_resources cloud_work_finished
    work_done target_of outputs_transferred producers_transferred workspace_producers data_producers
    control_producers
stops_producer = refl

keeps_producer : ready_cloud_stops request ("a" ∷ []) (("b", queued) ∷ []) [] true ≡ []
unfolding ready_cloud_stops ready_of by_instance put_allocation is_stop_resource stop_targets
    resource_capacity_target resource_of index_assignments index_resources cloud_work_finished
    work_done target_of outputs_transferred producers_transferred workspace_producers data_producers
    control_producers
keeps_producer = refl

ready_cloud_stops-Stoppable_example :
    All
      (Stoppable request (("b", running) ∷ []) true ("a" ∷ []) [])
      (ready_cloud_stops request ("a" ∷ []) (("b", running) ∷ []) [] true)
ready_cloud_stops-Stoppable_example =
    ready_cloud_stops-Stoppable request (("b", running) ∷ []) true ("a" ∷ []) []
