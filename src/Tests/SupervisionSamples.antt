-- ===== src/Tests/SupervisionSamples.antt =====
-- A chain of two activities and one beside it, on a host whose capacity is one of its two cores.
use akoflow.Prelude.{
  ℕ, String, true, false, not, List, [], ◌∷◌, none, refl, ℤ, pos, ltb_ℤ, Float, string_eq, ◌&&◌,
  arith,
}
use akoflow.Workspace.Recovery.{RuntimeAllocation}
use akoflow.Supervision.{
  no_failure, real, execution_runtime, simulation_runtime, Resource, Assignment, ExecutionRequest,
  Progress,
}
use akoflow.CloudStops.{running}
use akoflow.Supervision.Events.{started, has_completed, Observation}
use akoflow.Supervision.Loop.{Arrivals, start_arrived}
use akoflow.Supervision.Consistent.{Consistent}

abbrev pub integers : Float ℤ
integers = record {
  lt = ltb_ℤ;
  eq = λ a b. not (ltb_ℤ a b) && not (ltb_ℤ b a);
  of_int = λ n. n;
  floor = λ n. n;
}

abbrev pub host : Resource ℤ
host = record {
  id = "host";
  is_batch = false;
  is_cloud_vm = false;
  cpu_cores = pos 2;
  cpu_capacity = pos 1;
}

abbrev pub on_host : String → ℕ → Assignment ℤ
on_host id n = record {
  placed = record {
    activity_id = id;
    resource_id = "host";
    core_id = "";
    slot_id = "";
    order_on_resource = pos n;
  };
  predicted_start_at = pos n;
  priority = pos 0;
  runtime_id = "";
}

abbrev pub chain : ExecutionRequest ℤ
chain = record {
  run_id = "run";
  plan_id = "plan";
  workflow_id = "workflow";
  mode = real;
  workflow = record {
    activities = "b" ∷ "a" ∷ "c" ∷ [];
    dependencies = record { activity_id = "b"; depends_on_activity_id = "a" } ∷ [];
    data_dependencies = [];
  };
  assignments = on_host "a" 0 ∷ on_host "b" 1 ∷ on_host "c" 2 ∷ [];
  resources = host ∷ [];
  runtimes =
      record { id = "simulator"; mode = simulation_runtime; driver = "simgrid" }
      ∷ record { id = "local"; mode = execution_runtime; driver = "local" }
      ∷ [];
  runtime_bindings =
      record { resource_id = "host"; runtime_id = "simulator"; enabled = true }
      ∷ record { resource_id = "host"; runtime_id = "local"; enabled = true }
      ∷ [];
}

abbrev pub at_start : Progress
at_start = record {
  completed = [];
  running = [];
  tasks = [];
  attempts = [];
  pending_allocations = [];
  ready_allocations = [];
  pending_starts = [];
  runtime_allocations = [];
}

abbrev pub no_allocation_yet : RuntimeAllocation
no_allocation_yet = record {
  resource_id = "";
  runtime_id = "local";
  connection_id = "";
  cloud_instance_id = "";
}

-- All that was running is completed, and the start of the activity succeeds.
abbrev pub starts_next : String → Observation → Arrivals
starts_next id o = record {
  starts = [];
  allocations = [];
  observe = λ x. o;
  stop = λ x. none;
  prewarm_error = none;
  wake = start_arrived (id, started no_allocation_yet false none);
}

abbrev pub all_well : List Arrivals
all_well =
    starts_next "a" (has_completed none none)
    ∷ starts_next "b" (has_completed none none)
    ∷ starts_next "c" (has_completed none none)
    ∷ starts_next "" (has_completed none none)
    ∷ starts_next "" (has_completed none none)
    ∷ []

abbrev pub after_a : Progress
after_a = record at_start {
  running = "a" ∷ [];
  tasks =
      (
        "a",
        record { status = running; attempt = 1; queue_reason = ""; failure_reason = no_failure },
      )
      ∷ [];
}

abbrev pub at_start-Consistent : Consistent at_start
at_start-Consistent = record {
  starts = λ id. refl;
  runs = λ id. refl;
  ends = λ id. refl;
  sound = λ id. refl;
  few = omega arith;
}

abbrev pub planned : List (String × Assignment ℤ)
planned = ("a", on_host "a" 0) ∷ ("c", on_host "c" 2) ∷ []
