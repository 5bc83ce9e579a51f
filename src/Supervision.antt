-- ===== src/Supervision.antt =====
-- The supervisor of a run, from internal/controlplane/execution/supervisor.go: what it reads of a
-- request, and the state of its loop. A map is a list of its keys or of its entries.
pub mod Runtimes
pub mod Admission
pub mod Events
pub mod Loop
pub mod Founded
pub mod Agreement
pub mod Consistent
pub mod Safety
pub mod Chosen
pub mod Dispatched
pub mod Turns
pub mod OpenActivity
pub mod Waiting
pub mod Liveness
pub mod Unstuck
pub mod Capacity
pub mod Requests
pub mod Accepted
pub mod Cleanup
pub mod Spared
pub mod Releases
pub mod Reuse
use akoflow.Prelude.{
  ℕ, String, Bool, true, false, List, [], ◌∷◌, Option, none, some, ℤ, add, lookup, ◌==◌, string_eq,
  if◌then◌else◌,
}
use akoflow.Precedence.{WorkflowVersion, PlanAssignment, predecessors, lane_predecessors}
use akoflow.CloudStops.{TaskExecutionStatus}
use akoflow.Workspace.Recovery.{RuntimeAllocation}

pub data ExecutionMode : Type 0 where
  simulation real interactive : ExecutionMode

pub data RuntimeMode : Type 0 where
  execution_runtime simulation_runtime : RuntimeMode

pub record EnvironmentRuntime : Type 0 where
  pub id : String
  pub mode : RuntimeMode
  pub driver : String

pub record ResourceRuntimeBinding : Type 0 where
  pub resource_id : String
  pub runtime_id : String
  pub enabled : Bool

-- A number of type F stands for a float64.
module _ {ℓ} where
  pub record Resource (F : Type ℓ) : Type ℓ where
    pub id : String
    pub is_batch : Bool
    pub is_cloud_vm : Bool
    pub cpu_cores : ℤ
    pub cpu_capacity : F

  -- `runtime_id` is Metadata["runtimeId"], empty where that is no string.
  pub record Assignment (F : Type ℓ) : Type ℓ where
    pub placed : PlanAssignment
    pub predicted_start_at : F
    pub priority : ℤ
    pub runtime_id : String

  pub record ExecutionRequest (F : Type ℓ) : Type ℓ where
    pub run_id : String
    pub plan_id : String
    pub workflow_id : String
    pub mode : ExecutionMode
    pub workflow : WorkflowVersion
    pub assignments : List (Assignment F)
    pub resources : List (Resource F)
    pub runtimes : List EnvironmentRuntime
    pub runtime_bindings : List ResourceRuntimeBinding

  -- The plan as the lanes see it.
  unfoldable pub placements : {F : Type ℓ} → List (Assignment F) → List PlanAssignment
  placements [] = []
  placements (a ∷ rest) = a.placed ∷ placements rest

  unfoldable pub index_assignments :
      {F : Type ℓ}
      → List (Assignment F)
      → List (String × Assignment F)
      → List (String × Assignment F)
  index_assignments [] m = m
  index_assignments (a ∷ rest) m = index_assignments rest ((a.placed.activity_id, a) ∷ m)

  unfoldable pub index_resources :
      {F : Type ℓ} → List (Resource F) → List (String × Resource F) → List (String × Resource F)
  index_resources [] m = m
  index_resources (r ∷ rest) m = index_resources rest ((r.id, r) ∷ m)

-- The keys of indexActivities.
unfoldable pub index_activities : List String → List String
index_activities [] = []
index_activities (id ∷ ids) = add id (index_activities ids)

pub data SupervisorError : Type 0 where
  cannot_progress : SupervisorError
  inspect_failed no_handle outputs_missing seal_failed activity_failed start_failed :
      String → String → SupervisorError
  allocation_failed : String → String → SupervisorError
  prewarm_failed : String → SupervisorError

-- The text of FailureReason: none, a runtime's, or of a cancellation, with its cause, or with the error
-- of the stop.
pub data FailureReason : Type 0 where
  no_failure : FailureReason
  observed_failure : String → FailureReason
  cancelled_after : SupervisorError → FailureReason
  not_cancelled : String → FailureReason

-- What the loop changes in a TaskExecution. The name of a plan's resource and the times stand still
-- or are measurements.
pub record TaskExecution : Type 0 where
  pub status : TaskExecutionStatus
  pub attempt : ℕ
  pub queue_reason : String
  pub failure_reason : FailureReason

-- The maps of executeActivities.
pub record Progress : Type 0 where
  pub completed : List String
  pub running : List String
  pub tasks : List (String × TaskExecution)
  pub attempts : List (String × ℕ)
  pub pending_allocations : List String
  pub ready_allocations : List (String × RuntimeAllocation)
  pub pending_starts : List String
  pub runtime_allocations : List (String × RuntimeAllocation)

-- The predecessors of an activity: its producers and its predecessor in the lane.
unfoldable pub predecessors_of {ℓ} : {F : Type ℓ} → ExecutionRequest F → String → List String
unfolding placements
predecessors_of request =
    predecessors request.workflow (lane_predecessors (placements request.assignments))
