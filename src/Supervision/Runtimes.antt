-- ===== src/Supervision/Runtimes.antt =====
-- Which runtime an assignment uses: selectRuntime, resolvedRuntimeID and runtimeDriver of
-- internal/controlplane/execution/supervisor.go, and partitionReadyAllocations.
use akoflow.Prelude.{
  String, Bool, true, false, not, List, [], ◌∷◌, Option, none, some, lookup, ◌==◌, string_eq, ◌&&◌,
  ◌||◌, if◌then◌else◌,
}
use akoflow.Workspace.Recovery.{RuntimeAllocation}
use akoflow.Supervision.{
  ExecutionMode, simulation, real, interactive, RuntimeMode, execution_runtime, simulation_runtime,
  EnvironmentRuntime, ResourceRuntimeBinding, Assignment, ExecutionRequest,
}

abbrev pub runtime_mode : ExecutionMode → RuntimeMode
runtime_mode simulation = simulation_runtime
runtime_mode real = execution_runtime
runtime_mode interactive = execution_runtime

abbrev pub same_mode : RuntimeMode → RuntimeMode → Bool
same_mode execution_runtime execution_runtime = true
same_mode simulation_runtime simulation_runtime = true
same_mode _ _ = false

unfoldable pub index_runtimes :
    List EnvironmentRuntime
    → List (String × EnvironmentRuntime)
    → List (String × EnvironmentRuntime)
index_runtimes [] m = m
index_runtimes (r ∷ rest) m = index_runtimes rest ((r.id, r) ∷ m)

-- The runtime serves the mode and, where one was selected while planning, is that one.
abbrev pub is_selected : RuntimeMode → String → Option EnvironmentRuntime → Bool
is_selected mode selected none = false
is_selected mode selected (some r) = same_mode r.mode mode && (selected == "" || r.id == selected)

unfoldable pub first_binding :
    List (String × EnvironmentRuntime)
    → RuntimeMode
    → String
    → String
    → List ResourceRuntimeBinding
    → String
first_binding runtimes mode resource_id selected [] = ""
first_binding runtimes mode resource_id selected (b ∷ rest) =
    let later = first_binding runtimes mode resource_id selected rest in
    if b.resource_id == resource_id
      && b.enabled
      && is_selected mode selected (lookup b.runtime_id runtimes)
    then b.runtime_id
    else later

unfoldable pub select_runtime {ℓ} : {F : Type ℓ} → ExecutionRequest F → Assignment F → String
select_runtime request a =
    first_binding (index_runtimes request.runtimes []) (runtime_mode request.mode)
      a.placed.resource_id a.runtime_id request.runtime_bindings

unfoldable pub first_selected {ℓ} :
    {F : Type ℓ} → ExecutionRequest F → String → List (Assignment F) → String
first_selected request id [] = ""
first_selected request id (a ∷ rest) =
    let later = first_selected request id rest in
    if a.placed.activity_id == id then select_runtime request a else later

unfoldable pub resolved_runtime_id {ℓ} : {F : Type ℓ} → ExecutionRequest F → String → String
resolved_runtime_id request id = first_selected request id request.assignments

unfoldable pub driver_of : String → List EnvironmentRuntime → String
driver_of id [] = ""
driver_of id (r ∷ rest) = let later = driver_of id rest in if r.id == id then r.driver else later

unfoldable pub runtime_driver {ℓ} : {F : Type ℓ} → ExecutionRequest F → String → String
runtime_driver request id = driver_of (resolved_runtime_id request id) request.runtimes

abbrev pub is_allocated : Option RuntimeAllocation → Bool
is_allocated none = false
is_allocated (some a) = true

-- The activity waits for a cloud instance that is still to be allocated.
unfoldable pub needs_allocation {ℓ} :
    {F : Type ℓ} → ExecutionRequest F → List (String × RuntimeAllocation) → String → Bool
needs_allocation request ready id =
    runtime_driver request id == "cloud" && not (is_allocated (lookup id ready))

-- The candidates for an allocation, and the activities to start at once.
unfoldable pub partition_ready_allocations {ℓ} :
    {F : Type ℓ}
    → ExecutionRequest F
    → List String
    → List (String × RuntimeAllocation)
    → List String × List String
partition_ready_allocations request [] ready = ([], [])
partition_ready_allocations request (id ∷ ids) ready =
    let (candidates, immediate) = partition_ready_allocations request ids ready in
    if needs_allocation request ready id
    then (id ∷ candidates, immediate)
    else (candidates, id ∷ immediate)
