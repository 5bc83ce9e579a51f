-- ===== src/CloudStops.antt =====
-- When the cloud instances of a run may stop before its end: readyCloudStops and what it uses of
-- internal/controlplane/execution/cloud_stop_gate.go, with indexAssignments and indexResources of the
-- supervisor. A map is a list of its entries, the last written first; a value that is missing is
-- Go's zero value.
pub mod Safety
use akoflow.Prelude.{
  ℕ, String, Bool, true, false, not, List, [], ◌∷◌, ◌++◌, map, Option, none, some, ◌==◌, string_eq,
  ◌&&◌, ◌||◌, if◌then◌else◌, contains, lookup,
}
use akoflow.Precedence.{WorkflowVersion, PlanAssignment, workspace_producers}
use akoflow.Workspace.Recovery.{RuntimeAllocation}

pub data TaskExecutionStatus : Type 0 where
  blocked ready queued preparing running completed failed cancelled : TaskExecutionStatus

-- `capacity_target_id` is Metadata["capacityTargetId"] where that is a string.
pub record Resource : Type 0 where
  pub id : String
  pub capacity_target_id : Option String

pub record LifecycleAction : Type 0 where
  pub action : String
  pub capacity_target_id : String

pub record SchedulePlan : Type 0 where
  pub assignments : List PlanAssignment
  pub lifecycle_actions : List LifecycleAction

pub record ExecutionRequest : Type 0 where
  pub workflow : WorkflowVersion
  pub plan : SchedulePlan
  pub resources : List Resource
  pub runtime_allocations : List (String × RuntimeAllocation)

unfoldable pub index_assignments :
    List PlanAssignment → List (String × PlanAssignment) → List (String × PlanAssignment)
index_assignments [] m = m
index_assignments (a ∷ rest) m = index_assignments rest ((a.activity_id, a) ∷ m)

unfoldable pub index_resources : List Resource → List (String × Resource) → List (String × Resource)
index_resources [] m = m
index_resources (r ∷ rest) m = index_resources rest ((r.id, r) ∷ m)

-- assignments[id].ResourceID
unfoldable pub resource_of : List (String × PlanAssignment) → String → String
resource_of assignments id = elim (lookup id assignments) [ none ↦ "" | some a ↦ a.resource_id ]

abbrev pub zero_resource : Resource
zero_resource = record { id = ""; capacity_target_id = none }

abbrev pub resource_at : List (String × Resource) → String → Resource
resource_at resources id = elim (lookup id resources) [ none ↦ zero_resource | some r ↦ r ]

unfoldable pub resource_capacity_target : Resource → String
resource_capacity_target r = elim r.capacity_target_id [
  | none ↦ r.id
  | some value ↦ if value == "" then r.id else value
]

unfoldable pub stop_targets : List LifecycleAction → List String
stop_targets [] = []
stop_targets (a ∷ rest) =
    let later = stop_targets rest in
    if a.action == "stop" then a.capacity_target_id ∷ later else later

-- selected[resourceID], which is false for an id that is no resource.
unfoldable pub is_stop_resource : SchedulePlan → List (String × Resource) → String → Bool
unfolding stop_targets
is_stop_resource plan resources id = elim (lookup id resources) [
  | none ↦ false
  | some r ↦
      contains (stop_targets plan.lifecycle_actions) id
      || contains (stop_targets plan.lifecycle_actions) (resource_capacity_target r)
]

abbrev pub Allocations : Type 0
Allocations = List (String × RuntimeAllocation)

unfoldable pub put_allocation :
    String → String × RuntimeAllocation → List (String × Allocations) → List (String × Allocations)
put_allocation instance_id a [] = (instance_id, a ∷ []) ∷ []
put_allocation instance_id a ((i, as') ∷ m) =
    let rest = put_allocation instance_id a m in
    if i == instance_id then (i, as' ++ a ∷ []) ∷ m else (i, as') ∷ rest

-- The target of an activity's resource.
unfoldable pub target_of :
    List (String × Resource) → List (String × PlanAssignment) → String → String
target_of resources assignments id =
    resource_capacity_target (resource_at resources (resource_of assignments id))

abbrev pub ids_of : Allocations → List String
ids_of [] = []
ids_of ((id, a) ∷ rest) = id ∷ ids_of rest

abbrev pub has_started : Option TaskExecutionStatus → Bool
has_started (some running) = true
has_started (some completed) = true
has_started _ = false

module _ (request : ExecutionRequest) where
  abbrev pub assignments : List (String × PlanAssignment)
  assignments = index_assignments request.plan.assignments []

  abbrev pub resources : List (String × Resource)
  resources = index_resources request.resources []

  unfoldable pub by_instance :
      Allocations → List (String × Allocations) → List (String × Allocations)
  by_instance [] m = m
  by_instance ((id, a) ∷ rest) m = by_instance rest (
      if a.cloud_instance_id == ""
        || not (is_stop_resource request.plan resources (resource_of assignments id))
      then m
      else put_allocation a.cloud_instance_id (id, a) m)

  -- The loop over the plan, for the targets of the allocations.
  unfoldable pub work_done : List String → List String → List PlanAssignment → Bool
  work_done targets done [] = true
  work_done targets done (a ∷ rest) =
      (not (contains targets (resource_capacity_target (resource_at resources a.resource_id)))
        || contains done a.activity_id)
      && work_done targets done rest

  unfoldable pub cloud_work_finished : Allocations → List String → Bool
  cloud_work_finished allocations done =
      work_done (map (target_of resources assignments) (ids_of allocations)) done
        request.plan.assignments

  -- The inner loop, for one consumer.
  unfoldable pub producers_transferred :
      Allocations → List (String × TaskExecutionStatus) → Bool → String → List String → Bool
  producers_transferred allocations tasks gate consumer [] = true
  producers_transferred allocations tasks gate consumer (p ∷ ps) =
      (not (contains (ids_of allocations) p)
        || resource_of assignments p == resource_of assignments consumer
        || (gate && has_started (lookup consumer tasks)))
      && producers_transferred allocations tasks gate consumer ps

  unfoldable pub outputs_transferred :
      Allocations → List (String × TaskExecutionStatus) → Bool → List String → Bool
  outputs_transferred allocations tasks gate [] = true
  outputs_transferred allocations tasks gate (c ∷ cs) =
      producers_transferred allocations tasks gate c (workspace_producers request.workflow c)
      && outputs_transferred allocations tasks gate cs

  unfoldable pub ready_of :
      List String
      → List (String × TaskExecutionStatus)
      → List String
      → Bool
      → List (String × Allocations)
      → List (String × Allocations)
  ready_of done tasks stopping gate [] = []
  ready_of done tasks stopping gate ((i, allocations) ∷ rest) =
      let later = ready_of done tasks stopping gate rest in
      if contains stopping i || not (cloud_work_finished allocations done)
      then later
      else if not (outputs_transferred allocations tasks gate request.workflow.activities)
      then later
      else (i, allocations) ∷ later

  -- `done` are the keys of the map of completed tasks, `gate` says whether transfers are gated.
  unfoldable pub ready_cloud_stops :
      List String
      → List (String × TaskExecutionStatus)
      → List String
      → Bool
      → List (String × Allocations)
  ready_cloud_stops done tasks stopping gate =
      ready_of done tasks stopping gate (by_instance request.runtime_allocations [])
