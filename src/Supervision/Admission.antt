-- ===== src/Supervision/Admission.antt =====
-- Which activities may go on: readyActivities and queueReadyActivities of
-- internal/controlplane/execution/supervisor.go, internal/controlplane/execution/admission.go and
-- SchedulingCPUCores of internal/domain/resource/resource.go.
use Prim.Native.Nat.{Ordering}
use Prim.Native.String.{compare}
use akoflow.Prelude.{
  ℕ, ◌+◌, max, String, Bool, true, false, not, List, [], ◌∷◌, Option, none, some, pos, pos_part,
  ltb_ℤ, lookup, contains, put, keep, length, leb, ◌==◌, string_eq, ◌&&◌, ◌||◌, if◌then◌else◌,
  Float,
}
use akoflow.CloudStops.{ready, queued, preparing, running}
use akoflow.Supervision.{no_failure, Resource, Assignment, TaskExecution, Progress}

-- sort.Strings
abbrev pub str_lt : String → String → Bool
str_lt s t = elim (compare s t) [ Ordering.lt ↦ true | _ ↦ false ]

module _ {ℓ} {A : Type ℓ} where
  unfoldable pub insert_sorted : (A → A → Bool) → A → List A → List A
  insert_sorted before a [] = a ∷ []
  insert_sorted before a (b ∷ bs) =
      let rest = insert_sorted before a bs in if before b a then b ∷ rest else a ∷ b ∷ bs

  -- sort.SliceStable
  unfoldable pub sort_stable : (A → A → Bool) → List A → List A
  unfolding insert_sorted
  sort_stable before [] = []
  sort_stable before (a ∷ rest) = insert_sorted before a (sort_stable before rest)

-- A task that was not attempted, or is waiting.
abbrev pub may_start : Option TaskExecution → Bool
may_start none = true
may_start (some t) = elim t.status [ queued ↦ true | ready ↦ true | _ ↦ false ]

unfoldable pub all_completed : List String → List String → Bool
all_completed done [] = true
all_completed done (p ∷ ps) = contains done p && all_completed done ps

unfoldable pub is_ready : (String → List String) → Progress → String → Bool
is_ready before s id =
    not (contains s.completed id)
    && (not (contains s.running id)
        && (may_start (lookup id s.tasks) && all_completed s.completed (before id)))

unfoldable pub ready_activities : List String → (String → List String) → Progress → List String
unfolding sort_stable
ready_activities activities before s = sort_stable str_lt (keep (is_ready before s) activities)

abbrev pub waiting : String
waiting = "awaiting assigned runtime"

abbrev pub attempt_of : Option ℕ → ℕ
attempt_of none = 0
attempt_of (some n) = n

unfoldable pub queue_activity : String → Progress → Progress
queue_activity id s = elim (lookup id s.tasks) [
  | some t ↦ record s { tasks = put id (record t { queue_reason = waiting }) s.tasks }
  | none ↦ record s {
    tasks =
        put id
          (record {
            status = queued;
            attempt = attempt_of (lookup id s.attempts) + 1;
            queue_reason = waiting;
            failure_reason = no_failure;
          })
          s.tasks;
  }
]

unfoldable pub queue_ready_activities : List String → Progress → Progress
queue_ready_activities [] s = s
queue_ready_activities (id ∷ ids) s = queue_ready_activities ids (queue_activity id s)

abbrev pub occupies : Option TaskExecution → Bool
occupies none = false
occupies (some t) = elim t.status [ preparing ↦ true | running ↦ true | _ ↦ false ]

abbrev pub lanes_of : String → List String → ℕ
lanes_of id held = length (keep (λ r. r == id) held)

module _ {ℓ} {F : Type ℓ} (float : Float F) where
  -- max(1, r.CPUCores), cut to the capacity.
  unfoldable pub scheduling_cpu_cores : Resource F → ℕ
  scheduling_cpu_cores r =
      let count = max 1 (pos_part r.cpu_cores) in
      if float.lt (float.of_int (pos 0)) r.cpu_capacity
        && float.lt r.cpu_capacity (float.of_int (pos count))
      then max 1 (pos_part (float.floor r.cpu_capacity))
      else count

  unfoldable pub is_restricted : Resource F → Bool
  is_restricted r =
      float.lt (float.of_int (pos 0)) r.cpu_capacity
      && (r.is_cloud_vm || float.lt r.cpu_capacity (float.of_int r.cpu_cores))

  abbrev zero_assignment : Assignment F
  zero_assignment = record {
    placed = record {
      activity_id = "";
      resource_id = "";
      core_id = "";
      slot_id = "";
      order_on_resource = pos 0;
    };
    predicted_start_at = float.of_int (pos 0);
    priority = pos 0;
    runtime_id = "";
  }

  abbrev zero_resource : Resource F
  zero_resource = record {
    id = "";
    is_batch = false;
    is_cloud_vm = false;
    cpu_cores = pos 0;
    cpu_capacity = float.of_int (pos 0);
  }

  unfoldable pub assignment_of : List (String × Assignment F) → String → Assignment F
  assignment_of m id = elim (lookup id m) [ none ↦ zero_assignment | some a ↦ a ]

  unfoldable pub resource_named : List (String × Resource F) → String → Resource F
  resource_named m id = elim (lookup id m) [ none ↦ zero_resource | some r ↦ r ]

  -- The comparison of plannedReadyActivities.
  unfoldable pub starts_before : List (String × Assignment F) → String → String → Bool
  starts_before m x y =
      let a = assignment_of m x in
      let b = assignment_of m y in
      if not (float.eq a.predicted_start_at b.predicted_start_at)
      then float.lt a.predicted_start_at b.predicted_start_at
      else if ltb_ℤ a.priority b.priority || ltb_ℤ b.priority a.priority
      then ltb_ℤ b.priority a.priority
      else if ltb_ℤ a.placed.order_on_resource b.placed.order_on_resource
          || ltb_ℤ b.placed.order_on_resource a.placed.order_on_resource
      then ltb_ℤ a.placed.order_on_resource b.placed.order_on_resource
      else str_lt x y

  unfoldable pub planned_ready_activities :
      List (String × Assignment F) → List String → List String → List String
  unfolding sort_stable
  planned_ready_activities m pending ids =
      keep (λ id. not (contains pending id)) (sort_stable (starts_before m) ids)

  -- The resources of the tasks that hold a lane, each as often as it is held. The task of a key is
  -- the one that is found under it.
  unfoldable pub occupied_lanes :
      List (String × Assignment F)
      → List String
      → List (String × TaskExecution)
      → List (String × TaskExecution)
      → List String
  occupied_lanes m pending tasks [] = []
  occupied_lanes m pending tasks ((id, _) ∷ rest) =
      let later = occupied_lanes m pending tasks rest in
      if occupies (lookup id tasks) || contains pending id
      then (assignment_of m id).placed.resource_id ∷ later
      else later

  unfoldable pub is_full : List (String × Resource F) → List String → String → Bool
  is_full resources held id =
      is_restricted (resource_named resources id)
      && leb (scheduling_cpu_cores (resource_named resources id)) (lanes_of id held)

  -- An admission to a restricted resource takes a lane.
  unfoldable pub admit :
      List (String × Assignment F)
      → List (String × Resource F)
      → List String
      → List String
      → List String
  admit m resources held [] = []
  admit m resources held (id ∷ ids) =
      let r = (assignment_of m id).placed.resource_id in
      let full = is_full resources held r in
      let rest =
        admit m resources
          (if is_restricted (resource_named resources r) && not full then r ∷ held else held) ids in
      if full then rest else id ∷ rest

  unfoldable pub restricted_capacity_ready :
      List (String × Assignment F)
      → List (String × Resource F)
      → List (String × TaskExecution)
      → List String
      → List String
      → List String
  restricted_capacity_ready m resources tasks pending ids =
      admit m resources (occupied_lanes m pending tasks tasks) ids
