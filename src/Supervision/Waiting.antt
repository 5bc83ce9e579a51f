-- ===== src/Supervision/Waiting.antt =====
-- Proofs about what is chosen where nothing is in flight: sorting, admission and partition.
use akoflow.Prelude.{
  ◌≤◌, String, Bool, true, false, not, List, [], ◌∷◌, ◌≡◌, refl, ap, ◌∙◌, arith, lookup, contains,
  keep, string_eq, str_iff, ◌&&◌, Float,
}
use akoflow.Workspace.Recovery.{RuntimeAllocation}
use akoflow.Supervision.{
  ExecutionRequest, Assignment, Resource, Progress, TaskExecution, index_assignments,
  index_resources, predecessors_of,
}
use akoflow.Supervision.Runtimes.{partition_ready_allocations}
use akoflow.Supervision.Admission.{
  insert_sorted, sort_stable, all_completed, is_ready, ready_activities, starts_before,
  planned_ready_activities, scheduling_cpu_cores, is_full, resource_named, assignment_of, admit,
  occupies, occupied_lanes, restricted_capacity_ready,
}
use akoflow.Supervision.Loop.{is_empty, admitted, choose, activities}
use akoflow.Supervision.Consistent.{Consistent}

module _ (before : String → String → Bool) where
  is_empty-insert_sorted :
      (a : String) (as' : List String) → is_empty (insert_sorted before a as') ≡ false
  unfolding insert_sorted
  is_empty-insert_sorted a [] = refl
  is_empty-insert_sorted a (b ∷ bs) = ground arith

  pub is_empty-sort_stable : (as' : List String) → is_empty (sort_stable before as') ≡ is_empty as'
  unfolding sort_stable
  is_empty-sort_stable [] = refl
  is_empty-sort_stable (a ∷ rest) = is_empty-insert_sorted a (sort_stable before rest)

is_empty-keep_all :
    (p : String → Bool) (ids : List String)
    → ((id : String) → p id ≡ true)
    → is_empty (keep p ids) ≡ is_empty ids
is_empty-keep_all p [] h = refl
is_empty-keep_all p (id ∷ ids) h = ground (arith, h id)

pub is_empty-keep_one :
    (p : String → Bool) (ids : List String) (j : String)
    → contains ids j ≡ true
    → p j ≡ true
    → is_empty (keep p ids) ≡ false
is_empty-keep_one p [] j h k = cc
is_empty-keep_one p (id ∷ ids) j h k = ground (arith, is_empty-keep_one p ids j, str_iff j id)

-- Nothing is in flight.
pub record Idle (s : Progress) : Type 0 where
  pub no_start : s.pending_starts ≡ []
  pub no_run : s.running ≡ []
  pub no_allocation : s.pending_allocations ≡ []

module _ {ℓ} {F : Type ℓ} (float : Float F) where
  -- A resource always has room for one.
  one_core : (r : Resource F) → 1 ≤ scheduling_cpu_cores float r
  unfolding scheduling_cpu_cores
  one_core r = ground arith

  is_full-none : (rs : List (String × Resource F)) (id : String) → is_full float rs [] id ≡ false
  unfolding is_full
  is_full-none rs id = ground (arith, one_core (resource_named float rs id))

  is_empty-admit :
      (m : List (String × Assignment F)) (rs : List (String × Resource F)) (ids : List String)
      → is_empty (admit float m rs [] ids) ≡ is_empty ids
  unfolding admit
  is_empty-admit m rs [] = refl
  is_empty-admit m rs (id ∷ ids) =
      rw (is_full-none rs (assignment_of float m id).placed.resource_id) refl

  occupied_lanes-none :
      (m : List (String × Assignment F)) (tasks entries : List (String × TaskExecution))
      → ((id : String) → occupies (lookup id tasks) ≡ false)
      → occupied_lanes float m [] tasks entries ≡ []
  unfolding occupied_lanes
  occupied_lanes-none m tasks [] h = refl
  occupied_lanes-none m tasks ((id, t) ∷ rest) h =
      ground (arith, h id, occupied_lanes-none m tasks rest h)

  is_empty-partition :
      (request : ExecutionRequest F) (ids : List String) (now : List (String × RuntimeAllocation))
      → (is_empty (partition_ready_allocations request ids now).0
          && is_empty (partition_ready_allocations request ids now).1)
        ≡ is_empty ids
  unfolding partition_ready_allocations
  is_empty-partition request [] now = refl
  is_empty-partition request (id ∷ ids) now = ground (arith, is_empty-partition request ids now)

  occupies-Idle :
      (s : Progress) → Consistent s → Idle s → (id : String) → occupies (lookup id s.tasks) ≡ false
  occupies-Idle s h i id = ground (arith, h.starts id, h.runs id, i.no_start, i.no_run)

  -- In an idle state something is chosen wherever something is ready.
  pub is_empty-choose :
      (request : ExecutionRequest F) (s : Progress)
      → Consistent s
      → Idle s
      → (is_empty (choose float request s).0 && is_empty (choose float request s).1)
        ≡ is_empty (ready_activities (activities float request) (predecessors_of request) s)
  unfolding choose restricted_capacity_ready planned_ready_activities
  is_empty-choose request s h i =
      let m = index_assignments request.assignments [] in
      let rs = index_resources request.resources [] in
      let ids = ready_activities (activities float request) (predecessors_of request) s in
      let lanes = occupied_lanes float m [] s.tasks s.tasks in
      let free : lanes ≡ [] = occupied_lanes-none m s.tasks s.tasks (occupies-Idle s h i) in
      let sorted = sort_stable (starts_before float m) ids in
      let kept = keep (λ id. not (contains [] id)) sorted in
      let admits : is_empty (admit float m rs lanes kept) ≡ is_empty ids =
        ap (λ held. is_empty (admit float m rs held kept)) free
        ∙ is_empty-admit m rs kept
        ∙ is_empty-keep_all (λ id. not (contains [] id)) sorted (λ id. refl)
        ∙ is_empty-sort_stable (starts_before float m) ids in
      let same : is_empty (admitted float request s ids) ≡ is_empty ids =
        ap
          (λ held. is_empty (
            admit float m rs (occupied_lanes float m held s.tasks s.tasks)
              (keep (λ id. not (contains held id)) sorted)))
          i.no_allocation
        ∙ admits in
      is_empty-partition request (admitted float request s ids) s.ready_allocations ∙ same

pub is_ready_sound :
    (before : String → List String) (s : Progress) (id : String)
    → Consistent s
    → s.pending_starts ≡ []
    → s.running ≡ []
    → contains s.completed id ≡ false
    → all_completed s.completed (before id) ≡ true
    → is_ready before s id ≡ true
unfolding is_ready
is_ready_sound before s id h p r c a =
    ground (arith, h.starts id, h.runs id, h.ends id, h.sound id, p, r)
