-- ===== src/Supervision/Chosen.antt =====
-- Proofs about the activities that a turn of the loop chooses, from the ready ones to the partition.
use akoflow.Prelude.{
  String, Bool, true, false, not, List, [], ◌∷◌, ◌≡◌, refl, contains, keep, string_eq, ◌&&◌,
  if◌then◌else◌, All, All-keep, Float,
}
use akoflow.Workspace.Recovery.{RuntimeAllocation}
use akoflow.Supervision.{
  ExecutionRequest, Assignment, Resource, Progress, index_assignments, index_resources,
  predecessors_of,
}
use akoflow.Supervision.Runtimes.{needs_allocation, partition_ready_allocations}
use akoflow.Supervision.Admission.{
  insert_sorted, sort_stable, is_ready, ready_activities, starts_before, planned_ready_activities,
  is_full, is_restricted, resource_named, assignment_of, admit, restricted_capacity_ready, str_lt,
}
use akoflow.Supervision.Loop.{choose, activities}

module _ {ℓ κ} {A : Type ℓ} (P : A → Type κ) (before : A → A → Bool) where
  All-insert_sorted : (a : A) (as' : List A) → P a → All P as' → All P (insert_sorted before a as')
  unfolding insert_sorted
  All-insert_sorted a [] p h = (p, tt)
  All-insert_sorted a (b ∷ bs) p h =
      elim (before b a) as (λ c. All P (if c then b ∷ insert_sorted before a bs else a ∷ b ∷ bs)) [
        | true ↦ (h.0, All-insert_sorted a bs p h.1)
        | false ↦ (p, h)
      ]

  All-sort_stable : (as' : List A) → All P as' → All P (sort_stable before as')
  unfolding sort_stable
  All-sort_stable [] h = tt
  All-sort_stable (a ∷ rest) h =
      All-insert_sorted a (sort_stable before rest) h.0 (All-sort_stable rest h.1)

All-keep_self {ℓ} : {A : Type ℓ} (p : A → Bool) (as' : List A) → All (λ a. p a ≡ true) (keep p as')
All-keep_self p [] = tt
All-keep_self p (a ∷ rest) =
    elim (p a)
        as (λ b. p a ≡ b → All (λ x. p x ≡ true) (if b then a ∷ keep p rest else keep p rest)) [
          | true ↦ λ e. (e, All-keep_self p rest)
          | false ↦ λ e. All-keep_self p rest
        ]
      refl

All-ready_activities :
    (ids : List String) (before : String → List String) (s : Progress)
    → All (λ id. is_ready before s id ≡ true) (ready_activities ids before s)
unfolding ready_activities
All-ready_activities ids before s =
    All-sort_stable (λ id. is_ready before s id ≡ true) str_lt (keep (is_ready before s) ids)
      (All-keep_self (is_ready before s) ids)

module _ {ℓ κ} {F : Type ℓ} (float : Float F) (P : String → Type κ) where
  All-admit :
      (m : List (String × Assignment F)) (rs : List (String × Resource F)) (held ids : List String)
      → All P ids
      → All P (admit float m rs held ids)
  unfolding admit
  All-admit m rs held [] h = tt
  All-admit m rs held (id ∷ ids) h =
      let r = (assignment_of float m id).placed.resource_id in
      let full = is_full float rs held r in
      let held' : List String =
        if is_restricted float (resource_named float rs r) && not full then r ∷ held else held in
      let rest = admit float m rs held' ids in
      let h' : All P rest = All-admit m rs held' ids h.1 in
      elim full as (λ b. All P (if b then rest else id ∷ rest)) [ true ↦ h' | false ↦ (h.0, h') ]

  All-partition :
      (request : ExecutionRequest F) (ids : List String) (ready : List (String × RuntimeAllocation))
      → All P ids
      → All P (partition_ready_allocations request ids ready).0
        × All P (partition_ready_allocations request ids ready).1
  unfolding partition_ready_allocations
  All-partition request [] ready h = (tt, tt)
  All-partition request (id ∷ ids) ready h =
      let rest = partition_ready_allocations request ids ready in
      let (x, y) = All-partition request ids ready h.1 in
      elim (needs_allocation request ready id)
        as (λ b.
          (let o : List String × List String =
              if b then (id ∷ rest.0, rest.1) else (rest.0, id ∷ rest.1) in
            All P o.0 × All P o.1)) [ true ↦ ((h.0, x), y) | false ↦ (x, (h.0, y)) ]

  All-choose :
      (request : ExecutionRequest F) (s : Progress)
      → All P (ready_activities (activities float request) (predecessors_of request) s)
      → All P (choose float request s).0 × All P (choose float request s).1
  unfolding choose restricted_capacity_ready planned_ready_activities
  All-choose request s h =
      let m = index_assignments request.assignments [] in
      All-partition request _ s.ready_allocations (
        All-admit m (index_resources request.resources []) _ _ (
          All-keep P (λ id. not (contains s.pending_allocations id)) _
            (All-sort_stable P (starts_before float m) _ h)))

-- The candidates and the activities to start at once are ready.
pub choose-All {ℓ} :
    {F : Type ℓ} (float : Float F) (request : ExecutionRequest F) (s : Progress)
    → All (λ id. is_ready (predecessors_of request) s id ≡ true) (choose float request s).0
      × All (λ id. is_ready (predecessors_of request) s id ≡ true) (choose float request s).1
choose-All float request s =
    All-choose float (λ id. is_ready (predecessors_of request) s id ≡ true) request s
      (All-ready_activities (activities float request) (predecessors_of request) s)
