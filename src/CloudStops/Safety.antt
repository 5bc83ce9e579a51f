-- ===== src/CloudStops/Safety.antt =====
-- An instance is stopped early only when its work is finished and its outputs have left it.
use akoflow.Prelude.{
  String, Bool, true, false, not, List, [], ◌∷◌, map, ◌≡◌, refl, ◌⊎◌, inl, inr, arith, ◌==◌,
  string_eq, str_iff, ◌||◌, if◌then◌else◌, contains, lookup, All, All-append, Bool-cases,
}
use akoflow.Precedence.{PlanAssignment, workspace_producers}
use akoflow.Workspace.Recovery.{RuntimeAllocation}
use akoflow.CloudStops.{
  TaskExecutionStatus, ExecutionRequest, resource_of, resource_at, resource_capacity_target,
  is_stop_resource, Allocations, put_allocation, target_of, ids_of, assignments, resources,
  by_instance, work_done, cloud_work_finished, has_started, producers_transferred,
  outputs_transferred, ready_of, ready_cloud_stops,
}

abbrev OwnAllocations : String × Allocations → Type 0
OwnAllocations x = All (λ a. a.1.cloud_instance_id ≡ x.0) x.1

put_allocation-OwnAllocations :
    (a : String × RuntimeAllocation) (m : List (String × Allocations))
    → All OwnAllocations m
    → All OwnAllocations (put_allocation a.1.cloud_instance_id a m)
unfolding put_allocation
put_allocation-OwnAllocations a [] h = ((refl, tt), tt)
put_allocation-OwnAllocations a ((i, as') ∷ m) h = elim (Bool-cases (i == a.1.cloud_instance_id)) [
  | inl e ↦ rw e (
    All-append (λ b. b.1.cloud_instance_id ≡ i) as' (a ∷ []) h.0
        (ground (arith, str_iff i a.1.cloud_instance_id), tt),
    h.1,
  )
  | inr e ↦ rw e (h.0, put_allocation-OwnAllocations a m h.1)
]

module _ (request : ExecutionRequest) where
  All-by_instance :
      (as' : Allocations) (m : List (String × Allocations))
      → All OwnAllocations m
      → All OwnAllocations (by_instance request as' m)
  unfolding by_instance
  All-by_instance [] m h = h
  All-by_instance ((id, a) ∷ rest) m h =
      elim (a.cloud_instance_id == ""
          || not (
              is_stop_resource request.plan (resources request)
                (resource_of (assignments request) id)))
        as (λ b. All OwnAllocations (
          by_instance request rest
            (if b then m else put_allocation a.cloud_instance_id (id, a) m))) [
              | true ↦ All-by_instance rest m h
              | false ↦ All-by_instance rest _ (put_allocation-OwnAllocations (id, a) m h)
            ]

  abbrev Finished : List String → List String → PlanAssignment → Type 0
  Finished targets done a =
      (contains targets (resource_capacity_target (resource_at (resources request) a.resource_id))
        ≡ false)
      ⊎ (contains done a.activity_id ≡ true)

  work_done-Finished :
      (targets done : List String) (as' : List PlanAssignment)
      → work_done request targets done as' ≡ true
      → All (Finished targets done) as'
  unfolding work_done
  work_done-Finished targets done [] h = tt
  work_done-Finished targets done (a ∷ rest) h =
      (ground arith, work_done-Finished targets done rest (ground arith))

  module _ (tasks : List (String × TaskExecutionStatus)) (gate : Bool) where
    -- The consumer needs nothing of the producer's instance any more.
    abbrev Transferred : Allocations → String → String → Type 0
    Transferred allocations c p =
        (contains (ids_of allocations) p ≡ false)
        ⊎ ((resource_of (assignments request) p ≡ resource_of (assignments request) c)
            ⊎ ((gate ≡ true) × (has_started (lookup c tasks) ≡ true)))

    producers_transferred-Transferred :
        (allocations : Allocations) (c : String) (ps : List String)
        → producers_transferred request allocations tasks gate c ps ≡ true
        → All (Transferred allocations c) ps
    unfolding producers_transferred
    producers_transferred-Transferred allocations c [] h = tt
    producers_transferred-Transferred allocations c (p ∷ ps) h = (
      ground (
        arith,
        str_iff (resource_of (assignments request) p) (resource_of (assignments request) c),
      ),
      producers_transferred-Transferred allocations c ps (ground arith),
    )

    abbrev HandedOver : Allocations → String → Type 0
    HandedOver allocations c =
        All (Transferred allocations c) (workspace_producers request.workflow c)

    outputs_transferred-HandedOver :
        (allocations : Allocations) (cs : List String)
        → outputs_transferred request allocations tasks gate cs ≡ true
        → All (HandedOver allocations) cs
    unfolding outputs_transferred
    outputs_transferred-HandedOver allocations [] h = tt
    outputs_transferred-HandedOver allocations (c ∷ cs) h = (
      producers_transferred-Transferred allocations c (workspace_producers request.workflow c)
          (ground arith),
      outputs_transferred-HandedOver allocations cs (ground arith),
    )

    -- What makes it safe to stop an instance, given the activities that are done and the instances
    -- that are stopping.
    pub record Stoppable (done stopping : List String) (x : String × Allocations) : Type 0 where
      pub idle : contains stopping x.0 ≡ false
      pub own : OwnAllocations x
      pub finished :
          All
            (Finished (map (target_of (resources request) (assignments request)) (ids_of x.1)) done)
            request.plan.assignments
      pub handed_over : All (HandedOver x.1) request.workflow.activities

    ready_of-Stoppable :
        (done stopping : List String) (m : List (String × Allocations))
        → All OwnAllocations m
        → All (Stoppable done stopping) (ready_of request done tasks stopping gate m)
    unfolding ready_of cloud_work_finished
    ready_of-Stoppable done stopping [] h = tt
    ready_of-Stoppable done stopping ((i, as') ∷ m) h =
        elim (Bool-cases (contains stopping i || not (cloud_work_finished request as' done))) [
          | inl e ↦ rw e (ready_of-Stoppable done stopping m h.1)
          | inr e ↦
              elim (Bool-cases
                (outputs_transferred request as' tasks gate request.workflow.activities)) [
                  | inl t ↦
                      rw (e, t)
                        (
                          record {
                            idle = ground arith;
                            own = h.0;
                            finished =
                                work_done-Finished _ done request.plan.assignments (ground arith);
                            handed_over =
                                outputs_transferred-HandedOver as' request.workflow.activities t;
                          },
                          ready_of-Stoppable done stopping m h.1,
                        )
                  | inr t ↦ rw (e, t) (ready_of-Stoppable done stopping m h.1)
                ]
        ]

    -- Every instance that is found ready to stop is not stopping yet and is listed with allocations
    -- of its own; every activity of the plan on the capacity that it provides has completed; and
    -- every activity that consumes the data of one of its activities lies on the same resource, or
    -- transfers are gated and the consumer runs or has completed.
    pub ready_cloud_stops-Stoppable :
        (done stopping : List String)
        → All (Stoppable done stopping) (ready_cloud_stops request done tasks stopping gate)
    unfolding ready_cloud_stops
    ready_cloud_stops-Stoppable done stopping =
        ready_of-Stoppable done stopping (by_instance request request.runtime_allocations [])
          (All-by_instance request.runtime_allocations [] tt)
