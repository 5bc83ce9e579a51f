-- ===== src/Precedence.antt =====
-- The check that a plan's lanes agree with the dependencies of its workflow:
-- internal/controlplane/execution/planned_precedence.go, with LanePredecessors of
-- internal/domain/planning/lanes.go and workspaceProducers, workspaceConsumers of the supervisor. The
-- fields that the check reads are modelled.
pub mod Order
pub mod Fuel
pub mod Dependencies
use akoflow.Prelude.{
  ℕ, zero, suc, String, Bool, true, false, not, List, [], ◌∷◌, ◌++◌, map, Option, none, some, ◌==◌,
  string_eq, nat_eq, ◌&&◌, ◌||◌, if◌then◌else◌, Result, ok, err, ◌>>=◌, contains, lookup, length, ℤ,
  ltb_ℤ,
}

pub record ActivityDependency : Type 0 where
  pub activity_id : String
  pub depends_on_activity_id : String

pub record ActivityDataDependency : Type 0 where
  pub producer_activity_id : String
  pub consumer_activity_id : String

-- `activities` are the ids.
pub record WorkflowVersion : Type 0 where
  pub activities : List String
  pub dependencies : List ActivityDependency
  pub data_dependencies : List ActivityDataDependency

pub record PlanAssignment : Type 0 where
  pub activity_id : String
  pub resource_id : String
  pub core_id : String
  pub slot_id : String
  pub order_on_resource : ℤ

-- The map `seen` holds the ids in the list, so a producer is added where it is not there yet.
abbrev pub add_producer : Bool → String → List String → List String
add_producer wanted id producers =
    if wanted && not (contains producers id) then producers ++ id ∷ [] else producers

unfoldable pub data_producers : String → List ActivityDataDependency → List String → List String
data_producers activity_id [] producers = producers
data_producers activity_id (d ∷ ds) producers =
    data_producers activity_id ds
      (add_producer (d.consumer_activity_id == activity_id) d.producer_activity_id producers)

unfoldable pub control_producers : String → List ActivityDependency → List String → List String
control_producers activity_id [] producers = producers
control_producers activity_id (d ∷ ds) producers =
    control_producers activity_id ds
      (add_producer (d.activity_id == activity_id) d.depends_on_activity_id producers)

unfoldable pub workspace_producers : WorkflowVersion → String → List String
workspace_producers w activity_id =
    control_producers activity_id w.dependencies (data_producers activity_id w.data_dependencies [])

-- The key of a lane joins the three ids by a NUL, which no id holds.
abbrev same_lane : PlanAssignment → PlanAssignment → Bool
same_lane a b = a.resource_id == b.resource_id && (a.core_id == b.core_id && a.slot_id == b.slot_id)

-- byLane[key] = append(byLane[key], assignment)
unfoldable pub add_to_lane :
    PlanAssignment → List (List PlanAssignment) → List (List PlanAssignment)
add_to_lane a [] = (a ∷ []) ∷ []
add_to_lane a ([] ∷ lanes) = [] ∷ add_to_lane a lanes
add_to_lane a ((b ∷ bs) ∷ lanes) =
    let rest = add_to_lane a lanes in
    if same_lane a b then ((b ∷ bs) ++ a ∷ []) ∷ lanes else (b ∷ bs) ∷ rest

unfoldable pub by_lane :
    List PlanAssignment → List (List PlanAssignment) → List (List PlanAssignment)
by_lane [] lanes = lanes
by_lane (a ∷ rest) lanes = by_lane rest (add_to_lane a lanes)

unfoldable pub insert_in_lane : PlanAssignment → List PlanAssignment → List PlanAssignment
insert_in_lane a [] = a ∷ []
insert_in_lane a (b ∷ bs) =
    let rest = insert_in_lane a bs in
    if ltb_ℤ b.order_on_resource a.order_on_resource then b ∷ rest else a ∷ b ∷ bs

-- sort.SliceStable by the order on the resource.
unfoldable pub sort_lane : List PlanAssignment → List PlanAssignment
unfolding insert_in_lane
sort_lane [] = []
sort_lane (a ∷ rest) = insert_in_lane a (sort_lane rest)

-- The writes of the inner loop, the last one first.
unfoldable pub previous_in_lane :
    PlanAssignment → List PlanAssignment → List (String × String) → List (String × String)
previous_in_lane a [] m = m
previous_in_lane a (b ∷ bs) m = previous_in_lane b bs ((b.activity_id, a.activity_id) ∷ m)

abbrev previous_from : List PlanAssignment → List (String × String) → List (String × String)
previous_from [] m = m
previous_from (a ∷ rest) m = previous_in_lane a rest m

unfoldable pub all_previous :
    List (List PlanAssignment) → List (String × String) → List (String × String)
all_previous [] m = m
all_previous (lane ∷ lanes) m = all_previous lanes (previous_from (sort_lane lane) m)

unfoldable pub lane_predecessors : List PlanAssignment → List (String × String)
lane_predecessors assignments = all_previous (by_lane assignments []) []

pub data PrecedenceError : Type 0 where
  not_exactly_once cycle_at unknown_predecessor : String → PrecedenceError
  out_of_fuel : PrecedenceError

-- The loop over the assignments, with the set of those seen.
unfoldable pub assign_each :
    List String → List PlanAssignment → List String → Option PrecedenceError
assign_each activities [] assigned = none
assign_each activities (a ∷ rest) assigned =
    let later = assign_each activities rest (a.activity_id ∷ assigned) in
    if not (contains activities a.activity_id) || contains assigned a.activity_id
    then some (not_exactly_once a.activity_id)
    else later

-- What `visit` looks at: the activities, and the predecessors of each.
unfoldable pub predecessors : WorkflowVersion → List (String × String) → String → List String
predecessors w previous id =
    let producers = workspace_producers w id in
    elim (lookup id previous) [ none ↦ producers | some p ↦ producers ++ p ∷ [] ]

-- state[id]: 1 while an activity is visited, 2 when it is done; a later write stands in front.
abbrev pub VisitState : Type 0
VisitState = List (String × ℕ)

unfoldable pub each :
    (String → VisitState → Result PrecedenceError VisitState)
    → List String
    → VisitState
    → Result PrecedenceError VisitState
each visit [] s = ok s
each visit (id ∷ ids) s = visit id s >>= each visit ids

abbrev close_activity : String → VisitState → Result PrecedenceError VisitState
close_activity id s = ok ((id, 2) ∷ s)

module _ (activities : List String) (before : String → List String) where
  unfoldable pub visit : ℕ → String → VisitState → Result PrecedenceError VisitState
  unfolding each
  visit zero id s = err out_of_fuel
  visit (suc n) id s =
      let inner = each (visit n) (before id) ((id, 1) ∷ s) >>= close_activity id in
      elim (lookup id s) [
        | some (suc zero) ↦ err (cycle_at id)
        | some (suc (suc k)) ↦ ok s
        | _ ↦ if contains activities id then inner else err (unknown_predecessor id)
      ]

abbrev error_of {ℓ} : {A : Type ℓ} → Result PrecedenceError A → Option PrecedenceError
error_of (ok a) = none
error_of (err e) = some e

-- The keys of the map of activities are taken in the order of the workflow. The fuel exceeds the
-- number of activities, and no more are ever being visited at once.
unfoldable pub validate_planned_precedence :
    WorkflowVersion → List PlanAssignment → Option PrecedenceError
validate_planned_precedence w assignments = elim (assign_each w.activities assignments []) [
  | some e ↦ some e
  | none ↦ error_of (
      each
        (visit w.activities (predecessors w (lane_predecessors assignments))
          (suc (length w.activities)))
        w.activities [])
]
