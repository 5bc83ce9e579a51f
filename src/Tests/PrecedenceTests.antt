-- ===== src/Tests/PrecedenceTests.antt =====
-- The check of a plan's lanes on a workflow of three activities, of which the last needs the others.
use akoflow.Prelude.{
  String, List, [], ◌∷◌, none, some, ◌≡◌, ◌≢◌, refl, true, All, contains, string_eq, pos,
}
use akoflow.Precedence.{
  WorkflowVersion, PlanAssignment, cycle_at, not_exactly_once, out_of_fuel, data_producers,
  control_producers, workspace_producers, add_to_lane, by_lane, insert_in_lane, sort_lane,
  previous_in_lane, all_previous, lane_predecessors, assign_each, predecessors, each, visit,
  validate_planned_precedence,
}
use akoflow.Precedence.Order.{Ordered, validate_planned_precedence-Ordered}
use akoflow.Precedence.Dependencies.{is_behind, validate_planned_precedence-is_behind}
use akoflow.Precedence.Fuel.{validate_planned_precedence-fuel}

abbrev joined : WorkflowVersion
joined = record {
  activities = "c" ∷ "a" ∷ "b" ∷ [];
  dependencies = record { activity_id = "c"; depends_on_activity_id = "a" } ∷ [];
  data_dependencies = record { producer_activity_id = "b"; consumer_activity_id = "c" } ∷ [];
}

abbrev first_on : String → PlanAssignment
first_on id = record {
  activity_id = id;
  resource_id = "host";
  core_id = "";
  slot_id = "";
  order_on_resource = pos 0;
}

abbrev second_on : String → PlanAssignment
second_on id = record (first_on id) { order_on_resource = pos 1 }

-- `b` runs before `a` in one lane.
abbrev lanes : List PlanAssignment
lanes = second_on "a" ∷ first_on "b" ∷ []

accepted : validate_planned_precedence joined lanes ≡ none
unfolding validate_planned_precedence assign_each each visit predecessors lane_predecessors
    all_previous previous_in_lane sort_lane insert_in_lane by_lane add_to_lane workspace_producers
    data_producers control_producers
accepted = refl

-- The lane wants the last activity first.
rejected :
    validate_planned_precedence joined (first_on "c" ∷ second_on "a" ∷ []) ≡ some (cycle_at "c")
unfolding validate_planned_precedence assign_each each visit predecessors lane_predecessors
    all_previous previous_in_lane sort_lane insert_in_lane by_lane add_to_lane workspace_producers
    data_producers control_producers
rejected = refl

assigned_twice :
    validate_planned_precedence joined (first_on "a" ∷ second_on "a" ∷ [])
    ≡ some (not_exactly_once "a")
unfolding validate_planned_precedence assign_each
assigned_twice = refl

validate_planned_precedence-Ordered_example :
    (order : List String) × All (λ id. contains order id ≡ true) ("c" ∷ "a" ∷ "b" ∷ [])
    × Ordered (predecessors joined (lane_predecessors lanes)) order
    × All (λ id. contains joined.activities id ≡ true) order
validate_planned_precedence-Ordered_example =
    validate_planned_precedence-Ordered joined lanes accepted

validate_planned_precedence-fuel_example :
    validate_planned_precedence joined lanes ≢ some out_of_fuel
validate_planned_precedence-fuel_example = validate_planned_precedence-fuel joined lanes

validate_planned_precedence-is_behind_example :
    (order : List String) × All (λ id. contains order id ≡ true) joined.activities
    × All (λ d. is_behind d.depends_on_activity_id d.activity_id order ≡ true) joined.dependencies
    × All
        (λ d. is_behind d.producer_activity_id d.consumer_activity_id order ≡ true)
        joined.data_dependencies
validate_planned_precedence-is_behind_example =
    validate_planned_precedence-is_behind joined lanes (refl, tt) (refl, tt) accepted
