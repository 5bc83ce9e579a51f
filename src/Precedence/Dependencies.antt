-- ===== src/Precedence/Dependencies.antt =====
-- The order of an accepted plan follows each dependency of the workflow.
use akoflow.Prelude.{
  String, Bool, true, false, List, [], ◌∷◌, ◌++◌, Option, none, some, ◌≡◌, inl, inr, arith, ◌==◌,
  string_eq, str_iff, beq_refl, if◌then◌else◌, contains, contains-append, lookup, All, Bool-cases,
}
use akoflow.Precedence.{
  WorkflowVersion, ActivityDependency, ActivityDataDependency, PlanAssignment, add_producer,
  data_producers, control_producers, workspace_producers, lane_predecessors, predecessors,
  validate_planned_precedence,
}
use akoflow.Precedence.Order.{Ordered, validate_planned_precedence-Ordered}

-- In the list, which has the last activity first, `p` stands somewhere after the first `id`.
unfoldable pub is_behind : String → String → List String → Bool
is_behind p id [] = false
is_behind p id (x ∷ xs) = let rest = is_behind p id xs in if x == id then contains xs p else rest

All-contains :
    (xs ys : List String) (p : String)
    → All (λ q. contains ys q ≡ true) xs
    → contains xs p ≡ true
    → contains ys p ≡ true
All-contains [] ys p h c = cc
All-contains (x ∷ xs) ys p h c = ground (arith, h.0, str_iff p x, All-contains xs ys p h.1)

Ordered-is_behind :
    (before : String → List String) (p id : String) (order : List String)
    → Ordered before order
    → contains order id ≡ true
    → contains (before id) p ≡ true
    → is_behind p id order ≡ true
unfolding is_behind
Ordered-is_behind before p id [] o c m = cc
Ordered-is_behind before p id (x ∷ xs) o c m = elim (Bool-cases (x == id)) [
  | inl e ↦
      let same : x ≡ id = ground (arith, str_iff x id) in
      let inside : contains (before x) p ≡ true = rw same m in
      rw e (All-contains (before x) xs p o.0 inside)
  | inr e ↦
      rw e (Ordered-is_behind before p id xs o.1 (ground (arith, str_iff id x, str_iff x id)) m)
]

contains-add :
    (wanted : Bool) (id : String) (producers : List String) (p : String)
    → contains producers p ≡ true
    → contains (add_producer wanted id producers) p ≡ true
contains-add wanted id producers p c = ground (arith, contains-append producers (id ∷ []) p)

contains-added :
    (id : String) (producers : List String) → contains (add_producer true id producers) id ≡ true
contains-added id producers = ground (arith, contains-append producers (id ∷ []) id, beq_refl id)

control_producers-grow :
    (id : String) (ds : List ActivityDependency) (acc : List String) (p : String)
    → contains acc p ≡ true
    → contains (control_producers id ds acc) p ≡ true
unfolding control_producers
control_producers-grow id [] acc p c = c
control_producers-grow id (d ∷ ds) acc p c =
    control_producers-grow id ds _ p
      (contains-add (d.activity_id == id) d.depends_on_activity_id acc p c)

data_producers-grow :
    (id : String) (ds : List ActivityDataDependency) (acc : List String) (p : String)
    → contains acc p ≡ true
    → contains (data_producers id ds acc) p ≡ true
unfolding data_producers
data_producers-grow id [] acc p c = c
data_producers-grow id (d ∷ ds) acc p c =
    data_producers-grow id ds _ p
      (contains-add (d.consumer_activity_id == id) d.producer_activity_id acc p c)

All-imp {ℓ κ κ'} :
    {A : Type ℓ} (P : A → Type κ) (Q : A → Type κ')
    → ((a : A) → P a → Q a)
    → (xs : List A) → All P xs
    → All Q xs
All-imp P Q f [] h = tt
All-imp P Q f (x ∷ xs) h = (f x h.0, All-imp P Q f xs h.1)

All-both {ℓ κ κ'} :
    {A : Type ℓ} (P : A → Type κ) (Q : A → Type κ') (xs : List A)
    → All P xs
    → All Q xs
    → All (λ a. P a × Q a) xs
All-both P Q [] p q = tt
All-both P Q (x ∷ xs) p q = ((p.0, q.0), All-both P Q xs p.1 q.1)

abbrev InControl : List ActivityDependency → ActivityDependency → Type 0
InControl ds d =
    (acc : List String)
    → contains (control_producers d.activity_id ds acc) d.depends_on_activity_id ≡ true

All-InControl : (ds : List ActivityDependency) → All (InControl ds) ds
unfolding control_producers
All-InControl [] = tt
All-InControl (d ∷ ds) = (
  (λ acc. rw (beq_refl d.activity_id) (
      control_producers-grow d.activity_id ds _ d.depends_on_activity_id
        (contains-added d.depends_on_activity_id acc))),
  All-imp (InControl ds) (InControl (d ∷ ds)) (λ c h acc. h _) ds (All-InControl ds),
)

abbrev InData : List ActivityDataDependency → ActivityDataDependency → Type 0
InData ds d =
    (acc : List String)
    → contains (data_producers d.consumer_activity_id ds acc) d.producer_activity_id ≡ true

All-InData : (ds : List ActivityDataDependency) → All (InData ds) ds
unfolding data_producers
All-InData [] = tt
All-InData (d ∷ ds) = (
  (λ acc. rw (beq_refl d.consumer_activity_id) (
      data_producers-grow d.consumer_activity_id ds _ d.producer_activity_id
        (contains-added d.producer_activity_id acc))),
  All-imp (InData ds) (InData (d ∷ ds)) (λ c h acc. h _) ds (All-InData ds),
)

-- The predecessors include the workspace producers.
contains-predecessors :
    (w : WorkflowVersion) (previous : List (String × String)) (id p : String)
    → contains (workspace_producers w id) p ≡ true
    → contains (predecessors w previous id) p ≡ true
unfolding predecessors
contains-predecessors w previous id p c =
    elim (lookup id previous)
      as (λ (o : Option String).
        contains
          (elim o [ none ↦ workspace_producers w id | some q ↦ workspace_producers w id ++ q ∷ [] ])
          p
        ≡ true) [
          | none ↦ c
          | some q ↦ ground (arith, contains-append (workspace_producers w id) (q ∷ []) p)
        ]

-- If a plan passes the check, and only activities of the workflow have dependencies, the activities
-- have an order, listed from the last to the first, that contains them all and in which every
-- dependency and every data dependency of the workflow stands behind the activity that has it.
pub validate_planned_precedence-is_behind :
    (w : WorkflowVersion) (assignments : List PlanAssignment)
    → All (λ d. contains w.activities d.activity_id ≡ true) w.dependencies
    → All (λ d. contains w.activities d.consumer_activity_id ≡ true) w.data_dependencies
    → validate_planned_precedence w assignments ≡ none
    → (order : List String) × All (λ id. contains order id ≡ true) w.activities
      × All (λ d. is_behind d.depends_on_activity_id d.activity_id order ≡ true) w.dependencies
      × All
          (λ d. is_behind d.producer_activity_id d.consumer_activity_id order ≡ true)
          w.data_dependencies
unfolding workspace_producers
validate_planned_precedence-is_behind w assignments known known_data e =
    let (order, every, follows, _) = validate_planned_precedence-Ordered w assignments e in
    let before = predecessors w (lane_predecessors assignments) in
    let behind : (id p : String)
        → contains w.activities id ≡ true
        → contains (workspace_producers w id) p ≡ true
        → is_behind p id order ≡ true =
      λ id p k c.
        Ordered-is_behind before p id order follows (All-contains w.activities order id every k)
          (contains-predecessors w (lane_predecessors assignments) id p c) in
    let control = All-both _ _ w.dependencies known (All-InControl w.dependencies) in
    let data' = All-both _ _ w.data_dependencies known_data (All-InData w.data_dependencies) in
    (
      order,
      every,
      All-imp _ _ (λ d h. behind d.activity_id d.depends_on_activity_id h.0 (h.1 _)) w.dependencies
          control,
      All-imp _ _
          (λ d h. behind d.consumer_activity_id d.producer_activity_id h.0 (
            control_producers-grow d.consumer_activity_id w.dependencies _ d.producer_activity_id
              (h.1 [])))
          w.data_dependencies data',
    )
