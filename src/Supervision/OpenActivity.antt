-- ===== src/Supervision/OpenActivity.antt =====
-- Proofs about the activities of a plan, in the order that the check of its lanes finds, that wait for
-- nothing.
use akoflow.Prelude.{
  ◌≤◌, ◌<◌, String, true, false, List, [], ◌∷◌, none, ◌≡◌, refl, ◌∙◌, inl, inr, arith, remove,
  contains, contains-add, contains-remove, length, length-remove-le, string_eq, str_iff,
  if◌then◌else◌, Bool-cases, All,
}
use akoflow.Precedence.{
  PlanAssignment, WorkflowVersion, lane_predecessors, predecessors, validate_planned_precedence,
}
use akoflow.Precedence.Order.{Ordered, validate_planned_precedence-Ordered}
use akoflow.Supervision.{index_activities}
use akoflow.Supervision.Admission.{all_completed}

pub length-remove :
    (id : String) (ids : List String) → contains ids id ≡ true → length (remove id ids) < length ids
unfolding remove
length-remove id [] h = cc
length-remove id (x ∷ xs) h =
    ground (arith, length-remove id xs, length-remove-le id xs, str_iff id x, str_iff x id)

all_completed-contains :
    (done ps : List String) (j : String)
    → all_completed done ps ≡ true
    → contains ps j ≡ true
    → contains done j ≡ true
unfolding all_completed
all_completed-contains done [] j h k = cc
all_completed-contains done (p ∷ ps) j h k =
    ground (arith, all_completed-contains done ps j, str_iff j p)

all_completed-All :
    (done ps : List String) → All (λ p. contains done p ≡ true) ps → all_completed done ps ≡ true
unfolding all_completed
all_completed-All done [] h = refl
all_completed-All done (p ∷ ps) h = ground (arith, h.0, all_completed-All done ps h.1)

completed_through :
    (done mid ps : List String)
    → all_completed done mid ≡ true
    → All (λ p. contains mid p ≡ true) ps
    → all_completed done ps ≡ true
unfolding all_completed
completed_through done mid [] h a = refl
completed_through done mid (p ∷ ps) h a =
    ground (arith, all_completed-contains done mid p h a.0, completed_through done mid ps h a.1)

all_completed-remove :
    (id : String) (done ps : List String)
    → contains ps id ≡ false
    → all_completed done ps ≡ true
    → all_completed (remove id done) ps ≡ true
unfolding all_completed
all_completed-remove id done [] n h = refl
all_completed-remove id done (p ∷ ps) n h =
    ground (
      arith,
      contains-remove id done p,
      all_completed-remove id done ps,
      str_iff p id,
      str_iff id p,
    )

-- The ids of a set are no more than those of a set that contains them.
pub length-index_activities :
    (ids done : List String)
    → all_completed done (index_activities ids) ≡ true
    → length (index_activities ids) ≤ length done
unfolding index_activities all_completed
length-index_activities [] done h = ground arith
length-index_activities (id ∷ ids) done h = ground (
  arith,
  length-index_activities ids done,
  length-index_activities ids (remove id done),
  all_completed-remove id done (index_activities ids),
  length-remove id done,
)

contains-index_activities :
    (ids : List String) (j : String) → contains (index_activities ids) j ≡ contains ids j
unfolding index_activities
contains-index_activities [] j = refl
contains-index_activities (id ∷ ids) j =
    ground (arith, contains-index_activities ids j, contains-add id (index_activities ids) j)

index_activities-All :
    (ids order : List String)
    → All (λ id. contains order id ≡ true) ids
    → All (λ id. contains order id ≡ true) (index_activities ids)
unfolding index_activities
index_activities-All [] order h = tt
index_activities-All (id ∷ ids) order h =
    let rest = index_activities-All ids order h.1 in
    elim (contains (index_activities ids) id)
      as (λ b.
        All (λ j. contains order j ≡ true)
          (if b then index_activities ids else id ∷ index_activities ids)) [
            | true ↦ rest
            | false ↦ (h.0, rest)
          ]

-- An activity that is not completed, and whose predecessors all are.
abbrev pub OpenActivity : List String → (String → List String) → List String → Type 0
OpenActivity activities before done =
    (id : String) × (contains activities id ≡ true)
    × (contains done id ≡ false)
    × (all_completed done (before id) ≡ true)

open_of-Ordered :
    (activities : List String) (before : String → List String) (done order : List String)
    → Ordered before order
    → All (λ id. contains activities id ≡ true) order
    → all_completed done order ≡ false
    → OpenActivity activities before done
unfolding all_completed
open_of-Ordered activities before done [] o a h = cc
open_of-Ordered activities before done (id ∷ ids) o a h =
    elim (Bool-cases (all_completed done ids)) [
      | inl e ↦ (id, a.0, ground arith, completed_through done ids (before id) e o.0)
      | inr e ↦ open_of-Ordered activities before done ids o.1 a.1 e
    ]

pub open_of-validate_planned_precedence :
    (w : WorkflowVersion) (assignments : List PlanAssignment) (done : List String)
    → validate_planned_precedence w assignments ≡ none
    → length done < length (index_activities w.activities)
    → OpenActivity
        (index_activities w.activities)
        (predecessors w (lane_predecessors assignments))
        done
open_of-validate_planned_precedence w assignments done v few =
    let (order, every, o, known) = validate_planned_precedence-Ordered w assignments v in
    let open_still : all_completed done order ≡ false =
      elim (Bool-cases (all_completed done order)) [
        | inl e ↦ ground (
          arith,
          few,
          length-index_activities w.activities done (
              completed_through done order (index_activities w.activities) e
                (index_activities-All w.activities order every)),
        )
        | inr e ↦ e
      ] in
    let (id, k, n, c) =
      open_of-Ordered w.activities (predecessors w (lane_predecessors assignments)) done order o
        known open_still in
    (id, contains-index_activities w.activities id ∙ k, n, c)
