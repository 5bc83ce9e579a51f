-- ===== src/Precedence/Order.antt =====
-- A plan that passes the check has an order of its activities that follows both the dependencies and
-- the lanes: the order in which the visits end.
use akoflow.Prelude.{
  ℕ, zero, suc, String, Bool, true, false, List, [], ◌∷◌, Option, none, some, ◌≡◌, refl, sym, arith,
  string_eq, str_iff, if◌then◌else◌, Result, ok, err, ◌>>=◌, contains, lookup, length, All,
}
use mathlib.Core.Path.{subst}
use akoflow.Precedence.{
  WorkflowVersion, PlanAssignment, lane_predecessors, predecessors, PrecedenceError, cycle_at,
  unknown_predecessor, VisitState, each, close_activity, visit, error_of, assign_each,
  validate_planned_precedence,
}

-- The activities whose visit has ended, the last first.
unfoldable pub done_of : VisitState → List String
done_of [] = []
done_of ((id, suc (suc k)) ∷ s) = id ∷ done_of s
done_of (_ ∷ s) = done_of s

abbrev pub IsDone : VisitState → String → Type 0
IsDone s id = contains (done_of s) id ≡ true

-- Each activity of the list is followed by all of its predecessors.
abbrev pub Ordered : (String → List String) → List String → Type 0
Ordered before [] = Unit
Ordered before (id ∷ ids) = All (λ p. contains ids p ≡ true) (before id) × Ordered before ids

lookup-IsDone :
    (id : String) (s : VisitState) (k : ℕ) → lookup id s ≡ some (suc (suc k)) → IsDone s id
unfolding done_of
lookup-IsDone id [] k e = cc
lookup-IsDone id ((j, zero) ∷ s) k e = ground (arith, lookup-IsDone id s k)
lookup-IsDone id ((j, suc zero) ∷ s) k e = ground (arith, lookup-IsDone id s k)
lookup-IsDone id ((j, suc (suc i)) ∷ s) k e = ground (arith, lookup-IsDone id s k)

pub ok_of_bind {ℓ κ} :
    {A : Type ℓ} {B : Type κ} (m : Result PrecedenceError A) (f : A → Result PrecedenceError B)
    (b : B)
    → (m >>= f) ≡ ok b
    → (a : A) × (m ≡ ok a) × (f a ≡ ok b)
ok_of_bind (ok a) f b h = (a, refl, h)
ok_of_bind (err e) f b h = cc

ok_of_if :
    (b : Bool) (m : Result PrecedenceError VisitState) (e : PrecedenceError) (s : VisitState)
    → (if b then m else err e) ≡ ok s
    → (b ≡ true) × (m ≡ ok s)
ok_of_if true m e s h = (refl, h)
ok_of_if false m e s h = cc

module _ (activities : List String) (before : String → List String) where
  -- The ended visits are of activities, in order.
  abbrev Sound : List String → Type 0
  Sound ids = Ordered before ids × All (λ id. contains activities id ≡ true) ids

  record Reached (ids : List String) (s s' : VisitState) : Type 0 where
    pub ordered : Sound (done_of s) → Sound (done_of s')
    pub reached : All (IsDone s') ids
    pub grows : (p : String) → IsDone s p → IsDone s' p

  All-grows :
      (s s' : VisitState) (ids : List String)
      → ((p : String) → IsDone s p → IsDone s' p)
      → All (IsDone s) ids
      → All (IsDone s') ids
  All-grows s s' [] g h = tt
  All-grows s s' (id ∷ ids) g h = (g id h.0, All-grows s s' ids g h.1)

  each-Reached :
      (v : String → VisitState → Result PrecedenceError VisitState)
      → ((id : String) (s s' : VisitState) → v id s ≡ ok s' → Reached (id ∷ []) s s')
      → (ids : List String) (s s' : VisitState) → each v ids s ≡ ok s'
      → Reached ids s s'
  unfolding each
  each-Reached v h [] s s' e =
      let same : s ≡ s' = ground arith in
      rw (sym same) (record { ordered = λ o. o; reached = tt; grows = λ p d. d })
  each-Reached v h (id ∷ ids) s s' e =
      let (t, first, rest) = ok_of_bind (v id s) (each v ids) s' e in
      let a = h id s t first in
      let b = each-Reached v h ids t s' rest in
      record {
        ordered = λ o. b.ordered (a.ordered o);
        reached = (b.grows id a.reached.0, b.reached);
        grows = λ p d. b.grows p (a.grows p d);
      }

  closed-Reached :
      (id : String) (s t : VisitState)
      → contains activities id ≡ true
      → Reached (before id) ((id, 1) ∷ s) t
      → Reached (id ∷ []) s ((id, 2) ∷ t)
  unfolding done_of
  closed-Reached id s t k h = record {
    ordered = λ o. let (x, y) = h.ordered o in ((h.reached, x), (k, y));
    reached = (ground (arith, str_iff id id), tt);
    grows = λ p d. ground (arith, h.grows p d);
  }

  visit-Reached :
      (n : ℕ) (id : String) (s s' : VisitState)
      → visit activities before n id s ≡ ok s'
      → Reached (id ∷ []) s s'
  unfolding visit
  visit-Reached zero id s s' e = cc
  visit-Reached (suc n) id s s' e =
      let inner : Result PrecedenceError VisitState =
        each (visit activities before n) (before id) ((id, 1) ∷ s) >>= close_activity id in
      let new : (if contains activities id then inner else err (unknown_predecessor id)) ≡ ok s'
          → Reached (id ∷ []) s s' =
        λ f.
          let (k, ran) = ok_of_if (contains activities id) inner (unknown_predecessor id) s' f in
          let (t, first, last) =
            ok_of_bind (each (visit activities before n) (before id) ((id, 1) ∷ s))
              (close_activity id) s' ran in
          let same : (id, 2) ∷ t ≡ s' = ground arith in
          subst (λ u. Reached (id ∷ []) s u) same
            (closed-Reached id s t k (
              each-Reached (visit activities before n) (visit-Reached n) (before id) ((id, 1) ∷ s) t
                first)) in
      elim (lookup id s)
          as (λ (o : Option ℕ).
            lookup id s ≡ o
            → (let r : Result PrecedenceError VisitState = elim o [
              | some (suc zero) ↦ err (cycle_at id)
              | some (suc (suc k)) ↦ ok s
              | _ ↦ if contains activities id then inner else err (unknown_predecessor id)
            ] in
                r ≡ ok s')
            → Reached (id ∷ []) s s') [
              | none ↦ λ l f. new f
              | some zero ↦ λ l f. new f
              | some (suc zero) ↦ λ l f. cc
              | some (suc (suc k)) ↦ λ l f.
                  let same : s ≡ s' = ground arith in
                  subst (λ u. Reached (id ∷ []) s u) same
                    (record {
                      ordered = λ o. o;
                      reached = (lookup-IsDone id s k l, tt);
                      grows = λ p d. d;
                    })
            ]
        refl e

error_of-none :
    (r : Result PrecedenceError VisitState) → error_of r ≡ none → (s : VisitState) × (r ≡ ok s)
error_of-none (ok s) h = (s, refl)
error_of-none (err e) h = cc

-- If a plan passes the check, its activities have an order, listed from the last to the first, of
-- activities of the workflow, in which every activity stands, and in which each is followed by all of
-- its predecessors: those of the dependencies of the workflow and the one of its lane in the plan.
pub validate_planned_precedence-Ordered :
    (w : WorkflowVersion) (assignments : List PlanAssignment)
    → validate_planned_precedence w assignments ≡ none
    → (order : List String) × All (λ id. contains order id ≡ true) w.activities
      × Ordered (predecessors w (lane_predecessors assignments)) order
      × All (λ id. contains w.activities id ≡ true) order
unfolding validate_planned_precedence
validate_planned_precedence-Ordered w assignments e =
    let before = predecessors w (lane_predecessors assignments) in
    let v = visit w.activities before (suc (length w.activities)) in
    elim (assign_each w.activities assignments [])
        as (λ (o : Option PrecedenceError).
          (let r : Option PrecedenceError = elim o [
            | some x ↦ some x
            | none ↦ error_of (each v w.activities [])
          ] in
            r ≡ none)
          → (order : List String) × All (λ id. contains order id ≡ true) w.activities
            × Ordered before order
            × All (λ id. contains w.activities id ≡ true) order) [
              | some x ↦ λ f. cc
              | none ↦ λ f.
                  let (s, ran) = error_of-none (each v w.activities []) f in
                  let h =
                    each-Reached w.activities before v
                      (visit-Reached w.activities before (suc (length w.activities))) w.activities
                      [] s ran in
                  let (ordered, known) = h.ordered (unfold done_of in (tt, tt)) in
                  (done_of s, h.reached, ordered, known)
            ]
      e
