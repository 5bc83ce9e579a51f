-- ===== src/Precedence/Fuel.antt =====
-- The visits of the check nest no deeper than there are activities, so its fuel is enough.
use akoflow.Prelude.{
  ℕ, zero, suc, ◌≤◌, ◌<◌, String, Bool, true, false, List, [], ◌∷◌, Option, none, some, ◌≡◌, ◌≢◌,
  refl, ◌∙◌, inl, inr, arith, ◌==◌, string_eq, str_iff, if◌then◌else◌, Result, ok, err, ◌>>=◌,
  contains, lookup, length, keep, length-keep-le, Bool-cases,
}
use akoflow.Precedence.{
  WorkflowVersion, PlanAssignment, lane_predecessors, predecessors, PrecedenceError, cycle_at,
  unknown_predecessor, out_of_fuel, VisitState, each, close_activity, visit, error_of, assign_each,
  validate_planned_precedence,
}

abbrev untouched : VisitState → String → Bool
untouched s id = elim (lookup id s) [ none ↦ true | some zero ↦ true | some (suc k) ↦ false ]

-- How many activities no visit has reached.
abbrev left : List String → VisitState → ℕ
left activities s = length (keep (untouched s) activities)

left-mark-le :
    (activities : List String) (id : String) (k : ℕ) (s : VisitState)
    → left activities ((id, suc k) ∷ s) ≤ left activities s
left-mark-le [] id k s = omega arith
left-mark-le (a ∷ as') id k s = ground (arith, left-mark-le as' id k s)

left-mark-lt :
    (activities : List String) (id : String) (k : ℕ) (s : VisitState)
    → contains activities id ≡ true
    → untouched s id ≡ true
    → left activities ((id, suc k) ∷ s) < left activities s
left-mark-lt [] id k s c u = cc
left-mark-lt (a ∷ as') id k s c u = elim (Bool-cases (a == id)) [
  | inl e ↦
      let b : a ≡ id = ground (arith, str_iff a id) in
      let ua : untouched s a ≡ true = rw b u in ground (arith, left-mark-le as' id k s)
  | inr e ↦ ground (arith, left-mark-lt as' id k s, str_iff id a, str_iff a id)
]

abbrev is_fuel : PrecedenceError → Bool
is_fuel out_of_fuel = true
is_fuel _ = false

module _ (activities : List String) where
  -- The outcome is not for want of fuel, and no visit is undone.
  abbrev Fueled : VisitState → Result PrecedenceError VisitState → Type 0
  Fueled s (ok t) = left activities t ≤ left activities s
  Fueled s (err e) = is_fuel e ≡ false

  Fueled-weaken :
      (s t : VisitState) (r : Result PrecedenceError VisitState)
      → left activities t ≤ left activities s
      → Fueled t r
      → Fueled s r
  Fueled-weaken s t (ok u) le h = omega (arith, le, h)
  Fueled-weaken s t (err e) le h = h

  Fueled-bind :
      (s : VisitState) (m : Result PrecedenceError VisitState)
      (f : VisitState → Result PrecedenceError VisitState)
      → Fueled s m
      → ((t : VisitState) → left activities t ≤ left activities s → Fueled t (f t))
      → Fueled s (m >>= f)
  Fueled-bind s (ok t) f h g = Fueled-weaken s t (f t) h (g t h)
  Fueled-bind s (err e) f h g = h

  each-Fueled :
      (n : ℕ) (v : String → VisitState → Result PrecedenceError VisitState)
      → ((id : String) (s : VisitState) → left activities s < n → Fueled s (v id s))
      → (ids : List String) (s : VisitState) → left activities s < n
      → Fueled s (each v ids s)
  unfolding each
  each-Fueled n v h [] s lt = omega arith
  each-Fueled n v h (id ∷ ids) s lt =
      Fueled-bind s (v id s) (each v ids) (h id s lt)
        (λ t le. each-Fueled n v h ids t (omega (arith, lt, le)))

  module _ (before : String → List String) where
    visit_new :
        (n : ℕ) (id : String) (s : VisitState)
        → ((i : String) (t : VisitState)
            → left activities t < n
            → Fueled t (visit activities before n i t))
        → left activities s < suc n
        → untouched s id ≡ true
        → Fueled s (
            if contains activities id
            then each (visit activities before n) (before id) ((id, 1) ∷ s) >>= close_activity id
            else err (unknown_predecessor id))
    visit_new n id s h lt new = elim (Bool-cases (contains activities id)) [
      | inl e ↦ rw e (
          let s1 : VisitState = (id, 1) ∷ s in
          let lt1 = left-mark-lt activities id 0 s e new in
          Fueled-weaken s s1 _ (omega (arith, lt1)) (
            Fueled-bind s1 (each (visit activities before n) (before id) s1) (close_activity id)
              (each-Fueled n (visit activities before n) h (before id) s1 (omega (arith, lt, lt1)))
              (λ t le. left-mark-le activities id 1 t)))
      | inr e ↦ rw e refl
    ]

    visit-Fueled :
        (n : ℕ) (id : String) (s : VisitState)
        → left activities s < n
        → Fueled s (visit activities before n id s)
    unfolding visit
    visit-Fueled zero id s lt = ground arith
    visit-Fueled (suc n) id s lt =
        let deeper : Result PrecedenceError VisitState =
          if contains activities id
          then each (visit activities before n) (before id) ((id, 1) ∷ s) >>= close_activity id
          else err (unknown_predecessor id) in
        elim (lookup id s)
            as (λ (o : Option ℕ).
              lookup id s ≡ o
              → Fueled s (elim o [
                | some (suc zero) ↦ err (cycle_at id)
                | some (suc (suc k)) ↦ ok s
                | _ ↦ deeper
              ])) [
                | none ↦ λ l. visit_new n id s (visit-Fueled n) lt (rw (untouched, l) refl)
                | some zero ↦ λ l. visit_new n id s (visit-Fueled n) lt (rw (untouched, l) refl)
                | some (suc zero) ↦ λ l. refl
                | some (suc (suc k)) ↦ λ l. omega arith
              ]
          refl

assign_each-fuel :
    (activities : List String) (as' : List PlanAssignment) (assigned : List String)
    → assign_each activities as' assigned ≢ some out_of_fuel
unfolding assign_each
assign_each-fuel activities [] assigned = λ e. cc
assign_each-fuel activities (a ∷ as') assigned =
    ground (arith, assign_each-fuel activities as' (a.activity_id ∷ assigned))

error_of-fuel :
    (activities : List String) (s : VisitState) (r : Result PrecedenceError VisitState)
    → Fueled activities s r
    → error_of r ≢ some out_of_fuel
error_of-fuel activities s (ok t) h = λ e. cc
error_of-fuel activities s (err x) h = λ e. ground arith

-- The check never ends for want of fuel: it accepts the plan or names what is wrong with it.
pub validate_planned_precedence-fuel :
    (w : WorkflowVersion) (assignments : List PlanAssignment)
    → validate_planned_precedence w assignments ≢ some out_of_fuel
unfolding validate_planned_precedence
validate_planned_precedence-fuel w assignments =
    let n = suc (length w.activities) in
    let v = visit w.activities (predecessors w (lane_predecessors assignments)) n in
    let r : Result PrecedenceError VisitState = each v w.activities [] in
    elim (assign_each w.activities assignments [])
        as (λ (o : Option PrecedenceError).
          assign_each w.activities assignments [] ≡ o
          → (let r : Option PrecedenceError = elim o [ some x ↦ some x | none ↦ error_of r ] in
              r ≢ some out_of_fuel)) [
                | some x ↦ λ l e. assign_each-fuel w.activities assignments [] (l ∙ e)
                | none ↦ λ l. error_of-fuel w.activities [] r (
                    each-Fueled w.activities n v
                      (visit-Fueled w.activities (predecessors w (lane_predecessors assignments)) n)
                      w.activities [] (omega (arith, length-keep-le (untouched []) w.activities)))
              ]
      refl
