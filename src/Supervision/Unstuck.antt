-- ===== src/Supervision/Unstuck.antt =====
-- Proofs about the errors with which the loop ends.
use akoflow.Prelude.{
  ◌≢◌, ap, String, Bool, true, false, not, List, [], ◌∷◌, Option, none, some, ◌≡◌, refl, arith,
  string_eq, ◌&&◌, if◌then◌else◌, Float,
}
use akoflow.Supervision.{Progress, SupervisorError}
use akoflow.Supervision.Admission.{queue_ready_activities}
use akoflow.Supervision.Events.{
  Effect, ◌then_do◌, StartResult, started, refused, AllocationResult, allocated, not_allocated,
  Observation, inspect_error, nothing_observed, still_running, has_completed, has_failed,
  started_activity, apply_start_result, consume_start, consume_allocation, drain,
  apply_inspection_result, apply_inspections, inspect_running, cancel_running_activities,
}
use akoflow.Supervision.Loop.{Arrivals, receive}
use akoflow.Supervision.Consistent.{Consistent}
use akoflow.Supervision.{ExecutionRequest, cannot_progress, prewarm_failed, predecessors_of}
use akoflow.Supervision.Admission.{ready_activities}
use akoflow.Supervision.Loop.{
  Wake, woken, polled, start_arrived, allocation_arrived, Verdict, goes_on, returns, fails,
  verdict_of, is_empty, is_interactive, in_flight, activities, choose, dispatch, is_stuck,
  dispatch_and_wait, turn, execute_activities,
}
use akoflow.Supervision.Dispatched.{receive-Consistent}
use akoflow.Precedence.{validate_planned_precedence}
use akoflow.Supervision.{placements}
use akoflow.Supervision.Turns.{turn-Consistent}
use akoflow.Supervision.Liveness.{dispatch-progress}

abbrev is_stop : Option SupervisorError → Bool
is_stop (some cannot_progress) = true
is_stop _ = false

abbrev gives_up : Verdict → Bool
gives_up (fails e) = is_stop (some e)
gives_up goes_on = false
gives_up returns = false

consume_start-is_stop :
    (r : String × StartResult) (s : Progress) → is_stop (consume_start r s).1 ≡ false
unfolding consume_start apply_start_result started_activity
consume_start-is_stop (id, started a true none) s = ground arith
consume_start-is_stop (id, started a true (some e)) s = ground arith
consume_start-is_stop (id, started a false e) s = ground arith
consume_start-is_stop (id, refused a e uncertain) s = ground arith

consume_allocation-is_stop :
    (r : String × AllocationResult) (s : Progress) → is_stop (consume_allocation r s).1 ≡ false
unfolding consume_allocation
consume_allocation-is_stop (id, allocated a) s = ground arith
consume_allocation-is_stop (id, not_allocated e) s = ground arith

then_do-is_stop :
    (o : Effect) (f : Progress → Effect)
    → is_stop o.1 ≡ false
    → ((s : Progress) → is_stop (f s).1 ≡ false)
    → is_stop (o then_do f).1 ≡ false
then_do-is_stop (s, none) f h g = g s
then_do-is_stop (s, some e) f h g = h

drain-is_stop {ℓ} :
    {A : Type ℓ} (consume : A → Progress → Effect)
    → ((a : A) (s : Progress) → is_stop (consume a s).1 ≡ false)
    → (as' : List A) (s : Progress) → is_stop (drain consume as' s).1 ≡ false
unfolding drain
drain-is_stop consume g [] s = refl
drain-is_stop consume g (a ∷ rest) s =
    then_do-is_stop (consume a s) (drain consume rest) (g a s) (drain-is_stop consume g rest)

apply_inspection-is_stop :
    (id : String) (o : Observation) (s : Progress) (e : Option SupervisorError)
    → is_stop e ≡ false
    → is_stop (apply_inspection_result id o s e).1 ≡ false
unfolding apply_inspection_result
apply_inspection-is_stop id (inspect_error x) s none h = refl
apply_inspection-is_stop id nothing_observed s none h = refl
apply_inspection-is_stop id still_running s none h = refl
apply_inspection-is_stop id (has_completed (some x) y) s none h = refl
apply_inspection-is_stop id (has_completed none (some x)) s none h = refl
apply_inspection-is_stop id (has_completed none none) s none h = refl
apply_inspection-is_stop id (has_failed x) s none h = refl
apply_inspection-is_stop id (inspect_error x) s (some e) h = h
apply_inspection-is_stop id nothing_observed s (some e) h = h
apply_inspection-is_stop id still_running s (some e) h = h
apply_inspection-is_stop id (has_completed (some x) y) s (some e) h = h
apply_inspection-is_stop id (has_completed none (some x)) s (some e) h = h
apply_inspection-is_stop id (has_completed none none) s (some e) h = h
apply_inspection-is_stop id (has_failed x) s (some e) h = h

apply_inspections-is_stop :
    (observe : String → Observation) (ids : List String) (s : Progress) (e : Option SupervisorError)
    → is_stop e ≡ false
    → is_stop (apply_inspections observe ids s e).1 ≡ false
unfolding apply_inspections
apply_inspections-is_stop observe [] s e h = h
apply_inspections-is_stop observe (id ∷ ids) s e h =
    apply_inspections-is_stop observe ids _ _ (apply_inspection-is_stop id (observe id) s e h)

inspect_running-is_stop :
    (observe : String → Observation) (stop : String → Option String) (s : Progress)
    → is_stop (inspect_running observe stop s).1 ≡ false
unfolding inspect_running
inspect_running-is_stop observe stop s =
    let o = apply_inspections observe s.running s none in
    elim o.1
        as (λ e.
          is_stop e ≡ false
          → (let r : Effect = elim e [
            | none ↦ (o.0, none)
            | some x ↦ (cancel_running_activities x stop o.0, some x)
          ] in
              is_stop r.1 ≡ false)) [ none ↦ λ h. refl | some x ↦ λ h. h ]
      (apply_inspections-is_stop observe s.running s none refl)

receive-is_stop : (a : Arrivals) (s : Progress) → is_stop (receive a s).1 ≡ false
unfolding receive
receive-is_stop a s =
    then_do-is_stop (drain consume_start a.starts s then_do drain consume_allocation a.allocations)
      (inspect_running a.observe a.stop)
      (then_do-is_stop (drain consume_start a.starts s) (drain consume_allocation a.allocations)
        (drain-is_stop consume_start consume_start-is_stop a.starts s)
        (drain-is_stop consume_allocation consume_allocation-is_stop a.allocations))
      (inspect_running-is_stop a.observe a.stop)

woken-is_stop : (w : Wake) (s : Progress) → is_stop (woken w s).1 ≡ false
unfolding woken
woken-is_stop polled s = refl
woken-is_stop (start_arrived r) s = consume_start-is_stop r s
woken-is_stop (allocation_arrived r) s = consume_allocation-is_stop r s

verdict_of-gives_up : (o : Effect) → gives_up (verdict_of o).1 ≡ is_stop o.1
verdict_of-gives_up (s, none) = refl
verdict_of-gives_up (s, some e) = refl

module _ {ℓ} {F : Type ℓ} (float : Float F) (request : ExecutionRequest F)
    (valid : validate_planned_precedence request.workflow (placements request.assignments)
      ≡ none) where
  dispatch_and_wait-gives_up :
      (a : Arrivals) (s : Progress)
      → Consistent s
      → gives_up (dispatch_and_wait float request a s).1 ≡ false
  unfolding dispatch_and_wait
  dispatch_and_wait-gives_up a s h =
      let s' = dispatch float request s in
      elim a.prewarm_error
        as (λ (o : Option String).
          (let r : Progress × Verdict = elim o [
            | some e ↦ (
              queue_ready_activities
                  (ready_activities (activities float request) (predecessors_of request) s) s,
              fails (prewarm_failed e),
            )
            | none ↦
                if is_stuck float request s' (choose float request s).1
                then (s', fails cannot_progress)
                else if in_flight s'
                then verdict_of (woken a.wake s')
                else (s', goes_on)
          ] in
            gives_up r.1 ≡ false)) [
              | some e ↦ refl
              | none ↦ ground (
                arith,
                dispatch-progress float request s valid h,
                verdict_of-gives_up (woken a.wake s'),
                woken-is_stop a.wake s',
              )
            ]

  turn-gives_up :
      (a : Arrivals) (s : Progress) → Consistent s → gives_up (turn float request a s).1 ≡ false
  unfolding turn
  turn-gives_up a s h =
      let received = receive a s in
      let goes : Progress × Verdict =
        if is_interactive request.mode && not (is_empty received.0.running)
        then (received.0, returns)
        else dispatch_and_wait float request a received.0 in
      elim received.1
          as (λ (o : Option SupervisorError).
            received.1 ≡ o
            → is_stop o ≡ false
            → (let r : Progress × Verdict = elim o [
              | some e ↦ (received.0, fails e)
              | none ↦ goes
            ] in
                gives_up r.1 ≡ false)) [
                  | some e ↦ λ k f. f
                  | none ↦ λ k f.
                      ground (
                        arith,
                        dispatch_and_wait-gives_up a received.0 (receive-Consistent a s h k),
                      )
                ]
        refl (receive-is_stop a s)

  execute_activities-gives_up :
      (as' : List Arrivals) (s : Progress)
      → Consistent s
      → gives_up (execute_activities float request as' s).1 ≡ false
  unfolding execute_activities
  execute_activities-gives_up [] s h = refl
  execute_activities-gives_up (a ∷ rest) s h =
      let next = turn float request a s in
      let goes : Progress × Verdict = elim next.1 [
        | goes_on ↦ execute_activities float request rest next.0
        | returns ↦ (next.0, returns)
        | fails e ↦ (next.0, fails e)
      ] in
      let done : gives_up goes.1 ≡ false =
        elim next.1
            as (λ (v : Verdict).
              next.1 ≡ v
              → gives_up v ≡ false
              → (let r : Progress × Verdict = elim v [
                | goes_on ↦ execute_activities float request rest next.0
                | returns ↦ (next.0, returns)
                | fails e ↦ (next.0, fails e)
              ] in
                  gives_up r.1 ≡ false)) [
                    | goes_on ↦ λ k f.
                        execute_activities-gives_up rest next.0
                          (turn-Consistent float request a s h k)
                    | returns ↦ λ k f. refl
                    | fails e ↦ λ k f. f
                  ]
          refl (turn-gives_up a s h) in
      ground (arith, done)

-- If the placements of a request pass the check of their order, then no run of the loop, whatever
-- arrives, fails with the error that no remaining activity can go on, provided that the maps agree
-- at the beginning.
pub execute_activities-progress {ℓ} :
    {F : Type ℓ} (float : Float F) (request : ExecutionRequest F)
    → validate_planned_precedence request.workflow (placements request.assignments) ≡ none
    → (as' : List Arrivals) (s : Progress) → Consistent s
    → (execute_activities float request as' s).1 ≢ fails cannot_progress
execute_activities-progress float request valid as' s h e =
    cc (execute_activities-gives_up float request valid as' s h, ap gives_up e)
