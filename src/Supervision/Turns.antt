-- ===== src/Supervision/Turns.antt =====
-- Proofs about the agreement of the maps of the loop: whole turns.
use akoflow.Prelude.{
  String, true, false, not, List, [], ◌∷◌, Option, none, some, ◌≡◌, refl, arith, length, ltb,
  string_eq, ◌&&◌, if◌then◌else◌, All, Float,
}
use akoflow.Supervision.{Progress, SupervisorError}
use akoflow.Supervision.Admission.{queue_ready_activities}
use akoflow.Supervision.Events.{Effect}
use akoflow.Supervision.Loop.{mark_pending, Arrivals, receive}
use akoflow.Supervision.Consistent.{Consistent}
use akoflow.Supervision.{ExecutionRequest, cannot_progress, prewarm_failed, predecessors_of}
use akoflow.Supervision.Admission.{is_ready, ready_activities}
use akoflow.Supervision.Chosen.{choose-All}
use akoflow.Supervision.Loop.{
  woken, Verdict, goes_on, returns, fails, verdict_of, is_empty, is_interactive, in_flight,
  activities, choose, dispatch, is_stuck, dispatch_and_wait, turn, execute_activities,
}
use akoflow.Supervision.Dispatched.{
  AtRest, receive-Consistent, woken-Consistent, queue_ready-Consistent, queue_ready-AtRest,
  mark_pending-tasks, mark_pending-Consistent, begin_starts-Consistent,
}

ready-AtRest :
    (before : String → List String) (s t : Progress) (ids : List String)
    → ((j : String) → AtRest s j → AtRest t j)
    → All (λ id. is_ready before s id ≡ true) ids
    → All (AtRest t) ids
unfolding is_ready
ready-AtRest before s t [] g a = tt
ready-AtRest before s t (id ∷ ids) g a = (g id (ground arith), ready-AtRest before s t ids g a.1)

verdict-Consistent :
    (o : Effect)
    → (o.1 ≡ none → Consistent o.0)
    → (verdict_of o).1 ≡ goes_on
    → Consistent (verdict_of o).0
verdict-Consistent (s, none) h e = h refl
verdict-Consistent (s, some x) h e = cc

module _ {ℓ} {F : Type ℓ} (float : Float F) (request : ExecutionRequest F) where
  pub dispatch-Consistent : (s : Progress) → Consistent s → Consistent (dispatch float request s)
  unfolding dispatch
  dispatch-Consistent s h =
      let ready = ready_activities (activities float request) (predecessors_of request) s in
      let chosen = choose float request s in
      let q = queue_ready_activities ready s in
      begin_starts-Consistent chosen.1 (mark_pending chosen.0 q)
        (ready-AtRest (predecessors_of request) s (mark_pending chosen.0 q) chosen.1
          (λ j r. rw (mark_pending-tasks chosen.0 q) (queue_ready-AtRest ready s j r))
          (choose-All float request s).1)
        (mark_pending-Consistent chosen.0 q (queue_ready-Consistent ready s h))

  dispatch_and_wait-Consistent :
      (a : Arrivals) (s : Progress)
      → Consistent s
      → (dispatch_and_wait float request a s).1 ≡ goes_on
      → Consistent (dispatch_and_wait float request a s).0
  unfolding dispatch_and_wait
  dispatch_and_wait-Consistent a s h =
      let ready = ready_activities (activities float request) (predecessors_of request) s in
      let s' = dispatch float request s in
      let h' : Consistent s' = dispatch-Consistent s h in
      let waits : Progress × Verdict =
        if is_stuck float request s' (choose float request s).1
        then (s', fails cannot_progress)
        else if in_flight s'
        then verdict_of (woken a.wake s')
        else (s', goes_on) in
      let done : waits.1 ≡ goes_on → Consistent waits.0 =
        elim (is_stuck float request s' (choose float request s).1)
          as (λ b.
            (let r : Progress × Verdict =
                if b
                then (s', fails cannot_progress)
                else if in_flight s'
                then verdict_of (woken a.wake s')
                else (s', goes_on) in
              r.1 ≡ goes_on → Consistent r.0)) [
                | true ↦ λ e. cc
                | false ↦
                    elim (in_flight s')
                      as (λ b.
                        (let r : Progress × Verdict =
                            if b then verdict_of (woken a.wake s') else (s', goes_on) in
                          r.1 ≡ goes_on → Consistent r.0)) [
                            | true ↦
                                verdict-Consistent (woken a.wake s') (woken-Consistent a.wake s' h')
                            | false ↦ λ e. h'
                          ]
              ] in
      elim a.prewarm_error
        as (λ (o : Option String).
          (let r : Progress × Verdict = elim o [
            | some e ↦ (queue_ready_activities ready s, fails (prewarm_failed e))
            | none ↦ waits
          ] in
            r.1 ≡ goes_on → Consistent r.0)) [ some e ↦ λ f. cc | none ↦ done ]

  pub turn-Consistent :
      (a : Arrivals) (s : Progress)
      → Consistent s
      → (turn float request a s).1 ≡ goes_on
      → Consistent (turn float request a s).0
  unfolding turn
  turn-Consistent a s h =
      let received = receive a s in
      let goes : Progress × Verdict =
        if is_interactive request.mode && not (is_empty received.0.running)
        then (received.0, returns)
        else dispatch_and_wait float request a received.0 in
      let done : Consistent received.0 → goes.1 ≡ goes_on → Consistent goes.0 = λ h'.
        elim (is_interactive request.mode && not (is_empty received.0.running))
          as (λ b.
            (let r : Progress × Verdict =
                if b then (received.0, returns) else dispatch_and_wait float request a received.0 in
              r.1 ≡ goes_on → Consistent r.0)) [
                | true ↦ λ e. cc
                | false ↦ dispatch_and_wait-Consistent a received.0 h'
              ] in
      elim received.1
          as (λ (o : Option SupervisorError).
            received.1 ≡ o
            → (let r : Progress × Verdict = elim o [
              | some e ↦ (received.0, fails e)
              | none ↦ goes
            ] in
                r.1 ≡ goes_on → Consistent r.0)) [
                  | some e ↦ λ k f. cc
                  | none ↦ λ k. done (receive-Consistent a s h k)
                ]
        refl

  -- While the loop goes on, whatever arrives: an activity is among those that are being started, that
  -- run or that are completed exactly when its task has that status, every task waits, is at work or
  -- is completed, and at most eight starts are pending, provided that this holds at the beginning.
  pub execute_activities-Consistent :
      (as' : List Arrivals) (s : Progress)
      → Consistent s
      → (execute_activities float request as' s).1 ≡ goes_on
      → Consistent (execute_activities float request as' s).0
  unfolding execute_activities
  execute_activities-Consistent [] s h = λ e. h
  execute_activities-Consistent (a ∷ rest) s h =
      let next = turn float request a s in
      let goes : Progress × Verdict = elim next.1 [
        | goes_on ↦ execute_activities float request rest next.0
        | returns ↦ (next.0, returns)
        | fails e ↦ (next.0, fails e)
      ] in
      let done : goes.1 ≡ goes_on → Consistent goes.0 =
        elim next.1
            as (λ (v : Verdict).
              next.1 ≡ v
              → (let r : Progress × Verdict = elim v [
                | goes_on ↦ execute_activities float request rest next.0
                | returns ↦ (next.0, returns)
                | fails e ↦ (next.0, fails e)
              ] in
                  r.1 ≡ goes_on → Consistent r.0)) [
                    | goes_on ↦
                        λ k. execute_activities-Consistent rest next.0 (turn-Consistent a s h k)
                    | returns ↦ λ k f. cc
                    | fails e ↦ λ k f. cc
                  ]
          refl in
      elim (not (ltb (length s.completed) (length (activities float request))))
        as (λ b.
          (let r : Progress × Verdict = if b then (s, returns) else goes in
            r.1 ≡ goes_on → Consistent r.0)) [ true ↦ λ e. cc | false ↦ done ]
