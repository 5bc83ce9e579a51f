-- ===== src/Supervision/Safety.antt =====
-- Proofs about the predecessors of the activities that the loop of executeActivities starts.
use akoflow.Prelude.{
  String, true, false, not, List, [], ◌∷◌, Option, none, some, ◌≡◌, refl, ◌∙◌, arith, length, ltb,
  string_eq, ◌&&◌, if◌then◌else◌, All, Float,
}
use akoflow.Supervision.{
  ExecutionRequest, Progress, SupervisorError, cannot_progress, prewarm_failed, predecessors_of,
}
use akoflow.Supervision.Admission.{
  all_completed, is_ready, ready_activities, queue_activity, queue_ready_activities,
}
use akoflow.Supervision.Events.{Effect}
use akoflow.Supervision.Founded.{
  Founded, queue_ready-Founded, mark_pending-Founded, begin_starts-Founded, receive-Founded,
  woken-Founded,
}
use akoflow.Supervision.Chosen.{choose-All}
use akoflow.Supervision.Loop.{
  mark_pending, Arrivals, Verdict, goes_on, returns, fails, verdict_of, is_empty, is_interactive,
  woken, receive, choose, dispatch, in_flight, is_stuck, dispatch_and_wait, turn,
  execute_activities, activities,
}

-- Queueing and marking leave the completed activities as they are.
pub queue_ready-completed :
    (ids : List String) (s : Progress) → (queue_ready_activities ids s).completed ≡ s.completed
unfolding queue_ready_activities queue_activity
queue_ready-completed [] s = refl
queue_ready-completed (id ∷ ids) s = queue_ready-completed ids (queue_activity id s) ∙ ground arith

pub mark_pending-completed :
    (ids : List String) (s : Progress) → (mark_pending ids s).completed ≡ s.completed
unfolding mark_pending
mark_pending-completed [] s = refl
mark_pending-completed (id ∷ ids) s = mark_pending-completed ids _

module _ {ℓ} {F : Type ℓ} (float : Float F) (request : ExecutionRequest F) where
  abbrev pub RunsFounded : Progress → Type 0
  RunsFounded = Founded (predecessors_of request)

  ready_completed :
      (s t : Progress) (ids : List String)
      → t.completed ≡ s.completed
      → All (λ id. is_ready (predecessors_of request) s id ≡ true) ids
      → All (λ id. all_completed t.completed (predecessors_of request id) ≡ true) ids
  unfolding is_ready
  ready_completed s t [] e h = tt
  ready_completed s t (id ∷ ids) e h = (ground arith, ready_completed s t ids e h.1)

  dispatch-Founded : (s : Progress) → RunsFounded s → RunsFounded (dispatch float request s)
  unfolding dispatch
  dispatch-Founded s h =
      let before = predecessors_of request in
      let ready = ready_activities (activities float request) before s in
      let chosen = choose float request s in
      let q = queue_ready_activities ready s in
      let p = mark_pending chosen.0 q in
      begin_starts-Founded before chosen.1 p
        (ready_completed s p chosen.1
          (mark_pending-completed chosen.0 q ∙ queue_ready-completed ready s)
          (choose-All float request s).1)
        (mark_pending-Founded before chosen.0 q (queue_ready-Founded before ready s h))

  verdict-Founded : (o : Effect) → RunsFounded o.0 → RunsFounded (verdict_of o).0
  verdict-Founded (s, none) h = h
  verdict-Founded (s, some e) h = h

  dispatch_and_wait-Founded :
      (a : Arrivals) (s : Progress)
      → RunsFounded s
      → RunsFounded (dispatch_and_wait float request a s).0
  unfolding dispatch_and_wait
  dispatch_and_wait-Founded a s h =
      let before = predecessors_of request in
      let ready = ready_activities (activities float request) before s in
      let s' = dispatch float request s in
      let h' : RunsFounded s' = dispatch-Founded s h in
      let waits : Progress × Verdict =
        if is_stuck float request s' (choose float request s).1
        then (s', fails cannot_progress)
        else if in_flight s'
        then verdict_of (woken a.wake s')
        else (s', goes_on) in
      let done : RunsFounded waits.0 =
        elim (is_stuck float request s' (choose float request s).1)
          as (λ b.
            (let r : Progress × Verdict =
                if b
                then (s', fails cannot_progress)
                else if in_flight s'
                then verdict_of (woken a.wake s')
                else (s', goes_on) in
              RunsFounded r.0)) [
                | true ↦ h'
                | false ↦
                    elim (in_flight s')
                      as (λ b.
                        (let r : Progress × Verdict =
                            if b then verdict_of (woken a.wake s') else (s', goes_on) in
                          RunsFounded r.0)) [
                            | true ↦
                                verdict-Founded (woken a.wake s')
                                  (woken-Founded before a.wake s' h')
                            | false ↦ h'
                          ]
              ] in
      elim a.prewarm_error
        as (λ (o : Option String).
          (let r : Progress × Verdict = elim o [
            | some e ↦ (queue_ready_activities ready s, fails (prewarm_failed e))
            | none ↦ waits
          ] in
            RunsFounded r.0)) [ some e ↦ queue_ready-Founded before ready s h | none ↦ done ]

  turn-Founded :
      (a : Arrivals) (s : Progress) → RunsFounded s → RunsFounded (turn float request a s).0
  unfolding turn
  turn-Founded a s h =
      let received = receive a s in
      let h' : RunsFounded received.0 = receive-Founded (predecessors_of request) a s h in
      let goes : Progress × Verdict =
        if is_interactive request.mode && not (is_empty received.0.running)
        then (received.0, returns)
        else dispatch_and_wait float request a received.0 in
      let done : RunsFounded goes.0 =
        elim (is_interactive request.mode && not (is_empty received.0.running))
          as (λ b.
            (let r : Progress × Verdict =
                if b then (received.0, returns) else dispatch_and_wait float request a received.0 in
              RunsFounded r.0)) [ true ↦ h' | false ↦ dispatch_and_wait-Founded a received.0 h' ] in
      elim received.1
        as (λ (o : Option SupervisorError).
          (let r : Progress × Verdict = elim o [ some e ↦ (received.0, fails e) | none ↦ goes ] in
            RunsFounded r.0)) [ some e ↦ h' | none ↦ done ]

  -- However the results of workers and inspections arrive: at the end of every run of the loop,
  -- whether it goes on, returns or fails, each activity that is being started or running has all of
  -- its predecessors completed, provided that this holds at the beginning.
  pub execute_activities-Founded :
      (as' : List Arrivals) (s : Progress)
      → RunsFounded s
      → RunsFounded (execute_activities float request as' s).0
  unfolding execute_activities
  execute_activities-Founded [] s h = h
  execute_activities-Founded (a ∷ rest) s h =
      let next = turn float request a s in
      let h' : RunsFounded next.0 = turn-Founded a s h in
      let later = execute_activities-Founded rest next.0 h' in
      let goes : Progress × Verdict = elim next.1 [
        | goes_on ↦ execute_activities float request rest next.0
        | returns ↦ (next.0, returns)
        | fails e ↦ (next.0, fails e)
      ] in
      let done : RunsFounded goes.0 =
        elim next.1
          as (λ (v : Verdict).
            (let r : Progress × Verdict = elim v [
              | goes_on ↦ execute_activities float request rest next.0
              | returns ↦ (next.0, returns)
              | fails e ↦ (next.0, fails e)
            ] in
              RunsFounded r.0)) [ goes_on ↦ later | returns ↦ h' | fails e ↦ h' ] in
      elim (not (ltb (length s.completed) (length (activities float request))))
        as (λ b.
          (let r : Progress × Verdict = if b then (s, returns) else goes in RunsFounded r.0)) [
            | true ↦ h
            | false ↦ done
          ]
