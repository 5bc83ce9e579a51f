-- ===== src/Supervision/Founded.antt =====
-- Proofs that follow the predecessors of the activities at work through the operations of the loop of
-- executeActivities in internal/controlplane/execution/supervisor.go.
use akoflow.Prelude.{
  String, true, false, List, [], ◌∷◌, Option, none, some, ◌≡◌, refl, inl, inr, arith, add, remove,
  contains, contains-add, contains-remove, length, leb, string_eq, str_iff, ◌||◌, if◌then◌else◌,
  Bool-cases, All,
}
use akoflow.Supervision.{Progress, SupervisorError}
use akoflow.Supervision.Admission.{all_completed, queue_activity, queue_ready_activities}
use akoflow.Supervision.Events.{
  Effect, ◌then_do◌, StartResult, started, refused, AllocationResult, allocated, not_allocated,
  Observation, inspect_error, nothing_observed, still_running, has_completed, has_failed,
  started_activity, apply_start_result, consume_start, consume_allocation, drain,
  apply_inspection_result, apply_inspections, cancel_activity, cancel_each,
  cancel_running_activities, inspect_running,
}
use akoflow.Supervision.Loop.{
  mark_pending, begin_start, begin_starts, Arrivals, Wake, polled, start_arrived,
  allocation_arrived, woken, receive,
}

pub all_completed-add :
    (id : String) (done ps : List String)
    → all_completed done ps ≡ true
    → all_completed (add id done) ps ≡ true
unfolding all_completed
all_completed-add id done [] h = refl
all_completed-add id done (p ∷ ps) h =
    ground (arith, contains-add id done p, all_completed-add id done ps)

module _ (before : String → List String) where
  -- Whatever is being started or is running has its predecessors behind it.
  abbrev pub Founded : Progress → Type 0
  Founded s =
      (id : String)
      → (contains s.pending_starts id || contains s.running id) ≡ true
      → all_completed s.completed (before id) ≡ true

  pub apply_start_result-Founded :
      (id : String) (r : StartResult) (s : Progress)
      → all_completed s.completed (before id) ≡ true
      → Founded s
      → Founded (apply_start_result id r s).0
  unfolding apply_start_result started_activity
  apply_start_result-Founded id (started a at_once seal_error) s p h = λ j k. ground (
    arith,
    h j,
    contains-add id s.running j,
    contains-remove id (add id s.running) j,
    str_iff j id,
    all_completed-add id s.completed (before j),
  )
  apply_start_result-Founded id (refused a e uncertain) s p h =
      λ j k. ground (arith, h j, contains-add id s.running j, str_iff j id)

  consume_start-Founded :
      (r : String × StartResult) (s : Progress) → Founded s → Founded (consume_start r s).0
  unfolding consume_start
  consume_start-Founded (id, r) s h = elim (Bool-cases (contains s.pending_starts id)) [
    | inl e ↦
        let s' : Progress = record s { pending_starts = remove id s.pending_starts } in
        let h' : Founded s' = λ j k. ground (arith, h j, contains-remove id s.pending_starts j) in
        rw e (apply_start_result-Founded id r s' (ground (arith, h id)) h')
    | inr e ↦ rw e h
  ]

  consume_allocation-Founded :
      (r : String × AllocationResult) (s : Progress)
      → Founded s
      → Founded (consume_allocation r s).0
  unfolding consume_allocation
  consume_allocation-Founded (id, not_allocated e) s h = λ j k. ground (arith, h j)
  consume_allocation-Founded (id, allocated a) s h = λ j k. ground (arith, h j)

  then_do-Founded :
      (o : Effect) (f : Progress → Effect)
      → ((t : Progress) → Founded t → Founded (f t).0)
      → Founded o.0
      → Founded (o then_do f).0
  then_do-Founded (s, none) f g h = g s h
  then_do-Founded (s, some e) f g h = h

  drain-Founded {ℓ} :
      {A : Type ℓ} (consume : A → Progress → Effect)
      → ((a : A) (s : Progress) → Founded s → Founded (consume a s).0)
      → (as' : List A) (s : Progress) → Founded s
      → Founded (drain consume as' s).0
  unfolding drain
  drain-Founded consume g [] s h = h
  drain-Founded consume g (a ∷ rest) s h =
      then_do-Founded (consume a s) (drain consume rest) (drain-Founded consume g rest) (g a s h)

  apply_inspection_result-Founded :
      (id : String) (o : Observation) (s : Progress) (e : Option SupervisorError)
      → Founded s
      → Founded (apply_inspection_result id o s e).0
  unfolding apply_inspection_result
  apply_inspection_result-Founded id (inspect_error x) s e h = h
  apply_inspection_result-Founded id nothing_observed s e h = h
  apply_inspection_result-Founded id still_running s e h = h
  apply_inspection_result-Founded id (has_completed (some x) y) s e h = h
  apply_inspection_result-Founded id (has_completed none (some x)) s e h = h
  apply_inspection_result-Founded id (has_completed none none) s e h = λ j k.
      ground
        (arith, h j, contains-remove id s.running j, all_completed-add id s.completed (before j))
  apply_inspection_result-Founded id (has_failed x) s e h =
      λ j k. ground (arith, h j, contains-remove id s.running j)

  apply_inspections-Founded :
      (observe : String → Observation) (ids : List String) (s : Progress)
      (e : Option SupervisorError)
      → Founded s
      → Founded (apply_inspections observe ids s e).0
  unfolding apply_inspections
  apply_inspections-Founded observe [] s e h = h
  apply_inspections-Founded observe (id ∷ ids) s e h =
      apply_inspections-Founded observe ids _ _
        (apply_inspection_result-Founded id (observe id) s e h)

  cancel_each-Founded :
      (cause : SupervisorError) (stop : String → Option String) (ids : List String) (s : Progress)
      → Founded s
      → Founded (cancel_each cause stop ids s)
  unfolding cancel_each cancel_activity
  cancel_each-Founded cause stop [] s h = h
  cancel_each-Founded cause stop (id ∷ ids) s h =
      cancel_each-Founded cause stop ids _
        (elim (stop id) as (λ o. Founded (cancel_activity cause id o s)) [
          | none ↦ λ j k. ground (arith, h j, contains-remove id s.running j)
          | some e ↦ h
        ])

  inspect_running-Founded :
      (observe : String → Observation) (stop : String → Option String) (s : Progress)
      → Founded s
      → Founded (inspect_running observe stop s).0
  unfolding inspect_running cancel_running_activities
  inspect_running-Founded observe stop s h =
      let o = apply_inspections observe s.running s none in
      let h' = apply_inspections-Founded observe s.running s none h in
      elim o.1
        as (λ (e : Option SupervisorError). Founded (
          let r : Effect = elim e [
            | none ↦ (o.0, none)
            | some x ↦ (cancel_each x stop o.0.running o.0, some x)
          ] in
          r.0)) [ none ↦ h' | some x ↦ cancel_each-Founded x stop o.0.running o.0 h' ]

  pub receive-Founded : (a : Arrivals) (s : Progress) → Founded s → Founded (receive a s).0
  unfolding receive
  receive-Founded a s h =
      then_do-Founded
        (drain consume_start a.starts s then_do drain consume_allocation a.allocations)
        (inspect_running a.observe a.stop) (inspect_running-Founded a.observe a.stop)
        (then_do-Founded (drain consume_start a.starts s) (drain consume_allocation a.allocations)
          (drain-Founded consume_allocation consume_allocation-Founded a.allocations)
          (drain-Founded consume_start consume_start-Founded a.starts s h))

  pub woken-Founded : (w : Wake) (s : Progress) → Founded s → Founded (woken w s).0
  unfolding woken
  woken-Founded polled s h = h
  woken-Founded (start_arrived r) s h = consume_start-Founded r s h
  woken-Founded (allocation_arrived r) s h = consume_allocation-Founded r s h

  queue_activity-Founded : (id : String) (s : Progress) → Founded s → Founded (queue_activity id s)
  unfolding queue_activity
  queue_activity-Founded id s h = λ j k. ground (arith, h j)

  pub queue_ready-Founded :
      (ids : List String) (s : Progress) → Founded s → Founded (queue_ready_activities ids s)
  unfolding queue_ready_activities
  queue_ready-Founded [] s h = h
  queue_ready-Founded (id ∷ ids) s h =
      queue_ready-Founded ids (queue_activity id s) (queue_activity-Founded id s h)

  pub mark_pending-Founded :
      (ids : List String) (s : Progress) → Founded s → Founded (mark_pending ids s)
  unfolding mark_pending
  mark_pending-Founded [] s h = h
  mark_pending-Founded (id ∷ ids) s h = mark_pending-Founded ids _ h

  pub begin_starts-Founded :
      (ids : List String) (s : Progress)
      → All (λ id. all_completed s.completed (before id) ≡ true) ids
      → Founded s
      → Founded (begin_starts ids s)
  unfolding begin_starts begin_start
  begin_starts-Founded [] s a h = h
  begin_starts-Founded (id ∷ ids) s a h =
      let s' = begin_start id s in
      let h' : Founded s' =
        λ j k. ground (arith, h j, a.0, contains-add id s.pending_starts j, str_iff j id) in
      let rest : Founded (begin_starts ids s') = begin_starts-Founded ids s' a.1 h' in
      elim (leb 8 (length s.pending_starts))
        as (λ b. Founded (if b then s else begin_starts ids s')) [ true ↦ h | false ↦ rest ]
