-- ===== src/Supervision/Liveness.antt =====
-- Proofs about the test for a loop in which nothing can go on.
use akoflow.Prelude.{
  String, true, false, not, List, [], ◌∷◌, none, ◌≡◌, refl, ap, ◌∙◌, arith, keep, length, ltb,
  ltb→lt, string_eq, ◌&&◌, ◌||◌, Float,
}
use akoflow.Precedence.{validate_planned_precedence}
use akoflow.Supervision.{ExecutionRequest, Progress, placements, predecessors_of}
use akoflow.Supervision.Admission.{
  is_ready, ready_activities, queue_activity, queue_ready_activities, str_lt,
}
use akoflow.Supervision.Loop.{
  mark_pending, begin_start, begin_starts, is_empty, choose, activities, dispatch, in_flight,
  is_stuck,
}
use akoflow.Supervision.Consistent.{Consistent}
use akoflow.Supervision.Safety.{queue_ready-completed, mark_pending-completed}
use akoflow.Supervision.Waiting.{
  Idle, is_empty-choose, is_ready_sound, is_empty-keep_one, is_empty-sort_stable,
}
use akoflow.Supervision.OpenActivity.{open_of-validate_planned_precedence}

queue_ready-in_flight :
    (ids : List String) (s : Progress) → in_flight (queue_ready_activities ids s) ≡ in_flight s
unfolding queue_ready_activities queue_activity in_flight
queue_ready-in_flight [] s = refl
queue_ready-in_flight (id ∷ ids) s = queue_ready-in_flight ids (queue_activity id s) ∙ ground arith

mark_pending-in_flight :
    (ids : List String) (s : Progress)
    → in_flight (mark_pending ids s) ≡ (in_flight s || not (is_empty ids))
unfolding mark_pending in_flight
mark_pending-in_flight [] s = ground arith
mark_pending-in_flight (id ∷ ids) s = mark_pending-in_flight ids _ ∙ ground arith

empty_list : (ids : List String) → is_empty ids ≡ true → ids ≡ []
empty_list [] h = refl
empty_list (id ∷ ids) h = cc

Idle-of_in_flight : (s : Progress) → in_flight s ≡ false → Idle s
unfolding in_flight
Idle-of_in_flight s h = record {
  no_start = empty_list s.pending_starts (ground arith);
  no_run = empty_list s.running (ground arith);
  no_allocation = empty_list s.pending_allocations (ground arith);
}

module _ {ℓ} {F : Type ℓ} (float : Float F) (request : ExecutionRequest F) where
  is_empty-ready :
      (s : Progress)
      → validate_planned_precedence request.workflow (placements request.assignments) ≡ none
      → Consistent s
      → in_flight s ≡ false
      → ltb (length s.completed) (length (activities float request)) ≡ true
      → is_empty (ready_activities (activities float request) (predecessors_of request) s) ≡ false
  unfolding ready_activities predecessors_of
  is_empty-ready s v h quiet few =
      let i = Idle-of_in_flight s quiet in
      let (id, k, n, c) =
        open_of-validate_planned_precedence request.workflow (placements request.assignments)
          s.completed v (ltb→lt _ _ few) in
      is_empty-sort_stable str_lt
        (keep (is_ready (predecessors_of request) s) (activities float request))
      ∙ is_empty-keep_one (is_ready (predecessors_of request) s) (activities float request) id k
          (is_ready_sound (predecessors_of request) s id h i.no_start i.no_run n c)

  dispatch-in_flight :
      (s : Progress)
      → is_empty (choose float request s).1 ≡ true
      → in_flight (dispatch float request s)
        ≡ (in_flight s || not (is_empty (choose float request s).0))
  unfolding dispatch begin_starts
  dispatch-in_flight s h =
      let ready = ready_activities (activities float request) (predecessors_of request) s in
      let chosen = choose float request s in
      let q = queue_ready_activities ready s in
      ap (λ ids. in_flight (begin_starts ids (mark_pending chosen.0 q))) (empty_list chosen.1 h)
      ∙ mark_pending-in_flight chosen.0 q
      ∙ ap (λ b. b || not (is_empty chosen.0)) (queue_ready-in_flight ready s)

  begin_starts-completed :
      (ids : List String) (s : Progress) → (begin_starts ids s).completed ≡ s.completed
  unfolding begin_starts begin_start
  begin_starts-completed [] s = refl
  begin_starts-completed (id ∷ ids) s =
      ground (arith, begin_starts-completed ids (begin_start id s))

  dispatch-completed : (s : Progress) → (dispatch float request s).completed ≡ s.completed
  unfolding dispatch
  dispatch-completed s =
      let ready = ready_activities (activities float request) (predecessors_of request) s in
      let chosen = choose float request s in
      let q = queue_ready_activities ready s in
      begin_starts-completed chosen.1 (mark_pending chosen.0 q)
      ∙ mark_pending-completed chosen.0 q
      ∙ queue_ready-completed ready s

  pub dispatch-progress :
      (s : Progress)
      → validate_planned_precedence request.workflow (placements request.assignments) ≡ none
      → Consistent s
      → is_stuck float request (dispatch float request s) (choose float request s).1 ≡ false
  unfolding is_stuck
  dispatch-progress s v h =
      let chosen = choose float request s in
      let quiet_choice : in_flight s ≡ false
          → ltb (length s.completed) (length (activities float request)) ≡ true
          → (is_empty chosen.0 && is_empty chosen.1) ≡ false =
        λ quiet few.
          is_empty-choose float request s h (Idle-of_in_flight s quiet)
          ∙ is_empty-ready s v h quiet few in
      ground (arith, dispatch-in_flight s, dispatch-completed s, quiet_choice)
