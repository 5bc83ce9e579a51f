-- ===== src/Supervision/Agreement.antt =====
-- Proofs about the agreement of the maps of the loop: drained results and inspections.
use akoflow.Prelude.{
  String, false, List, [], ◌∷◌, none, some, ◌≡◌, refl, arith, lookup, contains-add, contains-remove,
  lookup-put, string_eq, str_iff, All,
}
use akoflow.CloudStops.{completed}
use akoflow.Supervision.{
  Progress, TaskExecution, SupervisorError, inspect_failed, no_handle, outputs_missing, seal_failed,
  activity_failed,
}
use akoflow.Supervision.Events.{
  Effect, ◌then_do◌, Observation, inspect_error, nothing_observed, still_running, has_completed,
  has_failed, task_of, drain, apply_inspection_result, apply_inspections,
}
use akoflow.Supervision.Consistent.{is_preparing, Consistent}

pub then_do-Consistent :
    (o : Effect) (f : Progress → Effect)
    → ((t : Progress) → Consistent t → (f t).1 ≡ none → Consistent (f t).0)
    → (o.1 ≡ none → Consistent o.0)
    → (o then_do f).1 ≡ none
    → Consistent (o then_do f).0
then_do-Consistent (s, none) f g h e = g s (h refl) e
then_do-Consistent (s, some x) f g h e = cc

pub drain-Consistent {ℓ} :
    {A : Type ℓ} (consume : A → Progress → Effect)
    → ((a : A) (s : Progress) → Consistent s → (consume a s).1 ≡ none → Consistent (consume a s).0)
    → (as' : List A) (s : Progress) → Consistent s
    → (drain consume as' s).1 ≡ none
    → Consistent (drain consume as' s).0
unfolding drain
drain-Consistent consume g [] s h e = h
drain-Consistent consume g (a ∷ rest) s h e =
    then_do-Consistent (consume a s) (drain consume rest) (drain-Consistent consume g rest)
      (g a s h) e

-- An error is never forgotten.
apply_inspections-some :
    (observe : String → Observation) (ids : List String) (s : Progress) (e : SupervisorError)
    → (apply_inspections observe ids s (some e)).1 ≡ some e
unfolding apply_inspections apply_inspection_result
apply_inspections-some observe [] s e = refl
apply_inspections-some observe (id ∷ ids) s e =
    elim (observe id)
      as (λ o.
        (apply_inspections observe ids (apply_inspection_result id o s (some e)).0
          (apply_inspection_result id o s (some e)).1).1
        ≡ some e) [
          | inspect_error x ↦ apply_inspections-some observe ids _ e
          | nothing_observed ↦ apply_inspections-some observe ids _ e
          | still_running ↦ apply_inspections-some observe ids _ e
          | has_completed (some x) y ↦ apply_inspections-some observe ids _ e
          | has_completed none (some x) ↦ apply_inspections-some observe ids _ e
          | has_completed none none ↦ apply_inspections-some observe ids _ e
          | has_failed x ↦ apply_inspections-some observe ids _ e
        ]

-- Not about to be started.
abbrev pub Unprepared : Progress → String → Type 0
Unprepared s id = is_preparing (lookup id s.tasks) ≡ false

complete_activity :
    (id : String) (s : Progress)
    → Unprepared s id
    → Consistent s
    → Consistent (apply_inspection_result id (has_completed none none) s none).0
unfolding apply_inspection_result
complete_activity id s u h =
    let t : TaskExecution = record (task_of (lookup id s.tasks)) { status = completed } in
    record {
      starts =
          λ j. ground (arith, h.starts j, h.starts id, str_iff j id, lookup-put id j t s.tasks);
      runs =
          λ j. ground (arith, h.runs j, lookup-put id j t s.tasks, contains-remove id s.running j);
      ends =
          λ j. ground (arith, h.ends j, lookup-put id j t s.tasks, contains-add id s.completed j);
      sound = λ j. ground (arith, h.sound j, lookup-put id j t s.tasks);
      few = h.few;
    }

Unprepared-later :
    (id : String) (s : Progress) (ids : List String)
    → All (Unprepared s) ids
    → All (Unprepared (apply_inspection_result id (has_completed none none) s none).0) ids
unfolding apply_inspection_result
Unprepared-later id s [] h = tt
Unprepared-later id s (j ∷ js) h = (
  (let t : TaskExecution = record (task_of (lookup id s.tasks)) { status = completed } in
      ground (arith, h.0, lookup-put id j t s.tasks)),
  Unprepared-later id s js h.1,
)

pub apply_inspections-Consistent :
    (observe : String → Observation) (ids : List String) (s : Progress)
    → All (Unprepared s) ids
    → Consistent s
    → (apply_inspections observe ids s none).1 ≡ none
    → Consistent (apply_inspections observe ids s none).0
unfolding apply_inspections apply_inspection_result
apply_inspections-Consistent observe [] s u h = λ e. h
apply_inspections-Consistent observe (id ∷ ids) s u h =
    elim (observe id)
      as (λ o.
        (apply_inspections observe ids (apply_inspection_result id o s none).0
            (apply_inspection_result id o s none).1).1
          ≡ none
        → Consistent
            (apply_inspections observe ids (apply_inspection_result id o s none).0
              (apply_inspection_result id o s none).1).0) [
                | inspect_error x ↦
                    λ e. cc (apply_inspections-some observe ids s (inspect_failed id x))
                | nothing_observed ↦
                    λ e. cc (apply_inspections-some observe ids s (no_handle id ""))
                | still_running ↦ apply_inspections-Consistent observe ids s u.1 h
                | has_completed (some x) y ↦
                    λ e. cc (apply_inspections-some observe ids s (outputs_missing id x))
                | has_completed none (some x) ↦
                    λ e. cc (apply_inspections-some observe ids s (seal_failed id x))
                | has_completed none none ↦
                    apply_inspections-Consistent observe ids _ (Unprepared-later id s ids u.1)
                      (complete_activity id s u.0 h)
                | has_failed x ↦
                    λ e. cc (apply_inspections-some observe ids _ (activity_failed id x))
              ]
