-- ===== src/Supervision/Dispatched.antt =====
-- Proofs about the agreement of the maps of the loop: queueing and starting activities.
use akoflow.Prelude.{
  ◌+◌, eq-cases, beq_refl, String, true, false, List, [], ◌∷◌, Option, none, some, ◌≡◌, refl, inl,
  inr, arith, put, contains, lookup, contains-add, lookup-put, length, leb, string_eq, str_iff,
  ◌||◌, if◌then◌else◌, All,
}
use akoflow.CloudStops.{queued, preparing}
use akoflow.Supervision.{no_failure, Progress, TaskExecution, SupervisorError}
use akoflow.Supervision.Admission.{queue_activity, queue_ready_activities}
use akoflow.Supervision.Events.{
  Effect, ◌then_do◌, Observation, task_of, consume_start, consume_allocation, drain,
  apply_inspections, inspect_running, cancel_running_activities,
}
use akoflow.Supervision.Loop.{mark_pending, begin_start, begin_starts, Arrivals, receive}
use akoflow.Supervision.Consistent.{
  is_preparing, is_running, is_completed, is_sound, Consistent, consume_start-Consistent,
  consume_allocation-Consistent, same_maps,
}
use akoflow.Supervision.Agreement.{
  Unprepared, then_do-Consistent, drain-Consistent, apply_inspections-Consistent,
}
use akoflow.Supervision.Admission.{waiting, attempt_of}
use akoflow.Supervision.Loop.{
  ready_activity_concurrency, Wake, woken, polled, start_arrived, allocation_arrived, synchronizing,
}

contains_each :
    (ids all : List String)
    → ((j : String) → contains ids j ≡ true → contains all j ≡ true)
    → All (λ id. contains all id ≡ true) ids
contains_each [] all h = tt
contains_each (id ∷ ids) all h =
    (h id (ground (arith, str_iff id id)), contains_each ids all (λ j k. h j (ground arith)))

running-Unprepared :
    (s : Progress) (ids : List String)
    → Consistent s
    → All (λ id. contains s.running id ≡ true) ids
    → All (Unprepared s) ids
running-Unprepared s [] h a = tt
running-Unprepared s (id ∷ ids) h a =
    (ground (arith, h.runs id, a.0), running-Unprepared s ids h a.1)

inspect_running-Consistent :
    (observe : String → Observation) (stop : String → Option String) (s : Progress)
    → Consistent s
    → (inspect_running observe stop s).1 ≡ none
    → Consistent (inspect_running observe stop s).0
unfolding inspect_running
inspect_running-Consistent observe stop s h =
    let o = apply_inspections observe s.running s none in
    let h' =
      apply_inspections-Consistent observe s.running s
        (running-Unprepared s s.running h (contains_each s.running s.running (λ j k. k))) h in
    elim o.1
        as (λ (e : Option SupervisorError).
          (o.1 ≡ none → Consistent o.0)
          → o.1 ≡ e
          → (let r : Effect = elim e [
            | none ↦ (o.0, none)
            | some x ↦ (cancel_running_activities x stop o.0, some x)
          ] in
              r.1 ≡ none → Consistent r.0)) [ none ↦ λ g k l. g k | some x ↦ λ g k l. cc ]
      h' refl

pub receive-Consistent :
    (a : Arrivals) (s : Progress)
    → Consistent s
    → (receive a s).1 ≡ none
    → Consistent (receive a s).0
unfolding receive
receive-Consistent a s h =
    then_do-Consistent
      (drain consume_start a.starts s then_do drain consume_allocation a.allocations)
      (inspect_running a.observe a.stop) (inspect_running-Consistent a.observe a.stop)
      (then_do-Consistent (drain consume_start a.starts s) (drain consume_allocation a.allocations)
        (drain-Consistent consume_allocation (λ r t k e. consume_allocation-Consistent r t k)
          a.allocations)
        (drain-Consistent consume_start consume_start-Consistent a.starts s h))

pub woken-Consistent :
    (w : Wake) (s : Progress) → Consistent s → (woken w s).1 ≡ none → Consistent (woken w s).0
unfolding woken
woken-Consistent polled s h = λ e. h
woken-Consistent (start_arrived r) s h = consume_start-Consistent r s h
woken-Consistent (allocation_arrived r) s h = λ e. consume_allocation-Consistent r s h

-- Neither at work nor completed.
abbrev pub AtRest : Progress → String → Type 0
AtRest s id = (is_running (lookup id s.tasks) || is_completed (lookup id s.tasks)) ≡ false

-- Queueing changes no status but that of an unknown activity, which was at rest and is still.
record SameStatus (o p : Option TaskExecution) : Type 0 where
  pub preparing_too : is_preparing o ≡ is_preparing p
  pub running_too : is_running o ≡ is_running p
  pub completed_too : is_completed o ≡ is_completed p
  pub sound_too : is_sound o ≡ is_sound p

put-SameStatus :
    (id : String) (t : TaskExecution) (tasks : List (String × TaskExecution))
    → SameStatus (some t) (lookup id tasks)
    → (j : String) → SameStatus (lookup j (put id t tasks)) (lookup j tasks)
put-SameStatus id t tasks h j = elim (eq-cases j id) [
  | inl e ↦ rw (lookup-put id j t tasks) (rw (e, beq_refl id) h)
  | inr e ↦ rw (lookup-put id j t tasks) (
      rw e (record {
        preparing_too = refl;
        running_too = refl;
        completed_too = refl;
        sound_too = refl;
      }))
]

queue_activity-SameStatus :
    (id : String) (s : Progress) (j : String)
    → SameStatus (lookup j (queue_activity id s).tasks) (lookup j s.tasks)
unfolding queue_activity
queue_activity-SameStatus id s j =
    elim (lookup id s.tasks)
        as (λ o.
          lookup id s.tasks ≡ o
          → (let q : Progress = elim o [
            | some t ↦ record s { tasks = put id (record t { queue_reason = waiting }) s.tasks }
            | none ↦ record s {
              tasks =
                  put id
                    (record {
                      status = queued;
                      attempt = attempt_of (lookup id s.attempts) + 1;
                      queue_reason = waiting;
                      failure_reason = no_failure;
                    })
                    s.tasks;
            }
          ] in
              SameStatus (lookup j q.tasks) (lookup j s.tasks))) [
                | some t ↦ λ e.
                    put-SameStatus id _ s.tasks
                      (rw e (record {
                        preparing_too = refl;
                        running_too = refl;
                        completed_too = refl;
                        sound_too = refl;
                      }))
                      j
                | none ↦ λ e.
                    put-SameStatus id _ s.tasks
                      (rw e (record {
                        preparing_too = refl;
                        running_too = refl;
                        completed_too = refl;
                        sound_too = refl;
                      }))
                      j
              ]
      refl

queue_activity-Consistent :
    (id : String) (s : Progress) → Consistent s → Consistent (queue_activity id s)
queue_activity-Consistent id s h =
    let same = queue_activity-SameStatus id s in
    unfold queue_activity in
    record {
      starts = λ j. ground (arith, h.starts j, (same j).preparing_too);
      runs = λ j. ground (arith, h.runs j, (same j).running_too);
      ends = λ j. ground (arith, h.ends j, (same j).completed_too);
      sound = λ j. ground (arith, h.sound j, (same j).sound_too);
      few = ground (arith, h.few);
    }

pub queue_ready-Consistent :
    (ids : List String) (s : Progress) → Consistent s → Consistent (queue_ready_activities ids s)
unfolding queue_ready_activities
queue_ready-Consistent [] s h = h
queue_ready-Consistent (id ∷ ids) s h =
    queue_ready-Consistent ids (queue_activity id s) (queue_activity-Consistent id s h)

pub queue_ready-AtRest :
    (ids : List String) (s : Progress) (j : String)
    → AtRest s j
    → AtRest (queue_ready_activities ids s) j
unfolding queue_ready_activities
queue_ready-AtRest [] s j h = h
queue_ready-AtRest (id ∷ ids) s j h =
    let same = queue_activity-SameStatus id s j in
    queue_ready-AtRest ids (queue_activity id s) j
      (ground (arith, h, same.running_too, same.completed_too))

pub mark_pending-tasks : (ids : List String) (s : Progress) → (mark_pending ids s).tasks ≡ s.tasks
unfolding mark_pending
mark_pending-tasks [] s = refl
mark_pending-tasks (id ∷ ids) s = mark_pending-tasks ids _

pub mark_pending-Consistent :
    (ids : List String) (s : Progress) → Consistent s → Consistent (mark_pending ids s)
unfolding mark_pending
mark_pending-Consistent [] s h = h
mark_pending-Consistent (id ∷ ids) s h =
    mark_pending-Consistent ids _ (same_maps s _ refl refl refl refl h)

abbrev being_started : String → Progress → TaskExecution
being_started id s = record (task_of (lookup id s.tasks)) {
  status = preparing;
  queue_reason = synchronizing;
}

begin_start-Consistent :
    (id : String) (s : Progress)
    → AtRest s id
    → leb ready_activity_concurrency (length s.pending_starts) ≡ false
    → Consistent s
    → Consistent (begin_start id s)
unfolding begin_start
begin_start-Consistent id s r room h =
    let t = being_started id s in
    record {
      starts = λ j.
          ground (arith, h.starts j, contains-add id s.pending_starts j, lookup-put id j t s.tasks);
      runs = λ j. ground (arith, h.runs j, r, str_iff j id, lookup-put id j t s.tasks);
      ends = λ j. ground (arith, h.ends j, r, str_iff j id, lookup-put id j t s.tasks);
      sound = λ j. ground (arith, h.sound j, lookup-put id j t s.tasks);
      few = ground (arith, h.few);
    }

begin_start-AtRest :
    (id : String) (s : Progress) (ids : List String)
    → All (AtRest s) ids
    → All (AtRest (begin_start id s)) ids
unfolding begin_start
begin_start-AtRest id s [] h = tt
begin_start-AtRest id s (j ∷ js) h =
    let t = being_started id s in
    (ground (arith, h.0, lookup-put id j t s.tasks), begin_start-AtRest id s js h.1)

pub begin_starts-Consistent :
    (ids : List String) (s : Progress)
    → All (AtRest s) ids
    → Consistent s
    → Consistent (begin_starts ids s)
unfolding begin_starts
begin_starts-Consistent [] s a h = h
begin_starts-Consistent (id ∷ ids) s a h =
    elim (leb ready_activity_concurrency (length s.pending_starts))
        as (λ b.
          leb ready_activity_concurrency (length s.pending_starts) ≡ b
          → Consistent (if b then s else begin_starts ids (begin_start id s))) [
            | true ↦ λ e. h
            | false ↦ λ e.
                begin_starts-Consistent ids (begin_start id s) (begin_start-AtRest id s ids a.1)
                  (begin_start-Consistent id s a.0 e h)
          ]
      refl
