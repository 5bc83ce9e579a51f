-- ===== src/Supervision/Consistent.antt =====
-- Proofs about the agreement of the maps of the loop with the statuses of its tasks: results of starts
-- and of allocations.
use akoflow.Prelude.{
  ◌≤◌, length-remove-le, String, Bool, true, false, not, Option, none, some, ◌≡◌, refl, arith, add,
  remove, contains, lookup, contains-add, contains-remove, lookup-put, length, ◌==◌, string_eq,
  str_iff, ◌&&◌, if◌then◌else◌,
}
use akoflow.Workspace.Recovery.{RuntimeAllocation}
use akoflow.CloudStops.{queued, preparing, running, completed}
use akoflow.Supervision.{no_failure, Progress, TaskExecution}
use akoflow.Supervision.Events.{
  Effect, StartResult, started, refused, AllocationResult, allocated, not_allocated, task_of,
  keep_allocation, started_activity, apply_start_result, consume_start, consume_allocation,
}
use akoflow.Supervision.Loop.{ready_activity_concurrency}

abbrev pub is_preparing : Option TaskExecution → Bool
is_preparing none = false
is_preparing (some t) = elim t.status [ preparing ↦ true | _ ↦ false ]

abbrev pub is_running : Option TaskExecution → Bool
is_running none = false
is_running (some t) = elim t.status [ running ↦ true | _ ↦ false ]

abbrev pub is_completed : Option TaskExecution → Bool
is_completed none = false
is_completed (some t) = elim t.status [ completed ↦ true | _ ↦ false ]

-- A task that is waiting, at work or completed.
abbrev pub is_sound : Option TaskExecution → Bool
is_sound none = true
is_sound (some t) = elim t.status [
  | queued ↦ true
  | preparing ↦ true
  | running ↦ true
  | completed ↦ true
  | _ ↦ false
]

pub record Consistent (s : Progress) : Type 0 where
  pub starts : (id : String) → contains s.pending_starts id ≡ is_preparing (lookup id s.tasks)
  pub runs : (id : String) → contains s.running id ≡ is_running (lookup id s.tasks)
  pub ends : (id : String) → contains s.completed id ≡ is_completed (lookup id s.tasks)
  pub sound : (id : String) → is_sound (lookup id s.tasks) ≡ true
  pub few : length s.pending_starts ≤ ready_activity_concurrency

-- The same, with the start of `id` taken out of the map of those that are pending.
record Taken (id : String) (s : Progress) : Type 0 where
  pub was : is_preparing (lookup id s.tasks) ≡ true
  pub starts :
      (j : String)
      → contains s.pending_starts j ≡ (not (j == id) && is_preparing (lookup j s.tasks))
  pub runs : (j : String) → contains s.running j ≡ is_running (lookup j s.tasks)
  pub ends : (j : String) → contains s.completed j ≡ is_completed (lookup j s.tasks)
  pub sound : (j : String) → is_sound (lookup j s.tasks) ≡ true
  pub few : length s.pending_starts ≤ ready_activity_concurrency

remove-Taken :
    (id : String) (s : Progress)
    → Consistent s
    → contains s.pending_starts id ≡ true
    → Taken id (record s { pending_starts = remove id s.pending_starts })
remove-Taken id s h p = record {
  was = ground (arith, h.starts id);
  starts = λ j. ground (arith, h.starts j, contains-remove id s.pending_starts j);
  runs = h.runs;
  ends = h.ends;
  sound = h.sound;
  few = ground (arith, h.few, length-remove-le id s.pending_starts);
}

started_activity-Consistent :
    (id : String) (a : RuntimeAllocation) (at_once : Bool) (e : Option String) (s : Progress)
    → Taken id s
    → (started_activity id a at_once e s).1 ≡ none
    → Consistent (started_activity id a at_once e s).0
unfolding started_activity
started_activity-Consistent id a true (some x) s h none_yet = cc
started_activity-Consistent id a false e s h none_yet =
    let t : TaskExecution = record {
      status = running;
      attempt = (task_of (lookup id s.tasks)).attempt;
      queue_reason = "";
      failure_reason = no_failure;
    } in
    record {
      starts = λ j. ground (arith, h.starts j, lookup-put id j t s.tasks);
      runs = λ j. ground (arith, h.runs j, lookup-put id j t s.tasks, contains-add id s.running j);
      ends =
          λ j. ground (arith, h.ends j, h.was, h.ends id, lookup-put id j t s.tasks, str_iff j id);
      sound = λ j. ground (arith, h.sound j, lookup-put id j t s.tasks);
      few = h.few;
    }
started_activity-Consistent id a true none s h none_yet =
    let t : TaskExecution = record {
      status = completed;
      attempt = (task_of (lookup id s.tasks)).attempt;
      queue_reason = "";
      failure_reason = no_failure;
    } in
    record {
      starts = λ j. ground (arith, h.starts j, lookup-put id j t s.tasks);
      runs = λ j. ground (
        arith,
        h.runs j,
        lookup-put id j t s.tasks,
        contains-add id s.running j,
        contains-remove id (add id s.running) j,
      );
      ends =
          λ j. ground (arith, h.ends j, lookup-put id j t s.tasks, contains-add id s.completed j);
      sound = λ j. ground (arith, h.sound j, lookup-put id j t s.tasks);
      few = h.few;
    }

apply_start_result-Consistent :
    (id : String) (r : StartResult) (s : Progress)
    → Taken id s
    → (apply_start_result id r s).1 ≡ none
    → Consistent (apply_start_result id r s).0
unfolding apply_start_result
apply_start_result-Consistent id (refused a e uncertain) s h none_yet = cc
apply_start_result-Consistent id (started a at_once e) s h none_yet =
    let h' : Taken id (keep_allocation id a s) = record {
      was = ground (arith, h.was);
      starts = λ j. ground (arith, h.starts j);
      runs = λ j. ground (arith, h.runs j);
      ends = λ j. ground (arith, h.ends j);
      sound = λ j. ground (arith, h.sound j);
      few = ground (arith, h.few);
    } in
    started_activity-Consistent id a at_once e (keep_allocation id a s) h' none_yet

pub consume_start-Consistent :
    (r : String × StartResult) (s : Progress)
    → Consistent s
    → (consume_start r s).1 ≡ none
    → Consistent (consume_start r s).0
unfolding consume_start
consume_start-Consistent (id, r) s h =
    let s' : Progress = record s { pending_starts = remove id s.pending_starts } in
    elim (contains s.pending_starts id)
        as (λ b.
          contains s.pending_starts id ≡ b
          → (let o : Effect = if b then apply_start_result id r s' else (s, none) in
              o.1 ≡ none → Consistent o.0)) [
                | true ↦ λ e. apply_start_result-Consistent id r s' (remove-Taken id s h e)
                | false ↦ λ e f. h
              ]
      refl

-- Where only other maps change, the agreement stands.
pub same_maps :
    (s t : Progress)
    → t.pending_starts ≡ s.pending_starts
    → t.running ≡ s.running
    → t.completed ≡ s.completed
    → t.tasks ≡ s.tasks
    → Consistent s
    → Consistent t
same_maps s t a b c d h = record {
  starts = λ j. rw (a, d) (h.starts j);
  runs = λ j. rw (b, d) (h.runs j);
  ends = λ j. rw (c, d) (h.ends j);
  sound = λ j. rw d (h.sound j);
  few = rw a h.few;
}

pub consume_allocation-Consistent :
    (r : String × AllocationResult) (s : Progress)
    → Consistent s
    → Consistent (consume_allocation r s).0
unfolding consume_allocation
consume_allocation-Consistent (id, not_allocated e) s h =
    same_maps s _ (ground arith) (ground arith) (ground arith) (ground arith) h
consume_allocation-Consistent (id, allocated a) s h =
    same_maps s _ (ground arith) (ground arith) (ground arith) (ground arith) h
