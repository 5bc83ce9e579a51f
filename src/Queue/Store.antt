-- ===== src/Queue/Store.antt =====
-- The tables that internal/infrastructure/database/queue reads and writes, the SQL that it uses on
-- them, and the audit entries of audit.go. Each statement is taken to succeed: a failing database
-- rolls the transaction back. Which request a job came from is bound outside of the queue.
use akoflow.Prelude.{
  ℕ, String, Bool, true, false, List, [], ◌∷◌, ◌++◌, map, Option, none, some, keep, lookup, ◌==◌,
  string_eq, if◌then◌else◌,
}
use akoflow.Queue.{Status, pending, leased, completed, failed, cancelled, Job}

pub data Outcome : Type 0 where
  started succeeded outcome_failed : Outcome

-- An entry of audit_events, with the fields that depend on the job.
pub record LifecycleEvent : Type 0 where
  pub job_id : String
  pub attempt : ℕ
  pub status : Status
  pub outcome : Outcome
  pub kind : String
  pub entity_id : String
  pub execution_id : String
  pub activity_id : String
  pub operation_id : String
  pub session_id : String

-- queue_jobs, environment_versions (version to environment), the run and activity of each row of
-- task_executions, and audit_events.
pub record Store : Type 0 where
  pub jobs : List Job
  pub owners : List (String × String)
  pub task_runs : List (String × (String × String))
  pub audit : List LifecycleEvent

abbrev pub is_pending : Status → Bool
is_pending pending = true
is_pending _ = false

abbrev pub is_leased : Status → Bool
is_leased leased = true
is_leased _ = false

-- The rows that an UPDATE leaves, and those that its RETURNING clause lists.
unfoldable pub update_where : (Job → Bool) → (Job → Job) → List Job → List Job
update_where p f [] = []
update_where p f (j ∷ js) = (if p j then f j else j) ∷ update_where p f js

unfoldable pub returning : (Job → Bool) → (Job → Job) → List Job → List Job
returning p f js = map f (keep p js)

unfoldable pub find_row : String → List Job → Option Job
find_row id [] = none
find_row id (j ∷ js) = if j.id == id then some j else find_row id js

outcome_of : Status → Outcome
outcome_of completed = succeeded
outcome_of failed = outcome_failed
outcome_of cancelled = outcome_failed
outcome_of _ = started

abbrev entry : Job → String → String → String → String → String → String → LifecycleEvent
unfolding outcome_of
entry j kind entity_id run activity operation session = record {
  job_id = j.id;
  attempt = j.attempts;
  status = j.status;
  outcome = outcome_of j.status;
  kind = kind;
  entity_id = entity_id;
  execution_id = run;
  activity_id = activity;
  operation_id = operation;
  session_id = session;
}

activity_entry : Option (String × String) → Job → LifecycleEvent
unfolding outcome_of
activity_entry none j = entry j "queue_job" j.id "" "" "" ""
activity_entry (some (run, activity)) j =
    if run == ""
    then entry j "queue_job" j.id "" activity "" ""
    else entry j "execution_run" run run activity "" ""

-- RecordLifecycle: the entry that is appended for one job.
unfoldable pub lifecycle : List (String × (String × String)) → Job → LifecycleEvent
unfolding outcome_of activity_entry
lifecycle task_runs j =
    if j.aggregate_type == "execution_run"
    then entry j "execution_run" j.aggregate_id j.aggregate_id "" "" ""
    else if j.aggregate_type == "cloud_operation"
    then entry j "cloud_operation" j.aggregate_id "" "" j.aggregate_id ""
    else if j.aggregate_type == "activity_execution"
    then activity_entry (lookup j.aggregate_id task_runs) j
    else if j.aggregate_type == "planning_session"
    then entry j "planning_session" j.aggregate_id "" "" "" j.aggregate_id
    else entry j "queue_job" j.id "" "" "" ""

unfoldable pub record_lifecycle : Store → Job → Store
record_lifecycle s j = record s { audit = s.audit ++ lifecycle s.task_runs j ∷ [] }

-- auditMutation: an UPDATE, an entry for each row that it changed, and their number.
unfoldable pub audit_mutation : (Job → Bool) → (Job → Job) → Store → Store × List Job
audit_mutation p f s =
    let changed = returning p f s.jobs in
    (
      record s {
        jobs = update_where p f s.jobs;
        audit = s.audit ++ map (lifecycle s.task_runs) changed;
      },
      changed,
    )
