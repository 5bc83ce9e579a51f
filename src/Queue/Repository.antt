-- ===== src/Queue/Repository.antt =====
-- The queue's operations but for the lease, from internal/infrastructure/database/queue/repository.go.
-- An operation returns the new store, and an error where the method returns one. Where a method
-- reads the clock, the reading is an argument.
use akoflow.Prelude.{
  ℕ, String, Bool, List, [], ◌∷◌, ◌++◌, Option, none, some, ltb, leb, length, ◌==◌, string_eq,
  nat_eq, ◌&&◌, ◌||◌, keep, if◌then◌else◌, Result, ok, err,
}
use akoflow.Queue.{
  Status, pending, completed, failed, cancelled, Job, Error, publish_failed, not_one_row, validate,
}
use akoflow.Queue.Store.{
  Store, is_pending, is_leased, update_where, find_row, record_lifecycle, audit_mutation,
}

-- WHERE id=? AND status='leased' AND lease_owner=?
abbrev pub held_by : String → String → Job → Bool
held_by id owner j = j.id == id && (is_leased j.status && j.lease_owner == owner)

-- status IN ('pending','leased')
abbrev pub is_open : Status → Bool
is_open s = is_pending s || is_leased s

unfoldable pub find_by_id : Store → String → Option Job
find_by_id s id = find_row id s.jobs

-- The row of an idempotency key.
unfoldable pub find_key : String → List Job → Option Job
find_key key [] = none
find_key key (j ∷ js) = if j.idempotency_key == key then some j else find_key key js

-- ORDER BY created_at DESC LIMIT 1
newest : Option Job → List Job → Option Job
newest best [] = best
newest none (j ∷ js) = newest (some j) js
newest (some b) (j ∷ js) = newest (some (if ltb b.created_at j.created_at then j else b)) js

unfoldable pub find_latest_by_aggregate : Store → String → String → String → Option Job
unfolding newest
find_latest_by_aggregate s kind id event =
    newest none (
      keep (λ j. j.aggregate_type == kind && (j.aggregate_id == id && j.event_type == event))
        s.jobs)

-- The times that Publish fills in.
unfoldable pub with_times : ℕ → Job → Job
with_times now j =
    let available : ℕ = if j.available_at == 0 then now else j.available_at in
    record j {
      available_at = available;
      created_at = if j.created_at == 0 then available else j.created_at;
    }

-- The row that the INSERT writes: the columns that it does not name have their defaults.
unfoldable pub inserted_row : Job → Job
inserted_row j = record j {
  lease_owner = "";
  lease_expires_at = none;
  last_error = "";
  started_at = none;
  completed_at = none;
}

-- A row whose key is taken is not inserted; a row whose id is taken is refused. Publish returns the
-- row that holds the key, or the job that it was given where there is no key.
unfoldable pub insert_job : Store → Option Job → Option Job → Job → Result Error (Store × Job)
insert_job s (some existing) taken j = ok (s, existing)
insert_job s none (some other) j = err publish_failed
insert_job s none none j =
    let row = inserted_row j in
    let result : Job = if j.idempotency_key == "" then j else row in
    ok (record_lifecycle (record s { jobs = s.jobs ++ row ∷ [] }) result, result)

unfoldable pub publish_valid : Store → Job → Result Error (Store × Job)
unfolding insert_job
publish_valid s j =
    insert_job s (if j.idempotency_key == "" then none else find_key j.idempotency_key s.jobs)
      (find_row j.id s.jobs) j

abbrev pub publish_checked : Option Error → Store → Job → Result Error (Store × Job)
unfolding publish_valid
publish_checked (some e) s j = err e
publish_checked none s j = publish_valid s j

unfoldable pub publish : Store → ℕ → Job → Result Error (Store × Job)
unfolding publish_valid
publish s now j = publish_checked (validate j) s (with_times now j)

-- `transition` fails unless the statement changed one row.
abbrev pub one_row : Store × List Job → Store × Option Error
one_row (s, changed) = (s, if length changed == 1 then none else some not_one_row)

unfoldable pub complete_row : ℕ → Job → Job
complete_row at j = record j {
  status = completed;
  completed_at = some at;
  lease_owner = "";
  lease_expires_at = none;
}

unfoldable pub complete : Store → String → String → ℕ → Store × Option Error
complete s id owner at = one_row (audit_mutation (held_by id owner) (complete_row at) s)

unfoldable pub renew_lease : Store → String → String → ℕ → Store × Option Error
renew_lease s id owner expires_at = (
  record s {
    jobs =
        update_where (held_by id owner) (λ j. record j { lease_expires_at = some expires_at })
          s.jobs;
  },
  if length (keep (held_by id owner) s.jobs) == 1 then none else some not_one_row,
)

-- CASE WHEN attempts >= max_attempts
abbrev pub exhausted : Job → Bool
exhausted j = leb j.max_attempts j.attempts

unfoldable pub retry_row : String → ℕ → Job → Job
retry_row message available_at j = record j {
  status = if exhausted j then failed else pending;
  available_at = available_at;
  last_error = message;
  lease_owner = "";
  lease_expires_at = none;
  completed_at = if exhausted j then some available_at else none;
}

-- `message` is the text of the cause, empty where there is none.
unfoldable pub retry : Store → String → String → String → ℕ → Store × Option Error
retry s id owner message available_at =
    one_row (audit_mutation (held_by id owner) (retry_row message available_at) s)

unfoldable pub cancel_row : ℕ → Job → Job
cancel_row at j = record j {
  status = cancelled;
  completed_at = some at;
  lease_owner = "";
  lease_expires_at = none;
}

unfoldable pub cancel : Store → String → ℕ → Store × Option Error
cancel s id at = one_row (audit_mutation (λ j. j.id == id && is_open j.status) (cancel_row at) s)

unfoldable pub cancel_by_aggregate : Store → String → String → ℕ → Store × ℕ
cancel_by_aggregate s kind id at =
    let (s', changed) =
      audit_mutation (λ j. j.aggregate_type == kind && (j.aggregate_id == id && is_open j.status))
        (cancel_row at) s in
    (s', length changed)

abbrev expired_message : Job → String
expired_message j =
    if exhausted j
    then "queue lease expired after maximum attempts; explicit recovery required"
    else "queue lease expired; handler ownership lost"

unfoldable pub release_row : ℕ → Job → Job
release_row now j = record j {
  status = if exhausted j then failed else pending;
  lease_owner = "";
  lease_expires_at = none;
  completed_at = if exhausted j then some now else none;
  last_error = expired_message j;
  available_at = now;
}

-- lease_expires_at <= ?, which holds of no NULL.
abbrev pub expired : ℕ → Option ℕ → Bool
expired now none = Bool.false
expired now (some at) = leb at now

unfoldable pub release_expired : Store → ℕ → Store × ℕ
release_expired s now =
    let (s', changed) =
      audit_mutation (λ j. is_leased j.status && expired now j.lease_expires_at) (release_row now)
        s in
    (s', length changed)
