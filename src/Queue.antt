-- ===== src/Queue.antt =====
-- The queue's job, from internal/domain/queue/job.go.
-- A time is a number of nanoseconds, and 0 is Go's zero time. `attempts` and `max_attempts` count,
-- so they are natural numbers.
pub mod Store
pub mod Repository
pub mod Admission
pub mod Lease
pub mod Rows
pub mod History
pub mod Invariant
pub mod Selection
pub mod States
pub mod Ownership
pub mod Exclusive
pub mod Idempotency
pub mod Retries
pub mod Revival
use akoflow.Prelude.{
  ℕ, ℤ, pos, String, Bool, List, Option, none, some, ltb, ◌==◌, ◌||◌, string_eq, nat_eq,
  if◌then◌else◌,
}

pub data Status : Type 0 where
  pending leased completed failed cancelled : Status

pub data Category : Type 0 where
  environment orchestration execution monitoring transfer maintenance planning infrastructure :
      Category

abbrev pub category_name : Category → String
category_name environment = "environment"
category_name orchestration = "orchestration"
category_name execution = "execution"
category_name monitoring = "monitoring"
category_name transfer = "transfer"
category_name maintenance = "maintenance"
category_name planning = "planning"
category_name infrastructure = "infrastructure"

pub record Job : Type 0 where
  pub id : String
  pub category : String
  pub event_type : String
  pub aggregate_type : String
  pub aggregate_id : String
  pub payload : List ℕ
  pub status : Status
  pub priority : ℤ
  pub available_at : ℕ
  pub lease_owner : String
  pub lease_expires_at : Option ℕ
  pub attempts : ℕ
  pub max_attempts : ℕ
  pub idempotency_key : String
  pub last_error : String
  pub created_at : ℕ
  pub started_at : Option ℕ
  pub completed_at : Option ℕ

-- `id` is what newID draws, and `clock` what time.Now reads.
unfoldable pub new : String → ℕ → String → String → List ℕ → ℕ → Option Job
new id clock category event_type payload now =
    if category == "" || event_type == ""
    then none
    else let created : ℕ = if now == 0 then clock else now in
      some (record {
        id = id;
        category = category;
        event_type = event_type;
        aggregate_type = "";
        aggregate_id = "";
        payload = payload;
        status = pending;
        priority = pos 0;
        available_at = created;
        lease_owner = "";
        lease_expires_at = none;
        attempts = 0;
        max_attempts = 5;
        idempotency_key = "";
        last_error = "";
        created_at = created;
        started_at = none;
        completed_at = none;
      })

-- What the operations of the queue return in place of a result.
pub data Error : Type 0 where
  missing_identity bad_max_attempts publish_failed bad_lease_request not_one_row : Error

unfoldable pub validate : Job → Option Error
validate j =
    if j.id == "" || j.category == "" || j.event_type == ""
    then some missing_identity
    else if ltb j.max_attempts 1
    then some bad_max_attempts
    else none
