-- ===== src/Tests/QueueSamples.antt =====
-- A small queue: two executions in one environment, and a planning job.
use akoflow.Prelude.{ℕ, pos, String, List, [], ◌∷◌, Option, none, some, ◌==◌, nat_eq, if◌then◌else◌}
use akoflow.Queue.{Job, pending, leased}
use akoflow.Queue.Store.{Store}
use akoflow.Queue.Admission.{AdmissionPayload}

-- Payloads of one byte: 1 runs on the east cluster, 2 on the west one.
abbrev pub sample_decode : List ℕ → Option AdmissionPayload
sample_decode [] = none
sample_decode (n ∷ _) = some (record {
  mode = "real";
  assignments = "r" ∷ [];
  resources = ("r", if n == 1 then "east" else "west") ∷ [];
})

abbrev pub waiting_job : String → String → String → List ℕ → Job
waiting_job id category event payload = record {
  id = id;
  category = category;
  event_type = event;
  aggregate_type = "execution_run";
  aggregate_id = "run";
  payload = payload;
  status = pending;
  priority = pos 0;
  available_at = 5;
  lease_owner = "";
  lease_expires_at = none;
  attempts = 0;
  max_attempts = 2;
  idempotency_key = "";
  last_error = "";
  created_at = 5;
  started_at = none;
  completed_at = none;
}

abbrev pub execution : String → List ℕ → Job
execution id payload = waiting_job id "execution" "execution.run.requested" payload

abbrev pub first : Job
first = execution "a" (1 ∷ [])

abbrev pub second : Job
second = execution "b" (1 ∷ [])

abbrev pub third : Job
third = execution "c" (2 ∷ [])

abbrev pub planning : Job
planning =
    let j : Job = waiting_job "p" "planning" "planning.session.requested" [] in
    record j { idempotency_key = "session" }

abbrev pub store_of : List Job → Store
store_of js = record { jobs = js; owners = []; task_runs = []; audit = [] }

abbrev pub waiting_store : Store
waiting_store = store_of (first ∷ second ∷ third ∷ [])

abbrev pub held : Job → ℕ → Job
held j expires = record j {
  status = leased;
  lease_owner = "w1";
  lease_expires_at = some expires;
  attempts = 1;
  started_at = some 10;
}

-- The first execution is leased until 20.
abbrev pub held_store : Store
held_store = store_of (held first 20 ∷ second ∷ [])
