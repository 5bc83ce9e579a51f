-- ===== src/Tests/QueueTests.antt =====
-- The queue's theorems at concrete inputs.
use akoflow.Prelude.{
  ◌+◌, String, List, [], ◌∷◌, map, some, All, ◌≡◌, refl, length, arith, Result, ok, err, ◌≤◌, ◌<◌,
  string_eq, nat_eq, trim_space, str_iff,
}
use akoflow.Queue.{Status, Job, Error, not_one_row, pending, completed, failed, validate}
use akoflow.Queue.Store.{
  Store, find_row, update_where, returning, lifecycle, record_lifecycle, audit_mutation,
}
use akoflow.Queue.Repository.{
  complete, complete_row, retry, retry_row, renew_lease, release_expired, release_row, cancel,
  cancel_row, publish, publish_valid, insert_job, inserted_row, with_times, find_key,
}
use akoflow.Queue.Admission.{
  select, candidate_of, execution_environment_keys, candidate_keys, environment_owner_keys,
  environment_conflict, leased_execution_environments, pending_lease_candidates, sort_rows,
  insert_row, before,
}
use akoflow.Queue.Lease.{lease, lease_one, lease_all, lease_row, selection}
use akoflow.Queue.History.{Call, publishes, leases, completes, retries, releases, after, step, run}
use akoflow.Queue.Invariant.{Sound, IsFresh, run-Sound}
use akoflow.Queue.States.{Moves, step-Moves, run-closed}
use akoflow.Queue.Selection.{Disjoint, AllPairs, Apart, Settled, keys, select_admits}
use akoflow.Queue.Ownership.{Distinct, worker_calls_outcome, released_worker_fenced}
use akoflow.Queue.Exclusive.{Exclusive}
use akoflow.Queue.Exclusive.Loop.{lease-Exclusive}
use akoflow.Queue.Idempotency.{run-Distinct}
use akoflow.Queue.Retries.{Round, failing_rounds, failing_rounds_lem}
use akoflow.Queue.Revival.{renew_lease-not-Exclusive}
use akoflow.Tests.QueueSamples.{
  sample_decode, first, second, third, planning, waiting_store, held, held_store, store_of,
}

-- What a run of the queue computes through.
queue : Unit {0}
unfolding lease lease_one lease_all lease_row selection select candidate_keys
    execution_environment_keys environment_owner_keys environment_conflict
    leased_execution_environments pending_lease_candidates sort_rows insert_row before find_row
    update_where returning lifecycle record_lifecycle audit_mutation complete complete_row retry
    retry_row renew_lease release_expired release_row cancel cancel_row publish publish_valid
    insert_job inserted_row with_times find_key validate step run trim_space
queue = tt

abbrev leased_ids : Result Error (Store × List Job) → List String
leased_ids (ok (s, js)) = map (λ j. j.id) js
leased_ids (err e) = []

-- The second execution waits for the first, which runs in its environment; the third does not.
lease_test : leased_ids (lease sample_decode waiting_store 10 "w1" [] 5 10) ≡ "a" ∷ "c" ∷ []
unfolding queue
lease_test = refl

abbrev statuses : Store → List Status
statuses s = map (λ j. j.status) s.jobs

abbrev story : List Call
story =
    publishes 5 first
    ∷ publishes 5 second
    ∷ leases 10 "w1" [] 5 10
    ∷ retries "a" "w1" "boom" 12
    ∷ leases 13 "w2" [] 5 10
    ∷ releases 30
    ∷ leases 31 "w1" [] 5 10
    ∷ completes "a" "w1" 33
    ∷ []

story_test : statuses (run sample_decode (store_of []) story) ≡ completed ∷ pending ∷ []
unfolding queue
story_test = refl

fresh : (j : Job) → j.status ≡ pending → j.attempts ≡ 0 → IsFresh j
fresh j p a = record { waiting = p; unused = a }

run-Sound_example : Sound (run sample_decode (store_of []) story)
run-Sound_example =
    run-Sound sample_decode (store_of []) story
      (fresh first refl refl, (fresh second refl refl, (tt, (tt, (tt, (tt, (tt, (tt, tt)))))))) tt

step-Moves_example :
    (k : Job) × (find_row "a" (step sample_decode waiting_store (leases 10 "w1" [] 5 10)).jobs
      ≡ some k)
    × Moves first k
step-Moves_example =
    step-Moves sample_decode waiting_store (leases 10 "w1" [] 5 10) "a" first (unfold queue in refl)

abbrev done : Job
done = record first { status = completed; attempts = 1; completed_at = some 7 }

run-closed_example :
    find_row "a" (run sample_decode (store_of (done ∷ second ∷ [])) story).jobs ≡ some done
run-closed_example =
    run-closed sample_decode story (store_of (done ∷ second ∷ [])) "a" done (unfold queue in refl)
      refl

held-Distinct : Distinct held_store.jobs
unfolding queue
held-Distinct = (refl, (refl, tt))

worker_calls_outcome_example :
    ((complete held_store "a" "w2" 15).1 ≡ some not_one_row)
    × (find_row "a" (complete held_store "a" "w2" 15).0.jobs ≡ some (held first 20))
    × ((retry held_store "a" "w2" "boom" 15).1 ≡ some not_one_row)
    × (find_row "a" (retry held_store "a" "w2" "boom" 15).0.jobs ≡ some (held first 20))
    × ((renew_lease held_store "a" "w2" 15).1 ≡ some not_one_row)
    × (find_row "a" (renew_lease held_store "a" "w2" 15).0.jobs ≡ some (held first 20))
worker_calls_outcome_example =
    worker_calls_outcome held_store "a" "w2" "boom" 15 (held first 20) held-Distinct
      (unfold queue in refl)

released_worker_fenced_example :
    let s' = (release_expired held_store 25).0 in
    ((complete s' "a" "w1" 26).1 ≡ some not_one_row)
    × ((retry s' "a" "w1" "late" 26).1 ≡ some not_one_row)
    × ((renew_lease s' "a" "w1" 26).1 ≡ some not_one_row)
    × (find_row "a" (complete s' "a" "w1" 26).0.jobs ≡ some (release_row 25 (held first 20)))
    × (find_row "a" (retry s' "a" "w1" "late" 26).0.jobs ≡ some (release_row 25 (held first 20)))
    × (find_row "a" (renew_lease s' "a" "w1" 26).0.jobs ≡ some (release_row 25 (held first 20)))
released_worker_fenced_example =
    released_worker_fenced held_store 25 26 "a" "w1" "late" (held first 20) held-Distinct
      (unfold queue in refl) refl refl

select_admits_example :
    let cs = map candidate_of (first ∷ second ∷ third ∷ []) in
    let chosen = select sample_decode cs ("west" ∷ []) [] 1 in
    (length chosen ≤ 1)
    × All (λ c. Disjoint (keys sample_decode [] c) ("west" ∷ [])) chosen
    × AllPairs (Apart sample_decode []) chosen
    × All (Settled sample_decode [] chosen ("west" ∷ []) 1) cs
select_admits_example =
    select_admits sample_decode [] (map candidate_of (first ∷ second ∷ third ∷ [])) ("west" ∷ []) 1

-- One running execution shares no environment with another.
held-Exclusive : Exclusive sample_decode [] 10 held_store.jobs
unfolding queue
held-Exclusive a b j k e f n l m =
    ground (arith, str_iff "a" a, str_iff "a" b, str_iff "b" a, str_iff "b" b, str_iff a b)

lease-Exclusive_example :
    Exclusive sample_decode [] 10
      (after held_store (lease sample_decode held_store 10 "w2" [] 5 10)).jobs
lease-Exclusive_example =
    lease-Exclusive sample_decode held_store 10 "w2" [] 5 10 held-Distinct held-Exclusive

run-Distinct_example : Distinct (run sample_decode held_store story).jobs
run-Distinct_example = run-Distinct sample_decode story held_store held-Distinct

abbrev published : Store
published = record (store_of (planning ∷ [])) { audit = lifecycle [] planning ∷ [] }

abbrev rounds : List Round
rounds =
    record { owner = "w"; leased_at = 10; expires = 20; message = "boom"; available_at = 12 }
    ∷ record { owner = "w"; leased_at = 13; expires = 23; message = "boom"; available_at = 16 }
    ∷ []

failing_rounds_lem_example :
    (0 + 2 < 2
      → ((failing_rounds rounds first).status ≡ pending)
        × ((failing_rounds rounds first).attempts ≡ 0 + 2))
    × (0 + 2 ≡ first.max_attempts
        → ((failing_rounds rounds first).status ≡ failed)
          × ((failing_rounds rounds first).attempts ≡ 2))
failing_rounds_lem_example = failing_rounds_lem rounds first refl (omega arith)

renew_lease-not-Exclusive_example :
    ¬ Exclusive sample_decode [] 25
      (renew_lease (store_of (held first 20 ∷ held second 40 ∷ [])) "a" "w1" 35).0.jobs
renew_lease-not-Exclusive_example =
    renew_lease-not-Exclusive sample_decode (store_of (held first 20 ∷ held second 40 ∷ [])) 25 35
      "a" "b" "w1" "east" (held first 20) (held second 40) (unfold queue in refl)
      (unfold queue in refl) refl refl refl refl refl refl (unfold queue in refl)
      (unfold queue in refl) (omega arith)
