-- ===== src/Queue/Idempotency.antt =====
-- One job for each idempotency key, over any history; and ids stay distinct over it.
use akoflow.Prelude.{
  ℕ, ◌+◌, String, Bool, List, [], ◌∷◌, ◌++◌, Option, none, some, ◌≡◌, refl, ap, inl, inr, ◌==◌,
  string_eq, nat_eq, Bool-cases, Option-cases, ◌||◌, ltb, length, keep,
}
use akoflow.Queue.{Job, pending, validate}
use akoflow.Queue.Store.{Store, update_where, find_row, audit_mutation, record_lifecycle}
use akoflow.Queue.Repository.{
  find_key, publish, publish_valid, insert_job, inserted_row, with_times, complete, complete_row,
  renew_lease, retry, retry_row, cancel, cancel_row, cancel_by_aggregate, release_expired,
  release_row,
}
use akoflow.Queue.Admission.{AdmissionPayload, Candidate}
use akoflow.Queue.Lease.{lease, selection, lease_one, lease_all, lease_row, is_waiting}
use akoflow.Queue.History.{
  Call, publishes, leases, completes, renews, retries, cancels, cancels_aggregate, releases, after,
  step, run,
}
use akoflow.Queue.Rows.{take_row-jobs}
use akoflow.Queue.Ownership.{Distinct, update_where-Distinct, append-Distinct}

-- What a job is from its publication on: its other fields record what became of it.
abbrev pub content : Job → Job
content j = record j {
  status = pending;
  available_at = 0;
  lease_owner = "";
  lease_expires_at = none;
  attempts = 0;
  last_error = "";
  started_at = none;
  completed_at = none;
}

-- A property of the table that updates keep, if they leave the contents alone, and that inserts keep.
record Lasting (P : List Job → Type 0) : Type 0 where
  updates :
      (p : Job → Bool) (f : Job → Job)
      → ((j : Job) → content (f j) ≡ content j)
      → (js : List Job) → P js
      → P (update_where p f js)
  inserts : (js : List Job) (j : Job) → find_row j.id js ≡ none → P js → P (js ++ j ∷ [])

module _ (P : List Job → Type 0) (law : Lasting P) where
  lease_one-Lasting :
      (owner : String) (now expires : ℕ) (c : Candidate) (r : Store × List Job)
      → P r.0.jobs
      → P (lease_one owner now expires c r).0.jobs
  unfolding lease_one
  lease_one-Lasting owner now expires c (s, out) h =
      elim (Bool-cases (length (keep (is_waiting c.id) s.jobs) == 1)) [
        | inl one ↦
            rw (one, take_row-jobs)
              (law.updates (is_waiting c.id) (lease_row owner now expires)
                (λ j. unfold lease_row in refl) s.jobs h)
        | inr other ↦ rw other h
      ]

  lease_all-Lasting :
      (owner : String) (now expires : ℕ) (cs : List Candidate) (r : Store × List Job)
      → P r.0.jobs
      → P (lease_all owner now expires cs r).0.jobs
  unfolding lease_all
  lease_all-Lasting owner now expires [] r h = h
  lease_all-Lasting owner now expires (c ∷ cs) r h =
      lease_all-Lasting owner now expires cs (lease_one owner now expires c r)
        (lease_one-Lasting owner now expires c r h)

  insert_job-Lasting :
      (s : Store) (existing : Option Job) (j : Job)
      → P s.jobs
      → P (after s (insert_job s existing (find_row j.id s.jobs) j)).jobs
  unfolding insert_job record_lifecycle
  insert_job-Lasting s (some k) j h = h
  insert_job-Lasting s none j h = elim (Option-cases (find_row j.id s.jobs)) [
    | inl e ↦ rw (e, insert_job) (law.inserts s.jobs (inserted_row j) (unfold inserted_row in e) h)
    | inr (k, e) ↦ rw (e, insert_job) h
  ]

  publish-Lasting : (s : Store) (now : ℕ) (j : Job) → P s.jobs → P (after s (publish s now j)).jobs
  unfolding publish publish_valid
  publish-Lasting s now j h = elim (Option-cases (validate j)) [
    | inl e ↦ rw e (insert_job-Lasting s _ (with_times now j) h)
    | inr (x, e) ↦ rw e h
  ]

  module _ (decode : List ℕ → Option AdmissionPayload) where
    lease-Lasting :
        (s : Store) (now : ℕ) (owner : String) (categories : List String) (limit duration : ℕ)
        → P s.jobs
        → P (after s (lease decode s now owner categories limit duration)).jobs
    unfolding lease
    lease-Lasting s now owner categories limit duration h =
        elim (Bool-cases (owner == "" || (ltb limit 1 || ltb duration 1))) [
          | inl g ↦ rw g h
          | inr g ↦ rw g (
              lease_all-Lasting owner now (now + duration) (selection decode s now categories limit)
                (s, []) h)
        ]

    step-Lasting : (s : Store) (c : Call) → P s.jobs → P (step decode s c).jobs
    unfolding step complete renew_lease retry cancel cancel_by_aggregate release_expired
        audit_mutation complete_row retry_row cancel_row release_row
    step-Lasting s (publishes now j) h = publish-Lasting s now j h
    step-Lasting s (leases now owner categories limit duration) h =
        lease-Lasting s now owner categories limit duration h
    step-Lasting s (completes id owner at) h = law.updates _ (complete_row at) (λ j. refl) s.jobs h
    step-Lasting s (renews id owner at) h = law.updates _ _ (λ j. refl) s.jobs h
    step-Lasting s (retries id owner m at) h = law.updates _ (retry_row m at) (λ j. refl) s.jobs h
    step-Lasting s (cancels id at) h = law.updates _ (cancel_row at) (λ j. refl) s.jobs h
    step-Lasting s (cancels_aggregate kind id at) h =
        law.updates _ (cancel_row at) (λ j. refl) s.jobs h
    step-Lasting s (releases now) h = law.updates _ (release_row now) (λ j. refl) s.jobs h

    run-Lasting : (cs : List Call) (s : Store) → P s.jobs → P (run decode s cs).jobs
    unfolding run
    run-Lasting [] s h = h
    run-Lasting (c ∷ cs) s h = run-Lasting cs (step decode s c) (step-Lasting s c h)

-- Distinct ids last.
Distinct-Lasting : Lasting Distinct
Distinct-Lasting = record {
  updates = λ p f same js d. update_where-Distinct p f (λ j. ap (λ x. x.id) (same j)) js d;
  inserts = λ js j e d. append-Distinct js j e d;
}

pub run-Distinct :
    (decode : List ℕ → Option AdmissionPayload) (cs : List Call) (s : Store)
    → Distinct s.jobs
    → Distinct (run decode s cs).jobs
run-Distinct decode cs s d = run-Lasting Distinct Distinct-Lasting decode cs s d

-- The row that holds a key, and its content.
Holds : String → Job → List Job → Type 0
Holds key c js = (r : Job) × (find_key key js ≡ some r) × (content r ≡ c)
