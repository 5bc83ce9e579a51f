-- ===== src/Queue/Invariant.antt =====
-- What holds of every row of queue_jobs between two transactions.
use akoflow.Prelude.{
  ℕ, String, Bool, true, false, not, List, [], ◌∷◌, Option, none, some, All, All-append,
  Option-cases, inl, inr, Bool-cases, ◌≡◌, ◌+◌, ◌≤◌, ◌<◌, arith, ltb, length, keep, nat_eq, ◌==◌,
  string_eq, ◌||◌,
}
use akoflow.Queue.{Job, pending, validate}
use akoflow.Queue.Store.{Store, is_pending, is_leased, audit_mutation, record_lifecycle}
use akoflow.Queue.Repository.{
  is_open, publish_valid, insert_job, publish, inserted_row, with_times, complete, complete_row,
  renew_lease, retry, retry_row, cancel, cancel_row, cancel_by_aggregate, release_expired,
  release_row,
}
use akoflow.Queue.Admission.{AdmissionPayload, Candidate}
use akoflow.Queue.Lease.{lease, selection, lease_one, lease_all, lease_row, is_waiting}
use akoflow.Queue.History.{
  Call, publishes, leases, completes, renews, retries, cancels, cancels_aggregate, releases, after,
  step, run,
}
use akoflow.Queue.Rows.{take_row-jobs, All-update_where}

abbrev pub is_set {ℓ} : {A : Type ℓ} → Option A → Bool
is_set none = false
is_set (some a) = true

pub record IsSound (j : Job) : Type 0 where
  pub within : j.attempts ≤ j.max_attempts
  pub spare : is_pending j.status ≡ true → j.attempts < j.max_attempts
  pub owned :
      is_leased j.status ≡ true
      → ((j.lease_owner == "") ≡ false) × (is_set j.lease_expires_at ≡ true) × (0 < j.attempts)
  pub unowned : is_leased j.status ≡ false → (j.lease_owner ≡ "") × (j.lease_expires_at ≡ none)
  pub ended : is_set j.completed_at ≡ not (is_open j.status)
  pub begun : 0 < j.attempts → is_set j.started_at ≡ true

complete_row-IsSound : (at : ℕ) (j : Job) → IsSound j → IsSound (complete_row at j)
unfolding complete_row
complete_row-IsSound at j v = ground arith

cancel_row-IsSound : (at : ℕ) (j : Job) → IsSound j → IsSound (cancel_row at j)
unfolding cancel_row
cancel_row-IsSound at j v = ground arith

retry_row-IsSound : (m : String) (at : ℕ) (j : Job) → IsSound j → IsSound (retry_row m at j)
unfolding retry_row
retry_row-IsSound m at j v = ground arith

release_row-IsSound : (now : ℕ) (j : Job) → IsSound j → IsSound (release_row now j)
unfolding release_row
release_row-IsSound now j v = ground arith

renew_row-IsSound :
    (at : ℕ) (j : Job)
    → IsSound j
    → is_leased j.status ≡ true
    → IsSound (record j { lease_expires_at = some at })
renew_row-IsSound at j v h = ground arith

lease_row-IsSound :
    (owner : String) (now expires : ℕ) (j : Job)
    → (owner == "") ≡ false
    → IsSound j
    → is_pending j.status ≡ true
    → IsSound (lease_row owner now expires j)
unfolding lease_row
lease_row-IsSound owner now expires j o v h = ground arith

abbrev pub Sound : Store → Type 0
Sound s = All IsSound s.jobs

-- Publishing is sound for a job as the constructor of jobs makes it.
pub record IsFresh (j : Job) : Type 0 where
  pub waiting : j.status ≡ pending
  pub unused : j.attempts ≡ 0

inserted-IsSound :
    (now : ℕ) (j : Job) → IsFresh j → validate j ≡ none → IsSound (inserted_row (with_times now j))
unfolding inserted_row with_times validate
inserted-IsSound now j f v = ground arith

insert_job-Sound :
    (s : Store) (existing taken : Option Job) (j : Job)
    → Sound s
    → IsSound (inserted_row j)
    → Sound (after s (insert_job s existing taken j))
unfolding insert_job record_lifecycle
insert_job-Sound s (some e) taken j h v = h
insert_job-Sound s none (some t) j h v = h
insert_job-Sound s none none j h v = All-append IsSound s.jobs (inserted_row j ∷ []) h (v, tt)

publish-Sound :
    (s : Store) (now : ℕ) (j : Job) → IsFresh j → Sound s → Sound (after s (publish s now j))
unfolding publish publish_valid
publish-Sound s now j f h = elim (Option-cases (validate j)) [
  | inl e ↦ rw e (insert_job-Sound s _ _ (with_times now j) h (inserted-IsSound now j f e))
  | inr (x, e) ↦ rw e h
]

audit_mutation-Sound :
    (p : Job → Bool) (f : Job → Job) (s : Store)
    → ((j : Job) → IsSound j → p j ≡ true → IsSound (f j))
    → Sound s
    → Sound (audit_mutation p f s).0
unfolding audit_mutation
audit_mutation-Sound p f s step h = All-update_where IsSound p f step s.jobs h

lease_one-Sound :
    (owner : String) (now expires : ℕ) (c : Candidate) (r : Store × List Job)
    → (owner == "") ≡ false
    → Sound r.0
    → Sound (lease_one owner now expires c r).0
unfolding lease_one
lease_one-Sound owner now expires c (s, out) o h =
    elim (Bool-cases (length (keep (is_waiting c.id) s.jobs) == 1)) [
      | inl e ↦
          rw (e, take_row-jobs)
            (All-update_where IsSound _ _
              (λ j v w. lease_row-IsSound owner now expires j o v (ground arith)) s.jobs h)
      | inr e ↦ rw e h
    ]

lease_all-Sound :
    (owner : String) (now expires : ℕ) (cs : List Candidate) (r : Store × List Job)
    → (owner == "") ≡ false
    → Sound r.0
    → Sound (lease_all owner now expires cs r).0
unfolding lease_all
lease_all-Sound owner now expires [] r o h = h
lease_all-Sound owner now expires (c ∷ cs) r o h =
    lease_all-Sound owner now expires cs (lease_one owner now expires c r) o
      (lease_one-Sound owner now expires c r o h)

module _ (decode : List ℕ → Option AdmissionPayload) where
  lease-Sound :
      (s : Store) (now : ℕ) (owner : String) (categories : List String) (limit duration : ℕ)
      → Sound s
      → Sound (after s (lease decode s now owner categories limit duration))
  unfolding lease
  lease-Sound s now owner categories limit duration h = elim (Bool-cases (owner == "")) [
    | inl e ↦ rw e h
    | inr e ↦ elim (Bool-cases (ltb limit 1 || ltb duration 1)) [
      | inl g ↦ rw (e, g) h
      | inr g ↦
          rw (e, g)
            (lease_all-Sound owner now (now + duration) (selection decode s now categories limit)
              (s, []) e h)
    ]
  ]

  -- What a caller may publish: a new job.
  abbrev pub Admits : Call → Type 0
  Admits (publishes now j) = IsFresh j
  Admits _ = Unit

  pub step-Sound : (s : Store) (c : Call) → Admits c → Sound s → Sound (step decode s c)
  unfolding step complete renew_lease retry cancel cancel_by_aggregate release_expired
  step-Sound s (publishes now j) f h = publish-Sound s now j f h
  step-Sound s (leases now owner categories limit duration) f h =
      lease-Sound s now owner categories limit duration h
  step-Sound s (completes id owner at) f h =
      audit_mutation-Sound _ _ s (λ j v _. complete_row-IsSound at j v) h
  step-Sound s (renews id owner at) f h =
      All-update_where IsSound _ _ (λ j v w. renew_row-IsSound at j v (ground arith)) s.jobs h
  step-Sound s (retries id owner m at) f h =
      audit_mutation-Sound _ _ s (λ j v _. retry_row-IsSound m at j v) h
  step-Sound s (cancels id at) f h =
      audit_mutation-Sound _ _ s (λ j v _. cancel_row-IsSound at j v) h
  step-Sound s (cancels_aggregate kind id at) f h =
      audit_mutation-Sound _ _ s (λ j v _. cancel_row-IsSound at j v) h
  step-Sound s (releases now) f h =
      audit_mutation-Sound _ _ s (λ j v _. release_row-IsSound now j v) h

  -- From a sound table, whatever history of calls it serves, every row stays within its attempts, has
  -- an owner and an expiry exactly while it is leased, and a completion time exactly once it is closed.
  pub run-Sound : (s : Store) (cs : List Call) → All Admits cs → Sound s → Sound (run decode s cs)
  unfolding run
  run-Sound s [] f h = h
  run-Sound s (c ∷ cs) f h = run-Sound (step decode s c) cs f.1 (step-Sound s c f.0 h)
