-- ===== src/Queue/States.antt =====
-- The life of a row: how each transaction moves it, and that a closed row is never touched again.
use akoflow.Prelude.{
  ℕ, ◌+◌, ◌<◌, String, Bool, true, false, List, [], ◌∷◌, Option, none, some, ◌≡◌, refl, ◌⊎◌, inl,
  inr, arith, ◌==◌, string_eq, nat_eq, Bool-cases, Option-cases, ◌||◌, ltb, length, keep,
}
use akoflow.Queue.{Status, pending, leased, completed, failed, cancelled, Job, validate}
use akoflow.Queue.Store.{
  Store, is_pending, is_leased, update_where, find_row, audit_mutation, record_lifecycle,
}
use akoflow.Queue.Repository.{
  is_open, exhausted, held_by, publish, publish_valid, insert_job, with_times, complete,
  complete_row, renew_lease, retry, retry_row, cancel, cancel_row, cancel_by_aggregate,
  release_expired, release_row,
}
use akoflow.Queue.Admission.{AdmissionPayload, Candidate}
use akoflow.Queue.Lease.{lease, selection, lease_one, lease_all, lease_row, is_waiting}
use akoflow.Queue.History.{
  Call, publishes, leases, completes, renews, retries, cancels, cancels_aggregate, releases, after,
  step, run,
}
use akoflow.Queue.Rows.{take_row-jobs, find_row-update_where, find_row-append}

-- The moves of a row from one transaction to the next.
pub data Moves (j k : Job) : Type 0 where
  stays : k ≡ j → Moves j k
  taken : j.status ≡ pending → k.status ≡ leased → k.attempts ≡ j.attempts + 1 → Moves j k
  renewed :
      j.status ≡ leased
      → k.status ≡ leased
      → k.attempts ≡ j.attempts
      → k.lease_owner ≡ j.lease_owner
      → Moves j k
  returned :
      j.status ≡ leased
      → k.status ≡ pending
      → k.attempts ≡ j.attempts
      → j.attempts < j.max_attempts
      → Moves j k
  succeeded : j.status ≡ leased → k.status ≡ completed → k.attempts ≡ j.attempts → Moves j k
  gave_up :
      j.status ≡ leased
      → k.status ≡ failed
      → k.attempts ≡ j.attempts
      → exhausted j ≡ true
      → Moves j k
  withdrawn : is_open j.status ≡ true → k.status ≡ cancelled → k.attempts ≡ j.attempts → Moves j k

-- The row of an id before and after.
abbrev pub Follows : (Job → Job → Type 0) → String → List Job → List Job → Type 0
Follows R id js ks =
    (j : Job) → find_row id js ≡ some j → (k : Job) × (find_row id ks ≡ some k) × R j k

leased_of : (s : Status) → is_leased s ≡ true → s ≡ leased
leased_of leased h = refl
leased_of pending h = cc
leased_of completed h = cc
leased_of failed h = cc
leased_of cancelled h = cc

pending_of : (s : Status) → is_pending s ≡ true → s ≡ pending
pending_of pending h = refl
pending_of leased h = cc
pending_of completed h = cc
pending_of failed h = cc
pending_of cancelled h = cc

update_where-Follows :
    (p : Job → Bool) (f : Job → Job)
    → ((j : Job) → (f j).id ≡ j.id)
    → ((j : Job) → p j ≡ true → Moves j (f j))
    → (id : String) (js : List Job) → Follows Moves id js (update_where p f js)
update_where-Follows p f same move id js j e = elim (Bool-cases (p j)) [
  | inl h ↦ (f j, rw h at (find_row-update_where p f same id js j e), move j h)
  | inr h ↦ (j, rw h at (find_row-update_where p f same id js j e), stays refl)
]

retry_row-Moves :
    (m : String) (at : ℕ) (j : Job) → is_leased j.status ≡ true → Moves j (retry_row m at j)
unfolding retry_row
retry_row-Moves m at j h = elim (Bool-cases (exhausted j)) [
  | inl e ↦ gave_up (leased_of j.status h) (ground arith) refl e
  | inr e ↦ returned (leased_of j.status h) (ground arith) refl (ground arith)
]

release_row-Moves : (now : ℕ) (j : Job) → is_leased j.status ≡ true → Moves j (release_row now j)
unfolding release_row
release_row-Moves now j h = elim (Bool-cases (exhausted j)) [
  | inl e ↦ gave_up (leased_of j.status h) (ground arith) refl e
  | inr e ↦ returned (leased_of j.status h) (ground arith) refl (ground arith)
]

-- What a lease does to a row: nothing, or one taking.
abbrev Takes : String → ℕ → ℕ → Job → Job → Type 0
Takes owner now expires j k =
    (k ≡ j) ⊎ ((is_pending j.status ≡ true) × (k ≡ lease_row owner now expires j))

module _ (owner : String) (now expires : ℕ) where
  Takes-trans :
      (i j k : Job)
      → Takes owner now expires i j
      → Takes owner now expires j k
      → Takes owner now expires i k
  unfolding lease_row
  Takes-trans i j k a b = ground arith

  lease_row-Takes :
      (p : Job → Bool)
      → ((j : Job) → p j ≡ true → is_pending j.status ≡ true)
      → (js : List Job) (id : String)
      → Follows (Takes owner now expires) id js (update_where p (lease_row owner now expires) js)
  unfolding lease_row
  lease_row-Takes p waits js id j e = elim (Bool-cases (p j)) [
    | inl h ↦ (
      lease_row owner now expires j,
      rw h at (find_row-update_where p (lease_row owner now expires) (λ k. refl) id js j e),
      inr (waits j h, refl),
    )
    | inr h ↦ (
      j,
      rw h at (find_row-update_where p (lease_row owner now expires) (λ k. refl) id js j e),
      inl refl,
    )
  ]

  lease_one-Takes :
      (c : Candidate) (r : Store × List Job) (id : String)
      → Follows (Takes owner now expires) id r.0.jobs (lease_one owner now expires c r).0.jobs
  unfolding lease_one
  lease_one-Takes c (s, out) id j e =
      elim (Bool-cases (length (keep (is_waiting c.id) s.jobs) == 1)) [
        | inl one ↦
            rw (one, take_row-jobs)
              (lease_row-Takes (is_waiting c.id) (λ j h. ground arith) s.jobs id j e)
        | inr other ↦ rw other (j, e, inl refl)
      ]

  lease_all-Takes :
      (cs : List Candidate) (r : Store × List Job) (id : String)
      → Follows (Takes owner now expires) id r.0.jobs (lease_all owner now expires cs r).0.jobs
  unfolding lease_all
  lease_all-Takes [] r id j e = (j, e, inl refl)
  lease_all-Takes (c ∷ cs) r id j e =
      let (k, ek, m) = lease_one-Takes c r id j e in
      let (l, el, n) = lease_all-Takes cs (lease_one owner now expires c r) id k ek in
      (l, el, Takes-trans j k l m n)

Takes-Moves :
    (owner : String) (now expires : ℕ) (j k : Job) → Takes owner now expires j k → Moves j k
unfolding lease_row
Takes-Moves owner now expires j k (inl e) = stays e
Takes-Moves owner now expires j k (inr (h, e)) =
    taken (pending_of j.status h) (ground arith) (ground arith)

insert_job-Moves :
    (s : Store) (existing other : Option Job) (j : Job) (id : String)
    → Follows Moves id s.jobs (after s (insert_job s existing other j)).jobs
unfolding insert_job record_lifecycle
insert_job-Moves s (some k) other j id i e = (i, e, stays refl)
insert_job-Moves s none (some t) j id i e = (i, e, stays refl)
insert_job-Moves s none none j id i e = (i, find_row-append id s.jobs _ i e, stays refl)

publish-Moves :
    (s : Store) (now : ℕ) (j : Job) (id : String)
    → Follows Moves id s.jobs (after s (publish s now j)).jobs
unfolding publish publish_valid
publish-Moves s now j id = elim (Option-cases (validate j)) [
  | inl e ↦ rw e (insert_job-Moves s _ _ (with_times now j) id)
  | inr (x, e) ↦ rw e (λ i h. (i, h, stays refl))
]

module _ (decode : List ℕ → Option AdmissionPayload) where
  lease-Moves :
      (s : Store) (now : ℕ) (owner : String) (categories : List String) (limit duration : ℕ)
      (id : String)
      → Follows Moves id s.jobs (after s (lease decode s now owner categories limit duration)).jobs
  unfolding lease
  lease-Moves s now owner categories limit duration id j e =
      elim (Bool-cases (owner == "" || (ltb limit 1 || ltb duration 1))) [
        | inl g ↦ rw g (j, e, stays refl)
        | inr g ↦
            let (k, ek, t) =
              lease_all-Takes owner now (now + duration) (selection decode s now categories limit)
                (s, []) id j e in
            rw g (k, ek, Takes-Moves owner now (now + duration) j k t)
      ]

  -- No call loses a row, and each moves it at most once, along an arrow of the job's life.
  pub step-Moves :
      (s : Store) (c : Call) (id : String) → Follows Moves id s.jobs (step decode s c).jobs
  unfolding step complete renew_lease retry cancel cancel_by_aggregate release_expired
      audit_mutation
  step-Moves s (publishes now j) id = publish-Moves s now j id
  step-Moves s (leases now owner categories limit duration) id =
      lease-Moves s now owner categories limit duration id
  step-Moves s (completes i owner at) id =
      update_where-Follows (held_by i owner) (complete_row at) (λ j. unfold complete_row in refl)
        (λ j h.
          succeeded (leased_of j.status (ground arith)) (unfold complete_row in refl)
            (unfold complete_row in refl))
        id s.jobs
  step-Moves s (renews i owner at) id =
      update_where-Follows (held_by i owner) (λ j. record j { lease_expires_at = some at })
        (λ j. refl)
        (λ j h.
          renewed (leased_of j.status (ground arith)) (leased_of j.status (ground arith)) refl refl)
        id s.jobs
  step-Moves s (retries i owner m at) id =
      update_where-Follows (held_by i owner) (retry_row m at) (λ j. unfold retry_row in refl)
        (λ j h. retry_row-Moves m at j (ground arith)) id s.jobs
  step-Moves s (cancels i at) id =
      update_where-Follows _ (cancel_row at) (λ j. unfold cancel_row in refl)
        (λ j h. withdrawn (ground arith) (unfold cancel_row in refl) (unfold cancel_row in refl)) id
        s.jobs
  step-Moves s (cancels_aggregate kind i at) id =
      update_where-Follows _ (cancel_row at) (λ j. unfold cancel_row in refl)
        (λ j h. withdrawn (ground arith) (unfold cancel_row in refl) (unfold cancel_row in refl)) id
        s.jobs
  step-Moves s (releases now) id =
      update_where-Follows _ (release_row now) (λ j. unfold release_row in refl)
        (λ j h. release_row-Moves now j (ground arith)) id s.jobs

Moves-closed : (j k : Job) → is_open j.status ≡ false → Moves j k → k ≡ j
Moves-closed j k h (stays e) = e
Moves-closed j k h (taken e _ _) = ground arith
Moves-closed j k h (renewed e _ _ _) = ground arith
Moves-closed j k h (returned e _ _ _) = ground arith
Moves-closed j k h (succeeded e _ _) = ground arith
Moves-closed j k h (gave_up e _ _ _) = ground arith
Moves-closed j k h (withdrawn e _ _) = ground arith

module _ (decode : List ℕ → Option AdmissionPayload) where
  -- A completed, failed or cancelled row is what it was after any history of calls.
  pub run-closed :
      (cs : List Call) (s : Store) (id : String) (j : Job)
      → find_row id s.jobs ≡ some j
      → is_open j.status ≡ false
      → find_row id (run decode s cs).jobs ≡ some j
  unfolding run
  run-closed [] s id j e h = e
  run-closed (c ∷ cs) s id j e h =
      let (k, ek, m) = step-Moves decode s c id j e in
      run-closed cs (step decode s c) id j (rw (← Moves-closed j k h m) ek) h
