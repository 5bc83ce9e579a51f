-- ===== src/Queue/Ownership.antt =====
-- Ids are primary keys, so a transaction on one id succeeds exactly when the row of that id meets its
-- guard; a worker whose lease was released has lost the job.
use akoflow.Prelude.{
  ℕ, String, Bool, true, false, List, [], ◌∷◌, ◌++◌, none, some, ◌≡◌, refl, inl, inr, arith, ◌==◌,
  string_eq, nat_eq, str_iff, Bool-cases, if◌then◌else◌, ◌&&◌, keep,
}
use akoflow.Queue.{Job, not_one_row}
use akoflow.Queue.Store.{Store, is_leased, update_where, returning, find_row, audit_mutation}
use akoflow.Queue.Repository.{
  one_row, expired, held_by, complete, complete_row, renew_lease, retry, retry_row, release_expired,
  release_row,
}
use akoflow.Queue.Rows.{find_row-update_where, find_row-none-update_where}

-- No id stands twice.
abbrev pub Distinct : List Job → Type 0
Distinct [] = Unit
Distinct (j ∷ js) = (find_row j.id js ≡ none) × Distinct js

pub update_where-Distinct :
    (p : Job → Bool) (f : Job → Job)
    → ((j : Job) → (f j).id ≡ j.id)
    → (js : List Job) → Distinct js
    → Distinct (update_where p f js)
unfolding update_where
update_where-Distinct p f same [] d = d
update_where-Distinct p f same (j ∷ js) d = (
  (let e : (if p j then f j else j).id ≡ j.id = ground (arith, same j) in
      rw e (find_row-none-update_where p f same j.id js d.0)),
  update_where-Distinct p f same js d.1,
)

find_row-none-append :
    (id : String) (js : List Job) (k : Job)
    → find_row id js ≡ none
    → (k.id == id) ≡ false
    → find_row id (js ++ k ∷ []) ≡ none
unfolding find_row
find_row-none-append id [] k e h = ground arith
find_row-none-append id (j ∷ js) k e h = ground (arith, find_row-none-append id js k)

pub append-Distinct :
    (js : List Job) (k : Job) → find_row k.id js ≡ none → Distinct js → Distinct (js ++ k ∷ [])
unfolding find_row
append-Distinct [] k e d = (refl, tt)
append-Distinct (j ∷ js) k e d = (
  find_row-none-append j.id js k d.0 (ground (arith, str_iff k.id j.id, str_iff j.id k.id)),
  append-Distinct js k (ground arith) d.1,
)

-- A guard that names an id finds that row or none.
abbrev Names : String → (Job → Bool) → Type 0
Names id p = (j : Job) → p j ≡ true → j.id ≡ id

keep-absent :
    (id : String) (p : Job → Bool)
    → Names id p
    → (js : List Job) → find_row id js ≡ none
    → keep p js ≡ []
unfolding find_row
keep-absent id p n [] e = refl
keep-absent id p n (j ∷ js) e = ground (arith, n j, str_iff j.id id, keep-absent id p n js)

keep-found :
    (id : String) (p : Job → Bool)
    → Names id p
    → (js : List Job) (j : Job) → Distinct js
    → find_row id js ≡ some j
    → keep p js ≡ (if p j then j ∷ [] else [])
unfolding find_row
keep-found id p n [] j d e = cc
keep-found id p n (k ∷ ks) j d e = elim (Bool-cases (k.id == id)) [
  | inl h ↦ ground (arith, str_iff k.id id, keep-absent id p n ks)
  | inr h ↦ ground (arith, n k, str_iff k.id id, keep-found id p n ks j)
]

module _ (id : String) (p : Job → Bool) (n : Names id p) (f : Job → Job)
    (same : (j : Job) → (f j).id ≡ j.id) where
  mutation_outcome :
      (s : Store) (j : Job)
      → Distinct s.jobs
      → find_row id s.jobs ≡ some j
      → ((one_row (audit_mutation p f s)).1 ≡ (if p j then none else some not_one_row))
        × (find_row id (one_row (audit_mutation p f s)).0.jobs ≡ some (if p j then f j else j))
  unfolding audit_mutation returning
  mutation_outcome s j d e = (
    rw (keep-found id p n s.jobs j d e) (ground arith),
    find_row-update_where p f same id s.jobs j e,
  )

complete_outcome :
    (s : Store) (id owner : String) (at : ℕ) (j : Job)
    → Distinct s.jobs
    → find_row id s.jobs ≡ some j
    → ((complete s id owner at).1 ≡ (if held_by id owner j then none else some not_one_row))
      × (find_row id (complete s id owner at).0.jobs
          ≡ some (if held_by id owner j then complete_row at j else j))
unfolding complete
complete_outcome s id owner at =
    mutation_outcome id (held_by id owner) (λ j h. ground (arith, str_iff j.id id))
      (complete_row at) (λ j. unfold complete_row in refl) s

retry_outcome :
    (s : Store) (id owner message : String) (at : ℕ) (j : Job)
    → Distinct s.jobs
    → find_row id s.jobs ≡ some j
    → ((retry s id owner message at).1 ≡ (if held_by id owner j then none else some not_one_row))
      × (find_row id (retry s id owner message at).0.jobs
          ≡ some (if held_by id owner j then retry_row message at j else j))
unfolding retry
retry_outcome s id owner message at =
    mutation_outcome id (held_by id owner) (λ j h. ground (arith, str_iff j.id id))
      (retry_row message at) (λ j. unfold retry_row in refl) s

renew_outcome :
    (s : Store) (id owner : String) (at : ℕ) (j : Job)
    → Distinct s.jobs
    → find_row id s.jobs ≡ some j
    → ((renew_lease s id owner at).1 ≡ (if held_by id owner j then none else some not_one_row))
      × (find_row id (renew_lease s id owner at).0.jobs
          ≡ some (if held_by id owner j then (record j { lease_expires_at = some at }) else j))
unfolding renew_lease
renew_outcome s id owner at j d e = (
  rw (keep-found id (held_by id owner) (λ j h. ground (arith, str_iff j.id id)) s.jobs j d e)
      (ground arith),
  find_row-update_where (held_by id owner) _ (λ k. refl) id s.jobs j e,
)

-- The three calls by which a worker reports on a job: no error comes back and the row of that id
-- changes, as the call says, exactly when the job is leased to the caller.
pub worker_calls_outcome :
    (s : Store) (id owner message : String) (at : ℕ) (j : Job)
    → Distinct s.jobs
    → find_row id s.jobs ≡ some j
    → let mine = held_by id owner j in
      ((complete s id owner at).1 ≡ (if mine then none else some not_one_row))
      × (find_row id (complete s id owner at).0.jobs ≡ some (if mine then complete_row at j else j))
      × ((retry s id owner message at).1 ≡ (if mine then none else some not_one_row))
      × (find_row id (retry s id owner message at).0.jobs
          ≡ some (if mine then retry_row message at j else j))
      × ((renew_lease s id owner at).1 ≡ (if mine then none else some not_one_row))
      × (find_row id (renew_lease s id owner at).0.jobs
          ≡ some (if mine then (record j { lease_expires_at = some at }) else j))
worker_calls_outcome s id owner message at j d e =
    let c = complete_outcome s id owner at j d e in
    let r = retry_outcome s id owner message at j d e in
    let w = renew_outcome s id owner at j d e in (c.0, c.1, r.0, r.1, w.0, w.1)

release_expired-row :
    (s : Store) (now : ℕ) (id : String) (j : Job)
    → find_row id s.jobs ≡ some j
    → is_leased j.status ≡ true
    → expired now j.lease_expires_at ≡ true
    → find_row id (release_expired s now).0.jobs ≡ some (release_row now j)
unfolding release_expired audit_mutation
release_expired-row s now id j e l x = ground (
  arith,
  find_row-update_where (λ (k : Job). is_leased k.status && expired now k.lease_expires_at)
      (release_row now) (λ k. unfold release_row in refl) id s.jobs j e,
)

release_expired-Distinct :
    (s : Store) (now : ℕ) → Distinct s.jobs → Distinct (release_expired s now).0.jobs
unfolding release_expired audit_mutation
release_expired-Distinct s now =
    update_where-Distinct _ (release_row now) (λ k. unfold release_row in refl) s.jobs

-- Once an expired lease was released, whoever held it can neither complete nor retry the job nor
-- renew the lease: each call returns an error and leaves the released row.
pub released_worker_fenced :
    (s : Store) (now at : ℕ) (id owner message : String) (j : Job)
    → Distinct s.jobs
    → find_row id s.jobs ≡ some j
    → is_leased j.status ≡ true
    → expired now j.lease_expires_at ≡ true
    → let s' = (release_expired s now).0 in
      ((complete s' id owner at).1 ≡ some not_one_row)
      × ((retry s' id owner message at).1 ≡ some not_one_row)
      × ((renew_lease s' id owner at).1 ≡ some not_one_row)
      × (find_row id (complete s' id owner at).0.jobs ≡ some (release_row now j))
      × (find_row id (retry s' id owner message at).0.jobs ≡ some (release_row now j))
      × (find_row id (renew_lease s' id owner at).0.jobs ≡ some (release_row now j))
released_worker_fenced s now at id owner message j d e l x =
    let s' = (release_expired s now).0 in
    let d' = release_expired-Distinct s now d in
    let e' = release_expired-row s now id j e l x in
    let lost : held_by id owner (release_row now j) ≡ false = unfold release_row in ground arith in
    let c = complete_outcome s' id owner at (release_row now j) d' e' in
    let r = retry_outcome s' id owner message at (release_row now j) d' e' in
    let w = renew_outcome s' id owner at (release_row now j) d' e' in
    (rw lost at c.0, rw lost at r.0, rw lost at w.0, rw lost at c.1, rw lost at r.1, rw lost at w.1)
