-- ===== src/Queue/Revival.antt =====
-- RenewLease looks at the owner of a lease and not at its expiry.
use akoflow.Prelude.{
  ℕ, ◌<◌, String, true, false, List, Option, some, ◌≡◌, refl, arith, contains, ◌==◌, string_eq,
}
use akoflow.Queue.{Job}
use akoflow.Queue.Store.{Store, find_row}
use akoflow.Queue.Repository.{held_by, renew_lease}
use akoflow.Queue.Admission.{AdmissionPayload, is_execution_run, is_live, unexpired}
use akoflow.Queue.Rows.{find_row-update_where}
use akoflow.Queue.Exclusive.{Exclusive, row_keys}

renewed_row :
    (s : Store) (a owner : String) (expires : ℕ) (j : Job)
    → find_row a s.jobs ≡ some j
    → held_by a owner j ≡ true
    → find_row a (renew_lease s a owner expires).0.jobs
      ≡ some (record j { lease_expires_at = some expires })
unfolding renew_lease
renewed_row s a owner expires j f h = rw h at (
    find_row-update_where (held_by a owner)
      (λ (i : Job). record i { lease_expires_at = some expires }) (λ i. refl) a s.jobs j f)

other_row :
    (s : Store) (a owner : String) (expires : ℕ) (b : String) (k : Job)
    → find_row b s.jobs ≡ some k
    → (k.id == a) ≡ false
    → find_row b (renew_lease s a owner expires).0.jobs ≡ some k
unfolding renew_lease
other_row s a owner expires b k f m = rw m at (
    find_row-update_where (held_by a owner)
      (λ (i : Job). record i { lease_expires_at = some expires }) (λ i. refl) b s.jobs k f)

revived :
    (now expires : ℕ) (j : Job) (a owner : String)
    → held_by a owner j ≡ true
    → is_execution_run j.category j.event_type ≡ true
    → now < expires
    → is_live now (record j { lease_expires_at = some expires }) ≡ true
revived now expires j a owner h x lt = ground arith

-- Where an execution's lease has run out and another execution runs in one of its environments, the
-- worker that still holds the first may renew it, and then two executions run in that environment.
pub renew_lease-not-Exclusive :
    (decode : List ℕ → Option AdmissionPayload) (s : Store) (now expires : ℕ)
    (a b owner key : String) (j k : Job)
    → find_row a s.jobs ≡ some j
    → find_row b s.jobs ≡ some k
    → (a == b) ≡ false
    → (k.id == a) ≡ false
    → held_by a owner j ≡ true
    → is_execution_run j.category j.event_type ≡ true
    → unexpired now j.lease_expires_at ≡ false
    → is_live now k ≡ true
    → contains (row_keys decode s.owners now j) key ≡ true
    → contains (row_keys decode s.owners now k) key ≡ true
    → now < expires
    → ¬ Exclusive decode s.owners now (renew_lease s a owner expires).0.jobs
renew_lease-not-Exclusive decode s now expires a b owner key j k fj fk n m h x old l cj ck lt ex =
    ground (
      arith,
      ck,
      ex a b (record j { lease_expires_at = some expires }) k (renewed_row s a owner expires j fj h)
          (other_row s a owner expires b k fk m) n (revived now expires j a owner h x lt) l key cj,
    )
