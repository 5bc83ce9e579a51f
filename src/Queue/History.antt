-- ===== src/Queue/History.antt =====
-- The calls that a queue serves, and the store that a history of them leaves: what the workers, the
-- event loop and the application do to one database, one transaction after another.
use akoflow.Prelude.{ℕ, String, List, [], ◌∷◌, Option, Result, ok, err}
use akoflow.Queue.{Job, Error}
use akoflow.Queue.Store.{Store}
use akoflow.Queue.Repository.{
  publish, complete, renew_lease, retry, cancel, cancel_by_aggregate, release_expired,
}
use akoflow.Queue.Admission.{AdmissionPayload}
use akoflow.Queue.Lease.{lease}

pub data Call : Type 0 where
  publishes : ℕ → Job → Call
  leases : ℕ → String → List String → ℕ → ℕ → Call
  completes : String → String → ℕ → Call
  renews : String → String → ℕ → Call
  retries : String → String → String → ℕ → Call
  cancels : String → ℕ → Call
  cancels_aggregate : String → String → ℕ → Call
  releases : ℕ → Call

-- A transaction that returns an error is rolled back.
abbrev pub after {ℓ} : {A : Type ℓ} → Store → Result Error (Store × A) → Store
after s (ok (s', a)) = s'
after s (err e) = s

module _ (decode : List ℕ → Option AdmissionPayload) where
  unfoldable pub step : Store → Call → Store
  step s (publishes now j) = after s (publish s now j)
  step s (leases now owner categories limit duration) =
      after s (lease decode s now owner categories limit duration)
  step s (completes id owner at) = (complete s id owner at).0
  step s (renews id owner expires_at) = (renew_lease s id owner expires_at).0
  step s (retries id owner message at) = (retry s id owner message at).0
  step s (cancels id at) = (cancel s id at).0
  step s (cancels_aggregate kind id at) = (cancel_by_aggregate s kind id at).0
  step s (releases now) = (release_expired s now).0

  unfoldable pub run : Store → List Call → Store
  run s [] = s
  run s (c ∷ cs) = run (step s c) cs
