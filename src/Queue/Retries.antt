-- ===== src/Queue/Retries.antt =====
-- A job whose handler fails each time it is leased.
use akoflow.Prelude.{ℕ, suc, ◌+◌, ◌<◌, String, List, [], ◌∷◌, length, ◌≡◌, arith}
use akoflow.Queue.{Job, pending, failed}
use akoflow.Queue.Repository.{retry_row}
use akoflow.Queue.Lease.{lease_row}

-- A lease of the row, and the retry that the failing handler leads to.
pub record Round : Type 0 where
  pub owner : String
  pub leased_at : ℕ
  pub expires : ℕ
  pub message : String
  pub available_at : ℕ

unfoldable pub failing_round : Round → Job → Job
failing_round r j = retry_row r.message r.available_at (lease_row r.owner r.leased_at r.expires j)

unfoldable pub failing_rounds : List Round → Job → Job
failing_rounds [] j = j
failing_rounds (r ∷ rs) j = failing_rounds rs (failing_round r j)

round_waits :
    (r : Round) (j : Job)
    → suc j.attempts < j.max_attempts
    → ((failing_round r j).status ≡ pending)
      × ((failing_round r j).attempts ≡ suc j.attempts)
      × ((failing_round r j).max_attempts ≡ j.max_attempts)
unfolding failing_round retry_row lease_row
round_waits r j h = ground arith

round_ends :
    (r : Round) (j : Job)
    → suc j.attempts ≡ j.max_attempts
    → ((failing_round r j).status ≡ failed) × ((failing_round r j).attempts ≡ j.max_attempts)
unfolding failing_round retry_row lease_row
round_ends r j h = ground arith

-- A pending job whose handler always fails is pending again after each attempt but the last, and
-- failed after the last one that max_attempts allows.
pub failing_rounds_lem :
    (rs : List Round) (j : Job)
    → j.status ≡ pending
    → j.attempts < j.max_attempts
    → (j.attempts + length rs < j.max_attempts
        → ((failing_rounds rs j).status ≡ pending)
          × ((failing_rounds rs j).attempts ≡ j.attempts + length rs))
      × (j.attempts + length rs ≡ j.max_attempts
          → ((failing_rounds rs j).status ≡ failed)
            × ((failing_rounds rs j).attempts ≡ j.max_attempts))
unfolding failing_rounds
failing_rounds_lem [] j p h = (λ _. (p, omega arith), λ e. absurd (omega arith))
failing_rounds_lem (r ∷ []) j p h = (
  λ l. (let (s, a, _) = round_waits r j (omega arith) in (s, omega (arith, a))),
  λ e. round_ends r j (omega arith),
)
failing_rounds_lem (r ∷ q ∷ rs) j p h = (
  λ l.
      (let (s, a, m) = round_waits r j (omega arith) in
        let (w, n) =
          (failing_rounds_lem (q ∷ rs) (failing_round r j) s (omega (arith, a, m))).0
            (omega (arith, a, m)) in
        (w, omega (arith, a, n))),
  λ e.
      (let (s, a, m) = round_waits r j (omega arith) in
        let (w, n) =
          (failing_rounds_lem (q ∷ rs) (failing_round r j) s (omega (arith, a, m))).1
            (omega (arith, a, m)) in
        (w, omega (arith, m, n))),
)
