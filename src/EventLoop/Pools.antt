-- ===== src/EventLoop/Pools.antt =====
-- The loop as a machine over two pools of slots, from Run and drain of eventloop.go: a tick or a
-- wake-up leases jobs into the free slots, and a handler that ends frees its slot. The goroutines
-- interleave in any order.
use akoflow.Prelude.{
  ℕ, zero, suc, ◌+◌, ◌-◌, ◌≤◌, String, List, [], ◌∷◌, ◌++◌, Option, none, some, length,
  length-append, arith, ltb, Bool-cases, inl, inr, ◌==◌, string_eq, ◌||◌, keep, nat_eq,
}
use akoflow.Queue.{Job}
use akoflow.Queue.Store.{Store}
use akoflow.Queue.Repository.{release_expired}
use akoflow.Queue.Admission.{
  AdmissionPayload, Candidate, pending_lease_candidates, leased_execution_environments,
}
use akoflow.Queue.Lease.{lease, selection, lease_one, lease_all, take_row, is_waiting}
use akoflow.Queue.Selection.{length-select-le}
use akoflow.EventLoop.{Config, leased_jobs, drain, split_categories, handled}

-- The store, the jobs in each pool's slots.
pub record Loop : Type 0 where
  pub store : Store
  pub infrastructure : List Job
  pub regular : List Job

-- The slot that frees is the one of the job at a position.
abbrev pub remove_at : ℕ → List Job → List Job
remove_at i [] = []
remove_at zero (j ∷ js) = js
remove_at (suc i) (j ∷ js) = j ∷ remove_at i js

abbrev pub job_at : ℕ → List Job → Option Job
job_at i [] = none
job_at zero (j ∷ js) = some j
job_at (suc i) (j ∷ js) = job_at i js

pub data Event : Type 0 where
  ticks wakes : ℕ → Event
  infrastructure_ends regular_ends : ℕ → Option String → ℕ → Event

handle_end : Config → Store → Option Job → Option String → ℕ → Store
handle_end c s none result now = s
handle_end c s (some j) result now = handled c s j result now

module _ (decode : List ℕ → Option AdmissionPayload) (c : Config) where
  unfoldable pub drain_both : ℕ → Loop → Loop
  drain_both now l =
      let (infrastructure, regular) = split_categories c.categories in
      let (s, more) =
        drain decode c l.store now c.infrastructure_concurrency (length l.infrastructure)
          infrastructure in
      let (s', others) = drain decode c s now c.concurrency (length l.regular) regular in
      record {
        store = s';
        infrastructure = l.infrastructure ++ more;
        regular = l.regular ++ others;
      }

  unfoldable pub step : Loop → Event → Loop
  unfolding handle_end
  step l (ticks now) = drain_both now (record l { store = (release_expired l.store now).0 })
  step l (wakes now) = drain_both now l
  step l (infrastructure_ends i result now) = record l {
    store = handle_end c l.store (job_at i l.infrastructure) result now;
    infrastructure = remove_at i l.infrastructure;
  }
  step l (regular_ends i result now) = record l {
    store = handle_end c l.store (job_at i l.regular) result now;
    regular = remove_at i l.regular;
  }

  unfoldable pub run : Loop → List Event → Loop
  run l [] = l
  run l (e ∷ es) = run (step l e) es

  pub record IsBounded (l : Loop) : Type 0 where
    pub infrastructure_bounded : length l.infrastructure ≤ c.infrastructure_concurrency
    pub regular_bounded : length l.regular ≤ c.concurrency

length-remove_at-le : (i : ℕ) (js : List Job) → length (remove_at i js) ≤ length js
length-remove_at-le i [] = omega arith
length-remove_at-le zero (j ∷ js) = omega arith
length-remove_at-le (suc i) (j ∷ js) = omega (arith, length-remove_at-le i js)

take_row-length : (o : Option Job) (r : Store × List Job) → length (take_row o r).1 ≤ length r.1 + 1
take_row-length none (s, out) = omega arith
take_row-length (some j) (s, out) = omega (arith, length-append out (j ∷ []))

lease_one-length :
    (owner : String) (now expires : ℕ) (d : Candidate) (r : Store × List Job)
    → length (lease_one owner now expires d r).1 ≤ length r.1 + 1
unfolding lease_one
lease_one-length owner now expires d (s, out) =
    elim (Bool-cases (length (keep (is_waiting d.id) s.jobs) == 1)) [
      | inl e ↦ rw e (take_row-length _ _)
      | inr e ↦ rw e (omega arith)
    ]

lease_all-length :
    (owner : String) (now expires : ℕ) (ds : List Candidate) (r : Store × List Job)
    → length (lease_all owner now expires ds r).1 ≤ length r.1 + length ds
unfolding lease_all
lease_all-length owner now expires [] r = omega arith
lease_all-length owner now expires (d ∷ ds) r = omega (
  arith,
  lease_one-length owner now expires d r,
  lease_all-length owner now expires ds (lease_one owner now expires d r),
)

module _ (decode : List ℕ → Option AdmissionPayload) (c : Config) where
  leased_jobs-length :
      (s : Store) (now room : ℕ) (categories : List String)
      → length
          (leased_jobs decode s (lease decode s now c.owner categories room c.lease_duration)).1
        ≤ room
  unfolding leased_jobs lease selection
  leased_jobs-length s now room categories =
      elim (Bool-cases (c.owner == "" || (ltb room 1 || ltb c.lease_duration 1))) [
        | inl e ↦ rw e (omega arith)
        | inr e ↦ rw e (
            omega (
              arith,
              lease_all-length c.owner now (now + c.lease_duration)
                  (selection decode s now categories room) (s, []),
              length-select-le decode s.owners (pending_lease_candidates now categories s.jobs)
                  (leased_execution_environments decode now s.owners s.jobs) room,
            ))
      ]

  drain-length :
      (s : Store) (now cap len : ℕ) (categories : List String)
      → len ≤ cap
      → len + length (drain decode c s now cap len categories).1 ≤ cap
  unfolding drain
  drain-length s now cap len [] h = omega arith
  drain-length s now cap len (g ∷ gs) h = elim (Bool-cases (ltb len cap)) [
    | inl e ↦ rw e (omega (arith, leased_jobs-length s now (cap - len) (g ∷ gs)))
    | inr e ↦ rw e (omega arith)
  ]

  drain_both-IsBounded :
      (now : ℕ) (l : Loop) → IsBounded decode c l → IsBounded decode c (drain_both decode c now l)
  unfolding drain_both
  drain_both-IsBounded now l b = record {
    infrastructure_bounded = omega (
      arith,
      length-append {0} l.infrastructure,
      drain-length l.store now c.infrastructure_concurrency (length l.infrastructure)
          (split_categories c.categories).0 b.infrastructure_bounded,
    );
    regular_bounded = omega (
      arith,
      length-append {0} l.regular,
      drain-length _ now c.concurrency (length l.regular) (split_categories c.categories).1
          b.regular_bounded,
    );
  }

  -- However ticks, wake-ups and ends of handlers interleave, neither pool runs more jobs than it has
  -- slots.
  pub run-IsBounded :
      (es : List Event) (l : Loop) → IsBounded decode c l → IsBounded decode c (run decode c l es)
  unfolding run step
  run-IsBounded [] l b = b
  run-IsBounded (ticks now ∷ es) l b = run-IsBounded es _ (
      drain_both-IsBounded now _ (record {
        infrastructure_bounded = b.infrastructure_bounded;
        regular_bounded = b.regular_bounded;
      }))
  run-IsBounded (wakes now ∷ es) l b = run-IsBounded es _ (drain_both-IsBounded now l b)
  run-IsBounded (infrastructure_ends i result now ∷ es) l b = run-IsBounded es _ (record {
    infrastructure_bounded =
        omega (arith, length-remove_at-le i l.infrastructure, b.infrastructure_bounded);
    regular_bounded = b.regular_bounded;
  })
  run-IsBounded (regular_ends i result now ∷ es) l b = run-IsBounded es _ (record {
    infrastructure_bounded = b.infrastructure_bounded;
    regular_bounded = omega (arith, length-remove_at-le i l.regular, b.regular_bounded);
  })
