-- ===== src/Queue/Exclusive/Loop.antt =====
-- The loop of the lease over the chosen candidates, from the table that it starts on.
use akoflow.Prelude.{
  ℕ, ◌+◌, String, false, List, [], ◌∷◌, map, Option, none, some, All, All-keep, ◌≡◌, refl, contains,
  ap, inl, inr, arith, ◌==◌, string_eq, nat_eq, str_iff, beq_refl, Bool-cases, ◌||◌, length, keep,
  ltb,
}
use akoflow.Queue.{Job}
use akoflow.Queue.Store.{Store, find_row}
use akoflow.Queue.Admission.{
  AdmissionPayload, Candidate, candidate_of, candidate_keys, is_candidate, before, insert_row,
  sort_rows, pending_lease_candidates, leased_execution_environments,
}
use akoflow.Queue.Lease.{lease, selection, lease_one, lease_all, is_waiting}
use akoflow.Queue.History.{after}
use akoflow.Queue.Rows.{take_row-jobs}
use akoflow.Queue.Selection.{
  Disjoint, Disjoint-sym, AllPairs, All-map, Apart, select-All, select_clear, select-Apart,
}
use akoflow.Queue.Ownership.{Distinct}
use akoflow.Queue.Exclusive.{
  row_keys, Exclusive, Fits, Known, after_one, after_one-Exclusive, after_one-Known, after_one-Fits,
  live_keys-occupied,
}

module _ (decode : List ℕ → Option AdmissionPayload) (owners : List (String × String))
    (now : ℕ) where
  -- What the rest of the loop needs of the table.
  record Ready (js : List Job) (cs : List Candidate) : Type 0 where
    exclusive : Exclusive decode owners now js
    known : All (Known decode owners now js) cs
    fits : All (Fits decode owners now js) cs
    apart : AllPairs (Apart decode owners) cs

  All-both :
      (js ks : List Job) (c : Candidate) (ds : List Candidate)
      → ((d : Candidate)
          → Apart decode owners c d
          → Fits decode owners now js d
          → Fits decode owners now ks d)
      → All (Apart decode owners c) ds
      → All (Fits decode owners now js) ds
      → All (Fits decode owners now ks) ds
  All-both js ks c [] f a h = tt
  All-both js ks c (d ∷ ds) f a h = (f d a.0 h.0, All-both js ks c ds f a.1 h.1)

  module _ (owner : String) (expires : ℕ) where
    after_one-Ready :
        (js : List Job) (c : Candidate) (cs : List Candidate)
        → Ready js (c ∷ cs)
        → Ready (after_one decode owners now owner expires c js) cs
    after_one-Ready js c cs r = record {
      exclusive =
          after_one-Exclusive decode owners now owner expires c js r.known.0 r.fits.0 r.exclusive;
      known =
          All-map _ _ (λ d. after_one-Known decode owners now owner expires c js d) cs r.known.1;
      fits =
          All-both js _ c cs
            (λ d a. after_one-Fits decode owners now owner expires c js d r.known.0 a) r.apart.0
            r.fits.1;
      apart = r.apart.1;
    }

    lease_one-Ready :
        (c : Candidate) (cs : List Candidate) (r : Store × List Job)
        → Ready r.0.jobs (c ∷ cs)
        → Ready (lease_one owner now expires c r).0.jobs cs
    unfolding lease_one after_one
    lease_one-Ready c cs (s, out) h =
        elim (Bool-cases (length (keep (is_waiting c.id) s.jobs) == 1)) [
          | inl one ↦ rw (one, take_row-jobs) (after_one-Ready s.jobs c cs h)
          | inr other ↦ rw other (record {
            exclusive = h.exclusive;
            known = h.known.1;
            fits = h.fits.1;
            apart = h.apart.1;
          })
        ]

    lease_all-Exclusive :
        (cs : List Candidate) (r : Store × List Job)
        → Ready r.0.jobs cs
        → Exclusive decode owners now (lease_all owner now expires cs r).0.jobs
    unfolding lease_all
    lease_all-Exclusive [] r h = h.exclusive
    lease_all-Exclusive (c ∷ cs) r h =
        lease_all-Exclusive cs (lease_one owner now expires c r) (lease_one-Ready c cs r h)

-- Every row of a table is found by its id.
Found : List Job → Job → Type 0
Found js j = find_row j.id js ≡ some j

other_id :
    (id : String) (js : List Job) → find_row id js ≡ none → All (λ j. (id == j.id) ≡ false) js
unfolding find_row
other_id id [] e = tt
other_id id (j ∷ js) e =
    (ground (arith, str_iff id j.id, beq_refl id), other_id id js (ground arith))

Found-later :
    (k : Job) (js ks : List Job)
    → All (λ j. (k.id == j.id) ≡ false) js
    → All (Found ks) js
    → All (Found (k ∷ ks)) js
unfolding Found find_row
Found-later k [] ks n h = tt
Found-later k (j ∷ js) ks n h = (rw n.0 h.0, Found-later k js ks n.1 h.1)

Distinct-Found : (js : List Job) → Distinct js → All (Found js) js
unfolding Found find_row
Distinct-Found [] d = tt
Distinct-Found (j ∷ js) d =
    (rw (beq_refl j.id), Found-later j js js (other_id j.id js d.0) (Distinct-Found js d.1))

module _ (P : Job → Type 0) where
  All-insert_row : (j : Job) (js : List Job) → P j → All P js → All P (insert_row j js)
  unfolding insert_row
  All-insert_row j [] h t = (h, tt)
  All-insert_row j (k ∷ ks) h t = elim (Bool-cases (before k j)) [
    | inl e ↦ rw e (t.0, All-insert_row j ks h t.1)
    | inr e ↦ rw e (h, t)
  ]

  All-sort_rows : (js : List Job) → All P js → All P (sort_rows js)
  unfolding sort_rows
  All-sort_rows [] h = tt
  All-sort_rows (j ∷ js) h = All-insert_row j (sort_rows js) h.0 (All-sort_rows js h.1)

module _ (decode : List ℕ → Option AdmissionPayload) (owners : List (String × String))
    (now : ℕ) where
  candidates-Known :
      (js rows : List Job)
      → All (Found js) rows
      → All (Known decode owners now js) (map candidate_of rows)
  unfolding Known Found
  candidates-Known js [] h = tt
  candidates-Known js (r ∷ rows) h = (
    λ j e.
        let found = h.0 in let same : j ≡ r = ground arith in ap (row_keys decode owners now) same,
    candidates-Known js rows h.1,
  )

  clear-Fits :
      (js : List Job) (c : Candidate)
      → Disjoint
          (candidate_keys decode owners c)
          (leased_execution_environments decode now owners js)
      → Fits decode owners now js c
  unfolding Fits
  clear-Fits js c d a j f l = Disjoint-sym _ _ (λ k m.
      elim (Bool-cases (contains (candidate_keys decode owners c) k)) [
        | inl t ↦ ground (arith, d k t, live_keys-occupied decode owners now js a j k f l m)
        | inr t ↦ t
      ])

  selection-Ready :
      (s : Store) (categories : List String) (limit : ℕ)
      → s.owners ≡ owners
      → Distinct s.jobs
      → Exclusive decode owners now s.jobs
      → Ready decode owners now s.jobs (selection decode s now categories limit)
  unfolding selection pending_lease_candidates
  selection-Ready s categories limit o d ex = rw o (record {
    exclusive = ex;
    known = select-All decode owners (Known decode owners now s.jobs) _ _ limit (
        candidates-Known s.jobs _ (
          All-sort_rows (Found s.jobs) _ (
            All-keep (Found s.jobs) (is_candidate now categories) s.jobs
              (Distinct-Found s.jobs d))));
    fits = All-map _ _ (clear-Fits s.jobs) _ (
        select_clear decode owners _ (leased_execution_environments decode now owners s.jobs)
          limit);
    apart =
        select-Apart decode owners _ (leased_execution_environments decode now owners s.jobs) limit;
  })

-- A lease keeps the executions of every environment to one: where the running executions share none
-- before it, they share none after it, those that it starts included.
pub lease-Exclusive :
    (decode : List ℕ → Option AdmissionPayload) (s : Store) (now : ℕ) (owner : String)
    (categories : List String) (limit duration : ℕ)
    → Distinct s.jobs
    → Exclusive decode s.owners now s.jobs
    → Exclusive decode s.owners now
        (after s (lease decode s now owner categories limit duration)).jobs
unfolding lease
lease-Exclusive decode s now owner categories limit duration d ex =
    elim (Bool-cases (owner == "" || (ltb limit 1 || ltb duration 1))) [
      | inl g ↦ rw g ex
      | inr g ↦ rw g (
          lease_all-Exclusive decode s.owners now owner (now + duration)
            (selection decode s now categories limit) (s, [])
            (selection-Ready decode s.owners now s categories limit refl d ex))
    ]
