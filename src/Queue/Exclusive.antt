-- ===== src/Queue/Exclusive.antt =====
-- The contract of the lease: if no two running executions share an environment, none do after it.
pub mod Loop
use akoflow.Prelude.{
  ℕ, ◌+◌, ◌<◌, String, Bool, true, false, List, [], ◌∷◌, ◌++◌, map, Option, none, some, All,
  All-keep, ◌≡◌, refl, sym, ◌∙◌, ap, ◌⊎◌, inl, inr, arith, contains, contains-append, ◌==◌,
  string_eq, nat_eq, str_iff, beq_refl, eq-cases, Bool-cases, Option-cases, if◌then◌else◌, ◌||◌,
  ◌&&◌, length, keep, Result, ok, err, ltb,
}
use akoflow.Queue.{Job}
use akoflow.Queue.Store.{Store, is_pending, is_leased, update_where, find_row}
use akoflow.Queue.Admission.{
  AdmissionPayload, Candidate, candidate_of, candidate_keys, is_live, is_candidate, select,
  insert_row, sort_rows, pending_lease_candidates, leased_execution_environments,
}
use akoflow.Queue.Lease.{lease, selection, take_row, lease_one, lease_all, lease_row, is_waiting}
use akoflow.Queue.History.{after}
use akoflow.Queue.Rows.{
  find_row-update_where, find_row-none-update_where, find_row-id, find_row-head, find_row-tail,
  take_row-jobs,
}
use akoflow.Queue.Selection.{
  Disjoint, Disjoint-sym, AllPairs, All-map, Apart, select-All, select_clear, select-Apart,
}
use akoflow.Queue.Ownership.{Distinct}

Disjoint-of :
    {xs ys xs' ys' : List String} → xs' ≡ xs → ys' ≡ ys → Disjoint xs ys → Disjoint xs' ys'
Disjoint-of p q d k m = ap (λ ks. contains ks k) q ∙ d k (ap (λ ks. contains ks k) (sym p) ∙ m)

module _ (decode : List ℕ → Option AdmissionPayload) (owners : List (String × String))
    (now : ℕ) where
  -- The environments that the execution of a row runs in.
  abbrev pub row_keys : Job → List String
  row_keys j = candidate_keys decode owners (candidate_of j)

  -- No environment has two running executions.
  abbrev pub Exclusive : List Job → Type 0
  Exclusive js =
      (a b : String) (j k : Job)
      → find_row a js ≡ some j
      → find_row b js ≡ some k
      → (a == b) ≡ false
      → is_live now j ≡ true
      → is_live now k ≡ true
      → Disjoint (row_keys j) (row_keys k)

  -- The candidate's environments are free of the running executions.
  Fits : List Job → Candidate → Type 0
  Fits js c =
      (a : String) (j : Job)
      → find_row a js ≡ some j
      → is_live now j ≡ true
      → Disjoint (candidate_keys decode owners c) (row_keys j)

  -- The candidate is the row of its id.
  Known : List Job → Candidate → Type 0
  Known js c = (j : Job) → find_row c.id js ≡ some j → row_keys j ≡ candidate_keys decode owners c

  occupied_later :
      (x : Job) (xs : List Job) (k : String)
      → contains (leased_execution_environments decode now owners xs) k ≡ true
      → contains (leased_execution_environments decode now owners (x ∷ xs)) k ≡ true
  unfolding leased_execution_environments
  occupied_later x xs k h = elim (Bool-cases (is_live now x)) [
    | inl l ↦ rw l (
        ground (
          arith,
          contains-append (row_keys x) (leased_execution_environments decode now owners xs) k,
        ))
    | inr l ↦ rw l h
  ]

  live_keys-occupied :
      (js : List Job) (a : String) (j : Job) (k : String)
      → find_row a js ≡ some j
      → is_live now j ≡ true
      → contains (row_keys j) k ≡ true
      → contains (leased_execution_environments decode now owners js) k ≡ true
  unfolding leased_execution_environments find_row
  live_keys-occupied [] a j k e l m = cc
  live_keys-occupied (x ∷ xs) a j k e l m = elim (Bool-cases (x.id == a)) [
    | inl t ↦
        let p = find_row-head a x xs j t e in
        let held : contains (row_keys x) k ≡ true = ap (λ y. contains (row_keys y) k) p ∙ m in
        rw (ap (is_live now) p ∙ l) (
          contains-append (row_keys x) _ k
          ∙ ap (λ b. b || contains (leased_execution_environments decode now owners xs) k) held)
    | inr t ↦ occupied_later x xs k (live_keys-occupied xs a j k (find_row-tail a x xs j t e) l m)
  ]

  -- A row that is found after one lease was found before it, and is that row or its lease.
  module _ (owner : String) (expires : ℕ) (c : Candidate) (js : List Job) where
    after_one : List Job
    after_one = update_where (is_waiting c.id) (lease_row owner now expires) js

    Was : String → Job → Type 0
    Was a k =
        (j : Job) × (find_row a js ≡ some j)
        × ((k ≡ j) ⊎ ((j.id ≡ c.id) × (a ≡ c.id) × (k ≡ lease_row owner now expires j)))

    same_before :
        (a : String) (j k : Job)
        → find_row a js ≡ some j
        → find_row a after_one ≡ some k
        → (k ≡ j) ⊎ ((j.id ≡ c.id) × (a ≡ c.id) × (k ≡ lease_row owner now expires j))
    unfolding after_one
    same_before a j k f e = ground (
      arith,
      str_iff j.id c.id,
      find_row-id a js j f,
      find_row-update_where (is_waiting c.id) (lease_row owner now expires)
          (λ j. unfold lease_row in refl) a js j f,
    )

    found_before : (a : String) (k : Job) → find_row a after_one ≡ some k → Was a k
    unfolding after_one Was
    found_before a k e = elim (Option-cases (find_row a js)) [
      | inl n ↦ absurd (
          ground (
            arith,
            find_row-none-update_where (is_waiting c.id) (lease_row owner now expires)
                (λ j. unfold lease_row in refl) a js n,
          ))
      | inr (j, f) ↦ (j, f, same_before a j k f e)
    ]

    -- The row keeps its environments.
    lease_row-keys : (j : Job) → row_keys (lease_row owner now expires j) ≡ row_keys j
    unfolding lease_row
    lease_row-keys j = refl

    module _ (known : Known js c) (fits : Fits js c) where
      -- A running row beside the leased one is clear of its environments.
      new_clear :
          (a b : String) (j l : Job)
          → Was a j
          → (a == b) ≡ false
          → is_live now j ≡ true
          → (b ≡ c.id)
          → find_row b js ≡ some l
          → Disjoint (row_keys l) (row_keys j)
      unfolding Was Known Fits
      new_clear a b j l (i, f, inl e) n lv bc g =
          Disjoint-of (known l (ap (λ x. find_row x js) (sym bc) ∙ g)) (ap row_keys e)
            (fits a i f (ap (is_live now) (sym e) ∙ lv))
      new_clear a b j l (i, f, inr (_, ac, _)) n lv bc g = ground (arith, str_iff a b)

      apart_cases :
          (a b : String) (j k : Job)
          → Exclusive js
          → Was a j
          → Was b k
          → (a == b) ≡ false
          → is_live now j ≡ true
          → is_live now k ≡ true
          → Disjoint (row_keys j) (row_keys k)
      unfolding Was
      apart_cases a b j k ex (i, fi, inl p) (l, fl, inl q) n lj lk =
          Disjoint-of (ap row_keys p) (ap row_keys q)
            (ex a b i l fi fl n (ap (is_live now) (sym p) ∙ lj) (ap (is_live now) (sym q) ∙ lk))
      apart_cases a b j k ex (i, fi, inl p) (l, fl, inr (_, bc, q)) n lj lk =
          Disjoint-sym (row_keys k) (row_keys j) (
            Disjoint-of (ap row_keys q ∙ lease_row-keys l) refl
              (new_clear a b j l (i, fi, inl p) n lj bc fl))
      apart_cases a b j k ex (i, fi, inr (_, ac, p)) (l, fl, inl q) n lj lk =
          Disjoint-of (ap row_keys p ∙ lease_row-keys i) refl
            (new_clear b a k i (l, fl, inl q) (ground (arith, str_iff a b, str_iff b a)) lk ac fi)
      apart_cases a b j k ex (i, fi, inr (_, ac, p)) (l, fl, inr (_, bc, q)) n lj lk =
          ground (arith, str_iff a b)

      after_one-Exclusive : Exclusive js → Exclusive after_one
      after_one-Exclusive ex a b j k e f n lj lk =
          apart_cases a b j k ex (found_before a j e) (found_before b k f) n lj lk

    -- What the other candidates know and fit they still do.
    after_one-Known : (d : Candidate) → Known js d → Known after_one d
    unfolding Known Was
    after_one-Known d known k e = known_cases (found_before d.id k e)
      where
        known_cases : Was d.id k → row_keys k ≡ candidate_keys decode owners d
        known_cases (j, f, inl p) = ap row_keys p ∙ known j f
        known_cases (j, f, inr (_, _, p)) = ap row_keys p ∙ (lease_row-keys j ∙ known j f)

    after_one-Fits :
        (d : Candidate) → Known js c → Apart decode owners c d → Fits js d → Fits after_one d
    unfolding Known Fits Was
    after_one-Fits d known apart fits a k e l = fits_cases (found_before a k e)
      where
        fits_cases : Was a k → Disjoint (candidate_keys decode owners d) (row_keys k)
        fits_cases (j, f, inl p) =
            Disjoint-of refl (ap row_keys p) (fits a j f (ap (is_live now) (sym p) ∙ l))
        fits_cases (j, f, inr (_, ac, p)) =
            Disjoint-of refl
              (ap row_keys p ∙ (lease_row-keys j ∙ known j (ap (λ x. find_row x js) (sym ac) ∙ f)))
              (Disjoint-sym _ _ apart)
