-- ===== src/Workspace/Leases.antt =====
-- What releaseProducerWorkspaceLeases makes of the lease table.
use akoflow.Prelude.{
  ℕ, String, true, false, not, List, [], ◌∷◌, map, Option, none, some, ◌≡◌, refl, sym, ◌∙◌, ap,
  arith, ◌==◌, string_eq, nat_eq, str_iff, ◌&&◌, if◌then◌else◌, keep, All, All-keep, Bool-cases,
  inl, inr,
}
use akoflow.Workspace.{
  ActivityWorkspace, WorkspaceLease, Manager, Spaces, find_workspace, save_workspace, save_lease,
  list_leases, order_leases,
}
use akoflow.Workspace.Passed.{
  Row, OneLease-Row, is_due, passed, all_passed, all_passed_lem, map-all_passed, map-nothing_passed,
  put_lease-passed, map-passed-idle, map-passed-OneLease, passed-Rows,
}
use akoflow.Workspace.Listing.{
  OneLease, All-order_leases, order_leases-OneLease, has_lease, has_lease-order_leases,
}
use akoflow.Workspace.Lifecycle.{
  prune_final_workspace, release_workspace, reconcile_found, reconcile_workspace, release_lease,
  released_lease, release_leases, release_producer_workspace_leases,
}

prune_final_workspace-leases :
    (m : Option Manager) (w : ActivityWorkspace) (s : Spaces)
    → (prune_final_workspace m w s).leases ≡ s.leases
unfolding prune_final_workspace save_workspace
prune_final_workspace-leases none w s = refl
prune_final_workspace-leases (some m) w s = ground arith

release_workspace-leases :
    (m : Option Manager) (at : ℕ) (w : ActivityWorkspace) (s : Spaces)
    → (release_workspace m at w s).0.leases ≡ s.leases
unfolding release_workspace save_workspace
release_workspace-leases none at w s = refl
release_workspace-leases (some m) at w s = refl

reconcile_found-leases :
    (m : Option Manager) (at : ℕ) (w : ActivityWorkspace) (s : Spaces)
    → (reconcile_found m at w s).0.leases ≡ s.leases
unfolding reconcile_found
reconcile_found-leases m at w s =
    ground (arith, prune_final_workspace-leases m w s, release_workspace-leases m at w s)

reconcile_workspace-leases :
    (m : Option Manager) (at : ℕ) (id : String) (s : Spaces)
    → (reconcile_workspace m at id s).0.leases ≡ s.leases
unfolding reconcile_workspace
reconcile_workspace-leases m at id s =
    elim (find_workspace id s.workspaces)
      as (λ o.
        (let r : Spaces × Option String = elim o [
          | none ↦ (s, none)
          | some w ↦ reconcile_found m at w s
        ] in
          r.0.leases ≡ s.leases)) [ none ↦ refl | some w ↦ reconcile_found-leases m at w s ]

-- The lease after its consumer took the data over.
abbrev pub consumed : ℕ → String → String → WorkspaceLease → WorkspaceLease
consumed at run_id consumer_id l =
    if l.run_id == run_id && (l.consumer_activity_id == consumer_id && not l.is_released)
    then released_lease at l
    else l

module _ (at : ℕ) (consumer_id : String) (m : Option Manager) where
  -- The rest of the loop succeeds only with this table.
  abbrev Done : List WorkspaceLease → List WorkspaceLease → Spaces → Type 0
  Done xs goal s =
      (release_leases m at consumer_id xs s).1 ≡ none
      → (release_leases m at consumer_id xs s).0.leases ≡ goal

  continue :
      (xs goal : List WorkspaceLease) (next : Spaces × Option String)
      → Done xs goal next.0
      → (let r : Spaces × Option String = elim next.1 [
        | none ↦ release_leases m at consumer_id xs next.0
        | some message ↦ (next.0, some message)
      ] in
          r.1 ≡ none → r.0.leases ≡ goal)
  continue xs goal (t, none) h = h
  continue xs goal (t, some message) h = λ e. cc

  release_lease-leases :
      (x : WorkspaceLease) (s : Spaces)
      → OneLease s.leases
      → Row s.leases x
      → (release_lease m at consumer_id x s).0.leases ≡ map (passed at consumer_id x) s.leases
  unfolding release_lease save_lease
  release_lease-leases x s d r = elim (Bool-cases (is_due at consumer_id x)) [
    | inl due ↦ rw due (
        reconcile_workspace-leases m at x.workspace_id (save_lease s (released_lease at x))
        ∙ put_lease-passed at consumer_id x s.leases d r due)
    | inr idle ↦ rw idle (sym (map-passed-idle at consumer_id x s.leases d r idle))
  ]

  release_leases_lem :
      (xs : List WorkspaceLease) (s : Spaces)
      → OneLease s.leases
      → OneLease xs
      → All (Row s.leases) xs
      → Done xs (map (all_passed at consumer_id xs) s.leases) s
  unfolding release_leases
  release_leases_lem [] s d apart rows = λ r. sym (map-nothing_passed at consumer_id s.leases)
  release_leases_lem (x ∷ xs) s d apart rows =
      let next = release_lease m at consumer_id x s in
      let table : next.0.leases ≡ map (passed at consumer_id x) s.leases =
        release_lease-leases x s d rows.0 in
      continue xs (map (all_passed at consumer_id (x ∷ xs)) s.leases) next (λ r.
        release_leases_lem xs next.0 (rw table (map-passed-OneLease at consumer_id x s.leases d))
          apart.1 (rw table (passed-Rows at consumer_id x s.leases xs apart.0 rows.1)) r
        ∙ ap (map (all_passed at consumer_id xs)) table
        ∙ sym (map-all_passed at consumer_id x xs s.leases))

module _ (run_id : String) where
  abbrev of_run : List WorkspaceLease → List WorkspaceLease
  of_run ls = keep (λ l. l.run_id == run_id) ls

  of_run-OneLease : (ls : List WorkspaceLease) → OneLease ls → OneLease (of_run ls)
  of_run-OneLease [] d = tt
  of_run-OneLease (l ∷ ls) d =
      elim (l.run_id == run_id) as (λ b. OneLease (if b then l ∷ of_run ls else of_run ls)) [
        | true ↦ (
          All-keep (λ k. (l.id == k.id) ≡ false) (λ k. k.run_id == run_id) ls d.0,
          of_run-OneLease ls d.1,
        )
        | false ↦ of_run-OneLease ls d.1
      ]

  has_lease-absent :
      (l : WorkspaceLease) (ls : List WorkspaceLease)
      → All (λ k. (l.id == k.id) ≡ false) ls
      → has_lease l.id (of_run ls) ≡ false
  has_lease-absent l [] h = refl
  has_lease-absent l (k ∷ ks) h =
      ground (arith, h.0, has_lease-absent l ks h.1, str_iff l.id k.id, str_iff k.id l.id)

  -- Of the rows of the table, those of the run are listed.
  Listed : List WorkspaceLease → WorkspaceLease → Type 0
  Listed table l = has_lease l.id (of_run table) ≡ (l.run_id == run_id)

  Listed-cons :
      (k : WorkspaceLease) (table ls : List WorkspaceLease)
      → All (λ l. (k.id == l.id) ≡ false) ls
      → All (Listed table) ls
      → All (Listed (k ∷ table)) ls
  unfolding Listed
  Listed-cons k table [] h r = tt
  Listed-cons k table (l ∷ ls) h r = (ground (arith, h.0, r.0), Listed-cons k table ls h.1 r.1)

  All-Listed : (ls : List WorkspaceLease) → OneLease ls → All (Listed ls) ls
  unfolding Listed
  All-Listed [] d = tt
  All-Listed (l ∷ ls) d = (
    ground (arith, has_lease-absent l ls d.0, str_iff l.id l.id),
    Listed-cons l ls ls d.0 (All-Listed ls d.1),
  )

  consumed-all_passed :
      (at : ℕ) (consumer_id : String) (table ls : List WorkspaceLease)
      → All (Listed table) ls
      → map (all_passed at consumer_id (order_leases (of_run table))) ls
        ≡ map (consumed at run_id consumer_id) ls
  unfolding Listed
  consumed-all_passed at consumer_id table [] h = refl
  consumed-all_passed at consumer_id table (l ∷ ls) h =
      let xs = order_leases (of_run table) in
      let listed : has_lease l.id xs ≡ (l.run_id == run_id) =
        has_lease-order_leases l.id (of_run table) ∙ h.0 in
      let first : all_passed at consumer_id xs l ≡ consumed at run_id consumer_id l =
        all_passed_lem at consumer_id xs l ∙ ground (arith, listed) in
      ground (arith, first, consumed-all_passed at consumer_id table ls h.1)

-- If releaseProducerWorkspaceLeases returns no error, over a table with one row for each id, it has
-- released exactly the leases of the run that the consumer held, at the given time, and the lease
-- table is otherwise as it was.
pub release_producer_workspace_leases_lem :
    (m : Option Manager) (at : ℕ) (run_id consumer_id : String) (s : Spaces)
    → OneLease s.leases
    → (release_producer_workspace_leases m at run_id consumer_id s).1 ≡ none
    → (release_producer_workspace_leases m at run_id consumer_id s).0.leases
      ≡ map (consumed at run_id consumer_id) s.leases
unfolding release_producer_workspace_leases list_leases
release_producer_workspace_leases_lem m at run_id consumer_id s d =
    let xs = order_leases (of_run run_id s.leases) in
    let rows =
      All-order_leases (Row s.leases) (of_run run_id s.leases)
        (All-keep (Row s.leases) (λ l. l.run_id == run_id) s.leases (OneLease-Row s.leases d)) in
    let apart =
      order_leases-OneLease (of_run run_id s.leases) (of_run-OneLease run_id s.leases d) in
    λ r.
      release_leases_lem at consumer_id m xs s d apart rows r
      ∙ consumed-all_passed run_id at consumer_id s.leases s.leases (All-Listed run_id s.leases d)
