-- ===== src/Workspace/History.antt =====
-- The supervisor's operations on workspaces as steps of one history, and what every history keeps.
use akoflow.Prelude.{
  ℕ, String, true, false, List, [], ◌∷◌, Option, none, some, ◌≡◌, arith, string_eq, nat_eq, str_iff,
  if◌then◌else◌, ltb, All, Bool, not, ◌||◌, contains, refl,
}
use akoflow.Workspace.{
  ActivityWorkspace, WorkspaceLease, Manager, Spaces, find_workspace, list_leases, save_lease,
}
use akoflow.Workspace.Manifest.{ArtifactManifest}
use akoflow.Workspace.Lifecycle.{
  reconcile_workspace, seal_workspace, release_producer_workspace_leases,
}
use akoflow.Workspace.Recovery.{
  SetInstance, RuntimeAllocation, activate_workspace, recover_workspaces, list_workspace_candidates,
  insert_by_creation, is_candidate, restore_leases, restore_recovery_workspace_leases,
}
use akoflow.Workspace.Tables.{OneEach}
use akoflow.Workspace.Release.{Same-refl, MayRelease, Guarded, Guarded-refl, Guarded-trans}
use akoflow.Workspace.Operations.{
  reconcile_workspace-Guarded, seal_workspace-Guarded, release_leases-Guarded,
}
use akoflow.Workspace.Restart.{activate_workspace-Guarded, recover_each-Guarded, Listed}

abbrev FoundIn : List ActivityWorkspace → ActivityWorkspace → Type 0
FoundIn ws w = find_workspace w.id ws ≡ some w

FoundIn-cons :
    (v : ActivityWorkspace) (all vs : List ActivityWorkspace)
    → find_workspace v.id all ≡ none
    → All (FoundIn all) vs
    → All (FoundIn (v ∷ all)) vs
unfolding find_workspace
FoundIn-cons v all [] absent h = tt
FoundIn-cons v all (w ∷ ws) absent h =
    (ground (arith, str_iff v.id w.id), FoundIn-cons v all ws absent h.1)

OneEach-FoundIn : (ws : List ActivityWorkspace) → OneEach ws → All (FoundIn ws) ws
unfolding find_workspace
OneEach-FoundIn [] h = tt
OneEach-FoundIn (w ∷ ws) h =
    (ground (arith, str_iff w.id w.id), FoundIn-cons w ws ws h.0 (OneEach-FoundIn ws h.1))

module _ {ℓ} (P : ActivityWorkspace → Type ℓ) where
  All-insert :
      (w : ActivityWorkspace) (ws : List ActivityWorkspace)
      → P w
      → All P ws
      → All P (insert_by_creation w ws)
  unfolding insert_by_creation
  All-insert w [] p h = (p, tt)
  All-insert w (v ∷ vs) p h =
      elim (ltb v.created_at w.created_at)
        as (λ b. All P (if b then v ∷ insert_by_creation w vs else w ∷ v ∷ vs)) [
          | true ↦ (h.0, All-insert w vs p h.1)
          | false ↦ (p, h)
        ]

  All-candidates : (ws : List ActivityWorkspace) → All P ws → All P (list_workspace_candidates ws)
  unfolding list_workspace_candidates
  All-candidates [] h = tt
  All-candidates (w ∷ ws) h =
      let rest = list_workspace_candidates ws in
      elim (is_candidate w) as (λ b. All P (if b then insert_by_creation w rest else rest)) [
        | true ↦ All-insert w rest h.0 (All-candidates ws h.1)
        | false ↦ All-candidates ws h.1
      ]

All-Listed :
    (s : Spaces) (ws : List ActivityWorkspace) → All (FoundIn s.workspaces) ws → Listed s ws
All-Listed s [] h = tt
All-Listed s (w ∷ ws) h = ((w, h.0, Same-refl w), All-Listed s ws h.1)

recover_workspaces-Guarded :
    (m : Option Manager) (at : ℕ) (s : Spaces)
    → OneEach s.workspaces
    → Guarded s (recover_workspaces m at s).0
unfolding recover_workspaces
recover_workspaces-Guarded none at s d = Guarded-refl s
recover_workspaces-Guarded (some m) at s d =
    let ws = list_workspace_candidates s.workspaces in
    recover_each-Guarded (some m) at ws s (
      All-Listed s ws
        (All-candidates (FoundIn s.workspaces) s.workspaces (OneEach-FoundIn s.workspaces d)))

restore_leases-workspaces :
    (reusable : List String) (ls : List WorkspaceLease) (s : Spaces)
    → (restore_leases reusable ls s).workspaces ≡ s.workspaces
unfolding restore_leases save_lease
restore_leases-workspaces reusable [] s = refl
restore_leases-workspaces reusable (l ∷ ls) s =
    elim (contains reusable l.consumer_activity_id || not l.is_released)
      as (λ b.
        (restore_leases reusable ls (
          if b
          then s
          else save_lease s (record l {
            is_released = false;
            released_at = none;
            release_reason = "";
          }))).workspaces
        ≡ s.workspaces) [
          | true ↦ restore_leases-workspaces reusable ls s
          | false ↦ restore_leases-workspaces reusable ls (
              save_lease s
                (record l { is_released = false; released_at = none; release_reason = "" }))
        ]

-- The operations of a supervisor whose manager is `m`, under a context that is not cancelled. The
-- call of initializeWorkspaces, which lays out the rows of a new run, is not among them.
pub data Step : Type 0 where
  activates : String → String → RuntimeAllocation → Step
  seals : ℕ → String → String → Option ArtifactManifest → Step
  reconciles : ℕ → String → Step
  releases_leases : ℕ → String → String → Step
  recovers : ℕ → Step
  restores_leases : String → List String → Step

abbrev pub is_restore : Step → Bool
is_restore (restores_leases run_id reusable) = true
is_restore _ = false

-- The same tables, where the calls of the manager's Release are counted from here on.
abbrev pub from_here : Spaces → Spaces
from_here s = record s { release_calls = [] }

module _ (set_instance : SetInstance) (m : Option Manager) where
  unfoldable pub step : Step → Spaces → Spaces
  step (activates run_id activity_id a) s =
      (activate_workspace set_instance m run_id activity_id a s).0
  step (seals at run_id activity_id a) s = (seal_workspace m at run_id activity_id a s).0
  step (reconciles at id) s = (reconcile_workspace m at id s).0
  step (releases_leases at run_id consumer_id) s =
      (release_producer_workspace_leases m at run_id consumer_id s).0
  step (recovers at) s = (recover_workspaces m at s).0
  step (restores_leases run_id reusable) s = restore_recovery_workspace_leases run_id reusable s

  unfoldable pub run : List Step → Spaces → Spaces
  run [] s = s
  run (c ∷ cs) s = run cs (step c s)

  step-Guarded :
      (c : Step) (s : Spaces) → OneEach s.workspaces → is_restore c ≡ false → Guarded s (step c s)
  unfolding step release_producer_workspace_leases
  step-Guarded (activates run_id activity_id a) s d keeps =
      activate_workspace-Guarded set_instance m run_id activity_id a s
  step-Guarded (seals at run_id activity_id a) s d keeps =
      seal_workspace-Guarded m at run_id activity_id a s
  step-Guarded (reconciles at id) s d keeps = reconcile_workspace-Guarded m at id s
  step-Guarded (releases_leases at run_id consumer_id) s d keeps =
      release_leases-Guarded m at consumer_id (list_leases s run_id) s
  step-Guarded (recovers at) s d keeps = recover_workspaces-Guarded m at s d
  step-Guarded (restores_leases run_id reusable) s d keeps = absurd cc

  step-OneEach : (c : Step) (s : Spaces) → OneEach s.workspaces → OneEach (step c s).workspaces
  unfolding step restore_recovery_workspace_leases
  step-OneEach (restores_leases run_id reusable) s d =
      rw (restore_leases-workspaces reusable (list_leases s run_id) s) d
  step-OneEach (activates run_id activity_id a) s d =
      (step-Guarded (activates run_id activity_id a) s d refl).single d
  step-OneEach (seals at run_id activity_id a) s d =
      (step-Guarded (seals at run_id activity_id a) s d refl).single d
  step-OneEach (reconciles at id) s d = (step-Guarded (reconciles at id) s d refl).single d
  step-OneEach (releases_leases at run_id consumer_id) s d =
      (step-Guarded (releases_leases at run_id consumer_id) s d refl).single d
  step-OneEach (recovers at) s d = (step-Guarded (recovers at) s d refl).single d

  run-OneEach : (cs : List Step) (s : Spaces) → OneEach s.workspaces → OneEach (run cs s).workspaces
  unfolding run
  run-OneEach [] s d = d
  run-OneEach (c ∷ cs) s d = run-OneEach cs (step c s) (step-OneEach c s d)

  run-Guarded :
      (cs : List Step) (s : Spaces)
      → OneEach s.workspaces
      → All (λ c. is_restore c ≡ false) cs
      → Guarded s (run cs s)
  unfolding run
  run-Guarded [] s d keep = Guarded-refl s
  run-Guarded (c ∷ cs) s d keep =
      Guarded-trans (step-Guarded c s d keep.0)
        (run-Guarded cs (step c s) (step-OneEach c s d) keep.1)

  -- Take any history of a supervisor's activations, seals, reconciliations, releases of leases,
  -- recoveries and restorations of leases, over a table with one row for each id, and let any
  -- activations, seals, reconciliations, releases of leases and recoveries follow it, but no
  -- restoration of leases. Every workspace that was handed to the manager's Release in the course
  -- of those later operations is still in the table after them, is neither pinned nor final, and
  -- is not held by an unreleased lease of its run. The calls of initializeWorkspaces are among
  -- neither.
  pub run-MayRelease :
      (before cs : List Step) (s : Spaces)
      → OneEach s.workspaces
      → All (λ c. is_restore c ≡ false) cs
      → All
          (MayRelease (run cs (from_here (run before s))))
          (run cs (from_here (run before s))).release_calls
  run-MayRelease before cs s d keep =
      (run-Guarded cs (from_here (run before s)) (run-OneEach before s d) keep).calls tt
