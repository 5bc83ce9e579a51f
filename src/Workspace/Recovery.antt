-- ===== src/Workspace/Recovery.antt =====
-- What a restart and a recovery do to workspaces: RecoverWorkspaces and activateWorkspace of
-- internal/controlplane/execution/workspace_lifecycle.go, and
-- internal/controlplane/execution/recovery_workspace_integrity.go.
use akoflow.Prelude.{
  ltb, ℕ, String, Bool, true, false, not, List, [], ◌∷◌, Option, none, some, ◌==◌, string_eq,
  nat_eq, ◌&&◌, ◌||◌, if◌then◌else◌, Result, err, ok, contains,
}
use akoflow.Workspace.{
  ActivityWorkspace, WorkspaceLease, WorkspaceUsage, Manager, Spaces, WorkspaceState, active,
  sealed, releasable, releasing, find_workspace, save_workspace, save_lease, list_leases,
}
use akoflow.Workspace.Lifecycle.{workspace_id, is_sealed, reconcile_workspace, fail_with, pruned}

abbrev pub was_leaving : WorkspaceState → Bool
was_leaving releasable = true
was_leaving releasing = true
was_leaving _ = false

-- A restart takes an interrupted release back to the sealed state.
unfoldable pub reseal : ActivityWorkspace → Spaces → Spaces
reseal w s =
    if not w.is_final && was_leaving w.state
    then save_workspace s (record w { state = sealed })
    else s

unfoldable pub recover_each :
    Option Manager → ℕ → List ActivityWorkspace → Spaces → Spaces × Option String
recover_each m at [] s = (s, none)
recover_each m at (w ∷ ws) s =
    let next = reconcile_workspace m at w.id (reseal w s) in
    elim next.1 [ none ↦ recover_each m at ws next.0 | some message ↦ (next.0, some message) ]

-- The rows that ListWorkspaceCandidates selects.
abbrev pub is_candidate : ActivityWorkspace → Bool
is_candidate w =
    (is_sealed w.state || was_leaving w.state)
    && not w.pinned
    && not (w.is_final && w.release_reason == pruned)

-- ORDER BY created_at
unfoldable pub insert_by_creation :
    ActivityWorkspace → List ActivityWorkspace → List ActivityWorkspace
insert_by_creation w [] = w ∷ []
insert_by_creation w (v ∷ vs) =
    let rest = insert_by_creation w vs in
    if ltb v.created_at w.created_at then v ∷ rest else w ∷ v ∷ vs

unfoldable pub list_workspace_candidates : List ActivityWorkspace → List ActivityWorkspace
unfolding insert_by_creation
list_workspace_candidates [] = []
list_workspace_candidates (w ∷ ws) =
    let rest = list_workspace_candidates ws in
    if is_candidate w then insert_by_creation w rest else rest

unfoldable pub recover_workspaces : Option Manager → ℕ → Spaces → Spaces × Option String
recover_workspaces none at s = (s, none)
recover_workspaces (some m) at s =
    recover_each (some m) at (list_workspace_candidates s.workspaces) s

pub record RuntimeAllocation : Type 0 where
  pub resource_id : String
  pub runtime_id : String
  pub connection_id : String
  pub cloud_instance_id : String

-- url.Parse and Query().Set("cloudInstanceId", ...), as a function of the URI and the instance.
abbrev pub SetInstance : Type 0
SetInstance = String → String → Result String String

abbrev or_else : String → String → String
or_else a b = if a == "" then b else a

unfoldable pub bind_workspace_allocation :
    SetInstance → RuntimeAllocation → ActivityWorkspace → Result String ActivityWorkspace
bind_workspace_allocation set_instance a w =
    let bound : ActivityWorkspace = record w {
      runtime_id = or_else a.runtime_id w.runtime_id;
      connection_id = or_else a.connection_id w.connection_id;
    } in
    if a.cloud_instance_id == "" then ok bound else elim (set_instance w.uri a.cloud_instance_id) [
      | err message ↦ err message
      | ok uri ↦ ok (record bound { uri = uri })
    ]

unfoldable pub ensure_workspace :
    Option Manager → ActivityWorkspace → Spaces → Spaces × Option String
ensure_workspace none w s = (save_workspace s (record w { state = active }), none)
ensure_workspace (some m) w s = elim (m.ensure w) [
  | none ↦ (save_workspace s (record w { state = active }), none)
  | some message ↦ (save_workspace s (fail_with message w), some message)
]

unfoldable pub activate_workspace :
    SetInstance
    → Option Manager
    → String
    → String
    → RuntimeAllocation
    → Spaces
    → Spaces × Option String
activate_workspace set_instance m run_id activity_id a s =
    elim (find_workspace (workspace_id run_id activity_id) s.workspaces) [
      | none ↦ (s, none)
      | some w ↦ elim (bind_workspace_allocation set_instance a w) [
        | err message ↦ (s, some message)
        | ok bound ↦ ensure_workspace m bound (save_workspace s bound)
      ]
    ]

unfoldable pub recovery_workspace_present : ActivityWorkspace → WorkspaceUsage → Bool
recovery_workspace_present w usage =
    is_sealed w.state && usage.file_count == w.file_count && usage.size_bytes == w.size_bytes

-- The loop of restoreRecoveryWorkspaceLeases.
unfoldable pub restore_leases : List String → List WorkspaceLease → Spaces → Spaces
restore_leases reusable [] s = s
restore_leases reusable (l ∷ ls) s = restore_leases reusable ls (
    if contains reusable l.consumer_activity_id || not l.is_released
    then s
    else save_lease s (record l { is_released = false; released_at = none; release_reason = "" }))

unfoldable pub restore_recovery_workspace_leases : String → List String → Spaces → Spaces
restore_recovery_workspace_leases run_id reusable s =
    restore_leases reusable (list_leases s run_id) s
