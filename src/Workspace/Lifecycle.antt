-- ===== src/Workspace/Lifecycle.antt =====
-- The supervisor's operations on workspaces, from
-- internal/controlplane/execution/workspace_lifecycle.go. Each returns the tables and the error. The
-- manager is none where no runtime offers workspaces; the tables' own failures are not modelled.
use akoflow.Prelude.{
  ℕ, String, Bool, true, false, not, List, [], ◌∷◌, ◌++◌, Option, none, some, ◌==◌, string_eq,
  nat_eq, ◌&&◌, ◌||◌, if◌then◌else◌, Result, err, ok,
}
use Prim.Native.String.{◌++◌ as ◌<>◌}
use akoflow.Workspace.{
  ActivityWorkspace, WorkspaceLease, WorkspaceUsage, WorkspaceReleaseResult, Manager, Spaces,
  WorkspaceState, sealed, releasable, releasing, released, failed, add_i64, find_workspace,
  save_workspace, save_lease, list_leases,
}
use akoflow.Workspace.Manifest.{ArtifactManifest, apply_artifact_manifest}

abbrev pub workspace_id : String → String → String
workspace_id run_id activity_id = ((("workspace-" <> run_id) <> "-") <> activity_id)

abbrev pub is_sealed : WorkspaceState → Bool
is_sealed sealed = true
is_sealed _ = false

-- An unreleased lease on the workspace.
unfoldable pub is_leased : String → List WorkspaceLease → Bool
is_leased id [] = false
is_leased id (l ∷ ls) = (l.workspace_id == id && not l.is_released) || is_leased id ls

abbrev pub fail_with : String → ActivityWorkspace → ActivityWorkspace
fail_with message w = record w { state = failed; last_error = message }

abbrev pub pruned : String
pruned = "inherited inputs pruned"

abbrev is_nil {ℓ} : {A : Type ℓ} → List A → Bool
is_nil [] = true
is_nil (x ∷ xs) = false

-- pruneFinalWorkspace after PruneInputs succeeded.
unfoldable pub pruned_workspace :
    WorkspaceReleaseResult → Result String WorkspaceUsage → ActivityWorkspace → ActivityWorkspace
pruned_workspace r (err message) w = record w { last_error = message }
pruned_workspace r (ok usage) w = record w {
  file_count = usage.file_count;
  size_bytes = usage.size_bytes;
  reclaimed_bytes = add_i64 w.reclaimed_bytes r.reclaimed_bytes;
  release_reason = pruned;
  last_error = "";
}

unfoldable pub prune_final_workspace : Option Manager → ActivityWorkspace → Spaces → Spaces
prune_final_workspace none w s = s
prune_final_workspace (some m) w s =
    if w.release_reason == pruned || is_nil w.manifest.inputs then s else elim (m.prune_inputs w) [
      | err message ↦ save_workspace s (record w { last_error = message })
      | ok r ↦ save_workspace s (pruned_workspace r (m.inspect w) w)
    ]

-- What Release's answer makes of the workspace.
unfoldable pub after_release :
    ℕ → Result String WorkspaceReleaseResult → ActivityWorkspace → ActivityWorkspace × Option String
after_release at (err message) w = (fail_with message w, some message)
after_release at (ok r) w = (
  record w { state = released; released_at = some at; reclaimed_bytes = r.reclaimed_bytes },
  none,
)

abbrev pub to_releasable : ActivityWorkspace → ActivityWorkspace
to_releasable w = record w {
  state = releasable;
  release_reason = "all downstream consumer workspaces were materialized";
}

abbrev pub log_release : String → Spaces → Spaces
log_release id s = record s { release_calls = s.release_calls ++ id ∷ [] }

-- reconcileWorkspace once no lease holds the workspace.
unfoldable pub release_workspace :
    Option Manager → ℕ → ActivityWorkspace → Spaces → Spaces × Option String
release_workspace none at w s = (save_workspace s (to_releasable w), none)
release_workspace (some m) at w s =
    let offered : ActivityWorkspace = to_releasable w in
    let going : ActivityWorkspace = record offered { state = releasing } in
    let marked : Spaces = save_workspace (save_workspace s offered) going in
    let (done, message) = after_release at (m.release going) going in
    (save_workspace (log_release w.id marked) done, message)

unfoldable pub reconcile_found :
    Option Manager → ℕ → ActivityWorkspace → Spaces → Spaces × Option String
reconcile_found m at w s =
    if not (is_sealed w.state) || w.pinned
    then (s, none)
    else if w.is_final
    then (prune_final_workspace m w s, none)
    else if is_leased w.id (list_leases s w.run_id)
    then (s, none)
    else release_workspace m at w s

unfoldable pub reconcile_workspace : Option Manager → ℕ → String → Spaces → Spaces × Option String
reconcile_workspace m at id s = elim (find_workspace id s.workspaces) [
  | none ↦ (s, none)
  | some w ↦ reconcile_found m at w s
]

-- Inspect's answer when a workspace is sealed: an error is only noted.
unfoldable pub measure : Option Manager → ActivityWorkspace → ActivityWorkspace
measure none w = w
measure (some m) w = elim (m.inspect w) [
  | err message ↦ record w { last_error = message }
  | ok usage ↦ record w { file_count = usage.file_count; size_bytes = usage.size_bytes }
]

abbrev pub describe : Option ArtifactManifest → ActivityWorkspace → ActivityWorkspace
describe none w = w
describe (some a) w = apply_artifact_manifest a w

unfoldable pub sealed_workspace :
    Option Manager → ℕ → Option ArtifactManifest → ActivityWorkspace → ActivityWorkspace
sealed_workspace m at manifest w =
    describe manifest (measure m (record w { state = sealed; sealed_at = some at }))

unfoldable pub seal_workspace :
    Option Manager → ℕ → String → String → Option ArtifactManifest → Spaces → Spaces × Option String
seal_workspace m at run_id activity_id manifest s =
    elim (find_workspace (workspace_id run_id activity_id) s.workspaces) [
      | none ↦ (s, none)
      | some w ↦ reconcile_workspace m at w.id (save_workspace s (sealed_workspace m at manifest w))
    ]

abbrev pub released_lease : ℕ → WorkspaceLease → WorkspaceLease
released_lease at l = record l {
  is_released = true;
  released_at = some at;
  release_reason = "consumer workspace materialized";
}

-- One round of the loop of releaseProducerWorkspaceLeases.
unfoldable pub release_lease :
    Option Manager → ℕ → String → WorkspaceLease → Spaces → Spaces × Option String
release_lease m at consumer_id l s =
    if l.consumer_activity_id == consumer_id && not l.is_released
    then reconcile_workspace m at l.workspace_id (save_lease s (released_lease at l))
    else (s, none)

unfoldable pub release_leases :
    Option Manager → ℕ → String → List WorkspaceLease → Spaces → Spaces × Option String
release_leases m at consumer_id [] s = (s, none)
release_leases m at consumer_id (l ∷ ls) s =
    let next = release_lease m at consumer_id l s in
    elim next.1 [
      | none ↦ release_leases m at consumer_id ls next.0
      | some message ↦ (next.0, some message)
    ]

unfoldable pub release_producer_workspace_leases :
    Option Manager → ℕ → String → String → Spaces → Spaces × Option String
release_producer_workspace_leases m at run_id consumer_id s =
    release_leases m at consumer_id (list_leases s run_id) s
