-- ===== src/Supervision/Releases.antt =====
-- What becomes of the cloud instances of a run at its end: releaseCloud,
-- retainCloudSourcesWithWorkspaceLeases and retainCloudSourcesWithEphemeralOutputs of
-- internal/controlplane/execution/supervisor.go, where the allocator of cloud instances, the tables of
-- workspaces and of data are present and can be read. A map is an association list.
use akoflow.Prelude.{
  ℕ, ◌+◌, String, Bool, true, false, not, List, [], ◌∷◌, add, contains, keep, length, ◌==◌,
  string_eq, ◌&&◌, ◌||◌, if◌then◌else◌,
}
use akoflow.Workspace.{ActivityWorkspace, WorkspaceLease, WorkspaceState, released}
use akoflow.Workspace.Recovery.{RuntimeAllocation}

pub data DataLocationStatus : Type 0 where
  ephemeral staging available failed deleted : DataLocationStatus

pub record DataLocation : Type 0 where
  pub resource_id : String
  pub status : DataLocationStatus

abbrev pub Allocations : Type 0
Allocations = List (String × RuntimeAllocation)

unfoldable pub needed_workspaces : List WorkspaceLease → List String
needed_workspaces [] = []
needed_workspaces (l ∷ rest) =
    let later = needed_workspaces rest in if l.is_released then later else add l.workspace_id later

abbrev pub is_removed : WorkspaceState → Bool
is_removed released = true
is_removed _ = false

unfoldable pub without_instances : List String → Allocations → Allocations
without_instances protected allocations =
    keep (λ a. not (contains protected a.1.cloud_instance_id)) allocations

-- `instance_of` is url.Parse and Query().Get("cloudInstanceId"), empty where the URI does not parse.
unfoldable pub leased_instances :
    (String → String) → List String → List ActivityWorkspace → List String
leased_instances instance_of needed [] = []
leased_instances instance_of needed (w ∷ rest) =
    let later = leased_instances instance_of needed rest in
    if is_removed w.state || not (contains needed w.id)
    then later
    else if instance_of w.uri == ""
    then later
    else add (instance_of w.uri) later

unfoldable pub retain_workspace_leases :
    (String → String) → Allocations → List ActivityWorkspace → List WorkspaceLease → Allocations × ℕ
unfolding without_instances
retain_workspace_leases instance_of allocations workspaces leases =
    let protected = leased_instances instance_of (needed_workspaces leases) workspaces in
    (without_instances protected allocations, length protected)

abbrev pub is_ephemeral : DataLocationStatus → Bool
is_ephemeral ephemeral = true
is_ephemeral _ = false

unfoldable pub ephemeral_resources : List DataLocation → List String
ephemeral_resources [] = []
ephemeral_resources (l ∷ rest) =
    let later = ephemeral_resources rest in
    if is_ephemeral l.status then add l.resource_id later else later

unfoldable pub ephemeral_instances : List String → Allocations → List String
ephemeral_instances resources [] = []
ephemeral_instances resources ((id, a) ∷ rest) =
    let later = ephemeral_instances resources rest in
    if not (a.cloud_instance_id == "") && contains resources a.resource_id
    then add a.cloud_instance_id later
    else later

unfoldable pub retain_ephemeral_outputs : Allocations → List DataLocation → Allocations × ℕ
unfolding without_instances
retain_ephemeral_outputs allocations locations =
    let protected = ephemeral_instances (ephemeral_resources locations) allocations in
    (without_instances protected allocations, length protected)

-- stopInstances: `selected` says of an activity that the plan stops its resource.
unfoldable pub stop_instances : (String → Bool) → Allocations → List String
stop_instances selected [] = []
stop_instances selected ((id, a) ∷ rest) =
    let later = stop_instances selected rest in
    if selected id then add a.cloud_instance_id later else later

-- What was handed to Stop and to Release; nothing reaches Release where Stop fails.
pub record Teardown : Type 0 where
  pub retained : ℕ
  pub stopped : Allocations
  pub let_go : Allocations

unfoldable pub release_cloud :
    (String → String)
    → Bool
    → Allocations
    → List ActivityWorkspace
    → List WorkspaceLease
    → List DataLocation
    → (String → Bool)
    → Bool
    → Teardown
unfolding retain_workspace_leases retain_ephemeral_outputs stop_instances without_instances
release_cloud instance_of true allocations workspaces leases locations selected stop_fails =
    let (left, n) = retain_workspace_leases instance_of allocations workspaces leases in
    let (rest, m) = retain_ephemeral_outputs left locations in
    record { retained = n + m; stopped = []; let_go = rest }
release_cloud instance_of false allocations workspaces leases locations selected stop_fails =
    let instances = stop_instances selected allocations in
    record {
      retained = 0;
      stopped = keep (λ a. contains instances a.1.cloud_instance_id) allocations;
      let_go = if stop_fails then [] else without_instances instances allocations;
    }
