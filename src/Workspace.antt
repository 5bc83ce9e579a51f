-- ===== src/Workspace.antt =====
-- The workspaces of a run and their leases, from internal/domain/execution/workspace.go, and the
-- tables that keep them (ports.WorkspaceStore). A size is the bit pattern of its int64, a time a
-- number of nanoseconds.
pub mod Lifecycle
pub mod Listing
pub mod Passed
pub mod History
pub mod Contents
pub mod Leases
pub mod Restart
pub mod Operations
pub mod Recovery
pub mod Manifest
pub mod Release
pub mod Tables
use Prim.Native.Nat.{Ordering}
use Prim.Native.String.{compare}
use akoflow.Prelude.{
  ℕ, ◌+◌, ◌%◌, ◌^◌, String, Bool, true, false, List, [], ◌∷◌, ◌++◌, Option, none, some, keep, ◌==◌,
  string_eq, if◌then◌else◌, Result,
}

pub data WorkspaceState : Type 0 where
  planned active sealed releasable releasing released failed : WorkspaceState

pub data WorkspaceRetention : Type 0 where
  intermediate final pinned_retention : WorkspaceRetention

pub record WorkspaceEntry : Type 0 where
  pub path : String
  pub digest : String
  pub size_bytes : ℕ

pub record WorkspaceManifest : Type 0 where
  pub initial : List WorkspaceEntry
  pub final : List WorkspaceEntry
  pub inputs : List WorkspaceEntry
  pub outputs : List WorkspaceEntry
  pub removed : List WorkspaceEntry
  pub temporary : List WorkspaceEntry

pub record ActivityWorkspace : Type 0 where
  pub id : String
  pub run_id : String
  pub activity_id : String
  pub environment_id : String
  pub resource_id : String
  pub runtime_id : String
  pub connection_id : String
  pub uri : String
  pub execution_path : String
  pub observation_path : String
  pub driver : String
  pub state : WorkspaceState
  pub retention : WorkspaceRetention
  pub is_final : Bool
  pub pinned : Bool
  pub manifest : WorkspaceManifest
  pub file_count : ℕ
  pub size_bytes : ℕ
  pub input_bytes : ℕ
  pub output_bytes : ℕ
  pub reclaimed_bytes : ℕ
  pub release_reason : String
  pub last_error : String
  pub created_at : ℕ
  pub sealed_at : Option ℕ
  pub released_at : Option ℕ

pub record WorkspaceLease : Type 0 where
  pub id : String
  pub workspace_id : String
  pub run_id : String
  pub producer_activity_id : String
  pub consumer_activity_id : String
  pub is_released : Bool
  pub released_at : Option ℕ
  pub release_reason : String

pub record WorkspaceUsage : Type 0 where
  pub file_count : ℕ
  pub size_bytes : ℕ

pub record WorkspaceReleaseResult : Type 0 where
  pub reclaimed_bytes : ℕ
  pub removed_files : ℕ
  pub preserved_files : ℕ

-- int64 addition on bit patterns.
abbrev pub add_i64 : ℕ → ℕ → ℕ
add_i64 a b = (a + b) % 2 ^ 64

-- WorkspaceManager, which the runtimes provide. An error is its text.
pub record Manager : Type 0 where
  pub ensure : ActivityWorkspace → Option String
  pub inspect : ActivityWorkspace → Result String WorkspaceUsage
  pub prune_inputs : ActivityWorkspace → Result String WorkspaceReleaseResult
  pub release : ActivityWorkspace → Result String WorkspaceReleaseResult

-- The two tables, and the workspaces on which the manager's Release was called, in order.
pub record Spaces : Type 0 where
  pub workspaces : List ActivityWorkspace
  pub leases : List WorkspaceLease
  pub release_calls : List String

unfoldable pub find_workspace : String → List ActivityWorkspace → Option ActivityWorkspace
find_workspace id [] = none
find_workspace id (w ∷ ws) = if w.id == id then some w else find_workspace id ws

-- The row of `id` after ON CONFLICT(id) DO UPDATE, which leaves the columns of its run, its activity
-- and its creation.
abbrev pub updated_workspace : ActivityWorkspace → ActivityWorkspace → ActivityWorkspace
updated_workspace v w = record w {
  run_id = v.run_id;
  activity_id = v.activity_id;
  created_at = v.created_at;
}

unfoldable pub put_workspace : ActivityWorkspace → List ActivityWorkspace → List ActivityWorkspace
put_workspace w [] = w ∷ []
put_workspace w (v ∷ vs) =
    if v.id == w.id then updated_workspace v w ∷ vs else v ∷ put_workspace w vs

-- Of a lease, ON CONFLICT(id) updates only its release.
abbrev pub updated_lease : WorkspaceLease → WorkspaceLease → WorkspaceLease
updated_lease k l = record k {
  is_released = l.is_released;
  released_at = l.released_at;
  release_reason = l.release_reason;
}

unfoldable pub put_lease : WorkspaceLease → List WorkspaceLease → List WorkspaceLease
put_lease l [] = l ∷ []
put_lease l (k ∷ ks) = if k.id == l.id then updated_lease k l ∷ ks else k ∷ put_lease l ks

-- INSERT ... ON CONFLICT(id) DO UPDATE
unfoldable pub save_workspace : Spaces → ActivityWorkspace → Spaces
save_workspace s w = record s { workspaces = put_workspace w s.workspaces }

unfoldable pub save_lease : Spaces → WorkspaceLease → Spaces
save_lease s l = record s { leases = put_lease l s.leases }

abbrev precedes : String → String → Bool
precedes a b = elim (compare a b) [ Ordering.lt ↦ true | _ ↦ false ]

-- ORDER BY producer_activity_id, consumer_activity_id
abbrev pub listed_before : WorkspaceLease → WorkspaceLease → Bool
listed_before k l =
    if k.producer_activity_id == l.producer_activity_id
    then precedes k.consumer_activity_id l.consumer_activity_id
    else precedes k.producer_activity_id l.producer_activity_id

unfoldable pub insert_lease : WorkspaceLease → List WorkspaceLease → List WorkspaceLease
insert_lease l [] = l ∷ []
insert_lease l (k ∷ ks) =
    let rest = insert_lease l ks in if listed_before k l then k ∷ rest else l ∷ k ∷ ks

unfoldable pub order_leases : List WorkspaceLease → List WorkspaceLease
unfolding insert_lease
order_leases [] = []
order_leases (l ∷ ls) = insert_lease l (order_leases ls)

unfoldable pub list_leases : Spaces → String → List WorkspaceLease
unfolding order_leases
list_leases s run_id = order_leases (keep (λ l. l.run_id == run_id) s.leases)
