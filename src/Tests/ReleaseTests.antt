-- ===== src/Tests/ReleaseTests.antt =====
-- The end of a run on three cloud instances, of which one has a workspace that is still leased, and the
-- activities that a recovery reuses.
use akoflow.Prelude.{
  String, true, false, List, [], ◌∷◌, some, ◌≡◌, refl, arith, remove, ◌==◌, string_eq, All,
  if◌then◌else◌,
}
use akoflow.Workspace.{ActivityWorkspace, sealed}
use akoflow.Workspace.Recovery.{RuntimeAllocation}
use akoflow.Tests.WorkspaceTests.{producer, hold}
use akoflow.Supervision.Releases.{
  DataLocation, ephemeral, needed_workspaces, without_instances, leased_instances,
  retain_workspace_leases, ephemeral_resources, ephemeral_instances, retain_ephemeral_outputs,
  stop_instances, release_cloud,
}
use akoflow.Supervision.Spared.{Unneeded, IsBare, release_cloud-spares, release_cloud-apart}
use akoflow.Supervision.Reuse.{
  drop_producers, drop_for_each, reconcile_reusable_workspaces, Settled, Within,
  reconcile_reusable_workspaces-Settled,
}

abbrev on_instance : String → String → RuntimeAllocation
on_instance resource instance_id = record {
  resource_id = resource;
  runtime_id = "cloud";
  connection_id = "";
  cloud_instance_id = instance_id;
}

abbrev held : List (String × RuntimeAllocation)
held =
    ("a", on_instance "small" "i-1")
    ∷ ("b", on_instance "large" "i-2")
    ∷ ("c", on_instance "spare" "i-3")
    ∷ ("d", on_instance "medium" "i-2")
    ∷ []

abbrev workspace : ActivityWorkspace
workspace = record producer { uri = "ssh://host?cloudInstanceId=i-1"; state = sealed }

abbrev location : DataLocation
location = record { resource_id = "large"; status = ephemeral }

-- The instance of the URI stands after the text of the test.
abbrev instance_of : String → String
instance_of uri = if uri == "ssh://host?cloudInstanceId=i-1" then "i-1" else ""

two_are_kept :
    release_cloud instance_of true held
      (workspace ∷ [])
      (hold ∷ [])
      (location ∷ [])
      (λ id. false)
      false
    ≡ record { retained = 2; stopped = []; let_go = ("c", on_instance "spare" "i-3") ∷ [] }
unfolding release_cloud retain_workspace_leases retain_ephemeral_outputs ephemeral_instances
    ephemeral_resources leased_instances without_instances needed_workspaces
two_are_kept = refl

one_is_stopped :
    release_cloud instance_of false held
      (workspace ∷ [])
      (hold ∷ [])
      (location ∷ [])
      (λ id. id == "a")
      false
    ≡ record {
      retained = 0;
      stopped = ("a", on_instance "small" "i-1") ∷ [];
      let_go =
          ("b", on_instance "large" "i-2")
          ∷ ("c", on_instance "spare" "i-3")
          ∷ ("d", on_instance "medium" "i-2")
          ∷ [];
    }
unfolding release_cloud stop_instances without_instances
one_is_stopped = refl

release_cloud-spares_example :
    All
      (λ a. Unneeded instance_of (workspace ∷ []) (hold ∷ []) a.1 × IsBare (location ∷ []) held a.1)
      (release_cloud instance_of true held
        (workspace ∷ [])
        (hold ∷ [])
        (location ∷ [])
        (λ id. false)
        false).let_go
release_cloud-spares_example =
    release_cloud-spares instance_of held (workspace ∷ []) (hold ∷ []) (location ∷ []) (λ id. false)
      false

release_cloud-apart_example :
    let done =
      release_cloud instance_of false held
        (workspace ∷ [])
        (hold ∷ [])
        (location ∷ [])
        (λ id. id == "a")
        false in
    All
      (λ a. All (λ b. (a.1.cloud_instance_id == b.1.cloud_instance_id) ≡ false) done.let_go)
      done.stopped
release_cloud-apart_example =
    release_cloud-apart instance_of held (workspace ∷ []) (hold ∷ []) (location ∷ [])
      (λ id. id == "a") false

-- `b` is not reused and needs `a`, which is no longer there; so `a` is not reused, and `z` neither.
abbrev needs_of : String → List String
needs_of id = if id == "b" then "a" ∷ [] else if id == "a" then "z" ∷ [] else []

chain_is_dropped :
    reconcile_reusable_workspaces [] 3 ("a" ∷ "b" ∷ "z" ∷ []) needs_of ("a" ∷ "z" ∷ []) ≡ some []
unfolding reconcile_reusable_workspaces drop_for_each drop_producers remove
chain_is_dropped = refl

reconcile_reusable_workspaces-Settled_example :
    (kept : List String) × (reconcile_reusable_workspaces [] 3
        ("a" ∷ "b" ∷ "z" ∷ [])
        needs_of
        ("a" ∷ "z" ∷ [])
      ≡ some kept)
    × Within [] kept ("a" ∷ "z" ∷ [])
    × Settled [] needs_of ("a" ∷ "b" ∷ "z" ∷ []) kept
reconcile_reusable_workspaces-Settled_example =
    reconcile_reusable_workspaces-Settled [] 3 ("a" ∷ "b" ∷ "z" ∷ []) needs_of ("a" ∷ "z" ∷ [])
      (omega arith)
