-- ===== src/Tests/WorkspaceTests.antt =====
-- The theorems on workspaces at a run of two activities: a producer, whose workspace is released once
-- the consumer has taken its data, and the consumer, whose workspace is final.
use akoflow.Prelude.{
  ◌%◌, ◌^◌, true, false, List, [], ◌∷◌, ◌++◌, map, Option, none, some, ◌≡◌, refl, All, ok,
}
use mathlib.Core.List.{Memᴰ, Perm}
use akoflow.Workspace.{
  ActivityWorkspace, WorkspaceLease, Manager, Spaces, planned, active, intermediate, final,
  find_workspace, put_workspace, put_lease, save_workspace, save_lease, list_leases, order_leases,
  insert_lease,
}
use akoflow.Workspace.Manifest.{
  ArtifactManifest, entry_of, no_entries, apply_artifact_manifest, classified, contents, classify,
  by_path,
}
use akoflow.Workspace.Contents.{apply_artifact_manifest_lem, size_sum}
use akoflow.Workspace.Lifecycle.{
  is_leased, release_producer_workspace_leases, release_leases, release_lease, reconcile_workspace,
  reconcile_found, release_workspace, after_release, seal_workspace, sealed_workspace, measure,
}
use akoflow.Workspace.Recovery.{
  SetInstance, restore_leases, restore_recovery_workspace_leases, recover_workspaces, recover_each,
  list_workspace_candidates,
}
use akoflow.Workspace.Release.{MayRelease}
use akoflow.Workspace.Leases.{consumed, release_producer_workspace_leases_lem}
use akoflow.Workspace.History.{
  Step, seals, releases_leases, recovers, restores_leases, from_here, run, step, run-MayRelease,
}

abbrev pub producer : ActivityWorkspace
producer = record {
  id = "workspace-r-a";
  run_id = "r";
  activity_id = "a";
  environment_id = "e";
  resource_id = "h";
  runtime_id = "";
  connection_id = "";
  uri = "file:///r/a";
  execution_path = "/r/a";
  observation_path = "/r/a";
  driver = "local";
  state = active;
  retention = intermediate;
  is_final = false;
  pinned = false;
  manifest = no_entries;
  file_count = 0;
  size_bytes = 0;
  input_bytes = 0;
  output_bytes = 0;
  reclaimed_bytes = 0;
  release_reason = "";
  last_error = "";
  created_at = 0;
  sealed_at = none;
  released_at = none;
}

abbrev consumer : ActivityWorkspace
consumer = record producer {
  id = "workspace-r-b";
  activity_id = "b";
  state = planned;
  retention = final;
  is_final = true;
}

abbrev pub hold : WorkspaceLease
hold = record {
  id = "workspace-lease-r-a-b";
  workspace_id = "workspace-r-a";
  run_id = "r";
  producer_activity_id = "a";
  consumer_activity_id = "b";
  is_released = false;
  released_at = none;
  release_reason = "";
}

abbrev spaces : Spaces
spaces = record { workspaces = producer ∷ consumer ∷ []; leases = hold ∷ []; release_calls = [] }

-- A manager that does all it is asked for.
abbrev obliging : Option Manager
obliging = some (record {
  ensure = λ w. none;
  inspect = λ w. ok (record { file_count = 1; size_bytes = 5 });
  prune_inputs = λ w. ok (record { reclaimed_bytes = 0; removed_files = 0; preserved_files = 0 });
  release = λ w. ok (record { reclaimed_bytes = 5; removed_files = 0; preserved_files = 0 });
})

same_uri : SetInstance
same_uri uri id = ok uri

abbrev steps : List Step
steps = seals 1 "r" "a" none ∷ releases_leases 2 "r" "b" ∷ recovers 3 ∷ []

-- Before a restart the consumer had taken its data; it runs again, so its lease is restored.
abbrev consumed_before : Spaces
consumed_before = record spaces { leases = record hold { is_released = true } ∷ [] }

abbrev restart : List Step
restart = restores_leases "r" ("a" ∷ []) ∷ []

run-MayRelease_example :
    (let after =
        run same_uri obliging steps (from_here (run same_uri obliging restart consumed_before)) in
      All (MayRelease after) after.release_calls)
run-MayRelease_example =
    run-MayRelease same_uri obliging restart steps consumed_before
      (unfold find_workspace in (refl, (refl, tt))) (refl, (refl, (refl, tt)))

released_in_run :
    (run same_uri obliging steps
      (from_here (run same_uri obliging restart consumed_before))).release_calls
    ≡ "workspace-r-a" ∷ []
unfolding run step seal_workspace sealed_workspace measure save_workspace put_workspace
    find_workspace reconcile_workspace reconcile_found list_leases order_leases insert_lease
    is_leased release_producer_workspace_leases release_leases release_lease save_lease put_lease
    restore_recovery_workspace_leases restore_leases release_workspace after_release
    recover_workspaces recover_each list_workspace_candidates
released_in_run = refl

-- A lease that is listed after `hold` and stands before it.
abbrev later_hold : WorkspaceLease
later_hold = record hold {
  id = "workspace-lease-r-c-b";
  workspace_id = "workspace-r-c";
  producer_activity_id = "c";
}

abbrev two_holds : Spaces
two_holds = record spaces { leases = later_hold ∷ hold ∷ [] }

listed_in_order : list_leases two_holds "r" ≡ hold ∷ later_hold ∷ []
unfolding list_leases order_leases insert_lease
listed_in_order = refl

release_producer_workspace_leases_lem_example :
    (release_producer_workspace_leases obliging 2 "r" "b" two_holds).0.leases
    ≡ map (consumed 2 "r" "b") (later_hold ∷ hold ∷ [])
unfolding release_producer_workspace_leases release_leases release_lease reconcile_workspace
    reconcile_found find_workspace save_lease list_leases order_leases insert_lease put_lease
release_producer_workspace_leases_lem_example =
    release_producer_workspace_leases_lem obliging 2 "r" "b" two_holds ((refl, tt), (tt, tt)) refl

abbrev observed : ArtifactManifest
observed = record {
  files = [];
  initial_snapshot = record { path = "in"; size_bytes = 3; checksum = "x" } ∷ [];
  final_snapshot =
      record { path = "in"; size_bytes = 3; checksum = "x" }
      ∷ record { path = "out"; size_bytes = 2; checksum = "y" }
      ∷ [];
  final_files = 2;
  output_bytes = 2;
}

apply_artifact_manifest_lem_example :
    (let m = (apply_artifact_manifest observed consumer).manifest in
      (m.final ≡ map entry_of observed.final_snapshot)
      × Perm m.final (m.inputs ++ m.outputs)
      × All (λ e. Memᴰ e (map entry_of observed.initial_snapshot)) m.inputs
      × ((apply_artifact_manifest observed consumer).input_bytes ≡ size_sum m.inputs % 2 ^ 64))
apply_artifact_manifest_lem_example =
    apply_artifact_manifest_lem observed consumer
      (record { path = "in"; size_bytes = 3; checksum = "x" })
      (record { path = "out"; size_bytes = 2; checksum = "y" } ∷ []) refl

outputs_of_observed :
    (apply_artifact_manifest observed consumer).manifest.outputs
    ≡ record { path = "out"; digest = "y"; size_bytes = 2 } ∷ []
unfolding apply_artifact_manifest classified contents classify by_path
outputs_of_observed = refl
