-- ===== src/Tests/ProjectionTests.antt =====
-- The projection of a chain of two activities.
use akoflow.Prelude.{
  true, ℕ, ◌+◌, String, List, [], ◌∷◌, none, some, ok, err, ◌≡◌, ◌≢◌, refl, arith, leb, put,
  drop_key, trim_space, lookup, string_eq, All, if◌then◌else◌,
}
use akoflow.Projection.{
  ProjectedFile, WorkspaceProjection, WorkspaceProjectionVolumes, out_of_fuel, invalid_file,
  workspace_overflow, Manifest, exceeds, overflows, add_sizes,
}
use akoflow.Projection.Files.{
  segments, has_bad_rune, all_proper, is_proper_path, is_valid_file, merge_projected_file,
}
use akoflow.Projection.Activities.{
  manifest_of, merge_parent, merge_parents, merge_inputs, remove_paths, merge_outputs,
  finalize_projected_workspace, project_activity_workspace,
}
use akoflow.Projection.Versions.{
  Models, Progressed, nothing_yet, Version, select_inputs, check_model, load_model, load_models,
  check_edges, producers_of, all_known, project_one, project_pass, project_all, data_dependencies,
  is_enabled, project_workspace_dependencies,
}
use akoflow.Projection.Sizes.{size_sum, add_sizes-size_sum}
use akoflow.Projection.Passes.{project_workspace_dependencies-fuel}
use akoflow.Projection.Ordering.{InOrder, project_all-InOrder}
use akoflow.Projection.Inherited.{HasAll, files_of}
use akoflow.Projection.Produced.{Inherits, project_activity_workspace-has}

abbrev file : String → ℕ → ProjectedFile
file path size = record { path = path; size_bytes = size; content_id = "sha" }

abbrev makes : List ProjectedFile → WorkspaceProjection
makes files = record {
  contract = "whole-workspace-v1";
  origin = "calibration";
  inputs = [];
  outputs = files;
  removed_paths = [];
  terminal_observation_bytes = none;
  publication_cleanup_bytes = none;
  inputs_by_resource_type = [];
}

abbrev chain : List ProjectedFile → Version
chain files = record {
  activities =
      record { id = "b"; projection = some (ok (makes (file "out" 2 ∷ []))) }
      ∷ record { id = "a"; projection = some (ok (makes files)) }
      ∷ [];
  dependencies = record { activity_id = "b"; depends_on_activity_id = "a" } ∷ [];
}

abbrev volumes : ℕ → ℕ → ℕ → ℕ → ℕ → ℕ → WorkspaceProjectionVolumes
volumes before created inherited files total count = record {
  pre_execution_bytes = before;
  created_output_bytes = created;
  input_total_bytes = inherited;
  input_unique_bytes = inherited;
  input_files = files;
  output_bytes = total;
  output_files = count;
  terminal_observation_bytes = total;
  publication_cleanup_bytes = 0;
}

chain_projected :
    project_workspace_dependencies none (chain (file "x/y" 5 ∷ []))
    ≡ ok (
        some (record {
          data_dependencies_of =
              record {
                producer_activity_id = "a";
                consumer_activity_id = "b";
                logical_name = "whole-workspace-v1";
                size_bytes = 5;
              }
              ∷ [];
          volumes_of = ("b", volumes 5 2 5 1 7 2) ∷ ("a", volumes 0 5 0 0 5 1) ∷ [];
        }))
unfolding project_workspace_dependencies is_enabled data_dependencies project_all project_pass
    project_one all_known producers_of check_edges load_models load_model check_model select_inputs
    project_activity_workspace finalize_projected_workspace merge_outputs remove_paths merge_inputs
    merge_parents merge_parent merge_projected_file is_valid_file is_proper_path all_proper
    has_bad_rune segments add_sizes overflows exceeds put drop_key trim_space
chain_projected = refl

climbing_rejected :
    project_workspace_dependencies none (chain (file "x/../y" 5 ∷ []))
    ≡ err (invalid_file "x/../y" "a")
unfolding project_workspace_dependencies is_enabled data_dependencies project_all project_pass
    project_one all_known producers_of check_edges load_models load_model check_model select_inputs
    project_activity_workspace finalize_projected_workspace merge_outputs remove_paths merge_inputs
    merge_parents merge_parent merge_projected_file is_valid_file is_proper_path all_proper
    has_bad_rune segments add_sizes overflows exceeds put drop_key trim_space
climbing_rejected = refl

project_workspace_dependencies-fuel_example :
    project_workspace_dependencies none (chain (file "x/y" 5 ∷ [])) ≢ err out_of_fuel
project_workspace_dependencies-fuel_example =
    project_workspace_dependencies-fuel none (chain (file "x/y" 5 ∷ []))

abbrev two_files : Manifest
two_files = ("x", file "x" 9223372036854775800) ∷ ("y", file "y" 8) ∷ []

add_sizes-size_sum_example : add_sizes (workspace_overflow "a") two_files 0 ≡ (
    if leb (0 + size_sum two_files) 9223372036854775807
    then ok (0 + size_sum two_files)
    else err (workspace_overflow "a"))
add_sizes-size_sum_example =
    add_sizes-size_sum (workspace_overflow "a") two_files 0 (omega arith, (omega arith, tt))
      (omega arith)

abbrev of_a : List (String × Manifest)
of_a = ("a", ("x", file "x" 5) ∷ []) ∷ []

project_activity_workspace-has_example :
    HasAll (("x", file "x" 5) ∷ ("out", file "out" 2) ∷ []) (file "out" 2 ∷ [])
    × All
        (λ p.
          Inherits "b"
            (makes (file "out" 2 ∷ []))
            (("x", file "x" 5) ∷ ("out", file "out" 2) ∷ [])
            (files_of (manifest_of (lookup p of_a))))
        ("a" ∷ [])
unfolding project_activity_workspace finalize_projected_workspace merge_outputs remove_paths
    merge_inputs merge_parents merge_parent merge_projected_file is_valid_file is_proper_path
    all_proper has_bad_rune segments add_sizes overflows exceeds put drop_key
project_activity_workspace-has_example =
    project_activity_workspace-has "b" (makes (file "out" 2 ∷ [])) ("a" ∷ []) of_a
      (("x", file "x" 5) ∷ ("out", file "out" 2) ∷ [], volumes 5 2 5 1 7 2) refl

abbrev models : Models
models = ("a", makes (file "x" 5 ∷ [])) ∷ ("b", makes (file "out" 2 ∷ [])) ∷ []

abbrev all_projected : Progressed
all_projected = record {
  manifests =
      ("b", ("x", file "x" 5) ∷ ("out", file "out" 2) ∷ []) ∷ ("a", ("x", file "x" 5) ∷ []) ∷ [];
  volumes = ("b", volumes 5 2 5 1 7 2) ∷ ("a", volumes 0 5 0 0 5 1) ∷ [];
  progress = true;
}

project_all-InOrder_example : InOrder models (chain (file "x" 5 ∷ [])).dependencies all_projected
unfolding project_all project_pass project_one all_known producers_of project_activity_workspace
    finalize_projected_workspace merge_outputs remove_paths merge_inputs merge_parents merge_parent
    merge_projected_file is_valid_file is_proper_path all_proper has_bad_rune segments add_sizes
    overflows exceeds put drop_key
project_all-InOrder_example =
    project_all-InOrder models (chain (file "x" 5 ∷ [])).dependencies 3
      (chain (file "x" 5 ∷ [])).activities nothing_yet all_projected tt refl
