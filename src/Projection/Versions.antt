-- ===== src/Projection/Versions.antt =====
-- The projection of a workflow: loadWorkspaceProjectionModels and
-- ProjectWorkspaceDependenciesForResourceTypes of internal/domain/workflow/workspace_projection.go.
use akoflow.Prelude.{
  ℕ, zero, suc, String, Bool, true, false, not, List, [], ◌∷◌, Option, none, some, ok, err, Result,
  ◌>>=◌, ltb, trim_space, lookup, length, ◌==◌, string_eq, ◌&&◌, ◌||◌, if◌then◌else◌,
}
use akoflow.Precedence.{ActivityDependency}
use akoflow.Projection.{
  ProjectedFile, WorkspaceProjection, WorkspaceProjectionVolumes, ProjectionError, unknown_consumer,
  unknown_producer, dependency_cycle, out_of_fuel, workspace_overflow, no_projection,
  bad_projection, no_contract, negative_terminal, negative_cleanup, no_resource_type,
  duplicate_activity, no_runtime_inputs, Manifest, Projected, is_negative, add_sizes,
}
use akoflow.Projection.Activities.{manifest_of, project_activity_workspace}

-- Metadata["workspaceProjection"] as encoding/json decodes it, none where it is absent.
pub record Activity : Type 0 where
  pub id : String
  pub projection : Option (Result String WorkspaceProjection)

pub record Version : Type 0 where
  pub activities : List Activity
  pub dependencies : List ActivityDependency

abbrev pub Models : Type 0
Models = List (String × WorkspaceProjection)

abbrev is_negative_option : Option ℕ → Bool
is_negative_option none = false
is_negative_option (some n) = is_negative n

abbrev is_nil : List (String × List ProjectedFile) → Bool
is_nil [] = true
is_nil (x ∷ xs) = false

-- The inputs of the type of resource that the activity is assigned to.
unfoldable pub select_inputs :
    Option (List (String × String)) → String → WorkspaceProjection → Projected WorkspaceProjection
select_inputs none id model = ok model
select_inputs (some types) id model =
    if is_nil model.inputs_by_resource_type then ok model else elim (lookup id types) [
      | none ↦ err (no_resource_type id)
      | some t ↦ elim (lookup t model.inputs_by_resource_type) [
        | none ↦ err (no_runtime_inputs t id)
        | some files ↦ ok (record model { inputs = files })
      ]
    ]

unfoldable pub check_model : String → WorkspaceProjection → Projected WorkspaceProjection
check_model id model =
    if not (model.contract == "whole-workspace-v1") || trim_space model.origin == ""
    then err (no_contract id)
    else if is_negative_option model.terminal_observation_bytes
    then err (negative_terminal id)
    else if is_negative_option model.publication_cleanup_bytes
    then err (negative_cleanup id)
    else ok model

abbrev pub is_known {ℓ} : {A : Type ℓ} → String → List (String × A) → Bool
is_known id [] = false
is_known id ((j, a) ∷ rest) = id == j || is_known id rest

abbrev pub add_model : String → Models → WorkspaceProjection → Projected Models
add_model id models model =
    if is_known id models then err (duplicate_activity id) else ok ((id, model) ∷ models)

unfoldable pub load_model : Option (List (String × String)) → Activity → Models → Projected Models
unfolding check_model select_inputs
load_model types a models = elim a.projection [
  | none ↦ err (no_projection a.id)
  | some (err e) ↦ err (bad_projection a.id)
  | some (ok model) ↦ check_model a.id model >>= select_inputs types a.id >>= add_model a.id models
]

unfoldable pub load_models :
    Option (List (String × String)) → List Activity → Models → Projected Models
unfolding load_model
load_models types [] models = ok models
load_models types (a ∷ rest) models = load_model types a models >>= load_models types rest

unfoldable pub check_edges : Models → List ActivityDependency → Option ProjectionError
check_edges models [] = none
check_edges models (d ∷ rest) =
    let later = check_edges models rest in
    if not (is_known d.activity_id models)
    then some unknown_consumer
    else if not (is_known d.depends_on_activity_id models)
    then some unknown_producer
    else later

-- preds[id]
unfoldable pub producers_of : String → List ActivityDependency → List String
producers_of id [] = []
producers_of id (d ∷ rest) =
    let later = producers_of id rest in
    if d.activity_id == id then d.depends_on_activity_id ∷ later else later

pub record Progressed : Type 0 where
  pub manifests : List (String × Manifest)
  pub volumes : List (String × WorkspaceProjectionVolumes)
  pub progress : Bool

abbrev no_model : WorkspaceProjection
no_model = record {
  contract = "";
  origin = "";
  inputs = [];
  outputs = [];
  removed_paths = [];
  terminal_observation_bytes = none;
  publication_cleanup_bytes = none;
  inputs_by_resource_type = [];
}

abbrev pub model_of : Option WorkspaceProjection → WorkspaceProjection
model_of none = no_model
model_of (some m) = m

unfoldable pub all_known : List String → List (String × Manifest) → Bool
all_known [] manifests = true
all_known (p ∷ ps) manifests = is_known p manifests && all_known ps manifests

module _ (models : Models) (edges : List ActivityDependency) where
  unfoldable pub project_one : String → Progressed → Projected Progressed
  unfolding project_activity_workspace
  project_one id s =
      project_activity_workspace id (model_of (lookup id models)) (producers_of id edges)
        s.manifests
      >>= λ r. ok (record {
        manifests = (id, r.0) ∷ s.manifests;
        volumes = (id, r.1) ∷ s.volumes;
        progress = true;
      })

  -- One pass over the activities.
  unfoldable pub project_pass : List Activity → Progressed → Projected Progressed
  project_pass [] s = ok s
  project_pass (a ∷ rest) s =
      let later = project_pass rest s in
      let next = project_one a.id s >>= project_pass rest in
      if is_known a.id s.manifests || not (all_known (producers_of a.id edges) s.manifests)
      then later
      else next

  -- The loop, with fuel for each pass.
  unfoldable pub project_all : ℕ → List Activity → Progressed → Projected Progressed
  unfolding project_pass
  project_all zero activities s =
      if ltb (length s.manifests) (length models) then err out_of_fuel else ok s
  project_all (suc n) activities s =
      let next = project_pass activities (record s { progress = false }) >>= λ t.
      if t.progress then project_all n activities t else err dependency_cycle in
      if ltb (length s.manifests) (length models) then next else ok s

pub record DataDependency : Type 0 where
  pub producer_activity_id : String
  pub consumer_activity_id : String
  pub logical_name : String
  pub size_bytes : ℕ

unfoldable pub data_dependencies :
    List (String × Manifest) → List ActivityDependency → Projected (List DataDependency)
unfolding add_sizes
data_dependencies manifests [] = ok []
data_dependencies manifests (d ∷ rest) =
    add_sizes (workspace_overflow d.depends_on_activity_id)
      (manifest_of (lookup d.depends_on_activity_id manifests)) 0
    >>= λ bytes. data_dependencies manifests rest >>= λ later. ok (
        record {
          producer_activity_id = d.depends_on_activity_id;
          consumer_activity_id = d.activity_id;
          logical_name = "whole-workspace-v1";
          size_bytes = bytes;
        }
        ∷ later)

unfoldable pub is_enabled : List Activity → Bool
is_enabled [] = false
is_enabled (a ∷ rest) = elim a.projection [ some p ↦ true | none ↦ is_enabled rest ]

abbrev pub nothing_yet : Progressed
nothing_yet = record { manifests = []; volumes = []; progress = false }

pub record ProjectedVersion : Type 0 where
  pub data_dependencies_of : List DataDependency
  pub volumes_of : List (String × WorkspaceProjectionVolumes)

abbrev pub finish :
    List (String × WorkspaceProjectionVolumes)
    → List DataDependency
    → Projected (Option ProjectedVersion)
finish volumes ds = ok (some (record { data_dependencies_of = ds; volumes_of = volumes }))

-- What the projection puts into the version, none where no activity has a model.
unfoldable pub project_workspace_dependencies :
    Option (List (String × String)) → Version → Projected (Option ProjectedVersion)
unfolding load_models check_edges project_all data_dependencies is_enabled
project_workspace_dependencies types w =
    let projected = load_models types w.activities [] >>= λ models.
    elim (check_edges models w.dependencies) [
      | some e ↦ err e
      | none ↦
          project_all models w.dependencies (suc (length w.activities)) w.activities nothing_yet
          >>= λ s. data_dependencies s.manifests w.dependencies >>= finish s.volumes
    ] in
    if is_enabled w.activities then projected else ok none
