-- ===== src/Projection/Activities.antt =====
-- The workspace of one activity: projectActivityWorkspace and finalizeProjectedWorkspace of
-- internal/domain/workflow/workspace_projection.go.
use akoflow.Prelude.{
  ℕ, String, Bool, true, false, List, [], ◌∷◌, Option, none, some, ok, err, ◌>>=◌, drop_key, lookup,
  contains, length, string_eq, ◌||◌, if◌then◌else◌,
}
use akoflow.Projection.{
  ProjectedFile, WorkspaceProjection, WorkspaceProjectionVolumes, created_overflow, output_overflow,
  input_overflow, union_overflow, preparation_overflow, removed_absent, duplicate_output, Manifest,
  Projected, is_negative, overflows, add_int64, add_sizes,
}
use akoflow.Projection.Files.{merge_projected_file}

-- The files of one producer, with the total.
unfoldable pub merge_parent : String → Manifest → Manifest × ℕ → Projected (Manifest × ℕ)
unfolding merge_projected_file overflows
merge_parent activity_id [] (m, total) = ok (m, total)
merge_parent activity_id ((p, f) ∷ rest) (m, total) =
    let later = merge_projected_file false activity_id f m >>= λ m'.
    merge_parent activity_id rest (m', add_int64 total f.size_bytes) in
    if overflows f.size_bytes total then err (input_overflow activity_id) else later

abbrev pub manifest_of : Option Manifest → Manifest
manifest_of none = []
manifest_of (some m) = m

unfoldable pub merge_parents :
    String → List (String × Manifest) → List String → Manifest × ℕ → Projected (Manifest × ℕ)
unfolding merge_parent
merge_parents activity_id manifests [] s = ok s
merge_parents activity_id manifests (p ∷ ps) s =
    merge_parent activity_id (manifest_of (lookup p manifests)) s
    >>= merge_parents activity_id manifests ps

unfoldable pub merge_inputs : String → List ProjectedFile → Manifest → Projected Manifest
unfolding merge_projected_file
merge_inputs activity_id [] m = ok m
merge_inputs activity_id (f ∷ fs) m =
    merge_projected_file false activity_id f m >>= merge_inputs activity_id fs

abbrev is_found : Option ProjectedFile → Bool
is_found none = false
is_found (some f) = true

unfoldable pub remove_paths : String → List String → Manifest → Projected Manifest
remove_paths activity_id [] m = ok m
remove_paths activity_id (p ∷ ps) m =
    let later = remove_paths activity_id ps (drop_key p m) in
    if is_found (lookup p m) then later else err (removed_absent p activity_id)

-- The outputs, with the paths seen and the total.
unfoldable pub merge_outputs :
    String → List ProjectedFile → List String → Manifest × ℕ → Projected (Manifest × ℕ)
unfolding merge_projected_file overflows
merge_outputs activity_id [] seen s = ok s
merge_outputs activity_id (f ∷ fs) seen (m, total) =
    let later = merge_projected_file true activity_id f m >>= λ m'.
    merge_outputs activity_id fs (f.path ∷ seen) (m', add_int64 total f.size_bytes) in
    if overflows f.size_bytes total || is_negative f.size_bytes
    then err (created_overflow activity_id)
    else if contains seen f.path
    then err (duplicate_output f.path activity_id)
    else later

abbrev or_else : Option ℕ → ℕ → ℕ
or_else none n = n
or_else (some k) n = k

unfoldable pub finalize_projected_workspace :
    String
    → WorkspaceProjection
    → Manifest
    → WorkspaceProjectionVolumes
    → Projected (Manifest × WorkspaceProjectionVolumes)
unfolding remove_paths merge_outputs add_sizes
finalize_projected_workspace activity_id model m volume =
    remove_paths activity_id model.removed_paths m >>= λ m1.
    merge_outputs activity_id model.outputs [] (m1, volume.created_output_bytes) >>= λ s.
    add_sizes (output_overflow activity_id) s.0 volume.output_bytes >>= λ total. ok (
      s.0,
      record volume {
        created_output_bytes = s.1;
        output_bytes = total;
        output_files = length s.0;
        terminal_observation_bytes = or_else model.terminal_observation_bytes total;
        publication_cleanup_bytes =
            or_else model.publication_cleanup_bytes volume.publication_cleanup_bytes;
      },
    )

-- The volumes before the execution; the others are still 0.
abbrev pub before_execution : ℕ → ℕ → ℕ → ℕ → WorkspaceProjectionVolumes
before_execution prepared total unique files = record {
  pre_execution_bytes = prepared;
  created_output_bytes = 0;
  input_total_bytes = total;
  input_unique_bytes = unique;
  input_files = files;
  output_bytes = 0;
  output_files = 0;
  terminal_observation_bytes = 0;
  publication_cleanup_bytes = 0;
}

unfoldable pub project_activity_workspace :
    String
    → WorkspaceProjection
    → List String
    → List (String × Manifest)
    → Projected (Manifest × WorkspaceProjectionVolumes)
unfolding merge_parents merge_inputs add_sizes finalize_projected_workspace
project_activity_workspace activity_id model parents manifests =
    merge_parents activity_id manifests parents ([], 0) >>= λ inherited.
    add_sizes (union_overflow activity_id) inherited.0 0 >>= λ unique.
    merge_inputs activity_id model.inputs inherited.0 >>= λ staged.
    add_sizes (preparation_overflow activity_id) staged 0 >>= λ prepared.
    finalize_projected_workspace activity_id model staged
      (before_execution prepared inherited.1 unique (length inherited.0))
