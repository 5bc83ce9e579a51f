-- ===== src/Workspace/Manifest.antt =====
-- What a run's manifest says of a workspace: applyArtifactManifest of
-- internal/controlplane/execution/workspace_lifecycle.go.
use akoflow.Prelude.{
  ℕ, String, Bool, true, false, List, [], ◌∷◌, ◌++◌, map, Option, none, some, ◌==◌, string_eq,
  nat_eq, ◌&&◌, if◌then◌else◌, lookup,
}
use akoflow.Workspace.{WorkspaceEntry, WorkspaceManifest, ActivityWorkspace, add_i64}

pub data ArtifactChange : Type 0 where
  created modified deleted : ArtifactChange

pub record ArtifactObservation : Type 0 where
  pub path : String
  pub change : ArtifactChange
  pub size_bytes : ℕ
  pub checksum : String

pub record ArtifactSnapshotEntry : Type 0 where
  pub path : String
  pub size_bytes : ℕ
  pub checksum : String

-- The fields of the manifest that the workspace takes over.
pub record ArtifactManifest : Type 0 where
  pub files : List ArtifactObservation
  pub initial_snapshot : List ArtifactSnapshotEntry
  pub final_snapshot : List ArtifactSnapshotEntry
  pub final_files : ℕ
  pub output_bytes : ℕ

abbrev pub entry_of : ArtifactSnapshotEntry → WorkspaceEntry
entry_of f = record { path = f.path; digest = f.checksum; size_bytes = f.size_bytes }

-- The map from paths that a loop over a snapshot builds: a later entry replaces an earlier one.
unfoldable pub by_path :
    List ArtifactSnapshotEntry → List (String × WorkspaceEntry) → List (String × WorkspaceEntry)
by_path [] m = m
by_path (f ∷ fs) m = by_path fs ((f.path, entry_of f) ∷ m)

-- The file was there before the activity, with this digest and size.
abbrev pub inherited : Option WorkspaceEntry → WorkspaceEntry → Bool
inherited none e = false
inherited (some b) e = b.digest == e.digest && b.size_bytes == e.size_bytes

-- The loop over the final snapshot: final, inputs, outputs, input bytes.
unfoldable pub classify :
    List (String × WorkspaceEntry)
    → List ArtifactSnapshotEntry
    → WorkspaceManifest
    → ℕ
    → WorkspaceManifest × ℕ
classify initial [] m bytes = (m, bytes)
classify initial (f ∷ fs) m bytes =
    let e = entry_of f in
    let is_input = inherited (lookup f.path initial) e in
    classify initial fs
      (record m {
        final = m.final ++ e ∷ [];
        inputs = if is_input then m.inputs ++ e ∷ [] else m.inputs;
        outputs = if is_input then m.outputs else m.outputs ++ e ∷ [];
      })
      (if is_input then add_i64 bytes e.size_bytes else bytes)

abbrev is_some {ℓ} : {A : Type ℓ} → Option A → Bool
is_some none = false
is_some (some a) = true

abbrev pub or_empty : Option WorkspaceEntry → WorkspaceEntry
or_empty none = record { path = ""; digest = ""; size_bytes = 0 }
or_empty (some e) = e

-- The loop that lists what the activity removed, with the entries of the map.
unfoldable pub removals :
    List (String × WorkspaceEntry)
    → List (String × WorkspaceEntry)
    → List ArtifactSnapshotEntry
    → List WorkspaceEntry
removals initial final [] = []
removals initial final (f ∷ fs) =
    let rest = removals initial final fs in
    if is_some (lookup f.path final) then rest else or_empty (lookup f.path initial) ∷ rest

abbrev is_written : ArtifactChange → Bool
is_written created = true
is_written modified = true
is_written deleted = false

-- The outputs of an observation without snapshots.
unfoldable pub written_files : List ArtifactObservation → List WorkspaceEntry
written_files [] = []
written_files (f ∷ fs) =
    let rest = written_files fs in
    if is_written f.change
    then record { path = f.path; digest = f.checksum; size_bytes = f.size_bytes } ∷ rest
    else rest

abbrev pub no_entries : WorkspaceManifest
no_entries = record {
  initial = [];
  final = [];
  inputs = [];
  outputs = [];
  removed = [];
  temporary = [];
}

abbrev is_nil {ℓ} : {A : Type ℓ} → List A → Bool
is_nil [] = true
is_nil (x ∷ xs) = false

-- An observation recorded before complete snapshots were available.
abbrev pub is_legacy : ArtifactManifest → Bool
is_legacy a = is_nil a.initial_snapshot && is_nil a.final_snapshot

-- The manifest and the input bytes after the loop over the final snapshot.
unfoldable pub classified : ArtifactManifest → WorkspaceManifest × ℕ
classified a =
    classify (by_path a.initial_snapshot []) a.final_snapshot
      (record no_entries { initial = map entry_of a.initial_snapshot }) 0

unfoldable pub contents : ArtifactManifest → WorkspaceManifest → WorkspaceManifest
contents a m =
    let whole : WorkspaceManifest = record m {
      removed =
          removals (by_path a.initial_snapshot []) (by_path a.final_snapshot []) a.initial_snapshot;
    } in
    if is_legacy a
    then (record whole { outputs = whole.outputs ++ written_files a.files })
    else whole

unfoldable pub apply_artifact_manifest : ArtifactManifest → ActivityWorkspace → ActivityWorkspace
apply_artifact_manifest a w = record w {
  file_count = a.final_files;
  output_bytes = a.output_bytes;
  input_bytes = (classified a).1;
  manifest = contents a (classified a).0;
}
