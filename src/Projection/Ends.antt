-- ===== src/Projection/Ends.antt =====
-- Proofs about the errors of the projection of one activity.
use akoflow.Prelude.{
  ℕ, String, Bool, true, false, List, [], ◌∷◌, ok, err, Result, ◌>>=◌, ◌≡◌, refl, arith, drop_key,
  lookup, length, string_eq,
}
use akoflow.Projection.{
  ProjectedFile, WorkspaceProjection, WorkspaceProjectionVolumes, ProjectionError, out_of_fuel,
  output_overflow, union_overflow, preparation_overflow, Manifest, add_int64, add_sizes,
}
use akoflow.Projection.Files.{merge_projected_file}
use akoflow.Projection.Activities.{
  before_execution, manifest_of, merge_parent, merge_parents, merge_inputs, remove_paths,
  merge_outputs, finalize_projected_workspace, project_activity_workspace,
}

abbrev pub is_fuel_error : ProjectionError → Bool
is_fuel_error out_of_fuel = true
is_fuel_error _ = false

abbrev pub is_fuel {ℓ} : {A : Type ℓ} → Result ProjectionError A → Bool
is_fuel (ok a) = false
is_fuel (err e) = is_fuel_error e

pub is_fuel-bind {ℓ κ} :
    {A : Type ℓ} {B : Type κ} (m : Result ProjectionError A) (f : A → Result ProjectionError B)
    → is_fuel m ≡ false
    → ((a : A) → is_fuel (f a) ≡ false)
    → is_fuel (m >>= f) ≡ false
is_fuel-bind (ok a) f h g = g a
is_fuel-bind (err e) f h g = h

pub ok-bind {ℓ κ} :
    {A : Type ℓ} {B : Type κ} (m : Result ProjectionError A) (f : A → Result ProjectionError B)
    (b : B)
    → (m >>= f) ≡ ok b
    → (a : A) × (m ≡ ok a) × (f a ≡ ok b)
ok-bind (ok a) f b h = (a, refl, h)
ok-bind (err e) f b h = cc

merge_projected_file-is_fuel :
    (replace : Bool) (id : String) (f : ProjectedFile) (m : Manifest)
    → is_fuel (merge_projected_file replace id f m) ≡ false
unfolding merge_projected_file
merge_projected_file-is_fuel replace id f m = ground arith

pub add_sizes-is_fuel :
    (e : ProjectionError) (m : Manifest) (total : ℕ)
    → is_fuel_error e ≡ false
    → is_fuel (add_sizes e m total) ≡ false
unfolding add_sizes
add_sizes-is_fuel e [] total h = refl
add_sizes-is_fuel e ((p, f) ∷ rest) total h =
    ground (arith, h, add_sizes-is_fuel e rest (add_int64 total f.size_bytes) h)

merge_parent-is_fuel :
    (id : String) (files m : Manifest) (total : ℕ)
    → is_fuel (merge_parent id files (m, total)) ≡ false
unfolding merge_parent
merge_parent-is_fuel id [] m total = refl
merge_parent-is_fuel id ((p, f) ∷ rest) m total =
    let later =
      is_fuel-bind (merge_projected_file false id f m)
        (λ m'. merge_parent id rest (m', add_int64 total f.size_bytes))
        (merge_projected_file-is_fuel false id f m) (λ m'. merge_parent-is_fuel id rest m' _) in
    ground (arith, later)

merge_parents-is_fuel :
    (id : String) (manifests : List (String × Manifest)) (ps : List String) (s : Manifest × ℕ)
    → is_fuel (merge_parents id manifests ps s) ≡ false
unfolding merge_parents
merge_parents-is_fuel id manifests [] s = refl
merge_parents-is_fuel id manifests (p ∷ ps) s =
    is_fuel-bind (merge_parent id (manifest_of (lookup p manifests)) s)
      (merge_parents id manifests ps)
      (merge_parent-is_fuel id (manifest_of (lookup p manifests)) s.0 s.1)
      (merge_parents-is_fuel id manifests ps)

merge_inputs-is_fuel :
    (id : String) (fs : List ProjectedFile) (m : Manifest) → is_fuel (merge_inputs id fs m) ≡ false
unfolding merge_inputs
merge_inputs-is_fuel id [] m = refl
merge_inputs-is_fuel id (f ∷ fs) m =
    is_fuel-bind (merge_projected_file false id f m) (merge_inputs id fs)
      (merge_projected_file-is_fuel false id f m) (merge_inputs-is_fuel id fs)

remove_paths-is_fuel :
    (id : String) (ps : List String) (m : Manifest) → is_fuel (remove_paths id ps m) ≡ false
unfolding remove_paths
remove_paths-is_fuel id [] m = refl
remove_paths-is_fuel id (p ∷ ps) m = ground (arith, remove_paths-is_fuel id ps (drop_key p m))

merge_outputs-is_fuel :
    (id : String) (fs : List ProjectedFile) (seen : List String) (m : Manifest) (total : ℕ)
    → is_fuel (merge_outputs id fs seen (m, total)) ≡ false
unfolding merge_outputs
merge_outputs-is_fuel id [] seen m total = refl
merge_outputs-is_fuel id (f ∷ fs) seen m total =
    let later =
      is_fuel-bind (merge_projected_file true id f m)
        (λ m'. merge_outputs id fs (f.path ∷ seen) (m', add_int64 total f.size_bytes))
        (merge_projected_file-is_fuel true id f m)
        (λ m'. merge_outputs-is_fuel id fs (f.path ∷ seen) m' _) in
    ground (arith, later)

finalize-is_fuel :
    (id : String) (model : WorkspaceProjection) (m : Manifest) (v : WorkspaceProjectionVolumes)
    → is_fuel (finalize_projected_workspace id model m v) ≡ false
unfolding finalize_projected_workspace
finalize-is_fuel id model m v =
    is_fuel-bind (remove_paths id model.removed_paths m) _
      (remove_paths-is_fuel id model.removed_paths m)
      (λ m1.
        is_fuel-bind (merge_outputs id model.outputs [] (m1, v.created_output_bytes)) _
          (merge_outputs-is_fuel id model.outputs [] m1 v.created_output_bytes)
          (λ s.
            is_fuel-bind (add_sizes (output_overflow id) s.0 v.output_bytes) _
              (add_sizes-is_fuel (output_overflow id) s.0 v.output_bytes refl) (λ total. refl)))

pub project_activity-is_fuel :
    (id : String) (model : WorkspaceProjection) (parents : List String)
    (manifests : List (String × Manifest))
    → is_fuel (project_activity_workspace id model parents manifests) ≡ false
unfolding project_activity_workspace
project_activity-is_fuel id model parents manifests =
    is_fuel-bind (merge_parents id manifests parents ([], 0)) _
      (merge_parents-is_fuel id manifests parents ([], 0))
      (λ inherited.
        is_fuel-bind (add_sizes (union_overflow id) inherited.0 0) _
          (add_sizes-is_fuel (union_overflow id) inherited.0 0 refl)
          (λ unique.
            is_fuel-bind (merge_inputs id model.inputs inherited.0) _
              (merge_inputs-is_fuel id model.inputs inherited.0)
              (λ staged.
                is_fuel-bind (add_sizes (preparation_overflow id) staged 0) _
                  (add_sizes-is_fuel (preparation_overflow id) staged 0 refl)
                  (λ prepared.
                    finalize-is_fuel id model staged
                      (before_execution prepared inherited.1 unique (length inherited.0))))))
