-- ===== src/Projection/Produced.antt =====
-- Proofs about the files that a projected workspace holds after the execution.
use mathlib.Core.Path.{subst}
use akoflow.Prelude.{
  ℕ, String, true, false, List, [], ◌∷◌, ok, ◌>>=◌, ◌≡◌, refl, sym, arith, beq_refl, drop_key,
  lookup, lookup-drop_key, contains, length, nat_eq, str_iff, string_eq, All,
}
use akoflow.Projection.{
  ProjectedFile, WorkspaceProjection, WorkspaceProjectionVolumes, Manifest, Projected,
  union_overflow, preparation_overflow, output_overflow, add_int64, add_sizes,
}
use akoflow.Projection.Files.{merge_projected_file}
use akoflow.Projection.Activities.{
  manifest_of, merge_parents, merge_inputs, remove_paths, merge_outputs,
  finalize_projected_workspace, project_activity_workspace, before_execution,
}
use akoflow.Projection.Ends.{ok-bind}
use akoflow.Projection.Inherited.{
  has, Keeps, HasAll, files_of, merge-replaces, merge_inputs-HasAll, merge_parents-HasAll,
}

abbrev pub paths_of : List ProjectedFile → List String
paths_of [] = []
paths_of (f ∷ fs) = f.path ∷ paths_of fs

remove_paths-has :
    (id : String) (ps : List String) (m m' : Manifest) (g : ProjectedFile)
    → remove_paths id ps m ≡ ok m'
    → contains ps g.path ≡ false
    → has m g ≡ true
    → has m' g ≡ true
unfolding remove_paths has
remove_paths-has id [] m m' g h n k = (let same : m ≡ m' = ground (arith, h) in rw (sym same) k)
remove_paths-has id (p ∷ ps) m m' g h n k =
    remove_paths-has id ps (drop_key p m) m' g (ground (arith, h)) (ground (arith, n))
      (ground (arith, n, k, lookup-drop_key p g.path m))

module _ (id : String) where
  merge_outputs-seen :
      (fs : List ProjectedFile) (seen : List String) (m : Manifest) (total : ℕ) (r : Manifest × ℕ)
      → merge_outputs id fs seen (m, total) ≡ ok r
      → (j : String) → contains seen j ≡ true
      → contains (paths_of fs) j ≡ false
  unfolding merge_outputs
  merge_outputs-seen [] seen m total r h j k = refl
  merge_outputs-seen (f ∷ fs) seen m total r h j k =
      let next : Manifest → Projected (Manifest × ℕ) =
        λ m'. merge_outputs id fs (f.path ∷ seen) (m', add_int64 total f.size_bytes) in
      let went : (merge_projected_file true id f m >>= next) ≡ ok r = ground (arith, h) in
      let fresh : contains seen f.path ≡ false = ground (arith, h) in
      let (m1, first, later) = ok-bind (merge_projected_file true id f m) next r went in
      let rest =
        merge_outputs-seen fs (f.path ∷ seen) m1 (add_int64 total f.size_bytes) r later j in
      ground (arith, rest, k, fresh, str_iff j f.path)

  merge_outputs-has :
      (fs : List ProjectedFile) (seen : List String) (m : Manifest) (total : ℕ) (r : Manifest × ℕ)
      → merge_outputs id fs seen (m, total) ≡ ok r
      → HasAll r.0 fs
        × ((g : ProjectedFile)
            → contains (paths_of fs) g.path ≡ false
            → has m g ≡ true
            → has r.0 g ≡ true)
  unfolding merge_outputs
  merge_outputs-has [] seen m total r h =
      (tt, λ g n k. (let same : (m, total) ≡ r = ground (arith, h) in rw (sym same) k))
  merge_outputs-has (f ∷ fs) seen m total r h =
      let next : Manifest → Projected (Manifest × ℕ) =
        λ m'. merge_outputs id fs (f.path ∷ seen) (m', add_int64 total f.size_bytes) in
      let went : (merge_projected_file true id f m >>= next) ≡ ok r = ground (arith, h) in
      let (m1, first, later) = ok-bind (merge_projected_file true id f m) next r went in
      let (x, y) = merge-replaces id f m m1 first in
      let (u, v) = merge_outputs-has fs (f.path ∷ seen) m1 (add_int64 total f.size_bytes) r later in
      let others =
        merge_outputs-seen fs (f.path ∷ seen) m1 (add_int64 total f.size_bytes) r later f.path
          (ground (arith, beq_refl f.path)) in
      ((v f others x, u), λ g n k. v g (ground (arith, n)) (y g (ground (arith, n)) k))

  -- The files that are neither removed nor replaced.
  abbrev pub Inherits : WorkspaceProjection → Manifest → List ProjectedFile → Type 0
  Inherits model m fs =
      All
        (λ f.
          contains model.removed_paths f.path ≡ false
          → contains (paths_of model.outputs) f.path ≡ false
          → has m f ≡ true)
        fs

  finalize-has :
      (model : WorkspaceProjection) (m : Manifest) (v : WorkspaceProjectionVolumes)
      (r : Manifest × WorkspaceProjectionVolumes)
      → finalize_projected_workspace id model m v ≡ ok r
      → HasAll r.0 model.outputs
        × ((g : ProjectedFile)
            → contains model.removed_paths g.path ≡ false
            → contains (paths_of model.outputs) g.path ≡ false
            → has m g ≡ true
            → has r.0 g ≡ true)
  unfolding finalize_projected_workspace
  finalize-has model m v r h =
      let (m1, removed, h1) = ok-bind (remove_paths id model.removed_paths m) _ r h in
      let (s, merged, h2) =
        ok-bind (merge_outputs id model.outputs [] (m1, v.created_output_bytes)) _ r h1 in
      let (total, summed, h3) =
        ok-bind (add_sizes (output_overflow id) s.0 v.output_bytes) _ r h2 in
      let same : s.0 ≡ r.0 = ground (arith, h3) in
      let (x, y) = merge_outputs-has model.outputs [] m1 v.created_output_bytes s merged in
      (
        subst (λ m'. HasAll m' model.outputs) same x,
        λ g a b k.
            subst (λ m'. has m' g ≡ true) same
              (y g b (remove_paths-has id model.removed_paths m m1 g removed a k)),
      )

  Inherits-of :
      (model : WorkspaceProjection) (m m' r : Manifest) (fs : List ProjectedFile)
      → HasAll m fs
      → Keeps m m'
      → ((g : ProjectedFile)
          → contains model.removed_paths g.path ≡ false
          → contains (paths_of model.outputs) g.path ≡ false
          → has m' g ≡ true
          → has r g ≡ true)
      → Inherits model r fs
  Inherits-of model m m' r [] h k l = tt
  Inherits-of model m m' r (f ∷ fs) h k l =
      ((λ a b. l f a b (k f h.0)), Inherits-of model m m' r fs h.1 k l)

  All-inherit :
      (model : WorkspaceProjection) (manifests : List (String × Manifest)) (m m' r : Manifest)
      (ps : List String)
      → All (λ p. HasAll m (files_of (manifest_of (lookup p manifests)))) ps
      → Keeps m m'
      → ((g : ProjectedFile)
          → contains model.removed_paths g.path ≡ false
          → contains (paths_of model.outputs) g.path ≡ false
          → has m' g ≡ true
          → has r g ≡ true)
      → All (λ p. Inherits model r (files_of (manifest_of (lookup p manifests)))) ps
  All-inherit model manifests m m' r [] h k l = tt
  All-inherit model manifests m m' r (p ∷ ps) h k l = (
    Inherits-of model m m' r (files_of (manifest_of (lookup p manifests))) h.0 k l,
    All-inherit model manifests m m' r ps h.1 k l,
  )

  -- If the workspace of an activity is projected, it has the content of each of its outputs under its
  -- path, and of each file of the workspace of each producer whose path is neither removed nor that
  -- of an output.
  pub project_activity_workspace-has :
      (model : WorkspaceProjection) (parents : List String) (manifests : List (String × Manifest))
      (r : Manifest × WorkspaceProjectionVolumes)
      → project_activity_workspace id model parents manifests ≡ ok r
      → HasAll r.0 model.outputs
        × All (λ p. Inherits model r.0 (files_of (manifest_of (lookup p manifests)))) parents
  unfolding project_activity_workspace
  project_activity_workspace-has model parents manifests r h =
      let (inherited, merged, h1) = ok-bind (merge_parents id manifests parents ([], 0)) _ r h in
      let (unique, summed, h2) = ok-bind (add_sizes (union_overflow id) inherited.0 0) _ r h1 in
      let (staged, took, h3) = ok-bind (merge_inputs id model.inputs inherited.0) _ r h2 in
      let (prepared, added, h4) = ok-bind (add_sizes (preparation_overflow id) staged 0) _ r h3 in
      let (outputs, others) =
        finalize-has model staged
          (before_execution prepared inherited.1 unique (length inherited.0)) r h4 in
      (
        outputs,
        All-inherit model manifests inherited.0 staged r.0 parents
            (merge_parents-HasAll id manifests parents ([], 0) inherited merged).0
            (merge_inputs-HasAll id model.inputs inherited.0 staged took).1 others,
      )
