-- ===== src/Projection/Inherited.antt =====
-- Proofs about the files that a projected workspace holds before the execution.
use akoflow.Prelude.{
  ℕ, String, Bool, true, false, List, [], ◌∷◌, Option, none, some, ok, ◌>>=◌, ◌≡◌, ap, ◌∙◌, sym,
  inl, inr, arith, eq-cases, beq_refl, put, lookup, lookup-put, nat_eq, nat_beq_iff, str_iff, ◌==◌,
  string_eq, ◌&&◌, All,
}
use akoflow.Projection.{ProjectedFile, Manifest, Projected, add_int64}
use akoflow.Projection.Files.{differs, merge_projected_file}
use akoflow.Projection.Activities.{manifest_of, merge_parent, merge_parents, merge_inputs}
use akoflow.Projection.Ends.{ok-bind}

abbrev same_file : ProjectedFile → Option ProjectedFile → Bool
same_file f none = false
same_file f (some g) = g.content_id == f.content_id && g.size_bytes == f.size_bytes

-- The manifest has the content of the file under its path.
unfoldable pub has : Manifest → ProjectedFile → Bool
has m f = same_file f (lookup f.path m)

put-has : (f : ProjectedFile) (m : Manifest) → has (put f.path f m) f ≡ true
unfolding has
put-has f m = ground (
  arith,
  lookup-put f.path f.path f m,
  beq_refl f.path,
  beq_refl f.content_id,
  beq_refl f.size_bytes,
)

-- A file under another path, or with the same content.
put-keeps :
    (f g : ProjectedFile) (m : Manifest)
    → ((g.path ≡ f.path) → same_file g (some f) ≡ true)
    → has m g ≡ true
    → has (put f.path f m) g ≡ true
unfolding has
put-keeps f g m h k = elim (eq-cases g.path f.path) [
  | inl e ↦ ground (arith, h e, lookup-put f.path g.path f m, str_iff g.path f.path, e)
  | inr e ↦ ground (arith, e, k, lookup-put f.path g.path f m)
]

same_through :
    (f g : ProjectedFile) (o : Option ProjectedFile)
    → same_file g o ≡ true
    → differs f o ≡ false
    → same_file g (some f) ≡ true
same_through f g none h k = cc
same_through f g (some x) h k = ground (
  arith,
  str_iff x.content_id g.content_id,
  str_iff x.content_id f.content_id,
  str_iff f.content_id g.content_id,
  nat_beq_iff x.size_bytes g.size_bytes,
  nat_beq_iff x.size_bytes f.size_bytes,
  nat_beq_iff f.size_bytes g.size_bytes,
)

merge-keeps :
    (id : String) (f : ProjectedFile) (m m' : Manifest)
    → merge_projected_file false id f m ≡ ok m'
    → (has m' f ≡ true) × ((g : ProjectedFile) → has m g ≡ true → has m' g ≡ true)
unfolding merge_projected_file has
merge-keeps id f m m' h =
    let same : m' ≡ put f.path f m = ground (arith, h) in
    let agrees : differs f (lookup f.path m) ≡ false = ground (arith, h) in
    (
      rw same (put-has f m),
      λ g k. rw same (
          put-keeps f g m
            (λ e.
              let there : same_file g (lookup f.path m) ≡ true =
                ap (λ p. same_file g (lookup p m)) (sym e) ∙ k in
              same_through f g (lookup f.path m) there agrees)
            k),
    )

pub merge-replaces :
    (id : String) (f : ProjectedFile) (m m' : Manifest)
    → merge_projected_file true id f m ≡ ok m'
    → (has m' f ≡ true)
      × ((g : ProjectedFile) → (g.path == f.path) ≡ false → has m g ≡ true → has m' g ≡ true)
unfolding merge_projected_file
merge-replaces id f m m' h =
    let same : m' ≡ put f.path f m = ground (arith, h) in
    (
      rw same (put-has f m),
      λ g n k. rw same (put-keeps f g m (λ e. ground (arith, n, str_iff g.path f.path)) k),
    )

-- Of the files of one manifest, those that the other has as well.
abbrev pub Keeps : Manifest → Manifest → Type 0
Keeps m m' = (g : ProjectedFile) → has m g ≡ true → has m' g ≡ true

abbrev pub HasAll : Manifest → List ProjectedFile → Type 0
HasAll m fs = All (λ f. has m f ≡ true) fs

abbrev pub files_of : Manifest → List ProjectedFile
files_of [] = []
files_of ((p, f) ∷ rest) = f ∷ files_of rest

HasAll-later : (m m' : Manifest) (fs : List ProjectedFile) → Keeps m m' → HasAll m fs → HasAll m' fs
HasAll-later m m' [] k h = tt
HasAll-later m m' (f ∷ fs) k h = (k f h.0, HasAll-later m m' fs k h.1)

pub merge_inputs-HasAll :
    (id : String) (fs : List ProjectedFile) (m m' : Manifest)
    → merge_inputs id fs m ≡ ok m'
    → HasAll m' fs × Keeps m m'
unfolding merge_inputs
merge_inputs-HasAll id [] m m' h =
    (tt, λ g k. (let same : m ≡ m' = ground (arith, h) in rw (sym same) k))
merge_inputs-HasAll id (f ∷ fs) m m' h =
    let (m1, first, rest) = ok-bind (merge_projected_file false id f m) (merge_inputs id fs) m' h in
    let (x, y) = merge-keeps id f m m1 first in
    let (u, v) = merge_inputs-HasAll id fs m1 m' rest in ((v f x, u), λ g k. v g (y g k))

merge_parent-HasAll :
    (id : String) (files m : Manifest) (total : ℕ) (r : Manifest × ℕ)
    → merge_parent id files (m, total) ≡ ok r
    → HasAll r.0 (files_of files) × Keeps m r.0
unfolding merge_parent
merge_parent-HasAll id [] m total r h =
    (tt, λ g k. (let same : (m, total) ≡ r = ground (arith, h) in rw (sym same) k))
merge_parent-HasAll id ((p, f) ∷ rest) m total r h =
    let next : Manifest → Projected (Manifest × ℕ) =
      λ m'. merge_parent id rest (m', add_int64 total f.size_bytes) in
    let went : (merge_projected_file false id f m >>= next) ≡ ok r = ground (arith, h) in
    let (m1, first, later) = ok-bind (merge_projected_file false id f m) next r went in
    let (x, y) = merge-keeps id f m m1 first in
    let (u, v) = merge_parent-HasAll id rest m1 (add_int64 total f.size_bytes) r later in
    ((v f x, u), λ g k. v g (y g k))

pub merge_parents-HasAll :
    (id : String) (manifests : List (String × Manifest)) (ps : List String) (s r : Manifest × ℕ)
    → merge_parents id manifests ps s ≡ ok r
    → All (λ p. HasAll r.0 (files_of (manifest_of (lookup p manifests)))) ps × Keeps s.0 r.0
unfolding merge_parents
merge_parents-HasAll id manifests [] s r h =
    (tt, λ g k. (let same : s ≡ r = ground (arith, h) in rw (sym same) k))
merge_parents-HasAll id manifests (p ∷ ps) s r h =
    let files = manifest_of (lookup p manifests) in
    let (s1, first, later) =
      ok-bind (merge_parent id files s) (merge_parents id manifests ps) r h in
    let (x, y) = merge_parent-HasAll id files s.0 s.1 s1 first in
    let (u, v) = merge_parents-HasAll id manifests ps s1 r later in
    ((HasAll-later s1.0 r.0 (files_of files) v x, u), λ g k. v g (y g k))
