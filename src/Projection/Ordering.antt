-- ===== src/Projection/Ordering.antt =====
-- Proofs about the order in which the activities of a workflow are projected.
use akoflow.Prelude.{
  ℕ, zero, suc, String, true, false, not, List, [], ◌∷◌, ok, err, ◌>>=◌, ◌≡◌, sym, arith, ltb,
  lookup, contains, length, string_eq, ◌||◌, if◌then◌else◌, All, inl, inr, Bool-cases,
}
use akoflow.Precedence.{ActivityDependency}
use akoflow.Precedence.Order.{Ordered}
use akoflow.Projection.{dependency_cycle, Manifest, Projected}
use akoflow.Projection.Activities.{project_activity_workspace}
use akoflow.Projection.Versions.{
  Activity, Models, model_of, producers_of, Progressed, all_known, is_known, project_one,
  project_pass, project_all,
}
use akoflow.Projection.Ends.{ok-bind}

abbrev pub keys : List (String × Manifest) → List String
keys [] = []
keys ((id, m) ∷ rest) = id ∷ keys rest

contains-keys :
    (manifests : List (String × Manifest)) (id : String)
    → is_known id manifests ≡ true
    → contains (keys manifests) id ≡ true
contains-keys [] id h = cc
contains-keys ((j, m) ∷ rest) id h = ground (arith, h, contains-keys rest id)

all_known-All :
    (ps : List String) (manifests : List (String × Manifest))
    → all_known ps manifests ≡ true
    → All (λ p. contains (keys manifests) p ≡ true) ps
unfolding all_known
all_known-All [] manifests h = tt
all_known-All (p ∷ ps) manifests h =
    (contains-keys manifests p (ground (arith, h)), all_known-All ps manifests (ground (arith, h)))

module _ (models : Models) (edges : List ActivityDependency) where
  -- Each projected activity is followed by its producers.
  abbrev pub InOrder : Progressed → Type 0
  InOrder s = Ordered (λ id. producers_of id edges) (keys s.manifests)

  project_one-InOrder :
      (id : String) (s t : Progressed)
      → all_known (producers_of id edges) s.manifests ≡ true
      → InOrder s
      → project_one models edges id s ≡ ok t
      → InOrder t
  unfolding project_one
  project_one-InOrder id s t k o h =
      let (r, ran, last) =
        ok-bind
          (project_activity_workspace id (model_of (lookup id models)) (producers_of id edges)
            s.manifests)
          _ t h in
      let same : t.manifests ≡ (id, r.0) ∷ s.manifests = ground (arith, last) in
      rw same (all_known-All (producers_of id edges) s.manifests k, o)

  project_pass-InOrder :
      (as' : List Activity) (s t : Progressed)
      → InOrder s
      → project_pass models edges as' s ≡ ok t
      → InOrder t
  unfolding project_pass
  project_pass-InOrder [] s t o h = (let same : s ≡ t = ground (arith, h) in rw (sym same) o)
  project_pass-InOrder (a ∷ rest) s t o h =
      elim (Bool-cases
        (is_known a.id s.manifests || not (all_known (producers_of a.id edges) s.manifests))) [
          | inl e ↦ project_pass-InOrder rest s t o (ground (arith, e, h))
          | inr e ↦
              let went : (project_one models edges a.id s >>= project_pass models edges rest)
                  ≡ ok t =
                ground (arith, e, h) in
              let (u, first, later) =
                ok-bind (project_one models edges a.id s) (project_pass models edges rest) t went in
              project_pass-InOrder rest u t
                (project_one-InOrder a.id s u (ground (arith, e)) o first) later
        ]

  -- However many passes it takes: where the loop ends without an error, each activity was projected
  -- after all of its producers, provided that this holds of those that were projected before.
  pub project_all-InOrder :
      (n : ℕ) (as' : List Activity) (s t : Progressed)
      → InOrder s
      → project_all models edges n as' s ≡ ok t
      → InOrder t
  unfolding project_all
  project_all-InOrder zero as' s t o h = (let same : s ≡ t = ground (arith, h) in rw (sym same) o)
  project_all-InOrder (suc n) as' s t o h =
      elim (Bool-cases (ltb (length s.manifests) (length models))) [
        | inr e ↦ (let same : s ≡ t = ground (arith, e, h) in rw (sym same) o)
        | inl e ↦
            let s' : Progressed = record s { progress = false } in
            let next : Progressed → Projected Progressed =
              λ u. if u.progress then project_all models edges n as' u else err dependency_cycle in
            let went : (project_pass models edges as' s' >>= next) ≡ ok t = ground (arith, e, h) in
            let (u, first, later) = ok-bind (project_pass models edges as' s') next t went in
            project_all-InOrder n as' u t (project_pass-InOrder as' s' u o first)
              (ground (arith, later))
      ]
