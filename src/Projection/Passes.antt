-- ===== src/Projection/Passes.antt =====
-- Proofs about the number of passes of the projection.
use akoflow.Prelude.{
  ℕ, zero, suc, ◌+◌, ◌≤◌, ◌<◌, String, true, false, not, List, [], ◌∷◌, Option, none, some, ok, err,
  ◌>>=◌, ◌≡◌, ◌≢◌, refl, ap, arith, lookup, length, string_eq, ◌||◌, if◌then◌else◌,
}
use akoflow.Precedence.{ActivityDependency}
use akoflow.Projection.{
  WorkspaceProjection, ProjectionError, dependency_cycle, no_projection, bad_projection,
  out_of_fuel, workspace_overflow, Manifest, Projected, add_sizes,
}
use akoflow.Projection.Activities.{manifest_of, project_activity_workspace}
use akoflow.Projection.Versions.{
  Activity, Version, Models, model_of, select_inputs, check_model, add_model, load_model,
  load_models, check_edges, producers_of, Progressed, all_known, is_known, project_one,
  project_pass, project_all, data_dependencies, is_enabled, nothing_yet, finish, ProjectedVersion,
  project_workspace_dependencies,
}
use akoflow.Projection.Ends.{
  ok-bind, is_fuel, is_fuel_error, is_fuel-bind, add_sizes-is_fuel, project_activity-is_fuel,
}

module _ (models : Models) (edges : List ActivityDependency) where
  project_one-is_fuel :
      (id : String) (s : Progressed) → is_fuel (project_one models edges id s) ≡ false
  unfolding project_one
  project_one-is_fuel id s =
      is_fuel-bind
        (project_activity_workspace id (model_of (lookup id models)) (producers_of id edges)
          s.manifests)
        _
        (project_activity-is_fuel id (model_of (lookup id models)) (producers_of id edges)
          s.manifests)
        (λ r. refl)

  project_pass-is_fuel :
      (as' : List Activity) (s : Progressed) → is_fuel (project_pass models edges as' s) ≡ false
  unfolding project_pass
  project_pass-is_fuel [] s = refl
  project_pass-is_fuel (a ∷ rest) s =
      let next =
        is_fuel-bind (project_one models edges a.id s) (project_pass models edges rest)
          (project_one-is_fuel a.id s) (project_pass-is_fuel rest) in
      ground (arith, next, project_pass-is_fuel rest s)

  -- A pass projects an activity, or it does not claim that it made progress.
  abbrev Advanced : Progressed → Projected Progressed → Type 0
  Advanced s (err e) = Unit
  Advanced s (ok t) =
      (length s.manifests ≤ length t.manifests)
      × (t.progress ≡ true → s.progress ≡ false → length s.manifests < length t.manifests)

  Advanced-later :
      (s u : Progressed) (m : Projected Progressed)
      → length s.manifests < length u.manifests
      → Advanced u m
      → Advanced s m
  Advanced-later s u (err e) l h = tt
  Advanced-later s u (ok t) l h = (ground (arith, l, h.0), λ p q. ground (arith, l, h.0))

  project_pass-Advanced :
      (as' : List Activity) (s : Progressed) → Advanced s (project_pass models edges as' s)
  unfolding project_pass project_one
  project_pass-Advanced [] s = (omega arith, λ p q. cc)
  project_pass-Advanced (a ∷ rest) s =
      let later = project_pass models edges rest s in
      let m =
        project_activity_workspace a.id (model_of (lookup a.id models)) (producers_of a.id edges)
          s.manifests in
      let next = project_one models edges a.id s >>= project_pass models edges rest in
      let next-Advanced : Advanced s next =
        elim m
          as (λ m'. Advanced s (
            (m' >>= λ r. ok (record {
              manifests = (a.id, r.0) ∷ s.manifests;
              volumes = (a.id, r.1) ∷ s.volumes;
              progress = true;
            }))
            >>= project_pass models edges rest)) [
              | ok r ↦
                  let u : Progressed = record {
                    manifests = (a.id, r.0) ∷ s.manifests;
                    volumes = (a.id, r.1) ∷ s.volumes;
                    progress = true;
                  } in
                  Advanced-later s u (project_pass models edges rest u) (omega arith)
                    (project_pass-Advanced rest u)
              | err e ↦ tt
            ] in
      elim (is_known a.id s.manifests || not (all_known (producers_of a.id edges) s.manifests))
        as (λ b. Advanced s (if b then later else next)) [
          | true ↦ project_pass-Advanced rest s
          | false ↦ next-Advanced
        ]

  project_all-is_fuel :
      (n : ℕ) (as' : List Activity) (s : Progressed)
      → length models < n + length s.manifests
      → is_fuel (project_all models edges n as' s) ≡ false
  unfolding project_all
  project_all-is_fuel zero as' s h = ground (arith, h)
  project_all-is_fuel (suc n) as' s h =
      let s' : Progressed = record s { progress = false } in
      let next : Progressed → Projected Progressed =
        λ t. if t.progress then project_all models edges n as' t else err dependency_cycle in
      let passed : is_fuel (project_pass models edges as' s' >>= next) ≡ false =
        elim (project_pass models edges as' s')
            as (λ m. Advanced s' m → is_fuel m ≡ false → is_fuel (m >>= next) ≡ false) [
              | err e ↦ λ a f. f
              | ok t ↦ λ a f. ground (arith, h, a.0, a.1, project_all-is_fuel n as' t)
            ]
          (project_pass-Advanced as' s') (project_pass-is_fuel as' s') in
      ground (arith, passed)

add_model-length :
    (id : String) (models : Models) (model : WorkspaceProjection) (r : Models)
    → add_model id models model ≡ ok r
    → length r ≡ suc (length models)
add_model-length id models model r h = ground (arith, h)

load_model-length :
    (types : Option (List (String × String))) (a : Activity) (models r : Models)
    → load_model types a models ≡ ok r
    → length r ≡ suc (length models)
unfolding load_model
load_model-length types a models r =
    elim a.projection
      as (λ p.
        (let m : Projected Models = elim p [
          | none ↦ err (no_projection a.id)
          | some (err e) ↦ err (bad_projection a.id)
          | some (ok model) ↦
              check_model a.id model >>= select_inputs types a.id >>= add_model a.id models
        ] in
          m ≡ ok r → length r ≡ suc (length models))) [
            | none ↦ λ h. cc
            | some (err e) ↦ λ h. cc
            | some (ok model) ↦ λ h.
                let (x, y, z) =
                  ok-bind (check_model a.id model >>= select_inputs types a.id)
                    (add_model a.id models) r h in
                add_model-length a.id models x r z
          ]

load_models-length :
    (types : Option (List (String × String))) (as' : List Activity) (models r : Models)
    → load_models types as' models ≡ ok r
    → length r ≡ length as' + length models
unfolding load_models
load_models-length types [] models r h = ground (arith, h)
load_models-length types (a ∷ rest) models r h =
    let (x, y, z) = ok-bind (load_model types a models) (load_models types rest) r h in
    ground (arith, load_model-length types a models x y, load_models-length types rest x r z)

load_models-is_fuel :
    (types : Option (List (String × String))) (as' : List Activity) (models : Models)
    → is_fuel (load_models types as' models) ≡ false
unfolding load_models load_model check_model select_inputs
load_models-is_fuel types [] models = refl
load_models-is_fuel types (a ∷ rest) models =
    is_fuel-bind (load_model types a models) (load_models types rest) (ground arith)
      (load_models-is_fuel types rest)

check_edges-is_fuel :
    (models : Models) (edges : List ActivityDependency) (e : ProjectionError)
    → check_edges models edges ≡ some e
    → is_fuel_error e ≡ false
unfolding check_edges
check_edges-is_fuel models [] e h = cc
check_edges-is_fuel models (d ∷ rest) e h = ground (arith, h, check_edges-is_fuel models rest e)

data_dependencies-is_fuel :
    (manifests : List (String × Manifest)) (edges : List ActivityDependency)
    → is_fuel (data_dependencies manifests edges) ≡ false
unfolding data_dependencies
data_dependencies-is_fuel manifests [] = refl
data_dependencies-is_fuel manifests (d ∷ rest) =
    let files = manifest_of (lookup d.depends_on_activity_id manifests) in
    is_fuel-bind (add_sizes (workspace_overflow d.depends_on_activity_id) files 0) _
      (add_sizes-is_fuel (workspace_overflow d.depends_on_activity_id) files 0 refl)
      (λ bytes.
        is_fuel-bind (data_dependencies manifests rest) _ (data_dependencies-is_fuel manifests rest)
          (λ ds. refl))

project_edges-is_fuel :
    (models : Models) (w : Version)
    → length models ≡ length w.activities
    → (let r : Projected (Option ProjectedVersion) = elim (check_edges models w.dependencies) [
      | some e ↦ err e
      | none ↦
          project_all models w.dependencies (suc (length w.activities)) w.activities nothing_yet
          >>= λ s. data_dependencies s.manifests w.dependencies >>= finish s.volumes
    ] in
        is_fuel r ≡ false)
project_edges-is_fuel models w same =
    elim (check_edges models w.dependencies)
        as (λ o.
          check_edges models w.dependencies ≡ o
          → (let r : Projected (Option ProjectedVersion) = elim o [
            | some e ↦ err e
            | none ↦
                project_all models w.dependencies (suc (length w.activities)) w.activities
                  nothing_yet
                >>= λ s. data_dependencies s.manifests w.dependencies >>= finish s.volumes
          ] in
              is_fuel r ≡ false)) [
                | some e ↦ λ k. check_edges-is_fuel models w.dependencies e k
                | none ↦ λ k.
                    is_fuel-bind
                      (project_all models w.dependencies (suc (length w.activities)) w.activities
                        nothing_yet)
                      _
                      (project_all-is_fuel models w.dependencies (suc (length w.activities))
                        w.activities nothing_yet (ground (arith, same)))
                      (λ s.
                        is_fuel-bind (data_dependencies s.manifests w.dependencies)
                          (finish s.volumes) (data_dependencies-is_fuel s.manifests w.dependencies)
                          (λ ds. refl))
              ]
      refl

projected-is_fuel :
    (types : Option (List (String × String))) (w : Version)
    → is_fuel (project_workspace_dependencies types w) ≡ false
unfolding project_workspace_dependencies
projected-is_fuel types w =
    let next : Models → Projected (Option ProjectedVersion) = λ models.
      elim (check_edges models w.dependencies) [
        | some e ↦ err e
        | none ↦
            project_all models w.dependencies (suc (length w.activities)) w.activities nothing_yet
            >>= λ s. data_dependencies s.manifests w.dependencies >>= finish s.volumes
      ] in
    let projected : is_fuel (load_models types w.activities [] >>= next) ≡ false =
      elim (load_models types w.activities [])
          as (λ m.
            load_models types w.activities [] ≡ m
            → is_fuel m ≡ false
            → is_fuel (m >>= next) ≡ false) [
              | err e ↦ λ k f. f
              | ok models ↦ λ k f.
                  project_edges-is_fuel models w
                    (ground (arith, load_models-length types w.activities [] models k))
            ]
        refl (load_models-is_fuel types w.activities []) in
    elim (is_enabled w.activities)
      as (λ b.
        is_fuel (if b then load_models types w.activities [] >>= next else ok none) ≡ false) [
          | true ↦ projected
          | false ↦ refl
        ]

-- The projection of a workflow never ends for want of fuel: a pass for each activity is enough.
pub project_workspace_dependencies-fuel :
    (types : Option (List (String × String))) (w : Version)
    → project_workspace_dependencies types w ≢ err out_of_fuel
project_workspace_dependencies-fuel types w h = cc (projected-is_fuel types w, ap is_fuel h)
