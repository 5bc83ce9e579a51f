-- ===== src/Supervision/Accepted.antt =====
-- Proofs about a request that passes the check.
use akoflow.Prelude.{
  ◌≢◌, ◌⊎◌, inl, inr, eq-cases, ap, sym, ◌∙◌, String, Bool, true, false, List, [], ◌∷◌, Option,
  none, some, ◌≡◌, refl, arith, add, put, lookup, nat_eq, ◌==◌, string_eq, str_iff, ◌&&◌, ◌||◌,
  if◌then◌else◌, All, Float,
}
use akoflow.Precedence.{validate_planned_precedence}
use akoflow.Supervision.{
  ExecutionMode, simulation, real, interactive, simulation_runtime, execution_runtime, Assignment,
  ExecutionRequest, EnvironmentRuntime, RuntimeMode, ResourceRuntimeBinding, Progress,
  cannot_progress, placements, index_resources,
}
use akoflow.Supervision.Runtimes.{
  select_runtime, first_binding, index_runtimes, runtime_mode, same_mode, is_selected,
}
use akoflow.Supervision.Admission.{resource_named}
use akoflow.Supervision.Loop.{Arrivals, execute_activities, fails}
use akoflow.Supervision.Consistent.{Consistent}
use akoflow.Supervision.Unstuck.{execute_activities-progress}
use akoflow.Supervision.Requests.{
  RequestError, bad_precedence, cores_of, is_counted, check_assignments, validate_request,
}

-- Whether an enabled binding joins the resource to the runtime.
unfoldable pub is_bound : String → String → List ResourceRuntimeBinding → Bool
is_bound resource_id runtime_id [] = false
is_bound resource_id runtime_id (b ∷ rest) =
    (b.resource_id == resource_id && (b.enabled && b.runtime_id == runtime_id))
    || is_bound resource_id runtime_id rest

first_binding-is_bound :
    (runtimes : List (String × EnvironmentRuntime)) (mode : RuntimeMode)
    (resource_id selected : String) (bindings : List ResourceRuntimeBinding)
    → let id = first_binding runtimes mode resource_id selected bindings in
      (id == "") ≡ false
      → (is_bound resource_id id bindings && is_selected mode selected (lookup id runtimes)) ≡ true
unfolding first_binding is_bound
first_binding-is_bound runtimes mode resource_id selected [] = λ h. cc
first_binding-is_bound runtimes mode resource_id selected (b ∷ rest) = λ h. ground (
  arith,
  first_binding-is_bound runtimes mode resource_id selected rest,
  str_iff b.runtime_id b.runtime_id,
)

-- The runtime is in the list.
abbrev pub Among : EnvironmentRuntime → List EnvironmentRuntime → Type 0
Among r [] = true ≡ false
Among r (x ∷ xs) = (x ≡ r) ⊎ Among r xs

-- What is read from the index is in the list under its id, or was there before.
index_runtimes-Among :
    (rs : List EnvironmentRuntime) (m : List (String × EnvironmentRuntime)) (id : String)
    (r : EnvironmentRuntime)
    → lookup id (index_runtimes rs m) ≡ some r
    → (lookup id m ≡ some r) ⊎ ((r.id ≡ id) × Among r rs)
unfolding index_runtimes
index_runtimes-Among [] m id r e = inl e
index_runtimes-Among (x ∷ xs) m id r e = elim (index_runtimes-Among xs ((x.id, x) ∷ m) id r e) [
  | inr (own, among) ↦ inr (own, inr among)
  | inl here ↦ elim (eq-cases id x.id) [
    | inl same ↦
        let this : x ≡ r = ground (arith, here, same, str_iff id x.id) in
        inr (ap (λ y. y.id) (sym this) ∙ sym same, inl this)
    | inr other ↦ inl (ground (arith, here, other))
  ]
]

is_selected-some :
    (mode : RuntimeMode) (selected : String) (o : Option EnvironmentRuntime)
    → is_selected mode selected o ≡ true
    → (r : EnvironmentRuntime) × (o ≡ some r)
is_selected-some mode selected none h = cc
is_selected-some mode selected (some r) h = (r, refl)

is_selected_parts :
    (mode : RuntimeMode) (selected : String) (r : EnvironmentRuntime)
    → is_selected mode selected (some r) ≡ true
    → (same_mode r.mode mode ≡ true) × ((selected == "") ≡ false → r.id ≡ selected)
is_selected_parts mode selected r h =
    (ground (arith, h), λ n. ground (arith, h, n, str_iff r.id selected))

-- The mode of a runtime that serves a run.
abbrev pub Serves : RuntimeMode → ExecutionMode → Type 0
Serves simulation_runtime simulation = Unit
Serves execution_runtime real = Unit
Serves execution_runtime interactive = Unit
Serves _ _ = true ≡ false

same_mode-Serves :
    (m : RuntimeMode) (e : ExecutionMode) → same_mode m (runtime_mode e) ≡ true → Serves m e
same_mode-Serves simulation_runtime simulation h = tt
same_mode-Serves simulation_runtime real h = cc
same_mode-Serves simulation_runtime interactive h = cc
same_mode-Serves execution_runtime simulation h = cc
same_mode-Serves execution_runtime real h = tt
same_mode-Serves execution_runtime interactive h = tt

-- A runtime of the request that serves its mode, is the one that was chosen while planning, and is
-- bound to the resource, has the id.
abbrev pub Served {ℓ} : {F : Type ℓ} → ExecutionRequest F → Assignment F → String → Type 0
Served request a id =
    (r : EnvironmentRuntime) × Among r request.runtimes
    × (r.id ≡ id)
    × Serves r.mode request.mode
    × ((a.runtime_id == "") ≡ false → r.id ≡ a.runtime_id)
    × (is_bound a.placed.resource_id id request.runtime_bindings ≡ true)

module _ {ℓ} {F : Type ℓ} (float : Float F) (request : ExecutionRequest F) where
  check_assignments-All :
      (assignments : List (Assignment F)) (lanes : List (String × List String))
      → check_assignments float request assignments lanes ≡ none
      → All (λ a. (select_runtime request a == "") ≡ false) assignments
  unfolding check_assignments
  check_assignments-All [] lanes h = tt
  check_assignments-All (a ∷ rest) lanes h =
      let r = resource_named float (index_resources request.resources []) a.placed.resource_id in
      let cores = add a.placed.core_id (cores_of (lookup r.id lanes)) in
      let lanes' = if is_counted float request r a then put r.id cores lanes else lanes in
      (ground arith, check_assignments-All rest lanes' (ground arith))

  accepted_parts :
      validate_request float request ≡ none
      → (validate_planned_precedence request.workflow (placements request.assignments) ≡ none)
        × (check_assignments float request request.assignments [] ≡ none)
  unfolding validate_request
  accepted_parts h =
      let checked = check_assignments float request request.assignments [] in
      let precedence =
        validate_planned_precedence request.workflow (placements request.assignments) in
      let inner : Option RequestError = elim precedence [
        | some e ↦ some (bad_precedence e)
        | none ↦ checked
      ] in
      let passed : inner ≡ none = ground (arith, h) in
      elim precedence
          as (λ p.
            (let o : Option RequestError = elim p [
              | some e ↦ some (bad_precedence e)
              | none ↦ checked
            ] in
              o ≡ none)
            → (p ≡ none) × (checked ≡ none)) [ some e ↦ λ k. cc | none ↦ λ k. (refl, k) ]
        passed

  served :
      (a : Assignment F)
      → (select_runtime request a == "") ≡ false
      → Served request a (select_runtime request a)
  unfolding select_runtime
  served a h =
      let runtimes = index_runtimes request.runtimes [] in
      let id =
        first_binding runtimes (runtime_mode request.mode) a.placed.resource_id a.runtime_id
          request.runtime_bindings in
      let chosen =
        first_binding-is_bound runtimes (runtime_mode request.mode) a.placed.resource_id
          a.runtime_id request.runtime_bindings h in
      let (r, found) =
        is_selected-some (runtime_mode request.mode) a.runtime_id (lookup id runtimes)
          (ground (arith, chosen)) in
      let passed : is_selected (runtime_mode request.mode) a.runtime_id (some r) ≡ true =
        ap (is_selected (runtime_mode request.mode) a.runtime_id) (sym found)
        ∙ ground (arith, chosen) in
      let parts = is_selected_parts (runtime_mode request.mode) a.runtime_id r passed in
      let (own, among) : (r.id ≡ id) × Among r request.runtimes =
        elim (index_runtimes-Among request.runtimes [] id r found) [ inl e ↦ cc | inr p ↦ p ] in
      (r, among, own, same_mode-Serves r.mode request.mode parts.0, parts.1, ground (arith, chosen))

  All-Served :
      (assignments : List (Assignment F))
      → All (λ a. (select_runtime request a == "") ≡ false) assignments
      → All (λ a. Served request a (select_runtime request a)) assignments
  All-Served [] h = tt
  All-Served (a ∷ rest) h = (served a h.0, All-Served rest h.1)

  -- If a request passes the check, then for each assignment a runtime of the request has the id that is
  -- selected; it is a simulation runtime exactly if the run is a simulation; where a runtime was chosen
  -- while planning, it is that one; and an enabled binding joins it to the resource.
  pub validate_request-Served :
      validate_request float request ≡ none
      → All (λ a. Served request a (select_runtime request a)) request.assignments
  validate_request-Served h =
      All-Served request.assignments
        (check_assignments-All request.assignments [] (accepted_parts h).1)

  -- If a request passes the check, no run of the loop, whatever arrives, fails with the error that no
  -- remaining activity can go on, provided that the maps of the loop agree at the beginning.
  pub validate_request-progress :
      validate_request float request ≡ none
      → (as' : List Arrivals) (s : Progress) → Consistent s
      → (execute_activities float request as' s).1 ≢ fails cannot_progress
  validate_request-progress h = execute_activities-progress float request (accepted_parts h).0
