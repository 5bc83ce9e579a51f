-- ===== src/Supervision/Requests.antt =====
-- The check of a request before its run: validateRequest of
-- internal/controlplane/execution/supervisor.go. ExecutionMode has the three modes that it lets pass,
-- so its test of the mode has no branch here.
use akoflow.Prelude.{
  ℕ, String, Bool, not, List, [], ◌∷◌, Option, none, some, pos, add, put, lookup, length, ltb,
  nat_eq, ◌==◌, string_eq, ◌&&◌, ◌||◌, if◌then◌else◌, Float,
}
use akoflow.Precedence.{PrecedenceError, validate_planned_precedence}
use akoflow.Supervision.{Resource, Assignment, ExecutionRequest, placements, index_resources}
use akoflow.Supervision.Runtimes.{select_runtime}
use akoflow.Supervision.Admission.{scheduling_cpu_cores, resource_named}

pub data RequestError : Type 0 where
  missing_identifiers not_exactly_once_each : RequestError
  bad_precedence : PrecedenceError → RequestError
  exceeds_capacity : String → ℕ → ℕ → RequestError
  no_runtime : String → RequestError

abbrev pub cores_of : Option (List String) → List String
cores_of none = []
cores_of (some cores) = cores

module _ {ℓ} {F : Type ℓ} (float : Float F) (request : ExecutionRequest F) where
  -- The lane of the assignment is counted against an explicit capacity.
  unfoldable pub is_counted : Resource F → Assignment F → Bool
  is_counted r a =
      not r.is_batch
      && (float.lt (float.of_int (pos 0)) r.cpu_capacity
          && (float.lt r.cpu_capacity (float.of_int r.cpu_cores) && not (a.placed.core_id == "")))

  -- The loop over the assignments, with the cores seen of each resource.
  unfoldable pub check_assignments :
      List (Assignment F) → List (String × List String) → Option RequestError
  check_assignments [] lanes = none
  check_assignments (a ∷ rest) lanes =
      let r = resource_named float (index_resources request.resources []) a.placed.resource_id in
      let cores = add a.placed.core_id (cores_of (lookup r.id lanes)) in
      let later = check_assignments rest (if is_counted r a then put r.id cores lanes else lanes) in
      if is_counted r a && ltb (scheduling_cpu_cores float r) (length cores)
      then some (exceeds_capacity r.id (length cores) (scheduling_cpu_cores float r))
      else if select_runtime request a == ""
      then some (no_runtime a.placed.resource_id)
      else later

  unfoldable pub validate_request : Option RequestError
  unfolding check_assignments
  validate_request =
      if request.run_id == "" || (request.plan_id == "" || request.workflow_id == "")
      then some missing_identifiers
      else if not (length request.assignments == length request.workflow.activities)
      then some not_exactly_once_each
      else elim (validate_planned_precedence request.workflow (placements request.assignments)) [
        | some e ↦ some (bad_precedence e)
        | none ↦ check_assignments request.assignments []
      ]
