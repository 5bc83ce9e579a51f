-- ===== src/Queue/Admission.antt =====
-- The choice of the jobs to lease, from repository.go: at most one execution at a time in an
-- environment. `decode` is json.Unmarshal into executionAdmissionPayload, `none` its error; a map's
-- keys are read in some order, which nothing here depends on.
use akoflow.Prelude.{
  ℕ, zero, suc, String, Bool, true, false, List, [], ◌∷◌, ◌++◌, map, Option, none, some, contains,
  lookup, ◌==◌, string_eq, ◌||◌, ◌&&◌, if◌then◌else◌, trim_space, ltb, ltb_ℤ, nat_eq, keep, leb,
}
use akoflow.Queue.{Job}
use akoflow.Queue.Store.{is_pending, is_leased}

pub record Candidate : Type 0 where
  pub id : String
  pub category : String
  pub event_type : String
  pub payload : List ℕ

-- The mode of the run, the resource of each assignment, and each resource with its environment.
pub record AdmissionPayload : Type 0 where
  pub mode : String
  pub assignments : List String
  pub resources : List (String × String)

-- An absent key reads as the empty string; a later entry replaces an earlier one.
abbrev pub read_text : String → List (String × String) → String
read_text k m = elim (lookup k m) [ none ↦ "" | some v ↦ v ]

abbrev pub index_pairs : List (String × String) → List (String × String) → List (String × String)
index_pairs [] m = m
index_pairs (p ∷ ps) m = index_pairs ps (p ∷ m)

unique_keys : List (String × String) → List String → List String → List String
unique_keys index [] unique = unique
unique_keys index (r ∷ rs) unique =
    let key = trim_space (read_text r index) in
    unique_keys index rs (if key == "" || contains unique key then unique else key ∷ unique)

abbrev payload_keys : Option AdmissionPayload → List String
unfolding unique_keys
payload_keys none = []
payload_keys (some p) =
    if p.mode == "simulation" then [] else unique_keys (index_pairs p.resources []) p.assignments []

unfoldable pub environment_owner_keys : List String → List (String × String) → List String
environment_owner_keys [] owners = []
environment_owner_keys (v ∷ vs) owners =
    (if read_text v owners == "" then v else read_text v owners) ∷ environment_owner_keys vs owners

unfoldable pub environment_conflict : List String → List String → Bool
environment_conflict occupied [] = false
environment_conflict occupied (k ∷ ks) = contains occupied k || environment_conflict occupied ks

abbrev pub is_execution_run : String → String → Bool
is_execution_run category event_type =
    category == "execution" && event_type == "execution.run.requested"

-- ORDER BY priority DESC, available_at, created_at: whether `a` stands before `b`.
unfoldable pub before : Job → Job → Bool
before a b =
    if ltb_ℤ b.priority a.priority
    then true
    else if ltb_ℤ a.priority b.priority
    then false
    else if ltb a.available_at b.available_at
    then true
    else if ltb b.available_at a.available_at
    then false
    else ltb a.created_at b.created_at

unfoldable pub insert_row : Job → List Job → List Job
unfolding before
insert_row j [] = j ∷ []
insert_row j (k ∷ ks) = let rest = insert_row j ks in if before k j then k ∷ rest else j ∷ k ∷ ks

unfoldable pub sort_rows : List Job → List Job
unfolding insert_row
sort_rows [] = []
sort_rows (j ∷ js) = insert_row j (sort_rows js)

abbrev pub candidate_of : Job → Candidate
candidate_of j = record {
  id = j.id;
  category = j.category;
  event_type = j.event_type;
  payload = j.payload;
}

-- The WHERE clause; no category is named where the list is empty.
abbrev pub is_candidate : ℕ → List String → Job → Bool
is_candidate now [] j = is_pending j.status && leb j.available_at now
is_candidate now (c ∷ cs) j =
    is_pending j.status && (leb j.available_at now && contains (c ∷ cs) j.category)

unfoldable pub pending_lease_candidates : ℕ → List String → List Job → List Candidate
unfolding sort_rows
pending_lease_candidates now categories jobs =
    map candidate_of (sort_rows (keep (is_candidate now categories) jobs))

-- lease_expires_at > ?, which holds of no NULL.
abbrev pub unexpired : ℕ → Option ℕ → Bool
unexpired now none = false
unexpired now (some at) = ltb now at

-- A leased execution whose lease is running.
abbrev pub is_live : ℕ → Job → Bool
is_live now j =
    is_leased j.status
    && (unexpired now j.lease_expires_at && is_execution_run j.category j.event_type)

module _ (decode : List ℕ → Option AdmissionPayload) where
  -- The error of a malformed payload has the keys of no environment here: both callers drop it.
  unfoldable pub execution_environment_keys : String → String → List ℕ → List String
  unfolding unique_keys
  execution_environment_keys category event_type payload =
      if is_execution_run category event_type then payload_keys (decode payload) else []

  unfoldable pub candidate_keys : List (String × String) → Candidate → List String
  candidate_keys owners c =
      environment_owner_keys (execution_environment_keys c.category c.event_type c.payload) owners

  -- `room` is the limit less what is selected so far.
  unfoldable pub select : List Candidate → List String → List (String × String) → ℕ → List Candidate
  select [] occupied owners room = []
  select (c ∷ cs) occupied owners zero = []
  select (c ∷ cs) occupied owners (suc room) =
      let keys = candidate_keys owners c in
      let skipped = select cs occupied owners (suc room) in
      let taken = c ∷ select cs (keys ++ occupied) owners room in
      if environment_conflict occupied keys then skipped else taken

  -- The environments of the executions whose lease is running.
  unfoldable pub leased_execution_environments : ℕ → List (String × String) → List Job → List String
  leased_execution_environments now owners [] = []
  leased_execution_environments now owners (j ∷ js) =
      let rest = leased_execution_environments now owners js in
      if is_live now j then candidate_keys owners (candidate_of j) ++ rest else rest
