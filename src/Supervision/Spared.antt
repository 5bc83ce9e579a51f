-- ===== src/Supervision/Spared.antt =====
-- Proofs about what is handed to the release of cloud instances at the end of a run.
use akoflow.Prelude.{
  String, Bool, true, false, not, List, [], ◌∷◌, ◌≡◌, refl, arith, contains, contains-add, keep,
  ◌==◌, string_eq, str_iff, ◌&&◌, ◌||◌, if◌then◌else◌, All, All-keep,
}
use akoflow.Workspace.{ActivityWorkspace, WorkspaceLease}
use akoflow.Workspace.Recovery.{RuntimeAllocation}
use akoflow.Supervision.Releases.{
  DataLocation, Allocations, needed_workspaces, is_removed, is_ephemeral, without_instances,
  leased_instances, retain_workspace_leases, ephemeral_resources, ephemeral_instances,
  retain_ephemeral_outputs, stop_instances, release_cloud,
}

All-with {ℓ κ} :
    {A : Type ℓ} (P Q R : A → Type κ) (xs : List A)
    → ((x : A) → P x → Q x → R x)
    → All P xs
    → All Q xs
    → All R xs
All-with P Q R [] f p q = tt
All-with P Q R (x ∷ xs) f p q = (f x p.0 q.0, All-with P Q R xs f p.1 q.1)

All-kept :
    (P : RuntimeAllocation → Bool) (allocations : Allocations)
    → All (λ a. P a.1 ≡ true) (keep (λ a. P a.1) allocations)
All-kept P [] = tt
All-kept P (a ∷ rest) =
    elim (P a.1)
        as (λ b.
          P a.1 ≡ b
          → All (λ x. P x.1 ≡ true)
              (if b then a ∷ keep (λ x. P x.1) rest else keep (λ x. P x.1) rest)) [
                | true ↦ λ e. (e, All-kept P rest)
                | false ↦ λ e. All-kept P rest
              ]
      refl

-- The lease needs the workspace.
abbrev pub needs : WorkspaceLease → ActivityWorkspace → Bool
needs l w = not l.is_released && l.workspace_id == w.id

abbrev pub lies_on : (String → String) → ActivityWorkspace → RuntimeAllocation → Bool
lies_on instance_of w a =
    not (is_removed w.state)
    && (instance_of w.uri == a.cloud_instance_id && not (a.cloud_instance_id == ""))

-- The output is only where the activity ran, on an instance.
abbrev pub is_only_on : DataLocation → RuntimeAllocation → Bool
is_only_on l a =
    is_ephemeral l.status && (l.resource_id == a.resource_id && not (a.cloud_instance_id == ""))

needed_workspaces-All :
    (w : ActivityWorkspace) (leases : List WorkspaceLease)
    → contains (needed_workspaces leases) w.id ≡ false
    → All (λ l. needs l w ≡ false) leases
unfolding needed_workspaces
needed_workspaces-All w [] h = tt
needed_workspaces-All w (l ∷ rest) h = (
  ground (
    arith,
    contains-add l.workspace_id (needed_workspaces rest) w.id,
    str_iff w.id l.workspace_id,
    str_iff l.workspace_id w.id,
  ),
  needed_workspaces-All w rest
      (ground (arith, contains-add l.workspace_id (needed_workspaces rest) w.id)),
)

-- No lease needs a workspace on the instance.
abbrev pub Unneeded :
    (String → String) → List ActivityWorkspace → List WorkspaceLease → RuntimeAllocation → Type 0
Unneeded instance_of workspaces leases a =
    All (λ w. lies_on instance_of w a ≡ true → All (λ l. needs l w ≡ false) leases) workspaces

leased-Unneeded :
    (instance_of : String → String) (workspaces : List ActivityWorkspace)
    (leases : List WorkspaceLease) (a : RuntimeAllocation)
    → contains
        (leased_instances instance_of (needed_workspaces leases) workspaces)
        a.cloud_instance_id
      ≡ false
    → Unneeded instance_of workspaces leases a
unfolding leased_instances
leased-Unneeded instance_of [] leases a h = tt
leased-Unneeded instance_of (w ∷ rest) leases a h =
    let needed = needed_workspaces leases in
    let later = leased_instances instance_of needed rest in
    let i = a.cloud_instance_id in
    let u = instance_of w.uri in
    (
      (λ on.
          needed_workspaces-All w leases
            (ground (arith, h, on, contains-add u later i, str_iff u i, str_iff i u))),
      leased-Unneeded instance_of rest leases a (ground (arith, h, contains-add u later i)),
    )

ephemeral_resources-All :
    (r : String) (locations : List DataLocation)
    → contains (ephemeral_resources locations) r ≡ false
    → All (λ l. (is_ephemeral l.status && l.resource_id == r) ≡ false) locations
unfolding ephemeral_resources
ephemeral_resources-All r [] h = tt
ephemeral_resources-All r (l ∷ rest) h = (
  ground (
    arith,
    contains-add l.resource_id (ephemeral_resources rest) r,
    str_iff l.resource_id r,
    str_iff r l.resource_id,
  ),
  ephemeral_resources-All r rest
      (ground (arith, contains-add l.resource_id (ephemeral_resources rest) r)),
)

-- Of all allocations: those on instances that are not leased are protected where they have a resource
-- of the list.
ephemeral_instances-All :
    (leased resources big : List String) (allocations : Allocations)
    → ((j : String)
        → contains
            (ephemeral_instances resources
              (keep (λ a. not (contains leased a.1.cloud_instance_id)) allocations))
            j
          ≡ true
        → contains big j ≡ true)
    → All
        (λ a.
          (not (a.1.cloud_instance_id == "")
            && (contains resources a.1.resource_id
                && (not (contains leased a.1.cloud_instance_id)
                    && not (contains big a.1.cloud_instance_id))))
          ≡ false)
        allocations
unfolding ephemeral_instances
ephemeral_instances-All leased resources big [] h = tt
ephemeral_instances-All leased resources big ((id, a) ∷ rest) h =
    let left = keep (λ a. not (contains leased a.1.cloud_instance_id)) rest in
    let later = ephemeral_instances resources left in
    let i = a.cloud_instance_id in
    (
      ground (arith, h i, contains-add i later i, str_iff i i),
      ephemeral_instances-All leased resources big rest
          (λ j k. ground (arith, h j, k, contains-add i later j)),
    )

only_on-All :
    (a : RuntimeAllocation) (locations : List DataLocation)
    → (not (a.cloud_instance_id == "") && contains (ephemeral_resources locations) a.resource_id)
      ≡ false
    → All (λ l. is_only_on l a ≡ false) locations
unfolding ephemeral_resources
only_on-All a [] h = tt
only_on-All a (l ∷ rest) h = (
  ground (
    arith,
    h,
    contains-add l.resource_id (ephemeral_resources rest) a.resource_id,
    str_iff l.resource_id a.resource_id,
    str_iff a.resource_id l.resource_id,
  ),
  only_on-All a rest
      (ground (arith, h, contains-add l.resource_id (ephemeral_resources rest) a.resource_id)),
)

module _ {ℓ κ} {A : Type ℓ} (P Q : A → Type κ) (R : A → A → Type κ)
    (f : (a b : A) → P a → Q b → R a b) where
  All-far : (a : A) (ys : List A) → P a → All Q ys → All (R a) ys
  All-far a [] p q = tt
  All-far a (b ∷ ys) p q = (f a b p q.0, All-far a ys p q.1)

  All-apart : (xs ys : List A) → All P xs → All Q ys → All (λ a. All (R a) ys) xs
  All-apart [] ys p q = tt
  All-apart (a ∷ xs) ys p q = (All-far a ys p.0 q, All-apart xs ys p.1 q)

-- Every allocation on the same instance is free of outputs that are only there.
abbrev pub IsBare : List DataLocation → Allocations → RuntimeAllocation → Type 0
IsBare locations allocations a =
    All
      (λ b.
        (a.cloud_instance_id == b.1.cloud_instance_id) ≡ true
        → All (λ l. is_only_on l b.1 ≡ false) locations)
      allocations

-- After a failure no instance is released on which a workspace lies that was not removed and that a
-- lease still needs, nor one that has the only copy of an output: no allocation of the run on that
-- instance, released or not, has the resource of an ephemeral location.
pub release_cloud-spares :
    (instance_of : String → String) (allocations : Allocations)
    (workspaces : List ActivityWorkspace) (leases : List WorkspaceLease)
    (locations : List DataLocation) (selected : String → Bool) (stop_fails : Bool)
    → All
        (λ a. Unneeded instance_of workspaces leases a.1 × IsBare locations allocations a.1)
        (release_cloud instance_of true allocations workspaces leases locations selected
          stop_fails).let_go
unfolding release_cloud retain_workspace_leases retain_ephemeral_outputs without_instances
release_cloud-spares instance_of allocations workspaces leases locations selected stop_fails =
    let leased = leased_instances instance_of (needed_workspaces leases) workspaces in
    let left = keep (λ a. not (contains leased a.1.cloud_instance_id)) allocations in
    let resources = ephemeral_resources locations in
    let lone = ephemeral_instances resources left in
    let kept = keep (λ a. not (contains lone a.1.cloud_instance_id)) left in
    let unleased =
      All-keep (λ a. not (contains leased a.1.cloud_instance_id) ≡ true)
        (λ a. not (contains lone a.1.cloud_instance_id)) left
        (All-kept (λ a. not (contains leased a.cloud_instance_id)) allocations) in
    let unprotected = All-kept (λ a. not (contains lone a.cloud_instance_id)) left in
    let free =
      All-with (λ a. not (contains leased a.1.cloud_instance_id) ≡ true)
        (λ a. not (contains lone a.1.cloud_instance_id) ≡ true)
        (λ a.
          (contains leased a.1.cloud_instance_id || contains lone a.1.cloud_instance_id) ≡ false)
        kept (λ a u v. ground arith) unleased unprotected in
    let bare =
      All-apart
        (λ a.
          (contains leased a.1.cloud_instance_id || contains lone a.1.cloud_instance_id) ≡ false)
        (λ b.
          (not (b.1.cloud_instance_id == "")
            && (contains resources b.1.resource_id
                && (not (contains leased b.1.cloud_instance_id)
                    && not (contains lone b.1.cloud_instance_id))))
          ≡ false)
        (λ a b.
          (a.1.cloud_instance_id == b.1.cloud_instance_id) ≡ true
          → All (λ l. is_only_on l b.1 ≡ false) locations)
        (λ a b u v same. only_on-All b.1 locations (
          let e : a.1.cloud_instance_id ≡ b.1.cloud_instance_id =
            (str_iff a.1.cloud_instance_id b.1.cloud_instance_id).0 same in
          ground (arith, rw e at u)))
        kept allocations free
        (ephemeral_instances-All leased resources lone allocations (λ j k. k)) in
    All-with (λ a. not (contains leased a.1.cloud_instance_id) ≡ true)
      (λ a. IsBare locations allocations a.1)
      (λ a. Unneeded instance_of workspaces leases a.1 × IsBare locations allocations a.1) kept
      (λ a u v. (leased-Unneeded instance_of workspaces leases a.1 (ground arith), v)) unleased bare

-- After a success, no instance is both stopped and released.
pub release_cloud-apart :
    (instance_of : String → String) (allocations : Allocations)
    (workspaces : List ActivityWorkspace) (leases : List WorkspaceLease)
    (locations : List DataLocation) (selected : String → Bool) (stop_fails : Bool)
    → let done =
        release_cloud instance_of false allocations workspaces leases locations selected
          stop_fails in
      All
        (λ a. All (λ b. (a.1.cloud_instance_id == b.1.cloud_instance_id) ≡ false) done.let_go)
        done.stopped
unfolding release_cloud without_instances stop_instances
release_cloud-apart instance_of allocations workspaces leases locations selected stop_fails =
    let instances = stop_instances selected allocations in
    let stopped = keep (λ a. contains instances a.1.cloud_instance_id) allocations in
    let others = without_instances instances allocations in
    let in_stop = All-kept (λ a. contains instances a.cloud_instance_id) allocations in
    let out_of_stop = All-kept (λ a. not (contains instances a.cloud_instance_id)) allocations in
    let let_go : Allocations = if stop_fails then [] else others in
    let far : All (λ b. not (contains instances b.1.cloud_instance_id) ≡ true) let_go =
      elim stop_fails
        as (λ c.
          All {A = String × RuntimeAllocation}
            (λ b. not (contains instances b.1.cloud_instance_id) ≡ true)
            (if c then [] else others)) [ true ↦ tt | false ↦ out_of_stop ] in
    All-apart (λ a. contains instances a.1.cloud_instance_id ≡ true)
      (λ b. not (contains instances b.1.cloud_instance_id) ≡ true)
      (λ a b. (a.1.cloud_instance_id == b.1.cloud_instance_id) ≡ false)
      (λ a b u v. ground (arith, u, v, str_iff a.1.cloud_instance_id b.1.cloud_instance_id)) stopped
      let_go in_stop far
