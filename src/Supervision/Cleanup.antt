-- ===== src/Supervision/Cleanup.antt =====
-- The function that executeActivities defers: it joins the workers that are still at work, and after
-- a failure it stops what runs.
use akoflow.Prelude.{
  String, true, false, not, List, [], ◌∷◌, Option, none, some, ◌≡◌, refl, ap, ◌∙◌, inl, inr, arith,
  remove, contains, contains-remove, string_eq, str_iff, ◌&&◌, if◌then◌else◌, Bool-cases,
}
use akoflow.Workspace.Recovery.{RuntimeAllocation}
use akoflow.Supervision.{Progress, SupervisorError}
use akoflow.Supervision.Events.{
  Effect, StartResult, started, refused, keep_allocation, started_activity, apply_start_result,
  cancel_activity, cancel_each, cancel_running_activities,
}
use akoflow.Supervision.Loop.{is_empty}
use akoflow.Supervision.Waiting.{Idle}

unfoldable pub join_allocations : List (String × RuntimeAllocation) → Progress → Progress
join_allocations [] s = s
join_allocations ((id, a) ∷ rest) s =
    let later =
      join_allocations rest (
        keep_allocation id a
          (record s { pending_allocations = remove id s.pending_allocations })) in
    if is_empty s.pending_allocations then s else later

-- The first error stays.
abbrev kept_error : Option SupervisorError → Option SupervisorError → Option SupervisorError
kept_error none e = e
kept_error (some e) _ = some e

unfoldable pub join_starts :
    List (String × StartResult) → Option SupervisorError → Progress → Effect
join_starts [] err s = (s, err)
join_starts ((id, r) ∷ rest) err s =
    let o = apply_start_result id r (record s { pending_starts = remove id s.pending_starts }) in
    let later = join_starts rest (kept_error err o.1) o.0 in
    if is_empty s.pending_starts then (s, err) else later

unfoldable pub clean_up :
    List (String × RuntimeAllocation)
    → List (String × StartResult)
    → (String → Option String)
    → Option SupervisorError
    → Progress
    → Effect
clean_up allocations starts stop err s =
    let o = join_starts starts err (join_allocations allocations s) in
    elim o.1 [ none ↦ (o.0, none) | some e ↦ (cancel_running_activities e stop o.0, some e) ]

-- Every worker that is still at work sends a result.
abbrev pub Answered {ℓ} : {A : Type ℓ} → List String → List (String × A) → Type 0
Answered pending [] = (j : String) → contains pending j ≡ false
Answered pending ((id, a) ∷ rest) = Answered (remove id pending) rest

no_members : (ids : List String) → ((j : String) → contains ids j ≡ false) → ids ≡ []
no_members [] h = refl
no_members (id ∷ ids) h = ground (arith, h id, str_iff id id)

is_empty-nil : (ids : List String) → is_empty ids ≡ true → ids ≡ []
is_empty-nil [] h = refl
is_empty-nil (id ∷ ids) h = cc

join_allocations-pending :
    (allocations : List (String × RuntimeAllocation)) (s : Progress)
    → Answered s.pending_allocations allocations
    → (join_allocations allocations s).pending_allocations ≡ []
unfolding join_allocations
join_allocations-pending [] s h = no_members s.pending_allocations h
join_allocations-pending ((id, a) ∷ rest) s h =
    let t =
      keep_allocation id a (record s { pending_allocations = remove id s.pending_allocations }) in
    let same : t.pending_allocations ≡ remove id s.pending_allocations = ground arith in
    let later : (join_allocations rest t).pending_allocations ≡ [] =
      join_allocations-pending rest t (rw same h) in
    elim (Bool-cases (is_empty s.pending_allocations)) [
      | inl e ↦ rw e (is_empty-nil s.pending_allocations e)
      | inr e ↦ rw e later
    ]

join_allocations-starts :
    (allocations : List (String × RuntimeAllocation)) (s : Progress)
    → (join_allocations allocations s).pending_starts ≡ s.pending_starts
unfolding join_allocations
join_allocations-starts [] s = refl
join_allocations-starts ((id, a) ∷ rest) s = ground (
  arith,
  join_allocations-starts rest
      (keep_allocation id a (record s { pending_allocations = remove id s.pending_allocations })),
)

apply_start_result-pending :
    (id : String) (r : StartResult) (s : Progress)
    → ((apply_start_result id r s).0.pending_starts ≡ s.pending_starts)
      × ((apply_start_result id r s).0.pending_allocations ≡ s.pending_allocations)
unfolding apply_start_result started_activity
apply_start_result-pending id (started a true none) s = (ground arith, ground arith)
apply_start_result-pending id (started a true (some e)) s = (ground arith, ground arith)
apply_start_result-pending id (started a false e) s = (ground arith, ground arith)
apply_start_result-pending id (refused a e uncertain) s = (ground arith, ground arith)

join_starts-pending :
    (starts : List (String × StartResult)) (err : Option SupervisorError) (s : Progress)
    → Answered s.pending_starts starts
    → ((join_starts starts err s).0.pending_starts ≡ [])
      × ((join_starts starts err s).0.pending_allocations ≡ s.pending_allocations)
unfolding join_starts
join_starts-pending [] err s h = (no_members s.pending_starts h, refl)
join_starts-pending ((id, r) ∷ rest) err s h =
    let begun : Progress = record s { pending_starts = remove id s.pending_starts } in
    let o = apply_start_result id r begun in
    let (same, others) = apply_start_result-pending id r begun in
    let later = join_starts-pending rest (kept_error err o.1) o.0 (rw same h) in
    elim (Bool-cases (is_empty s.pending_starts)) [
      | inl e ↦ rw e (is_empty-nil s.pending_starts e, refl)
      | inr e ↦ rw e (later.0, later.1 ∙ others)
    ]

join_starts-error :
    (starts : List (String × StartResult)) (e : SupervisorError) (s : Progress)
    → (join_starts starts (some e) s).1 ≡ some e
unfolding join_starts
join_starts-error [] e s = refl
join_starts-error ((id, r) ∷ rest) e s = ground (
  arith,
  join_starts-error rest e
      (apply_start_result id r (record s { pending_starts = remove id s.pending_starts })).0,
)

cancel_each-running :
    (cause : SupervisorError) (stop : String → Option String) (ids : List String) (s : Progress)
    → ((id : String) → stop id ≡ none)
    → (j : String)
    → contains (cancel_each cause stop ids s).running j
      ≡ (not (contains ids j) && contains s.running j)
unfolding cancel_each cancel_activity
cancel_each-running cause stop [] s h j = refl
cancel_each-running cause stop (id ∷ ids) s h j =
    ap (λ o. contains (cancel_each cause stop ids (cancel_activity cause id o s)).running j) (h id)
    ∙ cancel_each-running cause stop ids (cancel_activity cause id none s) h j
    ∙ ground (arith, contains-remove id s.running j)

cancel_activity-pending :
    (cause : SupervisorError) (id : String) (o : Option String) (s : Progress)
    → ((cancel_activity cause id o s).pending_starts ≡ s.pending_starts)
      × ((cancel_activity cause id o s).pending_allocations ≡ s.pending_allocations)
unfolding cancel_activity
cancel_activity-pending cause id none s = (refl, refl)
cancel_activity-pending cause id (some e) s = (refl, refl)

cancel_each-pending :
    (cause : SupervisorError) (stop : String → Option String) (ids : List String) (s : Progress)
    → ((cancel_each cause stop ids s).pending_starts ≡ s.pending_starts)
      × ((cancel_each cause stop ids s).pending_allocations ≡ s.pending_allocations)
unfolding cancel_each
cancel_each-pending cause stop [] s = (refl, refl)
cancel_each-pending cause stop (id ∷ ids) s =
    let first = cancel_activity-pending cause id (stop id) s in
    let rest = cancel_each-pending cause stop ids (cancel_activity cause id (stop id) s) in
    (rest.0 ∙ first.0, rest.1 ∙ first.1)

-- After a failure, when every worker that was at work has answered and every stop succeeds, nothing
-- is left in flight: no start, no allocation, no running activity; and the failure is the one that is
-- reported.
pub clean_up-Idle :
    (allocations : List (String × RuntimeAllocation)) (starts : List (String × StartResult))
    (stop : String → Option String) (e : SupervisorError) (s : Progress)
    → Answered s.pending_allocations allocations
    → Answered s.pending_starts starts
    → ((id : String) → stop id ≡ none)
    → Idle (clean_up allocations starts stop (some e) s).0
      × ((clean_up allocations starts stop (some e) s).1 ≡ some e)
unfolding clean_up cancel_running_activities
clean_up-Idle allocations starts stop e s a b h =
    let s' = join_allocations allocations s in
    let o = join_starts starts (some e) s' in
    let (p, q) =
      join_starts-pending starts (some e) s' (rw (join_allocations-starts allocations s) b) in
    elim o.1
        as (λ (err : Option SupervisorError).
          err ≡ some e
          → (let r : Effect = elim err [
            | none ↦ (o.0, none)
            | some x ↦ (cancel_running_activities x stop o.0, some x)
          ] in
              Idle r.0 × (r.1 ≡ some e))) [
                | none ↦ λ k. cc
                | some x ↦ λ k.
                    let (u, v) = cancel_each-pending x stop o.0.running o.0 in
                    (
                      record {
                        no_start = u ∙ p;
                        no_run =
                            no_members _
                              (λ j. ground (arith, cancel_each-running x stop o.0.running o.0 h j));
                        no_allocation = v ∙ q ∙ join_allocations-pending allocations s a;
                      },
                      k,
                    )
              ]
      (join_starts-error starts e s')
