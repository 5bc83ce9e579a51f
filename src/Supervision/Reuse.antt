-- ===== src/Supervision/Reuse.antt =====
-- Which completed activities a recovery may reuse: reconcileReusableWorkspaces of
-- internal/controlplane/execution/supervisor.go. The maps to true are the sets of their keys, and the
-- loop over a map takes its keys in the order of a list, which is any order.
use akoflow.Prelude.{
  ℕ, zero, suc, ◌≤◌, ◌<◌, String, Bool, true, false, not, List, [], ◌∷◌, Option, none, some, ◌≡◌,
  refl, ◌∙◌, sym, inl, inr, arith, remove, contains, contains-remove, length, string_eq, ◌&&◌,
  if◌then◌else◌, Bool-cases, All,
}
use mathlib.Core.Path.{subst}
use akoflow.Supervision.OpenActivity.{length-remove}

module _ (available : List String) where
  -- The loop over the producers of an activity, with the set and the flag that it changes.
  unfoldable pub drop_producers : List String → List String → Bool → List String × Bool
  drop_producers [] reusable changed = (reusable, changed)
  drop_producers (p ∷ ps) reusable changed =
      if contains reusable p && not (contains available p)
      then drop_producers ps (remove p reusable) true
      else drop_producers ps reusable changed

  unfoldable pub drop_for_each :
      (String → List String) → List String → List String → Bool → List String × Bool
  unfolding drop_producers
  drop_for_each before [] reusable changed = (reusable, changed)
  drop_for_each before (id ∷ ids) reusable changed =
      let o = drop_producers (before id) reusable changed in
      if contains reusable id
      then drop_for_each before ids reusable changed
      else drop_for_each before ids o.0 o.1

  -- The loop while something changes, none where the fuel is used up.
  unfoldable pub reconcile_reusable_workspaces :
      ℕ → List String → (String → List String) → List String → Option (List String)
  unfolding drop_for_each
  reconcile_reusable_workspaces zero activities before reusable = none
  reconcile_reusable_workspaces (suc n) activities before reusable =
      let o = drop_for_each before activities reusable false in
      let rest = reconcile_reusable_workspaces n activities before o.0 in
      if o.1 then rest else some o.0

  -- Whether a set keeps no producer that an activity outside of it needs and that is not available.
  abbrev pub Settled : (String → List String) → List String → List String → Type 0
  Settled before activities reusable =
      All
        (λ id.
          contains reusable id ≡ false
          → All (λ p. (contains reusable p && not (contains available p)) ≡ false) (before id))
        activities

  abbrev pub Within : List String → List String → Type 0
  Within small big = (j : String) → contains small j ≡ true → contains big j ≡ true

  -- A pass changes nothing, or it makes the set smaller and says so.
  record Passed (reusable : List String) (changed : Bool) (o : List String × Bool) : Type 0 where
    pub shrinks : length o.0 ≤ length reusable
    pub smaller : changed ≡ false → o.1 ≡ true → length o.0 < length reusable
    pub same : o.1 ≡ false → o.0 ≡ reusable
    pub stays : changed ≡ true → o.1 ≡ true
    pub within : Within o.0 reusable

  drop_producers-Passed :
      (ps reusable : List String) (changed : Bool)
      → Passed reusable changed (drop_producers ps reusable changed)
  unfolding drop_producers
  drop_producers-Passed [] reusable changed = record {
    shrinks = omega arith;
    smaller = λ a b. cc;
    same = λ a. refl;
    stays = λ a. a;
    within = λ j k. k;
  }
  drop_producers-Passed (p ∷ ps) reusable changed =
      let a = drop_producers-Passed ps (remove p reusable) true in
      let b = drop_producers-Passed ps reusable changed in
      elim (contains reusable p && not (contains available p))
          as (λ c.
            (contains reusable p && not (contains available p)) ≡ c
            → Passed reusable changed (
                if c
                then drop_producers ps (remove p reusable) true
                else drop_producers ps reusable changed)) [
                  | false ↦ λ e. b
                  | true ↦ λ e.
                      let less = length-remove p reusable (ground arith) in
                      record {
                        shrinks = ground (arith, a.shrinks, less);
                        smaller = λ f g. ground (arith, a.shrinks, less);
                        same = λ f. cc (a.stays refl);
                        stays = λ f. a.stays refl;
                        within = λ j k. ground (arith, a.within j k, contains-remove p reusable j);
                      }
                ]
        refl

  drop_producers-settled :
      (ps reusable : List String) (changed : Bool)
      → (drop_producers ps reusable changed).1 ≡ false
      → All (λ p. (contains reusable p && not (contains available p)) ≡ false) ps
  unfolding drop_producers
  drop_producers-settled [] reusable changed = λ h. tt
  drop_producers-settled (p ∷ ps) reusable changed =
      elim (contains reusable p && not (contains available p))
          as (λ c.
            (contains reusable p && not (contains available p)) ≡ c
            → (let o : List String × Bool =
                  if c
                  then drop_producers ps (remove p reusable) true
                  else drop_producers ps reusable changed in
                o.1 ≡ false)
            → All (λ q. (contains reusable q && not (contains available q)) ≡ false) (p ∷ ps)) [
              | false ↦ λ e h. (e, drop_producers-settled ps reusable changed h)
              | true ↦ λ e h. cc ((drop_producers-Passed ps (remove p reusable) true).stays refl)
            ]
        refl

  quiet_before :
      (reusable : List String) (changed : Bool) (a b : List String × Bool)
      → Passed a.0 changed b
      → b.1 ≡ false
      → changed ≡ false
  quiet_before reusable changed a b y f = elim (Bool-cases changed) [
    | inl t ↦ cc (y.stays t)
    | inr t ↦ t
  ]

  Passed-trans :
      (reusable : List String) (changed : Bool) (a b : List String × Bool)
      → Passed reusable changed a
      → Passed a.0 a.1 b
      → Passed reusable changed b
  Passed-trans reusable changed a b x y = record {
    shrinks = ground (arith, x.shrinks, y.shrinks);
    smaller = λ f g. ground (arith, x.shrinks, y.shrinks, x.smaller f, y.smaller, g);
    same = λ f. y.same f ∙ x.same (quiet_before reusable a.1 a b y f);
    stays = λ f. y.stays (x.stays f);
    within = λ j k. x.within j (y.within j k);
  }

  drop_for_each-Passed :
      (before : String → List String) (ids reusable : List String) (changed : Bool)
      → Passed reusable changed (drop_for_each before ids reusable changed)
  unfolding drop_for_each drop_producers
  drop_for_each-Passed before [] reusable changed = drop_producers-Passed [] reusable changed
  drop_for_each-Passed before (id ∷ ids) reusable changed =
      let o = drop_producers (before id) reusable changed in
      elim (contains reusable id)
        as (λ c. Passed reusable changed (
          if c
          then drop_for_each before ids reusable changed
          else drop_for_each before ids o.0 o.1)) [
            | true ↦ drop_for_each-Passed before ids reusable changed
            | false ↦
                Passed-trans reusable changed o _
                  (drop_producers-Passed (before id) reusable changed)
                  (drop_for_each-Passed before ids o.0 o.1)
          ]

  drop_for_each-Settled :
      (before : String → List String) (ids reusable : List String)
      → (drop_for_each before ids reusable false).1 ≡ false
      → Settled before ids reusable
  unfolding drop_for_each
  drop_for_each-Settled before [] reusable = λ h. tt
  drop_for_each-Settled before (id ∷ ids) reusable =
      let o = drop_producers (before id) reusable false in
      elim (contains reusable id)
          as (λ c.
            contains reusable id ≡ c
            → (let r : List String × Bool =
                  if c
                  then drop_for_each before ids reusable false
                  else drop_for_each before ids o.0 o.1 in
                r.1 ≡ false)
            → Settled before (id ∷ ids) reusable) [
              | true ↦ λ e h. ((λ n. cc), drop_for_each-Settled before ids reusable h)
              | false ↦ λ e h.
                  let later = drop_for_each-Passed before ids o.0 o.1 in
                  let quiet : o.1 ≡ false = quiet_before reusable o.1 o _ later h in
                  let same : o.0 ≡ reusable =
                    (drop_producers-Passed (before id) reusable false).same quiet in
                  (
                    (λ n. drop_producers-settled (before id) reusable false quiet),
                    drop_for_each-Settled before ids reusable (
                        subst (λ b. (drop_for_each before ids reusable b).1 ≡ false) quiet
                          (subst (λ r. (drop_for_each before ids r o.1).1 ≡ false) same h)),
                  )
            ]
        refl

  pub reconcile_reusable_workspaces-Settled :
      (n : ℕ) (activities : List String) (before : String → List String) (reusable : List String)
      → length reusable < n
      → (kept : List String) × (reconcile_reusable_workspaces n activities before reusable
          ≡ some kept)
        × Within kept reusable
        × Settled before activities kept
  unfolding reconcile_reusable_workspaces
  reconcile_reusable_workspaces-Settled zero activities before reusable enough = ground arith
  reconcile_reusable_workspaces-Settled (suc n) activities before reusable enough =
      let o = drop_for_each before activities reusable false in
      let passed = drop_for_each-Passed before activities reusable false in
      elim o.1
          as (λ c.
            o.1 ≡ c
            → (kept : List String) × ((if c
                  then reconcile_reusable_workspaces n activities before o.0
                  else some o.0)
                ≡ some kept)
              × Within kept reusable
              × Settled before activities kept) [
                | true ↦ λ e.
                    let (kept, found, within, settled) =
                      reconcile_reusable_workspaces-Settled n activities before o.0
                        (ground (arith, passed.smaller refl e, enough)) in
                    (kept, found, (λ j k. passed.within j (within j k)), settled)
                | false ↦ λ e.
                    let same : o.0 ≡ reusable = passed.same e in
                    (
                      o.0,
                      refl,
                      passed.within,
                      subst (Settled before activities) (sym same)
                          (drop_for_each-Settled before activities reusable e),
                    )
              ]
        refl
