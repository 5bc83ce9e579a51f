-- ===== src/Workspace/Restart.antt =====
-- Activating and recovering workspaces keep the grounds of every release.
use akoflow.Prelude.{
  ℕ, String, not, List, [], ◌∷◌, Option, none, some, ◌≡◌, refl, sym, ap, ◌∙◌, arith, string_eq,
  nat_eq, ◌&&◌, All, Result, ok, err,
}
use akoflow.Workspace.{
  ActivityWorkspace, sealed, active, Manager, Spaces, find_workspace, save_workspace,
}
use akoflow.Workspace.Lifecycle.{reconcile_workspace, workspace_id, fail_with}
use akoflow.Workspace.Recovery.{
  SetInstance, RuntimeAllocation, bind_workspace_allocation, ensure_workspace, activate_workspace,
  recover_each, reseal, was_leaving,
}
use akoflow.Workspace.Release.{
  Same, Guarded, Guarded-refl, Guarded-trans, save-Guarded, found_after_save,
}
use akoflow.Workspace.Operations.{
  refound, Guarded-some, Guarded-next, Guarded-if, reconcile_workspace-Guarded,
}

bind_workspace_allocation-Same :
    (set_instance : SetInstance) (a : RuntimeAllocation) (w b : ActivityWorkspace)
    → bind_workspace_allocation set_instance a w ≡ ok b
    → Same w b
unfolding bind_workspace_allocation
bind_workspace_allocation-Same set_instance a w b e = record {
  id = ground arith;
  run = ground arith;
  activity = ground arith;
  created = ground arith;
  pin = ground arith;
  finality = ground arith;
}

ensure_workspace-Guarded :
    (m : Option Manager) (w : ActivityWorkspace) (s : Spaces)
    → find_workspace w.id s.workspaces ≡ some w
    → Guarded s (ensure_workspace m w s).0
unfolding ensure_workspace
ensure_workspace-Guarded none w s found =
    save-Guarded s w (record w { state = active }) found
      (record {
        id = refl;
        run = refl;
        activity = refl;
        created = refl;
        pin = refl;
        finality = refl;
      })
ensure_workspace-Guarded (some m) w s found =
    elim (m.ensure w)
      as (λ o. Guarded s (
        let r : Spaces × Option String = elim o [
          | none ↦ (save_workspace s (record w { state = active }), none)
          | some message ↦ (save_workspace s (fail_with message w), some message)
        ] in
        r.0)) [
          | none ↦
              save-Guarded s w (record w { state = active }) found
                (record {
                  id = refl;
                  run = refl;
                  activity = refl;
                  created = refl;
                  pin = refl;
                  finality = refl;
                })
          | some message ↦ save-Guarded s w (fail_with message w) found (record {
            id = refl;
            run = refl;
            activity = refl;
            created = refl;
            pin = refl;
            finality = refl;
          })
        ]

Guarded-ok {ℓ} :
    {A : Type ℓ} (o : Result String A) (s : Spaces) (f : A → Spaces × Option String)
    → ((a : A) → o ≡ ok a → Guarded s (f a).0)
    → (let r : Spaces × Option String = elim o [ err message ↦ (s, some message) | ok a ↦ f a ] in
        Guarded s r.0)
Guarded-ok (err message) s f x = Guarded-refl s
Guarded-ok (ok a) s f x = x a refl

pub activate_workspace-Guarded :
    (set_instance : SetInstance) (m : Option Manager) (run_id activity_id : String)
    (a : RuntimeAllocation) (s : Spaces)
    → Guarded s (activate_workspace set_instance m run_id activity_id a s).0
unfolding activate_workspace
activate_workspace-Guarded set_instance m run_id activity_id a s =
    Guarded-some (find_workspace (workspace_id run_id activity_id) s.workspaces) s _ (λ w e.
      Guarded-ok (bind_workspace_allocation set_instance a w) s _ (λ b h.
        let same = bind_workspace_allocation-Same set_instance a w b h in
        let found = refound (workspace_id run_id activity_id) s.workspaces w e in
        Guarded-trans (save-Guarded s w b found same) (
          ensure_workspace-Guarded m b (save_workspace s b) (
            ap (λ k. find_workspace k (save_workspace s b).workspaces) same.id
            ∙ found_after_save s w b found same))))

-- Rows that were listed earlier: the table still holds each under its id.
abbrev pub Listed : Spaces → List ActivityWorkspace → Type 0
Listed s =
    All (λ w. (v : ActivityWorkspace) × (find_workspace w.id s.workspaces ≡ some v) × Same v w)

Listed-later :
    (s t : Spaces) (ws : List ActivityWorkspace) → Guarded s t → Listed s ws → Listed t ws
Listed-later s t [] g h = h
Listed-later s t (w ∷ ws) g h =
    let (v, e, x) = h.0 in
    let (u, e', y) = g.fixed w.id v e in
    (
      (
        u,
        e',
        record {
          id = x.id ∙ sym y.id;
          run = x.run ∙ sym y.run;
          activity = x.activity ∙ sym y.activity;
          created = x.created ∙ sym y.created;
          pin = x.pin ∙ sym y.pin;
          finality = x.finality ∙ sym y.finality;
        },
      ),
      Listed-later s t ws g h.1,
    )

reseal-Guarded :
    (w : ActivityWorkspace) (s : Spaces) (v : ActivityWorkspace)
    → find_workspace w.id s.workspaces ≡ some v
    → Same v w
    → Guarded s (reseal w s)
unfolding reseal
reseal-Guarded w s v e x =
    Guarded-if (not w.is_final && was_leaving w.state) s _ _
      (λ h.
        save-Guarded s v (record w { state = sealed }) (refound w.id s.workspaces v e)
          (record {
            id = x.id;
            run = x.run;
            activity = x.activity;
            created = x.created;
            pin = x.pin;
            finality = x.finality;
          }))
      (λ h. Guarded-refl s)

pub recover_each-Guarded :
    (m : Option Manager) (at : ℕ) (ws : List ActivityWorkspace) (s : Spaces)
    → Listed s ws
    → Guarded s (recover_each m at ws s).0
unfolding recover_each
recover_each-Guarded m at [] s h = Guarded-refl s
recover_each-Guarded m at (w ∷ ws) s h =
    let next = reconcile_workspace m at w.id (reseal w s) in
    let (v, e, x) = h.0 in
    let g : Guarded s next.0 =
      Guarded-trans (reseal-Guarded w s v e x)
        (reconcile_workspace-Guarded m at w.id (reseal w s)) in
    Guarded-next s next (recover_each m at ws) g
      (recover_each-Guarded m at ws next.0 (Listed-later s next.0 ws g h.1))
