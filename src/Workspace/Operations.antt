-- ===== src/Workspace/Operations.antt =====
-- Reconciling, sealing and releasing leases keep the grounds of every release.
use akoflow.Prelude.{
  ℕ, String, Bool, true, false, not, List, [], ◌∷◌, Option, none, some, ◌≡◌, refl, ◌∙◌, ap, arith,
  string_eq, nat_eq, ◌||◌, if◌then◌else◌, Result, ok, err,
}
use akoflow.Workspace.{
  ActivityWorkspace, WorkspaceLease, WorkspaceUsage, WorkspaceReleaseResult, sealed, Manager,
  Spaces, find_workspace, save_workspace, save_lease, list_leases,
}
use akoflow.Workspace.Manifest.{ArtifactManifest, apply_artifact_manifest}
use akoflow.Workspace.Lifecycle.{
  is_leased, is_sealed, prune_final_workspace, pruned_workspace, reconcile_found,
  reconcile_workspace, sealed_workspace, measure, seal_workspace, release_lease, released_lease,
  release_leases, workspace_id,
}
use akoflow.Workspace.Tables.{find_workspace-id}
use akoflow.Workspace.Release.{
  Same, Guarded, Guarded-refl, Guarded-trans, save-Guarded, save_lease-Guarded,
  release_workspace-Guarded,
}

pub refound :
    (id : String) (ws : List ActivityWorkspace) (w : ActivityWorkspace)
    → find_workspace id ws ≡ some w
    → find_workspace w.id ws ≡ some w
refound id ws w e = ap (λ k. find_workspace k ws) (find_workspace-id id ws w e) ∙ e

pruned_workspace-Same :
    (r : WorkspaceReleaseResult) (u : Result String WorkspaceUsage) (w : ActivityWorkspace)
    → Same w (pruned_workspace r u w)
unfolding pruned_workspace
pruned_workspace-Same r (err message) w = record {
  id = refl;
  run = refl;
  activity = refl;
  created = refl;
  pin = refl;
  finality = refl;
}
pruned_workspace-Same r (ok usage) w = record {
  id = refl;
  run = refl;
  activity = refl;
  created = refl;
  pin = refl;
  finality = refl;
}

after_prune :
    (m : Manager) (w : ActivityWorkspace) (s : Spaces) (r : Result String WorkspaceReleaseResult)
    → find_workspace w.id s.workspaces ≡ some w
    → Guarded s (elim r [
      | err message ↦ save_workspace s (record w { last_error = message })
      | ok r ↦ save_workspace s (pruned_workspace r (m.inspect w) w)
    ])
after_prune m w s (err message) found =
    save-Guarded s w (record w { last_error = message }) found
      (record {
        id = refl;
        run = refl;
        activity = refl;
        created = refl;
        pin = refl;
        finality = refl;
      })
after_prune m w s (ok r) found =
    save-Guarded s w (pruned_workspace r (m.inspect w) w) found
      (pruned_workspace-Same r (m.inspect w) w)

pub Guarded-if :
    (b : Bool) (s t u : Spaces)
    → (b ≡ true → Guarded s t)
    → (b ≡ false → Guarded s u)
    → Guarded s (if b then t else u)
Guarded-if true s t u x y = x refl
Guarded-if false s t u x y = y refl

prune_final_workspace-Guarded :
    (m : Option Manager) (w : ActivityWorkspace) (s : Spaces)
    → find_workspace w.id s.workspaces ≡ some w
    → Guarded s (prune_final_workspace m w s)
unfolding prune_final_workspace
prune_final_workspace-Guarded none w s found = Guarded-refl s
prune_final_workspace-Guarded (some m) w s found =
    Guarded-if _ s _ _ (λ h. Guarded-refl s) (λ h. after_prune m w s (m.prune_inputs w) found)

Guarded-if_pair :
    (b : Bool) (s : Spaces) (t u : Spaces × Option String)
    → (b ≡ true → Guarded s t.0)
    → (b ≡ false → Guarded s u.0)
    → Guarded s (if b then t else u).0
Guarded-if_pair true s t u x y = x refl
Guarded-if_pair false s t u x y = y refl

reconcile_found-Guarded :
    (m : Option Manager) (at : ℕ) (w : ActivityWorkspace) (s : Spaces)
    → find_workspace w.id s.workspaces ≡ some w
    → Guarded s (reconcile_found m at w s).0
unfolding reconcile_found
reconcile_found-Guarded m at w s found =
    Guarded-if_pair (not (is_sealed w.state) || w.pinned) s _ _ (λ h. Guarded-refl s)
      (λ h'.
        Guarded-if_pair w.is_final s _ _ (λ h. prune_final_workspace-Guarded m w s found)
          (λ inner.
            Guarded-if_pair (is_leased w.id (list_leases s w.run_id)) s _ _ (λ h. Guarded-refl s)
              (λ free.
                release_workspace-Guarded m at w s found (w, found, ground arith, inner, free))))

pub Guarded-some {ℓ} :
    {A : Type ℓ} (o : Option A) (s : Spaces) (f : A → Spaces × Option String)
    → ((a : A) → o ≡ some a → Guarded s (f a).0)
    → (let r : Spaces × Option String = elim o [ none ↦ (s, none) | some a ↦ f a ] in Guarded s r.0)
Guarded-some none s f x = Guarded-refl s
Guarded-some (some a) s f x = x a refl

pub reconcile_workspace-Guarded :
    (m : Option Manager) (at : ℕ) (id : String) (s : Spaces)
    → Guarded s (reconcile_workspace m at id s).0
unfolding reconcile_workspace
reconcile_workspace-Guarded m at id s =
    Guarded-some (find_workspace id s.workspaces) s (λ w. reconcile_found m at w s)
      (λ w e. reconcile_found-Guarded m at w s (refound id s.workspaces w e))

release_lease-Guarded :
    (m : Option Manager) (at : ℕ) (consumer_id : String) (l : WorkspaceLease) (s : Spaces)
    → Guarded s (release_lease m at consumer_id l s).0
unfolding release_lease
release_lease-Guarded m at consumer_id l s =
    Guarded-if_pair _ s _ _
      (λ h.
        Guarded-trans (save_lease-Guarded s (released_lease at l) refl)
          (reconcile_workspace-Guarded m at l.workspace_id (save_lease s (released_lease at l))))
      (λ h. Guarded-refl s)

pub Guarded-next :
    (s : Spaces) (next : Spaces × Option String) (f : Spaces → Spaces × Option String)
    → Guarded s next.0
    → Guarded next.0 (f next.0).0
    → (let r : Spaces × Option String = elim next.1 [
      | none ↦ f next.0
      | some message ↦ (next.0, some message)
    ] in
        Guarded s r.0)
Guarded-next s (t, none) f x y = Guarded-trans x y
Guarded-next s (t, some message) f x y = x

pub release_leases-Guarded :
    (m : Option Manager) (at : ℕ) (consumer_id : String) (ls : List WorkspaceLease) (s : Spaces)
    → Guarded s (release_leases m at consumer_id ls s).0
unfolding release_leases
release_leases-Guarded m at consumer_id [] s = Guarded-refl s
release_leases-Guarded m at consumer_id (l ∷ ls) s =
    Guarded-next s (release_lease m at consumer_id l s) (release_leases m at consumer_id ls)
      (release_lease-Guarded m at consumer_id l s)
      (release_leases-Guarded m at consumer_id ls (release_lease m at consumer_id l s).0)

measure-Same : (m : Option Manager) (v w : ActivityWorkspace) → Same v w → Same v (measure m w)
unfolding measure
measure-Same none v w x = x
measure-Same (some m) v w x =
    elim (m.inspect w)
      as (λ r. Same v (elim r [
        | err message ↦ record w { last_error = message }
        | ok usage ↦ record w { file_count = usage.file_count; size_bytes = usage.size_bytes }
      ])) [
        | err message ↦ record {
          id = x.id;
          run = x.run;
          activity = x.activity;
          created = x.created;
          pin = x.pin;
          finality = x.finality;
        }
        | ok usage ↦ record {
          id = x.id;
          run = x.run;
          activity = x.activity;
          created = x.created;
          pin = x.pin;
          finality = x.finality;
        }
      ]

sealed_workspace-Same :
    (m : Option Manager) (at : ℕ) (a : Option ArtifactManifest) (w : ActivityWorkspace)
    → Same w (sealed_workspace m at a w)
unfolding sealed_workspace apply_artifact_manifest
sealed_workspace-Same m at none w =
    measure-Same m w (record w { state = sealed; sealed_at = some at })
      (record {
        id = refl;
        run = refl;
        activity = refl;
        created = refl;
        pin = refl;
        finality = refl;
      })
sealed_workspace-Same m at (some a) w =
    let x =
      measure-Same m w (record w { state = sealed; sealed_at = some at })
        (record {
          id = refl;
          run = refl;
          activity = refl;
          created = refl;
          pin = refl;
          finality = refl;
        }) in
    record {
      id = x.id;
      run = x.run;
      activity = x.activity;
      created = x.created;
      pin = x.pin;
      finality = x.finality;
    }

pub seal_workspace-Guarded :
    (m : Option Manager) (at : ℕ) (run_id activity_id : String) (a : Option ArtifactManifest)
    (s : Spaces)
    → Guarded s (seal_workspace m at run_id activity_id a s).0
unfolding seal_workspace
seal_workspace-Guarded m at run_id activity_id a s =
    Guarded-some (find_workspace (workspace_id run_id activity_id) s.workspaces) s _ (λ w e.
      Guarded-trans
        (save-Guarded s w (sealed_workspace m at a w)
          (refound (workspace_id run_id activity_id) s.workspaces w e)
          (sealed_workspace-Same m at a w))
        (reconcile_workspace-Guarded m at w.id (save_workspace s (sealed_workspace m at a w))))
