-- ===== src/Workspace/Release.antt =====
-- When reconcileWorkspace may hand a workspace to the manager's Release, and that saving rows keeps
-- the grounds on which that happened.
use akoflow.Prelude.{
  ℕ, String, true, false, List, [], ◌∷◌, Option, none, some, ◌≡◌, refl, sym, ◌∙◌, ap, inl, inr,
  arith, ◌==◌, string_eq, nat_eq, str_iff, Bool-cases, keep, All, All-append, Result, ok, err,
}
use akoflow.Workspace.{
  ActivityWorkspace, WorkspaceLease, WorkspaceReleaseResult, releasing, Manager, Spaces,
  find_workspace, put_workspace, put_lease, updated_workspace, save_workspace, save_lease,
  list_leases,
}
use akoflow.Workspace.Lifecycle.{
  is_leased, after_release, to_releasable, log_release, release_workspace,
}
use akoflow.Workspace.Listing.{is_leased-order_leases}
use akoflow.Workspace.Tables.{find-put, OneEach, put-OneEach, is_leased-put}

-- What no operation changes in a workspace.
pub record Same (v w : ActivityWorkspace) : Type 0 where
  pub id : w.id ≡ v.id
  pub run : w.run_id ≡ v.run_id
  pub activity : w.activity_id ≡ v.activity_id
  pub created : w.created_at ≡ v.created_at
  pub pin : w.pinned ≡ v.pinned
  pub finality : w.is_final ≡ v.is_final

pub Same-refl : (v : ActivityWorkspace) → Same v v
Same-refl v = record {
  id = refl;
  run = refl;
  activity = refl;
  created = refl;
  pin = refl;
  finality = refl;
}

pub Same-trans : (u v w : ActivityWorkspace) → Same u v → Same v w → Same u w
Same-trans u v w x y = record {
  id = y.id ∙ x.id;
  run = y.run ∙ x.run;
  activity = y.activity ∙ x.activity;
  created = y.created ∙ x.created;
  pin = y.pin ∙ x.pin;
  finality = y.finality ∙ x.finality;
}

-- The workspace may be removed: it is neither pinned nor final, and no lease holds it.
abbrev pub MayRelease : Spaces → String → Type 0
MayRelease s id =
    (w : ActivityWorkspace) × (find_workspace id s.workspaces ≡ some w)
    × (w.pinned ≡ false)
    × (w.is_final ≡ false)
    × (is_leased id (list_leases s w.run_id) ≡ false)

pub record Guarded (s s' : Spaces) : Type 0 where
  pub fixed :
      (id : String) (v : ActivityWorkspace)
      → find_workspace id s.workspaces ≡ some v
      → (w : ActivityWorkspace) × (find_workspace id s'.workspaces ≡ some w) × Same v w
  pub freed :
      (id run_id : String)
      → is_leased id (list_leases s run_id) ≡ false
      → is_leased id (list_leases s' run_id) ≡ false
  pub single : OneEach s.workspaces → OneEach s'.workspaces
  pub calls : All (MayRelease s) s.release_calls → All (MayRelease s') s'.release_calls

pub carry :
    (s s' : Spaces)
    → ((id : String) (v : ActivityWorkspace)
        → find_workspace id s.workspaces ≡ some v
        → (w : ActivityWorkspace) × (find_workspace id s'.workspaces ≡ some w) × Same v w)
    → ((id run_id : String)
        → is_leased id (list_leases s run_id) ≡ false
        → is_leased id (list_leases s' run_id) ≡ false)
    → (id : String) → MayRelease s id
    → MayRelease s' id
carry s s' fixed freed id (v, found, pin, fin, free) =
    let (w, now, same) = fixed id v found in
    (w, now, same.pin ∙ pin, same.finality ∙ fin, rw same.run (freed id v.run_id free))

carry-All :
    (s s' : Spaces)
    → ((id : String) → MayRelease s id → MayRelease s' id)
    → (ids : List String) → All (MayRelease s) ids
    → All (MayRelease s') ids
carry-All s s' step [] h = h
carry-All s s' step (id ∷ ids) h = (step id h.0, carry-All s s' step ids h.1)

pub Guarded-refl : (s : Spaces) → Guarded s s
Guarded-refl s = record {
  fixed = λ id v e. (v, e, Same-refl v);
  freed = λ id run_id h. h;
  single = λ h. h;
  calls = λ h. h;
}

pub Guarded-trans : {s t u : Spaces} → Guarded s t → Guarded t u → Guarded s u
Guarded-trans a b = record {
  fixed = λ id v e.
      let (w, f, x) = a.fixed id v e in
      let (w', f', y) = b.fixed id w f in (w', f', Same-trans v w w' x y);
  freed = λ id run_id h. b.freed id run_id (a.freed id run_id h);
  single = λ h. b.single (a.single h);
  calls = λ h. b.calls (a.calls h);
}

-- So the row that saving leaves is the one that was saved.
updated-Same : (v w : ActivityWorkspace) → Same v w → updated_workspace v w ≡ w
updated-Same v w x =
    ap (λ r. record w { run_id = r; activity_id = v.activity_id; created_at = v.created_at })
      (sym x.run)
    ∙ ap (λ r. record w { activity_id = r; created_at = v.created_at }) (sym x.activity)
    ∙ ap (λ r. record w { created_at = r }) (sym x.created)

pub found_after_save :
    (s : Spaces) (v w : ActivityWorkspace)
    → find_workspace v.id s.workspaces ≡ some v
    → Same v w
    → find_workspace v.id (save_workspace s w).workspaces ≡ some w
unfolding save_workspace
found_after_save s v w found same =
    ground (arith, find-put v.id w s.workspaces, str_iff w.id v.id, same.id, updated-Same v w same)

put_fixed :
    (ws : List ActivityWorkspace) (u w : ActivityWorkspace)
    → find_workspace u.id ws ≡ some u
    → Same u w
    → (id : String) (v : ActivityWorkspace) → find_workspace id ws ≡ some v
    → (x : ActivityWorkspace) × (find_workspace id (put_workspace w ws) ≡ some x) × Same v x
put_fixed ws u w found same id v e = elim (Bool-cases (w.id == id)) [
  | inl h ↦ (
    w,
    (let here : u ≡ v = ground (arith, str_iff w.id id, same.id) in
        ground (arith, find-put id w ws, updated-Same u w same, here)),
    (let here : u ≡ v = ground (arith, str_iff w.id id, same.id) in rw (sym here) same),
  )
  | inr h ↦ (v, ground (arith, find-put id w ws), Same-refl v)
]

pub save-Guarded :
    (s : Spaces) (v w : ActivityWorkspace)
    → find_workspace v.id s.workspaces ≡ some v
    → Same v w
    → Guarded s (save_workspace s w)
unfolding save_workspace list_leases
save-Guarded s v w found same =
    let kept = put_fixed s.workspaces v w found same in
    record {
      fixed = kept;
      freed = λ id run_id h. h;
      single = put-OneEach w s.workspaces;
      calls =
          (let s' = save_workspace s w in
            carry-All s s' (carry s s' kept (λ id run_id h. h)) s.release_calls);
    }

pub save_lease-Guarded :
    (s : Spaces) (l : WorkspaceLease) → l.is_released ≡ true → Guarded s (save_lease s l)
unfolding save_lease list_leases
save_lease-Guarded s l r =
    let freed : (id run_id : String)
        → is_leased id (list_leases s run_id) ≡ false
        → is_leased id (list_leases (save_lease s l) run_id) ≡ false =
      λ id run_id h.
        is_leased-order_leases id (keep (λ k. k.run_id == run_id) (put_lease l s.leases))
        ∙ is_leased-put id run_id l s.leases r
            (sym (is_leased-order_leases id (keep (λ k. k.run_id == run_id) s.leases)) ∙ h) in
    let fixed : (id : String) (v : ActivityWorkspace)
        → find_workspace id s.workspaces ≡ some v
        → (w : ActivityWorkspace) × (find_workspace id (save_lease s l).workspaces ≡ some w)
          × Same v w =
      λ id v e. (v, e, Same-refl v) in
    let s' = save_lease s l in
    record {
      fixed = fixed;
      freed = freed;
      single = λ h. h;
      calls = carry-All s s' (carry s s' fixed freed) s.release_calls;
    }

log_release-Guarded : (s : Spaces) (id : String) → MayRelease s id → Guarded s (log_release id s)
unfolding list_leases
log_release-Guarded s id may = record {
  fixed = λ k v e. (v, e, Same-refl v);
  freed = λ k run_id h. h;
  single = λ h. h;
  calls = λ h. All-append (MayRelease (log_release id s)) s.release_calls (id ∷ []) h (may, tt);
}

after_release-Same :
    (at : ℕ) (r : Result String WorkspaceReleaseResult) (w : ActivityWorkspace)
    → Same w (after_release at r w).0
unfolding after_release
after_release-Same at (err message) w = record {
  id = refl;
  run = refl;
  activity = refl;
  created = refl;
  pin = refl;
  finality = refl;
}
after_release-Same at (ok r) w = record {
  id = refl;
  run = refl;
  activity = refl;
  created = refl;
  pin = refl;
  finality = refl;
}

pub release_workspace-Guarded :
    (m : Option Manager) (at : ℕ) (w : ActivityWorkspace) (s : Spaces)
    → find_workspace w.id s.workspaces ≡ some w
    → MayRelease s w.id
    → Guarded s (release_workspace m at w s).0
unfolding release_workspace
release_workspace-Guarded none at w s found may =
    save-Guarded s w (to_releasable w) found (record {
      id = refl;
      run = refl;
      activity = refl;
      created = refl;
      pin = refl;
      finality = refl;
    })
release_workspace-Guarded (some m) at w s found may =
    let offered : ActivityWorkspace = to_releasable w in
    let going : ActivityWorkspace = record offered { state = releasing } in
    let s1 : Spaces = save_workspace s offered in
    let s2 : Spaces = save_workspace s1 going in
    let s3 : Spaces = log_release w.id s2 in
    let done : ActivityWorkspace = (after_release at (m.release going) going).0 in
    let same_offered : Same w offered = record {
      id = refl;
      run = refl;
      activity = refl;
      created = refl;
      pin = refl;
      finality = refl;
    } in
    let same_going : Same offered going = record {
      id = refl;
      run = refl;
      activity = refl;
      created = refl;
      pin = refl;
      finality = refl;
    } in
    let first : find_workspace w.id s1.workspaces ≡ some offered =
      found_after_save s w offered found same_offered in
    let a : Guarded s s1 = save-Guarded s w offered found same_offered in
    let b : Guarded s1 s2 = save-Guarded s1 offered going first same_going in
    let ab : Guarded s s2 = Guarded-trans a b in
    let c : Guarded s2 s3 = log_release-Guarded s2 w.id (carry s s2 ab.fixed ab.freed w.id may) in
    let d : Guarded s3 (save_workspace s3 done) =
      save-Guarded s3 going done (found_after_save s1 offered going first same_going)
        (after_release-Same at (m.release going) going) in
    Guarded-trans (Guarded-trans ab c) d
