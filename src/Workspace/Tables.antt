-- ===== src/Workspace/Tables.antt =====
-- Reading the workspace and lease tables after a save.
use akoflow.Prelude.{
  String, true, false, List, [], ◌∷◌, Option, none, some, ◌≡◌, refl, inl, inr, arith, ◌==◌,
  string_eq, nat_eq, str_iff, if◌then◌else◌, Bool-cases, keep,
}
use akoflow.Workspace.{
  ActivityWorkspace, WorkspaceLease, find_workspace, put_workspace, put_lease, updated_workspace,
}
use akoflow.Workspace.Lifecycle.{is_leased}

-- The row that saving `w` leaves, over the one that was there.
abbrev pub saved_over : Option ActivityWorkspace → ActivityWorkspace → ActivityWorkspace
saved_over none w = w
saved_over (some v) w = updated_workspace v w

pub find-put :
    (id : String) (w : ActivityWorkspace) (ws : List ActivityWorkspace)
    → find_workspace id (put_workspace w ws)
      ≡ (if w.id == id then some (saved_over (find_workspace id ws) w) else find_workspace id ws)
unfolding find_workspace put_workspace
find-put id w [] = refl
find-put id w (v ∷ vs) =
    ground (arith, find-put id w vs, str_iff v.id w.id, str_iff v.id id, str_iff w.id id)

pub find_workspace-id :
    (id : String) (ws : List ActivityWorkspace) (w : ActivityWorkspace)
    → find_workspace id ws ≡ some w
    → w.id ≡ id
unfolding find_workspace
find_workspace-id id [] w e = cc
find_workspace-id id (v ∷ vs) w e = ground (arith, find_workspace-id id vs w, str_iff v.id id)

-- No id stands twice.
abbrev pub OneEach : List ActivityWorkspace → Type 0
OneEach [] = Unit
OneEach (w ∷ ws) = (find_workspace w.id ws ≡ none) × OneEach ws

pub put-OneEach :
    (w : ActivityWorkspace) (ws : List ActivityWorkspace)
    → OneEach ws
    → OneEach (put_workspace w ws)
unfolding find_workspace put_workspace
put-OneEach w [] h = (refl, tt)
put-OneEach w (v ∷ vs) h = elim (Bool-cases (v.id == w.id)) [
  | inl e ↦ rw e (ground (arith, str_iff v.id w.id), h.1)
  | inr e ↦ rw e (
    ground (arith, find-put v.id w vs, str_iff v.id w.id, str_iff w.id v.id),
    put-OneEach w vs h.1,
  )
]

-- Saving a released lease puts no workspace under a lease.
pub is_leased-put :
    (id run_id : String) (l : WorkspaceLease) (ls : List WorkspaceLease)
    → l.is_released ≡ true
    → is_leased id (keep (λ k. k.run_id == run_id) ls) ≡ false
    → is_leased id (keep (λ k. k.run_id == run_id) (put_lease l ls)) ≡ false
unfolding is_leased put_lease
is_leased-put id run_id l [] r h = ground arith
is_leased-put id run_id l (k ∷ ks) r h = ground (arith, is_leased-put id run_id l ks r)
