-- ===== src/Workspace/Listing.antt =====
-- The order in which ListWorkspaceLeases lists leases changes nothing about which they are.
use akoflow.Prelude.{
  String, Bool, true, false, List, [], ◌∷◌, ◌≡◌, refl, ◌∙◌, arith, ◌==◌, string_eq, nat_eq, str_iff,
  ◌||◌, if◌then◌else◌, All,
}
use akoflow.Workspace.{WorkspaceLease, listed_before, insert_lease, order_leases}
use akoflow.Workspace.Lifecycle.{is_leased}

module _ {ℓ} (P : WorkspaceLease → Type ℓ) where
  All-insert_lease :
      (l : WorkspaceLease) (ks : List WorkspaceLease) → P l → All P ks → All P (insert_lease l ks)
  unfolding insert_lease
  All-insert_lease l [] p h = (p, tt)
  All-insert_lease l (k ∷ ks) p h =
      elim (listed_before k l) as (λ b. All P (if b then k ∷ insert_lease l ks else l ∷ k ∷ ks)) [
        | true ↦ (h.0, All-insert_lease l ks p h.1)
        | false ↦ (p, h)
      ]

  pub All-order_leases : (ls : List WorkspaceLease) → All P ls → All P (order_leases ls)
  unfolding order_leases
  All-order_leases [] h = tt
  All-order_leases (l ∷ ls) h = All-insert_lease l (order_leases ls) h.0 (All-order_leases ls h.1)

is_leased-insert_lease :
    (id : String) (l : WorkspaceLease) (ks : List WorkspaceLease)
    → is_leased id (insert_lease l ks) ≡ is_leased id (l ∷ ks)
unfolding insert_lease is_leased
is_leased-insert_lease id l [] = refl
is_leased-insert_lease id l (k ∷ ks) = ground (arith, is_leased-insert_lease id l ks)

pub is_leased-order_leases :
    (id : String) (ls : List WorkspaceLease) → is_leased id (order_leases ls) ≡ is_leased id ls
unfolding order_leases is_leased
is_leased-order_leases id [] = refl
is_leased-order_leases id (l ∷ ls) =
    is_leased-insert_lease id l (order_leases ls) ∙ ground (arith, is_leased-order_leases id ls)

-- No id stands twice in the lease table.
abbrev pub OneLease : List WorkspaceLease → Type 0
OneLease [] = Unit
OneLease (l ∷ ls) = All (λ k. (l.id == k.id) ≡ false) ls × OneLease ls

insert_lease-OneLease :
    (l : WorkspaceLease) (ks : List WorkspaceLease)
    → All (λ k. (l.id == k.id) ≡ false) ks
    → OneLease ks
    → OneLease (insert_lease l ks)
unfolding insert_lease
insert_lease-OneLease l [] h d = (tt, tt)
insert_lease-OneLease l (k ∷ ks) h d =
    elim (listed_before k l) as (λ b. OneLease (if b then k ∷ insert_lease l ks else l ∷ k ∷ ks)) [
      | true ↦ (
        All-insert_lease (λ x. (k.id == x.id) ≡ false) l ks
            (ground (arith, h.0, str_iff k.id l.id, str_iff l.id k.id)) d.0,
        insert_lease-OneLease l ks h.1 d.1,
      )
      | false ↦ (h, d)
    ]

pub order_leases-OneLease : (ls : List WorkspaceLease) → OneLease ls → OneLease (order_leases ls)
unfolding order_leases
order_leases-OneLease [] d = tt
order_leases-OneLease (l ∷ ls) d =
    insert_lease-OneLease l (order_leases ls)
      (All-order_leases (λ k. (l.id == k.id) ≡ false) ls d.0) (order_leases-OneLease ls d.1)

abbrev pub has_lease : String → List WorkspaceLease → Bool
has_lease id [] = false
has_lease id (l ∷ ls) = l.id == id || has_lease id ls

has_lease-insert_lease :
    (id : String) (l : WorkspaceLease) (ks : List WorkspaceLease)
    → has_lease id (insert_lease l ks) ≡ has_lease id (l ∷ ks)
unfolding insert_lease
has_lease-insert_lease id l [] = refl
has_lease-insert_lease id l (k ∷ ks) = ground (arith, has_lease-insert_lease id l ks)

pub has_lease-order_leases :
    (id : String) (ls : List WorkspaceLease) → has_lease id (order_leases ls) ≡ has_lease id ls
unfolding order_leases
has_lease-order_leases id [] = refl
has_lease-order_leases id (l ∷ ls) =
    has_lease-insert_lease id l (order_leases ls) ∙ ground (arith, has_lease-order_leases id ls)
