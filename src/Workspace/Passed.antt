-- ===== src/Workspace/Passed.antt =====
-- What one round of the loop of releaseProducerWorkspaceLeases, and all of them, make of a row of the
-- lease table.
use akoflow.Prelude.{
  ℕ, String, Bool, true, false, not, List, [], ◌∷◌, map, Option, none, some, ◌≡◌, refl, sym, ap,
  arith, ◌==◌, string_eq, nat_eq, str_iff, ◌&&◌, if◌then◌else◌, All, Bool-cases, inl, inr,
}
use akoflow.Workspace.{WorkspaceLease, put_lease}
use akoflow.Workspace.Lifecycle.{released_lease}
use akoflow.Workspace.Listing.{OneLease, has_lease}

abbrev find_lease : String → List WorkspaceLease → Option WorkspaceLease
find_lease id [] = none
find_lease id (l ∷ ls) = if l.id == id then some l else find_lease id ls

abbrev pub Row : List WorkspaceLease → WorkspaceLease → Type 0
Row table l = find_lease l.id table ≡ some l

Row-cons :
    (k : WorkspaceLease) (table ls : List WorkspaceLease)
    → All (λ l. (k.id == l.id) ≡ false) ls
    → All (Row table) ls
    → All (Row (k ∷ table)) ls
Row-cons k table [] h r = tt
Row-cons k table (l ∷ ls) h r = (ground (arith, h.0, r.0), Row-cons k table ls h.1 r.1)

pub OneLease-Row : (ls : List WorkspaceLease) → OneLease ls → All (Row ls) ls
OneLease-Row [] d = tt
OneLease-Row (l ∷ ls) d =
    (ground (arith, str_iff l.id l.id), Row-cons l ls ls d.0 (OneLease-Row ls d.1))

module _ (at : ℕ) (consumer_id : String) where
  abbrev pub is_due : WorkspaceLease → Bool
  is_due l = l.consumer_activity_id == consumer_id && not l.is_released

  -- What one round does to a row.
  abbrev pub passed : WorkspaceLease → WorkspaceLease → WorkspaceLease
  passed x l = if l.id == x.id && is_due l then released_lease at l else l

  abbrev pub all_passed : List WorkspaceLease → WorkspaceLease → WorkspaceLease
  all_passed [] l = l
  all_passed (x ∷ xs) l = all_passed xs (passed x l)

  pub all_passed_lem :
      (xs : List WorkspaceLease) (l : WorkspaceLease)
      → all_passed xs l ≡ (if has_lease l.id xs && is_due l then released_lease at l else l)
  all_passed_lem [] l = refl
  all_passed_lem (x ∷ xs) l = ground (
    arith,
    all_passed_lem xs l,
    all_passed_lem xs (released_lease at l),
    str_iff l.id x.id,
    str_iff x.id l.id,
  )

  pub map-nothing_passed : (ls : List WorkspaceLease) → map (all_passed []) ls ≡ ls
  map-nothing_passed [] = refl
  map-nothing_passed (l ∷ ls) = ap (λ ks. l ∷ ks) (map-nothing_passed ls)

  map-passed-other :
      (x : WorkspaceLease) (ls : List WorkspaceLease)
      → All (λ k. (x.id == k.id) ≡ false) ls
      → map (passed x) ls ≡ ls
  map-passed-other x [] h = refl
  map-passed-other x (l ∷ ls) h =
      ground (arith, h.0, map-passed-other x ls h.1, str_iff l.id x.id, str_iff x.id l.id)

  pub map-all_passed :
      (x : WorkspaceLease) (xs ls : List WorkspaceLease)
      → map (all_passed (x ∷ xs)) ls ≡ map (all_passed xs) (map (passed x) ls)
  map-all_passed x xs [] = refl
  map-all_passed x xs (l ∷ ls) = ap (λ ks. all_passed xs (passed x l) ∷ ks) (map-all_passed x xs ls)

  pub put_lease-passed :
      (x : WorkspaceLease) (ls : List WorkspaceLease)
      → OneLease ls
      → Row ls x
      → is_due x ≡ true
      → put_lease (released_lease at x) ls ≡ map (passed x) ls
  unfolding put_lease
  put_lease-passed x [] d r due = cc
  put_lease-passed x (l ∷ ls) d r due = elim (Bool-cases (l.id == x.id)) [
    | inl same ↦
        let here : l ≡ x = ground arith in
        let others = map-passed-other x ls (rw (sym here) d.0) in
        ground (arith, others, here, str_iff l.id x.id)
    | inr other ↦ ground (arith, put_lease-passed x ls d.1)
  ]

  pub map-passed-idle :
      (x : WorkspaceLease) (ls : List WorkspaceLease)
      → OneLease ls
      → Row ls x
      → is_due x ≡ false
      → map (passed x) ls ≡ ls
  map-passed-idle x [] d r due = refl
  map-passed-idle x (l ∷ ls) d r due = elim (Bool-cases (l.id == x.id)) [
    | inl same ↦
        let here : l ≡ x = ground arith in
        let others = map-passed-other x ls (rw (sym here) d.0) in
        ground (arith, others, here, str_iff l.id x.id)
    | inr other ↦ ground (arith, map-passed-idle x ls d.1)
  ]

  passed-unlike :
      (x l : WorkspaceLease) (ls : List WorkspaceLease)
      → All (λ k. (l.id == k.id) ≡ false) ls
      → All (λ k. ((passed x l).id == k.id) ≡ false) (map (passed x) ls)
  passed-unlike x l [] h = tt
  passed-unlike x l (k ∷ ks) h = (ground (arith, h.0), passed-unlike x l ks h.1)

  pub map-passed-OneLease :
      (x : WorkspaceLease) (ls : List WorkspaceLease) → OneLease ls → OneLease (map (passed x) ls)
  map-passed-OneLease x [] d = tt
  map-passed-OneLease x (l ∷ ls) d = (passed-unlike x l ls d.0, map-passed-OneLease x ls d.1)

  passed-Row :
      (x y : WorkspaceLease) (ls : List WorkspaceLease)
      → (x.id == y.id) ≡ false
      → Row ls y
      → Row (map (passed x) ls) y
  passed-Row x y [] h r = r
  passed-Row x y (l ∷ ls) h r =
      ground
        (arith, h, r, passed-Row x y ls, str_iff l.id x.id, str_iff x.id y.id, str_iff l.id y.id)

  pub passed-Rows :
      (x : WorkspaceLease) (table ls : List WorkspaceLease)
      → All (λ k. (x.id == k.id) ≡ false) ls
      → All (Row table) ls
      → All (Row (map (passed x) table)) ls
  passed-Rows x table [] h r = tt
  passed-Rows x table (l ∷ ls) h r = (passed-Row x l table h.0 r.0, passed-Rows x table ls h.1 r.1)
