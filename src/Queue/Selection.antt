-- ===== src/Queue/Selection.antt =====
-- The choice of candidates: how many, never two in one environment, and none passed over without a
-- reason.
use mathlib.Core.List.{Memᴰ}
use mathlib.Core.Path.{subst}
use akoflow.Prelude.{
  ℕ, zero, suc, ◌≤◌, String, true, false, List, [], ◌∷◌, ◌++◌, Option, All, ◌≡◌, refl, ◌⊎◌, inl,
  inr, arith, sym, ap, eq-cases, contains, contains-append, string_eq, length, Bool-cases,
}
use akoflow.Queue.Admission.{
  AdmissionPayload, Candidate, candidate_keys, environment_conflict, select,
}

abbrev pub Disjoint : List String → List String → Type 0
Disjoint xs ys = (k : String) → contains xs k ≡ true → contains ys k ≡ false

pub Disjoint-sym : (xs ys : List String) → Disjoint xs ys → Disjoint ys xs
Disjoint-sym xs ys d k h = elim (Bool-cases (contains xs k)) [
  | inl e ↦ ground (arith, d k e)
  | inr e ↦ e
]

-- A relation between each element and every later one.
abbrev pub AllPairs {ℓ κ} : {A : Type ℓ} → (A → A → Type κ) → List A → Type κ
AllPairs R [] = Unit
AllPairs R (x ∷ xs) = All (R x) xs × AllPairs R xs

All-always {ℓ κ} : {A : Type ℓ} (P : A → Type κ) → ((a : A) → P a) → (xs : List A) → All P xs
All-always P f [] = tt
All-always P f (x ∷ xs) = (f x, All-always P f xs)

pub All-map {ℓ κ} :
    {A : Type ℓ} (P Q : A → Type κ) → ((a : A) → P a → Q a) → (xs : List A) → All P xs → All Q xs
All-map P Q f [] h = h
All-map P Q f (x ∷ xs) h = (f x h.0, All-map P Q f xs h.1)

conflict_clear :
    (occupied ks : List String) → environment_conflict occupied ks ≡ false → Disjoint ks occupied
unfolding environment_conflict
conflict_clear occupied [] h k m = cc
conflict_clear occupied (x ∷ ks) h k m = elim (eq-cases k x) [
  | inl e ↦ ground (arith, ap (contains occupied) e)
  | inr e ↦ conflict_clear occupied ks (ground arith) k (rw e at m)
]

conflict_mono :
    (xs ys ks : List String)
    → ((k : String) → contains xs k ≡ true → contains ys k ≡ true)
    → environment_conflict xs ks ≡ true
    → environment_conflict ys ks ≡ true
unfolding environment_conflict
conflict_mono xs ys [] sub h = h
conflict_mono xs ys (k ∷ ks) sub h = ground (arith, sub k, conflict_mono xs ys ks sub)

contains_right :
    (xs ys : List String) (k : String) → contains ys k ≡ true → contains (xs ++ ys) k ≡ true
contains_right xs ys k h = ground (arith, contains-append xs ys k)

contains_regroup :
    (xs ys zs : List String) (k : String)
    → contains (ys ++ (xs ++ zs)) k ≡ true
    → contains ((xs ++ ys) ++ zs) k ≡ true
contains_regroup xs ys zs k h = ground (
  arith,
  contains-append ys (xs ++ zs) k,
  contains-append xs zs k,
  contains-append (xs ++ ys) zs k,
  contains-append xs ys k,
)

module _ (decode : List ℕ → Option AdmissionPayload) (owners : List (String × String)) where
  abbrev pub keys : Candidate → List String
  keys c = candidate_keys decode owners c

  abbrev pub Apart : Candidate → Candidate → Type 0
  Apart c d = Disjoint (keys c) (keys d)

  pub select-All {κ} :
      (P : Candidate → Type κ) (cs : List Candidate) (occupied : List String) (room : ℕ)
      → All P cs
      → All P (select decode cs occupied owners room)
  unfolding select
  select-All P [] occupied room h = tt
  select-All P (c ∷ cs) occupied zero h = tt
  select-All P (c ∷ cs) occupied (suc room) h =
      elim (Bool-cases (environment_conflict occupied (keys c))) [
        | inl e ↦ rw e (select-All P cs occupied (suc room) h.1)
        | inr e ↦ rw e (h.0, select-All P cs (keys c ++ occupied) room h.1)
      ]

  pub select_clear :
      (cs : List Candidate) (occupied : List String) (room : ℕ)
      → All (λ c. Disjoint (keys c) occupied) (select decode cs occupied owners room)
  unfolding select
  select_clear [] occupied room = tt
  select_clear (c ∷ cs) occupied zero = tt
  select_clear (c ∷ cs) occupied (suc room) =
      elim (Bool-cases (environment_conflict occupied (keys c))) [
        | inl e ↦ rw e (select_clear cs occupied (suc room))
        | inr e ↦ rw e (
          conflict_clear occupied (keys c) e,
          All-map (λ d. Disjoint (keys d) (keys c ++ occupied)) (λ d. Disjoint (keys d) occupied)
              (λ d f k m. ground (arith, f k m, contains-append (keys c) occupied k)) _
              (select_clear cs (keys c ++ occupied) room),
        )
      ]

  pub select-Apart :
      (cs : List Candidate) (occupied : List String) (room : ℕ)
      → AllPairs Apart (select decode cs occupied owners room)
  unfolding select
  select-Apart [] occupied room = tt
  select-Apart (c ∷ cs) occupied zero = tt
  select-Apart (c ∷ cs) occupied (suc room) =
      elim (Bool-cases (environment_conflict occupied (keys c))) [
        | inl e ↦ rw e (select-Apart cs occupied (suc room))
        | inr e ↦ rw e (
          All-map (λ d. Disjoint (keys d) (keys c ++ occupied)) (Apart c)
              (λ d f.
                Disjoint-sym (keys d) (keys c)
                  (λ k m. ground (arith, f k m, contains-append (keys c) occupied k)))
              _ (select_clear cs (keys c ++ occupied) room),
          select-Apart cs (keys c ++ occupied) room,
        )
      ]

  pub length-select-le :
      (cs : List Candidate) (occupied : List String) (room : ℕ)
      → length (select decode cs occupied owners room) ≤ room
  unfolding select
  length-select-le [] occupied room = omega arith
  length-select-le (c ∷ cs) occupied zero = omega arith
  length-select-le (c ∷ cs) occupied (suc room) = ground (
    arith,
    length-select-le cs occupied (suc room),
    length-select-le cs (keys c ++ occupied) room,
  )

  -- The environments of a list of candidates.
  abbrev pub all_keys : List Candidate → List String
  all_keys [] = []
  all_keys (c ∷ cs) = keys c ++ all_keys cs

  -- Why a candidate may be left: the limit is reached, or one of its environments is taken.
  abbrev pub Settled : List Candidate → List String → ℕ → Candidate → Type 0
  Settled chosen occupied room c =
      Memᴰ c chosen
      ⊎ ((length chosen ≡ room)
          ⊎ (environment_conflict (all_keys chosen ++ occupied) (keys c) ≡ true))

  select-skip :
      (c : Candidate) (cs : List Candidate) (occupied : List String) (room : ℕ)
      → environment_conflict occupied (keys c) ≡ true
      → select decode (c ∷ cs) occupied owners (suc room)
        ≡ select decode cs occupied owners (suc room)
  unfolding select
  select-skip c cs occupied room e = rw e

  select-take :
      (c : Candidate) (cs : List Candidate) (occupied : List String) (room : ℕ)
      → environment_conflict occupied (keys c) ≡ false
      → select decode (c ∷ cs) occupied owners (suc room)
        ≡ c ∷ select decode cs (keys c ++ occupied) owners room
  unfolding select
  select-take c cs occupied room e = rw e

  settle :
      (c d : Candidate) (rest : List Candidate) (occupied : List String) (room : ℕ)
      → Settled rest (keys c ++ occupied) room d
      → Settled (c ∷ rest) occupied (suc room) d
  settle c d rest occupied room (inl m) = inl (Memᴰ.tail m)
  settle c d rest occupied room (inr (inl e)) = inr (inl (ap suc e))
  settle c d rest occupied room (inr (inr e)) = inr (
      inr
        (conflict_mono _ _ (keys d) (λ k. contains_regroup (keys c) (all_keys rest) occupied k) e))

  -- Every candidate is chosen, or the limit is reached, or one of its environments is taken, by a
  -- running execution or a chosen one.
  pub select-Settled :
      (cs : List Candidate) (occupied : List String) (room : ℕ)
      → All (Settled (select decode cs occupied owners room) occupied room) cs
  select-Settled [] occupied room = tt
  select-Settled (c ∷ cs) occupied zero =
      All-always (Settled (select decode (c ∷ cs) occupied owners 0) occupied 0)
        (λ d. inr (inl (unfold select in refl))) (c ∷ cs)
  select-Settled (c ∷ cs) occupied (suc room) =
      elim (Bool-cases (environment_conflict occupied (keys c))) [
        | inl e ↦
            subst (λ x. All (Settled x occupied (suc room)) (c ∷ cs))
              (sym (select-skip c cs occupied room e))
              (
                inr (inr (conflict_mono occupied _ (keys c) (λ k. contains_right _ occupied k) e)),
                select-Settled cs occupied (suc room),
              )
        | inr e ↦
            subst (λ x. All (Settled x occupied (suc room)) (c ∷ cs))
              (sym (select-take c cs occupied room e))
              (
                inl (Memᴰ.head refl),
                All-map _ _
                    (λ d.
                      settle c d (select decode cs (keys c ++ occupied) owners room) occupied room)
                    cs (select-Settled cs (keys c ++ occupied) room),
              )
      ]

  -- The whole of the choice: no more than the limit, none in an occupied environment, no two in one
  -- environment, and every candidate is chosen unless the limit is reached or one of its
  -- environments is taken.
  pub select_admits :
      (cs : List Candidate) (occupied : List String) (limit : ℕ)
      → let chosen = select decode cs occupied owners limit in
        (length chosen ≤ limit)
        × All (λ c. Disjoint (keys c) occupied) chosen
        × AllPairs Apart chosen
        × All (Settled chosen occupied limit) cs
  select_admits cs occupied limit = (
    length-select-le cs occupied limit,
    select_clear cs occupied limit,
    select-Apart cs occupied limit,
    select-Settled cs occupied limit,
  )
