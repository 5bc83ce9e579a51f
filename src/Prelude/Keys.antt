-- ===== src/Prelude/Keys.antt =====
-- Equality tests on keys, and Go's maps as association lists and sets as lists of keys.
use Prim.Native.Nat.{ℕ, compare, Ordering}
use Prim.Native.String.{String}
use mathlib.Core.Path.{◌≡◌, refl}
use mathlib.Core.Logic.{◌↔◌, ◌⊎◌, inl, inr}
use mathlib.Core.Bool.{Bool, true, false, ◌||◌}
use mathlib.Core.Option.{Option, none, some}
use mathlib.Core.List.{List, [], ◌∷◌, ◌++◌}
use native.Mathlib.Omega.{arith}
use text.Mathlib.Text.{◌==◌ as str_eq}
use text.Mathlib.TextEquality.{eq_iff}
use akoflow.Prelude.Tests.{if◌then◌else◌, Bool-cases}

abbrev nat_beq : ℕ → ℕ → Bool
nat_beq a b = elim (compare a b) [ Ordering.eq ↦ true | _ ↦ false ]

pub nat_beq_iff : (a b : ℕ) → (nat_beq a b ≡ true) ↔ (a ≡ b)
nat_beq_iff a b = ground arith

pub str_iff : (s t : String) → (str_eq s t ≡ true) ↔ (s ≡ t)
str_iff = eq_iff

-- Keys: a type with a test of equality.
pub record Key {κ} (K : Type κ) : Type κ where
  pub same : K → K → Bool
  pub same_iff : (j k : K) → (same j k ≡ true) ↔ (j ≡ k)

instance abbrev pub string_eq : Key String
string_eq = record { same = str_eq; same_iff = str_iff }

instance abbrev pub nat_eq : Key ℕ
nat_eq = record { same = nat_beq; same_iff = nat_beq_iff }

infix 50 ◌==◌
abbrev pub ◌==◌ {κ} : {K : Type κ} ⦃key : Key K⦄ → K → K → Bool
◌==◌ ⦃key⦄ j k = key.same j k

module _ {ℓ} {A : Type ℓ} ⦃key : Key A⦄ where
  pub beq_refl : (a : A) → (a == a) ≡ true
  beq_refl a = (key.same_iff a a).1 refl

  pub eq-cases : (a b : A) → (a ≡ b) ⊎ ((a == b) ≡ false)
  eq-cases a b = elim (Bool-cases (a == b)) [ inl h ↦ inl ((key.same_iff a b).0 h) | inr h ↦ inr h ]

  -- A set of keys as the list of its members.
  abbrev pub contains : List A → A → Bool
  contains [] a = false
  contains (x ∷ xs) a = a == x || contains xs a

  -- Reading a map: the entry that stands first.
  abbrev pub lookup {κ} : {V : Type κ} → A → List (A × V) → Option V
  lookup k [] = none
  lookup k ((j, v) ∷ m) = if k == j then some v else lookup k m

  pub contains-append :
      (xs ys : List A) (a : A) → contains (xs ++ ys) a ≡ (contains xs a || contains ys a)
  contains-append [] ys a = refl
  contains-append (x ∷ xs) ys a = elim (Bool-cases (a == x)) [
    | inl h ↦ rw h
    | inr h ↦ rw h (contains-append xs ys a)
  ]
