-- ===== src/Supervision/Capacity.antt =====
-- A proof about the admission to a resource of restricted capacity.
use akoflow.Prelude.{
  ℕ, ◌+◌, ◌≤◌, String, true, false, List, [], ◌∷◌, ◌≡◌, ap, ◌∙◌, sym, inl, inr, arith, keep, length,
  ◌==◌, string_eq, str_iff, eq-cases, Bool-cases, Float,
}
use akoflow.Supervision.{Assignment, Resource}
use akoflow.Supervision.Admission.{
  scheduling_cpu_cores, is_restricted, is_full, resource_named, assignment_of, admit, lanes_of,
}

module _ {ℓ} {F : Type ℓ} (float : Float F) (m : List (String × Assignment F))
    (rs : List (String × Resource F)) where
  -- The activities of the list that the plan puts on the resource.
  unfoldable pub admitted_on : String → List String → ℕ
  admitted_on r ids = length (keep (λ id. (assignment_of float m id).placed.resource_id == r) ids)

  -- If a resource is restricted and holds no more lanes than its cores, then the lanes with the
  -- activities that are admitted to it are no more either.
  pub admit-bounded :
      (r : String) (held ids : List String)
      → is_restricted float (resource_named float rs r) ≡ true
      → lanes_of r held ≤ scheduling_cpu_cores float (resource_named float rs r)
      → lanes_of r held + admitted_on r (admit float m rs held ids)
        ≤ scheduling_cpu_cores float (resource_named float rs r)
  unfolding admitted_on admit is_full
  admit-bounded r held [] restricted fits = ground arith
  admit-bounded r held (id ∷ ids) restricted fits =
      let q = (assignment_of float m id).placed.resource_id in
      elim (eq-cases q r) [
        | inl e ↦
            let here : is_restricted float (resource_named float rs q) ≡ true =
              ap (λ x. is_restricted float (resource_named float rs x)) e ∙ restricted in
            elim (Bool-cases (is_full float rs held q)) [
              | inl f ↦ rw (f, here) (admit-bounded r held ids restricted fits)
              | inr f ↦
                  let room : is_full float rs held r ≡ false =
                    ap (is_full float rs held) (sym e) ∙ f in
                  rw (f, here)
                    (ground (
                      arith,
                      e,
                      str_iff q r,
                      room,
                      restricted,
                      admit-bounded r (q ∷ held) ids restricted,
                    ))
            ]
        | inr e ↦ ground (
          arith,
          e,
          admit-bounded r held ids restricted fits,
          admit-bounded r (q ∷ held) ids restricted,
        )
      ]
