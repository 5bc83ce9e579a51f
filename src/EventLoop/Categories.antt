-- ===== src/EventLoop/Categories.antt =====
-- The two groups of categories that the loop drains apart.
use akoflow.Prelude.{
  String, Bool, true, false, List, [], ◌∷◌, ◌≡◌, refl, arith, contains, ◌==◌, string_eq, ◌&&◌, not,
  str_iff,
}
use akoflow.Queue.{
  Category, environment, orchestration, execution, monitoring, transfer, maintenance, planning,
  infrastructure, category_name,
}
use akoflow.EventLoop.{split_configured, split_categories, infrastructure_category}

split_configured_lem :
    (cs : List String) (c : String)
    → (contains (split_configured cs).0 c ≡ (contains cs c && c == infrastructure_category))
      × (contains (split_configured cs).1 c ≡ (contains cs c && not (c == infrastructure_category)))
unfolding split_configured
split_configured_lem [] c = (refl, refl)
split_configured_lem (d ∷ ds) c = ground (
  arith,
  split_configured_lem ds c,
  str_iff d "infrastructure",
  str_iff c "infrastructure",
  str_iff c d,
)

abbrev pub is_infrastructure : Category → Bool
is_infrastructure infrastructure = true
is_infrastructure _ = false

-- Without a configuration, every category of jobs is drained, in one group: with the infrastructure
-- exactly if it is the infrastructure's, and with the others exactly if it is not. With one, a category
-- is drained with the infrastructure exactly if it is configured and is the infrastructure's, and with
-- the others exactly if it is configured and is not.
pub split_categories_lem :
    (k : Category) (d : String) (ds : List String) (c : String)
    → (contains (split_categories []).0 (category_name k) ≡ is_infrastructure k)
      × (contains (split_categories []).1 (category_name k) ≡ not (is_infrastructure k))
      × (contains (split_categories (d ∷ ds)).0 c
          ≡ (contains (d ∷ ds) c && c == category_name infrastructure))
      × (contains (split_categories (d ∷ ds)).1 c
          ≡ (contains (d ∷ ds) c && not (c == category_name infrastructure)))
unfolding split_categories
split_categories_lem k d ds c =
    let configured = split_configured_lem (d ∷ ds) c in
    elim k
      as (λ k.
        (contains (split_categories []).0 (category_name k) ≡ is_infrastructure k)
        × (contains (split_categories []).1 (category_name k) ≡ not (is_infrastructure k))
        × (contains (split_categories (d ∷ ds)).0 c
            ≡ (contains (d ∷ ds) c && c == category_name infrastructure))
        × (contains (split_categories (d ∷ ds)).1 c
            ≡ (contains (d ∷ ds) c && not (c == category_name infrastructure)))) [
              | environment ↦ (refl, refl, configured.0, configured.1)
              | orchestration ↦ (refl, refl, configured.0, configured.1)
              | execution ↦ (refl, refl, configured.0, configured.1)
              | monitoring ↦ (refl, refl, configured.0, configured.1)
              | transfer ↦ (refl, refl, configured.0, configured.1)
              | maintenance ↦ (refl, refl, configured.0, configured.1)
              | planning ↦ (refl, refl, configured.0, configured.1)
              | infrastructure ↦ (refl, refl, configured.0, configured.1)
            ]
