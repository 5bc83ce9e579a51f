-- ===== src/Projection/Sizes.antt =====
-- Proofs about the guarded sums of sizes.
use akoflow.Prelude.{ℕ, ◌+◌, ◌≤◌, [], ◌∷◌, ◌≡◌, ok, err, ltb, leb, arith, if◌then◌else◌, All}
use akoflow.Projection.{ProjectedFile, ProjectionError, Manifest, exceeds, overflows, add_sizes}

-- A size of 0 or more.
abbrev pub Natural : ProjectedFile → Type 0
Natural f = f.size_bytes ≤ 9223372036854775807

abbrev pub size_sum : Manifest → ℕ
size_sum [] = 0
size_sum ((p, f) ∷ rest) = f.size_bytes + size_sum rest

overflows-ltb :
    (size total : ℕ)
    → size ≤ 9223372036854775807
    → total ≤ 9223372036854775807
    → overflows size total ≡ ltb 9223372036854775807 (size + total)
unfolding overflows exceeds
overflows-ltb size total h k = ground arith

-- If no size of a manifest is negative, the guarded loop over it gives the sum of the sizes in the
-- integers where that fits an int64, and its error where it does not.
pub add_sizes-size_sum :
    (e : ProjectionError) (m : Manifest) (total : ℕ)
    → All (λ f. Natural f.1) m
    → total ≤ 9223372036854775807
    → add_sizes e m total
      ≡ (if leb (total + size_sum m) 9223372036854775807 then ok (total + size_sum m) else err e)
unfolding add_sizes
add_sizes-size_sum e [] total h k = ground arith
add_sizes-size_sum e ((p, f) ∷ rest) total h k = ground (
  arith,
  h.0,
  overflows-ltb f.size_bytes total h.0 k,
  add_sizes-size_sum e rest (total + f.size_bytes) h.1,
)
