-- ===== src/Projection.antt =====
-- The projection of whole workspaces along the dependencies of a workflow:
-- internal/domain/workflow/workspace_projection.go. A manifest, a map, is a list of entries with one
-- for each path. A size is the bit pattern of an int64.
pub mod Files
pub mod Activities
pub mod Versions
pub mod Ends
pub mod Passes
pub mod Inherited
pub mod Produced
pub mod Ordering
pub mod Sizes
use Prim.Native.Char.{code}
use akoflow.Prelude.{
  ℕ, ◌+◌, ◌-◌, ◌%◌, ◌^◌, String, Bool, true, false, not, List, [], ◌∷◌, Option, none, some, Result,
  ok, err, ◌>>=◌, ltb, leb, put, drop_key, lookup, contains, length, trim_space, nat_eq, ◌==◌,
  string_eq, ◌&&◌, ◌||◌, if◌then◌else◌,
}

pub record ProjectedFile : Type 0 where
  pub path : String
  pub size_bytes : ℕ
  pub content_id : String

pub record WorkspaceProjection : Type 0 where
  pub contract : String
  pub origin : String
  pub inputs : List ProjectedFile
  pub outputs : List ProjectedFile
  pub removed_paths : List String
  pub terminal_observation_bytes : Option ℕ
  pub publication_cleanup_bytes : Option ℕ
  pub inputs_by_resource_type : List (String × List ProjectedFile)

pub record WorkspaceProjectionVolumes : Type 0 where
  pub pre_execution_bytes : ℕ
  pub created_output_bytes : ℕ
  pub input_total_bytes : ℕ
  pub input_unique_bytes : ℕ
  pub input_files : ℕ
  pub output_bytes : ℕ
  pub output_files : ℕ
  pub terminal_observation_bytes : ℕ
  pub publication_cleanup_bytes : ℕ

pub data ProjectionError : Type 0 where
  unknown_consumer unknown_producer dependency_cycle out_of_fuel : ProjectionError
  workspace_overflow created_overflow output_overflow input_overflow union_overflow
        preparation_overflow :
      String → ProjectionError
  no_projection bad_projection no_contract negative_terminal negative_cleanup no_resource_type
        duplicate_activity :
      String → ProjectionError
  no_runtime_inputs invalid_file conflict removed_absent duplicate_output :
      String → String → ProjectionError

abbrev pub Manifest : Type 0
Manifest = List (String × ProjectedFile)

abbrev pub Projected : Type 0 → Type 0
Projected A = Result ProjectionError A

abbrev pub max_int64 : ℕ
max_int64 = 9223372036854775807

abbrev pub is_negative : ℕ → Bool
is_negative a = ltb max_int64 a

-- The order of int64 on bit patterns.
unfoldable pub exceeds : ℕ → ℕ → Bool
exceeds a b =
    ltb ((b + 9223372036854775808) % 18446744073709551616)
      ((a + 9223372036854775808) % 18446744073709551616)

-- file.SizeBytes > math.MaxInt64-total
unfoldable pub overflows : ℕ → ℕ → Bool
unfolding exceeds
overflows size total =
    exceeds size ((max_int64 + 18446744073709551616 - total) % 18446744073709551616)

abbrev pub add_int64 : ℕ → ℕ → ℕ
add_int64 a b = (a + b) % 18446744073709551616

-- The loops that add up the sizes of a manifest.
unfoldable pub add_sizes : ProjectionError → Manifest → ℕ → Projected ℕ
unfolding overflows
add_sizes e [] total = ok total
add_sizes e ((p, f) ∷ rest) total =
    let later = add_sizes e rest (add_int64 total f.size_bytes) in
    if overflows f.size_bytes total then err e else later
