-- ===== src/Projection/Files.antt =====
-- Which files a projection takes: mergeProjectedFile of
-- internal/domain/workflow/workspace_projection.go.
use Prim.Native.Char.{code}
use akoflow.Prelude.{
  String, Bool, true, false, not, List, [], ◌∷◌, Option, none, some, ok, err, put, lookup, nat_eq,
  ◌==◌, string_eq, ◌&&◌, ◌||◌, if◌then◌else◌,
}
use akoflow.Projection.{ProjectedFile, invalid_file, conflict, Manifest, Projected, is_negative}

abbrev to_first : String → List String → List String
to_first c [] = c ∷ []
to_first c (s ∷ rest) = s ∷ rest

-- The parts between the separators, the first one with the given text before it.
unfoldable pub segments : (String → String) → String → List String
segments before String.[] = before "" ∷ []
segments before (String.◌∷◌ c s) =
    let next = segments (λ t. t) s in
    let same = segments (λ t. before (String.◌∷◌ c t)) s in
    if code c == 47 then before "" ∷ next else same

-- A NUL or a backslash.
unfoldable pub has_bad_rune : String → Bool
has_bad_rune String.[] = false
has_bad_rune (String.◌∷◌ c s) = code c == 0 || (code c == 92 || has_bad_rune s)

unfoldable pub all_proper : List String → Bool
all_proper [] = true
all_proper (s ∷ rest) = not (s == "" || (s == "." || s == "..")) && all_proper rest

-- A relative path that path.Clean leaves as it is and that stays below its root: each of its parts is
-- a name, for Clean removes every empty part and every ".", and ".." but at the start, which is
-- refused as well.
unfoldable pub is_proper_path : String → Bool
unfolding segments has_bad_rune all_proper
is_proper_path p = not (has_bad_rune p) && all_proper (segments (λ t. t) p)

unfoldable pub is_valid_file : ProjectedFile → Bool
unfolding is_proper_path
is_valid_file f =
    is_proper_path f.path && (not (is_negative f.size_bytes) && not (f.content_id == ""))

abbrev pub differs : ProjectedFile → Option ProjectedFile → Bool
differs f none = false
differs f (some g) = not (g.content_id == f.content_id) || not (g.size_bytes == f.size_bytes)

unfoldable pub merge_projected_file : Bool → String → ProjectedFile → Manifest → Projected Manifest
unfolding is_valid_file
merge_projected_file replace activity_id f m =
    if not (is_valid_file f)
    then err (invalid_file f.path activity_id)
    else if not replace && differs f (lookup f.path m)
    then err (conflict activity_id f.path)
    else ok (put f.path f m)
