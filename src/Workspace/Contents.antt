-- ===== src/Workspace/Contents.antt =====
-- What the manifest of a sealed workspace says of its files. Only the inputs are ever pruned from a
-- final workspace.
use akoflow.Prelude.{
  ℕ, ◌+◌, ◌%◌, ◌^◌, String, true, false, List, [], ◌∷◌, ◌++◌, map, some, ◌≡◌, refl, sym, ◌∙◌, ◌⊎◌,
  inl, inr, arith, ◌==◌, string_eq, nat_eq, nat_beq_iff, str_iff, Bool-cases, Option-cases, lookup,
  All, All-append,
}
use mathlib.Core.Path.{subst}
use mathlib.Core.List.{Memᴰ, Perm, perm_middle, append_assoc, append-nil}
use mathlib.Core.List.Perm
use mathlib.Core.List.Memᴰ
use akoflow.Workspace.{WorkspaceEntry, WorkspaceManifest, ActivityWorkspace, add_i64}
use akoflow.Workspace.Manifest.{
  ArtifactSnapshotEntry, ArtifactManifest, entry_of, by_path, inherited, classify, no_entries,
  is_legacy, classified, contents, apply_artifact_manifest,
}

-- The sizes of the entries, summed without a bound.
unfoldable pub size_sum : List WorkspaceEntry → ℕ
size_sum [] = 0
size_sum (e ∷ es) = e.size_bytes + size_sum es

size_sum-append :
    (es : List WorkspaceEntry) (e : WorkspaceEntry)
    → size_sum (es ++ e ∷ []) ≡ size_sum es + e.size_bytes
unfolding size_sum
size_sum-append [] e = omega arith
size_sum-append (f ∷ fs) e = omega (arith, size_sum-append fs e)

lookup-by_path :
    (p : String) (fs : List ArtifactSnapshotEntry) (m : List (String × WorkspaceEntry))
    (b : WorkspaceEntry)
    → lookup p (by_path fs m) ≡ some b
    → (Memᴰ b (map entry_of fs) × (b.path ≡ p)) ⊎ (lookup p m ≡ some b)
unfolding by_path
lookup-by_path p [] m b e = inr e
lookup-by_path p (f ∷ fs) m b e = elim (lookup-by_path p fs ((f.path, entry_of f) ∷ m) b e) [
  | inl (h, q) ↦ inl (Memᴰ.tail h, q)
  | inr h ↦ elim (Bool-cases (p == f.path)) [
    | inl g ↦ inl (Memᴰ.head (ground arith), ground (arith, str_iff p f.path))
    | inr g ↦ inr (ground arith)
  ]
]

pub record Split (initial : List WorkspaceEntry) (m : WorkspaceManifest) (bytes : ℕ) : Type 0 where
  pub whole : Perm m.final (m.inputs ++ m.outputs)
  pub old : All (λ e. Memᴰ e initial) m.inputs
  pub size : bytes ≡ size_sum m.inputs % 2 ^ 64

entry_eq :
    (b e : WorkspaceEntry)
    → b.path ≡ e.path
    → b.digest ≡ e.digest
    → b.size_bytes ≡ e.size_bytes
    → b ≡ e
entry_eq b e p d z = λ i. record { path = p i; digest = d i; size_bytes = z i }

inherited-Mem :
    (f : ArtifactSnapshotEntry) (fs : List ArtifactSnapshotEntry)
    → inherited (lookup f.path (by_path fs [])) (entry_of f) ≡ true
    → Memᴰ (entry_of f) (map entry_of fs)
inherited-Mem f fs h = elim (Option-cases (lookup f.path (by_path fs []))) [
  | inl e ↦ ground arith
  | inr (b, e) ↦ elim (lookup-by_path f.path fs [] b e) [
    | inl (m, p) ↦
        Memᴰ.cast
          (sym (
            entry_eq b (entry_of f) p (ground (arith, str_iff b.digest f.checksum))
              (ground (arith, nat_beq_iff b.size_bytes f.size_bytes))))
          m
    | inr h' ↦ cc
  ]
]

module _ (initial : List ArtifactSnapshotEntry) where
  abbrev entries : List WorkspaceEntry
  entries = map entry_of initial

  perm_last :
      (m : WorkspaceManifest) (e : WorkspaceEntry)
      → Perm m.final (m.inputs ++ m.outputs)
      → Perm (m.final ++ e ∷ []) (m.inputs ++ (m.outputs ++ e ∷ []))
  perm_last m e h =
      subst (λ xs. Perm (m.final ++ e ∷ []) xs) (append_assoc m.inputs m.outputs (e ∷ []))
        (Perm.append_right (e ∷ []) h)

  perm_inner :
      (m : WorkspaceManifest) (e : WorkspaceEntry)
      → Perm m.final (m.inputs ++ m.outputs)
      → Perm (m.final ++ e ∷ []) ((m.inputs ++ e ∷ []) ++ m.outputs)
  perm_inner m e h =
      subst (λ xs. Perm (m.final ++ e ∷ []) xs) (sym (append_assoc m.inputs (e ∷ []) m.outputs))
        (Perm.trans (perm_last m e h) (
          Perm.append_left m.inputs (
            subst (λ xs. Perm (m.outputs ++ e ∷ []) (e ∷ xs)) (append-nil m.outputs)
              (perm_middle m.outputs []))))

  -- One entry more, as an input or as an output.
  Split-input :
      (m : WorkspaceManifest) (bytes : ℕ) (e : WorkspaceEntry)
      → Memᴰ e entries
      → Split entries m bytes
      → Split entries
          (record m { final = m.final ++ e ∷ []; inputs = m.inputs ++ e ∷ [] })
          (add_i64 bytes e.size_bytes)
  Split-input m bytes e mem h = record {
    whole = perm_inner m e h.whole;
    old = All-append (λ x. Memᴰ x entries) m.inputs (e ∷ []) h.old (mem, tt);
    size = omega (arith, h.size, size_sum-append m.inputs e);
  }

  Split-output :
      (m : WorkspaceManifest) (bytes : ℕ) (e : WorkspaceEntry)
      → Split entries m bytes
      → Split entries (record m { final = m.final ++ e ∷ []; outputs = m.outputs ++ e ∷ [] }) bytes
  Split-output m bytes e h = record { whole = perm_last m e h.whole; old = h.old; size = h.size }

  classify_lem :
      (fs : List ArtifactSnapshotEntry) (m : WorkspaceManifest) (bytes : ℕ)
      → Split entries m bytes
      → (let r = classify (by_path initial []) fs m bytes in Split entries r.0 r.1)
        × ((classify (by_path initial []) fs m bytes).0.final ≡ m.final ++ map entry_of fs)
  unfolding classify
  classify_lem [] m bytes h = (h, sym (append-nil m.final))
  classify_lem (f ∷ fs) m bytes h =
      let e = entry_of f in
      let longer : WorkspaceManifest = record m { final = m.final ++ e ∷ [] } in
      let with_input : WorkspaceManifest = record longer { inputs = m.inputs ++ e ∷ [] } in
      let with_output : WorkspaceManifest = record longer { outputs = m.outputs ++ e ∷ [] } in
      elim (Bool-cases (inherited (lookup f.path (by_path initial [])) e)) [
        | inl t ↦
            let r =
              classify_lem fs with_input (add_i64 bytes e.size_bytes)
                (Split-input m bytes e (inherited-Mem f initial t) h) in
            rw (classify, t) (r.0, r.1 ∙ append_assoc m.final (e ∷ []) (map entry_of fs))
        | inr t ↦
            let r = classify_lem fs with_output bytes (Split-output m bytes e h) in
            rw (classify, t) (r.0, r.1 ∙ append_assoc m.final (e ∷ []) (map entry_of fs))
      ]

start-Split :
    (a : ArtifactManifest)
    → Split
        (map entry_of a.initial_snapshot)
        (record no_entries { initial = map entry_of a.initial_snapshot })
        0
unfolding size_sum
start-Split a = record { whole = Perm.refl []; old = tt; size = refl }

-- Over a snapshot of the files at the end: the manifest that a sealed workspace takes over lists the
-- final files, each as an input or as an output; every input stood with the same path, digest and
-- size in the snapshot of the files at the start; and the input bytes are the sum of the inputs'
-- sizes modulo 2^64.
pub apply_artifact_manifest_lem :
    (a : ArtifactManifest) (w : ActivityWorkspace) (f : ArtifactSnapshotEntry)
    (fs : List ArtifactSnapshotEntry)
    → a.final_snapshot ≡ f ∷ fs
    → (let m = (apply_artifact_manifest a w).manifest in
        (m.final ≡ map entry_of a.final_snapshot)
        × Perm m.final (m.inputs ++ m.outputs)
        × All (λ e. Memᴰ e (map entry_of a.initial_snapshot)) m.inputs
        × ((apply_artifact_manifest a w).input_bytes ≡ size_sum m.inputs % 2 ^ 64))
unfolding apply_artifact_manifest classified contents
apply_artifact_manifest_lem a w f fs e =
    let start : WorkspaceManifest = record no_entries {
      initial = map entry_of a.initial_snapshot;
    } in
    let r = classify_lem a.initial_snapshot a.final_snapshot start 0 (start-Split a) in
    let recent : is_legacy a ≡ false = ground arith in rw recent (r.1, r.0.whole, r.0.old, r.0.size)
