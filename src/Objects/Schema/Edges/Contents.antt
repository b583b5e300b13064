-- ===== src/Objects/Schema/Edges/Contents.antt =====
-- Blobs and manifests that pass their schema give their edges without an error.
use rethinking_git.Base.{
  ok, false, ◌≡◌, refl, arith, ◌>>=◌, some, none, ℕ, ◌==◌, ◌||◌, [], ◌∷◌, >>=-ok, ensure, ensure-ok,
  ltb, leb, Result-cases, inl, inr, not, Option-cases,
}
use rethinking_git.Objects.Canonical.{Fields, Value}
use rethinking_git.Objects.Reference.{ObjectKind, ReferenceRole}
use rethinking_git.Objects.Unicode.{Unicode}
use rethinking_git.Objects.Schema.{
  field, array, checked, exact_map, oid, optional_field, keys_of, unsigned, wrong, has_field,
  same_answer,
}
use rethinking_git.Objects.Schema.Parts.{at_field, is_empty, when}
use rethinking_git.Objects.Schema.Content.{
  chunk_loop, check_entry, blob_shape, chunked_blob, manifest_shape, count_contents,
  max_inline_blob_bytes,
}
use rethinking_git.Objects.Schema.Edges.Build.{join, inner_edge}
use rethinking_git.Objects.Schema.Edges.History.{
  blob_edges, target_kind, entry_edges, manifest_edges,
}
use rethinking_git.Objects.Schema.Edges.Total.{
  Succeeds, >>-ok, join-Succeeds, oid_edge-Succeeds, edges_of-Succeeds,
}
use rethinking_git.Objects.Schema.Edges.Shared.{
  exact_map-as_map, policy_edge-Succeeds, field_edges-Succeeds, inner_oid, inner_oid-Succeeds,
}
use rethinking_git.Objects.Schema.Edges.Loops.{
  chunk_loop-each, check_manifest_entry, manifest_loop-each,
}

no_contents : (m : Fields) → count_contents (keys_of m) ≡ 0 → optional_field m 5 ≡ none
unfolding optional_field count_contents
no_contents Fields.no_fields h = refl
no_contents (Fields.field key value m) h = ground (arith, no_contents m)

some_contents :
    (m : Fields) (content : Value)
    → optional_field m 4 ≡ some content
    → ¬ (count_contents (keys_of m) ≡ 0)
unfolding optional_field count_contents
some_contents Fields.no_fields content e h = cc
some_contents (Fields.field key value m) content e h = ground (arith, some_contents m content)

-- A blob that has its content in itself has no chunks.
no_chunks :
    (m : Fields) (content : Value)
    → optional_field m 4 ≡ some content
    → count_contents (keys_of m) ≡ 1
    → optional_field m 5 ≡ none
unfolding optional_field count_contents
no_chunks Fields.no_fields content e h = refl
no_chunks (Fields.field key value m) content e h =
    ground (arith, no_contents m, some_contents m content, no_chunks m content)

target_kind-Succeeds : (kind : ℕ) → ltb 4 kind ≡ false → Succeeds (target_kind kind)
unfolding target_kind
target_kind-Succeeds kind h = elim (Result-cases (target_kind kind)) [
  | inl (k, e) ↦ (k, e)
  | inr (x, e) ↦ absurd (ground arith)
]

entry_edges-Succeeds :
    (unicode : Unicode) (value : Value)
    → check_manifest_entry unicode value ≡ ok tt
    → Succeeds (entry_edges value)
unfolding entry_edges check_entry
entry_edges-Succeeds unicode value h =
    let (m, e, h₁) = >>=-ok (exact_map value (0 ∷ 1 ∷ 2 ∷ 4 ∷ []) (3 ∷ []) 3) _ h in
    let (number, e₁, h₂) = >>=-ok (field m 1) _ h₁ in
    let (kind, e₂, h₃) = >>=-ok (unsigned number 3) _ h₂ in
    let (bound, h₄) =
      ensure-ok (not (ltb 4 kind || not (same_answer (kind == 0) (has_field m 3)))) (wrong 3) _
        h₃ in
    let (_, h₅) =
      >>-ok
        (when (kind == 0) (do
          executable ← field m 3
          mode ← unsigned executable 3
          ensure (not (ltb 1 mode)) (wrong 3)))
        _ h₄ in
    let (target, e₃, h₆) = >>=-ok (field m 2) _ h₅ in
    let (c₂, h₇) = >>-ok (checked (oid target 3)) _ h₆ in
    let (policy, e₄, c₄) = >>=-ok (field m 4) _ h₇ in
    let (k, e₅) = target_kind-Succeeds kind (ground arith) in
    let (first, p) = oid_edge-Succeeds ReferenceRole.manifest_entry_target (some k) 3 target c₂ in
    let (second, q) = policy_edge-Succeeds ReferenceRole.manifest_entry_policy 3 policy c₄ in
    let both : Succeeds (join (ok first ∷ ok second ∷ [])) =
      join-Succeeds _ ((first, refl), ((second, refl), tt)) in
    (
      both.0,
      ground (
        arith,
        exact_map-as_map value (0 ∷ 1 ∷ 2 ∷ 4 ∷ []) (3 ∷ []) 3 m e,
        e₁,
        e₂,
        e₃,
        e₄,
        e₅,
        p,
        q,
        both.1,
      ),
    )

chunked_edges :
    (m : Fields) (byte_length : ℕ) → chunked_blob m byte_length ≡ ok tt → Succeeds (blob_edges m)
unfolding chunked_blob blob_edges field
chunked_edges m byte_length h =
    let (_, h₁) = ensure-ok (not (leb byte_length max_inline_blob_bytes)) (wrong 5) _ h in
    let (chunks, e, h₂) = >>=-ok (at_field array m 5) _ h₁ in
    let (_, h₃) = ensure-ok (not (is_empty chunks)) (wrong 5) _ h₂ in
    let (sum, e₁, _) = >>=-ok (chunk_loop 0 chunks) _ h₃ in
    let (edges, made) =
      edges_of-Succeeds (inner_oid (0 ∷ 1 ∷ []) [] 0 5)
        (inner_edge ReferenceRole.blob_chunk (some ObjectKind.chunk) 0 5) chunks
        (inner_oid-Succeeds ReferenceRole.blob_chunk (some ObjectKind.chunk) (0 ∷ 1 ∷ []) [] 0 5)
        (chunk_loop-each 0 sum chunks e₁) in
    (edges, ground (arith, Option-cases (optional_field m 5)))

pub blob_edges-Succeeds : (m : Fields) → blob_shape m ≡ ok tt → Succeeds (blob_edges m)
unfolding blob_shape blob_edges
blob_edges-Succeeds m h =
    let (byte_length, _, h₁) = >>=-ok (at_field unsigned m 3) _ h in
    let (one, h₂) = ensure-ok (count_contents (keys_of m) == 1) (wrong 4) _ h₁ in
    elim (Option-cases (optional_field m 4)) [
      | inr (content, e) ↦
          let none_left = no_chunks m content e (ground arith) in ([], ground (arith, none_left))
      | inl e ↦
          let chunked : chunked_blob m byte_length ≡ ok tt = ground (arith, e) in
          chunked_edges m byte_length chunked
    ]

pub manifest_edges-Succeeds :
    (unicode : Unicode) (m : Fields)
    → manifest_shape unicode m ≡ ok tt
    → Succeeds (manifest_edges m)
unfolding manifest_shape manifest_edges
manifest_edges-Succeeds unicode m h =
    let (values, e, h₁) = >>=-ok (at_field array m 3) _ h in
    field_edges-Succeeds m 3 (check_manifest_entry unicode) entry_edges
      (entry_edges-Succeeds unicode)
      (ground (arith, e, manifest_loop-each unicode none [] values h₁))
