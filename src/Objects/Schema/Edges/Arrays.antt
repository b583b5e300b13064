-- ===== src/Objects/Schema/Edges/Arrays.antt =====
-- The kinds whose edges come from loops over arrays.
use rethinking_git.Base.{
  ok, Bool, ◌≡◌, arith, ◌>>=◌, some, none, ℕ, ◌==◌, List, [], ◌∷◌, Option, >>=-ok, ensure-ok, ltb,
  length, not,
}
use rethinking_git.Objects.Canonical.{Fields, Value}
use rethinking_git.Objects.Reference.{ObjectKind, ReferenceRole}
use rethinking_git.Objects.Schema.{
  field, array, oid_array, oid_values, if_some, checked, exact_map, oid, optional_field, as_map,
  unsigned, bytes, wrong, fixed_nonzero_bytes,
}
use rethinking_git.Objects.Schema.Parts.{
  at_field, oid_at, oid_if_some, public_key, is_empty, at_most, stable_at,
  ensure_sorted_unique_values,
}
use rethinking_git.Objects.Schema.Operations.{operation_shape, action_loop}
use rethinking_git.Objects.Schema.Trust.{identity_shape, key_loop, identity_version}
use rethinking_git.Objects.Schema.Evidence.{
  view_shape, migration_shape, check_view_lines, mapping_loop,
}
use rethinking_git.Objects.Schema.Edges.Build.{join, edges_of, oid_edge, inner_edge, edges_if_some}
use rethinking_git.Objects.Schema.Edges.History.{action_edges, operation_edges}
use rethinking_git.Objects.Schema.Edges.Trust.{
  key_edges, identity_edges, view_edges, mapping_edges, migration_edges,
}
use rethinking_git.Objects.Schema.Edges.Total.{
  Succeeds, checked-Succeeds, >>-ok, add-Succeeds, oid_at-if_some, join-Succeeds, oid_edge-Succeeds,
  array_edges-Succeeds, oid_values-oid_array,
}
use rethinking_git.Objects.Schema.Edges.Shared.{
  exact_map-as_map, optional_edge-Succeeds, field_edges-Succeeds, inner_oid, inner_oid-Succeeds,
}
use rethinking_git.Objects.Schema.Edges.Loops.{
  check_view_lines-each, check_mapping, mapping_loop-each, key_loop-each,
}
use rethinking_git.Objects.Schema.Edges.Actions.{action_loop-edges}

-- An identifier in a field, which errors name by another key.
inner_field :
    (role : ReferenceRole) (expected : Option ObjectKind) (m : Fields) (inner key : ℕ)
    → (field m inner >>= λ v. checked (oid v key)) ≡ ok tt
    → Succeeds (field m inner >>= oid_edge role expected key)
inner_field role expected m inner key h =
    let (value, e, h₁) = >>=-ok (field m inner) _ h in
    let (edges, made) = oid_edge-Succeeds role expected key value h₁ in
    (edges, ground (arith, e, made))

-- The bounds of a key are checked.
public_key_checks :
    (value : Value) (key : ℕ) (out : ℕ × List ℕ)
    → public_key value key ≡ ok out
    → (m : Fields) × (as_map value ≡ ok m)
      × (if_some (optional_field m 3) (λ v. checked (oid v key)) ≡ ok tt)
      × (if_some (optional_field m 4) (λ v. checked (oid v key)) ≡ ok tt)
unfolding public_key
public_key_checks value key out h =
    let (m, e, h₁) = >>=-ok (exact_map value (0 ∷ 1 ∷ 2 ∷ []) (3 ∷ 4 ∷ []) key) _ h in
    let (number, _, h₂) = >>=-ok (field m 0) _ h₁ in
    let (algorithm, _, h₃) = >>=-ok (unsigned number key) _ h₂ in
    let (_, h₄) = ensure-ok (not (ltb 1 algorithm)) (wrong key) _ h₃ in
    let (key_id, _, h₅) = >>=-ok (field m 1) _ h₄ in
    let (_, h₆) = >>-ok (fixed_nonzero_bytes key_id key 32) _ h₅ in
    let (public, _, h₇) = >>=-ok (field m 2) _ h₆ in
    let (content, _, h₈) = >>=-ok (bytes public key) _ h₇ in
    let (_, h₉) = ensure-ok (length content == 32) (wrong key) _ h₈ in
    let (c₃, h₁₀) = >>-ok (if_some (optional_field m 3) (λ v. checked (oid v key))) _ h₉ in
    let (c₄, _) = >>-ok (if_some (optional_field m 4) (λ v. checked (oid v key))) _ h₁₀ in
    (m, exact_map-as_map value (0 ∷ 1 ∷ 2 ∷ []) (3 ∷ 4 ∷ []) key m e, c₃, c₄)

key_edges-Succeeds :
    (key : ℕ) (value : Value)
    → checked (public_key value key) ≡ ok tt
    → Succeeds (key_edges key value)
unfolding key_edges
key_edges-Succeeds key value h =
    let (out, h₁) = checked-Succeeds (public_key value key) h in
    let (m, e, c₃, c₄) = public_key_checks value key out h₁ in
    let bounds : Succeeds (
        join (
          edges_if_some (optional_field m 3)
            (oid_edge ReferenceRole.identity_key_not_before (some ObjectKind.operation) key)
          ∷ edges_if_some (optional_field m 4)
              (oid_edge ReferenceRole.identity_key_not_after (some ObjectKind.operation) key)
          ∷ [])) =
      join-Succeeds _ (
        optional_edge-Succeeds ReferenceRole.identity_key_not_before (some ObjectKind.operation) key
            (optional_field m 3) c₃,
        (
          optional_edge-Succeeds ReferenceRole.identity_key_not_after (some ObjectKind.operation)
              key (optional_field m 4) c₄,
          tt,
        ),
      ) in
    (bounds.0, ground (arith, e, bounds.1))

mapping_edges-Succeeds :
    (value : Value) → check_mapping value ≡ ok tt → Succeeds (mapping_edges value)
unfolding mapping_edges
mapping_edges-Succeeds value h =
    let (m, e, h₁) = >>=-ok (exact_map value (0 ∷ 1 ∷ []) [] 5) _ h in
    let (c₀, c₁) = >>-ok (field m 0 >>= λ a. checked (oid a 5)) _ h₁ in
    let both : Succeeds (
        join (
          (field m 0 >>= oid_edge ReferenceRole.migration_old_object none 5)
          ∷ (field m 1 >>= oid_edge ReferenceRole.migration_new_object none 5)
          ∷ [])) =
      join-Succeeds _ (
        inner_field ReferenceRole.migration_old_object none m 0 5 c₀,
        (inner_field ReferenceRole.migration_new_object none m 1 5 c₁, tt),
      ) in
    (both.0, ground (arith, exact_map-as_map value (0 ∷ 1 ∷ []) [] 5 m e, both.1))

identity_checks :
    (is_nfc : List ℕ → Bool) (m : Fields)
    → identity_shape is_nfc m ≡ ok tt
    → (oid_if_some m 6 ≡ ok tt)
      × ((ids : List (List ℕ)) × ((at_field array m 7 >>= key_loop 0 7 []) ≡ ok ids)
          × ((all_ids : List (List ℕ)) × ((at_field array m 8 >>= key_loop 1 8 ids) ≡ ok all_ids)))
      × (oid_if_some m 11 ≡ ok tt)
      × (oid_if_some m 12 ≡ ok tt)
unfolding identity_shape
identity_checks is_nfc m h =
    let (_, h₁) = >>-ok (at_most 1 m 3) _ h in
    let (_, h₂) = >>-ok (stable_at m 4) _ h₁ in
    let (_, h₃) = >>-ok (identity_version m) _ h₂ in
    let (c₆, h₄) = >>-ok (oid_if_some m 6) _ h₃ in
    let (signing, e₇, h₅) = >>=-ok (at_field array m 7) _ h₄ in
    let (_, h₆) = ensure-ok (not (is_empty signing)) (wrong 7) _ h₅ in
    let (encryption, e₈, h₇) = >>=-ok (at_field array m 8) _ h₆ in
    let (ids, k₇, h₈) = >>=-ok (key_loop 0 7 [] signing) _ h₇ in
    let (all_ids, k₈, h₉) = >>=-ok (key_loop 1 8 ids encryption) _ h₈ in
    let (_, h₁₀) = >>-ok (ensure_sorted_unique_values is_nfc signing 7) _ h₉ in
    let (_, h₁₁) = >>-ok (ensure_sorted_unique_values is_nfc encryption 8) _ h₁₀ in
    let (_, h₁₂) = >>-ok (stable_at m 9) _ h₁₁ in
    let (_, h₁₃) = >>-ok (at_most 2 m 10) _ h₁₂ in
    let (c₁₁, h₁₄) = >>-ok (oid_if_some m 11) _ h₁₃ in
    let (c₁₂, _) = >>-ok (oid_if_some m 12) _ h₁₄ in
    (c₆, (ids, ground (arith, e₇, k₇), (all_ids, ground (arith, e₈, k₈))), c₁₁, c₁₂)

pub identity_edges-Succeeds :
    (is_nfc : List ℕ → Bool) (m : Fields)
    → identity_shape is_nfc m ≡ ok tt
    → Succeeds (identity_edges m)
unfolding identity_edges
identity_edges-Succeeds is_nfc m h =
    let (c₆, (ids, c₇, (all_ids, c₈)), c₁₁, c₁₂) = identity_checks is_nfc m h in
    let (signing, e₇, k₇) = >>=-ok (at_field array m 7) _ c₇ in
    let (encryption, e₈, k₈) = >>=-ok (at_field array m 8) _ c₈ in
    join-Succeeds _ (
      add-Succeeds m 6 ReferenceRole.identity_previous (some ObjectKind.identity) c₆,
      (
        field_edges-Succeeds m 7 (λ v. checked (public_key v 7)) (key_edges 7)
            (key_edges-Succeeds 7) (ground (arith, e₇, key_loop-each 0 7 [] ids signing k₇)),
        (
          field_edges-Succeeds m 8 (λ v. checked (public_key v 8)) (key_edges 8)
              (key_edges-Succeeds 8)
              (ground (arith, e₈, key_loop-each 1 8 ids all_ids encryption k₈)),
          (
            add-Succeeds m 11 ReferenceRole.identity_activation_operation
                (some ObjectKind.operation) c₁₁,
            (
              add-Succeeds m 12 ReferenceRole.identity_not_after_operation
                  (some ObjectKind.operation) c₁₂,
              tt,
            ),
          ),
        ),
      ),
    )

operation_checks :
    (schema : ℕ) (m : Fields)
    → operation_shape schema m ≡ ok tt
    → (checked (at_field oid_values m 3) ≡ ok tt)
      × ((at_field array m 8 >>= action_loop schema []) ≡ ok tt)
      × (at_field oid_array m 9 ≡ ok tt)
      × (oid_if_some m 10 ≡ ok tt)
      × (oid_if_some m 11 ≡ ok tt)
unfolding operation_shape
operation_checks schema m h = ground arith

pub operation_edges-Succeeds :
    (schema : ℕ) (m : Fields) → operation_shape schema m ≡ ok tt → Succeeds (operation_edges m)
unfolding operation_edges
operation_edges-Succeeds schema m h =
    let (c₃, c₈, c₉, c₁₀, c₁₁) = operation_checks schema m h in
    let (values, e, h₈) = >>=-ok (at_field array m 8) _ c₈ in
    let (edges, made) = action_loop-edges schema [] values h₈ in
    let actions : Succeeds (at_field array m 8 >>= edges_of action_edges) =
      (edges, ground (arith, e, made)) in
    join-Succeeds _ (
      array_edges-Succeeds m 3 ReferenceRole.operation_parent ObjectKind.operation
          (oid_values-oid_array m 3 c₃),
      (
        array_edges-Succeeds m 9 ReferenceRole.operation_inverse_payload
            ObjectKind.operation_payload c₉,
        (
          actions,
          (
            add-Succeeds m 10 ReferenceRole.operation_public_envelope
                (some ObjectKind.operation_payload) c₁₀,
            (
              add-Succeeds m 11 ReferenceRole.operation_private_payload
                  (some ObjectKind.operation_payload) c₁₁,
              tt,
            ),
          ),
        ),
      ),
    )

view_checks :
    (is_utf8 is_nfc : List ℕ → Bool) (m : Fields)
    → view_shape is_utf8 is_nfc m ≡ ok tt
    → (checked (at_field oid_values m 5) ≡ ok tt)
      × ((at_field array m 6 >>= check_view_lines []) ≡ ok tt)
      × (oid_at m 7 ≡ ok tt)
unfolding view_shape
view_checks is_utf8 is_nfc m h = ground arith

pub view_edges-Succeeds :
    (is_utf8 is_nfc : List ℕ → Bool) (m : Fields)
    → view_shape is_utf8 is_nfc m ≡ ok tt
    → Succeeds (view_edges m)
unfolding view_edges
view_edges-Succeeds is_utf8 is_nfc m h =
    let (c₅, c₆, c₇) = view_checks is_utf8 is_nfc m h in
    let (values, e, h₆) = >>=-ok (at_field array m 6) _ c₆ in
    join-Succeeds _ (
      array_edges-Succeeds m 5 ReferenceRole.view_policy ObjectKind.policy
          (oid_values-oid_array m 5 c₅),
      (
        field_edges-Succeeds m 6 (inner_oid (0 ∷ 1 ∷ 2 ∷ []) [] 2 6)
            (inner_edge ReferenceRole.view_line_state (some ObjectKind.line_state) 2 6)
            (inner_oid-Succeeds ReferenceRole.view_line_state (some ObjectKind.line_state)
              (0 ∷ 1 ∷ 2 ∷ []) [] 2 6)
            (ground (arith, e, check_view_lines-each [] values h₆)),
        (
          add-Succeeds m 7 ReferenceRole.view_manifest (some ObjectKind.manifest)
              (oid_at-if_some m 7 c₇),
          tt,
        ),
      ),
    )

migration_checks :
    (is_utf8 is_nfc : List ℕ → Bool) (m : Fields)
    → migration_shape is_utf8 is_nfc m ≡ ok tt
    → ((at_field array m 5 >>= mapping_loop [] []) ≡ ok tt) × (oid_at m 6 ≡ ok tt)
unfolding migration_shape
migration_checks is_utf8 is_nfc m h = ground arith

pub migration_edges-Succeeds :
    (is_utf8 is_nfc : List ℕ → Bool) (m : Fields)
    → migration_shape is_utf8 is_nfc m ≡ ok tt
    → Succeeds (migration_edges m)
unfolding migration_edges
migration_edges-Succeeds is_utf8 is_nfc m h =
    let (c₅, c₆) = migration_checks is_utf8 is_nfc m h in
    let (values, e, h₅) = >>=-ok (at_field array m 5) _ c₅ in
    join-Succeeds _ (
      field_edges-Succeeds m 5 check_mapping mapping_edges mapping_edges-Succeeds
          (ground (arith, e, mapping_loop-each [] [] values h₅)),
      (
        add-Succeeds m 6 ReferenceRole.migration_tool_identity (some ObjectKind.identity)
            (oid_at-if_some m 6 c₆),
        tt,
      ),
    )
