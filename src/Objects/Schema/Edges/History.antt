-- ===== src/Objects/Schema/Edges/History.antt =====
-- crates/rgit-objects/src/decode.rs, `references`: the edges of content, of history and of
-- operations.
use rethinking_git.Base.{ℕ, ◌==◌, some, [], ◌∷◌, Result, ok, err, ◌>>=◌, ◌||◌, if◌then◌else◌}
use rethinking_git.Objects.Canonical.{Value, Fields}
use rethinking_git.Objects.Error.{DecodeObjectError}
use rethinking_git.Objects.Reference.{ObjectKind, ReferenceRole}
use rethinking_git.Objects.Schema.{wrong, as_map, field, optional_field, unsigned, array}
use rethinking_git.Objects.Schema.Parts.{at_field}
use rethinking_git.Objects.Schema.Edges.Build.{
  Edges, join, edges_of, oid_edge, inner_edge, typed_edge, array_edges, add, edges_if_some,
}

unfoldable pub blob_edges : Fields → Edges
blob_edges m = edges_if_some (optional_field m 5) λ chunks.
    array chunks 5 >>= edges_of (inner_edge ReferenceRole.blob_chunk (some ObjectKind.chunk) 0 5)

unfoldable pub target_kind : ℕ → Result DecodeObjectError ObjectKind
target_kind kind =
    if kind == 0 || kind == 2
    then ok ObjectKind.blob
    else if kind == 1
    then ok ObjectKind.manifest
    else if kind == 3
    then ok ObjectKind.subproject
    else if kind == 4
    then ok ObjectKind.secret_ref
    else err (wrong 3)

unfoldable pub entry_edges : Value → Edges
entry_edges entry = do
  m ← as_map entry
  number ← field m 1
  kind ← unsigned number 3
  expected ← target_kind kind
  target ← field m 2
  first ← oid_edge ReferenceRole.manifest_entry_target (some expected) 3 target
  policy ← field m 4
  second ← inner_edge ReferenceRole.manifest_entry_policy (some ObjectKind.policy) 1 3 policy
  join (ok first ∷ ok second ∷ [])

unfoldable pub manifest_edges : Fields → Edges
manifest_edges m = at_field array m 3 >>= edges_of entry_edges

unfoldable pub snapshot_edges : Fields → Edges
snapshot_edges m = join (
    add m 3 ReferenceRole.snapshot_root_manifest (some ObjectKind.manifest)
    ∷ add m 10 ReferenceRole.snapshot_message (some ObjectKind.blob)
    ∷ array_edges m 4 ReferenceRole.snapshot_parent ObjectKind.snapshot
    ∷ [])

unfoldable pub change_revision_edges : Fields → Edges
change_revision_edges m = join (
    add m 4 ReferenceRole.change_previous_revision (some ObjectKind.change_revision)
    ∷ add m 5 ReferenceRole.change_title (some ObjectKind.blob)
    ∷ add m 6 ReferenceRole.change_description (some ObjectKind.blob)
    ∷ add m 7 ReferenceRole.change_base_snapshot (some ObjectKind.snapshot)
    ∷ add m 8 ReferenceRole.change_current_snapshot (some ObjectKind.snapshot)
    ∷ [])

unfoldable pub line_state_edges : Fields → Edges
line_state_edges m = join (
    add m 5 ReferenceRole.line_head_snapshot (some ObjectKind.snapshot)
    ∷ add m 7 ReferenceRole.line_previous_state (some ObjectKind.line_state)
    ∷ add m 12 ReferenceRole.line_transaction_operation (some ObjectKind.operation)
    ∷ [])

unfoldable pub release_edges : Fields → Edges
release_edges m = join (
    add m 5 ReferenceRole.release_source_snapshot (some ObjectKind.snapshot)
    ∷ add m 7 ReferenceRole.release_projection_rules (some ObjectKind.projection_rules)
    ∷ add m 8 ReferenceRole.release_projected_root (some ObjectKind.manifest)
    ∷ add m 9 ReferenceRole.release_projection_proof (some ObjectKind.projection_proof)
    ∷ add m 11 ReferenceRole.release_notes (some ObjectKind.blob)
    ∷ array_edges m 12 ReferenceRole.release_build_provenance ObjectKind.build_provenance
    ∷ array_edges m 13 ReferenceRole.release_artifact ObjectKind.artifact
    ∷ array_edges m 14 ReferenceRole.release_policy_evidence ObjectKind.policy_decision_evidence
    ∷ [])

unfoldable pub conflict_edges : Fields → Edges
conflict_edges m = join (
    (field m 3 >>= typed_edge ReferenceRole.conflict_base 3)
    ∷ (field m 4 >>= typed_edge ReferenceRole.conflict_left 4)
    ∷ (field m 5 >>= typed_edge ReferenceRole.conflict_right 5)
    ∷ [])

unfoldable pub marker_edges : Fields → Edges
marker_edges m = field m 4 >>= typed_edge ReferenceRole.marker_target 4

-- The objects before and after an action, at two keys.
unfoldable pub change_edges : ℕ → ℕ → Fields → Edges
change_edges before after action = join (
    edges_if_some (optional_field action before) (typed_edge ReferenceRole.operation_before 8)
    ∷ edges_if_some (optional_field action after) (typed_edge ReferenceRole.operation_after 8)
    ∷ [])

-- The policy at `key` of a line's declaration.
unfoldable pub line_policy : Fields → ℕ → ReferenceRole → Edges
line_policy declaration key role =
    field declaration key >>= inner_edge role (some ObjectKind.policy) 1 8

-- What the declaration of a line names.
unfoldable pub declaration_edges : Fields → Edges
declaration_edges declaration = join (
    line_policy declaration 0 ReferenceRole.operation_line_policy
    ∷ line_policy declaration 6 ReferenceRole.operation_line_integration_policy
    ∷ line_policy declaration 7 ReferenceRole.operation_line_approval_policy
    ∷ line_policy declaration 8 ReferenceRole.operation_line_release_policy
    ∷ line_policy declaration 9 ReferenceRole.operation_line_visibility_policy
    ∷ (field declaration 3
        >>= oid_edge ReferenceRole.operation_line_head_snapshot (some ObjectKind.snapshot) 8)
    ∷ edges_if_some (optional_field declaration 5)
        (oid_edge ReferenceRole.operation_line_previous_state (some ObjectKind.line_state) 8)
    ∷ [])

unfoldable pub line_edges : Fields → Edges
line_edges action = do
  content ← field action 3
  declaration ← as_map content
  declaration_edges declaration

unfoldable pub action_edges : Value → Edges
action_edges value = do
  action ← as_map value
  number ← field action 0
  variant ← unsigned number 8
  (if variant == 0
      then change_edges 1 2 action
      else if variant == 2
      then change_edges 2 3 action
      else if variant == 1
      then line_edges action
      else err (wrong 8))

unfoldable pub operation_edges : Fields → Edges
operation_edges m = join (
    array_edges m 3 ReferenceRole.operation_parent ObjectKind.operation
    ∷ array_edges m 9 ReferenceRole.operation_inverse_payload ObjectKind.operation_payload
    ∷ (at_field array m 8 >>= edges_of action_edges)
    ∷ add m 10 ReferenceRole.operation_public_envelope (some ObjectKind.operation_payload)
    ∷ add m 11 ReferenceRole.operation_private_payload (some ObjectKind.operation_payload)
    ∷ [])
