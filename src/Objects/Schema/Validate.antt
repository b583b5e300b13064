-- ===== src/Objects/Schema/Validate.antt =====
-- crates/rgit-objects/src/decode.rs: `validate_fields` and the match of `validate_shapes`.
use rethinking_git.Base.{ℕ, Bool, true, false, not, ◌||◌, List, [], ◌∷◌, ok, ◌>>◌, ensure}
use rethinking_git.Objects.Canonical.{Fields}
use rethinking_git.Objects.Error.{DecodeObjectError}
use rethinking_git.Objects.Reference.{ObjectKind}
use rethinking_git.Objects.Signature.{SignaturePurpose}
use rethinking_git.Objects.Unicode.{Unicode}
use rethinking_git.Objects.Schema.{Check, each, keys_of, holds_key, has_field, field, checked}
use rethinking_git.Objects.Schema.Parts.{policy_ref, at_field, when}
use rethinking_git.Objects.Schema.Content.{
  chunk_shape, blob_shape, secret_ref_shape, manifest_shape, subproject_shape,
}
use rethinking_git.Objects.Schema.Changes.{
  snapshot_shape, change_revision_shape, line_state_shape, conflict_shape, change_relation_shape,
  conflict_resolution_shape,
}
use rethinking_git.Objects.Schema.Operations.{
  operation_shape, operation_payload_shape, marker_shape, release_shape,
}
use rethinking_git.Objects.Schema.Trust.{
  policy_shape, repository_root_shape, identity_shape, group_membership_shape,
  key_envelope_set_shape,
}
use rethinking_git.Objects.Schema.Evidence.{
  evidence_shape, ci_evidence_shape, projection_rules_shape, projection_proof_shape,
  build_provenance_shape, artifact_shape, view_shape, migration_shape, rule_set_shape,
}

-- The required and the optional keys of each kind.
unfoldable pub schema_keys : ObjectKind → List ℕ × List ℕ
schema_keys ObjectKind.chunk = (0 ∷ 1 ∷ 2 ∷ 3 ∷ [], [])
schema_keys ObjectKind.blob = (0 ∷ 1 ∷ 2 ∷ 3 ∷ [], 4 ∷ 5 ∷ 6 ∷ 7 ∷ [])
schema_keys ObjectKind.secret_ref = (0 ∷ 1 ∷ 2 ∷ 3 ∷ 4 ∷ 6 ∷ 7 ∷ 8 ∷ [], 5 ∷ 9 ∷ [])
schema_keys ObjectKind.manifest = (0 ∷ 1 ∷ 2 ∷ 3 ∷ [], [])
schema_keys ObjectKind.subproject = (0 ∷ 1 ∷ 2 ∷ 3 ∷ 4 ∷ 5 ∷ [], 6 ∷ [])
schema_keys ObjectKind.snapshot = (0 ∷ 1 ∷ 2 ∷ 3 ∷ 4 ∷ 5 ∷ 6 ∷ 7 ∷ 8 ∷ 9 ∷ [], 10 ∷ [])
schema_keys ObjectKind.change_revision =
    (0 ∷ 1 ∷ 2 ∷ 3 ∷ 5 ∷ 6 ∷ 7 ∷ 8 ∷ 9 ∷ 10 ∷ 11 ∷ 12 ∷ 13 ∷ 14 ∷ 15 ∷ [], 4 ∷ [])
schema_keys ObjectKind.line_state =
    (0 ∷ 1 ∷ 2 ∷ 3 ∷ 4 ∷ 5 ∷ 6 ∷ 8 ∷ 9 ∷ 10 ∷ 11 ∷ 12 ∷ 13 ∷ [], 7 ∷ [])
schema_keys ObjectKind.conflict = (0 ∷ 1 ∷ 2 ∷ 3 ∷ 4 ∷ 5 ∷ 6 ∷ 7 ∷ 8 ∷ 9 ∷ 10 ∷ [], [])
schema_keys ObjectKind.operation =
    (0 ∷ 1 ∷ 2 ∷ 3 ∷ 4 ∷ 5 ∷ 6 ∷ 7 ∷ 8 ∷ 9 ∷ 12 ∷ 13 ∷ [], 10 ∷ 11 ∷ [])
schema_keys ObjectKind.marker = (0 ∷ 1 ∷ 2 ∷ 3 ∷ 4 ∷ 5 ∷ 6 ∷ 7 ∷ 8 ∷ [], [])
schema_keys ObjectKind.release =
    (0 ∷ 1 ∷ 2 ∷ 3 ∷ 4 ∷ 5 ∷ 6 ∷ 7 ∷ 8 ∷ 9 ∷ 10 ∷ 12 ∷ 13 ∷ 14 ∷ 15 ∷ 16 ∷ [], 11 ∷ [])
schema_keys ObjectKind.policy =
    (0 ∷ 1 ∷ 3 ∷ 4 ∷ 6 ∷ 7 ∷ 8 ∷ 9 ∷ 10 ∷ 11 ∷ 12 ∷ 13 ∷ 14 ∷ 15 ∷ [], 2 ∷ 5 ∷ [])
schema_keys ObjectKind.repository_root = (0 ∷ 1 ∷ 3 ∷ 4 ∷ 5 ∷ 6 ∷ 7 ∷ 8 ∷ 9 ∷ 10 ∷ [], [])
schema_keys ObjectKind.identity =
    (0 ∷ 1 ∷ 3 ∷ 4 ∷ 5 ∷ 7 ∷ 8 ∷ 9 ∷ 10 ∷ 13 ∷ [], 2 ∷ 6 ∷ 11 ∷ 12 ∷ [])
schema_keys ObjectKind.group_membership =
    (0 ∷ 1 ∷ 2 ∷ 3 ∷ 4 ∷ 5 ∷ 7 ∷ 8 ∷ 9 ∷ 10 ∷ 12 ∷ [], 6 ∷ 11 ∷ [])
schema_keys ObjectKind.key_envelope_set = (0 ∷ 1 ∷ 3 ∷ 4 ∷ 5 ∷ [], 2 ∷ [])
schema_keys ObjectKind.change_relation = (0 ∷ 1 ∷ 2 ∷ 3 ∷ 4 ∷ 5 ∷ 6 ∷ 7 ∷ [], [])
schema_keys ObjectKind.conflict_resolution = (0 ∷ 1 ∷ 2 ∷ 3 ∷ 4 ∷ 5 ∷ 6 ∷ 7 ∷ 8 ∷ 9 ∷ 10 ∷ [], [])
schema_keys ObjectKind.review_evidence =
    (0 ∷ 1 ∷ 2 ∷ 3 ∷ 4 ∷ 5 ∷ 6 ∷ 7 ∷ 8 ∷ 9 ∷ 10 ∷ 11 ∷ 12 ∷ [], [])
schema_keys ObjectKind.approval_evidence =
    (0 ∷ 1 ∷ 2 ∷ 3 ∷ 4 ∷ 5 ∷ 6 ∷ 7 ∷ 8 ∷ 9 ∷ 10 ∷ 11 ∷ 12 ∷ [], [])
schema_keys ObjectKind.policy_decision_evidence =
    (0 ∷ 1 ∷ 2 ∷ 3 ∷ 4 ∷ 5 ∷ 6 ∷ 7 ∷ 8 ∷ 9 ∷ 10 ∷ 11 ∷ 12 ∷ [], [])
schema_keys ObjectKind.ci_evidence =
    (0 ∷ 1 ∷ 2 ∷ 3 ∷ 4 ∷ 5 ∷ 6 ∷ 7 ∷ 8 ∷ 9 ∷ 10 ∷ 11 ∷ 12 ∷ 13 ∷ 14 ∷ [], 15 ∷ [])
schema_keys ObjectKind.projection_rules = (0 ∷ 1 ∷ 2 ∷ 3 ∷ 5 ∷ 6 ∷ [], 4 ∷ [])
schema_keys ObjectKind.projection_proof = (0 ∷ 1 ∷ 2 ∷ 3 ∷ 4 ∷ 5 ∷ 6 ∷ 7 ∷ 8 ∷ [], [])
schema_keys ObjectKind.build_provenance = (0 ∷ 1 ∷ 2 ∷ 3 ∷ 4 ∷ 5 ∷ 6 ∷ 7 ∷ 8 ∷ 9 ∷ 10 ∷ [], [])
schema_keys ObjectKind.artifact = (0 ∷ 1 ∷ 2 ∷ 3 ∷ 4 ∷ 5 ∷ 6 ∷ [], 7 ∷ 8 ∷ [])
schema_keys ObjectKind.operation_payload = (0 ∷ 1 ∷ 2 ∷ 3 ∷ 4 ∷ 5 ∷ 6 ∷ [], [])
schema_keys ObjectKind.view = (0 ∷ 1 ∷ 2 ∷ 3 ∷ 4 ∷ 5 ∷ 6 ∷ 7 ∷ 8 ∷ 9 ∷ [], [])
schema_keys ObjectKind.migration = (0 ∷ 1 ∷ 2 ∷ 3 ∷ 4 ∷ 5 ∷ 6 ∷ 7 ∷ 8 ∷ [], [])
schema_keys ObjectKind.rule_set = (0 ∷ 1 ∷ 2 ∷ 3 ∷ 4 ∷ 6 ∷ 7 ∷ [], 5 ∷ [])

-- The kinds whose policy is optional.
unfoldable pub policy_is_optional : ObjectKind → Bool
policy_is_optional ObjectKind.policy = true
policy_is_optional ObjectKind.repository_root = true
policy_is_optional ObjectKind.identity = true
policy_is_optional ObjectKind.key_envelope_set = true
policy_is_optional _ = false

-- The loop over the keys of the map: each is required or optional.
unfoldable pub check_keys : List ℕ × List ℕ → List ℕ → Check
check_keys (required, optional) [] = ok tt
check_keys (required, optional) (key ∷ keys) = do
  ensure (holds_key required key || holds_key optional key) (DecodeObjectError.unknown_field key)
  check_keys (required, optional) keys

module _ (unicode : Unicode) where
  open unicode use {is_utf8, is_nfc}

  unfoldable pub validate_shapes : ObjectKind → ℕ → Fields → Check
  validate_shapes ObjectKind.chunk schema m = chunk_shape m
  validate_shapes ObjectKind.blob schema m = blob_shape m
  validate_shapes ObjectKind.secret_ref schema m = secret_ref_shape m
  validate_shapes ObjectKind.manifest schema m = manifest_shape unicode m
  validate_shapes ObjectKind.subproject schema m = subproject_shape m
  validate_shapes ObjectKind.snapshot schema m = snapshot_shape m
  validate_shapes ObjectKind.change_revision schema m = change_revision_shape m
  validate_shapes ObjectKind.line_state schema m = line_state_shape m
  validate_shapes ObjectKind.conflict schema m = conflict_shape unicode m
  validate_shapes ObjectKind.operation schema m = operation_shape schema m
  validate_shapes ObjectKind.marker schema m = marker_shape m
  validate_shapes ObjectKind.release schema m = release_shape is_nfc m
  validate_shapes ObjectKind.policy schema m = policy_shape is_nfc m
  validate_shapes ObjectKind.repository_root schema m = repository_root_shape is_nfc m
  validate_shapes ObjectKind.identity schema m = identity_shape is_nfc m
  validate_shapes ObjectKind.group_membership schema m = group_membership_shape is_nfc m
  validate_shapes ObjectKind.key_envelope_set schema m = key_envelope_set_shape is_nfc m
  validate_shapes ObjectKind.change_relation schema m = change_relation_shape m
  validate_shapes ObjectKind.conflict_resolution schema m = conflict_resolution_shape unicode m
  validate_shapes ObjectKind.review_evidence schema m =
      evidence_shape is_utf8 is_nfc SignaturePurpose.review_evidence m
  validate_shapes ObjectKind.approval_evidence schema m =
      evidence_shape is_utf8 is_nfc SignaturePurpose.approval_evidence m
  validate_shapes ObjectKind.ci_evidence schema m = ci_evidence_shape is_utf8 is_nfc m
  validate_shapes ObjectKind.policy_decision_evidence schema m =
      evidence_shape is_utf8 is_nfc SignaturePurpose.policy_decision_evidence m
  validate_shapes ObjectKind.projection_rules schema m = projection_rules_shape is_utf8 is_nfc m
  validate_shapes ObjectKind.projection_proof schema m = projection_proof_shape m
  validate_shapes ObjectKind.build_provenance schema m = build_provenance_shape is_utf8 is_nfc m
  validate_shapes ObjectKind.artifact schema m = artifact_shape m
  validate_shapes ObjectKind.operation_payload schema m = operation_payload_shape is_utf8 is_nfc m
  validate_shapes ObjectKind.view schema m = view_shape is_utf8 is_nfc m
  validate_shapes ObjectKind.migration schema m = migration_shape is_utf8 is_nfc m
  validate_shapes ObjectKind.rule_set schema m = rule_set_shape is_utf8 is_nfc m

  unfoldable pub validate_fields : ObjectKind → ℕ → Fields → Check
  validate_fields kind schema m = do
    each (λ key. checked (field m key)) (schema_keys kind).0
    check_keys (schema_keys kind) (keys_of m)
    when (not (policy_is_optional kind) || has_field m 2) (at_field policy_ref m 2)
    validate_shapes kind schema m
