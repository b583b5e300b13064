-- ===== src/Objects/Schema/Edges/Trust.antt =====
-- crates/rgit-objects/src/decode.rs, `references`: the edges of policies, identities, evidence,
-- builds and views.
use rethinking_git.Base.{ℕ, none, some, [], ◌∷◌, ◌>>=◌}
use rethinking_git.Objects.Canonical.{Value, Fields}
use rethinking_git.Objects.Reference.{ObjectKind, ReferenceRole}
use rethinking_git.Objects.Schema.{as_map, field, optional_field, array}
use rethinking_git.Objects.Schema.Parts.{at_field}
use rethinking_git.Objects.Schema.Edges.Build.{
  Edges, join, edges_of, oid_edge, inner_edge, typed_edge, array_edges, add, edges_if_some,
}

unfoldable pub policy_edges : Fields → Edges
policy_edges m = join (
    add m 5 ReferenceRole.policy_previous_version (some ObjectKind.policy)
    ∷ add m 12 ReferenceRole.policy_key_envelope_set (some ObjectKind.key_envelope_set)
    ∷ array_edges m 10 ReferenceRole.policy_declassification_requirement
        ObjectKind.policy_decision_evidence
    ∷ [])

unfoldable pub repository_root_edges : Fields → Edges
repository_root_edges m = join (
    add m 4 ReferenceRole.repository_root_policy (some ObjectKind.policy)
    ∷ array_edges m 5 ReferenceRole.repository_trusted_identity ObjectKind.identity
    ∷ add m 6 ReferenceRole.repository_bootstrap_key_envelope_set (some ObjectKind.key_envelope_set)
    ∷ add m 7 ReferenceRole.repository_genesis_operation (some ObjectKind.operation)
    ∷ array_edges m 8 ReferenceRole.repository_initial_line_state ObjectKind.line_state
    ∷ [])

-- The bounds of a public key's time, of the array `key`.
unfoldable pub key_edges : ℕ → Value → Edges
key_edges key value = do
  m ← as_map value
  join (
      edges_if_some (optional_field m 3)
        (oid_edge ReferenceRole.identity_key_not_before (some ObjectKind.operation) key)
      ∷ edges_if_some (optional_field m 4)
          (oid_edge ReferenceRole.identity_key_not_after (some ObjectKind.operation) key)
      ∷ [])

unfoldable pub identity_edges : Fields → Edges
identity_edges m = join (
    add m 6 ReferenceRole.identity_previous (some ObjectKind.identity)
    ∷ (at_field array m 7 >>= edges_of (key_edges 7))
    ∷ (at_field array m 8 >>= edges_of (key_edges 8))
    ∷ add m 11 ReferenceRole.identity_activation_operation (some ObjectKind.operation)
    ∷ add m 12 ReferenceRole.identity_not_after_operation (some ObjectKind.operation)
    ∷ [])

unfoldable pub group_membership_edges : Fields → Edges
group_membership_edges m = join (
    add m 6 ReferenceRole.membership_previous (some ObjectKind.group_membership)
    ∷ add m 10 ReferenceRole.membership_activation_operation (some ObjectKind.operation)
    ∷ add m 11 ReferenceRole.membership_not_after_operation (some ObjectKind.operation)
    ∷ [])

unfoldable pub change_relation_edges : Fields → Edges
change_relation_edges m = join (
    array_edges m 4 ReferenceRole.change_relation_source ObjectKind.change_revision
    ∷ array_edges m 5 ReferenceRole.change_relation_result ObjectKind.change_revision
    ∷ array_edges m 6 ReferenceRole.change_relation_provenance ObjectKind.snapshot
    ∷ add m 7 ReferenceRole.change_relation_operation (some ObjectKind.operation)
    ∷ [])

unfoldable pub conflict_resolution_edges : Fields → Edges
conflict_resolution_edges m = join (
    add m 3 ReferenceRole.resolution_conflict (some ObjectKind.conflict)
    ∷ (field m 4 >>= typed_edge ReferenceRole.resolution_result 4)
    ∷ (at_field array m 8 >>= edges_of (typed_edge ReferenceRole.resolution_provenance 8))
    ∷ [])

unfoldable pub evidence_edges : Fields → Edges
evidence_edges m = join (
    (field m 3 >>= typed_edge ReferenceRole.evidence_target 3)
    ∷ add m 4 ReferenceRole.evidence_snapshot (some ObjectKind.snapshot)
    ∷ add m 5 ReferenceRole.evidence_ruleset (some ObjectKind.rule_set)
    ∷ (at_field array m 10 >>= edges_of (typed_edge ReferenceRole.evidence_related 10))
    ∷ [])

unfoldable pub ci_evidence_edges : Fields → Edges
ci_evidence_edges m = join (
    evidence_edges m
    ∷ add m 14 ReferenceRole.ci_runner_identity (some ObjectKind.identity)
    ∷ add m 15 ReferenceRole.ci_build_provenance (some ObjectKind.build_provenance)
    ∷ [])

unfoldable pub projection_proof_edges : Fields → Edges
projection_proof_edges m = join (
    add m 4 ReferenceRole.projection_source_snapshot (some ObjectKind.snapshot)
    ∷ add m 5 ReferenceRole.projection_rules (some ObjectKind.projection_rules)
    ∷ add m 6 ReferenceRole.projection_audience_policy (some ObjectKind.policy)
    ∷ add m 7 ReferenceRole.projection_manifest (some ObjectKind.manifest)
    ∷ [])

unfoldable pub build_provenance_edges : Fields → Edges
build_provenance_edges m = join (
    add m 3 ReferenceRole.build_snapshot (some ObjectKind.snapshot)
    ∷ add m 4 ReferenceRole.build_ruleset (some ObjectKind.rule_set)
    ∷ add m 5 ReferenceRole.build_identity (some ObjectKind.identity)
    ∷ (at_field array m 6 >>= edges_of (typed_edge ReferenceRole.build_input 6))
    ∷ array_edges m 7 ReferenceRole.build_output ObjectKind.artifact
    ∷ [])

unfoldable pub operation_payload_edges : Fields → Edges
operation_payload_edges m =
    at_field array m 4 >>= edges_of (typed_edge ReferenceRole.payload_reference 4)

unfoldable pub view_edges : Fields → Edges
view_edges m = join (
    array_edges m 5 ReferenceRole.view_policy ObjectKind.policy
    ∷ (at_field array m 6
        >>= edges_of (inner_edge ReferenceRole.view_line_state (some ObjectKind.line_state) 2 6))
    ∷ add m 7 ReferenceRole.view_manifest (some ObjectKind.manifest)
    ∷ [])

unfoldable pub mapping_edges : Value → Edges
mapping_edges value = do
  m ← as_map value
  join (
      (field m 0 >>= oid_edge ReferenceRole.migration_old_object none 5)
      ∷ (field m 1 >>= oid_edge ReferenceRole.migration_new_object none 5)
      ∷ [])

unfoldable pub migration_edges : Fields → Edges
migration_edges m = join (
    (at_field array m 5 >>= edges_of mapping_edges)
    ∷ add m 6 ReferenceRole.migration_tool_identity (some ObjectKind.identity)
    ∷ [])
