-- ===== src/Objects/Schema/Reads/Trust.antt =====
-- What the edges of policies, identities, evidence, builds and views are.
use rethinking_git.Base.{ℕ, none, some}
use rethinking_git.Objects.Canonical.{Value, Fields}
use rethinking_git.Objects.Reference.{ObjectKind, ReferenceRole}
use rethinking_git.Objects.Schema.Reads.{
  Reads, join-Reads, join_one-Reads, field-Reads, optional-Reads,
}
use rethinking_git.Objects.Schema.Reads.Values.{
  oid_edge-Reads, map-Reads, inner_edge-Reads, typed_edge-Reads, each-Reads, array_edges-Reads,
  add-Reads,
}
use rethinking_git.Objects.Schema.Edges.Trust.{
  policy_edges, repository_root_edges, key_edges, identity_edges, group_membership_edges,
  change_relation_edges, conflict_resolution_edges, evidence_edges, ci_evidence_edges,
  projection_proof_edges, build_provenance_edges, operation_payload_edges, view_edges,
  mapping_edges, migration_edges,
}
use rethinking_git.Objects.Schema.Reads.Described.{KeyGives, MappingGives, EvidenceGives, KindGives}

key_edges-Reads : (key : ℕ) (value : Value) → Reads (key_edges key value) (KeyGives value)
unfolding key_edges
key_edges-Reads key value = map-Reads value _ _ λ m.
    join-Reads _ _ _ _
      (optional-Reads m 3 _ _
        (oid_edge-Reads ReferenceRole.identity_key_not_before (some ObjectKind.operation) key))
      (join_one-Reads _ _ (
        optional-Reads m 4 _ _
          (oid_edge-Reads ReferenceRole.identity_key_not_after (some ObjectKind.operation) key)))

mapping_edges-Reads : (value : Value) → Reads (mapping_edges value) (MappingGives value)
unfolding mapping_edges
mapping_edges-Reads value = map-Reads value _ _ λ m.
    join-Reads _ _ _ _
      (field-Reads m 0 _ _ (oid_edge-Reads ReferenceRole.migration_old_object none 5))
      (join_one-Reads _ _
        (field-Reads m 1 _ _ (oid_edge-Reads ReferenceRole.migration_new_object none 5)))

pub policy_edges-Reads : (m : Fields) → Reads (policy_edges m) (KindGives ObjectKind.policy m)
unfolding policy_edges KindGives
policy_edges-Reads m =
    join-Reads _ _ _ _
      (add-Reads m 5 ReferenceRole.policy_previous_version (some ObjectKind.policy))
      (join-Reads _ _ _ _
        (add-Reads m 12 ReferenceRole.policy_key_envelope_set (some ObjectKind.key_envelope_set))
        (join_one-Reads _ _ (
          array_edges-Reads m 10 ReferenceRole.policy_declassification_requirement
            ObjectKind.policy_decision_evidence)))

pub repository_root_edges-Reads :
    (m : Fields) → Reads (repository_root_edges m) (KindGives ObjectKind.repository_root m)
unfolding repository_root_edges KindGives
repository_root_edges-Reads m =
    join-Reads _ _ _ _ (add-Reads m 4 ReferenceRole.repository_root_policy (some ObjectKind.policy))
      (join-Reads _ _ _ _
        (array_edges-Reads m 5 ReferenceRole.repository_trusted_identity ObjectKind.identity)
        (join-Reads _ _ _ _
          (add-Reads m 6 ReferenceRole.repository_bootstrap_key_envelope_set
            (some ObjectKind.key_envelope_set))
          (join-Reads _ _ _ _
            (add-Reads m 7 ReferenceRole.repository_genesis_operation (some ObjectKind.operation))
            (join_one-Reads _ _ (
              array_edges-Reads m 8 ReferenceRole.repository_initial_line_state
                ObjectKind.line_state)))))

pub identity_edges-Reads : (m : Fields) → Reads (identity_edges m) (KindGives ObjectKind.identity m)
unfolding identity_edges KindGives
identity_edges-Reads m =
    join-Reads _ _ _ _ (add-Reads m 6 ReferenceRole.identity_previous (some ObjectKind.identity)) (
      join-Reads _ _ _ _ (each-Reads m 7 _ _ (key_edges-Reads 7)) (
        join-Reads _ _ _ _ (each-Reads m 8 _ _ (key_edges-Reads 8)) (
          join-Reads _ _ _ _
            (add-Reads m 11 ReferenceRole.identity_activation_operation (some ObjectKind.operation))
            (join_one-Reads _ _ (
              add-Reads m 12 ReferenceRole.identity_not_after_operation
                (some ObjectKind.operation))))))

pub group_membership_edges-Reads :
    (m : Fields) → Reads (group_membership_edges m) (KindGives ObjectKind.group_membership m)
unfolding group_membership_edges KindGives
group_membership_edges-Reads m =
    join-Reads _ _ _ _
      (add-Reads m 6 ReferenceRole.membership_previous (some ObjectKind.group_membership))
      (join-Reads _ _ _ _
        (add-Reads m 10 ReferenceRole.membership_activation_operation (some ObjectKind.operation))
        (join_one-Reads _ _ (
          add-Reads m 11 ReferenceRole.membership_not_after_operation (some ObjectKind.operation))))

pub change_relation_edges-Reads :
    (m : Fields) → Reads (change_relation_edges m) (KindGives ObjectKind.change_relation m)
unfolding change_relation_edges KindGives
change_relation_edges-Reads m =
    join-Reads _ _ _ _
      (array_edges-Reads m 4 ReferenceRole.change_relation_source ObjectKind.change_revision)
      (join-Reads _ _ _ _
        (array_edges-Reads m 5 ReferenceRole.change_relation_result ObjectKind.change_revision)
        (join-Reads _ _ _ _
          (array_edges-Reads m 6 ReferenceRole.change_relation_provenance ObjectKind.snapshot)
          (join_one-Reads _ _
            (add-Reads m 7 ReferenceRole.change_relation_operation (some ObjectKind.operation)))))

pub conflict_resolution_edges-Reads :
    (m : Fields) → Reads (conflict_resolution_edges m) (KindGives ObjectKind.conflict_resolution m)
unfolding conflict_resolution_edges KindGives
conflict_resolution_edges-Reads m =
    join-Reads _ _ _ _ (add-Reads m 3 ReferenceRole.resolution_conflict (some ObjectKind.conflict))
      (join-Reads _ _ _ _ (field-Reads m 4 _ _ (typed_edge-Reads ReferenceRole.resolution_result 4))
        (join_one-Reads _ _
          (each-Reads m 8 _ _ (typed_edge-Reads ReferenceRole.resolution_provenance 8))))

pub evidence_edges-Reads : (m : Fields) → Reads (evidence_edges m) (EvidenceGives m)
unfolding evidence_edges
evidence_edges-Reads m =
    join-Reads _ _ _ _ (field-Reads m 3 _ _ (typed_edge-Reads ReferenceRole.evidence_target 3)) (
      join-Reads _ _ _ _ (add-Reads m 4 ReferenceRole.evidence_snapshot (some ObjectKind.snapshot))
        (join-Reads _ _ _ _
          (add-Reads m 5 ReferenceRole.evidence_ruleset (some ObjectKind.rule_set))
          (join_one-Reads _ _
            (each-Reads m 10 _ _ (typed_edge-Reads ReferenceRole.evidence_related 10)))))

pub ci_evidence_edges-Reads :
    (m : Fields) → Reads (ci_evidence_edges m) (KindGives ObjectKind.ci_evidence m)
unfolding ci_evidence_edges KindGives
ci_evidence_edges-Reads m = join-Reads _ _ _ _ (evidence_edges-Reads m) (
    join-Reads _ _ _ _ (add-Reads m 14 ReferenceRole.ci_runner_identity (some ObjectKind.identity))
      (join_one-Reads _ _
        (add-Reads m 15 ReferenceRole.ci_build_provenance (some ObjectKind.build_provenance))))

pub projection_proof_edges-Reads :
    (m : Fields) → Reads (projection_proof_edges m) (KindGives ObjectKind.projection_proof m)
unfolding projection_proof_edges KindGives
projection_proof_edges-Reads m =
    join-Reads _ _ _ _
      (add-Reads m 4 ReferenceRole.projection_source_snapshot (some ObjectKind.snapshot))
      (join-Reads _ _ _ _
        (add-Reads m 5 ReferenceRole.projection_rules (some ObjectKind.projection_rules))
        (join-Reads _ _ _ _
          (add-Reads m 6 ReferenceRole.projection_audience_policy (some ObjectKind.policy))
          (join_one-Reads _ _
            (add-Reads m 7 ReferenceRole.projection_manifest (some ObjectKind.manifest)))))

pub build_provenance_edges-Reads :
    (m : Fields) → Reads (build_provenance_edges m) (KindGives ObjectKind.build_provenance m)
unfolding build_provenance_edges KindGives
build_provenance_edges-Reads m =
    join-Reads _ _ _ _ (add-Reads m 3 ReferenceRole.build_snapshot (some ObjectKind.snapshot)) (
      join-Reads _ _ _ _ (add-Reads m 4 ReferenceRole.build_ruleset (some ObjectKind.rule_set)) (
        join-Reads _ _ _ _ (add-Reads m 5 ReferenceRole.build_identity (some ObjectKind.identity)) (
          join-Reads _ _ _ _ (each-Reads m 6 _ _ (typed_edge-Reads ReferenceRole.build_input 6)) (
            join_one-Reads _ _
              (array_edges-Reads m 7 ReferenceRole.build_output ObjectKind.artifact)))))

pub operation_payload_edges-Reads :
    (m : Fields) → Reads (operation_payload_edges m) (KindGives ObjectKind.operation_payload m)
unfolding operation_payload_edges KindGives
operation_payload_edges-Reads m =
    each-Reads m 4 _ _ (typed_edge-Reads ReferenceRole.payload_reference 4)

pub view_edges-Reads : (m : Fields) → Reads (view_edges m) (KindGives ObjectKind.view m)
unfolding view_edges KindGives
view_edges-Reads m =
    join-Reads _ _ _ _ (array_edges-Reads m 5 ReferenceRole.view_policy ObjectKind.policy) (
      join-Reads _ _ _ _
        (each-Reads m 6 _ _
          (inner_edge-Reads ReferenceRole.view_line_state (some ObjectKind.line_state) 2 6))
        (join_one-Reads _ _ (add-Reads m 7 ReferenceRole.view_manifest (some ObjectKind.manifest))))

pub migration_edges-Reads :
    (m : Fields) → Reads (migration_edges m) (KindGives ObjectKind.migration m)
unfolding migration_edges KindGives
migration_edges-Reads m = join-Reads _ _ _ _ (each-Reads m 5 _ _ mapping_edges-Reads) (
    join_one-Reads _ _
      (add-Reads m 6 ReferenceRole.migration_tool_identity (some ObjectKind.identity)))
