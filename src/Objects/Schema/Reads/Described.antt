-- ===== src/Objects/Schema/Reads/Described.antt =====
-- Which edges an object of each kind gives, as relations on its fields: the fields that hold
-- identifiers, with the role and the kind of their targets.
use rethinking_git.Base.{ℕ, Option, none, some, ◌≡◌, ◌⊎◌}
use rethinking_git.Objects.Canonical.{Value, Fields}
use rethinking_git.Objects.Reference.{ObjectKind, ReferenceRole}
use rethinking_git.Objects.Schema.Reads.{
  Relation, IdGives, FieldGives, MapGives, ArrayGives, NumberGives, InnerGives, TypedGives,
}

-- The identifier at `key`.
abbrev OneGives : Fields → ℕ → ReferenceRole → Option ObjectKind → Relation
OneGives m key role expected = FieldGives m key (IdGives role expected)

-- The identifiers of the array at `key`.
abbrev EachGives : Fields → ℕ → ReferenceRole → Option ObjectKind → Relation
EachGives m key role expected = FieldGives m key (ArrayGives (IdGives role expected))

-- The policy at `key`, a map that holds the identifier under 1.
abbrev pub PolicyGives : Fields → ℕ → ReferenceRole → Relation
PolicyGives m key role = FieldGives m key (InnerGives role (some ObjectKind.policy) 1)

-- The policies of an object.
unfoldable pub PoliciesGive : ObjectKind → Fields → Relation
PoliciesGive ObjectKind.change_revision m e =
    PolicyGives m 2 ReferenceRole.object_policy e
    ⊎ PolicyGives m 14 ReferenceRole.review_policy e
    ⊎ PolicyGives m 15 ReferenceRole.landing_policy e
PoliciesGive ObjectKind.line_state m e =
    PolicyGives m 2 ReferenceRole.object_policy e
    ⊎ PolicyGives m 8 ReferenceRole.integration_policy e
    ⊎ PolicyGives m 9 ReferenceRole.approval_policy e
    ⊎ PolicyGives m 10 ReferenceRole.release_policy e
    ⊎ PolicyGives m 11 ReferenceRole.visibility_policy e
PoliciesGive ObjectKind.release m e =
    PolicyGives m 2 ReferenceRole.object_policy e ⊎ PolicyGives m 6 ReferenceRole.audience_policy e
PoliciesGive kind m e = PolicyGives m 2 ReferenceRole.object_policy e

-- The kind of the target of a manifest's entry, by the number of the entry's kind: files and
-- symbolic links have blobs.
abbrev pub TargetKind : ℕ → ObjectKind → Type 0
TargetKind number kind =
    (((number ≡ 0) ⊎ (number ≡ 2)) × (kind ≡ ObjectKind.blob))
    ⊎ ((number ≡ 1) × (kind ≡ ObjectKind.manifest))
    ⊎ ((number ≡ 3) × (kind ≡ ObjectKind.subproject))
    ⊎ ((number ≡ 4) × (kind ≡ ObjectKind.secret_ref))

-- The target and the policy of an entry.
abbrev pub EntryFieldsGive : Fields → ObjectKind → Relation
EntryFieldsGive m kind e =
    OneGives m 2 ReferenceRole.manifest_entry_target (some kind) e
    ⊎ PolicyGives m 4 ReferenceRole.manifest_entry_policy e

abbrev pub EntryGives : Value → Relation
EntryGives = MapGives λ m. FieldGives m 1 (
    NumberGives λ number e. (kind : ObjectKind) × TargetKind number kind × EntryFieldsGive m kind e)

-- The objects before and after an action.
abbrev pub ChangeGives : ℕ → ℕ → Fields → Relation
ChangeGives before after m e =
    FieldGives m before (TypedGives ReferenceRole.operation_before) e
    ⊎ FieldGives m after (TypedGives ReferenceRole.operation_after) e

abbrev pub DeclarationGives : Fields → Relation
DeclarationGives m e =
    PolicyGives m 0 ReferenceRole.operation_line_policy e
    ⊎ PolicyGives m 6 ReferenceRole.operation_line_integration_policy e
    ⊎ PolicyGives m 7 ReferenceRole.operation_line_approval_policy e
    ⊎ PolicyGives m 8 ReferenceRole.operation_line_release_policy e
    ⊎ PolicyGives m 9 ReferenceRole.operation_line_visibility_policy e
    ⊎ OneGives m 3 ReferenceRole.operation_line_head_snapshot (some ObjectKind.snapshot) e
    ⊎ OneGives m 5 ReferenceRole.operation_line_previous_state (some ObjectKind.line_state) e

-- An action is a transition of objects (0), the advance of a line (1) or a transition of a reference
-- that it names (2).
abbrev pub ActionGives : Value → Relation
ActionGives = MapGives λ m. FieldGives m 0 (
    NumberGives λ variant e.
      ((variant ≡ 0) × ChangeGives 1 2 m e)
      ⊎ ((variant ≡ 2) × ChangeGives 2 3 m e)
      ⊎ ((variant ≡ 1) × FieldGives m 3 (MapGives DeclarationGives) e))

-- The bounds of a public key's time.
abbrev pub KeyGives : Value → Relation
KeyGives = MapGives λ m e.
    OneGives m 3 ReferenceRole.identity_key_not_before (some ObjectKind.operation) e
    ⊎ OneGives m 4 ReferenceRole.identity_key_not_after (some ObjectKind.operation) e

abbrev pub MappingGives : Value → Relation
MappingGives = MapGives λ m e.
    OneGives m 0 ReferenceRole.migration_old_object none e
    ⊎ OneGives m 1 ReferenceRole.migration_new_object none e

abbrev pub EvidenceGives : Fields → Relation
EvidenceGives m e =
    FieldGives m 3 (TypedGives ReferenceRole.evidence_target) e
    ⊎ OneGives m 4 ReferenceRole.evidence_snapshot (some ObjectKind.snapshot) e
    ⊎ OneGives m 5 ReferenceRole.evidence_ruleset (some ObjectKind.rule_set) e
    ⊎ FieldGives m 10 (ArrayGives (TypedGives ReferenceRole.evidence_related)) e

-- The match on the kind.
unfoldable pub KindGives : ObjectKind → Fields → Relation
KindGives ObjectKind.chunk m e = ⊥
KindGives ObjectKind.blob m e =
    FieldGives m 5 (ArrayGives (InnerGives ReferenceRole.blob_chunk (some ObjectKind.chunk) 0)) e
KindGives ObjectKind.secret_ref m e = OneGives m 9 ReferenceRole.secret_development_value none e
KindGives ObjectKind.manifest m e = FieldGives m 3 (ArrayGives EntryGives) e
KindGives ObjectKind.subproject m e = OneGives m 6 ReferenceRole.subproject_native_projection none e
KindGives ObjectKind.snapshot m e =
    OneGives m 3 ReferenceRole.snapshot_root_manifest (some ObjectKind.manifest) e
    ⊎ OneGives m 10 ReferenceRole.snapshot_message (some ObjectKind.blob) e
    ⊎ EachGives m 4 ReferenceRole.snapshot_parent (some ObjectKind.snapshot) e
KindGives ObjectKind.change_revision m e =
    OneGives m 4 ReferenceRole.change_previous_revision (some ObjectKind.change_revision) e
    ⊎ OneGives m 5 ReferenceRole.change_title (some ObjectKind.blob) e
    ⊎ OneGives m 6 ReferenceRole.change_description (some ObjectKind.blob) e
    ⊎ OneGives m 7 ReferenceRole.change_base_snapshot (some ObjectKind.snapshot) e
    ⊎ OneGives m 8 ReferenceRole.change_current_snapshot (some ObjectKind.snapshot) e
KindGives ObjectKind.line_state m e =
    OneGives m 5 ReferenceRole.line_head_snapshot (some ObjectKind.snapshot) e
    ⊎ OneGives m 7 ReferenceRole.line_previous_state (some ObjectKind.line_state) e
    ⊎ OneGives m 12 ReferenceRole.line_transaction_operation (some ObjectKind.operation) e
KindGives ObjectKind.conflict m e =
    FieldGives m 3 (TypedGives ReferenceRole.conflict_base) e
    ⊎ FieldGives m 4 (TypedGives ReferenceRole.conflict_left) e
    ⊎ FieldGives m 5 (TypedGives ReferenceRole.conflict_right) e
KindGives ObjectKind.operation m e =
    EachGives m 3 ReferenceRole.operation_parent (some ObjectKind.operation) e
    ⊎ EachGives m 9 ReferenceRole.operation_inverse_payload (some ObjectKind.operation_payload) e
    ⊎ FieldGives m 8 (ArrayGives ActionGives) e
    ⊎ OneGives m 10 ReferenceRole.operation_public_envelope (some ObjectKind.operation_payload) e
    ⊎ OneGives m 11 ReferenceRole.operation_private_payload (some ObjectKind.operation_payload) e
KindGives ObjectKind.marker m e = FieldGives m 4 (TypedGives ReferenceRole.marker_target) e
KindGives ObjectKind.release m e =
    OneGives m 5 ReferenceRole.release_source_snapshot (some ObjectKind.snapshot) e
    ⊎ OneGives m 7 ReferenceRole.release_projection_rules (some ObjectKind.projection_rules) e
    ⊎ OneGives m 8 ReferenceRole.release_projected_root (some ObjectKind.manifest) e
    ⊎ OneGives m 9 ReferenceRole.release_projection_proof (some ObjectKind.projection_proof) e
    ⊎ OneGives m 11 ReferenceRole.release_notes (some ObjectKind.blob) e
    ⊎ EachGives m 12 ReferenceRole.release_build_provenance (some ObjectKind.build_provenance) e
    ⊎ EachGives m 13 ReferenceRole.release_artifact (some ObjectKind.artifact) e
    ⊎ EachGives m 14 ReferenceRole.release_policy_evidence
        (some ObjectKind.policy_decision_evidence) e
KindGives ObjectKind.policy m e =
    OneGives m 5 ReferenceRole.policy_previous_version (some ObjectKind.policy) e
    ⊎ OneGives m 12 ReferenceRole.policy_key_envelope_set (some ObjectKind.key_envelope_set) e
    ⊎ EachGives m 10 ReferenceRole.policy_declassification_requirement
        (some ObjectKind.policy_decision_evidence) e
KindGives ObjectKind.repository_root m e =
    OneGives m 4 ReferenceRole.repository_root_policy (some ObjectKind.policy) e
    ⊎ EachGives m 5 ReferenceRole.repository_trusted_identity (some ObjectKind.identity) e
    ⊎ OneGives m 6 ReferenceRole.repository_bootstrap_key_envelope_set
        (some ObjectKind.key_envelope_set) e
    ⊎ OneGives m 7 ReferenceRole.repository_genesis_operation (some ObjectKind.operation) e
    ⊎ EachGives m 8 ReferenceRole.repository_initial_line_state (some ObjectKind.line_state) e
KindGives ObjectKind.identity m e =
    OneGives m 6 ReferenceRole.identity_previous (some ObjectKind.identity) e
    ⊎ FieldGives m 7 (ArrayGives KeyGives) e
    ⊎ FieldGives m 8 (ArrayGives KeyGives) e
    ⊎ OneGives m 11 ReferenceRole.identity_activation_operation (some ObjectKind.operation) e
    ⊎ OneGives m 12 ReferenceRole.identity_not_after_operation (some ObjectKind.operation) e
KindGives ObjectKind.group_membership m e =
    OneGives m 6 ReferenceRole.membership_previous (some ObjectKind.group_membership) e
    ⊎ OneGives m 10 ReferenceRole.membership_activation_operation (some ObjectKind.operation) e
    ⊎ OneGives m 11 ReferenceRole.membership_not_after_operation (some ObjectKind.operation) e
KindGives ObjectKind.key_envelope_set m e = ⊥
KindGives ObjectKind.change_relation m e =
    EachGives m 4 ReferenceRole.change_relation_source (some ObjectKind.change_revision) e
    ⊎ EachGives m 5 ReferenceRole.change_relation_result (some ObjectKind.change_revision) e
    ⊎ EachGives m 6 ReferenceRole.change_relation_provenance (some ObjectKind.snapshot) e
    ⊎ OneGives m 7 ReferenceRole.change_relation_operation (some ObjectKind.operation) e
KindGives ObjectKind.conflict_resolution m e =
    OneGives m 3 ReferenceRole.resolution_conflict (some ObjectKind.conflict) e
    ⊎ FieldGives m 4 (TypedGives ReferenceRole.resolution_result) e
    ⊎ FieldGives m 8 (ArrayGives (TypedGives ReferenceRole.resolution_provenance)) e
KindGives ObjectKind.review_evidence m e = EvidenceGives m e
KindGives ObjectKind.approval_evidence m e = EvidenceGives m e
KindGives ObjectKind.ci_evidence m e =
    EvidenceGives m e
    ⊎ OneGives m 14 ReferenceRole.ci_runner_identity (some ObjectKind.identity) e
    ⊎ OneGives m 15 ReferenceRole.ci_build_provenance (some ObjectKind.build_provenance) e
KindGives ObjectKind.policy_decision_evidence m e = EvidenceGives m e
KindGives ObjectKind.projection_rules m e =
    OneGives m 4 ReferenceRole.projection_rules_previous (some ObjectKind.projection_rules) e
KindGives ObjectKind.projection_proof m e =
    OneGives m 4 ReferenceRole.projection_source_snapshot (some ObjectKind.snapshot) e
    ⊎ OneGives m 5 ReferenceRole.projection_rules (some ObjectKind.projection_rules) e
    ⊎ OneGives m 6 ReferenceRole.projection_audience_policy (some ObjectKind.policy) e
    ⊎ OneGives m 7 ReferenceRole.projection_manifest (some ObjectKind.manifest) e
KindGives ObjectKind.build_provenance m e =
    OneGives m 3 ReferenceRole.build_snapshot (some ObjectKind.snapshot) e
    ⊎ OneGives m 4 ReferenceRole.build_ruleset (some ObjectKind.rule_set) e
    ⊎ OneGives m 5 ReferenceRole.build_identity (some ObjectKind.identity) e
    ⊎ FieldGives m 6 (ArrayGives (TypedGives ReferenceRole.build_input)) e
    ⊎ EachGives m 7 ReferenceRole.build_output (some ObjectKind.artifact) e
KindGives ObjectKind.artifact m e =
    OneGives m 8 ReferenceRole.artifact_blob (some ObjectKind.blob) e
KindGives ObjectKind.operation_payload m e =
    FieldGives m 4 (ArrayGives (TypedGives ReferenceRole.payload_reference)) e
KindGives ObjectKind.view m e =
    EachGives m 5 ReferenceRole.view_policy (some ObjectKind.policy) e
    ⊎ FieldGives m 6
        (ArrayGives (InnerGives ReferenceRole.view_line_state (some ObjectKind.line_state) 2)) e
    ⊎ OneGives m 7 ReferenceRole.view_manifest (some ObjectKind.manifest) e
KindGives ObjectKind.migration m e =
    FieldGives m 5 (ArrayGives MappingGives) e
    ⊎ OneGives m 6 ReferenceRole.migration_tool_identity (some ObjectKind.identity) e
KindGives ObjectKind.rule_set m e =
    OneGives m 5 ReferenceRole.ruleset_previous (some ObjectKind.rule_set) e

-- The edges that an object of this kind gives.
abbrev pub ObjectGives : ObjectKind → Value → Relation
ObjectGives kind = MapGives λ m e. PoliciesGive kind m e ⊎ KindGives kind m e
