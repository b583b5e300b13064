-- ===== src/Objects/Schema/Edges/Trusted.antt =====
-- Policies, identities, resolutions, evidence and builds: their edges are read without an error.
use rethinking_git.Base.{ok, Bool, ◌≡◌, arith, ◌>>=◌, some, ℕ, List}
use rethinking_git.Objects.Canonical.{Fields}
use rethinking_git.Objects.Reference.{ObjectKind, ReferenceRole}
use rethinking_git.Objects.Signature.{SignaturePurpose}
use rethinking_git.Objects.Unicode.{Unicode}
use rethinking_git.Objects.Schema.{array, oid_values, each, checked}
use rethinking_git.Objects.Schema.Parts.{oid_at, oid_if_some, at_field, typed_ref}
use rethinking_git.Objects.Schema.Changes.{change_relation_shape, conflict_resolution_shape}
use rethinking_git.Objects.Schema.Trust.{
  policy_shape, repository_root_shape, group_membership_shape,
}
use rethinking_git.Objects.Schema.Evidence.{
  evidence_shape, projection_proof_shape, build_provenance_shape,
}
use rethinking_git.Objects.Schema.Edges.Trust.{
  policy_edges, repository_root_edges, group_membership_edges, change_relation_edges,
  conflict_resolution_edges, evidence_edges, projection_proof_edges, build_provenance_edges,
}
use rethinking_git.Objects.Schema.Edges.Total.{Succeeds, add-Succeeds, join-Succeeds}
use rethinking_git.Objects.Schema.Edges.Checked.{required, listed}
use rethinking_git.Objects.Schema.Edges.Shared.{typed_field-Succeeds, typed_array-Succeeds}

policy_checks :
    (is_nfc : List ℕ → Bool) (m : Fields)
    → policy_shape is_nfc m ≡ ok tt
    → (oid_if_some m 5 ≡ ok tt)
      × (oid_at m 12 ≡ ok tt)
      × (checked (at_field oid_values m 10) ≡ ok tt)
unfolding policy_shape each
policy_checks is_nfc m h = ground arith

pub policy_edges-Succeeds :
    (is_nfc : List ℕ → Bool) (m : Fields)
    → policy_shape is_nfc m ≡ ok tt
    → Succeeds (policy_edges m)
unfolding policy_edges
policy_edges-Succeeds is_nfc m h =
    let (c5, c12, c10) = policy_checks is_nfc m h in
    join-Succeeds _ (
      add-Succeeds m 5 ReferenceRole.policy_previous_version (some ObjectKind.policy) c5,
      (
        required m 12 ReferenceRole.policy_key_envelope_set (some ObjectKind.key_envelope_set) c12,
        (
          listed m 10 ReferenceRole.policy_declassification_requirement
              ObjectKind.policy_decision_evidence c10,
          tt,
        ),
      ),
    )

repository_root_checks :
    (is_nfc : List ℕ → Bool) (m : Fields)
    → repository_root_shape is_nfc m ≡ ok tt
    → (oid_at m 4 ≡ ok tt)
      × (checked (at_field oid_values m 5) ≡ ok tt)
      × (oid_at m 6 ≡ ok tt)
      × (oid_at m 7 ≡ ok tt)
      × (checked (at_field oid_values m 8) ≡ ok tt)
unfolding repository_root_shape each
repository_root_checks is_nfc m h = ground arith

pub repository_root_edges-Succeeds :
    (is_nfc : List ℕ → Bool) (m : Fields)
    → repository_root_shape is_nfc m ≡ ok tt
    → Succeeds (repository_root_edges m)
unfolding repository_root_edges
repository_root_edges-Succeeds is_nfc m h =
    let (c4, c5, c6, c7, c8) = repository_root_checks is_nfc m h in
    join-Succeeds _ (
      required m 4 ReferenceRole.repository_root_policy (some ObjectKind.policy) c4,
      (
        listed m 5 ReferenceRole.repository_trusted_identity ObjectKind.identity c5,
        (
          required m 6 ReferenceRole.repository_bootstrap_key_envelope_set
              (some ObjectKind.key_envelope_set) c6,
          (
            required m 7 ReferenceRole.repository_genesis_operation (some ObjectKind.operation) c7,
            (listed m 8 ReferenceRole.repository_initial_line_state ObjectKind.line_state c8, tt),
          ),
        ),
      ),
    )

group_membership_checks :
    (is_nfc : List ℕ → Bool) (m : Fields)
    → group_membership_shape is_nfc m ≡ ok tt
    → (oid_if_some m 6 ≡ ok tt) × (oid_at m 10 ≡ ok tt) × (oid_if_some m 11 ≡ ok tt)
unfolding group_membership_shape each
group_membership_checks is_nfc m h = ground arith

pub group_membership_edges-Succeeds :
    (is_nfc : List ℕ → Bool) (m : Fields)
    → group_membership_shape is_nfc m ≡ ok tt
    → Succeeds (group_membership_edges m)
unfolding group_membership_edges
group_membership_edges-Succeeds is_nfc m h =
    let (c6, c10, c11) = group_membership_checks is_nfc m h in
    join-Succeeds _ (
      add-Succeeds m 6 ReferenceRole.membership_previous (some ObjectKind.group_membership) c6,
      (
        required m 10 ReferenceRole.membership_activation_operation (some ObjectKind.operation) c10,
        (
          add-Succeeds m 11 ReferenceRole.membership_not_after_operation (some ObjectKind.operation)
              c11,
          tt,
        ),
      ),
    )

change_relation_checks :
    (m : Fields)
    → change_relation_shape m ≡ ok tt
    → (checked (at_field oid_values m 4) ≡ ok tt)
      × (checked (at_field oid_values m 5) ≡ ok tt)
      × (checked (at_field oid_values m 6) ≡ ok tt)
      × (oid_at m 7 ≡ ok tt)
unfolding change_relation_shape each
change_relation_checks m h = ground arith

pub change_relation_edges-Succeeds :
    (m : Fields) → change_relation_shape m ≡ ok tt → Succeeds (change_relation_edges m)
unfolding change_relation_edges
change_relation_edges-Succeeds m h =
    let (c4, c5, c6, c7) = change_relation_checks m h in
    join-Succeeds _ (
      listed m 4 ReferenceRole.change_relation_source ObjectKind.change_revision c4,
      (
        listed m 5 ReferenceRole.change_relation_result ObjectKind.change_revision c5,
        (
          listed m 6 ReferenceRole.change_relation_provenance ObjectKind.snapshot c6,
          (required m 7 ReferenceRole.change_relation_operation (some ObjectKind.operation) c7, tt),
        ),
      ),
    )

conflict_resolution_checks :
    (unicode : Unicode) (m : Fields)
    → conflict_resolution_shape unicode m ≡ ok tt
    → (oid_at m 3 ≡ ok tt)
      × (at_field typed_ref m 4 ≡ ok tt)
      × ((at_field array m 8 >>= each (λ value. typed_ref value 8)) ≡ ok tt)
unfolding conflict_resolution_shape each
conflict_resolution_checks unicode m h = ground arith

pub conflict_resolution_edges-Succeeds :
    (unicode : Unicode) (m : Fields)
    → conflict_resolution_shape unicode m ≡ ok tt
    → Succeeds (conflict_resolution_edges m)
unfolding conflict_resolution_edges
conflict_resolution_edges-Succeeds unicode m h =
    let (c3, c4, c8) = conflict_resolution_checks unicode m h in
    join-Succeeds _ (
      required m 3 ReferenceRole.resolution_conflict (some ObjectKind.conflict) c3,
      (
        typed_field-Succeeds ReferenceRole.resolution_result m 4 c4,
        (typed_array-Succeeds ReferenceRole.resolution_provenance m 8 c8, tt),
      ),
    )

evidence_checks :
    (is_utf8 is_nfc : List ℕ → Bool) (purpose : SignaturePurpose) (m : Fields)
    → evidence_shape is_utf8 is_nfc purpose m ≡ ok tt
    → (at_field typed_ref m 3 ≡ ok tt)
      × (oid_at m 4 ≡ ok tt)
      × (oid_at m 5 ≡ ok tt)
      × ((at_field array m 10 >>= each (λ value. typed_ref value 10)) ≡ ok tt)
unfolding evidence_shape each
evidence_checks is_utf8 is_nfc purpose m h = ground arith

pub evidence_edges-Succeeds :
    (is_utf8 is_nfc : List ℕ → Bool) (purpose : SignaturePurpose) (m : Fields)
    → evidence_shape is_utf8 is_nfc purpose m ≡ ok tt
    → Succeeds (evidence_edges m)
unfolding evidence_edges
evidence_edges-Succeeds is_utf8 is_nfc purpose m h =
    let (c3, c4, c5, c10) = evidence_checks is_utf8 is_nfc purpose m h in
    join-Succeeds _ (
      typed_field-Succeeds ReferenceRole.evidence_target m 3 c3,
      (
        required m 4 ReferenceRole.evidence_snapshot (some ObjectKind.snapshot) c4,
        (
          required m 5 ReferenceRole.evidence_ruleset (some ObjectKind.rule_set) c5,
          (typed_array-Succeeds ReferenceRole.evidence_related m 10 c10, tt),
        ),
      ),
    )

projection_proof_checks :
    (m : Fields)
    → projection_proof_shape m ≡ ok tt
    → (oid_at m 4 ≡ ok tt) × (oid_at m 5 ≡ ok tt) × (oid_at m 6 ≡ ok tt) × (oid_at m 7 ≡ ok tt)
unfolding projection_proof_shape each
projection_proof_checks m h = ground arith

pub projection_proof_edges-Succeeds :
    (m : Fields) → projection_proof_shape m ≡ ok tt → Succeeds (projection_proof_edges m)
unfolding projection_proof_edges
projection_proof_edges-Succeeds m h =
    let (c4, c5, c6, c7) = projection_proof_checks m h in
    join-Succeeds _ (
      required m 4 ReferenceRole.projection_source_snapshot (some ObjectKind.snapshot) c4,
      (
        required m 5 ReferenceRole.projection_rules (some ObjectKind.projection_rules) c5,
        (
          required m 6 ReferenceRole.projection_audience_policy (some ObjectKind.policy) c6,
          (required m 7 ReferenceRole.projection_manifest (some ObjectKind.manifest) c7, tt),
        ),
      ),
    )

build_provenance_checks :
    (is_utf8 is_nfc : List ℕ → Bool) (m : Fields)
    → build_provenance_shape is_utf8 is_nfc m ≡ ok tt
    → (oid_at m 3 ≡ ok tt)
      × (oid_at m 4 ≡ ok tt)
      × (oid_at m 5 ≡ ok tt)
      × ((at_field array m 6 >>= each (λ value. typed_ref value 6)) ≡ ok tt)
      × (checked (at_field oid_values m 7) ≡ ok tt)
unfolding build_provenance_shape each
build_provenance_checks is_utf8 is_nfc m h = ground arith

pub build_provenance_edges-Succeeds :
    (is_utf8 is_nfc : List ℕ → Bool) (m : Fields)
    → build_provenance_shape is_utf8 is_nfc m ≡ ok tt
    → Succeeds (build_provenance_edges m)
unfolding build_provenance_edges
build_provenance_edges-Succeeds is_utf8 is_nfc m h =
    let (c3, c4, c5, c6, c7) = build_provenance_checks is_utf8 is_nfc m h in
    join-Succeeds _ (
      required m 3 ReferenceRole.build_snapshot (some ObjectKind.snapshot) c3,
      (
        required m 4 ReferenceRole.build_ruleset (some ObjectKind.rule_set) c4,
        (
          required m 5 ReferenceRole.build_identity (some ObjectKind.identity) c5,
          (
            typed_array-Succeeds ReferenceRole.build_input m 6 c6,
            (listed m 7 ReferenceRole.build_output ObjectKind.artifact c7, tt),
          ),
        ),
      ),
    )
