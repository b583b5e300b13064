-- ===== src/Objects/Schema/Edges/Covered.antt =====
-- Fields that pass the schema of their kind give all their edges without an error.
use rethinking_git.Base.{
  ok, Bool, false, ◌≡◌, refl, arith, ◌>>=◌, some, none, ℕ, ◌||◌, List, [], ◌∷◌, Option, inl, inr,
  not, Bool-cases, All,
}
use rethinking_git.Objects.Canonical.{Fields, Value}
use rethinking_git.Objects.Reference.{ObjectKind, ReferenceRole}
use rethinking_git.Objects.Signature.{SignaturePurpose}
use rethinking_git.Objects.Unicode.{Unicode}
use rethinking_git.Objects.Schema.{
  Check, field, array, each, if_some, checked, optional_field, keys_of, as_map, has_field,
}
use rethinking_git.Objects.Schema.Parts.{at_field, oid_at, oid_if_some, typed_ref, policy_ref, when}
use rethinking_git.Objects.Schema.Content.{secret_ref_shape, subproject_shape}
use rethinking_git.Objects.Schema.Changes.{change_revision_shape, line_state_shape}
use rethinking_git.Objects.Schema.Operations.{marker_shape, operation_payload_shape, release_shape}
use rethinking_git.Objects.Schema.Evidence.{
  evidence_shape, ci_evidence_shape, artifact_shape, projection_rules_shape, rule_set_shape,
}
use rethinking_git.Objects.Schema.Validate.{
  validate_shapes, validate_fields, schema_keys, check_keys, policy_is_optional,
}
use rethinking_git.Objects.Schema.Edges.{
  policy_fields, policy_loop, kind_edges, keep_unique, pushed_edges, references,
}
use rethinking_git.Objects.Schema.Edges.Build.{join, inner_edge, edges_if_some}
use rethinking_git.Objects.Schema.Edges.History.{marker_edges}
use rethinking_git.Objects.Schema.Edges.Trust.{ci_evidence_edges, operation_payload_edges}
use rethinking_git.Objects.Schema.Edges.Total.{
  Succeeds, >>-ok, add-Succeeds, oid_at-if_some, join-Succeeds,
}
use rethinking_git.Objects.Schema.Edges.Shared.{
  policy_edge-Succeeds, typed_field-Succeeds, typed_array-Succeeds,
}
use rethinking_git.Objects.Schema.Edges.Checked.{
  snapshot_edges-Succeeds, change_revision_edges-Succeeds, line_state_edges-Succeeds,
  release_edges-Succeeds, conflict_edges-Succeeds,
}
use rethinking_git.Objects.Schema.Edges.Trusted.{
  policy_edges-Succeeds, repository_root_edges-Succeeds, group_membership_edges-Succeeds,
  change_relation_edges-Succeeds, conflict_resolution_edges-Succeeds, evidence_edges-Succeeds,
  projection_proof_edges-Succeeds, build_provenance_edges-Succeeds,
}
use rethinking_git.Objects.Schema.Edges.Arrays.{
  operation_edges-Succeeds, identity_edges-Succeeds, view_edges-Succeeds, migration_edges-Succeeds,
}
use rethinking_git.Objects.Schema.Edges.Contents.{blob_edges-Succeeds, manifest_edges-Succeeds}

marker_edges-Succeeds : (m : Fields) → marker_shape m ≡ ok tt → Succeeds (marker_edges m)
unfolding marker_shape marker_edges
marker_edges-Succeeds m h =
    let c : at_field typed_ref m 4 ≡ ok tt = ground arith in
    typed_field-Succeeds ReferenceRole.marker_target m 4 c

ci_checks :
    (is_utf8 is_nfc : List ℕ → Bool) (m : Fields)
    → ci_evidence_shape is_utf8 is_nfc m ≡ ok tt
    → (evidence_shape is_utf8 is_nfc SignaturePurpose.ci_evidence m ≡ ok tt)
      × (oid_at m 14 ≡ ok tt)
      × (oid_if_some m 15 ≡ ok tt)
unfolding ci_evidence_shape
ci_checks is_utf8 is_nfc m h = ground arith

ci_evidence_edges-Succeeds :
    (is_utf8 is_nfc : List ℕ → Bool) (m : Fields)
    → ci_evidence_shape is_utf8 is_nfc m ≡ ok tt
    → Succeeds (ci_evidence_edges m)
unfolding ci_evidence_edges
ci_evidence_edges-Succeeds is_utf8 is_nfc m h =
    let (c, c₁₄, c₁₅) = ci_checks is_utf8 is_nfc m h in
    join-Succeeds _ (
      evidence_edges-Succeeds is_utf8 is_nfc SignaturePurpose.ci_evidence m c,
      (
        add-Succeeds m 14 ReferenceRole.ci_runner_identity (some ObjectKind.identity)
            (oid_at-if_some m 14 c₁₄),
        (
          add-Succeeds m 15 ReferenceRole.ci_build_provenance (some ObjectKind.build_provenance)
              c₁₅,
          tt,
        ),
      ),
    )

payload_check :
    (is_utf8 is_nfc : List ℕ → Bool) (m : Fields)
    → operation_payload_shape is_utf8 is_nfc m ≡ ok tt
    → (at_field array m 4 >>= each (λ value. typed_ref value 4)) ≡ ok tt
unfolding operation_payload_shape
payload_check is_utf8 is_nfc m h = ground arith

-- A field that a schema checks at its end.
secret_check : (m : Fields) → secret_ref_shape m ≡ ok tt → oid_if_some m 9 ≡ ok tt
unfolding secret_ref_shape
secret_check m h = ground arith

subproject_check : (m : Fields) → subproject_shape m ≡ ok tt → oid_if_some m 6 ≡ ok tt
unfolding subproject_shape
subproject_check m h = ground arith

artifact_check : (m : Fields) → artifact_shape m ≡ ok tt → oid_if_some m 8 ≡ ok tt
unfolding artifact_shape
artifact_check m h = ground arith

rules_check :
    (is_utf8 is_nfc : List ℕ → Bool) (m : Fields)
    → projection_rules_shape is_utf8 is_nfc m ≡ ok tt
    → oid_if_some m 4 ≡ ok tt
unfolding projection_rules_shape
rules_check is_utf8 is_nfc m h = ground arith

rule_set_check :
    (is_utf8 is_nfc : List ℕ → Bool) (m : Fields)
    → rule_set_shape is_utf8 is_nfc m ≡ ok tt
    → oid_if_some m 5 ≡ ok tt
unfolding rule_set_shape
rule_set_check is_utf8 is_nfc m h = ground arith

-- The field of a release's notes, which no schema checks.
abbrev pub notes_check : ObjectKind → Fields → Check
notes_check ObjectKind.release m = oid_if_some m 11
notes_check _ m = ok tt

module _ (unicode : Unicode) where
  open unicode use {is_utf8, is_nfc}

  kind_edges-Succeeds :
      (kind : ObjectKind) (schema : ℕ) (m : Fields)
      → validate_shapes unicode kind schema m ≡ ok tt
      → notes_check kind m ≡ ok tt
      → Succeeds (kind_edges kind m)
  unfolding validate_shapes kind_edges operation_payload_edges
  kind_edges-Succeeds ObjectKind.chunk schema m h n = ([], refl)
  kind_edges-Succeeds ObjectKind.blob schema m h n = blob_edges-Succeeds m h
  kind_edges-Succeeds ObjectKind.secret_ref schema m h n =
      add-Succeeds m 9 ReferenceRole.secret_development_value none (secret_check m h)
  kind_edges-Succeeds ObjectKind.manifest schema m h n = manifest_edges-Succeeds unicode m h
  kind_edges-Succeeds ObjectKind.subproject schema m h n =
      add-Succeeds m 6 ReferenceRole.subproject_native_projection none (subproject_check m h)
  kind_edges-Succeeds ObjectKind.snapshot schema m h n = snapshot_edges-Succeeds m h
  kind_edges-Succeeds ObjectKind.change_revision schema m h n = change_revision_edges-Succeeds m h
  kind_edges-Succeeds ObjectKind.line_state schema m h n = line_state_edges-Succeeds m h
  kind_edges-Succeeds ObjectKind.conflict schema m h n = conflict_edges-Succeeds unicode m h
  kind_edges-Succeeds ObjectKind.operation schema m h n = operation_edges-Succeeds schema m h
  kind_edges-Succeeds ObjectKind.marker schema m h n = marker_edges-Succeeds m h
  kind_edges-Succeeds ObjectKind.release schema m h n = release_edges-Succeeds is_nfc m h n
  kind_edges-Succeeds ObjectKind.policy schema m h n = policy_edges-Succeeds is_nfc m h
  kind_edges-Succeeds ObjectKind.repository_root schema m h n =
      repository_root_edges-Succeeds is_nfc m h
  kind_edges-Succeeds ObjectKind.identity schema m h n = identity_edges-Succeeds is_nfc m h
  kind_edges-Succeeds ObjectKind.group_membership schema m h n =
      group_membership_edges-Succeeds is_nfc m h
  kind_edges-Succeeds ObjectKind.key_envelope_set schema m h n = ([], refl)
  kind_edges-Succeeds ObjectKind.change_relation schema m h n = change_relation_edges-Succeeds m h
  kind_edges-Succeeds ObjectKind.conflict_resolution schema m h n =
      conflict_resolution_edges-Succeeds unicode m h
  kind_edges-Succeeds ObjectKind.review_evidence schema m h n =
      evidence_edges-Succeeds is_utf8 is_nfc SignaturePurpose.review_evidence m h
  kind_edges-Succeeds ObjectKind.approval_evidence schema m h n =
      evidence_edges-Succeeds is_utf8 is_nfc SignaturePurpose.approval_evidence m h
  kind_edges-Succeeds ObjectKind.ci_evidence schema m h n =
      ci_evidence_edges-Succeeds is_utf8 is_nfc m h
  kind_edges-Succeeds ObjectKind.policy_decision_evidence schema m h n =
      evidence_edges-Succeeds is_utf8 is_nfc SignaturePurpose.policy_decision_evidence m h
  kind_edges-Succeeds ObjectKind.projection_rules schema m h n =
      add-Succeeds m 4 ReferenceRole.projection_rules_previous (some ObjectKind.projection_rules)
        (rules_check is_utf8 is_nfc m h)
  kind_edges-Succeeds ObjectKind.projection_proof schema m h n = projection_proof_edges-Succeeds m h
  kind_edges-Succeeds ObjectKind.build_provenance schema m h n =
      build_provenance_edges-Succeeds is_utf8 is_nfc m h
  kind_edges-Succeeds ObjectKind.artifact schema m h n =
      add-Succeeds m 8 ReferenceRole.artifact_blob (some ObjectKind.blob) (artifact_check m h)
  kind_edges-Succeeds ObjectKind.operation_payload schema m h n =
      typed_array-Succeeds ReferenceRole.payload_reference m 4 (payload_check is_utf8 is_nfc m h)
  kind_edges-Succeeds ObjectKind.view schema m h n = view_edges-Succeeds is_utf8 is_nfc m h
  kind_edges-Succeeds ObjectKind.migration schema m h n =
      migration_edges-Succeeds is_utf8 is_nfc m h
  kind_edges-Succeeds ObjectKind.rule_set schema m h n =
      add-Succeeds m 5 ReferenceRole.ruleset_previous (some ObjectKind.rule_set)
        (rule_set_check is_utf8 is_nfc m h)

-- A policy that is checked where there is one.
abbrev policy_if_some : Fields → ℕ → Check
policy_if_some m key = if_some (optional_field m key) (λ v. policy_ref v key)

policy_present :
    (m : Fields) (key : ℕ) → at_field policy_ref m key ≡ ok tt → policy_if_some m key ≡ ok tt
unfolding field
policy_present m key h = ground arith

optional_policy :
    (role : ReferenceRole) (key : ℕ) (value : Option Value)
    → if_some value (λ v. policy_ref v key) ≡ ok tt
    → Succeeds (edges_if_some value (inner_edge role (some ObjectKind.policy) 1 key))
optional_policy role key none h = ([], refl)
optional_policy role key (some value) h = policy_edge-Succeeds role key value h

policy_loop-Succeeds :
    (m : Fields) (fields : List (ℕ × ReferenceRole))
    → All (λ f. policy_if_some m f.0 ≡ ok tt) fields
    → Succeeds (policy_loop m fields)
unfolding policy_loop
policy_loop-Succeeds m [] a = ([], refl)
policy_loop-Succeeds m ((key, role) ∷ fields) (now, later) =
    join-Succeeds _ (
      optional_policy role key (optional_field m key) now,
      (policy_loop-Succeeds m fields later, tt),
    )

no_field : (m : Fields) (key : ℕ) → has_field m key ≡ false → optional_field m key ≡ none
unfolding optional_field
no_field Fields.no_fields key h = refl
no_field (Fields.field k value m) key h = ground (arith, no_field m key)

revision_policies :
    (m : Fields)
    → change_revision_shape m ≡ ok tt
    → (at_field policy_ref m 14 ≡ ok tt) × (at_field policy_ref m 15 ≡ ok tt)
unfolding change_revision_shape each
revision_policies m h = ground arith

line_policies :
    (m : Fields)
    → line_state_shape m ≡ ok tt
    → (at_field policy_ref m 8 ≡ ok tt)
      × (at_field policy_ref m 9 ≡ ok tt)
      × (at_field policy_ref m 10 ≡ ok tt)
      × (at_field policy_ref m 11 ≡ ok tt)
unfolding line_state_shape each
line_policies m h = ground arith

release_policy :
    (is_nfc : List ℕ → Bool) (m : Fields)
    → release_shape is_nfc m ≡ ok tt
    → at_field policy_ref m 6 ≡ ok tt
unfolding release_shape each
release_policy is_nfc m h = ground arith

module _ (unicode : Unicode) where
  open unicode use {is_utf8, is_nfc}

  policies :
      (kind : ObjectKind) (schema : ℕ) (m : Fields)
      → policy_if_some m 2 ≡ ok tt
      → validate_shapes unicode kind schema m ≡ ok tt
      → All (λ f. policy_if_some m f.0 ≡ ok tt) (policy_fields kind)
  unfolding policy_fields validate_shapes
  policies ObjectKind.chunk schema m p h = (p, tt)
  policies ObjectKind.blob schema m p h = (p, tt)
  policies ObjectKind.secret_ref schema m p h = (p, tt)
  policies ObjectKind.manifest schema m p h = (p, tt)
  policies ObjectKind.subproject schema m p h = (p, tt)
  policies ObjectKind.snapshot schema m p h = (p, tt)
  policies ObjectKind.change_revision schema m p h =
      let (c₁₄, c₁₅) = revision_policies m h in
      (p, (policy_present m 14 c₁₄, (policy_present m 15 c₁₅, tt)))
  policies ObjectKind.line_state schema m p h =
      let (c₈, c₉, c₁₀, c₁₁) = line_policies m h in
      (
        p,
        (
          policy_present m 8 c₈,
          (policy_present m 9 c₉, (policy_present m 10 c₁₀, (policy_present m 11 c₁₁, tt))),
        ),
      )
  policies ObjectKind.conflict schema m p h = (p, tt)
  policies ObjectKind.operation schema m p h = (p, tt)
  policies ObjectKind.marker schema m p h = (p, tt)
  policies ObjectKind.release schema m p h =
      (p, (policy_present m 6 (release_policy is_nfc m h), tt))
  policies ObjectKind.policy schema m p h = (p, tt)
  policies ObjectKind.repository_root schema m p h = (p, tt)
  policies ObjectKind.identity schema m p h = (p, tt)
  policies ObjectKind.group_membership schema m p h = (p, tt)
  policies ObjectKind.key_envelope_set schema m p h = (p, tt)
  policies ObjectKind.change_relation schema m p h = (p, tt)
  policies ObjectKind.conflict_resolution schema m p h = (p, tt)
  policies ObjectKind.review_evidence schema m p h = (p, tt)
  policies ObjectKind.approval_evidence schema m p h = (p, tt)
  policies ObjectKind.ci_evidence schema m p h = (p, tt)
  policies ObjectKind.policy_decision_evidence schema m p h = (p, tt)
  policies ObjectKind.projection_rules schema m p h = (p, tt)
  policies ObjectKind.projection_proof schema m p h = (p, tt)
  policies ObjectKind.build_provenance schema m p h = (p, tt)
  policies ObjectKind.artifact schema m p h = (p, tt)
  policies ObjectKind.operation_payload schema m p h = (p, tt)
  policies ObjectKind.view schema m p h = (p, tt)
  policies ObjectKind.migration schema m p h = (p, tt)
  policies ObjectKind.rule_set schema m p h = (p, tt)

  object_policy :
      (kind : ObjectKind) (m : Fields)
      → when (not (policy_is_optional kind) || has_field m 2) (at_field policy_ref m 2) ≡ ok tt
      → policy_if_some m 2 ≡ ok tt
  object_policy kind m h = elim (Bool-cases (has_field m 2)) [
    | inl t ↦ policy_present m 2 (ground (arith, t))
    | inr f ↦ elim (Bool-cases (policy_is_optional kind)) [
      | inl o ↦ ground (arith, no_field m 2 f)
      | inr o ↦ policy_present m 2 (ground (arith, o))
    ]
  ]

  pub references-Succeeds :
      (kind : ObjectKind) (schema : ℕ) (value : Value) (m : Fields)
      → as_map value ≡ ok m
      → validate_fields unicode kind schema m ≡ ok tt
      → notes_check kind m ≡ ok tt
      → Succeeds (references kind value)
  unfolding validate_fields pushed_edges references
  references-Succeeds kind schema value m e h n =
      let (_, h₁) = >>-ok (each (λ key. checked (field m key)) (schema_keys kind).0) _ h in
      let (_, h₂) = >>-ok (check_keys (schema_keys kind) (keys_of m)) _ h₁ in
      let (p, h₃) =
        >>-ok (when (not (policy_is_optional kind) || has_field m 2) (at_field policy_ref m 2)) _
          h₂ in
      let all_policies = policies kind schema m (object_policy kind m p) h₃ in
      let both : Succeeds (join (policy_loop m (policy_fields kind) ∷ kind_edges kind m ∷ [])) =
        join-Succeeds _ (
          policy_loop-Succeeds m (policy_fields kind) all_policies,
          (kind_edges-Succeeds unicode kind schema m h₃ n, tt),
        ) in
      (keep_unique [] both.0, ground (arith, e, both.1))
