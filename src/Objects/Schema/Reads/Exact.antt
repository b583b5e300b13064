-- ===== src/Objects/Schema/Reads/Exact.antt =====
-- The edges of every kind of object are those that its fields give, each of them once.
use rethinking_git.Base.{ℕ, none, some, List, [], ◌∷◌, ok, ◌≡◌, ◌⊎◌, ◌↔◌, In, Distinct, arith}
use rethinking_git.Objects.Canonical.{Value, Fields}
use rethinking_git.Objects.Reference.{ObjectKind, ReferenceRole, ReferenceEdge}
use rethinking_git.Objects.Schema.Edges.{
  policy_fields, policy_loop, kind_edges, pushed_edges, references,
}
use rethinking_git.Objects.Schema.Edges.Unique.{references-Distinct}
use rethinking_git.Objects.Schema.Reads.{
  Relation, Reads, same-Reads, nothing-Reads, join-Reads, join_one-Reads, optional-Reads,
}
use rethinking_git.Objects.Schema.Reads.Values.{map-Reads, inner_edge-Reads, add-Reads}
use rethinking_git.Objects.Schema.Reads.Described.{
  PolicyGives, PoliciesGive, KindGives, ObjectGives,
}
use rethinking_git.Objects.Schema.Reads.History.{
  blob_edges-Reads, manifest_edges-Reads, snapshot_edges-Reads, change_revision_edges-Reads,
  line_state_edges-Reads, conflict_edges-Reads, operation_edges-Reads, marker_edges-Reads,
  release_edges-Reads,
}
use rethinking_git.Objects.Schema.Reads.Trust.{
  policy_edges-Reads, repository_root_edges-Reads, identity_edges-Reads,
  group_membership_edges-Reads, change_relation_edges-Reads, conflict_resolution_edges-Reads,
  evidence_edges-Reads, ci_evidence_edges-Reads, projection_proof_edges-Reads,
  build_provenance_edges-Reads, operation_payload_edges-Reads, view_edges-Reads,
  migration_edges-Reads,
}

more-Reads :
    (m : Fields) (key : ℕ) (role : ReferenceRole) (fields : List (ℕ × ReferenceRole))
    (gives : Relation)
    → Reads (policy_loop m fields) gives
    → Reads (policy_loop m ((key, role) ∷ fields)) (λ e. PolicyGives m key role e ⊎ gives e)
unfolding policy_loop
more-Reads m key role fields gives reads =
    join-Reads _ _ _ _
      (optional-Reads m key _ _ (inner_edge-Reads role (some ObjectKind.policy) 1 key))
      (join_one-Reads _ _ reads)

last-Reads :
    (m : Fields) (key : ℕ) (role : ReferenceRole)
    → Reads (policy_loop m ((key, role) ∷ [])) (PolicyGives m key role)
unfolding policy_loop
last-Reads m key role =
    same-Reads _ _ _ (λ e. ground arith) (more-Reads m key role [] (λ e. ⊥) nothing-Reads)

policies-Reads :
    (kind : ObjectKind) (m : Fields)
    → Reads (policy_loop m (policy_fields kind)) (PoliciesGive kind m)
unfolding policy_fields PoliciesGive
policies-Reads ObjectKind.change_revision m =
    more-Reads m 2 _ _ _ (more-Reads m 14 _ _ _ (last-Reads m 15 _))
policies-Reads ObjectKind.line_state m =
    more-Reads m 2 _ _ _
      (more-Reads m 8 _ _ _ (more-Reads m 9 _ _ _ (more-Reads m 10 _ _ _ (last-Reads m 11 _))))
policies-Reads ObjectKind.release m = more-Reads m 2 _ _ _ (last-Reads m 6 _)
policies-Reads kind m = last-Reads m 2 ReferenceRole.object_policy

kind_edges-Reads : (kind : ObjectKind) (m : Fields) → Reads (kind_edges kind m) (KindGives kind m)
unfolding kind_edges KindGives
kind_edges-Reads ObjectKind.chunk m = nothing-Reads
kind_edges-Reads ObjectKind.blob m = blob_edges-Reads m
kind_edges-Reads ObjectKind.secret_ref m = add-Reads m 9 ReferenceRole.secret_development_value none
kind_edges-Reads ObjectKind.manifest m = manifest_edges-Reads m
kind_edges-Reads ObjectKind.subproject m =
    add-Reads m 6 ReferenceRole.subproject_native_projection none
kind_edges-Reads ObjectKind.snapshot m = snapshot_edges-Reads m
kind_edges-Reads ObjectKind.change_revision m = change_revision_edges-Reads m
kind_edges-Reads ObjectKind.line_state m = line_state_edges-Reads m
kind_edges-Reads ObjectKind.conflict m = conflict_edges-Reads m
kind_edges-Reads ObjectKind.operation m = operation_edges-Reads m
kind_edges-Reads ObjectKind.marker m = marker_edges-Reads m
kind_edges-Reads ObjectKind.release m = release_edges-Reads m
kind_edges-Reads ObjectKind.policy m = policy_edges-Reads m
kind_edges-Reads ObjectKind.repository_root m = repository_root_edges-Reads m
kind_edges-Reads ObjectKind.identity m = identity_edges-Reads m
kind_edges-Reads ObjectKind.group_membership m = group_membership_edges-Reads m
kind_edges-Reads ObjectKind.key_envelope_set m = nothing-Reads
kind_edges-Reads ObjectKind.change_relation m = change_relation_edges-Reads m
kind_edges-Reads ObjectKind.conflict_resolution m = conflict_resolution_edges-Reads m
kind_edges-Reads ObjectKind.review_evidence m = evidence_edges-Reads m
kind_edges-Reads ObjectKind.approval_evidence m = evidence_edges-Reads m
kind_edges-Reads ObjectKind.ci_evidence m = ci_evidence_edges-Reads m
kind_edges-Reads ObjectKind.policy_decision_evidence m = evidence_edges-Reads m
kind_edges-Reads ObjectKind.projection_rules m =
    add-Reads m 4 ReferenceRole.projection_rules_previous (some ObjectKind.projection_rules)
kind_edges-Reads ObjectKind.projection_proof m = projection_proof_edges-Reads m
kind_edges-Reads ObjectKind.build_provenance m = build_provenance_edges-Reads m
kind_edges-Reads ObjectKind.artifact m =
    add-Reads m 8 ReferenceRole.artifact_blob (some ObjectKind.blob)
kind_edges-Reads ObjectKind.operation_payload m = operation_payload_edges-Reads m
kind_edges-Reads ObjectKind.view m = view_edges-Reads m
kind_edges-Reads ObjectKind.migration m = migration_edges-Reads m
kind_edges-Reads ObjectKind.rule_set m =
    add-Reads m 5 ReferenceRole.ruleset_previous (some ObjectKind.rule_set)

pushed_edges-Reads :
    (kind : ObjectKind) (value : Value) → Reads (pushed_edges kind value) (ObjectGives kind value)
unfolding pushed_edges
pushed_edges-Reads kind value =
    map-Reads value _ _
      λ m. join-Reads _ _ _ _ (policies-Reads kind m) (join_one-Reads _ _ (kind_edges-Reads kind m))

-- When the references of an object can be read, they are exactly the edges that the fields of its
-- kind give: an edge is among them if and only if a field of this kind for policies or references
-- holds the identifier that the edge names, with the role and the expected kind of that field; and
-- none of them stands there twice.
pub references_exact :
    (kind : ObjectKind) (value : Value) (edges : List ReferenceEdge)
    → references kind value ≡ ok edges
    → Distinct edges × ((e : ReferenceEdge) → In e edges ↔ ObjectGives kind value e)
references_exact kind value edges h =
    let (once, (out, pushed, same_edges)) = references-Distinct kind value edges h in
    (once, λ e. ground (arith, same_edges e, pushed_edges-Reads kind value out pushed e))
