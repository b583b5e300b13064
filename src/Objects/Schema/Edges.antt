-- ===== src/Objects/Schema/Edges.antt =====
-- crates/rgit-objects/src/decode.rs, `references`: the edges of an object, each once.
pub mod Build
pub mod History
pub mod Trust
pub mod Unique
pub mod Total
pub mod Shared
pub mod Checked
pub mod Actions
pub mod Loops
pub mod Arrays
pub mod Contents
pub mod Trusted
pub mod Covered
use mathlib.Core.Bool.{true, false}
use rethinking_git.Base.{ℕ, none, some, List, [], ◌∷◌, ◌++◌, Result, ok, err, ◌>>=◌, list_contains}
use native.Mathlib.Decide.{ℕ_discrete}
use rethinking_git.Objects.Canonical.{Value, Fields}
use rethinking_git.Objects.Reference.{ObjectKind, ReferenceRole, ReferenceEdge}
use rethinking_git.Objects.Schema.{as_map, optional_field}
use rethinking_git.Objects.Schema.Edges.Build.{Edges, join, inner_edge, add, edges_if_some}
use rethinking_git.Objects.Schema.Edges.History.{
  blob_edges, manifest_edges, snapshot_edges, change_revision_edges, line_state_edges,
  release_edges, conflict_edges, marker_edges, operation_edges,
}
use rethinking_git.Objects.Schema.Edges.Trust.{
  policy_edges, repository_root_edges, identity_edges, group_membership_edges,
  change_relation_edges, conflict_resolution_edges, evidence_edges, ci_evidence_edges,
  projection_proof_edges, build_provenance_edges, operation_payload_edges, view_edges,
  migration_edges,
}

-- The derived equality of edges.
unfoldable pub ReferenceEdge-discrete : Discrete ReferenceEdge
ReferenceEdge-discrete = hlevel ℕ_discrete

-- The fields of a kind that hold a policy, with the roles of their edges.
unfoldable pub policy_fields : ObjectKind → List (ℕ × ReferenceRole)
policy_fields ObjectKind.change_revision =
    (2, ReferenceRole.object_policy)
    ∷ (14, ReferenceRole.review_policy)
    ∷ (15, ReferenceRole.landing_policy)
    ∷ []
policy_fields ObjectKind.line_state =
    (2, ReferenceRole.object_policy)
    ∷ (8, ReferenceRole.integration_policy)
    ∷ (9, ReferenceRole.approval_policy)
    ∷ (10, ReferenceRole.release_policy)
    ∷ (11, ReferenceRole.visibility_policy)
    ∷ []
policy_fields ObjectKind.release =
    (2, ReferenceRole.object_policy) ∷ (6, ReferenceRole.audience_policy) ∷ []
policy_fields _ = (2, ReferenceRole.object_policy) ∷ []

unfoldable pub policy_loop : Fields → List (ℕ × ReferenceRole) → Edges
policy_loop m [] = ok []
policy_loop m ((key, role) ∷ fields) = join (
    edges_if_some (optional_field m key) (inner_edge role (some ObjectKind.policy) 1 key)
    ∷ policy_loop m fields
    ∷ [])

-- The match on the kind.
unfoldable pub kind_edges : ObjectKind → Fields → Edges
kind_edges ObjectKind.chunk m = ok []
kind_edges ObjectKind.blob m = blob_edges m
kind_edges ObjectKind.secret_ref m = add m 9 ReferenceRole.secret_development_value none
kind_edges ObjectKind.manifest m = manifest_edges m
kind_edges ObjectKind.subproject m = add m 6 ReferenceRole.subproject_native_projection none
kind_edges ObjectKind.snapshot m = snapshot_edges m
kind_edges ObjectKind.change_revision m = change_revision_edges m
kind_edges ObjectKind.line_state m = line_state_edges m
kind_edges ObjectKind.conflict m = conflict_edges m
kind_edges ObjectKind.operation m = operation_edges m
kind_edges ObjectKind.marker m = marker_edges m
kind_edges ObjectKind.release m = release_edges m
kind_edges ObjectKind.policy m = policy_edges m
kind_edges ObjectKind.repository_root m = repository_root_edges m
kind_edges ObjectKind.identity m = identity_edges m
kind_edges ObjectKind.group_membership m = group_membership_edges m
kind_edges ObjectKind.key_envelope_set m = ok []
kind_edges ObjectKind.change_relation m = change_relation_edges m
kind_edges ObjectKind.conflict_resolution m = conflict_resolution_edges m
kind_edges ObjectKind.review_evidence m = evidence_edges m
kind_edges ObjectKind.approval_evidence m = evidence_edges m
kind_edges ObjectKind.ci_evidence m = ci_evidence_edges m
kind_edges ObjectKind.policy_decision_evidence m = evidence_edges m
kind_edges ObjectKind.projection_rules m =
    add m 4 ReferenceRole.projection_rules_previous (some ObjectKind.projection_rules)
kind_edges ObjectKind.projection_proof m = projection_proof_edges m
kind_edges ObjectKind.build_provenance m = build_provenance_edges m
kind_edges ObjectKind.artifact m = add m 8 ReferenceRole.artifact_blob (some ObjectKind.blob)
kind_edges ObjectKind.operation_payload m = operation_payload_edges m
kind_edges ObjectKind.view m = view_edges m
kind_edges ObjectKind.migration m = migration_edges m
kind_edges ObjectKind.rule_set m = add m 5 ReferenceRole.ruleset_previous (some ObjectKind.rule_set)

-- The last loop: an edge is kept unless it stands in `unique` already.
unfoldable pub keep_unique : List ReferenceEdge → List ReferenceEdge → List ReferenceEdge
keep_unique unique [] = unique
keep_unique unique (edge ∷ edges) =
    let without = keep_unique unique edges in
    let with_edge = keep_unique (unique ++ edge ∷ []) edges in
    elim (list_contains ReferenceEdge-discrete edge unique) [ true ↦ without | false ↦ with_edge ]

-- All edges, as they are pushed.
unfoldable pub pushed_edges : ObjectKind → Value → Edges
pushed_edges kind value = do
  m ← as_map value
  join (policy_loop m (policy_fields kind) ∷ kind_edges kind m ∷ [])

unfoldable pub references : ObjectKind → Value → Edges
references kind value = do out ← pushed_edges kind value; ok (keep_unique [] out)
