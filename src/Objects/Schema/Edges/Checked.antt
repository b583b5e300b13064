-- ===== src/Objects/Schema/Edges/Checked.antt =====
-- The schemas that check each identifier where it stands: their edges are read without an error.
use rethinking_git.Base.{ok, Bool, ◌≡◌, arith, some, ℕ, List}
use rethinking_git.Objects.Canonical.{Fields}
use rethinking_git.Objects.Reference.{ObjectKind, ReferenceRole}
use rethinking_git.Objects.Unicode.{Unicode}
use rethinking_git.Objects.Schema.{oid_array, oid_values, each, checked}
use rethinking_git.Objects.Schema.Parts.{oid_at, oid_if_some, at_field, typed_ref}
use rethinking_git.Objects.Schema.Changes.{
  snapshot_shape, line_state_shape, change_revision_shape, conflict_shape,
}
use rethinking_git.Objects.Schema.Operations.{release_shape}
use rethinking_git.Objects.Schema.Edges.History.{
  snapshot_edges, change_revision_edges, line_state_edges, release_edges, conflict_edges,
}
use rethinking_git.Objects.Schema.Edges.Build.{add, array_edges}
use rethinking_git.Objects.Schema.Edges.Total.{
  Succeeds, add-Succeeds, oid_at-if_some, join-Succeeds, array_edges-Succeeds, oid_values-oid_array,
}
use rethinking_git.Objects.Schema.Edges.Shared.{typed_field-Succeeds}
use rethinking_git.Base.{Option}

-- A required identifier.
pub required :
    (m : Fields) (key : ℕ) (role : ReferenceRole) (expected : Option ObjectKind)
    → oid_at m key ≡ ok tt
    → Succeeds (add m key role expected)
required m key role expected h = add-Succeeds m key role expected (oid_at-if_some m key h)

-- Identifiers that were read as a list.
pub listed :
    (m : Fields) (key : ℕ) (role : ReferenceRole) (expected : ObjectKind)
    → checked (at_field oid_values m key) ≡ ok tt
    → Succeeds (array_edges m key role expected)
listed m key role expected h =
    array_edges-Succeeds m key role expected (oid_values-oid_array m key h)

snapshot_checks :
    (m : Fields)
    → snapshot_shape m ≡ ok tt
    → (oid_at m 3 ≡ ok tt)
      × (oid_if_some m 10 ≡ ok tt)
      × (checked (at_field oid_values m 4) ≡ ok tt)
unfolding snapshot_shape each
snapshot_checks m h = ground arith

pub snapshot_edges-Succeeds : (m : Fields) → snapshot_shape m ≡ ok tt → Succeeds (snapshot_edges m)
unfolding snapshot_edges
snapshot_edges-Succeeds m h =
    let (c3, c10, c4) = snapshot_checks m h in
    join-Succeeds _ (
      required m 3 ReferenceRole.snapshot_root_manifest (some ObjectKind.manifest) c3,
      (
        add-Succeeds m 10 ReferenceRole.snapshot_message (some ObjectKind.blob) c10,
        (listed m 4 ReferenceRole.snapshot_parent ObjectKind.snapshot c4, tt),
      ),
    )

change_revision_checks :
    (m : Fields)
    → change_revision_shape m ≡ ok tt
    → (oid_if_some m 4 ≡ ok tt)
      × (oid_at m 5 ≡ ok tt)
      × (oid_at m 6 ≡ ok tt)
      × (oid_at m 7 ≡ ok tt)
      × (oid_at m 8 ≡ ok tt)
unfolding change_revision_shape each
change_revision_checks m h = ground arith

pub change_revision_edges-Succeeds :
    (m : Fields) → change_revision_shape m ≡ ok tt → Succeeds (change_revision_edges m)
unfolding change_revision_edges
change_revision_edges-Succeeds m h =
    let (c4, c5, c6, c7, c8) = change_revision_checks m h in
    join-Succeeds _ (
      add-Succeeds m 4 ReferenceRole.change_previous_revision (some ObjectKind.change_revision) c4,
      (
        required m 5 ReferenceRole.change_title (some ObjectKind.blob) c5,
        (
          required m 6 ReferenceRole.change_description (some ObjectKind.blob) c6,
          (
            required m 7 ReferenceRole.change_base_snapshot (some ObjectKind.snapshot) c7,
            (required m 8 ReferenceRole.change_current_snapshot (some ObjectKind.snapshot) c8, tt),
          ),
        ),
      ),
    )

line_state_checks :
    (m : Fields)
    → line_state_shape m ≡ ok tt
    → (oid_at m 5 ≡ ok tt) × (oid_if_some m 7 ≡ ok tt) × (oid_at m 12 ≡ ok tt)
unfolding line_state_shape each
line_state_checks m h = ground arith

pub line_state_edges-Succeeds :
    (m : Fields) → line_state_shape m ≡ ok tt → Succeeds (line_state_edges m)
unfolding line_state_edges
line_state_edges-Succeeds m h =
    let (c5, c7, c12) = line_state_checks m h in
    join-Succeeds _ (
      required m 5 ReferenceRole.line_head_snapshot (some ObjectKind.snapshot) c5,
      (
        add-Succeeds m 7 ReferenceRole.line_previous_state (some ObjectKind.line_state) c7,
        (
          required m 12 ReferenceRole.line_transaction_operation (some ObjectKind.operation) c12,
          tt,
        ),
      ),
    )

release_checks :
    (is_nfc : List ℕ → Bool) (m : Fields)
    → release_shape is_nfc m ≡ ok tt
    → (oid_at m 5 ≡ ok tt)
      × (oid_at m 7 ≡ ok tt)
      × (oid_at m 8 ≡ ok tt)
      × (oid_at m 9 ≡ ok tt)
      × (at_field oid_array m 12 ≡ ok tt)
      × (at_field oid_array m 13 ≡ ok tt)
      × (at_field oid_array m 14 ≡ ok tt)
unfolding release_shape each
release_checks is_nfc m h = ground arith

pub release_edges-Succeeds :
    (is_nfc : List ℕ → Bool) (m : Fields)
    → release_shape is_nfc m ≡ ok tt
    → oid_if_some m 11 ≡ ok tt
    → Succeeds (release_edges m)
unfolding release_edges
release_edges-Succeeds is_nfc m h notes =
    let (c5, c7, c8, c9, c12, c13, c14) = release_checks is_nfc m h in
    join-Succeeds _ (
      required m 5 ReferenceRole.release_source_snapshot (some ObjectKind.snapshot) c5,
      (
        required m 7 ReferenceRole.release_projection_rules (some ObjectKind.projection_rules) c7,
        (
          required m 8 ReferenceRole.release_projected_root (some ObjectKind.manifest) c8,
          (
            required m 9 ReferenceRole.release_projection_proof (some ObjectKind.projection_proof)
                c9,
            (
              add-Succeeds m 11 ReferenceRole.release_notes (some ObjectKind.blob) notes,
              (
                array_edges-Succeeds m 12 ReferenceRole.release_build_provenance
                    ObjectKind.build_provenance c12,
                (
                  array_edges-Succeeds m 13 ReferenceRole.release_artifact ObjectKind.artifact c13,
                  (
                    array_edges-Succeeds m 14 ReferenceRole.release_policy_evidence
                        ObjectKind.policy_decision_evidence c14,
                    tt,
                  ),
                ),
              ),
            ),
          ),
        ),
      ),
    )

conflict_checks :
    (unicode : Unicode) (m : Fields)
    → conflict_shape unicode m ≡ ok tt
    → (at_field typed_ref m 3 ≡ ok tt)
      × (at_field typed_ref m 4 ≡ ok tt)
      × (at_field typed_ref m 5 ≡ ok tt)
unfolding conflict_shape each
conflict_checks unicode m h = ground arith

pub conflict_edges-Succeeds :
    (unicode : Unicode) (m : Fields)
    → conflict_shape unicode m ≡ ok tt
    → Succeeds (conflict_edges m)
unfolding conflict_edges
conflict_edges-Succeeds unicode m h =
    let (c3, c4, c5) = conflict_checks unicode m h in
    join-Succeeds _ (
      typed_field-Succeeds ReferenceRole.conflict_base m 3 c3,
      (
        typed_field-Succeeds ReferenceRole.conflict_left m 4 c4,
        (typed_field-Succeeds ReferenceRole.conflict_right m 5 c5, tt),
      ),
    )
