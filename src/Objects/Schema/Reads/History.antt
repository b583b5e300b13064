-- ===== src/Objects/Schema/Reads/History.antt =====
-- What the edges of content, of history and of operations are.
use rethinking_git.Base.{
  ℕ, some, List, [], ◌∷◌, ok, err, ◌>>=◌, ◌≡◌, subst, ◌⊎◌, ◌↔◌, In, >>=-ok, arith, ◌==◌,
  if◌then◌else◌,
}
use rethinking_git.Objects.Canonical.{Value, Fields}
use rethinking_git.Objects.Reference.{ObjectKind, ReferenceRole, ReferenceEdge}
use rethinking_git.Objects.Schema.{wrong, field}
use rethinking_git.Objects.Schema.Edges.Build.{Edges, join, oid_edge, inner_edge}
use rethinking_git.Objects.Schema.Reads.{
  Relation, Reads, FieldGives, MapGives, join-Reads, join_one-Reads, field-Reads, optional-Reads,
}
use rethinking_git.Objects.Schema.Reads.Values.{
  oid_edge-Reads, map-Reads, unsigned-Reads, array-Reads, inner_edge-Reads, typed_edge-Reads,
  each-Reads, array_edges-Reads, add-Reads, bind-Reads,
}
use rethinking_git.Objects.Schema.Edges.History.{
  blob_edges, target_kind, entry_edges, manifest_edges, snapshot_edges, change_revision_edges,
  line_state_edges, release_edges, conflict_edges, marker_edges, change_edges, line_policy,
  declaration_edges, line_edges, action_edges, operation_edges,
}
use rethinking_git.Objects.Schema.Reads.Described.{
  PolicyGives, TargetKind, EntryFieldsGive, EntryGives, ChangeGives, DeclarationGives, ActionGives,
  KindGives,
}

known-Reads :
    (edges : List ReferenceEdge) (gives : Relation)
    → ((e : ReferenceEdge) → In e edges ↔ gives e)
    → Reads (ok edges) gives
known-Reads edges gives f out h e = subst (λ es. In e es ↔ gives e) (ground arith) (f e)

target_kind_iff : (n : ℕ) (kind : ObjectKind) → (target_kind n ≡ ok kind) ↔ TargetKind n kind
unfolding target_kind
target_kind_iff n kind = ground arith

entry_fields-Reads :
    (m : Fields) (kind : ObjectKind)
    → Reads
        (do
          target ← field m 2
          first ← oid_edge ReferenceRole.manifest_entry_target (some kind) 3 target
          policy ← field m 4
          second ←
              inner_edge ReferenceRole.manifest_entry_policy (some ObjectKind.policy) 1 3 policy
          join (ok first ∷ ok second ∷ []))
        (EntryFieldsGive m kind)
entry_fields-Reads m kind out h e =
    let target_role = ReferenceRole.manifest_entry_target in
    let policy_role = ReferenceRole.manifest_entry_policy in
    let (target, there, h₁) = >>=-ok (field m 2) _ h in
    let (first, is_first, h₂) = >>=-ok (oid_edge target_role (some kind) 3 target) _ h₁ in
    let (policy, there', h₃) = >>=-ok (field m 4) _ h₂ in
    let (second, is_second, h₄) =
      >>=-ok (inner_edge policy_role (some ObjectKind.policy) 1 3 policy) _ h₃ in
    let one =
      field-Reads m 2 _ _ (oid_edge-Reads target_role (some kind) 3) first
        (ground (arith, there)) in
    let two =
      field-Reads m 4 _ _ (inner_edge-Reads policy_role (some ObjectKind.policy) 1 3) second
        (ground (arith, there')) in
    join-Reads _ _ _ _ (known-Reads first _ one) (join_one-Reads _ _ (known-Reads second _ two)) out
      h₄ e

target-Reads :
    (n : ℕ) (edges : ObjectKind → Edges) (gives : ObjectKind → Relation)
    → ((kind : ObjectKind) → Reads (edges kind) (gives kind))
    → Reads (target_kind n >>= edges) (λ e. (kind : ObjectKind) × TargetKind n kind × gives kind e)
target-Reads n edges gives f out h e =
    let reads = bind-Reads (target_kind n) edges gives out e f h in
    (
      λ i. let (kind, p, g) = reads.0 i in (kind, (target_kind_iff n kind).0 p, g),
      λ (kind, p, g). reads.1 (kind, (target_kind_iff n kind).1 p, g),
    )

pub entry_edges-Reads : (value : Value) → Reads (entry_edges value) (EntryGives value)
unfolding entry_edges
entry_edges-Reads value = map-Reads value _ _ λ m.
    field-Reads m 1 _ _
      λ number. unsigned-Reads number 3 _ _ λ n. target-Reads n _ _ (entry_fields-Reads m)

change_edges-Reads :
    (before after : ℕ) (m : Fields)
    → Reads (change_edges before after m) (ChangeGives before after m)
unfolding change_edges
change_edges-Reads before after m =
    join-Reads _ _ _ _
      (optional-Reads m before _ _ (typed_edge-Reads ReferenceRole.operation_before 8))
      (join_one-Reads _ _
        (optional-Reads m after _ _ (typed_edge-Reads ReferenceRole.operation_after 8)))

line_policy-Reads :
    (m : Fields) (key : ℕ) (role : ReferenceRole)
    → Reads (line_policy m key role) (PolicyGives m key role)
unfolding line_policy
line_policy-Reads m key role =
    field-Reads m key _ _ (inner_edge-Reads role (some ObjectKind.policy) 1 8)

declaration_edges-Reads : (m : Fields) → Reads (declaration_edges m) (DeclarationGives m)
unfolding declaration_edges
declaration_edges-Reads m = join-Reads _ _ _ _ (line_policy-Reads m 0 _) (
    join-Reads _ _ _ _ (line_policy-Reads m 6 _) (
      join-Reads _ _ _ _ (line_policy-Reads m 7 _) (
        join-Reads _ _ _ _ (line_policy-Reads m 8 _) (
          join-Reads _ _ _ _ (line_policy-Reads m 9 _) (
            join-Reads _ _ _ _
              (field-Reads m 3 _ _ (
                oid_edge-Reads ReferenceRole.operation_line_head_snapshot (some ObjectKind.snapshot)
                  8))
              (join_one-Reads _ _ (
                optional-Reads m 5 _ _ (
                  oid_edge-Reads ReferenceRole.operation_line_previous_state
                    (some ObjectKind.line_state) 8))))))))

line_edges-Reads : (m : Fields) → Reads (line_edges m) (FieldGives m 3 (MapGives DeclarationGives))
unfolding line_edges
line_edges-Reads m = field-Reads m 3 _ _ λ content. map-Reads content _ _ declaration_edges-Reads

choice-Reads :
    (n : ℕ) (zeroth second first : Edges) (gives₀ gives₂ gives₁ : Relation)
    → Reads zeroth gives₀
    → Reads second gives₂
    → Reads first gives₁
    → Reads
        (if n == 0
          then zeroth
          else if n == 2
          then second
          else if n == 1
          then first
          else err (wrong 8))
        (λ e. ((n ≡ 0) × gives₀ e) ⊎ ((n ≡ 2) × gives₂ e) ⊎ ((n ≡ 1) × gives₁ e))
choice-Reads n zeroth second first gives₀ gives₂ gives₁ f₀ f₂ f₁ out h e =
    let zeroth_reads : zeroth ≡ ok out → In e out ↔ gives₀ e = λ p. f₀ out p e in
    let second_reads : second ≡ ok out → In e out ↔ gives₂ e = λ p. f₂ out p e in
    let first_reads : first ≡ ok out → In e out ↔ gives₁ e = λ p. f₁ out p e in
    ground (arith, zeroth_reads, second_reads, first_reads, h)

pub action_edges-Reads : (value : Value) → Reads (action_edges value) (ActionGives value)
unfolding action_edges
action_edges-Reads value = map-Reads value _ _ λ m. field-Reads m 0 _ _ λ number.
    unsigned-Reads number 8 _ _ λ variant.
      choice-Reads variant _ _ _ _ _ _ (change_edges-Reads 1 2 m) (change_edges-Reads 2 3 m)
        (line_edges-Reads m)

pub blob_edges-Reads : (m : Fields) → Reads (blob_edges m) (KindGives ObjectKind.blob m)
unfolding blob_edges KindGives
blob_edges-Reads m = optional-Reads m 5 _ _ λ chunks.
    array-Reads chunks 5 _ _ (inner_edge-Reads ReferenceRole.blob_chunk (some ObjectKind.chunk) 0 5)

pub manifest_edges-Reads : (m : Fields) → Reads (manifest_edges m) (KindGives ObjectKind.manifest m)
unfolding manifest_edges KindGives
manifest_edges-Reads m = each-Reads m 3 _ _ entry_edges-Reads

pub snapshot_edges-Reads : (m : Fields) → Reads (snapshot_edges m) (KindGives ObjectKind.snapshot m)
unfolding snapshot_edges KindGives
snapshot_edges-Reads m =
    join-Reads _ _ _ _
      (add-Reads m 3 ReferenceRole.snapshot_root_manifest (some ObjectKind.manifest))
      (join-Reads _ _ _ _ (add-Reads m 10 ReferenceRole.snapshot_message (some ObjectKind.blob)) (
        join_one-Reads _ _
          (array_edges-Reads m 4 ReferenceRole.snapshot_parent ObjectKind.snapshot)))

pub change_revision_edges-Reads :
    (m : Fields) → Reads (change_revision_edges m) (KindGives ObjectKind.change_revision m)
unfolding change_revision_edges KindGives
change_revision_edges-Reads m =
    join-Reads _ _ _ _
      (add-Reads m 4 ReferenceRole.change_previous_revision (some ObjectKind.change_revision))
      (join-Reads _ _ _ _ (add-Reads m 5 ReferenceRole.change_title (some ObjectKind.blob)) (
        join-Reads _ _ _ _ (add-Reads m 6 ReferenceRole.change_description (some ObjectKind.blob)) (
          join-Reads _ _ _ _
            (add-Reads m 7 ReferenceRole.change_base_snapshot (some ObjectKind.snapshot))
            (join_one-Reads _ _
              (add-Reads m 8 ReferenceRole.change_current_snapshot (some ObjectKind.snapshot))))))

pub line_state_edges-Reads :
    (m : Fields) → Reads (line_state_edges m) (KindGives ObjectKind.line_state m)
unfolding line_state_edges KindGives
line_state_edges-Reads m =
    join-Reads _ _ _ _ (add-Reads m 5 ReferenceRole.line_head_snapshot (some ObjectKind.snapshot)) (
      join-Reads _ _ _ _
        (add-Reads m 7 ReferenceRole.line_previous_state (some ObjectKind.line_state))
        (join_one-Reads _ _
          (add-Reads m 12 ReferenceRole.line_transaction_operation (some ObjectKind.operation))))

pub conflict_edges-Reads : (m : Fields) → Reads (conflict_edges m) (KindGives ObjectKind.conflict m)
unfolding conflict_edges KindGives
conflict_edges-Reads m =
    join-Reads _ _ _ _ (field-Reads m 3 _ _ (typed_edge-Reads ReferenceRole.conflict_base 3)) (
      join-Reads _ _ _ _ (field-Reads m 4 _ _ (typed_edge-Reads ReferenceRole.conflict_left 4)) (
        join_one-Reads _ _ (field-Reads m 5 _ _ (typed_edge-Reads ReferenceRole.conflict_right 5))))

pub operation_edges-Reads :
    (m : Fields) → Reads (operation_edges m) (KindGives ObjectKind.operation m)
unfolding operation_edges KindGives
operation_edges-Reads m =
    join-Reads _ _ _ _ (array_edges-Reads m 3 ReferenceRole.operation_parent ObjectKind.operation) (
      join-Reads _ _ _ _
        (array_edges-Reads m 9 ReferenceRole.operation_inverse_payload ObjectKind.operation_payload)
        (join-Reads _ _ _ _ (each-Reads m 8 _ _ action_edges-Reads) (
          join-Reads _ _ _ _
            (add-Reads m 10 ReferenceRole.operation_public_envelope
              (some ObjectKind.operation_payload))
            (join_one-Reads _ _ (
              add-Reads m 11 ReferenceRole.operation_private_payload
                (some ObjectKind.operation_payload))))))

pub marker_edges-Reads : (m : Fields) → Reads (marker_edges m) (KindGives ObjectKind.marker m)
unfolding marker_edges KindGives
marker_edges-Reads m = field-Reads m 4 _ _ (typed_edge-Reads ReferenceRole.marker_target 4)

pub release_edges-Reads : (m : Fields) → Reads (release_edges m) (KindGives ObjectKind.release m)
unfolding release_edges KindGives
release_edges-Reads m =
    join-Reads _ _ _ _
      (add-Reads m 5 ReferenceRole.release_source_snapshot (some ObjectKind.snapshot))
      (join-Reads _ _ _ _
        (add-Reads m 7 ReferenceRole.release_projection_rules (some ObjectKind.projection_rules))
        (join-Reads _ _ _ _
          (add-Reads m 8 ReferenceRole.release_projected_root (some ObjectKind.manifest))
          (join-Reads _ _ _ _
            (add-Reads m 9 ReferenceRole.release_projection_proof
              (some ObjectKind.projection_proof))
            (join-Reads _ _ _ _ (add-Reads m 11 ReferenceRole.release_notes (some ObjectKind.blob))
              (join-Reads _ _ _ _
                (array_edges-Reads m 12 ReferenceRole.release_build_provenance
                  ObjectKind.build_provenance)
                (join-Reads _ _ _ _
                  (array_edges-Reads m 13 ReferenceRole.release_artifact ObjectKind.artifact)
                  (join_one-Reads _ _ (
                    array_edges-Reads m 14 ReferenceRole.release_policy_evidence
                      ObjectKind.policy_decision_evidence))))))))
