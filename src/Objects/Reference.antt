-- ===== src/Objects/Reference.antt =====
-- crates/rgit-objects/src/types.rs and decode.rs: the kinds of objects, the keys of mutable
-- references, and the typed edges between objects.
pub mod Codes
mod Runs
use rethinking_git.Base.{
  ℕ, zero, suc, Bool, true, false, Option, none, some, List, [], ◌∷◌, ◌≡◌, refl, arith, ◌==◌,
  if◌then◌else◌, ap,
}
use rethinking_git.Base.Order.{
  Ord, nat_ord, list_ord, lex, lex_refl, eq_of_lex, lex-flip, lex_trans,
}
use rethinking_git.Objects.Id.{ObjectId, HashAlgorithm, sha256, blake3_256, code}

pub data ObjectKind : Type 0 where
  chunk blob secret_ref manifest subproject snapshot change_revision line_state : ObjectKind
  conflict operation marker release policy repository_root identity : ObjectKind
  group_membership key_envelope_set change_relation conflict_resolution : ObjectKind
  review_evidence approval_evidence ci_evidence policy_decision_evidence : ObjectKind
  projection_rules projection_proof build_provenance artifact operation_payload : ObjectKind
  view migration rule_set : ObjectKind

-- `kind as u64`
unfoldable pub kind_code : ObjectKind → ℕ
kind_code chunk = 1
kind_code blob = 2
kind_code secret_ref = 3
kind_code manifest = 4
kind_code subproject = 5
kind_code snapshot = 6
kind_code change_revision = 7
kind_code line_state = 8
kind_code conflict = 9
kind_code operation = 10
kind_code marker = 11
kind_code release = 12
kind_code policy = 13
kind_code repository_root = 14
kind_code identity = 15
kind_code group_membership = 16
kind_code key_envelope_set = 17
kind_code change_relation = 18
kind_code conflict_resolution = 19
kind_code review_evidence = 20
kind_code approval_evidence = 21
kind_code ci_evidence = 22
kind_code policy_decision_evidence = 23
kind_code projection_rules = 24
kind_code projection_proof = 25
kind_code build_provenance = 26
kind_code artifact = 27
kind_code operation_payload = 28
kind_code view = 29
kind_code migration = 30
kind_code rule_set = 31

-- `ObjectKind::try_from`
unfoldable pub kind_of_code : ℕ → Option ObjectKind
kind_of_code value =
    if value == 1
    then some chunk
    else if value == 2
    then some blob
    else if value == 3
    then some secret_ref
    else if value == 4
    then some manifest
    else if value == 5
    then some subproject
    else if value == 6
    then some snapshot
    else if value == 7
    then some change_revision
    else if value == 8
    then some line_state
    else if value == 9
    then some conflict
    else if value == 10
    then some operation
    else if value == 11
    then some marker
    else if value == 12
    then some release
    else if value == 13
    then some policy
    else if value == 14
    then some repository_root
    else if value == 15
    then some identity
    else if value == 16
    then some group_membership
    else if value == 17
    then some key_envelope_set
    else if value == 18
    then some change_relation
    else if value == 19
    then some conflict_resolution
    else if value == 20
    then some review_evidence
    else if value == 21
    then some approval_evidence
    else if value == 22
    then some ci_evidence
    else if value == 23
    then some policy_decision_evidence
    else if value == 24
    then some projection_rules
    else if value == 25
    then some projection_proof
    else if value == 26
    then some build_provenance
    else if value == 27
    then some artifact
    else if value == 28
    then some operation_payload
    else if value == 29
    then some view
    else if value == 30
    then some migration
    else if value == 31
    then some rule_set
    else none

-- `==` on kinds.
abbrev pub same_kind : ObjectKind → ObjectKind → Bool
same_kind a b = kind_code a == kind_code b

pub data ReferenceRole : Type 0 where
  object_policy manifest_entry_policy review_policy landing_policy : ReferenceRole
  integration_policy approval_policy release_policy visibility_policy : ReferenceRole
  audience_policy blob_chunk manifest_entry_target snapshot_root_manifest : ReferenceRole
  snapshot_parent snapshot_message change_previous_revision change_title : ReferenceRole
  change_description change_base_snapshot change_current_snapshot : ReferenceRole
  line_head_snapshot line_previous_state line_transaction_operation : ReferenceRole
  subproject_native_projection secret_development_value conflict_base : ReferenceRole
  conflict_left conflict_right operation_parent operation_before : ReferenceRole
  operation_after operation_line_policy operation_line_head_snapshot : ReferenceRole
  operation_line_previous_state operation_line_integration_policy : ReferenceRole
  operation_line_approval_policy operation_line_release_policy : ReferenceRole
  operation_line_visibility_policy operation_inverse_payload : ReferenceRole
  operation_public_envelope operation_private_payload marker_target : ReferenceRole
  release_source_snapshot release_projection_rules release_projection_proof : ReferenceRole
  release_projected_root release_notes release_build_provenance : ReferenceRole
  release_artifact release_policy_evidence policy_previous_version : ReferenceRole
  policy_declassification_requirement policy_key_envelope_set : ReferenceRole
  repository_root_policy repository_trusted_identity : ReferenceRole
  repository_bootstrap_key_envelope_set repository_genesis_operation : ReferenceRole
  repository_initial_line_state identity_previous identity_key_not_before : ReferenceRole
  identity_key_not_after identity_activation_operation : ReferenceRole
  identity_not_after_operation membership_previous : ReferenceRole
  membership_activation_operation membership_not_after_operation : ReferenceRole
  change_relation_source change_relation_result change_relation_provenance : ReferenceRole
  change_relation_operation resolution_conflict resolution_result : ReferenceRole
  resolution_provenance evidence_target evidence_snapshot evidence_ruleset : ReferenceRole
  evidence_related ci_runner_identity ci_build_provenance : ReferenceRole
  projection_rules_previous projection_source_snapshot projection_rules : ReferenceRole
  projection_audience_policy projection_manifest build_snapshot build_ruleset : ReferenceRole
  build_identity build_input build_output artifact_blob payload_reference : ReferenceRole
  view_policy view_line_state view_manifest migration_old_object : ReferenceRole
  migration_new_object migration_tool_identity ruleset_previous : ReferenceRole

unfoldable pub is_operation_parent : ReferenceRole → Bool
is_operation_parent operation_parent = true
is_operation_parent _ = false

unfoldable pub is_snapshot_parent : ReferenceRole → Bool
is_snapshot_parent snapshot_parent = true
is_snapshot_parent _ = false

pub record ReferenceEdge : Type 0 where
  pub role : ReferenceRole
  pub expected_kind : Option ObjectKind
  pub id : ObjectId

-- Stable identifiers are 16 bytes.
pub data ReferenceKey : Type 0 where
  line : List ℕ → ReferenceKey
  change : List ℕ → ReferenceKey
  operation_head : ReferenceKey
  release : List ℕ → ReferenceKey
  marker : List ℕ → ReferenceKey

abbrev pub key_code : ReferenceKey → ℕ
key_code (line id) = 1
key_code (change id) = 2
key_code operation_head = 3
key_code (release id) = 4
key_code (marker id) = 5

abbrev pub expected_kind : ReferenceKey → ObjectKind
expected_kind (line id) = line_state
expected_kind (change id) = change_revision
expected_kind operation_head = operation
expected_kind (release id) = ObjectKind.release
expected_kind (marker id) = ObjectKind.marker

abbrev pub stable_id : ReferenceKey → Option (List ℕ)
stable_id (line id) = some id
stable_id (change id) = some id
stable_id operation_head = none
stable_id (release id) = some id
stable_id (marker id) = some id

-- The derived orders compare the variant, then the fields.
abbrev pub key_order : ReferenceKey → List ℕ
key_order (line id) = 1 ∷ id
key_order (change id) = 2 ∷ id
key_order operation_head = 3 ∷ []
key_order (release id) = 4 ∷ id
key_order (marker id) = 5 ∷ id

pub key_order-injective : (a b : ReferenceKey) → key_order a ≡ key_order b → a ≡ b
key_order-injective a b h = ground arith

abbrev pub id_order : ObjectId → List ℕ
id_order id = id.format_version ∷ code id.algorithm ∷ id.digest

pub id_order-injective : (a b : ObjectId) → id_order a ≡ id_order b → a ≡ b
id_order-injective a b h = ground arith

instance abbrev pub key_ord : Ord ReferenceKey
key_ord = record {
  cmp = λ a b. lex (key_order a) (key_order b);
  cmp_refl = λ a. lex_refl (key_order a);
  eq_of_cmp = λ a b h. key_order-injective a b (eq_of_lex (key_order a) (key_order b) h);
  cmp_flip = λ a b. lex-flip (key_order a) (key_order b);
  cmp_trans = λ a b c. lex_trans (key_order a) (key_order b) (key_order c);
}

instance abbrev pub id_ord : Ord ObjectId
id_ord = record {
  cmp = λ a b. lex (id_order a) (id_order b);
  cmp_refl = λ a. lex_refl (id_order a);
  eq_of_cmp = λ a b h. id_order-injective a b (eq_of_lex (id_order a) (id_order b) h);
  cmp_flip = λ a b. lex-flip (id_order a) (id_order b);
  cmp_trans = λ a b c. lex_trans (id_order a) (id_order b) (id_order c);
}
