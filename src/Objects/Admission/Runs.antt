-- ===== src/Objects/Admission/Runs.antt =====
-- Runs of admission: a chunk under a fixed digest.
use rethinking_git.Base.{
  ℕ, zero, suc, true, none, some, List, [], ◌∷◌, ◌++◌, ok, err, ◌≡◌, ◌↔◌, refl, In, Distinct,
}
use rethinking_git.Objects.Canonical.{Value, Items, Fields, CanonicalLimits, bulk, metadata}
use rethinking_git.Objects.Id.{ObjectId, sha256, from_payload}
use rethinking_git.Objects.Reference.{ObjectKind, ReferenceRole, ReferenceEdge, kind_code}
use rethinking_git.Objects.Schema.Edges.{references, pushed_edges}
use rethinking_git.Objects.Error.{DecodeObjectError}
use rethinking_git.Objects.Schema.Edges.Build.{add}
use rethinking_git.Objects.Schema.Reads.Described.{ObjectGives}
use rethinking_git.Objects.Schema.Reads.Exact.{references_exact}
use rethinking_git.Objects.Schema.{as_map}
use rethinking_git.Objects.Admission.{DecodedObject, decode, decode_verified, object_references}
use rethinking_git.Objects.Admission.Total.{object_references_total}
use rethinking_git.Objects.Admission.Verified.{decode_unique, decode_verified_lem}
use rethinking_git.Objects.Unicode.{Unicode}

-- Texts in normal form.
abbrev plain : Unicode
plain = record {
  is_utf8 = λ text. true;
  is_nfc = λ text. true;
  nfc = λ text. text;
  case_fold = λ text. text;
}

abbrev times : ℕ → ℕ → List ℕ
times zero b = []
times (suc n) b = b ∷ times n b

abbrev digest_of : List ℕ → List ℕ
digest_of bytes = times 32 7

abbrev policy_id : List ℕ
policy_id = 0 ∷ 0x12 ∷ 32 ∷ times 32 1

abbrev policy : Value
policy = Value.map (
    Fields.field 0 (Value.bytes (times 16 2))
      (Fields.field 1 (Value.bytes policy_id) Fields.no_fields))

abbrev chunk_fields : Fields
chunk_fields = Fields.field 0 (Value.unsigned 1) (
    Fields.field 1 (Value.unsigned 0)
      (Fields.field 2 policy (Fields.field 3 (Value.bytes (7 ∷ [])) Fields.no_fields)))

abbrev chunk_value : Value
chunk_value = Value.map chunk_fields

chunk_is_map : as_map chunk_value ≡ ok chunk_fields
unfolding as_map
chunk_is_map = refl

-- {0: 1, 1: 0, 2: {0: 16 bytes, 1: 35 bytes}, 3: one byte}
abbrev chunk_bytes : List ℕ
chunk_bytes =
    0xa4
    ∷ 0
    ∷ 1
    ∷ 1
    ∷ 0
    ∷ 2
    ∷ 0xa2
    ∷ 0
    ∷ 0x50
    ∷ (times 16 2 ++ 1 ∷ 0x58 ∷ 35 ∷ (policy_id ++ 3 ∷ 0x41 ∷ 7 ∷ []))

abbrev chunk_object : DecodedObject
chunk_object = record { kind = ObjectKind.chunk; schema_version = 0; value = chunk_value }

abbrev chunk_id : ObjectId
chunk_id = record { format_version = 0; algorithm = sha256; digest = times 32 7 }

chunk_decoded : decode plain chunk_bytes bulk ≡ ok chunk_object
unfolding decode rethinking_git.Objects.Admission.from_canonical
    rethinking_git.Objects.Canonical.Decode.decode_canonical
    rethinking_git.Objects.Canonical.restricted_by
    rethinking_git.Objects.Canonical.Decode.read_value
    rethinking_git.Objects.Canonical.Decode.argument
    rethinking_git.Objects.Canonical.Decode.read_entries rethinking_git.Base.Set.contains
    rethinking_git.Base.Set.insert rethinking_git.Objects.Canonical.Decode.read_take
    rethinking_git.Objects.Canonical.Decode.wide
    rethinking_git.Objects.Canonical.Encode.write_entries
    rethinking_git.Objects.Canonical.Encode.encode_with_limits
    rethinking_git.Objects.Canonical.Encode.encode_into
    rethinking_git.Objects.Canonical.Encode.extend rethinking_git.Objects.Canonical.Encode.push_head
    rethinking_git.Objects.Canonical.Encode.check_collection
    rethinking_git.Objects.Canonical.Encode.sort_by_key
    rethinking_git.Objects.Canonical.Encode.insert_by_key
    rethinking_git.Objects.Canonical.Encode.has_duplicate
    rethinking_git.Objects.Canonical.Decode.bytes_discrete native.Mathlib.Decide.ℕ_discrete
    rethinking_git.Objects.Schema.as_map rethinking_git.Objects.Schema.field
    rethinking_git.Objects.Schema.optional_field rethinking_git.Objects.Schema.unsigned
    rethinking_git.Objects.Schema.bytes rethinking_git.Objects.Schema.oid
    rethinking_git.Objects.Schema.fixed_bytes rethinking_git.Objects.Schema.exact_map
    rethinking_git.Objects.Schema.each rethinking_git.Objects.Schema.Parts.read_kind
    rethinking_git.Objects.Reference.kind_of_code rethinking_git.Objects.Admission.supports_schema
    rethinking_git.Objects.Admission.kind_limits
    rethinking_git.Objects.Schema.Validate.validate_fields
    rethinking_git.Objects.Schema.Validate.schema_keys
    rethinking_git.Objects.Schema.Validate.check_keys
    rethinking_git.Objects.Schema.Validate.policy_is_optional
    rethinking_git.Objects.Schema.Validate.validate_shapes
    rethinking_git.Objects.Schema.Parts.policy_ref rethinking_git.Objects.Schema.Content.chunk_shape
    rethinking_git.Objects.Id.from_bytes rethinking_git.Objects.Id.read_varint
    rethinking_git.Objects.Id.push_varint
chunk_decoded = refl

chunk_verified :
    decode_verified plain digest_of digest_of chunk_bytes chunk_id bulk ≡ ok chunk_object
unfolding decode_verified decode rethinking_git.Objects.Admission.object_id
    rethinking_git.Objects.Id.from_payload rethinking_git.Objects.Admission.from_canonical
    rethinking_git.Objects.Canonical.Decode.decode_canonical
    rethinking_git.Objects.Canonical.restricted_by
    rethinking_git.Objects.Canonical.Decode.read_value
    rethinking_git.Objects.Canonical.Decode.argument
    rethinking_git.Objects.Canonical.Decode.read_entries rethinking_git.Base.Set.contains
    rethinking_git.Base.Set.insert rethinking_git.Objects.Canonical.Decode.read_take
    rethinking_git.Objects.Canonical.Decode.wide
    rethinking_git.Objects.Canonical.Encode.write_entries
    rethinking_git.Objects.Canonical.Encode.encode_with_limits
    rethinking_git.Objects.Canonical.Encode.encode_into
    rethinking_git.Objects.Canonical.Encode.extend rethinking_git.Objects.Canonical.Encode.push_head
    rethinking_git.Objects.Canonical.Encode.check_collection
    rethinking_git.Objects.Canonical.Encode.sort_by_key
    rethinking_git.Objects.Canonical.Encode.insert_by_key
    rethinking_git.Objects.Canonical.Encode.has_duplicate
    rethinking_git.Objects.Canonical.Decode.bytes_discrete native.Mathlib.Decide.ℕ_discrete
    rethinking_git.Objects.Schema.as_map rethinking_git.Objects.Schema.field
    rethinking_git.Objects.Schema.optional_field rethinking_git.Objects.Schema.unsigned
    rethinking_git.Objects.Schema.bytes rethinking_git.Objects.Schema.oid
    rethinking_git.Objects.Schema.fixed_bytes rethinking_git.Objects.Schema.exact_map
    rethinking_git.Objects.Schema.each rethinking_git.Objects.Schema.Parts.read_kind
    rethinking_git.Objects.Reference.kind_of_code rethinking_git.Objects.Admission.supports_schema
    rethinking_git.Objects.Admission.kind_limits
    rethinking_git.Objects.Schema.Validate.validate_fields
    rethinking_git.Objects.Schema.Validate.schema_keys
    rethinking_git.Objects.Schema.Validate.check_keys
    rethinking_git.Objects.Schema.Validate.policy_is_optional
    rethinking_git.Objects.Schema.Validate.validate_shapes
    rethinking_git.Objects.Schema.Parts.policy_ref rethinking_git.Objects.Schema.Content.chunk_shape
    rethinking_git.Objects.Id.from_bytes rethinking_git.Objects.Id.read_varint
    rethinking_git.Objects.Id.push_varint
chunk_verified = refl

abbrev file_id : List ℕ
file_id = 0 ∷ 0x12 ∷ 32 ∷ times 32 3

-- A manifest of one file.
abbrev manifest_value : Value
manifest_value = Value.map (
    Fields.field 2 policy (
      Fields.field 3
        (Value.array (
          Items.item
            (Value.map (
              Fields.field 1 (Value.unsigned 0)
                (Fields.field 2 (Value.bytes file_id) (Fields.field 4 policy Fields.no_fields))))
            Items.no_items))
        Fields.no_fields))

abbrev edge_to : ReferenceRole → ObjectKind → ℕ → ReferenceEdge
edge_to role kind b = record {
  role = role;
  expected_kind = some kind;
  id = record { format_version = 0; algorithm = sha256; digest = times 32 b };
}

abbrev manifest_references : List ReferenceEdge
manifest_references =
    edge_to ReferenceRole.object_policy ObjectKind.policy 1
    ∷ edge_to ReferenceRole.manifest_entry_target ObjectKind.blob 3
    ∷ edge_to ReferenceRole.manifest_entry_policy ObjectKind.policy 1
    ∷ []

manifest_edges_read : references ObjectKind.manifest manifest_value ≡ ok manifest_references
unfolding references pushed_edges rethinking_git.Objects.Schema.Edges.keep_unique
    rethinking_git.Objects.Schema.Edges.policy_loop
    rethinking_git.Objects.Schema.Edges.policy_fields rethinking_git.Objects.Schema.Edges.kind_edges
    rethinking_git.Objects.Schema.Edges.Build.join
    rethinking_git.Objects.Schema.Edges.Build.edges_of
    rethinking_git.Objects.Schema.Edges.Build.inner_edge
    rethinking_git.Objects.Schema.Edges.Build.oid_edge rethinking_git.Objects.Schema.as_map
    rethinking_git.Objects.Schema.Edges.History.manifest_edges
    rethinking_git.Objects.Schema.Edges.History.entry_edges
    rethinking_git.Objects.Schema.Edges.History.target_kind
    rethinking_git.Objects.Schema.Edges.ReferenceEdge-discrete native.Mathlib.Decide.ℕ_discrete
    rethinking_git.Objects.Schema.array rethinking_git.Objects.Schema.unsigned
    rethinking_git.Objects.Schema.field rethinking_git.Objects.Schema.optional_field
    rethinking_git.Objects.Schema.oid rethinking_git.Objects.Schema.bytes
    rethinking_git.Objects.Id.from_bytes rethinking_git.Objects.Id.read_varint
    rethinking_git.Objects.Id.push_varint rethinking_git.Base.list_contains
manifest_edges_read = refl

decode_unique_example : chunk_bytes ≡ chunk_bytes
decode_unique_example =
    decode_unique plain chunk_bytes chunk_bytes bulk bulk chunk_object chunk_decoded chunk_decoded

decode_verified_lem_example :
    (decode plain chunk_bytes bulk ≡ ok chunk_object)
    × (chunk_id
        ≡ from_payload digest_of digest_of (kind_code ObjectKind.chunk) 0 chunk_bytes sha256)
decode_verified_lem_example =
    decode_verified_lem plain digest_of digest_of chunk_bytes chunk_id bulk chunk_object
      chunk_verified

references_exact_example :
    Distinct manifest_references
    × ((e : ReferenceEdge)
        → In e manifest_references ↔ ObjectGives ObjectKind.manifest manifest_value e)
references_exact_example =
    references_exact ObjectKind.manifest manifest_value manifest_references manifest_edges_read

object_references_total_example :
    (edges : List ReferenceEdge) × (object_references chunk_object ≡ ok edges)
object_references_total_example =
    object_references_total plain chunk_bytes bulk chunk_object chunk_fields chunk_decoded
      chunk_is_map refl

-- Field 11 of a release, which its schema does not check, is read as an identifier.
notes_refused :
    add
      (Fields.field 11 (Value.unsigned 5) Fields.no_fields)
      11
      ReferenceRole.release_notes
      (some ObjectKind.blob)
    ≡ err (DecodeObjectError.field 11)
unfolding add rethinking_git.Objects.Schema.Edges.Build.oid_edge rethinking_git.Objects.Schema.oid
    rethinking_git.Objects.Schema.bytes rethinking_git.Objects.Schema.optional_field
    rethinking_git.Objects.Schema.Edges.Build.is_null
notes_refused = refl
