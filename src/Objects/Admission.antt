-- ===== src/Objects/Admission.antt =====
-- crates/rgit-objects/src/decode.rs: AnyObject, which is admitted from bytes. Each variant of the
-- enum wraps a DecodedObject whose `kind` is that of the variant, so the model has the record alone.
pub mod Verified
pub mod Total
mod Runs
use rethinking_git.Base.{
  ℕ, Bool, true, false, ◌&&◌, not, ◌==◌, Option, none, some, List, [], ◌∷◌, Result, ok, err, ◌>>=◌,
  ◌>>◌, ok_or, ensure, if◌then◌else◌,
}
use rethinking_git.Base.Order.{same}
use rethinking_git.Objects.Canonical.{
  Value, CanonicalLimits, CanonicalError, bulk, metadata, restricted_by,
}
use rethinking_git.Objects.Canonical.Encode.{encode_with_limits}
use rethinking_git.Objects.Canonical.Decode.{decode_canonical}
use rethinking_git.Objects.Error.{DecodeObjectError}
use rethinking_git.Objects.Id.{ObjectId, HashAlgorithm, from_payload}
use rethinking_git.Objects.Reference.{
  ObjectKind, ReferenceKey, ReferenceEdge, kind_code, id_ord, same_kind,
}
use rethinking_git.Objects.Schema.{as_map, field, optional_field, unsigned, array}
use rethinking_git.Objects.Schema.Parts.{
  TypedObjectRef, read_kind, reference_key, typed_ref_value, at_field,
}
use rethinking_git.Objects.Schema.Edges.{references}
use rethinking_git.Objects.Schema.Validate.{validate_fields}
use rethinking_git.Objects.Unicode.{Unicode}

pub record DecodedObject : Type 0 where
  pub kind : ObjectKind
  pub schema_version : ℕ
  pub value : Value

-- `ObjectKind::supports_schema`
unfoldable pub supports_schema : ObjectKind → ℕ → Bool
supports_schema ObjectKind.operation schema = elim (schema == 0) [
  | true ↦ true
  | false ↦ schema == 1
]
supports_schema _ schema = schema == 0

-- The profile of a kind.
unfoldable pub kind_limits : ObjectKind → CanonicalLimits
kind_limits ObjectKind.chunk = bulk
kind_limits ObjectKind.blob = bulk
kind_limits _ = metadata

-- `?` on a result of the canonical encoding.
unfoldable pub from_canonical {ℓ} :
    {A : Type ℓ} → Result CanonicalError A → Result DecodeObjectError A
from_canonical (ok a) = ok a
from_canonical (err e) = err (DecodeObjectError.canonical e)

module _ (unicode : Unicode) where
  open unicode use {is_utf8, is_nfc}

  unfoldable pub decode : List ℕ → CanonicalLimits → Result DecodeObjectError DecodedObject
  decode bytes limits = do
    value ← from_canonical (decode_canonical is_utf8 is_nfc (restricted_by limits bulk) bytes)
    m ← as_map value
    kind_value ← field m 0
    kind_number ← unsigned kind_value 0
    kind ← read_kind kind_number
    schema_value ← field m 1
    schema ← unsigned schema_value 1
    ensure (supports_schema kind schema) (DecodeObjectError.schema schema)
    encoded ←
        from_canonical (encode_with_limits is_nfc (restricted_by limits (kind_limits kind)) value)
    validate_fields unicode kind schema m
    ok (record { kind = kind; schema_version = schema; value = value })

  module _ (sha256_digest blake3_digest : List ℕ → List ℕ) where
    -- `AnyObject::id`
    unfoldable pub object_id : DecodedObject → HashAlgorithm → Result DecodeObjectError ObjectId
    object_id d algorithm = do
      bytes ← from_canonical (encode_with_limits is_nfc (kind_limits d.kind) d.value)
      ok (
          from_payload sha256_digest blake3_digest (kind_code d.kind) d.schema_version bytes
            algorithm)

    unfoldable pub decode_verified :
        List ℕ → ObjectId → CanonicalLimits → Result DecodeObjectError DecodedObject
    decode_verified bytes expected limits = do
      object ← decode bytes limits
      id ← object_id object expected.algorithm
      ensure (same id expected) DecodeObjectError.digest
      ok object

-- `AnyObject::references`
unfoldable pub object_references : DecodedObject → Result DecodeObjectError (List ReferenceEdge)
object_references d = references d.kind d.value

pub record BoundReferenceTransition : Type 0 where
  pub key : ReferenceKey
  pub before : Option TypedObjectRef
  pub after : TypedObjectRef

-- `.transpose()` of an optional reference.
unfoldable pub optional_ref : Option Value → Result DecodeObjectError (Option TypedObjectRef)
optional_ref none = ok none
optional_ref (some value) = typed_ref_value value 8 >>= λ reference. ok (some reference)

-- The loop over the actions; only those of variant 2 give a transition.
unfoldable pub transition_loop :
    List Value → Result DecodeObjectError (List BoundReferenceTransition)
transition_loop [] = ok []
transition_loop (value ∷ values) = do
  action ← as_map value
  number ← field action 0
  variant ← unsigned number 8
  (if not (variant == 2) then transition_loop values else (do
    key_value ← field action 1
    key ← reference_key key_value 8
    before ← optional_ref (optional_field action 2)
    after_value ← field action 3
    after ← typed_ref_value after_value 8
    rest ← transition_loop values
    ok ((record { key = key; before = before; after = after }) ∷ rest)))

unfoldable pub bound_reference_transitions :
    DecodedObject → Result DecodeObjectError (Option (List BoundReferenceTransition))
bound_reference_transitions d =
    if same_kind d.kind ObjectKind.operation && d.schema_version == 1
    then (do
      m ← as_map d.value
      actions ← at_field array m 8
      transitions ← transition_loop actions
      ok (some transitions))
    else ok none
