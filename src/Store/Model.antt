-- ===== src/Store/Model.antt =====
-- crates/rgit-store/src/model.rs, error.rs and the state of memory.rs: what the store keeps, what a
-- publication asks for, and the errors.
use rethinking_git.Base.{ℕ, List, [], Result}
use rethinking_git.Base.Map.{Map}
use rethinking_git.Objects.Id.{ObjectId}
use rethinking_git.Objects.Canonical.{Value}
pub use rethinking_git.Objects.Error.{DecodeObjectError, digest}
use rethinking_git.Objects.Reference.{ObjectKind, ReferenceEdge, ReferenceKey}

pub data ClosureError : Type 0 where
  missing promised quarantined : ClosureError
  wrong_kind : ObjectKind → ObjectKind → ClosureError

-- `out_of_fuel` is no error of the source: it stands for a loop that has not ended.
pub data StoreError : Type 0 where
  invalid_object : DecodeObjectError → StoreError
  not_present quarantined promised invalid_reference_key reference_conflict : StoreError
  duplicate_reference_update reference_kind operation_mismatch : StoreError
  generation_overflow revision_overflow publication_denied : StoreError
  closure : ClosureError → StoreError
  invalid_graph database unsupported_database upgrade_required : StoreError
  migration_required retryable_conflict incident_read_only : StoreError
  injected_transaction_failure object_storage : StoreError
  out_of_fuel : StoreError

pub data PutOutcome : Type 0 where
  new already_present : PutOutcome

pub data ObjectPresence : Type 0 where
  present promised quarantined : ObjectPresence

-- `value` and `kind` are those of `object.decoded()`.
pub record StoredObject : Type 0 where
  pub id : ObjectId
  pub bytes : List ℕ
  pub value : Value
  pub kind : ObjectKind
  pub references : List ReferenceEdge

pub record ReferenceState : Type 0 where
  pub target : ObjectId
  pub generation : ℕ
  pub operation : ObjectId

pub data ExpectedRef : Type 0 where
  absent : ExpectedRef
  exact : ReferenceState → ExpectedRef

pub record PublicationObject : Type 0 where
  pub id : ObjectId
  pub bytes : List ℕ

pub record RefUpdate : Type 0 where
  pub key : ReferenceKey
  pub expected : ExpectedRef
  pub target : ObjectId

pub record Publication : Type 0 where
  pub objects : List PublicationObject
  pub updates : List RefUpdate
  pub operation : ObjectId

pub record MemorySnapshot : Type 0 where
  pub objects : Map ObjectId StoredObject
  pub promised : List ObjectId
  pub quarantined : List ObjectId
  pub references : Map ReferenceKey ReferenceState
  pub revision : ℕ

-- `Default::default()`
abbrev pub empty : MemorySnapshot
empty = record { objects = []; promised = []; quarantined = []; references = []; revision = 0 }

-- The view that a `PublicationValidator` is given.
pub record PublicationCandidate : Type 0 where
  pub publication : Publication
  pub objects : Map ObjectId StoredObject
  pub references : Map ReferenceKey ReferenceState

abbrev pub PublicationValidator : Type 0
PublicationValidator = PublicationCandidate → Result StoreError (Unit {0})
