-- ===== src/Objects/Error.antt =====
-- crates/rgit-objects/src/decode.rs: the errors of decoding an object. The number is that of a
-- field, a kind or a schema.
use rethinking_git.Base.{ℕ}
use rethinking_git.Objects.Canonical.{CanonicalError}

pub data DecodeObjectError : Type 0 where
  canonical : CanonicalError → DecodeObjectError
  not_map : DecodeObjectError
  field : ℕ → DecodeObjectError
  kind : ℕ → DecodeObjectError
  schema : ℕ → DecodeObjectError
  unknown_field : ℕ → DecodeObjectError
  object_id : ℕ → DecodeObjectError
  digest : DecodeObjectError
