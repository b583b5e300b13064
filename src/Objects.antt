-- ===== src/Objects.antt =====
-- crates/rgit-objects: identifiers, canonical encoding, portable paths and chunking.
pub mod Id
pub mod Reference
pub mod Canonical
pub mod Unicode
pub mod Path
pub mod Error
pub mod Signature
pub mod Schema
pub mod Admission
pub mod Fastcdc
