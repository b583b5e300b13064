-- ===== src/Objects/Canonical.antt =====
-- crates/rgit-objects/src/canonical.rs: values and the size limits of canonical CBOR. A text is the
-- list of its UTF-8 bytes; a `usize` is 64 bits wide, so a length is a u64 as it stands.
pub mod Encode
pub mod Decode
pub mod Head
pub mod Major
pub mod Bound
pub mod Agree
pub mod RoundTrip
mod Runs
use rethinking_git.Base.{ℕ, suc, ◌*◌, ltb, if◌then◌else◌, List, Bool}

-- An i64: `pos n` is n and `negsuc n` is -(n + 1).
pub data ℤ : Type 0 where
  pos : ℕ → ℤ
  negsuc : ℕ → ℤ

-- `Vec<Self>` and `Vec<(u64, Self)>` are lists of the block.
mutual
  pub data Value : Type 0 where
    unsigned : ℕ → Value
    signed : ℤ → Value
    bytes : List ℕ → Value
    text : List ℕ → Value
    array : Items → Value
    map : Fields → Value
    bool : Bool → Value
    null : Value

  pub data Items : Type 0 where
    no_items : Items
    item : Value → Items → Items

  pub data Fields : Type 0 where
    no_fields : Fields
    field : ℕ → Value → Fields → Fields

abbrev pub count_items : Items → ℕ
count_items no_items = 0
count_items (item v vs) = suc (count_items vs)

abbrev pub count_fields : Fields → ℕ
count_fields no_fields = 0
count_fields (field k v fs) = suc (count_fields fs)

pub record CanonicalLimits : Type 0 where
  pub max_bytes : ℕ
  pub max_byte_string_bytes : ℕ
  pub max_string_bytes : ℕ
  pub max_depth : ℕ
  pub max_collection_items : ℕ

abbrev pub metadata : CanonicalLimits
metadata = record {
  max_bytes = 1024 * 1024;
  max_byte_string_bytes = 256 * 1024;
  max_string_bytes = 64 * 1024;
  max_depth = 64;
  max_collection_items = 65_536;
}

abbrev pub bulk : CanonicalLimits
bulk = record {
  max_bytes = 16 * 1024 * 1024;
  max_byte_string_bytes = 4 * 1024 * 1024;
  max_string_bytes = 64 * 1024;
  max_depth = 64;
  max_collection_items = 1_000_000;
}

abbrev pub smaller : ℕ → ℕ → ℕ
smaller left right = if ltb left right then left else right

unfoldable pub restricted_by : CanonicalLimits → CanonicalLimits → CanonicalLimits
restricted_by self ceiling = record {
  max_bytes = smaller self.max_bytes ceiling.max_bytes;
  max_byte_string_bytes = smaller self.max_byte_string_bytes ceiling.max_byte_string_bytes;
  max_string_bytes = smaller self.max_string_bytes ceiling.max_string_bytes;
  max_depth = smaller self.max_depth ceiling.max_depth;
  max_collection_items = smaller self.max_collection_items ceiling.max_collection_items;
}

pub data CanonicalError : Type 0 where
  size_limit depth_limit collection_limit truncated trailing_bytes forbidden_type : CanonicalError
  non_minimal_integer invalid_map_key map_order utf8 non_normalized_text : CanonicalError
  non_canonical invalid_value : CanonicalError
