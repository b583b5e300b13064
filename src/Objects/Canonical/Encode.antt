-- ===== src/Objects/Canonical/Encode.antt =====
-- The encoder. `out` is the `&mut Vec<u8>`; what was written before an error is dropped with it.
-- Whether a text is in Unicode NFC is decided by the third-party crate unicode-normalization: it is
-- the parameter `is_nfc`.
use rethinking_git.Base.{
  ℕ, ◌+◌, ◌*◌, ◌/◌, ◌%◌, ◌^◌, Bool, true, false, ◌||◌, List, [], ◌∷◌, ◌++◌, length, ltb, leb, ◌==◌,
  if◌then◌else◌, Result, ok, err, ◌>>=◌, ◌>>◌, ensure, not,
}
use rethinking_git.Objects.Canonical.{
  Value, Items, Fields, unsigned, signed, bytes, text, array, map, bool, null, no_items, item,
  no_fields, field, pos, negsuc, CanonicalLimits, CanonicalError, count_items, count_fields,
  metadata, depth_limit, size_limit, collection_limit, invalid_value,
}

abbrev pub Writer : Type 0
Writer = List ℕ → Result CanonicalError (List ℕ)

-- `to_be_bytes` of u16, u32 and u64.
abbrev pub be16 : ℕ → List ℕ
be16 v = v / 2 ^ 8 % 256 ∷ v % 256 ∷ []

abbrev pub be32 : ℕ → List ℕ
be32 v = v / 2 ^ 24 % 256 ∷ v / 2 ^ 16 % 256 ∷ be16 v

abbrev pub be64 : ℕ → List ℕ
be64 v = v / 2 ^ 56 % 256 ∷ v / 2 ^ 48 % 256 ∷ v / 2 ^ 40 % 256 ∷ v / 2 ^ 32 % 256 ∷ be32 v

module _ (is_nfc : List ℕ → Bool) (limits : CanonicalLimits) where
  open limits use {
    max_bytes, max_byte_string_bytes, max_string_bytes, max_depth, max_collection_items,
  }

  unfoldable pub check_collection : ℕ → Result CanonicalError (Unit {0})
  check_collection len = ensure (not (ltb max_collection_items len)) collection_limit

  unfoldable pub extend : List ℕ → Writer
  extend new out =
      if ltb max_bytes (length out + length new) then err size_limit else ok (out ++ new)

  unfoldable pub push_head : ℕ → ℕ → Writer
  unfolding extend
  push_head major value out =
      let prefix = major * 32 in
      if leb value 23
      then extend ((prefix + value) ∷ []) out
      else if leb value 0xff
      then extend ((prefix + 24) ∷ value ∷ []) out
      else if leb value 0xffff
      then extend ((prefix + 25) ∷ []) out >>= extend (be16 value)
      else if leb value 0xffff_ffff
      then extend ((prefix + 26) ∷ []) out >>= extend (be32 value)
      else extend ((prefix + 27) ∷ []) out >>= extend (be64 value)

  -- `sort_by_key`, which is stable.
  unfoldable pub insert_by_key : ℕ × Writer → List (ℕ × Writer) → List (ℕ × Writer)
  insert_by_key (k, w) [] = (k, w) ∷ []
  insert_by_key (k, w) ((j, x) ∷ rest) =
      let later = (j, x) ∷ insert_by_key (k, w) rest in
      if leb k j then (k, w) ∷ (j, x) ∷ rest else later

  unfoldable pub sort_by_key : List (ℕ × Writer) → List (ℕ × Writer)
  sort_by_key [] = []
  sort_by_key (entry ∷ entries) = insert_by_key entry (sort_by_key entries)

  -- `windows(2).any(..)`: two neighbours with one key.
  unfoldable pub has_duplicate : List (ℕ × Writer) → Bool
  has_duplicate [] = false
  has_duplicate ((k, w) ∷ []) = false
  has_duplicate ((k, w) ∷ (j, x) ∷ rest) = k == j || has_duplicate ((j, x) ∷ rest)

  -- The loop over the ordered entries: each key, then its value.
  unfoldable pub write_entries : List (ℕ × Writer) → Writer
  write_entries [] out = ok out
  write_entries ((key, value) ∷ rest) out = do
    out₁ ← push_head 0 key out
    out₂ ← value out₁
    write_entries rest out₂

  unfoldable mutual
    pub encode_into : Value → ℕ → Writer
    encode_into (unsigned value) depth out = do
      ensure (not (ltb max_depth depth)) depth_limit
      push_head 0 value out
    encode_into (signed (pos value)) depth out = do
      ensure (not (ltb max_depth depth)) depth_limit
      push_head 0 value out
    encode_into (signed (negsuc value)) depth out = do
      ensure (not (ltb max_depth depth)) depth_limit
      push_head 1 value out
    encode_into (bytes content) depth out = do
      ensure (not (ltb max_depth depth)) depth_limit
      ensure (not (ltb max_byte_string_bytes (length content))) size_limit
      head ← push_head 2 (length content) out
      extend content head
    encode_into (text content) depth out = do
      ensure (not (ltb max_depth depth)) depth_limit
      ensure (is_nfc content) invalid_value
      ensure (not (ltb max_string_bytes (length content))) size_limit
      head ← push_head 3 (length content) out
      extend content head
    encode_into (array values) depth out = do
      ensure (not (ltb max_depth depth)) depth_limit
      check_collection (count_items values)
      head ← push_head 4 (count_items values) out
      encode_items values (depth + 1) head
    encode_into (map entries) depth out = do
      ensure (not (ltb max_depth depth)) depth_limit
      check_collection (count_fields entries)
      head ← push_head 5 (count_fields entries) out
      let ordered = sort_by_key (entry_writers entries (depth + 1))
      ensure (not (has_duplicate ordered)) invalid_value
      write_entries ordered head
    encode_into (bool false) depth out = do
      ensure (not (ltb max_depth depth)) depth_limit
      extend (0xf4 ∷ []) out
    encode_into (bool true) depth out = do
      ensure (not (ltb max_depth depth)) depth_limit
      extend (0xf5 ∷ []) out
    encode_into null depth out = do
      ensure (not (ltb max_depth depth)) depth_limit
      extend (0xf6 ∷ []) out

    pub encode_items : Items → ℕ → Writer
    encode_items no_items depth out = ok out
    encode_items (item value values) depth out = do
      out' ← encode_into value depth out
      encode_items values depth out'

    -- Each key with the encoder of its value.
    pub entry_writers : Fields → ℕ → List (ℕ × Writer)
    entry_writers no_fields depth = []
    entry_writers (field key value entries) depth =
        (key, encode_into value depth) ∷ entry_writers entries depth

  unfoldable pub encode_with_limits : Value → Result CanonicalError (List ℕ)
  encode_with_limits value = encode_into value 0 []

-- `Value::encode`: the metadata profile.
unfoldable pub encode : (List ℕ → Bool) → Value → Result CanonicalError (List ℕ)
encode is_nfc = encode_with_limits is_nfc metadata
