-- ===== src/Objects/Schema/Content.antt =====
-- crates/rgit-objects/src/decode.rs, `validate_shapes`: chunks, blobs, manifests, secret references
-- and subprojects.
use rethinking_git.Base.{
  ℕ, ◌+◌, ◌*◌, ◌^◌, Bool, true, false, not, ◌||◌, ltb, leb, ◌==◌, Option, none, some, List, [], ◌∷◌,
  length, Result, ok, err, ◌>>=◌, ◌>>◌, ensure,
}
use rethinking_git.Base.Set
use rethinking_git.Base.Order.{list_ord, nat_ord}
use rethinking_git.Objects.Canonical.{Value, Fields}
use rethinking_git.Objects.Error.{DecodeObjectError}
use rethinking_git.Objects.Fastcdc.{min_size, target_size, max_size}
use rethinking_git.Objects.Path.{PathSegment, new_portable, portable_case_fold}
use rethinking_git.Objects.Unicode.{Unicode}
use rethinking_git.Objects.Schema.{
  Check, wrong, each, if_some, same_answer, is_below, keys_of, has_field, field, optional_field,
  unsigned, bytes, text, array, oid, exact_map, checked,
}
use rethinking_git.Objects.Schema.Parts.{
  policy_ref, encoded_value, at_field, text_at, oid_if_some, is_empty, when,
}

abbrev pub max_chunk_bytes : ℕ
max_chunk_bytes = 4 * 1024 * 1024

abbrev pub max_inline_blob_bytes : ℕ
max_inline_blob_bytes = 64 * 1024

unfoldable pub chunk_shape : Fields → Check
chunk_shape m =
    at_field bytes m 3 >>= λ content. ensure (not (ltb max_chunk_bytes (length content))) (wrong 3)

-- How many of the entries have key 4 or 5.
unfoldable pub count_contents : List ℕ → ℕ
count_contents [] = 0
count_contents (k ∷ ks) =
    let rest = count_contents ks in elim (k == 4 || k == 5) [ true ↦ 1 + rest | false ↦ rest ]

-- The loop over the chunks of a blob, from the total so far.
unfoldable pub chunk_loop : ℕ → List Value → Result DecodeObjectError ℕ
chunk_loop total [] = ok total
chunk_loop total (chunk ∷ chunks) = do
  m ← exact_map chunk (0 ∷ 1 ∷ []) [] 5
  id ← field m 0
  checked (oid id 5)
  number ← field m 1
  size ← unsigned number 5
  ensure (not (size == 0 || ltb max_size size)) (wrong 5)
  ensure (ltb (total + size) (2 ^ 64)) (wrong 5)
  chunk_loop (total + size) chunks

unfoldable pub check_profile : Value → Check
check_profile profile = do
  m ← exact_map profile (0 ∷ 1 ∷ 2 ∷ 3 ∷ 4 ∷ []) [] 7
  algorithm ← field m 0
  algorithm_number ← unsigned algorithm 7
  ensure (algorithm_number == 0) (wrong 7)
  version ← field m 1
  version_number ← unsigned version 7
  ensure (version_number == 0) (wrong 7)
  least ← field m 2
  min ← unsigned least 7
  middle ← field m 3
  target ← unsigned middle 7
  greatest ← field m 4
  max ← unsigned greatest 7
  ensure (min == min_size) (wrong 7)
  ensure (target == target_size) (wrong 7)
  ensure (max == max_size) (wrong 7)

unfoldable pub inline_blob : Fields → ℕ → Value → Check
inline_blob m byte_length inline = do
  content ← bytes inline 4
  ensure
      (not (
        ltb max_inline_blob_bytes (length content)
        || not (length content == byte_length)
        || has_field m 7))
      (wrong 4)

unfoldable pub chunked_blob : Fields → ℕ → Check
chunked_blob m byte_length = do
  ensure (not (leb byte_length max_inline_blob_bytes)) (wrong 5)
  chunks ← at_field array m 5
  ensure (not (is_empty chunks)) (wrong 5)
  total ← chunk_loop 0 chunks
  ensure (total == byte_length) (wrong 5)
  profile ← field m 7
  check_profile profile

unfoldable pub blob_shape : Fields → Check
blob_shape m = do
  byte_length ← at_field unsigned m 3
  ensure (count_contents (keys_of m) == 1) (wrong 4)
  elim (optional_field m 4) [
    | some inline ↦ inline_blob m byte_length inline
    | none ↦ chunked_blob m byte_length
  ]
  if_some (optional_field m 6) (λ hint. checked (text hint 6))

unfoldable pub secret_ref_shape : Fields → Check
secret_ref_shape m = do
  each (text_at m) (3 ∷ 4 ∷ 7 ∷ 8 ∷ [])
  checked (at_field bytes m 6)
  if_some (optional_field m 5) (λ value. checked (text value 5))
  oid_if_some m 9

unfoldable pub subproject_shape : Fields → Check
subproject_shape m = do
  text_at m 3
  checked (at_field bytes m 4)
  checked (at_field bytes m 5)
  oid_if_some m 6

-- `previous.as_ref().is_some_and(|old| old >= &encoded)` is false.
abbrev pub is_later : Option (List ℕ) → List ℕ → Bool
is_later none encoded = true
is_later (some old) encoded = is_below old encoded

module _ (unicode : Unicode) where
  open unicode use {is_nfc}

  -- `PathSegment::new_portable(..).map_err(|_| Field(key))`
  unfoldable pub portable_segment : List ℕ → ℕ → Result DecodeObjectError PathSegment
  portable_segment name key = elim (new_portable unicode name) [
    | ok segment ↦ ok segment
    | err e ↦ err (wrong key)
  ]

  -- What one entry of a manifest must have besides its name.
  unfoldable pub check_entry : Fields → Check
  check_entry m = do
    number ← field m 1
    kind ← unsigned number 3
    ensure (not (ltb 4 kind || not (same_answer (kind == 0) (has_field m 3)))) (wrong 3)
    when (kind == 0) (do
      executable ← field m 3
      mode ← unsigned executable 3
      ensure (not (ltb 1 mode)) (wrong 3))
    target ← field m 2
    checked (oid target 3)
    policy ← field m 4
    policy_ref policy 3

  -- The loop over the entries of a manifest: the encoding of the name before, and the names so far.
  unfoldable pub manifest_loop : Option (List ℕ) → List (List ℕ) → List Value → Check
  manifest_loop previous folded_names [] = ok tt
  manifest_loop previous folded_names (entry ∷ entries) = do
    m ← exact_map entry (0 ∷ 1 ∷ 2 ∷ 4 ∷ []) (3 ∷ []) 3
    name_value ← field m 0
    name ← text name_value 3
    segment ← portable_segment name 3
    let folded = portable_case_fold unicode segment
    ensure (not (Set.contains folded folded_names)) (wrong 3)
    encoded ← encoded_value is_nfc (Value.text name)
    ensure (is_later previous encoded) (wrong 3)
    check_entry m
    manifest_loop (some encoded) (Set.insert folded folded_names) entries

  unfoldable pub manifest_shape : Fields → Check
  manifest_shape m = at_field array m 3 >>= manifest_loop none []
