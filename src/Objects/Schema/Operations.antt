-- ===== src/Objects/Schema/Operations.antt =====
-- crates/rgit-objects/src/decode.rs, `validate_shapes`: operations and their actions, payloads,
-- markers and releases.
use rethinking_git.Base.{
  ℕ, Bool, true, false, not, ◌||◌, ◌&&◌, ◌==◌, List, [], ◌∷◌, Result, ok, err, ◌>>=◌, ◌>>◌, ensure,
  if◌then◌else◌,
}
use rethinking_git.Base.Set
use rethinking_git.Objects.Canonical.{Value, Fields}
use rethinking_git.Objects.Error.{DecodeObjectError}
use rethinking_git.Objects.Reference.{ObjectKind, ReferenceKey, same_kind, expected_kind, key_ord}
use rethinking_git.Objects.Signature.{SignaturePurpose}
use rethinking_git.Objects.Schema.{
  Check, wrong, each, if_some, is_some, as_map, field, optional_field, unsigned, bytes, array,
  oid_array, oid_values, ensure_unique_ids, exact_map, checked,
}
use rethinking_git.Objects.Schema.Parts.{
  policy_ref, typed_ref, typed_ref_kind, reference_key, line_advance, canonical_map_bytes,
  wall_time, signature, signature_set, ensure_sorted_unique_values, at_field, oid_at, text_at,
  stable_at, at_most, oid_if_some,
}

abbrev pub Keys : Type 0
Keys = Result DecodeObjectError (List ReferenceKey)

-- An object's change, of schema 0.
unfoldable pub object_action : Value → Check
object_action action = do
  m ← exact_map action (0 ∷ []) (1 ∷ 2 ∷ []) 8
  let before = optional_field m 1
  let after = optional_field m 2
  ensure (is_some before || is_some after) (wrong 8)
  if_some before (λ value. typed_ref value 8)
  if_some after λ value. do
    kind ← typed_ref_kind value 8
    ensure (not (same_kind kind ObjectKind.line_state)) (wrong 8)

-- The advance of a line. Schema 1 allows one for each line.
unfoldable pub line_action : ℕ → List ReferenceKey → Value → Keys
line_action schema action_keys action = do
  m ← exact_map action (0 ∷ 3 ∷ []) [] 8
  declaration ← field m 3
  line_id ← line_advance declaration 8
  let key = ReferenceKey.line line_id
  ensure (not (schema == 1 && Set.contains key action_keys)) (wrong 8)
  ok (if schema == 1 then Set.insert key action_keys else action_keys)

abbrev pub is_line_or_head : ReferenceKey → Bool
is_line_or_head (ReferenceKey.line id) = true
is_line_or_head ReferenceKey.operation_head = true
is_line_or_head _ = false

-- A change of a reference, of schema 1.
unfoldable pub reference_action : List ReferenceKey → Value → Keys
reference_action action_keys action = do
  m ← exact_map action (0 ∷ 1 ∷ 3 ∷ []) (2 ∷ []) 8
  key_value ← field m 1
  key ← reference_key key_value 8
  ensure (not (is_line_or_head key || Set.contains key action_keys)) (wrong 8)
  if_some (optional_field m 2) λ before. do
    kind ← typed_ref_kind before 8
    ensure (same_kind kind (expected_kind key)) (wrong 8)
  after ← field m 3
  kind ← typed_ref_kind after 8
  ensure (same_kind kind (expected_kind key)) (wrong 8)
  ok (Set.insert key action_keys)

-- The body of the loop over the actions: the keys that the actions so far name.
unfoldable pub check_action : ℕ → List ReferenceKey → Value → Keys
check_action schema action_keys action = do
  m ← as_map action
  number ← field m 0
  variant ← unsigned number 8
  (if schema == 0 && variant == 0
      then (object_action action >> ok action_keys)
      else if (schema == 0 || schema == 1) && variant == 1
      then line_action schema action_keys action
      else if schema == 1 && variant == 2
      then reference_action action_keys action
      else err (wrong 8))

unfoldable pub action_loop : ℕ → List ReferenceKey → List Value → Check
action_loop schema action_keys [] = ok tt
action_loop schema action_keys (action ∷ actions) = do
  action_keys ← check_action schema action_keys action
  action_loop schema action_keys actions

unfoldable pub operation_shape : ℕ → Fields → Check
operation_shape schema m = do
  parents ← at_field oid_values m 3
  ensure_unique_ids parents 3
  stable_at m 4
  stable_at m 5
  checked (at_field unsigned m 6)
  at_field wall_time m 7
  actions ← at_field array m 8
  action_loop schema [] actions
  at_field oid_array m 9
  oid_if_some m 10
  oid_if_some m 11
  at_field (λ value key. signature value key SignaturePurpose.operation) m 12
  text_at m 13

unfoldable pub marker_shape : Fields → Check
marker_shape m = do
  at_most 4 m 3
  at_field typed_ref m 4
  stable_at m 5
  at_field wall_time m 6
  checked (at_field bytes m 7)
  at_field (λ value key. signature value key SignaturePurpose.marker) m 8

module _ (is_nfc : List ℕ → Bool) where
  unfoldable pub release_shape : Fields → Check
  release_shape m = do
    stable_at m 3
    checked (at_field unsigned m 4)
    each (oid_at m) (5 ∷ 7 ∷ 8 ∷ [])
    text_at m 10
    at_field policy_ref m 6
    oid_at m 9
    each (at_field oid_array m) (12 ∷ 13 ∷ 14 ∷ [])
    at_field wall_time m 15
    at_field (λ value key. signature_set is_nfc value key SignaturePurpose.release) m 16

module _ (is_utf8 is_nfc : List ℕ → Bool) where
  unfoldable pub operation_payload_shape : Fields → Check
  operation_payload_shape m = do
    at_most 3 m 3
    refs ← at_field array m 4
    each (λ value. typed_ref value 4) refs
    ensure_sorted_unique_values is_nfc refs 4
    number ← at_field unsigned m 5
    ensure (number == 0) (wrong 5)
    at_field (canonical_map_bytes is_utf8 is_nfc) m 6
