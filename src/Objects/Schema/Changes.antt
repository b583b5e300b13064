-- ===== src/Objects/Schema/Changes.antt =====
-- crates/rgit-objects/src/decode.rs, `validate_shapes`: snapshots, changes, lines and conflicts.
use rethinking_git.Base.{
  ℕ, Bool, true, not, ◌&&◌, ltb, leb, ◌==◌, Option, none, some, List, [], ◌∷◌, ok, err, ◌>>=◌, ◌>>◌,
  ensure,
}
use rethinking_git.Objects.Canonical.{Value, Fields}
use rethinking_git.Objects.Path.{new_path}
use rethinking_git.Objects.Signature.{SignaturePurpose}
use rethinking_git.Objects.Unicode.{Unicode}
use rethinking_git.Objects.Schema.{
  Check, wrong, each, collect, field, unsigned, text, array, oid_values, ensure_unique_ids,
  ensure_sorted_unique_ids, exact_map, checked,
}
use rethinking_git.Objects.Schema.Parts.{
  policy_ref, typed_ref, wall_time, signature, signature_set, ensure_sorted_unique_values, at_field,
  oid_at, text_at, stable_at, at_most, oid_if_some, previous_at, is_empty,
}
use rethinking_git.Objects.Schema.Content.{portable_segment}

unfoldable pub snapshot_shape : Fields → Check
snapshot_shape m = do
  oid_at m 3
  parents ← at_field oid_values m 4
  ensure_unique_ids parents 4
  stable_at m 5
  stable_at m 6
  stable_at m 7
  checked (at_field unsigned m 8)
  at_field wall_time m 9
  oid_if_some m 10

unfoldable pub change_revision_shape : Fields → Check
change_revision_shape m = do
  stable_at m 3
  oid_if_some m 4
  each (oid_at m) (5 ∷ 6 ∷ 7 ∷ 8 ∷ [])
  stable_at m 9
  checked (at_field unsigned m 10)
  stable_at m 11
  stable_at m 12
  at_most 3 m 13
  at_field policy_ref m 14
  at_field policy_ref m 15

unfoldable pub line_state_shape : Fields → Check
line_state_shape m = do
  stable_at m 3
  text_at m 4
  oid_at m 5
  previous_at m 6 7
  oid_at m 12
  each (at_field policy_ref m) (8 ∷ 9 ∷ 10 ∷ 11 ∷ [])
  at_field (λ value key. signature value key SignaturePurpose.line_state) m 13

-- `previous_end.is_some_and(|previous| start < previous)` is false.
abbrev pub starts_after : Option ℕ → ℕ → Bool
starts_after none start = true
starts_after (some previous) start = leb previous start

-- The loop over the regions of a conflict.
unfoldable pub region_loop : Option ℕ → List Value → Check
region_loop previous_end [] = ok tt
region_loop previous_end (region ∷ regions) = do
  m ← exact_map region (0 ∷ 1 ∷ []) [] 10
  first ← field m 0
  start ← unsigned first 10
  last ← field m 1
  end ← unsigned last 10
  ensure (ltb start end && starts_after previous_end start) (wrong 10)
  region_loop (some end) regions

module _ (unicode : Unicode) where
  -- The path of a conflict.
  unfoldable pub conflict_path : List Value → Check
  conflict_path values = do
    segments ← collect (λ value. text value 6 >>= λ name. portable_segment unicode name 6) values
    elim (new_path unicode segments) [ ok path ↦ ok tt | err e ↦ err (wrong 6) ]

  unfoldable pub conflict_shape : Fields → Check
  conflict_shape m = do
    at_field typed_ref m 3
    at_field typed_ref m 4
    at_field typed_ref m 5
    path ← at_field array m 6
    conflict_path path
    at_most 3 m 7
    text_at m 8
    text_at m 9
    at_field array m 10 >>= region_loop none

unfoldable pub change_relation_shape : Fields → Check
change_relation_shape m = do
  at_most 2 m 3
  each
      (λ key. do
        ids ← at_field oid_values m key
        ensure_sorted_unique_ids ids key
        ensure (not (not (key == 6) && is_empty ids)) (wrong key))
      (4 ∷ 5 ∷ 6 ∷ [])
  oid_at m 7

module _ (unicode : Unicode) where
  open unicode use {is_nfc}

  unfoldable pub conflict_resolution_shape : Fields → Check
  conflict_resolution_shape m = do
    oid_at m 3
    at_field typed_ref m 4
    stable_at m 5
    stable_at m 6
    at_most 4 m 7
    refs ← at_field array m 8
    each (λ value. typed_ref value 8) refs
    ensure_sorted_unique_values is_nfc refs 8
    at_field wall_time m 9
    at_field (λ value key. signature_set is_nfc value key SignaturePurpose.conflict_resolution) m 10
