-- ===== src/Objects/Schema/Evidence.antt =====
-- crates/rgit-objects/src/decode.rs, `validate_shapes`: evidence, projections, builds, views,
-- migrations and rule sets.
use rethinking_git.Base.{
  ℕ, Bool, not, ◌||◌, ◌&&◌, ltb, leb, ◌==◌, Option, none, some, List, [], ◌∷◌, length, ok, ◌>>=◌,
  ◌>>◌, ensure,
}
use rethinking_git.Base.Set
use rethinking_git.Base.Order.{list_ord, nat_ord}
use rethinking_git.Objects.Canonical.{Value, Fields}
use rethinking_git.Objects.Id.{ObjectId}
use rethinking_git.Objects.Reference.{id_ord}
use rethinking_git.Objects.Signature.{SignaturePurpose}
use rethinking_git.Objects.Schema.{
  Check, wrong, each, is_some, field, optional_field, unsigned, bytes, text, array, boolean,
  fixed_bytes, oid, oid_values, ensure_sorted_unique_ids, exact_map, checked,
}
use rethinking_git.Objects.Schema.Parts.{
  typed_ref, canonical_map_bytes, wall_time, signature_set, ensure_sorted_unique_values, at_field,
  oid_at, stable_at, at_most, oid_if_some, previous_at, is_empty, is_above,
}

unfoldable pub check_view_lines : List (List ℕ) → List Value → Check
check_view_lines line_ids [] = ok tt
check_view_lines line_ids (value ∷ values) = do
  m ← exact_map value (0 ∷ 1 ∷ 2 ∷ []) [] 6
  line ← field m 0
  fixed_bytes line 6 16
  line_id ← bytes line 6
  ensure (not (Set.contains line_id line_ids)) (wrong 6)
  number ← field m 1
  checked (unsigned number 6)
  state ← field m 2
  checked (oid state 6)
  check_view_lines (Set.insert line_id line_ids) values

unfoldable pub mapping_loop : List ObjectId → List ObjectId → List Value → Check
mapping_loop old new [] = ok tt
mapping_loop old new (value ∷ values) = do
  m ← exact_map value (0 ∷ 1 ∷ []) [] 5
  first ← field m 0
  a ← oid first 5
  second ← field m 1
  b ← oid second 5
  ensure (not (Set.contains a old || Set.contains b new)) (wrong 5)
  mapping_loop (Set.insert a old) (Set.insert b new) values

-- The loop over the kinds of evidence of a rule set.
unfoldable pub evidence_kinds : Option ℕ → List Value → Check
evidence_kinds prior [] = ok tt
evidence_kinds prior (value ∷ values) = do
  n ← unsigned value 7
  ensure ((leb 20 n && leb n 23) && is_above prior n) (wrong 7)
  evidence_kinds (some n) values

module _ (is_utf8 is_nfc : List ℕ → Bool) where
  -- The four kinds of evidence, but for what only that of a CI run has.
  unfoldable pub evidence_shape : SignaturePurpose → Fields → Check
  evidence_shape purpose m = do
    at_field typed_ref m 3
    oid_at m 4
    oid_at m 5
    stable_at m 6
    stable_at m 7
    at_most 3 m 8
    at_field (canonical_map_bytes is_utf8 is_nfc) m 9
    related ← at_field array m 10
    each (λ value. typed_ref value 10) related
    ensure_sorted_unique_values is_nfc related 10
    at_field wall_time m 11
    at_field (λ value key. signature_set is_nfc value key purpose) m 12

  unfoldable pub ci_evidence_shape : Fields → Check
  ci_evidence_shape m = do
    evidence_shape SignaturePurpose.ci_evidence m
    runner ← at_field text m 13
    ensure (not (is_empty runner)) (wrong 13)
    oid_at m 14
    oid_if_some m 15

  unfoldable pub check_rule : Value → Check
  check_rule rule = do
    m ← exact_map rule (0 ∷ 1 ∷ []) [] 5
    number ← field m 0
    kind ← unsigned number 5
    ensure (not (ltb 2 kind)) (wrong 5)
    content ← field m 1
    canonical_map_bytes is_utf8 is_nfc content 5

  unfoldable pub projection_rules_shape : Fields → Check
  projection_rules_shape m = do
    previous_at m 3 4
    rules ← at_field array m 5
    each check_rule rules
    answer ← at_field boolean m 6
    ensure answer (wrong 6)

unfoldable pub projection_proof_shape : Fields → Check
projection_proof_shape m = do
  number ← at_field unsigned m 3
  ensure (number == 0) (wrong 3)
  each (oid_at m) (4 ∷ 5 ∷ 6 ∷ 7 ∷ [])
  content ← at_field bytes m 8
  ensure (not (is_empty content)) (wrong 8)

unfoldable pub artifact_shape : Fields → Check
artifact_shape m = do
  at_most 3 m 3
  at_most 1 m 4
  content ← at_field bytes m 5
  ensure (length content == 32) (wrong 5)
  checked (at_field unsigned m 6)
  ensure (is_some (optional_field m 7) || is_some (optional_field m 8)) (wrong 7)
  elim (optional_field m 7) [ none ↦ ok tt | some value ↦ checked (text value 7) ]
  oid_if_some m 8

module _ (is_utf8 is_nfc : List ℕ → Bool) where
  unfoldable pub build_provenance_shape : Fields → Check
  build_provenance_shape m = do
    each (oid_at m) (3 ∷ 4 ∷ 5 ∷ [])
    inputs ← at_field array m 6
    each (λ value. typed_ref value 6) inputs
    ensure_sorted_unique_values is_nfc inputs 6
    outputs ← at_field oid_values m 7
    ensure_sorted_unique_ids outputs 7
    at_field (canonical_map_bytes is_utf8 is_nfc) m 8
    at_field wall_time m 9
    at_field (λ value key. signature_set is_nfc value key SignaturePurpose.build_provenance) m 10

  unfoldable pub view_shape : Fields → Check
  view_shape m = do
    stable_at m 3
    stable_at m 4
    policies ← at_field oid_values m 5
    ensure_sorted_unique_ids policies 5
    lines ← at_field array m 6
    check_view_lines [] lines
    ensure_sorted_unique_values is_nfc lines 6
    oid_at m 7
    at_field (canonical_map_bytes is_utf8 is_nfc) m 8
    at_field (λ value key. signature_set is_nfc value key SignaturePurpose.view) m 9

  unfoldable pub migration_shape : Fields → Check
  migration_shape m = do
    source ← at_field unsigned m 3
    target ← at_field unsigned m 4
    ensure (not (ltb 1 source || ltb 1 target || source == target)) (wrong 4)
    mappings ← at_field array m 5
    ensure (not (is_empty mappings)) (wrong 5)
    mapping_loop [] [] mappings
    ensure_sorted_unique_values is_nfc mappings 5
    oid_at m 6
    at_field wall_time m 7
    at_field (λ value key. signature_set is_nfc value key SignaturePurpose.migration) m 8

  unfoldable pub rule_set_shape : Fields → Check
  rule_set_shape m = do
    at_most 4 m 3
    previous_at m 4 5
    at_field (canonical_map_bytes is_utf8 is_nfc) m 6
    kinds ← at_field array m 7
    evidence_kinds none kinds
