-- ===== src/Objects/Schema/Parts.antt =====
-- crates/rgit-objects/src/decode.rs: the values that the schemas of several kinds share. `is_nfc`
-- and `is_utf8` are those of the canonical encoding.
use rethinking_git.Base.{
  ℕ, Bool, true, false, not, ◌||◌, ltb, ◌==◌, Option, none, some, List, [], ◌∷◌, length, Result, ok,
  err, ◌>>=◌, ◌>>◌, ok_or, ensure, if◌then◌else◌,
}
use rethinking_git.Base.Order.{list_ord, nat_ord}
use rethinking_git.Objects.Canonical.{Value, Fields, metadata}
use rethinking_git.Objects.Canonical.Encode.{encode}
use rethinking_git.Objects.Canonical.Decode.{decode_canonical}
use rethinking_git.Objects.Error.{DecodeObjectError}
use rethinking_git.Objects.Id.{ObjectId}
use rethinking_git.Objects.Reference.{ObjectKind, kind_of_code, ReferenceKey}
use rethinking_git.Objects.Schema.{
  Check, wrong, each, collect, if_some, is_some, same_answer, increases, all_zero, as_map, field,
  optional_field, unsigned, bytes, text, array, fixed_bytes, fixed_nonzero_bytes, oid, exact_map,
  checked,
}
use rethinking_git.Objects.Signature.{
  SignaturePurpose, algorithm_of_code, purpose_code, purpose_of_code,
}

unfoldable pub policy_ref : Value → ℕ → Check
unfolding exact_map field fixed_bytes oid
policy_ref value key = do
  m ← exact_map value (0 ∷ 1 ∷ []) [] key
  policy ← field m 0
  fixed_bytes policy key 16
  version ← field m 1
  checked (oid version key)

-- `ObjectKind::try_from(..).map_err(DecodeObjectError::Kind)`
unfoldable pub read_kind : ℕ → Result DecodeObjectError ObjectKind
unfolding kind_of_code
read_kind number = ok_or (kind_of_code number) (DecodeObjectError.kind number)

unfoldable pub typed_ref_kind : Value → ℕ → Result DecodeObjectError ObjectKind
unfolding exact_map field unsigned oid read_kind
typed_ref_kind value key = do
  m ← exact_map value (0 ∷ 1 ∷ []) [] key
  number ← field m 0
  code ← unsigned number key
  kind ← read_kind code
  id ← field m 1
  checked (oid id key)
  ok kind

unfoldable pub typed_ref : Value → ℕ → Check
unfolding typed_ref_kind
typed_ref value key = checked (typed_ref_kind value key)

pub record TypedObjectRef : Type 0 where
  pub kind : ObjectKind
  pub id : ObjectId

unfoldable pub typed_ref_value : Value → ℕ → Result DecodeObjectError TypedObjectRef
unfolding exact_map field unsigned oid read_kind
typed_ref_value value key = do
  m ← exact_map value (0 ∷ 1 ∷ []) [] key
  number ← field m 0
  code ← unsigned number key
  kind ← read_kind code
  content ← field m 1
  id ← oid content key
  ok (record { kind = kind; id = id })

-- The last match of `reference_key`.
key_of : ℕ → List ℕ → ℕ → Result DecodeObjectError ReferenceKey
key_of kind stable key =
    if kind == 1
    then ok (ReferenceKey.line stable)
    else if kind == 2
    then ok (ReferenceKey.change stable)
    else if kind == 4
    then ok (ReferenceKey.release stable)
    else if kind == 5
    then ok (ReferenceKey.marker stable)
    else err (wrong key)

unfoldable pub reference_key : Value → ℕ → Result DecodeObjectError ReferenceKey
unfolding as_map exact_map field unsigned bytes key_of
reference_key value key = do
  m ← as_map value
  number ← field m 0
  kind ← unsigned number key
  (if kind == 3
      then (exact_map value (0 ∷ []) [] key >>= λ _. ok ReferenceKey.operation_head)
      else (do
        m ← exact_map value (0 ∷ 1 ∷ []) [] key
        content ← field m 1
        stable ← bytes content key
        ensure (length stable == 16) (wrong key)
        key_of kind stable key))

unfoldable pub principal : Value → ℕ → Check
unfolding exact_map field unsigned bytes
principal value key = do
  m ← exact_map value (0 ∷ 1 ∷ []) [] key
  number ← field m 0
  kind ← unsigned number key
  ensure (not (ltb 3 kind)) (wrong key)
  name ← field m 1
  content ← bytes name key
  ensure (not (length content == 0)) (wrong key)

-- The algorithm and the identifier of a key.
unfoldable pub public_key : Value → ℕ → Result DecodeObjectError (ℕ × List ℕ)
unfolding exact_map field unsigned bytes fixed_nonzero_bytes optional_field oid
public_key value key = do
  m ← exact_map value (0 ∷ 1 ∷ 2 ∷ []) (3 ∷ 4 ∷ []) key
  number ← field m 0
  algorithm ← unsigned number key
  ensure (not (ltb 1 algorithm)) (wrong key)
  key_id ← field m 1
  fixed_nonzero_bytes key_id key 32
  public ← field m 2
  content ← bytes public key
  ensure (length content == 32) (wrong key)
  if_some (optional_field m 3) (λ v. checked (oid v key))
  if_some (optional_field m 4) (λ v. checked (oid v key))
  stable ← bytes key_id key
  ok (algorithm, stable)

unfoldable pub line_advance : Value → ℕ → Result DecodeObjectError (List ℕ)
unfolding exact_map field unsigned bytes text optional_field oid each policy_ref
line_advance value key = do
  m ← exact_map value (0 ∷ 1 ∷ 2 ∷ 3 ∷ 4 ∷ 6 ∷ 7 ∷ 8 ∷ 9 ∷ []) (5 ∷ []) key
  policy ← field m 0
  policy_ref policy key
  line ← field m 1
  line_id ← bytes line key
  ensure (length line_id == 16) (wrong key)
  name ← field m 2
  checked (text name key)
  head ← field m 3
  checked (oid head key)
  number ← field m 4
  generation ← unsigned number key
  let previous = optional_field m 5
  ensure (not (same_answer (generation == 0) (is_some previous))) (wrong key)
  if_some previous (λ v. checked (oid v key))
  each (λ k. field m k >>= λ v. policy_ref v key) (6 ∷ 7 ∷ 8 ∷ 9 ∷ [])
  ok line_id

is_integer : Value → Bool
is_integer (Value.signed n) = true
is_integer (Value.unsigned n) = true
is_integer _ = false

unfoldable pub wall_time : Value → ℕ → Check
unfolding exact_map field is_integer each
wall_time value key = do
  m ← exact_map value (0 ∷ 1 ∷ []) [] key
  each (λ k. field m k >>= λ v. ensure (is_integer v) (wrong key)) (0 ∷ 1 ∷ [])

unfoldable pub signature : Value → ℕ → SignaturePurpose → Check
unfolding exact_map field unsigned bytes fixed_bytes algorithm_of_code purpose_of_code purpose_code
signature value key expected_purpose = do
  m ← exact_map value (0 ∷ 1 ∷ 2 ∷ 3 ∷ 4 ∷ []) [] key
  number ← field m 0
  code ← unsigned number key
  checked (ok_or (algorithm_of_code code) (wrong key))
  signer ← field m 1
  fixed_bytes signer key 16
  public ← field m 2
  fixed_bytes public key 32
  signed ← field m 3
  fixed_bytes signed key 64
  public_bytes ← bytes public key
  signed_bytes ← bytes signed key
  ensure (not (all_zero public_bytes || all_zero signed_bytes)) (wrong key)
  purpose_value ← field m 4
  purpose_number ← unsigned purpose_value key
  purpose ← ok_or (purpose_of_code purpose_number) (wrong key)
  ensure (purpose_code purpose == purpose_code expected_purpose) (wrong key)

module _ (is_utf8 is_nfc : List ℕ → Bool) where
  unfoldable pub canonical_map_bytes : Value → ℕ → Check
  unfolding bytes
  canonical_map_bytes value key = do
    encoded ← bytes value key
    elim (decode_canonical is_utf8 is_nfc metadata encoded) [
      | ok (Value.map entries) ↦ ok tt
      | _ ↦ err (wrong key)
    ]

module _ (is_nfc : List ℕ → Bool) where
  -- `Value::encode`, with its error converted.
  unfoldable pub encoded_value : Value → Result DecodeObjectError (List ℕ)
  encoded_value value = elim (encode is_nfc value) [
    | ok out ↦ ok out
    | err e ↦ err (DecodeObjectError.canonical e)
  ]

  unfoldable pub ensure_sorted_unique_values : List Value → ℕ → Check
  unfolding collect encoded_value increases
  ensure_sorted_unique_values values key = do
    encoded ← collect encoded_value values
    ensure (increases encoded) (wrong key)

  unfoldable pub signature_set : Value → ℕ → SignaturePurpose → Check
  unfolding array each signature ensure_sorted_unique_values
  signature_set value key purpose = do
    values ← array value key
    ensure (not (length values == 0)) (wrong key)
    each (λ v. signature v key purpose) values
    ensure_sorted_unique_values values key

-- A reader of the field `key`, which its errors name as well.
abbrev pub at_field {ℓ} :
    {A : Type ℓ}
    → (Value → ℕ → Result DecodeObjectError A)
    → Fields
    → ℕ
    → Result DecodeObjectError A
at_field reader m key = field m key >>= λ value. reader value key

abbrev pub oid_at : Fields → ℕ → Check
oid_at m key = checked (at_field oid m key)

abbrev pub text_at : Fields → ℕ → Check
text_at m key = checked (at_field text m key)

-- 16 bytes.
abbrev pub stable_at : Fields → ℕ → Check
stable_at m key = at_field (λ value k. fixed_bytes value k 16) m key

-- A number that is at most `limit`.
abbrev pub at_most : ℕ → Fields → ℕ → Check
at_most limit m key = at_field unsigned m key >>= λ n. ensure (not (ltb limit n)) (wrong key)

abbrev pub oid_if_some : Fields → ℕ → Check
oid_if_some m key = if_some (optional_field m key) (λ value. checked (oid value key))

abbrev pub is_empty {ℓ} : {A : Type ℓ} → List A → Bool
is_empty [] = true
is_empty (a ∷ rest) = false

-- An object has a previous version exactly if its number is not 0.
abbrev pub previous_at : Fields → ℕ → ℕ → Check
previous_at m number_key previous_key = do
  number ← at_field unsigned m number_key
  ensure (not (same_answer (number == 0) (is_some (optional_field m previous_key))))
      (wrong previous_key)
  oid_if_some m previous_key

abbrev pub when : Bool → Check → Check
when true check = check
when false check = ok tt

-- `previous.is_some_and(|previous| previous >= n)` is false.
abbrev pub is_above : Option ℕ → ℕ → Bool
is_above none n = true
is_above (some previous) n = ltb previous n
