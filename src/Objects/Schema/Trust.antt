-- ===== src/Objects/Schema/Trust.antt =====
-- crates/rgit-objects/src/decode.rs, `validate_shapes`: policies, the root of a repository,
-- identities, memberships and key envelopes.
use rethinking_git.Base.{
  ℕ, Bool, not, ◌||◌, ◌&&◌, ltb, leb, ◌==◌, Option, none, some, List, [], ◌∷◌, length, Result, ok,
  ◌>>=◌, ◌>>◌, ensure,
}
use rethinking_git.Base.Set
use rethinking_git.Base.Order.{list_ord, nat_ord}
use rethinking_git.Objects.Canonical.{Value, Fields}
use rethinking_git.Objects.Error.{DecodeObjectError}
use rethinking_git.Objects.Signature.{SignaturePurpose}
use rethinking_git.Objects.Schema.{
  Check, wrong, each, is_some, same_answer, field, optional_field, unsigned, bytes, array,
  fixed_bytes, fixed_nonzero_bytes, oid_values, ensure_unique_ids, ensure_sorted_unique_ids,
  exact_map, checked,
}
use rethinking_git.Objects.Schema.Parts.{
  principal, public_key, signature_set, ensure_sorted_unique_values, at_field, oid_at, stable_at,
  at_most, oid_if_some, previous_at, is_empty, is_above,
}

-- The loop over the capabilities of a grant.
unfoldable pub capability_loop : Option ℕ → List Value → Check
capability_loop previous [] = ok tt
capability_loop previous (value ∷ values) = do
  capability ← unsigned value 7
  ensure (not (ltb 8 capability) && is_above previous capability) (wrong 7)
  capability_loop (some capability) values

unfoldable pub check_grant : ℕ → Value → Check
check_grant principals grant = do
  m ← exact_map grant (0 ∷ 1 ∷ []) [] 7
  number ← field m 0
  index ← unsigned number 7
  ensure (not (leb principals index)) (wrong 7)
  capabilities ← field m 1
  values ← array capabilities 7
  capability_loop none values

module _ (is_nfc : List ℕ → Bool) where
  unfoldable pub policy_shape : Fields → Check
  policy_shape m = do
    stable_at m 3
    previous_at m 4 5
    principals ← at_field array m 6
    each (λ value. principal value 6) principals
    grants ← at_field array m 7
    each (check_grant (length principals)) grants
    oid_at m 12
    at_most 2 m 8
    at_most 2 m 9
    requirements ← at_field oid_values m 10
    ensure_unique_ids requirements 10
    checked (at_field unsigned m 11)
    administrators ← at_field array m 13
    each (λ value. fixed_bytes value 13 16) administrators
    checked (at_field bytes m 14)
    at_field (λ value key. signature_set is_nfc value key SignaturePurpose.policy) m 15

  unfoldable pub repository_root_shape : Fields → Check
  repository_root_shape m = do
    stable_at m 3
    oid_at m 4
    identities ← at_field oid_values m 5
    ensure_sorted_unique_ids identities 5
    ensure (not (is_empty identities)) (wrong 5)
    oid_at m 6
    oid_at m 7
    lines ← at_field oid_values m 8
    ensure_sorted_unique_ids lines 8
    ensure (not (is_empty lines)) (wrong 8)
    at_most 1 m 9
    at_field (λ value key. signature_set is_nfc value key SignaturePurpose.repository_root) m 10

-- The loop over the keys of an identity, for one algorithm: the identifiers so far.
unfoldable pub key_loop :
    ℕ → ℕ → List (List ℕ) → List Value → Result DecodeObjectError (List (List ℕ))
key_loop algorithm key key_ids [] = ok key_ids
key_loop algorithm key key_ids (value ∷ values) = do
  (actual, key_id) ← public_key value key
  ensure (not (not (actual == algorithm) || Set.contains key_id key_ids)) (wrong key)
  key_loop algorithm key (Set.insert key_id key_ids) values

-- The version of an identity against its previous version, activation and policy.
unfoldable pub identity_version : Fields → Check
identity_version m = do
  version ← at_field unsigned m 5
  let has_previous = is_some (optional_field m 6)
  let has_activation = is_some (optional_field m 11)
  let has_policy = is_some (optional_field m 2)
  ensure (same_answer (version == 0) (not has_previous && not has_activation && not has_policy))
      (wrong 5)
  ensure (not (ltb 0 version && (not has_previous || not has_activation || not has_policy)))
      (wrong 5)

module _ (is_nfc : List ℕ → Bool) where
  unfoldable pub identity_shape : Fields → Check
  identity_shape m = do
    at_most 1 m 3
    stable_at m 4
    identity_version m
    oid_if_some m 6
    signing ← at_field array m 7
    ensure (not (is_empty signing)) (wrong 7)
    encryption ← at_field array m 8
    signing_ids ← key_loop 0 7 [] signing
    key_ids ← key_loop 1 8 signing_ids encryption
    ensure_sorted_unique_values is_nfc signing 7
    ensure_sorted_unique_values is_nfc encryption 8
    stable_at m 9
    at_most 2 m 10
    oid_if_some m 11
    oid_if_some m 12
    at_field (λ value key. signature_set is_nfc value key SignaturePurpose.identity) m 13

  unfoldable pub group_membership_shape : Fields → Check
  group_membership_shape m = do
    stable_at m 3
    stable_at m 4
    previous_at m 5 6
    at_field principal m 7
    at_most 1 m 8
    stable_at m 9
    oid_at m 10
    oid_if_some m 11
    at_field (λ value key. signature_set is_nfc value key SignaturePurpose.group_membership) m 12

unfoldable pub check_recipient : Value → Check
check_recipient value = do
  m ← exact_map value (0 ∷ 1 ∷ 2 ∷ []) [] 5
  receiver ← field m 0
  principal receiver 5
  key_id ← field m 1
  fixed_nonzero_bytes key_id 5 32
  envelope ← field m 2
  content ← bytes envelope 5
  ensure (not (is_empty content)) (wrong 5)

module _ (is_nfc : List ℕ → Bool) where
  unfoldable pub key_envelope_set_shape : Fields → Check
  key_envelope_set_shape m = do
    epoch ← at_field unsigned m 3
    ensure (same_answer (epoch == 0) (not (is_some (optional_field m 2)))) (wrong 3)
    number ← at_field unsigned m 4
    ensure (number == 0) (wrong 4)
    recipients ← at_field array m 5
    ensure (not (is_empty recipients)) (wrong 5)
    each check_recipient recipients
    ensure_sorted_unique_values is_nfc recipients 5
