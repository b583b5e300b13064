-- ===== src/Objects/Canonical/Runs.antt =====
-- Runs of the canonical codec.
use rethinking_git.Base.{arith, ℕ, ◌*◌, ◌≤◌, ◌≡◌, refl, Bool, true, List, [], ◌∷◌, ok, length}
use rethinking_git.Base.Order.{nat_ord}
use rethinking_git.Objects.Canonical.{
  Value, Items, Fields, unsigned, signed, negsuc, bytes, text, array, map, bool, null, no_items,
  item, no_fields, field, metadata, trailing_bytes, non_minimal_integer, map_order,
}
use rethinking_git.Objects.Canonical.Encode.{encode_with_limits}
use rethinking_git.Objects.Canonical.Decode.{decode_canonical}
use rethinking_git.Objects.Canonical.RoundTrip.{IsCanonical, decode-encode, decode-strict}
use rethinking_git.Objects.Canonical.Bound.{encode-bound}

abbrev every : List ℕ → Bool
every _ = true

-- {1: [-2, true], 300: "a"}
abbrev sample : Value
sample = map (
    field 1 (array (item (signed (negsuc 1)) (item (bool true) no_items)))
      (field 300 (text (97 ∷ [])) no_fields))

abbrev sample_bytes : List ℕ
sample_bytes = 162 ∷ 1 ∷ 130 ∷ 33 ∷ 245 ∷ 25 ∷ 1 ∷ 44 ∷ 97 ∷ 97 ∷ []

encode_sample : encode_with_limits every metadata sample ≡ ok sample_bytes
unfolding encode_with_limits rethinking_git.Objects.Canonical.Encode.encode_into
    rethinking_git.Objects.Canonical.Encode.check_collection
    rethinking_git.Objects.Canonical.Encode.push_head
    rethinking_git.Objects.Canonical.Encode.has_duplicate
    rethinking_git.Objects.Canonical.Encode.sort_by_key
    rethinking_git.Objects.Canonical.Encode.insert_by_key
    rethinking_git.Objects.Canonical.Encode.write_entries
encode_sample = refl

sample-IsCanonical : IsCanonical every sample
unfolding IsCanonical
sample-IsCanonical = ground arith

decode-encode_example : decode_canonical every every metadata sample_bytes ≡ ok sample
decode-encode_example =
    decode-encode every every metadata sample sample_bytes sample-IsCanonical encode_sample

decode-strict_example :
    (encode_with_limits every metadata sample ≡ ok sample_bytes) × (sample_bytes ≡ sample_bytes)
decode-strict_example =
    decode-strict every every metadata sample sample_bytes sample_bytes decode-encode_example
      decode-encode_example

encode-bound_example : length sample_bytes ≤ 1024 * 1024
encode-bound_example = encode-bound every metadata sample sample_bytes encode_sample
