-- ===== src/Objects/Canonical/Decode.antt =====
-- The decoder. Its cursor is the rest of the input. `remaining` is `max_depth + 1 - depth`: it is 0
-- exactly when `depth > max_depth`. That a byte string is UTF-8 is decided by `is_utf8`.
use rethinking_git.Base.{
  ℕ, zero, suc, ◌+◌, ◌*◌, ◌/◌, ◌%◌, ◌^◌, Bool, true, false, ◌||◌, List, [], ◌∷◌, length, take, drop,
  ltb, leb, ◌==◌, if◌then◌else◌, Result, ok, err, ◌>>=◌, ◌>>◌, ensure, not, Option, some, none,
  holds,
}
use rethinking_git.Base.Order.{nat_ord}
use rethinking_git.Base.Set
use rethinking_git.Objects.Canonical.{
  Value, Items, Fields, unsigned, signed, bytes, text, array, map, bool, null, no_items, item,
  no_fields, field, negsuc, CanonicalLimits, CanonicalError, depth_limit, size_limit,
  collection_limit, truncated, trailing_bytes, forbidden_type, non_minimal_integer, invalid_map_key,
  map_order, utf8, non_normalized_text, non_canonical,
}
use rethinking_git.Objects.Canonical.Encode.{encode_with_limits}
use native.Mathlib.Decide.{ℕ_discrete}

abbrev pub Reader {ℓ} : Type ℓ → Type ℓ
Reader A = List ℕ → Result CanonicalError (A × List ℕ)

unfoldable pub read_byte : Reader ℕ
read_byte [] = err truncated
read_byte (b ∷ rest) = ok (b, rest)

unfoldable pub read_take : ℕ → Reader (List ℕ)
read_take len input =
    if ltb (length input) len then err truncated else ok (take len input, drop len input)

-- `from_be_bytes`
abbrev pub from_be_bytes : ℕ → List ℕ → ℕ
from_be_bytes acc [] = acc
from_be_bytes acc (b ∷ bs) = from_be_bytes (acc * 256 + b) bs

-- An integer of `len` bytes, which must not fit the shorter form that ends at `most`.
unfoldable pub wide : ℕ → ℕ → Reader ℕ
wide len most input = do
  (content, rest) ← read_take len input
  let n = from_be_bytes 0 content
  if leb n most then err non_minimal_integer else ok (n, rest)

unfoldable pub argument : ℕ → Reader ℕ
unfolding wide read_byte
argument additional input =
    if leb additional 23
    then ok (additional, input)
    else if additional == 24
    then (read_byte input >>= λ (n, rest).
        if ltb n 24 then err non_minimal_integer else ok (n, rest))
    else if additional == 25
    then wide 2 0xff input
    else if additional == 26
    then wide 4 0xffff input
    else if additional == 27
    then wide 8 0xffff_ffff input
    else err forbidden_type

-- `length`, `string_length` and `byte_string_length`: an argument under a limit.
unfoldable pub bounded : ℕ → CanonicalError → ℕ → Reader ℕ
bounded most e additional input = do
  (value, rest) ← argument additional input
  if ltb most value then err e else ok (value, rest)

-- `for _ in 0..len`, with the reader of one value.
unfoldable pub read_items : Reader Value → ℕ → Reader Items
read_items one zero input = ok (no_items, input)
read_items one (suc len) input = do
  (value, rest) ← one input
  (values, rest) ← read_items one len rest
  ok (item value values, rest)

-- `previous.is_some_and(|old| old >= key)`
abbrev pub not_above : Option ℕ → ℕ → Bool
not_above none key = false
not_above (some old) key = leb key old

unfoldable pub read_entries : Reader Value → ℕ → List ℕ → Option ℕ → Reader Fields
unfolding read_byte
read_entries one zero keys previous input = ok (no_fields, input)
read_entries one (suc len) keys previous input = do
  (key_initial, rest) ← read_byte input
  ensure (key_initial / 32 == 0) invalid_map_key
  (key, rest) ← argument (key_initial % 32) rest
  ensure (not (not_above previous key || Set.contains key keys)) map_order
  (value, rest) ← one rest
  (entries, rest) ← read_entries one len (Set.insert key keys) (some key) rest
  ok (field key value entries, rest)

simple : ℕ → Result CanonicalError Value
simple additional =
    if additional == 20
    then ok (bool false)
    else if additional == 21
    then ok (bool true)
    else if additional == 22
    then ok null
    else err forbidden_type

unfoldable pub bytes_discrete : Discrete (List ℕ)
bytes_discrete = hlevel ℕ_discrete

module _ (is_utf8 is_nfc : List ℕ → Bool) (limits : CanonicalLimits) where
  open limits use {
    max_bytes, max_byte_string_bytes, max_string_bytes, max_depth, max_collection_items,
  }

  -- The match on the major type, with the reader one level down.
  unfoldable pub read_major : Reader Value → ℕ → ℕ → Reader Value
  unfolding simple bounded
  read_major one major additional rest =
      if major == 0
      then (do (n, rest) ← argument additional rest; ok (unsigned n, rest))
      else if major == 1
      then (do
        (n, rest) ← argument additional rest
        ensure (ltb n (2 ^ 63)) forbidden_type
        ok (signed (negsuc n), rest))
      else if major == 2
      then (do
        (len, rest) ← bounded max_byte_string_bytes size_limit additional rest
        (content, rest) ← read_take len rest
        ok (bytes content, rest))
      else if major == 3
      then (do
        (len, rest) ← bounded max_string_bytes size_limit additional rest
        (content, rest) ← read_take len rest
        ensure (is_utf8 content) utf8
        ensure (is_nfc content) non_normalized_text
        ok (text content, rest))
      else if major == 4
      then (do
        (len, rest) ← bounded max_collection_items collection_limit additional rest
        (values, rest) ← read_items one len rest
        ok (array values, rest))
      else if major == 5
      then (do
        (len, rest) ← bounded max_collection_items collection_limit additional rest
        (entries, rest) ← read_entries one len [] none rest
        ok (map entries, rest))
      else if major == 7
      then (do value ← simple additional; ok (value, rest))
      else err forbidden_type

  unfoldable pub read_value : ℕ → Reader Value
  unfolding read_byte read_major
  read_value zero input = err depth_limit
  read_value (suc remaining) input = do
    (initial, rest) ← read_byte input
    read_major (read_value remaining) (initial / 32) (initial % 32) rest

  -- The checks of `decode_canonical` on what was read.
  unfoldable pub decode_canonical : List ℕ → Result CanonicalError Value
  decode_canonical input = do
    ensure (not (ltb max_bytes (length input))) size_limit
    (value, rest) ← read_value (suc max_depth) input
    ensure (length rest == 0) trailing_bytes
    encoded ← encode_with_limits is_nfc limits value
    ensure (holds (bytes_discrete encoded input)) non_canonical
    ok value
