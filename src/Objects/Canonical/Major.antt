-- ===== src/Objects/Canonical/Major.antt =====
-- One level of the decoder: what each major type makes of its argument and its content.
use rethinking_git.Base.{
  ℕ, ◌^◌, ◌≤◌, ◌<◌, ◌≡◌, refl, Bool, true, false, List, [], ◌∷◌, ◌++◌, length, length-append, take,
  drop, ok, arith, none,
}
use rethinking_git.Objects.Canonical.{
  Value, Items, Fields, unsigned, signed, bytes, text, array, map, bool, null, negsuc,
  CanonicalLimits, CanonicalError,
}
use rethinking_git.Objects.Canonical.Decode.{
  Reader, read_take, bounded, argument, read_items, read_entries, read_major,
}

take-append : (xs rest : List ℕ) → take (length xs) (xs ++ rest) ≡ xs
take-append [] rest = refl
take-append (x ∷ xs) rest = ground (arith, take-append xs rest)

drop-append : (xs rest : List ℕ) → drop (length xs) (xs ++ rest) ≡ rest
drop-append [] rest = refl
drop-append (x ∷ xs) rest = drop-append xs rest

pub read_take-append : (xs rest : List ℕ) → read_take (length xs) (xs ++ rest) ≡ ok (xs, rest)
unfolding read_take
read_take-append xs rest =
    ground (arith, length-append xs rest, take-append xs rest, drop-append xs rest)

bounded-ok :
    (most : ℕ) (e : CanonicalError) (a n : ℕ) (input rest : List ℕ)
    → argument a input ≡ ok (n, rest)
    → n ≤ most
    → bounded most e a input ≡ ok (n, rest)
unfolding bounded
bounded-ok most e a n input rest h k = ground arith

module _ (is_utf8 is_nfc : List ℕ → Bool) (limits : CanonicalLimits) (one : Reader Value) where
  pub major-unsigned :
      (a n : ℕ) (input rest : List ℕ)
      → argument a input ≡ ok (n, rest)
      → read_major is_utf8 is_nfc limits one 0 a input ≡ ok (unsigned n, rest)
  unfolding read_major
  major-unsigned a n input rest h = ground arith

  pub major-signed :
      (a n : ℕ) (input rest : List ℕ)
      → argument a input ≡ ok (n, rest)
      → n < 2 ^ 63
      → read_major is_utf8 is_nfc limits one 1 a input ≡ ok (signed (negsuc n), rest)
  unfolding read_major
  major-signed a n input rest h k = ground arith

  pub major-bytes :
      (a : ℕ) (content input rest : List ℕ)
      → argument a input ≡ ok (length content, content ++ rest)
      → length content ≤ limits.max_byte_string_bytes
      → read_major is_utf8 is_nfc limits one 2 a input ≡ ok (bytes content, rest)
  unfolding read_major
  major-bytes a content input rest h k = ground (arith, read_take-append content rest)

  pub major-text :
      (a : ℕ) (content input rest : List ℕ)
      → argument a input ≡ ok (length content, content ++ rest)
      → length content ≤ limits.max_string_bytes
      → is_utf8 content ≡ true
      → is_nfc content ≡ true
      → read_major is_utf8 is_nfc limits one 3 a input ≡ ok (text content, rest)
  unfolding read_major
  major-text a content input rest h k u n = ground (arith, read_take-append content rest)

  pub major-array :
      (a n : ℕ) (values : Items) (input middle rest : List ℕ)
      → argument a input ≡ ok (n, middle)
      → n ≤ limits.max_collection_items
      → read_items one n middle ≡ ok (values, rest)
      → read_major is_utf8 is_nfc limits one 4 a input ≡ ok (array values, rest)
  unfolding read_major
  major-array a n values input middle rest h k r = ground arith

  pub major-map :
      (a n : ℕ) (entries : Fields) (input middle rest : List ℕ)
      → argument a input ≡ ok (n, middle)
      → n ≤ limits.max_collection_items
      → read_entries one n [] none middle ≡ ok (entries, rest)
      → read_major is_utf8 is_nfc limits one 5 a input ≡ ok (map entries, rest)
  unfolding read_major
  major-map a n entries input middle rest h k r = ground arith

  pub major-false :
      (rest : List ℕ) → read_major is_utf8 is_nfc limits one 7 20 rest ≡ ok (bool false, rest)
  unfolding read_major
  major-false rest = refl

  pub major-true :
      (rest : List ℕ) → read_major is_utf8 is_nfc limits one 7 21 rest ≡ ok (bool true, rest)
  unfolding read_major
  major-true rest = refl

  pub major-null :
      (rest : List ℕ) → read_major is_utf8 is_nfc limits one 7 22 rest ≡ ok (null, rest)
  unfolding read_major
  major-null rest = refl
