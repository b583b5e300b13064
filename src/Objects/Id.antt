-- ===== src/Objects/Id.antt =====
-- crates/rgit-objects/src/id.rs: object identifiers and their varints. A byte slice is a list of
-- numbers, and a cursor into it (`at`) is the rest of the list. The digests of the third-party
-- crates sha2 and blake3 are parameters. Masks by `2^k - 1` are remainders, and setting a clear bit
-- is an addition.
pub mod Varint
pub mod RoundTrip
pub mod Identifier
mod Runs
use rethinking_git.Base
use rethinking_git.Base.{
  ℕ, zero, suc, ◌+◌, ◌*◌, ◌/◌, ◌%◌, ◌^◌, ◌<◌, Bool, ◌&&◌, List, [], ◌∷◌, ◌++◌, ltb, ◌==◌,
  if◌then◌else◌, Result, ok, err, ◌>>=◌, ◌>>◌, ensure,
}

pub data HashAlgorithm : Type 0 where
  sha256 blake3_256 : HashAlgorithm

-- `algorithm as u64`
abbrev pub code : HashAlgorithm → ℕ
code sha256 = 0x12
code blake3_256 = 0x1e

pub record ObjectId : Type 0 where
  pub format_version : ℕ
  pub algorithm : HashAlgorithm
  pub digest : List ℕ

pub data ObjectIdError : Type 0 where
  prefix base32 : ObjectIdError
  format : ℕ → ObjectIdError
  algorithm : ℕ → ObjectIdError
  digest_length : ℕ → ObjectIdError
  length non_minimal_varint : ObjectIdError

-- The loop ends when the shifted value is 0; every round but the last makes it smaller.
push_varint_loop : ℕ → ℕ → List ℕ
push_varint_loop zero value = []
push_varint_loop (suc fuel) value =
    let more = (value % 128 + 128) ∷ push_varint_loop fuel (value / 128) in
    if value / 128 == 0 then value % 128 ∷ [] else more

unfoldable pub push_varint : ℕ → List ℕ
unfolding push_varint_loop
push_varint value = push_varint_loop (suc value) value

-- The return in the loop of `read_varint`: re-encoding must take as many bytes as were read.
finish_varint : ℕ → ℕ → List ℕ → Result ObjectIdError (ℕ × List ℕ)
finish_varint result taken rest =
    if Base.length (push_varint result) == taken
    then ok (result, rest)
    else err ObjectIdError.non_minimal_varint

-- The rounds left of `for shift in (0..=63).step_by(7)`.
read_varint_loop : ℕ → ℕ → ℕ → ℕ → List ℕ → Result ObjectIdError (ℕ × List ℕ)
unfolding finish_varint
read_varint_loop zero shift result taken bytes = err ObjectIdError.length
read_varint_loop (suc rounds) shift result taken [] = err ObjectIdError.length
read_varint_loop (suc rounds) shift result taken (byte ∷ rest) =
    let result' = result + byte % 128 * 2 ^ shift in
    let more = read_varint_loop rounds (shift + 7) result' (taken + 1) rest in
    if shift == 63 && ltb 1 byte
    then err ObjectIdError.length
    else if byte / 128 == 0
    then finish_varint result' (taken + 1) rest
    else more

unfoldable pub read_varint : List ℕ → Result ObjectIdError (ℕ × List ℕ)
unfolding read_varint_loop
read_varint bytes = read_varint_loop 10 0 0 0 bytes

-- b"RGIT-OBJECT\0"
abbrev pub domain : List ℕ
domain = b'R' ∷ b'G' ∷ b'I' ∷ b'T' ∷ b'-' ∷ b'O' ∷ b'B' ∷ b'J' ∷ b'E' ∷ b'C' ∷ b'T' ∷ 0 ∷ []

pub preimage : ℕ → ℕ → List ℕ → List ℕ
preimage kind schema_version payload =
    domain ++ (push_varint kind ++ (push_varint schema_version ++ payload))

pub to_bytes : ObjectId → List ℕ
to_bytes id =
    push_varint id.format_version
    ++ (push_varint (code id.algorithm) ++ (push_varint 32 ++ id.digest))

algorithm_of : ℕ → Result ObjectIdError HashAlgorithm
algorithm_of number =
    if number == 0x12
    then ok sha256
    else if number == 0x1e
    then ok blake3_256
    else err (ObjectIdError.algorithm number)

unfoldable pub from_bytes : List ℕ → Result ObjectIdError ObjectId
unfolding algorithm_of
from_bytes bytes = do
  (version, bytes) ← read_varint bytes
  ensure (version == 0) (format version)
  (number, bytes) ← read_varint bytes
  hash ← algorithm_of number
  (len, bytes) ← read_varint bytes
  ensure (len == 32) (digest_length len)
  ensure (Base.length bytes == 32) ObjectIdError.length
  ok (record { format_version = version; algorithm = hash; digest = bytes })

-- The two digest functions come from other crates.
module _ (sha256_digest blake3_digest : List ℕ → List ℕ) where
  unfoldable pub from_payload : ℕ → ℕ → List ℕ → HashAlgorithm → ObjectId
  unfolding preimage
  from_payload kind schema_version payload hash = record {
    format_version = 0;
    algorithm = hash;
    digest = elim hash [
      | sha256 ↦ sha256_digest (preimage kind schema_version payload)
      | blake3_256 ↦ blake3_digest (preimage kind schema_version payload)
    ];
  }
