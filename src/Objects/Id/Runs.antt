-- ===== src/Objects/Id/Runs.antt =====
-- Runs of the identifiers.
use rethinking_git.Base.{arith, ℕ, ◌≡◌, refl, List, [], ◌∷◌, ◌++◌, ok, err}
use rethinking_git.Objects.Id.{
  ObjectId, sha256, blake3_256, push_varint, read_varint, preimage, to_bytes, from_bytes,
  non_minimal_varint,
}
use rethinking_git.Objects.Id.RoundTrip.{read_varint-push_varint, read_varint_canonical}
use rethinking_git.Objects.Id.Identifier.{
  IsValid, from_bytes-to_bytes, to_bytes-from_bytes, preimage-injective,
}

abbrev zeros : List ℕ
zeros =
    0 ∷ 0 ∷ 0 ∷ 0 ∷ 0 ∷ 0 ∷ 0 ∷ 0 ∷ 0 ∷ 0 ∷ 0 ∷ 0 ∷ 0 ∷ 0 ∷ 0 ∷ 0 ∷ 0 ∷ 0 ∷ 0 ∷ 0 ∷ 0 ∷ 0 ∷ 0 ∷ 0
    ∷ 0 ∷ 0 ∷ 0 ∷ 0 ∷ 0 ∷ 0 ∷ 0 ∷ 255 ∷ []

abbrev some_id : ObjectId
some_id = record { format_version = 0; algorithm = blake3_256; digest = zeros }

some_id-IsValid : IsValid some_id
some_id-IsValid = record { version = refl; width = refl }

from_bytes-to_bytes_example : from_bytes (to_bytes some_id) ≡ ok some_id
from_bytes-to_bytes_example = from_bytes-to_bytes some_id some_id-IsValid

read_some_id : from_bytes (0 ∷ 0x1e ∷ 32 ∷ zeros) ≡ ok some_id
unfolding from_bytes read_varint push_varint rethinking_git.Objects.Id.algorithm_of
read_some_id = refl

to_bytes-from_bytes_example : (to_bytes some_id ≡ 0 ∷ 0x1e ∷ 32 ∷ zeros) × IsValid some_id
to_bytes-from_bytes_example =
    to_bytes-from_bytes (0 ∷ 0x1e ∷ 32 ∷ zeros) some_id (ground arith) read_some_id

abbrev kind : ℕ
kind = 10

abbrev schema : ℕ
schema = 1

abbrev payload : List ℕ
payload = 5 ∷ []

preimage-injective_example : (kind ≡ kind) × (schema ≡ schema) × (payload ≡ payload)
preimage-injective_example =
    preimage-injective kind schema kind schema payload payload (omega arith) (omega arith)
      (omega arith) (omega arith) refl

read_300 : read_varint (172 ∷ 2 ∷ 9 ∷ []) ≡ ok (300, 9 ∷ [])
unfolding read_varint push_varint
read_300 = refl

-- 300 with a superfluous group.
read_long_300 : read_varint (172 ∷ 130 ∷ 0 ∷ []) ≡ err non_minimal_varint
unfolding read_varint push_varint
read_long_300 = refl

read_varint_canonical_example : 172 ∷ 2 ∷ 9 ∷ [] ≡ push_varint 300 ++ 9 ∷ []
read_varint_canonical_example =
    read_varint_canonical (172 ∷ 2 ∷ 9 ∷ []) (9 ∷ []) 300 (ground arith) read_300

read_varint-push_varint_example : read_varint (push_varint 300 ++ 9 ∷ []) ≡ ok (300, 9 ∷ [])
read_varint-push_varint_example = read_varint-push_varint 300 (9 ∷ []) (omega arith)
