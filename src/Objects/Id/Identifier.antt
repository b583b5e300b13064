-- ===== src/Objects/Id/Identifier.antt =====
-- Identifiers and preimages as bytes.
use rethinking_git.Base.{
  ℕ, ◌^◌, ◌<◌, ◌≡◌, refl, sym, subst, ap, ◌∙◌, List, ◌++◌, length, All, Result, ok, ◌==◌, arith,
  >>=-ok, ensure-ok, drop, All-append_right,
}
use rethinking_git.Objects.Id.{
  HashAlgorithm, ObjectId, ObjectIdError, code, push_varint, read_varint, preimage, to_bytes,
  from_bytes, algorithm_of, sha256, blake3_256,
}
use rethinking_git.Objects.Id.RoundTrip.{read_varint-push_varint, read_varint_canonical}

-- The identifiers that the constructors of the source build.
pub record IsValid (id : ObjectId) : Type 0 where
  pub version : id.format_version ≡ 0
  pub width : length id.digest ≡ 32

algorithm_of-code : (a : HashAlgorithm) → algorithm_of (code a) ≡ ok a
unfolding algorithm_of
algorithm_of-code sha256 = refl
algorithm_of-code blake3_256 = refl

code-lt : (a : HashAlgorithm) → code a < 2 ^ 64
code-lt sha256 = omega arith
code-lt blake3_256 = omega arith

-- `from_bytes` reads every valid identifier back from its bytes.
pub from_bytes-to_bytes : (id : ObjectId) → IsValid id → from_bytes (to_bytes id) ≡ ok id
unfolding from_bytes to_bytes
from_bytes-to_bytes id h =
    rw (h.version, read_varint-push_varint 0 _ (omega arith))
      (rw
        (read_varint-push_varint (code id.algorithm) (push_varint 32 ++ id.digest)
          (code-lt id.algorithm))
        (rw (algorithm_of-code id.algorithm)
          (rw (read_varint-push_varint 32 id.digest (omega arith)) (rw h.width))))

algorithm_of-ok : (n : ℕ) (a : HashAlgorithm) → algorithm_of n ≡ ok a → code a ≡ n
unfolding algorithm_of
algorithm_of-ok n sha256 h = ground arith
algorithm_of-ok n blake3_256 h = ground arith

-- The steps of a successful `from_bytes`.
record Parsed (bytes : List ℕ) (id : ObjectId) : Type 0 where
  a : List ℕ
  b : List ℕ
  first : read_varint bytes ≡ ok (0, a)
  number : ℕ
  second : read_varint a ≡ ok (number, b)
  hash : algorithm_of number ≡ ok id.algorithm
  third : read_varint b ≡ ok (32, id.digest)
  valid : IsValid id

from_bytes-Parsed : (bytes : List ℕ) (id : ObjectId) → from_bytes bytes ≡ ok id → Parsed bytes id
unfolding from_bytes
from_bytes-Parsed bytes id h =
    let (p, e₁, h₁) = >>=-ok (read_varint bytes) _ h in
    let (e₂, h₂) = ensure-ok (p.0 == 0) (ObjectIdError.format p.0) _ h₁ in
    let (q, e₃, h₃) = >>=-ok (read_varint p.1) _ h₂ in
    let (alg, e₄, h₄) = >>=-ok (algorithm_of q.0) _ h₃ in
    let (r, e₅, h₅) = >>=-ok (read_varint q.1) _ h₄ in
    let (e₆, h₆) = ensure-ok (r.0 == 32) (ObjectIdError.digest_length r.0) _ h₅ in
    let (e₇, h₇) = ensure-ok (length r.1 == 32) ObjectIdError.length _ h₆ in
    let made : record { format_version = p.0; algorithm = alg; digest = r.1 } ≡ id = cc in
    record {
      a = p.1;
      b = q.1;
      first = ground arith;
      number = q.0;
      second = e₃;
      hash = ground arith;
      third = ground arith;
      valid = ground arith;
    }

-- Whatever `from_bytes` accepts is the one encoding of the identifier that it returns, and that
-- identifier is valid.
pub to_bytes-from_bytes :
    (bytes : List ℕ) (id : ObjectId)
    → All (λ b. b < 256) bytes
    → from_bytes bytes ≡ ok id
    → (to_bytes id ≡ bytes) × IsValid id
unfolding to_bytes
to_bytes-from_bytes bytes id bs h =
    let s = from_bytes-Parsed bytes id h in
    let c₁ = read_varint_canonical bytes s.a 0 bs s.first in
    let bs₁ =
      All-append_right (λ b. b < 256) (push_varint 0) s.a (subst (All (λ b. b < 256)) c₁ bs) in
    let c₂ = read_varint_canonical s.a s.b s.number bs₁ s.second in
    let bs₂ =
      All-append_right (λ b. b < 256) (push_varint s.number) s.b
        (subst (All (λ b. b < 256)) c₂ bs₁) in
    let c₃ = read_varint_canonical s.b id.digest 32 bs₂ s.third in
    (
      rw (s.valid.version, algorithm_of-ok s.number id.algorithm s.hash, ← c₃, ← c₂) (sym c₁),
      s.valid,
    )

push_varint-cancel :
    (v w : ℕ) (rest rest' : List ℕ)
    → v < 2 ^ 64
    → w < 2 ^ 64
    → push_varint v ++ rest ≡ push_varint w ++ rest'
    → (v ≡ w) × (rest ≡ rest')
push_varint-cancel v w rest rest' hv hw e =
    let read : ◌≡◌ {A = Result ObjectIdError (ℕ × List ℕ)} (ok (v, rest)) (ok (w, rest')) =
      sym (read_varint-push_varint v rest hv)
      ∙ ap read_varint e
      ∙ read_varint-push_varint w rest' hw in
    (cc, cc)

-- Domain separation: a preimage determines kind, schema version and payload.
pub preimage-injective :
    (kind schema kind' schema' : ℕ) (payload payload' : List ℕ)
    → kind < 2 ^ 64
    → schema < 2 ^ 64
    → kind' < 2 ^ 64
    → schema' < 2 ^ 64
    → preimage kind schema payload ≡ preimage kind' schema' payload'
    → (kind ≡ kind') × (schema ≡ schema') × (payload ≡ payload')
unfolding preimage
preimage-injective k s k' s' p p' hk hs hk' hs' e =
    let after : push_varint k ++ (push_varint s ++ p) ≡ push_varint k' ++ (push_varint s' ++ p') =
      ap (drop 12) e in
    let (kinds, rest) = push_varint-cancel k k' _ _ hk hk' after in
    let (schemas, payloads) = push_varint-cancel s s' _ _ hs hs' rest in (kinds, schemas, payloads)
