-- ===== src/Objects/Admission/Verified.antt =====
-- What admission establishes of the bytes of an object.
use rethinking_git.Base.{ℕ, List, true, ◌≡◌, subst, ok, err, ensure-ok, >>=-ok, arith, Result}
use rethinking_git.Base.Order.{same, eq_of_same}
use rethinking_git.Objects.Canonical.{CanonicalLimits, CanonicalError, bulk, restricted_by}
use rethinking_git.Objects.Canonical.Encode.{encode_with_limits}
use rethinking_git.Objects.Canonical.Decode.{decode_canonical}
use rethinking_git.Objects.Canonical.RoundTrip.{decode-strict}
use rethinking_git.Objects.Canonical.Agree.{encode-agree}
use rethinking_git.Objects.Error.{DecodeObjectError}
use rethinking_git.Objects.Id.{ObjectId, from_payload}
use rethinking_git.Objects.Reference.{kind_code, id_ord}
use rethinking_git.Objects.Schema.{as_map, field, unsigned}
use rethinking_git.Objects.Schema.Parts.{read_kind}
use rethinking_git.Objects.Schema.Validate.{validate_fields}
use rethinking_git.Objects.Admission.{
  DecodedObject, supports_schema, kind_limits, from_canonical, decode, object_id, decode_verified,
}
use rethinking_git.Objects.Unicode.{Unicode}
use rethinking_git.Objects.Canonical.{Fields}

from_canonical-ok {ℓ} :
    {A : Type ℓ} (r : Result CanonicalError A) (a : A) → from_canonical r ≡ ok a → r ≡ ok a
unfolding from_canonical
from_canonical-ok (ok x) a h = ground arith
from_canonical-ok (err e) a h = cc

module _ (unicode : Unicode) where
  open unicode use {is_utf8, is_nfc}

  -- An admitted object: its value, its kind and its schema are read from the bytes, and its fields
  -- are those of the schema.
  pub record Admitted (bytes : List ℕ) (limits : CanonicalLimits) (d : DecodedObject) : Type 0 where
    pub entries : Fields
    pub decoded : decode_canonical is_utf8 is_nfc (restricted_by limits bulk) bytes ≡ ok d.value
    pub is_map : as_map d.value ≡ ok entries
    pub supported : supports_schema d.kind d.schema_version ≡ true
    pub valid : validate_fields unicode d.kind d.schema_version entries ≡ ok tt

  pub decode-Admitted :
      (bytes : List ℕ) (limits : CanonicalLimits) (d : DecodedObject)
      → decode unicode bytes limits ≡ ok d
      → Admitted bytes limits d
  unfolding decode
  decode-Admitted bytes limits d h =
      let (v, e, h₁) =
        >>=-ok (from_canonical (decode_canonical is_utf8 is_nfc (restricted_by limits bulk) bytes))
          _ h in
      let (m, em, h₂) = >>=-ok (as_map v) _ h₁ in
      let (kv, _, h₃) = >>=-ok (field m 0) _ h₂ in
      let (kn, _, h₄) = >>=-ok (unsigned kv 0) _ h₃ in
      let (k, _, h₅) = >>=-ok (read_kind kn) _ h₄ in
      let (sv, _, h₆) = >>=-ok (field m 1) _ h₅ in
      let (s, _, h₇) = >>=-ok (unsigned sv 1) _ h₆ in
      let (sup, h₈) = ensure-ok (supports_schema k s) _ _ h₇ in
      let (encoded, _, h₉) =
        >>=-ok (from_canonical (encode_with_limits is_nfc (restricted_by limits (kind_limits k)) v))
          _ h₈ in
      let (u, val, h₁₀) = >>=-ok (validate_fields unicode k s m) _ h₉ in
      let made : DecodedObject = record { kind = k; schema_version = s; value = v } in
      let same_object : made ≡ d = ground arith in
      let admitted : Admitted bytes limits made = record {
        entries = m;
        decoded = from_canonical-ok _ v e;
        is_map = em;
        supported = sup;
        valid = val;
      } in
      subst (Admitted bytes limits) same_object admitted

  -- Two inputs that are admitted as the same object, under whatever limits, are the same bytes.
  pub decode_unique :
      (bytes bytes' : List ℕ) (limits limits' : CanonicalLimits) (d : DecodedObject)
      → decode unicode bytes limits ≡ ok d
      → decode unicode bytes' limits' ≡ ok d
      → bytes ≡ bytes'
  decode_unique bytes bytes' limits limits' d h h' =
      let a = decode-Admitted bytes limits d h in
      let a' = decode-Admitted bytes' limits' d h' in
      let l = restricted_by limits bulk in
      let l' = restricted_by limits' bulk in
      encode-agree is_nfc l l' d.value bytes bytes'
        (decode-strict is_utf8 is_nfc l d.value bytes bytes a.decoded a.decoded).0
        (decode-strict is_utf8 is_nfc l' d.value bytes' bytes' a'.decoded a'.decoded).0

  module _ (sha256_digest blake3_digest : List ℕ → List ℕ) where
    of_parts :
        (bytes : List ℕ) (expected : ObjectId) (limits : CanonicalLimits) (o d : DecodedObject)
        (id : ObjectId) (encoded : List ℕ)
        → decode unicode bytes limits ≡ ok o
        → o ≡ d
        → id ≡ expected
        → encoded ≡ bytes
        → ◌≡◌ {A = Result DecodeObjectError ObjectId}
            (ok (
              from_payload sha256_digest blake3_digest
                (kind_code o.kind)
                o.schema_version
                encoded
                expected.algorithm))
            (ok id)
        → (decode unicode bytes limits ≡ ok d)
          × (expected
              ≡ from_payload sha256_digest blake3_digest
                  (kind_code d.kind)
                  d.schema_version
                  bytes
                  expected.algorithm)
    of_parts bytes expected limits o d id encoded h e i b y = (cc, cc)

    -- An object that is admitted under an identifier is the object of the bytes, and the identifier
    -- is the one that these very bytes hash to.
    pub decode_verified_lem :
        (bytes : List ℕ) (expected : ObjectId) (limits : CanonicalLimits) (d : DecodedObject)
        → decode_verified unicode sha256_digest blake3_digest bytes expected limits ≡ ok d
        → (decode unicode bytes limits ≡ ok d)
          × (expected
              ≡ from_payload sha256_digest blake3_digest
                  (kind_code d.kind)
                  d.schema_version
                  bytes
                  expected.algorithm)
    unfolding decode_verified object_id
    decode_verified_lem bytes expected limits d h =
        let (o, e, h₁) = >>=-ok (decode unicode bytes limits) _ h in
        let (id, i, h₂) =
          >>=-ok (object_id unicode sha256_digest blake3_digest o expected.algorithm) _ h₁ in
        let (same_id, h₃) = ensure-ok (same id expected) DecodeObjectError.digest _ h₂ in
        let (encoded, x, y) =
          >>=-ok (from_canonical (encode_with_limits is_nfc (kind_limits o.kind) o.value)) _ i in
        let a = decode-Admitted bytes limits o e in
        let l = restricted_by limits bulk in
        let agree : encoded ≡ bytes =
          encode-agree is_nfc (kind_limits o.kind) l o.value encoded bytes
            (from_canonical-ok _ encoded x)
            (decode-strict is_utf8 is_nfc l o.value bytes bytes a.decoded a.decoded).0 in
        let of_o : o ≡ d = ground arith in
        let of_id : id ≡ expected = eq_of_same id expected same_id in
        of_parts bytes expected limits o d id encoded e of_o of_id agree y
