-- ===== src/Objects/Canonical/Bound.antt =====
-- No encoding is longer than the limit.
use rethinking_git.Base.{
  ℕ, ◌+◌, ◌*◌, ◌≤◌, ◌≡◌, Bool, true, false, List, [], ◌∷◌, length, leb, ok, ◌>>=◌, >>=-ok,
  ensure-ok, arith, All, Bool-cases, inl, inr,
}
use rethinking_git.Objects.Canonical.{
  Value, Items, Fields, unsigned, signed, bytes, text, array, map, bool, null, no_items, item,
  no_fields, field, pos, negsuc, CanonicalLimits, count_items, count_fields, depth_limit,
  size_limit, collection_limit, invalid_value,
}
use rethinking_git.Objects.Canonical.Encode.{
  Writer, extend, push_head, check_collection, sort_by_key, insert_by_key, write_entries,
  encode_into, encode_items, entry_writers, encode_with_limits, be16, be32, be64,
}
use rethinking_git.Objects.Canonical.Head.{extend-bound}

module _ (is_nfc : List ℕ → Bool) (limits : CanonicalLimits) where
  abbrev Bounded : Writer → Type 0
  Bounded w = (out out' : List ℕ) → w out ≡ ok out' → length out' ≤ limits.max_bytes

  last :
      (a : ℕ) (new out out' : List ℕ)
      → (extend is_nfc limits (a ∷ []) out >>= extend is_nfc limits new) ≡ ok out'
      → length out' ≤ limits.max_bytes
  last a new out out' h =
      let (mid, _, r) = >>=-ok (extend is_nfc limits (a ∷ []) out) _ h in
      extend-bound is_nfc limits new mid out' r

  push_head-Bounded : (major value : ℕ) → Bounded (push_head is_nfc limits major value)
  unfolding push_head
  push_head-Bounded major value out out' h = elim (Bool-cases (leb value 23)) [
    | inl a ↦ extend-bound is_nfc limits ((major * 32 + value) ∷ []) out out' (rw a at h)
    | inr a ↦ elim (Bool-cases (leb value 0xff)) [
      | inl b ↦
          extend-bound is_nfc limits ((major * 32 + 24) ∷ value ∷ []) out out' (rw (a, b) at h)
      | inr b ↦ elim (Bool-cases (leb value 0xffff)) [
        | inl c ↦ last (major * 32 + 25) (be16 value) out out' (rw (a, b, c) at h)
        | inr c ↦ elim (Bool-cases (leb value 0xffff_ffff)) [
          | inl d ↦ last (major * 32 + 26) (be32 value) out out' (rw (a, b, c, d) at h)
          | inr d ↦ last (major * 32 + 27) (be64 value) out out' (rw (a, b, c, d) at h)
        ]
      ]
    ]
  ]

  abbrev AllBounded : List (ℕ × Writer) → Type 0
  AllBounded = All (λ e. Bounded e.1)

  insert_by_key-AllBounded :
      (e : ℕ × Writer) (es : List (ℕ × Writer))
      → Bounded e.1
      → AllBounded es
      → AllBounded (insert_by_key is_nfc limits e es)
  unfolding insert_by_key
  insert_by_key-AllBounded (k, w) [] b bs = (b, tt)
  insert_by_key-AllBounded (k, w) ((j, x) ∷ rest) b bs = elim (Bool-cases (leb k j)) [
    | inl e ↦ rw e (b, bs)
    | inr e ↦ rw e (bs.0, insert_by_key-AllBounded (k, w) rest b bs.1)
  ]

  sort_by_key-AllBounded :
      (es : List (ℕ × Writer)) → AllBounded es → AllBounded (sort_by_key is_nfc limits es)
  unfolding sort_by_key
  sort_by_key-AllBounded [] bs = tt
  sort_by_key-AllBounded (e ∷ es) bs =
      insert_by_key-AllBounded e (sort_by_key is_nfc limits es) bs.0
        (sort_by_key-AllBounded es bs.1)

  write_entries-bound :
      (es : List (ℕ × Writer)) (out out' : List ℕ)
      → AllBounded es
      → length out ≤ limits.max_bytes
      → write_entries is_nfc limits es out ≡ ok out'
      → length out' ≤ limits.max_bytes
  unfolding write_entries
  write_entries-bound [] out out' bs b h = ground arith
  write_entries-bound ((k, w) ∷ es) out out' bs b h =
      let (out₁, p, h₁) = >>=-ok (push_head is_nfc limits 0 k out) _ h in
      let (out₂, q, h₂) = >>=-ok (w out₁) _ h₁ in
      write_entries-bound es out₂ out' bs.1 (bs.0 out₁ out₂ q) h₂

  mutual
    unfolding encode_into check_collection

    encode_into-Bounded : (v : Value) (depth : ℕ) → Bounded (encode_into is_nfc limits v depth)
    encode_into-Bounded (unsigned n) depth out out' h =
        push_head-Bounded 0 n out out' (ensure-ok _ depth_limit _ h).1
    encode_into-Bounded (signed (pos n)) depth out out' h =
        push_head-Bounded 0 n out out' (ensure-ok _ depth_limit _ h).1
    encode_into-Bounded (signed (negsuc n)) depth out out' h =
        push_head-Bounded 1 n out out' (ensure-ok _ depth_limit _ h).1
    encode_into-Bounded (bytes content) depth out out' h =
        let (_, w) = ensure-ok _ depth_limit _ h in
        let (_, w₁) = ensure-ok _ size_limit _ w in
        let (mid, p, w₂) = >>=-ok (push_head is_nfc limits 2 (length content) out) _ w₁ in
        extend-bound is_nfc limits content mid out' w₂
    encode_into-Bounded (text content) depth out out' h =
        let (_, w) = ensure-ok _ depth_limit _ h in
        let (_, w₀) = ensure-ok _ invalid_value _ w in
        let (_, w₁) = ensure-ok _ size_limit _ w₀ in
        let (mid, p, w₂) = >>=-ok (push_head is_nfc limits 3 (length content) out) _ w₁ in
        extend-bound is_nfc limits content mid out' w₂
    encode_into-Bounded (array values) depth out out' h =
        let (_, w) = ensure-ok _ depth_limit _ h in
        let (_, w₁) = ensure-ok _ collection_limit _ w in
        let (mid, p, w₂) = >>=-ok (push_head is_nfc limits 4 (count_items values) out) _ w₁ in
        encode_items-bound values (depth + 1) mid out'
          (push_head-Bounded 4 (count_items values) out mid p) w₂
    encode_into-Bounded (map entries) depth out out' h =
        let (_, w) = ensure-ok _ depth_limit _ h in
        let (_, w₁) = ensure-ok _ collection_limit _ w in
        let (mid, p, w₂) = >>=-ok (push_head is_nfc limits 5 (count_fields entries) out) _ w₁ in
        let (_, w₃) = ensure-ok _ invalid_value _ w₂ in
        write_entries-bound _ mid out'
          (sort_by_key-AllBounded _ (entry_writers-AllBounded entries (depth + 1)))
          (push_head-Bounded 5 (count_fields entries) out mid p) w₃
    encode_into-Bounded (bool false) depth out out' h =
        extend-bound is_nfc limits (0xf4 ∷ []) out out' (ensure-ok _ depth_limit _ h).1
    encode_into-Bounded (bool true) depth out out' h =
        extend-bound is_nfc limits (0xf5 ∷ []) out out' (ensure-ok _ depth_limit _ h).1
    encode_into-Bounded null depth out out' h =
        extend-bound is_nfc limits (0xf6 ∷ []) out out' (ensure-ok _ depth_limit _ h).1

    encode_items-bound :
        (vs : Items) (depth : ℕ) (out out' : List ℕ)
        → length out ≤ limits.max_bytes
        → encode_items is_nfc limits vs depth out ≡ ok out'
        → length out' ≤ limits.max_bytes
    encode_items-bound no_items depth out out' b h = ground arith
    encode_items-bound (item v vs) depth out out' b h =
        let (mid, p, q) = >>=-ok (encode_into is_nfc limits v depth out) _ h in
        encode_items-bound vs depth mid out' (encode_into-Bounded v depth out mid p) q

    entry_writers-AllBounded :
        (fs : Fields) (depth : ℕ) → AllBounded (entry_writers is_nfc limits fs depth)
    entry_writers-AllBounded no_fields depth = tt
    entry_writers-AllBounded (field k v fs) depth =
        (encode_into-Bounded v depth, entry_writers-AllBounded fs depth)

  -- What the encoder returns is never longer than `max_bytes`, whatever the value.
  pub encode-bound :
      (v : Value) (encoded : List ℕ)
      → encode_with_limits is_nfc limits v ≡ ok encoded
      → length encoded ≤ limits.max_bytes
  unfolding encode_with_limits
  encode-bound v encoded h = encode_into-Bounded v 0 [] encoded h
