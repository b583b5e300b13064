-- ===== src/Objects/Canonical/Agree.antt =====
-- An encoding does not depend on the limits, only whether there is one does.
use rethinking_git.Base.{
  ℕ, ◌+◌, ◌*◌, ◌≡◌, refl, sym, subst, Bool, true, false, List, [], ◌∷◌, length, leb, ok, ◌>>=◌,
  >>=-ok, ensure-ok, arith, Bool-cases, inl, inr,
}
use rethinking_git.Objects.Canonical.{
  Value, Items, Fields, unsigned, signed, bytes, text, array, map, bool, null, no_items, item,
  no_fields, field, pos, negsuc, CanonicalLimits, count_items, count_fields, depth_limit,
  size_limit, collection_limit, invalid_value,
}
use rethinking_git.Objects.Canonical.Encode.{
  Writer, extend, push_head, check_collection, sort_by_key, insert_by_key, write_entries,
  encode_into, encode_items, entry_writers, encode_with_limits, be16, be32, be64,
}

-- Two writers append the same bytes if both succeed.
abbrev Agree : Writer → Writer → Type 0
Agree w w' = (out b b' : List ℕ) → w out ≡ ok b → w' out ≡ ok b' → b ≡ b'

-- Lists of writers that agree, with the same keys.
abbrev AllAgree : List (ℕ × Writer) → List (ℕ × Writer) → Type 0
AllAgree [] [] = Unit
AllAgree [] ((j, x) ∷ es') = ⊥
AllAgree ((k, w) ∷ es) [] = ⊥
AllAgree ((k, w) ∷ es) ((j, x) ∷ es') = (k ≡ j) × Agree w x × AllAgree es es'

-- One writer after another.
then_Agree :
    (w w' : Writer)
    → Agree w w'
    → (mid mid' b b' : List ℕ) → mid ≡ mid'
    → w mid ≡ ok b
    → w' mid' ≡ ok b'
    → b ≡ b'
then_Agree w w' a mid mid' b b' e h h' = a mid b b' h (subst (λ m. w' m ≡ ok b') (sym e) h')

module _ (is_nfc : List ℕ → Bool) (l l' : CanonicalLimits) where
  extend-Agree : (new : List ℕ) → Agree (extend is_nfc l new) (extend is_nfc l' new)
  unfolding extend
  extend-Agree new out b b' h h' = ground arith

  last-Agree :
      (a : ℕ) (new : List ℕ)
      → Agree
          (λ out. extend is_nfc l (a ∷ []) out >>= extend is_nfc l new)
          (λ out. extend is_nfc l' (a ∷ []) out >>= extend is_nfc l' new)
  last-Agree a new out b b' h h' =
      let (mid, p, r) = >>=-ok (extend is_nfc l (a ∷ []) out) _ h in
      let (mid', p', r') = >>=-ok (extend is_nfc l' (a ∷ []) out) _ h' in
      then_Agree _ _ (extend-Agree new) mid mid' b b' (extend-Agree (a ∷ []) out mid mid' p p') r r'

  push_head-Agree :
      (major value : ℕ) → Agree (push_head is_nfc l major value) (push_head is_nfc l' major value)
  unfolding push_head
  push_head-Agree major value out b b' h h' = elim (Bool-cases (leb value 23)) [
    | inl a ↦ extend-Agree ((major * 32 + value) ∷ []) out b b' (rw a at h) (rw a at h')
    | inr a ↦ elim (Bool-cases (leb value 0xff)) [
      | inl c ↦
          extend-Agree ((major * 32 + 24) ∷ value ∷ []) out b b' (rw (a, c) at h) (rw (a, c) at h')
      | inr c ↦ elim (Bool-cases (leb value 0xffff)) [
        | inl d ↦
            last-Agree (major * 32 + 25) (be16 value) out b b' (rw (a, c, d) at h)
              (rw (a, c, d) at h')
        | inr d ↦ elim (Bool-cases (leb value 0xffff_ffff)) [
          | inl e ↦
              last-Agree (major * 32 + 26) (be32 value) out b b' (rw (a, c, d, e) at h)
                (rw (a, c, d, e) at h')
          | inr e ↦
              last-Agree (major * 32 + 27) (be64 value) out b b' (rw (a, c, d, e) at h)
                (rw (a, c, d, e) at h')
        ]
      ]
    ]
  ]

  insert_by_key-AllAgree :
      (e e' : ℕ × Writer) (es es' : List (ℕ × Writer))
      → AllAgree (e ∷ es) (e' ∷ es')
      → AllAgree (insert_by_key is_nfc l e es) (insert_by_key is_nfc l' e' es')
  unfolding insert_by_key
  insert_by_key-AllAgree (k, w) (k', w') [] [] a = a
  insert_by_key-AllAgree (k, w) (k', w') [] ((j, x) ∷ es') a = absurd a.2
  insert_by_key-AllAgree (k, w) (k', w') ((j, x) ∷ es) [] a = absurd a.2
  insert_by_key-AllAgree (k, w) (k', w') ((i, x) ∷ es) ((j, y) ∷ es') (ek, aw, (ei, ax, as')) =
      elim (Bool-cases (leb k i)) [
        | inl e ↦
            let e' = subst (λ t. leb k' t ≡ true) ei (subst (λ t. leb t i ≡ true) ek e) in
            rw (e, e') (ek, aw, (ei, ax, as'))
        | inr e ↦
            let e' = subst (λ t. leb k' t ≡ false) ei (subst (λ t. leb t i ≡ false) ek e) in
            rw (e, e') (ei, ax, insert_by_key-AllAgree (k, w) (k', w') es es' (ek, aw, as'))
      ]

  sort_by_key-AllAgree :
      (es es' : List (ℕ × Writer))
      → AllAgree es es'
      → AllAgree (sort_by_key is_nfc l es) (sort_by_key is_nfc l' es')
  unfolding sort_by_key
  sort_by_key-AllAgree [] [] a = tt
  sort_by_key-AllAgree [] (e' ∷ es') a = absurd a
  sort_by_key-AllAgree (e ∷ es) [] a = absurd a
  sort_by_key-AllAgree ((k, w) ∷ es) ((j, x) ∷ es') (ek, aw, as') =
      insert_by_key-AllAgree (k, w) (j, x) (sort_by_key is_nfc l es) (sort_by_key is_nfc l' es')
        (ek, aw, sort_by_key-AllAgree es es' as')

  write_entries-Agree :
      (es es' : List (ℕ × Writer))
      → AllAgree es es'
      → Agree (write_entries is_nfc l es) (write_entries is_nfc l' es')
  unfolding write_entries
  write_entries-Agree [] [] a out b b' h h' = ground arith
  write_entries-Agree [] (e' ∷ es') a out b b' h h' = absurd a
  write_entries-Agree (e ∷ es) [] a out b b' h h' = absurd a
  write_entries-Agree ((k, w) ∷ es) ((j, x) ∷ es') (ek, aw, as') out b b' h h' =
      let (m₁, p, h₁) = >>=-ok (push_head is_nfc l 0 k out) _ h in
      let (m₂, q, h₂) = >>=-ok (w m₁) _ h₁ in
      let (n₁, p', h₁') = >>=-ok (push_head is_nfc l' 0 j out) _ h' in
      let (n₂, q', h₂') = >>=-ok (x n₁) _ h₁' in
      let e₁ =
        push_head-Agree 0 k out m₁ n₁ p
          (subst (λ i. push_head is_nfc l' 0 i out ≡ ok n₁) (sym ek) p') in
      let e₂ = then_Agree w x aw m₁ n₁ m₂ n₂ e₁ q q' in
      then_Agree _ _ (write_entries-Agree es es' as') m₂ n₂ b b' e₂ h₂ h₂'

  mutual
    unfolding encode_into check_collection

    encode_into-Agree :
        (v : Value) (depth : ℕ)
        → Agree (encode_into is_nfc l v depth) (encode_into is_nfc l' v depth)
    encode_into-Agree (unsigned n) depth out b b' h h' =
        push_head-Agree 0 n out b b' (ensure-ok _ depth_limit _ h).1
          (ensure-ok _ depth_limit _ h').1
    encode_into-Agree (signed (pos n)) depth out b b' h h' =
        push_head-Agree 0 n out b b' (ensure-ok _ depth_limit _ h).1
          (ensure-ok _ depth_limit _ h').1
    encode_into-Agree (signed (negsuc n)) depth out b b' h h' =
        push_head-Agree 1 n out b b' (ensure-ok _ depth_limit _ h).1
          (ensure-ok _ depth_limit _ h').1
    encode_into-Agree (bytes content) depth out b b' h h' =
        let (_, w0) = ensure-ok _ depth_limit _ h in
        let (_, v0) = ensure-ok _ depth_limit _ h' in
        let (_, w1) = ensure-ok _ size_limit _ w0 in
        let (_, v1) = ensure-ok _ size_limit _ v0 in
        let (mid, p, q) = >>=-ok (push_head is_nfc l 2 (length content) out) _ w1 in
        let (mid', p', q') = >>=-ok (push_head is_nfc l' 2 (length content) out) _ v1 in
        let same_head = push_head-Agree 2 (length content) out mid mid' p p' in
        then_Agree _ _ (extend-Agree content) mid mid' b b' same_head q q'
    encode_into-Agree (text content) depth out b b' h h' =
        let (_, w0) = ensure-ok _ depth_limit _ h in
        let (_, v0) = ensure-ok _ depth_limit _ h' in
        let (_, w1) = ensure-ok _ invalid_value _ w0 in
        let (_, v1) = ensure-ok _ invalid_value _ v0 in
        let (_, w2) = ensure-ok _ size_limit _ w1 in
        let (_, v2) = ensure-ok _ size_limit _ v1 in
        let (mid, p, q) = >>=-ok (push_head is_nfc l 3 (length content) out) _ w2 in
        let (mid', p', q') = >>=-ok (push_head is_nfc l' 3 (length content) out) _ v2 in
        let same_head = push_head-Agree 3 (length content) out mid mid' p p' in
        then_Agree _ _ (extend-Agree content) mid mid' b b' same_head q q'
    encode_into-Agree (array values) depth out b b' h h' =
        let (_, w0) = ensure-ok _ depth_limit _ h in
        let (_, v0) = ensure-ok _ depth_limit _ h' in
        let (_, w1) = ensure-ok _ collection_limit _ w0 in
        let (_, v1) = ensure-ok _ collection_limit _ v0 in
        let (mid, p, q) = >>=-ok (push_head is_nfc l 4 (count_items values) out) _ w1 in
        let (mid', p', q') = >>=-ok (push_head is_nfc l' 4 (count_items values) out) _ v1 in
        let same_head = push_head-Agree 4 (count_items values) out mid mid' p p' in
        then_Agree _ _ (encode_items-Agree values (depth + 1)) mid mid' b b' same_head q q'
    encode_into-Agree (map entries) depth out b b' h h' =
        let (_, w0) = ensure-ok _ depth_limit _ h in
        let (_, v0) = ensure-ok _ depth_limit _ h' in
        let (_, w1) = ensure-ok _ collection_limit _ w0 in
        let (_, v1) = ensure-ok _ collection_limit _ v0 in
        let (mid, p, q) = >>=-ok (push_head is_nfc l 5 (count_fields entries) out) _ w1 in
        let (mid', p', q') = >>=-ok (push_head is_nfc l' 5 (count_fields entries) out) _ v1 in
        let same_head = push_head-Agree 5 (count_fields entries) out mid mid' p p' in
        let (_, r) = ensure-ok _ invalid_value _ q in
        let (_, r') = ensure-ok _ invalid_value _ q' in
        let sorted = sort_by_key-AllAgree _ _ (entry_writers-AllAgree entries (depth + 1)) in
        then_Agree _ _ (write_entries-Agree _ _ sorted) mid mid' b b' same_head r r'
    encode_into-Agree (bool false) depth out b b' h h' =
        extend-Agree (0xf4 ∷ []) out b b' (ensure-ok _ depth_limit _ h).1
          (ensure-ok _ depth_limit _ h').1
    encode_into-Agree (bool true) depth out b b' h h' =
        extend-Agree (0xf5 ∷ []) out b b' (ensure-ok _ depth_limit _ h).1
          (ensure-ok _ depth_limit _ h').1
    encode_into-Agree null depth out b b' h h' =
        extend-Agree (0xf6 ∷ []) out b b' (ensure-ok _ depth_limit _ h).1
          (ensure-ok _ depth_limit _ h').1

    encode_items-Agree :
        (vs : Items) (depth : ℕ)
        → Agree (encode_items is_nfc l vs depth) (encode_items is_nfc l' vs depth)
    encode_items-Agree no_items depth out b b' h h' = ground arith
    encode_items-Agree (item v vs) depth out b b' h h' =
        let (mid, p, q) = >>=-ok (encode_into is_nfc l v depth out) _ h in
        let (mid', p', q') = >>=-ok (encode_into is_nfc l' v depth out) _ h' in
        then_Agree _ _ (encode_items-Agree vs depth) mid mid' b b'
          (encode_into-Agree v depth out mid mid' p p') q q'

    entry_writers-AllAgree :
        (fs : Fields) (depth : ℕ)
        → AllAgree (entry_writers is_nfc l fs depth) (entry_writers is_nfc l' fs depth)
    entry_writers-AllAgree no_fields depth = tt
    entry_writers-AllAgree (field k v fs) depth =
        (refl, encode_into-Agree v depth, entry_writers-AllAgree fs depth)

  -- If a value is encoded under two limits, the two encodings are one.
  pub encode-agree :
      (v : Value) (encoded encoded' : List ℕ)
      → encode_with_limits is_nfc l v ≡ ok encoded
      → encode_with_limits is_nfc l' v ≡ ok encoded'
      → encoded ≡ encoded'
  unfolding encode_with_limits
  encode-agree v encoded encoded' h h' = encode_into-Agree v 0 [] encoded encoded' h h'
