-- ===== src/Objects/Canonical/RoundTrip.antt =====
-- What the encoder writes, the decoder reads back.
use rethinking_git.Base.{
  ℕ, zero, suc, ◌+◌, ◌/◌, ◌%◌, ◌^◌, ◌≤◌, ◌<◌, ◌≡◌, refl, sym, subst, ap, ◌∙◌, Bool, true, false,
  not, List, [], ◌∷◌, ◌++◌, length, ltb, leb, ◌==◌, Result, ok, ◌>>=◌, >>=-ok, ensure-ok, ensure,
  arith, append_assoc, append-nil, Option, none, some, holds, holds_iff,
}
use rethinking_git.Base.Order.{nat_ord}
use rethinking_git.Base.Set
use rethinking_git.Base.Set.{contains-insert}
use rethinking_git.Objects.Canonical.{
  Value, Items, Fields, unsigned, signed, bytes, text, array, map, bool, null, no_items, item,
  no_fields, field, pos, negsuc, CanonicalLimits, CanonicalError, count_items, count_fields,
  depth_limit, size_limit, collection_limit, invalid_value, trailing_bytes, non_canonical,
}
use rethinking_git.Objects.Canonical.Encode.{
  push_head, check_collection, sort_by_key, insert_by_key, write_entries, encode_into, encode_items,
  entry_writers, encode_with_limits,
}
use rethinking_git.Objects.Canonical.Decode.{
  Reader, read_value, read_items, read_entries, read_major, argument, not_above, decode_canonical,
  bytes_discrete,
}
use rethinking_git.Objects.Canonical.Bound.{encode-bound}
use rethinking_git.Objects.Canonical.Head.{Head, extend-ok, push_head-Head}
use rethinking_git.Objects.Canonical.Major.{
  major-unsigned, major-signed, major-bytes, major-text, major-array, major-map, major-false,
  major-true, major-null,
}

-- Keys in strictly increasing order, each above `previous`.
abbrev pub Increasing : Option ℕ → Fields → Type 0
Increasing previous no_fields = Unit
Increasing previous (field k v fs) = (not_above previous k ≡ false) × Increasing (some k) fs

-- The values of which each has one form: numbers in range, signed only if negative, texts that are
-- UTF-8, and maps with their keys in order.
module _ (is_utf8 : List ℕ → Bool) where
  unfoldable mutual
    pub IsCanonical : Value → Type 0
    IsCanonical (unsigned n) = n < 2 ^ 64
    IsCanonical (signed (pos n)) = ⊥
    IsCanonical (signed (negsuc n)) = n < 2 ^ 63
    IsCanonical (bytes content) = length content < 2 ^ 64
    IsCanonical (text content) = (length content < 2 ^ 64) × (is_utf8 content ≡ true)
    IsCanonical (array values) = (count_items values < 2 ^ 64) × AllItems values
    IsCanonical (map entries) =
        (count_fields entries < 2 ^ 64) × Increasing none entries × AllFields entries
    IsCanonical (bool b) = Unit
    IsCanonical null = Unit

    pub AllItems : Items → Type 0
    AllItems no_items = Unit
    AllItems (item v vs) = IsCanonical v × AllItems vs

    pub AllFields : Fields → Type 0
    AllFields no_fields = Unit
    AllFields (field k v fs) = (k < 2 ^ 64) × IsCanonical v × AllFields fs

-- Bytes appended to `out` that `read` takes back to `a`.
record Appended {A : Type 0} (read : Reader A) (a : A) (out out' : List ℕ) : Type 0 where
  new : List ℕ
  made : out' ≡ out ++ new
  reads : (rest : List ℕ) → read (new ++ rest) ≡ ok (a, rest)

module _ (is_utf8 is_nfc : List ℕ → Bool) (limits : CanonicalLimits) where
  abbrev value_at : ℕ → Reader Value
  value_at remaining = read_value is_utf8 is_nfc limits remaining

  read_value-suc :
      (r initial : ℕ) (rest : List ℕ)
      → read_value is_utf8 is_nfc limits (suc r) (initial ∷ rest)
        ≡ read_major is_utf8 is_nfc limits (value_at r) (initial / 32) (initial % 32) rest
  unfolding read_value
  read_value-suc r initial rest = refl

  -- An item that is a head alone.
  Head-only :
      (r major n : ℕ) (v : Value) (out out' : List ℕ)
      → Head major n out out'
      → ((a : ℕ) (input rest : List ℕ)
          → argument a input ≡ ok (n, rest)
          → read_major is_utf8 is_nfc limits (value_at r) major a input ≡ ok (v, rest))
      → Appended (value_at (suc r)) v out out'
  Head-only r major n v out out' h step = record {
    new = h.initial ∷ h.more;
    made = h.made;
    reads = λ rest.
        read_value-suc r h.initial (h.more ++ rest)
        ∙ rw (h.major_kept) (step (h.initial % 32) (h.more ++ rest) rest (h.reads rest));
  }

  -- An item that is a head and content behind it.
  Head-and :
      (r major n : ℕ) (v : Value) (out mid out' content : List ℕ)
      → Head major n out mid
      → out' ≡ mid ++ content
      → ((a : ℕ) (input rest : List ℕ)
          → argument a input ≡ ok (n, content ++ rest)
          → read_major is_utf8 is_nfc limits (value_at r) major a input ≡ ok (v, rest))
      → Appended (value_at (suc r)) v out out'
  Head-and r major n v out mid out' content h e step = record {
    new = h.initial ∷ (h.more ++ content);
    made = e ∙ rw h.made (append_assoc out (h.initial ∷ h.more) content);
    reads = λ rest. rw (append_assoc h.more content rest) (
        read_value-suc r h.initial (h.more ++ (content ++ rest))
        ∙ rw (h.major_kept)
            (step (h.initial % 32) (h.more ++ (content ++ rest)) rest (h.reads (content ++ rest))));
  }

  insert_first :
      (k : ℕ) (v : Value) (fs : Fields) (depth : ℕ)
      → Increasing (some k) fs
      → insert_by_key is_nfc limits
          (k, encode_into is_nfc limits v depth)
          (entry_writers is_nfc limits fs depth)
        ≡ (k, encode_into is_nfc limits v depth) ∷ entry_writers is_nfc limits fs depth
  unfolding insert_by_key encode_into
  insert_first k v no_fields depth h = refl
  insert_first k v (field j w fs) depth h = let e : leb k j ≡ true = ground (arith, h.0) in rw e

  -- Entries in order are left as they are by the sort.
  sorted_id :
      (fs : Fields) (previous : Option ℕ) (depth : ℕ)
      → Increasing previous fs
      → sort_by_key is_nfc limits (entry_writers is_nfc limits fs depth)
        ≡ entry_writers is_nfc limits fs depth
  unfolding sort_by_key encode_into
  sorted_id no_fields previous depth h = refl
  sorted_id (field k v fs) previous depth h =
      rw (sorted_id fs (some k) depth h.1) (insert_first k v fs depth h.1)

  -- The writers' depth test.
  depth_ok :
      (depth r : ℕ) (w : Result CanonicalError (List ℕ)) (out' : List ℕ)
      → depth + r ≡ suc limits.max_depth
      → (ensure (not (ltb limits.max_depth depth)) depth_limit >>= λ _. w) ≡ ok out'
      → (s : ℕ) × (r ≡ suc s) × (w ≡ ok out')
  depth_ok depth zero w out' e h = absurd (ground (arith, ensure-ok _ depth_limit w h))
  depth_ok depth (suc s) w out' e h = (s, refl, (ensure-ok _ depth_limit w h).1)

  within : (most n : ℕ) → not (ltb most n) ≡ true → n ≤ most
  within most n h = ground arith

  -- A reader's result carried to another name of its depth.
  at_depth :
      (r s : ℕ) (v : Value) (out out' : List ℕ)
      → r ≡ suc s
      → Appended (value_at (suc s)) v out out'
      → Appended (value_at r) v out out'
  at_depth r s v out out' e a = subst (λ t. Appended (value_at t) v out out') (sym e) a

  -- A constant byte.
  one_byte :
      (s b : ℕ) (v : Value) (out out' : List ℕ)
      → out' ≡ out ++ b ∷ []
      → ((rest : List ℕ)
          → read_major is_utf8 is_nfc limits (value_at s) (b / 32) (b % 32) rest ≡ ok (v, rest))
      → Appended (value_at (suc s)) v out out'
  one_byte s b v out out' e step = record {
    new = b ∷ [];
    made = e;
    reads = λ rest. read_value-suc s b rest ∙ step rest;
  }

  items_nil : (one : Reader Value) (out : List ℕ) → Appended (read_items one 0) no_items out out
  unfolding read_items
  items_nil one out = record { new = []; made = sym (append-nil out); reads = λ rest. refl }

  items_cons :
      (one : Reader Value) (n : ℕ) (v : Value) (vs : Items) (out mid out' : List ℕ)
      → Appended one v out mid
      → Appended (read_items one n) vs mid out'
      → Appended (read_items one (suc n)) (item v vs) out out'
  unfolding read_items
  items_cons one n v vs out mid out' a b = record {
    new = a.new ++ b.new;
    made = b.made ∙ rw a.made (append_assoc out a.new b.new);
    reads = λ rest.
        rw (append_assoc a.new b.new rest) (ground (arith, a.reads (b.new ++ rest), b.reads rest));
  }

  fields_nil :
      (one : Reader Value) (keys : List ℕ) (previous : Option ℕ) (out : List ℕ)
      → Appended (read_entries one 0 keys previous) no_fields out out
  unfolding read_entries
  fields_nil one keys previous out = record {
    new = [];
    made = sym (append-nil out);
    reads = λ rest. refl;
  }

  fields_cons :
      (one : Reader Value) (n k : ℕ) (keys : List ℕ) (previous : Option ℕ) (v : Value) (fs : Fields)
      (out out₁ out₂ out' : List ℕ)
      → not_above previous k ≡ false
      → Set.contains k keys ≡ false
      → Head 0 k out out₁
      → Appended one v out₁ out₂
      → Appended (read_entries one n (Set.insert k keys) (some k)) fs out₂ out'
      → Appended (read_entries one (suc n) keys previous) (field k v fs) out out'
  unfolding read_entries
  fields_cons one n k keys previous v fs out out₁ out₂ out' i u h a b = record {
    new = h.initial ∷ (h.more ++ (a.new ++ b.new));
    made =
        b.made
        ∙ rw (a.made, h.made)
            (rw (append_assoc out (h.initial ∷ h.more) a.new) (
              append_assoc out (h.initial ∷ (h.more ++ a.new)) b.new
              ∙ ap (λ t. out ++ h.initial ∷ t) (append_assoc h.more a.new b.new)));
    reads = λ rest.
        rw (append_assoc h.more (a.new ++ b.new) rest, append_assoc a.new b.new rest)
          (ground (
            arith,
            h.major_kept,
            h.reads (a.new ++ (b.new ++ rest)),
            a.reads (b.new ++ rest),
            b.reads rest,
          ));
  }

  none_used : (k : ℕ) → not_above none k ≡ false → Set.contains k [] ≡ false
  unfolding Set.contains
  none_used k h = refl

  next_unused :
      (previous : Option ℕ) (keys : List ℕ) (k : ℕ)
      → not_above previous k ≡ false
      → ((j : ℕ) → not_above previous j ≡ false → Set.contains j keys ≡ false)
      → (j : ℕ) → not_above (some k) j ≡ false
      → Set.contains j (Set.insert k keys) ≡ false
  next_unused none keys k i u j h = ground (arith, contains-insert j k keys, u j refl)
  next_unused (some x) keys k i u j h = ground (arith, contains-insert j k keys, u j (ground arith))

  mutual
    unfolding encode_into IsCanonical check_collection write_entries

    reads_value :
        (v : Value) (depth r : ℕ) (out out' : List ℕ)
        → IsCanonical is_utf8 v
        → depth + r ≡ suc limits.max_depth
        → encode_into is_nfc limits v depth out ≡ ok out'
        → Appended (value_at r) v out out'
    reads_value (unsigned n) depth r out out' c d h =
        let (s, e, w) = depth_ok depth r _ out' d h in
        at_depth r s _ out out' e (
          Head-only s 0 n _ out out' (push_head-Head is_nfc limits 0 n out out' c w)
            (λ a. major-unsigned is_utf8 is_nfc limits (value_at s) a n))
    reads_value (signed (pos n)) depth r out out' c d h = absurd c
    reads_value (signed (negsuc n)) depth r out out' c d h =
        let (s, e, w) = depth_ok depth r _ out' d h in
        at_depth r s _ out out' e (
          Head-only s 1 n _ out out' (push_head-Head is_nfc limits 1 n out out' (omega arith) w)
            (λ a input rest q. major-signed is_utf8 is_nfc limits (value_at s) a n input rest q c))
    reads_value (bytes content) depth r out out' c d h =
        let (s, e, w) = depth_ok depth r _ out' d h in
        let (fits, w₁) = ensure-ok _ size_limit _ w in
        let (mid, p, w₂) = >>=-ok (push_head is_nfc limits 2 (length content) out) _ w₁ in
        at_depth r s _ out out' e (
          Head-and s 2 (length content) _ out mid out' content
            (push_head-Head is_nfc limits 2 (length content) out mid c p)
            (extend-ok is_nfc limits content mid out' w₂)
            (λ a input rest q.
              major-bytes is_utf8 is_nfc limits (value_at s) a content input rest q
                (within _ _ fits)))
    reads_value (text content) depth r out out' c d h =
        let (s, e, w) = depth_ok depth r _ out' d h in
        let (nfc, w₀) = ensure-ok _ invalid_value _ w in
        let (fits, w₁) = ensure-ok _ size_limit _ w₀ in
        let (mid, p, w₂) = >>=-ok (push_head is_nfc limits 3 (length content) out) _ w₁ in
        at_depth r s _ out out' e (
          Head-and s 3 (length content) _ out mid out' content
            (push_head-Head is_nfc limits 3 (length content) out mid c.0 p)
            (extend-ok is_nfc limits content mid out' w₂)
            (λ a input rest q.
              major-text is_utf8 is_nfc limits (value_at s) a content input rest q (within _ _ fits)
                c.1 nfc))
    reads_value (array values) depth r out out' c d h =
        let (s, e, w) = depth_ok depth r _ out' d h in
        let (fits, w₁) = ensure-ok _ collection_limit _ w in
        let (mid, p, w₂) = >>=-ok (push_head is_nfc limits 4 (count_items values) out) _ w₁ in
        let below = reads_items values (depth + 1) s mid out' c.1 (omega arith) w₂ in
        at_depth r s _ out out' e (
          Head-and s 4 (count_items values) _ out mid out' below.new
            (push_head-Head is_nfc limits 4 (count_items values) out mid c.0 p) below.made
            (λ a input rest q.
              major-array is_utf8 is_nfc limits (value_at s) a (count_items values) values input
                (below.new ++ rest) rest q (within _ _ fits) (below.reads rest)))
    reads_value (map entries) depth r out out' c d h =
        let (s, e, w) = depth_ok depth r _ out' d h in
        let (fits, w₁) = ensure-ok _ collection_limit _ w in
        let (mid, p, w₂) = >>=-ok (push_head is_nfc limits 5 (count_fields entries) out) _ w₁ in
        let (_, w₃) = ensure-ok _ invalid_value _ w₂ in
        let w₄ =
          subst (λ t. write_entries is_nfc limits t mid ≡ ok out')
            (sorted_id entries none (depth + 1) c.1) w₃ in
        let below =
          reads_fields entries none [] (depth + 1) s mid out' c.2 c.1 none_used (omega arith) w₄ in
        at_depth r s _ out out' e (
          Head-and s 5 (count_fields entries) _ out mid out' below.new
            (push_head-Head is_nfc limits 5 (count_fields entries) out mid c.0 p) below.made
            (λ a input rest q.
              major-map is_utf8 is_nfc limits (value_at s) a (count_fields entries) entries input
                (below.new ++ rest) rest q (within _ _ fits) (below.reads rest)))
    reads_value (bool false) depth r out out' c d h =
        let (s, e, w) = depth_ok depth r _ out' d h in
        at_depth r s _ out out' e (
          one_byte s 0xf4 _ out out' (extend-ok is_nfc limits (0xf4 ∷ []) out out' w)
            (major-false is_utf8 is_nfc limits (value_at s)))
    reads_value (bool true) depth r out out' c d h =
        let (s, e, w) = depth_ok depth r _ out' d h in
        at_depth r s _ out out' e (
          one_byte s 0xf5 _ out out' (extend-ok is_nfc limits (0xf5 ∷ []) out out' w)
            (major-true is_utf8 is_nfc limits (value_at s)))
    reads_value null depth r out out' c d h =
        let (s, e, w) = depth_ok depth r _ out' d h in
        at_depth r s _ out out' e (
          one_byte s 0xf6 _ out out' (extend-ok is_nfc limits (0xf6 ∷ []) out out' w)
            (major-null is_utf8 is_nfc limits (value_at s)))

    reads_items :
        (vs : Items) (depth r : ℕ) (out out' : List ℕ)
        → AllItems is_utf8 vs
        → depth + r ≡ suc limits.max_depth
        → encode_items is_nfc limits vs depth out ≡ ok out'
        → Appended (read_items (value_at r) (count_items vs)) vs out out'
    reads_items no_items depth r out out' c d h =
        let e : out ≡ out' = cc in
        subst (Appended (read_items (value_at r) 0) no_items out) e (items_nil (value_at r) out)
    reads_items (item v vs) depth r out out' c d h =
        let (mid, p, q) = >>=-ok (encode_into is_nfc limits v depth out) _ h in
        items_cons (value_at r) (count_items vs) v vs out mid out'
          (reads_value v depth r out mid c.0 d p) (reads_items vs depth r mid out' c.1 d q)

    reads_fields :
        (fs : Fields) (previous : Option ℕ) (keys : List ℕ) (depth r : ℕ) (out out' : List ℕ)
        → AllFields is_utf8 fs
        → Increasing previous fs
        → ((k : ℕ) → not_above previous k ≡ false → Set.contains k keys ≡ false)
        → depth + r ≡ suc limits.max_depth
        → write_entries is_nfc limits (entry_writers is_nfc limits fs depth) out ≡ ok out'
        → Appended (read_entries (value_at r) (count_fields fs) keys previous) fs out out'
    reads_fields no_fields previous keys depth r out out' c i u d h =
        let e : out ≡ out' = cc in
        subst (Appended (read_entries (value_at r) 0 keys previous) no_fields out) e
          (fields_nil (value_at r) keys previous out)
    reads_fields (field k v fs) previous keys depth r out out' c i u d h =
        let (out₁, p, h₁) = >>=-ok (push_head is_nfc limits 0 k out) _ h in
        let (out₂, q, h₂) = >>=-ok (encode_into is_nfc limits v depth out₁) _ h₁ in
        fields_cons (value_at r) (count_fields fs) k keys previous v fs out out₁ out₂ out' i.0
          (u k i.0) (push_head-Head is_nfc limits 0 k out out₁ c.0 p)
          (reads_value v depth r out₁ out₂ c.1 d q)
          (reads_fields fs (some k) (Set.insert k keys) depth r out₂ out' c.2 i.1
            (next_unused previous keys k i.0 u) d h₂)

  re-encodes :
      (v : Value) (input : List ℕ)
      → decode_canonical is_utf8 is_nfc limits input ≡ ok v
      → encode_with_limits is_nfc limits v ≡ ok input
  unfolding decode_canonical
  re-encodes v input h =
      let (_, h₁) = ensure-ok (not (ltb limits.max_bytes (length input))) size_limit _ h in
      let (r, p, h₂) =
        >>=-ok (read_value is_utf8 is_nfc limits (suc limits.max_depth) input) _ h₁ in
      let (_, h₃) = ensure-ok (length r.1 == 0) trailing_bytes _ h₂ in
      let (encoded, q, h₄) = >>=-ok (encode_with_limits is_nfc limits r.0) _ h₃ in
      let (t, h₅) = ensure-ok (holds (bytes_discrete encoded input)) non_canonical (ok r.0) h₄ in
      let same_bytes : encoded ≡ input = (holds_iff (bytes_discrete encoded input)).0 t in
      let same_value : r.0 ≡ v = cc in cc

  -- A canonical value that encodes within the limits is decoded from its encoding under the same
  -- limits.
  pub decode-encode :
      (v : Value) (encoded : List ℕ)
      → IsCanonical is_utf8 v
      → encode_with_limits is_nfc limits v ≡ ok encoded
      → decode_canonical is_utf8 is_nfc limits encoded ≡ ok v
  unfolding decode_canonical encode_with_limits
  decode-encode v encoded c h =
      let a = reads_value v 0 (suc limits.max_depth) [] encoded c (omega arith) h in
      let read : read_value is_utf8 is_nfc limits (suc limits.max_depth) encoded ≡ ok (v, []) =
        rw (a.made, ← append-nil a.new) (a.reads []) in
      ground (
        arith,
        read,
        h,
        encode-bound is_nfc limits v encoded h,
        (holds_iff (bytes_discrete encoded encoded)).1 refl,
      )

  -- The decoder accepts only what the encoder writes for the value that it returns, so two inputs
  -- that decode to one value are one input.
  pub decode-strict :
      (v : Value) (input input' : List ℕ)
      → decode_canonical is_utf8 is_nfc limits input ≡ ok v
      → decode_canonical is_utf8 is_nfc limits input' ≡ ok v
      → (encode_with_limits is_nfc limits v ≡ ok input) × (input ≡ input')
  decode-strict v input input' h h' =
      let e = re-encodes v input h in let e' = re-encodes v input' h' in (e, cc)
