-- ===== src/Objects/Fastcdc/Boundaries.antt =====
-- What the chunker promises: no byte is lost, the sizes are in range, and the boundaries depend
-- only on the bytes.
use rethinking_git.Base.{
  ℕ, ◌≤◌, ◌<◌, ◌≡◌, refl, sym, ap, ◌∙◌, true, List, [], ◌∷◌, ◌++◌, length, length-append, All,
  arith, concat, append-nil, append_assoc, List-cases, inl, inr,
}
use rethinking_git.Objects.Fastcdc.{
  FastCdcV0, new, roll, cuts, push_byte, push, finish, fastcdc_v0_chunks, min_size, max_size,
}

-- Segmentation does not matter: pushing two slices in turn is pushing them joined.
pub push-append :
    (c : FastCdcV0) (xs ys : List ℕ)
    → push c (xs ++ ys) ≡ ((push (push c xs).0 ys).0, (push c xs).1 ++ (push (push c xs).0 ys).1)
unfolding push
push-append c [] ys = refl
push-append c (x ∷ xs) ys =
    let (c', completed) = push_byte c x in
    rw (push-append c' xs ys)
      (ap (λ t. ((push (push c' xs).0 ys).0, t)) (sym (append_assoc completed _ _)))

concat-append : (xs ys : List (List ℕ)) → concat (xs ++ ys) ≡ concat xs ++ concat ys
concat-append [] ys = refl
concat-append (x ∷ xs) ys =
    ap (λ t. x ++ t) (concat-append xs ys) ∙ sym (append_assoc x (concat xs) (concat ys))

concat-push_byte :
    (c : FastCdcV0) (b : ℕ)
    → concat (push_byte c b).1 ++ (push_byte c b).0.pending ≡ c.pending ++ b ∷ []
unfolding push_byte
concat-push_byte c b =
    ground (arith, append-nil (c.pending ++ b ∷ []), append-nil ((c.pending ++ b ∷ []) ++ []))

-- The completed chunks and what is pending are the bytes so far, in order.
pub concat-push :
    (c : FastCdcV0) (xs : List ℕ) → concat (push c xs).1 ++ (push c xs).0.pending ≡ c.pending ++ xs
unfolding push
concat-push c [] = sym (append-nil c.pending)
concat-push c (x ∷ xs) =
    let (c', completed) = push_byte c x in
    rw
      (
        concat-append completed (push c' xs).1,
        append_assoc,
        concat-push c' xs,
        ← append_assoc,
        concat-push_byte c x,
      )
      (append_assoc c.pending (x ∷ []) xs)

concat-finish : (c : FastCdcV0) → concat (finish c) ≡ c.pending
unfolding finish
concat-finish c = elim (List-cases c.pending) [
  | inl e ↦ rw (e, finish)
  | inr (x, xs, e) ↦ rw (e, finish) (append-nil (x ∷ xs))
]

-- The chunks of a byte stream, joined, are the stream.
pub concat-chunks : (bytes : List ℕ) → concat (fastcdc_v0_chunks bytes) ≡ bytes
unfolding fastcdc_v0_chunks
concat-chunks bytes =
    let (c, chunks) = push new bytes in
    rw (concat-append chunks (finish c), concat-finish c) (concat-push new bytes)

-- The bounds of a completed chunk.
abbrev pub InRange : List ℕ → Type 0
InRange chunk = (min_size ≤ length chunk) × (length chunk ≤ max_size)

cuts-max : (r : ℕ) → cuts max_size r ≡ true
unfolding cuts
cuts-max r = ground arith

push_byte-InRange :
    (c : FastCdcV0) (b : ℕ)
    → length c.pending < max_size
    → All InRange (push_byte c b).1 × (length (push_byte c b).0.pending < max_size)
unfolding push_byte
push_byte-InRange c b h =
    ground (arith, length-append c.pending (b ∷ []), cuts-max (roll c.rolling b))

All-append : (xs ys : List (List ℕ)) → All InRange xs → All InRange ys → All InRange (xs ++ ys)
All-append [] ys h k = k
All-append (x ∷ xs) ys h k = (h.0, All-append xs ys h.1 k)

-- From a state below the greatest size, every completed chunk has between `min_size` and
-- `max_size` bytes, and the state stays below the greatest size.
pub push-InRange :
    (c : FastCdcV0) (xs : List ℕ)
    → length c.pending < max_size
    → All InRange (push c xs).1 × (length (push c xs).0.pending < max_size)
unfolding push
push-InRange c [] h = (tt, h)
push-InRange c (x ∷ xs) h =
    let (now, below) = push_byte-InRange c x h in
    let (later, last) = push-InRange (push_byte c x).0 xs below in
    (All-append (push_byte c x).1 (push (push_byte c x).0 xs).1 now later, last)
