-- ===== src/Objects/Path/Portable.antt =====
-- What segments and paths that are accepted look like.
use mathlib.Core.Bool.{◌||◌}
use rethinking_git.Base.{
  ℕ, ◌+◌, ◌≤◌, ◌<◌, Bool, true, false, not, List, [], ◌∷◌, ◌++◌, length, any, ltb, leb, ◌==◌, ok,
  err, ◌≡◌, ◌≢◌, ◌↔◌, sym, ap, subst, In, All, flat_map, length-append, ensure-ok, >>=-ok, arith,
  inl, inr, holds, if◌then◌else◌, list_contains, list_contains-iff-In, Bool-cases, Result-cases,
}
use rethinking_git.Objects.Canonical.Decode.{bytes_discrete}
use rethinking_git.Objects.Path.{
  PathSegment, PathError, empty, segment_too_long, non_normalized, unsafe, is_unsafe, validate,
  check_portable, ensure_portable, path_loop, new_path,
}
use rethinking_git.Objects.Unicode.{Unicode}

any-In : (p : ℕ → Bool) (c : ℕ) (cs : List ℕ) → any p cs ≡ false → In c cs → p c ≡ false
any-In p c [] h m = absurd m
any-In p c (d ∷ ds) h m = elim m [
  | inl e ↦ subst (λ x. p x ≡ false) (sym e) (ground arith)
  | inr later ↦ any-In p c ds (ground arith) later
]

-- The bytes of a path: its segments with a slash between them.
abbrev pub materialized : List PathSegment → List ℕ
materialized [] = []
materialized (segment ∷ segments) = segment.content ++ flat_map (λ s. b'/' ∷ s.content) segments

-- The two tests of `is_unsafe`, when it holds of neither.
is_unsafe_parts :
    (value : List ℕ)
    → not (is_unsafe value) ≡ true
    → (list_contains bytes_discrete value ((b'.' ∷ []) ∷ (b'.' ∷ b'.' ∷ []) ∷ []) ≡ false)
      × (any (λ c. c == 0 || c == b'/' || c == b'\\') value ≡ false)
unfolding is_unsafe
is_unsafe_parts value h = ground arith

module _ (unicode : Unicode) where
  -- A segment that is accepted is one name of 1 to 255 bytes: it has no separator and no NUL, and is
  -- neither "." nor "..".
  pub validate_safe :
      (value : List ℕ) (portable : Bool) (segment : PathSegment)
      → validate unicode value portable ≡ ok segment
      → (segment.content ≡ value)
        × (0 < length value)
        × (length value ≤ 255)
        × ((c : ℕ) → In c value → (c ≢ 0) × (c ≢ b'/') × (c ≢ b'\\'))
        × (value ≢ b'.' ∷ [])
        × (value ≢ b'.' ∷ b'.' ∷ [])
  unfolding validate is_unsafe
  validate_safe value portable segment h =
      let (e₁, h₁) = ensure-ok (not (length value == 0)) empty _ h in
      let (e₂, h₂) = ensure-ok (not (ltb 255 (length value))) segment_too_long _ h₁ in
      let (_, h₃) =
        ensure-ok (holds (bytes_discrete (unicode.nfc value) value)) non_normalized _ h₂ in
      let (e₄, h₄) = ensure-ok (not (is_unsafe value)) unsafe _ h₃ in
      let (dots, separators) = is_unsafe_parts value e₄ in
      let (_, _, made) = >>=-ok (if portable then check_portable unicode value else ok tt) _ h₄ in
      let member =
        list_contains-iff-In bytes_discrete value ((b'.' ∷ []) ∷ (b'.' ∷ b'.' ∷ []) ∷ []) in
      (
        ap PathSegment.content (ground arith),
        ground arith,
        ground arith,
        λ c m. ground (arith, any-In (λ c. c == 0 || c == b'/' || c == b'\\') c value separators m),
        λ e. ground (arith, member.1 (inl e)),
        λ e. ground (arith, member.1 (inr (inl e))),
      )

  -- The bytes that a path still takes after `n` bytes.
  abbrev rest_bytes : List PathSegment → List ℕ
  rest_bytes segments = flat_map (λ s. b'/' ∷ s.content) segments

  abbrev pub IsPortable : PathSegment → Type 0
  IsPortable segment = ensure_portable unicode segment ≡ ok tt

  -- One round that fits: after a first segment the separator counts.
  path_loop_fits :
      (n : ℕ) (s : PathSegment) (ss : List PathSegment)
      → n + (if n == 0 then 0 else 1) + length s.content ≤ 1023
      → IsPortable s
      → path_loop unicode n (s ∷ ss)
        ≡ path_loop unicode (n + (if n == 0 then 0 else 1) + length s.content) ss
  unfolding path_loop
  path_loop_fits n s ss f e = ground arith

  path_loop_exceeds :
      (n : ℕ) (s : PathSegment) (ss : List PathSegment)
      → 1023 < n + (if n == 0 then 0 else 1) + length s.content
      → path_loop unicode n (s ∷ ss) ≢ ok tt
  unfolding path_loop
  path_loop_exceeds n s ss f h = ground arith

  path_loop_refused :
      (n : ℕ) (s : PathSegment) (ss : List PathSegment) (x : PathError)
      → ensure_portable unicode s ≡ err x
      → path_loop unicode n (s ∷ ss) ≢ ok tt
  unfolding path_loop
  path_loop_refused n s ss x e h = ground arith

  path_loop_iff :
      (n : ℕ) (segments : List PathSegment)
      → 0 < n
      → n ≤ 1023
      → (path_loop unicode n segments ≡ ok tt)
        ↔ (All IsPortable segments × (n + length (rest_bytes segments) ≤ 1023))
  unfolding flat_map
  path_loop_iff n [] lo hi = unfold path_loop in ground arith
  path_loop_iff n (s ∷ ss) lo hi = elim (Result-cases (ensure_portable unicode s)) [
    | inr (x, e) ↦ ground (arith, path_loop_refused n s ss x e)
    | inl (u, e) ↦ elim (Bool-cases (leb (n + 1 + length s.content) 1023)) [
      | inl f ↦ ground (
        arith,
        path_loop_fits n s ss,
        path_loop_iff (n + 1 + length s.content) ss,
        length-append s.content (rest_bytes ss),
      )
      | inr f ↦ ground (arith, path_loop_exceeds n s ss, length-append s.content (rest_bytes ss))
    ]
  ]

  IsPortable-nonempty :
      (s : PathSegment) → IsPortable s → (0 < length s.content) × (length s.content ≤ 255)
  unfolding ensure_portable
  IsPortable-nonempty s h =
      let (segment, e, _) = >>=-ok (validate unicode s.content true) _ h in
      let (_, lo, hi, _, _, _) = validate_safe s.content true segment e in (lo, hi)

  path_iff :
      (segments : List PathSegment)
      → (path_loop unicode 0 segments ≡ ok tt)
        ↔ (All IsPortable segments × (length (materialized segments) ≤ 1023))
  path_iff [] = unfold path_loop in ground arith
  path_iff (s ∷ ss) = elim (Result-cases (ensure_portable unicode s)) [
    | inr (x, e) ↦ ground (arith, path_loop_refused 0 s ss x e)
    | inl (u, e) ↦
        let (lo, hi) = IsPortable-nonempty s e in
        ground (
          arith,
          path_loop_fits 0 s ss,
          path_loop_iff (length s.content) ss lo,
          length-append s.content (rest_bytes ss),
        )
  ]

  -- A path is accepted exactly if each of its segments is portable and all of them, with a slash
  -- between any two, take at most 1023 bytes. It is returned as it is.
  pub new_path_iff :
      (segments path : List PathSegment)
      → (new_path unicode segments ≡ ok path)
        ↔ ((path ≡ segments) × All IsPortable segments × (length (materialized segments) ≤ 1023))
  unfolding new_path
  new_path_iff segments path = elim (Result-cases (path_loop unicode 0 segments)) [
    | inr (x, e) ↦ ground (arith, path_iff segments)
    | inl (u, e) ↦ ground (arith, path_iff segments)
  ]
