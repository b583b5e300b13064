-- ===== src/Objects/Canonical/Head.antt =====
-- The head of an item: the major type and its argument, written and read back.
use rethinking_git.Base.{
  ℕ, ◌+◌, ◌*◌, ◌/◌, ◌%◌, ◌^◌, ◌≤◌, ◌<◌, ◌≡◌, ◌⊎◌, inl, inr, ◌∙◌, Bool, true, false, List, [], ◌∷◌,
  ◌++◌, length, length-append, leb, ◌==◌, if◌then◌else◌, Result, ok, ◌>>=◌, >>=-ok, arith,
  append_assoc, Bool-cases,
}
use rethinking_git.Objects.Canonical.{CanonicalLimits, CanonicalError}
use rethinking_git.Objects.Canonical.Encode.{be16, be32, be64, extend, push_head}
use rethinking_git.Objects.Canonical.Decode.{read_take, wide, argument, from_be_bytes}

wide-be16 :
    (v : ℕ) (rest : List ℕ) → 0xff < v → v ≤ 0xffff → wide 2 0xff (be16 v ++ rest) ≡ ok (v, rest)
unfolding wide read_take
wide-be16 v rest lo hi = let e : from_be_bytes 0 (be16 v) ≡ v = omega arith in ground (arith, e)

wide-be32 :
    (v : ℕ) (rest : List ℕ)
    → 0xffff < v
    → v ≤ 0xffff_ffff
    → wide 4 0xffff (be32 v ++ rest) ≡ ok (v, rest)
unfolding wide read_take
wide-be32 v rest lo hi = let e : from_be_bytes 0 (be32 v) ≡ v = omega arith in ground (arith, e)

wide-be64 :
    (v : ℕ) (rest : List ℕ)
    → 0xffff_ffff < v
    → v < 2 ^ 64
    → wide 8 0xffff_ffff (be64 v ++ rest) ≡ ok (v, rest)
unfolding wide read_take
wide-be64 v rest lo hi = let e : from_be_bytes 0 (be64 v) ≡ v = omega arith in ground (arith, e)

argument_tiny :
    (major value : ℕ) (rest : List ℕ)
    → value ≤ 23
    → argument ((major * 32 + value) % 32) rest ≡ ok (value, rest)
unfolding argument
argument_tiny major value rest h =
    let e : (major * 32 + value) % 32 ≡ value = omega arith in rw e (ground arith)

argument_24 :
    (major value : ℕ) (rest : List ℕ)
    → 23 < value
    → argument ((major * 32 + 24) % 32) (value ∷ rest) ≡ ok (value, rest)
unfolding argument
argument_24 major value rest h =
    let e : (major * 32 + 24) % 32 ≡ 24 = omega arith in rw e (ground arith)

-- The readers of the wider forms.
abbrev wide_form : ℕ → List ℕ → Result CanonicalError (ℕ × List ℕ)
wide_form additional input =
    if additional == 25
    then wide 2 0xff input
    else if additional == 26
    then wide 4 0xffff input
    else wide 8 0xffff_ffff input

argument_wide :
    (major additional : ℕ) (input : List ℕ)
    → 25 ≤ additional
    → additional ≤ 27
    → argument ((major * 32 + additional) % 32) input ≡ wide_form additional input
unfolding argument
argument_wide major additional input lo hi =
    let e : (major * 32 + additional) % 32 ≡ additional = omega arith in rw e (ground arith)

leb→le : (a b : ℕ) → leb a b ≡ true → a ≤ b
leb→le a b h = ground arith

leb→gt : (a b : ℕ) → leb a b ≡ false → b < a
leb→gt a b h = ground arith

-- What a writer appended, `initial ∷ more`, reads back as the argument `value`.
pub record Head (major value : ℕ) (out out' : List ℕ) : Type 0 where
  pub initial : ℕ
  pub more : List ℕ
  pub made : out' ≡ out ++ initial ∷ more
  pub major_kept : initial / 32 ≡ major
  pub reads : (rest : List ℕ) → argument (initial % 32) (more ++ rest) ≡ ok (value, rest)

module _ (is_nfc : List ℕ → Bool) (limits : CanonicalLimits) where
  pub extend-ok :
      (new out out' : List ℕ) → extend is_nfc limits new out ≡ ok out' → out' ≡ out ++ new
  unfolding extend
  extend-ok new out out' h = ground arith

  pub extend-bound :
      (new out out' : List ℕ)
      → extend is_nfc limits new out ≡ ok out'
      → length out' ≤ limits.max_bytes
  unfolding extend
  extend-bound new out out' h = ground (arith, length-append out new)

  extend_twice :
      (a : ℕ) (new out out' : List ℕ)
      → (extend is_nfc limits (a ∷ []) out >>= extend is_nfc limits new) ≡ ok out'
      → out' ≡ out ++ a ∷ new
  extend_twice a new out out' h =
      let (mid, e, r) = >>=-ok (extend is_nfc limits (a ∷ []) out) _ h in
      extend-ok new mid out' r ∙ rw (extend-ok (a ∷ []) out mid e) (append_assoc out (a ∷ []) new)

  -- The forms of a head.
  forms :
      (major value : ℕ) (out out' : List ℕ)
      → push_head is_nfc limits major value out ≡ ok out'
      → (value ≤ 23) × (out' ≡ out ++ (major * 32 + value) ∷ [])
        ⊎ (23 < value) × (value ≤ 0xff) × (out' ≡ out ++ (major * 32 + 24) ∷ value ∷ [])
        ⊎ (0xff < value) × (value ≤ 0xffff) × (out' ≡ out ++ (major * 32 + 25) ∷ be16 value)
        ⊎ (0xffff < value) × (value ≤ 0xffff_ffff) × (out' ≡ out ++ (major * 32 + 26) ∷ be32 value)
        ⊎ (0xffff_ffff < value) × (out' ≡ out ++ (major * 32 + 27) ∷ be64 value)
  unfolding push_head
  forms major value out out' h = elim (Bool-cases (leb value 23)) [
    | inl a ↦ inl (leb→le value 23 a, extend-ok ((major * 32 + value) ∷ []) out out' (rw a at h))
    | inr a ↦ elim (Bool-cases (leb value 0xff)) [
      | inl b ↦ inr (
          inl (
            leb→gt value 23 a,
            leb→le value 0xff b,
            extend-ok ((major * 32 + 24) ∷ value ∷ []) out out' (rw (a, b) at h),
          ))
      | inr b ↦ elim (Bool-cases (leb value 0xffff)) [
        | inl c ↦ inr (
            inr (
              inl (
                leb→gt value 0xff b,
                leb→le value 0xffff c,
                extend_twice (major * 32 + 25) (be16 value) out out' (rw (a, b, c) at h),
              )))
        | inr c ↦ elim (Bool-cases (leb value 0xffff_ffff)) [
          | inl d ↦ inr (
              inr (
                inr (
                  inl (
                    leb→gt value 0xffff c,
                    leb→le value 0xffff_ffff d,
                    extend_twice (major * 32 + 26) (be32 value) out out' (rw (a, b, c, d) at h),
                  ))))
          | inr d ↦ inr (
              inr (
                inr (
                  inr (
                    leb→gt value 0xffff_ffff d,
                    extend_twice (major * 32 + 27) (be64 value) out out' (rw (a, b, c, d) at h),
                  ))))
        ]
      ]
    ]
  ]

  -- Every head that is written reads back, whatever follows it.
  pub push_head-Head :
      (major value : ℕ) (out out' : List ℕ)
      → value < 2 ^ 64
      → push_head is_nfc limits major value out ≡ ok out'
      → Head major value out out'
  push_head-Head major value out out' small h = elim (forms major value out out' h) [
    | inl (a, e) ↦ record {
      initial = major * 32 + value;
      more = [];
      made = e;
      major_kept = omega arith;
      reads = λ rest. argument_tiny major value rest a;
    }
    | inr (inl (a, b, e)) ↦ record {
      initial = major * 32 + 24;
      more = value ∷ [];
      made = e;
      major_kept = omega arith;
      reads = λ rest. argument_24 major value rest a;
    }
    | inr (inr (inl (a, b, e))) ↦ record {
      initial = major * 32 + 25;
      more = be16 value;
      made = e;
      major_kept = omega arith;
      reads = λ rest.
          argument_wide major 25 (be16 value ++ rest) (omega arith) (omega arith)
          ∙ wide-be16 value rest a b;
    }
    | inr (inr (inr (inl (a, b, e)))) ↦ record {
      initial = major * 32 + 26;
      more = be32 value;
      made = e;
      major_kept = omega arith;
      reads = λ rest.
          argument_wide major 26 (be32 value ++ rest) (omega arith) (omega arith)
          ∙ wide-be32 value rest a b;
    }
    | inr (inr (inr (inr (a, e)))) ↦ record {
      initial = major * 32 + 27;
      more = be64 value;
      made = e;
      major_kept = omega arith;
      reads = λ rest.
          argument_wide major 27 (be64 value ++ rest) (omega arith) (omega arith)
          ∙ wide-be64 value rest a small;
    }
  ]
