-- ===== src/Objects/Id/RoundTrip.antt =====
-- Identifiers: reading back what was written, and the reader's strictness.
use rethinking_git.Base.{
  ℕ, zero, suc, ◌+◌, ◌*◌, ◌/◌, ◌%◌, ◌^◌, ◌≤◌, ◌<◌, ◌≡◌, ◌≢◌, refl, sym, subst, ap, ap₂, ◌∙◌, List,
  [], ◌∷◌, ◌++◌, length, All, ok, ltb, arith, Bool-cases, inl, inr, ◌⊎◌,
}
use native.Mathlib.Nat.{pow-suc}
use rethinking_git.Objects.Id.{push_varint, finish_varint, read_varint_loop, read_varint}
use rethinking_git.Objects.Id.Varint.{push_varint_small, push_varint_large, group_split}

-- A number is one group, or a group and more above it.
groups : (v : ℕ) → (v < 128) ⊎ ((a : ℕ) × (w : ℕ) × (a < 128) × (0 < w) × (v ≡ a + 128 * w))
groups v = elim (Bool-cases (ltb v 128)) [
  | inl h ↦ inl (ground arith)
  | inr h ↦ inr (v % 128, v / 128, omega arith, ground arith, omega arith)
]

last_group :
    (r shift acc taken b : ℕ) (rest : List ℕ)
    → b < 128
    → (shift ≡ 63 → b < 2)
    → read_varint_loop (suc r) shift acc taken (b ∷ rest)
      ≡ finish_varint (acc + b * 2 ^ shift) (taken + 1) rest
unfolding read_varint_loop
last_group r shift acc taken b rest h k =
    let m : b % 128 ≡ b = omega arith in
    let d : b / 128 ≡ 0 = omega arith in rw (m, d) (ground arith)

inner_group :
    (r shift acc taken b : ℕ) (rest : List ℕ)
    → b < 128
    → shift ≢ 63
    → read_varint_loop (suc r) shift acc taken ((b + 128) ∷ rest)
      ≡ read_varint_loop r (shift + 7) (acc + b * 2 ^ shift) (taken + 1) rest
unfolding read_varint_loop
inner_group r shift acc taken b rest h k =
    let m : (b + 128) % 128 ≡ b = omega arith in
    let d : (b + 128) / 128 ≡ 1 = omega arith in rw (m, d) (ground arith)

room : (r v w : ℕ) → 128 * w ≤ v → v < 2 * 128 ^ suc r → w < 2 * 128 ^ r
room r v w h k = omega (arith, pow-suc 128 r)

read_varint_loop-push_varint :
    (r shift acc taken v : ℕ) (rest : List ℕ)
    → shift + 7 * r ≡ 63
    → v < 2 * 128 ^ r
    → read_varint_loop (suc r) shift acc taken (push_varint v ++ rest)
      ≡ finish_varint (acc + v * 2 ^ shift) (taken + length (push_varint v)) rest
read_varint_loop-push_varint zero shift acc taken v rest hs hv =
    rw (push_varint_small v (omega arith))
      (last_group 0 shift acc taken v rest (omega arith) (λ e. omega arith))
read_varint_loop-push_varint (suc r) shift acc taken v rest hs hv = elim (groups v) [
  | inl small ↦
      rw (push_varint_small v small)
        (last_group (suc r) shift acc taken v rest small (λ e. absurd (omega arith)))
  | inr (a, w, ha, hw, e) ↦
      rw (e, push_varint_large a w ha hw)
        (inner_group (suc r) shift acc taken a (push_varint w ++ rest) ha (λ p. omega arith)
          ∙ read_varint_loop-push_varint r (shift + 7) (acc + a * 2 ^ shift) (taken + 1) w rest
              (omega arith) (room r v w (omega arith) hv)
          ∙ ap₂ (λ x t. finish_varint x t rest) (omega (arith, group_split a w shift))
              (omega arith))
]

-- Every u64 is read back from what was written, and what follows it is left alone.
pub read_varint-push_varint :
    (v : ℕ) (rest : List ℕ) → v < 2 ^ 64 → read_varint (push_varint v ++ rest) ≡ ok (v, rest)
unfolding read_varint finish_varint
read_varint-push_varint v rest h =
    read_varint_loop-push_varint 9 0 0 0 v rest refl (omega arith) ∙ ground arith

-- What the rounds of the reader take, `g`, stands for a number `w` above `shift`, and has the
-- least number of groups only if it is what `push_varint` writes.
record Groups (shift acc taken r : ℕ) (bytes rest : List ℕ) : Type 0 where
  g : List ℕ
  w : ℕ
  split : bytes ≡ g ++ rest
  value : r ≡ acc + w * 2 ^ shift
  count : taken + length g ≡ length (push_varint r)
  longer : length (push_varint w) ≤ length g
  minimal : length g ≡ length (push_varint w) → g ≡ push_varint w

finish_varint-ok :
    (x taken r : ℕ) (rest rest' : List ℕ)
    → finish_varint x taken rest ≡ ok (r, rest')
    → (x ≡ r) × (rest ≡ rest') × (length (push_varint x) ≡ taken)
unfolding finish_varint
finish_varint-ok x taken r rest rest' h = ground arith

-- One byte of the reader: it ends the number or goes on.
read_varint_loop-ok :
    (n shift acc taken r byte : ℕ) (bytes rest : List ℕ)
    → read_varint_loop (suc n) shift acc taken (byte ∷ bytes) ≡ ok (r, rest)
    → (byte < 128) × (finish_varint (acc + byte % 128 * 2 ^ shift) (taken + 1) bytes ≡ ok (r, rest))
      ⊎ (128 ≤ byte)
        × (read_varint_loop n (shift + 7) (acc + byte % 128 * 2 ^ shift) (taken + 1) bytes
            ≡ ok (r, rest))
unfolding read_varint_loop
read_varint_loop-ok n shift acc taken r byte bytes rest h = ground arith

one_group :
    (shift acc taken r b : ℕ) (bytes rest : List ℕ)
    → b < 128
    → (acc + b % 128 * 2 ^ shift ≡ r)
      × (bytes ≡ rest)
      × (length (push_varint (acc + b % 128 * 2 ^ shift)) ≡ taken + 1)
    → Groups shift acc taken r (b ∷ bytes) rest
one_group shift acc taken r b bytes rest h (e, er, el) =
    let m : b % 128 ≡ b = omega arith in
    let p = push_varint_small b h in
    record {
      g = b ∷ [];
      w = b;
      split = ap (λ t. b ∷ t) er;
      value = rw m at (sym e);
      count = rw (← e) (sym el);
      longer = rw p (omega arith);
      minimal = λ _. sym p;
    }

-- A group with the top bit set in front of the groups of `w`.
prepend :
    (b w : ℕ) (g : List ℕ)
    → 128 ≤ b
    → b < 256
    → length (push_varint w) ≤ length g
    → (length g ≡ length (push_varint w) → g ≡ push_varint w)
    → (length (push_varint (b % 128 + 128 * w)) ≤ suc (length g))
      × (suc (length g) ≡ length (push_varint (b % 128 + 128 * w))
          → b ∷ g ≡ push_varint (b % 128 + 128 * w))
prepend b zero g h k longer minimal =
    let e : b % 128 + 128 * 0 ≡ b % 128 = omega arith in
    let some_group : 1 ≤ length g = rw (push_varint_small 0 (omega arith)) at longer in
    rw (e, push_varint_small (b % 128) (omega arith)) (omega arith, λ c. absurd (omega arith))
prepend b (suc w) g h k longer minimal =
    let e : b % 128 + 128 ≡ b = omega arith in
    rw (push_varint_large (b % 128) (suc w) (omega arith) (omega arith), e)
      (omega arith, λ c. ap (λ t. b ∷ t) (minimal (omega arith)))

more-Groups :
    (shift acc taken r b : ℕ) (bytes rest : List ℕ)
    → 128 ≤ b
    → b < 256
    → Groups (shift + 7) (acc + b % 128 * 2 ^ shift) (taken + 1) r bytes rest
    → Groups shift acc taken r (b ∷ bytes) rest
more-Groups shift acc taken r b bytes rest h k s = record {
  g = b ∷ s.g;
  w = b % 128 + 128 * s.w;
  split = ap (λ t. b ∷ t) s.split;
  value = omega (arith, group_split (b % 128) s.w shift, s.value);
  count = omega (arith, s.count);
  longer = (prepend b s.w s.g h k s.longer s.minimal).0;
  minimal = (prepend b s.w s.g h k s.longer s.minimal).1;
}

read_varint_loop-Groups :
    (n shift acc taken r : ℕ) (bytes rest : List ℕ)
    → All (λ b. b < 256) bytes
    → read_varint_loop n shift acc taken bytes ≡ ok (r, rest)
    → Groups shift acc taken r bytes rest
read_varint_loop-Groups zero shift acc taken r bytes rest a h = unfold read_varint_loop in cc
read_varint_loop-Groups (suc n) shift acc taken r [] rest a h = unfold read_varint_loop in cc
read_varint_loop-Groups (suc n) shift acc taken r (b ∷ bytes) rest (hb, a) h =
    elim (read_varint_loop-ok n shift acc taken r b bytes rest h) [
      | inl (small, e) ↦
          one_group shift acc taken r b bytes rest small
            (finish_varint-ok (acc + b % 128 * 2 ^ shift) (taken + 1) r bytes rest e)
      | inr (large, e) ↦ more-Groups shift acc taken r b bytes rest large hb (
          read_varint_loop-Groups n (shift + 7) (acc + b % 128 * 2 ^ shift) (taken + 1) r bytes rest
            a e)
    ]

-- A varint that is read is, byte for byte, what `push_varint` writes for its value.
pub read_varint_canonical :
    (bytes rest : List ℕ) (r : ℕ)
    → All (λ b. b < 256) bytes
    → read_varint bytes ≡ ok (r, rest)
    → bytes ≡ push_varint r ++ rest
unfolding read_varint
read_varint_canonical bytes rest r a h =
    let s = read_varint_loop-Groups 10 0 0 0 r bytes rest a h in
    let e : r ≡ s.w = omega (arith, s.value) in
    let same_length : length s.g ≡ length (push_varint s.w) =
      subst (λ x. length s.g ≡ length (push_varint x)) e (omega (arith, s.count)) in
    s.split ∙ ap (λ t. t ++ rest) (s.minimal same_length ∙ ap push_varint (sym e))
