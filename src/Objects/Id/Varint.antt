-- ===== src/Objects/Id/Varint.antt =====
-- Varints: what `push_varint` writes `read_varint` reads, and it reads nothing else.
use rethinking_git.Base.{
  ℕ, zero, suc, ◌+◌, ◌*◌, ◌/◌, ◌%◌, ◌^◌, ◌<◌, ◌≡◌, ap, ◌∙◌, [], ◌∷◌, ◌==◌, if◌then◌else◌, arith,
}
use rethinking_git.Objects.Id.{push_varint_loop, push_varint}
use native.Mathlib.Numerals.{towards_suc}

push_varint_loop_fuel : (f g v : ℕ) → v < f → v < g → push_varint_loop f v ≡ push_varint_loop g v
unfolding push_varint_loop
push_varint_loop_fuel zero g v h k = absurd (omega arith)
push_varint_loop_fuel (suc f) zero v h k = absurd (omega arith)
push_varint_loop_fuel (suc f) (suc g) v h k = ground (arith, push_varint_loop_fuel f g (v / 128))

-- The fuel is always enough: `push_varint` meets the equation of the source's loop at every value.
pub push_varint_lem :
    (v : ℕ)
    → push_varint v
      ≡ (if v / 128 == 0 then v % 128 ∷ [] else (v % 128 + 128) ∷ push_varint (v / 128))
unfolding push_varint
push_varint_lem v = ground (arith, push_varint_loop_fuel v (suc (v / 128)) (v / 128))

pub push_varint_small : (v : ℕ) → v < 128 → push_varint v ≡ v ∷ []
push_varint_small v h = push_varint_lem v ∙ ground arith

pub push_varint_large :
    (v w : ℕ) → v < 128 → 0 < w → push_varint (v + 128 * w) ≡ (v + 128) ∷ push_varint w
push_varint_large v w h k =
    push_varint_lem (v + 128 * w)
    ∙ (let q : (v + 128 * w) / 128 ≡ w = omega arith in
        let r : (v + 128 * w) % 128 ≡ v = omega arith in rw (q, r) (ground arith))

shift_seven : (s : ℕ) → 2 ^ (s + 7) ≡ 128 * 2 ^ s
shift_seven s = simp towards_suc (omega arith)

-- The value above `shift`, its lowest group split off.
pub group_split : (v w s : ℕ) → (v + 128 * w) * 2 ^ s ≡ v * 2 ^ s + w * 2 ^ (s + 7)
group_split v w s = omega (arith, ap (λ (t : ℕ). w * t) (shift_seven s))
