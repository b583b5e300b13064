-- ===== src/Objects/Fastcdc.antt =====
-- crates/rgit-objects/src/fastcdc.rs: the chunker of profile 0. `pending` is the chunk so far and
-- `rolling` the hash; u64 arithmetic wraps.
pub mod Boundaries
mod Runs
use Prim.Native.Nat.{bit_and, bit_xor}
use rethinking_git.Base.{
  ℕ, ◌+◌, ◌*◌, ◌/◌, ◌%◌, ◌^◌, ◌-◌, ◌||◌, Bool, List, [], ◌∷◌, ◌++◌, length, ltb, ◌==◌,
  if◌then◌else◌,
}

abbrev pub min_size : ℕ
min_size = 262144

abbrev pub target_size : ℕ
target_size = 1048576

abbrev pub max_size : ℕ
max_size = 4194304

abbrev pub gear_seed : ℕ
gear_seed = 0x7267_6974_6663_6463

abbrev pub early_mask : ℕ
early_mask = 2 ^ 21 - 1

abbrev pub late_mask : ℕ
late_mask = 2 ^ 19 - 1

pub fastcdc_v0_gear : ℕ → ℕ
fastcdc_v0_gear byte =
    let seeded = (gear_seed + (byte + 1) * 0x9e37_79b9_7f4a_7c15 % 2 ^ 64) % 2 ^ 64 in
    let first = bit_xor seeded (seeded / 2 ^ 30) * 0xbf58_476d_1ce4_e5b9 % 2 ^ 64 in
    let second = bit_xor first (first / 2 ^ 27) * 0x94d0_49bb_1331_11eb % 2 ^ 64 in
    bit_xor second (second / 2 ^ 31)

pub record FastCdcV0 : Type 0 where
  pub pending : List ℕ
  pub rolling : ℕ

abbrev pub new : FastCdcV0
new = record { pending = []; rolling = 0 }

-- `rotate_left(1)` on a u64
abbrev rotate_left : ℕ → ℕ
rotate_left x = x * 2 % 2 ^ 64 + x / 2 ^ 63

-- The rolling hash after a byte.
pub roll : ℕ → ℕ → ℕ
roll rolling byte = (rotate_left rolling + fastcdc_v0_gear byte) % 2 ^ 64

-- The end of a chunk: the hash under the mask for the length, or the greatest length.
pub cuts : ℕ → ℕ → Bool
cuts len rolling =
    bit_and rolling (if ltb len target_size then early_mask else late_mask) == 0 || len == max_size

-- One byte of the loop in `push`: the new state, and the chunk that the byte completes.
pub push_byte : FastCdcV0 → ℕ → FastCdcV0 × List (List ℕ)
push_byte c byte =
    let pending = c.pending ++ byte ∷ [] in
    let len = length pending in
    let rolling = roll c.rolling byte in
    if ltb len min_size
    then (record c { pending = pending }, [])
    else if cuts len rolling
    then (new, pending ∷ [])
    else (record { pending = pending; rolling = rolling }, [])

pub push : FastCdcV0 → List ℕ → FastCdcV0 × List (List ℕ)
push c [] = (c, [])
push c (byte ∷ input) =
    let (c', completed) = push_byte c byte in
    let (c'', later) = push c' input in (c'', completed ++ later)

pub finish : FastCdcV0 → List (List ℕ)
finish c = elim c.pending [ [] ↦ [] | b ∷ bs ↦ (b ∷ bs) ∷ [] ]

pub fastcdc_v0_chunks : List ℕ → List (List ℕ)
fastcdc_v0_chunks bytes = let (c, chunks) = push new bytes in chunks ++ finish c
