-- ===== src/Base/Order.antt =====
-- The bound `K: Ord` of the source, with the laws that the trait asks of `cmp`.
use Prim.Native.Nat.{ℕ, compare, Ordering}
use Prim.Native.Nat.Ordering.{lt, eq, gt}
use mathlib.Core.Path.{◌≡◌, refl}
use mathlib.Core.Bool.{Bool, true, false}
use mathlib.Core.List.{List, [], ◌∷◌}
use mathlib.Core.Logic.{◌↔◌}
use native.Mathlib.Omega.{arith}

pub record Ord {ℓ} (K : Type ℓ) : Type ℓ where
  pub cmp : K → K → Ordering
  pub cmp_refl : (a : K) → cmp a a ≡ eq
  pub eq_of_cmp : (a b : K) → cmp a b ≡ eq → a ≡ b
  pub cmp_flip : (a b : K) → (cmp a b ≡ lt) ↔ (cmp b a ≡ gt)
  pub cmp_trans : (a b c : K) → cmp a b ≡ lt → cmp b c ≡ lt → cmp a c ≡ lt

pub compare_refl : (a : ℕ) → compare a a ≡ eq
compare_refl a = ground arith

pub eq_of_compare : (a b : ℕ) → compare a b ≡ eq → a ≡ b
eq_of_compare a b h = ground arith

pub compare-flip : (a b : ℕ) → (compare a b ≡ lt) ↔ (compare b a ≡ gt)
compare-flip a b = ground arith

pub compare_trans : (a b c : ℕ) → compare a b ≡ lt → compare b c ≡ lt → compare a c ≡ lt
compare_trans a b c h k = ground arith

instance abbrev pub nat_ord : Ord ℕ
nat_ord = record {
  cmp = compare;
  cmp_refl = compare_refl;
  eq_of_cmp = eq_of_compare;
  cmp_flip = compare-flip;
  cmp_trans = compare_trans;
}

module _ {ℓ} {K : Type ℓ} ⦃o : Ord K⦄ where
  -- The test `a == b` of the keys.
  abbrev pub same : K → K → Bool
  same a b = elim (o.cmp a b) [ eq ↦ true | _ ↦ false ]

  pub same_refl : (a : K) → same a a ≡ true
  same_refl a = ground (arith, o.cmp_refl a)

  pub eq_of_same : (a b : K) → same a b ≡ true → a ≡ b
  eq_of_same a b h = ground (arith, o.eq_of_cmp a b)

-- `Vec` and slices compare lexicographically.
module _ {ℓ} {K : Type ℓ} ⦃o : Ord K⦄ where
  abbrev pub lex : List K → List K → Ordering
  lex [] [] = eq
  lex [] (y ∷ ys) = lt
  lex (x ∷ xs) [] = gt
  lex (x ∷ xs) (y ∷ ys) = let rest = lex xs ys in elim (o.cmp x y) [ lt ↦ lt | eq ↦ rest | gt ↦ gt ]

  pub lex_refl : (xs : List K) → lex xs xs ≡ eq
  lex_refl [] = refl
  lex_refl (x ∷ xs) = ground (arith, o.cmp_refl x, lex_refl xs)

  pub eq_of_lex : (xs ys : List K) → lex xs ys ≡ eq → xs ≡ ys
  eq_of_lex [] [] h = refl
  eq_of_lex [] (y ∷ ys) h = cc
  eq_of_lex (x ∷ xs) [] h = cc
  eq_of_lex (x ∷ xs) (y ∷ ys) h = ground (arith, o.eq_of_cmp x y, eq_of_lex xs ys)

  pub lex-flip : (xs ys : List K) → (lex xs ys ≡ lt) ↔ (lex ys xs ≡ gt)
  lex-flip [] [] = ground arith
  lex-flip [] (y ∷ ys) = ground arith
  lex-flip (x ∷ xs) [] = ground arith
  lex-flip (x ∷ xs) (y ∷ ys) = ground (
    arith,
    o.cmp_flip x y,
    o.cmp_flip y x,
    o.cmp_refl x,
    o.eq_of_cmp x y,
    o.eq_of_cmp y x,
    lex-flip xs ys,
  )

  pub lex_trans : (xs ys zs : List K) → lex xs ys ≡ lt → lex ys zs ≡ lt → lex xs zs ≡ lt
  lex_trans [] [] zs h k = cc
  lex_trans [] (y ∷ ys) [] h k = cc
  lex_trans [] (y ∷ ys) (z ∷ zs) h k = refl
  lex_trans (x ∷ xs) [] zs h k = cc
  lex_trans (x ∷ xs) (y ∷ ys) [] h k = cc
  lex_trans (x ∷ xs) (y ∷ ys) (z ∷ zs) h k =
      ground (arith, o.cmp_trans x y z, o.eq_of_cmp x y, o.eq_of_cmp y z, lex_trans xs ys zs)

instance abbrev pub list_ord {ℓ} : {K : Type ℓ} ⦃o : Ord K⦄ → Ord (List K)
list_ord = record {
  cmp = lex;
  cmp_refl = lex_refl;
  eq_of_cmp = eq_of_lex;
  cmp_flip = lex-flip;
  cmp_trans = lex_trans;
}
