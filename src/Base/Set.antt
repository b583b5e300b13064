-- ===== src/Base/Set.antt =====
-- The standard library's ordered set, as far as the program uses it: a list that `insert` keeps in
-- increasing order, without repetition.
use Prim.Native.Nat.Ordering.{lt, eq, gt}
use mathlib.Core.Path.{◌≡◌, refl, sym, subst, ap₂, ◌∙◌}
use mathlib.Core.Bool.{Bool, true, false, not, ◌||◌, ◌&&◌}
use mathlib.Core.Logic.{◌≢◌, inl, inr, ◌↔◌}
use mathlib.Core.List.{List, [], ◌∷◌, ◌++◌}
use native.Mathlib.Omega.{arith}
use rethinking_git.Base.Lists.{In}
use rethinking_git.Base.Tests.{if◌then◌else◌, Bool-cases}
use rethinking_git.Base.Order.{Ord}
use rethinking_git.Base.Order.{same, same_refl, eq_of_same}

module _ {ℓ} {K : Type ℓ} ⦃o : Ord K⦄ where
  unfoldable pub contains : K → List K → Bool
  contains k [] = false
  contains k (j ∷ s) = same k j || contains k s

  unfoldable pub insert : K → List K → List K
  insert k [] = k ∷ []
  insert k (j ∷ s) =
      let later = j ∷ insert k s in elim (o.cmp k j) [ lt ↦ k ∷ j ∷ s | eq ↦ k ∷ s | gt ↦ later ]

  unfoldable pub remove : K → List K → List K
  remove k [] = []
  remove k (j ∷ s) = let later = remove k s in if same k j then later else j ∷ later

  -- `collect::<BTreeSet<_>>()`.
  unfoldable pub from_list : List K → List K
  from_list [] = []
  from_list (k ∷ ks) = insert k (from_list ks)

  pub contains-insert :
      (j k : K) (s : List K) → contains j (insert k s) ≡ (same j k || contains j s)
  unfolding contains insert
  contains-insert j k [] = refl
  contains-insert j k (i ∷ s) = ground (
    arith,
    o.cmp_refl j,
    o.eq_of_cmp k i,
    o.eq_of_cmp j k,
    o.eq_of_cmp j i,
    contains-insert j k s,
  )

  pub contains-from_list : (j : K) (s : List K) → contains j (from_list s) ≡ contains j s
  unfolding contains from_list
  contains-from_list j [] = refl
  contains-from_list j (k ∷ s) =
      ground (arith, contains-insert j k (from_list s), contains-from_list j s)

  pub contains-append :
      (k : K) (s t : List K) → contains k (s ++ t) ≡ (contains k s || contains k t)
  unfolding contains
  contains-append k [] t = refl
  contains-append k (j ∷ s) t = ground (arith, contains-append k s t)

  -- Every element of `s` is above `k`.
  abbrev pub Above : K → List K → Type 0
  Above k [] = Unit
  Above k (j ∷ s) = (o.cmp k j ≡ lt) × Above k s

  abbrev pub IsSorted : List K → Type 0
  IsSorted [] = Unit
  IsSorted (k ∷ s) = Above k s × IsSorted s

  Above-trans : (j k : K) (s : List K) → o.cmp j k ≡ lt → Above k s → Above j s
  Above-trans j k [] h a = tt
  Above-trans j k (i ∷ s) h a = (o.cmp_trans j k i h a.0, Above-trans j k s h a.1)

  Above-insert : (j k : K) (s : List K) → o.cmp j k ≡ lt → Above j s → Above j (insert k s)
  unfolding insert
  Above-insert j k [] h a = (h, tt)
  Above-insert j k (i ∷ s) h a = ground (arith, Above-insert j k s h)

  pub insert-IsSorted : (k : K) (s : List K) → IsSorted s → IsSorted (insert k s)
  unfolding insert
  insert-IsSorted k [] h = (tt, tt)
  insert-IsSorted k (i ∷ s) h = ground (
    arith,
    o.cmp_flip i k,
    o.eq_of_cmp k i,
    Above-trans k i s,
    Above-insert i k s,
    insert-IsSorted k s,
  )

  pub from_list-IsSorted : (s : List K) → IsSorted (from_list s)
  unfolding from_list
  from_list-IsSorted [] = tt
  from_list-IsSorted (k ∷ s) = insert-IsSorted k (from_list s) (from_list-IsSorted s)

  pub contains_of_Above : (k : K) (s : List K) → Above k s → contains k s ≡ false
  unfolding contains
  contains_of_Above k [] a = refl
  contains_of_Above k (i ∷ s) a = ground (arith, contains_of_Above k s)

pub contains-iff-In : {K : Type 0} ⦃o : Ord K⦄ (k : K) (s : List K) → (contains k s ≡ true) ↔ In k s
unfolding contains
contains-iff-In k [] = (λ h. cc, λ h. absurd h)
contains-iff-In k (j ∷ s) = ground (arith, eq_of_same k j, same_refl k, contains-iff-In k s)

module _ {ℓ} {K : Type ℓ} ⦃o : Ord K⦄ where
  least-lt :
      (x y : K) (s t : List K)
      → IsSorted (y ∷ t)
      → ((k : K) → contains k (x ∷ s) ≡ contains k (y ∷ t))
      → o.cmp x y ≢ lt
  unfolding contains
  least-lt x y s t st h l =
      ground (arith, h x, o.cmp_refl x, Above-trans x y t l st.0, contains_of_Above x t)

  tails :
      (x : K) (s t : List K)
      → IsSorted (x ∷ s)
      → IsSorted (x ∷ t)
      → ((k : K) → contains k (x ∷ s) ≡ contains k (x ∷ t))
      → (k : K) → contains k s ≡ contains k t
  unfolding contains
  tails x s t ss st h k = elim (Bool-cases (same k x)) [
    | inl e ↦
        let e' = eq_of_same k x e in
        rw e' (contains_of_Above x s ss.0 ∙ sym (contains_of_Above x t st.0))
    | inr e ↦ ground (arith, h k)
  ]

  -- A set is determined by its elements.
  pub IsSorted-ext :
      (s t : List K) → IsSorted s → IsSorted t → ((k : K) → contains k s ≡ contains k t) → s ≡ t
  IsSorted-ext [] [] ss st h = refl
  IsSorted-ext [] (y ∷ t) ss st h = unfold contains in ground (arith, h y, o.cmp_refl y)
  IsSorted-ext (x ∷ s) [] ss st h = unfold contains in ground (arith, h x, o.cmp_refl x)
  IsSorted-ext (x ∷ s) (y ∷ t) ss st h =
      let below = least-lt x y s t st h in
      let above = least-lt y x t s ss (λ k. sym (h k)) in
      let e : x ≡ y = ground (arith, o.cmp_flip y x, o.eq_of_cmp x y) in
      let st' = subst (λ z. IsSorted (z ∷ t)) (sym e) st in
      let h' = subst (λ z. (k : K) → contains k (x ∷ s) ≡ contains k (z ∷ t)) (sym e) h in
      ap₂ (λ a b. a ∷ b) e (IsSorted-ext s t ss.1 st'.1 (tails x s t ss st' h'))

  pub from_list-append_comm : (s t : List K) → from_list (s ++ t) ≡ from_list (t ++ s)
  from_list-append_comm s t =
      IsSorted-ext (from_list (s ++ t)) (from_list (t ++ s)) (from_list-IsSorted (s ++ t))
        (from_list-IsSorted (t ++ s))
        λ k. ground (
          arith,
          contains-from_list k (s ++ t),
          contains-from_list k (t ++ s),
          contains-append k s t,
          contains-append k t s,
        )

  pub contains-remove :
      (j k : K) (s : List K) → contains j (remove k s) ≡ (not (same j k) && contains j s)
  unfolding contains remove
  contains-remove j k [] = ground arith
  contains-remove j k (i ∷ s) =
      ground
        (arith, eq_of_same k i, eq_of_same j k, eq_of_same j i, same_refl j, contains-remove j k s)

pub not_in_empty : {K : Type 0} ⦃o : Ord K⦄ (k : K) → contains k [] ≡ true → ⊥
unfolding contains
not_in_empty k h = cc
