-- ===== src/Base/Map.antt =====
-- The standard library's ordered map, as far as the program uses it: an association list that
-- `insert` keeps in the order of its keys, so that iteration is in that order.
use Prim.Native.Nat.Ordering.{lt, eq, gt}
use mathlib.Core.Path.{◌≡◌, refl}
use mathlib.Core.Bool.{Bool, true, false}
use mathlib.Core.Option.{Option, none, some}
use mathlib.Core.List.{List, [], ◌∷◌}
use native.Mathlib.Omega.{arith}
use rethinking_git.Base.Tests.{if◌then◌else◌}
use rethinking_git.Base.Order.{Ord}
use rethinking_git.Base.Set
use rethinking_git.Base.Order.{same}
use rethinking_git.Base.Lists.{In}

abbrev pub Map {ℓ κ} : Type ℓ → Type κ → Type (ℓ ⊔ κ)
Map K V = List (K × V)

module _ {ℓ κ} {K : Type ℓ} {V : Type κ} where
  abbrev pub keys : Map K V → List K
  keys [] = []
  keys ((k, v) ∷ m) = k ∷ keys m

  abbrev pub values : Map K V → List V
  values [] = []
  values ((k, v) ∷ m) = v ∷ values m

module _ {ℓ κ} {K : Type ℓ} {V : Type κ} ⦃o : Ord K⦄ where
  unfoldable pub get : K → Map K V → Option V
  get k [] = none
  get k ((j, v) ∷ m) = if same k j then some v else get k m

  unfoldable pub insert : K → V → Map K V → Map K V
  insert k v [] = (k, v) ∷ []
  insert k v ((j, w) ∷ m) =
      let later = (j, w) ∷ insert k v m in
      elim (o.cmp k j) [ lt ↦ (k, v) ∷ (j, w) ∷ m | eq ↦ (k, v) ∷ m | gt ↦ later ]

  abbrev pub contains_key : K → Map K V → Bool
  contains_key k m = elim (get k m) [ none ↦ false | some _ ↦ true ]

  pub get-insert :
      (j k : K) (v : V) (m : Map K V)
      → get j (insert k v m) ≡ (if same j k then some v else get j m)
  unfolding get insert
  get-insert j k v [] = refl
  get-insert j k v ((i, w) ∷ m) =
      ground
        (arith, o.cmp_refl j, o.eq_of_cmp k i, o.eq_of_cmp j k, o.eq_of_cmp j i, get-insert j k v m)

  -- Every key of `m` is above `k`.
  abbrev pub Above : K → Map K V → Type 0
  Above k [] = Unit
  Above k ((j, v) ∷ m) = (o.cmp k j ≡ lt) × Above k m

  abbrev pub IsSorted : Map K V → Type 0
  IsSorted [] = Unit
  IsSorted ((k, v) ∷ m) = Above k m × IsSorted m

  pub Above-trans : (j k : K) (m : Map K V) → o.cmp j k ≡ lt → Above k m → Above j m
  Above-trans j k [] h a = tt
  Above-trans j k ((i, w) ∷ m) h a = (o.cmp_trans j k i h a.0, Above-trans j k m h a.1)

  Above-insert :
      (j k : K) (v : V) (m : Map K V) → o.cmp j k ≡ lt → Above j m → Above j (insert k v m)
  unfolding insert
  Above-insert j k v [] h a = (h, tt)
  Above-insert j k v ((i, w) ∷ m) h a = ground (arith, Above-insert j k v m h)

  pub insert-IsSorted : (k : K) (v : V) (m : Map K V) → IsSorted m → IsSorted (insert k v m)
  unfolding insert
  insert-IsSorted k v [] s = (tt, tt)
  insert-IsSorted k v ((i, w) ∷ m) s = ground (
    arith,
    o.cmp_flip i k,
    o.eq_of_cmp k i,
    Above-trans k i m,
    Above-insert i k v m,
    insert-IsSorted k v m,
  )

  pub get_of_Above : (k : K) (m : Map K V) → Above k m → get k m ≡ none
  unfolding get
  get_of_Above k [] a = refl
  get_of_Above k ((i, w) ∷ m) a = ground (arith, get_of_Above k m)

-- The keys as a set.
module _ {ℓ κ} {K : Type ℓ} {V : Type κ} ⦃o : Ord K⦄ where
  pub contains-keys : (k : K) (m : Map K V) → Set.contains k (keys m) ≡ contains_key k m
  unfolding get Set.contains
  contains-keys k [] = refl
  contains-keys k ((j, v) ∷ m) = ground (arith, contains-keys k m)

pub In-of_get :
    {K V : Type 0} ⦃o : Ord K⦄ (k : K) (v : V) (m : Map K V) → get k m ≡ some v → In (k, v) m
unfolding get
In-of_get k v [] h = cc
In-of_get ⦃o⦄ k v ((j, w) ∷ m) h = ground (arith, o.eq_of_cmp k j, In-of_get k v m)

pub Above-In :
    {K V : Type 0} ⦃o : Ord K⦄ (j k : K) (v : V) (m : Map K V)
    → Above j m
    → In (k, v) m
    → o.cmp j k ≡ lt
Above-In j k v [] a h = absurd h
Above-In j k v ((i, w) ∷ m) a h = ground (arith, Above-In j k v m)

pub get_of_In :
    {K V : Type 0} ⦃o : Ord K⦄ (k : K) (v : V) (m : Map K V)
    → IsSorted m
    → In (k, v) m
    → get k m ≡ some v
unfolding get
get_of_In k v [] s h = absurd h
get_of_In ⦃o⦄ k v ((j, w) ∷ m) s h = ground (
  arith,
  o.cmp_refl k,
  o.eq_of_cmp k j,
  o.cmp_flip j k,
  Above-In j k v m s.0,
  get_of_In k v m s.1,
)

pub key-found :
    {K V : Type 0} ⦃o : Ord K⦄ (k : K) (m : Map K V)
    → contains_key k m ≡ true
    → (v : V) × (get k m ≡ some v)
key-found k m h = found (get k m) h
  where
    found :
        {V : Type 0} (r : Option V)
        → elim r [ none ↦ false | some _ ↦ true ] ≡ true
        → (v : V) × (r ≡ some v)
    found none h = cc
    found (some v) h = (v, refl)
