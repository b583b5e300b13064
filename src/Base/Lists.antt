-- ===== src/Base/Lists.antt =====
-- Lists measured by native numbers, under the library's names.
use Prim.Native.Nat.{ℕ, zero, suc, ◌+◌}
use mathlib.Core.Path.{◌≡◌, refl, subst, sym}
use mathlib.Core.Bool.{Bool, true, false, ◌&&◌, ◌||◌}
use mathlib.Core.List.{List, [], ◌∷◌, ◌++◌, reverse, reverse_aux}
use mathlib.Core.Logic.{◌⊎◌, inl, inr, ◌↔◌}
use native.Mathlib.Omega.{arith}

module _ {ℓ} {A : Type ℓ} where
  abbrev pub length : List A → ℕ
  length [] = 0
  length (x ∷ xs) = suc (length xs)

  abbrev pub take : ℕ → List A → List A
  take zero xs = []
  take (suc n) [] = []
  take (suc n) (x ∷ xs) = x ∷ take n xs

  abbrev pub drop : ℕ → List A → List A
  drop zero xs = xs
  drop (suc n) [] = []
  drop (suc n) (x ∷ xs) = drop n xs

  abbrev pub concat : List (List A) → List A
  concat [] = []
  concat (xs ∷ xss) = xs ++ concat xss

  pub length-append : (xs ys : List A) → length (xs ++ ys) ≡ length xs + length ys
  length-append [] ys = omega arith
  length-append (x ∷ xs) ys = omega (arith, length-append xs ys)

module _ {ℓ} {A : Type ℓ} where
  abbrev pub All {κ} : (A → Type κ) → List A → Type κ
  All P [] = Unit {κ}
  All P (x ∷ xs) = P x × All P xs

  pub All-append_right {κ} : (P : A → Type κ) (xs ys : List A) → All P (xs ++ ys) → All P ys
  All-append_right P [] ys h = h
  All-append_right P (x ∷ xs) ys h = All-append_right P xs ys h.1

  abbrev pub all : (A → Bool) → List A → Bool
  all p [] = true
  all p (x ∷ xs) = p x && all p xs

  abbrev pub any : (A → Bool) → List A → Bool
  any p [] = false
  any p (x ∷ xs) = p x || any p xs

-- Membership by recursion: it computes to sums, which the tactics read.
abbrev pub In : {A : Type 0} → A → List A → Type 0
In a [] = ⊥
In a (x ∷ xs) = (a ≡ x) ⊎ In a xs

pub In-append : {A : Type 0} (a : A) (xs ys : List A) → In a (xs ++ ys) ↔ (In a xs ⊎ In a ys)
In-append a [] ys = (inr, λ s. ground arith)
In-append a (x ∷ xs) ys = ground (arith, In-append a xs ys)

unfoldable pub flat_map : {A B : Type 0} → (A → List B) → List A → List B
flat_map f [] = []
flat_map f (x ∷ xs) = f x ++ flat_map f xs

pub In-flat_map :
    {A B : Type 0} (f : A → List B) (b : B) (xs : List A)
    → In b (flat_map f xs) ↔ ((a : A) × In a xs × In b (f a))
unfolding flat_map
In-flat_map f b [] = (λ h. absurd h, λ h. absurd (h.1))
In-flat_map f b (x ∷ xs) = (
  λ h. elim ((In-append b (f x) (flat_map f xs)).0 h) [
    | inl now ↦ (x, inl refl, now)
    | inr later ↦ let (a, m, n) = (In-flat_map f b xs).0 later in (a, inr m, n)
  ],
  λ (a, m, n). (In-append b (f x) (flat_map f xs)).1 (elim m [
    | inl e ↦ inl (subst (λ t. In b (f t)) e n)
    | inr later ↦ inr ((In-flat_map f b xs).1 (a, later, n))
  ]),
)

In-reverse_aux :
    {A : Type 0} (a : A) (xs acc : List A) → In a (reverse_aux xs acc) ↔ (In a xs ⊎ In a acc)
In-reverse_aux a [] acc = ground arith
In-reverse_aux a (x ∷ xs) acc = ground (arith, In-reverse_aux a xs (x ∷ acc))

pub In-reverse : {A : Type 0} (a : A) (xs : List A) → In a (reverse xs) ↔ In a xs
In-reverse a xs = ground (arith, In-reverse_aux a xs [])

length-reverse_aux {ℓ} :
    {A : Type ℓ} (xs acc : List A) → length (reverse_aux xs acc) ≡ length xs + length acc
length-reverse_aux [] acc = omega arith
length-reverse_aux (x ∷ xs) acc = ground (arith, length-reverse_aux xs (x ∷ acc))

pub length-reverse {ℓ} : {A : Type ℓ} (xs : List A) → length (reverse xs) ≡ length xs
length-reverse xs = ground (arith, length-reverse_aux xs [])

-- No element twice.
abbrev pub Distinct : {A : Type 0} → List A → Type 0
Distinct [] = Unit
Distinct (x ∷ xs) = ¬ In x xs × Distinct xs

pub Distinct-snoc :
    {A : Type 0} (a : A) (xs : List A) → ¬ In a xs → Distinct xs → Distinct (xs ++ a ∷ [])
Distinct-snoc a [] n d = (λ m. m, tt)
Distinct-snoc a (x ∷ xs) n d = (
  λ m. elim ((In-append x xs (a ∷ [])).0 m) [
    | inl before ↦ d.0 before
    | inr last ↦ elim last [ inl e ↦ n (inl (sym e)) | inr none_left ↦ none_left ]
  ],
  Distinct-snoc a xs (λ m. n (inr m)) d.1,
)
