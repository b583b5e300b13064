-- ===== src/Base.antt =====
-- The names that the modules share: the libraries' names passed on, Boolean tests, the
-- conditional, and lists measured by native numbers.
mod Tests
mod Lists
pub mod Order
pub mod Map
pub mod Set
unfoldable pub use Tests.*
unfoldable pub use Lists.*
pub use Prim.Native.Nat.{ℕ, zero, suc, ◌+◌, ◌-◌, ◌*◌, ◌/◌, ◌%◌, ◌^◌, ◌≤◌, ◌<◌, compare, Ordering}
pub use Prim.Native.Nat.Ordering.{lt, eq, gt}
pub use mathlib.Core.Path.{◌≡◌, refl, sym, ap, ap₂, ◌∙◌, subst}
pub use mathlib.Core.Logic.{◌≢◌, ◌↔◌, ◌⊎◌, inl, inr}
pub use mathlib.Core.Bool.{Bool, true, false, not, ◌&&◌, ◌||◌}
pub use mathlib.Core.Option.{Option, none, some}
pub use mathlib.Core.List.{List, [], ◌∷◌, ◌++◌, map, append-nil, append_assoc}
pub use native.Mathlib.Omega.{arith}

-- `contains` of a list, from a decision of equality.
pub list_contains-iff-In :
    {A : Type 0} (d : Discrete A) (a : A) (xs : List A) → (list_contains d a xs ≡ true) ↔ In a xs
unfolding list_contains
list_contains-iff-In d a [] = (λ h. cc, λ m. absurd m)
list_contains-iff-In d a (x ∷ xs) = ground (arith, holds_iff (d a x), list_contains-iff-In d a xs)
