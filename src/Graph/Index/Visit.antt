-- ===== src/Graph/Index/Visit.antt =====
-- One round of the loop of `build`, and the invariant of its state.
use rethinking_git.Base.{
  ℕ, suc, true, false, none, some, List, [], ◌∷◌, ◌++◌, ◌≡◌, refl, sym, ap, ◌||◌, ok, arith,
  if◌then◌else◌, inl, inr, ◌↔◌, ok_or, Option-cases, >>=-ok,
}
use rethinking_git.Base.Order.{Ord, same_refl, eq_of_same}
use rethinking_git.Base.Map
use rethinking_git.Base.Map.{Map, get-insert}
use rethinking_git.Base.Set
use rethinking_git.Graph.Index.{Progress, panicked, generations_of, next_generation}
use rethinking_git.Graph.Index.Counts.{missing}

module _ {K : Type 0} ⦃o : Ord K⦄ where
  -- What the checks before the loop establish of the parents `m` and the children `c`.
  pub record IsGraph (m c : Map K (List K)) : Type 0 where
    pub sorted : Map.IsSorted m
    pub sets : (n : K) (ps : List K) → Map.get n m ≡ some ps → Set.IsSorted ps
    pub closed :
        (n p : K) (ps : List K)
        → Map.get n m ≡ some ps
        → Set.contains p ps ≡ true
        → (qs : List K) × (Map.get p m ≡ some qs)
    pub below :
        (p : K) (qs : List K)
        → Map.get p m ≡ some qs
        → (cs : List K) × (Map.get p c ≡ some cs) × Set.IsSorted cs
    pub child :
        (p n : K) (cs : List K)
        → Map.get p c ≡ some cs
        → (Set.contains n cs ≡ true)
          ↔ ((ps : List K) × (Map.get n m ≡ some ps) × (Set.contains p ps ≡ true))

  -- Each node comes once, and after its parents.
  abbrev pub IsTopological : Map K (List K) → List K → List K → Type 0
  IsTopological m before [] = Unit
  IsTopological m before (n ∷ ns) =
      ((ps : List K) × (Map.get n m ≡ some ps)
        × ((p : K) → Set.contains p ps ≡ true → Set.contains p before ≡ true))
      × (Set.contains n before ≡ false)
      × IsTopological m (n ∷ before) ns

  unfoldable pub unvisited : Map K (List K) → Map K ℕ → ℕ
  unvisited [] generations = 0
  unvisited ((n, ps) ∷ m) generations =
      let rest = unvisited m generations in
      if Map.contains_key n generations then rest else suc rest

  pub record Inv (m : Map K (List K)) (s : Progress K) : Type 0 where
    pub counts :
        (n : K) (ps : List K)
        → Map.get n m ≡ some ps
        → Map.get n s.remaining_parents ≡ some (missing ps s.generations)
    pub sorted : Set.IsSorted s.ready
    pub is_ready :
        (n : K)
        → Set.contains n s.ready ≡ true
        → (ps : List K) × (Map.get n m ≡ some ps)
          × (Map.get n s.generations ≡ none)
          × (missing ps s.generations ≡ 0)
    pub readied :
        (n : K) (ps : List K)
        → Map.get n m ≡ some ps
        → Map.get n s.generations ≡ none
        → missing ps s.generations ≡ 0
        → Set.contains n s.ready ≡ true
    pub finished :
        (n : K) (g : ℕ)
        → Map.get n s.generations ≡ some g
        → (ps : List K) × (gs : List ℕ) × (Map.get n m ≡ some ps)
          × (generations_of ps s.generations ≡ ok gs)
          × (next_generation gs ≡ ok g)
    pub ordered : (n : K) → Set.contains n s.topological_order ≡ Map.contains_key n s.generations
    pub topological : IsTopological m [] s.topological_order

  pub generations_of-made :
      (ps : List K) (gens : Map K ℕ)
      → missing ps gens ≡ 0
      → (gs : List ℕ) × (generations_of ps gens ≡ ok gs)
  unfolding generations_of missing
  generations_of-made [] gens h = ([], refl)
  generations_of-made (p ∷ ps) gens h = elim (Option-cases (Map.get p gens)) [
    | inl n ↦ absurd (ground arith)
    | inr (g, e) ↦
        let (gs, e') = generations_of-made ps gens (ground arith) in (g ∷ gs, rw (e, e') refl)
  ]

  generations_of-cons :
      (p : K) (ps : List K) (gens : Map K ℕ) (gs : List ℕ)
      → generations_of (p ∷ ps) gens ≡ ok gs
      → (x : ℕ) × (Map.get p gens ≡ some x)
        × (rest : List ℕ) × (generations_of ps gens ≡ ok rest)
        × (gs ≡ x ∷ rest)
  unfolding generations_of
  generations_of-cons p ps gens gs h =
      let (x, e, h₁) = >>=-ok (ok_or (Map.get p gens) panicked) _ h in
      let (rest, e', h₂) = >>=-ok (generations_of ps gens) _ h₁ in
      (x, ground arith, rest, e', ground arith)

  pub generations_of-insert :
      (ps : List K) (node : K) (g : ℕ) (gens : Map K ℕ) (gs : List ℕ)
      → Map.get node gens ≡ none
      → generations_of ps gens ≡ ok gs
      → generations_of ps (Map.insert node g gens) ≡ ok gs
  unfolding generations_of
  generations_of-insert [] node g gens gs n h = h
  generations_of-insert (p ∷ ps) node g gens gs n h =
      let (x, e, rest, e', whole) = generations_of-cons p ps gens gs h in
      let apart : Map.get p (Map.insert node g gens) ≡ some x =
        ground (arith, get-insert p node g gens, eq_of_same p node) in
      rw (apart, generations_of-insert ps node g gens rest n e') (sym (ap ok whole))

  pub present_of_missing :
      (ps : List K) (gens : Map K ℕ) (p : K)
      → missing ps gens ≡ 0
      → Set.contains p ps ≡ true
      → Map.contains_key p gens ≡ true
  unfolding missing Set.contains
  present_of_missing [] gens p h c = cc
  present_of_missing (q ∷ ps) gens p h c =
      ground (arith, eq_of_same p q, present_of_missing ps gens p)

  pub missing_of_generations :
      (ps : List K) (gens : Map K ℕ) (gs : List ℕ)
      → generations_of ps gens ≡ ok gs
      → missing ps gens ≡ 0
  unfolding generations_of missing
  missing_of_generations [] gens gs h = refl
  missing_of_generations (p ∷ ps) gens gs h =
      let (x, e, rest, e', whole) = generations_of-cons p ps gens gs h in
      ground (arith, missing_of_generations ps gens rest e')

  unvisited-Above :
      (m : Map K (List K)) (node : K) (g : ℕ) (gens : Map K ℕ)
      → Map.Above node m
      → unvisited m (Map.insert node g gens) ≡ unvisited m gens
  unfolding unvisited
  unvisited-Above [] node g gens a = refl
  unvisited-Above ((n, ps) ∷ m) node g gens a = ground (
    arith,
    get-insert n node g gens,
    eq_of_same n node,
    o.cmp_refl n,
    unvisited-Above m node g gens,
  )

  pub unvisited-insert :
      (m : Map K (List K)) (node : K) (ps : List K) (g : ℕ) (gens : Map K ℕ)
      → Map.IsSorted m
      → Map.get node m ≡ some ps
      → Map.get node gens ≡ none
      → unvisited m gens ≡ suc (unvisited m (Map.insert node g gens))
  unfolding unvisited Map.get
  unvisited-insert [] node ps g gens s e n = cc
  unvisited-insert ((k, qs) ∷ m) node ps g gens s e n = ground (
    arith,
    get-insert k node g gens,
    eq_of_same node k,
    eq_of_same k node,
    same_refl k,
    unvisited-Above m k g gens s.0,
    unvisited-insert m node ps g gens s.1,
  )

  pub IsTopological-append :
      (m : Map K (List K)) (before ns : List K) (n : K) (ps : List K)
      → IsTopological m before ns
      → Map.get n m ≡ some ps
      → ((p : K) → Set.contains p ps ≡ true → (Set.contains p ns || Set.contains p before) ≡ true)
      → Set.contains n ns ≡ false
      → Set.contains n before ≡ false
      → IsTopological m before (ns ++ n ∷ [])
  unfolding Set.contains
  IsTopological-append m before [] n ps t e h a b = ((ps, e, λ p q. h p q), b, tt)
  IsTopological-append m before (k ∷ ns) n ps t e h a b = (
    t.0,
    t.1,
    IsTopological-append m (k ∷ before) ns n ps t.2 e (λ p q. ground (arith, h p q)) (ground arith)
        (ground arith),
  )
