-- ===== src/Graph/Index/Counts.antt =====
-- The counts of unfinished parents, and what releasing the children of a node does to them.
use rethinking_git.Base.{
  ℕ, suc, ◌-◌, Bool, false, Option, none, some, List, [], ◌∷◌, ◌≡◌, refl, ◌||◌, ◌&&◌, ok, arith,
  if◌then◌else◌, ◌==◌, In, inl, inr,
}
use rethinking_git.Base.Order.{Ord, same_refl, eq_of_same}
use rethinking_git.Base.Map
use rethinking_git.Base.Map.{Map, get-insert}
use rethinking_git.Base.Set
use rethinking_git.Graph.Index.{Progress, release, release_all}

abbrev pub lowered : Option ℕ → Option ℕ
lowered none = none
lowered (some count) = some (count - 1)

abbrev pub is_one : Option ℕ → Bool
is_one none = false
is_one (some count) = count == 1

module _ {K : Type 0} ⦃o : Ord K⦄ where
  -- How many of the nodes have no generation yet.
  unfoldable pub missing : List K → Map K ℕ → ℕ
  missing [] generations = 0
  missing (p ∷ ps) generations =
      let rest = missing ps generations in if Map.contains_key p generations then rest else suc rest

  -- A node counts at most once in a set of parents.
  pub missing-insert :
      (ps : List K) (node : K) (g : ℕ) (generations : Map K ℕ)
      → Set.IsSorted ps
      → Map.get node generations ≡ none
      → missing ps generations ≡ (
          if Set.contains node ps
          then suc (missing ps (Map.insert node g generations))
          else missing ps (Map.insert node g generations))
  unfolding missing Set.contains
  missing-insert [] node g gens s n = refl
  missing-insert (p ∷ ps) node g gens s n = ground (
    arith,
    get-insert p node g gens,
    eq_of_same p node,
    eq_of_same node p,
    same_refl p,
    Set.contains_of_Above p ps s.0,
    missing-insert ps node g gens s.1 n,
  )

  -- What `release_all` does: each child's count is lowered, and a child whose count was 1 is ready.
  pub record Released (children : List K) (s t : Progress K) : Type 0 where
    pub counts :
        (n : K)
        → Map.get n t.remaining_parents ≡ (
            if Set.contains n children
            then lowered (Map.get n s.remaining_parents)
            else Map.get n s.remaining_parents)
    pub ready :
        (n : K)
        → Set.contains n t.ready ≡ (
            Set.contains n s.ready
            || (Set.contains n children && is_one (Map.get n s.remaining_parents)))
    pub sorted : Set.IsSorted s.ready → Set.IsSorted t.ready
    pub generations : t.generations ≡ s.generations
    pub order : t.topological_order ≡ s.topological_order

  release-made :
      (child : K) (s : Progress K) (count : ℕ)
      → Map.get child s.remaining_parents ≡ some (suc count)
      → release child s
        ≡ ok (record s {
          remaining_parents = Map.insert child count s.remaining_parents;
          ready = if count == 0 then Set.insert child s.ready else s.ready;
        })
  unfolding release
  release-made child s count h = ground arith

  pub release_all-Released :
      (children : List K) (s : Progress K)
      → Set.IsSorted children
      → ((n : K) → In n children → (count : ℕ) × (Map.get n s.remaining_parents ≡ some (suc count)))
      → (t : Progress K) × (release_all children s ≡ ok t) × Released children s t
  unfolding release_all Set.contains
  release_all-Released [] s d h = (
    s,
    refl,
    record {
      counts = λ n. refl;
      ready = λ n. ground arith;
      sorted = λ x. x;
      generations = refl;
      order = refl;
    },
  )
  release_all-Released (child ∷ children) s d h =
      let (count, e) = h child (inl refl) in
      let s' = record s {
        remaining_parents = Map.insert child count s.remaining_parents;
        ready = if count == 0 then Set.insert child s.ready else s.ready;
      } in
      let fresh = Set.contains_of_Above child children d.0 in
      let (t, e', r) = release_all-Released children s' d.1 (λ n m.
        let (k, q) = h n (inr m) in
        (
          k,
          ground (
            arith,
            get-insert n child count s.remaining_parents,
            eq_of_same n child,
            fresh,
            (Set.contains-iff-In n children).1 m,
            q,
          ),
        )) in
      (
        t,
        rw (release-made child s count e) e',
        record {
          counts = λ n. ground (
            arith,
            r.counts n,
            get-insert n child count s.remaining_parents,
            fresh,
            e,
            eq_of_same n child,
          );
          ready = λ n. ground (
            arith,
            r.ready n,
            get-insert n child count s.remaining_parents,
            fresh,
            e,
            eq_of_same n child,
            Set.contains-insert n child s.ready,
          );
          sorted = λ x. r.sorted (ground (arith, Set.insert-IsSorted child s.ready x));
          generations = r.generations;
          order = r.order;
        },
      )
