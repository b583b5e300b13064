-- ===== src/Graph/Index/Built.antt =====
-- What a graph index holds when it is built.
use rethinking_git.Base.{
  ℕ, ◌+◌, ◌<◌, ◌≤◌, true, Option, none, some, List, [], ◌∷◌, ◌≡◌, ◌≢◌, refl, sym, subst, ap, ◌∙◌,
  ok, err, arith, Result, if◌then◌else◌, In, inl, inr, ◌⊎◌, ◌>>=◌, ok_or, length, ltb, Option-cases,
  Result-cases, >>=-ok,
}
use rethinking_git.Base.Order.{Ord, eq_of_same}
use rethinking_git.Base.Map
use rethinking_git.Base.Map.{Map, get-insert, key-found}
use rethinking_git.Graph.Index.{
  GraphNode, Progress, IndexedNode, GraphIndex, GraphError, generation_overflow, panicked, start,
  build_loop, generations_of, next_generation, greatest, index_nodes, conclude, build,
  collect_parents, check_parents, collect_children, no_children, cycle_members, blocked, cycle,
}
use rethinking_git.Graph.Index.Visit.{IsGraph, Inv, unvisited}
use rethinking_git.Graph.Index.Children.{checked-IsGraph}
use rethinking_git.Graph.Index.Loop.{Ended, overflowed, emptied, loop-Ended}

-- One above the greatest.
abbrev pub IsNext : List ℕ → ℕ → Type 0
IsNext gs g =
    ((x : ℕ) → In x gs → x < g) × ((gs ≡ []) × (g ≡ 0) ⊎ ((x : ℕ) × In x gs × (g ≡ x + 1)))

greatest-greatest :
    (best : ℕ) (gs : List ℕ)
    → (best ≤ greatest best gs)
      × ((x : ℕ) → In x gs → x ≤ greatest best gs)
      × ((greatest best gs ≡ best) ⊎ In (greatest best gs) gs)
unfolding greatest
greatest-greatest best [] = (omega arith, λ x m. absurd m, inl refl)
greatest-greatest best (g ∷ gs) =
    let (above, all, one) = greatest-greatest (if ltb best g then g else best) gs in
    (ground arith, λ x m. ground (arith, all x), ground arith)

pub next_generation-IsNext : (gs : List ℕ) (g : ℕ) → next_generation gs ≡ ok g → IsNext gs g
unfolding next_generation
next_generation-IsNext [] g h = (λ x m. absurd m, inl (refl, ground arith))
next_generation-IsNext (x ∷ gs) g h =
    let (above, all, one) = greatest-greatest x gs in
    (λ y m. ground (arith, all y), inr (greatest x gs, ground arith, ground arith))

zero_or : (n : ℕ) → (n ≡ 0) ⊎ (n ≢ 0)
zero_or n = ground arith

module _ {K : Type 0} ⦃o : Ord K⦄ where
  abbrev Lists : K → List K → Map K ℕ → List ℕ → Type 0
  Lists p ps gens gs =
      ((q : K) → In q (p ∷ ps) → (x : ℕ) × (Map.get q gens ≡ some x) × In x gs)
      × ((x : ℕ) → In x gs → (q : K) × In q (p ∷ ps) × (Map.get q gens ≡ some x))
      × ((gs ≡ []) → p ∷ ps ≡ [])

  pub generations_of-In :
      (ps : List K) (gens : Map K ℕ) (gs : List ℕ)
      → generations_of ps gens ≡ ok gs
      → ((p : K) → In p ps → (x : ℕ) × (Map.get p gens ≡ some x) × In x gs)
        × ((x : ℕ) → In x gs → (p : K) × In p ps × (Map.get p gens ≡ some x))
        × ((gs ≡ []) → ps ≡ [])
  unfolding generations_of
  generations_of-In [] gens gs h = (λ p m. absurd m, λ x m. absurd (ground arith), λ e. refl)
  generations_of-In (p ∷ ps) gens gs h =
      let (x, e, h₁) = >>=-ok (ok_or (Map.get p gens) panicked) _ h in
      let (rest, e', h₂) = >>=-ok (generations_of ps gens) _ h₁ in
      let (to, from, _) = generations_of-In ps gens rest e' in
      let whole : x ∷ rest ≡ gs = ground arith in
      subst (Lists p ps gens) whole (
        λ q i. elim i [
          | inl same_p ↦ (x, ap (λ k. Map.get k gens) same_p ∙ ground arith, inl refl)
          | inr i' ↦ let (y, f, n) = to q i' in (y, f, inr n)
        ],
        λ y i. elim i [
          | inl same_x ↦ (p, inl refl, ground arith)
          | inr i' ↦ let (q, n, f) = from y i' in (q, inr n, f)
        ],
        λ none_left. absurd (ground arith),
      )

  pub unvisited-zero :
      (m : Map K (List K)) (gens : Map K ℕ) (n : K) (ps : List K)
      → unvisited m gens ≡ 0
      → Map.get n m ≡ some ps
      → Map.contains_key n gens ≡ true
  unfolding unvisited Map.get
  unvisited-zero [] gens n ps z e = cc
  unvisited-zero ((k, qs) ∷ m) gens n ps z e =
      ground (arith, eq_of_same n k, unvisited-zero m gens n ps)

  abbrev pub indexed : Option (List K) → Option ℕ → Option (IndexedNode K)
  indexed (some ps) (some g) = some (record { parents = ps; generation = g })
  indexed _ _ = none

  index_nodes-made :
      (m : Map K (List K)) (gens : Map K ℕ)
      → unvisited m gens ≡ 0
      → (nodes : Map K (IndexedNode K)) × (index_nodes m gens ≡ ok nodes)
        × ((n : K) → Map.get n nodes ≡ indexed (Map.get n m) (Map.get n gens))
  unfolding index_nodes unvisited Map.get
  index_nodes-made [] gens z = ([], refl, λ n. refl)
  index_nodes-made ((k, ps) ∷ m) gens z = elim (Option-cases (Map.get k gens)) [
    | inl e ↦ absurd (ground arith)
    | inr (g, e) ↦
        let (nodes, made, at) = index_nodes-made m gens (ground arith) in
        (
          (k, record { parents = ps; generation = g }) ∷ nodes,
          rw (e, made) refl,
          λ n. ground (arith, at n, eq_of_same n k),
        )
  ]

  -- What the parts of `build` were when it succeeds.
  pub record Built (nodes : List (GraphNode K)) (index : GraphIndex K) : Type 0 where
    pub m : Map K (List K)
    pub c : Map K (List K)
    pub of_nodes : collect_parents nodes [] ≡ ok m
    pub graph : IsGraph m c
    pub t : Progress K
    pub inv : Inv m t
    pub all : unvisited m t.generations ≡ 0
    pub order : index.topological_order ≡ t.topological_order
    pub at : (n : K) → Map.get n index.nodes ≡ indexed (Map.get n m) (Map.get n t.generations)

  pub data Concluded (nodes : List (GraphNode K))
      : Result (GraphError K) (GraphIndex K) → Type 0 where
    refused : (e : GraphError K) → collect_parents nodes [] ≡ err e → Concluded nodes (err e)
    unknown :
        (e : GraphError K) (m : Map K (List K))
        → collect_parents nodes [] ≡ ok m
        → check_parents m m ≡ err e
        → Concluded nodes (err e)
    too_deep : (n : K) → Concluded nodes (err (generation_overflow n))
    cyclic :
        (m c : Map K (List K)) (t : Progress K)
        → collect_parents nodes [] ≡ ok m
        → IsGraph m c
        → Inv m t
        → t.ready ≡ []
        → unvisited m t.generations ≢ 0
        → Concluded nodes (
            cycle_members m (blocked t.remaining_parents) (blocked t.remaining_parents) >>= λ ms.
            err (cycle ms))
    succeeded : (index : GraphIndex K) → Built nodes index → Concluded nodes (ok index)

  abbrev finish :
      Map K (List K)
      → Map K (List K)
      → Result (GraphError K) (Progress K)
      → Result (GraphError K) (GraphIndex K)
  finish m c r = r >>= λ t. conclude m t

  conclude-all :
      (m : Map K (List K)) (t : Progress K)
      → length t.topological_order + unvisited m t.generations ≡ length m
      → unvisited m t.generations ≡ 0
      → conclude m t ≡ (
          index_nodes m t.generations >>= λ nodes.
          ok (record { nodes = nodes; topological_order = t.topological_order }))
  unfolding conclude
  conclude-all m t w z = ground arith

  conclude-rest :
      (m : Map K (List K)) (t : Progress K)
      → length t.topological_order + unvisited m t.generations ≡ length m
      → unvisited m t.generations ≢ 0
      → conclude m t ≡ (
          cycle_members m (blocked t.remaining_parents) (blocked t.remaining_parents) >>= λ ms.
          err (cycle ms))
  unfolding conclude
  conclude-rest m t w z = ground arith

  build-steps :
      (nodes : List (GraphNode K)) (m c : Map K (List K))
      → collect_parents nodes [] ≡ ok m
      → check_parents m m ≡ ok tt
      → collect_children m (no_children m) ≡ ok c
      → build nodes ≡ finish m c (build_loop (length m) m c (start m))
  unfolding build
  build-steps nodes m c h k made = rw (h, k, made) refl

  build-refused :
      (nodes : List (GraphNode K)) (e : GraphError K)
      → collect_parents nodes [] ≡ err e
      → build nodes ≡ err e
  unfolding build
  build-refused nodes e h = rw h refl

  build-unknown :
      (nodes : List (GraphNode K)) (m : Map K (List K)) (e : GraphError K)
      → collect_parents nodes [] ≡ ok m
      → check_parents m m ≡ err e
      → build nodes ≡ err e
  unfolding build
  build-unknown nodes m e h k = rw (h, k) refl

  concluded :
      (nodes : List (GraphNode K)) (m c : Map K (List K))
      → collect_parents nodes [] ≡ ok m
      → IsGraph m c
      → (r : Result (GraphError K) (Progress K)) → Ended m (length m) r
      → Concluded nodes (finish m c r)
  concluded nodes m c of_nodes graph r (overflowed n) = too_deep n
  concluded nodes m c of_nodes graph r (emptied t i e w) =
      elim (zero_or (unvisited m t.generations)) [
        | inl z ↦
            let (found, made, at) = index_nodes-made m t.generations z in
            subst (Concluded nodes)
              (sym (
                conclude-all m t w z
                ∙ ap
                    (λ x. x >>= λ ns.
                      ok (record { nodes = ns; topological_order = t.topological_order }))
                    made))
              (succeeded (record { nodes = found; topological_order = t.topological_order })
                (record {
                  m = m;
                  c = c;
                  of_nodes = of_nodes;
                  graph = graph;
                  t = t;
                  inv = i;
                  all = z;
                  order = refl;
                  at = at;
                }))
        | inr z ↦
            subst (Concluded nodes) (sym (conclude-rest m t w z))
              (cyclic m c t of_nodes graph i e z)
      ]

  pub build-Concluded : (nodes : List (GraphNode K)) → Concluded nodes (build nodes)
  build-Concluded nodes = elim (Result-cases (collect_parents nodes [])) [
    | inr (e, h) ↦ subst (Concluded nodes) (sym (build-refused nodes e h)) (refused e h)
    | inl (m, h) ↦ elim (Result-cases (check_parents m m)) [
      | inr (e, k) ↦ subst (Concluded nodes) (sym (build-unknown nodes m e h k)) (unknown e m h k)
      | inl (_, k) ↦
          let (c, made, graph) = checked-IsGraph nodes m h k in
          subst (Concluded nodes) (sym (build-steps nodes m c h k made)) (
            concluded nodes m c h graph (build_loop (length m) m c (start m))
              (loop-Ended m c graph))
    ]
  ]

  same_index :
      (a b : GraphIndex K) → ◌≡◌ {A = Result (GraphError K) (GraphIndex K)} (ok a) (ok b) → a ≡ b
  same_index a b h = cc

  Built-of :
      (nodes : List (GraphNode K)) (r : Result (GraphError K) (GraphIndex K)) (index : GraphIndex K)
      → Concluded nodes r
      → r ≡ ok index
      → Built nodes index
  Built-of nodes r index (refused e h) q = cc
  Built-of nodes r index (unknown e m h k) q = cc
  Built-of nodes r index (too_deep n) q = cc
  Built-of nodes r index (cyclic m c t h g i e z) q =
      let (ms, _, later) =
        >>=-ok (cycle_members m (blocked t.remaining_parents) (blocked t.remaining_parents)) _ q in
      absurd (ground arith)
  Built-of nodes r index (succeeded index' b) q = subst (Built nodes) (same_index index' index q) b

  pub build-Built :
      (nodes : List (GraphNode K)) (index : GraphIndex K)
      → build nodes ≡ ok index
      → Built nodes index
  build-Built nodes index h = Built-of nodes (build nodes) index (build-Concluded nodes) h
