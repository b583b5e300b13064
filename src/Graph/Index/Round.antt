-- ===== src/Graph/Index/Round.antt =====
-- A round of the loop of `build` keeps the invariant.
use rethinking_git.Base.{
  ℕ, suc, true, false, none, some, List, [], ◌∷◌, ◌++◌, ◌≡◌, refl, sym, subst, ap, ◌∙◌, ◌||◌, ok,
  err, arith, if◌then◌else◌, In, inl, inr, ◌⊎◌, length, length-append, Bool-cases, Option-cases,
  Result-cases,
}
use rethinking_git.Base.Order.{Ord, same, same_refl, eq_of_same}
use rethinking_git.Base.Map
use rethinking_git.Base.Map.{Map, get-insert}
use rethinking_git.Base.Set
use rethinking_git.Graph.Index.{
  Progress, generation_overflow, overflow, generations_of, next_generation, as_overflow, visit,
  release_all,
}
use rethinking_git.Graph.Index.Counts.{missing, missing-insert, Released, release_all-Released}
use rethinking_git.Graph.Index.Visit.{
  IsGraph, IsTopological, unvisited, Inv, generations_of-made, generations_of-insert,
  present_of_missing, missing_of_generations, unvisited-insert, IsTopological-append,
}

module _ {K : Type 0} ⦃o : Ord K⦄ (m c : Map K (List K)) (graph : IsGraph m c) where
  -- The state of a round before the children are released.
  abbrev visited : K → ℕ → List K → Progress K → Progress K
  visited node g rest s = record s {
    ready = rest;
    generations = Map.insert node g s.generations;
    topological_order = s.topological_order ++ node ∷ [];
  }

  -- The node that a round takes.
  pub record Taken (s : Progress K) (node : K) : Type 0 where
    pub ps : List K
    pub parents : Map.get node m ≡ some ps
    pub new : Map.get node s.generations ≡ none
    pub free : missing ps s.generations ≡ 0
    pub gs : List ℕ
    pub of_gs : generations_of ps s.generations ≡ ok gs
    pub cs : List K
    pub children : Map.get node c ≡ some cs
    pub cs_sorted : Set.IsSorted cs

  taken :
      (s : Progress K) (node : K) (rest : List K) → Inv m s → s.ready ≡ node ∷ rest → Taken s node
  unfolding Set.contains
  taken s node rest i e =
      let here : Set.contains node s.ready ≡ true = ground (arith, e, same_refl node) in
      let (ps, parents, new, free) = i.is_ready node here in
      let (gs, of_gs) = generations_of-made ps s.generations free in
      let (cs, children, cs_sorted) = graph.below node ps parents in
      record {
        ps = ps;
        parents = parents;
        new = new;
        free = free;
        gs = gs;
        of_gs = of_gs;
        cs = cs;
        children = children;
        cs_sorted = cs_sorted;
      }

  count_before :
      (s : Progress K) (node n : K) (g : ℕ) (qs : List K) (cs : List K)
      → Inv m s
      → Map.get node s.generations ≡ none
      → Map.get node c ≡ some cs
      → Map.get n m ≡ some qs
      → missing qs s.generations ≡ (
          if Set.contains n cs
          then suc (missing qs (Map.insert node g s.generations))
          else missing qs (Map.insert node g s.generations))
  count_before s node n g qs cs i new e q = ground (
    arith,
    missing-insert qs node g s.generations (graph.sets n qs q) new,
    graph.child node n cs e,
  )

  module _ (s : Progress K) (node : K) (rest : List K) (i : Inv m s)
      (e : s.ready ≡ node ∷ rest) where
    apart_rest : Set.contains node rest ≡ false
    apart_rest = Set.contains_of_Above node rest (subst Set.IsSorted e i.sorted).0

    ready_split : (n : K) → Set.contains n s.ready ≡ (same n node || Set.contains n rest)
    unfolding Set.contains
    ready_split n = ap (Set.contains n) e

    module _ (k : Taken s node) (g : ℕ) (of_g : next_generation k.gs ≡ ok g) (t : Progress K)
        (r : Released k.cs (visited node g rest s) t) where
      step :
          (n : K) (qs : List K)
          → Map.get n m ≡ some qs
          → missing qs s.generations ≡ (
              if Set.contains n k.cs
              then suc (missing qs t.generations)
              else missing qs t.generations)
      step n qs q =
          subst
            (λ gens.
              missing qs s.generations
              ≡ (if Set.contains n k.cs then suc (missing qs gens) else missing qs gens))
            (sym r.generations) (count_before s node n g qs k.cs i k.new k.children q)

      gens_at :
          (n : K)
          → Map.get n t.generations ≡ (if same n node then some g else Map.get n s.generations)
      gens_at n = ap (Map.get n) r.generations ∙ get-insert n node g s.generations

      unfinished :
          (n : K) (qs : List K) (x : ℕ)
          → Map.get n m ≡ some qs
          → missing qs s.generations ≡ suc x
          → Map.get n s.generations ≡ none
      unfinished n qs x q h = elim (Option-cases (Map.get n s.generations)) [
        | inl new ↦ new
        | inr (g', e') ↦
            let (qs', gs, q', of_gs, _) = i.finished n g' e' in
            absurd (ground (arith, missing_of_generations qs' s.generations gs of_gs))
      ]

      kept :
          (qs : List K) (gs : List ℕ)
          → generations_of qs s.generations ≡ ok gs
          → generations_of qs t.generations ≡ ok gs
      kept qs gs h =
          subst (λ gens. generations_of qs gens ≡ ok gs) (sym r.generations)
            (generations_of-insert qs node g s.generations gs k.new h)

      counts :
          (n : K) (qs : List K)
          → Map.get n m ≡ some qs
          → Map.get n t.remaining_parents ≡ some (missing qs t.generations)
      counts n qs q = ground (arith, r.counts n, i.counts n qs q, step n qs q)

      is_ready :
          (n : K)
          → Set.contains n t.ready ≡ true
          → (ps : List K) × (Map.get n m ≡ some ps)
            × (Map.get n t.generations ≡ none)
            × (missing ps t.generations ≡ 0)
      is_ready n h = elim (Bool-cases (Set.contains n rest)) [
        | inl old ↦
            let (qs, q, new, free) = i.is_ready n (ground (arith, ready_split n)) in
            (
              qs,
              q,
              ground (arith, gens_at n, eq_of_same n node, apart_rest),
              ground (arith, step n qs q),
            )
        | inr fresh ↦
            let (qs, q, parent) =
              (graph.child node n k.cs k.children).0 (ground (arith, r.ready n)) in
            let one : missing qs s.generations ≡ suc 0 =
              ground (arith, r.ready n, i.counts n qs q) in
            let new = unfinished n qs 0 q one in
            (
              qs,
              q,
              ground (arith, gens_at n, eq_of_same n node, k.parents, k.free),
              ground (arith, step n qs q, (graph.child node n k.cs k.children).1 (qs, q, parent)),
            )
      ]

      readied :
          (n : K) (qs : List K)
          → Map.get n m ≡ some qs
          → Map.get n t.generations ≡ none
          → missing qs t.generations ≡ 0
          → Set.contains n t.ready ≡ true
      readied n qs q new free = ground (
        arith,
        r.ready n,
        gens_at n,
        step n qs q,
        i.counts n qs q,
        i.readied n qs q,
        ready_split n,
      )

      finished :
          (n : K) (g' : ℕ)
          → Map.get n t.generations ≡ some g'
          → (ps : List K) × (gs : List ℕ) × (Map.get n m ≡ some ps)
            × (generations_of ps t.generations ≡ ok gs)
            × (next_generation gs ≡ ok g')
      finished n g' h = elim (Bool-cases (same n node)) [
        | inl y ↦ (
          k.ps,
          k.gs,
          ap (λ x. Map.get x m) (eq_of_same n node y) ∙ k.parents,
          kept k.ps k.gs k.of_gs,
          of_g ∙ ap ok (ground (arith, gens_at n)),
        )
        | inr x ↦
            let (qs, gs, q, of_gs, next) = i.finished n g' (ground (arith, gens_at n)) in
            (qs, gs, q, kept qs gs of_gs, next)
      ]

      ordered : (n : K) → Set.contains n t.topological_order ≡ Map.contains_key n t.generations
      unfolding Set.contains
      ordered n = ground (
        arith,
        ap (Set.contains n) r.order,
        Set.contains-append n s.topological_order (node ∷ []),
        i.ordered n,
        gens_at n,
      )

      topological : IsTopological m [] t.topological_order
      unfolding Set.contains
      topological = subst (IsTopological m []) (sym r.order) (
          IsTopological-append m [] s.topological_order node k.ps i.topological k.parents
            (λ p h. ground (arith, i.ordered p, present_of_missing k.ps s.generations p k.free h))
            (ground (arith, i.ordered node, k.new)) refl)

      round-Inv : Inv m t
      round-Inv = record {
        counts = counts;
        sorted = r.sorted (subst Set.IsSorted e i.sorted).1;
        is_ready = is_ready;
        readied = readied;
        finished = finished;
        ordered = ordered;
        topological = topological;
      }

  positive :
      (s : Progress K) (node : K) (rest : List K) (i : Inv m s) (e : s.ready ≡ node ∷ rest)
      (k : Taken s node) (n : K)
      → In n k.cs
      → (count : ℕ) × (Map.get n s.remaining_parents ≡ some (suc count))
  positive s node rest i e k n h =
      let inside = (Set.contains-iff-In n k.cs).1 h in
      let (qs, q, parent) = (graph.child node n k.cs k.children).0 inside in
      (
        missing qs (Map.insert node 0 s.generations),
        ground (arith, i.counts n qs q, count_before s node n 0 qs k.cs i k.new k.children q),
      )

  visit-made :
      (s : Progress K) (node : K) (rest : List K) (k : Taken s node) (g : ℕ)
      → next_generation k.gs ≡ ok g
      → visit m c node rest s ≡ release_all k.cs (visited node g rest s)
  unfolding visit
  visit-made s node rest k g n = rw (k.parents, k.of_gs, n, k.children, as_overflow) refl

  pub visit-Inv :
      (s : Progress K) (node : K) (rest : List K)
      → Inv m s
      → s.ready ≡ node ∷ rest
      → (visit m c node rest s ≡ err (generation_overflow node))
        ⊎ ((t : Progress K) × (visit m c node rest s ≡ ok t)
            × Inv m t
            × (unvisited m s.generations ≡ suc (unvisited m t.generations))
            × (length t.topological_order ≡ suc (length s.topological_order)))
  unfolding visit
  visit-Inv s node rest i e =
      let k = taken s node rest i e in
      elim (Result-cases (next_generation k.gs)) [
        | inr (overflow, n) ↦ inl (rw (k.parents, k.of_gs, n, as_overflow) refl)
        | inl (g, n) ↦
            let s' = visited node g rest s in
            let (t, made, r) =
              release_all-Released k.cs s' k.cs_sorted (positive s node rest i e k) in
            let un = unvisited-insert m node k.ps g s.generations graph.sorted k.parents k.new in
            inr (
              t,
              visit-made s node rest k g n ∙ made,
              round-Inv s node rest i e k g n t r,
              un ∙ ap (λ gens. suc (unvisited m gens)) (sym r.generations),
              ground (arith, ap length r.order, length-append s.topological_order (node ∷ [])),
            )
      ]
