-- ===== src/Graph/Index/Order.antt =====
-- The order and the generations of a graph index.
use rethinking_git.Base.{
  ℕ, ◌+◌, ◌<◌, true, false, some, List, [], ◌∷◌, ◌++◌, ◌≡◌, refl, sym, subst, ◌∙◌, ok, arith, In,
  inl, inr, ◌⊎◌, ◌↔◌, ◌||◌, Option-cases, Bool-cases,
}
use rethinking_git.Base.Order.{Ord, same, same_refl, eq_of_same}
use rethinking_git.Base.Map
use rethinking_git.Base.Map.{Map, get-insert, key-found}
use rethinking_git.Base.Set
use rethinking_git.Graph.Index.{GraphNode, IndexedNode, GraphIndex, collect_parents, build}
use rethinking_git.Graph.Index.Visit.{IsTopological}
use rethinking_git.Graph.Index.Built.{
  Built, build-Built, generations_of-In, next_generation-IsNext, unvisited-zero,
}

module _ {K : Type 0} ⦃o : Ord K⦄ where
  -- A node of the index, in terms of the loop's end.
  pub record Node (nodes : List (GraphNode K)) (index : GraphIndex K) (b : Built nodes index)
      (n : K) (x : IndexedNode K) : Type 0 where
    pub of_parents : Map.get n b.m ≡ some x.parents
    pub of_generation : Map.get n b.t.generations ≡ some x.generation

  pub Node-of :
      (nodes : List (GraphNode K)) (index : GraphIndex K) (b : Built nodes index) (n : K)
      (x : IndexedNode K)
      → Map.get n index.nodes ≡ some x
      → Node nodes index b n x
  Node-of nodes index b n x h = elim (Option-cases (Map.get n b.m)) [
    | inl e ↦ absurd (ground (arith, b.at n))
    | inr (ps, e) ↦ elim (Option-cases (Map.get n b.t.generations)) [
      | inl e' ↦ absurd (ground (arith, b.at n))
      | inr (g, e') ↦ record {
        of_parents = ground (arith, b.at n);
        of_generation = ground (arith, b.at n);
      }
    ]
  ]

  pub parent-In :
      (nodes : List (GraphNode K)) (index : GraphIndex K) (b : Built nodes index) (n p : K)
      (x : IndexedNode K) (g : ℕ)
      → Map.get n index.nodes ≡ some x
      → In p x.parents
      → Map.get p b.t.generations ≡ some g
      → (y : IndexedNode K) × (Map.get p index.nodes ≡ some y) × (y.generation ≡ g)
  parent-In nodes index b n p x g h m e =
      let at_n = Node-of nodes index b n x h in
      let (qs, q) =
        b.graph.closed n p x.parents at_n.of_parents ((Set.contains-iff-In p x.parents).1 m) in
      (record { parents = qs; generation = g }, ground (arith, b.at p), refl)

  -- A node of an index has a generation above those of its parents, which are nodes of the index: 0
  -- without parents, and otherwise one more than that of some parent.
  pub build_generations :
      (nodes : List (GraphNode K)) (index : GraphIndex K) (n : K) (x : IndexedNode K)
      → build nodes ≡ ok index
      → Map.get n index.nodes ≡ some x
      → ((p : K)
          → In p x.parents
          → (y : IndexedNode K) × (Map.get p index.nodes ≡ some y) × (y.generation < x.generation))
        × ((x.parents ≡ []) × (x.generation ≡ 0)
            ⊎ ((p : K) × (y : IndexedNode K) × In p x.parents
                × (Map.get p index.nodes ≡ some y)
                × (x.generation ≡ y.generation + 1)))
  build_generations nodes index n x h e =
      let b = build-Built nodes index h in
      let at_n = Node-of nodes index b n x e in
      let (ps, gs, of_ps, of_gs, next) = b.inv.finished n x.generation at_n.of_generation in
      let same_ps : ps ≡ x.parents = ground (arith, at_n.of_parents) in
      let (to, from, empty) = generations_of-In ps b.t.generations gs of_gs in
      let (below, last) = next_generation-IsNext gs x.generation next in
      (
        λ p m.
            let (g, of_g, k) = to p (subst (In p) (sym same_ps) m) in
            let (y, of_y, same_g) = parent-In nodes index b n p x g e m of_g in
            (y, of_y, ground (arith, below g k)),
        elim last [
          | inl (none_left, z) ↦ inl (sym same_ps ∙ empty none_left, z)
          | inr (g, k, one) ↦
              let (p, m, of_g) = from g k in
              let m' = subst (In p) same_ps m in
              let (y, of_y, same_g) = parent-In nodes index b n p x g e m' of_g in
              inr (p, y, m', of_y, ground arith)
        ],
      )

  IsTopological-split :
      (m : Map K (List K)) (seen before after : List K) (n : K)
      → IsTopological m seen (before ++ n ∷ after)
      → ((ps : List K) × (Map.get n m ≡ some ps)
          × ((p : K)
              → Set.contains p ps ≡ true
              → (Set.contains p seen || Set.contains p before) ≡ true))
        × ((Set.contains n seen || Set.contains n before) ≡ false)
  unfolding Set.contains
  IsTopological-split m seen [] after n t =
      let ((ps, e, h), fresh, _) = t in ((ps, e, λ p c. ground (arith, h p c)), ground arith)
  IsTopological-split m seen (k ∷ before) after n t =
      let ((ps, e, h), fresh) = IsTopological-split m (k ∷ seen) before after n t.2 in
      ((ps, e, λ p c. ground (arith, h p c)), ground arith)

  nothing_before :
      (p : K) (before : List K)
      → Set.contains p before ≡ (Set.contains p [] || Set.contains p before)
  unfolding Set.contains
  nothing_before p before = refl

  In-from_list : (p : K) (ps : List K) → In p (Set.from_list ps) ↔ In p ps
  In-from_list p ps = ground (
    arith,
    Set.contains-iff-In p ps,
    Set.contains-iff-In p (Set.from_list ps),
    Set.contains-from_list p ps,
  )

  nothing_known : (n : K) (ps : List K) → Map.get n [] ≡ some ps → ⊥
  unfolding Map.get
  nothing_known n ps h = cc

  collect_parents-kept :
      (nodes : List (GraphNode K)) (m m' : Map K (List K)) (n : K) (ps : List K)
      → collect_parents nodes m ≡ ok m'
      → Map.get n m ≡ some ps
      → Map.get n m' ≡ some ps
  unfolding collect_parents
  collect_parents-kept [] m m' n ps h e = ground arith
  collect_parents-kept (node ∷ nodes) m m' n ps h e = ground (
    arith,
    eq_of_same n node.id,
    get-insert n node.id (Set.from_list node.parents) m,
    collect_parents-kept nodes (Map.insert node.id (Set.from_list node.parents) m) m' n ps,
  )

  collect_parents-In :
      (nodes : List (GraphNode K)) (m m' : Map K (List K)) (node : GraphNode K)
      → collect_parents nodes m ≡ ok m'
      → In node nodes
      → Map.get node.id m' ≡ some (Set.from_list node.parents)
  unfolding collect_parents
  collect_parents-In [] m m' node h i = absurd i
  collect_parents-In (k ∷ nodes) m m' node h i = ground (
    arith,
    get-insert k.id k.id (Set.from_list k.parents) m,
    same_refl k.id,
    collect_parents-kept nodes (Map.insert k.id (Set.from_list k.parents) m) m' k.id
        (Set.from_list k.parents),
    collect_parents-In nodes (Map.insert k.id (Set.from_list k.parents) m) m' node,
  )

  -- What is collected was there before or is a given node with its parents.
  abbrev Given : List (GraphNode K) → K → List K → Type 0
  Given nodes n ps =
      (node : GraphNode K) × In node nodes × (node.id ≡ n) × (ps ≡ Set.from_list node.parents)

  collect_parents-from :
      (nodes : List (GraphNode K)) (m m' : Map K (List K)) (n : K) (ps : List K)
      → collect_parents nodes m ≡ ok m'
      → Map.get n m' ≡ some ps
      → (Map.get n m ≡ some ps) ⊎ Given nodes n ps
  unfolding collect_parents
  collect_parents-from [] m m' n ps h e = inl (ground arith)
  collect_parents-from (k ∷ nodes) m m' n ps h e =
      let parents = Set.from_list k.parents in
      let rest : collect_parents nodes (Map.insert k.id parents m) ≡ ok m' = ground arith in
      elim (collect_parents-from nodes (Map.insert k.id parents m) m' n ps rest e) [
        | inr (node, i, of_id, of_ps) ↦ inr (node, inr i, of_id, of_ps)
        | inl known ↦ elim (Bool-cases (same n k.id)) [
          | inl t ↦
              inr (
                k,
                inl refl,
                sym (eq_of_same n k.id t),
                ground (arith, get-insert n k.id parents m),
              )
          | inr f ↦ inl (ground (arith, get-insert n k.id parents m))
        ]
      ]

  -- Every node comes after its parents, and once: what stands before it in the order holds its parents
  -- and not the node.
  pub build_topological :
      (nodes : List (GraphNode K)) (index : GraphIndex K) (before after : List K) (n : K)
      → build nodes ≡ ok index
      → index.topological_order ≡ before ++ n ∷ after
      → (x : IndexedNode K) × (Map.get n index.nodes ≡ some x)
        × ((p : K) → In p x.parents → In p before)
        × (In n before → ⊥)
  build_topological nodes index before after n h e =
      let b = build-Built nodes index h in
      let t = subst (IsTopological b.m []) (sym b.order ∙ e) b.inv.topological in
      let ((ps, of_ps, all), fresh) = IsTopological-split b.m [] before after n t in
      let (g, of_g) =
        key-found n b.t.generations (unvisited-zero b.m b.t.generations n ps b.all of_ps) in
      (
        record { parents = ps; generation = g },
        ground (arith, b.at n),
        λ p m.
            (Set.contains-iff-In p before).0
              (nothing_before p before ∙ all p ((Set.contains-iff-In p ps).1 m)),
        λ m. ground (arith, nothing_before n before, (Set.contains-iff-In n before).1 m),
      )

  -- The order lists exactly the nodes of the index. Each given node is a node of the index with the
  -- parents that it names, and each node of the index is a given node with these parents.
  pub build_nodes :
      (nodes : List (GraphNode K)) (index : GraphIndex K) (n : K)
      → build nodes ≡ ok index
      → (In n index.topological_order ↔ ((x : IndexedNode K) × (Map.get n index.nodes ≡ some x)))
        × ((node : GraphNode K)
            → In node nodes
            → (x : IndexedNode K) × (Map.get node.id index.nodes ≡ some x)
              × ((p : K) → In p x.parents ↔ In p node.parents))
        × ((x : IndexedNode K)
            → Map.get n index.nodes ≡ some x
            → (node : GraphNode K) × In node nodes
              × (node.id ≡ n)
              × ((p : K) → In p x.parents ↔ In p node.parents))
  build_nodes nodes index n h =
      let b = build-Built nodes index h in
      (
        (
          λ m.
              let (g, of_g) = key-found n b.t.generations (
                sym (b.inv.ordered n)
                ∙ (Set.contains-iff-In n b.t.topological_order).1 (subst (In n) b.order m)) in
              let (ps, _, of_ps, _, _) = b.inv.finished n g of_g in
              (record { parents = ps; generation = g }, ground (arith, b.at n)),
          λ (x, e).
              let at_n = Node-of nodes index b n x e in
              subst (In n) (sym b.order) (
                (Set.contains-iff-In n b.t.topological_order).0
                  (b.inv.ordered n ∙ ground (arith, at_n.of_generation))),
        ),
        λ node m.
            let of_ps = collect_parents-In nodes [] b.m node b.of_nodes m in
            let (g, of_g) = key-found node.id b.t.generations (
              unvisited-zero b.m b.t.generations node.id (Set.from_list node.parents) b.all
                of_ps) in
            (
              record { parents = Set.from_list node.parents; generation = g },
              ground (arith, b.at node.id),
              λ p. In-from_list p node.parents,
            ),
        λ x e.
            let at_n = Node-of nodes index b n x e in
            elim (collect_parents-from nodes [] b.m n x.parents b.of_nodes at_n.of_parents) [
              | inl there ↦ absurd (nothing_known n x.parents there)
              | inr (node, i, of_id, of_ps) ↦ (
                node,
                i,
                of_id,
                λ p.
                    subst (λ ps. In p ps ↔ In p node.parents) (sym of_ps)
                      (In-from_list p node.parents),
              )
            ],
      )
