-- ===== src/Graph/Index/Children.antt =====
-- The checks before the loop of `build`, and the children that they collect.
use rethinking_git.Base.{
  true, none, some, List, [], ◌∷◌, ◌≡◌, refl, sym, subst, ap, ◌∙◌, ok, arith, if◌then◌else◌, In,
  inl, inr, ◌⊎◌, ◌↔◌, Option-cases, Bool-cases, >>=-ok,
}
use rethinking_git.Base.Order.{Ord, same, same_refl, eq_of_same}
use rethinking_git.Base.Map
use rethinking_git.Base.Map.{Map, get-insert, insert-IsSorted, get_of_In, In-of_get, key-found}
use rethinking_git.Base.Set
use rethinking_git.Graph.Index.{
  GraphNode, collect_parents, check_node, check_parents, add_child, collect_children, no_children,
}
use rethinking_git.Graph.Index.Visit.{IsGraph}

module _ {K : Type 0} ⦃o : Ord K⦄ where
  abbrev AreSets : Map K (List K) → Type 0
  AreSets m = (n : K) (ps : List K) → Map.get n m ≡ some ps → Set.IsSorted ps

  collect_parents-sets :
      (nodes : List (GraphNode K)) (m m' : Map K (List K))
      → Map.IsSorted m
      → AreSets m
      → collect_parents nodes m ≡ ok m'
      → Map.IsSorted m' × AreSets m'
  unfolding collect_parents
  collect_parents-sets [] m m' s a h =
      let e : m ≡ m' = ground arith in subst (λ x. Map.IsSorted x × AreSets x) e (s, a)
  collect_parents-sets (node ∷ nodes) m m' s a h = elim (Bool-cases (Map.contains_key node.id m)) [
    | inl t ↦ absurd (ground arith)
    | inr f ↦
        collect_parents-sets nodes (Map.insert node.id (Set.from_list node.parents) m) m'
          (insert-IsSorted node.id (Set.from_list node.parents) m s)
          (λ n ps q. elim (Bool-cases (same n node.id)) [
            | inl y ↦
                let e : Set.from_list node.parents ≡ ps =
                  ground (arith, get-insert n node.id (Set.from_list node.parents) m) in
                subst Set.IsSorted e (Set.from_list-IsSorted node.parents)
            | inr x ↦ a n ps (ground (arith, get-insert n node.id (Set.from_list node.parents) m))
          ])
          (ground arith)
  ]

  check_node-known :
      (n : K) (ps : List K) (m : Map K (List K)) (p : K)
      → check_node n ps m ≡ ok tt
      → Set.contains p ps ≡ true
      → Map.contains_key p m ≡ true
  unfolding check_node Set.contains
  check_node-known n [] m p h c = cc
  check_node-known n (q ∷ ps) m p h c = ground (arith, eq_of_same p q, check_node-known n ps m p)

  check_parents-known :
      (entries m : Map K (List K)) (n p : K) (ps : List K)
      → check_parents entries m ≡ ok tt
      → In (n, ps) entries
      → Set.contains p ps ≡ true
      → Map.contains_key p m ≡ true
  unfolding check_parents
  check_parents-known [] m n p ps h i c = absurd i
  check_parents-known ((k, qs) ∷ entries) m n p ps h i c =
      let (_, first, later) = >>=-ok (check_node k qs m) _ h in
      elim i [
        | inl e ↦ check_node-known k qs m p first (ground arith)
        | inr i' ↦ check_parents-known entries m n p ps later i' c
      ]

  -- The children gain what `new` says.
  record Gained (new : K → K → Type 0) (c c' : Map K (List K)) : Type 0 where
    keys : (p : K) → Map.contains_key p c' ≡ Map.contains_key p c
    sets : AreSets c → AreSets c'
    gained :
        (p n : K) (cs cs' : List K)
        → Map.get p c ≡ some cs
        → Map.get p c' ≡ some cs'
        → (Set.contains n cs' ≡ true) ↔ ((Set.contains n cs ≡ true) ⊎ new p n)

  Gained-trans :
      (f g : K → K → Type 0) (a b c : Map K (List K))
      → Gained f a b
      → Gained g b c
      → Gained (λ p n. f p n ⊎ g p n) a c
  Gained-trans f g a b c x y = record {
    keys = λ p. y.keys p ∙ x.keys p;
    sets = λ s. y.sets (x.sets s);
    gained = λ p n cs cs' e e'. elim (Option-cases (Map.get p b)) [
      | inl none_b ↦ absurd (ground (arith, x.keys p))
      | inr (ds, d) ↦ ground (arith, x.gained p n cs ds e d, y.gained p n ds cs' d e')
    ];
  }

  Gained-map :
      (f g : K → K → Type 0) (a b : Map K (List K))
      → ((p n : K) → f p n ↔ g p n)
      → Gained f a b
      → Gained g a b
  Gained-map f g a b e x = record {
    keys = x.keys;
    sets = x.sets;
    gained = λ p n cs cs' h h'. ground (arith, x.gained p n cs cs' h h', e p n);
  }

  insert-Gained :
      (node q : K) (known : List K) (c : Map K (List K))
      → Map.get q c ≡ some known
      → Gained (λ p n. (n ≡ node) × (same p q ≡ true)) c (Map.insert q (Set.insert node known) c)
  insert-Gained node q known c e = record {
    keys = λ p. ground (arith, get-insert p q (Set.insert node known) c, eq_of_same p q);
    sets = λ s p cs h. elim (Bool-cases (same p q)) [
      | inl y ↦
          let e' : Set.insert node known ≡ cs =
            ground (arith, get-insert p q (Set.insert node known) c) in
          subst Set.IsSorted e' (Set.insert-IsSorted node known (s q known e))
      | inr x ↦ s p cs (ground (arith, get-insert p q (Set.insert node known) c))
    ];
    gained = λ p n cs cs' h h'. ground (
      arith,
      get-insert p q (Set.insert node known) c,
      eq_of_same p q,
      Set.contains-insert n node known,
      eq_of_same n node,
      same_refl n,
    );
  }

  add_child-Gained :
      (node : K) (ps : List K) (c : Map K (List K))
      → ((p : K) → Set.contains p ps ≡ true → Map.contains_key p c ≡ true)
      → (c' : Map K (List K)) × (add_child node ps c ≡ ok c')
        × Gained (λ p n. (n ≡ node) × (Set.contains p ps ≡ true)) c c'
  unfolding add_child Set.contains
  add_child-Gained node [] c h = (
    c,
    refl,
    record { keys = λ p. refl; sets = λ s. s; gained = λ p n cs cs' e e'. ground arith },
  )
  add_child-Gained node (q ∷ ps) c h = elim (Option-cases (Map.get q c)) [
    | inl z ↦ absurd (ground (arith, h q, same_refl q))
    | inr (known, e) ↦
        let c₁ = Map.insert q (Set.insert node known) c in
        let (c', made, later) =
          add_child-Gained node ps c₁
            (λ p t. ground (arith, h p, get-insert p q (Set.insert node known) c)) in
        (
          c',
          rw e made,
          Gained-map _ _ c c' (λ p n. ground arith)
              (Gained-trans _ _ c c₁ c' (insert-Gained node q known c e) later),
        )
  ]

  abbrev Lists : Map K (List K) → K → K → Type 0
  Lists entries p n = (ps : List K) × In (n, ps) entries × (Set.contains p ps ≡ true)

  split :
      (node : K) (ps : List K) (entries : Map K (List K)) (p n : K)
      → ((n ≡ node) × (Set.contains p ps ≡ true) ⊎ Lists entries p n)
        ↔ Lists ((node, ps) ∷ entries) p n
  split node ps entries p n = (
    λ s. elim s [
      | inl (e, t) ↦ (ps, inl (ap (λ x. (x, ps)) e), t)
      | inr (qs, i, t) ↦ (qs, inr i, t)
    ],
    λ (qs, i, t). elim i [ inl e ↦ inl (ground arith) | inr i' ↦ inr (qs, i', t) ],
  )

  collect_children-Gained :
      (entries c : Map K (List K))
      → ((p n : K) → Lists entries p n → Map.contains_key p c ≡ true)
      → (c' : Map K (List K)) × (collect_children entries c ≡ ok c') × Gained (Lists entries) c c'
  unfolding collect_children
  collect_children-Gained [] c h = (
    c,
    refl,
    record { keys = λ p. refl; sets = λ s. s; gained = λ p n cs cs' e e'. ground arith },
  )
  collect_children-Gained ((node, ps) ∷ entries) c h =
      let (c₁, made, first) = add_child-Gained node ps c (λ p t. h p node (ps, inl refl, t)) in
      let (c', made', later) =
        collect_children-Gained entries c₁
          (λ p n (qs, i, t). first.keys p ∙ h p n (qs, inr i, t)) in
      (
        c',
        rw made made',
        Gained-map _ _ c c' (split node ps entries) (Gained-trans _ _ c c₁ c' first later),
      )

  no_children-get :
      (m : Map K (List K)) (p : K)
      → Map.get p (no_children m) ≡ (if Map.contains_key p m then some [] else none)
  unfolding no_children Map.get
  no_children-get [] p = refl
  no_children-get ((n, ps) ∷ m) p = ground (arith, no_children-get m p)

  nothing : (n : K) (ps : List K) → Map.get n [] ≡ some ps → ⊥
  unfolding Map.get
  nothing n ps e = cc

  no_children-sets : (m : Map K (List K)) → AreSets (no_children m)
  no_children-sets m n ps e =
      let none_listed : ps ≡ [] = ground (arith, no_children-get m n) in
      subst Set.IsSorted (sym none_listed) tt

  -- The checks before the loop are all that it needs.
  pub checked-IsGraph :
      (nodes : List (GraphNode K)) (m : Map K (List K))
      → collect_parents nodes [] ≡ ok m
      → check_parents m m ≡ ok tt
      → (c : Map K (List K)) × (collect_children m (no_children m) ≡ ok c) × IsGraph m c
  checked-IsGraph nodes m h k =
      let (sorted, sets) =
        collect_parents-sets nodes [] m tt (λ n ps e. absurd (nothing n ps e)) h in
      let known : (p n : K) → Lists m p n → Map.contains_key p m ≡ true =
        λ p n (ps, i, t). check_parents-known m m n p ps k i t in
      let (c, made, g) =
        collect_children-Gained m (no_children m)
          (λ p n l. ground (arith, known p n l, no_children-get m p)) in
      (
        c,
        made,
        record {
          sorted = sorted;
          sets = sets;
          closed = λ n p ps e t. key-found p m (known p n (ps, In-of_get n ps m e, t));
          below = λ p qs e.
              let (cs, e') = key-found p c (g.keys p ∙ ground (arith, no_children-get m p)) in
              (cs, e', g.sets (no_children-sets m) p cs e');
          child = λ p n cs e.
              let empty : Map.get p (no_children m) ≡ some [] =
                ground (arith, g.keys p, no_children-get m p) in
              let (to, from) = g.gained p n [] cs empty e in
              (
                λ t. elim (to t) [
                  | inl f ↦ absurd (Set.not_in_empty n f)
                  | inr (ps, i, t') ↦ (ps, get_of_In n ps m sorted i, t')
                ],
                λ (ps, q, t). from (inr (ps, In-of_get n ps m q, t)),
              );
        },
      )
