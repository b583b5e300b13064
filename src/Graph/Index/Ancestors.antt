-- ===== src/Graph/Index/Ancestors.antt =====
-- The ancestors of a node, and reachability.
use mathlib.Core.List.{reverse}
use rethinking_git.Base.{
  ℕ, zero, suc, ◌+◌, ◌<◌, ◌≤◌, Bool, true, false, Option, some, List, [], ◌∷◌, ◌++◌, ◌≡◌, refl, sym,
  subst, ap, ◌∙◌, ok, arith, if◌then◌else◌, In, In-append, In-reverse, length-reverse, inl, inr,
  ◌⊎◌, ◌↔◌, Bool-cases, length, length-append,
}
use rethinking_git.Base.Order.{Ord, same, same_refl, eq_of_same}
use rethinking_git.Base.Map
use rethinking_git.Base.Map.{Map, key-found}
use rethinking_git.Base.Set
use rethinking_git.Graph.Index.{
  GraphNode, IndexedNode, GraphIndex, build, ancestors_loop, ancestors, count_parents, is_reachable,
}
use rethinking_git.Graph.Index.Order.{build_generations}

module _ {K : Type 0} ⦃o : Ord K⦄ where
  -- `Ancestor nodes n p`: a chain of parents leads from `n` to `p`.
  pub data Ancestor (nodes : Map K (IndexedNode K)) (n : K) : K → Type 0 where
    parent :
        (x : IndexedNode K) (p : K) → Map.get n nodes ≡ some x → In p x.parents → Ancestor nodes n p
    further :
        (q : K) (x : IndexedNode K) (p : K)
        → Ancestor nodes n q
        → Map.get q nodes ≡ some x
        → In p x.parents
        → Ancestor nodes n p

  -- The edges of the nodes that are not found yet.
  unmet : Map K (IndexedNode K) → List K → ℕ
  unmet [] found = 0
  unmet ((k, x) ∷ nodes) found =
      let rest = unmet nodes found in if Set.contains k found then rest else length x.parents + rest

  unmet-insert :
      (nodes : Map K (IndexedNode K)) (found : List K) (k : K)
      → unmet nodes (Set.insert k found) ≤ unmet nodes found
  unfolding unmet
  unmet-insert [] found k = omega arith
  unmet-insert ((j, x) ∷ nodes) found k =
      ground (arith, Set.contains-insert j k found, unmet-insert nodes found k)

  unmet-first :
      (nodes : Map K (IndexedNode K)) (found : List K) (k : K) (x : IndexedNode K)
      → Set.contains k found ≡ false
      → Map.get k nodes ≡ some x
      → unmet nodes (Set.insert k found) + length x.parents ≤ unmet nodes found
  unfolding unmet Map.get
  unmet-first [] found k x n e = cc
  unmet-first ((j, y) ∷ nodes) found k x n e = ground (
    arith,
    Set.contains-insert j k found,
    eq_of_same k j,
    same_refl j,
    unmet-insert nodes found k,
    unmet-first nodes found k x n,
  )

  unmet-all : (nodes : Map K (IndexedNode K)) → unmet nodes [] ≡ count_parents nodes
  unfolding unmet count_parents Set.contains
  unmet-all [] = refl
  unmet-all ((k, x) ∷ nodes) = ap (λ n. length x.parents + n) (unmet-all nodes)

  abbrev pub AreKnown : Map K (IndexedNode K) → List K → Type 0
  AreKnown nodes ks = (k : K) → In k ks → Map.contains_key k nodes ≡ true

  abbrev pub IsClosed : Map K (IndexedNode K) → Type 0
  IsClosed nodes = (n : K) (x : IndexedNode K) → Map.get n nodes ≡ some x → AreKnown nodes x.parents

  -- What the loop finds.
  record Walked (nodes : Map K (IndexedNode K)) (P : K → Type 0) (found pending r : List K)
      : Type 0 where
    keeps : (k : K) → Set.contains k found ≡ true → Set.contains k r ≡ true
    reached : (k : K) → In k pending → Set.contains k r ≡ true
    closed :
        (k : K)
        → Set.contains k r ≡ true
        → (Set.contains k found ≡ true)
          ⊎ ((x : IndexedNode K) (p : K)
              → Map.get k nodes ≡ some x
              → In p x.parents
              → Set.contains p r ≡ true)
    sound : (k : K) → Set.contains k r ≡ true → (Set.contains k found ≡ true) ⊎ P k

  module _ (nodes : Map K (IndexedNode K)) (c : IsClosed nodes) (P : K → Type 0)
      (step : (k p : K) (x : IndexedNode K)
        → P k
        → Map.get k nodes ≡ some x
        → In p x.parents
        → P p) where
    ancestors_loop-Walked :
        (fuel : ℕ) (found pending : List K)
        → AreKnown nodes pending
        → ((k : K) → In k pending → P k)
        → unmet nodes found + length pending ≤ fuel
        → (r : List K) × (ancestors_loop fuel nodes found pending ≡ ok r)
          × Walked nodes P found pending r
    unfolding ancestors_loop
    ancestors_loop-Walked fuel found [] a q f = (
      found,
      refl,
      record {
        keeps = λ k h. h;
        reached = λ k m. absurd m;
        closed = λ k h. inl h;
        sound = λ k h. inl h;
      },
    )
    ancestors_loop-Walked zero found (k ∷ pending) a q f = absurd (omega arith)
    ancestors_loop-Walked (suc fuel) found (k ∷ pending) a q f =
        elim (Bool-cases (Set.contains k found)) [
          | inl old ↦
              let (r, made, w) =
                ancestors_loop-Walked fuel found pending (λ j m. a j (inr m)) (λ j m. q j (inr m))
                  (omega arith) in
              (
                r,
                rw old made,
                record {
                  keeps = w.keeps;
                  reached = λ j m. elim m [
                    | inl e ↦ w.keeps j (ap (λ i. Set.contains i found) e ∙ old)
                    | inr m' ↦ w.reached j m'
                  ];
                  closed = w.closed;
                  sound = w.sound;
                },
              )
          | inr new ↦
              let (x, e) = key-found k nodes (a k (inl refl)) in
              let split = λ (j : K). In-append j (reverse x.parents) pending in
              let back = λ (j : K). In-reverse j x.parents in
              let own = q k (inl refl) in
              let (r, made, w) =
                ancestors_loop-Walked fuel (Set.insert k found) (reverse x.parents ++ pending)
                  (λ j m. ground (arith, split j, back j, a j, c k x e j))
                  (λ j m. elim ((split j).0 m) [
                    | inl p ↦ step k j x own e ((back j).0 p)
                    | inr m' ↦ q j (inr m')
                  ])
                  (omega (
                    arith,
                    unmet-first nodes found k x new e,
                    length-append (reverse x.parents) pending,
                    length-reverse x.parents,
                  )) in
              let inserted = λ (j : K). Set.contains-insert j k found in
              (
                r,
                rw (new, e) made,
                record {
                  keeps = λ j h. w.keeps j (ground (arith, inserted j));
                  reached = λ j m. elim m [
                    | inl same_k ↦ w.keeps j (ground (arith, inserted j, same_refl k))
                    | inr m' ↦ w.reached j ((split j).1 (inr m'))
                  ];
                  closed = λ j h. elim (w.closed j h) [
                    | inr all ↦ inr all
                    | inl i ↦ elim (Bool-cases (same j k)) [
                      | inr other ↦ inl (ground (arith, inserted j))
                      | inl here ↦ inr (λ y p of_y m.
                          w.reached p
                            ((split p).1 (inl ((back p).1 (ground (arith, eq_of_same j k here))))))
                    ]
                  ];
                  sound = λ j h. elim (w.sound j h) [
                    | inr reached ↦ inr reached
                    | inl i ↦ elim (Bool-cases (same j k)) [
                      | inr other ↦ inl (ground (arith, inserted j))
                      | inl here ↦ inr (subst P (sym (eq_of_same j k here)) own)
                    ]
                  ];
                },
              )
        ]

  same_node : (a b : IndexedNode K) → ◌≡◌ {A = Option (IndexedNode K)} (some a) (some b) → a ≡ b
  same_node a b h = cc

  complete :
      (nodes : Map K (IndexedNode K)) (n : K) (x : IndexedNode K) (r : List K)
      → Map.get n nodes ≡ some x
      → ((k : K) → In k x.parents → Set.contains k r ≡ true)
      → ((k : K)
          → Set.contains k r ≡ true
          → (y : IndexedNode K) (p : K) → Map.get k nodes ≡ some y
          → In p y.parents
          → Set.contains p r ≡ true)
      → (p : K) → Ancestor nodes n p
      → Set.contains p r ≡ true
  complete nodes n x r e first closed _ (parent y p of_y m) =
      first p (subst (λ z. In p z.parents) (same_node y x (sym of_y ∙ e)) m)
  complete nodes n x r e first closed _ (further q y p a of_y m) =
      closed q (complete nodes n x r e first closed q a) y p of_y m

  -- The parents of the nodes of an index are its nodes.
  pub build-IsClosed :
      (nodes : List (GraphNode K)) (index : GraphIndex K)
      → build nodes ≡ ok index
      → IsClosed index.nodes
  build-IsClosed nodes index h n x e p m =
      let (y, of_y, _) = (build_generations nodes index n x h e).0 p m in ground arith

  -- In an index that was built, `ancestors` of a node ends, and what it returns is exactly the nodes
  -- that a chain of parents reaches.
  pub ancestors_exact :
      (nodes : List (GraphNode K)) (index : GraphIndex K) (n : K) (x : IndexedNode K)
      → build nodes ≡ ok index
      → Map.get n index.nodes ≡ some x
      → (found : List K) × (ancestors index n ≡ ok found)
        × ((p : K) → In p found ↔ Ancestor index.nodes n p)
  unfolding ancestors
  ancestors_exact nodes index n x h e =
      let c = build-IsClosed nodes index h in
      let (r, made, w) =
        ancestors_loop-Walked index.nodes c (Ancestor index.nodes n)
          (λ k p y a of_y m. further k y p a of_y m) (count_parents index.nodes + length x.parents)
          [] (reverse x.parents) (λ k m. c n x e k ((In-reverse k x.parents).0 m))
          (λ k m. parent x k e ((In-reverse k x.parents).0 m))
          (omega (arith, unmet-all index.nodes, length-reverse x.parents)) in
      (
        r,
        rw e made,
        λ p. (
          λ m. elim (w.sound p ((Set.contains-iff-In p r).1 m)) [
            | inl z ↦ absurd (Set.not_in_empty p z)
            | inr a ↦ a
          ],
          λ a. (Set.contains-iff-In p r).0 (
              complete index.nodes n x r e (λ k m. w.reached k ((In-reverse k x.parents).1 m))
                (λ k h'. elim (w.closed k h') [
                  | inl z ↦ absurd (Set.not_in_empty k z)
                  | inr all ↦ all
                ])
                p a),
        ),
      )

  Ancestor-lower :
      (nodes : List (GraphNode K)) (index : GraphIndex K) (n p : K) (x : IndexedNode K)
      → build nodes ≡ ok index
      → Map.get n index.nodes ≡ some x
      → Ancestor index.nodes n p
      → (y : IndexedNode K) × (Map.get p index.nodes ≡ some y) × (y.generation < x.generation)
  Ancestor-lower nodes index n _ x h e (parent y p of_y m) =
      let (z, of_z, below) = (build_generations nodes index n y h of_y).0 p m in
      (z, of_z, ground (arith, same_node y x (sym of_y ∙ e)))
  Ancestor-lower nodes index n _ x h e (further q y p a of_y m) =
      let (w, of_w, above) = Ancestor-lower nodes index n q x h e a in
      let (z, of_z, below) = (build_generations nodes index q y h of_y).0 p m in
      (z, of_z, ground (arith, same_node y w (sym of_y ∙ of_w)))

  Ancestor-known :
      (nodes : Map K (IndexedNode K)) (n p : K)
      → Ancestor nodes n p
      → (x : IndexedNode K) × (Map.get n nodes ≡ some x)
  Ancestor-known nodes n _ (parent x p e m) = (x, e)
  Ancestor-known nodes n _ (further q x p a e m) = Ancestor-known nodes n q a

  -- A graph that is built has no cycle: no chain of parents leads from a node back to it.
  pub build_acyclic :
      (nodes : List (GraphNode K)) (index : GraphIndex K) (n : K)
      → build nodes ≡ ok index
      → ¬ Ancestor index.nodes n n
  build_acyclic nodes index n h a =
      let (x, e) = Ancestor-known index.nodes n n a in
      let (y, of_y, below) = Ancestor-lower nodes index n n x h e a in
      ground (arith, same_node y x (sym of_y ∙ e))

  reachable_same :
      (index : GraphIndex K) (a d : K) (x : IndexedNode K)
      → Map.get a index.nodes ≡ some x
      → same a d ≡ true
      → is_reachable index a d ≡ ok true
  unfolding is_reachable
  reachable_same index a d x e h = ground arith

  reachable_other :
      (index : GraphIndex K) (a d : K) (x : IndexedNode K) (found : List K)
      → Map.get a index.nodes ≡ some x
      → same a d ≡ false
      → ancestors index d ≡ ok found
      → is_reachable index a d ≡ ok (Set.contains a found)
  unfolding is_reachable
  reachable_other index a d x found e h made = ground arith

  -- For two nodes of a graph that is built, `is_reachable` answers, and says yes exactly if they are
  -- the same or a chain of parents leads from the second to the first.
  pub is_reachable_decides :
      (nodes : List (GraphNode K)) (index : GraphIndex K) (ancestor descendant : K)
      (x y : IndexedNode K)
      → build nodes ≡ ok index
      → Map.get ancestor index.nodes ≡ some x
      → Map.get descendant index.nodes ≡ some y
      → (answer : Bool) × (is_reachable index ancestor descendant ≡ ok answer)
        × ((answer ≡ true) ↔ ((ancestor ≡ descendant) ⊎ Ancestor index.nodes descendant ancestor))
  is_reachable_decides nodes index ancestor descendant x y h e e' =
      let (found, made, exact) = ancestors_exact nodes index descendant y h e' in
      elim (Bool-cases (same ancestor descendant)) [
        | inl here ↦ (
          true,
          reachable_same index ancestor descendant x e here,
          (λ t. inl (eq_of_same ancestor descendant here), λ s. refl),
        )
        | inr other ↦ (
          Set.contains ancestor found,
          reachable_other index ancestor descendant x found e other made,
          (
            λ t. inr ((exact ancestor).0 ((Set.contains-iff-In ancestor found).0 t)),
            λ s. elim s [
              | inl same_one ↦ absurd (ground (arith, same_refl descendant))
              | inr a ↦ (Set.contains-iff-In ancestor found).1 ((exact ancestor).1 a)
            ],
          ),
        )
      ]
