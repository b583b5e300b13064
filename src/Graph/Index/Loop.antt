-- ===== src/Graph/Index/Loop.antt =====
-- The loop of `build` from its start to its end.
use rethinking_git.Base.{
  ℕ, zero, suc, ◌+◌, ◌≤◌, Bool, false, Option, none, some, List, [], ◌∷◌, ◌≡◌, refl, sym, subst, ap,
  ◌∙◌, ok, err, arith, Result, ◌==◌, inl, inr, ◌>>=◌, length, Option-cases, List-cases,
}
use rethinking_git.Base.Order.{Ord, same_refl, eq_of_same}
use rethinking_git.Base.Map
use rethinking_git.Base.Map.{Map, get-insert, get_of_Above}
use rethinking_git.Base.Set
use rethinking_git.Graph.Index.{
  Progress, GraphError, generation_overflow, start, parent_counts, without_parents, build_loop,
  visit,
}
use rethinking_git.Graph.Index.Counts.{missing}
use rethinking_git.Graph.Index.Visit.{IsGraph, Inv, unvisited, unvisited-insert}
use rethinking_git.Graph.Index.Round.{visit-Inv}

abbrev is_zero : Option ℕ → Bool
is_zero none = false
is_zero (some count) = count == 0

module _ {K : Type 0} ⦃o : Ord K⦄ where
  missing-start : (ps : List K) → missing ps [] ≡ length ps
  unfolding missing Map.get
  missing-start [] = refl
  missing-start (p ∷ ps) = ap suc (missing-start ps)

  unvisited-start : (m : Map K (List K)) → unvisited m [] ≡ length m
  unfolding unvisited Map.get
  unvisited-start [] = refl
  unvisited-start ((n, ps) ∷ m) = ap suc (unvisited-start m)

  abbrev counted : Option (List K) → Option ℕ
  counted none = none
  counted (some ps) = some (length ps)

  parent_counts-get :
      (m : Map K (List K)) (n : K) → Map.get n (parent_counts m) ≡ counted (Map.get n m)
  unfolding parent_counts Map.get
  parent_counts-get [] n = refl
  parent_counts-get ((k, ps) ∷ m) n = ground (arith, parent_counts-get m n)

  parent_counts-Above : (k : K) (m : Map K (List K)) → Map.Above k m → Map.Above k (parent_counts m)
  unfolding parent_counts
  parent_counts-Above k [] a = tt
  parent_counts-Above k ((n, ps) ∷ m) a = (a.0, parent_counts-Above k m a.1)

  parent_counts-IsSorted : (m : Map K (List K)) → Map.IsSorted m → Map.IsSorted (parent_counts m)
  unfolding parent_counts
  parent_counts-IsSorted [] s = tt
  parent_counts-IsSorted ((n, ps) ∷ m) s =
      (parent_counts-Above n m s.0, parent_counts-IsSorted m s.1)

  without_parents-zero :
      (counts : Map K ℕ) (n : K)
      → Map.IsSorted counts
      → Set.contains n (without_parents counts) ≡ is_zero (Map.get n counts)
  unfolding without_parents Map.get Set.contains
  without_parents-zero [] n s = refl
  without_parents-zero ((k, count) ∷ counts) n s = ground (
    arith,
    without_parents-zero counts n s.1,
    Set.contains-insert n k (without_parents counts),
    eq_of_same n k,
    get_of_Above k counts s.0,
  )

  without_parents-IsSorted : (counts : Map K ℕ) → Set.IsSorted (without_parents counts)
  unfolding without_parents
  without_parents-IsSorted [] = tt
  without_parents-IsSorted ((k, count) ∷ counts) =
      ground
        (arith, without_parents-IsSorted counts, Set.insert-IsSorted k (without_parents counts))

  pub start-Inv : (m : Map K (List K)) → Map.IsSorted m → Inv m (start m)
  unfolding start Map.get Set.contains
  start-Inv m s =
      let ready =
        λ (n : K). without_parents-zero (parent_counts m) n (parent_counts-IsSorted m s) in
      record {
        counts = λ n ps e. ground (arith, parent_counts-get m n, missing-start ps);
        sorted = without_parents-IsSorted (parent_counts m);
        is_ready = λ n h. elim (Option-cases (Map.get n m)) [
          | inl e ↦ absurd (ground (arith, ready n, parent_counts-get m n))
          | inr (ps, e) ↦
              (ps, e, refl, ground (arith, ready n, parent_counts-get m n, missing-start ps))
        ];
        readied =
            λ n ps e new free. ground (arith, ready n, parent_counts-get m n, missing-start ps);
        finished = λ n g e. cc;
        ordered = λ n. refl;
        topological = tt;
      }

  -- How the loop ends: with an overflow, or with no node ready.
  pub data Ended (m : Map K (List K)) (whole : ℕ)
      : Result (GraphError K) (Progress K) → Type 0 where
    overflowed : (n : K) → Ended m whole (err (generation_overflow n))
    emptied :
        (t : Progress K)
        → Inv m t
        → t.ready ≡ []
        → length t.topological_order + unvisited m t.generations ≡ whole
        → Ended m whole (ok t)

  module _ (m c : Map K (List K)) (graph : IsGraph m c) where
    build_loop-empty : (fuel : ℕ) (s : Progress K) → s.ready ≡ [] → build_loop fuel m c s ≡ ok s
    unfolding build_loop
    build_loop-empty zero s e = ground arith
    build_loop-empty (suc fuel) s e = ground arith

    build_loop-next :
        (fuel : ℕ) (s : Progress K) (node : K) (rest : List K)
        → s.ready ≡ node ∷ rest
        → build_loop (suc fuel) m c s ≡ (visit m c node rest s >>= build_loop fuel m c)
    unfolding build_loop
    build_loop-next fuel s node rest e =
        ap (λ r. elim r [ [] ↦ ok s | k ∷ ks ↦ visit m c k ks s >>= λ s'. build_loop fuel m c s' ])
          e

    stuck :
        (s : Progress K)
        → Inv m s
        → unvisited m s.generations ≤ 0
        → (node : K) (rest : List K) → s.ready ≡ node ∷ rest
        → ⊥
    unfolding Set.contains
    stuck s i f node rest e =
        let (ps, q, new, _) =
          i.is_ready node (ground (arith, ap (Set.contains node) e, same_refl node)) in
        let less = unvisited-insert m node ps 0 s.generations graph.sorted q new in omega arith

    pub build_loop-Ended :
        (fuel whole : ℕ) (s : Progress K)
        → Inv m s
        → unvisited m s.generations ≤ fuel
        → length s.topological_order + unvisited m s.generations ≡ whole
        → Ended m whole (build_loop fuel m c s)
    build_loop-Ended zero whole s i f w = elim (List-cases s.ready) [
      | inl e ↦ subst (Ended m whole) (sym (build_loop-empty zero s e)) (emptied s i e w)
      | inr (node, rest, e) ↦ absurd (stuck s i f node rest e)
    ]
    build_loop-Ended (suc fuel) whole s i f w = elim (List-cases s.ready) [
      | inl e ↦ subst (Ended m whole) (sym (build_loop-empty (suc fuel) s e)) (emptied s i e w)
      | inr (node, rest, e) ↦
          let next = build_loop-next fuel s node rest e in
          elim (visit-Inv m c graph s node rest i e) [
            | inl over ↦
                subst (Ended m whole) (sym (next ∙ ap (λ r. r >>= build_loop fuel m c) over))
                  (overflowed node)
            | inr (t, made, i', less, longer) ↦
                subst (Ended m whole) (sym (next ∙ ap (λ r. r >>= build_loop fuel m c) made))
                  (build_loop-Ended fuel whole t i' (omega arith) (omega arith))
          ]
    ]

  -- The loop from its start.
  pub loop-Ended :
      (m c : Map K (List K))
      → IsGraph m c
      → Ended m (length m) (build_loop (length m) m c (start m))
  unfolding start
  loop-Ended m c graph =
      let whole = unvisited-start m in
      build_loop-Ended m c graph (length m) (length m) (start m) (start-Inv m graph.sorted)
        (omega (arith, whole)) (omega (arith, whole))
